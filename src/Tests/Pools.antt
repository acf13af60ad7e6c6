-- ===== src/Tests/Pools.antt =====
-- Small session pools: a fresh one of four places, and one with a client.
use teavpn.Common.{
  ℕ, ◌≡◌, refl, sym, ap, ◌∙◌, subst, arith, true, Option, none, some, [], ◌∷◌, Ret, ret,
}
use teavpn.Stack
use teavpn.Session.{Pool, sess_at, map_insert, create_udp_sess, lookup_udp_sess, reset_udp_session}
use teavpn.Session.Valid.{IsValid}
use teavpn.Session.Create.{create_udp_sess_lem}
use teavpn.Session.Init.{
  init_pool, init_udp_session_array, init_udp_session_map, init_udp_session_stack, no_bucket, blank,
  push_down, retest,
}
use teavpn.Session.Init.Fresh.{init_pool-IsValid}

abbrev pub fresh_pool : Pool
fresh_pool = record {
  sess_stk = record { sp = 0; max_sp = 4; arr = 0 ∷ 1 ∷ 2 ∷ 3 ∷ [] };
  sess_map = λ a b. no_bucket;
  sess_arr =
      reset_udp_session 0 ∷ reset_udp_session 1 ∷ reset_udp_session 2 ∷ reset_udp_session 3 ∷ [];
  n_on_sess = 0;
}

abbrev set_up : Option (Ret × Pool) → Pool
set_up none = blank
set_up (some (r, st)) = st

pub fresh_run : init_pool true none none none 4 ≡ some (ret 0, fresh_pool)
unfolding init_pool init_udp_session_array init_udp_session_map init_udp_session_stack push_down
    retest Stack.init Stack.push Stack.pop Stack.bt_stack_test
fresh_run = refl

pub fresh_pool-IsValid : IsValid 4 fresh_pool
fresh_pool-IsValid =
    let (st, run, v, count, unknown, missed) =
      init_pool-IsValid true 4 (omega arith) (omega arith) in
    subst (IsValid 4) (ap set_up (sym run ∙ fresh_run)) v

-- The client at 10.0.0.7 and port 5000 has session 0 since second 100.
abbrev pub one_client : Pool
one_client = (create_udp_sess true (some 100) fresh_pool 117440522 5000).1

pub fresh_pool-missed : (a p : ℕ) → lookup_udp_sess fresh_pool a p ≡ none
unfolding lookup_udp_sess
fresh_pool-missed a p = refl

pub one_client-IsValid : IsValid 4 one_client
one_client-IsValid =
    (create_udp_sess_lem true (some 100) 117440522 5000 fresh_pool-IsValid
      (fresh_pool-missed 117440522 5000)).0

pub one_client-used : (sess_at one_client.sess_arr 0).is_connected ≡ true
unfolding create_udp_sess Stack.pop map_insert
one_client-used = refl
