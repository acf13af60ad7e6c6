-- ===== src/Tests/Parts.antt =====
-- The theorems on the stack, the routes, the sessions and the packets at concrete inputs.
use teavpn.Common.{ℕ, ◌≡◌, ◌↔◌, refl, arith, true, false, none, some, List, [], ◌∷◌, ret}
use teavpn.Stack.{BtStack}
use teavpn.Stack.Lifo as StackValid
use teavpn.Stack.Lifo.{Op, put, get, run, list_run, run_refines, contents}
use teavpn.Session.{Pool, create_udp_sess, delete_udp_session, lookup_udp_sess, sess_at}
use teavpn.Session.Valid.{IsValid, serves}
use teavpn.Session.Lookup.{lookup_iff}
use teavpn.Session.Create.{Creates, create_udp_sess_lem}
use teavpn.Session.Delete.{Deletes, delete_udp_session_lem}
use teavpn.Session.Init.{init_pool}
use teavpn.Session.Init.Fresh.{init_pool-IsValid}
use teavpn.Tests.Pools.{
  fresh_pool, fresh_pool-IsValid, fresh_pool-missed, one_client, one_client-IsValid,
  one_client-used,
}

-- an empty stack with three places
abbrev three : BtStack
three = record { sp = 3; max_sp = 3; arr = 0 ∷ 0 ∷ 0 ∷ [] }

three-IsValid : StackValid.IsValid three
three-IsValid = record { room = refl; pointer = omega arith }

abbrev ops : List Op
ops = put 7 ∷ put 8 ∷ get ∷ put 9 ∷ put 5 ∷ put 6 ∷ get ∷ get ∷ get ∷ get ∷ []

run_refines_example : run three ops ≡ list_run 3 (contents three) ops
run_refines_example = run_refines ops three-IsValid

lookup_iff_example :
    (lookup_udp_sess one_client 117440522 5000 ≡ some 0)
    ↔ (serves one_client 0 117440522 5000 ≡ true)
lookup_iff_example = lookup_iff 0 117440522 5000 one_client-IsValid

create_udp_sess_lem_example :
    Creates 4 true
      (some 100)
      fresh_pool
      117440522
      5000
      (create_udp_sess true (some 100) fresh_pool 117440522 5000)
create_udp_sess_lem_example =
    create_udp_sess_lem true (some 100) 117440522 5000 fresh_pool-IsValid
      (fresh_pool-missed 117440522 5000)

delete_udp_session_lem_example : Deletes 4 one_client 0 (delete_udp_session one_client 0)
delete_udp_session_lem_example = delete_udp_session_lem 0 one_client-IsValid one_client-used

init_pool-IsValid_example :
    (st : Pool) × (init_pool true none none none 2 ≡ some (ret 0, st))
    × IsValid 2 st
    × (st.n_on_sess ≡ 0)
    × ((i : ℕ) → (sess_at st.sess_arr i).is_authenticated ≡ false)
    × ((a p : ℕ) → lookup_udp_sess st a p ≡ none)
init_pool-IsValid_example = init_pool-IsValid true 2 (omega arith) (omega arith)
