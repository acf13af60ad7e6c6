-- ===== src/Session/Init/Fresh.antt =====
-- The pool that a successful set-up leaves.
use teavpn.Common.{
  ℕ, zero, suc, ◌+◌, ◌≤◌, ◌<◌, ◌^◌, ◌≡◌, refl, ◌∙◌, ap, arith, Bool, true, false, none, some, List,
  [], ltb, to_nat, length, count, set, replicate, length-set, length-replicate, if◌then◌else◌, ret,
  drop_all, get_or-out,
}
use teavpn.Stack.{BtStack}
use teavpn.Stack.Lifo as StackValid
use teavpn.Stack.Lifo.{contents, push-IsValid, push-room}
use teavpn.Stack.SelfTest.{bt_stack_test_passes}
use teavpn.Session.{UdpSess, Pool, sess_at, reset_udp_session, lookup_udp_sess}
use teavpn.Session.Valid.{IsValid, in_use}
use teavpn.Session.Insert.{sess_at-set}
use teavpn.Session.Init.{
  zeroed, no_bucket, reset_from, init_udp_session_array, init_udp_session_map, retest, push_down,
  init_udp_session_stack, init_pool,
}

-- an empty stack of `cap` places
record IsEmpty (cap : ℕ) (s : BtStack) : Type 0 where
  valid : StackValid.IsValid s
  places : s.max_sp ≡ cap
  none_held : contents s ≡ []

retest-IsEmpty :
    (rounds cap : ℕ) {s : BtStack} → 0 < cap → IsEmpty cap s → IsEmpty cap (retest rounds s)
unfolding retest
retest-IsEmpty zero cap room e = e
retest-IsEmpty (suc rounds) cap {s} room e =
    let (good, v, nothing, same) =
      bt_stack_test_passes e.valid
        (omega (arith, StackValid.length-contents e.valid, ap length e.none_held))
        (omega (arith, e.places)) in
    retest-IsEmpty rounds cap room
      (record { valid = v; places = same ∙ e.places; none_held = nothing })

record Filled (cap k : ℕ) (s s' : BtStack) : Type 0 where
  valid : StackValid.IsValid s'
  places : s'.max_sp ≡ cap
  counts : (j : ℕ) → count j (contents s') ≡ to_nat (ltb j k) + count j (contents s)
  size : length (contents s') ≡ k + length (contents s)

push_down-Filled :
    (cap k : ℕ) {s : BtStack}
    → StackValid.IsValid s
    → s.max_sp ≡ cap
    → k + length (contents s) ≤ cap
    → (s' : BtStack) × (push_down k s ≡ some s') × Filled cap k s s'
unfolding push_down
push_down-Filled cap zero {s} v e h =
    (s, refl, record { valid = v; places = e; counts = λ j. ground arith; size = omega arith })
push_down-Filled cap (suc k) {s} v e h =
    let (pushed, holds) = push-room k v (omega arith) in
    let (w, same) = push-IsValid k v in
    let (s', run, f) = push_down-Filled cap k w (same ∙ e) (rw holds (omega arith)) in
    (
      s',
      rw (pushed, push_down) run,
      record {
        valid = f.valid;
        places = f.places;
        counts = λ j. ground (arith, f.counts j, holds);
        size = omega (arith, f.size, ap length holds);
      },
    )

reset_from-sess_at :
    (rounds i : ℕ) (arr : List UdpSess) (j : ℕ)
    → i + rounds ≤ length arr
    → sess_at (reset_from rounds i arr) j ≡ (
        if ltb j i
        then sess_at arr j
        else if ltb j (i + rounds)
        then reset_udp_session j
        else sess_at arr j)
unfolding reset_from
reset_from-sess_at zero i arr j h = ground arith
reset_from-sess_at (suc rounds) i arr j h = ground (
  arith,
  length-set arr i (reset_udp_session i),
  sess_at-set arr i j (reset_udp_session i),
  reset_from-sess_at rounds (i + 1) (set arr i (reset_udp_session i)) j,
)

length-reset_from :
    (rounds i : ℕ) (arr : List UdpSess) → length (reset_from rounds i arr) ≡ length arr
unfolding reset_from
length-reset_from zero i arr = refl
length-reset_from (suc rounds) i arr =
    length-reset_from rounds (i + 1) (set arr i (reset_udp_session i))
    ∙ length-set arr i (reset_udp_session i)

module _ (n : ℕ) (s : BtStack) (start : BtStack) (f : Filled n n start s)
    (nothing : contents start ≡ []) (small : n < 2 ^ 16) where
  abbrev fresh : Pool
  fresh = record {
    sess_stk = s;
    sess_map = λ a b. no_bucket;
    sess_arr = reset_from n 0 (replicate n zeroed);
    n_on_sess = 0;
  }

  fresh-sess_at :
      (j : ℕ)
      → sess_at fresh.sess_arr j ≡ (if ltb j n then reset_udp_session j else reset_udp_session 0)
  fresh-sess_at j = ground (
    arith,
    reset_from-sess_at n 0 (replicate n zeroed) j,
    length-replicate n zeroed,
    get_or-out (replicate n zeroed) j (reset_udp_session 0),
  )

  fresh-idle : (j : ℕ) → in_use fresh j ≡ false
  fresh-idle j = ground (arith, fresh-sess_at j)

  fresh-unknown : (j : ℕ) → (sess_at fresh.sess_arr j).is_authenticated ≡ false
  fresh-unknown j = ground (arith, fresh-sess_at j)

  fresh-IsValid : IsValid n fresh
  fresh-IsValid = record {
    small = small;
    size = length-reset_from n 0 (replicate n zeroed) ∙ length-replicate n zeroed;
    stack = f.valid;
    capacity = f.places;
    counted = omega (arith, f.size, ap length nothing);
    indexed = λ i h. ground (arith, fresh-sess_at i);
    free = λ i h. ground (arith, fresh-idle i, f.counts i, nothing);
    no_more = λ i h. ground (arith, f.counts i, nothing);
    placed = λ i a b. ground (arith, fresh-idle i);
    heads = λ a b e. refl;
    unique = λ i j a p hi hj. ground (arith, fresh-idle i);
  }

tested-IsEmpty :
    (debug : Bool) (n : ℕ) {s : BtStack}
    → 0 < n
    → IsEmpty n s
    → IsEmpty n (if debug then retest 100 s else s)
tested-IsEmpty true n room e = retest-IsEmpty 100 n room e
tested-IsEmpty false n room e = e

-- With memory and mutexes at hand, the set-up for 1 to 65535 sessions succeeds, in a debug build too:
-- the pool is valid, no session is counted or authenticated, and no lookup finds one.
pub init_pool-IsValid :
    (debug : Bool) (n : ℕ)
    → 0 < n
    → n < 2 ^ 16
    → (st : Pool) × (init_pool debug none none none n ≡ some (ret 0, st))
      × IsValid n st
      × (st.n_on_sess ≡ 0)
      × ((i : ℕ) → (sess_at st.sess_arr i).is_authenticated ≡ false)
      × ((a p : ℕ) → lookup_udp_sess st a p ≡ none)
unfolding init_pool init_udp_session_array init_udp_session_map init_udp_session_stack
    lookup_udp_sess
init_pool-IsValid debug n room small =
    let new : BtStack = record { sp = n; max_sp = n; arr = replicate n 0 } in
    let empty : IsEmpty n new = record {
      valid = record { room = length-replicate n 0; pointer = omega arith };
      places = refl;
      none_held = drop_all (replicate n 0) n (omega (arith, length-replicate n (zero)));
    } in
    let tested = tested-IsEmpty debug n room empty in
    let (s, run, f) =
      push_down-Filled n n tested.valid tested.places (omega (arith, ap length tested.none_held)) in
    let v = fresh-IsValid n s _ f tested.none_held small in
    (
      fresh n s _ f tested.none_held small,
      rw (run, init_udp_session_stack),
      v,
      refl,
      fresh-unknown n s _ f tested.none_held small,
      λ a p. refl,
    )
