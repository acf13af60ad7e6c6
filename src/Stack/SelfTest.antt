-- ===== src/Stack/SelfTest.antt =====
-- `bt_stack_test` of src/teavpn2/stack.h: its assertions hold on an empty stack.
use native.Mathlib.Numerals.{add-one}
use teavpn.Common.{
  ◌∙◌, drop_all, lt→ltb, ℕ, zero, suc, ◌+◌, ◌<◌, ◌≡◌, refl, List, [], ◌∷◌, arith, Bool, true,
  length,
}
use teavpn.Stack.{BtStack, pop_empty, fill, push_full, drain, bt_stack_test}
use teavpn.Stack.Lifo.{
  IsValid, contents, pop-IsValid, push-IsValid, pop_refines, push_refines, list_pop, list_push,
}

-- the numbers below `n`, the largest first
count_down : ℕ → List ℕ
count_down zero = []
count_down (suc n) = n ∷ count_down n

length-count_down : (n : ℕ) → length (count_down n) ≡ n
unfolding count_down
length-count_down zero = refl
length-count_down (suc n) = omega (arith, length-count_down n)

-- what a loop of the test leaves: all assertions held, and the stack holds `xs`
record Leaves (s : BtStack) (xs : List ℕ) (r : Bool × BtStack) : Type 0 where
  good : r.0 ≡ true
  valid : IsValid r.1
  same : r.1.max_sp ≡ s.max_sp
  holds : contents r.1 ≡ xs

pop_empty-Leaves : (n : ℕ) {s : BtStack} → IsValid s → contents s ≡ [] → Leaves s [] (pop_empty n s)
unfolding pop_empty list_pop
pop_empty-Leaves zero v e = record { good = refl; valid = v; same = refl; holds = e }
pop_empty-Leaves (suc n) {s} v e =
    ground (arith, pop-IsValid v, pop_refines v, pop_empty-Leaves n (pop-IsValid v).0)

push_full-Leaves :
    (n i : ℕ) {s : BtStack} (xs : List ℕ)
    → IsValid s
    → contents s ≡ xs
    → length xs ≡ s.max_sp
    → Leaves s xs (push_full n i s)
unfolding push_full list_push
push_full-Leaves zero i xs v e f = record { good = refl; valid = v; same = refl; holds = e }
push_full-Leaves (suc n) i {s} xs v e f =
    ground (
      arith,
      push-IsValid i v,
      push_refines i v,
      push_full-Leaves n (i + 1) xs (push-IsValid i v).0,
    )

-- `i` values are on the stack and `n` are still to come.
fill-Leaves :
    (cap n i : ℕ) {s : BtStack}
    → IsValid s
    → contents s ≡ count_down i
    → i + n ≡ cap
    → s.max_sp ≡ cap
    → Leaves s (count_down cap) (fill n i s)
unfolding fill list_push
fill-Leaves cap zero i {s} v e f m = record {
  good = refl;
  valid = v;
  same = refl;
  holds = let same : i ≡ cap = omega arith in rw (← same) e;
}
fill-Leaves cap (suc n) i {s} v e f m =
    let top : count_down (i + 1) ≡ i ∷ count_down i = rw add-one (unfold count_down in refl) in
    ground (
      arith,
      push-IsValid i v,
      push_refines i v,
      length-count_down i,
      top,
      fill-Leaves cap n (i + 1) (push-IsValid i v).0,
    )

drain-Leaves :
    (n : ℕ) {s : BtStack} → IsValid s → contents s ≡ count_down n → Leaves s [] (drain n s)
unfolding drain list_pop count_down
drain-Leaves zero v e = record { good = refl; valid = v; same = refl; holds = e }
drain-Leaves (suc n) {s} v e =
    ground (arith, pop-IsValid v, pop_refines v, drain-Leaves n (pop-IsValid v).0)

-- On an empty valid stack with room for a number, every assertion of `bt_stack_test` holds, and the
-- stack is empty and valid again, of the same capacity, when it returns.
pub bt_stack_test_passes :
    {s : BtStack}
    → IsValid s
    → s.sp ≡ s.max_sp
    → 0 < s.max_sp
    → let (good, s') = bt_stack_test s in
      (good ≡ true) × IsValid s' × (contents s' ≡ []) × (s'.max_sp ≡ s.max_sp)
unfolding bt_stack_test
bt_stack_test_passes {s} v e room =
    let cap = s.max_sp in
    let a = pop_empty-Leaves cap v (drop_all s.arr s.sp (omega arith)) in
    let b =
      fill-Leaves cap cap 0 a.valid (a.holds ∙ unfold count_down in refl) (omega arith) a.same in
    let c =
      push_full-Leaves cap 0 (count_down cap) b.valid b.holds
        (omega (arith, length-count_down cap, a.same, b.same)) in
    let d = drain-Leaves cap c.valid c.holds in
    let z = pop_empty-Leaves cap d.valid d.holds in
    (
      rw (lt→ltb 0 cap room, a.good, b.good, c.good, d.good, z.good),
      z.valid,
      z.holds,
      omega (arith, a.same, b.same, c.same, d.same, z.same),
    )
