-- ===== src/Stack/Lifo.antt =====
-- The stack of src/teavpn2/stack.h against a bounded last-in first-out list.
use teavpn.Common.{
  ℕ, zero, suc, ◌+◌, ◌-◌, ◌≤◌, ◌<◌, ◌≡◌, refl, ◌∙◌, ap, Option, none, some, List, [], ◌∷◌, arith,
  inl, inr, ◌==◌, if◌then◌else◌, Bool-cases, length, drop, get_or, set, length-set, length-drop,
  drop-eq-cons, drop_all,
}
use teavpn.Stack.{BtStack, pop, push}

-- The pointer lies in the array, which has `max_sp` places.
pub record IsValid (s : BtStack) : Type 0 where
  pub room : length s.arr ≡ s.max_sp
  pub pointer : s.sp ≤ s.max_sp

-- The numbers on the stack, the top first.
abbrev pub contents : BtStack → List ℕ
contents s = drop s.sp s.arr

pub length-contents : {s : BtStack} → IsValid s → length (contents s) + s.sp ≡ s.max_sp
length-contents {s} v = omega (arith, length-drop s.sp s.arr)

-- The abstract operations, on the list of the numbers held.
unfoldable pub list_pop : List ℕ → Option ℕ × List ℕ
list_pop [] = (none, [])
list_pop (x ∷ xs) = (some x, xs)

unfoldable pub list_push : ℕ → List ℕ → ℕ → Option ℕ × List ℕ
list_push cap xs n = if length xs == cap then (none, xs) else (some n, n ∷ xs)

pub pop-IsValid : {s : BtStack} → IsValid s → IsValid (pop s).1 × ((pop s).1.max_sp ≡ s.max_sp)
unfolding pop
pop-IsValid v = ground arith

pub push-IsValid :
    {s : BtStack} (n : ℕ) → IsValid s → IsValid (push s n).1 × ((push s n).1.max_sp ≡ s.max_sp)
unfolding push
push-IsValid {s} n v = ground (arith, length-set s.arr (s.sp - 1) n)

pub pop_refines :
    {s : BtStack} → IsValid s → ((pop s).0, contents (pop s).1) ≡ list_pop (contents s)
unfolding pop list_pop
pop_refines {s} v = elim (Bool-cases (s.sp == s.max_sp)) [
  | inl e ↦ rw (e, drop_all s.arr s.sp (ground arith))
  | inr e ↦
      let cut : drop s.sp s.arr ≡ get_or s.arr s.sp 0 ∷ drop (s.sp + 1) s.arr =
        drop-eq-cons s.arr s.sp 0 (ground arith)
        ∙ ap (λ k. get_or s.arr s.sp 0 ∷ drop k s.arr) {x = suc s.sp} (omega arith) in
      rw (e, cut)
]

contents-set :
    (arr : List ℕ) (sp n : ℕ) → sp < length arr → drop sp (set arr sp n) ≡ n ∷ drop (suc sp) arr
contents-set [] sp n h = absurd (omega arith)
contents-set (x ∷ arr) zero n h = refl
contents-set (x ∷ arr) (suc sp) n h = contents-set arr sp n (omega arith)

pub push_refines :
    {s : BtStack} (n : ℕ)
    → IsValid s
    → ((push s n).0, contents (push s n).1) ≡ list_push s.max_sp (contents s) n
unfolding push list_push
push_refines {s} n v = elim (Bool-cases (s.sp == 0)) [
  | inl e ↦ ground (arith, length-contents v)
  | inr e ↦
      let back : suc (s.sp - 1) ≡ s.sp = ground arith in
      let cut : drop (s.sp - 1) (set s.arr (s.sp - 1) n) ≡ n ∷ drop s.sp s.arr =
        contents-set s.arr (s.sp - 1) n (ground arith) ∙ ap (λ k. n ∷ drop k s.arr) back in
      ground (arith, length-contents v, cut)
]

-- The same, read off the contents.
pub pop-nil : {s : BtStack} → IsValid s → contents s ≡ [] → pop s ≡ (none, s)
unfolding pop
pop-nil {s} v e = ground (arith, length-contents v)

pub pop-cons :
    {s : BtStack} {i : ℕ} {rest : List ℕ}
    → IsValid s
    → contents s ≡ i ∷ rest
    → ((pop s).0 ≡ some i) × (contents (pop s).1 ≡ rest)
unfolding list_pop
pop-cons v e = ground (arith, pop_refines v)

pub push-room :
    {s : BtStack} (n : ℕ)
    → IsValid s
    → length (contents s) < s.max_sp
    → ((push s n).0 ≡ some n) × (contents (push s n).1 ≡ n ∷ contents s)
unfolding list_push
push-room n v h = ground (arith, push_refines n v)

-- A client's calls, and what each returns.
pub data Op : Type 0 where
  put : ℕ → Op
  get : Op

unfoldable pub run : BtStack → List Op → List (Option ℕ)
run s [] = []
run s (put n ∷ ops) = let (r, s') = push s n in r ∷ run s' ops
run s (get ∷ ops) = let (r, s') = pop s in r ∷ run s' ops

unfoldable pub list_run : ℕ → List ℕ → List Op → List (Option ℕ)
list_run cap xs [] = []
list_run cap xs (put n ∷ ops) = let (r, xs') = list_push cap xs n in r ∷ list_run cap xs' ops
list_run cap xs (get ∷ ops) = let (r, xs') = list_pop xs in r ∷ list_run cap xs' ops

-- No sequence of pushes and pops tells a valid stack from a last-in first-out list of at most
-- `max_sp` numbers that holds the same numbers.
pub run_refines :
    (ops : List Op) {s : BtStack} → IsValid s → run s ops ≡ list_run s.max_sp (contents s) ops
unfolding run list_run
run_refines [] v = refl
run_refines (put n ∷ ops) {s} v =
    let (w, same) = push-IsValid n v in rw (run_refines ops w, ← push_refines n v, same)
run_refines (get ∷ ops) {s} v =
    let (w, same) = pop-IsValid v in rw (run_refines ops w, ← pop_refines v, same)
