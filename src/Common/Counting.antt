-- ===== src/Common/Counting.antt =====
-- A list of distinct numbers below a bound that misses one of them is shorter than the bound.
use Prim.Native.Nat.{ℕ, zero, suc, ◌+◌, ◌≤◌, ◌<◌}
use mathlib.Core.Path.{◌≡◌, refl}
use mathlib.Core.List.{List, [], ◌∷◌}
use native.Mathlib.Omega.{arith}
use native.Mathlib.Decide.{ℕ_discrete}
use teavpn.Common.Tests.{ltb, to_nat}
use teavpn.Common.Lists.{length, count}

-- the occurrences of the numbers below `n`
sum_counts : ℕ → List ℕ → ℕ
sum_counts zero l = 0
sum_counts (suc n) l = count n l + sum_counts n l

sum_counts-nil : (n : ℕ) → sum_counts n [] ≡ 0
unfolding sum_counts
sum_counts-nil zero = refl
sum_counts-nil (suc n) = omega (arith, sum_counts-nil n)

sum_counts-cons : (n x : ℕ) (l : List ℕ) → sum_counts n (x ∷ l) ≡ sum_counts n l + to_nat (ltb x n)
unfolding sum_counts
sum_counts-cons zero x l = ground arith
sum_counts-cons (suc n) x l = ground (arith, sum_counts-cons n x l)

length-eq-sum : (n : ℕ) (l : List ℕ) → ((i : ℕ) → n ≤ i → count i l ≡ 0) → length l ≡ sum_counts n l
length-eq-sum n [] h = omega (arith, sum_counts-nil n)
length-eq-sum n (x ∷ l) h =
    ground (arith, sum_counts-cons n x l, h x, length-eq-sum n l (λ i g. omega (arith, h i g)))

sum_counts-le : (n : ℕ) (l : List ℕ) → ((i : ℕ) → i < n → count i l ≤ 1) → sum_counts n l ≤ n
unfolding sum_counts
sum_counts-le zero l h = omega arith
sum_counts-le (suc n) l h =
    omega (arith, h n (omega arith), sum_counts-le n l (λ i g. h i (omega arith)))

sum_counts-lt :
    (n : ℕ) (l : List ℕ) (k : ℕ)
    → ((i : ℕ) → i < n → count i l ≤ 1)
    → k < n
    → count k l ≡ 0
    → sum_counts n l < n
unfolding sum_counts
sum_counts-lt zero l k h g e = absurd (omega arith)
sum_counts-lt (suc n) l k h g e = elim (ℕ_discrete k n) [
  | yes same ↦
      let missed : count n l ≡ 0 = rw (← same) e in
      omega (arith, sum_counts-le n l (λ i d. h i (omega arith)))
  | no other ↦
      omega
        (arith, h n (omega arith), sum_counts-lt n l k (λ i d. h i (omega arith)) (omega arith) e)
]

pub length-lt_of_missing :
    (n : ℕ) (l : List ℕ) (k : ℕ)
    → ((i : ℕ) → n ≤ i → count i l ≡ 0)
    → ((i : ℕ) → i < n → count i l ≤ 1)
    → k < n
    → count k l ≡ 0
    → length l < n
length-lt_of_missing n l k out once lt e =
    omega (arith, length-eq-sum n l out, sum_counts-lt n l k once lt e)

sum_counts-once : (n : ℕ) (l : List ℕ) → ((i : ℕ) → i < n → count i l ≡ 1) → sum_counts n l ≡ n
unfolding sum_counts
sum_counts-once zero l h = refl
sum_counts-once (suc n) l h =
    omega (arith, h n (omega arith), sum_counts-once n l (λ i g. h i (omega arith)))

-- A list in which every number below a bound stands once, and no other, is as long as the bound.
pub length-eq_of_once :
    (n : ℕ) (l : List ℕ)
    → ((i : ℕ) → n ≤ i → count i l ≡ 0)
    → ((i : ℕ) → i < n → count i l ≡ 1)
    → length l ≡ n
length-eq_of_once n l out once = omega (arith, length-eq-sum n l out, sum_counts-once n l once)
