-- ===== src/Server/Threads/Family.antt =====
-- A value for each thread, and a sum over the threads.
use teavpn.Common.{ℕ, zero, suc, ◌+◌, ◌≤◌, ◌<◌, ◌≡◌, ◌≢◌, refl, arith, ◌==◌, if◌then◌else◌}
use native.Mathlib.Decide.{ℕ_discrete}

abbrev pub update {ℓ} : {A : Type ℓ} → (ℕ → A) → ℕ → A → ℕ → A
update f i a j = if i == j then a else f j

module _ {A : Type 0} (f : ℕ → A) (i : ℕ) (a : A) (j : ℕ) where
  pub update-here : i ≡ j → update f i a j ≡ a
  update-here h = ground arith

  pub update-there : i ≢ j → update f i a j ≡ f j
  update-there h = ground arith

module _ {A : Type 0} (c : A → ℕ) where
  unfoldable pub total : ℕ → (ℕ → A) → ℕ
  total zero f = 0
  total (suc n) f = c (f n) + total n f

  total-update_past : (n i : ℕ) (f : ℕ → A) (a : A) → n ≤ i → total n (update f i a) ≡ total n f
  unfolding total
  total-update_past zero i f a h = refl
  total-update_past (suc n) i f a h = ground (arith, total-update_past n i f a (omega arith))

  pub total-update :
      (n i : ℕ) (f : ℕ → A) (a : A) → i < n → total n (update f i a) + c (f i) ≡ total n f + c a
  unfolding total
  total-update zero i f a h = absurd (omega arith)
  total-update (suc n) i f a h = elim (ℕ_discrete i n) [
    | yes same ↦ rw (← same) (ground (arith, total-update_past i i f a (omega arith)))
    | no other ↦ ground (arith, total-update n i f a (omega arith))
  ]

  module _ (small : (a : A) → c a ≤ 1) where
    pub total-le : (n : ℕ) (f : ℕ → A) → total n f ≤ n
    unfolding total
    total-le zero f = omega arith
    total-le (suc n) f = omega (arith, small (f n), total-le n f)

    pub total-full : (n : ℕ) (f : ℕ → A) → total n f ≡ n → (j : ℕ) → j < n → c (f j) ≡ 1
    unfolding total
    total-full zero f h j lt = absurd (omega arith)
    total-full (suc n) f h j lt = elim (ℕ_discrete j n) [
      | yes same ↦ rw same (omega (arith, small (f n), total-le n f))
      | no other ↦ total-full n f (omega (arith, small (f n), total-le n f)) j (omega arith)
    ]

    pub total-all : (n : ℕ) (f : ℕ → A) → ((j : ℕ) → j < n → c (f j) ≡ 1) → total n f ≡ n
    unfolding total
    total-all zero f h = refl
    total-all (suc n) f h =
        omega (arith, h n (omega arith), total-all n f (λ j lt. h j (omega arith)))
