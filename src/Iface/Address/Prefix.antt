-- ===== src/Iface/Address/Prefix.antt =====
-- The length of the prefix.
use teavpn.Common.{
  ℕ, zero, suc, ◌+◌, ◌-◌, ◌*◌, ◌/◌, ◌^◌, ◌≤◌, ◌<◌, ◌≡◌, ◌⊎◌, refl, sym, ◌∙◌, ap, arith, ◌==◌, false,
  inl, inr,
}
use teavpn.Iface.Address.{count_bits, cidr_of}

pow_step : (n : ℕ) → 2 ^ suc n ≡ 2 * 2 ^ n
pow_step n = omega arith

positive : (n : ℕ) → 0 < 2 ^ n
positive zero = omega arith
positive (suc n) = omega (arith, positive n, pow_step n)

Nat_cases : (n : ℕ) → (n ≡ 0) ⊎ (0 < n)
Nat_cases zero = inl refl
Nat_cases (suc n) = inr (omega arith)

count_bits-zero : (fuel : ℕ) → count_bits fuel 0 ≡ 0
unfolding count_bits
count_bits-zero zero = refl
count_bits-zero (suc fuel) = refl

count_bits-step : (fuel n : ℕ) → 0 < n → count_bits (suc fuel) n ≡ suc (count_bits fuel (n / 2))
unfolding count_bits
count_bits-step fuel n h = let e = not_zero n h in rw e refl
  where
    not_zero : (n : ℕ) → 0 < n → (n == 0) ≡ false
    not_zero n h = ground arith

-- More fuel than the number has binary digits changes nothing.
count_bits_enough :
    (fuel extra n : ℕ) → n < 2 ^ fuel → count_bits (fuel + extra) n ≡ count_bits fuel n
count_bits_enough zero extra n h =
    let e : n ≡ 0 = omega arith in rw (e, count_bits-zero (0 + extra), count_bits-zero 0) refl
count_bits_enough (suc fuel) extra n h = elim (Nat_cases n) [
  | inl z ↦ rw (z, count_bits-zero (suc fuel + extra), count_bits-zero (suc fuel)) refl
  | inr g ↦
      (let e : suc fuel + extra ≡ suc (fuel + extra) = omega arith in
        rw e (
          count_bits-step (fuel + extra) n g
          ∙ (ap suc (count_bits_enough fuel extra (n / 2) (omega (arith, h, pow_step fuel)))
              ∙ sym (count_bits-step fuel n g))))
]

-- The number of digits is the least power of two above the number.
count_bits_bound :
    (fuel n : ℕ)
    → n < 2 ^ fuel
    → (n < 2 ^ count_bits fuel n) × (0 < n → 2 ^ count_bits fuel n ≤ 2 * n)
count_bits_bound zero n h =
    let e : n ≡ 0 = omega arith in
    rw (e, count_bits-zero 0) (omega arith, λ g. absurd (omega (arith, g)))
count_bits_bound (suc fuel) n h = elim (Nat_cases n) [
  | inl z ↦ rw (z, count_bits-zero (suc fuel)) (omega arith, λ g. absurd (omega (arith, g)))
  | inr g ↦
      (let (above, below) = count_bits_bound fuel (n / 2) (omega (arith, h, pow_step fuel)) in
        let c = count_bits fuel (n / 2) in
        rw (count_bits-step fuel n g, pow_step c)
          (
            omega (arith, above),
            λ g'. elim (Nat_cases (n / 2)) [
              | inl z ↦
                  (let one : c ≡ 0 = ap (count_bits fuel) z ∙ count_bits-zero fuel in
                    rw one (omega (arith, g)))
              | inr k ↦ omega (arith, below k)
            ],
          ))
]

count_bits-ones : (p extra : ℕ) → count_bits (p + extra) (2 ^ p - 1) ≡ p
count_bits-ones zero extra = count_bits-zero (0 + extra)
count_bits-ones (suc p) extra =
    let e : suc p + extra ≡ suc (p + extra) = omega arith in
    let half : (2 ^ suc p - 1) / 2 ≡ 2 ^ p - 1 = omega (arith, pow_step p, positive p) in
    rw e (
      count_bits-step (p + extra) (2 ^ suc p - 1) (omega (arith, pow_step p, positive p))
      ∙ (ap (λ m. suc (count_bits (p + extra) m)) half ∙ ap suc (count_bits-ones p extra)))

-- Counting the digits of a mask of 32 bits ends: 32 rounds are enough, whatever number more are
-- allowed. The result is the number of binary digits of the mask as the processor reads it: the mask
-- is below that power of two, and not below half of it. For a mask of which the low `p` bits are
-- set, and no others, `p` up to 32, it is `p`.
pub cidr_of_lem :
    (extra mask p : ℕ)
    → mask < 2 ^ 32
    → p ≤ 32
    → (count_bits (32 + extra) mask ≡ cidr_of mask)
      × (mask < 2 ^ cidr_of mask)
      × (2 ^ cidr_of mask ≤ 2 * mask + 1)
      × (cidr_of (2 ^ p - 1) ≡ p)
cidr_of_lem extra mask p h g =
    let (above, below) = count_bits_bound 32 mask h in
    let whole : 32 ≡ p + (32 - p) = omega arith in
    (
      count_bits_enough 32 extra mask h,
      above,
      elim (Nat_cases mask) [
        | inl z ↦
            (let none_set : cidr_of mask ≡ 0 = ap cidr_of z ∙ count_bits-zero 32 in
              rw none_set (omega arith))
        | inr k ↦ omega (arith, below k)
      ],
      ap (λ k. count_bits k (2 ^ p - 1)) whole ∙ count_bits-ones p (32 - p),
    )
