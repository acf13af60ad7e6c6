-- ===== src/Packet/Strings.antt =====
-- strncpy2() of src/teavpn2/common.h: a C string cut off so that its NUL fits.
use teavpn.Common.{
  ℕ, zero, suc, ◌-◌, ◌≡◌, refl, ◌∙◌, ap, arith, List, [], ◌∷◌, set, set-set, take, length,
  length-set,
}
use teavpn.Packet.{cstr, strncpy, strncpy2}

pub length-strncpy : (n : ℕ) (s : List ℕ) → length (strncpy n s) ≡ n
unfolding strncpy
length-strncpy zero s = refl
length-strncpy (suc n) [] = ap suc (length-strncpy n [])
length-strncpy (suc n) (c ∷ s) = ap suc (length-strncpy n s)

pub length-strncpy2 : (s : List ℕ) (n : ℕ) → length (strncpy2 s n) ≡ n
unfolding strncpy2
length-strncpy2 s n = length-set (strncpy n (cstr s)) (n - 1) 0 ∙ length-strncpy n (cstr s)

cut : (n : ℕ) (s : List ℕ) → cstr (set (strncpy (suc n) (cstr s)) n 0) ≡ take n (cstr s)
unfolding cstr strncpy
cut zero [] = refl
cut zero (c ∷ s) = ground arith
cut (suc n) [] = refl
cut (suc n) (c ∷ s) = ground (arith, cut n s)

-- A field of `n` bytes filled by strncpy2() reads as the string's first `n - 1` bytes.
pub cstr-strncpy2 : (s : List ℕ) (n : ℕ) → cstr (strncpy2 s (suc n)) ≡ take n (cstr s)
unfolding strncpy2
cstr-strncpy2 s n =
    let same : suc n - 1 ≡ n = omega arith in
    ap (λ k. cstr (set (strncpy (suc n) (cstr s)) k 0)) same ∙ cut n s

-- Setting the last byte to NUL once more changes nothing.
pub cstr-set-strncpy2 : (s : List ℕ) (n : ℕ) → cstr (set (strncpy2 s (suc n)) n 0) ≡ take n (cstr s)
unfolding strncpy2
cstr-set-strncpy2 s n =
    let same : suc n - 1 ≡ n = omega arith in
    ap (λ k. cstr (set (set (strncpy (suc n) (cstr s)) k 0) n 0)) same
    ∙ (ap cstr (set-set (strncpy (suc n) (cstr s)) n 0 0) ∙ cut n s)
