-- ===== src/Config/Fields.antt =====
-- Text fields of a fixed size, and numbers of a fixed width.
use teavpn.Common.{ℕ, zero, suc, ◌-◌, ◌^◌, ◌<◌, ◌≡◌, ◌∙◌, arith, List, length, get_or, get_or-set}
use teavpn.Packet.{cstr, strncpy, strncpy2}
use teavpn.Packet.Strings.{length-strncpy, length-strncpy2}
use teavpn.Config.{ℤ, pos, negsuc, cast}

-- A field of `n` bytes whose last byte is NUL, so that the text in it ends inside.
pub record IsField (n : ℕ) (x : List ℕ) : Type 0 where
  pub size : length x ≡ n
  pub ended : get_or x (n - 1) 1 ≡ 0

-- An `int` of 32 bits: from -2 ^ 31 to 2 ^ 31 - 1.
abbrev pub IsInt : ℤ → Type 0
IsInt (pos n) = n < 2 ^ 31
IsInt (negsuc n) = n < 2 ^ 31

pub strncpy2-IsField : (v : List ℕ) (n : ℕ) → 0 < n → IsField n (strncpy2 v n)
unfolding strncpy2
strncpy2-IsField v n h = record {
  size = length-strncpy2 v n;
  ended =
      get_or-set (strncpy n (cstr v)) (n - 1) (n - 1) 0 1
      ∙ ground (arith, length-strncpy n (cstr v));
}

pow_pos : (w : ℕ) → 0 < 2 ^ w
pow_pos zero = omega arith
pow_pos (suc w) = omega (arith, pow_pos w)

pub cast-lt : (w : ℕ) (x : ℤ) → cast w x < 2 ^ w
cast-lt w (pos n) = omega (arith, pow_pos w)
cast-lt w (negsuc n) = omega (arith, pow_pos w)
