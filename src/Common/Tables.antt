-- ===== src/Common/Tables.antt =====
-- The program's 256 by 256 tables, indexed by the two low bytes of an IPv4 address.
use teavpn.Common.Tests.{◌==◌, if◌then◌else◌}
use Prim.Native.Nat.{ℕ, ◌/◌, ◌%◌}
use mathlib.Core.Bool.{Bool, ◌&&◌}

-- `(addr >> 0u) & 0xffu` and `(addr >> 8u) & 0xffu`
abbrev pub byte0 : ℕ → ℕ
byte0 addr = addr % 256

abbrev pub byte1 : ℕ → ℕ
byte1 addr = addr / 256 % 256

abbrev pub Grid {ℓ} : Type ℓ → Type ℓ
Grid A = ℕ → ℕ → A

module _ {ℓ} {A : Type ℓ} where
  -- the table after `table[a][b] = v`
  unfoldable pub grid_set : Grid A → ℕ → ℕ → A → Grid A
  grid_set m a b v x y = if (a == x) && (b == y) then v else m x y

-- Two addresses use one place of a table.
abbrev pub same_place : ℕ → ℕ → Bool
same_place a b = (byte0 a == byte0 b) && (byte1 a == byte1 b)
