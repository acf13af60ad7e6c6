-- ===== src/Common/Result.antt =====
-- What a C function of the program returns as a signed status: a value, or a negated errno.
use mathlib.Core.Path.{◌≡◌, refl}
use Prim.Native.Nat.{ℕ}

-- `ret n` is the C value n (not negative); `fail e` is the C value -e, for an errno e > 0.
pub data Ret : Type 0 where
  ret : ℕ → Ret
  fail : ℕ → Ret

-- The errno values that the code tests or returns (Linux, generic and x86).
abbrev pub enoent : ℕ
enoent = 2

abbrev pub eintr : ℕ
eintr = 4

abbrev pub eagain : ℕ
eagain = 11

abbrev pub enomem : ℕ
enomem = 12

abbrev pub ebadmsg : ℕ
ebadmsg = 74

abbrev pub enetdown : ℕ
enetdown = 100

abbrev pub etimedout : ℕ
etimedout = 110

abbrev pub eacces : ℕ
eacces = 13

abbrev pub einval : ℕ
einval = 22

abbrev pub eoverflow : ℕ
eoverflow = 75

abbrev pub ebadrqc : ℕ
ebadrqc = 56

abbrev pub econnreset : ℕ
econnreset = 104

-- A statement that is made for a result that is not an error.
abbrev pub IfOk : Ret → Type 0 → Type 0
IfOk (ret n) P = P
IfOk (fail e) P = Unit {0}

pub IfOk_intro : (r : Ret) (P : Type 0) → ((n : ℕ) → r ≡ ret n → P) → IfOk r P
IfOk_intro (ret n) P h = h n refl
IfOk_intro (fail e) P h = tt
