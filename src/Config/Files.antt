-- ===== src/Config/Files.antt =====
-- When reading the configuration file lets the program go on.
use teavpn.Common.{ℕ, ◌≡◌, refl, arith, Bool, true, ◌&&◌, Option, none, some, List, ◌==◌, enoent}
use teavpn.User.{Entry, is_text}
use teavpn.Config.{Opened, no_file, opened, parse_opened, parse_cfg_file, goes_on}
use teavpn.Config.Loops.{all, parse_entries-all}

-- Whether the file at a path does no harm: it parses and all its lines are known, or it is missing at
-- the default path.
abbrev pub good_file : List ℕ → (Entry → Bool) → (List ℕ → Opened) → Option (List ℕ) → Bool
good_file default known fopen none = true
good_file default known fopen (some p) = elim (fopen p) [
  | no_file e ↦ e == enoent && is_text p default
  | opened f ↦ f.parsed && all known f.entries
]

module _ {A : Type 0} (default : List ℕ) (handler : A → Entry → Bool × A) (known : Entry → Bool)
    (knows : (cfg : A) (e : Entry) → (handler cfg e).0 ≡ known e) (fopen : List ℕ → Opened) where
  pub goes_on-good_file :
      (path : Option (List ℕ)) (cfg : A)
      → goes_on (parse_cfg_file handler fopen path cfg).0 path default
        ≡ good_file default known fopen path
  unfolding goes_on parse_opened
  goes_on-good_file none cfg = refl
  goes_on-good_file (some p) cfg = go (fopen p)
    where
      go :
          (o : Opened)
          → goes_on (parse_opened handler o cfg).0 (some p) default ≡ elim o [
            | no_file e ↦ e == enoent && is_text p default
            | opened f ↦ f.parsed && all known f.entries
          ]
      go (no_file e) = refl
      go (opened f) = ground (arith, parse_entries-all handler known knows f.entries cfg)
