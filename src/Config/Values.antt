-- ===== src/Config/Values.antt =====
-- The value of an option or of a line of the file.
use teavpn.Common.{
  ℕ, ◌≡◌, ap, subst, Bool, true, false, Option, none, some, List, [], ◌==◌, if◌then◌else◌,
}
use teavpn.User.{Entry}
use teavpn.User.Parser.{sets}
use teavpn.Config.{Opt}
use teavpn.Config.Loops.{or_else}

-- The argument of an option.
abbrev pub text_of : Opt → List ℕ
text_of o = elim o.optarg as (λ x. List ℕ) [ none ↦ [] | some v ↦ v ]

-- The value of an option with the character `c`.
abbrev pub of_option : {V : Type 0} → ℕ → (List ℕ → V) → Opt → Option V
of_option {V} c g o =
    if o.opt == c
    then elim o.optarg as (λ x. Option V) [ none ↦ none | some v ↦ some (g v) ]
    else none

-- The value of a line that sets a name of a section.
abbrev pub of_line : {V : Type 0} → List ℕ → List ℕ → (List ℕ → V) → Entry → Option V
of_line section name g e = if sets section name e then some (g e.val) else none

module _ {V : Type 0} (P : V → Type 0) (g : List ℕ → V) (holds : (v : List ℕ) → P (g v)) where
  some-keeps : (b : Bool) (v : List ℕ) (w : V) → (if b then some (g v) else none) ≡ some w → P w
  some-keeps true v w e = subst P (ap (λ o. or_else o (g v)) e) (holds v)
  some-keeps false v w e = cc

  pub of_option-keeps : (c : ℕ) (o : Opt) (w : V) → of_option c g o ≡ some w → P w
  of_option-keeps c o w = go (o.opt == c) o.optarg
    where
      go :
          (b : Bool) (x : Option (List ℕ))
          → (if b then elim x as (λ y. Option V) [ none ↦ none | some v ↦ some (g v) ] else none)
            ≡ some w
          → P w
      go true none e = cc
      go true (some v) e = some-keeps true v w e
      go false x e = cc

  pub of_line-keeps :
      (section name : List ℕ) (l : Entry) (w : V) → of_line section name g l ≡ some w → P w
  of_line-keeps section name l w = some-keeps (sets section name l) l.val w
