-- ===== src/Config/Loops.antt =====
-- The loops over options and over the lines of a file: what they keep, and which value comes last.
use teavpn.Common.{
  ℕ, ◌≡◌, refl, sym, ◌∙◌, ap, Bool, true, false, ◌&&◌, ◌||◌, Option, none, some, List, [], ◌∷◌,
}
use teavpn.User.{Entry, is_text}
use teavpn.User.Parser.{sets}
use teavpn.Config.{
  Opt, Outcome, done, failed, exit_zero, crash, go_on, parse_options, parse_entries, Opened,
  no_file, opened, parse_opened, parse_cfg_file,
}

-- Whether a text is one of a list.
unfoldable pub one_of : List (List ℕ) → List ℕ → Bool
one_of [] name = false
one_of (t ∷ ts) name = is_text name t || one_of ts name

-- Whether there is a value.
abbrev pub is_some : {A : Type 0} → Option A → Bool
is_some o = elim o [ none ↦ false | some x ↦ true ]

unfoldable pub all : {X : Type 0} → (X → Bool) → List X → Bool
all good [] = true
all good (x ∷ xs) = good x && all good xs

-- Whether the code goes on after an option.
abbrev pub is_done : Outcome → Bool
is_done done = true
is_done (failed e) = false
is_done exit_zero = false
is_done crash = false

pub is_done-eq : (r : Outcome) → is_done r ≡ true → r ≡ done
is_done-eq done h = refl
is_done-eq (failed e) h = cc
is_done-eq exit_zero h = cc
is_done-eq crash h = cc

module _ {A : Type 0} where
  pub parse_options-all :
      (step : A → Opt → Outcome × A) (good : Opt → Bool)
      → ((cfg : A) (o : Opt) → is_done (step cfg o).0 ≡ good o)
      → (os : List Opt) (cfg : A) → is_done (parse_options step os cfg).0 ≡ all good os
  unfolding parse_options all
  parse_options-all step good h [] cfg = refl
  parse_options-all step good h (o ∷ os) cfg =
      go (step cfg o) (h cfg o) (parse_options-all step good h os (step cfg o).1)
    where
      go :
          (r : Outcome × A)
          → is_done r.0 ≡ good o
          → is_done (parse_options step os r.1).0 ≡ all good os
          → is_done (go_on r (parse_options step os r.1)).0 ≡ (good o && all good os)
      go (done, cfg') here later = rw (sym here) later
      go (failed e, cfg') here later = rw (sym here) refl
      go (exit_zero, cfg') here later = rw (sym here) refl
      go (crash, cfg') here later = rw (sym here) refl

  pub parse_entries-all :
      (handler : A → Entry → Bool × A) (good : Entry → Bool)
      → ((cfg : A) (e : Entry) → (handler cfg e).0 ≡ good e)
      → (es : List Entry) (cfg : A) → (parse_entries handler es cfg).0 ≡ all good es
  unfolding parse_entries all
  parse_entries-all handler good h [] cfg = refl
  parse_entries-all handler good h (e ∷ es) cfg =
      cc (h cfg e, parse_entries-all handler good h es (handler cfg e).1)

-- The value of the last element that has one, or else `v`.
unfoldable pub last : {X V : Type 0} → (X → Option V) → List X → V → V
last f [] v = v
last f (x ∷ xs) v = last f xs (elim (f x) [ none ↦ v | some w ↦ w ])

-- What holds of the start and of every value holds of the last one.
pub last-keeps :
    {X V : Type 0} (P : V → Type 0) (f : X → Option V)
    → ((x : X) (w : V) → f x ≡ some w → P w)
    → (xs : List X) (v : V) → P v
    → P (last f xs v)
unfolding last
last-keeps P f h [] v p = p
last-keeps {V = V} P f h (x ∷ xs) v p = last-keeps P f h xs _ (go (f x) (h x))
  where
    go : (o : Option V) → ((w : V) → o ≡ some w → P w) → P (elim o [ none ↦ v | some w ↦ w ])
    go none k = p
    go (some w) k = k w refl

module _ {A : Type 0} (P : A → Type 0) where
  pub parse_options-keeps :
      (step : A → Opt → Outcome × A)
      → ((cfg : A) (o : Opt) → P cfg → P (step cfg o).1)
      → (os : List Opt) (cfg : A) → P cfg
      → P (parse_options step os cfg).1
  unfolding parse_options
  parse_options-keeps step keeps [] cfg p = p
  parse_options-keeps step keeps (o ∷ os) cfg p =
      go (step cfg o) (keeps cfg o p)
        (parse_options-keeps step keeps os (step cfg o).1 (keeps cfg o p))
    where
      go :
          (r : Outcome × A)
          → P r.1
          → P (parse_options step os r.1).1
          → P (go_on r (parse_options step os r.1)).1
      go (done, cfg') p' rest = rest
      go (failed e, cfg') p' rest = p'
      go (exit_zero, cfg') p' rest = p'
      go (crash, cfg') p' rest = p'

  pub parse_entries-keeps :
      (handler : A → Entry → Bool × A)
      → ((cfg : A) (e : Entry) → P cfg → P (handler cfg e).1)
      → (es : List Entry) (cfg : A) → P cfg
      → P (parse_entries handler es cfg).1
  unfolding parse_entries
  parse_entries-keeps handler keeps [] cfg p = p
  parse_entries-keeps handler keeps (e ∷ es) cfg p =
      parse_entries-keeps handler keeps es (handler cfg e).1 (keeps cfg e p)

  pub parse_cfg_file-keeps :
      (handler : A → Entry → Bool × A)
      → ((cfg : A) (e : Entry) → P cfg → P (handler cfg e).1)
      → (fopen : List ℕ → Opened) (path : Option (List ℕ)) (cfg : A) → P cfg
      → P (parse_cfg_file handler fopen path cfg).1
  unfolding parse_opened
  parse_cfg_file-keeps handler keeps fopen none cfg p = p
  parse_cfg_file-keeps handler keeps fopen (some path) cfg p = go (fopen path)
    where
      go : (o : Opened) → P (parse_opened handler o cfg).1
      go (no_file e) = p
      go (opened f) = parse_entries-keeps handler keeps f.entries cfg p

-- The lines that the parser gets.
abbrev pub entries_of : Opened → List Entry
entries_of (no_file e) = []
entries_of (opened f) = f.entries

abbrev pub entries_at : (List ℕ → Opened) → Option (List ℕ) → List Entry
entries_at fopen path = elim path [ none ↦ [] | some p ↦ entries_of (fopen p) ]

-- The value `w`, or the one that was there.
abbrev pub or_else : {V : Type 0} → Option V → V → V
or_else o v = elim o [ none ↦ v | some w ↦ w ]

module _ {A V : Type 0} (see : A → V) where
  pub parse_options-last :
      (step : A → Opt → Outcome × A) (f : Opt → Option V)
      → ((cfg : A) (o : Opt) → (step cfg o).0 ≡ done → see (step cfg o).1 ≡ or_else (f o) (see cfg))
      → (os : List Opt) (cfg : A) → (parse_options step os cfg).0 ≡ done
      → see (parse_options step os cfg).1 ≡ last f os (see cfg)
  unfolding parse_options last
  parse_options-last step f sets [] cfg h = refl
  parse_options-last step f sets (o ∷ os) cfg h =
      go (step cfg o) (sets cfg o) (parse_options-last step f sets os (step cfg o).1) h
    where
      go :
          (r : Outcome × A)
          → (r.0 ≡ done → see r.1 ≡ or_else (f o) (see cfg))
          → ((parse_options step os r.1).0 ≡ done
              → see (parse_options step os r.1).1 ≡ last f os (see r.1))
          → (go_on r (parse_options step os r.1)).0 ≡ done
          → see (go_on r (parse_options step os r.1)).1 ≡ last f os (or_else (f o) (see cfg))
      go (done, cfg') here later h = later h ∙ ap (last f os) (here refl)
      go (failed e, cfg') here later h = cc
      go (exit_zero, cfg') here later h = cc
      go (crash, cfg') here later h = cc

  pub parse_entries-last :
      (handler : A → Entry → Bool × A) (f : Entry → Option V)
      → ((cfg : A) (e : Entry) → see (handler cfg e).1 ≡ or_else (f e) (see cfg))
      → (es : List Entry) (cfg : A) → see (parse_entries handler es cfg).1 ≡ last f es (see cfg)
  unfolding parse_entries last
  parse_entries-last handler f sets [] cfg = refl
  parse_entries-last handler f sets (e ∷ es) cfg =
      parse_entries-last handler f sets es (handler cfg e).1 ∙ ap (last f es) (sets cfg e)

  pub parse_cfg_file-last :
      (handler : A → Entry → Bool × A) (f : Entry → Option V)
      → ((cfg : A) (e : Entry) → see (handler cfg e).1 ≡ or_else (f e) (see cfg))
      → (fopen : List ℕ → Opened) (path : Option (List ℕ)) (cfg : A)
      → see (parse_cfg_file handler fopen path cfg).1 ≡ last f (entries_at fopen path) (see cfg)
  unfolding parse_opened last
  parse_cfg_file-last handler f sets fopen none cfg = refl
  parse_cfg_file-last handler f sets fopen (some path) cfg = go (fopen path)
    where
      go : (o : Opened) → see (parse_opened handler o cfg).1 ≡ last f (entries_of o) (see cfg)
      go (no_file e) = refl
      go (opened file) = parse_entries-last handler f sets file.entries cfg
