-- ===== src/User/Laws.antt =====
-- Who is let in, and with which settings.
use teavpn.Common.{
  ℕ, ◌≡◌, refl, sym, ap, subst, ◌∙◌, arith, Bool, true, false, Option, none, some, List, [], ◌∷◌,
  take, count, Ret, ret, fail, einval, eacces, Bool-cases, Option-cases, inl, inr, ◌⊎◌,
}
use mathlib.Core.Bool.{false≢true}
use teavpn.Packet.{cstr}
use teavpn.User.Parser.{same_text-eq, same_text_refl, last_value, password_lem, address_lem}
use teavpn.User.{
  all_valid, validate_username, same_text, IfInfo, IniFile, auth_text, iface_text, password_text,
  ipv4_text, parse_all, zeroed_ctx, check_user_file, user_path, teavpn2_auth,
}

module _ (strtoul : List ℕ → ℕ) (fopen : List ℕ → Option IniFile)
    (data_dir username password : List ℕ) (iff : IfInfo) where
  abbrev answer : Bool × IfInfo
  answer = teavpn2_auth strtoul fopen data_dir username password iff

  -- The file that lets the user in.
  pub record Admitting (file : IniFile) : Type 0 where
    pub valid : validate_username username ≡ true
    pub found : fopen (user_path data_dir username) ≡ some file
    pub parsed : file.parsed ≡ true
    pub agrees :
        cstr password ≡ take 255 (cstr (last_value auth_text password_text file.entries []))

  stored :
      (file : IniFile)
      → cstr (parse_all strtoul zeroed_ctx file.entries).fpass
        ≡ take 255 (cstr (last_value auth_text password_text file.entries []))
  unfolding cstr
  stored file = password_lem strtoul file.entries zeroed_ctx [] refl

  stored_address :
      (file : IniFile)
      → cstr (parse_all strtoul zeroed_ctx file.entries).iff.ipv4
        ≡ take 15 (cstr (last_value iface_text ipv4_text file.entries []))
  unfolding cstr
  stored_address file = address_lem strtoul file.entries zeroed_ctx [] refl

  same : IniFile → Bool
  same file = same_text (cstr password) (cstr (parse_all strtoul zeroed_ctx file.entries).fpass)

  check_good :
      (file : IniFile)
      → file.parsed ≡ true
      → same file ≡ true
      → check_user_file strtoul file password iff
        ≡ (ret 0, (parse_all strtoul zeroed_ctx file.entries).iff)
  unfolding check_user_file same
  check_good file e f = rw (e, f) refl

  check_bad :
      (file : IniFile)
      → file.parsed ≡ true
      → same file ≡ false
      → check_user_file strtoul file password iff ≡ (fail eacces, iff)
  unfolding check_user_file same
  check_bad file e f = rw (e, f) refl

  check_broken :
      (file : IniFile)
      → file.parsed ≡ false
      → check_user_file strtoul file password iff ≡ (fail einval, iff)
  unfolding check_user_file
  check_broken file e = rw e refl

  opened :
      (file : IniFile) (r : Ret × IfInfo)
      → validate_username username ≡ true
      → fopen (user_path data_dir username) ≡ some file
      → check_user_file strtoul file password iff ≡ r
      → answer ≡ elim r.0 as (λ x. Bool × IfInfo) [ ret _ ↦ (true, r.1) | fail _ ↦ (false, r.1) ]
  unfolding teavpn2_auth
  opened file r valid found e =
      rw (valid, found)
        (ap
          (λ (x : Ret × IfInfo). elim x.0 as (λ y. Bool × IfInfo) [
            | ret n ↦ (true, x.1)
            | fail n ↦ (false, x.1)
          ])
          e)

  admitted : (file : IniFile) → Admitting file → same file ≡ true
  unfolding same
  admitted file a = rw (a.agrees, stored file) (same_text_refl _)

  let_in :
      (file : IniFile)
      → Admitting file
      → answer ≡ (true, (parse_all strtoul zeroed_ctx file.entries).iff)
  let_in file a = opened file _ a.valid a.found (check_good file a.parsed (admitted file a))

  not_found : (file : IniFile) → fopen (user_path data_dir username) ≡ none → ¬ Admitting file
  not_found file e a = ground (arith, sym e ∙ a.found)

  -- The file that is opened is the one that lets in.
  same_file :
      (file other : IniFile)
      → fopen (user_path data_dir username) ≡ some file
      → Admitting other
      → Admitting file
  same_file file other e a =
      subst Admitting
        (ap (λ o. elim o as (λ x. IniFile) [ none ↦ other | some f ↦ f ]) (sym a.found ∙ e)) a

  wrong_file :
      (file : IniFile)
      → validate_username username ≡ true
      → fopen (user_path data_dir username) ≡ some file
      → Admitting file ⊎ ((¬ Admitting file) × (answer ≡ (false, iff)))
  unfolding same
  wrong_file file valid found = elim (Bool-cases file.parsed) [
    | inr e ↦
        inr (λ a. false≢true (sym e ∙ a.parsed), opened file _ valid found (check_broken file e))
    | inl e ↦ elim (Bool-cases (same file)) [
      | inl f ↦ inl (record {
        valid = valid;
        found = found;
        parsed = e;
        agrees =
            same_text-eq (cstr password) (cstr (parse_all strtoul zeroed_ctx file.entries).fpass) f
            ∙ stored file;
      })
      | inr f ↦ inr (
        λ a. false≢true (sym f ∙ admitted file a),
        opened file _ valid found (check_bad file e f),
      )
    ]
  ]

  -- What a file that lets in leads to, and what happens without one.
  abbrev pub Decides : Bool × IfInfo → Type 0
  Decides (ok, iff') =
      ((file : IniFile) × Admitting file
        × (ok ≡ true)
        × (cstr iff'.ipv4 ≡ take 15 (cstr (last_value iface_text ipv4_text file.entries []))))
      ⊎ (((file : IniFile) → ¬ Admitting file) × (ok ≡ false) × (iff' ≡ iff))

  let_in_none : ((file : IniFile) → ¬ Admitting file) → answer ≡ (false, iff) → Decides answer
  let_in_none none_admits e = inr (none_admits, ap (λ x. x.0) e, ap (λ x. x.1) e)

  -- A user is let in exactly if the name has only letters, digits, `_` and `-`, the file of that name
  -- opens and parses, and the password is the file's last one, cut off at 255 bytes (the empty text
  -- if it has none). The private address is then the file's last one, cut off at 15 bytes. A user who
  -- is not let in gets no settings.
  pub teavpn2_auth_lem : Decides (teavpn2_auth strtoul fopen data_dir username password iff)
  unfolding teavpn2_auth
  teavpn2_auth_lem = elim (Bool-cases (validate_username username)) [
    | inr e ↦ let_in_none (λ file a. false≢true (sym e ∙ a.valid)) (rw (e, teavpn2_auth) refl)
    | inl e ↦ elim (Option-cases (fopen (user_path data_dir username))) [
      | inl f ↦ let_in_none (λ file. not_found file f) (rw (e, f, teavpn2_auth) refl)
      | inr (file, f) ↦ elim (wrong_file file e f) [
        | inl a ↦ inl (
          file,
          a,
          ap (λ x. x.0) (let_in file a),
          ap (λ x. cstr x.1.ipv4) (let_in file a) ∙ stored_address file,
        )
        | inr (bad, out) ↦ let_in_none (λ other a. bad (same_file file other f a)) out
      ]
    ]
  ]

none_of : (l : List ℕ) → all_valid l ≡ true → (count b'/' l ≡ 0) × (count b'.' l ≡ 0)
unfolding all_valid
none_of [] h = (refl, refl)
none_of (c ∷ l) h = ground (arith, none_of l)

-- A name that passes `validate_username` has no slash and no dot, so it cannot lead out of the
-- directory of the user files.
validate_username-confined :
    (u : List ℕ)
    → validate_username u ≡ true
    → (count b'/' (cstr u) ≡ 0) × (count b'.' (cstr u) ≡ 0)
validate_username-confined u h = none_of (cstr u) h
