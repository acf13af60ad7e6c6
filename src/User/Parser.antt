-- ===== src/User/Parser.antt =====
-- What the parser of a user file keeps: the last value of each key.
use teavpn.Common.{ℕ, ◌≡◌, refl, arith, Bool, true, false, ◌&&◌, List, [], ◌∷◌, if◌then◌else◌, take}
use mathlib.Core.Bool.{false≢true}
use teavpn.Packet.{cstr}
use teavpn.Packet.Strings.{cstr-strncpy2}
use teavpn.User.{
  same_text, UserParseCtx, Entry, is_text, auth_text, iface_text, password_text, username_text,
  ipv4_text, mtu_text, userfile_parse_auth, userfile_parse_iface, userfile_parser, parse_all,
}

pub same_text-eq : (a b : List ℕ) → same_text a b ≡ true → a ≡ b
unfolding same_text
same_text-eq [] [] h = refl
same_text-eq [] (c ∷ b) h = absurd (false≢true h)
same_text-eq (c ∷ a) [] h = absurd (false≢true h)
same_text-eq (c ∷ a) (d ∷ b) h = ground (arith, same_text-eq a b)

pub same_text_refl : (a : List ℕ) → same_text a a ≡ true
unfolding same_text
same_text_refl [] = refl
same_text_refl (c ∷ a) = ground (arith, same_text_refl a)

-- A text is not two texts.
pub distinct : (s a b : List ℕ) → same_text a b ≡ false → is_text s a ≡ true → is_text s b ≡ false
distinct s a b ne h = rw (same_text-eq (cstr s) a h) ne

-- The entry sets this key of this section.
abbrev pub sets : List ℕ → List ℕ → Entry → Bool
sets section key e = is_text e.section section && is_text e.name key

-- The value of the last entry that sets a key, or else the empty text.
pub last_value : List ℕ → List ℕ → List Entry → List ℕ → List ℕ
last_value section key [] before = before
last_value section key (e ∷ es) before =
    last_value section key es (if sets section key e then e.val else before)

module _ (strtoul : List ℕ → ℕ) where
  password_step :
      (ctx : UserParseCtx) (e : Entry) (before : List ℕ)
      → cstr ctx.fpass ≡ take 255 (cstr before)
      → cstr (userfile_parser strtoul ctx e).fpass
        ≡ take 255 (cstr (if sets auth_text password_text e then e.val else before))
  unfolding userfile_parser userfile_parse_auth userfile_parse_iface same_text
  password_step ctx e before h =
      ground (arith, cstr-strncpy2 e.val 255, distinct e.name username_text password_text refl)

  address_step :
      (ctx : UserParseCtx) (e : Entry) (before : List ℕ)
      → cstr ctx.iff.ipv4 ≡ take 15 (cstr before)
      → cstr (userfile_parser strtoul ctx e).iff.ipv4
        ≡ take 15 (cstr (if sets iface_text ipv4_text e then e.val else before))
  unfolding userfile_parser userfile_parse_auth userfile_parse_iface same_text
  address_step ctx e before h = ground (
    arith,
    cstr-strncpy2 e.val 15,
    distinct e.section auth_text iface_text refl,
    distinct e.name mtu_text ipv4_text refl,
  )

  pub password_lem :
      (es : List Entry) (ctx : UserParseCtx) (before : List ℕ)
      → cstr ctx.fpass ≡ take 255 (cstr before)
      → cstr (parse_all strtoul ctx es).fpass
        ≡ take 255 (cstr (last_value auth_text password_text es before))
  unfolding parse_all last_value
  password_lem [] ctx before h = h
  password_lem (e ∷ es) ctx before h =
      password_lem es (userfile_parser strtoul ctx e) _ (password_step ctx e before h)

  pub address_lem :
      (es : List Entry) (ctx : UserParseCtx) (before : List ℕ)
      → cstr ctx.iff.ipv4 ≡ take 15 (cstr before)
      → cstr (parse_all strtoul ctx es).iff.ipv4
        ≡ take 15 (cstr (last_value iface_text ipv4_text es before))
  unfolding parse_all last_value
  address_lem [] ctx before h = h
  address_lem (e ∷ es) ctx before h =
      address_lem es (userfile_parser strtoul ctx e) _ (address_step ctx e before h)
