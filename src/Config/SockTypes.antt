-- ===== src/Config/SockTypes.antt =====
-- Which texts name a type of socket.
use teavpn.Common.{
  ℕ, suc, ◌+◌, ◌≡◌, refl, ap, arith, Bool, Bool-cases, inl, inr, ◌==◌, false, Option, none, some,
  List, [], ◌∷◌, map, length, ◌∙◌, take, if◌then◌else◌,
}
use teavpn.Packet.{cstr}
use teavpn.Packet.Strings.{cstr-strncpy2}
use teavpn.User.{same_text, is_text}
use teavpn.Config.{bytes, Libc, SockType, sock_udp, sock_tcp, lowered, parse_sock_type}

-- Cutting a text off after more bytes than `t` has does not change whether it is `t`.
is_text-take :
    (f : ℕ → ℕ) (k : ℕ) (t s : List ℕ)
    → is_text (map f (take (suc (length t + k)) s)) t ≡ is_text (map f s) t
unfolding same_text cstr
is_text-take f k [] [] = refl
is_text-take f k [] (c ∷ s) = ground arith
is_text-take f k (d ∷ t) [] = refl
is_text-take f k (d ∷ t) (c ∷ s) =
    let longer : length (d ∷ t) + k ≡ suc (length t + k) = omega arith in
    rw longer (elim (Bool-cases (f c == 0)) [
      | inl h ↦ rw h refl
      | inr h ↦ rw h (ap (λ (b : Bool). if f c == d then b else false) (is_text-take f k t s))
    ])

-- The type of socket that a text of any length names: `tcp` or `udp`, in lower case.
abbrev pub named_type : Libc → List ℕ → Option SockType
named_type libc v =
    let s = map libc.tolower (cstr v) in
    if is_text s (bytes "tcp")
    then some sock_tcp
    else if is_text s (bytes "udp")
    then some sock_udp
    else none

cut_text :
    (libc : Libc) (k : ℕ) (v t : List ℕ)
    → length t ≡ 3
    → is_text (lowered libc (5 + k) v) t ≡ is_text (map libc.tolower (cstr v)) t
cut_text libc k v t h =
    let longer : 5 + k ≡ suc (suc (length t + k)) = omega (arith, h) in
    ap (λ n. is_text (lowered libc n v) t) longer
    ∙ (ap (λ s. is_text (map libc.tolower s) t) (cstr-strncpy2 v (suc (length t + k)))
        ∙ is_text-take libc.tolower k t (cstr v))

-- A text names the same type of socket as an option and in a file, where it is cut off after 4 and
-- after 7 bytes: the one that the whole text names in lower case.
pub parse_sock_type_lem :
    (libc : Libc) (k : ℕ) (v : List ℕ) → parse_sock_type libc (5 + k) v ≡ named_type libc v
unfolding parse_sock_type
parse_sock_type_lem libc k v =
    rw (cut_text libc k v (bytes "tcp") refl, cut_text libc k v (bytes "udp") refl) refl
