-- ===== src/Iface/Quote/Shell.antt =====
-- How the shell reads a quoted word.
use mathlib.Core.List.{append_assoc}
use teavpn.Common.{
  ℕ, suc, ◌+◌, ◌*◌, ◌≡◌, refl, sym, ◌∙◌, ap, arith, Bool, ◌||◌, ◌&&◌, Option, none, some, List, [],
  ◌∷◌, ◌++◌, ◌==◌, leb, if◌then◌else◌, ==_iff, Bool-cases, inl, inr, length, length-append,
}
use teavpn.Iface.Quote.{quote, backslash, escaped, escape_from, escapeshellarg}

-- A byte that stands for itself outside quotes: a letter, a digit, or one of `-./_`.
abbrev pub plain : ℕ → Bool
plain c =
    (leb b'a' c && leb c b'z')
    || (leb b'A' c && leb c b'Z')
    || (leb b'-' c && leb c b'9')
    || (c == b'_')

abbrev put : ℕ → Option (List ℕ × List ℕ) → Option (List ℕ × List ℕ)
put c none = none
put c (some (word, rest)) = some (c ∷ word, rest)

-- A POSIX shell's reading of one word up to a blank or the end, with what follows it. Inside quotes each
-- byte but the quote stands for itself; outside, a backslash hides the byte behind it. What else has a
-- meaning to the shell, and a quote that is not closed, is `none`.
pub data Mode : Type 0 where
  outside : Mode
  quoted : Mode
  hidden : Mode

unfoldable pub read_word : Mode → List ℕ → Option (List ℕ × List ℕ)
read_word outside [] = some ([], [])
read_word quoted [] = none
read_word hidden [] = none
read_word hidden (c ∷ s) = let rest = read_word outside s in if c == b'\n' then none else put c rest
read_word quoted (c ∷ s) =
    let closed = read_word outside s in
    let more = read_word quoted s in if c == quote then closed else put c more
read_word outside (c ∷ s) =
    let opened = read_word quoted s in
    let after = read_word hidden s in
    let more = read_word outside s in
    if c == b' '
    then some ([], c ∷ s)
    else if c == quote
    then opened
    else if c == backslash
    then after
    else if plain c
    then put c more
    else none

read_word-escaped :
    (c : ℕ) (s word rest : List ℕ)
    → read_word quoted s ≡ some (word, rest)
    → read_word quoted (escaped c ++ s) ≡ some (c ∷ word, rest)
unfolding read_word escaped
read_word-escaped c s word rest e = elim (Bool-cases (c == quote)) [
  | inl f ↦ rw (f, escaped, e) (ap (λ d. some (d ∷ word, rest)) (sym ((==_iff c quote).0 f)))
  | inr f ↦ rw (f, escaped, f, e) refl
]

read_word-escape_from :
    (s after word rest : List ℕ)
    → read_word outside after ≡ some (word, rest)
    → read_word quoted (escape_from s ++ (quote ∷ after)) ≡ some (s ++ word, rest)
unfolding escape_from read_word
read_word-escape_from [] after word rest e = e
read_word-escape_from (c ∷ s) after word rest e =
    ap (λ l. read_word quoted l) (append_assoc (escaped c) (escape_from s) (quote ∷ after))
    ∙ read_word-escaped c (escape_from s ++ (quote ∷ after)) (s ++ word) rest
        (read_word-escape_from s after word rest e)

-- how many quotes a text has
abbrev pub quotes : List ℕ → ℕ
quotes [] = 0
quotes (c ∷ s) = if c == quote then suc (quotes s) else quotes s

length-escape_from : (s : List ℕ) → length (escape_from s) ≡ length s + 3 * quotes s
unfolding escape_from escaped
length-escape_from [] = refl
length-escape_from (c ∷ s) =
    let rest = length-escape_from s in
    elim (Bool-cases (c == quote)) [
      | inl f ↦ rw (f, escaped) (omega (arith, rest))
      | inr f ↦ rw (f, escaped) (omega (arith, rest))
    ]

-- The shell reads what escapeshellarg() makes of any text as that text, as (the beginning of) one word
-- of the command: whatever follows it, a text that the shell can read a word from, is read as it would
-- be without it. The quoted text has 2 bytes more than the text, and 3 more for each of its quotes.
pub escapeshellarg_lem :
    (s after word rest : List ℕ)
    → read_word outside after ≡ some (word, rest)
    → (read_word outside (escapeshellarg s ++ after) ≡ some (s ++ word, rest))
      × (length (escapeshellarg s) ≡ length s + 3 * quotes s + 2)
unfolding escapeshellarg read_word
escapeshellarg_lem s after word rest e = (
  ap (λ l. read_word quoted l) (append_assoc (escape_from s) (quote ∷ []) after)
      ∙ read_word-escape_from s after word rest e,
  omega (arith, length-append (escape_from s) (quote ∷ []), length-escape_from s),
)
