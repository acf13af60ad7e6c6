-- ===== src/Iface/Quote.antt =====
-- escapeshellarg() of src/teavpn2/net/linux/iface.c, for a text without its final NUL.
pub mod Shell
use teavpn.Common.{ℕ, List, [], ◌∷◌, ◌++◌, ◌==◌, if◌then◌else◌}

abbrev pub quote : ℕ
quote = b'\''

abbrev pub backslash : ℕ
backslash = b'\\'

-- What one round of the loop puts into the buffer.
unfoldable pub escaped : ℕ → List ℕ
escaped c = if c == quote then quote ∷ backslash ∷ quote ∷ quote ∷ [] else c ∷ []

unfoldable pub escape_from : List ℕ → List ℕ
escape_from [] = []
escape_from (c ∷ s) = escaped c ++ escape_from s

unfoldable pub escapeshellarg : List ℕ → List ℕ
escapeshellarg s = quote ∷ (escape_from s ++ (quote ∷ []))
