-- ===== src/Store/Plain.antt =====
-- An escaper at which the theorems that need one are instantiated.
use gomodfs.Base.{
  ℕ, Bytes, [], ◌∷◌, Option, none, some, Bool, true, false, ◌&&◌, ◌||◌, leb, not, ◌≡◌, ◌≢◌, arith,
  refl, every, is_empty, if◌then◌else◌, Lacks, ◌==◌,
}
use gomodfs.Store.{Escaper, IsEscaper}

-- An escaper for texts of lower-case letters, digits, dots, hyphens and, in paths, slashes: these
-- are escaped as themselves, and all else is refused.
unfoldable pub plain_byte : ℕ → Bool
plain_byte c =
    (leb b'a' c && leb c b'z') || ((leb b'0' c && leb c b'9') || (c == b'.' || c == b'-'))

unfoldable pub path_byte : ℕ → Bool
unfolding plain_byte
path_byte c = plain_byte c || (c == b'/')

unfoldable pub plain_of : (ℕ → Bool) → Bytes → Option Bytes
unfolding every
plain_of p s = if not (is_empty s) && every p s then some s else none

abbrev pub plain : Escaper
plain = record {
  escape_path = plain_of path_byte;
  unescape_path = plain_of path_byte;
  escape_version = plain_of plain_byte;
  unescape_version = plain_of plain_byte;
}

plain_of_self : (p : ℕ → Bool) (s e : Bytes) → plain_of p s ≡ some e → plain_of p e ≡ some s
unfolding plain_of
plain_of_self p s e h = ground arith

every-Lacks : (p : ℕ → Bool) (b : ℕ) → p b ≡ false → (s : Bytes) → every p s ≡ true → Lacks b s
unfolding every
every-Lacks p b hb [] h = tt
every-Lacks p b hb (c ∷ s) h =
    (λ e. absurd (ground (arith, e)), every-Lacks p b hb s (ground arith))

plain_of-Lacks :
    (p : ℕ → Bool) (b : ℕ) (s e : Bytes)
    → p b ≡ false
    → plain_of p s ≡ some e
    → Lacks b e × (e ≢ [])
unfolding plain_of
plain_of-Lacks p b s e hb h = (every-Lacks p b hb e (ground arith), λ n. ground arith)

pub plain-IsEscaper : IsEscaper plain
unfolding path_byte
plain-IsEscaper = record {
  unescape-escape_path = plain_of_self path_byte;
  unescape-escape_version = plain_of_self plain_byte;
  escaped_path = λ p e. plain_of-Lacks path_byte b'@' p e refl;
  escaped_version = λ v e. plain_of-Lacks plain_byte b'/' v e refl;
}
