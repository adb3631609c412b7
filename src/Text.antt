-- ===== src/Text.antt =====
-- The methods of Rust's `str` that the crates use. A text is the list of its code points, or of its
-- bytes where the program asks for bytes; the two agree on all that is tested here for ASCII.
pub mod Order
pub mod Unique
pub mod Utf8
pub mod Lines
pub mod Chars
pub mod Search
pub mod Integer
use Prim.Native.Char.{code}
use Prim.Native.String.{String}
use dns_announce.Shared.{
  ℕ, ◌+◌, ◌≡◌, refl, Bool, true, false, ◌&&◌, ◌||◌, List, [], ◌∷◌, map, arith, ◌==◌, leb,
  if◌then◌else◌, ap, ◌∙◌,
}

abbrev pub Text : Type 0
Text = List ℕ

abbrev pub codes : String → Text
codes String.[] = []
codes (String.◌∷◌ c s) = code c ∷ codes s

-- `split('.')`: the pieces between the dots, at least one.
unfoldable pub split_cons : ℕ → Bool → List Text → List Text
split_cons c true pieces = [] ∷ pieces
split_cons c false [] = (c ∷ []) ∷ []
split_cons c false (p ∷ pieces) = (c ∷ p) ∷ pieces

unfoldable pub split_dots : Text → List Text
split_dots [] = [] ∷ []
split_dots (c ∷ cs) = split_cons c (c == b'.') (split_dots cs)

-- `trim_end_matches('.')`
unfoldable pub trim_cons : ℕ → Text → Text
trim_cons c [] = if c == b'.' then [] else c ∷ []
trim_cons c (d ∷ rest) = c ∷ d ∷ rest

unfoldable pub trim_end_dots : Text → Text
trim_end_dots [] = []
trim_end_dots (c ∷ cs) = trim_cons c (trim_end_dots cs)

-- `char::to_ascii_lowercase` and `is_ascii_alphanumeric`.
unfoldable pub lower_char : ℕ → ℕ
lower_char c = if leb b'A' c && leb c b'Z' then c + 32 else c

unfoldable pub is_ascii_alphanumeric : ℕ → Bool
is_ascii_alphanumeric c =
    (leb b'0' c && leb c b'9') || (leb b'A' c && leb c b'Z') || (leb b'a' c && leb c b'z')

pub lower_char_idem : (c : ℕ) → lower_char (lower_char c) ≡ lower_char c
unfolding lower_char
lower_char_idem c = ground arith

-- No dot at the end.
pub trim_cons_idem :
    (c : ℕ) (t : Text) → trim_end_dots t ≡ t → trim_end_dots (trim_cons c t) ≡ trim_cons c t
unfolding trim_cons trim_end_dots
trim_cons_idem c [] h = ground arith
trim_cons_idem c (d ∷ rest) h = ground (arith, ap (trim_cons c) h)

pub trim_end_dots_idem : (t : Text) → trim_end_dots (trim_end_dots t) ≡ trim_end_dots t
unfolding trim_end_dots
trim_end_dots_idem [] = refl
trim_end_dots_idem (c ∷ cs) = trim_cons_idem c (trim_end_dots cs) (trim_end_dots_idem cs)

pub trim_cons-lower :
    (c : ℕ) (t : Text)
    → trim_cons (lower_char c) (map lower_char t) ≡ map lower_char (trim_cons c t)
unfolding trim_cons lower_char
trim_cons-lower c [] = ground arith
trim_cons-lower c (d ∷ rest) = refl

pub trim_end_dots-lower :
    (t : Text) → trim_end_dots (map lower_char t) ≡ map lower_char (trim_end_dots t)
unfolding trim_end_dots
trim_end_dots-lower [] = refl
trim_end_dots-lower (c ∷ cs) =
    ap (trim_cons (lower_char c)) (trim_end_dots-lower cs) ∙ trim_cons-lower c (trim_end_dots cs)
