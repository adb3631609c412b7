-- ===== src/Text/Lines.antt =====
-- `str::lines`, `trim`, `split_whitespace().next()` and `strip_prefix` of Rust.
use dns_announce.Shared.{
  ℕ, ◌≡◌, ◌≢◌, refl, ap, ◌∙◌, inl, inr, Bool, true, false, ◌&&◌, ◌||◌, Option, none, some, List, [],
  ◌∷◌, ◌++◌, arith, ◌==◌, leb, if◌then◌else◌, All, append_assoc, append-nil, is_empty, Bool-cases,
  if_cases,
}

abbrev Text : Type 0
Text = List ℕ

-- `char::is_whitespace`
unfoldable pub is_whitespace : ℕ → Bool
is_whitespace c =
    (leb 9 c && leb c 13)
    || (c == 0x20)
    || (c == 0x85)
    || (c == 0xa0)
    || (c == 0x1680)
    || (leb 0x2000 c && leb c 0x200a)
    || (c == 0x2028)
    || (c == 0x2029)
    || (c == 0x202f)
    || (c == 0x205f)
    || (c == 0x3000)

-- A line loses one carriage return before its newline.
unfoldable pub strip_cr : Text → Text
strip_cr [] = []
strip_cr (c ∷ []) = if c == b'\r' then [] else c ∷ []
strip_cr (c ∷ d ∷ rest) = c ∷ strip_cr (d ∷ rest)

-- `lines`, with the line read so far. An empty rest behind the last newline is no line.
unfoldable pub lines_from : Text → Text → List Text
lines_from line [] = if is_empty line then [] else line ∷ []
lines_from line (c ∷ cs) = elim (c == b'\n') [
  | true ↦ strip_cr line ∷ lines_from [] cs
  | false ↦ lines_from (line ++ (c ∷ [])) cs
]

unfoldable pub lines : Text → List Text
lines s = lines_from [] s

unfoldable pub trim_start : Text → Text
trim_start [] = []
trim_start (c ∷ cs) = let rest = trim_start cs in if is_whitespace c then rest else c ∷ cs

unfoldable pub trim_end_cons : ℕ → Text → Text
trim_end_cons c [] = if is_whitespace c then [] else c ∷ []
trim_end_cons c (d ∷ rest) = c ∷ d ∷ rest

unfoldable pub trim_end : Text → Text
trim_end [] = []
trim_end (c ∷ cs) = trim_end_cons c (trim_end cs)

unfoldable pub trim : Text → Text
trim s = trim_end (trim_start s)

-- The text up to its first whitespace.
unfoldable pub word : Text → Text
word [] = []
word (c ∷ cs) = let rest = word cs in if is_whitespace c then [] else c ∷ rest

unfoldable pub some_word : Text → Option Text
some_word [] = none
some_word (c ∷ cs) = some (c ∷ cs)

-- `split_whitespace().next()`
unfoldable pub first_word : Text → Option Text
first_word s = some_word (word (trim_start s))

-- `strip_prefix`
unfoldable pub strip_prefix : Text → Text → Option Text
strip_prefix [] s = some s
strip_prefix (p ∷ ps) [] = none
strip_prefix (p ∷ ps) (c ∷ cs) = let rest = strip_prefix ps cs in if p == c then rest else none

pub strip_prefix-append : (p s : Text) → strip_prefix p (p ++ s) ≡ some s
unfolding strip_prefix
strip_prefix-append [] s = refl
strip_prefix-append (c ∷ p) s = ground (arith, strip_prefix-append p s)

-- A line that `lines` leaves as it is: no newline in it, and no carriage return at its end.
abbrev pub IsLine : Text → Type 0
IsLine s = All (λ c. c ≢ b'\n') s × (strip_cr s ≡ s)

lines_from-line :
    (acc l rest : Text)
    → All (λ c. c ≢ b'\n') l
    → lines_from acc (l ++ (b'\n' ∷ rest)) ≡ strip_cr (acc ++ l) ∷ lines_from [] rest
unfolding lines_from
lines_from-line acc [] rest h = rw append-nil refl
lines_from-line acc (c ∷ cs) rest h = elim (Bool-cases (c == b'\n')) [
  | inl nl ↦ absurd (ground (arith, h.0))
  | inr other ↦
      rw (other, lines_from) (lines_from-line (acc ++ (c ∷ [])) cs rest h.1 ∙ rw append_assoc refl)
]

-- The lines of a text that begins with one.
pub lines-cons : (l rest : Text) → IsLine l → lines (l ++ (b'\n' ∷ rest)) ≡ l ∷ lines rest
unfolding lines
lines-cons l rest h = lines_from-line [] l rest h.0 ∙ ap (λ (x : Text). x ∷ lines_from [] rest) h.1

-- A text without whitespace.
abbrev pub NoSpace : Text → Type 0
NoSpace s = All (λ c. is_whitespace c ≡ false) s

pub trim_start_NoSpace : (c : ℕ) (s : Text) → is_whitespace c ≡ false → trim_start (c ∷ s) ≡ c ∷ s
unfolding trim_start
trim_start_NoSpace c s h = rw h refl

trim_end_word : (s : Text) → NoSpace s → trim_end s ≡ s
unfolding trim_end
trim_end_word [] h = refl
trim_end_word (c ∷ []) h = unfold trim_end_cons in rw h.0 refl
trim_end_word (c ∷ d ∷ s) h = rw (trim_end_word (d ∷ s) h.1) (unfold trim_end_cons in refl)

-- A text that ends in a word is left alone at its end.
pub trim_end-word :
    (s : Text) (c : ℕ) (w : Text) → NoSpace (c ∷ w) → trim_end (s ++ (c ∷ w)) ≡ s ++ (c ∷ w)
unfolding trim_end
trim_end-word [] c w h = trim_end_word (c ∷ w) h
trim_end-word (x ∷ []) c w h = rw (trim_end-word [] c w h) (unfold trim_end_cons in refl)
trim_end-word (x ∷ y ∷ s) c w h = rw (trim_end-word (y ∷ s) c w h) (unfold trim_end_cons in refl)

pub word_same : (s : Text) → NoSpace s → word s ≡ s
unfolding word
word_same [] h = refl
word_same (c ∷ s) h = rw (h.0, word_same s h.1) refl

-- A first word is not empty and has no whitespace.
word-NoSpace : (s : Text) → NoSpace (word s)
unfolding word
word-NoSpace [] = tt
word-NoSpace (c ∷ s) =
    let rest = word-NoSpace s in if_cases NoSpace (is_whitespace c) _ _ (λ _. tt) (λ h. (h, rest))

abbrev pub IsName : Text → Type 0
IsName s = (s ≢ []) × NoSpace s

abbrev pub OptionIsName : Option Text → Type 0
OptionIsName none = Unit {0}
OptionIsName (some s) = IsName s

some_word-IsName : (s : Text) → NoSpace s → OptionIsName (some_word s)
unfolding some_word
some_word-IsName [] h = tt
some_word-IsName (c ∷ s) h = (λ e. cc, h)

pub first_word-IsName : (s : Text) → OptionIsName (first_word s)
unfolding first_word
first_word-IsName s = some_word-IsName (word (trim_start s)) (word-NoSpace (trim_start s))

-- No carriage return, and no newline, in a text without whitespace.
strip_cr_same : (s : Text) → NoSpace s → strip_cr s ≡ s
unfolding strip_cr
strip_cr_same [] h = refl
strip_cr_same (c ∷ []) h = unfold is_whitespace in ground arith
strip_cr_same (c ∷ d ∷ s) h = ap (◌∷◌ c) (strip_cr_same (d ∷ s) h.1)

pub strip_cr-append :
    (s : Text) (c : ℕ) (w : Text)
    → strip_cr (c ∷ w) ≡ c ∷ w
    → strip_cr (s ++ (c ∷ w)) ≡ s ++ (c ∷ w)
unfolding strip_cr
strip_cr-append [] c w h = h
strip_cr-append (x ∷ []) c w h = ap (◌∷◌ x) h
strip_cr-append (x ∷ y ∷ s) c w h = ap (◌∷◌ x) (strip_cr-append (y ∷ s) c w h)

pub no_newline : (s : Text) → NoSpace s → All (λ c. c ≢ b'\n') s
no_newline [] h = tt
no_newline (c ∷ s) h = (unfold is_whitespace in ground arith, no_newline s h.1)

pub NoSpace-IsLine : (c : ℕ) (w : Text) → NoSpace (c ∷ w) → IsLine (c ∷ w)
NoSpace-IsLine c w h = (no_newline (c ∷ w) h, strip_cr_same (c ∷ w) h)
