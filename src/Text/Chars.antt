-- ===== src/Text/Chars.antt =====
-- The pieces that Rust's `lines`, `trim`, `strip_prefix` and `split_whitespace` cut out of a text
-- hold characters of that text only.
use dns_announce.Shared.{
  ℕ, Option, none, some, List, [], ◌∷◌, ◌++◌, ◌==◌, All, All-append, if_cases, is_empty, Bool-cases,
  inl, inr,
}
use dns_announce.Text.Lines.{
  is_whitespace, strip_cr, lines_from, trim_start, trim_end_cons, trim_end, trim, word, some_word,
  first_word, strip_prefix, lines,
}

abbrev Text : Type 0
Text = List ℕ

abbrev pub OptionAll : (ℕ → Type 0) → Option Text → Type 0
OptionAll P none = Unit {0}
OptionAll P (some s) = All P s

module _ (P : ℕ → Type 0) where
  strip_cr-All : (s : Text) → All P s → All P (strip_cr s)
  unfolding strip_cr
  strip_cr-All [] h = tt
  strip_cr-All (c ∷ []) h = if_cases (All P) (c == b'\r') _ _ (λ _. tt) (λ _. h)
  strip_cr-All (c ∷ d ∷ s) h = (h.0, strip_cr-All (d ∷ s) h.1)

  lines_from-All : (line s : Text) → All P line → All P s → All (All P) (lines_from line s)
  unfolding lines_from
  lines_from-All line [] h k = if_cases (All (All P)) (is_empty line) _ _ (λ _. tt) (λ _. (h, tt))
  lines_from-All line (c ∷ cs) h k = elim (Bool-cases (c == b'\n')) [
    | inl nl ↦ rw (nl, lines_from) (strip_cr-All line h, lines_from-All [] cs tt k.1)
    | inr other ↦
        rw (other, lines_from)
          (lines_from-All (line ++ (c ∷ [])) cs (All-append P line (c ∷ []) h (k.0, tt)) k.1)
  ]

  pub lines-All : (s : Text) → All P s → All (All P) (lines s)
  unfolding lines
  lines-All s h = lines_from-All [] s tt h

  trim_start-All : (s : Text) → All P s → All P (trim_start s)
  unfolding trim_start
  trim_start-All [] h = tt
  trim_start-All (c ∷ s) h =
      let rest = trim_start-All s h.1 in if_cases (All P) (is_whitespace c) _ _ (λ _. rest) (λ _. h)

  trim_end_cons-All : (c : ℕ) (s : Text) → P c → All P s → All P (trim_end_cons c s)
  unfolding trim_end_cons
  trim_end_cons-All c [] h k = if_cases (All P) (is_whitespace c) _ _ (λ _. tt) (λ _. (h, tt))
  trim_end_cons-All c (d ∷ s) h k = (h, k)

  trim_end-All : (s : Text) → All P s → All P (trim_end s)
  unfolding trim_end
  trim_end-All [] h = tt
  trim_end-All (c ∷ s) h = trim_end_cons-All c (trim_end s) h.0 (trim_end-All s h.1)

  pub trim-All : (s : Text) → All P s → All P (trim s)
  unfolding trim
  trim-All s h = trim_end-All (trim_start s) (trim_start-All s h)

  word-All : (s : Text) → All P s → All P (word s)
  unfolding word
  word-All [] h = tt
  word-All (c ∷ s) h =
      let rest = word-All s h.1 in
      if_cases (All P) (is_whitespace c) _ _ (λ _. tt) (λ _. (h.0, rest))

  some_word-All : (s : Text) → All P s → OptionAll P (some_word s)
  unfolding some_word
  some_word-All [] h = tt
  some_word-All (c ∷ s) h = h

  pub first_word-All : (s : Text) → All P s → OptionAll P (first_word s)
  unfolding first_word
  first_word-All s h =
      some_word-All (word (trim_start s)) (word-All (trim_start s) (trim_start-All s h))

  pub strip_prefix-All : (p s : Text) → All P s → OptionAll P (strip_prefix p s)
  unfolding strip_prefix
  strip_prefix-All [] s h = h
  strip_prefix-All (x ∷ p) [] h = tt
  strip_prefix-All (x ∷ p) (c ∷ s) h =
      let rest = strip_prefix-All p s h.1 in
      if_cases (OptionAll P) (x == c) _ _ (λ _. rest) (λ _. tt)
