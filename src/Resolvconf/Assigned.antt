-- ===== src/Resolvconf/Assigned.antt =====
-- One line of the defaults that `truncation_enabled` of crates/dns-host-config/src/linux/resolvconf.rs reads.
use mathlib.Core.Option
use mathlib.Core.Path.{subst}
use dns_announce.Shared.{
  ℕ, ◌≡◌, ◌≢◌, refl, ap, ◌∙◌, ◌↔◌, ◌⊎◌, inl, inr, Bool, true, false, Option, none, some, Bool-cases,
  [], ◌∷◌, ◌++◌, arith, All, ◌==◌, ==_iff,
}
use dns_announce.Text.{Text, codes}
use dns_announce.Text.Lines.{trim, strip_prefix, strip_prefix-append}
use dns_announce.Text.Search.{strip_prefix_sound}
use dns_announce.Resolvconf.Probe.{
  truncate_knob, before_hash, is_quote, trim_quotes_start, trim_quotes_cons, trim_quotes_end,
  trim_quotes, non_empty, knob_value,
}

-- No comment mark.
abbrev pub NoHash : Text → Type 0
NoHash t = All (λ c. c ≢ b'#') t

-- A comment, or nothing.
abbrev pub IsComment : Text → Type 0
IsComment [] = Unit {0}
IsComment (c ∷ cs) = c ≡ b'#'

before_hash_split :
    (t : Text)
    → (rest : Text) × (t ≡ before_hash t ++ rest) × NoHash (before_hash t) × IsComment rest
unfolding before_hash
before_hash_split [] = ([], refl, tt, tt)
before_hash_split (c ∷ cs) = elim (Bool-cases (c == b'#')) [
  | inl hash ↦ rw hash (c ∷ cs, refl, tt, (==_iff c b'#').0 hash)
  | inr other ↦
      let (rest, e, clear, comment) = before_hash_split cs in
      rw other (rest, ap (◌∷◌ c) e, (λ q. on_off _ ((==_iff c b'#').1 q) other, clear), comment)
]
  where
    on_off : (b : Bool) → b ≡ true → b ≡ false → ⊥
    on_off b e f = cc

before_hash-append : (t rest : Text) → NoHash t → IsComment rest → before_hash (t ++ rest) ≡ t
unfolding before_hash
before_hash-append [] [] h k = refl
before_hash-append [] (c ∷ rest) h k = rw ((==_iff c b'#').1 k) refl
before_hash-append (c ∷ t) rest h k = elim (Bool-cases (c == b'#')) [
  | inl hash ↦ absurd (h.0 ((==_iff c b'#').0 hash))
  | inr other ↦ rw other (ap (◌∷◌ c) (before_hash-append t rest h.1 k))
]

-- A double or a single quote.
abbrev pub IsQuote : ℕ → Type 0
IsQuote c = (c ≡ 34) ⊎ (c ≡ 39)

-- Neither the first character is a quote nor the last one.
abbrev pub StartsPlain : Text → Type 0
StartsPlain [] = Unit {0}
StartsPlain (c ∷ cs) = ¬ IsQuote c

abbrev pub EndsPlain : Text → Type 0
EndsPlain [] = Unit {0}
EndsPlain (c ∷ []) = ¬ IsQuote c
EndsPlain (c ∷ d ∷ cs) = EndsPlain (d ∷ cs)

is_quote-IsQuote : (c : ℕ) → (is_quote c ≡ true) ↔ IsQuote c
unfolding is_quote
is_quote-IsQuote c = ground arith

is_quote-cases : (c : ℕ) → ((is_quote c ≡ true) × IsQuote c) ⊎ ((is_quote c ≡ false) × ¬ IsQuote c)
is_quote-cases c = elim (Bool-cases (is_quote c)) [
  | inl yes' ↦ inl (yes', (is_quote-IsQuote c).0 yes')
  | inr no' ↦ inr (no', λ q. on_off _ ((is_quote-IsQuote c).1 q) no')
]
  where
    on_off : (b : Bool) → b ≡ true → b ≡ false → ⊥
    on_off b e f = cc

start_split :
    (t : Text)
    → (left : Text) × (t ≡ left ++ trim_quotes_start t)
      × All IsQuote left
      × StartsPlain (trim_quotes_start t)
unfolding trim_quotes_start
start_split [] = ([], refl, tt, tt)
start_split (c ∷ cs) = elim (is_quote-cases c) [
  | inl (yes', q) ↦
      let (left, e, quotes, plain) = start_split cs in
      rw yes' (c ∷ left, ap (◌∷◌ c) e, (q, quotes), plain)
  | inr (no', n) ↦ rw no' ([], refl, tt, n)
]

end_split :
    (t : Text)
    → (right : Text) × (t ≡ trim_quotes_end t ++ right)
      × All IsQuote right
      × EndsPlain (trim_quotes_end t)
unfolding trim_quotes_end trim_quotes_cons
end_split [] = ([], refl, tt, tt)
end_split (c ∷ cs) =
    let (right, e, quotes, plain) = end_split cs in from (trim_quotes_end cs) right e quotes plain
  where
    from :
        (u right : Text)
        → cs ≡ u ++ right
        → All IsQuote right
        → EndsPlain u
        → (right' : Text) × (c ∷ cs ≡ trim_quotes_cons c u ++ right')
          × All IsQuote right'
          × EndsPlain (trim_quotes_cons c u)
    from (d ∷ u) right e quotes plain = (right, ap (◌∷◌ c) e, quotes, plain)
    from [] right e quotes plain = elim (is_quote-cases c) [
      | inl (yes', q) ↦ rw yes' (c ∷ right, ap (◌∷◌ c) e, (q, quotes), tt)
      | inr (no', n) ↦ rw no' (right, ap (◌∷◌ c) e, quotes, n)
    ]

start-append :
    (left t : Text) → All IsQuote left → StartsPlain t → trim_quotes_start (left ++ t) ≡ t
unfolding trim_quotes_start
start-append [] [] h k = refl
start-append [] (c ∷ t) h k = elim (is_quote-cases c) [
  | inl (_, q) ↦ absurd (k q)
  | inr (no', _) ↦ rw no' refl
]
start-append (c ∷ left) t h k = rw ((is_quote-IsQuote c).1 h.0) (start-append left t h.1 k)

end_quotes : (right : Text) → All IsQuote right → trim_quotes_end right ≡ []
unfolding trim_quotes_end trim_quotes_cons
end_quotes [] h = refl
end_quotes (c ∷ right) h =
    ap (trim_quotes_cons c) (end_quotes right h.1) ∙ rw ((is_quote-IsQuote c).1 h.0) refl

end-append : (t right : Text) → All IsQuote right → EndsPlain t → trim_quotes_end (t ++ right) ≡ t
unfolding trim_quotes_end trim_quotes_cons
end-append [] right h k = end_quotes right h
end-append (c ∷ []) right h k =
    ap (trim_quotes_cons c) (end_quotes right h)
    ∙ elim (is_quote-cases c) [ inl (_, q) ↦ absurd (k q) | inr (no', _) ↦ rw no' refl ]
end-append (c ∷ d ∷ t) right h k = ap (trim_quotes_cons c) (end-append (d ∷ t) right h k)

-- The line, without the white space around it, assigns the setting this value: behind the equals sign
-- and before any comment, without the white space and then the quotes around it; a value that is empty
-- is none.
pub record Assigns (line v : Text) : Type 0 where
  pub value : Text
  pub assignment : trim line ≡ truncate_knob ++ (b'=' ∷ value)
  pub kept : Text
  pub comment : Text
  pub uncommented : value ≡ kept ++ comment
  pub clear : NoHash kept
  pub marked : IsComment comment
  pub left : Text
  pub right : Text
  pub quoted : trim kept ≡ left ++ (v ++ right)
  pub quotes : All IsQuote left × All IsQuote right
  pub plain : StartsPlain v × EndsPlain v
  pub given : v ≢ []

starts_before : (v right : Text) → StartsPlain (v ++ right) → StartsPlain v
starts_before [] right h = tt
starts_before (c ∷ v) right h = h

trim_quotes_split :
    (t : Text)
    → (left : Text) × (right : Text) × (t ≡ left ++ (trim_quotes t ++ right))
      × (All IsQuote left × All IsQuote right)
      × (StartsPlain (trim_quotes t) × EndsPlain (trim_quotes t))
unfolding trim_quotes
trim_quotes_split t =
    let (left, e, quotes, plain) = start_split t in
    let (right, e', quotes', plain') = end_split (trim_quotes_start t) in
    (
      left,
      right,
      e ∙ ap (◌++◌ left) e',
      (quotes, quotes'),
      (starts_before _ right (subst StartsPlain e' plain), plain'),
    )

starts-append : (v right : Text) → v ≢ [] → StartsPlain v → StartsPlain (v ++ right)
starts-append [] right n h = absurd (n refl)
starts-append (c ∷ v) right n h = h

trim_quotes-append :
    (left v right : Text)
    → All IsQuote left × All IsQuote right
    → StartsPlain v × EndsPlain v
    → v ≢ []
    → trim_quotes (left ++ (v ++ right)) ≡ v
unfolding trim_quotes
trim_quotes-append left v right q p n =
    ap trim_quotes_end (start-append left (v ++ right) q.0 (starts-append v right n p.0))
    ∙ end-append v right q.1 p.1

non_empty-some : (t v : Text) → non_empty t ≡ some v → (t ≡ v) × (v ≢ [])
unfolding non_empty
non_empty-some [] v e = cc
non_empty-some (c ∷ t) v e = (cc, λ q. cc)

some-non_empty : (v : Text) → v ≢ [] → non_empty v ≡ some v
unfolding non_empty
some-non_empty [] n = absurd (n refl)
some-non_empty (c ∷ v) n = refl

-- What `knob_value` reads of a line is what the line assigns.
pub knob_value_iff : (line v : Text) → (knob_value line ≡ some v) ↔ Assigns line v
unfolding knob_value Option.bind
knob_value_iff line v = (there (strip_prefix truncate_knob (trim line)) refl, back)
  where
    value_of : Text → Option Text
    value_of value = non_empty (trim_quotes (trim (before_hash value)))

    read : Option Text → Option Text
    read o = Option.bind o (λ a. Option.bind (strip_prefix (codes "=") a) value_of)

    assigned :
        (a value : Text)
        → strip_prefix truncate_knob (trim line) ≡ some a
        → strip_prefix (codes "=") a ≡ some value
        → value_of value ≡ some v
        → Assigns line v
    assigned a value e f g =
        let (rest, split, clear, marked) = before_hash_split value in
        let (same, given) = non_empty-some (trim_quotes (trim (before_hash value))) v g in
        let (left, right, quoted, quotes, plain) = trim_quotes_split (trim (before_hash value)) in
        record {
          value = value;
          assignment =
              strip_prefix_sound truncate_knob (trim line) a e
              ∙ ap (◌++◌ truncate_knob) (strip_prefix_sound (codes "=") a value f);
          kept = before_hash value;
          comment = rest;
          uncommented = split;
          clear = clear;
          marked = marked;
          left = left;
          right = right;
          quoted = quoted ∙ ap (λ x. left ++ (x ++ right)) same;
          quotes = quotes;
          plain = subst (λ x. StartsPlain x × EndsPlain x) same plain;
          given = given;
        }

    behind :
        (a : Text)
        → strip_prefix truncate_knob (trim line) ≡ some a
        → (o : Option Text) → strip_prefix (codes "=") a ≡ o
        → Option.bind o value_of ≡ some v
        → Assigns line v
    behind a e none f g = cc
    behind a e (some value) f g = assigned a value e f g

    there :
        (o : Option Text)
        → strip_prefix truncate_knob (trim line) ≡ o
        → read o ≡ some v
        → Assigns line v
    there none e g = cc
    there (some a) e g = behind a e (strip_prefix (codes "=") a) refl g

    back : Assigns line v → read (strip_prefix truncate_knob (trim line)) ≡ some v
    back h =
        ap read (
          ap (strip_prefix truncate_knob) h.assignment
          ∙ strip_prefix-append truncate_knob (b'=' ∷ h.value))
        ∙ ap (λ o. Option.bind o value_of) (strip_prefix-append (codes "=") h.value)
        ∙ ap (λ x. non_empty (trim_quotes (trim x)))
            (ap before_hash h.uncommented ∙ before_hash-append h.kept h.comment h.clear h.marked)
        ∙ ap (λ x. non_empty (trim_quotes x)) h.quoted
        ∙ ap non_empty (trim_quotes-append h.left v h.right h.quotes h.plain h.given)
        ∙ some-non_empty v h.given
