-- ===== src/Text/Search.antt =====
-- `starts_with`, `ends_with` and `contains` of Rust's `str`, the pattern first.
use dns_announce.Shared.{
  ℕ, ◌≡◌, refl, ◌↔◌, inl, inr, Bool, true, false, ◌||◌, Option, none, some, List, [], ◌∷◌, ◌++◌,
  arith, seq_eq, seq_eq_iff, seq_eq_refl, Option-cases, Bool-cases, ap, sym, ◌∙◌,
}
use dns_announce.Text.Lines.{strip_prefix, strip_prefix-append}

abbrev Text : Type 0
Text = List ℕ

unfoldable pub is_some {ℓ} : {A : Type ℓ} → Option A → Bool
is_some none = false
is_some (some rest) = true

unfoldable pub starts_with : Text → Text → Bool
starts_with prefix s = is_some (strip_prefix prefix s)

unfoldable pub contains : Text → Text → Bool
contains pat [] = starts_with pat []
contains pat (c ∷ cs) = starts_with pat (c ∷ cs) || contains pat cs

unfoldable pub ends_with : Text → Text → Bool
ends_with suffix [] = seq_eq suffix []
ends_with suffix (c ∷ cs) = seq_eq suffix (c ∷ cs) || ends_with suffix cs

pub strip_prefix_sound : (p s rest : Text) → strip_prefix p s ≡ some rest → s ≡ p ++ rest
unfolding strip_prefix
strip_prefix_sound [] s rest h = cc
strip_prefix_sound (c ∷ p) [] rest h = cc
strip_prefix_sound (c ∷ p) (d ∷ s) rest h = ground (arith, strip_prefix_sound p s rest)

pub starts_with-append : (p rest : Text) → starts_with p (p ++ rest) ≡ true
unfolding starts_with
starts_with-append p rest = rw (strip_prefix-append p rest) (unfold is_some in refl)

starts_with_sound : (p s : Text) → starts_with p s ≡ true → (rest : Text) × (s ≡ p ++ rest)
unfolding starts_with is_some
starts_with_sound p s h = elim (Option-cases (strip_prefix p s)) [
  | inl none' ↦ cc (none', h)
  | inr (rest, e) ↦ (rest, strip_prefix_sound p s rest e)
]

contains_start : (p s : Text) → starts_with p s ≡ true → contains p s ≡ true
unfolding contains
contains_start p [] h = h
contains_start p (c ∷ cs) h = rw h refl

contains_sound :
    (p s : Text)
    → contains p s ≡ true
    → (before : Text) × (after : Text) × (s ≡ before ++ (p ++ after))
unfolding contains
contains_sound p [] h = let (rest, e) = starts_with_sound p [] h in ([], rest, e)
contains_sound p (c ∷ cs) h = elim (Bool-cases (starts_with p (c ∷ cs))) [
  | inl here ↦ let (rest, e) = starts_with_sound p (c ∷ cs) here in ([], rest, e)
  | inr later ↦
      let (before, after, e) = contains_sound p cs (rw later at h) in
      (c ∷ before, after, ap (◌∷◌ c) e)
]

pub contains-append : (p before after : Text) → contains p (before ++ (p ++ after)) ≡ true
unfolding contains
contains-append p [] after = contains_start p (p ++ after) (starts_with-append p after)
contains-append p (c ∷ before) after = ground (arith, contains-append p before after)

-- `contains` is true exactly where the pattern stands somewhere in the text.
pub contains_iff :
    (p s : Text)
    → (contains p s ≡ true) ↔ ((before : Text) × (after : Text) × (s ≡ before ++ (p ++ after)))
contains_iff p s = (contains_sound p s, λ h. ap (contains p) h.2 ∙ contains-append p h.0 h.1)

ends_with_sound : (p s : Text) → ends_with p s ≡ true → (before : Text) × (s ≡ before ++ p)
unfolding ends_with
ends_with_sound p [] h = ([], sym ((seq_eq_iff p []).0 h))
ends_with_sound p (c ∷ cs) h = elim (Bool-cases (seq_eq p (c ∷ cs))) [
  | inl here ↦ ([], sym ((seq_eq_iff p (c ∷ cs)).0 here))
  | inr later ↦ let (before, e) = ends_with_sound p cs (rw later at h) in (c ∷ before, ap (◌∷◌ c) e)
]

ends_with_self : (p : Text) → ends_with p p ≡ true
unfolding ends_with
ends_with_self [] = seq_eq_refl []
ends_with_self (c ∷ cs) = rw (seq_eq_refl (c ∷ cs)) refl

pub ends_with-append : (p before : Text) → ends_with p (before ++ p) ≡ true
unfolding ends_with
ends_with-append p [] = ends_with_self p
ends_with-append p (c ∷ before) = ground (arith, ends_with-append p before)

pub ends_with_iff : (p s : Text) → (ends_with p s ≡ true) ↔ ((before : Text) × (s ≡ before ++ p))
ends_with_iff p s = (ends_with_sound p s, λ h. ap (ends_with p) h.1 ∙ ends_with-append p h.0)
