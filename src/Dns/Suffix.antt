-- ===== src/Dns/Suffix.antt =====
-- `matches_suffix` of crates/dns-stack/src/dns.rs against what it promises.
use dns_announce.Shared.{
  ℕ, ◌+◌, ◌-◌, ◌≡◌, refl, sym, ap, ◌∙◌, ◌↔◌, ◌⊎◌, inl, inr, Bool, true, ◌||◌, [], ◌∷◌, ◌++◌, map,
  arith, length, take, drop, is_empty, seq_eq_iff, length-append, length-map, take-append-drop,
  append_assoc, ltb-false, drop-append, take-append,
}
use mathlib.Core.List.{map-append}
use dns_announce.Net.{Bytes}
use dns_announce.Dns.{to_ascii_lowercase, eq_ignore_ascii_case, ends_in_dot, matches_suffix}

abbrev pub lower : Bytes → Bytes
lower = map to_ascii_lowercase

lower_dot : (c : ℕ) → to_ascii_lowercase c ≡ b'.' → c ≡ b'.'
unfolding to_ascii_lowercase
lower_dot c h = ground arith

ends_in_dot-lower : (b : Bytes) → ends_in_dot (lower b) ≡ ends_in_dot b
unfolding ends_in_dot
ends_in_dot-lower [] = refl
ends_in_dot-lower (c ∷ []) = unfold to_ascii_lowercase in ground arith
ends_in_dot-lower (c ∷ d ∷ r) = ends_in_dot-lower (d ∷ r)

ends_in_dot-append : (b : Bytes) → ends_in_dot (b ++ (b'.' ∷ [])) ≡ true
unfolding ends_in_dot
ends_in_dot-append [] = refl
ends_in_dot-append (c ∷ []) = refl
ends_in_dot-append (c ∷ d ∷ r) = ends_in_dot-append (d ∷ r)

-- The bytes before the last dot.
ends_in_dot-split : (b : Bytes) → ends_in_dot b ≡ true → (f : Bytes) × (b ≡ f ++ (b'.' ∷ []))
unfolding ends_in_dot
ends_in_dot-split [] h = cc
ends_in_dot-split (c ∷ []) h = ([], ground arith)
ends_in_dot-split (c ∷ d ∷ r) h = let (f, e) = ends_in_dot-split (d ∷ r) h in (c ∷ f, ap (◌∷◌ c) e)

-- The name is the suffix, or it ends in the suffix behind a dot, whatever the case of its letters.
abbrev pub FallsUnder : Bytes → Bytes → Type 0
FallsUnder name suffix =
    (lower name ≡ lower suffix) ⊎ ((front : Bytes) × (lower name ≡ front ++ (b'.' ∷ lower suffix)))

-- The test that `matches_suffix` makes of the head before the tail that it compares.
abbrev on_boundary : Bytes → Bool
on_boundary head = is_empty head || ends_in_dot head

lower-dot_append :
    (b front tail suffix : Bytes)
    → b ≡ front ++ (b'.' ∷ [])
    → lower tail ≡ lower suffix
    → lower (b ++ tail) ≡ lower front ++ (b'.' ∷ lower suffix)
unfolding to_ascii_lowercase
lower-dot_append b front tail suffix split e = rw (split, append_assoc, map-append, e) refl

FallsUnder-append :
    (head tail suffix : Bytes)
    → lower tail ≡ lower suffix
    → on_boundary head ≡ true
    → FallsUnder (head ++ tail) suffix
FallsUnder-append [] tail suffix e h = inl e
FallsUnder-append (c ∷ r) tail suffix e h =
    let (front, split) = ends_in_dot-split (c ∷ r) h in
    inr (lower front, lower-dot_append (c ∷ r) front tail suffix split e)

matches_suffix-append :
    (head tail suffix : Bytes)
    → lower tail ≡ lower suffix
    → on_boundary head ≡ true
    → matches_suffix (head ++ tail) suffix ≡ true
unfolding matches_suffix eq_ignore_ascii_case
matches_suffix-append head tail suffix e h =
    rw
      (
        ltb-false (length (head ++ tail)) (length suffix) (omega (arith, whole, same)),
        head_len,
        take-append,
        drop-append,
        (seq_eq_iff (lower tail) (lower suffix)).1 e,
        h,
      )
      refl
  where
    whole : length (head ++ tail) ≡ length head + length tail
    whole = length-append head tail

    same : length tail ≡ length suffix
    same =
        sym (length-map tail to_ascii_lowercase)
        ∙ ap length e
        ∙ length-map suffix to_ascii_lowercase

    head_len : length (head ++ tail) - length suffix ≡ length head
    head_len = omega (arith, whole, same)

-- A name whose lower-case form is an append is an append of parts with these lower-case forms.
lower_split :
    (name xs ys : Bytes)
    → lower name ≡ xs ++ ys
    → (h : Bytes) × (t : Bytes) × (name ≡ h ++ t) × (lower h ≡ xs) × (lower t ≡ ys)
lower_split name [] ys e = ([], name, refl, refl, e)
lower_split [] (x ∷ xs) ys e = absurd (cc)
lower_split (c ∷ cs) (x ∷ xs) ys e =
    let (h, t, p, q, r) = lower_split cs xs ys (cc) in (c ∷ h, t, ap (◌∷◌ c) p, cc, r)

matches→FallsUnder :
    (name suffix : Bytes) → matches_suffix name suffix ≡ true → FallsUnder name suffix
unfolding matches_suffix eq_ignore_ascii_case
matches→FallsUnder name suffix h =
    let n = length name - length suffix in
    rw take-append-drop at (
      FallsUnder-append (take n name) (drop n name) suffix
        (ground (arith, seq_eq_iff (lower (drop n name)) (lower suffix))) (ground arith))

FallsUnder→matches :
    (name suffix : Bytes) → FallsUnder name suffix → matches_suffix name suffix ≡ true
FallsUnder→matches name suffix (inl e) = matches_suffix-append [] name suffix e refl
FallsUnder→matches name suffix (inr (front, e)) =
    let (h, t, p, q, r) =
      lower_split name (front ++ (b'.' ∷ [])) (lower suffix)
        (e ∙ sym (append_assoc front (b'.' ∷ []) (lower suffix))) in
    let dot : ends_in_dot h ≡ true =
      sym (ends_in_dot-lower h) ∙ ap ends_in_dot q ∙ ends_in_dot-append front in
    rw p (matches_suffix-append h t suffix r (ground (arith, dot)))

-- `matches_suffix` is true exactly of the names that fall under the suffix.
pub matches_suffix-FallsUnder :
    (name suffix : Bytes) → (matches_suffix name suffix ≡ true) ↔ FallsUnder name suffix
matches_suffix-FallsUnder name suffix =
    (matches→FallsUnder name suffix, FallsUnder→matches name suffix)
