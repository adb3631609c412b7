-- ===== src/Text/Order.antt =====
-- The order of Rust's `String`, sorting, removal of repeats, and what they leave.
use dns_announce.Shared.{
  ℕ, ◌≡◌, refl, sym, ap, ◌∙◌, ◌⊎◌, inl, inr, ◌↔◌, Bool, true, false, List, [], ◌∷◌, map, arith,
  ◌==◌, ltb, if◌then◌else◌, if_cases, seq_eq, seq_eq_iff, Bool-cases,
}

abbrev Text : Type 0
Text = List ℕ

-- Lexicographic order.
unfoldable pub text_le : Text → Text → Bool
text_le [] ys = true
text_le (x ∷ xs) [] = false
text_le (x ∷ xs) (y ∷ ys) = if x == y then text_le xs ys else ltb x y

text_le_total : (xs ys : Text) → text_le xs ys ≡ false → text_le ys xs ≡ true
unfolding text_le
text_le_total [] ys h = cc
text_le_total (x ∷ xs) [] h = refl
text_le_total (x ∷ xs) (y ∷ ys) h = ground (arith, text_le_total xs ys)

text_le_refl : (xs : Text) → text_le xs xs ≡ true
unfolding text_le
text_le_refl [] = refl
text_le_refl (x ∷ xs) = ground (arith, text_le_refl xs)

-- `sort_unstable`: texts that compare equal are equal, so every sort has this result.
pub insert : Text → List Text → List Text
insert t [] = t ∷ []
insert t (u ∷ us) = let rest = insert t us in if text_le t u then t ∷ u ∷ us else u ∷ rest

pub sort_unstable : List Text → List Text
sort_unstable [] = []
sort_unstable (t ∷ ts) = insert t (sort_unstable ts)

-- `dedup`: of equal neighbours one is left.
pub dedup : List Text → List Text
dedup [] = []
dedup (t ∷ []) = t ∷ []
dedup (t ∷ u ∷ us) = let rest = dedup (u ∷ us) in if seq_eq t u then rest else t ∷ rest

abbrev HeadLe : Text → List Text → Type 0
HeadLe t [] = Unit {0}
HeadLe t (u ∷ us) = text_le t u ≡ true

abbrev Sorted : List Text → Type 0
Sorted [] = Unit {0}
Sorted (t ∷ ts) = HeadLe t ts × Sorted ts

-- Each text is before the next one and not equal to it.
abbrev pub HeadLt : Text → List Text → Type 0
HeadLt t [] = Unit {0}
HeadLt t (u ∷ us) = (text_le t u ≡ true) × (seq_eq t u ≡ false)

abbrev pub Ascending : List Text → Type 0
Ascending [] = Unit {0}
Ascending (t ∷ ts) = HeadLt t ts × Ascending ts

HeadLe-insert :
    (z t : Text) (us : List Text) → text_le z t ≡ true → HeadLe z us → HeadLe z (insert t us)
unfolding insert
HeadLe-insert z t [] h k = h
HeadLe-insert z t (u ∷ us) h k = if_cases (HeadLe z) (text_le t u) _ _ (λ _. h) (λ _. k)

insert-Sorted : (t : Text) (us : List Text) → Sorted us → Sorted (insert t us)
unfolding insert
insert-Sorted t [] h = (tt, tt)
insert-Sorted t (u ∷ us) h =
    if_cases Sorted (text_le t u) _ _ (λ le. (le, h))
      (λ gt. (HeadLe-insert u t us (text_le_total t u gt) h.0, insert-Sorted t us h.1))

sort_unstable-Sorted : (ts : List Text) → Sorted (sort_unstable ts)
unfolding sort_unstable
sort_unstable-Sorted [] = tt
sort_unstable-Sorted (t ∷ ts) = insert-Sorted t (sort_unstable ts) (sort_unstable-Sorted ts)

dedup_head : (t : Text) (ts : List Text) → (us : List Text) × (dedup (t ∷ ts) ≡ t ∷ us)
unfolding dedup
dedup_head t [] = ([], refl)
dedup_head t (u ∷ ts) = elim (Bool-cases (seq_eq t u)) [
  | inr new ↦ (dedup (u ∷ ts), rw new refl)
  | inl same ↦
      let (us, e) = dedup_head u ts in
      (us, rw same (e ∙ ap (λ (v : Text). v ∷ us) (sym ((seq_eq_iff t u).0 same))))
]

dedup-Ascending : (ts : List Text) → Sorted ts → Ascending (dedup ts)
unfolding dedup
dedup-Ascending [] h = tt
dedup-Ascending (t ∷ []) h = (tt, tt)
dedup-Ascending (t ∷ u ∷ ts) h =
    let rest = dedup-Ascending (u ∷ ts) h.1 in
    if_cases Ascending (seq_eq t u) _ _ (λ _. rest) (λ new. (before new, rest))
  where
    before : seq_eq t u ≡ false → HeadLt t (dedup (u ∷ ts))
    before new = let (us, e) = dedup_head u ts in rw e (h.0, new)

-- Sorting and removing repeats leaves each text before the next.
pub dedup-sort-Ascending : (ts : List Text) → Ascending (dedup (sort_unstable ts))
dedup-sort-Ascending ts = dedup-Ascending (sort_unstable ts) (sort_unstable-Sorted ts)

-- An ascending list is left as it is.
Ascending-Sorted : (ts : List Text) → Ascending ts → Sorted ts
Ascending-Sorted [] h = tt
Ascending-Sorted (t ∷ []) h = (tt, tt)
Ascending-Sorted (t ∷ u ∷ ts) h = (h.0.0, Ascending-Sorted (u ∷ ts) h.1)

sort_unstable_same : (ts : List Text) → Sorted ts → sort_unstable ts ≡ ts
unfolding sort_unstable insert
sort_unstable_same [] h = refl
sort_unstable_same (t ∷ []) h = refl
sort_unstable_same (t ∷ u ∷ ts) h = rw (sort_unstable_same (u ∷ ts) h.1, insert, h.0) refl

dedup_same : (ts : List Text) → Ascending ts → dedup ts ≡ ts
unfolding dedup
dedup_same [] h = refl
dedup_same (t ∷ []) h = refl
dedup_same (t ∷ u ∷ ts) h = rw h.0.1 (ap (◌∷◌ t) (dedup_same (u ∷ ts) h.1))

pub dedup-sort_Ascending : (ts : List Text) → Ascending ts → dedup (sort_unstable ts) ≡ ts
dedup-sort_Ascending ts h =
    ap dedup (sort_unstable_same ts (Ascending-Sorted ts h)) ∙ dedup_same ts h

-- Membership, with the place.
abbrev pub Elem : Text → List Text → Type 0
Elem t [] = ⊥
Elem t (u ∷ us) = (t ≡ u) ⊎ Elem t us

Elem-insert : (x t : Text) (us : List Text) → Elem x (insert t us) ↔ Elem x (t ∷ us)
unfolding insert
Elem-insert x t [] = (λ h. h, λ h. h)
Elem-insert x t (u ∷ us) =
    let ih = Elem-insert x t us in
    if_cases (λ (l : List Text). Elem x l ↔ Elem x (t ∷ u ∷ us)) (text_le t u) _ _
      (λ _. (λ h. h, λ h. h)) (λ _. (to ih, from ih))
  where
    to : (Elem x (insert t us) ↔ Elem x (t ∷ us)) → Elem x (u ∷ insert t us) → Elem x (t ∷ u ∷ us)
    to ih (inl e) = inr (inl e)
    to ih (inr h) = elim (ih.0 h) [ inl e ↦ inl e | inr k ↦ inr (inr k) ]

    from : (Elem x (insert t us) ↔ Elem x (t ∷ us)) → Elem x (t ∷ u ∷ us) → Elem x (u ∷ insert t us)
    from ih (inl e) = inr (ih.1 (inl e))
    from ih (inr (inl e)) = inl e
    from ih (inr (inr k)) = inr (ih.1 (inr k))

Elem-sort_unstable : (x : Text) (ts : List Text) → Elem x (sort_unstable ts) ↔ Elem x ts
unfolding sort_unstable
Elem-sort_unstable x [] = (λ h. h, λ h. h)
Elem-sort_unstable x (t ∷ ts) = (to (Elem-sort_unstable x ts), from (Elem-sort_unstable x ts))
  where
    to :
        (Elem x (sort_unstable ts) ↔ Elem x ts)
        → Elem x (insert t (sort_unstable ts))
        → Elem x (t ∷ ts)
    to ih h = elim ((Elem-insert x t (sort_unstable ts)).0 h) [
      | inl e ↦ inl e
      | inr k ↦ inr (ih.0 k)
    ]

    from :
        (Elem x (sort_unstable ts) ↔ Elem x ts)
        → Elem x (t ∷ ts)
        → Elem x (insert t (sort_unstable ts))
    from ih (inl e) = (Elem-insert x t (sort_unstable ts)).1 (inl e)
    from ih (inr k) = (Elem-insert x t (sort_unstable ts)).1 (inr (ih.1 k))

Elem-dedup : (x : Text) (ts : List Text) → Elem x (dedup ts) ↔ Elem x ts
unfolding dedup
Elem-dedup x [] = (λ h. h, λ h. h)
Elem-dedup x (t ∷ []) = (λ h. h, λ h. h)
Elem-dedup x (t ∷ u ∷ ts) =
    let ih = Elem-dedup x (u ∷ ts) in
    if_cases (λ (l : List Text). Elem x l ↔ Elem x (t ∷ u ∷ ts)) (seq_eq t u) _ _
      (λ same. (λ h. inr (ih.0 h), first_again ih ((seq_eq_iff t u).0 same)))
      (λ _. (to ih, from ih))
  where
    first_again :
        (Elem x (dedup (u ∷ ts)) ↔ Elem x (u ∷ ts))
        → t ≡ u
        → Elem x (t ∷ u ∷ ts)
        → Elem x (dedup (u ∷ ts))
    first_again ih e (inl p) = ih.1 (inl (p ∙ e))
    first_again ih e (inr k) = ih.1 k

    to :
        (Elem x (dedup (u ∷ ts)) ↔ Elem x (u ∷ ts))
        → Elem x (t ∷ dedup (u ∷ ts))
        → Elem x (t ∷ u ∷ ts)
    to ih (inl e) = inl e
    to ih (inr k) = inr (ih.0 k)

    from :
        (Elem x (dedup (u ∷ ts)) ↔ Elem x (u ∷ ts))
        → Elem x (t ∷ u ∷ ts)
        → Elem x (t ∷ dedup (u ∷ ts))
    from ih (inl e) = inl e
    from ih (inr k) = inr (ih.1 k)

-- Sorting and removing repeats keeps the set of texts.
pub Elem-dedup-sort : (x : Text) (ts : List Text) → Elem x (dedup (sort_unstable ts)) ↔ Elem x ts
Elem-dedup-sort x ts = (
  λ h. (Elem-sort_unstable x ts).0 ((Elem-dedup x (sort_unstable ts)).0 h),
  λ h. (Elem-dedup x (sort_unstable ts)).1 ((Elem-sort_unstable x ts).1 h),
)

pub Elem-map :
    (f : Text → Text) (x : Text) (ts : List Text)
    → Elem x (map f ts) ↔ ((t : Text) × Elem t ts × (x ≡ f t))
Elem-map f x [] = (λ h. absurd h, λ (t, m, e). m)
Elem-map f x (t ∷ ts) = (to (Elem-map f x ts), from (Elem-map f x ts))
  where
    to :
        (Elem x (map f ts) ↔ ((u : Text) × Elem u ts × (x ≡ f u)))
        → Elem x (map f (t ∷ ts))
        → (u : Text) × Elem u (t ∷ ts) × (x ≡ f u)
    to ih (inl e) = (t, inl refl, e)
    to ih (inr k) = let (u, m, e) = ih.0 k in (u, inr m, e)

    from :
        (Elem x (map f ts) ↔ ((u : Text) × Elem u ts × (x ≡ f u)))
        → ((u : Text) × Elem u (t ∷ ts) × (x ≡ f u))
        → Elem x (map f (t ∷ ts))
    from ih (u, inl p, e) = inl (e ∙ ap f p)
    from ih (u, inr m, e) = inr (ih.1 (u, m, e))
