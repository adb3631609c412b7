-- ===== src/Text/Unique.antt =====
-- An ascending list of texts is determined by its set of texts.
use dns_announce.Shared.{
  ℕ, ◌≡◌, ◌≢◌, refl, sym, ap, ◌∙◌, inl, inr, ◌↔◌, true, false, List, [], ◌∷◌, arith, seq_eq,
  seq_eq_iff,
}
use dns_announce.Text.Order.{text_le, Ascending, Elem}

abbrev Text : Type 0
Text = List ℕ

text_le_chain :
    (xs ys zs : Text) → text_le xs ys ≡ true → text_le ys zs ≡ true → text_le xs zs ≡ true
unfolding text_le
text_le_chain [] ys zs h k = refl
text_le_chain (x ∷ xs) [] zs h k = cc
text_le_chain (x ∷ xs) (y ∷ ys) [] h k = cc
text_le_chain (x ∷ xs) (y ∷ ys) (z ∷ zs) h k = ground (arith, text_le_chain xs ys zs)

text_le_antisym : (xs ys : Text) → text_le xs ys ≡ true → text_le ys xs ≡ true → xs ≡ ys
unfolding text_le
text_le_antisym [] [] h k = refl
text_le_antisym [] (y ∷ ys) h k = cc
text_le_antisym (x ∷ xs) [] h k = cc
text_le_antisym (x ∷ xs) (y ∷ ys) h k = grind (arith, text_le_antisym xs ys)

-- Before, and not equal.
abbrev Before : Text → Text → Type 0
Before x y = (text_le x y ≡ true) × (x ≢ y)

seq_eq_ne : (x y : Text) → seq_eq x y ≡ false → x ≢ y
seq_eq_ne x y h e = let same = (seq_eq_iff x y).1 e in cc

text_lt_chain : (x y z : Text) → Before x y → Before y z → Before x z
text_lt_chain x y z (h, n) (k, m) =
    (text_le_chain x y z h k, λ e. n (text_le_antisym x y h (ap (λ t. text_le y t) e ∙ k)))

Ascending-Before : (x y : Text) (xs : List Text) → Ascending (x ∷ xs) → Elem y xs → Before x y
Ascending-Before x y [] h m = absurd m
Ascending-Before x y (z ∷ xs) h (inl e) =
    (ap (text_le x) e ∙ h.0.0, λ same. seq_eq_ne x z h.0.1 (same ∙ e))
Ascending-Before x y (z ∷ xs) h (inr m) =
    text_lt_chain x z y (h.0.0, seq_eq_ne x z h.0.1) (Ascending-Before z y xs h.1 m)

-- Two ascending lists with the same texts are equal.
pub unique_list :
    (xs ys : List Text)
    → Ascending xs
    → Ascending ys
    → ((t : Text) → Elem t xs ↔ Elem t ys)
    → xs ≡ ys
unique_list [] [] h k m = refl
unique_list [] (y ∷ ys) h k m = absurd ((m y).1 (inl refl))
unique_list (x ∷ xs) [] h k m = absurd ((m x).0 (inl refl))
unique_list (x ∷ xs) (y ∷ ys) h k m =
    let same_head : x ≡ y = heads ((m x).0 (inl refl)) ((m y).1 (inl refl)) in
    cc (
      same_head,
      unique_list xs ys h.1 k.1 (λ t. (
        λ e. rest _ (Ascending-Before x t xs h e) same_head ((m t).0 (inr e)),
        λ e. rest _ (Ascending-Before y t ys k e) (sym same_head) ((m t).1 (inr e)),
      )),
    )
  where
    heads : Elem x (y ∷ ys) → Elem y (x ∷ xs) → x ≡ y
    heads (inl e) n = e
    heads (inr e) (inl f) = sym f
    heads (inr e) (inr f) =
        text_le_antisym x y (Ascending-Before x y xs h f).0 (Ascending-Before y x ys k e).0

    rest : {t u v : Text} (us : List Text) → Before u t → u ≡ v → Elem t (v ∷ us) → Elem t us
    rest us b e (inl f) = absurd (b.1 (e ∙ sym f))
    rest us b e (inr n) = n
