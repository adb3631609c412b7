-- ===== src/Config/Same.antt =====
-- When two domains are the same for `DnsRouteConfig::new` of crates/dns-host-config/src/config.rs.
use dns_announce.Shared.{ℕ, ◌+◌, ◌≤◌, ◌≡◌, refl, sym, ap, ◌∙◌, ◌⊎◌, inl, inr, ◌↔◌, [], ◌∷◌, arith}
use mathlib.Core.Path.{ap₂}
use dns_announce.Text.{Text, trim_cons, trim_cons-lower, trim_end_dots, lower_char}
use dns_announce.Config.{clean}

-- The same character, or the upper and the lower case of one ASCII letter.
abbrev pub SameChar : ℕ → ℕ → Type 0
SameChar x y =
    (x ≡ y) ⊎ ((b'A' ≤ x) × (x ≤ b'Z') × (y ≡ x + 32)) ⊎ ((b'A' ≤ y) × (y ≤ b'Z') × (x ≡ y + 32))

-- The same but for the case of ASCII letters, and for dots behind the end of the other.
abbrev pub SameText : Text → Text → Type 0
SameText [] [] = Unit {0}
SameText [] (y ∷ ys) = (y ≡ b'.') × SameText [] ys
SameText (x ∷ xs) [] = (x ≡ b'.') × SameText xs []
SameText (x ∷ xs) (y ∷ ys) = SameChar x y × SameText xs ys

lower_char-SameChar : (x y : ℕ) → lower_char x ≡ lower_char y → SameChar x y
unfolding lower_char
lower_char-SameChar x y h = ground arith

SameChar-lower_char : (x y : ℕ) → SameChar x y → lower_char x ≡ lower_char y
unfolding lower_char
SameChar-lower_char x y (inl e) = ap lower_char e
SameChar-lower_char x y (inr (inl (h, k, e))) = ground arith
SameChar-lower_char x y (inr (inr (h, k, e))) = ground arith

clean_cons : (x : ℕ) (xs : Text) → clean (x ∷ xs) ≡ trim_cons (lower_char x) (clean xs)
unfolding clean trim_end_dots
clean_cons x xs = sym (trim_cons-lower x (trim_end_dots xs))

trim_cons_nil : (c : ℕ) (t : Text) → trim_cons c t ≡ [] → (c ≡ b'.') × (t ≡ [])
unfolding trim_cons
trim_cons_nil c (d ∷ t) e = cc
trim_cons_nil c [] e = ground arith

trim_cons_injective : (c d : ℕ) (t u : Text) → trim_cons c t ≡ trim_cons d u → (c ≡ d) × (t ≡ u)
unfolding trim_cons
trim_cons_injective c d [] [] e = ground arith
trim_cons_injective c d [] (y ∷ u) e = ground arith
trim_cons_injective c d (x ∷ t) [] e = ground arith
trim_cons_injective c d (x ∷ t) (y ∷ u) e = (cc, cc)

lower_dot : (c : ℕ) → lower_char c ≡ b'.' → c ≡ b'.'
unfolding lower_char
lower_dot c e = ground arith

dropped : (c : ℕ) (t : Text) → c ≡ b'.' → t ≡ [] → trim_cons (lower_char c) t ≡ []
unfolding lower_char trim_cons
dropped c t e f = rw (e, f) refl

clean_nil : clean [] ≡ []
unfolding clean trim_end_dots
clean_nil = refl

SameText-clean : (xs ys : Text) → SameText xs ys → clean xs ≡ clean ys
SameText-clean [] [] h = refl
SameText-clean [] (y ∷ ys) h =
    clean_nil ∙ sym (clean_cons y ys ∙ dropped y _ h.0 (sym (SameText-clean [] ys h.1) ∙ clean_nil))
SameText-clean (x ∷ xs) [] h =
    clean_cons x xs ∙ dropped x _ h.0 (SameText-clean xs [] h.1 ∙ clean_nil) ∙ sym clean_nil
SameText-clean (x ∷ xs) (y ∷ ys) h =
    clean_cons x xs
    ∙ ap₂ trim_cons (SameChar-lower_char x y h.0) (SameText-clean xs ys h.1)
    ∙ sym (clean_cons y ys)

clean-SameText : (xs ys : Text) → clean xs ≡ clean ys → SameText xs ys
clean-SameText [] [] e = tt
clean-SameText [] (y ∷ ys) e =
    let (dot, rest) = trim_cons_nil _ _ (sym (clean_cons y ys) ∙ sym e ∙ clean_nil) in
    (lower_dot y dot, clean-SameText [] ys (clean_nil ∙ sym rest))
clean-SameText (x ∷ xs) [] e =
    let (dot, rest) = trim_cons_nil _ _ (sym (clean_cons x xs) ∙ e ∙ clean_nil) in
    (lower_dot x dot, clean-SameText xs [] (rest ∙ sym clean_nil))
clean-SameText (x ∷ xs) (y ∷ ys) e =
    let (head, rest) = trim_cons_injective _ _ _ _ (sym (clean_cons x xs) ∙ e ∙ clean_cons y ys) in
    (lower_char-SameChar x y head, clean-SameText xs ys rest)

-- Two domains are the same exactly if they are cleaned to the same one.
pub clean_iff : (xs ys : Text) → SameText xs ys ↔ (clean xs ≡ clean ys)
clean_iff xs ys = (SameText-clean xs ys, clean-SameText xs ys)
