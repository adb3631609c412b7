-- ===== src/Text/Integer.antt =====
-- `str::parse::<i32>` of Rust: an optional sign, then one or more decimal digits, within the bounds.
use dns_announce.Shared.{
  ℕ, zero, suc, ◌+◌, ◌-◌, ◌*◌, ◌^◌, ◌≤◌, ◌<◌, ◌≡◌, ◌≢◌, refl, ◌↔◌, sym, inl, inr, Bool-cases,
  ==_iff, false, ◌||◌, Option, none, some, List, [], ◌∷◌, arith, ◌==◌, ltb, if◌then◌else◌, All,
}
use mathlib.Core.Option
use mathlib.Core.Path.{subst}

abbrev Text : Type 0
Text = List ℕ

-- `negsuc n` is -(n + 1).
pub data ℤ : Type 0 where
  pos : ℕ → ℤ
  negsuc : ℕ → ℤ

abbrev pub neg : ℕ → ℤ
neg zero = pos zero
neg (suc n) = negsuc n

-- The digits behind the sign, from the value so far; `none` is an overflow or another character.
pub digits : ℕ → Text → ℕ → Option ℕ
digits bound [] acc = some acc
digits bound (c ∷ cs) acc =
    let n = acc * 10 + (c - b'0') in
    if ltb c b'0' || ltb b'9' c then none else if ltb bound n then none else digits bound cs n

some_digits : ℕ → Text → Option ℕ
some_digits bound [] = none
some_digits bound (c ∷ cs) = digits bound (c ∷ cs) 0

signed : ℕ → Text → Option ℤ
signed c cs =
    if c == b'-'
    then Option.map neg (some_digits (2 ^ 31) cs)
    else if c == b'+'
    then Option.map pos (some_digits (2 ^ 31 - 1) cs)
    else Option.map pos (some_digits (2 ^ 31 - 1) (c ∷ cs))

unfoldable pub parse_i32 : Text → Option ℤ
unfolding signed some_digits digits
parse_i32 [] = none
parse_i32 (c ∷ cs) = signed c cs

abbrev pub IsDigit : ℕ → Type 0
IsDigit c = (b'0' ≤ c) × (c ≤ b'9')

-- The number that digits spell, behind a number.
abbrev pub value : ℕ → Text → ℕ
value n [] = n
value n (c ∷ cs) = value (n * 10 + (c - b'0')) cs

-- One or more digits and their value.
pub record Spells (s : Text) (n : ℕ) : Type 0 where
  pub some_digit : s ≢ []
  pub all_digits : All IsDigit s
  pub value_is : n ≡ value 0 s

-- A text and the 32-bit signed integer that it denotes.
pub data Denotes : Text → ℤ → Type 0 where
  plain : {s : Text} {n : ℕ} → Spells s n → n < 2 ^ 31 → Denotes s (pos n)
  plus : {s : Text} {n : ℕ} → Spells s n → n < 2 ^ 31 → Denotes (b'+' ∷ s) (pos n)
  minus : {s : Text} {n : ℕ} → Spells s n → n ≤ 2 ^ 31 → Denotes (b'-' ∷ s) (neg n)

digits_sound :
    (bound : ℕ) (s : Text) (acc r : ℕ)
    → acc ≤ bound
    → digits bound s acc ≡ some r
    → All IsDigit s × (r ≡ value acc s) × (r ≤ bound)
unfolding digits
digits_sound bound [] acc r fits h = ground arith
digits_sound bound (c ∷ cs) acc r fits h =
    ground (arith, digits_sound bound cs (acc * 10 + (c - b'0')) r)

le-value : (s : Text) (n : ℕ) → n ≤ value n s
le-value [] n = omega arith
le-value (c ∷ s) n = omega (arith, le-value s (n * 10 + (c - b'0')))

digits_complete :
    (bound : ℕ) (s : Text) (acc : ℕ)
    → All IsDigit s
    → value acc s ≤ bound
    → digits bound s acc ≡ some (value acc s)
unfolding digits
digits_complete bound [] acc h fits = refl
digits_complete bound (c ∷ cs) acc (hc, hs) fits =
    let n = acc * 10 + (c - b'0') in
    ground (arith, digits_complete bound cs n hs fits, le-value cs n)

some_digits_sound :
    (bound : ℕ) (s : Text) (r : ℕ) → some_digits bound s ≡ some r → Spells s r × (r ≤ bound)
unfolding some_digits
some_digits_sound bound [] r h = cc
some_digits_sound bound (c ∷ cs) r h =
    let (all, exact, fits) = digits_sound bound (c ∷ cs) 0 r (omega arith) h in
    (record { some_digit = cc; all_digits = all; value_is = exact }, fits)

some_digits_complete :
    (bound : ℕ) (s : Text) (n : ℕ) → Spells s n → n ≤ bound → some_digits bound s ≡ some n
unfolding some_digits
some_digits_complete bound [] n h fits = absurd (h.some_digit refl)
some_digits_complete bound (c ∷ cs) n h fits =
    ground (arith, digits_complete bound (c ∷ cs) 0 h.all_digits)

map_sound :
    {A B : Type 0} (f : A → B) (o : Option A) (b : B)
    → Option.map f o ≡ some b
    → (a : A) × (o ≡ some a) × (b ≡ f a)
map_sound f none b h = cc
map_sound f (some a) b h = (a, refl, cc)

signed_sound : (c : ℕ) (cs : Text) (i : ℤ) → signed c cs ≡ some i → Denotes (c ∷ cs) i
unfolding signed
signed_sound c cs i h = elim (Bool-cases (c == b'-')) [
  | inl dash ↦
      let (n, e, v) = map_sound neg (some_digits (2 ^ 31) cs) i (rw dash at h) in
      let (spells, fits) = some_digits_sound (2 ^ 31) cs n e in
      subst (λ k. Denotes (k ∷ cs) i) (sym ((==_iff c b'-').0 dash)) (rw v (minus spells fits))
  | inr not_dash ↦ elim (Bool-cases (c == b'+')) [
    | inl cross ↦
        let (n, e, v) = map_sound pos (some_digits (2 ^ 31 - 1) cs) i (rw (not_dash, cross) at h) in
        let (spells, fits) = some_digits_sound (2 ^ 31 - 1) cs n e in
        subst (λ k. Denotes (k ∷ cs) i) (sym ((==_iff c b'+').0 cross))
          (rw v (plus spells (omega arith)))
    | inr not_cross ↦
        let (n, e, v) =
          map_sound pos (some_digits (2 ^ 31 - 1) (c ∷ cs)) i (rw (not_dash, not_cross) at h) in
        let (spells, fits) = some_digits_sound (2 ^ 31 - 1) (c ∷ cs) n e in
        rw v (plain spells (omega arith))
  ]
]

parse_i32_sound : (s : Text) (i : ℤ) → parse_i32 s ≡ some i → Denotes s i
unfolding parse_i32
parse_i32_sound [] i h = cc
parse_i32_sound (c ∷ cs) i h = signed_sound c cs i h

parse_i32_complete : (s : Text) (i : ℤ) → Denotes s i → parse_i32 s ≡ some i
unfolding parse_i32 signed
parse_i32_complete [] i (plain spells fits) = absurd (spells.some_digit refl)
parse_i32_complete (c ∷ cs) i (plain {n = n} spells fits) =
    let not_dash : (c == b'-') ≡ false = ground arith in
    let not_cross : (c == b'+') ≡ false = ground arith in
    rw (not_dash, not_cross, some_digits_complete (2 ^ 31 - 1) (c ∷ cs) n spells (omega arith)) refl
parse_i32_complete _ i (plus {s = s} {n = n} spells fits) =
    rw (some_digits_complete (2 ^ 31 - 1) s n spells (omega arith)) refl
parse_i32_complete _ i (minus {s = s} {n = n} spells fits) =
    rw (some_digits_complete (2 ^ 31) s n spells fits) refl

-- `parse_i32` gives an integer exactly for the texts that denote it.
pub parse_i32_iff : (s : Text) (i : ℤ) → (parse_i32 s ≡ some i) ↔ Denotes s i
parse_i32_iff s i = (parse_i32_sound s i, parse_i32_complete s i)
