-- ===== src/Shared/Methods.antt =====
-- Methods that change their object, and what they work on, and may fail: state and errors. What was
-- written before an error stays written.
use mathlib.Core.Path.{◌≡◌, subst}

pub data Result {ℓ} (E A : Type ℓ) : Type ℓ where
  ok : A → Result E A
  err : E → Result E A

abbrev pub Method : Type 0 → Type 0 → Type 0 → Type 0
Method S E A = S → S × Result E A

-- What `?` makes of a result.
abbrev pub and_then : {S E A B : Type 0} → S × Result E A → (A → Method S E B) → S × Result E B
and_then (s, ok a) f = f a s
and_then (s, err e) f = (s, err e)

infixl 5 ◌>>=◌ ◌>>◌
abbrev pub ◌>>=◌ : {S E A B : Type 0} → Method S E A → (A → Method S E B) → Method S E B
◌>>=◌ m f s = and_then (m s) f

abbrev pub ◌>>◌ : {S E B : Type 0} → Method S E (Unit {0}) → Method S E B → Method S E B
m >> k = m >>= λ _. k

abbrev pub pure : {S E A : Type 0} → A → Method S E A
pure a s = (s, ok a)

-- A value computed without the state.
abbrev pub lift : {S E A : Type 0} → Result E A → Method S E A
lift r s = (s, r)

-- `map_err`
abbrev pub map_err : {A E F : Type 0} → (E → F) → Result E A → Result F A
map_err f (ok a) = ok a
map_err f (err e) = err (f e)

-- What a call leaves behind: `P` of the state and the value, or `Q` of the state behind an error.
abbrev pub Ensures : {S E A : Type 0} → (S → A → Type 0) → (S → Type 0) → S × Result E A → Type 0
Ensures P Q (s, ok a) = P s a
Ensures P Q (s, err e) = Q s

-- The rule of `?`.
pub and_then-Ensures :
    {S E A B : Type 0} (P : S → A → Type 0) (P' : S → B → Type 0) (Q : S → Type 0)
    (r : S × Result E A) (f : A → Method S E B)
    → Ensures P Q r
    → ((s : S) (a : A) → P s a → Ensures P' Q (f a s))
    → Ensures P' Q (and_then r f)
and_then-Ensures P P' Q (s, ok a) f h k = k s a h
and_then-Ensures P P' Q (s, err e) f h k = h

pub Ensures-ok :
    {S E A : Type 0} (P : S → A → Type 0) (Q : S → Type 0) (r : S × Result E A) (a : A)
    → Ensures P Q r
    → r.1 ≡ ok a
    → P r.0 a
Ensures-ok {E = E} {A = A} P Q (s, ok x) a h e = subst (P s) (ok_injective e) h
  where
    ok_injective : ◌≡◌ {A = Result E A} (ok x) (ok a) → x ≡ a
    ok_injective q = cc
Ensures-ok {E = E} {A = A} P Q (s, err x) a h e = cc

pub Ensures-mono :
    {S E A : Type 0} {P P' : S → A → Type 0} {Q Q' : S → Type 0} (r : S × Result E A)
    → ((s : S) (a : A) → P s a → P' s a)
    → ((s : S) → Q s → Q' s)
    → Ensures P Q r
    → Ensures P' Q' r
Ensures-mono (s, ok a) f g h = f s a h
Ensures-mono (s, err e) f g h = g s h

-- What holds behind a value and behind an error holds.
pub Ensures-both :
    {S E A : Type 0} (Q : S → Type 0) (r : S × Result E A) → Ensures (λ s a. Q s) Q r → Q r.0
Ensures-both Q (s, ok a) h = h
Ensures-both Q (s, err e) h = h

-- A call that returns a value.
abbrev pub Succeeds : {S E A : Type 0} → S × Result E A → Type 0
Succeeds {E = E} {A = A} r = (a : A) × ◌≡◌ {A = Result E A} r.1 (ok a)

pub and_then-Succeeds :
    {S E A B : Type 0} (r : S × Result E A) (f : A → Method S E B)
    → Succeeds r
    → ((s : S) (a : A) → Succeeds (f a s))
    → Succeeds (and_then r f)
and_then-Succeeds (s, ok x) f h k = k s x
and_then-Succeeds (s, err x) f (a, e) k = cc
