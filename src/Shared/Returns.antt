-- ===== src/Shared/Returns.antt =====
-- What a call of a Rust function that returns `Option<A>` and indexes slices can come to: a value,
-- `None` (an early `return None`, or `?` on a `None`), or a panic by an index out of range.
use Prim.Native.Nat.{ℕ, ◌-◌, ◌≤◌, ◌<◌}
use mathlib.Core.Path.{◌≡◌, refl}
use mathlib.Core.Bool.{Bool, true, false, ◌&&◌}
use mathlib.Core.Option.{Option, none, some}
use mathlib.Core.List.{List}
use dns_announce.Shared.Tests.{leb, le→leb, if◌then◌else◌}
use dns_announce.Shared.Lists.{length, get_elem?, get_or, take, drop, get_elem?-get_or}

pub data Outcome {ℓ} (A : Type ℓ) : Type ℓ where
  found : A → Outcome A
  nothing : Outcome A
  panicked : Outcome A

infixl 5 ◌>>=◌ ◌>>◌
abbrev pub ◌>>=◌ {ℓ κ} : {A : Type ℓ} {B : Type κ} → Outcome A → (A → Outcome B) → Outcome B
found a >>= f = f a
nothing >>= f = nothing
panicked >>= f = panicked

abbrev pub ◌>>◌ {ℓ} : {B : Type ℓ} → Outcome (Unit {0}) → Outcome B → Outcome B
m >> k = m >>= λ _. k

-- `if !b { return None; }`
abbrev pub guard : Bool → Outcome (Unit {0})
guard true = found tt
guard false = nothing

-- `o?`
abbrev pub try {ℓ} : {A : Type ℓ} → Option A → Outcome A
try none = nothing
try (some a) = found a

module _ {ℓ} {A : Type ℓ} where
  -- `xs[i]`
  pub index : List A → ℕ → Outcome A
  index xs i = elim (get_elem? xs i) [ none ↦ panicked | some a ↦ found a ]

  -- `&xs[a..b]`
  pub slice : List A → ℕ → ℕ → Outcome (List A)
  slice xs a b = if leb a b && leb b (length xs) then found (take (b - a) (drop a xs)) else panicked

  pub index-found :
      (xs : List A) (i : ℕ) (d : A) → i < length xs → index xs i ≡ found (get_or xs i d)
  unfolding index
  index-found xs i d h = rw (get_elem?-get_or xs i d h, index) refl

  pub slice-found :
      (xs : List A) (a b : ℕ)
      → a ≤ b
      → b ≤ length xs
      → slice xs a b ≡ found (take (b - a) (drop a xs))
  unfolding slice
  slice-found xs a b h k = rw (le→leb a b h, le→leb b (length xs) k) refl
