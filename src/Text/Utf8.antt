-- ===== src/Text/Utf8.antt =====
-- UTF-8 as Rust's `String` and `String::from_utf8_lossy` read and write it: a text is its code
-- points, and a file holds their bytes.
use native.Mathlib.Decide.{dec_lt}
use dns_announce.Shared.{
  ℕ, zero, suc, ◌+◌, ◌-◌, ◌*◌, ◌/◌, ◌%◌, ◌≤◌, ◌<◌, ◌≡◌, refl, sym, ap, ◌∙◌, ◌⊎◌, inl, inr, Bool,
  true, ◌&&◌, ◌||◌, Option, none, some, List, [], ◌∷◌, ◌++◌, arith, ◌==◌, leb, ltb, lt→ltb,
  if◌then◌else◌, length, get_or, drop, All, append_assoc, if_cases,
}
use mathlib.Core.Option

abbrev Text : Type 0
Text = List ℕ

-- A Unicode scalar value.
abbrev pub IsChar : ℕ → Type 0
IsChar c = (c < 0xd800) ⊎ ((0xe000 ≤ c) × (c < 0x110000))

unfoldable pub encode_char : ℕ → List ℕ
encode_char c =
    if ltb c 0x80
    then c ∷ []
    else if ltb c 0x800
    then (0xc0 + c / 64) ∷ (0x80 + c % 64) ∷ []
    else if ltb c 0x10000
    then (0xe0 + c / 4096) ∷ (0x80 + c / 64 % 64) ∷ (0x80 + c % 64) ∷ []
    else (0xf0 + c / 262144) ∷ (0x80 + c / 4096 % 64) ∷ (0x80 + c / 64 % 64) ∷ (0x80 + c % 64) ∷ []

-- `String::as_bytes`
unfoldable pub encode : Text → List ℕ
encode [] = []
encode (c ∷ cs) = encode_char c ++ encode cs

-- What stands first in the bytes: a character, or the longest start of one that goes wrong.
pub data Chunk : Type 0 where
  char : ℕ → List ℕ → Chunk
  invalid : List ℕ → Chunk

abbrev within : ℕ → ℕ → ℕ → Bool
within lo hi b = leb lo b && leb b hi

abbrev is_continuation : ℕ → Bool
is_continuation b = within 0x80 0xbf b

-- The second bytes that may follow a first byte of a three-byte and of a four-byte character.
second_of_three : ℕ → ℕ → Bool
second_of_three b b1 =
    (b == 0xe0 && within 0xa0 0xbf b1)
    || (within 0xe1 0xec b && is_continuation b1)
    || (b == 0xed && within 0x80 0x9f b1)
    || (within 0xee 0xef b && is_continuation b1)

second_of_four : ℕ → ℕ → Bool
second_of_four b b1 =
    (b == 0xf0 && within 0x90 0xbf b1)
    || (within 0xf1 0xf3 b && is_continuation b1)
    || (b == 0xf4 && within 0x80 0x8f b1)

two_bytes : ℕ → List ℕ → Chunk
two_bytes b r =
    let b1 = get_or r 0 0 in
    if is_continuation b1 then char ((b - 0xc0) * 64 + (b1 - 0x80)) (drop 1 r) else invalid r

three_bytes : ℕ → List ℕ → Chunk
three_bytes b r =
    let b1 = get_or r 0 0 in
    let b2 = get_or r 1 0 in
    if second_of_three b b1
    then if is_continuation b2
      then char ((b - 0xe0) * 4096 + (b1 - 0x80) * 64 + (b2 - 0x80)) (drop 2 r)
      else invalid (drop 1 r)
    else invalid r

four_bytes : ℕ → List ℕ → Chunk
four_bytes b r =
    let b1 = get_or r 0 0 in
    let b2 = get_or r 1 0 in
    let b3 = get_or r 2 0 in
    if second_of_four b b1
    then if is_continuation b2
      then if is_continuation b3
        then char ((b - 0xf0) * 262144 + (b1 - 0x80) * 4096 + (b2 - 0x80) * 64 + (b3 - 0x80))
            (drop 3 r)
        else invalid (drop 2 r)
      else invalid (drop 1 r)
    else invalid r

-- A missing byte reads as 0, which continues nothing.
next_chunk : ℕ → List ℕ → Chunk
next_chunk b r =
    if ltb b 0x80
    then char b r
    else if within 0xc2 0xdf b
    then two_bytes b r
    else if within 0xe0 0xef b
    then three_bytes b r
    else if within 0xf0 0xf4 b
    then four_bytes b r
    else invalid r

-- `String::from_utf8(bytes).ok()`, on fuel: each round takes a byte at least.
decode_fuel : ℕ → List ℕ → Option Text
decode_fuel fuel [] = some []
decode_fuel zero (b ∷ r) = none
decode_fuel (suc fuel) (b ∷ r) = elim (next_chunk b r) [
  | char c rest ↦ Option.map (◌∷◌ c) (decode_fuel fuel rest)
  | invalid rest ↦ none
]

pub decode : List ℕ → Option Text
decode bytes = decode_fuel (length bytes) bytes

-- `String::from_utf8_lossy`
lossy_fuel : ℕ → List ℕ → Text
lossy_fuel fuel [] = []
lossy_fuel zero (b ∷ r) = []
lossy_fuel (suc fuel) (b ∷ r) = elim (next_chunk b r) [
  | char c rest ↦ c ∷ lossy_fuel fuel rest
  | invalid rest ↦ 0xfffd ∷ lossy_fuel fuel rest
]

pub decode_lossy : List ℕ → Text
decode_lossy bytes = lossy_fuel (length bytes) bytes

-- The first byte of a character's encoding, and the bytes behind it.
module _ (c : ℕ) (rest : List ℕ) where
  next_two :
      0x80 ≤ c → c < 0x800 → next_chunk (0xc0 + c / 64) ((0x80 + c % 64) ∷ rest) ≡ char c rest
  unfolding next_chunk two_bytes
  next_two h k = ground arith

  next_three :
      0x800 ≤ c
      → c < 0x10000
      → IsChar c
      → next_chunk (0xe0 + c / 4096) ((0x80 + c / 64 % 64) ∷ (0x80 + c % 64) ∷ rest) ≡ char c rest
  unfolding next_chunk three_bytes second_of_three
  next_three h k i = ground arith

  next_four :
      0x10000 ≤ c
      → IsChar c
      → next_chunk
          (0xf0 + c / 262144)
          ((0x80 + c / 4096 % 64) ∷ (0x80 + c / 64 % 64) ∷ (0x80 + c % 64) ∷ rest)
        ≡ char c rest
  unfolding next_chunk four_bytes second_of_four
  next_four h i = ground arith

-- The encoding of a character is a first byte and up to three more; reading it gives it back, with
-- whatever stands behind.
next_chunk-encode_char :
    (c : ℕ) (rest : List ℕ)
    → IsChar c
    → (b : ℕ) × (r : List ℕ) × (encode_char c ++ rest ≡ b ∷ r)
      × (next_chunk b r ≡ char c rest)
      × (length rest ≤ length r)
unfolding encode_char
next_chunk-encode_char c rest h = elim (dec_lt c 0x80) [
  | yes one ↦ (c, rest, ground arith, unfold next_chunk in ground arith, omega arith)
  | no more ↦ elim (dec_lt c 0x800) [
    | yes two ↦ (
      0xc0 + c / 64,
      (0x80 + c % 64) ∷ rest,
      ground arith,
      next_two c rest (omega arith) two,
      omega arith,
    )
    | no more' ↦ elim (dec_lt c 0x10000) [
      | yes three ↦ (
        0xe0 + c / 4096,
        (0x80 + c / 64 % 64) ∷ (0x80 + c % 64) ∷ rest,
        ground arith,
        next_three c rest (omega arith) three h,
        omega arith,
      )
      | no big ↦ (
        0xf0 + c / 262144,
        (0x80 + c / 4096 % 64) ∷ (0x80 + c / 64 % 64) ∷ (0x80 + c % 64) ∷ rest,
        ground arith,
        next_four c rest (omega arith) h,
        omega arith,
      )
    ]
  ]
]

decode_step :
    (fuel b : ℕ) (r : List ℕ) {c : ℕ} {rest : List ℕ}
    → next_chunk b r ≡ char c rest
    → decode_fuel (suc fuel) (b ∷ r) ≡ Option.map (◌∷◌ c) (decode_fuel fuel rest)
unfolding decode_fuel
decode_step fuel b r e = rw (e, decode_fuel) refl

decode_fuel-encode :
    (s : Text) (fuel : ℕ)
    → All IsChar s
    → length (encode s) ≤ fuel
    → decode_fuel fuel (encode s) ≡ some s
unfolding encode
decode_fuel-encode [] fuel h k = unfold decode_fuel in refl
decode_fuel-encode (c ∷ cs) fuel h k =
    let (b, r, split, read, shorter) = next_chunk-encode_char c (encode cs) h.0 in
    let long : suc (length r) ≤ fuel = rw split at k in
    let e : fuel ≡ suc (fuel - 1) = omega arith in
    rw (split, e)
      (decode_step (fuel - 1) b r read
        ∙ ap (Option.map (◌∷◌ c)) (decode_fuel-encode cs (fuel - 1) h.1 (omega arith)))

-- Reading back what was written.
pub decode-encode : (s : Text) → All IsChar s → decode (encode s) ≡ some s
unfolding decode
decode-encode s h = decode_fuel-encode s (length (encode s)) h (omega arith)

pub encode_ascii : (c : ℕ) (cs : Text) → c < 0x80 → encode (c ∷ cs) ≡ c ∷ encode cs
unfolding encode encode_char
encode_ascii c cs h = rw (lt→ltb c 0x80 h) refl

pub encode-append : (s t : Text) → encode (s ++ t) ≡ encode s ++ encode t
unfolding encode
encode-append [] t = refl
encode-append (c ∷ cs) t =
    ap (◌++◌ (encode_char c)) (encode-append cs t)
    ∙ sym (append_assoc (encode_char c) (encode cs) (encode t))

abbrev CharChunk : Chunk → Type 0
CharChunk (char c rest) = IsChar c
CharChunk (invalid rest) = Unit {0}

two_bytes-IsChar : (b : ℕ) (r : List ℕ) → within 0xc2 0xdf b ≡ true → CharChunk (two_bytes b r)
unfolding two_bytes
two_bytes-IsChar b r h =
    if_cases CharChunk (is_continuation (get_or r 0 0)) _ _ (λ k. inl (ground arith)) (λ _. tt)

decode_three :
    (b b1 b2 : ℕ)
    → second_of_three b b1 ≡ true
    → is_continuation b2 ≡ true
    → IsChar ((b - 0xe0) * 4096 + (b1 - 0x80) * 64 + (b2 - 0x80))
unfolding second_of_three
decode_three b b1 b2 h k = ground arith

three_bytes-IsChar : (b : ℕ) (r : List ℕ) → CharChunk (three_bytes b r)
unfolding three_bytes
three_bytes-IsChar b r =
    if_cases CharChunk (second_of_three b (get_or r 0 0)) _ _
      (λ h.
        if_cases CharChunk (is_continuation (get_or r 1 0)) _ _
          (λ k. decode_three b (get_or r 0 0) (get_or r 1 0) h k) (λ _. tt))
      (λ _. tt)

decode_four :
    (b b1 b2 b3 : ℕ)
    → second_of_four b b1 ≡ true
    → is_continuation b2 ≡ true
    → is_continuation b3 ≡ true
    → IsChar ((b - 0xf0) * 262144 + (b1 - 0x80) * 4096 + (b2 - 0x80) * 64 + (b3 - 0x80))
unfolding second_of_four
decode_four b b1 b2 b3 h k l = ground arith

four_bytes-IsChar : (b : ℕ) (r : List ℕ) → CharChunk (four_bytes b r)
unfolding four_bytes
four_bytes-IsChar b r =
    if_cases CharChunk (second_of_four b (get_or r 0 0)) _ _
      (λ h.
        if_cases CharChunk (is_continuation (get_or r 1 0)) _ _
          (λ k.
            if_cases CharChunk (is_continuation (get_or r 2 0)) _ _
              (λ l. decode_four b (get_or r 0 0) (get_or r 1 0) (get_or r 2 0) h k l) (λ _. tt))
          (λ _. tt))
      (λ _. tt)

next_chunk-IsChar : (b : ℕ) (r : List ℕ) → CharChunk (next_chunk b r)
unfolding next_chunk
next_chunk-IsChar b r =
    if_cases CharChunk (ltb b 0x80) _ _ (λ h. inl (ground arith))
      (λ _. if_cases CharChunk (within 0xc2 0xdf b) _ _ (two_bytes-IsChar b r) (λ _.
        if_cases CharChunk (within 0xe0 0xef b) _ _ (λ _. three_bytes-IsChar b r)
          (λ _.
            if_cases CharChunk (within 0xf0 0xf4 b) _ _ (λ _. four_bytes-IsChar b r) (λ _. tt))))

Chunk-cases :
    (k : Chunk)
    → ((c : ℕ) × (rest : List ℕ) × (k ≡ char c rest)) ⊎ ((rest : List ℕ) × (k ≡ invalid rest))
Chunk-cases (char c rest) = inl (c, rest, refl)
Chunk-cases (invalid rest) = inr (rest, refl)

lossy_step :
    (fuel b : ℕ) (r : List ℕ) {c : ℕ} {rest : List ℕ}
    → next_chunk b r ≡ char c rest
    → lossy_fuel (suc fuel) (b ∷ r) ≡ c ∷ lossy_fuel fuel rest
unfolding lossy_fuel
lossy_step fuel b r e = rw (e, lossy_fuel) refl

lossy_step_invalid :
    (fuel b : ℕ) (r : List ℕ) {rest : List ℕ}
    → next_chunk b r ≡ invalid rest
    → lossy_fuel (suc fuel) (b ∷ r) ≡ 0xfffd ∷ lossy_fuel fuel rest
unfolding lossy_fuel
lossy_step_invalid fuel b r e = rw (e, lossy_fuel) refl

lossy_fuel-IsChar : (fuel : ℕ) (bytes : List ℕ) → All IsChar (lossy_fuel fuel bytes)
lossy_fuel-IsChar fuel [] = unfold lossy_fuel in tt
lossy_fuel-IsChar zero (b ∷ r) = unfold lossy_fuel in tt
lossy_fuel-IsChar (suc fuel) (b ∷ r) = elim (Chunk-cases (next_chunk b r)) [
  | inl (c, rest, e) ↦
      rw (lossy_step fuel b r e) (rw e at (next_chunk-IsChar b r), lossy_fuel-IsChar fuel rest)
  | inr (rest, e) ↦ rw (lossy_step_invalid fuel b r e) (omega arith, lossy_fuel-IsChar fuel rest)
]

-- Whatever the bytes are, the lossy text is a text.
pub decode_lossy-IsChar : (bytes : List ℕ) → All IsChar (decode_lossy bytes)
unfolding decode_lossy
decode_lossy-IsChar bytes = lossy_fuel-IsChar (length bytes) bytes

lossy_fuel-encode :
    (s : Text) (fuel : ℕ) → All IsChar s → length (encode s) ≤ fuel → lossy_fuel fuel (encode s) ≡ s
unfolding encode
lossy_fuel-encode [] fuel h k = unfold lossy_fuel in refl
lossy_fuel-encode (c ∷ cs) fuel h k =
    let (b, r, split, read, shorter) = next_chunk-encode_char c (encode cs) h.0 in
    let long : suc (length r) ≤ fuel = rw split at k in
    let e : fuel ≡ suc (fuel - 1) = omega arith in
    rw (split, e)
      (lossy_step (fuel - 1) b r read
        ∙ ap (◌∷◌ c) (lossy_fuel-encode cs (fuel - 1) h.1 (omega arith)))

-- On valid bytes nothing is lost.
pub decode_lossy-encode : (s : Text) → All IsChar s → decode_lossy (encode s) ≡ s
unfolding decode_lossy
decode_lossy-encode s h = lossy_fuel-encode s (length (encode s)) h (omega arith)
