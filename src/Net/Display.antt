-- ===== src/Net/Display.antt =====
-- `Display` of Rust's `Ipv4Addr`, `Ipv6Addr` and `IpAddr`, with the RFC 5952 shortening.
use dns_announce.Shared.{
  ℕ, zero, suc, ◌+◌, ◌-◌, ◌*◌, ◌/◌, ◌%◌, ◌≤◌, ◌<◌, Bool, ◌&&◌, List, [], ◌∷◌, ◌++◌, arith, ◌==◌,
  ltb, if◌then◌else◌, if_cases, take, drop, All, All-append, All-drop,
}
use dns_announce.Net.{Ipv4Addr, Ipv6Addr, IpAddr, v4, v6, IsByte, IsIpv6}

abbrev Text : Type 0
Text = List ℕ

-- `{}` of a `u8`.
decimal : ℕ → Text
decimal n =
    if ltb n 10
    then (b'0' + n) ∷ []
    else if ltb n 100
    then (b'0' + n / 10) ∷ (b'0' + n % 10) ∷ []
    else (b'0' + n / 100) ∷ (b'0' + n / 10 % 10) ∷ (b'0' + n % 10) ∷ []

hex_digit : ℕ → ℕ
hex_digit n = if ltb n 10 then b'0' + n else b'a' + (n - 10)

-- `{:x}` of a `u16`.
hex : ℕ → Text
hex n =
    if ltb n 16
    then hex_digit n ∷ []
    else if ltb n 256
    then hex_digit (n / 16) ∷ hex_digit (n % 16) ∷ []
    else if ltb n 4096
    then hex_digit (n / 256) ∷ hex_digit (n / 16 % 16) ∷ hex_digit (n % 16) ∷ []
    else hex_digit (n / 4096)
      ∷ hex_digit (n / 256 % 16)
      ∷ hex_digit (n / 16 % 16)
      ∷ hex_digit (n % 16)
      ∷ []

show_v4 : Ipv4Addr → Text
show_v4 x = decimal x.a ++ (b'.' ∷ (decimal x.b ++ (b'.' ∷ (decimal x.c ++ (b'.' ∷ decimal x.d)))))

segments : Ipv6Addr → List ℕ
segments x =
    (x.o0 * 256 + x.o1)
    ∷ (x.o2 * 256 + x.o3)
    ∷ (x.o4 * 256 + x.o5)
    ∷ (x.o6 * 256 + x.o7)
    ∷ (x.o8 * 256 + x.o9)
    ∷ (x.o10 * 256 + x.o11)
    ∷ (x.o12 * 256 + x.o13)
    ∷ (x.o14 * 256 + x.o15)
    ∷ []

record Span : Type 0 where
  start : ℕ
  len : ℕ

extend : ℕ → Span → Span
extend i current =
    if current.len == 0
    then record { start = i; len = 1 }
    else record { start = current.start; len = current.len + 1 }

-- The longest run of zero segments, the first of these; `i` counts the segments read.
longest_zeros : ℕ → Span → Span → List ℕ → Span
longest_zeros i current longest [] = longest
longest_zeros i current longest (segment ∷ rest) =
    let current' = if segment == 0 then extend i current else record { start = 0; len = 0 } in
    longest_zeros (i + 1) current' (if ltb longest.len current'.len then current' else longest) rest

tail_segments : List ℕ → Text
tail_segments [] = []
tail_segments (s ∷ ss) = b':' ∷ (hex s ++ tail_segments ss)

show_segments : List ℕ → Text
show_segments [] = []
show_segments (s ∷ ss) = hex s ++ tail_segments ss

show_shortened : List ℕ → Span → Text
show_shortened ss zeroes =
    if ltb 1 zeroes.len
    then show_segments (take zeroes.start ss)
      ++ (b':' ∷ b':' ∷ show_segments (drop (zeroes.start + zeroes.len) ss))
    else show_segments ss

-- `to_ipv4_mapped().is_some()`
is_mapped : Ipv6Addr → Bool
is_mapped x =
    (x.o0 == 0)
    && (x.o1 == 0)
    && (x.o2 == 0)
    && (x.o3 == 0)
    && (x.o4 == 0)
    && (x.o5 == 0)
    && (x.o6 == 0)
    && (x.o7 == 0)
    && (x.o8 == 0)
    && (x.o9 == 0)
    && (x.o10 == 0xff)
    && (x.o11 == 0xff)

no_span : Span
no_span = record { start = 0; len = 0 }

show_v6 : Ipv6Addr → Text
show_v6 x =
    if is_mapped x
    then b':'
      ∷ b':'
      ∷ b'f'
      ∷ b'f'
      ∷ b'f'
      ∷ b'f'
      ∷ b':'
      ∷ show_v4 (record { a = x.o12; b = x.o13; c = x.o14; d = x.o15 })
    else show_shortened (segments x) (longest_zeros 0 no_span no_span (segments x))

unfoldable pub show_ip : IpAddr → Text
unfolding show_v4 show_v6 decimal hex hex_digit segments extend longest_zeros tail_segments
    show_segments show_shortened is_mapped no_span
show_ip (v4 x) = show_v4 x
show_ip (v6 x) = show_v6 x

-- A printable ASCII character other than the space.
abbrev pub IsPlain : ℕ → Type 0
IsPlain c = (33 ≤ c) × (c < 127)

abbrev pub IsIp : IpAddr → Type 0
IsIp (v4 x) = IsByte x.a × IsByte x.b × IsByte x.c × IsByte x.d
IsIp (v6 x) = IsIpv6 x

-- Plain, and not empty.
abbrev pub IsWord : Text → Type 0
IsWord [] = ⊥
IsWord (c ∷ cs) = IsPlain c × All IsPlain cs

IsWord-append : (s t : Text) → IsWord s → All IsPlain t → IsWord (s ++ t)
IsWord-append (c ∷ cs) t h k = (h.0, All-append IsPlain cs t h.1 k)
IsWord-append [] t h k = absurd h

pub IsWord-All : (s : Text) → IsWord s → All IsPlain s
IsWord-All [] h = absurd h
IsWord-All (c ∷ cs) h = h

decimal-IsWord : (n : ℕ) → IsByte n → IsWord (decimal n)
unfolding decimal
decimal-IsWord n h =
    if_cases IsWord (ltb n 10) _ _ (λ k. ground arith)
      (λ k. if_cases IsWord (ltb n 100) _ _ (λ l. ground arith) (λ l. ground arith))

hex_digit-IsPlain : (n : ℕ) → n < 16 → IsPlain (hex_digit n)
unfolding hex_digit
hex_digit-IsPlain n h = ground arith

hex-IsWord : (n : ℕ) → n < 2 * 32768 → IsWord (hex n)
unfolding hex
hex-IsWord n h =
    if_cases IsWord (ltb n 16) _ _ (λ k. (hex_digit-IsPlain n (ground arith), tt))
      (λ k.
        if_cases IsWord (ltb n 256) _ _
          (λ l. ground (arith, hex_digit-IsPlain (n / 16), hex_digit-IsPlain (n % 16)))
          (λ l.
            if_cases IsWord (ltb n 4096) _ _
              (λ m. ground (
                arith,
                hex_digit-IsPlain (n / 256),
                hex_digit-IsPlain (n / 16 % 16),
                hex_digit-IsPlain (n % 16),
              ))
              (λ m. ground (
                arith,
                hex_digit-IsPlain (n / 4096),
                hex_digit-IsPlain (n / 256 % 16),
                hex_digit-IsPlain (n / 16 % 16),
                hex_digit-IsPlain (n % 16),
              ))))

abbrev IsSegment : ℕ → Type 0
IsSegment n = n < 2 * 32768

tail_segments-IsPlain : (ss : List ℕ) → All IsSegment ss → All IsPlain (tail_segments ss)
unfolding tail_segments
tail_segments-IsPlain [] h = tt
tail_segments-IsPlain (s ∷ ss) h = (
  omega arith,
  All-append IsPlain (hex s) (tail_segments ss) (IsWord-All (hex s) (hex-IsWord s h.0))
      (tail_segments-IsPlain ss h.1),
)

show_segments-IsPlain : (ss : List ℕ) → All IsSegment ss → All IsPlain (show_segments ss)
unfolding show_segments
show_segments-IsPlain [] h = tt
show_segments-IsPlain (s ∷ ss) h =
    All-append IsPlain (hex s) (tail_segments ss) (IsWord-All (hex s) (hex-IsWord s h.0))
      (tail_segments-IsPlain ss h.1)

show_v4-IsWord : (x : Ipv4Addr) → IsIp (v4 x) → IsWord (show_v4 x)
unfolding show_v4
show_v4-IsWord x h = IsWord-append (decimal x.a) _ (decimal-IsWord x.a h.0) (
  omega arith,
  All-append IsPlain (decimal x.b) _ (plain x.b h.1) (
    omega arith,
    All-append IsPlain (decimal x.c) _ (plain x.c h.2) (omega arith, plain x.d h.3),
  ),
)
  where
    plain : (n : ℕ) → IsByte n → All IsPlain (decimal n)
    plain n k = IsWord-All (decimal n) (decimal-IsWord n k)

All-IsWord-append : (s t : Text) → All IsPlain s → IsWord t → IsWord (s ++ t)
All-IsWord-append [] t h k = k
All-IsWord-append (c ∷ cs) t h k = (h.0, All-append IsPlain cs t h.1 (IsWord-All t k))

All-take : (n : ℕ) (ss : List ℕ) → All IsSegment ss → All IsSegment (take n ss)
All-take zero ss h = tt
All-take (suc n) [] h = tt
All-take (suc n) (s ∷ ss) h = (h.0, All-take n ss h.1)

show_shortened-IsWord :
    (s : ℕ) (ss : List ℕ) (zeroes : Span)
    → All IsSegment (s ∷ ss)
    → IsWord (show_shortened (s ∷ ss) zeroes)
unfolding show_shortened
show_shortened-IsWord s ss zeroes h =
    if_cases IsWord (ltb 1 zeroes.len) _ _
      (λ _.
        All-IsWord-append (show_segments (take zeroes.start (s ∷ ss))) _
          (show_segments-IsPlain _ (All-take zeroes.start (s ∷ ss) h))
          (
            omega arith,
            (
              omega arith,
              show_segments-IsPlain _ (All-drop IsSegment (zeroes.start + zeroes.len) (s ∷ ss) h),
            ),
          ))
      (λ _.
        unfold show_segments in
        IsWord-append (hex s) (tail_segments ss) (hex-IsWord s h.0) (tail_segments-IsPlain ss h.1))

show_v6-IsWord : (x : Ipv6Addr) → IsIpv6 x → IsWord (show_v6 x)
unfolding show_v6 segments
show_v6-IsWord x h =
    if_cases IsWord (is_mapped x) _ _
      (λ _. (
        omega arith,
        (
          omega arith,
          (
            omega arith,
            (
              omega arith,
              (
                omega arith,
                (
                  omega arith,
                  (
                    omega arith,
                    IsWord-All _ (
                        show_v4-IsWord (record { a = x.o12; b = x.o13; c = x.o14; d = x.o15 })
                          (omega arith)),
                  ),
                ),
              ),
            ),
          ),
        ),
      ))
      (λ _. show_shortened-IsWord _ _ (longest_zeros 0 no_span no_span (segments x)) (omega arith))

-- The text of an address is not empty, and plain.
pub show_ip-IsWord : (ip : IpAddr) → IsIp ip → IsWord (show_ip ip)
unfolding show_ip
show_ip-IsWord (v4 x) h = show_v4-IsWord x h
show_ip-IsWord (v6 x) h = show_v6-IsWord x h
