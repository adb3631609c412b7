-- ===== src/Ra/Options.antt =====
-- The option block of the Router Advertisement of crates/dns-stack/src/ra.rs, as a receiver walks it
-- by the length fields (RFC 4861, section 4.6).
use dns_announce.Shared.{
  ℕ, zero, suc, ◌+◌, ◌-◌, ◌*◌, ◌/◌, ◌%◌, ◌≤◌, ◌<◌, ◌≡◌, refl, ap, ◌∙◌, Option, none, some, List, [],
  ◌∷◌, ◌++◌, arith, ◌==◌, ltb, if◌then◌else◌, length, is_empty, replicate, append_assoc, append-nil,
  ◌||◌, take, drop, not, take-append, drop-append, length-append, length-replicate, Bool-cases, inl,
  inr,
}
use mathlib.Core.Option
use dns_announce.Net.{Bytes, be32, Ipv6Addr}
use dns_announce.Ra.{
  RaConfig, encode_dnssl_names, all_octets, build_rdnss_option, pad_to_8, build_dnssl_option,
  ra_options, opt_rdnss, opt_dnssl,
}

-- An option: its type, and what stands behind its two header bytes.
pub record RaOption : Type 0 where
  pub kind : ℕ
  pub body : Bytes

-- Options to the end of the bytes. A length of zero, or one that points past the end, is an error.
pub walk_options : ℕ → Bytes → Option (List RaOption)
walk_options fuel [] = some []
walk_options zero (b ∷ bs) = none
walk_options (suc fuel) (kind ∷ []) = none
walk_options (suc fuel) (kind ∷ units ∷ bs) =
    let size = 8 * units - 2 in
    let rest = walk_options fuel (drop size bs) in
    if (units == 0) || ltb (length bs) size
    then none
    else Option.map (◌∷◌ (record { kind = kind; body = take size bs })) rest

pub length-all_octets :
    (servers : List Ipv6Addr) → length (all_octets servers) ≡ 16 * length servers
unfolding all_octets
length-all_octets [] = omega arith
length-all_octets (a ∷ servers) = omega (arith, length-all_octets servers)

-- One step of the walk over an option whose length field is right.
walk_step :
    (fuel kind units : ℕ) (body rest : Bytes)
    → 0 < units
    → 8 * units ≡ 2 + length body
    → walk_options (suc fuel) (kind ∷ units ∷ (body ++ rest))
      ≡ Option.map (◌∷◌ (record { kind = kind; body = body })) (walk_options fuel rest)
unfolding walk_options
walk_step fuel kind units body rest pos e =
    let size : 8 * units - 2 ≡ length body = omega arith in
    rw (size, take-append, drop-append) (ground (arith, length-append body rest))

-- The zero bytes that `build_dnssl_option` adds behind names of `n` bytes: the option's header and
-- lifetime are eight bytes.
abbrev pub padding : ℕ → ℕ
padding n = (8 - n % 8) % 8

pad_to_8-replicate :
    (fuel : ℕ) (opt : Bytes)
    → padding (length opt) ≤ fuel
    → pad_to_8 fuel opt ≡ opt ++ replicate (padding (length opt)) 0
unfolding pad_to_8
pad_to_8-replicate zero opt h =
    let full : padding (length opt) ≡ 0 = omega arith in rw (full, append-nil) refl
pad_to_8-replicate (suc fuel) opt h = elim (Bool-cases (length opt % 8 == 0)) [
  | inl done ↦
      let full : padding (length opt) ≡ 0 = ground arith in rw (done, full, append-nil) refl
  | inr more ↦
      let longer : length (opt ++ (0 ∷ [])) ≡ length opt + 1 = length-append opt (0 ∷ []) in
      let one : padding (length opt) ≡ suc (padding (length (opt ++ (0 ∷ [])))) =
        rw longer (ground arith) in
      rw (more, one)
        (pad_to_8-replicate fuel (opt ++ (0 ∷ [])) (omega arith) ∙ rw append_assoc refl)
]

-- The body of the DNSSL option.
abbrev pub dnssl_body : List Bytes → ℕ → Bytes
dnssl_body domains lifetime_secs =
    let names = encode_dnssl_names domains in
    0 ∷ 0 ∷ (be32 lifetime_secs ++ (names ++ replicate (padding (length names)) 0))

abbrev pub rdnss_body : List Ipv6Addr → ℕ → Bytes
rdnss_body servers lifetime_secs = 0 ∷ 0 ∷ (be32 lifetime_secs ++ all_octets servers)

pub build_dnssl_option-body :
    (domains : List Bytes) (lifetime_secs : ℕ)
    → build_dnssl_option domains lifetime_secs
      ≡ opt_dnssl
        ∷ ((2 + length (dnssl_body domains lifetime_secs)) / 8 % 256)
        ∷ dnssl_body domains lifetime_secs
unfolding build_dnssl_option
build_dnssl_option-body domains t =
    let names = encode_dnssl_names domains in
    let opt = opt_dnssl ∷ 0 ∷ 0 ∷ 0 ∷ (be32 t ++ names) in
    let pad : padding (length opt) ≡ padding (length names) = omega arith in
    let padded : pad_to_8 7 opt ≡ opt ++ replicate (padding (length names)) 0 =
      rw (← pad) (pad_to_8-replicate 7 opt (omega arith)) in
    rw padded (λ i. opt_dnssl ∷ units i ∷ dnssl_body domains t)
  where
    units :
        suc (suc (length (dnssl_body domains t))) / 8 % 256
        ≡ (2 + length (dnssl_body domains t)) / 8 % 256
    units = omega arith

length-padded :
    (names : Bytes)
    → length (names ++ replicate (padding (length names)) 0) ≡ length names + padding (length names)
length-padded names =
    length-append names (replicate (padding (length names)) 0)
    ∙ ap (λ (n : ℕ). length names + n) (length-replicate (padding (length names)) 0)

walk_options-nil : (fuel : ℕ) → walk_options fuel [] ≡ some []
unfolding walk_options
walk_options-nil zero = refl
walk_options-nil (suc fuel) = refl

walk_last :
    (fuel kind units : ℕ) (body : Bytes)
    → 0 < units
    → 8 * units ≡ 2 + length body
    → walk_options (suc fuel) (kind ∷ units ∷ body)
      ≡ some (record { kind = kind; body = body } ∷ [])
walk_last fuel kind units body pos e =
    rw append-nil at (walk_step fuel kind units body [] pos e) ∙ rw walk_options-nil refl

-- The DNSSL option alone.
walk_dnssl :
    (fuel : ℕ) (domains : List Bytes) (t : ℕ)
    → length (encode_dnssl_names domains) ≤ 2032
    → walk_options (suc fuel) (build_dnssl_option domains t)
      ≡ some (record { kind = opt_dnssl; body = dnssl_body domains t } ∷ [])
walk_dnssl fuel domains t h =
    rw build_dnssl_option-body
      (walk_last fuel opt_dnssl _ (dnssl_body domains t) (omega (arith, len)) (omega (arith, len)))
  where
    len :
        length (dnssl_body domains t)
        ≡ 6 + length (encode_dnssl_names domains) + padding (length (encode_dnssl_names domains))
    len = omega (arith, length-padded (encode_dnssl_names domains))

walk_tail :
    (fuel : ℕ) (domains : List Bytes) (t : ℕ)
    → length (encode_dnssl_names domains) ≤ 2032
    → walk_options (suc fuel) (if not (is_empty domains) then build_dnssl_option domains t else [])
      ≡ some (
          if is_empty domains
          then []
          else record { kind = opt_dnssl; body = dnssl_body domains t } ∷ [])
walk_tail fuel [] t h = walk_options-nil (suc fuel)
walk_tail fuel (d ∷ ds) t h = walk_dnssl fuel (d ∷ ds) t h

walk_rdnss :
    (fuel : ℕ) (servers : List Ipv6Addr) (t : ℕ) (rest : Bytes)
    → length servers ≤ 127
    → walk_options (suc fuel) (build_rdnss_option servers t ++ rest)
      ≡ Option.map
          (◌∷◌ (record { kind = opt_rdnss; body = rdnss_body servers t }))
          (walk_options fuel rest)
unfolding build_rdnss_option
walk_rdnss fuel servers t rest h =
    walk_step fuel opt_rdnss ((1 + 2 * length servers) % 256) (rdnss_body servers t) rest
      (omega arith) (omega (arith, length-all_octets servers))

length-rdnss_option :
    (servers : List Ipv6Addr) (t : ℕ) (tail : Bytes)
    → length (build_rdnss_option servers t ++ tail)
      ≡ suc (suc (6 + length (all_octets servers ++ tail)))
unfolding build_rdnss_option
length-rdnss_option servers t tail = omega arith

-- A receiver that walks the options by their length fields finds the RDNSS option with all servers,
-- then, if there are search domains, the DNSSL option with the encoded names and their padding, and
-- nothing else, where the options fit their one-byte lengths.
pub walk_options-ra_options :
    (cfg : RaConfig)
    → length cfg.dns_servers ≤ 127
    → length (encode_dnssl_names cfg.search_domains) ≤ 2032
    → walk_options (length (ra_options cfg)) (ra_options cfg)
      ≡ some (
          record { kind = opt_rdnss; body = rdnss_body cfg.dns_servers cfg.lifetime_secs }
          ∷ (if is_empty cfg.search_domains
              then []
              else record {
                kind = opt_dnssl;
                body = dnssl_body cfg.search_domains cfg.lifetime_secs;
              }
                ∷ []))
unfolding ra_options
walk_options-ra_options cfg hs hn =
    let tail =
      if not (is_empty cfg.search_domains)
      then build_dnssl_option cfg.search_domains cfg.lifetime_secs
      else [] in
    rw (length-rdnss_option cfg.dns_servers cfg.lifetime_secs tail) (
      walk_rdnss _ cfg.dns_servers cfg.lifetime_secs tail hs
      ∙ rw (walk_tail _ cfg.search_domains cfg.lifetime_secs hn) refl)
