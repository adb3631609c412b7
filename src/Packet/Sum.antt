-- ===== src/Packet/Sum.antt =====
-- The sum behind the checksum of crates/dns-stack/src/packet.rs, without the wrap-around of `u32`,
-- and the end-around carries as arithmetic modulo 65535.
use dns_announce.Shared.{
  ℕ, zero, suc, ◌+◌, ◌-◌, ◌*◌, ◌/◌, ◌%◌, ◌^◌, ◌≤◌, ◌<◌, ◌≡◌, refl, sym, ◌∙◌, [], ◌∷◌, arith, length,
  All, ◌⊎◌,
}
use dns_announce.Net.{Bytes, IsByte, IsU32, from_be16}
use dns_announce.Packet.{add_u32, checksum_accumulate, fold_carries, checksum_finish}

-- The sum of the 16-bit words, an odd last byte in the high half.
abbrev pub word_sum : Bytes → ℕ
word_sum [] = 0
word_sum (last ∷ []) = last * 256
word_sum (hi ∷ lo ∷ rest) = from_be16 hi lo + word_sum rest

pub word_sum-le : (b : Bytes) → All IsByte b → 2 * word_sum b ≤ 65535 * (length b + 1)
word_sum-le [] h = omega arith
word_sum-le (x ∷ []) h = omega arith
word_sum-le (x ∷ y ∷ r) h = omega (arith, word_sum-le r h.1.1)

-- While the total fits, the accumulator is the sum without wrap-around.
pub checksum_accumulate-word_sum :
    (sum : ℕ) (b : Bytes) → sum + word_sum b < 2 ^ 32 → checksum_accumulate sum b ≡ sum + word_sum b
unfolding checksum_accumulate
checksum_accumulate-word_sum sum [] h = omega arith
checksum_accumulate-word_sum sum (x ∷ []) h = omega arith
checksum_accumulate-word_sum sum (x ∷ y ∷ r) h =
    omega (arith, checksum_accumulate-word_sum (add_u32 sum (from_be16 x y)) r (omega arith))

-- The end-around carries leave the number in 1 to 65535 that is equal modulo 65535.
abbrev pub residue : ℕ → ℕ
residue s = (s - 1) % 65535 + 1

fold_once : (s : ℕ) → 0 < s → IsU32 s → residue (s % 2 ^ 16 + s / 2 ^ 16) ≡ residue s
fold_once s p h = omega arith

fold_carries_small : (fuel s : ℕ) → 0 < s → s < 2 ^ 16 → fold_carries fuel s ≡ residue s
unfolding fold_carries
fold_carries_small zero s p h = omega arith
fold_carries_small (suc fuel) s p h = ground arith

fold_carries_mid : (fuel s : ℕ) → 0 < s → s < 0x1ffff → fold_carries (suc fuel) s ≡ residue s
unfolding fold_carries
fold_carries_mid fuel s p h =
    ground (arith, fold_carries_small fuel (add_u32 (s % 2 ^ 16) (s / 2 ^ 16)), fold_once s)

-- Two rounds of fuel are enough for every `u32`.
fold_carries-residue : (fuel s : ℕ) → 0 < s → IsU32 s → fold_carries (suc (suc fuel)) s ≡ residue s
unfolding fold_carries
fold_carries-residue fuel s p h =
    ground (arith, fold_carries_mid fuel (add_u32 (s % 2 ^ 16) (s / 2 ^ 16)), fold_once s)

fold_carries_zero : (fuel : ℕ) → fold_carries fuel 0 ≡ 0
unfolding fold_carries
fold_carries_zero zero = refl
fold_carries_zero (suc fuel) = refl

-- The loop of `checksum_finish` stops on every `u32`: after two rounds the high half is zero, so that
-- the condition is false, and any more fuel than that gives the same sum.
pub fold_carries_stops :
    (fuel s : ℕ)
    → IsU32 s
    → (fold_carries 2 s / 2 ^ 16 ≡ 0) × (fold_carries (suc (suc fuel)) s ≡ fold_carries 2 s)
fold_carries_stops fuel zero h =
    (rw (fold_carries_zero 2) refl, fold_carries_zero (suc (suc fuel)) ∙ sym (fold_carries_zero 2))
fold_carries_stops fuel (suc s) h = (
  rw (fold_carries-residue 0 (suc s) (omega arith) h) (omega arith),
  fold_carries-residue fuel (suc s) (omega arith) h
      ∙ sym (fold_carries-residue 0 (suc s) (omega arith) h),
)

pub checksum_finish-residue : (s : ℕ) → 0 < s → IsU32 s → checksum_finish s ≡ 0xffff - residue s
unfolding checksum_finish
checksum_finish-residue s p h = omega (arith, fold_carries-residue 1 s p h)

-- Adding the complement to the sum makes the complement of the new sum zero.
pub residue_complement :
    (s c : ℕ)
    → 0 < s
    → (c ≡ 0xffff - residue s) ⊎ ((0xffff - residue s ≡ 0) × (c ≡ 0xffff))
    → 0xffff - residue (s + c) ≡ 0
residue_complement s c p h = omega arith
