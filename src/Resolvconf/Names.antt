-- ===== src/Resolvconf/Names.antt =====
-- The names under which crates/dns-host-config/src/linux/resolvconf.rs registers.
use dns_announce.Shared.{
  ℕ, zero, suc, sym, drop, ◌≤◌, ◌≡◌, ◌≢◌, refl, ap, ◌∙◌, true, [], ◌∷◌, ◌++◌, arith, length, take,
  All, All-append, Bool-cases, inl, inr, length-take,
}
use dns_announce.Text.{Text, is_ascii_alphanumeric}
use dns_announce.Resolvconf.{registration_prefix, is_name_char, sanitized, registration_name_for}

-- A character that the sanitizing keeps.
abbrev pub IsKept : ℕ → Type 0
IsKept c = is_name_char c ≡ true

sanitized-IsKept : (s : Text) → All IsKept (sanitized s)
unfolding sanitized
sanitized-IsKept [] = tt
sanitized-IsKept (c ∷ cs) = elim (Bool-cases (is_name_char c)) [
  | inl kept ↦ rw kept (kept, sanitized-IsKept cs)
  | inr dropped ↦ rw dropped (sanitized-IsKept cs)
]

sanitized_same : (s : Text) → All IsKept s → sanitized s ≡ s
unfolding sanitized
sanitized_same [] h = refl
sanitized_same (c ∷ cs) h = rw h.0 (ap (◌∷◌ c) (sanitized_same cs h.1))

take-IsKept : (n : ℕ) (s : Text) → All IsKept s → All IsKept (take n s)
take-IsKept zero s h = tt
take-IsKept (suc n) [] h = tt
take-IsKept (suc n) (c ∷ s) h = (h.0, take-IsKept n s h.1)

-- Whatever the owner, the registered name has at most 36 characters, every one of them a letter, a
-- digit, a dash or an underscore.
pub registration_name_for-IsKept :
    (owner : Text)
    → (length (registration_name_for owner) ≤ 36) × All IsKept (registration_name_for owner)
unfolding registration_name_for is_name_char is_ascii_alphanumeric
registration_name_for-IsKept owner = (
  omega (arith, length-take 32 (sanitized owner)),
  All-append IsKept registration_prefix _ (refl, (refl, (refl, (refl, tt))))
      (take-IsKept 32 (sanitized owner) (sanitized-IsKept owner)),
)

take_short : (n : ℕ) (s : Text) → length s ≤ n → take n s ≡ s
take_short zero [] h = refl
take_short zero (c ∷ s) h = absurd (omega arith)
take_short (suc n) [] h = refl
take_short (suc n) (c ∷ s) h = ap (◌∷◌ c) (take_short n s (omega arith))

registration_name_for_same :
    (owner : Text)
    → All IsKept owner
    → length owner ≤ 32
    → registration_name_for owner ≡ registration_prefix ++ owner
unfolding registration_name_for
registration_name_for_same owner h l =
    ap (λ (s : Text). registration_prefix ++ take 32 s) (sanitized_same owner h)
    ∙ ap (◌++◌ registration_prefix) (take_short 32 owner l)

-- Two different owners, each of at most 32 such characters, register different names.
pub registration_name_for-ne :
    (o p : Text)
    → All IsKept o
    → All IsKept p
    → length o ≤ 32
    → length p ≤ 32
    → o ≢ p
    → registration_name_for o ≢ registration_name_for p
registration_name_for-ne o p ho hp lo lp differ e = differ (
    ap (drop 4) (sym (registration_name_for_same o ho lo) ∙ e ∙ registration_name_for_same p hp lp))
