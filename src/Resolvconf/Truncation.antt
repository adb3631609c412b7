-- ===== src/Resolvconf/Truncation.antt =====
-- The truncation setting of crates/dns-host-config/src/linux/resolvconf.rs: `truncation_enabled` reads the
-- last assignment that counts, `truncates_at` asks it only of an updater that knows the setting.
use dns_announce.Shared.{
  sym, ◌||◌, seq_eq, seq_eq_iff, Bool-cases, ◌≡◌, ◌≢◌, ◌↔◌, refl, ap, ◌∙◌, Bool, true, false, ◌&&◌,
  ◌⊎◌, inl, inr, Option, none, some, Option-cases, List, [], ◌∷◌, ◌++◌, All,
}
use dns_announce.Text.{Text, codes}
use dns_announce.Text.Lines.{lines}
use dns_announce.Text.Search.{contains_iff}
use dns_announce.Fs.{Fs, read_to_string}
use dns_announce.Resolvconf.Assigned.{Assigns, knob_value_iff}
use dns_announce.Resolvconf.Probe.{
  truncate_knob, knob_value, or_else, last_value, is_affirmative, on_by_default, truncation_enabled,
  or_empty, truncates_with, truncates_at, truncates_nameservers_after_loopback,
}

-- The line assigns no value.
abbrev pub Unset : Text → Type 0
Unset line = (v : Text) → ¬ Assigns line v

none_ne_some : (v : Text) → ◌≢◌ {A = Option Text} none (some v)
none_ne_some v e = cc

none-Unset : (line : Text) → knob_value line ≡ none → Unset line
none-Unset line e v h = none_ne_some v (sym e ∙ (knob_value_iff line v).1 h)

Unset-none : (line : Text) → Unset line → knob_value line ≡ none
Unset-none line h = elim (Option-cases (knob_value line)) [
  | inl unset ↦ unset
  | inr (v, e) ↦ absurd (h v ((knob_value_iff line v).0 e))
]

-- The last line that assigns a value assigns this one.
pub record LastAssigned (ls : List Text) (v : Text) : Type 0 where
  pub before : List Text
  pub line : Text
  pub after : List Text
  pub split : ls ≡ before ++ (line ∷ after)
  pub assigned : Assigns line v
  pub none_after : All Unset after

last_value_found :
    (ls : List Text)
    → ((last_value ls ≡ none) × All Unset ls)
      ⊎ ((v : Text) × (last_value ls ≡ some v) × LastAssigned ls v)
unfolding last_value or_else
last_value_found [] = inl (refl, tt)
last_value_found (l ∷ ls) = elim (last_value_found ls) [
  | inr (v, e, found) ↦ inr (
    v,
    ap (λ o. or_else o (knob_value l)) e,
    record {
      before = l ∷ found.before;
      line = found.line;
      after = found.after;
      split = ap (◌∷◌ l) found.split;
      assigned = found.assigned;
      none_after = found.none_after;
    },
  )
  | inl (e, later) ↦ elim (Option-cases (knob_value l)) [
    | inl unset ↦ inl (rw (e, unset) refl, (none-Unset l unset, later))
    | inr (v, set') ↦ inr (
      v,
      rw (e, set') refl,
      record {
        before = [];
        line = l;
        after = ls;
        split = refl;
        assigned = (knob_value_iff l v).0 set';
        none_after = later;
      },
    )
  ]
]

last_value-none : (ls : List Text) → All Unset ls → last_value ls ≡ none
unfolding last_value or_else
last_value-none [] h = refl
last_value-none (l ∷ ls) h = rw (last_value-none ls h.1, Unset-none l h.0) refl

last_value-LastAssigned :
    (before : List Text) (line v : Text) (after : List Text)
    → Assigns line v
    → All Unset after
    → last_value (before ++ (line ∷ after)) ≡ some v
unfolding last_value or_else
last_value-LastAssigned [] line v after e h =
    rw (last_value-none after h, (knob_value_iff line v).1 e) refl
last_value-LastAssigned (l ∷ before) line v after e h =
    rw (last_value-LastAssigned before line v after e h) refl

true_ne_false : true ≢ false
true_ne_false e = cc

-- The five spellings of a yes that count.
abbrev pub IsYes : Text → Type 0
IsYes v =
    (v ≡ codes "y") ⊎ (v ≡ codes "Y") ⊎ (v ≡ codes "yes") ⊎ (v ≡ codes "YES") ⊎ (v ≡ codes "Yes")

either_true : (b c : Bool) → (b || c) ≡ true → (b ≡ true) ⊎ (c ≡ true)
either_true true c e = inl refl
either_true false c e = inr e

is_affirmative-IsYes : (v : Text) → is_affirmative v ≡ true → IsYes v
unfolding is_affirmative
is_affirmative-IsYes v h = elim (either_true _ _ h) [
  | inr e ↦ inr (inr (inr (inr ((seq_eq_iff v (codes "Yes")).0 e))))
  | inl h1 ↦ elim (either_true _ _ h1) [
    | inr e ↦ inr (inr (inr (inl ((seq_eq_iff v (codes "YES")).0 e))))
    | inl h2 ↦ elim (either_true _ _ h2) [
      | inr e ↦ inr (inr (inl ((seq_eq_iff v (codes "yes")).0 e)))
      | inl h3 ↦ elim (either_true _ _ h3) [
        | inr e ↦ inr (inl ((seq_eq_iff v (codes "Y")).0 e))
        | inl e ↦ inl ((seq_eq_iff v (codes "y")).0 e)
      ]
    ]
  ]
]

IsYes-is_affirmative : (v : Text) → IsYes v → is_affirmative v ≡ true
unfolding is_affirmative seq_eq
IsYes-is_affirmative v (inl e) = ap is_affirmative e
IsYes-is_affirmative v (inr (inl e)) = ap is_affirmative e
IsYes-is_affirmative v (inr (inr (inl e))) = ap is_affirmative e
IsYes-is_affirmative v (inr (inr (inr (inl e)))) = ap is_affirmative e
IsYes-is_affirmative v (inr (inr (inr (inr e)))) = ap is_affirmative e

not_affirmative-IsYes : (v : Text) → (is_affirmative v ≡ false) ↔ ¬ IsYes v
not_affirmative-IsYes v = (
  λ e h. true_ne_false (sym (IsYes-is_affirmative v h) ∙ e),
  λ n. elim (Bool-cases (is_affirmative v)) [
    | inl yes' ↦ absurd (n (is_affirmative-IsYes v yes'))
    | inr no' ↦ no'
  ],
)

-- The last value assigned is not a yes.
pub record TurnedOff (defaults_src : Text) : Type 0 where
  pub value : Text
  pub last : LastAssigned (lines defaults_src) value
  pub negative : ¬ IsYes value

truncation_enabled-TurnedOff : (src : Text) → (truncation_enabled src ≡ false) ↔ TurnedOff src
unfolding truncation_enabled on_by_default
truncation_enabled-TurnedOff src = (there (last_value_found (lines src)), back)
  where
    there :
        ((last_value (lines src) ≡ none) × All Unset (lines src))
          ⊎ ((v : Text) × (last_value (lines src) ≡ some v) × LastAssigned (lines src) v)
        → on_by_default (last_value (lines src)) ≡ false
        → TurnedOff src
    there (inl (e, later)) off = absurd (true_ne_false (rw e at off))
    there (inr (v, e, found)) off = record {
      value = v;
      last = found;
      negative = (not_affirmative-IsYes v).0 (rw e at off);
    }

    back : TurnedOff src → on_by_default (last_value (lines src)) ≡ false
    back t =
        ap on_by_default (
          ap last_value t.last.split
          ∙ last_value-LastAssigned t.last.before t.last.line t.value t.last.after t.last.assigned
              t.last.none_after)
        ∙ (not_affirmative-IsYes t.value).1 t.negative

-- An updater that can be read and mentions the setting, which the defaults do not turn off; defaults
-- that cannot be read are empty.
pub record Truncates (fs : Fs) (updater defaults : Text) : Type 0 where
  pub source : Text
  pub readable : read_to_string fs updater ≡ some source
  pub mentioned : (before : Text) × (after : Text) × (source ≡ before ++ (truncate_knob ++ after))
  pub not_off : ¬ TurnedOff (or_empty (read_to_string fs defaults))

true-not_false : (b : Bool) → (b ≡ true) ↔ ¬ (b ≡ false)
true-not_false true = (λ e f. cc, λ n. refl)
true-not_false false = (λ e f. cc, λ n. absurd (n refl))

both_true : (b c : Bool) → ((b && c) ≡ true) ↔ ((b ≡ true) × (c ≡ true))
both_true true true = (λ e. (refl, refl), λ h. refl)
both_true true false = (λ e. cc, λ h. h.1)
both_true false c = (λ e. cc, λ h. h.0)

-- `truncates_at` is true exactly if the updater can be read and mentions the setting, and the last
-- line of the defaults that assigns it a value, if there is one, does not assign another value than a yes.
pub truncates_at-Truncates :
    (fs : Fs) (updater defaults : Text)
    → (truncates_at fs updater defaults ≡ true) ↔ Truncates fs updater defaults
unfolding truncates_at truncates_with
truncates_at-Truncates fs updater defaults = (there (read_to_string fs updater) refl, back)
  where
    src : Text
    src = or_empty (read_to_string fs defaults)

    there :
        (o : Option Text)
        → read_to_string fs updater ≡ o
        → truncates_with o (read_to_string fs defaults) ≡ true
        → Truncates fs updater defaults
    there none e h = cc
    there (some text) e h =
        let (known, on) = (both_true _ _).0 h in
        record {
          source = text;
          readable = e;
          mentioned = (contains_iff truncate_knob text).0 known;
          not_off = λ t. (true-not_false _).0 on ((truncation_enabled-TurnedOff src).1 t);
        }

    back : Truncates fs updater defaults → truncates_at fs updater defaults ≡ true
    back t = rw t.readable (
        (both_true _ _).1 (
          (contains_iff truncate_knob t.source).1 t.mentioned,
          (true-not_false _).1 (λ e. t.not_off ((truncation_enabled-TurnedOff src).0 e)),
        ))

-- The host's own two files.
abbrev pub HostTruncates : Fs → Type 0
HostTruncates fs =
    Truncates fs (codes "/etc/resolvconf/update.d/libc") (codes "/etc/default/resolvconf")

false-not_true : (b : Bool) → (b ≡ false) ↔ ¬ (b ≡ true)
false-not_true true = (λ e f. cc, λ n. absurd (n refl))
false-not_true false = (λ e f. cc, λ n. refl)

pub no_truncation-HostTruncates :
    (fs : Fs) → (truncates_nameservers_after_loopback fs ≡ false) ↔ ¬ HostTruncates fs
unfolding truncates_nameservers_after_loopback
no_truncation-HostTruncates fs =
    let cut =
      truncates_at-Truncates fs (codes "/etc/resolvconf/update.d/libc")
        (codes "/etc/default/resolvconf") in
    (λ e t. (false-not_true _).0 e (cut.1 t), λ n. (false-not_true _).1 (λ e. n (cut.0 e)))
