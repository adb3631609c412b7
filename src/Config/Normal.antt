-- ===== src/Config/Normal.antt =====
-- The normal form that `DnsRouteConfig::new` of crates/dns-host-config/src/config.rs gives domains.
use mathlib.Core.Path.{ap₂}
use dns_announce.Shared.{
  ℕ, ◌≡◌, refl, sym, ap, ◌∙◌, ◌⊎◌, inl, inr, ◌↔◌, Bool, true, false, ◌&&◌, ◌||◌, none, some, List,
  [], ◌∷◌, map, arith, ◌==◌, is_empty, Bool-cases, All,
}
use dns_announce.Net.{IpAddr}
use dns_announce.Text.{
  Text, split_cons, split_dots, trim_end_dots, trim_end_dots_idem, trim_end_dots-lower, lower_char,
  lower_char_idem, is_ascii_alphanumeric,
}
use dns_announce.Text.Order.{
  sort_unstable, dedup, Ascending, dedup-sort-Ascending, dedup-sort_Ascending, Elem,
  Elem-dedup-sort, Elem-map,
}
use dns_announce.Config.{
  DnsRouteConfig, no_servers, invalid_domain, ok, err, all_label_chars, all_labels, is_valid_domain,
  clean, normalize_domains, first_invalid, new,
}

map-lower_idem : (t : Text) → map lower_char (map lower_char t) ≡ map lower_char t
map-lower_idem [] = refl
map-lower_idem (c ∷ cs) = cc (lower_char_idem c, map-lower_idem cs)

clean_idem : (d : Text) → clean (clean d) ≡ clean d
unfolding clean
clean_idem d =
    ap (map lower_char)
      (trim_end_dots-lower (trim_end_dots d) ∙ ap (map lower_char) (trim_end_dots_idem d))
    ∙ map-lower_idem (trim_end_dots d)

label_char_lower :
    (c : ℕ)
    → (is_ascii_alphanumeric (lower_char c) || (lower_char c == b'-'))
      ≡ (is_ascii_alphanumeric c || (c == b'-'))
unfolding is_ascii_alphanumeric lower_char
label_char_lower c = ground arith

dot_lower : (c : ℕ) → (lower_char c == b'.') ≡ (c == b'.')
unfolding lower_char
dot_lower c = ground arith

split_cons-lower :
    (c : ℕ) (dot : Bool) (ps : List Text)
    → split_cons (lower_char c) dot (map (map lower_char) ps)
      ≡ map (map lower_char) (split_cons c dot ps)
unfolding split_cons
split_cons-lower c true ps = refl
split_cons-lower c false [] = refl
split_cons-lower c false (p ∷ ps) = refl

split_dots-lower : (d : Text) → split_dots (map lower_char d) ≡ map (map lower_char) (split_dots d)
unfolding split_dots
split_dots-lower [] = refl
split_dots-lower (c ∷ cs) =
    ap (λ (b : Bool). split_cons (lower_char c) b (split_dots (map lower_char cs))) (dot_lower c)
    ∙ ap (split_cons (lower_char c) (c == b'.')) (split_dots-lower cs)
    ∙ split_cons-lower c (c == b'.') (split_dots cs)

all_label_chars-lower : (l : Text) → all_label_chars (map lower_char l) ≡ all_label_chars l
unfolding all_label_chars
all_label_chars-lower [] = refl
all_label_chars-lower (c ∷ cs) = ap₂ ◌&&◌ (label_char_lower c) (all_label_chars-lower cs)

is_empty-lower : (l : Text) → is_empty (map lower_char l) ≡ is_empty l
is_empty-lower [] = refl
is_empty-lower (c ∷ cs) = refl

all_labels-lower : (ls : List Text) → all_labels (map (map lower_char) ls) ≡ all_labels ls
unfolding all_labels
all_labels-lower [] = refl
all_labels-lower (l ∷ ls) = rw (is_empty-lower l, all_label_chars-lower l, all_labels-lower ls) refl

-- Normalizing a domain does not change whether it is valid.
pub is_valid_domain-clean : (d : Text) → is_valid_domain (clean d) ≡ is_valid_domain d
unfolding is_valid_domain clean
is_valid_domain-clean d =
    rw (trim_end_dots-lower, trim_end_dots_idem, is_empty-lower, split_dots-lower, all_labels-lower)
      refl

abbrev pub AllValid : List Text → Type 0
AllValid ds = All (λ d. is_valid_domain d ≡ true) ds

-- A normal configuration: some server; the domains valid, in lower case and without a dot at the
-- end, and each before the next, so that none stands twice.
pub record IsNormal (cfg : DnsRouteConfig) : Type 0 where
  pub has_server : is_empty cfg.servers ≡ false
  pub valid : (d : Text) → Elem d cfg.routing_domains → is_valid_domain d ≡ true
  pub cleaned : (d : Text) → Elem d cfg.routing_domains → clean d ≡ d
  pub ascending : Ascending cfg.routing_domains

Elem-normalize :
    (d : Text) (ds : List Text)
    → Elem d (normalize_domains ds) ↔ ((t : Text) × Elem t ds × (d ≡ clean t))
unfolding normalize_domains
Elem-normalize d ds = (
  λ h. (Elem-map clean d ds).0 ((Elem-dedup-sort d (map clean ds)).0 h),
  λ h. (Elem-dedup-sort d (map clean ds)).1 ((Elem-map clean d ds).1 h),
)

AllValid-Elem : (d : Text) (ds : List Text) → AllValid ds → Elem d ds → is_valid_domain d ≡ true
AllValid-Elem d [] h m = absurd m
AllValid-Elem d (x ∷ ds) h (inl e) = ap is_valid_domain e ∙ h.0
AllValid-Elem d (x ∷ ds) h (inr m) = AllValid-Elem d ds h.1 m

-- The search stops at the first domain that is not valid.
pub data FirstInvalid : List Text → Text → Type 0 where
  here : {d : Text} {ds : List Text} → is_valid_domain d ≡ false → FirstInvalid (d ∷ ds) d
  later :
      {d x : Text} {ds : List Text}
      → is_valid_domain x ≡ true
      → FirstInvalid ds d
      → FirstInvalid (x ∷ ds) d

first_invalid-cases :
    (ds : List Text)
    → (AllValid ds × (first_invalid ds ≡ none))
      ⊎ ((d : Text) × FirstInvalid ds d × (first_invalid ds ≡ some d))
unfolding first_invalid
first_invalid-cases [] = inl (tt, refl)
first_invalid-cases (x ∷ ds) = elim (Bool-cases (is_valid_domain x)) [
  | inr bad ↦ inr (x, here bad, rw bad refl)
  | inl good ↦ elim (first_invalid-cases ds) [
    | inl (h, e) ↦ inl ((good, h), rw (good, e) refl)
    | inr (d, f, e) ↦ inr (d, later good f, rw (good, e) refl)
  ]
]

normalized-IsNormal :
    (servers : List IpAddr) (ds : List Text)
    → is_empty servers ≡ false
    → AllValid ds
    → IsNormal (record { servers = servers; routing_domains = normalize_domains ds })
normalized-IsNormal servers ds s h = record {
  has_server = s;
  valid = λ d m.
      let (t, k, e) = (Elem-normalize d ds).0 m in
      ap is_valid_domain e ∙ is_valid_domain-clean t ∙ AllValid-Elem t ds h k;
  cleaned = λ d m. let (t, k, e) = (Elem-normalize d ds).0 m in ap clean e ∙ clean_idem t ∙ sym e;
  ascending = unfold normalize_domains in dedup-sort-Ascending (map clean ds);
}

-- `new` on every input: without servers it fails with `NoServers`; else, with a domain that is not
-- valid, with `InvalidDomain` of the first such one; else it gives a normal configuration with the
-- same servers, whose domains are the cleaned ones of the input.
pub new-cases :
    (servers : List IpAddr) (ds : List Text)
    → ((is_empty servers ≡ true) × (new servers ds ≡ err no_servers))
      ⊎ ((d : Text) × (is_empty servers ≡ false)
          × FirstInvalid ds d
          × (new servers ds ≡ err (invalid_domain d)))
      ⊎ ((cfg : DnsRouteConfig) × (new servers ds ≡ ok cfg)
          × IsNormal cfg
          × (cfg.servers ≡ servers)
          × ((d : Text) → Elem d cfg.routing_domains ↔ ((t : Text) × Elem t ds × (d ≡ clean t))))
unfolding new
new-cases servers ds = elim (Bool-cases (is_empty servers)) [
  | inl empty ↦ inl (empty, rw empty refl)
  | inr some_server ↦ elim (first_invalid-cases ds) [
    | inr (d, f, e) ↦ inr (inl (d, some_server, f, rw (some_server, e) refl))
    | inl (h, e) ↦ inr (
        inr (
          record { servers = servers; routing_domains = normalize_domains ds },
          rw (some_server, e) refl,
          normalized-IsNormal servers ds some_server h,
          refl,
          λ d. Elem-normalize d ds,
        ))
  ]
]

Elem-AllValid : (ds : List Text) → ((d : Text) → Elem d ds → is_valid_domain d ≡ true) → AllValid ds
Elem-AllValid [] h = tt
Elem-AllValid (x ∷ ds) h = (h x (inl refl), Elem-AllValid ds (λ d m. h d (inr m)))

map-clean : (ds : List Text) → ((d : Text) → Elem d ds → clean d ≡ d) → map clean ds ≡ ds
map-clean [] h = refl
map-clean (x ∷ ds) h = cc (h x (inl refl), map-clean ds (λ d m. h d (inr m)))

pub AllValid-first_invalid : (ds : List Text) → AllValid ds → first_invalid ds ≡ none
unfolding first_invalid
AllValid-first_invalid [] h = refl
AllValid-first_invalid (x ∷ ds) h = rw (h.0, AllValid-first_invalid ds h.1) refl

-- A normal configuration passes through `new` unchanged.
pub new-IsNormal :
    (cfg : DnsRouteConfig) → IsNormal cfg → new cfg.servers cfg.routing_domains ≡ ok cfg
unfolding new
new-IsNormal cfg h =
    rw
      (
        h.has_server,
        AllValid-first_invalid cfg.routing_domains (Elem-AllValid cfg.routing_domains h.valid),
      )
      (λ i. ok (record { servers = cfg.servers; routing_domains = same i }))
  where
    same : normalize_domains cfg.routing_domains ≡ cfg.routing_domains
    same =
        unfold normalize_domains in
        (ap (λ (ds : List Text). dedup (sort_unstable ds)) (map-clean cfg.routing_domains h.cleaned)
          ∙ dedup-sort_Ascending cfg.routing_domains h.ascending)
