-- ===== src/Config/Canonical.antt =====
-- `DnsRouteConfig::new` of crates/dns-host-config/src/config.rs gives each set of domains one form.
use dns_announce.Shared.{◌≡◌, refl, sym, ap, ◌∙◌, ◌↔◌, false, List, [], map, is_empty}
use mathlib.Core.Path.{subst}
use dns_announce.Net.{IpAddr}
use dns_announce.Text.{Text}
use dns_announce.Text.Order.{Elem, dedup-sort-Ascending, Elem-dedup-sort, Elem-map}
use dns_announce.Text.Unique.{unique_list}
use dns_announce.Config.{ConfigResult, ok, err, normalize_domains, clean, new}
use dns_announce.Config.Same.{SameText, clean_iff}
use dns_announce.Config.Normal.{AllValid, AllValid-first_invalid}

-- Every domain of one list is the same as some domain of the other, in any order and any number of
-- times each.
abbrev pub SameDomains : List Text → List Text → Type 0
SameDomains ds ds' =
    ((d : Text) → Elem d ds → (d' : Text) × Elem d' ds' × SameText d d')
    × ((d' : Text) → Elem d' ds' → (d : Text) × Elem d ds × SameText d d')

-- The same texts once cleaned.
abbrev SameCleaned : List Text → List Text → Type 0
SameCleaned ds ds' = (t : Text) → Elem t (map clean ds) ↔ Elem t (map clean ds')

map-clean_iff : (ds ds' : List Text) → SameCleaned ds ds' ↔ SameDomains ds ds'
map-clean_iff ds ds' = (
  λ h. (
    λ d m.
        let (d', m', e) =
          (Elem-map clean _ ds').0 ((h (clean d)).0 ((Elem-map clean _ ds).1 (d, m, refl))) in
        (d', m', (clean_iff d d').1 e),
    λ d' m'.
        let (d, m, e) =
          (Elem-map clean _ ds).0 ((h (clean d')).1 ((Elem-map clean _ ds').1 (d', m', refl))) in
        (d, m, (clean_iff d d').1 (sym e)),
  ),
  λ h t. (
    λ k.
        let (d, m, e) = (Elem-map clean t ds).0 k in
        let (d', m', s) = h.0 d m in (Elem-map clean t ds').1 (d', m', e ∙ (clean_iff d d').0 s),
    λ k.
        let (d', m', e) = (Elem-map clean t ds').0 k in
        let (d, m, s) = h.1 d' m' in (Elem-map clean t ds).1 (d, m, e ∙ sym ((clean_iff d d').0 s)),
  ),
)

normalize_domains_iff :
    (ds ds' : List Text) → (normalize_domains ds ≡ normalize_domains ds') ↔ SameCleaned ds ds'
unfolding normalize_domains
normalize_domains_iff ds ds' = (
  λ e t. (
    λ m.
        (Elem-dedup-sort t (map clean ds')).0
          (subst (Elem t) e ((Elem-dedup-sort t (map clean ds)).1 m)),
    λ m.
        (Elem-dedup-sort t (map clean ds)).0
          (subst (Elem t) (sym e) ((Elem-dedup-sort t (map clean ds')).1 m)),
  ),
  λ h.
      unique_list _ _ (dedup-sort-Ascending (map clean ds)) (dedup-sort-Ascending (map clean ds'))
        (λ t. (
          λ m.
              (Elem-dedup-sort t (map clean ds')).1
                ((h t).0 ((Elem-dedup-sort t (map clean ds)).0 m)),
          λ m.
              (Elem-dedup-sort t (map clean ds)).1
                ((h t).1 ((Elem-dedup-sort t (map clean ds')).0 m)),
        )),
)

-- The domains of a result.
abbrev domains_of : ConfigResult → List Text
domains_of (ok cfg) = cfg.routing_domains
domains_of (err e) = []

new_valid :
    (servers : List IpAddr) (ds : List Text)
    → is_empty servers ≡ false
    → AllValid ds
    → new servers ds ≡ ok (record { servers = servers; routing_domains = normalize_domains ds })
unfolding new
new_valid servers ds some_server h = rw (some_server, AllValid-first_invalid ds h) refl

-- For some servers and valid domains: two lists of domains give the same configuration if and only if
-- they have the same domains but for the case of letters, dots at the end, order and repeats.
pub new-canonical_iff :
    (servers : List IpAddr) (ds ds' : List Text)
    → is_empty servers ≡ false
    → AllValid ds
    → AllValid ds'
    → (new servers ds ≡ new servers ds') ↔ SameDomains ds ds'
new-canonical_iff servers ds ds' s h h' =
    let made = new_valid servers ds s h in
    let made' = new_valid servers ds' s h' in
    (
      λ e.
          (map-clean_iff ds ds').0
            ((normalize_domains_iff ds ds').0 (ap domains_of (sym made ∙ e ∙ made'))),
      λ same.
          made
          ∙ ap (λ (l : List Text). ok (record { servers = servers; routing_domains = l }))
              ((normalize_domains_iff ds ds').1 ((map-clean_iff ds ds').1 same))
          ∙ sym made',
    )
