-- ===== src/Resolved/Pointing.antt =====
-- `resolv_conf_points_at_resolved` of crates/dns-host-config/src/linux/systemd_resolved.rs.
use dns_announce.Shared.{◌≡◌, refl, ap, ◌∙◌, ◌↔◌, Bool, true, false, ◌&&◌, Option, none, some, ◌++◌}
use dns_announce.Text.{Text, codes}
use dns_announce.Text.Search.{contains_iff, ends_with_iff}
use dns_announce.Resolved.{System, points_at, resolv_conf_points_at_resolved}

-- A symbolic link whose target has the service's directory in it, and ends in the file's name.
pub record IsLinkToResolved (read_link : Text → Option Text) (path : Text) : Type 0 where
  pub target : Text
  pub is_link : read_link path ≡ some target
  pub within :
      (before : Text) × (after : Text) × (target ≡ before ++ (codes "systemd/resolve/" ++ after))
  pub named : (front : Text) × (target ≡ front ++ codes "resolv.conf")

both_true : (b c : Bool) → ((b && c) ≡ true) ↔ ((b ≡ true) × (c ≡ true))
both_true true true = (λ e. (refl, refl), λ h. refl)
both_true true false = (λ e. cc, λ h. h.1)
both_true false c = (λ e. cc, λ h. h.0)

-- The test is true exactly of such a link.
pub resolv_conf_points_at_resolved_iff :
    (sys : System) (path : Text)
    → (resolv_conf_points_at_resolved sys path ≡ true) ↔ IsLinkToResolved sys.read_link path
unfolding resolv_conf_points_at_resolved points_at
resolv_conf_points_at_resolved_iff sys path = (there (sys.read_link path) refl, back)
  where
    there :
        (o : Option Text)
        → sys.read_link path ≡ o
        → points_at o ≡ true
        → IsLinkToResolved sys.read_link path
    there none e h = cc
    there (some target) e h =
        let (within, named) = (both_true _ _).0 h in
        record {
          target = target;
          is_link = e;
          within = (contains_iff (codes "systemd/resolve/") target).0 within;
          named = (ends_with_iff (codes "resolv.conf") target).0 named;
        }

    back : IsLinkToResolved sys.read_link path → points_at (sys.read_link path) ≡ true
    back l =
        ap points_at l.is_link
        ∙ (both_true _ _).1 (
          (contains_iff (codes "systemd/resolve/") l.target).1 l.within,
          (ends_with_iff (codes "resolv.conf") l.target).1 l.named,
        )
