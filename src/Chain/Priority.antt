-- ===== src/Chain/Priority.antt =====
-- `probe` of crates/dns-host-config/src/linux/chain.rs against the list of candidates that its
-- documentation gives, and what a backend that it picked has verified.
use mathlib.Core.Path.{subst}
use dns_announce.Shared.{
  ◌≡◌, refl, ap, ◌∙◌, true, inl, inr, Bool-cases, Option, none, some, List, [], ◌∷◌, if_cases,
  seq_eq,
}
use dns_announce.Shared.Methods.{Result, ok, err}
use dns_announce.Text.{Text, codes}
use dns_announce.StaticConf
use dns_announce.Resolvconf
use dns_announce.Resolvconf.{Resolvconf}
use dns_announce.Resolvconf.Probe
use dns_announce.Resolvconf.Verified.{IsVerified, probe-IsVerified}
use dns_announce.Resolved
use dns_announce.Resolved.{
  SystemdResolved, not_available, dbus, connected, probe_with_resolv_conf,
  resolv_conf_points_at_resolved,
}
use dns_announce.Resolved.Pointing.{IsLinkToResolved, resolv_conf_points_at_resolved_iff}
use dns_announce.Chain.{
  systemd_resolved, resolvconf, static_resolv_conf, override_env_var, Platform, Machine, Picked,
  system_of, systemd_picked, resolvconf_picked, try_systemd, try_resolvconf, static_picked,
  probe_named, or_static, or_resolvconf, auto_detect, or_auto, overridden, probe,
}

-- The names to try: the one that the environment gives, then each in order of priority.
abbrev pub priority : List Text
priority = codes "systemd-resolved" ∷ codes "resolvconf" ∷ codes "static-resolv-conf" ∷ []

unfoldable pub candidates : Option Text → List Text
candidates none = priority
candidates (some n) = n ∷ priority

module _ (platform : Platform) where
  open platform use {bus, canonicalize, variable}

  -- The first name whose backend can be used.
  unfoldable pub or_next :
      (Machine platform → Machine platform × Option (Picked platform))
      → Machine platform × Option (Picked platform)
      → Machine platform × Option (Picked platform)
  or_next next (m, some b) = (m, some b)
  or_next next (m, none) = next m

  unfoldable pub first_usable :
      Text → List Text → Machine platform → Machine platform × Option (Picked platform)
  first_usable owner [] m = (m, none)
  first_usable owner (n ∷ ns) m = or_next (first_usable owner ns) (probe_named platform n owner m)

  abbrev pub as_option :
      Machine platform × Picked platform → Machine platform × Option (Picked platform)
  as_option (m, b) = (m, some b)

  probe_named-systemd :
      (owner : Text) (m : Machine platform)
      → probe_named platform (codes "systemd-resolved") owner m ≡ try_systemd platform m
  unfolding probe_named seq_eq
  probe_named-systemd owner m = refl

  probe_named-resolvconf :
      (owner : Text) (m : Machine platform)
      → probe_named platform (codes "resolvconf") owner m ≡ (m, try_resolvconf platform owner m)
  unfolding probe_named seq_eq
  probe_named-resolvconf owner m = refl

  probe_named-static :
      (owner : Text) (m : Machine platform)
      → probe_named platform (codes "static-resolv-conf") owner m
        ≡ (m, some (static_picked platform owner m))
  unfolding probe_named seq_eq
  probe_named-static owner m = refl

  -- The last two candidates, behind what resolvconf's own probe found.
  last_candidate :
      (owner : Text) (m : Machine platform) (o : Option (Picked platform))
      → or_next (first_usable owner (codes "static-resolv-conf" ∷ [])) (m, o)
        ≡ (m, some (or_static platform owner m o))
  unfolding or_next first_usable or_static
  last_candidate owner m (some b) = refl
  last_candidate owner m none = ap (or_next (λ m'. (m', none))) (probe_named-static owner m)

  behind_systemd :
      (owner : Text) (r : Machine platform × Option (Picked platform))
      → or_next (first_usable owner (codes "resolvconf" ∷ codes "static-resolv-conf" ∷ [])) r
        ≡ as_option (or_resolvconf platform owner r)
  unfolding or_next first_usable or_resolvconf
  behind_systemd owner (m, some b) = refl
  behind_systemd owner (m, none) =
      ap (or_next (first_usable owner (codes "static-resolv-conf" ∷ [])))
        (probe_named-resolvconf owner m)
      ∙ last_candidate owner m (try_resolvconf platform owner m)

  auto_detect-priority :
      (owner : Text) (m : Machine platform)
      → first_usable owner priority m ≡ as_option (auto_detect platform owner m)
  unfolding first_usable auto_detect
  auto_detect-priority owner m =
      ap (or_next (first_usable owner (codes "resolvconf" ∷ codes "static-resolv-conf" ∷ [])))
        (probe_named-systemd owner m)
      ∙ behind_systemd owner (try_systemd platform m)

  or_auto-candidates :
      (owner : Text) (r : Machine platform × Option (Picked platform))
      → or_next (first_usable owner priority) r ≡ as_option (or_auto platform owner r)
  unfolding or_next or_auto
  or_auto-candidates owner (m, some b) = refl
  or_auto-candidates owner (m, none) = auto_detect-priority owner m

  overridden-candidates :
      (owner : Text) (o : Option Text) (m : Machine platform)
      → first_usable owner (candidates o) m ≡ as_option (overridden platform owner o m)
  unfolding candidates overridden first_usable
  overridden-candidates owner none m = auto_detect-priority owner m
  overridden-candidates owner (some n) m = or_auto-candidates owner (probe_named platform n owner m)

  -- `probe` always picks a backend, the first usable one of the candidates: the name that the
  -- environment gives, if any, whether it is known or not, then systemd-resolved, resolvconf and the
  -- static file, each tried only if those before it cannot be used.
  pub probe-candidates :
      (owner : Text) (m : Machine platform)
      → first_usable owner (candidates (variable override_env_var)) m
        ≡ ((probe platform owner m).0, some (probe platform owner m).1.backend)
  unfolding probe
  probe-candidates owner m = overridden-candidates owner (variable override_env_var) m

  -- What a backend has verified of the host that it was picked on.
  abbrev pub IsUsable : Text → Machine platform → Picked platform → Type 0
  IsUsable owner m (systemd_resolved b) =
      IsLinkToResolved platform.read_link (codes "/etc/resolv.conf") × (b.active_link ≡ none)
  IsUsable owner m (resolvconf b) = IsVerified canonicalize (variable (codes "PATH")) m.fs owner b
  IsUsable owner m (static_resolv_conf b) = b ≡ StaticConf.new m.fs owner

  -- A probe leaves the files alone, and finds nothing or a backend that can be used.
  abbrev IsSound : Text → Machine platform → Machine platform × Option (Picked platform) → Type 0
  IsSound owner m (m', none) = m'.fs ≡ m.fs
  IsSound owner m (m', some b) = (m'.fs ≡ m.fs) × IsUsable owner m b

  connected-IsSound :
      (owner : Text) (m : Machine platform) (r : bus.World × Result bus.Failure bus.Connection)
      → resolv_conf_points_at_resolved (system_of platform m) (codes "/etc/resolv.conf") ≡ true
      → IsSound owner m (systemd_picked platform m (connected bus r))
  unfolding connected systemd_picked
  connected-IsSound owner m (w, ok c) e = (
    refl,
    (
      (resolv_conf_points_at_resolved_iff (system_of platform m) (codes "/etc/resolv.conf")).0 e,
      refl,
    ),
  )
  connected-IsSound owner m (w, err f) e = refl

  try_systemd-IsSound :
      (owner : Text) (m : Machine platform) → IsSound owner m (try_systemd platform m)
  unfolding Resolved.probe probe_with_resolv_conf systemd_picked
  try_systemd-IsSound owner m =
      elim (Bool-cases
        (resolv_conf_points_at_resolved (system_of platform m) (codes "/etc/resolv.conf"))) [
          | inl ours ↦ rw ours (connected-IsSound owner m (bus.system m.world) ours)
          | inr other ↦ rw other refl
        ]

  resolvconf_picked-IsSound :
      (owner : Text) (m : Machine platform) (r : Resolvconf.Result Resolvconf)
      → Resolvconf.Probe.probe canonicalize (variable (codes "PATH")) m.fs owner ≡ r
      → IsSound owner m (m, resolvconf_picked platform r)
  unfolding resolvconf_picked
  resolvconf_picked-IsSound owner m (Resolvconf.ok b) e =
      (refl, (probe-IsVerified canonicalize (variable (codes "PATH")) m.fs owner b).0 e)
  resolvconf_picked-IsSound owner m (Resolvconf.err x) e = refl

  try_resolvconf-IsSound :
      (owner : Text) (m : Machine platform) → IsSound owner m (m, try_resolvconf platform owner m)
  try_resolvconf-IsSound owner m = resolvconf_picked-IsSound owner m _ refl

  probe_named-IsSound :
      (n owner : Text) (m : Machine platform) → IsSound owner m (probe_named platform n owner m)
  unfolding probe_named
  probe_named-IsSound n owner m =
      if_cases (IsSound owner m) (seq_eq n (codes "systemd-resolved")) _ _
        (λ e. try_systemd-IsSound owner m)
        (λ e.
          if_cases (IsSound owner m) (seq_eq n (codes "resolvconf")) _ _
            (λ e1. try_resolvconf-IsSound owner m)
            (λ e1.
              if_cases (IsSound owner m) (seq_eq n (codes "static-resolv-conf")) _ _
                (λ e2. (refl, refl)) (λ e2. refl)))

  -- Files are all that a verification depends on.
  IsUsable-same_files :
      (owner : Text) (m m' : Machine platform) (b : Picked platform)
      → m'.fs ≡ m.fs
      → IsUsable owner m' b
      → IsUsable owner m b
  unfolding resolv_conf_points_at_resolved
  IsUsable-same_files owner m m' (systemd_resolved b) e u = u
  IsUsable-same_files owner m m' (resolvconf b) e u =
      subst (λ fs. IsVerified canonicalize (variable (codes "PATH")) fs owner b) e u
  IsUsable-same_files owner m m' (static_resolv_conf b) e u =
      u ∙ ap (λ fs. StaticConf.new fs owner) e

  moved-IsSound :
      (owner : Text) (m m' : Machine platform) (r : Machine platform × Option (Picked platform))
      → m'.fs ≡ m.fs
      → IsSound owner m' r
      → IsSound owner m r
  moved-IsSound owner m m' (m'', none) e h = h ∙ e
  moved-IsSound owner m m' (m'', some b) e h = (h.0 ∙ e, IsUsable-same_files owner m m' b e h.1)

  or_next-IsSound :
      (owner : Text) (m : Machine platform)
      (next : Machine platform → Machine platform × Option (Picked platform))
      (r : Machine platform × Option (Picked platform))
      → ((m' : Machine platform) → IsSound owner m' (next m'))
      → IsSound owner m r
      → IsSound owner m (or_next next r)
  unfolding or_next
  or_next-IsSound owner m next (m', some b) k h = h
  or_next-IsSound owner m next (m', none) k e = moved-IsSound owner m m' (next m') e (k m')

  first_usable-IsSound :
      (owner : Text) (ns : List Text) (m : Machine platform)
      → IsSound owner m (first_usable owner ns m)
  unfolding first_usable
  first_usable-IsSound owner [] m = refl
  first_usable-IsSound owner (n ∷ ns) m =
      or_next-IsSound owner m (first_usable owner ns) (probe_named platform n owner m)
        (λ m'. first_usable-IsSound owner ns m') (probe_named-IsSound n owner m)

  -- A backend that `probe` picks, with or without an override, has passed its own verification on this
  -- host: systemd-resolved, with no link remembered, only where /etc/resolv.conf is a symbolic link whose
  -- target has systemd/resolve/ in it and ends in resolv.conf; resolvconf only where the command is found
  -- and suits; and the static file as a new instance for this owner. No file changes.
  pub probe-IsUsable :
      (owner : Text) (m : Machine platform)
      → ((probe platform owner m).0.fs ≡ m.fs) × IsUsable owner m (probe platform owner m).1.backend
  probe-IsUsable owner m =
      subst (IsSound owner m) (probe-candidates owner m)
        (first_usable-IsSound owner (candidates (variable override_env_var)) m)
