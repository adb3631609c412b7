-- ===== src/Chain/Override.antt =====
-- The override of crates/dns-host-config/src/linux/chain.rs by DNS_HOST_CONFIG_BACKEND: `probe_named`
-- and `backend_name`.
use mathlib.Core.Path.{subst}
use dns_announce.Shared.{
  ◌≡◌, refl, sym, ap, ◌∙◌, true, Option, none, some, if_cases, seq_eq, seq_eq_iff,
}
use dns_announce.Shared.Methods.{Result, ok, err}
use dns_announce.Text.{Text, codes}
use dns_announce.Resolvconf
use dns_announce.Resolvconf.{Resolvconf}
use dns_announce.Resolved
use dns_announce.Resolved.{SystemdResolved}
use dns_announce.Chain.{
  name, override_env_var, Platform, Machine, Picked, systemd_picked, resolvconf_picked,
  static_picked, probe_named, or_auto, overridden, with_backend, probe, backend_name,
}

module _ (platform : Platform) where
  open platform use {bus, canonicalize, variable}

  -- The name of what was found.
  abbrev IsNamed : Text → Option (Picked platform) → Type 0
  IsNamed n none = Unit {0}
  IsNamed n (some b) = name b ≡ n

  systemd_picked-IsNamed :
      (m : Machine platform)
      (r : bus.World × Result (Resolved.Error bus.Failure) (SystemdResolved bus.Connection))
      → IsNamed (codes "systemd-resolved") (systemd_picked platform m r).1
  unfolding systemd_picked name
  systemd_picked-IsNamed m (w, ok b) = refl
  systemd_picked-IsNamed m (w, err e) = tt

  resolvconf_picked-IsNamed :
      (r : Resolvconf.Result Resolvconf)
      → IsNamed (codes "resolvconf") (resolvconf_picked platform r)
  unfolding resolvconf_picked name
  resolvconf_picked-IsNamed (Resolvconf.ok b) = refl
  resolvconf_picked-IsNamed (Resolvconf.err e) = tt

  renamed :
      (n n' : Text) (o : Option (Picked platform)) → seq_eq n n' ≡ true → IsNamed n' o → IsNamed n o
  renamed n n' none e h = tt
  renamed n n' (some b) e h = h ∙ sym ((seq_eq_iff n n').0 e)

  probe_named-IsNamed :
      (n owner : Text) (m : Machine platform) → IsNamed n (probe_named platform n owner m).1
  unfolding probe_named name
  probe_named-IsNamed n owner m =
      if_cases {A = Machine platform × Option (Picked platform)} (λ r. IsNamed n r.1)
        (seq_eq n (codes "systemd-resolved")) _ _
        (λ e. renamed n (codes "systemd-resolved") _ e (systemd_picked-IsNamed m _))
        (λ e.
          if_cases {A = Machine platform × Option (Picked platform)} (λ r. IsNamed n r.1)
            (seq_eq n (codes "resolvconf")) _ _
            (λ e1. renamed n (codes "resolvconf") _ e1 (resolvconf_picked-IsNamed _))
            (λ e1.
              if_cases {A = Machine platform × Option (Picked platform)} (λ r. IsNamed n r.1)
                (seq_eq n (codes "static-resolv-conf")) _ _
                (λ e2.
                  renamed n (codes "static-resolv-conf") (some (static_picked platform owner m)) e2
                    refl)
                (λ e2. tt)))

  or_auto-some :
      (owner : Text) (r : Machine platform × Option (Picked platform)) (b : Picked platform)
      → r.1 ≡ some b
      → or_auto platform owner r ≡ (r.0, b)
  unfolding or_auto
  or_auto-some owner (m, some c) b e = ap (λ x. (m, x)) (some_injective e)
    where
      some_injective : ◌≡◌ {A = Option (Picked platform)} (some c) (some b) → c ≡ b
      some_injective q = cc
  or_auto-some owner (m, none) b e = cc

  -- Where the environment names a backend and `probe_named` finds it usable, `probe` picks what
  -- `probe_named` found and tries nothing else, and `backend_name` is the name in the environment.
  pub backend_name-override :
      (owner n : Text) (m : Machine platform) (b : Picked platform)
      → variable override_env_var ≡ some n
      → (probe_named platform n owner m).1 ≡ some b
      → (probe platform owner m ≡ ((probe_named platform n owner m).0, record { backend = b }))
        × (backend_name platform (probe platform owner m).1 ≡ n)
  unfolding probe backend_name overridden
  backend_name-override owner n m b e h =
      let picked : probe platform owner m
          ≡ ((probe_named platform n owner m).0, record { backend = b }) =
        rw e
          (ap (with_backend platform) (or_auto-some owner (probe_named platform n owner m) b h)) in
      (
        picked,
        ap (λ x. name x.1.backend) picked ∙ subst (IsNamed n) h (probe_named-IsNamed n owner m),
      )
