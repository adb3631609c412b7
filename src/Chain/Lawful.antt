-- ===== src/Chain/Lawful.antt =====
-- crates/dns-host-config/src/linux/chain.rs as a `DnsRoute`: `set` and `reset` of the picked backend
-- keep what the trait documents, for each of the three.
use dns_announce.Shared.{◌≡◌, refl, ap, ◌∙◌, Bool, true, false, Option, none, some, List}
use dns_announce.Shared.Methods.{Result, ok, err, Ensures, Ensures-mono}
use dns_announce.Text.{Text, codes}
use dns_announce.Text.Search.{is_some}
use dns_announce.Text.Integer.{ℤ}
use dns_announce.Fs
use dns_announce.Fs.{IoResult}
use dns_announce.Config.{DnsRouteConfig}
use dns_announce.StaticConf
use dns_announce.StaticConf.{Host, StaticResolvConf}
use dns_announce.StaticConf.Active as FileFlag
use dns_announce.Resolvconf
use dns_announce.Resolvconf.{Resolvconf}
use dns_announce.Resolvconf.Active as CommandFlag
use dns_announce.Resolved
use dns_announce.Resolved.{SystemdResolved, Session, ifindex}
use dns_announce.Resolved.Calls.{Kept, Remembers, set-Remembers, reset-Remembers, reset_idle}
use dns_announce.Route.{DnsRoute, IsDnsRoute, Call, set_flag, calls, flag_of, reset-calls}
use dns_announce.Chain.{
  Backend, systemd_resolved, resolvconf, static_resolv_conf, Platform, Machine, Running, Picked,
  Failed, system_of, of_systemd, of_resolvconf, of_static, set_on, set, reset_on, reset,
}

-- Whether a backend has something to undo.
unfoldable pub is_active : {C : Type 0} → Backend C → Bool
is_active (systemd_resolved b) = is_some b.active_link
is_active (resolvconf b) = b.active
is_active (static_resolv_conf b) = b.active

module _ (platform : Platform) where
  open platform use {bus, Commands, runner}

  abbrev pub active_of : Running platform → Bool
  active_of r = is_active r.self.backend

  -- A `set` of one backend, under its variant.
  systemd-flag :
      (before : Option ℤ) (m : Machine platform)
      (r : Session bus × Result (Resolved.Error bus.Failure) (Unit {0}))
      → Ensures (λ t x. is_some t.self.active_link ≡ true) (λ t. t.self.active_link ≡ before) r
      → active_of (of_systemd platform m r).0
        ≡ set_flag (is_some before) (of_systemd platform m r).1
  unfolding is_active of_systemd is_some
  systemd-flag before m (s, ok x) h = h
  systemd-flag before m (s, err e) h = ap is_some h

  resolvconf-flag :
      (before : Bool) (m : Machine platform)
      (r : (Commands × Resolvconf) × Resolvconf.Result (Unit {0}))
      → r.0.1.active ≡ CommandFlag.result_flag before r.1
      → active_of (of_resolvconf platform m r).0 ≡ set_flag before (of_resolvconf platform m r).1
  unfolding is_active of_resolvconf
  resolvconf-flag before m ((w, b), Resolvconf.ok x) h = h
  resolvconf-flag before m ((w, b), Resolvconf.err e) h = h

  static-flag :
      (before : Bool) (m : Machine platform) (r : Host × IoResult (Unit {0}))
      → r.0.self.active ≡ FileFlag.io_flag before r.1
      → active_of (of_static platform m r).0 ≡ set_flag before (of_static platform m r).1
  unfolding is_active of_static
  static-flag before m (h, Fs.ok x) e = e
  static-flag before m (h, Fs.err e) q = q

  set_on-flag :
      (b : Picked platform) (interface : Text) (config : DnsRouteConfig) (m : Machine platform)
      → active_of (set_on platform b interface config m).0
        ≡ set_flag (is_active b) (set_on platform b interface config m).1
  unfolding set_on is_active is_some
  set_on-flag (systemd_resolved b) interface config m =
      systemd-flag b.active_link m (Resolved.set bus (system_of platform m) interface config s) (
        Ensures-mono {E = Resolved.Error bus.Failure} {A = Unit {0}}
          {P = λ t x.
            (k : ℤ) × (ifindex {Failure = bus.Failure} (system_of platform m)
                (codes "/sys/class/net") interface
              ≡ ok k)
            × Remembers bus (some k) t}
          {P' = λ t x. is_some t.self.active_link ≡ true} {Q = Kept bus b}
          {Q' = λ t. t.self.active_link ≡ b.active_link}
          (Resolved.set bus (system_of platform m) interface config s) (λ t x h. ap is_some h.2)
          (λ t e. ap (λ (x : SystemdResolved bus.Connection). x.active_link) e)
          (set-Remembers bus (system_of platform m) interface config s))
    where
      s : Session bus
      s = record { world = m.world; self = b }
  set_on-flag (resolvconf b) interface config m =
      resolvconf-flag b.active m (Resolvconf.set runner config (m.commands, b))
        (CommandFlag.set-active runner config m.commands b)
  set_on-flag (static_resolv_conf b) interface config m =
      static-flag b.active m (StaticConf.set config (record { fs = m.fs; self = b }))
        (FileFlag.set-active config (record { fs = m.fs; self = b }))

  of_systemd-inactive :
      (m : Machine platform) (r : Session bus × Result (Resolved.Error bus.Failure) (Unit {0}))
      → r.0.self.active_link ≡ none
      → active_of (of_systemd platform m r).0 ≡ false
  unfolding of_systemd is_active is_some
  of_systemd-inactive m (s, r) e = ap is_some e

  of_resolvconf-inactive :
      (m : Machine platform) (r : (Commands × Resolvconf) × Resolvconf.Result (Unit {0}))
      → r.0.1.active ≡ false
      → active_of (of_resolvconf platform m r).0 ≡ false
  unfolding of_resolvconf is_active
  of_resolvconf-inactive m ((w, b), Resolvconf.ok x) e = e
  of_resolvconf-inactive m ((w, b), Resolvconf.err x) e = e

  of_static-inactive :
      (m : Machine platform) (r : Host × IoResult (Unit {0}))
      → r.0.self.active ≡ false
      → active_of (of_static platform m r).0 ≡ false
  unfolding of_static is_active
  of_static-inactive m (h, Fs.ok x) e = e
  of_static-inactive m (h, Fs.err x) e = e

  reset_on-inactive :
      (b : Picked platform) (m : Machine platform) → active_of (reset_on platform b m).0 ≡ false
  unfolding reset_on
  reset_on-inactive (systemd_resolved b) m =
      of_systemd-inactive m (Resolved.reset bus (record { world = m.world; self = b }))
        (reset-Remembers bus (record { world = m.world; self = b }))
  reset_on-inactive (resolvconf b) m =
      of_resolvconf-inactive m (Resolvconf.reset runner (m.commands, b))
        (CommandFlag.reset-Inactive runner m.commands b)
  reset_on-inactive (static_resolv_conf b) m =
      of_static-inactive m (StaticConf.reset (record { fs = m.fs; self = b }))
        (FileFlag.reset-Inactive (record { fs = m.fs; self = b }))

  none-is_some : (o : Option ℤ) → is_some o ≡ false → o ≡ none
  unfolding is_some
  none-is_some none e = refl
  none-is_some (some k) e = cc

  reset_on_idle :
      (b : Picked platform) (m : Machine platform)
      → is_active b ≡ false
      → reset_on platform b m ≡ (record { machine = m; self = record { backend = b } }, ok tt)
  unfolding reset_on is_active is_some
  reset_on_idle (systemd_resolved b) m e =
      ap (of_systemd platform m)
        (reset_idle bus (record { world = m.world; self = b }) (none-is_some _ e))
      ∙ unfold of_systemd in refl
  reset_on_idle (resolvconf b) m e =
      ap (of_resolvconf platform m) (CommandFlag.reset_idle runner m.commands b e)
      ∙ unfold of_resolvconf in refl
  reset_on_idle (static_resolv_conf b) m e =
      ap (of_static platform m) (FileFlag.reset_idle (record { fs = m.fs; self = b }) e)
      ∙ unfold of_static in refl

  -- The chain behind the trait.
  abbrev pub linux_dns_route : DnsRoute
  linux_dns_route = record {
    State = Running platform;
    Error = Failed platform;
    set = set platform;
    reset = reset platform;
  }

  -- Whichever backend was picked, and whatever the bus, the command and the file system do: a `set`
  -- that succeeds leaves it active and one that fails leaves the flag as it was, `reset` leaves it
  -- inactive even where it fails, and `reset` of an inactive one succeeds and does nothing.
  pub linux_dns_route-IsDnsRoute : IsDnsRoute linux_dns_route active_of
  unfolding set reset
  linux_dns_route-IsDnsRoute = record {
    set_active = λ interface config r. set_on-flag r.self.backend interface config r.machine;
    reset_inactive = λ r. reset_on-inactive r.self.backend r.machine;
    reset_idle = λ r e. reset_on_idle r.self.backend r.machine e;
  }

  -- After any sequence of `set` and `reset` calls on a backend, by a caller that goes on after errors,
  -- where by the results of the calls nothing is left to undo (each `set` that succeeded has a `reset`
  -- behind it, and so has the start if the backend was active then), a further `reset` succeeds and
  -- changes nothing, whatever the bus, the command and the file system do.
  pub reset-after_calls :
      (cs : List Call) (r : Running platform)
      → flag_of linux_dns_route (active_of r) cs r ≡ false
      → reset platform (calls linux_dns_route cs r) ≡ (calls linux_dns_route cs r, ok tt)
  reset-after_calls cs r e = reset-calls linux_dns_route active_of linux_dns_route-IsDnsRoute cs r e
