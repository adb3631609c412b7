-- ===== src/Chain.antt =====
-- crates/dns-host-config/src/linux/chain.rs: the backend that picks one of the three others, and
-- passes `set` and `reset` on to it. The parts of the host are those of the three.
pub mod Lawful
pub mod Priority
pub mod Override
pub mod Fallback
pub mod Messages
use mathlib.Core.Option
use dns_announce.Shared.{
  Bool, true, false, Option, none, some, List, [], ◌∷◌, if◌then◌else◌, seq_eq,
}
use dns_announce.Shared.Methods.{Result, ok, err, Method, map_err}
use dns_announce.Text.{Text, codes}
use dns_announce.Fs
use dns_announce.Fs.{Fs, ErrorKind, IoResult}
use dns_announce.Config.{DnsRouteConfig}
use dns_announce.StaticConf
use dns_announce.StaticConf.{StaticResolvConf, Host}
use dns_announce.Resolvconf
use dns_announce.Resolvconf.{Resolvconf, Runner}
use dns_announce.Resolvconf.Probe
use dns_announce.Resolved
use dns_announce.Resolved.{System, Bus, SystemdResolved, Session}

abbrev pub override_env_var : Text
override_env_var = codes "DNS_HOST_CONFIG_BACKEND"

pub data Backend (Connection : Type 0) : Type 0 where
  systemd_resolved : SystemdResolved Connection → Backend Connection
  resolvconf : Resolvconf → Backend Connection
  static_resolv_conf : StaticResolvConf → Backend Connection

pub data Error (Failure : Type 0) : Type 0 where
  systemd_resolved : Resolved.Error Failure → Error Failure
  resolvconf : Resolvconf.Error → Error Failure
  static_resolv_conf : StaticConf.Error → Error Failure

unfoldable pub name : {C : Type 0} → Backend C → Text
name (systemd_resolved b) = codes "systemd-resolved"
name (resolvconf b) = codes "resolvconf"
name (static_resolv_conf b) = codes "static-resolv-conf"

-- The text of an error is its backend's.
unfoldable pub fmt :
    {Failure : Type 0} → (Failure → Text) → (ErrorKind → Text) → Error Failure → Text
fmt failure_text io_text (systemd_resolved e) = Resolved.fmt failure_text e
fmt failure_text io_text (resolvconf e) = Resolvconf.fmt io_text e
fmt failure_text io_text (static_resolv_conf e) = StaticConf.fmt io_text e

pub record LinuxDnsRoute (Connection : Type 0) : Type 0 where
  pub backend : Backend Connection

-- The parts of a host that the backends work on: the bus, the `resolvconf` command with what it acts
-- on, symbolic links, the texts of I/O errors, and the environment.
pub record Platform : Type 1 where
  pub bus : Bus
  pub Commands : Type 0
  pub runner : Runner Commands
  pub read_link : Text → Option Text
  pub canonicalize : Text → Option Text
  pub io_text : ErrorKind → Text
  pub variable : Text → Option Text

module _ (platform : Platform) where
  open platform use {bus, Commands, runner, canonicalize, variable}

  pub record Machine : Type 0 where
    pub world : bus.World
    pub fs : Fs
    pub commands : Commands

  abbrev pub Picked : Type 0
  Picked = Backend bus.Connection

  abbrev pub Failed : Type 0
  Failed = Error bus.Failure

  abbrev pub system_of : Machine → System
  system_of m = record { fs = m.fs; read_link = platform.read_link; io_text = platform.io_text }

  -- `.ok().map(Backend::SystemdResolved)`, behind what the probe did to the bus.
  unfoldable pub systemd_picked :
      Machine
      → bus.World × Result (Resolved.Error bus.Failure) (SystemdResolved bus.Connection)
      → Machine × Option Picked
  systemd_picked m (w, ok b) = (record m { world = w }, some (systemd_resolved b))
  systemd_picked m (w, err e) = (record m { world = w }, none)

  -- `.ok().map(Backend::Resolvconf)`
  unfoldable pub resolvconf_picked : Resolvconf.Result Resolvconf → Option Picked
  resolvconf_picked (Resolvconf.ok b) = some (resolvconf b)
  resolvconf_picked (Resolvconf.err e) = none

  -- Each backend's own probe.
  abbrev pub try_systemd : Machine → Machine × Option Picked
  try_systemd m = systemd_picked m (Resolved.probe bus (system_of m) m.world)

  abbrev pub try_resolvconf : Text → Machine → Option Picked
  try_resolvconf owner m =
      resolvconf_picked (Resolvconf.Probe.probe canonicalize (variable (codes "PATH")) m.fs owner)

  abbrev pub static_picked : Text → Machine → Picked
  static_picked owner m = static_resolv_conf (StaticConf.new m.fs owner)

  unfoldable pub probe_named : Text → Text → Machine → Machine × Option Picked
  probe_named name owner m =
      if seq_eq name (codes "systemd-resolved")
      then try_systemd m
      else if seq_eq name (codes "resolvconf")
      then (m, try_resolvconf owner m)
      else if seq_eq name (codes "static-resolv-conf")
      then (m, some (static_picked owner m))
      else (m, none)

  -- The branch of `probe` where systemd-resolved cannot be used.
  unfoldable pub or_static : Text → Machine → Option Picked → Picked
  or_static owner m (some b) = b
  or_static owner m none = static_picked owner m

  unfoldable pub or_resolvconf : Text → Machine × Option Picked → Machine × Picked
  or_resolvconf owner (m, some b) = (m, b)
  or_resolvconf owner (m, none) = (m, or_static owner m (try_resolvconf owner m))

  unfoldable pub auto_detect : Text → Machine → Machine × Picked
  auto_detect owner m = or_resolvconf owner (try_systemd m)

  -- Behind `probe_named` with the name of the environment.
  unfoldable pub or_auto : Text → Machine × Option Picked → Machine × Picked
  or_auto owner (m, some b) = (m, b)
  or_auto owner (m, none) = auto_detect owner m

  unfoldable pub overridden : Text → Option Text → Machine → Machine × Picked
  overridden owner (some name) m = or_auto owner (probe_named name owner m)
  overridden owner none m = auto_detect owner m

  abbrev pub with_backend : Machine × Picked → Machine × LinuxDnsRoute bus.Connection
  with_backend (m, b) = (m, record { backend = b })

  unfoldable pub probe : Text → Machine → Machine × LinuxDnsRoute bus.Connection
  probe owner m = with_backend (overridden owner (variable override_env_var) m)

  unfoldable pub backend_name : LinuxDnsRoute bus.Connection → Text
  backend_name self = name self.backend

  -- A backend and the host that it runs on.
  pub record Running : Type 0 where
    pub machine : Machine
    pub self : LinuxDnsRoute bus.Connection

  abbrev pub with_self : Machine → Picked → Running
  with_self m b = record { machine = m; self = record { backend = b } }

  -- `.await.map_err(..)` of each backend's methods.
  unfoldable pub of_systemd :
      Machine
      → Session bus × Result (Resolved.Error bus.Failure) (Unit {0})
      → Running × Result Failed (Unit {0})
  of_systemd m (s, r) = (
    with_self (record m { world = s.world }) (systemd_resolved s.self),
    map_err systemd_resolved r,
  )

  unfoldable pub of_resolvconf :
      Machine
      → (Commands × Resolvconf) × Resolvconf.Result (Unit {0})
      → Running × Result Failed (Unit {0})
  of_resolvconf m ((w, b), Resolvconf.ok x) =
      (with_self (record m { commands = w }) (resolvconf b), ok x)
  of_resolvconf m ((w, b), Resolvconf.err e) =
      (with_self (record m { commands = w }) (resolvconf b), err (resolvconf e))

  unfoldable pub of_static :
      Machine → Host × IoResult (Unit {0}) → Running × Result Failed (Unit {0})
  of_static m (h, Fs.ok x) = (with_self (record m { fs = h.fs }) (static_resolv_conf h.self), ok x)
  of_static m (h, Fs.err e) = (
    with_self (record m { fs = h.fs }) (static_resolv_conf h.self),
    err (static_resolv_conf (StaticConf.io e)),
  )

  unfoldable pub set_on :
      Picked → Text → DnsRouteConfig → Machine → Running × Result Failed (Unit {0})
  set_on (systemd_resolved b) interface config m =
      of_systemd m
        (Resolved.set bus (system_of m) interface config (record { world = m.world; self = b }))
  set_on (resolvconf b) interface config m =
      of_resolvconf m (Resolvconf.set runner config (m.commands, b))
  set_on (static_resolv_conf b) interface config m =
      of_static m (StaticConf.set config (record { fs = m.fs; self = b }))

  unfoldable pub set : Text → DnsRouteConfig → Method Running Failed (Unit {0})
  set interface config r = set_on r.self.backend interface config r.machine

  unfoldable pub reset_on : Picked → Machine → Running × Result Failed (Unit {0})
  reset_on (systemd_resolved b) m =
      of_systemd m (Resolved.reset bus (record { world = m.world; self = b }))
  reset_on (resolvconf b) m = of_resolvconf m (Resolvconf.reset runner (m.commands, b))
  reset_on (static_resolv_conf b) m =
      of_static m (StaticConf.reset (record { fs = m.fs; self = b }))

  unfoldable pub reset : Method Running Failed (Unit {0})
  reset r = reset_on r.self.backend r.machine
