-- ===== src/Tests/Chain.antt =====
-- crates/dns-host-config/src/linux/chain.rs on a host where systemd-resolved can be used.
use dns_announce.Shared.{
  ◌≡◌, refl, true, Option, none, some, List, [], arith, ◌∷◌, if◌then◌else◌, seq_eq,
}
use dns_announce.Text.{Text, codes}
use dns_announce.StaticConf.{backup_path_for}
use dns_announce.Resolvconf.{exited}
use dns_announce.Route.{IsDnsRoute, Call, set_call, reset_call, calls}
use dns_announce.Chain.{
  override_env_var, static_resolv_conf, Platform, Machine, Running, systemd_picked,
  resolvconf_picked, probe_named, static_picked, probe, backend_name, reset,
}
use dns_announce.Chain.Lawful.{active_of, linux_dns_route, linux_dns_route-IsDnsRoute}
use dns_announce.Chain.Priority.{
  candidates, first_usable, IsUsable, probe-candidates, probe-IsUsable,
}
use dns_announce.Chain.Override.{backend_name-override}
use dns_announce.Chain.Fallback.{IsPlain, IsRestored, started, fallback-IsRestored}
use dns_announce.Resolved
use dns_announce.Resolved.{probe_with_resolv_conf, resolv_conf_points_at_resolved, points_at}
use dns_announce.Resolvconf.Probe
use mathlib.Core.Option
use dns_announce.Tests.Links.{bus, sys, config, start}
use dns_announce.Tests.Hosts.{host, original, owner-IsOwner}

-- The environment names this backend, if any.
abbrev host_with : Option Text → Platform
host_with name = record {
  bus = bus;
  Commands = Unit {0};
  runner = λ w binary args input. (w, exited true []);
  read_link = sys.read_link;
  canonicalize = λ path. some path;
  io_text = λ e. [];
  variable = λ n. if seq_eq n override_env_var then name else none;
}

abbrev machine : (name : Option Text) → Machine (host_with name)
machine name = record { world = start.world; fs = host.fs; commands = tt }

abbrev owner : Text
owner = codes "my-vpn"

probe-candidates_example : first_usable (host_with none) owner (candidates none) (machine none) ≡ (
  (probe (host_with none) owner (machine none)).0,
  some (probe (host_with none) owner (machine none)).1.backend,
)
unfolding seq_eq
probe-candidates_example = probe-candidates (host_with none) owner (machine none)

probe-IsUsable_example :
    ((probe (host_with none) owner (machine none)).0.fs ≡ host.fs)
    × IsUsable
        (host_with none)
        owner
        (machine none)
        (probe (host_with none) owner (machine none)).1.backend
probe-IsUsable_example = probe-IsUsable (host_with none) owner (machine none)

abbrev static_name : Text
static_name = codes "static-resolv-conf"

backend_name-override_example :
    (probe (host_with (some static_name)) owner (machine (some static_name)) ≡ (
      (probe_named (host_with (some static_name)) static_name owner (machine (some static_name))).0,
      record {
        backend = static_picked (host_with (some static_name)) owner (machine (some static_name));
      },
    ))
    × (backend_name
          (host_with (some static_name))
          (probe (host_with (some static_name)) owner (machine (some static_name))).1
        ≡ static_name)
unfolding seq_eq probe_named
backend_name-override_example =
    backend_name-override (host_with (some static_name)) owner static_name
      (machine (some static_name))
      (static_picked (host_with (some static_name)) owner (machine (some static_name))) refl refl

abbrev running : Running (host_with none)
running = record {
  machine = machine none;
  self = record { backend = static_resolv_conf host.self };
}

linux_dns_route-IsDnsRoute_example :
    IsDnsRoute (linux_dns_route (host_with none)) (active_of (host_with none))
linux_dns_route-IsDnsRoute_example = linux_dns_route-IsDnsRoute (host_with none)

-- A host with neither of the two.
abbrev plain : Platform
plain = record (host_with none) { read_link = λ path. none }

abbrev plain_machine : Machine plain
plain_machine = record { world = start.world; fs = host.fs; commands = tt }

plain-IsPlain : IsPlain plain original host.fs
unfolding backup_path_for seq_eq
plain-IsPlain = record {
  at_path = refl;
  no_backup = refl;
  path_writable = refl;
  backup_writable = refl;
}

abbrev three_calls : List Call
three_calls = set_call (codes "tun0") config ∷ reset_call ∷ set_call (codes "tun0") config ∷ []

fallback-IsRestored_example :
    IsRestored plain original host.fs
      (reset plain (calls (linux_dns_route plain) three_calls (started plain owner plain_machine)))
unfolding seq_eq systemd_picked Resolved.probe probe_with_resolv_conf resolv_conf_points_at_resolved
    points_at resolvconf_picked Probe.probe Probe.probe_named Probe.from_found Probe.find_in_path
    Option.bind
fallback-IsRestored_example =
    fallback-IsRestored plain original owner three_calls plain_machine refl refl refl owner-IsOwner
      plain-IsPlain (omega arith)
