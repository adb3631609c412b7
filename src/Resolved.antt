-- ===== src/Resolved.antt =====
-- crates/dns-host-config/src/linux/systemd_resolved.rs: the backend that configures a link of
-- systemd-resolved over D-Bus. The bus and the service on it are parameters: a call changes a world
-- that the model knows nothing of, and returns a value or a `zbus::Error`.
pub mod Calls
pub mod Links
pub mod Undo
pub mod Index
pub mod Pointing
pub mod Responsive
use dns_announce.Shared.{
  ℕ, Bool, true, false, ◌&&◌, Option, none, some, List, [], ◌∷◌, ◌++◌, map, if◌then◌else◌,
}
use dns_announce.Shared.Methods.{Result, ok, err, Method, and_then, ◌>>=◌, ◌>>◌, lift, map_err}
use dns_announce.Net.{Bytes, Ipv6Addr, Ipv4Addr, IpAddr, v4, v6, octets}
use dns_announce.Text.{Text, codes}
use dns_announce.Text.Lines.{trim}
use dns_announce.Text.Search.{contains, ends_with}
use dns_announce.Text.Integer.{ℤ, pos, parse_i32}
use dns_announce.Fs
use dns_announce.Fs.{Fs, ErrorKind, IoResult, read_text}
use dns_announce.Fs.Paths.{join}
use dns_announce.Config.{DnsRouteConfig}

abbrev pub af_inet : ℤ
af_inet = pos 2

abbrev pub af_inet6 : ℤ
af_inet6 = pos 10

pub data Error (Failure : Type 0) : Type 0 where
  not_available : Text → Error Failure
  dbus : Failure → Error Failure

-- What the backend reads of the host: its files, the targets of symbolic links, and the text of an
-- I/O error.
pub record System : Type 0 where
  pub fs : Fs
  pub read_link : Text → Option Text
  pub io_text : ErrorKind → Text

-- The calls of `zbus`, in the order of the program: the system bus, the manager's proxy, its
-- `GetLink`, the proxy of a link, and that link's `SetDNS` and `SetDomains`.
pub record Bus : Type 1 where
  pub World : Type 0
  pub Failure : Type 0
  pub Connection : Type 0
  pub Manager : Type 0
  pub ObjectPath : Type 0
  pub Builder : Type 0
  pub Link : Type 0
  pub system : Method World Failure Connection
  pub manager_new : Connection → Method World Failure Manager
  pub get_link : Manager → ℤ → Method World Failure ObjectPath
  pub builder_path : Connection → ObjectPath → Result Failure Builder
  pub build : Builder → Method World Failure Link
  pub set_dns : Link → List (ℤ × Bytes) → Method World Failure (Unit {0})
  pub set_domains : Link → List (Text × Bool) → Method World Failure (Unit {0})

-- The text of an error, with that of a `zbus::Error`.
unfoldable pub fmt : {Failure : Type 0} → (Failure → Text) → Error Failure → Text
fmt failure_text (not_available msg) = codes "systemd-resolved not usable: " ++ msg
fmt failure_text (dbus e) = codes "systemd-resolved D-Bus call failed: " ++ failure_text e

pub record SystemdResolved (Connection : Type 0) : Type 0 where
  pub connection : Connection
  pub active_link : Option ℤ

-- `Ipv4Addr::octets` and `Ipv6Addr::octets` behind the address family.
unfoldable pub encode_addr : IpAddr → ℤ × Bytes
encode_addr (v4 x) = (af_inet, x.a ∷ x.b ∷ x.c ∷ x.d ∷ [])
encode_addr (v6 x) = (af_inet6, octets x)

-- Every domain is for routing only.
abbrev pub routing_only : Text → Text × Bool
routing_only d = (d, true)

module _ {Failure : Type 0} (sys : System) where
  unfoldable pub parsed : Text → Option ℤ → Result (Error Failure) ℤ
  parsed path (some i) = ok i
  parsed path none = err (not_available (path ++ codes " does not contain an integer"))

  -- What `ifindex` makes of the text of a file, or of the error of reading it.
  unfoldable pub read_index : Text → IoResult Text → Result (Error Failure) ℤ
  read_index path (Fs.ok raw) = parsed path (parse_i32 (trim raw))
  read_index path (Fs.err e) =
      err (not_available (codes "reading " ++ (path ++ (codes ": " ++ sys.io_text e))))

  unfoldable pub ifindex : Text → Text → Result (Error Failure) ℤ
  ifindex sys_class_net interface =
      let path = join (join sys_class_net interface) (codes "ifindex") in
      read_index path (read_text sys.fs path)

unfoldable pub points_at : Option Text → Bool
points_at none = false
points_at (some target) =
    contains (codes "systemd/resolve/") target && ends_with (codes "resolv.conf") target

unfoldable pub resolv_conf_points_at_resolved : System → Text → Bool
resolv_conf_points_at_resolved sys resolv_conf = points_at (sys.read_link resolv_conf)

module _ (bus : Bus) where
  open bus use {World, Failure, Connection, Link}

  -- A backend, and the world that its calls act on.
  pub record Session : Type 0 where
    pub world : World
    pub self : SystemdResolved Connection

  abbrev pub M : Type 0 → Type 0
  M A = Method Session (Error Failure) A

  abbrev pub with_world :
      {A : Type 0} → Session → World × Result Failure A → Session × Result (Error Failure) A
  with_world s (w, r) = (record s { world = w }, map_err dbus r)

  -- A call of the bus under `?`.
  abbrev pub call : {A : Type 0} → Method World Failure A → M A
  call c s = with_world s (c s.world)

  abbrev pub set_active_link : Option ℤ → M (Unit {0})
  set_active_link link s = (record s { self = record (s.self) { active_link = link } }, ok tt)

  unfoldable pub link_proxy : ℤ → M Link
  link_proxy ifindex s =
      (do
        manager ← call (bus.manager_new s.self.connection)
        path ← call (bus.get_link manager ifindex)
        builder ← lift (map_err dbus (bus.builder_path s.self.connection path))
        call (bus.build builder))
        s

  unfoldable pub set : System → Text → DnsRouteConfig → M (Unit {0})
  set sys interface config = do
    idx ← lift (ifindex sys (codes "/sys/class/net") interface)
    link ← link_proxy idx
    call (bus.set_dns link (map encode_addr config.servers))
    call (bus.set_domains link (map routing_only config.routing_domains))
    set_active_link (some idx)

  -- What `reset` does with its link proxy; without a link there is nothing left to undo.
  unfoldable pub clear :
      Session × Result (Error Failure) Link → Session × Result (Error Failure) (Unit {0})
  clear (s, ok link) = (do call (bus.set_dns link []); call (bus.set_domains link [])) s
  clear (s, err (dbus e)) = (s, ok tt)
  clear (s, err (not_available m)) = (s, err (not_available m))

  unfoldable pub reset_link : Option ℤ → M (Unit {0})
  reset_link none s = (s, ok tt)
  reset_link (some idx) s = clear (link_proxy idx s)

  unfoldable pub reset : M (Unit {0})
  reset s =
      reset_link s.self.active_link (record s { self = record (s.self) { active_link = none } })

  unfoldable pub connected :
      World × Result Failure Connection
      → World × Result (Error Failure) (SystemdResolved Connection)
  connected (w, ok connection) = (w, ok (record { connection = connection; active_link = none }))
  connected (w, err e) = (w, err (dbus e))

  unfoldable pub probe_with_resolv_conf :
      System → Text → Method World (Error Failure) (SystemdResolved Connection)
  probe_with_resolv_conf sys resolv_conf w =
      if resolv_conf_points_at_resolved sys resolv_conf then connected (bus.system w) else (
        w,
        err (
            not_available
              (resolv_conf ++ codes " is not a symlink into systemd-resolved's runtime directory")),
      )

  unfoldable pub probe : System → Method World (Error Failure) (SystemdResolved Connection)
  probe sys = probe_with_resolv_conf sys (codes "/etc/resolv.conf")
