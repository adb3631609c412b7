-- ===== src/Resolvconf.antt =====
-- crates/dns-host-config/src/linux/resolvconf.rs: the backend that registers nameservers with the
-- `resolvconf` command. The command and the resolution of symbolic links are the system's, and
-- parameters here. `World` is what the command acts on.
pub mod Probe
pub mod Names
pub mod Registry
pub mod Active
pub mod Verified
pub mod Truncation
pub mod Assigned
use dns_announce.Shared.{
  ℕ, Bool, true, false, not, ◌||◌, List, [], ◌∷◌, ◌++◌, map, ◌==◌, if◌then◌else◌, take,
}
use dns_announce.Net.{Bytes}
use dns_announce.Net.Display.{show_ip}
use dns_announce.Text.{Text, is_ascii_alphanumeric, codes}
use dns_announce.Text.Utf8.{decode_lossy}
use dns_announce.Fs.{ErrorKind}
use dns_announce.Config.{DnsRouteConfig}
use dns_announce.StaticConf.{nameserver_lines}

pub data Error : Type 0 where
  not_available : Text → Error
  io : ErrorKind → Error
  command_failed : List Text → Text → Error

pub data Result {ℓ} (A : Type ℓ) : Type ℓ where
  ok : A → Result A
  err : Error → Result A

-- `args.join(" ")`
unfoldable pub join_args : List Text → Text
join_args [] = []
join_args (arg ∷ []) = arg
join_args (arg ∷ next ∷ args) = arg ++ (b' ' ∷ join_args (next ∷ args))

-- The text of an error, with that of an I/O error.
unfoldable pub fmt : (ErrorKind → Text) → Error → Text
fmt io_text (not_available msg) = codes "resolvconf not usable: " ++ msg
fmt io_text (io e) = codes "resolvconf backend: " ++ io_text e
fmt io_text (command_failed args stderr) =
    codes "resolvconf " ++ (join_args args ++ (codes " failed: " ++ stderr))

pub record Resolvconf : Type 0 where
  pub binary : Text
  pub registration_name : Text
  pub active : Bool

abbrev pub registration_prefix : Text
registration_prefix = codes "tun-"

-- `c.is_ascii_alphanumeric() || *c == '-' || *c == '_'`
unfoldable pub is_name_char : ℕ → Bool
is_name_char c = is_ascii_alphanumeric c || (c == b'-') || (c == b'_')

-- `filter`
unfoldable pub sanitized : Text → Text
sanitized [] = []
sanitized (c ∷ cs) = let rest = sanitized cs in if is_name_char c then c ∷ rest else rest

unfoldable pub registration_name_for : Text → Text
registration_name_for owner = registration_prefix ++ take 32 (sanitized owner)

-- What became of a child process: it could not be started or fed, or it ended, with success or not,
-- and with what it wrote on its standard error.
pub data Completed : Type 0 where
  io_failed : ErrorKind → Completed
  exited : Bool → Bytes → Completed

-- The binary, its arguments, and its standard input.
abbrev pub Runner : Type 0 → Type 0
Runner World = World → Text → List Text → Text → World × Completed

unfoldable pub result_of : List Text → Completed → Result (Unit {0})
result_of args (io_failed e) = err (io e)
result_of args (exited true stderr) = ok tt
result_of args (exited false stderr) = err (command_failed args (decode_lossy stderr))

module _ {World : Type 0} (runner : Runner World) where
  -- `run`
  unfoldable pub run : Resolvconf → List Text → Text → World → World × Result (Unit {0})
  run self args stdin_data w =
      let r = runner w self.binary args stdin_data in (r.0, result_of args r.1)

  -- `self.active = true` behind the `?`.
  unfoldable pub activated :
      Resolvconf → World × Result (Unit {0}) → (World × Resolvconf) × Result (Unit {0})
  activated self (w, ok x) = ((w, record self { active = true }), ok tt)
  activated self (w, err e) = ((w, self), err e)

  unfoldable pub set :
      DnsRouteConfig → World × Resolvconf → (World × Resolvconf) × Result (Unit {0})
  set config (w, self) =
      let input = nameserver_lines (map show_ip config.servers) in
      activated self (run self (codes "-a" ∷ self.registration_name ∷ []) input w)

  unfoldable pub reset : World × Resolvconf → (World × Resolvconf) × Result (Unit {0})
  reset (w, self) =
      let inactive = record self { active = false } in
      let r = run inactive (codes "-d" ∷ self.registration_name ∷ codes "-f" ∷ []) [] w in
      if not self.active then ((w, self), ok tt) else ((r.0, inactive), r.1)
