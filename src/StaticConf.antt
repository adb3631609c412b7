-- ===== src/StaticConf.antt =====
-- crates/dns-host-config/src/linux/static_resolv_conf.rs: the backend that edits /etc/resolv.conf
-- itself. A method runs on the file system and the backend's own fields.
pub mod Words
pub mod Render
pub mod Restore
pub mod Active
pub mod Owners
pub mod Lifecycle
pub mod Acts
pub mod Kept
pub mod Recovers
use dns_announce.Shared.{
  ℕ, Bool, true, false, not, ◌&&◌, Option, none, some, List, [], ◌∷◌, ◌++◌, map, ◌==◌,
  if◌then◌else◌, is_empty, seq_eq,
}
use mathlib.Core.Option
use dns_announce.Net.{Bytes, IpAddr}
use dns_announce.Net.Display.{show_ip}
use dns_announce.Text.{Text, codes}
use dns_announce.Text.Utf8.{encode, decode_lossy}
use dns_announce.Text.Lines.{lines, trim, first_word, strip_prefix}
use dns_announce.Fs.{
  Fs, ErrorKind, not_found, other_error, IoResult, ok, err, read, read_to_string, exists, write,
  remove_file,
}
use dns_announce.Config.{DnsRouteConfig}

abbrev pub marker_prefix : Text
marker_prefix = codes "# managed-by=dns-host-config;owner="

pub data Error : Type 0 where
  io : ErrorKind → Error

-- The text of an error.
unfoldable pub fmt : (ErrorKind → Text) → Error → Text
fmt io_text (io e) = codes "static resolv.conf backend: " ++ io_text e

pub record StaticResolvConf : Type 0 where
  pub owner : Text
  pub path : Text
  pub backup_path : Text
  pub active : Bool

-- A backend and the file system that it runs on.
pub record Host : Type 0 where
  pub fs : Fs
  pub self : StaticResolvConf

abbrev pub M : Type 0 → Type 0
M A = Host → Host × IoResult A

-- What `?` makes of a result: the rest of the method, or the error at once.
abbrev pub and_then : {A B : Type 0} → Host × IoResult A → (A → M B) → Host × IoResult B
and_then (h, ok x) f = f x h
and_then (h, err e) f = (h, err e)

infixl 5 ◌>>=◌ ◌>>◌
abbrev pub ◌>>=◌ : {A B : Type 0} → M A → (A → M B) → M B
◌>>=◌ m f h = and_then (m h) f

abbrev pub ◌>>◌ : {B : Type 0} → M (Unit {0}) → M B → M B
m >> k = m >>= λ _. k

abbrev pub done : M (Unit {0})
done h = (h, ok tt)

abbrev pub with_fs : Host → Fs × IoResult (Unit {0}) → Host × IoResult (Unit {0})
with_fs h (fs, r) = (record h { fs = fs }, r)

abbrev pub read_m : Text → M Bytes
read_m path h = (h, read h.fs path)

abbrev pub write_m : Text → Bytes → M (Unit {0})
write_m path bytes h = with_fs h (write h.fs path bytes)

abbrev pub remove_m : Text → M (Unit {0})
remove_m path h = with_fs h (remove_file h.fs path)

abbrev pub set_active : Bool → M (Unit {0})
set_active b h = (record h { self = record (h.self) { active = b } }, ok tt)

unfoldable pub backup_path_for : Text → Text
backup_path_for path = path ++ codes ".dns-host-config.bak"

unfoldable pub marker_line : Text → Text
marker_line owner = marker_prefix ++ (owner ++ (b'\n' ∷ []))

abbrev pub first : List Text → Option Text
first [] = none
first (l ∷ ls) = some l

unfoldable pub owner_of_line : Text → Option Text
owner_of_line line = strip_prefix marker_prefix line

-- `current_owner`
unfoldable pub current_owner : Fs → Text → Option Text
unfolding owner_of_line
current_owner fs path =
    Option.bind (read_to_string fs path)
      (λ content. Option.bind (first (lines content)) owner_of_line)

-- `current_owner(path) == Some(owner)`
unfoldable pub is_owner : Option Text → Text → Bool
is_owner none owner = false
is_owner (some o) owner = seq_eq o owner

unfoldable pub owned_by : Fs → Text → Text → Bool
unfolding is_owner
owned_by fs path owner = is_owner (current_owner fs path) owner

-- `format!("nameserver {addr}\n")` of each address, in order.
unfoldable pub nameserver_lines : List Text → Text
nameserver_lines [] = []
nameserver_lines (addr ∷ addrs) = codes "nameserver " ++ (addr ++ (b'\n' ∷ nameserver_lines addrs))

-- The closure of `parse_nameservers`.
unfoldable pub nameserver_of : Text → Option Text
nameserver_of line = Option.bind (strip_prefix (codes "nameserver") (trim line)) first_word

unfoldable pub keep_some : Option Text → List Text → List Text
keep_some none rest = rest
keep_some (some x) rest = x ∷ rest

-- `filter_map`
unfoldable pub nameservers : List Text → List Text
unfolding keep_some
nameservers [] = []
nameservers (line ∷ rest) = keep_some (nameserver_of line) (nameservers rest)

unfoldable pub parse_nameservers : Bytes → List Text
parse_nameservers content = nameservers (lines (decode_lossy content))

unfoldable pub render : Text → DnsRouteConfig → Bytes → Text
render owner config original =
    marker_line owner
    ++ (nameserver_lines (map show_ip config.servers)
        ++ (if not (is_empty config.routing_domains)
            then nameserver_lines (parse_nameservers original)
            else []))

-- `with_path`
unfoldable pub with_path : Fs → Text → Text → StaticResolvConf
with_path fs owner path =
    let backup_path = backup_path_for path in
    record {
      owner = owner;
      path = path;
      backup_path = backup_path;
      active = owned_by fs path owner && exists fs backup_path;
    }

-- `new`
unfoldable pub new : Fs → Text → StaticResolvConf
new fs owner = with_path fs owner (codes "/etc/resolv.conf")

-- The first takeover: what stood at the path, backed up.
unfoldable pub back_up : Text → IoResult Bytes → M Bytes
back_up backup_path (ok existing) h = (do write_m backup_path existing; (λ h'. (h', ok existing))) h
back_up backup_path (err not_found) h = (do write_m backup_path []; (λ h'. (h', ok []))) h
back_up backup_path (err other_error) h = (h, err other_error)

unfoldable pub original_content : M Bytes
original_content h =
    if owned_by h.fs h.self.path h.self.owner && exists h.fs h.self.backup_path
    then read_m h.self.backup_path h
    else back_up h.self.backup_path (read h.fs h.self.path) h

unfoldable pub set : DnsRouteConfig → M (Unit {0})
set config h =
    (do
      original ← original_content
      write_m h.self.path (encode (render h.self.owner config original))
      set_active true)
      h

-- `remove_file` where the file may be gone already.
unfoldable pub forgive_not_found : Host × IoResult (Unit {0}) → Host × IoResult (Unit {0})
forgive_not_found (h, ok x) = (h, ok tt)
forgive_not_found (h, err not_found) = (h, ok tt)
forgive_not_found (h, err other_error) = (h, err other_error)

-- What `reset` does with the backup that it read.
unfoldable pub put_back : Text → Bytes → M (Unit {0})
put_back path [] h = forgive_not_found (remove_m path h)
put_back path (b ∷ bs) h = write_m path (b ∷ bs) h

unfoldable pub restore : M (Unit {0})
restore h =
    if exists h.fs h.self.backup_path
    then (do
      backup ← read_m h.self.backup_path
      put_back h.self.path backup
      remove_m h.self.backup_path)
        h
    else done h

-- `let _ = fs::remove_file(backup)`
unfoldable pub drop_backup : M (Unit {0})
drop_backup h = ((remove_m h.self.backup_path h).0, ok tt)

unfoldable pub reset : M (Unit {0})
reset h =
    if not h.self.active
    then done h
    else (do
      set_active false
      (λ h'. if owned_by h'.fs h'.self.path h'.self.owner then restore h' else drop_backup h'))
        h
