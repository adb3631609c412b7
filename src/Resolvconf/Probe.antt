-- ===== src/Resolvconf/Probe.antt =====
-- `probe` of crates/dns-host-config/src/linux/resolvconf.rs: the search for the command and the reading
-- of its truncation setting. The resolution of symbolic links is the system's, and a parameter.
use mathlib.Core.Option
use dns_announce.Shared.{
  ℕ, Bool, true, false, ◌&&◌, ◌||◌, Option, none, some, List, [], ◌∷◌, ◌++◌, ◌==◌, if◌then◌else◌,
  seq_eq,
}
use dns_announce.Text.{Text, codes}
use dns_announce.Text.Lines.{lines, trim, strip_prefix}
use dns_announce.Fs.{Fs, read_to_string}
use dns_announce.Fs.Paths.{join, is_file}
use dns_announce.Text.Search.{contains}
use dns_announce.Resolvconf.{Resolvconf, Result, ok, err, not_available, registration_name_for}

abbrev pub truncate_knob : Text
truncate_knob = codes "TRUNCATE_NAMESERVER_LIST_AFTER_LOOPBACK_ADDRESS"

-- `split('#').next()`
unfoldable pub before_hash : Text → Text
before_hash [] = []
before_hash (c ∷ cs) = let rest = before_hash cs in if c == b'#' then [] else c ∷ rest

unfoldable pub is_quote : ℕ → Bool
is_quote c = (c == b'"') || (c == 39)

unfoldable pub trim_quotes_start : Text → Text
trim_quotes_start [] = []
trim_quotes_start (c ∷ cs) = let rest = trim_quotes_start cs in if is_quote c then rest else c ∷ cs

unfoldable pub trim_quotes_cons : ℕ → Text → Text
trim_quotes_cons c [] = if is_quote c then [] else c ∷ []
trim_quotes_cons c (d ∷ rest) = c ∷ d ∷ rest

unfoldable pub trim_quotes_end : Text → Text
trim_quotes_end [] = []
trim_quotes_end (c ∷ cs) = trim_quotes_cons c (trim_quotes_end cs)

-- `trim_matches(|c| c == '"' || c == '\'')`
unfoldable pub trim_quotes : Text → Text
trim_quotes s = trim_quotes_end (trim_quotes_start s)

-- `(!value.is_empty()).then(|| value.to_owned())`
unfoldable pub non_empty : Text → Option Text
non_empty [] = none
non_empty (c ∷ cs) = some (c ∷ cs)

-- The closure of `truncation_enabled`.
unfoldable pub knob_value : Text → Option Text
knob_value line = Option.bind (strip_prefix truncate_knob (trim line)) (λ assignment.
    Option.bind (strip_prefix (codes "=") assignment)
      (λ value. non_empty (trim_quotes (trim (before_hash value)))))

unfoldable pub or_else : Option Text → Option Text → Option Text
or_else none first = first
or_else (some later) first = some later

-- `filter_map(..).next_back()`
unfoldable pub last_value : List Text → Option Text
last_value [] = none
last_value (line ∷ rest) = or_else (last_value rest) (knob_value line)

unfoldable pub is_affirmative : Text → Bool
is_affirmative v =
    seq_eq v (codes "y")
    || seq_eq v (codes "Y")
    || seq_eq v (codes "yes")
    || seq_eq v (codes "YES")
    || seq_eq v (codes "Yes")

unfoldable pub on_by_default : Option Text → Bool
on_by_default (some v) = is_affirmative v
on_by_default none = true

unfoldable pub truncation_enabled : Text → Bool
truncation_enabled defaults_src = on_by_default (last_value (lines defaults_src))

unfoldable pub or_empty : Option Text → Text
or_empty none = []
or_empty (some s) = s

unfoldable pub truncates_with : Option Text → Option Text → Bool
truncates_with none defaults_src = false
truncates_with (some updater_src) defaults_src =
    contains truncate_knob updater_src && truncation_enabled (or_empty defaults_src)

unfoldable pub truncates_at : Fs → Text → Text → Bool
truncates_at fs updater defaults =
    truncates_with (read_to_string fs updater) (read_to_string fs defaults)

unfoldable pub truncates_nameservers_after_loopback : Fs → Bool
truncates_nameservers_after_loopback fs =
    truncates_at fs (codes "/etc/resolvconf/update.d/libc") (codes "/etc/default/resolvconf")

unfoldable pub split_colon : ℕ → Bool → List Text → List Text
split_colon c true pieces = [] ∷ pieces
split_colon c false [] = (c ∷ []) ∷ []
split_colon c false (p ∷ pieces) = (c ∷ p) ∷ pieces

-- `env::split_paths`
unfoldable pub split_paths : Text → List Text
split_paths [] = [] ∷ []
split_paths (c ∷ cs) = split_colon c (c == b':') (split_paths cs)

unfoldable pub first_file : Fs → Text → List Text → Option Text
first_file fs name [] = none
first_file fs name (dir ∷ dirs) =
    let rest = first_file fs name dirs in
    let candidate = join dir name in if is_file (fs.node candidate) then some candidate else rest

unfoldable pub find_in_path_str : Fs → Text → Text → Option Text
find_in_path_str fs name path_var = first_file fs name (split_paths path_var)

-- `find_in_path`, with the variable `PATH`.
unfoldable pub find_in_path : Fs → Text → Option Text → Option Text
find_in_path fs name path_var = Option.bind path_var (λ value. find_in_path_str fs name value)

unfoldable pub has_slash : Text → Bool
has_slash [] = false
has_slash (d ∷ ds) = (d == b'/') || has_slash ds

-- The last component of a canonical path.
unfoldable pub file_name : Text → Text
file_name [] = []
file_name (c ∷ cs) =
    let rest = file_name cs in if has_slash cs then rest else (if c == b'/' then cs else c ∷ cs)

module _ (canonicalize : Text → Option Text) where
  unfoldable pub is_resolvectl : Option Text → Bool
  is_resolvectl none = false
  is_resolvectl (some path) = seq_eq (file_name path) (codes "resolvectl")

  unfoldable pub points_at_resolvectl : Text → Bool
  points_at_resolvectl path = is_resolvectl (canonicalize path)

  -- `probe_named` behind the search for the binary.
  unfoldable pub checked_binary : Fs → Text → Text → Result Resolvconf
  checked_binary fs owner binary =
      if points_at_resolvectl binary
      then err (
          not_available (
            codes
              "resolvconf is a systemd-resolved compatibility shim; use the systemd-resolved backend instead"))
      else if truncates_nameservers_after_loopback fs
      then err (
          not_available (
            codes
              "this resolvconf truncates the merged nameserver list after a leading loopback address (TRUNCATE_NAMESERVER_LIST_AFTER_LOOPBACK_ADDRESS); REFUSED-fallback conditional forwarding needs the whole list kept. Set it to 'no' in /etc/default/resolvconf to use this backend"))
      else ok (record {
        binary = binary;
        registration_name = registration_name_for owner;
        active = false;
      })

  unfoldable pub from_found : Fs → Text → Text → Option Text → Result Resolvconf
  from_found fs name owner none = err (not_available (name ++ codes " not found on PATH"))
  from_found fs name owner (some binary) = checked_binary fs owner binary

  unfoldable pub probe_named : Option Text → Fs → Text → Text → Result Resolvconf
  probe_named path_var fs name owner = from_found fs name owner (find_in_path fs name path_var)

  -- `probe`
  unfoldable pub probe : Option Text → Fs → Text → Result Resolvconf
  probe path_var fs owner = probe_named path_var fs (codes "resolvconf") owner
