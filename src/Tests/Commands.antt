-- ===== src/Tests/Commands.antt =====
-- crates/dns-host-config/src/linux/resolvconf.rs with a command that keeps its entries in a function.
use mathlib.Core.Option
use dns_announce.Shared.{
  ◌≡◌, ◌≢◌, ◌↔◌, refl, true, false, Option, none, some, [], ◌∷◌, ◌++◌, arith, All, Bool-cases, inl,
  inr, if◌then◌else◌, seq_eq, seq_eq_iff, seq_eq_refl,
}
use dns_announce.Net.{v6}
use dns_announce.Text.{Text, is_ascii_alphanumeric, codes}
use dns_announce.Config.{DnsRouteConfig}
use dns_announce.Resolvconf.{
  Resolvconf, Runner, exited, ok, result_of, activated, run, set, reset, is_name_char,
  registration_name_for,
}
use dns_announce.Text.Lines.{
  is_whitespace, strip_cr, lines_from, lines, trim_start, trim_end_cons, trim_end, trim,
  strip_prefix,
}
use dns_announce.Fs.{Fs, absent, file, read_node, text_of, read_to_string}
use dns_announce.Fs.Paths.{ends_in_slash, is_absolute, join, is_file}
use dns_announce.Text.Search.{starts_with, contains}
use dns_announce.Resolvconf.Probe.{
  truncate_knob, before_hash, is_quote, trim_quotes_start, trim_quotes_cons, trim_quotes_end,
  trim_quotes, non_empty, knob_value, or_else, last_value, is_affirmative, on_by_default,
  truncation_enabled, or_empty, truncates_with, truncates_at, truncates_nameservers_after_loopback,
  split_colon, split_paths, first_file, find_in_path_str, find_in_path, has_slash, file_name,
  is_resolvectl, points_at_resolvectl, checked_binary, from_found, probe_named, probe,
}
use dns_announce.Resolvconf.Verified.{IsVerified, probe-IsVerified}
use dns_announce.Resolvconf.Names.{IsKept, registration_name_for-ne}
use dns_announce.Resolvconf.Registry.{IsRegistry, set-reset_entry}
use dns_announce.Tests.Wire.{server}

abbrev Entries : Type 0
Entries = Text → Option Text

abbrev stored : Entries → Text → Option Text → Entries
stored w name value other = if seq_eq other name then value else w other

abbrev command : Runner Entries
command w binary (a ∷ name ∷ []) input = (stored w name (some input), exited true [])
command w binary (a ∷ name ∷ b ∷ []) input = (stored w name none, exited true [])
command w binary other input = (w, exited true [])

abbrev entry : Entries → Text → Option Text
entry w name = w name

stored_same : (w : Entries) (name : Text) (value : Option Text) → stored w name value name ≡ value
stored_same w name value = rw (seq_eq_refl name) refl

stored_other :
    (w : Entries) (name other : Text) (value : Option Text)
    → other ≢ name
    → stored w name value other ≡ w other
stored_other w name other value h = elim (Bool-cases (seq_eq other name)) [
  | inl same ↦ absurd (h ((seq_eq_iff other name).0 same))
  | inr differ ↦ rw differ refl
]

command-IsRegistry : IsRegistry command entry
command-IsRegistry = record {
  adds = λ w binary name input stderr h. stored_same w name (some input);
  adds_only = λ w binary name input other h. stored_other w name other (some input) h;
  deletes = λ w binary name stderr h. stored_same w name none;
  deletes_only = λ w binary name other h. stored_other w name other none h;
}

abbrev config : DnsRouteConfig
config = record { servers = v6 server ∷ []; routing_domains = [] }

abbrev backend : Resolvconf
backend = record {
  binary = codes "/sbin/resolvconf";
  registration_name = codes "tun-my-vpn";
  active = false;
}

abbrev start : Entries
start name = none

set-reset_entry_example :
    (entry (reset command (set command config (start, backend)).0).0.0 backend.registration_name
      ≡ none)
    × ((other : Text)
        → other ≢ backend.registration_name
        → entry (reset command (set command config (start, backend)).0).0.0 other
          ≡ entry start other)
unfolding set reset activated run result_of
set-reset_entry_example =
    set-reset_entry command entry config start backend command-IsRegistry refl refl

vpn-IsKept : All IsKept (codes "vpn-1")
unfolding is_name_char is_ascii_alphanumeric
vpn-IsKept = (refl, (refl, (refl, (refl, (refl, tt)))))

other-IsKept : All IsKept (codes "vpn")
unfolding is_name_char is_ascii_alphanumeric
other-IsKept = (refl, (refl, (refl, tt)))

registration_name_for-ne_example :
    registration_name_for (codes "vpn-1") ≢ registration_name_for (codes "vpn")
registration_name_for-ne_example =
    registration_name_for-ne (codes "vpn-1") (codes "vpn") vpn-IsKept other-IsKept (omega arith)
      (omega arith) (λ e. cc)

-- The truncation is on by default, and off after an assignment of another value than yes.
truncation_default : truncation_enabled [] ≡ true
unfolding before_hash is_quote trim_quotes_start trim_quotes_cons trim_quotes_end trim_quotes
    non_empty knob_value or_else last_value is_affirmative on_by_default truncation_enabled lines
    lines_from
truncation_default = refl

truncation_off : truncation_enabled (truncate_knob ++ codes "='no' # keep all") ≡ false
unfolding before_hash is_quote trim_quotes_start trim_quotes_cons trim_quotes_end trim_quotes
    non_empty knob_value or_else last_value is_affirmative on_by_default truncation_enabled lines
    lines_from strip_cr trim trim_start trim_end trim_end_cons is_whitespace strip_prefix
    Option.bind seq_eq
truncation_off = refl

-- A later empty assignment does not take an earlier one back.
truncation_off_kept :
    truncation_enabled (truncate_knob ++ (codes "=no" ++ (10 ∷ (truncate_knob ++ codes "="))))
    ≡ false
unfolding before_hash is_quote trim_quotes_start trim_quotes_cons trim_quotes_end trim_quotes
    non_empty knob_value or_else last_value is_affirmative on_by_default truncation_enabled lines
    lines_from strip_cr trim trim_start trim_end trim_end_cons is_whitespace strip_prefix
    Option.bind seq_eq
truncation_off_kept = refl

-- One file, the command.
abbrev sbin : Fs
sbin = record {
  node = λ q. if seq_eq q (codes "/sbin/resolvconf") then file [] else absent;
  writable = λ q. false;
}

probe_found :
    probe (λ path. some path) (some (codes "/bin:/sbin/")) sbin (codes "my-vpn")
    ≡ ok (record backend { registration_name = registration_name_for (codes "my-vpn") })
unfolding starts_with contains or_empty truncates_with truncates_at
    truncates_nameservers_after_loopback split_colon split_paths ends_in_slash is_absolute join
    is_file first_file find_in_path_str find_in_path has_slash file_name is_resolvectl
    points_at_resolvectl checked_binary from_found probe_named probe Option.bind seq_eq
    read_to_string text_of read_node
probe_found = refl

probe-IsVerified_example :
    (probe (λ path. some path) (some (codes "/bin:/sbin/")) sbin (codes "my-vpn")
      ≡ ok (record backend { registration_name = registration_name_for (codes "my-vpn") }))
    ↔ IsVerified
        (λ path. some path)
        (some (codes "/bin:/sbin/"))
        sbin
        (codes "my-vpn")
        (record backend { registration_name = registration_name_for (codes "my-vpn") })
probe-IsVerified_example =
    probe-IsVerified (λ path. some path) (some (codes "/bin:/sbin/")) sbin (codes "my-vpn")
      (record backend { registration_name = registration_name_for (codes "my-vpn") })
