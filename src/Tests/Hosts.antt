-- ===== src/Tests/Hosts.antt =====
-- crates/dns-host-config at a concrete configuration and file system.
use mathlib.Core.Option
use dns_announce.Shared.{
  Option, ap, ◌∙◌, ◌≡◌, ◌≢◌, refl, ◌⊎◌, inl, inr, ◌↔◌, Bool, true, false, ◌&&◌, some, List, [], ◌∷◌,
  ◌++◌, arith, map, if◌then◌else◌, is_empty, seq_eq,
}
use dns_announce.Net.{Bytes, v6}
use dns_announce.Net.Display.{show_ip}
use dns_announce.Text.{
  Text, trim_end_dots, trim_cons, split_dots, split_cons, lower_char, is_ascii_alphanumeric, codes,
}
use dns_announce.Text.Order.{Elem}
use mathlib.Core.Path.{subst}
use dns_announce.Text.Utf8.{decode, decode-encode, encode_char, encode}
use dns_announce.Text.Lines.{lines, lines_from, strip_prefix, strip_cr}
use dns_announce.Fs.{
  IoResult, file-ne_broken, Fs, absent, file, ok, put, exists_node, read_to_string, text_of,
  read_node,
}
use dns_announce.Config
use dns_announce.Config.{
  DnsRouteConfig, new, err, no_servers, invalid_domain, all_label_chars, all_labels,
  is_valid_domain, clean,
}
use dns_announce.Config.Normal.{IsNormal, FirstInvalid, new-cases}
use dns_announce.Config.Canonical.{SameDomains, new-canonical_iff}
use dns_announce.StaticConf.{
  is_owner, first, owner_of_line, Host, backup_path_for, render, parse_nameservers, current_owner,
  owned_by, set, reset,
}
use dns_announce.StaticConf.Render.{IsOwner, fallback, parse_nameservers-render}
use dns_announce.StaticConf.Restore.{
  IsWritable, IsTaken, IsFresh, installed, saved, restored, restarted, set-first, reset-IsTaken,
}
use dns_announce.StaticConf.Owners.{nested, nested-lost}
use dns_announce.StaticConf.Lifecycle.{
  AllIsIp, Reaches, here, next, set_step, crash_step, reset-Reaches,
}
use dns_announce.StaticConf.Acts.{Act, sets, resets, crashes, permits, act, act_all}
use dns_announce.StaticConf.Recovers.{Recovers, act_all-Recovers}
use dns_announce.StaticConf.Kept.{Kept, act_all-Kept}
use dns_announce.Tests.Wire.{server, client}

abbrev config : DnsRouteConfig
config = record { servers = v6 server ∷ []; routing_domains = codes "vpn.example" ∷ [] }

abbrev changed : DnsRouteConfig
changed = record { servers = v6 client ∷ []; routing_domains = [] }

abbrev owner : Text
owner = codes "my-vpn"

abbrev path : Text
path = codes "/etc/resolv.conf"

abbrev pub original : Bytes
original = codes "nameserver 9.9.9.9"

-- One file, at the path.
abbrev one_file : Fs
one_file = record {
  node = λ q. if seq_eq q path then file original else absent;
  writable = λ q. true;
}

abbrev pub host : Host
host = record {
  fs = one_file;
  self = record {
    owner = owner;
    path = path;
    backup_path = codes "/etc/resolv.conf.dns-host-config.bak";
    active = false;
  };
}

pub owner-IsOwner : IsOwner owner
unfolding strip_cr
owner-IsOwner = record { chars = omega arith; no_newline = omega arith; no_final_cr = refl }

parse_nameservers-render_example :
    parse_nameservers (encode (render owner config original))
    ≡ map show_ip config.servers ++ fallback config original
parse_nameservers-render_example =
    parse_nameservers-render owner config original owner-IsOwner (omega arith)

host-IsWritable : IsWritable host
host-IsWritable = record {
  owner = owner-IsOwner;
  apart = (λ e. cc);
  path_writable = refl;
  backup_writable = refl;
}

and_false : (b : Bool) → (b && false) ≡ false
and_false true = refl
and_false false = refl

host-IsFresh : IsFresh original host
unfolding exists_node seq_eq
host-IsFresh = (and_false (owned_by host.fs host.self.path host.self.owner), (λ e. cc), refl)

abbrev taken : Host
taken = installed config original (saved original host)

set-first_example : (set config host ≡ (taken, ok tt)) × IsTaken config original taken
set-first_example = set-first config original host host-IsWritable host-IsFresh

taken-IsTaken : IsTaken config original taken
taken-IsTaken = (set-first config original host host-IsWritable host-IsFresh).1

taken-IsWritable : IsWritable taken
unfolding put
taken-IsWritable = record {
  owner = owner-IsOwner;
  apart = host-IsWritable.apart;
  path_writable = refl;
  backup_writable = refl;
}

reset-IsTaken_example : reset taken ≡ (restored original taken, ok tt)
reset-IsTaken_example =
    reset-IsTaken config original taken taken-IsWritable (omega arith) taken-IsTaken

new-cases_example :
    ((is_empty config.servers ≡ true) × (new config.servers (codes "a b" ∷ []) ≡ err no_servers))
    ⊎ ((d : Text) × (is_empty config.servers ≡ false)
        × FirstInvalid (codes "a b" ∷ []) d
        × (new config.servers (codes "a b" ∷ []) ≡ err (invalid_domain d)))
    ⊎ ((cfg : DnsRouteConfig) × (new config.servers (codes "a b" ∷ []) ≡ Config.ok cfg)
        × IsNormal cfg
        × (cfg.servers ≡ config.servers)
        × ((d : Text)
            → Elem d cfg.routing_domains
              ↔ ((t : Text) × Elem t (codes "a b" ∷ []) × (d ≡ clean t))))
new-cases_example = new-cases config.servers (codes "a b" ∷ [])

domain_valid : is_valid_domain (codes "vpn.example") ≡ true
unfolding is_valid_domain all_labels all_label_chars trim_end_dots trim_cons split_dots split_cons
    is_ascii_alphanumeric
domain_valid = refl

domain_clean : clean (codes "vpn.example") ≡ codes "vpn.example"
unfolding clean trim_end_dots trim_cons lower_char
domain_clean = refl

config-IsNormal : IsNormal config
config-IsNormal = record {
  has_server = refl;
  valid = λ d e. elim e [ inl same ↦ rw same domain_valid | inr bad ↦ absurd bad ];
  cleaned = λ d e. elim e [ inl same ↦ rw same domain_clean | inr bad ↦ absurd bad ];
  ascending = (tt, tt);
}

-- A set, a crash, and another set.
abbrev crashed : Host
crashed = (set changed (restarted (set config host).0)).0

crashed-Reaches : Reaches host crashed
crashed-Reaches =
    next (set_step config (omega arith) refl)
      (next (crash_step refl) (next (set_step changed (omega arith) refl) here))

reset-Reaches_example :
    ((c : DnsRouteConfig) → AllIsIp c → (set c crashed).1 ≡ ok tt)
    × ((reset crashed).1 ≡ ok tt)
    × ((reset crashed).0.fs.node path ≡ file original)
    × ((reset crashed).0.fs.node host.self.backup_path ≡ absent)
    × ((p : Text)
        → p ≢ path
        → p ≢ host.self.backup_path
        → (reset crashed).0.fs.node p ≡ host.fs.node p)
unfolding backup_path_for seq_eq
reset-Reaches_example =
    reset-Reaches original host crashed host-IsWritable refl refl refl refl crashed-Reaches

original_text : decode original ≡ some original
unfolding encode encode_char
original_text =
    subst (λ (b : Bytes). decode b ≡ some original) original_bytes
      (decode-encode original (omega arith))
  where
    original_bytes : encode original ≡ original
    original_bytes = refl

host-foreign : owned_by host.fs host.self.path host.self.owner ≡ false
unfolding owned_by is_owner current_owner read_to_string text_of read_node seq_eq Option.bind lines
    lines_from strip_prefix strip_cr owner_of_line
host-foreign =
    ap
      (λ (o : Option Text).
        is_owner (Option.bind o (λ content. Option.bind (first (lines content)) owner_of_line))
          owner)
      original_text
    ∙ refl

-- A set, then a reset that may write no file, a crash, and a reset that may write the path alone.
abbrev refusals : List Act
refusals =
    sets config
    ∷ permits (λ q. false)
    ∷ resets
    ∷ crashes
    ∷ permits (λ q. seq_eq q path)
    ∷ resets
    ∷ sets changed
    ∷ []

abbrev host_named : host.self.backup_path ≡ backup_path_for host.self.path
unfolding backup_path_for
host_named = refl

host_original : host.fs.node host.self.path ≡ file original
unfolding seq_eq
host_original = refl

act_all-Kept_example :
    Kept original host owner-IsOwner host-IsWritable.apart host_named host-foreign host_original
      (act_all refusals host).fs
act_all-Kept_example =
    act_all-Kept original host owner-IsOwner host-IsWritable.apart host_named host-foreign
      host_original refusals (omega arith, (tt, (tt, (tt, (tt, (tt, (omega arith, tt)))))))

-- A set, and a crash while no file may be written.
abbrev refused_crash : List Act
refused_crash = permits (λ q. false) ∷ crashes ∷ permits (λ q. true) ∷ []

backup-file :
    (act_all (sets config ∷ refused_crash) host).fs.node host.self.backup_path ≡ file original
unfolding act_all act
backup-file =
    ap
      (λ (r : Host × IoResult (Unit {0})).
        (act_all refused_crash r.0).fs.node host.self.backup_path)
      set-first_example.0
    ∙ taken-IsTaken.kept

act_all-Recovers_example : Recovers changed original (act_all (sets config ∷ refused_crash) host)
unfolding act_all act
act_all-Recovers_example =
    act_all-Recovers original host owner-IsOwner host-IsWritable.apart host_named host-foreign
      host_original (sets config ∷ refused_crash) changed (omega arith, (tt, (tt, (tt, tt))))
      (omega arith) refl refl
      (file-ne_broken (act_all (sets config ∷ refused_crash) host).fs host.self.backup_path original
        backup-file)

abbrev second : Text
second = codes "your-vpn"

second-IsOwner : IsOwner second
unfolding strip_cr
second-IsOwner = record { chars = omega arith; no_newline = omega arith; no_final_cr = refl }

nested-lost_example :
    ((nested config changed second host).1 ≡ ok tt)
    × ((nested config changed second host).0.fs.node path
        ≡ file (encode (render owner config original)))
    × ((nested config changed second host).0.fs.node host.self.backup_path ≡ absent)
nested-lost_example =
    nested-lost config changed original second host host-IsWritable host-IsFresh second-IsOwner
      (λ e. cc) (omega arith) (omega arith)

abbrev spelled : List Text
spelled = codes "VPN.example." ∷ codes "lan" ∷ []

abbrev spelled_again : List Text
spelled_again = codes "lan" ∷ codes "vpn.Example" ∷ codes "LAN." ∷ []

new-canonical_iff_example :
    (new (v6 server ∷ []) spelled ≡ new (v6 server ∷ []) spelled_again)
    ↔ SameDomains spelled spelled_again
unfolding is_valid_domain all_labels all_label_chars trim_end_dots trim_cons split_dots split_cons
    is_ascii_alphanumeric
new-canonical_iff_example =
    new-canonical_iff (v6 server ∷ []) spelled spelled_again refl (refl, (refl, tt))
      (refl, (refl, (refl, tt)))
