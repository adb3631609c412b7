-- ===== src/Config.antt =====
-- crates/dns-host-config/src/config.rs: validation and normalization of a routing configuration.
pub mod Normal
pub mod Same
pub mod Canonical
use dns_announce.Shared.{
  ℕ, Bool, true, false, not, ◌&&◌, ◌||◌, Option, none, some, List, [], ◌∷◌, ◌++◌, map, ◌==◌,
  if◌then◌else◌, is_empty,
}
use dns_announce.Net.{IpAddr}
use dns_announce.Text.{Text, codes, split_dots, trim_end_dots, lower_char, is_ascii_alphanumeric}
use dns_announce.Text.Order.{sort_unstable, dedup}

pub record DnsRouteConfig : Type 0 where
  pub servers : List IpAddr
  pub routing_domains : List Text

pub data ConfigError : Type 0 where
  no_servers : ConfigError
  invalid_domain : Text → ConfigError

-- The text of an error, with the `Debug` form of a `str`, which is the standard library's.
pub fmt : (Text → Text) → ConfigError → Text
fmt debug no_servers = codes "at least one DNS server is required"
fmt debug (invalid_domain d) = codes "invalid routing domain: " ++ debug d

pub data ConfigResult : Type 0 where
  ok : DnsRouteConfig → ConfigResult
  err : ConfigError → ConfigResult

-- `char`s and labels under `all`.
unfoldable pub all_label_chars : Text → Bool
all_label_chars [] = true
all_label_chars (c ∷ cs) = (is_ascii_alphanumeric c || (c == b'-')) && all_label_chars cs

unfoldable pub all_labels : List Text → Bool
all_labels [] = true
all_labels (label ∷ labels) = not (is_empty label) && all_label_chars label && all_labels labels

unfoldable pub is_valid_domain : Text → Bool
is_valid_domain domain =
    let trimmed = trim_end_dots domain in not (is_empty trimmed) && all_labels (split_dots trimmed)

-- The closure of `normalize_domains`.
unfoldable pub clean : Text → Text
clean d = map lower_char (trim_end_dots d)

unfoldable pub normalize_domains : List Text → List Text
normalize_domains domains = dedup (sort_unstable (map clean domains))

-- The loop over `routing_domains`: the first domain that is not valid.
unfoldable pub first_invalid : List Text → Option Text
first_invalid [] = none
first_invalid (domain ∷ domains) =
    let rest = first_invalid domains in if not (is_valid_domain domain) then some domain else rest

checked : List IpAddr → List Text → Option Text → ConfigResult
checked servers domains none =
    ok (record { servers = servers; routing_domains = normalize_domains domains })
checked servers domains (some domain) = err (invalid_domain domain)

-- `DnsRouteConfig::new`
unfoldable pub new : List IpAddr → List Text → ConfigResult
unfolding checked
new servers routing_domains =
    if is_empty servers
    then err no_servers
    else checked servers routing_domains (first_invalid routing_domains)
