-- ===== src/Example.antt =====
-- The resolver of crates/dns-stack/examples/basic.rs, which serves one suffix from a map.
pub mod Served
pub mod Program
use dns_announce.Text.{codes}
use dns_announce.Shared.{Option, none, some, [], ◌∷◌, not, if◌then◌else◌}
use dns_announce.Net.{Bytes, IpAddr}
use dns_announce.Dns.{Query, Reply, answer, addrs, nx_domain, not_mine, matches_suffix}

-- The map, from names to addresses.
pub record StaticResolver : Type 0 where
  pub map : Bytes → Option IpAddr

-- The suffix of the names that are ours.
abbrev pub suffix : Bytes
suffix = codes "myvpn"

unfoldable pub looked_up : Option IpAddr → Reply
looked_up (some addr) = answer (addrs (addr ∷ []))
looked_up none = nx_domain

unfoldable pub resolve : StaticResolver → Query → Reply
resolve self query =
    if not (matches_suffix query.name suffix) then not_mine else looked_up (self.map query.name)
