-- ===== src/Example/Program.antt =====
-- `main` of crates/dns-stack/examples/basic.rs: what it sets up. The device is the tun-rs crate's; `Bridge`
-- has the tasks.
use dns_announce.Shared.{ℕ, none, some, List, [], ◌∷◌, if◌then◌else◌, seq_eq}
use dns_announce.Net.{Ipv6Addr, v6}
use dns_announce.Text.{codes}
use dns_announce.Ra.{RaConfig}
use dns_announce.Dns.{SimpleDns, DnsConfig}
use dns_announce.Bridge
use dns_announce.Bridge.{Bridge, Event, channel_capacity, start}
use dns_announce.Example.{StaticResolver, suffix, resolve}

-- An address of four groups of two zero octets and one last octet behind its first four octets.
abbrev short_addr : ℕ → ℕ → ℕ → ℕ → ℕ → Ipv6Addr
short_addr a b c d last = record {
  o0 = a;
  o1 = b;
  o2 = c;
  o3 = d;
  o4 = 0;
  o5 = 0;
  o6 = 0;
  o7 = 0;
  o8 = 0;
  o9 = 0;
  o10 = 0;
  o11 = 0;
  o12 = 0;
  o13 = 0;
  o14 = 0;
  o15 = last;
}

-- fe80::1
abbrev pub link_local : Ipv6Addr
link_local = short_addr 0xfe 0x80 0 0 1

-- fd00:aaaa::1
abbrev pub dns_server_addr : Ipv6Addr
dns_server_addr = short_addr 0xfd 0x00 0xaa 0xaa 1

-- One name, at fd00:aaaa::2.
abbrev pub static_resolver : StaticResolver
static_resolver = record {
  map = λ name.
      if seq_eq name (codes "foo.myvpn")
      then some (v6 (short_addr 0xfd 0x00 0xaa 0xaa 2))
      else none;
}

abbrev pub ra_cfg : RaConfig
ra_cfg = record {
  link_local_src = link_local;
  dns_servers = dns_server_addr ∷ [];
  search_domains = suffix ∷ [];
  lifetime_secs = 1800;
  router_lifetime_secs = 0;
  resend_interval = 600000000000;
}

abbrev pub dns_cfg : DnsConfig
dns_cfg = record { server_addr = dns_server_addr }

-- Everything `main` does until it is interrupted.
unfoldable pub main : SimpleDns → List Event → Bridge
main wire events =
    Bridge.run wire (record { ra_cfg = ra_cfg; dns_cfg = dns_cfg }) (resolve static_resolver)
      channel_capacity events start
