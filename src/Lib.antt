-- ===== src/Lib.antt =====
-- dns-announce: two Rust crates that give an application's own DNS server to a host.
--
-- crates/dns-stack (`Packet`, `Ra`, `Dns`, `Stack`) runs on raw IPv6 packets of one link. `DnsStack`
-- starts two tasks on a pair of channels: a beacon that sends Router Advertisements with RDNSS and
-- DNSSL options, and a dispatcher that answers Router Solicitations with an advertisement and DNS
-- queries with what the application's resolver says; it ignores every other packet.
-- crates/dns-host-config (`Config`, `Route`, `StaticConf`, `Resolvconf`, `Resolved`, `Chain`) enters a
-- server for some domains into the host's own configuration: three backends edit /etc/resolv.conf
-- itself, call resolvconf, or talk to systemd-resolved over D-Bus, and the chain picks one of them and
-- passes `set` and `reset` on to it.
--
-- Which file models what:
--   Packet      crates/dns-stack/src/packet.rs: `build_ipv6_header`, `upper_layer_checksum`,
--               `build_udp_packet`, `parse_ipv6_udp`
--   Ra          crates/dns-stack/src/ra.rs: the options, `build_router_advertisement`,
--               `is_router_solicitation`, `solicitation_src`
--   Dns         crates/dns-stack/src/dns.rs: `matches_suffix`, `handle_packet`
--   Stack       crates/dns-stack/src/lib.rs: `spawn`, `ra_beacon_loop`, `dispatch_loop`
--   Config      crates/dns-host-config/src/config.rs: `DnsRouteConfig::new`
--   StaticConf  crates/dns-host-config/src/linux/static_resolv_conf.rs: `set`, `reset`, `new`
--   Resolvconf  crates/dns-host-config/src/linux/resolvconf.rs: `probe`, `set`, `reset`, `run`
--   Resolved    crates/dns-host-config/src/linux/systemd_resolved.rs: `probe`, `set`, `reset`, `ifindex`
--   Chain       crates/dns-host-config/src/linux/chain.rs: `probe`, `probe_named`, `set`, `reset`
--   Route       crates/dns-host-config/src/lib.rs: the trait `DnsRoute`, with its laws, and any sequence
--               of calls of it
--   Example     crates/dns-stack/examples/basic.rs: the resolver, and what `main` sets up
--   Bridge      crates/dns-stack/examples/basic.rs: the reader and the writer of `main`, with the tasks
--               of crates/dns-stack/src/lib.rs between their waits and channels of bounded capacity
--   Net, Text, Fs   what these use of `std::net`, `str` and `std::fs`
--   Shared      lists, tests into Bool, `Outcome`, which is Rust's `Option` with panics, and `Methods`,
--               which is methods that change their object and may fail
--   Tests       the code at concrete inputs
--
-- Correspondence. Bytes, characters and machine integers are natural numbers; the wrap-around of a
-- cast is written out (`% 2 ^ 16`), and a sum of `u32` wraps too. Slicing and indexing out of range
-- give `panicked`, and `?` on a `None` gives `nothing`. A `String` of a domain or query is its bytes
-- where the code handles bytes, and its code points in crates/dns-host-config. The beacon and the
-- dispatcher share only the outgoing channel; the state of `Stack` holds both channels and which tasks
-- still run, and an event is one thing that the caller, the timer or the scheduler does. There a task
-- goes round its loop at once and channels never fill; in `Bridge` a task stands at the call that it
-- waits for, and a turn of a task that must wait changes nothing. A panic ends its task, also that of
-- `tokio::time::interval` for a period of zero, which the beacon meets in its first turn. The static
-- backend's methods run on the file system and the backend's own fields, those of the resolvconf
-- backend on the world of the command, those of the systemd-resolved backend on the world of the bus,
-- and those of the chain on all three. What was changed before an error stays changed.
--
-- Bounds and fuel. The padding of an option runs on fuel 7, since seven zero bytes always reach a
-- multiple of eight. The loop of `checksum_finish` runs on fuel 3,
-- since two rounds leave no carry of a `u32`. The UTF-8
-- decoders run on the length of their input. The walk over the options, which is a description and not
-- code of the crate, runs on the length too.
--
-- Not modelled. The DNS message format is the simple-dns crate's: `Dns` takes its functions as a
-- parameter, and the resolver as a function of the query. Time and logging are left out, and so is the
-- `Debug` form of a `str`, a parameter of the text of a `ConfigError`. The resolvconf command, the
-- resolution of symbolic links, the environment, and the bus with the service behind it are
-- parameters; `Resolvconf.Registry.IsRegistry` and `Resolved.Links.Resolve1` state what the command
-- and the service document, and only the theorems that name them rely on that. A write to a file
-- happens as a whole or not at all, though `fs::write` empties the file before it writes, and a
-- failure in between would leave it cut off; which paths may be written is part of the file system,
-- and may change between calls. The example's virtual interface is the tun-rs crate's: an event is
-- what it delivers, and its errors on sending are only logged. A run of the example is a prefix of its
-- life, since `main` waits for an interrupt.
pub mod Shared
pub mod Net
pub mod Text
pub mod Packet
pub mod Ra
pub mod Dns
pub mod Stack
pub mod Config
pub mod Fs
pub mod StaticConf
pub mod Resolvconf
pub mod Resolved
pub mod Route
pub mod Chain
pub mod Example
pub mod Bridge
mod Tests
