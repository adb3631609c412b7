-- ===== src/Resolved/Undo.antt =====
-- What `reset` of crates/dns-host-config/src/linux/systemd_resolved.rs does not undo: it knows only the
-- link of the last `set`.
use dns_announce.Shared.{◌≡◌, ◌≢◌, ◌∙◌, none, map}
use dns_announce.Shared.Methods.{ok, Ensures-ok}
use dns_announce.Text.{Text, codes}
use dns_announce.Text.Integer.{ℤ}
use dns_announce.Config.{DnsRouteConfig}
use dns_announce.Resolved.{System, Bus, encode_addr, routing_only, ifindex, Session, set, reset}
use dns_announce.Resolved.Links.{
  Resolve1, IsRouted, IsCleared, Elsewhere, Forgotten, set-IsRouted, reset-IsCleared,
}

module _ (bus : Bus) (service : Resolve1 bus) where
  open bus use {World, Failure, Connection, Link}

  -- Over a service that keeps its links: where `set` succeeded for one interface and then for one with
  -- another index, and `reset` succeeded after that, the first link still has the servers and the
  -- domains that it was given, and the backend remembers no link.
  pub set-set-reset :
      (sys : System) (interface interface' : Text) (config config' : DnsRouteConfig)
      (s : Session bus) (k j : ℤ)
      → ifindex {Failure = Failure} sys (codes "/sys/class/net") interface ≡ ok k
      → ifindex {Failure = Failure} sys (codes "/sys/class/net") interface' ≡ ok j
      → k ≢ j
      → (set bus sys interface config s).1 ≡ ok tt
      → (set bus sys interface' config' (set bus sys interface config s).0).1 ≡ ok tt
      → (reset bus (set bus sys interface' config' (set bus sys interface config s).0).0).1 ≡ ok tt
      → (service.view
            (reset bus
              (set bus sys interface' config' (set bus sys interface config s).0).0).0.world
            k
          ≡ record {
            servers = map encode_addr config.servers;
            domains = map routing_only config.routing_domains;
          })
        × ((reset bus
              (set bus sys interface' config'
                (set bus sys interface config s).0).0).0.self.active_link
            ≡ none)
  set-set-reset sys interface interface' config config' s k j e e' ne h h' h'' =
      let s1 = (set bus sys interface config s).0 in
      let s2 = (set bus sys interface' config' s1).0 in
      let one =
        Ensures-ok (λ t x. IsRouted bus service config k s t) (Elsewhere bus service k s)
          (set bus sys interface config s) tt (set-IsRouted bus service sys interface config s k e)
          h in
      let two =
        Ensures-ok (λ t x. IsRouted bus service config' j s1 t) (Elsewhere bus service j s1)
          (set bus sys interface' config' s1) tt
          (set-IsRouted bus service sys interface' config' s1 j e') h' in
      let three =
        Ensures-ok (λ t x. IsCleared bus service j s2 t) (Forgotten bus service j s2) (reset bus s2)
          tt (reset-IsCleared bus service s2 j two.active) h'' in
      (three.others k ne ∙ two.others k ne ∙ one.routed, three.inactive)
