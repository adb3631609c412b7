-- ===== src/Resolved/Responsive.antt =====
-- `set` and then `reset` of crates/dns-host-config/src/linux/systemd_resolved.rs over a bus on which every
-- call succeeds.
use dns_announce.Shared.{◌≡◌, ◌≢◌, refl, ◌∙◌, inl, inr, Option, none, some, Bool, List, [], map}
use dns_announce.Shared.Methods.{
  Result, ok, err, Ensures-ok, Succeeds, and_then-Succeeds, lift, map_err,
}
use dns_announce.Net.{Bytes}
use dns_announce.Text.{Text, codes}
use dns_announce.Text.Integer.{ℤ}
use dns_announce.Config.{DnsRouteConfig}
use dns_announce.Resolved.{
  Error, dbus, System, Bus, encode_addr, routing_only, ifindex, Session, link_proxy, set, clear,
  reset_link, reset, with_world,
}
use dns_announce.Resolved.Links.{
  Resolve1, IsRouted, IsCleared, Others, Elsewhere, Forgotten, forgetting, set-IsRouted,
  reset-IsCleared,
}

-- Every call of the bus succeeds.
pub record IsResponsive (bus : Bus) : Type 0 where
  pub manager_new_ok : (c : bus.Connection) (w : bus.World) → Succeeds (bus.manager_new c w)
  pub get_link_ok : (m : bus.Manager) (k : ℤ) (w : bus.World) → Succeeds (bus.get_link m k w)
  pub builder_path_ok :
      (c : bus.Connection) (p : bus.ObjectPath) → (b : bus.Builder) × (bus.builder_path c p ≡ ok b)
  pub build_ok : (b : bus.Builder) (w : bus.World) → Succeeds (bus.build b w)
  pub set_dns_ok :
      (l : bus.Link) (a : List (ℤ × Bytes)) (w : bus.World) → Succeeds (bus.set_dns l a w)
  pub set_domains_ok :
      (l : bus.Link) (d : List (Text × Bool)) (w : bus.World) → Succeeds (bus.set_domains l d w)

module _ (bus : Bus) (up : IsResponsive bus) where
  open bus use {World, Failure, Connection, Link}

  with_world-Succeeds :
      {A : Type 0} (s : Session bus) (r : World × Result Failure A)
      → Succeeds r
      → Succeeds (with_world bus s r)
  with_world-Succeeds s (w, ok x) h = (x, refl)
  with_world-Succeeds s (w, err x) (a, e) = cc

  lift-Succeeds :
      {A : Type 0} (s : Session bus) (r : Result Failure A)
      → (a : A) × (r ≡ ok a)
      → Succeeds (lift {E = Error Failure} (map_err dbus r) s)
  lift-Succeeds s (ok x) h = (x, refl)
  lift-Succeeds s (err x) (a, e) = cc

  link_proxy-Succeeds : (k : ℤ) (s : Session bus) → Succeeds (link_proxy bus k s)
  unfolding link_proxy
  link_proxy-Succeeds k s =
      let c : Connection = s.self.connection in
      and_then-Succeeds _ _
        (with_world-Succeeds s (bus.manager_new c s.world) (up.manager_new_ok c s.world))
        (λ t m.
          and_then-Succeeds _ _
            (with_world-Succeeds t (bus.get_link m k t.world) (up.get_link_ok m k t.world))
            (λ u p.
              and_then-Succeeds _ _
                (lift-Succeeds u (bus.builder_path c p) (up.builder_path_ok c p))
                (λ v b. with_world-Succeeds v (bus.build b v.world) (up.build_ok b v.world))))

  set-Succeeds :
      (sys : System) (interface : Text) (config : DnsRouteConfig) (s : Session bus) (k : ℤ)
      → ifindex {Failure = Failure} sys (codes "/sys/class/net") interface ≡ ok k
      → Succeeds (set bus sys interface config s)
  unfolding set
  set-Succeeds sys interface config s k e = rw e (
      and_then-Succeeds _ _ (link_proxy-Succeeds k s) (λ t l.
        and_then-Succeeds _ _
          (with_world-Succeeds t (bus.set_dns l (map encode_addr config.servers) t.world)
            (up.set_dns_ok l _ t.world))
          (λ u x.
            and_then-Succeeds _ _
              (with_world-Succeeds u
                (bus.set_domains l (map routing_only config.routing_domains) u.world)
                (up.set_domains_ok l _ u.world))
              (λ v x. (tt, refl)))))

  clear-Succeeds :
      (r : Session bus × Result (Error Failure) Link) → Succeeds r → Succeeds (clear bus r)
  unfolding clear
  clear-Succeeds (s, ok l) h =
      and_then-Succeeds _ _
        (with_world-Succeeds s (bus.set_dns l [] s.world) (up.set_dns_ok l [] s.world))
        (λ t x.
          with_world-Succeeds t (bus.set_domains l [] t.world) (up.set_domains_ok l [] t.world))
  clear-Succeeds (s, err e) (a, q) = cc

  reset_link-Succeeds : (o : Option ℤ) (s : Session bus) → Succeeds (reset_link bus o s)
  unfolding reset_link
  reset_link-Succeeds none s = (tt, refl)
  reset_link-Succeeds (some k) s = clear-Succeeds (link_proxy bus k s) (link_proxy-Succeeds k s)

  reset-Succeeds : (s : Session bus) → Succeeds (reset bus s)
  unfolding reset
  reset-Succeeds s = reset_link-Succeeds s.self.active_link _

  unit_ok : {r : Result (Error Failure) (Unit {0})} → (a : Unit {0}) × (r ≡ ok a) → r ≡ ok tt
  unit_ok (a, e) = e

  module _ (service : Resolve1 bus) where
    -- Its link is found, so a `reset` that succeeded cleared it.
    cleared_lem :
        (k : ℤ) (s t : Session bus)
        → IsCleared bus service k s t
        → service.view t.world k ≡ record { servers = []; domains = [] }
    cleared_lem k s t c = elim c.cleared [
      | inl done' ↦ done'
      | inr (same, (f, e)) ↦
          absurd
            (found_lost (link_proxy bus k (forgetting bus service s)) (link_proxy-Succeeds k _) f e)
    ]
      where
        found_lost :
            (r : Session bus × Result (Error Failure) Link)
            → Succeeds r
            → (f : Failure) → r.1 ≢ err (dbus f)
        found_lost (u, ok l) h f e = cc
        found_lost (u, err x) (a, q) f e = cc

    -- On a bus where every call succeeds, over a service that keeps its links, for an interface that has
    -- an index: `set` succeeds and routes the link as configured, a `reset` behind it succeeds, and then
    -- the link has no servers and no domains, every other link is as it was before the two, and the
    -- backend remembers no link.
    pub set-reset_responsive :
        (sys : System) (interface : Text) (config : DnsRouteConfig) (s : Session bus) (k : ℤ)
        → ifindex {Failure = Failure} sys (codes "/sys/class/net") interface ≡ ok k
        → ((set bus sys interface config s).1 ≡ ok tt)
          × IsRouted bus service config k s (set bus sys interface config s).0
          × ((reset bus (set bus sys interface config s).0).1 ≡ ok tt)
          × (service.view (reset bus (set bus sys interface config s).0).0.world k
              ≡ record { servers = []; domains = [] })
          × Others bus service k s (reset bus (set bus sys interface config s).0).0
          × ((reset bus (set bus sys interface config s).0).0.self.active_link ≡ none)
    set-reset_responsive sys interface config s k e =
        let s1 = (set bus sys interface config s).0 in
        let set_ok = unit_ok (set-Succeeds sys interface config s k e) in
        let routed =
          Ensures-ok (λ t x. IsRouted bus service config k s t) (Elsewhere bus service k s)
            (set bus sys interface config s) tt
            (set-IsRouted bus service sys interface config s k e) set_ok in
        let reset_ok = unit_ok (reset-Succeeds s1) in
        let gone =
          Ensures-ok (λ t x. IsCleared bus service k s1 t) (Forgotten bus service k s1)
            (reset bus s1) tt (reset-IsCleared bus service s1 k routed.active) reset_ok in
        (
          set_ok,
          routed,
          reset_ok,
          cleared_lem k s1 (reset bus s1).0 gone,
          λ i ne. gone.others i ne ∙ routed.others i ne,
          gone.inactive,
        )
