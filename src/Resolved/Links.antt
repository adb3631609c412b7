-- ===== src/Resolved/Links.antt =====
-- `set` and `reset` of crates/dns-host-config/src/linux/systemd_resolved.rs over a service that keeps,
-- for each link, the servers and domains that it was last given, as org.freedesktop.resolve1 documents.
use mathlib.Core.Path.{subst}
use dns_announce.Shared.{
  ◌≡◌, ◌≢◌, refl, sym, ap, ◌∙◌, ◌⊎◌, inl, inr, Bool, none, some, List, [], map,
}
use dns_announce.Shared.Methods.{Result, ok, err, Ensures, and_then-Ensures, Ensures-mono}
use dns_announce.Net.{Bytes}
use dns_announce.Text.{Text, codes}
use dns_announce.Text.Integer.{ℤ}
use dns_announce.Config.{DnsRouteConfig}
use dns_announce.Resolved.{
  Error, not_available, dbus, System, Bus, SystemdResolved, encode_addr, routing_only, ifindex,
  Session, link_proxy, set, clear, reset_link, reset, with_world, call, set_active_link,
}
use dns_announce.Resolved.Calls.{call-Ensures, lift-Ensures}

-- The configuration of one link.
pub record LinkDns : Type 0 where
  pub servers : List (ℤ × Bytes)
  pub domains : List (Text × Bool)

-- What the service documents. `view` is the configuration of every link by its index.
pub record Resolve1 (bus : Bus) : Type 0 where
  pub view : bus.World → ℤ → LinkDns
  pub path_index : bus.ObjectPath → ℤ
  pub builder_index : bus.Builder → ℤ
  pub index : bus.Link → ℤ
  pub manager_new_keeps :
      (c : bus.Connection) (w : bus.World) (i : ℤ) → view (bus.manager_new c w).0 i ≡ view w i
  pub get_link_keeps :
      (m : bus.Manager) (k : ℤ) (w : bus.World) (i : ℤ) → view (bus.get_link m k w).0 i ≡ view w i
  pub build_keeps : (b : bus.Builder) (w : bus.World) (i : ℤ) → view (bus.build b w).0 i ≡ view w i
  pub get_link_index :
      (m : bus.Manager) (k : ℤ) (w : bus.World) (p : bus.ObjectPath)
      → (bus.get_link m k w).1 ≡ ok p
      → path_index p ≡ k
  pub builder_path_index :
      (c : bus.Connection) (p : bus.ObjectPath) (b : bus.Builder)
      → bus.builder_path c p ≡ ok b
      → builder_index b ≡ path_index p
  pub build_index :
      (b : bus.Builder) (w : bus.World) (l : bus.Link)
      → (bus.build b w).1 ≡ ok l
      → index l ≡ builder_index b
  pub set_dns_self :
      (l : bus.Link) (a : List (ℤ × Bytes)) (w : bus.World)
      → (bus.set_dns l a w).1 ≡ ok tt
      → view (bus.set_dns l a w).0 (index l) ≡ record (view w (index l)) { servers = a }
  pub set_dns_other :
      (l : bus.Link) (a : List (ℤ × Bytes)) (w : bus.World) (i : ℤ)
      → i ≢ index l
      → view (bus.set_dns l a w).0 i ≡ view w i
  pub set_domains_self :
      (l : bus.Link) (d : List (Text × Bool)) (w : bus.World)
      → (bus.set_domains l d w).1 ≡ ok tt
      → view (bus.set_domains l d w).0 (index l) ≡ record (view w (index l)) { domains = d }
  pub set_domains_other :
      (l : bus.Link) (d : List (Text × Bool)) (w : bus.World) (i : ℤ)
      → i ≢ index l
      → view (bus.set_domains l d w).0 i ≡ view w i

module _ (bus : Bus) (service : Resolve1 bus) where
  open bus use {World, Failure, Connection, Link}

  -- Two sessions with the same backend, whose worlds show the same links.
  abbrev pub Quiet : Session bus → Session bus → Type 0
  Quiet s t = (t.self ≡ s.self) × ((i : ℤ) → service.view t.world i ≡ service.view s.world i)

  -- Looking a link up changes no link and not the backend, and finds the link of that index.
  link_proxy-Ensures :
      (k : ℤ) (s : Session bus)
      → Ensures (λ t l. Quiet s t × (service.index l ≡ k)) (Quiet s) (link_proxy bus k s)
  unfolding link_proxy
  link_proxy-Ensures k s =
      and_then-Ensures (λ t m. Quiet s t) Found (Quiet s) _ _
        (let q : Quiet s (call bus (bus.manager_new c) s).0 =
            (refl, service.manager_new_keeps c s.world) in
          call-Ensures bus (λ t m. Quiet s t) (Quiet s) s (bus.manager_new c s.world) (λ m e. q) q)
        (λ t m q.
          and_then-Ensures (λ u p. Quiet s u × (service.path_index p ≡ k)) Found (Quiet s) _ _
            (let q1 : Quiet s (call bus (bus.get_link m k) t).0 =
                (q.0, λ i. service.get_link_keeps m k t.world i ∙ q.1 i) in
              call-Ensures bus (λ u p. Quiet s u × (service.path_index p ≡ k)) (Quiet s) t
                (bus.get_link m k t.world) (λ p e. (q1, service.get_link_index m k t.world p e)) q1)
            (λ u p q1.
              and_then-Ensures (λ v b. Quiet s v × (service.builder_index b ≡ k)) Found (Quiet s) _
                _
                (lift-Ensures bus (λ v b. Quiet s v × (service.builder_index b ≡ k)) (Quiet s) u
                  (bus.builder_path c p) (λ b e. (q1.0, service.builder_path_index c p b e ∙ q1.1))
                  q1.0)
                (λ v b q2.
                  let q3 : Quiet s (call bus (bus.build b) v).0 =
                    (q2.0.0, λ i. service.build_keeps b v.world i ∙ q2.0.1 i) in
                  call-Ensures bus Found (Quiet s) v (bus.build b v.world)
                    (λ l e. (q3, service.build_index b v.world l e ∙ q2.1)) q3)))
    where
      c : Connection
      c = s.self.connection

      Found : Session bus → Link → Type 0
      Found t l = Quiet s t × (service.index l ≡ k)

  -- The links but one are as they were.
  abbrev pub Others : ℤ → Session bus → Session bus → Type 0
  Others k s t = (i : ℤ) → i ≢ k → service.view t.world i ≡ service.view s.world i

  -- The session after a `set` that succeeded, for the link of this index.
  pub record IsRouted (config : DnsRouteConfig) (k : ℤ) (s t : Session bus) : Type 0 where
    pub routed : service.view t.world k ≡ record {
      servers = map encode_addr config.servers;
      domains = map routing_only config.routing_domains;
    }
    pub others : Others k s t
    pub active : t.self.active_link ≡ some k

  -- The link shows this, the others are as they were, and so is the backend.
  abbrev Shows : ℤ → LinkDns → Session bus → Session bus → Type 0
  Shows k dns s u = (service.view u.world k ≡ dns) × Others k s u × (u.self ≡ s.self)

  abbrev pub Elsewhere : ℤ → Session bus → Session bus → Type 0
  Elsewhere k s u = Others k s u × (u.self ≡ s.self)

  -- A call that writes to one link.
  write-Ensures :
      (k : ℤ) (s t : Session bus) (dns : LinkDns) (r : World × Result Failure (Unit {0}))
      → (r.1 ≡ ok tt → service.view r.0 k ≡ dns)
      → ((i : ℤ) → i ≢ k → service.view r.0 i ≡ service.view t.world i)
      → Elsewhere k s t
      → Ensures (λ u x. Shows k dns s u) (Elsewhere k s) (with_world bus t r)
  write-Ensures k s t dns r self other h =
      let o : Others k s (record t { world = r.0 }) = λ i ne. other i ne ∙ h.0 i ne in
      call-Ensures bus (λ u x. Shows k dns s u) (Elsewhere k s) t r (λ x e. (self e, o, h.1))
        (o, h.1)

  -- The two calls on a link that was found.
  dns_written :
      (k : ℤ) (s t : Session bus) (l : Link) (a : List (ℤ × Bytes))
      → service.index l ≡ k
      → Elsewhere k s t
      → Ensures
          (λ u x. Shows k (record (service.view t.world k) { servers = a }) s u)
          (Elsewhere k s)
          (call bus (bus.set_dns l a) t)
  dns_written k s t l a e h =
      write-Ensures k s t (record (service.view t.world k) { servers = a })
        (bus.set_dns l a t.world)
        (λ w.
          subst
            (λ i.
              service.view (bus.set_dns l a t.world).0 i
              ≡ record (service.view t.world i) { servers = a })
            e (service.set_dns_self l a t.world w))
        (λ i ne. service.set_dns_other l a t.world i (λ q. ne (q ∙ e))) h

  domains_written :
      (k : ℤ) (s u : Session bus) (l : Link) (v : LinkDns) (d : List (Text × Bool))
      → service.index l ≡ k
      → Shows k v s u
      → Ensures
          (λ t x. Shows k (record v { domains = d }) s t)
          (Elsewhere k s)
          (call bus (bus.set_domains l d) u)
  domains_written k s u l v d e shows =
      write-Ensures k s u (record v { domains = d }) (bus.set_domains l d u.world)
        (λ w.
          subst
            (λ i.
              service.view (bus.set_domains l d u.world).0 i
              ≡ record (service.view u.world i) { domains = d })
            e (service.set_domains_self l d u.world w)
          ∙ ap (λ (x : LinkDns). record x { domains = d }) shows.0)
        (λ i ne. service.set_domains_other l d u.world i (λ q. ne (q ∙ e))) (shows.1, shows.2)

  Quiet-Elsewhere : (k : ℤ) (s t : Session bus) → Quiet s t → Elsewhere k s t
  Quiet-Elsewhere k s t q = (λ i ne. q.1 i, q.0)

  -- `set` on an interface that has an index, over a service that keeps its links: if it succeeds, the
  -- link of that index has the configuration's servers, each under its address family, and its domains
  -- for routing only, and the backend remembers the link; if it fails, the backend is as it was. Either
  -- way no other link changes.
  pub set-IsRouted :
      (sys : System) (interface : Text) (config : DnsRouteConfig) (s : Session bus) (k : ℤ)
      → ifindex {Failure = Failure} sys (codes "/sys/class/net") interface ≡ ok k
      → Ensures (λ t x. IsRouted config k s t) (Elsewhere k s) (set bus sys interface config s)
  unfolding set
  set-IsRouted sys interface config s k e = rw e (
      and_then-Ensures (λ t l. Quiet s t × (service.index l ≡ k)) (λ t x. IsRouted config k s t)
        (Elsewhere k s) _ _
        (Ensures-mono {E = Error Failure} {A = Link} {P = λ t l. Quiet s t × (service.index l ≡ k)}
          (link_proxy bus k s) (λ t l h. h) (λ t h. Quiet-Elsewhere k s t h)
          (link_proxy-Ensures k s))
        (λ t l found.
          and_then-Ensures
            (λ u x.
              Shows k (record (service.view t.world k) { servers = map encode_addr config.servers })
                s u)
            (λ u x. IsRouted config k s u) (Elsewhere k s) _ _
            (dns_written k s t l (map encode_addr config.servers) found.1
              (Quiet-Elsewhere k s t found.0))
            (λ u x shows.
              and_then-Ensures
                (λ v x.
                  Shows k
                    (record {
                      servers = map encode_addr config.servers;
                      domains = map routing_only config.routing_domains;
                    })
                    s v)
                (λ v x. IsRouted config k s v) (Elsewhere k s) _ (λ x. set_active_link bus (some k))
                (domains_written k s u l _ (map routing_only config.routing_domains) found.1 shows)
                (λ v x done'. record { routed = done'.0; others = done'.1; active = refl }))))

  abbrev pub forgetting : Session bus → Session bus
  forgetting s = record s { self = record (s.self) { active_link = none } }

  -- What `reset` leaves of the link that the backend remembered.
  pub record IsCleared (k : ℤ) (s t : Session bus) : Type 0 where
    pub others : Others k s t
    pub inactive : t.self.active_link ≡ none
    pub cleared :
        (service.view t.world k ≡ record { servers = []; domains = [] })
        ⊎ ((service.view t.world k ≡ service.view s.world k)
            × ((f : Failure) × ((link_proxy bus k (forgetting s)).1 ≡ err (dbus f))))

  abbrev pub Forgotten : ℤ → Session bus → Session bus → Type 0
  Forgotten k s t = Others k s t × (t.self.active_link ≡ none)

  Elsewhere-Forgotten :
      (s : Session bus) (k : ℤ) (t : Session bus) → Elsewhere k (forgetting s) t → Forgotten k s t
  Elsewhere-Forgotten s k t h = (h.0, ap (λ (x : SystemdResolved Connection). x.active_link) h.1)

  clear-IsCleared :
      (s : Session bus) (k : ℤ) (r : Session bus × Result (Error Failure) Link)
      → link_proxy bus k (forgetting s) ≡ r
      → Ensures (λ t l. Quiet (forgetting s) t × (service.index l ≡ k)) (Quiet (forgetting s)) r
      → Ensures (λ t x. IsCleared k s t) (Forgotten k s) (clear bus r)
  unfolding clear
  clear-IsCleared s k (t, ok l) e found =
      and_then-Ensures
        (λ u x. Shows k (record (service.view t.world k) { servers = [] }) (forgetting s) u)
        (λ u x. IsCleared k s u) (Forgotten k s) _ (λ x. call bus (bus.set_domains l []))
        (Ensures-mono {E = Error Failure} {A = Unit {0}}
          {P = λ u x. Shows k (record (service.view t.world k) { servers = [] }) (forgetting s) u}
          (call bus (bus.set_dns l []) t) (λ u x h. h) (λ u h. Elsewhere-Forgotten s k u h)
          (dns_written k (forgetting s) t l [] found.1
            (Quiet-Elsewhere k (forgetting s) t found.0)))
        (λ u x shows.
          Ensures-mono {E = Error Failure} {A = Unit {0}}
            {P = λ v x. Shows k (record { servers = []; domains = [] }) (forgetting s) v}
            {P' = λ v x. IsCleared k s v} (call bus (bus.set_domains l []) u)
            (λ v x h. record {
              others = h.1;
              inactive = (Elsewhere-Forgotten s k v (h.1, h.2)).1;
              cleared = inl h.0;
            })
            (λ v h. Elsewhere-Forgotten s k v h)
            (domains_written k (forgetting s) u l (record (service.view t.world k) { servers = [] })
              [] found.1 shows))
  clear-IsCleared s k (t, err (dbus f)) e quiet = record {
    others = λ i ne. quiet.1 i;
    inactive = ap (λ (x : SystemdResolved Connection). x.active_link) quiet.0;
    cleared = inr (quiet.1 k, (f, ap (λ (x : Session bus × Result (Error Failure) Link). x.1) e));
  }
  clear-IsCleared s k (t, err (not_available m)) e quiet =
      (λ i ne. quiet.1 i, ap (λ (x : SystemdResolved Connection). x.active_link) quiet.0)

  -- `reset` of a backend that remembers a link, over a service that keeps its links: if it succeeds,
  -- either the link has no servers and no domains any more, or its proxy could not be made, for
  -- whatever reason the bus gave, and the link is as it was. Either way the backend remembers no link
  -- and no other link changes.
  pub reset-IsCleared :
      (s : Session bus) (k : ℤ)
      → s.self.active_link ≡ some k
      → Ensures (λ t x. IsCleared k s t) (Forgotten k s) (reset bus s)
  unfolding reset reset_link
  reset-IsCleared s k e =
      subst
        (λ o. Ensures (λ t x. IsCleared k s t) (Forgotten k s) (reset_link bus o (forgetting s)))
        (sym e)
        (clear-IsCleared s k (link_proxy bus k (forgetting s)) refl
          (link_proxy-Ensures k (forgetting s)))
