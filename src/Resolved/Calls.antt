-- ===== src/Resolved/Calls.antt =====
-- crates/dns-host-config/src/linux/systemd_resolved.rs on any bus: what a call through it keeps, and
-- which link the backend remembers.
use dns_announce.Shared.{◌≡◌, refl, ap, Option, none, some, [], map}
use dns_announce.Shared.Methods.{
  Result, ok, err, and_then, Ensures, and_then-Ensures, Ensures-both, ◌>>=◌, ◌>>◌, lift, map_err,
}
use dns_announce.Text.{Text, codes}
use dns_announce.Text.Integer.{ℤ}
use dns_announce.Config.{DnsRouteConfig}
use dns_announce.Resolved.{
  Error, dbus, not_available, System, Bus, SystemdResolved, encode_addr, routing_only, ifindex,
  Session, link_proxy, set, clear, reset_link, reset, with_world, call, set_active_link,
}

module _ (bus : Bus) where
  open bus use {World, Failure, Connection, Link}

  -- The rule of a call of the bus.
  pub call-Ensures :
      {A : Type 0} (P : Session bus → A → Type 0) (Q : Session bus → Type 0) (s : Session bus)
      (r : World × Result Failure A)
      → ((a : A) → r.1 ≡ ok a → P (record s { world = r.0 }) a)
      → Q (record s { world = r.0 })
      → Ensures P Q (with_world bus s r)
  call-Ensures P Q s (w, ok a) h k = h a refl
  call-Ensures P Q s (w, err e) h k = k

  -- The rule of a value of the bus's library.
  pub lift-Ensures :
      {A : Type 0} (P : Session bus → A → Type 0) (Q : Session bus → Type 0) (s : Session bus)
      (r : Result Failure A)
      → ((a : A) → r ≡ ok a → P s a)
      → Q s
      → Ensures P Q (lift {E = Error Failure} (map_err dbus r) s)
  lift-Ensures P Q s (ok a) h k = h a refl
  lift-Ensures P Q s (err e) h k = k

  abbrev pub Kept : SystemdResolved Connection → Session bus → Type 0
  Kept self t = t.self ≡ self

  call-Kept :
      {A : Type 0} (self : SystemdResolved Connection) (t : Session bus)
      (r : World × Result Failure A)
      → Kept self t
      → Ensures (λ u a. Kept self u) (Kept self) (with_world bus t r)
  call-Kept {A = A} self t r e =
      call-Ensures (λ u (a : A). Kept self u) (Kept self) t r (λ a q. e) e

  link_proxy-Kept :
      (k : ℤ) (self : SystemdResolved Connection) (s : Session bus)
      → Kept self s
      → Ensures (λ t l. Kept self t) (Kept self) (link_proxy bus k s)
  unfolding link_proxy
  link_proxy-Kept k self s e =
      and_then-Ensures (λ t m. Kept self t) Q (Kept self) _ _
        (call-Kept self s (bus.manager_new c s.world) e)
        (λ t m e1.
          and_then-Ensures (λ t p. Kept self t) Q (Kept self) _ _
            (call-Kept self t (bus.get_link m k t.world) e1)
            (λ u p e2.
              and_then-Ensures (λ t b. Kept self t) Q (Kept self) _ _
                (lift-Ensures (λ t b. Kept self t) (Kept self) u (bus.builder_path c p) (λ b q. e2)
                  e2)
                (λ v b e3. call-Kept self v (bus.build b v.world) e3)))
    where
      c : Connection
      c = s.self.connection

      Q : Session bus → Link → Type 0
      Q t l = Kept self t

  -- What `set` leaves of the backend.
  abbrev pub Remembers : Option ℤ → Session bus → Type 0
  Remembers link t = t.self.active_link ≡ link

  pub set-Remembers :
      (sys : System) (interface : Text) (config : DnsRouteConfig) (s : Session bus)
      → Ensures
          (λ t x.
            (k : ℤ) × (ifindex {Failure = Failure} sys (codes "/sys/class/net") interface ≡ ok k)
            × Remembers (some k) t)
          (Kept s.self)
          (set bus sys interface config s)
  unfolding set
  set-Remembers sys interface config s =
      by_index (ifindex sys (codes "/sys/class/net") interface) refl
    where
      P : Session bus → Unit {0} → Type 0
      P t x =
          (k : ℤ) × (ifindex {Failure = Failure} sys (codes "/sys/class/net") interface ≡ ok k)
          × Remembers (some k) t

      by_index :
          (r : Result (Error Failure) ℤ)
          → ifindex sys (codes "/sys/class/net") interface ≡ r
          → Ensures P (Kept s.self) (
              and_then (lift {S = Session bus} r s) (λ idx. do
                link ← link_proxy bus idx
                call bus (bus.set_dns link (map encode_addr config.servers))
                call bus (bus.set_domains link (map routing_only config.routing_domains))
                set_active_link bus (some idx)))
      by_index (err e) q = refl
      by_index (ok k) q =
          and_then-Ensures (λ t l. Kept s.self t) P (Kept s.self) _ _
            (link_proxy-Kept k s.self s refl)
            (λ t l e1.
              and_then-Ensures (λ u x. Kept s.self u) P (Kept s.self) _ _
                (call-Kept s.self t (bus.set_dns l (map encode_addr config.servers) t.world) e1)
                (λ u x e2.
                  and_then-Ensures (λ v x. Kept s.self v) P (Kept s.self) _
                    (λ x. set_active_link bus (some k))
                    (call-Kept s.self u
                      (bus.set_domains l (map routing_only config.routing_domains) u.world) e2)
                    (λ v x e3. (k, q, refl))))

  clear-Kept :
      (self : SystemdResolved Connection) (r : Session bus × Result (Error Failure) Link)
      → Kept self r.0
      → Kept self (clear bus r).0
  unfolding clear
  clear-Kept self (s, ok l) e =
      Ensures-both (Kept self)
        (and_then {S = Session bus} {E = Error Failure} {A = Unit {0}} {B = Unit {0}}
          (call bus (bus.set_dns l []) s) (λ x. call bus (bus.set_domains l [])))
        (and_then-Ensures (λ t x. Kept self t) Q (Kept self) (call bus (bus.set_dns l []) s)
          (λ x. call bus (bus.set_domains l [])) (call-Kept self s (bus.set_dns l [] s.world) e)
          (λ t x e1. call-Kept self t (bus.set_domains l [] t.world) e1))
    where
      Q : Session bus → Unit {0} → Type 0
      Q t x = Kept self t
  clear-Kept self (s, err (dbus f)) e = e
  clear-Kept self (s, err (not_available m)) e = e

  reset_link-Kept : (link : Option ℤ) (s : Session bus) → Kept s.self (reset_link bus link s).0
  unfolding reset_link
  reset_link-Kept none s = refl
  reset_link-Kept (some k) s =
      clear-Kept s.self (link_proxy bus k s)
        (Ensures-both (Kept s.self) (link_proxy bus k s) (link_proxy-Kept k s.self s refl))

  -- `reset` forgets the link, whatever becomes of its calls.
  pub reset-Remembers : (s : Session bus) → Remembers none (reset bus s).0
  unfolding reset
  reset-Remembers s =
      ap (λ (x : SystemdResolved Connection). x.active_link) (reset_link-Kept s.self.active_link _)

  pub reset_idle : (s : Session bus) → Remembers none s → reset bus s ≡ (s, ok tt)
  unfolding reset reset_link
  reset_idle s e = rw e refl
