-- ===== src/Tests/Links.antt =====
-- crates/dns-host-config/src/linux/systemd_resolved.rs with a service that keeps its links in a function.
use dns_announce.Shared.{
  ℕ, ◌<◌, ◌≡◌, ◌≢◌, ◌↔◌, refl, sym, ap, Bool, true, false, Bool-cases, inl, inr, Option, none, some,
  [], ◌∷◌, map, ◌==◌, ==_iff, if◌then◌else◌, seq_eq, arith, All,
}
use dns_announce.Shared.Methods.{Result, ok, Ensures}
use dns_announce.Net.{v6}
use dns_announce.Text.{Text, codes}
use dns_announce.Text.Utf8.{encode, IsChar}
use dns_announce.Text.Lines.{is_whitespace, trim, trim_start, trim_end, trim_end_cons}
use dns_announce.Text.Integer.{ℤ, pos, negsuc, Denotes, plain}
use dns_announce.Fs.{Fs, absent, file, ErrorKind, read_text}
use dns_announce.Fs
use dns_announce.Fs.Paths.{ends_in_slash, is_absolute, join}
use dns_announce.Config.{DnsRouteConfig}
use dns_announce.Resolved.{
  System, Bus, Session, encode_addr, routing_only, ifindex, link_proxy, set, clear, reset_link,
  reset,
}
use dns_announce.Resolved.Links.{LinkDns, Resolve1, IsRouted, Others, Elsewhere, set-IsRouted}
use dns_announce.Resolved.Index.{read_text-encode, ifindex-Denotes}
use dns_announce.Resolved.Responsive.{IsResponsive, set-reset_responsive}
use dns_announce.Resolved.Undo.{set-set-reset}
use dns_announce.Tests.Wire.{server, client}

abbrev int_eq : ℤ → ℤ → Bool
int_eq (pos m) (pos n) = m == n
int_eq (negsuc m) (negsuc n) = m == n
int_eq (pos m) (negsuc n) = false
int_eq (negsuc m) (pos n) = false

int_eq_same : (i : ℤ) → int_eq i i ≡ true
int_eq_same (pos m) = (==_iff m m).1 refl
int_eq_same (negsuc m) = (==_iff m m).1 refl

int_eq_iff : (i j : ℤ) → int_eq i j ≡ true → i ≡ j
int_eq_iff (pos m) (pos n) e = ap pos ((==_iff m n).0 e)
int_eq_iff (negsuc m) (negsuc n) e = ap negsuc ((==_iff m n).0 e)
int_eq_iff (pos m) (negsuc n) e = cc
int_eq_iff (negsuc m) (pos n) e = cc

abbrev Registers : Type 0
Registers = ℤ → LinkDns

abbrev stored : Registers → ℤ → LinkDns → Registers
stored w i dns j = if int_eq j i then dns else w j

stored_same : (w : Registers) (i : ℤ) (dns : LinkDns) → stored w i dns i ≡ dns
stored_same w i dns = rw (int_eq_same i) refl

stored_other : (w : Registers) (i : ℤ) (dns : LinkDns) (j : ℤ) → j ≢ i → stored w i dns j ≡ w j
stored_other w i dns j h = elim (Bool-cases (int_eq j i)) [
  | inl same ↦ absurd (h (int_eq_iff j i same))
  | inr differ ↦ rw differ refl
]

-- Every call succeeds; a link is its index.
abbrev pub bus : Bus
bus = record {
  World = Registers;
  Failure = Text;
  Connection = Unit {0};
  Manager = Unit {0};
  ObjectPath = ℤ;
  Builder = ℤ;
  Link = ℤ;
  system = λ w. (w, ok tt);
  manager_new = λ c w. (w, ok tt);
  get_link = λ m i w. (w, ok i);
  builder_path = λ c p. ok p;
  build = λ b w. (w, ok b);
  set_dns = λ l a w. (stored w l (record (w l) { servers = a }), ok tt);
  set_domains = λ l d w. (stored w l (record (w l) { domains = d }), ok tt);
}

ok_injective : (i j : ℤ) → ◌≡◌ {A = Result Text ℤ} (ok i) (ok j) → i ≡ j
ok_injective i j e = cc

abbrev service : Resolve1 bus
service = record {
  view = λ w. w;
  path_index = λ p. p;
  builder_index = λ b. b;
  index = λ l. l;
  manager_new_keeps = λ c w i. refl;
  get_link_keeps = λ m k w i. refl;
  build_keeps = λ b w i. refl;
  get_link_index = λ m k w p e. sym (ok_injective k p e);
  builder_path_index = λ c p b e. sym (ok_injective p b e);
  build_index = λ b w l e. sym (ok_injective b l e);
  set_dns_self = λ l a w e. stored_same w l (record (w l) { servers = a });
  set_dns_other = λ l a w i ne. stored_other w l (record (w l) { servers = a }) i ne;
  set_domains_self = λ l d w e. stored_same w l (record (w l) { domains = d });
  set_domains_other = λ l d w i ne. stored_other w l (record (w l) { domains = d }) i ne;
}

-- Two interfaces.
abbrev pub sys : System
sys = record {
  fs = record {
    node = λ q.
        if seq_eq q (codes "/sys/class/net/tun0/ifindex")
        then file (encode (b'7' ∷ b'\n' ∷ []))
        else if seq_eq q (codes "/sys/class/net/tun1/ifindex")
        then file (encode (b'8' ∷ b'\n' ∷ []))
        else absent;
    writable = λ q. true;
  };
  read_link = λ q. some (codes "../run/systemd/resolve/stub-resolv.conf");
  io_text = λ e. [];
}

digit_line-IsChar : (d : ℕ) → d < 0x80 → All IsChar (d ∷ b'\n' ∷ [])
digit_line-IsChar d h = (inl (omega arith), (inl (omega arith), tt))

abbrev sys_class_net : Text
sys_class_net = codes "/sys/class/net"

tun0-Denotes : Denotes (trim (b'7' ∷ b'\n' ∷ [])) (pos 7)
unfolding trim trim_start trim_end trim_end_cons is_whitespace
tun0-Denotes =
    plain (record { some_digit = (λ e. cc); all_digits = omega arith; value_is = refl })
      (omega arith)

tun1-Denotes : Denotes (trim (b'8' ∷ b'\n' ∷ [])) (pos 8)
unfolding trim trim_start trim_end trim_end_cons is_whitespace
tun1-Denotes =
    plain (record { some_digit = (λ e. cc); all_digits = omega arith; value_is = refl })
      (omega arith)

ifindex-Denotes_example :
    (ifindex {Failure = Text} sys sys_class_net (codes "tun0") ≡ ok (pos 7)) ↔ (
      (s : Text) × (read_text sys.fs (join (join sys_class_net (codes "tun0")) (codes "ifindex"))
        ≡ Fs.ok s)
      × Denotes (trim s) (pos 7))
ifindex-Denotes_example = ifindex-Denotes sys sys_class_net (codes "tun0") (pos 7)

pub tun0-ifindex : ifindex {Failure = Text} sys sys_class_net (codes "tun0") ≡ ok (pos 7)
unfolding ends_in_slash is_absolute join seq_eq
tun0-ifindex = (ifindex-Denotes sys sys_class_net (codes "tun0") (pos 7)).1 (
  b'7' ∷ b'\n' ∷ [],
  read_text-encode sys.fs (codes "/sys/class/net/tun0/ifindex") _ refl
      (digit_line-IsChar b'7' (omega arith)),
  tun0-Denotes,
)

tun1-ifindex : ifindex {Failure = Text} sys sys_class_net (codes "tun1") ≡ ok (pos 8)
unfolding ends_in_slash is_absolute join seq_eq
tun1-ifindex = (ifindex-Denotes sys sys_class_net (codes "tun1") (pos 8)).1 (
  b'8' ∷ b'\n' ∷ [],
  read_text-encode sys.fs (codes "/sys/class/net/tun1/ifindex") _ refl
      (digit_line-IsChar b'8' (omega arith)),
  tun1-Denotes,
)

abbrev pub config : DnsRouteConfig
config = record { servers = v6 server ∷ []; routing_domains = codes "vpn.example" ∷ [] }

abbrev other_config : DnsRouteConfig
other_config = record { servers = v6 client ∷ []; routing_domains = [] }

abbrev pub start : Session bus
start = record {
  world = λ i. record { servers = []; domains = [] };
  self = record { connection = tt; active_link = none };
}

abbrev after_set : Session bus
after_set = (set bus sys (codes "tun0") config start).0

abbrev after_sets : Session bus
after_sets = (set bus sys (codes "tun1") other_config after_set).0

set-IsRouted_example :
    Ensures
      (λ t x. IsRouted bus service config (pos 7) start t)
      (Elsewhere bus service (pos 7) start)
      (set bus sys (codes "tun0") config start)
set-IsRouted_example = set-IsRouted bus service sys (codes "tun0") config start (pos 7) tun0-ifindex

set_ok : (set bus sys (codes "tun0") config start).1 ≡ ok tt
unfolding set link_proxy
set_ok = rw tun0-ifindex refl

abbrev routed : Session bus
routed = record start { self = record (start.self) { active_link = some (pos 7) } }

set_other_ok : (set bus sys (codes "tun1") other_config after_set).1 ≡ ok tt
unfolding set link_proxy
set_other_ok = rw tun1-ifindex refl

reset_link_ok : (o : Option ℤ) (s : Session bus) → (reset_link bus o s).1 ≡ ok tt
unfolding reset_link clear link_proxy
reset_link_ok none s = refl
reset_link_ok (some k) s = refl

reset_ok : (s : Session bus) → (reset bus s).1 ≡ ok tt
unfolding reset
reset_ok s = reset_link_ok s.self.active_link _

set-set-reset_example :
    (service.view (reset bus after_sets).0.world (pos 7) ≡ record {
      servers = map encode_addr config.servers;
      domains = map routing_only config.routing_domains;
    })
    × ((reset bus after_sets).0.self.active_link ≡ none)
set-set-reset_example =
    set-set-reset bus service sys (codes "tun0") (codes "tun1") config other_config start (pos 7)
      (pos 8) tun0-ifindex tun1-ifindex (λ e. cc) set_ok set_other_ok (reset_ok after_sets)

bus-IsResponsive : IsResponsive bus
bus-IsResponsive = record {
  manager_new_ok = λ c w. (tt, refl);
  get_link_ok = λ m k w. (k, refl);
  builder_path_ok = λ c p. (p, refl);
  build_ok = λ b w. (b, refl);
  set_dns_ok = λ l a w. (tt, refl);
  set_domains_ok = λ l d w. (tt, refl);
}

set-reset_responsive_example :
    ((set bus sys (codes "tun0") config start).1 ≡ ok tt)
    × IsRouted bus service config (pos 7) start after_set
    × ((reset bus after_set).1 ≡ ok tt)
    × (service.view (reset bus after_set).0.world (pos 7) ≡ record { servers = []; domains = [] })
    × Others bus service (pos 7) start (reset bus after_set).0
    × ((reset bus after_set).0.self.active_link ≡ none)
set-reset_responsive_example =
    set-reset_responsive bus bus-IsResponsive service sys (codes "tun0") config start (pos 7)
      tun0-ifindex
