-- ===== src/StaticConf/Lifecycle.antt =====
-- Everything that one owner's instances of crates/dns-host-config/src/linux/static_resolv_conf.rs do to
-- the file over time, as a step relation: `set`, `reset`, and a crash with a restart.
use mathlib.Core.Path.{subst}
use dns_announce.Shared.{◌≡◌, ◌≢◌, refl, sym, ap, ◌∙◌, Bool, true, false, ◌&&◌, All}
use dns_announce.Net.{Bytes}
use dns_announce.Net.Display.{IsIp}
use dns_announce.Text.{Text}
use dns_announce.Text.Utf8.{encode}
use dns_announce.Fs.{
  Fs, Node, absent, file, IoResult, ok, put, exists, exists_node, node-put, node-put_ne,
}
use dns_announce.Config.{DnsRouteConfig}
use dns_announce.StaticConf.{Host, backup_path_for, with_path, owned_by, render, set, reset}
use dns_announce.StaticConf.Active.{reset_idle}
use dns_announce.StaticConf.Restore.{
  node_of, IsWritable, IsTaken, IsFresh, saved, restored, restarted, set-first, set-again,
  reset-IsTaken, reset-restarted,
}

abbrev pub AllIsIp : DnsRouteConfig → Type 0
AllIsIp config = All IsIp config.servers

-- One step of a host with its backend; a crash leaves the files and nothing else.
pub data Step (h h' : Host) : Type 0 where
  set_step : (config : DnsRouteConfig) → AllIsIp config → (set config h).0 ≡ h' → Step h h'
  reset_step : (reset h).0 ≡ h' → Step h h'
  crash_step : restarted h ≡ h' → Step h h'

pub data Reaches : Host → Host → Type 0 where
  here : {h : Host} → Reaches h h
  next : {h m h' : Host} → Step h m → Reaches m h' → Reaches h h'

-- Either the original content is at the path and there is no backup, or an override is in place over it.
data Holds (original : Bytes) (h : Host) : Type 0 where
  idle :
      h.fs.node h.self.path ≡ node_of original
      → h.fs.node h.self.backup_path ≡ absent
      → h.self.active ≡ false
      → Holds original h
  taken : (config : DnsRouteConfig) → AllIsIp config → IsTaken config original h → Holds original h

record IsSafe (original : Bytes) (h : Host) : Type 0 where
  writable : IsWritable h
  named : h.self.backup_path ≡ backup_path_for h.self.path
  holds : Holds original h

-- The same two paths, and all other files as they were.
record Frame (h h' : Host) : Type 0 where
  path : h'.self.path ≡ h.self.path
  backup : h'.self.backup_path ≡ h.self.backup_path
  others : (p : Text) → p ≢ h.self.path → p ≢ h.self.backup_path → h'.fs.node p ≡ h.fs.node p

Frame-refl : (h : Host) → Frame h h
Frame-refl h = record { path = refl; backup = refl; others = λ p ne ne'. refl }

Frame-trans : (h m h' : Host) → Frame h m → Frame m h' → Frame h h'
Frame-trans h m h' f g = record {
  path = g.path ∙ f.path;
  backup = g.backup ∙ f.backup;
  others =
      λ p ne ne'. g.others p (λ e. ne (e ∙ f.path)) (λ e. ne' (e ∙ f.backup)) ∙ f.others p ne ne';
}

and_false : (b c : Bool) → c ≡ false → (b && c) ≡ false
and_false true c e = e
and_false false c e = refl

pub no_backup-false :
    (h : Host)
    → h.fs.node h.self.backup_path ≡ absent
    → (owned_by h.fs h.self.path h.self.owner && exists h.fs h.self.backup_path) ≡ false
unfolding exists_node
no_backup-false h e = and_false _ _ (ap exists_node e)

idle-IsFresh :
    (original : Bytes) (h : Host)
    → h.fs.node h.self.path ≡ node_of original
    → h.fs.node h.self.backup_path ≡ absent
    → IsFresh original h
idle-IsFresh original h e e' = (no_backup-false h e', (λ q. cc), e)

-- What a call leaves behind: it succeeded, the host is safe, and the frame is kept.
abbrev Leaves : Bytes → Host → Host × IoResult (Unit {0}) → Type 0
Leaves original h r = (r.1 ≡ ok tt) × IsSafe original r.0 × Frame h r.0

pub put-IsWritable :
    (h : Host) (active : Bool) (path : Text) (n : Node)
    → IsWritable h
    → IsWritable (record { fs = put h.fs path n; self = record (h.self) { active = active } })
unfolding put
put-IsWritable h active path n w = record {
  owner = w.owner;
  apart = w.apart;
  path_writable = w.path_writable;
  backup_writable = w.backup_writable;
}

set-Leaves :
    (config : DnsRouteConfig) (original : Bytes) (h : Host)
    → AllIsIp config
    → IsSafe original h
    → Leaves original h (set config h)
set-Leaves config original h k s = from s.holds
  where
    n : Node
    n = file (encode (render h.self.owner config original))

    from : Holds original h → Leaves original h (set config h)
    from (idle at_path none' off) =
        let done' =
          set-first config original h s.writable (idle-IsFresh original h at_path none') in
        rw done'.0 (
          refl,
          record {
            writable =
                put-IsWritable (saved original h) true h.self.path n
                  (put-IsWritable h h.self.active h.self.backup_path (file original) s.writable);
            named = s.named;
            holds = taken config k done'.1;
          },
          record {
            path = refl;
            backup = refl;
            others = λ p ne ne'.
                node-put_ne (saved original h).fs h.self.path p n ne
                ∙ node-put_ne h.fs h.self.backup_path p (file original) ne';
          },
        )
    from (taken before v t) =
        let done' = set-again before config original h s.writable v t in
        rw done'.0 (
          refl,
          record {
            writable = put-IsWritable h true h.self.path n s.writable;
            named = s.named;
            holds = taken config k done'.1;
          },
          record {
            path = refl;
            backup = refl;
            others = λ p ne ne'. node-put_ne h.fs h.self.path p n ne;
          },
        )

-- What `reset` leaves is idle.
abbrev Withdrawn : Bytes → Host → Host × IoResult (Unit {0}) → Type 0
Withdrawn original h r =
    Leaves original h r
    × (r.0.fs.node h.self.path ≡ node_of original)
    × (r.0.fs.node h.self.backup_path ≡ absent)

reset-Withdrawn : (original : Bytes) (h : Host) → IsSafe original h → Withdrawn original h (reset h)
reset-Withdrawn original h s = from s.holds
  where
    from : Holds original h → Withdrawn original h (reset h)
    from (idle at_path none' off) = rw (reset_idle h off) ((refl, s, Frame-refl h), at_path, none')
    from (taken config v t) =
        let fs1 : Fs = put h.fs h.self.path (node_of original) in
        let at_path : (restored original h).fs.node h.self.path ≡ node_of original =
          node-put_ne fs1 h.self.backup_path h.self.path absent s.writable.apart
          ∙ node-put h.fs h.self.path (node_of original) in
        let gone : (restored original h).fs.node h.self.backup_path ≡ absent =
          node-put fs1 h.self.backup_path absent in
        rw (reset-IsTaken config original h s.writable v t) (
          (
            refl,
            record {
              writable =
                  put-IsWritable (record h { fs = fs1 }) false h.self.backup_path absent
                    (put-IsWritable h h.self.active h.self.path (node_of original) s.writable);
              named = s.named;
              holds = idle at_path gone refl;
            },
            record {
              path = refl;
              backup = refl;
              others = λ p ne ne'.
                  node-put_ne fs1 h.self.backup_path p absent ne'
                  ∙ node-put_ne h.fs h.self.path p (node_of original) ne;
            },
          ),
          at_path,
          gone,
        )

restarted-IsSafe :
    (original : Bytes) (h : Host)
    → IsSafe original h
    → IsSafe original (restarted h) × Frame h (restarted h)
unfolding with_path
restarted-IsSafe original h s = (
  record {
    writable = record {
      owner = s.writable.owner;
      apart = rw (sym s.named) s.writable.apart;
      path_writable = s.writable.path_writable;
      backup_writable = rw (sym s.named) s.writable.backup_writable;
    };
    named = refl;
    holds = from s.holds;
  },
  record { path = refl; backup = sym s.named; others = λ p ne ne'. refl },
)
  where
    from : Holds original h → Holds original (restarted h)
    from (idle at_path none' off) =
        idle at_path (rw (sym s.named) none') (rw (sym s.named) (no_backup-false h none'))
    from (taken config v t) = taken config v (record {
      active = (reset-restarted config original h s.writable v t s.named).0;
      written = t.written;
      kept = rw (sym s.named) t.kept;
    })

Step-IsSafe :
    (original : Bytes) (h m : Host) → Step h m → IsSafe original h → IsSafe original m × Frame h m
Step-IsSafe original h m (set_step config k e) s =
    let left = set-Leaves config original h k s in
    subst (λ x. IsSafe original x × Frame h x) e (left.1, left.2)
Step-IsSafe original h m (reset_step e) s =
    let left = (reset-Withdrawn original h s).0 in
    subst (λ x. IsSafe original x × Frame h x) e (left.1, left.2)
Step-IsSafe original h m (crash_step e) s =
    subst (λ x. IsSafe original x × Frame h x) e (restarted-IsSafe original h s)

Reaches-IsSafe :
    (original : Bytes) (h h' : Host)
    → Reaches h h'
    → IsSafe original h
    → IsSafe original h' × Frame h h'
Reaches-IsSafe original h h' here s = (s, Frame-refl h)
Reaches-IsSafe original h h' (next {m = m} step rest) s =
    let (s1, f) = Step-IsSafe original h m step s in
    let (s2, g) = Reaches-IsSafe original m h' rest s1 in (s2, Frame-trans h m h' f g)

-- From an inactive backend of an owner that the marker line can carry, with a path, the backup path
-- that belongs to it, both writable, a non-empty file or nothing at the path and no backup: after any
-- number of `set` calls with valid servers, `reset` calls and crashes with a restart, in any order, a
-- further `set` with valid servers succeeds, and so does a `reset`, which leaves at the path what was
-- there at the start, no backup, and every other file as it was.
pub reset-Reaches :
    (original : Bytes) (h h' : Host)
    → IsWritable h
    → h.self.backup_path ≡ backup_path_for h.self.path
    → h.fs.node h.self.path ≡ node_of original
    → h.fs.node h.self.backup_path ≡ absent
    → h.self.active ≡ false
    → Reaches h h'
    → ((config : DnsRouteConfig) → AllIsIp config → (set config h').1 ≡ ok tt)
      × ((reset h').1 ≡ ok tt)
      × ((reset h').0.fs.node h.self.path ≡ node_of original)
      × ((reset h').0.fs.node h.self.backup_path ≡ absent)
      × ((p : Text)
          → p ≢ h.self.path
          → p ≢ h.self.backup_path
          → (reset h').0.fs.node p ≡ h.fs.node p)
reset-Reaches original h h' w b at_path none' off steps =
    let start : IsSafe original h = record {
      writable = w;
      named = b;
      holds = idle at_path none' off;
    } in
    let (s, f) = Reaches-IsSafe original h h' steps start in
    let (left, path', backup') = reset-Withdrawn original h' s in
    (
      λ config k. (set-Leaves config original h' k s).0,
      left.0,
      ap (reset h').0.fs.node (sym f.path) ∙ path',
      ap (reset h').0.fs.node (sym f.backup) ∙ backup',
      (Frame-trans h h' (reset h').0 f left.2).others,
    )
