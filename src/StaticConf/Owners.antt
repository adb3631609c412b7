-- ===== src/StaticConf/Owners.antt =====
-- Two owners at one path, with `set` and `reset` of
-- crates/dns-host-config/src/linux/static_resolv_conf.rs: the backup belongs to the path, not to the owner.
use dns_announce.Shared.{
  ◌≡◌, ◌≢◌, refl, sym, ◌∙◌, true, false, ◌&&◌, Bool-cases, inl, inr, All, seq_eq, seq_eq_iff,
  seq_eq_refl, arith,
}
use dns_announce.Net.{Bytes}
use dns_announce.Net.Display.{IsIp}
use dns_announce.Text.{Text}
use dns_announce.Text.Utf8.{encode, encode_ascii}
use dns_announce.Fs.{
  absent, file, IoResult, ok, put, exists_node, exists, node-put, node-put_ne, file-ne_broken,
}
use dns_announce.Config.{DnsRouteConfig}
use dns_announce.StaticConf.{Host, marker_line, render, owned_by, is_owner, set, reset, restore}
use dns_announce.StaticConf.Render.{IsOwner, owner_of-render}
use dns_announce.StaticConf.Restore.{
  node_of, IsWritable, IsTaken, IsFresh, installed, saved, set-first, reset-IsTaken,
}

-- What `render` writes is never empty: it starts with the marker.
node_of-render :
    (owner : Text) (config : DnsRouteConfig) (original : Bytes)
    → node_of (encode (render owner config original)) ≡ file (encode (render owner config original))
unfolding render marker_line
node_of-render owner config original = rw (encode_ascii b'#' _ (omega arith)) refl

-- The instance of another owner at the same path, on the host as it is.
abbrev pub other_owner : Text → Host → Host
other_owner owner' h = record h { self = record (h.self) { owner = owner'; active = false } }

-- The first owner's instance again.
abbrev pub back_to : Host → Host → Host
back_to h h' = record { fs = h'.fs; self = record (h.self) { active = true } }

other_owner-IsWritable :
    (owner' : Text) (h : Host) → IsWritable h → IsOwner owner' → IsWritable (other_owner owner' h)
other_owner-IsWritable owner' h w o = record {
  owner = o;
  apart = w.apart;
  path_writable = w.path_writable;
  backup_writable = w.backup_writable;
}

-- To another owner, an override in place is a file like any other.
other_owner-IsFresh :
    (config : DnsRouteConfig) (original : Bytes) (h : Host) (owner' : Text)
    → IsWritable h
    → All IsIp config.servers
    → IsTaken config original h
    → h.self.owner ≢ owner'
    → IsFresh (encode (render h.self.owner config original)) (other_owner owner' h)
unfolding owned_by is_owner
other_owner-IsFresh config original h owner' w k t ne = (
  rw (owner_of-render h.self.owner config original w.owner k h.fs h.self.path t.written)
      (foreign ne),
  file-ne_broken h.fs h.self.backup_path original t.kept,
  t.written ∙ sym (node_of-render h.self.owner config original),
)
  where
    foreign :
        h.self.owner ≢ owner'
        → (seq_eq h.self.owner owner' && exists h.fs h.self.backup_path) ≡ false
    foreign d = elim (Bool-cases (seq_eq h.self.owner owner')) [
      | inl same ↦ absurd (d ((seq_eq_iff h.self.owner owner').0 same))
      | inr differ ↦ rw differ refl
    ]

-- `reset` without a backup leaves the override.
reset_no_backup :
    (h : Host)
    → h.self.active ≡ true
    → owned_by h.fs h.self.path h.self.owner ≡ true
    → h.fs.node h.self.backup_path ≡ absent
    → reset h ≡ (record h { self = record (h.self) { active = false } }, ok tt)
unfolding reset restore exists_node
reset_no_backup h a o e = rw (a, o, e) refl

-- Over an override in place, another owner's `set` and `reset` leave the override without its backup.
abbrev pub visited : DnsRouteConfig → Text → Host → Host × IoResult (Unit {0})
visited config' owner' h = reset (set config' (other_owner owner' h)).0

visited-IsTaken :
    (config config' : DnsRouteConfig) (original : Bytes) (owner' : Text) (h : Host)
    → IsWritable h
    → IsTaken config original h
    → IsOwner owner'
    → h.self.owner ≢ owner'
    → All IsIp config.servers
    → All IsIp config'.servers
    → ((visited config' owner' h).1 ≡ ok tt)
      × ((visited config' owner' h).0.fs.node h.self.path
          ≡ file (encode (render h.self.owner config original)))
      × ((visited config' owner' h).0.fs.node h.self.backup_path ≡ absent)
visited-IsTaken config config' original owner' h w t o ne k k' =
    let bytes : Bytes = encode (render h.self.owner config original) in
    let hb : Host = other_owner owner' h in
    let wb = other_owner-IsWritable owner' h w o in
    let taken =
      set-first config' bytes hb wb (other_owner-IsFresh config original h owner' w k t ne) in
    let h2 : Host = installed config' bytes (saved bytes hb) in
    let w2 : IsWritable h2 = record {
      owner = o;
      apart = w.apart;
      path_writable = unfold put in w.path_writable;
      backup_writable = unfold put in w.backup_writable;
    } in
    rw (taken.0, reset-IsTaken config' bytes h2 w2 k' taken.1)
      (
        refl,
        node-put_ne (put h2.fs h.self.path (node_of bytes)) h.self.backup_path h.self.path absent
              w.apart
            ∙ node-put h2.fs h.self.path (node_of bytes)
            ∙ node_of-render h.self.owner config original,
        node-put (put h2.fs h.self.path (node_of bytes)) h.self.backup_path absent,
      )

-- The four calls, one inside the other: the first owner's `set`, the second's, the second's `reset`, and
-- the first's.
abbrev pub nested : DnsRouteConfig → DnsRouteConfig → Text → Host → Host × IoResult (Unit {0})
nested config config' owner' h = reset (back_to h (visited config' owner' (set config h).0).0)

-- Two different owners that the marker line can carry, valid servers, writable files, and a first
-- owner's `set` where the path holds a non-empty file or nothing, no override of ours is in place and
-- the backup is not a directory: when the second owner sets and resets before the first one resets, the
-- last `reset` succeeds, but the path keeps the first owner's override and there is no backup.
pub nested-lost :
    (config config' : DnsRouteConfig) (original : Bytes) (owner' : Text) (h : Host)
    → IsWritable h
    → IsFresh original h
    → IsOwner owner'
    → h.self.owner ≢ owner'
    → All IsIp config.servers
    → All IsIp config'.servers
    → ((nested config config' owner' h).1 ≡ ok tt)
      × ((nested config config' owner' h).0.fs.node h.self.path
          ≡ file (encode (render h.self.owner config original)))
      × ((nested config config' owner' h).0.fs.node h.self.backup_path ≡ absent)
nested-lost config config' original owner' h w f o ne k k' =
    let h1 : Host = installed config original (saved original h) in
    let taken = set-first config original h w f in
    let w1 : IsWritable h1 = record {
      owner = w.owner;
      apart = w.apart;
      path_writable = unfold put in w.path_writable;
      backup_writable = unfold put in w.backup_writable;
    } in
    let after = visited-IsTaken config config' original owner' h1 w1 taken.1 o ne k k' in
    let h3 : Host = back_to h (visited config' owner' h1).0 in
    let mine : owned_by h3.fs h.self.path h.self.owner ≡ true =
      unfold owned_by is_owner in
      rw (owner_of-render h.self.owner config original w.owner k h3.fs h.self.path after.1)
        (seq_eq_refl h.self.owner) in
    rw (taken.0, reset_no_backup h3 refl mine after.2) (refl, after.1, after.2)
