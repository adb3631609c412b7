-- ===== src/StaticConf/Restore.antt =====
-- `set` and `reset` of crates/dns-host-config/src/linux/static_resolv_conf.rs on one file system: what
-- the file and its backup hold after each.
use dns_announce.Shared.{◌≡◌, ◌≢◌, refl, sym, ◌∙◌, true, false, ◌&&◌, [], ◌∷◌, All, seq_eq_refl}
use dns_announce.Net.{Bytes}
use dns_announce.Net.Display.{IsIp}
use dns_announce.Text.{Text}
use dns_announce.Text.Utf8.{encode}
use dns_announce.Fs.{
  Fs, Node, absent, broken, file, ok, put, read_node, exists_node, exists, node-put, node-put_ne,
  write-put, remove_file-put, file-ne_broken,
}
use dns_announce.Config.{DnsRouteConfig}
use dns_announce.StaticConf.{
  Host, render, with_path, backup_path_for, owned_by, is_owner, back_up, original_content, set,
  put_back, forgive_not_found, restore, drop_backup, reset,
}
use dns_announce.StaticConf.Render.{IsOwner, owner_of-render}

-- The node that a backup stands for: an empty one records that there was no file.
abbrev pub node_of : Bytes → Node
node_of [] = absent
node_of (b ∷ bytes) = file (b ∷ bytes)

-- A host that the backend can work on: both files may be written, neither is a directory.
pub record IsWritable (h : Host) : Type 0 where
  pub owner : IsOwner h.self.owner
  pub apart : h.self.path ≢ h.self.backup_path
  pub path_writable : h.fs.writable h.self.path ≡ true
  pub backup_writable : h.fs.writable h.self.backup_path ≡ true

-- The override of a configuration is in place, over this original content.
pub record IsTaken (config : DnsRouteConfig) (original : Bytes) (h : Host) : Type 0 where
  pub active : h.self.active ≡ true
  pub written : h.fs.node h.self.path ≡ file (encode (render h.self.owner config original))
  pub kept : h.fs.node h.self.backup_path ≡ file original

-- The host after a write to the path.
abbrev pub installed : DnsRouteConfig → Bytes → Host → Host
installed config original h = record h {
  fs = put h.fs h.self.path (file (encode (render h.self.owner config original)));
  self = record (h.self) { active = true };
}

abbrev pub saved : Bytes → Host → Host
saved original h = record h { fs = put h.fs h.self.backup_path (file original) }

owned_by-IsTaken :
    (config : DnsRouteConfig) (original : Bytes) (h : Host)
    → IsWritable h
    → All IsIp config.servers
    → IsTaken config original h
    → owned_by h.fs h.self.path h.self.owner ≡ true
unfolding owned_by is_owner
owned_by-IsTaken config original h w k t =
    rw (owner_of-render h.self.owner config original w.owner k h.fs h.self.path t.written)
      (seq_eq_refl h.self.owner)

original_content-IsTaken :
    (config : DnsRouteConfig) (original : Bytes) (h : Host)
    → IsWritable h
    → All IsIp config.servers
    → IsTaken config original h
    → original_content h ≡ (h, ok original)
unfolding original_content exists_node read_node
original_content-IsTaken config original h w k t =
    rw (owned_by-IsTaken config original h w k t, t.kept) refl

pub set-installed :
    (config : DnsRouteConfig) (original : Bytes) (h : Host) (fs : Fs)
    → original_content h ≡ (record h { fs = fs }, ok original)
    → fs.writable h.self.path ≡ true
    → fs.node h.self.path ≢ broken
    → set config h ≡ (installed config original (record h { fs = fs }), ok tt)
unfolding set
set-installed config original h fs e w k =
    rw (e, write-put fs h.self.path (encode (render h.self.owner config original)) w k) refl

pub installed-IsTaken :
    (config : DnsRouteConfig) (original : Bytes) (h : Host)
    → h.self.path ≢ h.self.backup_path
    → h.fs.node h.self.backup_path ≡ file original
    → IsTaken config original (installed config original h)
installed-IsTaken config original h apart kept = record {
  active = refl;
  written = node-put h.fs h.self.path _;
  kept = node-put_ne h.fs h.self.path h.self.backup_path _ (λ e. apart (sym e)) ∙ kept;
}

-- With an override in place, for valid servers and where both files may be written, `set` of
-- another configuration succeeds, and the override is then that of the new configuration over the
-- same original content: the backup is used again and not overwritten.
pub set-again :
    (config config' : DnsRouteConfig) (original : Bytes) (h : Host)
    → IsWritable h
    → All IsIp config.servers
    → IsTaken config original h
    → (set config' h ≡ (installed config' original h, ok tt))
      × IsTaken config' original (installed config' original h)
set-again config config' original h w k t = (
  set-installed config' original h h.fs (original_content-IsTaken config original h w k t)
      w.path_writable (file-ne_broken h.fs h.self.path _ t.written),
  installed-IsTaken config' original h w.apart t.kept,
)

-- Where no override of ours is in place.
abbrev pub IsFresh : Bytes → Host → Type 0
IsFresh original h =
    ((owned_by h.fs h.self.path h.self.owner && exists h.fs h.self.backup_path) ≡ false)
    × (h.fs.node h.self.backup_path ≢ broken)
    × (h.fs.node h.self.path ≡ node_of original)

back_up-node :
    (original : Bytes) (h : Host)
    → h.fs.writable h.self.backup_path ≡ true
    → h.fs.node h.self.backup_path ≢ broken
    → back_up h.self.backup_path (read_node (node_of original)) h ≡ (saved original h, ok original)
unfolding back_up read_node
back_up-node [] h w k = rw (write-put h.fs h.self.backup_path [] w k) refl
back_up-node (b ∷ bytes) h w k = rw (write-put h.fs h.self.backup_path (b ∷ bytes) w k) refl

original_content-fresh :
    (original : Bytes) (h : Host)
    → IsWritable h
    → IsFresh original h
    → original_content h ≡ (saved original h, ok original)
unfolding original_content
original_content-fresh original h w f =
    rw (f.0, f.2) (back_up-node original h w.backup_writable f.1)

pub node_of-ne_broken : (original : Bytes) → node_of original ≢ broken
node_of-ne_broken [] e = cc
node_of-ne_broken (b ∷ bytes) e = cc

-- The first `set`, where both files may be written, the path holds a non-empty file or nothing, no
-- override of ours is in place and the backup is not a directory, succeeds: what was at the path
-- is in the backup, the rendered file is at the path, and the override is in place over that
-- content.
pub set-first :
    (config : DnsRouteConfig) (original : Bytes) (h : Host)
    → IsWritable h
    → IsFresh original h
    → (set config h ≡ (installed config original (saved original h), ok tt))
      × IsTaken config original (installed config original (saved original h))
set-first config original h w f = (
  set-installed config original h (put h.fs h.self.backup_path (file original))
      (original_content-fresh original h w f) (unfold put in w.path_writable)
      (λ e.
        node_of-ne_broken original
          (sym f.2 ∙ sym (node-put_ne h.fs h.self.backup_path h.self.path _ w.apart) ∙ e)),
  installed-IsTaken config original (saved original h) w.apart
      (node-put h.fs h.self.backup_path (file original)),
)

-- The host after a clean `reset`.
abbrev pub restored : Bytes → Host → Host
restored original h = record h {
  fs = put (put h.fs h.self.path (node_of original)) h.self.backup_path absent;
  self = record (h.self) { active = false };
}

put_back-node :
    (original bytes : Bytes) (h : Host)
    → h.fs.writable h.self.path ≡ true
    → h.fs.node h.self.path ≡ file bytes
    → put_back h.self.path original h
      ≡ (record h { fs = put h.fs h.self.path (node_of original) }, ok tt)
unfolding put_back forgive_not_found
put_back-node [] bytes h w e = rw (remove_file-put h.fs h.self.path bytes w e) refl
put_back-node (b ∷ original) bytes h w e =
    rw (write-put h.fs h.self.path (b ∷ original) w (file-ne_broken h.fs h.self.path bytes e)) refl

restore-IsTaken :
    (config : DnsRouteConfig) (original : Bytes) (h : Host)
    → IsWritable h
    → h.fs.node h.self.path ≡ file (encode (render h.self.owner config original))
    → h.fs.node h.self.backup_path ≡ file original
    → restore h ≡ (
      record h { fs = put (put h.fs h.self.path (node_of original)) h.self.backup_path absent },
      ok tt,
    )
unfolding restore exists_node read_node
restore-IsTaken config original h w written kept =
    rw
      (
        kept,
        put_back-node original _ h w.path_writable written,
        remove_file-put (put h.fs h.self.path (node_of original)) h.self.backup_path original
            (unfold put in w.backup_writable)
            (node_put-kept h.fs h.self.path h.self.backup_path (node_of original) w.apart ∙ kept),
      )
      refl
  where
    node_put-kept :
        (fs : Fs) (path other : Text) (n : Node)
        → path ≢ other
        → (put fs path n).node other ≡ fs.node other
    node_put-kept fs path other n apart = node-put_ne fs path other n (λ e. apart (sym e))

-- `reset` with an override in place, for valid servers and where both files may be written,
-- succeeds: the path holds its original content again, or nothing if that is empty, the backup is
-- gone, nothing else changes, and the backend is no longer active.
pub reset-IsTaken :
    (config : DnsRouteConfig) (original : Bytes) (h : Host)
    → IsWritable h
    → All IsIp config.servers
    → IsTaken config original h
    → reset h ≡ (restored original h, ok tt)
unfolding reset
reset-IsTaken config original h w k t =
    rw (t.active, owned_by-IsTaken config original h w k t)
      (restore-IsTaken config original (record h { self = record (h.self) { active = false } })
        (record {
          owner = w.owner;
          apart = w.apart;
          path_writable = w.path_writable;
          backup_writable = w.backup_writable;
        })
        t.written t.kept)

-- When an active backend finds a file at the path that does not belong to it, and its backup is a
-- file that may be removed, `reset` succeeds and leaves the path alone; only the backup goes.
pub reset_foreign :
    (h : Host) (bytes : Bytes)
    → h.self.active ≡ true
    → owned_by h.fs h.self.path h.self.owner ≡ false
    → h.fs.writable h.self.backup_path ≡ true
    → h.fs.node h.self.backup_path ≡ file bytes
    → reset h ≡ (
      record h {
        fs = put h.fs h.self.backup_path absent;
        self = record (h.self) { active = false };
      },
      ok tt,
    )
unfolding reset drop_backup
reset_foreign h bytes a o w e = rw (a, o, remove_file-put h.fs h.self.backup_path bytes w e) refl

-- Another instance on the same file system, as after a crash.
abbrev pub restarted : Host → Host
restarted h = record { fs = h.fs; self = with_path h.fs h.self.owner h.self.path }

-- After a crash with an override in place, for valid servers and where both files may be written,
-- a new instance for the same owner and path is active, and its `reset` succeeds, brings the
-- original content back (or removes the file if that is empty) and removes the backup.
pub reset-restarted :
    (config : DnsRouteConfig) (original : Bytes) (h : Host)
    → IsWritable h
    → All IsIp config.servers
    → IsTaken config original h
    → h.self.backup_path ≡ backup_path_for h.self.path
    → ((restarted h).self.active ≡ true)
      × (reset (restarted h) ≡ (restored original (restarted h), ok tt))
unfolding with_path exists_node
reset-restarted config original h w k t b =
    (active, reset-IsTaken config original (restarted h) writable k taken)
  where
    active : (restarted h).self.active ≡ true
    active = rw (owned_by-IsTaken config original h w k t, sym b, t.kept) refl

    writable : IsWritable (restarted h)
    writable = record {
      owner = w.owner;
      apart = rw (sym b) w.apart;
      path_writable = w.path_writable;
      backup_writable = rw (sym b) w.backup_writable;
    }

    taken : IsTaken config original (restarted h)
    taken = record { active = active; written = t.written; kept = rw (sym b) t.kept }
