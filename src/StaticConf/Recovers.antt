-- ===== src/StaticConf/Recovers.antt =====
-- crates/dns-host-config/src/linux/static_resolv_conf.rs once writes are no longer refused.
use mathlib.Core.Path.{subst}
use dns_announce.Shared.{◌≡◌, ◌≢◌, refl, sym, ◌∙◌, Bool, true, false, ◌&&◌, List, All}
use dns_announce.Net.{Bytes}
use dns_announce.Text.Utf8.{encode}
use dns_announce.Fs.{
  Fs, Node, absent, broken, file, ok, read_node, exists_node, node-put, node-put_ne, file-ne_broken,
}
use dns_announce.Config.{DnsRouteConfig}
use dns_announce.StaticConf.{Host, backup_path_for, owned_by, render, original_content, set, reset}
use dns_announce.StaticConf.Render.{IsOwner}
use dns_announce.StaticConf.Restore.{
  node_of, IsWritable, IsTaken, installed, saved, set-first, set-installed, installed-IsTaken,
  reset-IsTaken,
}
use dns_announce.StaticConf.Lifecycle.{AllIsIp, put-IsWritable}
use dns_announce.StaticConf.Acts.{Act, act_all, SetsIps}
use dns_announce.StaticConf.Kept.{
  Kept, untouched, overridden, untouched-foreign, overridden-owned, act_all-IsGood,
}

-- A `set` and a `reset` behind it both succeed and bring the content back.
pub record Recovers (config : DnsRouteConfig) (original : Bytes) (h : Host) : Type 0 where
  pub set_ok : (set config h).1 ≡ ok tt
  pub reset_ok : (reset (set config h).0).1 ≡ ok tt
  pub back : (reset (set config h).0).0.fs.node h.self.path ≡ node_of original
  pub no_backup : (reset (set config h).0).0.fs.node h.self.backup_path ≡ absent

-- A `set` that puts its override in place can be reset.
IsTaken-Recovers :
    (config : DnsRouteConfig) (original : Bytes) (h h' : Host)
    → AllIsIp config
    → set config h ≡ (h', ok tt)
    → IsTaken config original h'
    → IsWritable h'
    → h'.self.path ≡ h.self.path
    → h'.self.backup_path ≡ h.self.backup_path
    → Recovers config original h
IsTaken-Recovers config original h h' k e t w p q =
    let done' = reset-IsTaken config original h' w k t in
    record {
      set_ok = rw e refl;
      reset_ok = rw (e, done') refl;
      back =
          rw (e, done', ← p)
            (node-put_ne _ h'.self.backup_path h'.self.path absent w.apart
              ∙ node-put h'.fs h'.self.path (node_of original));
      no_backup = rw (e, done', ← q) (node-put _ h'.self.backup_path absent);
    }

module _ (original : Bytes) (start : Host) (owner : IsOwner start.self.owner)
    (apart : start.self.path ≢ start.self.backup_path)
    (named : start.self.backup_path ≡ backup_path_for start.self.path)
    (foreign : owned_by start.fs start.self.path start.self.owner ≡ false)
    (at_start : start.fs.node start.self.path ≡ node_of original) where
  and_off : (b c : Bool) → b ≡ false → (b && c) ≡ false
  and_off true c e = cc
  and_off false c e = refl

  from_kept :
      (config : DnsRouteConfig) (fs : Fs) (b : Bool)
      → AllIsIp config
      → fs.writable start.self.path ≡ true
      → fs.writable start.self.backup_path ≡ true
      → fs.node start.self.backup_path ≢ broken
      → Kept original start owner apart named foreign at_start fs
      → Recovers config original (record { fs = fs; self = record (start.self) { active = b } })
  unfolding original_content read_node exists_node
  from_kept config fs b k p q ne kept = from kept
    where
      h : Host
      h = record { fs = fs; self = record (start.self) { active = b } }

      w : IsWritable h
      w = record { owner = owner; apart = apart; path_writable = p; backup_writable = q }

      n : Node
      n = file (encode (render start.self.owner config original))

      from : Kept original start owner apart named foreign at_start fs → Recovers config original h
      from (untouched e) =
          let done' = set-first config original h w (
            and_off _ _ (untouched-foreign original start owner apart named foreign at_start fs e),
            ne,
            e,
          ) in
          IsTaken-Recovers config original h _ k done'.0 done'.1
            (put-IsWritable (saved original h) true start.self.path n
              (put-IsWritable h b start.self.backup_path (file original) w))
            refl refl
      from (overridden before v e copy) =
          let read' : original_content h ≡ (h, ok original) =
            rw
              (
                overridden-owned original start owner apart named foreign at_start fs before v e,
                copy,
              )
              refl in
          IsTaken-Recovers config original h (installed config original h) k
            (set-installed config original h fs read' p (file-ne_broken fs start.self.path _ e))
            (installed-IsTaken config original h apart copy)
            (put-IsWritable h true start.self.path n w) refl refl

  -- From a backend of an owner that the marker line can carry, with a path and the backup path that
  -- belongs to it, where a non-empty file that is not this owner's or nothing is at the path: after any
  -- number of `set` calls with valid servers, `reset` calls and crashes with a restart, in any order,
  -- any of which may have failed on refused writes, once both files may be written and the backup is
  -- not a directory, a `set` with valid servers succeeds, and so does a `reset` behind it, which leaves
  -- at the path what was there at the start, and no backup.
  pub act_all-Recovers :
      (acts : List Act) (config : DnsRouteConfig)
      → All SetsIps acts
      → AllIsIp config
      → (act_all acts start).fs.writable start.self.path ≡ true
      → (act_all acts start).fs.writable start.self.backup_path ≡ true
      → (act_all acts start).fs.node start.self.backup_path ≢ broken
      → Recovers config original (act_all acts start)
  act_all-Recovers acts config k v p q ne =
      let h = act_all acts start in
      let ((b, same), kept) =
        act_all-IsGood original start owner apart named foreign at_start acts start k
          ((start.self.active, refl), untouched at_start) in
      subst (λ self. Recovers config original (record { fs = h.fs; self = self })) (sym same)
        (from_kept config h.fs b v p q ne kept)
