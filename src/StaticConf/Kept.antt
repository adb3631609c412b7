-- ===== src/StaticConf/Kept.antt =====
-- crates/dns-host-config/src/linux/static_resolv_conf.rs where writes and removals may be refused: what
-- becomes of the original content.
use mathlib.Core.Path.{subst}
use dns_announce.Shared.{
  ◌≡◌, ◌≢◌, refl, sym, ap, ◌∙◌, inl, inr, Bool, true, false, List, [], ◌∷◌, All, seq_eq_refl,
}
use dns_announce.Net.{Bytes}
use dns_announce.Text.Utf8.{encode}
use dns_announce.Fs.{Fs, absent, file, ok, read_node, exists_node, node-put, node-put_ne}
use dns_announce.Config.{DnsRouteConfig}
use dns_announce.StaticConf.{
  StaticResolvConf, Host, and_then, write_m, remove_m, set_active, render, with_path,
  backup_path_for, owned_by, is_owner, back_up, original_content, set, put_back, forgive_not_found,
  restore, drop_backup, reset,
}
use dns_announce.StaticConf.Render.{IsOwner, owner_of-render}
use dns_announce.StaticConf.Restore.{node_of, restarted}
use dns_announce.StaticConf.Lifecycle.{AllIsIp}
use dns_announce.StaticConf.Acts.{
  Act, sets, resets, crashes, permits, act, act_all, SetsIps, write-cases, remove_file-cases,
  remove_file_other, owned_by-node, Ensures, and_then-Ensures,
}

module _ (original : Bytes) (start : Host) (owner : IsOwner start.self.owner)
    (apart : start.self.path ≢ start.self.backup_path)
    (named : start.self.backup_path ≡ backup_path_for start.self.path)
    (foreign : owned_by start.fs start.self.path start.self.owner ≡ false)
    (at_start : start.fs.node start.self.path ≡ node_of original) where
  -- The path holds the original content, or an override of ours while the backup holds it.
  pub data Kept (fs : Fs) : Type 0 where
    untouched : fs.node start.self.path ≡ node_of original → Kept fs
    overridden :
        (config : DnsRouteConfig)
        → AllIsIp config
        → fs.node start.self.path ≡ file (encode (render start.self.owner config original))
        → fs.node start.self.backup_path ≡ file original
        → Kept fs

  abbrev pub flagged : Bool → StaticResolvConf
  flagged b = record (start.self) { active = b }

  -- The same backend but for its flag, on files that keep the content.
  abbrev pub IsGood : Host → Type 0
  IsGood h = ((b : Bool) × (h.self ≡ flagged b)) × Kept h.fs

  pub untouched-foreign :
      (fs : Fs)
      → fs.node start.self.path ≡ node_of original
      → owned_by fs start.self.path start.self.owner ≡ false
  untouched-foreign fs e =
      owned_by-node fs start.fs start.self.path start.self.owner (e ∙ sym at_start) ∙ foreign

  pub overridden-owned :
      (fs : Fs) (config : DnsRouteConfig)
      → AllIsIp config
      → fs.node start.self.path ≡ file (encode (render start.self.owner config original))
      → owned_by fs start.self.path start.self.owner ≡ true
  unfolding owned_by is_owner
  overridden-owned fs config k e =
      rw (owner_of-render start.self.owner config original owner k fs start.self.path e)
        (seq_eq_refl start.self.owner)

  -- The content is known, and a copy of it is in the backup.
  abbrev Saved : Host → Bytes → Type 0
  Saved h bytes = (bytes ≡ original) × IsGood h × (h.fs.node start.self.backup_path ≡ file original)

  saving :
      (fs : Fs) (b : Bool) (bytes : Bytes)
      → bytes ≡ original
      → fs.node start.self.path ≡ node_of original
      → Ensures Saved IsGood (
          and_then
            (write_m start.self.backup_path bytes (record { fs = fs; self = flagged b }))
            (λ x h. (h, ok bytes)))
  saving fs b bytes e path_is = elim (write-cases fs start.self.backup_path bytes) [
    | inl written ↦ rw written (
      e,
      (
        (b, refl),
        untouched
            (node-put_ne fs start.self.backup_path start.self.path (file bytes) apart ∙ path_is),
      ),
      node-put fs start.self.backup_path (file bytes) ∙ ap file e,
    )
    | inr refused ↦ rw refused ((b, refl), untouched path_is)
  ]

  original_content-Saved :
      (fs : Fs) (b : Bool)
      → Kept fs
      → Ensures Saved IsGood (original_content (record { fs = fs; self = flagged b }))
  unfolding original_content back_up read_node exists_node
  original_content-Saved fs b (untouched e) = rw (untouched-foreign fs e, e) (from original refl)
    where
      from :
          (bytes : Bytes)
          → bytes ≡ original
          → Ensures Saved IsGood (
              back_up start.self.backup_path
                (read_node (node_of bytes))
                (record { fs = fs; self = flagged b }))
      from [] q = saving fs b [] q e
      from (x ∷ bytes) q = saving fs b (x ∷ bytes) q e
  original_content-Saved fs b (overridden config k e kept) =
      rw (overridden-owned fs config k e, kept)
        (refl, ((b, refl), overridden config k e kept), kept)

  abbrev set_from : StaticResolvConf → DnsRouteConfig → Fs → Host
  set_from self config fs = (set config (record { fs = fs; self = self })).0

  installing :
      (config : DnsRouteConfig) (h : Host) (bytes : Bytes)
      → AllIsIp config
      → Saved h bytes
      → IsGood
          (and_then
            (write_m start.self.path (encode (render start.self.owner config bytes)) h)
            (λ x. set_active true)).0
  installing config h bytes k (e, ((b, same), kept), copy) =
      elim (write-cases h.fs start.self.path (encode (render start.self.owner config bytes))) [
        | inl written ↦ rw written (
          (true, ap (λ (s : StaticResolvConf). record s { active = true }) same),
          overridden config k
              (node-put h.fs start.self.path _
                ∙ ap (λ x. file (encode (render start.self.owner config x))) e)
              (node-put_ne h.fs start.self.path start.self.backup_path _ (λ q. apart (sym q))
                ∙ copy),
        )
        | inr refused ↦ rw refused ((b, same), kept)
      ]

  set-IsGood :
      (config : DnsRouteConfig) (fs : Fs) (b : Bool)
      → AllIsIp config
      → Kept fs
      → IsGood (set config (record { fs = fs; self = flagged b })).0
  unfolding set
  set-IsGood config fs b k kept =
      and_then-Ensures Saved IsGood (original_content (record { fs = fs; self = flagged b })) _
        (original_content-Saved fs b kept) (λ h bytes saved. installing config h bytes k saved)

  dropping :
      (fs : Fs) (b : Bool)
      → fs.node start.self.path ≡ node_of original
      → IsGood (remove_m start.self.backup_path (record { fs = fs; self = flagged b })).0
  dropping fs b e =
      ((b, refl), untouched (remove_file_other fs start.self.backup_path start.self.path apart ∙ e))

  -- The content is back at the path.
  abbrev Back : Host → Unit {0} → Type 0
  Back h x = ((b : Bool) × (h.self ≡ flagged b)) × (h.fs.node start.self.path ≡ node_of original)

  returning :
      (fs : Fs) (b : Bool) (bytes old : Bytes)
      → bytes ≡ original
      → fs.node start.self.path ≡ file old
      → Kept fs
      → Ensures Back IsGood (put_back start.self.path bytes (record { fs = fs; self = flagged b }))
  unfolding put_back forgive_not_found
  returning fs b [] old q e kept = elim (remove_file-cases fs start.self.path old e) [
    | inl removed ↦ rw removed ((b, refl), node-put fs start.self.path absent ∙ ap node_of q)
    | inr refused ↦ rw refused ((b, refl), kept)
  ]
  returning fs b (x ∷ bytes) old q e kept = elim (write-cases fs start.self.path (x ∷ bytes)) [
    | inl written ↦ rw written ((b, refl), node-put fs start.self.path _ ∙ ap node_of q)
    | inr refused ↦ rw refused ((b, refl), kept)
  ]

  restore-IsGood :
      (fs : Fs) (b : Bool) (old : Bytes)
      → fs.node start.self.path ≡ file old
      → fs.node start.self.backup_path ≡ file original
      → Kept fs
      → IsGood (restore (record { fs = fs; self = flagged b })).0
  unfolding restore exists_node read_node
  restore-IsGood fs b old e copy kept = rw copy (
      and_then-Ensures Back IsGood
        (put_back start.self.path original (record { fs = fs; self = flagged b })) _
        (returning fs b original old refl e kept)
        (λ h x back. (
          back.0,
          untouched (remove_file_other h.fs start.self.backup_path start.self.path apart ∙ back.1),
        )))

  reset-IsGood :
      (fs : Fs) (b : Bool) → Kept fs → IsGood (reset (record { fs = fs; self = flagged b })).0
  unfolding reset drop_backup
  reset-IsGood fs false kept = ((false, refl), kept)
  reset-IsGood fs true (untouched e) = rw (untouched-foreign fs e) (dropping fs false e)
  reset-IsGood fs true (overridden config k e copy) =
      rw (overridden-owned fs config k e)
        (restore-IsGood fs false _ e copy (overridden config k e copy))

  act-IsGood :
      (a : Act) (fs : Fs) (b : Bool)
      → SetsIps a
      → Kept fs
      → IsGood (act a (record { fs = fs; self = flagged b }))
  unfolding act with_path
  act-IsGood (sets config) fs b k kept = set-IsGood config fs b k kept
  act-IsGood resets fs b k kept = reset-IsGood fs b kept
  act-IsGood crashes fs b k kept =
      let active : Bool = (restarted (record { fs = fs; self = flagged b })).self.active in
      ((active, ap (λ p. record (flagged active) { backup_path = p }) (sym named)), kept)
  act-IsGood (permits writable) fs b k (untouched e) = ((b, refl), untouched e)
  act-IsGood (permits writable) fs b k (overridden config v e copy) =
      ((b, refl), overridden config v e copy)

  pub act_all-IsGood :
      (acts : List Act) (h : Host) → All SetsIps acts → IsGood h → IsGood (act_all acts h)
  unfolding act_all
  act_all-IsGood [] h k good = good
  act_all-IsGood (a ∷ acts) h k ((b, same), kept) = act_all-IsGood acts _ k.1 (
      subst (λ self. IsGood (act a (record { fs = h.fs; self = self }))) (sym same)
        (act-IsGood a h.fs b k.0 kept))

  -- From a backend of an owner that the marker line can carry, with a path and the backup path that
  -- belongs to it, where a non-empty file that is not this owner's or nothing is at the path: after any
  -- number of `set` calls with valid servers, `reset` calls and crashes with a restart, in any order,
  -- while writes and removals may be refused at any time and for either file, so that calls fail at any
  -- point, the original content is not lost: it is at the path, or an override of ours is there and
  -- the backup holds it.
  pub act_all-Kept : (acts : List Act) → All SetsIps acts → Kept (act_all acts start).fs
  act_all-Kept acts k =
      (act_all-IsGood acts start k ((start.self.active, refl), untouched at_start)).1
