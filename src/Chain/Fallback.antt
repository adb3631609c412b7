-- ===== src/Chain/Fallback.antt =====
-- The last resort of crates/dns-host-config/src/linux/chain.rs: a host where neither systemd-resolved nor
-- resolvconf can be used, from `probe` to the last `reset`.
use mathlib.Core.Path.{subst}
use dns_announce.Shared.{◌≡◌, ◌≢◌, refl, sym, ap, ◌∙◌, true, Option, none, some, List, [], ◌∷◌, All}
use dns_announce.Shared.Methods.{Result, ok}
use dns_announce.Net.{Bytes}
use dns_announce.Text.{Text, codes}
use dns_announce.Fs
use dns_announce.Fs.{Fs, IoResult, absent}
use dns_announce.StaticConf
use dns_announce.StaticConf.{Host, StaticResolvConf, backup_path_for}
use dns_announce.StaticConf.Render.{IsOwner}
use dns_announce.StaticConf.Restore.{node_of, IsWritable}
use dns_announce.StaticConf.Lifecycle.{
  AllIsIp, Reaches, here, next, set_step, reset_step, reset-Reaches, no_backup-false,
}
use dns_announce.Route.{Call, set_call, reset_call, call, calls}
use dns_announce.Chain.{
  static_resolv_conf, override_env_var, Platform, Machine, Running, Failed, Picked, static_picked,
  with_backend, try_systemd, try_resolvconf, or_static, or_resolvconf, auto_detect, overridden,
  probe, of_static, set_on, set, reset_on, reset,
}
use dns_announce.Chain.Lawful.{linux_dns_route}
use dns_announce.Chain.Priority.{probe-IsUsable}

abbrev pub CallIsIp : Call → Type 0
CallIsIp (set_call interface config) = AllIsIp config
CallIsIp reset_call = Unit {0}

module _ (platform : Platform) where
  open platform use {variable}

  -- A static backend and its files on a machine.
  abbrev pub embed : Machine platform → Host → Running platform
  embed m h = record {
    machine = record m { fs = h.fs };
    self = record { backend = static_resolv_conf h.self };
  }

  of_static-embed :
      (m : Machine platform) (r : Host × IoResult (Unit {0}))
      → (of_static platform m r).0 ≡ embed m r.0
  unfolding of_static
  of_static-embed m (h, Fs.ok x) = refl
  of_static-embed m (h, Fs.err e) = refl

  of_static-ok :
      (m : Machine platform) (r : Host × IoResult (Unit {0}))
      → r.1 ≡ Fs.ok tt
      → (of_static platform m r).1 ≡ ok tt
  unfolding of_static
  of_static-ok m (h, Fs.ok x) e = refl
  of_static-ok m (h, Fs.err x) e = cc

  -- Calls of the chain are steps of its backend.
  calls-Reaches :
      (cs : List Call) (m : Machine platform) (h : Host)
      → All CallIsIp cs
      → (h' : Host) × Reaches h h' × (calls (linux_dns_route platform) cs (embed m h) ≡ embed m h')
  unfolding calls call set set_on reset reset_on
  calls-Reaches [] m h k = (h, here, refl)
  calls-Reaches (set_call interface config ∷ cs) m h k =
      let h1 = (StaticConf.set config h).0 in
      let (h', steps, e) = calls-Reaches cs m h1 k.1 in
      (
        h',
        next (set_step config k.0 refl) steps,
        ap (calls (linux_dns_route platform) cs)
              (of_static-embed (record m { fs = h.fs }) (StaticConf.set config h))
            ∙ e,
      )
  calls-Reaches (reset_call ∷ cs) m h k =
      let h1 = (StaticConf.reset h).0 in
      let (h', steps, e) = calls-Reaches cs m h1 k.1 in
      (
        h',
        next (reset_step refl) steps,
        ap (calls (linux_dns_route platform) cs)
              (of_static-embed (record m { fs = h.fs }) (StaticConf.reset h))
            ∙ e,
      )

  abbrev pub path : Text
  path = codes "/etc/resolv.conf"

  -- Files that the fallback can work on: the original content or nothing at the path, and no backup.
  pub record IsPlain (original : Bytes) (fs : Fs) : Type 0 where
    pub at_path : fs.node path ≡ node_of original
    pub no_backup : fs.node (backup_path_for path) ≡ absent
    pub path_writable : fs.writable path ≡ true
    pub backup_writable : fs.writable (backup_path_for path) ≡ true

  -- What the last `reset` leaves.
  pub record IsRestored (original : Bytes) (fs : Fs)
      (r : Running platform × Result (Failed platform) (Unit {0})) : Type 0 where
    pub succeeds : r.1 ≡ ok tt
    pub content : r.0.machine.fs.node path ≡ node_of original
    pub backup_gone : r.0.machine.fs.node (backup_path_for path) ≡ absent
    pub others :
        (p : Text) → p ≢ path → p ≢ backup_path_for path → r.0.machine.fs.node p ≡ fs.node p

  abbrev fresh : Text → Fs → Host
  fresh owner fs = record { fs = fs; self = StaticConf.new fs owner }

  path_apart : path ≢ backup_path_for path
  unfolding backup_path_for
  path_apart e = cc

  fresh-IsRestored :
      (original : Bytes) (owner : Text) (cs : List Call) (m : Machine platform)
      → IsOwner owner
      → IsPlain original m.fs
      → All CallIsIp cs
      → IsRestored original m.fs
          (reset platform (calls (linux_dns_route platform) cs (embed m (fresh owner m.fs))))
  unfolding StaticConf.new StaticConf.with_path reset reset_on
  fresh-IsRestored original owner cs m o p k =
      let h : Host = fresh owner m.fs in
      let (h', steps, e) = calls-Reaches cs m h k in
      let w : IsWritable h = record {
        owner = o;
        apart = path_apart;
        path_writable = p.path_writable;
        backup_writable = p.backup_writable;
      } in
      let (sets, done', content, gone, others) =
        reset-Reaches original h h' w refl p.at_path p.no_backup (no_backup-false h p.no_backup)
          steps in
      let at_end = of_static-embed (record m { fs = h'.fs }) (StaticConf.reset h') in
      rw e (record {
        succeeds = of_static-ok (record m { fs = h'.fs }) (StaticConf.reset h') done';
        content = ap (λ (r : Running platform). r.machine.fs.node path) at_end ∙ content;
        backup_gone =
            ap (λ (r : Running platform). r.machine.fs.node (backup_path_for path)) at_end ∙ gone;
        others =
            λ q ne ne'. ap (λ (r : Running platform). r.machine.fs.node q) at_end ∙ others q ne ne';
      })

  or_resolvconf-none :
      (owner : Text) (r : Machine platform × Option (Picked platform))
      → r.1 ≡ none
      → try_resolvconf platform owner r.0 ≡ none
      → or_resolvconf platform owner r ≡ (r.0, static_picked platform owner r.0)
  unfolding or_resolvconf or_static
  or_resolvconf-none owner (m, some b) e e' = cc
  or_resolvconf-none owner (m, none) e e' = rw e' refl

  probe_fallback :
      (owner : Text) (m : Machine platform)
      → variable override_env_var ≡ none
      → (try_systemd platform m).1 ≡ none
      → try_resolvconf platform owner (try_systemd platform m).0 ≡ none
      → probe platform owner m ≡ (
        (try_systemd platform m).0,
        record { backend = static_picked platform owner (try_systemd platform m).0 },
      )
  unfolding probe overridden auto_detect
  probe_fallback owner m e e1 e2 =
      rw e (ap (with_backend platform) (or_resolvconf-none owner (try_systemd platform m) e1 e2))

  -- The picked backend on its host.
  abbrev pub started : Text → Machine platform → Running platform
  started owner m = record {
    machine = (probe platform owner m).0;
    self = (probe platform owner m).1;
  }

  -- Where the environment names no backend and neither systemd-resolved nor resolvconf can be used, for
  -- an owner that the marker line can carry, with a non-empty file or nothing at /etc/resolv.conf, no
  -- backup beside it and both writable: after `probe` and any sequence of `set` calls with valid servers
  -- and `reset` calls, a last `reset` succeeds, leaves at /etc/resolv.conf what was there at the start,
  -- no backup, and every other file as it was.
  pub fallback-IsRestored :
      (original : Bytes) (owner : Text) (cs : List Call) (m : Machine platform)
      → variable override_env_var ≡ none
      → (try_systemd platform m).1 ≡ none
      → try_resolvconf platform owner (try_systemd platform m).0 ≡ none
      → IsOwner owner
      → IsPlain original m.fs
      → All CallIsIp cs
      → IsRestored original m.fs
          (reset platform (calls (linux_dns_route platform) cs (started owner m)))
  fallback-IsRestored original owner cs m e e1 e2 o p k =
      let m1 : Machine platform = (try_systemd platform m).0 in
      let same : m1.fs ≡ m.fs =
        ap (λ x. x.0.fs) (sym (probe_fallback owner m e e1 e2))
        ∙ (probe-IsUsable platform owner m).0 in
      rw (probe_fallback owner m e e1 e2) (
        subst
          (λ fs.
            IsRestored original fs
              (reset platform (calls (linux_dns_route platform) cs (embed m1 (fresh owner m1.fs)))))
          same (fresh-IsRestored original owner cs m1 o (subst (IsPlain original) (sym same) p) k))
