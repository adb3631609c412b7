-- ===== src/StaticConf/Active.antt =====
-- The flag `active` of crates/dns-host-config/src/linux/static_resolv_conf.rs: what `set` and `reset`
-- make of it on any file system, errors included.
use dns_announce.Shared.{◌≡◌, refl, ap, ◌∙◌, Bool, true, false, ◌&&◌, Bool-cases, inl, inr, [], ◌∷◌}
use dns_announce.Net.{Bytes}
use dns_announce.Text.{Text}
use dns_announce.Text.Utf8.{encode}
use dns_announce.Fs.{Fs, not_found, other_error, IoResult, ok, err, read, write, exists}
use dns_announce.Config.{DnsRouteConfig}
use dns_announce.StaticConf.{
  StaticResolvConf, Host, M, and_then, ◌>>◌, with_fs, read_m, write_m, remove_m, set_active, render,
  back_up, original_content, set, put_back, forgive_not_found, restore, drop_backup, reset,
  owned_by,
}

-- The flag behind a result.
abbrev pub io_flag : Bool → IoResult (Unit {0}) → Bool
io_flag before (ok x) = true
io_flag before (err e) = before

-- What every step keeps holds behind an early return too.
and_then-keeps :
    {A B : Type 0} (P : Host → Type 0) (r : Host × IoResult A) (f : A → M B)
    → P r.0
    → ((a : A) (h : Host) → P h → P (f a h).0)
    → P (and_then r f).0
and_then-keeps P (h, ok a) f p k = k a h p
and_then-keeps P (h, err e) f p k = p

abbrev Keeps : StaticResolvConf → Host → Type 0
Keeps self h = h.self ≡ self

back_up-self : (path : Text) (r : IoResult Bytes) (h : Host) → (back_up path r h).0.self ≡ h.self
unfolding back_up
back_up-self path (ok existing) h =
    and_then-keeps (Keeps h.self) (write_m path existing h) (λ x h'. (h', ok existing)) refl
      (λ x h' p. p)
back_up-self path (err not_found) h =
    and_then-keeps (Keeps h.self) (write_m path [] h) (λ x h'. (h', ok [])) refl (λ x h' p. p)
back_up-self path (err other_error) h = refl

original_content-self : (h : Host) → (original_content h).0.self ≡ h.self
unfolding original_content
original_content-self h =
    elim (Bool-cases (owned_by h.fs h.self.path h.self.owner && exists h.fs h.self.backup_path)) [
      | inl kept ↦ rw kept refl
      | inr gone ↦ rw gone (back_up-self h.self.backup_path (read h.fs h.self.path) h)
    ]

written-active :
    (h : Host) (r : Fs × IoResult (Unit {0}))
    → (and_then (with_fs h r) (λ x. set_active true)).0.self.active
      ≡ io_flag h.self.active (and_then (with_fs h r) (λ x. set_active true)).1
written-active h (fs, ok x) = refl
written-active h (fs, err e) = refl

-- `set` makes the backend active if it succeeds, and else leaves it as it was.
pub set-active :
    (config : DnsRouteConfig) (h : Host)
    → (set config h).0.self.active ≡ io_flag h.self.active (set config h).1
unfolding set
set-active config h = from (original_content h) (original_content-self h)
  where
    rest : Bytes → M (Unit {0})
    rest original =
        write_m h.self.path (encode (render h.self.owner config original)) >> set_active true

    from :
        (r : Host × IoResult Bytes)
        → r.0.self ≡ h.self
        → (and_then r rest).0.self.active ≡ io_flag h.self.active (and_then r rest).1
    from (h', ok original) e =
        written-active h' (write h'.fs h.self.path (encode (render h.self.owner config original)))
        ∙ ap (λ (s : StaticResolvConf). io_flag s.active (rest original h').1) e
    from (h', err e) q = ap (λ (s : StaticResolvConf). s.active) q

abbrev Inactive : Host → Type 0
Inactive h = h.self.active ≡ false

forgive_self : (r : Host × IoResult (Unit {0})) → (forgive_not_found r).0 ≡ r.0
unfolding forgive_not_found
forgive_self (h, ok x) = refl
forgive_self (h, err not_found) = refl
forgive_self (h, err other_error) = refl

put_back-Inactive :
    (path : Text) (backup : Bytes) (h : Host) → Inactive h → Inactive (put_back path backup h).0
unfolding put_back
put_back-Inactive path [] h e = rw (forgive_self (remove_m path h)) e
put_back-Inactive path (b ∷ bs) h e = e

restore-Inactive : (h : Host) → Inactive h → Inactive (restore h).0
unfolding restore
restore-Inactive h e = elim (Bool-cases (exists h.fs h.self.backup_path)) [
  | inl kept ↦ rw kept (
      and_then-keeps Inactive (read_m h.self.backup_path h) _ e (λ backup h1 e1.
        and_then-keeps Inactive (put_back h.self.path backup h1) _
          (put_back-Inactive h.self.path backup h1 e1) (λ x h2 e2. e2)))
  | inr gone ↦ rw gone e
]

-- After `reset`, whatever failed in it, the backend is not active.
pub reset-Inactive : (h : Host) → (reset h).0.self.active ≡ false
unfolding reset drop_backup
reset-Inactive h = elim (Bool-cases h.self.active) [
  | inl on ↦ rw on (elim (Bool-cases (owned_by h.fs h.self.path h.self.owner)) [
    | inl ours ↦
        rw ours (restore-Inactive (record h { self = record (h.self) { active = false } }) refl)
    | inr foreign ↦ rw foreign refl
  ])
  | inr off ↦ rw off refl
]

pub reset_idle : (h : Host) → h.self.active ≡ false → reset h ≡ (h, ok tt)
unfolding reset
reset_idle h e = rw e refl
