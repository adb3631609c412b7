-- ===== src/Resolvconf/Active.antt =====
-- The flag `active` of crates/dns-host-config/src/linux/resolvconf.rs: what `set` and `reset` make of
-- it with any command.
use dns_announce.Shared.{◌≡◌, refl, Bool, true, false, Bool-cases, inl, inr}
use dns_announce.Config.{DnsRouteConfig}
use dns_announce.Resolvconf.{Resolvconf, Runner, Result, ok, err, activated, set, reset}

-- The flag behind a result.
abbrev pub result_flag : Bool → Result (Unit {0}) → Bool
result_flag before (ok x) = true
result_flag before (err e) = before

module _ {World : Type 0} (runner : Runner World) where
  activated-active :
      (self : Resolvconf) (r : World × Result (Unit {0}))
      → (activated runner self r).0.1.active ≡ result_flag self.active (activated runner self r).1
  unfolding activated
  activated-active self (w, ok x) = refl
  activated-active self (w, err e) = refl

  pub set-active :
      (config : DnsRouteConfig) (w : World) (self : Resolvconf)
      → (set runner config (w, self)).0.1.active
        ≡ result_flag self.active (set runner config (w, self)).1
  unfolding set
  set-active config w self = activated-active self _

  pub reset-Inactive : (w : World) (self : Resolvconf) → (reset runner (w, self)).0.1.active ≡ false
  unfolding reset
  reset-Inactive w self = elim (Bool-cases self.active) [
    | inl on ↦ rw on refl
    | inr off ↦ rw off refl
  ]

  pub reset_idle :
      (w : World) (self : Resolvconf)
      → self.active ≡ false
      → reset runner (w, self) ≡ ((w, self), ok tt)
  unfolding reset
  reset_idle w self e = rw e refl
