-- ===== src/Resolvconf/Registry.antt =====
-- `set` and `reset` of crates/dns-host-config/src/linux/resolvconf.rs over a command that keeps a
-- registry of entries by name, as resolvconf(8) documents for `-a` and `-d`.
use mathlib.Core.Path.{subst}
use dns_announce.Shared.{
  ℕ, Bool-cases, inl, inr, ◌≡◌, ◌≢◌, refl, ap, ◌∙◌, true, false, Option, none, some, List, [], ◌∷◌,
  map,
}
use dns_announce.Net.Display.{show_ip}
use dns_announce.Text.{Text, codes}
use dns_announce.Config.{DnsRouteConfig}
use dns_announce.StaticConf.{nameserver_lines}
use dns_announce.Resolvconf.{
  Resolvconf, Runner, Completed, io_failed, exited, Result, ok, err, result_of, run, activated, set,
  reset,
}

module _ {World : Type 0} (runner : Runner World) where
  -- What the command documents: `-a NAME` with success stores its input under the name, `-d NAME -f`
  -- with success removes that entry, and neither touches another name.
  pub record IsRegistry (entry : World → Text → Option Text) : Type 0 where
    pub adds :
        (w : World) (binary name input : Text) (stderr : List ℕ)
        → (runner w binary (codes "-a" ∷ name ∷ []) input).1 ≡ exited true stderr
        → entry (runner w binary (codes "-a" ∷ name ∷ []) input).0 name ≡ some input
    pub adds_only :
        (w : World) (binary name input other : Text)
        → other ≢ name
        → entry (runner w binary (codes "-a" ∷ name ∷ []) input).0 other ≡ entry w other
    pub deletes :
        (w : World) (binary name : Text) (stderr : List ℕ)
        → (runner w binary (codes "-d" ∷ name ∷ codes "-f" ∷ []) []).1 ≡ exited true stderr
        → entry (runner w binary (codes "-d" ∷ name ∷ codes "-f" ∷ []) []).0 name ≡ none
    pub deletes_only :
        (w : World) (binary name other : Text)
        → other ≢ name
        → entry (runner w binary (codes "-d" ∷ name ∷ codes "-f" ∷ []) []).0 other ≡ entry w other

  result_of-ok :
      (args : List Text) (c : Completed)
      → result_of args c ≡ ok tt
      → (stderr : List ℕ) × (c ≡ exited true stderr)
  unfolding result_of
  result_of-ok args (io_failed x) e = cc
  result_of-ok args (exited true stderr) e = (stderr, refl)
  result_of-ok args (exited false stderr) e = cc

  activated-ok :
      (self : Resolvconf) (w : World) (r : Result (Unit {0}))
      → (activated runner self (w, r)).1 ≡ ok tt
      → (r ≡ ok tt) × (activated runner self (w, r) ≡ ((w, record self { active = true }), ok tt))
  unfolding activated
  activated-ok self w (ok x) e = (refl, refl)
  activated-ok self w (err x) e = cc

  -- Where the command keeps its documented registry, a `set` that succeeds leaves the nameserver lines
  -- of the configuration under the backend's name and the entries of all other names as they were, and
  -- makes the backend active.
  pub set_entry :
      (entry : World → Text → Option Text) (config : DnsRouteConfig) (w : World) (self : Resolvconf)
      → IsRegistry entry
      → (set runner config (w, self)).1 ≡ ok tt
      → (entry (set runner config (w, self)).0.0 self.registration_name
          ≡ some (nameserver_lines (map show_ip config.servers)))
        × ((other : Text)
            → other ≢ self.registration_name
            → entry (set runner config (w, self)).0.0 other ≡ entry w other)
        × ((set runner config (w, self)).0.1 ≡ record self { active = true })
  unfolding set run
  set_entry entry config w self h e =
      let input = nameserver_lines (map show_ip config.servers) in
      let done' = activated-ok self _ _ e in
      let ended = result_of-ok _ _ done'.0 in
      rw done'.1 (
        h.adds w self.binary self.registration_name input ended.0 ended.1,
        λ other ne. h.adds_only w self.binary self.registration_name input other ne,
        refl,
      )

  reset_entry :
      (entry : World → Text → Option Text) (w : World) (self : Resolvconf)
      → IsRegistry entry
      → self.active ≡ true
      → (reset runner (w, self)).1 ≡ ok tt
      → (entry (reset runner (w, self)).0.0 self.registration_name ≡ none)
        × ((other : Text)
            → other ≢ self.registration_name
            → entry (reset runner (w, self)).0.0 other ≡ entry w other)
  unfolding reset run
  reset_entry entry w self h a e =
      let ended = result_of-ok _ _ (rw a at e) in
      rw a (
        h.deletes w self.binary self.registration_name ended.0 ended.1,
        λ other ne. h.deletes_only w self.binary self.registration_name other ne,
      )

  -- Where the command keeps its documented registry, a `set` and then a `reset` that both succeed leave
  -- no entry under the backend's name, and the entries of all other names as they were before the two.
  pub set-reset_entry :
      (entry : World → Text → Option Text) (config : DnsRouteConfig) (w : World) (self : Resolvconf)
      → IsRegistry entry
      → (set runner config (w, self)).1 ≡ ok tt
      → (reset runner (set runner config (w, self)).0).1 ≡ ok tt
      → (entry (reset runner (set runner config (w, self)).0).0.0 self.registration_name ≡ none)
        × ((other : Text)
            → other ≢ self.registration_name
            → entry (reset runner (set runner config (w, self)).0).0.0 other ≡ entry w other)
  set-reset_entry entry config w self h e k =
      let after = set_entry entry config w self h e in
      let w1 = (set runner config (w, self)).0.0 in
      let self1 = (set runner config (w, self)).0.1 in
      let name : self1.registration_name ≡ self.registration_name =
        ap (λ (s : Resolvconf). s.registration_name) after.2 in
      let gone = reset_entry entry w1 self1 h (ap (λ (s : Resolvconf). s.active) after.2) k in
      (
        subst (λ n. entry (reset runner (w1, self1)).0.0 n ≡ none) name gone.0,
        λ other ne. gone.1 other (λ q. ne (q ∙ name)) ∙ after.1 other ne,
      )

  -- After a `reset`, whatever became of the command, a second one succeeds and changes nothing.
  pub reset_twice :
      (w : World) (self : Resolvconf)
      → reset runner (reset runner (w, self)).0 ≡ ((reset runner (w, self)).0, ok tt)
  unfolding reset
  reset_twice w self = elim (Bool-cases self.active) [ inl on ↦ rw on refl | inr off ↦ rw off refl ]
