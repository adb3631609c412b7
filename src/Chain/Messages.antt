-- ===== src/Chain/Messages.antt =====
-- The texts of the errors of crates/dns-host-config/src/linux/chain.rs.
use dns_announce.Shared.{◌≡◌, refl, sym, ap, ◌∙◌, [], ◌∷◌, ◌==◌, if◌then◌else◌}
use dns_announce.Text.{Text}
use dns_announce.Fs.{ErrorKind}
use dns_announce.StaticConf
use dns_announce.Resolvconf
use dns_announce.Resolvconf.{not_available, io, command_failed}
use dns_announce.Resolved
use dns_announce.Chain.{Error, systemd_resolved, resolvconf, static_resolv_conf, fmt}

-- The backend of an error.
pub data Origin : Type 0 where
  bus_origin command_origin file_origin : Origin

abbrev pub origin : {F : Type 0} → Error F → Origin
origin (systemd_resolved e) = bus_origin
origin (resolvconf e) = command_origin
origin (static_resolv_conf e) = file_origin

module _ {F : Type 0} (failure_text : F → Text) (io_text : ErrorKind → Text) where
  -- The backend that the first letters of a text name.
  abbrev named : Text → Origin
  named [] = file_origin
  named (c ∷ []) = file_origin
  named (c ∷ d ∷ rest) =
      if c == b'r' then command_origin else if d == b'y' then bus_origin else file_origin

  named-origin : (e : Error F) → named (fmt failure_text io_text e) ≡ origin e
  unfolding fmt Resolved.fmt Resolvconf.fmt StaticConf.fmt
  named-origin (systemd_resolved (Resolved.not_available m)) = refl
  named-origin (systemd_resolved (Resolved.dbus f)) = refl
  named-origin (resolvconf (not_available m)) = refl
  named-origin (resolvconf (io e)) = refl
  named-origin (resolvconf (command_failed args stderr)) = refl
  named-origin (static_resolv_conf (StaticConf.io e)) = refl

  -- Two errors with the same text come from the same backend.
  pub fmt-origin :
      (e e' : Error F)
      → fmt failure_text io_text e ≡ fmt failure_text io_text e'
      → origin e ≡ origin e'
  fmt-origin e e' same = sym (named-origin e) ∙ ap named same ∙ named-origin e'
