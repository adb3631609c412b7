-- ===== src/Resolvconf/Verified.antt =====
-- What `Resolvconf::probe` of crates/dns-host-config/src/linux/resolvconf.rs verifies.
use dns_announce.Shared.{
  Bool, ◌≡◌, ◌≢◌, ◌↔◌, refl, sym, ap, ◌∙◌, true, false, Bool-cases, ◌⊎◌, List, [], ◌∷◌, seq_eq,
  seq_eq_iff, inl, inr, Option, none, some,
}
use dns_announce.Text.{Text, codes}
use dns_announce.Fs.{Fs, Node, absent, broken, file}
use dns_announce.Fs.Paths.{join, is_file}
use dns_announce.Net.{Bytes}
use mathlib.Core.Option
use dns_announce.Resolvconf.{Resolvconf, Result, ok, err, not_available, registration_name_for}
use dns_announce.Resolvconf.Truncation.{HostTruncates, no_truncation-HostTruncates}
use dns_announce.Resolvconf.Probe.{
  split_paths, first_file, find_in_path_str, file_name, is_resolvectl, find_in_path,
  points_at_resolvectl, truncates_nameservers_after_loopback, checked_binary, from_found,
  probe_named, probe,
}

-- The file of this name in the first directory that has one.
abbrev pub FirstFile : Fs → Text → List Text → Text → Type 0
FirstFile fs name [] binary = ⊥
FirstFile fs name (dir ∷ dirs) binary =
    (((bytes : Bytes) × (fs.node (join dir name) ≡ file bytes)) × (binary ≡ join dir name))
    ⊎ (((bytes : Bytes) → fs.node (join dir name) ≢ file bytes) × FirstFile fs name dirs binary)

is_file-cases :
    (n : Node)
    → ((is_file n ≡ true) × ((bytes : Bytes) × (n ≡ file bytes)))
      ⊎ ((is_file n ≡ false) × ((bytes : Bytes) → n ≢ file bytes))
unfolding is_file
is_file-cases (file bytes) = inl (refl, (bytes, refl))
is_file-cases absent = inr (refl, λ b e. cc)
is_file-cases broken = inr (refl, λ b e. cc)

some_injective : (x y : Text) → ◌≡◌ {A = Option Text} (some x) (some y) → x ≡ y
some_injective x y e = cc

first_file-FirstFile :
    (fs : Fs) (name : Text) (dirs : List Text) (binary : Text)
    → first_file fs name dirs ≡ some binary
    → FirstFile fs name dirs binary
unfolding first_file
first_file-FirstFile fs name [] binary e = cc
first_file-FirstFile fs name (dir ∷ dirs) binary e =
    elim (is_file-cases (fs.node (join dir name))) [
      | inl (yes', at) ↦ inl (at, sym (some_injective _ _ (rw yes' at e)))
      | inr (no', other) ↦ inr (other, first_file-FirstFile fs name dirs binary (rw no' at e))
    ]

FirstFile-first_file :
    (fs : Fs) (name : Text) (dirs : List Text) (binary : Text)
    → FirstFile fs name dirs binary
    → first_file fs name dirs ≡ some binary
unfolding first_file is_file
FirstFile-first_file fs name [] binary h = absurd h
FirstFile-first_file fs name (dir ∷ dirs) binary (inl (at, e)) = rw at.1 (ap some (sym e))
FirstFile-first_file fs name (dir ∷ dirs) binary (inr (other, rest)) =
    elim (is_file-cases (fs.node (join dir name))) [
      | inl (yes', at) ↦ absurd (other at.0 at.1)
      | inr (no', _) ↦ rw no' (FirstFile-first_file fs name dirs binary rest)
    ]

-- On the search path that the environment gives.
abbrev pub FirstOnPath : Option Text → Fs → Text → Type 0
FirstOnPath path_var fs binary =
    (value : Text) × (path_var ≡ some value)
    × FirstFile fs (codes "resolvconf") (split_paths value) binary

find_in_path_iff :
    (fs : Fs) (path_var : Option Text) (binary : Text)
    → (find_in_path fs (codes "resolvconf") path_var ≡ some binary) ↔ FirstOnPath path_var fs binary
unfolding find_in_path find_in_path_str Option.bind
find_in_path_iff fs none binary = (λ e. cc, λ h. cc (h.1))
find_in_path_iff fs (some value) binary = (
  λ e. (value, refl, first_file-FirstFile fs (codes "resolvconf") (split_paths value) binary e),
  λ (v, e, h).
      ap (λ x. first_file fs (codes "resolvconf") (split_paths x)) (some_injective value v e)
      ∙ FirstFile-first_file fs (codes "resolvconf") (split_paths v) binary h,
)

none_ne_some : (x : Text) → ◌≢◌ {A = Option Text} none (some x)
none_ne_some x e = cc

on_off : (b : Bool) → b ≡ true → b ≡ false → ⊥
on_off b e f = cc

module _ (canonicalize : Text → Option Text) where
  -- The path leads to a file of the name `resolvectl`, through any links.
  abbrev pub IsShim : Text → Type 0
  IsShim binary =
      (path : Text) × (canonicalize binary ≡ some path) × (file_name path ≡ codes "resolvectl")

  points_at_resolvectl-IsShim :
      (binary : Text) → (points_at_resolvectl canonicalize binary ≡ false) ↔ ¬ IsShim binary
  unfolding points_at_resolvectl is_resolvectl
  points_at_resolvectl-IsShim binary = from (canonicalize binary) refl
    where
      from :
          (o : Option Text)
          → canonicalize binary ≡ o
          → (is_resolvectl canonicalize o ≡ false) ↔ ¬ IsShim binary
      from none e = (λ h (p, q, n). absurd (none_ne_some p (sym e ∙ q)), λ n. refl)
      from (some path) e = elim (Bool-cases (seq_eq (file_name path) (codes "resolvectl"))) [
        | inl same ↦
            (λ h. absurd (on_off _ same h), λ n. absurd (n (path, e, (seq_eq_iff _ _).0 same)))
        | inr differ ↦ (
          λ h (p, q, n).
              on_off _ ((seq_eq_iff _ _).1 (ap file_name (some_injective path p (sym e ∙ q)) ∙ n))
                h,
          λ n. differ,
        )
      ]

  -- A backend made for this owner from a binary on the search path that is no compatibility shim, on a
  -- host that keeps the whole list of nameservers.
  pub record IsVerified (path_var : Option Text) (fs : Fs) (owner : Text) (b : Resolvconf)
      : Type 0 where
    pub on_path : FirstOnPath path_var fs b.binary
    pub no_shim : ¬ IsShim b.binary
    pub keeps_all : ¬ HostTruncates fs
    pub named : b.registration_name ≡ registration_name_for owner
    pub inactive : b.active ≡ false

  abbrev made : Text → Text → Resolvconf
  made owner binary = record {
    binary = binary;
    registration_name = registration_name_for owner;
    active = false;
  }

  ok_injective : (b c : Resolvconf) → ◌≡◌ {A = Result Resolvconf} (ok b) (ok c) → b ≡ c
  ok_injective b c e = cc

  checked_binary-ok :
      (fs : Fs) (owner binary : Text) (b : Resolvconf)
      → checked_binary canonicalize fs owner binary ≡ ok b
      → (points_at_resolvectl canonicalize binary ≡ false)
        × (truncates_nameservers_after_loopback fs ≡ false)
        × (made owner binary ≡ b)
  unfolding checked_binary
  checked_binary-ok fs owner binary b e =
      elim (Bool-cases (points_at_resolvectl canonicalize binary)) [
        | inl shim ↦ absurd (err_ne_ok (rw shim at e))
        | inr real ↦ elim (Bool-cases (truncates_nameservers_after_loopback fs)) [
          | inl cut ↦ absurd (err_ne_ok (rw (real, cut) at e))
          | inr whole ↦ (real, whole, ok_injective _ b (rw (real, whole) at e))
        ]
      ]
    where
      err_ne_ok : {m : Text} → ◌≢◌ {A = Result Resolvconf} (err (not_available m)) (ok b)
      err_ne_ok q = cc

  -- `probe` succeeds with a backend exactly when it is the inactive one for this owner, its binary is the
  -- file of the name `resolvconf` in the first directory of the search path that has one, that path does
  -- not lead to a file of the name `resolvectl`, and the host's updater does not cut the list of
  -- nameservers behind a loopback address: it cannot be read, or does not mention the setting, or the
  -- last line of the defaults that assigns the setting a value assigns none of y, Y, yes, YES and Yes.
  pub probe-IsVerified :
      (path_var : Option Text) (fs : Fs) (owner : Text) (b : Resolvconf)
      → (probe canonicalize path_var fs owner ≡ ok b) ↔ IsVerified path_var fs owner b
  unfolding probe probe_named from_found checked_binary
  probe-IsVerified path_var fs owner b =
      (there (find_in_path fs (codes "resolvconf") path_var) refl, back)
    where
      there :
          (found : Option Text)
          → find_in_path fs (codes "resolvconf") path_var ≡ found
          → from_found canonicalize fs (codes "resolvconf") owner found ≡ ok b
          → IsVerified path_var fs owner b
      there none e q = cc
      there (some binary) e q =
          let c = checked_binary-ok fs owner binary b q in
          record {
            on_path =
                (find_in_path_iff fs path_var b.binary).0
                  (e ∙ ap (λ (x : Resolvconf). some x.binary) c.2);
            no_shim = (points_at_resolvectl-IsShim b.binary).0 (
                sym (ap (λ (x : Resolvconf). points_at_resolvectl canonicalize x.binary) c.2)
                ∙ c.0);
            keeps_all = (no_truncation-HostTruncates fs).0 c.1;
            named = sym (ap (λ (x : Resolvconf). x.registration_name) c.2);
            inactive = sym (ap (λ (x : Resolvconf). x.active) c.2);
          }

      back : IsVerified path_var fs owner b → probe canonicalize path_var fs owner ≡ ok b
      back v =
          rw
            (
              (find_in_path_iff fs path_var b.binary).1 v.on_path,
              (points_at_resolvectl-IsShim b.binary).1 v.no_shim,
              (no_truncation-HostTruncates fs).1 v.keeps_all,
              sym v.named,
              sym v.inactive,
            )
            refl
