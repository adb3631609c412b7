-- ===== src/StaticConf/Acts.antt =====
-- What may happen to the files of crates/dns-host-config/src/linux/static_resolv_conf.rs, where writes and
-- removals may be refused.
use dns_announce.Shared.{◌≡◌, ◌≢◌, refl, ap, ◌∙◌, ◌⊎◌, inl, inr, Bool, List, [], ◌∷◌, Bool-cases}
use dns_announce.Net.{Bytes}
use dns_announce.Text.{Text}
use dns_announce.Fs.{
  Fs, Node, absent, broken, file, other_error, IoResult, ok, err, put, read_node, read_to_string,
  text_of, write, write_node, remove_file, remove_node, node-put_ne,
}
use dns_announce.Config.{DnsRouteConfig}
use mathlib.Core.Option
use dns_announce.Text.Lines.{lines}
use dns_announce.StaticConf.{
  first, owner_of_line, Host, M, and_then, current_owner, owned_by, is_owner, set, reset,
}
use dns_announce.StaticConf.Restore.{restarted}
use dns_announce.StaticConf.Lifecycle.{AllIsIp}

-- What may happen to a host: calls, a crash with a restart, and a change of which files may be written.
pub data Act : Type 0 where
  sets : DnsRouteConfig → Act
  resets crashes : Act
  permits : (Text → Bool) → Act

unfoldable pub act : Act → Host → Host
act (sets config) h = (set config h).0
act resets h = (reset h).0
act crashes h = restarted h
act (permits writable) h = record h { fs = record (h.fs) { writable = writable } }

unfoldable pub act_all : List Act → Host → Host
act_all [] h = h
act_all (a ∷ acts) h = act_all acts (act a h)

abbrev pub SetsIps : Act → Type 0
SetsIps (sets config) = AllIsIp config
SetsIps resets = Unit {0}
SetsIps crashes = Unit {0}
SetsIps (permits writable) = Unit {0}

-- A write or a removal happens or leaves everything as it was.
pub write-cases :
    (fs : Fs) (p : Text) (bytes : Bytes)
    → (write fs p bytes ≡ (put fs p (file bytes), ok tt))
      ⊎ (write fs p bytes ≡ (fs, err other_error))
unfolding write write_node
write-cases fs p bytes = elim (Bool-cases (fs.writable p)) [
  | inr refused ↦ inr (rw refused refl)
  | inl allowed ↦ rw allowed (from (fs.node p))
]
  where
    from :
        (n : Node)
        → (write_node fs p bytes n ≡ (put fs p (file bytes), ok tt))
          ⊎ (write_node fs p bytes n ≡ (fs, err other_error))
    from absent = inl refl
    from broken = inr refl
    from (file old) = inl refl

pub remove_file-cases :
    (fs : Fs) (p : Text) (bytes : Bytes)
    → fs.node p ≡ file bytes
    → (remove_file fs p ≡ (put fs p absent, ok tt)) ⊎ (remove_file fs p ≡ (fs, err other_error))
unfolding remove_file remove_node
remove_file-cases fs p bytes e = elim (Bool-cases (fs.writable p)) [
  | inl allowed ↦ inl (ap (remove_node fs p) e ∙ rw allowed refl)
  | inr refused ↦ inr (ap (remove_node fs p) e ∙ rw refused refl)
]

-- A removal changes no other path.
pub remove_file_other :
    (fs : Fs) (p other : Text) → other ≢ p → (remove_file fs p).0.node other ≡ fs.node other
unfolding remove_file remove_node
remove_file_other fs p other ne = from (fs.node p)
  where
    from : (n : Node) → (remove_node fs p n).0.node other ≡ fs.node other
    from absent = refl
    from broken = refl
    from (file bytes) = elim (Bool-cases (fs.writable p)) [
      | inl allowed ↦ rw allowed (node-put_ne fs p other absent ne)
      | inr refused ↦ rw refused refl
    ]

-- Whose file it is depends on the file alone.
pub owned_by-node :
    (fs fs' : Fs) (p owner : Text)
    → fs.node p ≡ fs'.node p
    → owned_by fs p owner ≡ owned_by fs' p owner
unfolding owned_by current_owner read_to_string
owned_by-node fs fs' p owner e =
    ap
      (λ (n : Node).
        is_owner
          (Option.bind (text_of (read_node n))
            (λ content. Option.bind (first (lines content)) owner_of_line))
          owner)
      e

-- What a call leaves behind: `P` of the host and the value, or `Q` of the host behind an error.
abbrev pub Ensures :
    {A : Type 0} → (Host → A → Type 0) → (Host → Type 0) → Host × IoResult A → Type 0
Ensures P Q (h, ok x) = P h x
Ensures P Q (h, err e) = Q h

pub and_then-Ensures :
    {A B : Type 0} (P : Host → A → Type 0) (Q : Host → Type 0) (r : Host × IoResult A) (f : A → M B)
    → Ensures P Q r
    → ((h : Host) (x : A) → P h x → Q (f x h).0)
    → Q (and_then r f).0
and_then-Ensures P Q (h, ok x) f e k = k h x e
and_then-Ensures P Q (h, err e) f q k = q
