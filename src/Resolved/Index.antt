-- ===== src/Resolved/Index.antt =====
-- `ifindex` of crates/dns-host-config/src/linux/systemd_resolved.rs against the integers that a text
-- denotes.
use dns_announce.Shared.{◌≡◌, ◌↔◌, refl, ap, ◌∙◌, Option, none, some, All}
use dns_announce.Shared.Methods.{Result, ok}
use dns_announce.Text.{Text, codes}
use dns_announce.Text.Utf8.{encode, IsChar, decode-encode}
use dns_announce.Text.Lines.{trim}
use dns_announce.Text.Integer.{ℤ, parse_i32, Denotes, parse_i32_iff}
use dns_announce.Fs
use dns_announce.Fs.{Fs, file, IoResult, read_node, text_or_error, read_text_node, read_text}
use dns_announce.Fs.Paths.{join}
use dns_announce.Resolved.{Error, System, parsed, read_index, ifindex}

pub read_text-encode :
    (fs : Fs) (path s : Text)
    → fs.node path ≡ file (encode s)
    → All IsChar s
    → read_text fs path ≡ Fs.ok s
unfolding read_node text_or_error read_text_node
read_text-encode fs path s e h = rw (e, decode-encode s h) refl

text_injective : (s t : Text) → ◌≡◌ {A = IoResult Text} (Fs.ok s) (Fs.ok t) → s ≡ t
text_injective s t e = cc

module _ {Failure : Type 0} (sys : System) where
  ok_injective : (i k : ℤ) → ◌≡◌ {A = Result (Error Failure) ℤ} (ok i) (ok k) → i ≡ k
  ok_injective i k e = cc

  parsed-ok :
      (path : Text) (o : Option ℤ) (k : ℤ)
      → parsed {Failure = Failure} sys path o ≡ ok k
      → o ≡ some k
  unfolding parsed
  parsed-ok path (some i) k e = ap some (ok_injective i k e)
  parsed-ok path none k e = cc

  read_index-Denotes :
      (path : Text) (r : IoResult Text) (k : ℤ)
      → (read_index {Failure = Failure} sys path r ≡ ok k)
        ↔ ((s : Text) × (r ≡ Fs.ok s) × Denotes (trim s) k)
  unfolding read_index parsed
  read_index-Denotes path (Fs.ok raw) k = (
    λ e. (raw, refl, (parse_i32_iff (trim raw) k).0 (parsed-ok path (parse_i32 (trim raw)) k e)),
    λ (s, e, d).
        ap (λ x. parsed {Failure = Failure} sys path (parse_i32 (trim x))) (text_injective raw s e)
        ∙ ap (parsed {Failure = Failure} sys path) ((parse_i32_iff (trim s) k).1 d),
  )
  read_index-Denotes path (Fs.err x) k = (λ e. cc, λ d. cc)

  -- `ifindex` succeeds with an index exactly when the interface's `ifindex` file can be read as text and
  -- that, without the white space around it, denotes the index as a signed 32-bit decimal integer.
  pub ifindex-Denotes :
      (sys_class_net interface : Text) (k : ℤ)
      → (ifindex {Failure = Failure} sys sys_class_net interface ≡ ok k) ↔ (
          (s : Text) × (read_text sys.fs (join (join sys_class_net interface) (codes "ifindex"))
            ≡ Fs.ok s)
          × Denotes (trim s) k)
  unfolding ifindex
  ifindex-Denotes sys_class_net interface k = read_index-Denotes _ _ k
