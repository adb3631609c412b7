-- ===== src/StaticConf/Words.antt =====
-- The `nameserver` lines that crates/dns-host-config/src/linux/static_resolv_conf.rs writes, read
-- back by its own `parse_nameservers`.
use mathlib.Core.Option
use dns_announce.Shared.{
  ◌≡◌, ◌≢◌, refl, sym, ap, ◌∙◌, Option, none, some, List, [], ◌∷◌, ◌++◌, arith, All, All-append,
  append_assoc,
}
use dns_announce.Net.{Bytes}
use dns_announce.Text.{Text, codes}
use dns_announce.Text.Utf8.{decode_lossy}
use dns_announce.Text.Lines.{
  is_whitespace, lines, trim_start, trim_end_cons, trim_end, trim, some_word, first_word,
  strip_prefix, IsName, IsLine, OptionIsName, trim_start_NoSpace, trim_end-word, word_same,
  first_word-IsName, strip_cr-append, NoSpace-IsLine, lines-cons,
}
use dns_announce.StaticConf.{
  marker_prefix, nameserver_lines, nameserver_of, keep_some, nameservers, parse_nameservers,
}

-- A line of ours names its address.
nameserver_of-name : (w : Text) → IsName w → nameserver_of (codes "nameserver " ++ w) ≡ some w
unfolding nameserver_of trim Option.bind
nameserver_of-name [] h = absurd (h.0 refl)
nameserver_of-name (c ∷ w) h = rw (started, ended) found_word
  where
    line : Text
    line = codes "nameserver " ++ (c ∷ w)

    started : trim_start (codes "nameserver " ++ (c ∷ w)) ≡ codes "nameserver " ++ (c ∷ w)
    started = trim_start_NoSpace b'n' _ (unfold is_whitespace in refl)

    ended : trim_end (codes "nameserver " ++ (c ∷ w)) ≡ codes "nameserver " ++ (c ∷ w)
    ended = trim_end-word (codes "nameserver ") c w h.1

    skipped : trim_start (b' ' ∷ c ∷ w) ≡ c ∷ w
    skipped = unfold trim_start is_whitespace in rw h.1.0 refl

    found_word :
        Option.bind (strip_prefix (codes "nameserver") (codes "nameserver " ++ (c ∷ w))) first_word
        ≡ some (c ∷ w)
    found_word =
        unfold strip_prefix first_word in
        rw (skipped, word_same (c ∷ w) h.1) (unfold some_word in refl)

-- The marker line names none.
strip_marker : (t : Text) → strip_prefix (codes "nameserver") (trim_end_cons b'#' t) ≡ none
unfolding strip_prefix trim_end_cons is_whitespace
strip_marker [] = refl
strip_marker (c ∷ t) = refl

nameserver_of-comment : (t : Text) → nameserver_of (b'#' ∷ t) ≡ none
unfolding nameserver_of trim trim_end Option.bind
nameserver_of-comment t =
    rw (trim_start_NoSpace b'#' t (unfold is_whitespace in refl), strip_marker (trim_end t)) refl

pub nameserver_of-marker : (owner : Text) → nameserver_of (marker_prefix ++ owner) ≡ none
nameserver_of-marker owner = nameserver_of-comment _

named-IsLine : (w : Text) → IsName w → IsLine (codes "nameserver " ++ w)
named-IsLine [] h = absurd (h.0 refl)
named-IsLine (c ∷ w) h =
    let tail = NoSpace-IsLine c w h.1 in
    (
      All-append (λ x. x ≢ b'\n') (codes "nameserver ") (c ∷ w) (omega arith) tail.0,
      strip_cr-append (codes "nameserver ") c w tail.1,
    )

nameservers-append_line :
    (w rest : Text)
    → IsName w
    → nameservers (lines (codes "nameserver " ++ (w ++ (b'\n' ∷ rest))))
      ≡ w ∷ nameservers (lines rest)
unfolding nameservers
nameservers-append_line w rest h =
    ap nameservers (
      ap lines (sym (append_assoc (codes "nameserver ") w (b'\n' ∷ rest)))
      ∙ lines-cons (codes "nameserver " ++ w) rest (named-IsLine w h))
    ∙ ap (λ (o : Option Text). keep_some o (nameservers (lines rest))) (nameserver_of-name w h)
    ∙ (unfold keep_some in refl)

-- The lines for some addresses, read back.
pub nameservers-nameserver_lines :
    (ws : List Text) (rest : Text)
    → All IsName ws
    → nameservers (lines (nameserver_lines ws ++ rest)) ≡ ws ++ nameservers (lines rest)
unfolding nameserver_lines
nameservers-nameserver_lines [] rest h = refl
nameservers-nameserver_lines (w ∷ ws) rest h =
    rw (append_assoc w (b'\n' ∷ nameserver_lines ws) rest) (
      nameservers-append_line w (nameserver_lines ws ++ rest) h.0
      ∙ ap (◌∷◌ w) (nameservers-nameserver_lines ws rest h.1))

OptionIsName-bind : (o : Option Text) → OptionIsName (Option.bind o first_word)
unfolding Option.bind
OptionIsName-bind none = tt
OptionIsName-bind (some s) = first_word-IsName s

keep_some-IsName :
    (o : Option Text) (rest : List Text)
    → OptionIsName o
    → All IsName rest
    → All IsName (keep_some o rest)
unfolding keep_some
keep_some-IsName none rest h k = k
keep_some-IsName (some w) rest h k = (h, k)

nameservers-IsName : (ls : List Text) → All IsName (nameservers ls)
unfolding nameservers nameserver_of
nameservers-IsName [] = tt
nameservers-IsName (l ∷ ls) =
    keep_some-IsName (nameserver_of l) (nameservers ls) (OptionIsName-bind _)
      (nameservers-IsName ls)

-- What is parsed from any bytes is a list of words.
pub parse_nameservers-IsName : (content : Bytes) → All IsName (parse_nameservers content)
unfolding parse_nameservers
parse_nameservers-IsName content = nameservers-IsName (lines (decode_lossy content))
