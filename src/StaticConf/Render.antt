-- ===== src/StaticConf/Render.antt =====
-- What `render` of crates/dns-host-config/src/linux/static_resolv_conf.rs writes, read back.
use mathlib.Core.Option
use dns_announce.Shared.{
  ◌≡◌, ◌≢◌, refl, sym, ap, ◌∙◌, inl, Bool, true, false, not, Option, none, some, List, [], ◌∷◌,
  ◌++◌, arith, All, All-append, append_assoc, append-nil, if◌then◌else◌, map, is_empty,
}
use dns_announce.Net.{Bytes, IpAddr}
use dns_announce.Net.Display.{show_ip, show_ip-IsWord, IsWord, IsWord-All, IsIp, IsPlain}
use dns_announce.Text.{Text, codes}
use dns_announce.Text.Utf8.{
  IsChar, encode, decode_lossy, decode-encode, decode_lossy-encode, decode_lossy-IsChar,
}
use dns_announce.Text.Lines.{
  is_whitespace, lines, strip_prefix-append, NoSpace, IsName, IsLine, strip_cr, lines-cons, trim,
  first_word, lines_from,
}
use dns_announce.Text.Chars.{OptionAll, lines-All, trim-All, first_word-All, strip_prefix-All}
use dns_announce.Fs.{Fs, file, read_to_string, read_to_string-file}
use dns_announce.Config.{DnsRouteConfig}
use dns_announce.StaticConf.{
  marker_prefix, marker_line, nameserver_lines, nameserver_of, keep_some, nameservers,
  parse_nameservers, render, current_owner, owner_of_line, first,
}
use dns_announce.StaticConf.Words.{
  nameserver_of-marker, nameservers-nameserver_lines, parse_nameservers-IsName,
}

-- An owner that its marker line can carry: code points, no newline, and no carriage return at the end.
pub record IsOwner (owner : Text) : Type 0 where
  pub chars : All IsChar owner
  pub no_newline : All (λ c. c ≢ b'\n') owner
  pub no_final_cr : strip_cr (marker_prefix ++ owner) ≡ marker_prefix ++ owner

marker-IsLine : (owner : Text) → IsOwner owner → IsLine (marker_prefix ++ owner)
marker-IsLine owner h =
    (All-append (λ c. c ≢ b'\n') marker_prefix owner (omega arith) h.no_newline, h.no_final_cr)

lines-marker_line :
    (owner rest : Text)
    → IsOwner owner
    → lines (marker_line owner ++ rest) ≡ (marker_prefix ++ owner) ∷ lines rest
unfolding marker_line
lines-marker_line owner rest h =
    ap (λ (t : Text). lines (marker_prefix ++ t)) (append_assoc owner (b'\n' ∷ []) rest)
    ∙ ap lines (sym (append_assoc marker_prefix owner (b'\n' ∷ rest)))
    ∙ lines-cons (marker_prefix ++ owner) rest (marker-IsLine owner h)

plain_NoSpace : (s : Text) → All IsPlain s → NoSpace s
plain_NoSpace [] h = tt
plain_NoSpace (c ∷ s) h = (unfold is_whitespace in ground arith, plain_NoSpace s h.1)

IsWord-IsName : (s : Text) → IsWord s → IsName s
IsWord-IsName [] h = absurd h
IsWord-IsName (c ∷ s) h = (λ e. cc, plain_NoSpace (c ∷ s) h)

servers-IsName : (ips : List IpAddr) → All IsIp ips → All IsName (map show_ip ips)
servers-IsName [] h = tt
servers-IsName (ip ∷ ips) h =
    (IsWord-IsName (show_ip ip) (show_ip-IsWord ip h.0), servers-IsName ips h.1)

-- The addresses that a resolver is to try after ours.
abbrev pub fallback : DnsRouteConfig → Bytes → List Text
fallback config original =
    if not (is_empty config.routing_domains) then parse_nameservers original else []

nameservers-marker_line :
    (owner rest : Text)
    → IsOwner owner
    → nameservers (lines (marker_line owner ++ rest)) ≡ nameservers (lines rest)
unfolding nameservers
nameservers-marker_line owner rest h =
    ap nameservers (lines-marker_line owner rest h)
    ∙ ap (λ (o : Option Text). keep_some o (nameservers (lines rest))) (nameserver_of-marker owner)
    ∙ (unfold keep_some in refl)

nameservers_nil : nameservers (lines []) ≡ []
unfolding lines lines_from nameservers
nameservers_nil = refl

nameservers-some_lines :
    (b : Bool) (ws : List Text)
    → All IsName ws
    → nameservers (lines (if b then nameserver_lines ws else [])) ≡ (if b then ws else [])
nameservers-some_lines false ws h = nameservers_nil
nameservers-some_lines true ws h =
    ap (λ (t : Text). nameservers (lines t)) (sym (append-nil (nameserver_lines ws)))
    ∙ nameservers-nameserver_lines ws [] h
    ∙ ap (◌++◌ ws) nameservers_nil
    ∙ append-nil ws

parse_nameservers-encode :
    (s : Text) → All IsChar s → parse_nameservers (encode s) ≡ nameservers (lines s)
unfolding parse_nameservers
parse_nameservers-encode s h = ap (λ (t : Text). nameservers (lines t)) (decode_lossy-encode s h)

-- Read back by `parse_nameservers`, the text that `render` writes for valid server addresses gives our
-- servers first, in order, and then, with routing domains, the nameservers of the original content in
-- their order; without routing domains ours alone.
render_body :
    (owner : Text) (config : DnsRouteConfig) (original : Bytes)
    → IsOwner owner
    → All IsIp config.servers
    → nameservers (lines (render owner config original))
      ≡ map show_ip config.servers ++ fallback config original
unfolding render
render_body owner config original h k =
    nameservers-marker_line owner _ h
    ∙ nameservers-nameserver_lines (map show_ip config.servers) _ (servers-IsName config.servers k)
    ∙ ap (◌++◌ (map show_ip config.servers)) (
        nameservers-some_lines (not (is_empty config.routing_domains)) (parse_nameservers original)
          (parse_nameservers-IsName original))

bind-All : (o : Option Text) → OptionAll IsChar o → OptionAll IsChar (Option.bind o first_word)
unfolding Option.bind
bind-All none h = tt
bind-All (some s) h = first_word-All IsChar s h

keep_some-IsChar :
    (o : Option Text) (rest : List Text)
    → OptionAll IsChar o
    → All (All IsChar) rest
    → All (All IsChar) (keep_some o rest)
unfolding keep_some
keep_some-IsChar none rest h k = k
keep_some-IsChar (some w) rest h k = (h, k)

nameservers-IsChar : (ls : List Text) → All (All IsChar) ls → All (All IsChar) (nameservers ls)
unfolding nameservers nameserver_of
nameservers-IsChar [] h = tt
nameservers-IsChar (l ∷ ls) h =
    keep_some-IsChar (nameserver_of l) (nameservers ls)
      (bind-All _ (strip_prefix-All IsChar (codes "nameserver") (trim l) (trim-All IsChar l h.0)))
      (nameservers-IsChar ls h.1)

parse_nameservers-IsChar : (content : Bytes) → All (All IsChar) (parse_nameservers content)
unfolding parse_nameservers
parse_nameservers-IsChar content =
    nameservers-IsChar (lines (decode_lossy content))
      (lines-All IsChar (decode_lossy content) (decode_lossy-IsChar content))

nameserver_lines-IsChar : (ws : List Text) → All (All IsChar) ws → All IsChar (nameserver_lines ws)
unfolding nameserver_lines
nameserver_lines-IsChar [] h = tt
nameserver_lines-IsChar (w ∷ ws) h =
    All-append IsChar (codes "nameserver ") _ (omega arith)
      (All-append IsChar w _ h.0 (omega arith, nameserver_lines-IsChar ws h.1))

plain_IsChar : (s : Text) → All IsPlain s → All IsChar s
plain_IsChar [] h = tt
plain_IsChar (c ∷ s) h = (inl (omega arith), plain_IsChar s h.1)

servers-IsChar : (ips : List IpAddr) → All IsIp ips → All (All IsChar) (map show_ip ips)
servers-IsChar [] h = tt
servers-IsChar (ip ∷ ips) h = (
  plain_IsChar (show_ip ip) (IsWord-All (show_ip ip) (show_ip-IsWord ip h.0)),
  servers-IsChar ips h.1,
)

some_lines-IsChar :
    (b : Bool) (ws : List Text)
    → All (All IsChar) ws
    → All IsChar (if b then nameserver_lines ws else [])
some_lines-IsChar false ws h = tt
some_lines-IsChar true ws h = nameserver_lines-IsChar ws h

render-IsChar :
    (owner : Text) (config : DnsRouteConfig) (original : Bytes)
    → IsOwner owner
    → All IsIp config.servers
    → All IsChar (render owner config original)
unfolding render marker_line
render-IsChar owner config original h k =
    All-append IsChar (marker_prefix ++ (owner ++ (b'\n' ∷ []))) _
      (All-append IsChar marker_prefix _ (omega arith)
        (All-append IsChar owner _ h.chars (omega arith)))
      (All-append IsChar (nameserver_lines (map show_ip config.servers)) _
        (nameserver_lines-IsChar _ (servers-IsChar config.servers k))
        (some_lines-IsChar (not (is_empty config.routing_domains)) (parse_nameservers original)
          (parse_nameservers-IsChar original)))

-- The text of a file that `render` wrote.
read-render :
    (owner : Text) (config : DnsRouteConfig) (original : Bytes)
    → IsOwner owner
    → All IsIp config.servers
    → (fs : Fs) (path : Text) → fs.node path ≡ file (encode (render owner config original))
    → read_to_string fs path ≡ some (render owner config original)
read-render owner config original h k fs path e =
    read_to_string-file fs path _ e ∙ decode-encode _ (render-IsChar owner config original h k)

first-render :
    (owner : Text) (config : DnsRouteConfig) (original : Bytes)
    → IsOwner owner
    → first (lines (render owner config original)) ≡ some (marker_prefix ++ owner)
unfolding render
first-render owner config original h = ap first (lines-marker_line owner _ h)

-- A file that holds what `render` wrote for an owner that its marker line can carry and valid server
-- addresses belongs to that owner: `current_owner` reads exactly it, whatever the original content was.
pub owner_of-render :
    (owner : Text) (config : DnsRouteConfig) (original : Bytes)
    → IsOwner owner
    → All IsIp config.servers
    → (fs : Fs) (path : Text) → fs.node path ≡ file (encode (render owner config original))
    → current_owner fs path ≡ some owner
unfolding current_owner owner_of_line Option.bind
owner_of-render owner config original h k fs path e =
    rw (read-render owner config original h k fs path e, first-render owner config original h)
      (strip_prefix-append marker_prefix owner)

-- `parse_nameservers` reads, from the bytes that `render` writes for an owner that the marker line can
-- carry and valid server addresses, our servers first and in order, and then, when there are routing
-- domains, the nameservers of the original content in their order; without routing domains, our
-- servers alone.
pub parse_nameservers-render :
    (owner : Text) (config : DnsRouteConfig) (original : Bytes)
    → IsOwner owner
    → All IsIp config.servers
    → parse_nameservers (encode (render owner config original))
      ≡ map show_ip config.servers ++ fallback config original
parse_nameservers-render owner config original h k =
    parse_nameservers-encode (render owner config original)
      (render-IsChar owner config original h k)
    ∙ render_body owner config original h k
