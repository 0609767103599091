-- ===== src/Policy/Target.antt =====
-- internal/policy/target.go: destinations, and their one normal form.
pub mod Normal
pub mod Canonical
use boks.Prelude.{
  ℕ, Bool, not, ◌&&◌, ◌||◌, Option, none, some, List, [], ◌∷◌, ◌++◌, ltb, leb, ◌==◌, if◌then◌else◌,
  is_some, length, drop, any, all, err, ok, ◌>>=◌, ◌>>◌,
}
use boks.Strings.{
  Text, codes, is_empty, trim_space, to_lower, byte_length, cut_prefix, has_prefix, has_suffix,
  contains, count, split, cut,
}
use boks.Strings.Decimal.{ℤ, pos, negsuc, itoa, atoi}
use boks.Netip.{Addr, canonical_addr, is6, is4in6, Netip}
use boks.Policy.Error.{
  empty_destination, unclosed_bracket, trailing_text, not_a_number, port_out_of_range, empty_host,
  host_too_long, not_ascii, empty_label, label_too_long, bad_character, Outcome,
}

pub record Target : Type 0 where
  pub host : Text
  pub addr : Option Addr
  pub port : ℕ

unfoldable pub is_ip : Target → Bool
is_ip t = is_some t.addr

unfoldable pub after_bracket : Text → Text → Outcome (Text × Text)
after_bracket host [] = ok (host, [])
after_bracket host (c ∷ rest) = if c == b':' then ok (host, rest) else err trailing_text

unfoldable pub bracketed : Text → Outcome (Text × Text)
unfolding after_bracket
bracketed s = elim (cut b']' s) [
  | none ↦ err unclosed_bracket
  | some (host, rest) ↦ after_bracket host rest
]

unfoldable pub unbracketed : Text → Outcome (Text × Text)
unbracketed s =
    if count b':' s == 1
    then (elim (cut b':' s) [ none ↦ ok (s, []) | some (host, port) ↦ ok (host, port) ])
    else ok (s, [])

-- The port is empty where none is written.
unfoldable pub split_host_port : Text → Outcome (Text × Text)
split_host_port hostport =
    let s = trim_space hostport in
    if is_empty s
    then err empty_destination
    else elim (cut_prefix s (codes "[")) [ some rest ↦ bracketed rest | none ↦ unbracketed s ]

unfoldable pub is_host_char : ℕ → Bool
is_host_char c = (leb b'a' c && leb c b'z') || (leb b'0' c && leb c b'9') || c == b'-' || c == b'_'

unfoldable pub valid_label : Text → Outcome (Unit {0})
unfolding is_host_char
valid_label label =
    if is_empty label
    then err empty_label
    else if ltb 63 (byte_length label)
    then err label_too_long
    else if all is_host_char label
    then ok tt
    else err bad_character

unfoldable pub valid_labels : List Text → Outcome (Unit {0})
unfolding valid_label
valid_labels [] = ok tt
valid_labels (label ∷ labels) = valid_label label >> valid_labels labels

unfoldable pub valid_hostname : Text → Outcome (Unit {0})
unfolding valid_labels
valid_hostname h =
    if ltb 253 (byte_length h)
    then err host_too_long
    else if any (λ r. ltb 127 r) h
    then err not_ascii
    else valid_labels (split b'.' h)

abbrev pub drop_last : Text → Text
drop_last [] = []
drop_last (c ∷ []) = []
drop_last (c ∷ d ∷ s) = c ∷ drop_last (d ∷ s)

unfoldable pub strip_brackets : Text → Text
strip_brackets h =
    if has_prefix h (codes "[") && has_suffix h (codes "]") && ltb 2 (length h)
    then drop_last (drop 1 h)
    else h

-- one trailing dot, the root of the DNS
unfoldable pub strip_root : Text → Text
strip_root h =
    if has_suffix h (codes ".") && not (has_suffix h (codes "..")) then drop_last h else h

abbrev pub in_port_range : ℕ → Bool
in_port_range n = leb 1 n && leb n 65535

unfoldable pub check_port : ℤ → Outcome ℕ
check_port (pos n) = if in_port_range n then ok n else err port_out_of_range
check_port (negsuc n) = err port_out_of_range

module _ (net : Netip) where
  unfoldable pub classify_host : Text → Outcome (Text × Option Addr)
  unfolding valid_hostname canonical_addr
  classify_host h = elim (net.parse_addr h) [
    | some a ↦ ok (net.addr_text (canonical_addr a), some (canonical_addr a))
    | none ↦ valid_hostname h >> ok (h, none)
  ]

  -- The lower case comes before the test for ASCII.
  unfoldable pub normalize_host : Text → Outcome (Text × Option Addr)
  unfolding strip_brackets strip_root classify_host
  normalize_host host =
      let h = strip_brackets (trim_space host) in
      if is_empty h then err empty_host else classify_host (to_lower (strip_root h))

  unfoldable pub new_target : Text → ℤ → Outcome Target
  unfolding normalize_host check_port
  new_target host port = do
    p ← check_port port
    (h, a) ← normalize_host host
    ok (record { host = h; addr = a; port = p })

  unfoldable pub port_or : Text → ℤ → Outcome ℤ
  port_or text default_port =
      if is_empty text
      then ok default_port
      else elim (atoi text) [ some n ↦ ok n | none ↦ err not_a_number ]

  unfoldable pub parse_target : Text → ℤ → Outcome Target
  unfolding split_host_port port_or new_target
  parse_target hostport default_port = do
    (host, text) ← split_host_port hostport
    port ← port_or text default_port
    new_target host port

  -- `ProbeTarget`; `none` where the source answers false
  unfoldable pub probe_target : Text → Option Target
  unfolding split_host_port port_or new_target
  probe_target spec = elim (split_host_port spec) [
    | err e ↦ none
    | ok (host, text) ↦
        if contains b'*' host || contains b'/' host
        then none
        else (elim (port_or text (pos 443) >>= new_target host) [ ok t ↦ some t | err e ↦ none ])
  ]

  -- `TargetFromAddr` of an address and a 16-bit port
  unfoldable pub target_from_addr : Addr → ℕ → Target
  unfolding canonical_addr
  target_from_addr a port = record {
    host = net.addr_text (canonical_addr a);
    addr = some (canonical_addr a);
    port = port;
  }

-- `Target.String`
unfoldable pub target_text : Target → Text
target_text t =
    let plain = t.host ++ codes ":" ++ itoa t.port in
    elim t.addr [
      | none ↦ plain
      | some a ↦
          if is6 a && not (is4in6 a)
          then codes "[" ++ t.host ++ codes "]:" ++ itoa t.port
          else plain
    ]
