-- ===== src/Ports/Spec.antt =====
-- internal/ports/spec.go: the grammar of a publish request, and the addresses that it binds.
pub mod Loopback
use boks.Prelude.{
  ℕ, Bool, true, false, not, ◌&&◌, Option, none, some, List, [], ◌∷◌, ◌++◌, ltb, leb, ◌==◌,
  if◌then◌else◌, is_some, Result, err, ok, ◌>>=◌,
}
use boks.Strings.{
  Text, codes, text_eq, is_empty, trim_space, to_lower, cut_prefix, split, join, cut, cut_last,
}
use boks.Strings.Decimal.{ℤ, pos, negsuc, itoa, atoi}
use boks.Netip.{Addr, v4, v6, unmap, is6, Netip}

pub data Error : Type 0 where
  empty_spec unknown_protocol unclosed_bracket bad_address lone_address : Error
  not_a_number port_out_of_range too_many_fields no_host_port wrong_family : Error
  udp_not_carried no_sandbox_port shut_down already_published cannot_bind not_published : Error

abbrev pub Outcome : Type 0 → Type 0
Outcome A = Result Error A

pub data Protocol : Type 0 where
  tcp tcp4 tcp6 udp udp4 udp6 : Protocol

-- `string(p)`
unfoldable pub protocol_text : Protocol → Text
protocol_text tcp = codes "tcp"
protocol_text tcp4 = codes "tcp4"
protocol_text tcp6 = codes "tcp6"
protocol_text udp = codes "udp"
protocol_text udp4 = codes "udp4"
protocol_text udp6 = codes "udp6"

-- `Protocols`
abbrev pub protocols : List Protocol
protocols = tcp ∷ tcp4 ∷ tcp6 ∷ udp ∷ udp4 ∷ udp6 ∷ []

unfoldable pub is_udp : Protocol → Bool
is_udp udp = true
is_udp udp4 = true
is_udp udp6 = true
is_udp _ = false

-- `Protocol.family`: 0 where the protocol pins neither
unfoldable pub family : Protocol → ℕ
family tcp4 = 4
family udp4 = 4
family tcp6 = 6
family udp6 = 6
family _ = 0

unfoldable pub find_protocol : Text → List Protocol → Outcome Protocol
unfolding protocol_text
find_protocol s [] = err unknown_protocol
find_protocol s (p ∷ ps) =
    let rest = find_protocol s ps in if text_eq (protocol_text p) (to_lower s) then ok p else rest

unfoldable pub parse_protocol : Text → Outcome Protocol
unfolding find_protocol
parse_protocol s = find_protocol s protocols

pub record Spec : Type 0 where
  pub host_ip : Option Addr
  pub host_port : ℕ
  pub sandbox_port : ℕ
  pub protocol : Protocol

unfoldable pub in_range : ℤ → Outcome ℕ
in_range (pos n) = if leb 1 n && leb n 65535 then ok n else err port_out_of_range
in_range (negsuc n) = err port_out_of_range

unfoldable pub parse_port : Text → Outcome ℕ
unfolding in_range
parse_port text = elim (atoi (trim_space text)) [ none ↦ err not_a_number | some n ↦ in_range n ]

unfoldable pub split_protocol : Text → Outcome (Text × Protocol)
unfolding parse_protocol
split_protocol text = elim (cut_last b'/' text) [
  | none ↦ ok (text, tcp)
  | some (front, proto) ↦ parse_protocol proto >>= λ p. ok (front, p)
]

abbrev pub trim_colon : Text → Text
trim_colon s = elim (cut_prefix s (codes ":")) [ none ↦ s | some rest ↦ rest ]

-- the ports, from the fields between the colons: an empty host port is an ephemeral one
unfoldable pub parse_fields : List Text → Outcome (ℕ × ℕ)
unfolding parse_port
parse_fields (sandbox ∷ []) = parse_port sandbox >>= λ s. ok (0, s)
parse_fields (host ∷ sandbox ∷ []) =
    (if is_empty host then ok 0 else parse_port host) >>= λ h. parse_port sandbox >>= λ s. ok (h, s)
parse_fields _ = err too_many_fields

abbrev pub has_two {ℓ} : {A : Type ℓ} → List A → Bool
has_two (x ∷ y ∷ []) = true
has_two _ = false

-- `Spec.checkFamily`
unfoldable pub check_family : Spec → Outcome (Unit {0})
unfolding family is6
check_family s = elim s.host_ip [
  | none ↦ ok tt
  | some a ↦
      let want = family s.protocol in
      let got : ℕ = if is6 a then 6 else 4 in
      if not (want == 0) && not (want == got) then err wrong_family else ok tt
]

module _ (net : Netip) where
  unfoldable pub host_address : Text → Outcome Addr
  unfolding unmap
  host_address text = elim (net.parse_addr text) [ none ↦ err bad_address | some a ↦ ok (unmap a) ]

  unfoldable pub three_fields : Text → List Text → Outcome (Option Addr × Text)
  unfolding host_address
  three_fields text (a ∷ b ∷ c ∷ []) =
      host_address a >>= λ addr. ok (some addr, join b':' (b ∷ c ∷ []))
  three_fields text _ = ok (none, text)

  -- `splitHostIP`
  unfoldable pub split_host_ip : Text → Outcome (Option Addr × Text)
  unfolding three_fields
  split_host_ip text = elim (cut_prefix text (codes "[")) [
    | none ↦ three_fields text (split b':' text)
    | some inner ↦ elim (cut b']' inner) [
      | none ↦ err unclosed_bracket
      | some (host, rest) ↦ host_address host >>= λ addr. ok (some addr, trim_colon rest)
    ]
  ]

  -- `parse`, shared by `ParsePublish` and `ParseUnpublish`
  unfoldable pub parse : Text → Bool → Outcome Spec
  unfolding split_protocol split_host_ip parse_fields check_family
  parse s need_host_port =
      let text = trim_space s in
      if is_empty text then err empty_spec else (do
        (text', p) ← split_protocol text
        (host, rest) ← split_host_ip text'
        let fields = split b':' rest
        if is_some host && not (has_two fields) then err lone_address else do
          (host_port, sandbox_port) ← parse_fields fields
          if need_host_port && host_port == 0 then err no_host_port else do
            let spec : Spec = record {
              host_ip = host;
              host_port = host_port;
              sandbox_port = sandbox_port;
              protocol = p;
            }
            check_family spec >>= λ (_ : Unit {0}). ok spec)

  unfoldable pub parse_publish : Text → Outcome Spec
  unfolding parse
  parse_publish s = parse s false

  unfoldable pub parse_unpublish : Text → Outcome Spec
  unfolding parse
  parse_unpublish s = parse s true

  -- `Spec.String`
  unfoldable pub spec_text : Spec → Text
  unfolding is6 protocol_text
  spec_text s =
      let host_port = if ltb 0 s.host_port then itoa s.host_port else [] in
      let front : Text = elim s.host_ip [
        | some a ↦
            (if is6 a
              then codes "[" ++ net.addr_text a ++ codes "]:"
              else net.addr_text a ++ codes ":")
            ++ host_port
            ++ codes ":"
        | none ↦ if ltb 0 s.host_port then itoa s.host_port ++ codes ":" else []
      ] in
      front ++ itoa s.sandbox_port ++ codes "/" ++ protocol_text s.protocol

abbrev pub loopback4 : Addr
loopback4 = v4 2130706433

abbrev pub loopback6 : Addr
loopback6 = v6 1 []

-- The loopback addresses of the families that a protocol asks for.
unfoldable pub loopback_binds : Protocol → Bool → List Addr
unfolding family
loopback_binds p has_ipv6 =
    if family p == 4
    then loopback4 ∷ []
    else if family p == 6
    then loopback6 ∷ []
    else if has_ipv6
    then loopback4 ∷ loopback6 ∷ []
    else loopback4 ∷ []

-- `Spec.Binds`
unfoldable pub binds : Spec → Bool → List Addr
unfolding loopback_binds
binds s has_ipv6 = elim s.host_ip [ some a ↦ a ∷ [] | none ↦ loopback_binds s.protocol has_ipv6 ]

pub record Published : Type 0 where
  pub host_ip : Text
  pub host_port : ℕ
  pub sandbox_port : ℕ
  pub protocol : Protocol
  pub last_error : Text

unfoldable pub same_transport : Protocol → Protocol → Bool
unfolding is_udp
same_transport a b = elim (is_udp a) [ true ↦ is_udp b | false ↦ not (is_udp b) ]

-- `Published.matches`
unfoldable pub matches : Netip → Published → Spec → Bool
unfolding same_transport
matches net p s =
    p.host_port == s.host_port
    && p.sandbox_port == s.sandbox_port
    && same_transport p.protocol s.protocol
    && elim s.host_ip [ none ↦ true | some a ↦ text_eq (net.addr_text a) p.host_ip ]
