-- ===== src/Network/Stack.antt =====
-- internal/network/stack.go: which frames of a guest the stack sees, and why the others are dropped.
-- The fields of a header are read by the library of the stack, a parameter.
use boks.Prelude.{
  ℕ, ◌+◌, ◌/◌, ◌%◌, not, ◌&&◌, Option, none, some, List, [], ◌∷◌, ◌++◌, ltb, ◌==◌, if◌then◌else◌,
  length, drop,
}
use boks.Strings.{Text, codes}
use boks.Strings.Decimal.{itoa}
use boks.Netip.{Addr, unmap, addr_eq, Netip}
use boks.Policy.Target.{Target, target_from_addr}

abbrev pub Bytes : Type 0
Bytes = List ℕ

-- `header.ARPProtocolNumber`, `header.IPv4ProtocolNumber`, and the other ethertypes
pub data EtherType : Type 0 where
  arp ipv4 : EtherType
  other_frame : ℕ → EtherType

pub data Transport : Type 0 where
  tcp udp icmp : Transport
  other_protocol : ℕ → Transport

-- The fields of an IPv4 header, and the destination port of a UDP header, as the library reads them.
pub record Headers : Type 0 where
  pub destination : Bytes → Addr
  pub transport : Bytes → Transport
  pub fragment_offset : Bytes → ℕ
  pub header_length : Bytes → ℕ
  pub udp_port : Bytes → ℕ

abbrev pub ipv4_minimum_size : ℕ
ipv4_minimum_size = 20

abbrev pub udp_minimum_size : ℕ
udp_minimum_size = 8

abbrev pub dns_port : ℕ
dns_port = 53

abbrev pub dhcp_port : ℕ
dhcp_port = 67

-- `dropReason`: the text of the operational log, and the reason and the target of the decision
-- where the destination is legible.
pub record DropReason : Type 0 where
  pub operational : Text
  pub refused : Option (Text × Target)

-- `udpDestinationPort`
unfoldable pub udp_destination_port : Headers → Bytes → Option ℕ
udp_destination_port ip pkt =
    let ihl = ip.header_length pkt in
    if not (ip.fragment_offset pkt == 0)
    then none
    else if ltb ihl ipv4_minimum_size
    then none
    else if ltb (length pkt) (ihl + udp_minimum_size)
    then none
    else some (ip.udp_port (drop ihl pkt))

abbrev pub hex_digit : ℕ → ℕ
hex_digit d = if ltb d 10 then b'0' + d else 87 + d

-- `%04x` of a 16-bit number
abbrev pub hex4 : ℕ → Text
hex4 n =
    hex_digit (n / 4096 % 16)
    ∷ hex_digit (n / 256 % 16)
    ∷ hex_digit (n / 16 % 16)
    ∷ hex_digit (n % 16)
    ∷ []

abbrev unaddressed : Text → DropReason
unaddressed what = record { operational = what; refused = none }

module _ (net : Netip) (ip : Headers) (gateway : Addr) where
  abbrev pub at_port : Addr → ℕ → Text
  at_port dst port = net.addr_text dst ++ b':' ∷ itoa port

  abbrev pub not_carried : Addr → ℕ → Text → Text → DropReason
  not_carried dst port operational reason = record {
    operational = operational;
    refused = some (reason, target_from_addr net dst port);
  }

  -- the case of UDP: only the two services of the gateway are reached
  unfoldable pub classify_udp : Addr → Option ℕ → Option DropReason
  classify_udp dst none =
      some (unaddressed (codes "a truncated or fragmented UDP datagram to " ++ net.addr_text dst))
  classify_udp dst (some port) =
      if port == dns_port && addr_eq dst gateway
      then none
      else if port == dhcp_port
      then none
      else (some (
          not_carried dst port
            (codes "udp to " ++ at_port dst port ++ codes " (only DNS to the gateway is carried)")
            (codes "udp is not carried; only DNS to the sandbox's own resolver is")))

  unfoldable pub classify_ipv4 : Addr → Transport → Bytes → Option DropReason
  unfolding classify_udp udp_destination_port
  classify_ipv4 dst tcp pkt = none
  classify_ipv4 dst udp pkt = classify_udp dst (udp_destination_port ip pkt)
  classify_ipv4 dst icmp pkt = some (
      not_carried dst 0 (codes "icmp to " ++ net.addr_text dst ++ codes " (icmp is not carried)")
        (codes "icmp is not carried, and no rule can permit it"))
  classify_ipv4 dst (other_protocol n) pkt = some (
      not_carried dst 0
        (codes "ip protocol "
          ++ itoa n
          ++ codes " to "
          ++ net.addr_text dst
          ++ codes " (only tcp is carried)")
        (codes "ip protocol " ++ itoa n ++ codes " is not carried; only tcp is"))

  -- `filteredLink.classify`: why a frame is dropped, or `none` where it is delivered
  unfoldable pub classify : EtherType → Bytes → Option DropReason
  unfolding classify_ipv4
  classify arp pkt = none
  classify ipv4 pkt =
      if ltb (length pkt) ipv4_minimum_size
      then some (unaddressed (codes "a truncated IPv4 packet"))
      else classify_ipv4 (unmap (ip.destination pkt)) (ip.transport pkt) pkt
  classify (other_frame n) pkt = some (
      unaddressed
        (codes "a frame of ethertype 0x" ++ hex4 n ++ codes ", which this stack does not carry"))
