-- ===== src/Network/Forward/Delivery.antt =====
-- Which frames reach the host's stack.
use boks.Prelude.{
  ℕ, ◌+◌, ◌≡◌, refl, inl, inr, Bool, true, false, ◌&&◌, ◌||◌, Option, none, some, arith, ltb, leb,
  ◌==◌, Bool-cases, Option-cases, length, drop,
}
use boks.Netip.{Addr, unmap, addr_eq, Netip}
use boks.Network.Stack.{
  Bytes, EtherType, arp, ipv4, other_frame, Transport, tcp, udp, icmp, other_protocol, Headers,
  DropReason, udp_destination_port, classify_udp, classify_ipv4, classify,
}
use boks.Network.Forward.{HostStack, deliver}

-- Whether the destination port of a UDP datagram can be read: it is no later fragment, its header
-- length is a legal one, and both headers are there.
abbrev pub is_readable : Headers → Bytes → Bool
is_readable ip pkt =
    ip.fragment_offset pkt == 0
    && leb 20 (ip.header_length pkt)
    && leb (ip.header_length pkt + 8) (length pkt)

abbrev pub udp_port_of : Headers → Bytes → ℕ
udp_port_of ip pkt = ip.udp_port (drop (ip.header_length pkt) pkt)

abbrev pub is_service : Headers → Addr → Bytes → Bool
is_service ip gateway pkt =
    udp_port_of ip pkt == 67
    || udp_port_of ip pkt == 53 && addr_eq (unmap (ip.destination pkt)) gateway

abbrev pub is_carried_by : Headers → Addr → Transport → Bytes → Bool
is_carried_by ip gateway tcp pkt = true
is_carried_by ip gateway udp pkt = is_readable ip pkt && is_service ip gateway pkt
is_carried_by ip gateway _ pkt = false

-- The frames that are carried: ARP; and of IPv4, with a whole header, TCP, and the UDP datagrams whose
-- port can be read and that go to DHCP, or to DNS at the gateway.
unfoldable pub is_carried : Headers → Addr → EtherType → Bytes → Bool
is_carried ip gateway arp pkt = true
is_carried ip gateway ipv4 pkt =
    leb 20 (length pkt) && is_carried_by ip gateway (ip.transport pkt) pkt
is_carried ip gateway (other_frame n) pkt = false

module _ (net : Netip) (ip : Headers) (gateway : Addr) where
  abbrev is_none : Option DropReason → Bool
  is_none none = true
  is_none (some why) = false

  classify_udp-carried :
      (pkt : Bytes)
      → is_none
          (classify_udp net ip gateway (unmap (ip.destination pkt)) (udp_destination_port ip pkt))
        ≡ (is_readable ip pkt && is_service ip gateway pkt)
  unfolding classify_udp udp_destination_port
  classify_udp-carried pkt = ground arith

  classify_ipv4-carried :
      (x : Transport) (pkt : Bytes)
      → is_none (classify_ipv4 net ip gateway (unmap (ip.destination pkt)) x pkt)
        ≡ is_carried_by ip gateway x pkt
  unfolding classify_ipv4
  classify_ipv4-carried tcp pkt = refl
  classify_ipv4-carried udp pkt = classify_udp-carried pkt
  classify_ipv4-carried icmp pkt = refl
  classify_ipv4-carried (other_protocol n) pkt = refl

  classify-carried :
      (kind : EtherType) (pkt : Bytes)
      → is_none (classify net ip gateway kind pkt) ≡ is_carried ip gateway kind pkt
  unfolding classify is_carried
  classify-carried arp pkt = refl
  classify-carried (other_frame n) pkt = refl
  classify-carried ipv4 pkt = elim (Bool-cases (ltb (length pkt) 20)) [
    | inl e ↦ let short : leb 20 (length pkt) ≡ false = ground (arith, e) in rw (e, short) refl
    | inr e ↦
        let long : leb 20 (length pkt) ≡ true = ground (arith, e) in
        rw (e, long) (classify_ipv4-carried (ip.transport pkt) pkt)
  ]

  -- The stack sees a frame of the guest exactly when it is ARP, or IPv4 with a whole header that is
  -- TCP, or a UDP datagram whose port can be read and that goes to DHCP, or to DNS at the gateway; and
  -- the delivery of such a frame leaves the state and the log as they are.
  pub deliver-carried :
      (h : HostStack) (now : ℕ) (kind : EtherType) (pkt : Bytes)
      → ((deliver net h now ip gateway kind pkt).0 ≡ is_carried ip gateway kind pkt)
        × (is_carried ip gateway kind pkt ≡ true → (deliver net h now ip gateway kind pkt).1 ≡ h)
  unfolding deliver
  deliver-carried h now kind pkt =
      let same = classify-carried kind pkt in
      elim (Option-cases (classify net ip gateway kind pkt)) [
        | inl e ↦
            let c : true ≡ is_carried ip gateway kind pkt = rw e at same in
            rw (deliver, e, ← c) (refl, λ k. refl)
        | inr (why, e) ↦
            let c : false ≡ is_carried ip gateway kind pkt = rw e at same in
            rw (deliver, e, ← c) (refl, λ k. cc)
      ]
