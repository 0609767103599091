-- ===== src/Ports/Spec/Loopback.antt =====
-- Which addresses a publish request binds.
use boks.Prelude.{◌/◌, ◌≡◌, refl, Bool, true, false, not, ◌&&◌, none, List, ◌==◌, any, all}
use boks.Strings.{text_eq, is_empty}
use boks.Netip.{Addr, v4, v6, is6}
use boks.Ports.Spec.{
  Protocol, tcp, tcp4, tcp6, udp, udp4, udp6, family, Spec, loopback_binds, binds,
}

-- In 127.0.0.0/8, or ::1 without a zone.
abbrev pub is_loopback : Addr → Bool
is_loopback (v4 n) = n / 16777216 == 127
is_loopback (v6 n zone) = n == 1 && is_empty zone

-- The families that a protocol is published on, where the host has IPv6 or not.
abbrev pub wants4 : Protocol → Bool
wants4 tcp6 = false
wants4 udp6 = false
wants4 _ = true

abbrev pub wants6 : Protocol → Bool → Bool
wants6 tcp4 b = false
wants6 udp4 b = false
wants6 tcp6 b = true
wants6 udp6 b = true
wants6 tcp b = b
wants6 udp b = b

-- What is bound for a protocol.
abbrev pub IsLocal : Protocol → Bool → List Addr → Type 0
IsLocal p b addrs =
    (all is_loopback addrs ≡ true)
    × (any (λ a. not (is6 a)) addrs ≡ wants4 p)
    × (any is6 addrs ≡ wants6 p b)

loopback_binds-IsLocal : (p : Protocol) (b : Bool) → IsLocal p b (loopback_binds p b)
unfolding loopback_binds family is6 text_eq
loopback_binds-IsLocal tcp true = (refl, refl, refl)
loopback_binds-IsLocal tcp false = (refl, refl, refl)
loopback_binds-IsLocal tcp4 b = (refl, refl, refl)
loopback_binds-IsLocal tcp6 b = (refl, refl, refl)
loopback_binds-IsLocal udp true = (refl, refl, refl)
loopback_binds-IsLocal udp false = (refl, refl, refl)
loopback_binds-IsLocal udp4 b = (refl, refl, refl)
loopback_binds-IsLocal udp6 b = (refl, refl, refl)

-- Without an address, a request binds only addresses in 127.0.0.0/8 and ::1: one of IPv4 exactly where
-- its protocol is not for IPv6 alone, and one of IPv6 exactly where its protocol is for IPv6 alone, or
-- for both and the sandbox has IPv6.
pub binds-loopback :
    (s : Spec) (has_ipv6 : Bool) → s.host_ip ≡ none → IsLocal s.protocol has_ipv6 (binds s has_ipv6)
unfolding binds
binds-loopback s has_ipv6 h = rw h (loopback_binds-IsLocal s.protocol has_ipv6)
