-- ===== src/Netip.antt =====
-- Go's `net/netip`: the addresses and prefixes that the sources compute with. How an address is
-- read and printed is a parameter, `Netip`, with its documented behaviour as `IsNetip`.
use native.Mathlib.Nat.{mul-div_cancel}
use native.Mathlib.Decide.{dec_lt}
use boks.Prelude.{
  ℕ, ◌-◌, ◌*◌, ◌/◌, ◌%◌, ◌^◌, ◌≡◌, refl, Bool, true, false, ◌&&◌, ◌||◌, Option, some, [], arith,
  leb, ◌==◌, if◌then◌else◌, ==_refl, all,
}
use boks.Strings.Laws.{text_eq_refl}
use boks.Strings.{Text, codes, text_eq, is_empty, has_suffix, contains, count}

-- A valid `netip.Addr`, by its value and, for IPv6, its zone. The zero `Addr` is `none`.
pub data Addr : Type 0 where
  v4 : ℕ → Addr
  v6 : ℕ → Text → Addr

pub record Prefix : Type 0 where
  pub addr : Addr
  pub bits : ℕ

-- `Addr.WithZone("")`
unfoldable pub without_zone : Addr → Addr
without_zone (v4 n) = v4 n
without_zone (v6 n z) = v6 n []

-- `Addr.Unmap`: ::ffff:a.b.c.d becomes a.b.c.d
unfoldable pub unmap : Addr → Addr
unmap (v4 n) = v4 n
unmap (v6 n z) = if n / 2 ^ 32 == 0xffff then v4 (n % 2 ^ 32) else v6 n z

-- `addr.WithZone("").Unmap()`, which the sources always write together
unfoldable pub canonical_addr : Addr → Addr
unfolding without_zone unmap
canonical_addr a = unmap (without_zone a)

unfoldable pub is6 : Addr → Bool
is6 (v4 n) = false
is6 (v6 n z) = true

unfoldable pub is4in6 : Addr → Bool
is4in6 (v4 n) = false
is4in6 (v6 n z) = n / 2 ^ 32 == 0xffff

unfoldable pub addr_eq : Addr → Addr → Bool
addr_eq (v4 a) (v4 b) = a == b
addr_eq (v6 a y) (v6 b z) = a == b && text_eq y z
addr_eq _ _ = false

-- `Prefix.Masked`
unfoldable pub masked : Prefix → Prefix
masked p = elim p.addr [
  | v4 n ↦ record { addr = v4 (n / 2 ^ (32 - p.bits) * 2 ^ (32 - p.bits)); bits = p.bits }
  | v6 n z ↦ record { addr = v6 (n / 2 ^ (128 - p.bits) * 2 ^ (128 - p.bits)) []; bits = p.bits }
]

unfoldable pub in_block : Addr → ℕ → Addr → Bool
in_block (v4 n) bits (v4 m) = n / 2 ^ (32 - bits) == m / 2 ^ (32 - bits)
in_block (v6 n z) bits (v6 m y) = is_empty y && n / 2 ^ (128 - bits) == m / 2 ^ (128 - bits)
in_block _ bits _ = false

-- `Prefix.Contains`: never across the two families, and never an address with a zone
unfoldable pub prefix_contains : Prefix → Addr → Bool
unfolding in_block
prefix_contains p a = in_block p.addr p.bits a

-- `Addr.IsLinkLocalUnicast`: 169.254.0.0/16 and fe80::/10
unfoldable pub is_link_local : Addr → Bool
unfolding unmap
is_link_local a = elim (unmap a) [ v4 n ↦ n / 2 ^ 16 == 0xa9fe | v6 n z ↦ n / 2 ^ 118 == 0x3fa ]

-- `ParseAddr`, `Addr.String`, `ParsePrefix`, `Prefix.String`
pub record Netip : Type 0 where
  pub parse_addr : Text → Option Addr
  pub addr_text : Addr → Text
  pub parse_prefix : Text → Option Prefix
  pub prefix_text : Prefix → Text

-- The characters of a printed address or prefix: lower case hexadecimal digits, dots and colons.
unfoldable pub is_addr_char : ℕ → Bool
is_addr_char c = (leb b'0' c && leb c b'9') || (leb b'a' c && leb c b'f') || c == b'.' || c == b':'

-- What the program relies on: an address prints as a text that reads back as itself, of the
-- characters above, not empty, not ending in a dot and never with a single colon; and so for a
-- prefix, which has a slash.
pub record IsNetip (net : Netip) : Type 0 where
  pub addr_back :
      (t : Text) (a : Addr)
      → net.parse_addr t ≡ some a
      → net.parse_addr (net.addr_text (canonical_addr a)) ≡ some (canonical_addr a)
  pub addr_chars :
      (t : Text) (a : Addr)
      → net.parse_addr t ≡ some a
      → (all is_addr_char (net.addr_text (canonical_addr a)) ≡ true)
        × (is_empty (net.addr_text (canonical_addr a)) ≡ false)
        × (has_suffix (net.addr_text (canonical_addr a)) (codes ".") ≡ false)
        × ((count b':' (net.addr_text (canonical_addr a)) == 1) ≡ false)
  pub prefix_back :
      (t : Text) (p : Prefix)
      → net.parse_prefix t ≡ some p
      → net.parse_prefix (net.prefix_text (masked p)) ≡ some (masked p)
  pub prefix_chars :
      (t : Text) (p : Prefix)
      → net.parse_prefix t ≡ some p
      → (all (λ c. is_addr_char c || c == b'/') (net.prefix_text (masked p)) ≡ true)
        × (contains b'/' (net.prefix_text (masked p)) ≡ true)
        × ((count b':' (net.prefix_text (masked p)) == 1) ≡ false)

pub addr_eq_refl : (a : Addr) → addr_eq a a ≡ true
unfolding addr_eq
addr_eq_refl (v4 n) = ==_refl n
addr_eq_refl (v6 n z) = rw (==_refl n, text_eq_refl z) refl

pub canonical_addr_idem : (a : Addr) → canonical_addr (canonical_addr a) ≡ canonical_addr a
unfolding canonical_addr
canonical_addr_idem (v4 n) = refl
canonical_addr_idem (v6 n z) = ground arith

round_down_idem : (n m : ℕ) → n / m * m / m * m ≡ n / m * m
round_down_idem n m = elim (dec_lt 0 m) [
  | yes h ↦ rw (mul-div_cancel (n / m) h)
  | no h ↦ let z : m ≡ 0 = omega arith in rw z (omega arith)
]

pub masked_idem : (p : Prefix) → masked (masked p) ≡ masked p
unfolding masked
masked_idem p = go p.addr p.bits
  where
    go :
        (a : Addr) (b : ℕ)
        → masked (masked (record { addr = a; bits = b })) ≡ masked (record { addr = a; bits = b })
    go (v4 n) b = rw (round_down_idem n (2 ^ (32 - b)))
    go (v6 n z) b = rw (round_down_idem n (2 ^ (128 - b)))
