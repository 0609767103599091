-- ===== src/Samples/Addresses.antt =====
-- A table of three addresses and one block, as the library `net/netip` reads and prints them.
use boks.Prelude.{◌≡◌, refl, sym, ◌⊎◌, inl, inr, Option, none, some, [], if◌then◌else◌, Bool-cases}
use boks.Strings.{Text, codes, text_eq, has_suffix, contains, count}
use boks.Netip.{Addr, v4, v6, Prefix, canonical_addr, masked, Netip, is_addr_char, IsNetip}

abbrev home4 : Text
home4 = codes "127.0.0.1"

abbrev home6 : Text
home6 = codes "::1"

abbrev home_block : Text
home_block = codes "127.0.0.0/8"

abbrev read_addr : Text → Option Addr
read_addr t =
    if text_eq t home4
    then some (v4 2130706433)
    else if text_eq t home6
    then some (v6 1 [])
    else none

abbrev write_addr : Addr → Text
write_addr (v4 n) = home4
write_addr (v6 n z) = home6

abbrev read_prefix : Text → Option Prefix
read_prefix t =
    if text_eq t home_block then some (record { addr = v4 2130706432; bits = 8 }) else none

abbrev write_prefix : Prefix → Text
write_prefix p = home_block

abbrev pub table : Netip
table = record {
  parse_addr = read_addr;
  addr_text = write_addr;
  parse_prefix = read_prefix;
  prefix_text = write_prefix;
}

some-injective : {A : Type 0} {a b : A} → some a ≡ some b → a ≡ b
some-injective h = cc

read_addr-cases : (t : Text) (a : Addr) → read_addr t ≡ some a → (a ≡ v4 2130706433) ⊎ (a ≡ v6 1 [])
read_addr-cases t a h = elim (Bool-cases (text_eq t home4)) [
  | inl e ↦ inl (sym (some-injective (rw e at h)))
  | inr e ↦ elim (Bool-cases (text_eq t home6)) [
    | inl e' ↦ inr (sym (some-injective (rw (e, e') at h)))
    | inr e' ↦ cc (rw (e, e') at h)
  ]
]

read_prefix-cases :
    (t : Text) (p : Prefix) → read_prefix t ≡ some p → p ≡ record { addr = v4 2130706432; bits = 8 }
read_prefix-cases t p h = elim (Bool-cases (text_eq t home_block)) [
  | inl e ↦ sym (some-injective (rw e at h))
  | inr e ↦ cc (rw e at h)
]

pub table-IsNetip : IsNetip table
unfolding canonical_addr is_addr_char masked text_eq contains count has_suffix
table-IsNetip = record {
  addr_back = λ t a h. elim (read_addr-cases t a h) [ inl e ↦ rw e refl | inr e ↦ rw e refl ];
  addr_chars = λ t a h. elim (read_addr-cases t a h) [
    | inl e ↦ rw e (refl, refl, refl, refl)
    | inr e ↦ rw e (refl, refl, refl, refl)
  ];
  prefix_back = λ t p h. rw (read_prefix-cases t p h) refl;
  prefix_chars = λ t p h. (refl, refl, refl);
}
