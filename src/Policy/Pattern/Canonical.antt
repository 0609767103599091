-- ===== src/Policy/Pattern/Canonical.antt =====
-- The text of a parsed pattern parses to the same pattern.
use mathlib.Core.Path.{subst}
use boks.Prelude.{
  ℕ, ◌≡◌, refl, sym, ◌∙◌, inl, inr, Bool, true, false, ◌||◌, Option, none, some, [], ◌∷◌, arith,
  ◌==◌, Bool-cases, Option-cases, all, err, ok, ok-injective, >>=-eq-ok,
}
use boks.Strings.{Text, codes, text_eq, is_empty, trim_space, to_lower, cut_prefix, contains}
use boks.Strings.Laws.{all-weaken, contains-excluded}
use boks.Netip.{Addr, Prefix, canonical_addr, masked, Netip, is_addr_char, IsNetip, masked_idem}
use boks.Policy.Error.{bad_prefix}
use boks.Policy.Target.{is_host_char, normalize_host}
use boks.Policy.Target.Canonical.{
  is_name_char, is_plain_char, name_char_plain, addr_char_plain, trim_space-plain, to_lower-plain,
  IsHostname, IsHost, named, numbered, normalize_host-IsHost, IsHost-normalize_host,
}
use boks.Policy.Pattern.{
  Pattern, any_host, exact, suffix, address, block, exact_or_address, suffix_or_error, parse_block,
  parse_suffix, parse_plain, parse_host_pattern, parse_pattern, pattern_text,
}

-- The patterns that `ParsePattern` returns.
pub data IsPattern (net : Netip) : Pattern → Type 0 where
  any_form : IsPattern net any_host
  exact_form : (h : Text) → IsHostname h → net.parse_addr h ≡ none → IsPattern net (exact h)
  suffix_form : (h : Text) → IsHostname h → net.parse_addr h ≡ none → IsPattern net (suffix h)
  address_form :
      (t : Text) (a : Addr)
      → net.parse_addr t ≡ some a
      → IsPattern net (address (canonical_addr a) (net.addr_text (canonical_addr a)))
  block_form :
      (t : Text) (p : Prefix)
      → net.parse_prefix t ≡ some p
      → IsPattern net (block (masked p) (net.prefix_text (masked p)))

exact_or_address-IsPattern :
    (net : Netip) {h : Text} {o : Option Addr}
    → IsHost net h o
    → IsPattern net (exact_or_address (h, o))
unfolding exact_or_address
exact_or_address-IsPattern net (named h v p) = exact_form h v p
exact_or_address-IsPattern net (numbered t a p) = address_form t a p

suffix_or_error-IsPattern :
    (net : Netip) {h : Text} {o : Option Addr} {q : Pattern}
    → IsHost net h o
    → suffix_or_error (h, o) ≡ ok q
    → IsPattern net q
unfolding suffix_or_error
suffix_or_error-IsPattern net (named h v p) e =
    subst (IsPattern net) (ok-injective e) (suffix_form h v p)
suffix_or_error-IsPattern net (numbered t a p) e = cc

parse_block-some :
    (net : Netip) (s : Text) (p : Prefix)
    → net.parse_prefix (to_lower s) ≡ some p
    → parse_block net s ≡ ok (block (masked p) (net.prefix_text (masked p)))
unfolding parse_block
parse_block-some net s p k = rw (k, parse_block) refl

parse_block-none :
    (net : Netip) (s : Text)
    → net.parse_prefix (to_lower s) ≡ none
    → parse_block net s ≡ err bad_prefix
unfolding parse_block
parse_block-none net s k = rw (k, parse_block) refl

parse_block-IsPattern :
    (net : Netip) (s : Text) {q : Pattern} → parse_block net s ≡ ok q → IsPattern net q
parse_block-IsPattern net s e = elim (Option-cases (net.parse_prefix (to_lower s))) [
  | inl k ↦ cc (parse_block-none net s k)
  | inr (p, k) ↦
      subst (IsPattern net) (ok-injective (sym (parse_block-some net s p k) ∙ e))
        (block_form (to_lower s) p k)
]

parse_suffix-IsPattern :
    (net : Netip) (s : Text) {q : Pattern} → parse_suffix net s ≡ ok q → IsPattern net q
unfolding parse_suffix
parse_suffix-IsPattern net s e = elim (Bool-cases (contains b'*' s)) [
  | inl k ↦ cc (rw k at e)
  | inr k ↦
      let (x, xe, h) = >>=-eq-ok (normalize_host net s) suffix_or_error (rw k at e) in
      suffix_or_error-IsPattern net (normalize_host-IsHost net s xe) h
]

parse_plain-IsPattern :
    (net : Netip) (s : Text) {q : Pattern} → parse_plain net s ≡ ok q → IsPattern net q
unfolding parse_plain
parse_plain-IsPattern net s e = elim (Bool-cases (contains b'*' s)) [
  | inl k ↦ cc (rw k at e)
  | inr k ↦
      let (x, xe, h) = >>=-eq-ok (normalize_host net s) _ (rw k at e) in
      subst (IsPattern net) (ok-injective h)
        (exact_or_address-IsPattern net (normalize_host-IsHost net s xe))
]

parse_host_pattern-some :
    (net : Netip) (s rest : Text)
    → contains b'/' s ≡ false
    → cut_prefix s (codes "*.") ≡ some rest
    → parse_host_pattern net s ≡ parse_suffix net rest
unfolding parse_host_pattern
parse_host_pattern-some net s rest e k = rw (e, k, parse_host_pattern) refl

parse_host_pattern-none :
    (net : Netip) (s : Text)
    → contains b'/' s ≡ false
    → cut_prefix s (codes "*.") ≡ none
    → parse_host_pattern net s ≡ parse_plain net s
unfolding parse_host_pattern
parse_host_pattern-none net s e k = rw (e, k, parse_host_pattern) refl

parse_host_pattern-block :
    (net : Netip) (s : Text) → contains b'/' s ≡ true → parse_host_pattern net s ≡ parse_block net s
unfolding parse_host_pattern
parse_host_pattern-block net s e = rw (e, parse_host_pattern) refl

parse_host_pattern-IsPattern :
    (net : Netip) (s : Text) {q : Pattern} → parse_host_pattern net s ≡ ok q → IsPattern net q
parse_host_pattern-IsPattern net s e = elim (Bool-cases (contains b'/' s)) [
  | inl k ↦ parse_block-IsPattern net s (sym (parse_host_pattern-block net s k) ∙ e)
  | inr k ↦ elim (Option-cases (cut_prefix s (codes "*."))) [
    | inl c ↦ parse_plain-IsPattern net s (sym (parse_host_pattern-none net s k c) ∙ e)
    | inr (rest, c) ↦
        parse_suffix-IsPattern net rest (sym (parse_host_pattern-some net s rest k c) ∙ e)
  ]
]

pub parse_pattern-IsPattern :
    (net : Netip) (s : Text) {q : Pattern} → parse_pattern net s ≡ ok q → IsPattern net q
unfolding parse_pattern
parse_pattern-IsPattern net s e =
    let t = trim_space s in
    elim (Bool-cases (is_empty t)) [
      | inl k ↦ cc (rw k at e)
      | inr k ↦ elim (Bool-cases (text_eq t (codes "*"))) [
        | inl a ↦ subst (IsPattern net) (ok-injective (rw (k, a) at e)) any_form
        | inr a ↦ elim (Bool-cases (text_eq t (codes "**"))) [
          | inl b ↦ subst (IsPattern net) (ok-injective (rw (k, a, b) at e)) any_form
          | inr b ↦ parse_host_pattern-IsPattern net t (rw (k, a, b) at e)
        ]
      ]
    ]

-- What a text without an asterisk is not.
no_star :
    (s : Text)
    → contains b'*' s ≡ false
    → (text_eq s (codes "*") ≡ false)
      × (text_eq s (codes "**") ≡ false)
      × (cut_prefix s (codes "*.") ≡ none)
unfolding contains text_eq cut_prefix
no_star [] h = (refl, refl, refl)
no_star (c ∷ s) h = (ground arith, ground arith, ground arith)

parse_pattern-plain :
    (net : Netip) (s : Text)
    → all is_plain_char s ≡ true
    → is_empty s ≡ false
    → contains b'*' s ≡ false
    → parse_pattern net s ≡ parse_host_pattern net s
unfolding parse_pattern
parse_pattern-plain net s plain full star =
    let (a, b, _) = no_star s star in rw (trim_space-plain s plain, full, a, b) refl

-- The parts of a pattern's text: what the second parse tests.
star_dot-plain : (c : ℕ) → is_name_char c ≡ true → (c == b'*') ≡ false
unfolding is_host_char
star_dot-plain c h = ground arith

name_contains : (d : ℕ) (h : Text) → is_name_char d ≡ false → IsHostname h → contains d h ≡ false
name_contains d h e v = contains-excluded is_name_char d h e v.chars

hostname_plain : (h : Text) → IsHostname h → all is_plain_char h ≡ true
hostname_plain h v = all-weaken is_name_char is_plain_char h name_char_plain v.chars

parse_plain-host :
    (net : Netip)
    → IsNetip net
    → {h : Text} {o : Option Addr} → IsHost net h o
    → contains b'*' h ≡ false
    → parse_plain net h ≡ ok (exact_or_address (h, o))
unfolding parse_plain
parse_plain-host net law i e = rw (e, IsHost-normalize_host net law i) refl

exact-back :
    (net : Netip)
    → IsNetip net
    → (h : Text) → IsHostname h
    → net.parse_addr h ≡ none
    → parse_pattern net h ≡ ok (exact h)
unfolding exact_or_address is_host_char
exact-back net law h v p =
    let star = name_contains b'*' h refl v in
    let slash = name_contains b'/' h refl v in
    let (_, _, cut_) = no_star h star in
    parse_pattern-plain net h (hostname_plain h v) v.some_char star
    ∙ parse_host_pattern-none net h slash cut_
    ∙ parse_plain-host net law (named h v p) star

address-back :
    (net : Netip)
    → IsNetip net
    → (t : Text) (a : Addr) → net.parse_addr t ≡ some a
    → parse_pattern net (net.addr_text (canonical_addr a))
      ≡ ok (address (canonical_addr a) (net.addr_text (canonical_addr a)))
unfolding exact_or_address is_addr_char
address-back net law t a p =
    let (chars, full, _, _) = law.addr_chars t a p in
    let h = net.addr_text (canonical_addr a) in
    let star = contains-excluded is_addr_char b'*' h refl chars in
    let slash = contains-excluded is_addr_char b'/' h refl chars in
    let (_, _, cut_) = no_star h star in
    parse_pattern-plain net h (all-weaken is_addr_char is_plain_char h addr_char_plain chars) full
      star
    ∙ parse_host_pattern-none net h slash cut_
    ∙ parse_plain-host net law (numbered t a p) star

abbrev pub is_block_char : ℕ → Bool
is_block_char c = is_addr_char c || c == b'/'

pub block_char_plain : (c : ℕ) → is_block_char c ≡ true → is_plain_char c ≡ true
unfolding is_plain_char is_addr_char
block_char_plain c h = ground arith

pub contains-some : (d : ℕ) (s : Text) → contains d s ≡ true → is_empty s ≡ false
unfolding contains
contains-some d [] h = cc
contains-some d (c ∷ s) h = refl

block-back :
    (net : Netip)
    → IsNetip net
    → (t : Text) (p : Prefix) → net.parse_prefix t ≡ some p
    → parse_pattern net (net.prefix_text (masked p))
      ≡ ok (block (masked p) (net.prefix_text (masked p)))
unfolding is_addr_char
block-back net law t p k =
    let (chars, slash, _) = law.prefix_chars t p k in
    let s = net.prefix_text (masked p) in
    let plain = all-weaken is_block_char is_plain_char s block_char_plain chars in
    let star = contains-excluded is_block_char b'*' s refl chars in
    parse_pattern-plain net s plain (contains-some b'/' s slash) star
    ∙ parse_host_pattern-block net s slash
    ∙ parse_block-some net s (masked p) (rw (to_lower-plain s plain) (law.prefix_back t p k))
    ∙ rw (masked_idem p) refl

parse_suffix-host :
    (net : Netip)
    → IsNetip net
    → (h : Text) → IsHostname h
    → net.parse_addr h ≡ none
    → contains b'*' h ≡ false
    → parse_suffix net h ≡ ok (suffix h)
unfolding parse_suffix suffix_or_error
parse_suffix-host net law h v p e = rw (e, IsHost-normalize_host net law (named h v p)) refl

suffix-back :
    (net : Netip)
    → IsNetip net
    → (h : Text) → IsHostname h
    → net.parse_addr h ≡ none
    → parse_pattern net (b'*' ∷ b'.' ∷ h) ≡ ok (suffix h)
unfolding parse_pattern is_plain_char text_eq contains cut_prefix is_host_char
suffix-back net law h v p =
    let s = b'*' ∷ b'.' ∷ h in
    let star = name_contains b'*' h refl v in
    let slash = name_contains b'/' h refl v in
    rw (trim_space-plain s (hostname_plain h v))
      (parse_host_pattern-some net s h slash refl ∙ parse_suffix-host net law h v p star)

-- The text of a pattern that `ParsePattern` returned parses to that pattern.
pub parse_pattern-pattern_text :
    (net : Netip) (law : IsNetip net) {q : Pattern}
    → IsPattern net q
    → parse_pattern net (pattern_text q) ≡ ok q
unfolding pattern_text
parse_pattern-pattern_text net law any_form = unfold parse_pattern trim_space text_eq in refl
parse_pattern-pattern_text net law (exact_form h v p) = exact-back net law h v p
parse_pattern-pattern_text net law (suffix_form h v p) = suffix-back net law h v p
parse_pattern-pattern_text net law (address_form t a p) = address-back net law t a p
parse_pattern-pattern_text net law (block_form t p k) = block-back net law t p k
