-- ===== src/Policy/Pattern.antt =====
-- internal/policy/pattern.go: host patterns.
pub mod Canonical
use boks.Prelude.{
  Bool, true, false, not, ◌&&◌, Option, none, some, ◌∷◌, if◌then◌else◌, err, ok, ◌>>=◌,
}
use boks.Strings.{
  Text, codes, text_eq, is_empty, trim_space, to_lower, cut_prefix, has_suffix, contains,
}
use boks.Netip.{Addr, Prefix, addr_eq, masked, prefix_contains, Netip}
use boks.Policy.Error.{empty_pattern, bad_prefix, misplaced_star, wildcard_on_address, Outcome}
use boks.Policy.Target.{Target, is_ip, normalize_host}

-- The struct `Pattern`, split by its kind; each case keeps the fields that the kind reads.
pub data Pattern : Type 0 where
  any_host : Pattern
  exact : Text → Pattern
  suffix : Text → Pattern
  address : Addr → Text → Pattern
  block : Prefix → Text → Pattern

unfoldable pub exact_or_address : Text × Option Addr → Pattern
exact_or_address (host, none) = exact host
exact_or_address (host, some a) = address a host

unfoldable pub suffix_or_error : Text × Option Addr → Outcome Pattern
suffix_or_error (host, none) = ok (suffix host)
suffix_or_error (host, some a) = err wildcard_on_address

module _ (net : Netip) where
  unfoldable pub parse_block : Text → Outcome Pattern
  unfolding masked
  parse_block text = elim (net.parse_prefix (to_lower text)) [
    | none ↦ err bad_prefix
    | some p ↦ ok (block (masked p) (net.prefix_text (masked p)))
  ]

  unfoldable pub parse_suffix : Text → Outcome Pattern
  unfolding suffix_or_error
  parse_suffix rest =
      if contains b'*' rest then err misplaced_star else normalize_host net rest >>= suffix_or_error

  unfoldable pub parse_plain : Text → Outcome Pattern
  unfolding exact_or_address
  parse_plain text =
      if contains b'*' text
      then err misplaced_star
      else (do host ← normalize_host net text; ok (exact_or_address host))

  -- the part of `ParsePattern` after the two spellings of "any"
  unfoldable pub parse_host_pattern : Text → Outcome Pattern
  unfolding parse_block parse_suffix parse_plain
  parse_host_pattern text =
      if contains b'/' text then parse_block text else elim (cut_prefix text (codes "*.")) [
        | some rest ↦ parse_suffix rest
        | none ↦ parse_plain text
      ]

  unfoldable pub parse_pattern : Text → Outcome Pattern
  parse_pattern s =
      let text = trim_space s in
      if is_empty text
      then err empty_pattern
      else if text_eq text (codes "*")
      then ok any_host
      else if text_eq text (codes "**")
      then ok any_host
      else parse_host_pattern text

-- a test of the target's address, false for a hostname
unfoldable pub with_addr : Target → (Addr → Bool) → Bool
with_addr t f = elim t.addr [ none ↦ false | some a ↦ f a ]

-- `Pattern.Match`
unfoldable pub pattern_match : Pattern → Target → Bool
unfolding is_ip with_addr
pattern_match any_host t = true
pattern_match (exact host) t = not (is_ip t) && text_eq t.host host
pattern_match (suffix host) t = not (is_ip t) && has_suffix t.host (b'.' ∷ host)
pattern_match (address a host) t = with_addr t (λ b. addr_eq b a)
pattern_match (block p text) t = with_addr t (λ b. prefix_contains p b)

unfoldable pub is_any : Pattern → Bool
is_any any_host = true
is_any _ = false

unfoldable pub is_single_label : Pattern → Bool
is_single_label (exact host) = not (contains b'.' host)
is_single_label _ = false

unfoldable pub matches_name_only : Pattern → Bool
matches_name_only (exact host) = true
matches_name_only (suffix host) = true
matches_name_only _ = false

-- `Pattern.String`, the field `text`
unfoldable pub pattern_text : Pattern → Text
pattern_text any_host = codes "*"
pattern_text (exact host) = host
pattern_text (suffix host) = b'*' ∷ b'.' ∷ host
pattern_text (address a host) = host
pattern_text (block p text) = text
