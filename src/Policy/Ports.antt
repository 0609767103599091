-- ===== src/Policy/Ports.antt =====
-- internal/policy/pattern.go: port sets.
pub mod Canonical
use boks.Prelude.{
  ℕ, Bool, true, false, ◌&&◌, ◌||◌, none, some, List, [], ◌∷◌, ◌++◌, map, ltb, leb, ◌==◌,
  if◌then◌else◌, any, err, ok, ◌>>=◌,
}
use boks.Strings.{Text, codes, text_eq, is_empty, trim_space, split, join, cut}
use boks.Strings.Decimal.{itoa, atoi}
use boks.Policy.Error.{not_a_number, backwards_range, Outcome}
use boks.Policy.Target.{check_port}

pub record PortRange : Type 0 where
  pub lo : ℕ
  pub hi : ℕ

-- No range at all means every port.
pub record PortSet : Type 0 where
  pub ranges : List PortRange

unfoldable pub parse_port : Text → Outcome ℕ
parse_port s = elim (atoi (trim_space s)) [ none ↦ err not_a_number | some n ↦ check_port n ]

unfoldable pub ends : Text → Text × Text
ends part = elim (cut b'-' part) [ none ↦ (part, part) | some (lo, hi) ↦ (lo, hi) ]

unfoldable pub make_range : ℕ → ℕ → Outcome PortRange
make_range l h = if ltb h l then err backwards_range else ok (record { lo = l; hi = h })

unfoldable pub range_between : Text × Text → Outcome PortRange
unfolding make_range
range_between text = do l ← parse_port text.0; h ← parse_port text.1; make_range l h

unfoldable pub parse_range : Text → Outcome PortRange
parse_range part = range_between (ends (trim_space part))

unfoldable pub parse_ranges : List Text → Outcome (List PortRange)
parse_ranges [] = ok []
parse_ranges (part ∷ parts) = parse_range part >>= λ r. parse_ranges parts >>= λ rs. ok (r ∷ rs)

unfoldable pub parse_ports : Text → Outcome PortSet
parse_ports s =
    let text = trim_space s in
    if is_empty text || text_eq text (codes "*")
    then ok (record { ranges = [] })
    else (do rs ← parse_ranges (split b',' text); ok (record { ranges = rs }))

-- `PortSet.Any`
abbrev pub is_every_port : List PortRange → Bool
is_every_port [] = true
is_every_port (r ∷ rs) = false

unfoldable pub in_range : ℕ → PortRange → Bool
in_range port r = leb r.lo port && leb port r.hi

-- `PortSet.Match`
unfoldable pub ports_match : PortSet → ℕ → Bool
unfolding in_range
ports_match s port = is_every_port s.ranges || any (in_range port) s.ranges

unfoldable pub range_text : PortRange → Text
range_text r = if r.lo == r.hi then itoa r.lo else itoa r.lo ++ b'-' ∷ itoa r.hi

-- `PortSet.String`
unfoldable pub ports_text : PortSet → Text
unfolding range_text
ports_text s = if is_every_port s.ranges then codes "*" else join b',' (map range_text s.ranges)
