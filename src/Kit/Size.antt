-- ===== src/Kit/Size.antt =====
-- internal/kit/validate.go: `parseByteSize`. `lower` is `unicode.ToLower` on a code point.
pub mod Bounds
pub mod Units
use boks.Prelude.{
  ℕ, ◌-◌, ◌*◌, ◌/◌, ◌%◌, ◌^◌, not, ◌&&◌, ◌||◌, Option, none, some, [], ◌∷◌, map, ltb, ◌==◌,
  if◌then◌else◌, Result, err, ok,
}
use boks.Strings.{Text, codes, text_eq, is_empty, trim_space, rune_bytes, byte_length}
use boks.Strings.Decimal.{ℤ, pos, negsuc, is_digit, atoi}

-- The errors, and a slice bound below zero, which panics.
pub data SizeError : Type 0 where
  size_empty size_not_number size_too_large slice_out_of_range : SizeError
  unknown_unit : Text → SizeError

-- `strings.TrimLeft(s, "0123456789")`
unfoldable pub trim_digits : Text → Text
unfolding is_digit
trim_digits [] = []
trim_digits (c ∷ s) = let rest = trim_digits s in if is_digit c then rest else c ∷ s

-- The switch on the unit.
unfoldable pub multiplier : Text → Option ℕ
unfolding text_eq
multiplier unit =
    let is = text_eq unit in
    if is (codes "b")
    then some 1
    else if is (codes "k") || is (codes "kb") || is (codes "kib")
    then some (2 ^ 10)
    else if is (codes "m") || is (codes "mb") || is (codes "mib")
    then some (2 ^ 20)
    else if is (codes "g") || is (codes "gb") || is (codes "gib")
    then some (2 ^ 30)
    else if is (codes "t") || is (codes "tb") || is (codes "tib")
    then some (2 ^ 40)
    else none

-- The first `n` bytes of a text, where they end between two code points.
unfoldable pub slice_to : ℕ → Text → Option Text
slice_to n [] = if n == 0 then some [] else none
slice_to n (c ∷ s) =
    let rest = slice_to (n - rune_bytes c) s in
    if n == 0
    then some []
    else if ltb n (rune_bytes c)
    then none
    else elim rest [ none ↦ none | some front ↦ some (c ∷ front) ]

-- `value * multiplier` on 64 bits, after the check that it does not overflow
unfoldable pub scaled : ℕ → Option ℤ → Result SizeError ℕ
scaled m none = err size_not_number
scaled m (some (negsuc n)) = err size_not_number
scaled m (some (pos n)) =
    if not (m == 1) && ltb (2 ^ 62 / m) n then err size_too_large else ok (n * m % 2 ^ 64)

-- `strconv.ParseInt(digits, 10, 64)`; a text cut inside a code point is no number.
abbrev pub parse_int : Option Text → Option ℤ
parse_int none = none
parse_int (some s) = atoi s

unfoldable pub with_unit : Text → Text → Result SizeError ℕ
unfolding multiplier scaled slice_to byte_length atoi
with_unit trimmed unit =
    if ltb (byte_length trimmed) (byte_length unit)
    then err slice_out_of_range
    else elim (multiplier unit) [
      | none ↦ err (unknown_unit unit)
      | some m ↦ scaled m (parse_int (slice_to (byte_length trimmed - byte_length unit) trimmed))
    ]

unfoldable pub by_unit : Text → Text → Result SizeError ℕ
unfolding with_unit scaled atoi
by_unit trimmed unit = if is_empty unit then scaled 1 (atoi trimmed) else with_unit trimmed unit

unfoldable pub parse_trimmed : (ℕ → ℕ) → Text → Result SizeError ℕ
unfolding trim_digits by_unit
parse_trimmed lower [] = err size_empty
parse_trimmed lower (c ∷ s) = by_unit (c ∷ s) (map lower (trim_digits (c ∷ s)))

-- `parseByteSize`
unfoldable pub parse_byte_size : (ℕ → ℕ) → Text → Result SizeError ℕ
unfolding parse_trimmed trim_space
parse_byte_size lower text = parse_trimmed lower (trim_space text)
