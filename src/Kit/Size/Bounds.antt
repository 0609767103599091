-- ===== src/Kit/Size/Bounds.antt =====
-- What `parseByteSize` returns.
use native.Mathlib.Nat.{mul-le-mul_right, div-mul-le_self}
use boks.Prelude.{
  ℕ, zero, suc, ◌-◌, ◌*◌, ◌/◌, ◌^◌, ◌≤◌, ◌<◌, ◌≡◌, inl, inr, Bool, true, false, not, ◌&&◌, Option,
  none, some, [], ◌∷◌, map, arith, ltb, leb, ◌==◌, Bool-cases, Option-cases, Result, err, ok,
}
use boks.Strings.{Text, is_empty, trim_space, byte_length}
use boks.Strings.Decimal.{ℤ, pos, negsuc, signed, magnitude, atoi}
use boks.Kit.Size.{
  SizeError, trim_digits, multiplier, slice_to, scaled, parse_int, with_unit, by_unit,
  parse_trimmed, parse_byte_size,
}

-- A size that an int64 holds.
abbrev pub IsSize : Result SizeError ℕ → Type 0
IsSize (err why) = Unit
IsSize (ok n) = n < 2 ^ 63

-- The numbers that `ParseInt` returns.
abbrev IsInt : Option ℤ → Type 0
IsInt none = Unit
IsInt (some (negsuc n)) = Unit
IsInt (some (pos n)) = n < 2 ^ 63

signed-IsInt : (negative : Bool) (n : Option ℕ) → IsInt (signed negative n)
unfolding signed
signed-IsInt negative none = tt
signed-IsInt true (some zero) = omega arith
signed-IsInt true (some (suc n)) = elim (Bool-cases (leb n (2 ^ 63 - 1))) [
  | inl e ↦ rw e tt
  | inr e ↦ rw e tt
]
signed-IsInt false (some n) = elim (Bool-cases (leb n (2 ^ 63 - 1))) [
  | inl e ↦ rw e (ground arith)
  | inr e ↦ rw e tt
]

atoi-IsInt : (s : Text) → IsInt (atoi s)
unfolding atoi
atoi-IsInt [] = tt
atoi-IsInt (c ∷ s) = elim (Bool-cases (c == b'+')) [
  | inl e ↦ rw e (signed-IsInt false (magnitude s))
  | inr e ↦ elim (Bool-cases (c == b'-')) [
    | inl e' ↦ rw (e, e') (signed-IsInt true (magnitude s))
    | inr e' ↦ rw (e, e') (signed-IsInt false (magnitude (c ∷ s)))
  ]
]

pub multiplier-bounds : (unit : Text) (m : ℕ) → multiplier unit ≡ some m → (1 ≤ m) × (m ≤ 2 ^ 40)
unfolding multiplier
multiplier-bounds unit m h = ground arith

scaled-IsSize : (m : ℕ) (z : Option ℤ) → 1 ≤ m → IsInt z → IsSize (scaled m z)
unfolding scaled
scaled-IsSize m none h i = tt
scaled-IsSize m (some (negsuc n)) h i = tt
scaled-IsSize m (some (pos n)) h i = elim (Bool-cases (not (m == 1) && ltb (2 ^ 62 / m) n)) [
  | inl e ↦ rw e tt
  | inr e ↦ rw e (elim (Bool-cases (m == 1)) [
    | inl one ↦ let same : m ≡ 1 = ground (arith, one) in rw same (omega (arith, i))
    | inr more ↦
        let fits : n ≤ 2 ^ 62 / m = ground (arith, e, more) in
        let up : n * m ≤ 2 ^ 62 / m * m = mul-le-mul_right m fits in
        let down : 2 ^ 62 / m * m ≤ 2 ^ 62 = div-mul-le_self (2 ^ 62) m in omega (arith, up, down)
  ])
]

parse_int-IsInt : (s : Option Text) → IsInt (parse_int s)
parse_int-IsInt none = tt
parse_int-IsInt (some s) = atoi-IsInt s

with_unit-IsSize : (trimmed unit : Text) → IsSize (with_unit trimmed unit)
unfolding with_unit
with_unit-IsSize trimmed unit = elim (Bool-cases (ltb (byte_length trimmed) (byte_length unit))) [
  | inl e ↦ rw e tt
  | inr e ↦ elim (Option-cases (multiplier unit)) [
    | inl u ↦ rw (e, u) tt
    | inr (m, u) ↦
        let front = slice_to (byte_length trimmed - byte_length unit) trimmed in
        rw (e, u)
          (scaled-IsSize m (parse_int front) (multiplier-bounds unit m u).0 (parse_int-IsInt front))
  ]
]

by_unit-IsSize : (trimmed unit : Text) → IsSize (by_unit trimmed unit)
unfolding by_unit
by_unit-IsSize trimmed unit = elim (Bool-cases (is_empty unit)) [
  | inl e ↦ rw e (scaled-IsSize 1 (atoi trimmed) (omega arith) (atoi-IsInt trimmed))
  | inr e ↦ rw e (with_unit-IsSize trimmed unit)
]

parse_trimmed-IsSize : (lower : ℕ → ℕ) (s : Text) → IsSize (parse_trimmed lower s)
unfolding parse_trimmed
parse_trimmed-IsSize lower [] = tt
parse_trimmed-IsSize lower (c ∷ s) = by_unit-IsSize (c ∷ s) (map lower (trim_digits (c ∷ s)))

-- A size that `parseByteSize` returns is less than 2^63, whatever the text: the product never wraps
-- to a negative or to a small number of bytes.
pub parse_byte_size-IsSize : (lower : ℕ → ℕ) (text : Text) → IsSize (parse_byte_size lower text)
unfolding parse_byte_size
parse_byte_size-IsSize lower text = parse_trimmed-IsSize lower (trim_space text)
