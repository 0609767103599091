-- ===== src/Kit/Size/Units.antt =====
-- The size that a decimal number and a unit stand for.
use native.Mathlib.Nat.{mul-le-mul_right, div-mul-le_self, div-le_self}
use boks.Prelude.{
  ℕ, zero, suc, ◌+◌, ◌-◌, ◌*◌, ◌/◌, ◌%◌, ◌^◌, ◌≤◌, ◌≡◌, refl, ap, ◌∙◌, true, false, not, ◌&&◌, some,
  [], ◌∷◌, ◌++◌, map, arith, ltb, ◌==◌, has_any, any, all, ok,
}
use boks.Strings.{Text, is_empty, is_space, rune_bytes, byte_length}
use boks.Strings.Laws.{trim_space-none}
use boks.Strings.Decimal.{
  pos, is_digit, digits, itoa, atoi, StartsWithDigit, atoi-itoa, itoa-StartsWithDigit,
}
use boks.Kit.Size.Bounds.{multiplier-bounds}
use boks.Kit.Size.{
  trim_digits, multiplier, slice_to, scaled, with_unit, by_unit, parse_trimmed, parse_byte_size,
}

byte_length-append : (s t : Text) → byte_length (s ++ t) ≡ byte_length s + byte_length t
unfolding byte_length
byte_length-append [] t = omega arith
byte_length-append (c ∷ s) t = omega (arith, byte_length-append s t)

rune_bytes-pos : (c : ℕ) → 1 ≤ rune_bytes c
rune_bytes-pos c = ground arith

slice_to-append : (s t : Text) → slice_to (byte_length s) (s ++ t) ≡ some s
unfolding slice_to byte_length
slice_to-append [] [] = refl
slice_to-append [] (c ∷ t) = refl
slice_to-append (c ∷ s) t =
    let size = rune_bytes c in
    let one = rune_bytes-pos c in
    let more : (size + byte_length s == 0) ≡ false = ground (arith, one) in
    let whole : ltb (size + byte_length s) size ≡ false = ground arith in
    let left : size + byte_length s - size ≡ byte_length s = omega arith in
    rw (more, whole, left, slice_to-append s t) refl

-- A unit: not empty, without digits and spaces.
pub record IsUnit (unit : Text) : Type 0 where
  pub some_rune : has_any unit ≡ true
  pub no_digit : any is_digit unit ≡ false
  pub no_space : any is_space unit ≡ false

trim_digits-append :
    (s unit : Text)
    → all is_digit s ≡ true
    → any is_digit unit ≡ false
    → trim_digits (s ++ unit) ≡ unit
unfolding trim_digits
trim_digits-append [] [] h k = refl
trim_digits-append [] (c ∷ unit) h k = ground arith
trim_digits-append (c ∷ s) unit h k = ground (arith, trim_digits-append s unit)

all-digits : (f n : ℕ) (out : Text) → all is_digit out ≡ true → all is_digit (digits f n out) ≡ true
unfolding digits is_digit
all-digits zero n out h = h
all-digits (suc f) n out h = ground (arith, all-digits f (n / 10) ((b'0' + n % 10) ∷ out))

any_space-digits :
    (s unit : Text)
    → all is_digit s ≡ true
    → any is_space unit ≡ false
    → any is_space (s ++ unit) ≡ false
unfolding is_digit is_space
any_space-digits [] unit h k = k
any_space-digits (c ∷ s) unit h k =
    let later : all is_digit s ≡ true = ground (arith, h) in
    let rest = any_space-digits s unit later k in
    let digit : is_digit c ≡ true = ground (arith, h) in rw rest (ground (arith, digit))

itoa-digits : (n : ℕ) → all is_digit (itoa n) ≡ true
unfolding itoa
itoa-digits n = all-digits (suc n) n [] refl

is_empty-map :
    (lower : ℕ → ℕ) (unit : Text) → has_any unit ≡ true → is_empty (map lower unit) ≡ false
is_empty-map lower [] h = cc
is_empty-map lower (c ∷ unit) h = refl

with_unit-fits :
    (front unit small : Text) (n m : ℕ)
    → byte_length small ≡ byte_length unit
    → multiplier small ≡ some m
    → atoi front ≡ some (pos n)
    → 1 ≤ m
    → n ≤ 2 ^ 62 / m
    → with_unit (front ++ unit) small ≡ ok (n * m)
unfolding with_unit scaled
with_unit-fits front unit small n m same known read one fits =
    let size = byte_length-append front unit in
    let long : ltb (byte_length front + byte_length unit) (byte_length unit) ≡ false =
      ground arith in
    let left : byte_length front + byte_length unit - byte_length unit ≡ byte_length front =
      omega arith in
    let small_enough : ltb (2 ^ 62 / m) n ≡ false = ground arith in
    let up : n * m ≤ 2 ^ 62 / m * m = mul-le-mul_right m fits in
    let down : 2 ^ 62 / m * m ≤ 2 ^ 62 = div-mul-le_self (2 ^ 62) m in
    let whole : n * m % 2 ^ 64 ≡ n * m = omega (arith, up, down) in
    let test : (not (m == 1) && ltb (2 ^ 62 / m) n) ≡ false = ground (arith, small_enough) in
    rw
      (
        same,
        size,
        long,
        known,
        same,
        size,
        left,
        slice_to-append front unit,
        read,
        scaled,
        test,
        whole,
      )
      refl

by_unit-some :
    (trimmed unit : Text) → is_empty unit ≡ false → by_unit trimmed unit ≡ with_unit trimmed unit
unfolding by_unit
by_unit-some trimmed unit h = rw h refl

parse_trimmed-unit :
    (lower : ℕ → ℕ) (front unit : Text)
    → StartsWithDigit front
    → all is_digit front ≡ true
    → IsUnit unit
    → parse_trimmed lower (front ++ unit) ≡ with_unit (front ++ unit) (map lower unit)
unfolding parse_trimmed
parse_trimmed-unit lower [] unit d h v = absurd d
parse_trimmed-unit lower (c ∷ s) unit d h v =
    ap (λ u. by_unit (c ∷ (s ++ unit)) (map lower u)) (trim_digits-append (c ∷ s) unit h v.no_digit)
    ∙ by_unit-some (c ∷ (s ++ unit)) (map lower unit) (is_empty-map lower unit v.some_rune)

-- A decimal number with a unit is the number times the unit's multiplier, where the product is at
-- most 2^62: the unit has no digit and no space, and its lower case takes as many bytes.
pub parse_byte_size-itoa :
    (lower : ℕ → ℕ) (n m : ℕ) (unit : Text)
    → IsUnit unit
    → byte_length (map lower unit) ≡ byte_length unit
    → multiplier (map lower unit) ≡ some m
    → n ≤ 2 ^ 62 / m
    → parse_byte_size lower (itoa n ++ unit) ≡ ok (n * m)
unfolding parse_byte_size
parse_byte_size-itoa lower n m unit v same known fits =
    let front = itoa n in
    let digit = itoa-digits n in
    let plain = trim_space-none (front ++ unit) (any_space-digits front unit digit v.no_space) in
    let one = (multiplier-bounds (map lower unit) m known).0 in
    let small : n ≤ 2 ^ 63 - 1 = omega (arith, fits, div-le_self (2 ^ 62) m) in
    let read = atoi-itoa n small in
    rw (plain, parse_trimmed-unit lower front unit (itoa-StartsWithDigit n) digit v)
      (with_unit-fits front unit (map lower unit) n m same known read one fits)
