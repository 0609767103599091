-- ===== src/Strings/Decimal.antt =====
-- `strconv.Itoa` and `strconv.Atoi` on 64-bit integers.
use boks.Prelude.{
  ℕ, zero, suc, ◌+◌, ◌-◌, ◌*◌, ◌/◌, ◌%◌, ◌^◌, ◌≤◌, ◌<◌, ◌≡◌, Bool, true, false, ◌&&◌, Option, none,
  some, List, [], ◌∷◌, arith, ltb, leb, ◌==◌, if◌then◌else◌,
}

-- `negsuc n` is -(n + 1).
pub data ℤ : Type 0 where
  pos : ℕ → ℤ
  negsuc : ℕ → ℤ

abbrev Digits : Type 0
Digits = List ℕ

unfoldable pub is_digit : ℕ → Bool
is_digit c = leb b'0' c && leb c b'9'

unfoldable pub digits : ℕ → ℕ → List ℕ → List ℕ
digits zero n out = out
digits (suc fuel) n out =
    let rest = digits fuel (n / 10) ((b'0' + n % 10) ∷ out) in
    if ltb n 10 then (b'0' + n) ∷ out else rest

-- `strconv.Itoa` of a number that is not negative. `n + 1` rounds are enough.
unfoldable pub itoa : ℕ → List ℕ
unfolding digits
itoa n = digits (suc n) n []

-- The value of the digits that follow a number already read.
unfoldable pub value : ℕ → List ℕ → Option ℕ
value acc [] = some acc
value acc (c ∷ s) = let rest = value (acc * 10 + (c - b'0')) s in if is_digit c then rest else none

abbrev int64_max : ℕ
int64_max = 2 ^ 63 - 1

unfoldable pub signed : Bool → Option ℕ → Option ℤ
signed negative none = none
signed false (some n) = if leb n int64_max then some (pos n) else none
signed true (some zero) = some (pos zero)
signed true (some (suc n)) = if leb n int64_max then some (negsuc n) else none

-- at least one digit
unfoldable pub magnitude : List ℕ → Option ℕ
unfolding value is_digit
magnitude [] = none
magnitude (c ∷ s) = value 0 (c ∷ s)

-- `strconv.Atoi`: an optional sign and decimal digits, in the range of `int64`.
unfoldable pub atoi : List ℕ → Option ℤ
unfolding signed magnitude
atoi [] = none
atoi (c ∷ s) =
    if c == b'+'
    then signed false (magnitude s)
    else if c == b'-'
    then signed true (magnitude s)
    else signed false (magnitude (c ∷ s))

value-digits : (f n : ℕ) (out : List ℕ) → n < f → value 0 (digits f n out) ≡ value n out
unfolding value digits is_digit
value-digits zero n out h = absurd (omega arith)
value-digits (suc f) n out h = ground (arith, value-digits f (n / 10) ((b'0' + n % 10) ∷ out))

-- The first character is a digit, and the text is not empty.
abbrev pub StartsWithDigit : List ℕ → Type 0
StartsWithDigit [] = ⊥
StartsWithDigit (c ∷ s) = is_digit c ≡ true

digits-StartsWithDigit : (f n : ℕ) (out : List ℕ) → n < f → StartsWithDigit (digits f n out)
unfolding digits is_digit
digits-StartsWithDigit zero n out h = absurd (omega arith)
digits-StartsWithDigit (suc f) n out h =
    ground (arith, digits-StartsWithDigit f (n / 10) ((b'0' + n % 10) ∷ out))

pub atoi-digits :
    (s : List ℕ) (n : ℕ)
    → StartsWithDigit s
    → value 0 s ≡ some n
    → n ≤ int64_max
    → atoi s ≡ some (pos n)
unfolding atoi
atoi-digits [] n h e b = absurd h
atoi-digits (c ∷ s) n h e b = ground arith

pub atoi-itoa : (n : ℕ) → n ≤ int64_max → atoi (itoa n) ≡ some (pos n)
unfolding itoa value
atoi-itoa n h =
    atoi-digits (itoa n) n (digits-StartsWithDigit (suc n) n [] (omega arith))
      (value-digits (suc n) n [] (omega arith)) h

pub itoa-StartsWithDigit : (n : ℕ) → StartsWithDigit (itoa n)
unfolding itoa
itoa-StartsWithDigit n = digits-StartsWithDigit (suc n) n [] (omega arith)
