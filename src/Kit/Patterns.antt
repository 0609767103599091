-- ===== src/Kit/Patterns.antt =====
-- internal/kit/validate.go: the regular expressions of the validator, as tests on code points.
use boks.Prelude.{ℕ, Bool, false, ◌&&◌, ◌||◌, [], ◌∷◌, leb, ◌==◌, length, all}
use boks.Strings.{Text, split}
use boks.Strings.Decimal.{is_digit}

abbrev is_lower : ℕ → Bool
is_lower c = leb b'a' c && leb c b'z'

abbrev is_upper : ℕ → Bool
is_upper c = leb b'A' c && leb c b'Z'

abbrev is_letter : ℕ → Bool
is_letter c = is_lower c || is_upper c

abbrev is_lower_alnum : ℕ → Bool
is_lower_alnum c = is_lower c || is_digit c

abbrev is_alnum : ℕ → Bool
is_alnum c = is_letter c || is_digit c

abbrev starts : (ℕ → Bool) → (ℕ → Bool) → Text → Bool
starts first later [] = false
starts first later (c ∷ s) = first c && all later s

abbrev last_passes : (ℕ → Bool) → Text → Bool
last_passes p [] = false
last_passes p (c ∷ []) = p c
last_passes p (c ∷ d ∷ s) = last_passes p (d ∷ s)

-- `namePattern`
unfoldable pub is_kit_name : Text → Bool
unfolding is_digit
is_kit_name s =
    starts is_lower_alnum (λ c. is_lower_alnum c || c == b'-') s
    && last_passes is_lower_alnum s
    && leb (length s) 64

-- `shellIdentifierPattern`
unfoldable pub is_shell_identifier : Text → Bool
unfolding is_digit
is_shell_identifier = starts (λ c. is_letter c || c == b'_') (λ c. is_alnum c || c == b'_')

-- `lockedPathPattern`
unfoldable pub is_locked_path : Text → Bool
unfolding is_digit split
is_locked_path s = all (starts is_lower is_alnum) (split b'.' s)

-- `argNamePattern`
unfoldable pub is_arg_name : Text → Bool
unfolding is_digit
is_arg_name = starts (λ c. is_letter c || c == b'_') (λ c. is_alnum c || c == b'_' || c == b'-')

abbrev is_octal_digits : Text → Bool
is_octal_digits s = all (λ c. leb b'0' c && leb c b'7') s && leb 3 (length s) && leb (length s) 4

-- `octalModePattern`
unfoldable pub is_octal_mode : Text → Bool
is_octal_mode [] = false
is_octal_mode (c ∷ s) = is_octal_digits (c ∷ s) || c == b'0' && is_octal_digits s
