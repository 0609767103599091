-- ===== src/Secret/Oauth/Sentinel.antt =====
-- internal/secret/oauth.go: `NewSentinel`. The prefix and the result are their bytes; a seed is a text.
-- A length below 0 is as 0.
pub mod Shape
use boks.Prelude.{
  ℕ, zero, suc, ◌+◌, ◌-◌, ◌*◌, ◌%◌, Bool, ◌&&◌, ◌||◌, Option, none, some, [], ◌∷◌, ◌++◌, map, ltb,
  leb, ◌==◌, if◌then◌else◌, length, get_elem?, take,
}
use boks.Strings.{Text, codes, byte_length}

abbrev pub marker : Text
marker = codes "boksproxymanaged"

abbrev pub filler : Text
filler = codes "0123456789abcdefghijklmnopqrstuvwxyzABCDEFGHIJKLMNOPQRSTUVWXYZ"

abbrev pub is_sentinel_char : ℕ → Bool
is_sentinel_char c =
    leb b'a' c && leb c b'z'
    || leb b'A' c && leb c b'Z'
    || leb b'0' c && leb c b'9'
    || c == b'-'
    || c == b'_'

abbrev pub sanitize_char : ℕ → ℕ
sanitize_char c = if is_sentinel_char c then c else b'-'

-- `sanitizeSentinel`
unfoldable pub sanitize_sentinel : Text → Text
sanitize_sentinel s = map sanitize_char s

abbrev pub or_zero : Option ℕ → ℕ
or_zero none = b'0'
or_zero (some c) = c

-- The character of the filler at an index, which is below its length.
unfoldable pub filler_at : ℕ → ℕ
filler_at n = or_zero (get_elem? filler (n % 62))

-- The loop: as many characters as are missing, from the round `i` on.
unfoldable pub fill : ℕ → ℕ → ℕ → Text
unfolding filler_at
fill seed_length i zero = []
fill seed_length i (suc missing) =
    filler_at (i * 7 + seed_length) ∷ fill seed_length (suc i) missing

-- `NewSentinel`
unfoldable pub new_sentinel : Text → Text → ℕ → Text
unfolding sanitize_sentinel fill byte_length
new_sentinel prefix seed size =
    let start = prefix ++ (marker ++ b'-' ∷ sanitize_sentinel seed) in
    let whole = start ++ fill (byte_length seed) 0 (size - length start) in
    if ltb 0 size && ltb size (length whole) then take size whole else whole
