-- ===== src/Secret/Oauth/Sentinel/Shape.antt =====
-- The shape of the sentinels that `NewSentinel` makes.
use boks.Prelude.{
  ℕ, zero, suc, ◌+◌, ◌-◌, ◌*◌, ◌%◌, ◌≤◌, ◌≡◌, refl, ap, ◌∙◌, inl, inr, Bool, true, false, not, ◌&&◌,
  [], ◌∷◌, ◌++◌, arith, ltb, Bool-cases, length, get_elem?, take, any, all, length-append, ok,
}
use boks.Strings.{Text, byte_length}
use boks.Secret.Inject.{is_newline}
use boks.Secret.Oauth.{valid_sentinel}
use boks.Secret.Oauth.Sentinel.{
  marker, filler, sanitize_sentinel, or_zero, filler_at, fill, new_sentinel,
}

-- ASCII, and no newline.
abbrev pub is_plain : ℕ → Bool
is_plain c = ltb c 128 && not (is_newline c)

byte_length-plain : (s : Text) → all is_plain s ≡ true → byte_length s ≡ length s
unfolding byte_length
byte_length-plain [] h = refl
byte_length-plain (c ∷ s) h = ground (arith, h, byte_length-plain s)

newline-plain : (s : Text) → all is_plain s ≡ true → any is_newline s ≡ false
newline-plain [] h = refl
newline-plain (c ∷ s) h = ground (arith, h, newline-plain s)

all-append : (p : ℕ → Bool) (s t : Text) → all p s ≡ true → all p t ≡ true → all p (s ++ t) ≡ true
all-append p [] t h k = k
all-append p (c ∷ s) t h k = ground (arith, h, all-append p s t)

all-take : (p : ℕ → Bool) (n : ℕ) (s : Text) → all p s ≡ true → all p (take n s) ≡ true
all-take p zero s h = refl
all-take p (suc n) [] h = refl
all-take p (suc n) (c ∷ s) h = ground (arith, h, all-take p n s)

length-take : (n : ℕ) (s : Text) → n ≤ length s → length (take n s) ≡ n
length-take zero s h = refl
length-take (suc n) [] h = omega (arith, h)
length-take (suc n) (c ∷ s) h = omega (arith, length-take n s (omega (arith, h)))

sanitize-plain : (s : Text) → all is_plain (sanitize_sentinel s) ≡ true
unfolding sanitize_sentinel
sanitize-plain [] = refl
sanitize-plain (c ∷ s) = ground (arith, sanitize-plain s)

get_elem-plain :
    (s : Text) (n : ℕ) → all is_plain s ≡ true → is_plain (or_zero (get_elem? s n)) ≡ true
get_elem-plain [] n h = refl
get_elem-plain (c ∷ s) zero h = ground (arith, h)
get_elem-plain (c ∷ s) (suc n) h = get_elem-plain s n (ground (arith, h))

fill-plain : (m i n : ℕ) → all is_plain (fill m i n) ≡ true
unfolding fill filler_at
fill-plain m i zero = refl
fill-plain m i (suc n) =
    let first = get_elem-plain filler ((i * 7 + m) % 62) refl in
    rw (first, fill-plain m (suc i) n) refl

length-fill : (m i n : ℕ) → length (fill m i n) ≡ n
unfolding fill
length-fill m i zero = refl
length-fill m i (suc n) = omega (arith, length-fill m (suc i) n)

valid-plain :
    (s : Text) (size : ℕ)
    → all is_plain s ≡ true
    → length s ≡ size
    → 16 ≤ size
    → valid_sentinel s ≡ ok tt
unfolding valid_sentinel
valid-plain [] size h e k = absurd (omega (arith, e, k))
valid-plain (c ∷ s) size h e k =
    let short : ltb (byte_length (c ∷ s)) 16 ≡ false =
      ground (arith, byte_length-plain (c ∷ s) h, e, k) in
    rw (short, newline-plain (c ∷ s) h) refl

-- A sentinel that `NewSentinel` makes of 16 bytes or more, with a prefix of ASCII characters without
-- newlines, is of exactly the length that was asked for, whatever the seed, and is one that
-- `OAuth.Validate` accepts.
pub new_sentinel-valid :
    (prefix seed : Text) (size : ℕ)
    → all is_plain prefix ≡ true
    → 16 ≤ size
    → (valid_sentinel (new_sentinel prefix seed size) ≡ ok tt)
      × (length (new_sentinel prefix seed size) ≡ size)
unfolding new_sentinel
new_sentinel-valid prefix seed size h k =
    let start : Text = prefix ++ (marker ++ b'-' ∷ sanitize_sentinel seed) in
    let more : Text = fill (byte_length seed) 0 (size - length start) in
    let plain : all is_plain (start ++ more) ≡ true =
      all-append is_plain start more
        (all-append is_plain prefix (marker ++ b'-' ∷ sanitize_sentinel seed) h
          (sanitize-plain seed))
        (fill-plain (byte_length seed) 0 (size - length start)) in
    let counted : length (start ++ more) ≡ length start + (size - length start) =
      length-append start more
      ∙ ap (λ n. length start + n) (length-fill (byte_length seed) 0 (size - length start)) in
    elim (Bool-cases (ltb 0 size && ltb size (length (start ++ more)))) [
      | inl e ↦
          let fits : size ≤ length (start ++ more) = ground (arith, e) in
          let sized = length-take size (start ++ more) fits in
          rw e (valid-plain _ size (all-take is_plain size (start ++ more) plain) sized k, sized)
      | inr e ↦
          let sized : length (start ++ more) ≡ size = ground (arith, e, counted, k) in
          rw e (valid-plain _ size plain sized k, sized)
    ]
