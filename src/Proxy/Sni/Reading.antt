-- ===== src/Proxy/Sni/Reading.antt =====
-- How `extractSNI` behaves on bytes that arrive piece by piece.
use boks.Prelude.{
  ℕ, zero, suc, ◌+◌, ◌*◌, ◌≤◌, ◌<◌, ◌≡◌, refl, ◌≢◌, ◌⊎◌, inl, inr, Bool, true, false, ◌||◌, Option,
  none, some, [], ◌∷◌, ◌++◌, arith, ltb, ◌==◌, if◌then◌else◌, is_some, Bool-cases, Option-cases,
  length,
}
use boks.Proxy.Sni.{
  Bytes, Sni, need_more, no_client_hello, out_of_fuel, u16, take_bytes, vector16, host_name,
  walk_names, read_names, walk_extensions, read_extensions, or_no_hello, read_hello, read_handshake,
  max_client_hello, read_body, read_length, read_version, extract_sni,
}

take_bytes-append :
    (n : ℕ) (r more : Bytes) {front rest : Bytes}
    → take_bytes n r ≡ some (front, rest)
    → take_bytes n (r ++ more) ≡ some (front, rest ++ more)
unfolding take_bytes
take_bytes-append zero r more h = ground arith
take_bytes-append (suc n) [] more h = cc
take_bytes-append (suc n) (b ∷ r) more {front} {rest} h = elim (Option-cases (take_bytes n r)) [
  | inl e ↦ ground (arith, e)
  | inr ((f, t), e) ↦ ground (arith, take_bytes-append n r more e, e)
]

pub take_bytes-le : (n : ℕ) (r : Bytes) → n ≤ length r → is_some (take_bytes n r) ≡ true
unfolding take_bytes
take_bytes-le zero r h = refl
take_bytes-le (suc n) [] h = absurd (omega arith)
take_bytes-le (suc n) (b ∷ r) h = ground (arith, take_bytes-le n r)

length-take_bytes :
    (n : ℕ) (r : Bytes) {front rest : Bytes}
    → take_bytes n r ≡ some (front, rest)
    → n + length rest ≡ length r
unfolding take_bytes
length-take_bytes zero r h = ground arith
length-take_bytes (suc n) [] h = cc
length-take_bytes (suc n) (b ∷ r) {front} {rest} h = elim (Option-cases (take_bytes n r)) [
  | inl e ↦ ground (arith, e)
  | inr ((f, t), e) ↦ ground (arith, length-take_bytes n r e, e)
]

read_body-append :
    (len : ℕ) (r more : Bytes)
    → read_body len r ≢ need_more
    → read_body len (r ++ more) ≡ read_body len r
unfolding read_body
read_body-append len r more h = elim (Option-cases (take_bytes len r)) [
  | inl e ↦ ground (arith, e)
  | inr ((f, t), e) ↦ ground (arith, e, take_bytes-append len r more e)
]

read_length-append :
    (r more : Bytes) → read_length r ≢ need_more → read_length (r ++ more) ≡ read_length r
unfolding read_length
read_length-append [] more h = absurd (h refl)
read_length-append (a ∷ []) more h = absurd (h refl)
read_length-append (a ∷ b ∷ r) more h = read_body-append (a * 256 + b) r more h

read_version-append :
    (r more : Bytes) → read_version r ≢ need_more → read_version (r ++ more) ≡ read_version r
unfolding read_version take_bytes
read_version-append [] more h = absurd (h refl)
read_version-append (a ∷ []) more h = absurd (h refl)
read_version-append (a ∷ b ∷ r) more h = read_length-append r more h

-- An answer other than "more bytes are needed" is final: the bytes that follow do not change it.
pub extract_sni-append :
    (buf more : Bytes) → extract_sni buf ≢ need_more → extract_sni (buf ++ more) ≡ extract_sni buf
unfolding extract_sni
extract_sni-append [] more h = absurd (h refl)
extract_sni-append (k ∷ r) more h = elim (Bool-cases (k == 0x16)) [
  | inl e ↦ rw e (read_version-append r more (λ n. h (rw e n)))
  | inr e ↦ rw e
]

-- Whether a result is an answer: neither a request for more bytes nor a run out of fuel.
unfoldable pub is_answer : Sni → Bool
is_answer need_more = false
is_answer out_of_fuel = false
is_answer _ = true

length-vector16 :
    (r : Bytes) {front rest : Bytes}
    → vector16 r ≡ some (front, rest)
    → 2 + length front + length rest ≤ length r + length front
unfolding vector16
length-vector16 [] h = cc
length-vector16 (a ∷ []) h = cc
length-vector16 (a ∷ b ∷ r) h = omega (arith, length-take_bytes (a * 256 + b) r h)

length-vector16_front :
    (r : Bytes) {front rest : Bytes} → vector16 r ≡ some (front, rest) → length rest + 2 ≤ length r
length-vector16_front r h = omega (arith, length-vector16 r h)

is_answer-host_name : (host : Bytes) → is_answer (host_name host) ≡ true
unfolding is_answer host_name
is_answer-host_name [] = refl
is_answer-host_name (c ∷ host) = refl

is_answer-if :
    (b : Bool) (s t : Sni)
    → is_answer s ≡ true
    → is_answer t ≡ true
    → is_answer (if b then s else t) ≡ true
is_answer-if true s t h k = h
is_answer-if false s t h k = k

is_answer-walk_names :
    (fuel : ℕ) (l : Bytes) → length l ≤ fuel → is_answer (walk_names fuel l) ≡ true
unfolding walk_names is_answer
is_answer-walk_names zero [] h = refl
is_answer-walk_names (suc fuel) [] h = refl
is_answer-walk_names zero (t ∷ r) h = absurd (omega arith)
is_answer-walk_names (suc fuel) (t ∷ r) h = elim (Option-cases (vector16 r)) [
  | inl e ↦ rw (e, is_answer) refl
  | inr ((host, rest), e) ↦
      let shorter = length-vector16_front r e in
      rw (e, is_answer)
        (is_answer-if (t == 0) (host_name host) (walk_names fuel rest) (is_answer-host_name host)
          (is_answer-walk_names fuel rest (omega arith)))
]

is_answer-read_names : (ext : Bytes) → is_answer (read_names ext) ≡ true
unfolding read_names is_answer
is_answer-read_names ext = elim (Option-cases (vector16 ext)) [
  | inl e ↦ rw (e, is_answer) refl
  | inr ((l, rest), e) ↦ rw (e, is_answer) (is_answer-walk_names (length l) l (omega arith))
]

is_answer-walk_extensions :
    (fuel : ℕ) (l : Bytes) → length l ≤ fuel → is_answer (walk_extensions fuel l) ≡ true
unfolding walk_extensions u16 is_answer
is_answer-walk_extensions zero [] h = refl
is_answer-walk_extensions (suc fuel) [] h = refl
is_answer-walk_extensions zero (t ∷ r) h = absurd (omega arith)
is_answer-walk_extensions (suc fuel) (a ∷ []) h = refl
is_answer-walk_extensions (suc fuel) (a ∷ b ∷ r) h = elim (Option-cases (vector16 r)) [
  | inl e ↦ rw (e, is_answer) refl
  | inr ((ext, rest), e) ↦
      let shorter = length-vector16_front r e in
      rw (e, is_answer)
        (is_answer-if (a * 256 + b == 0) (read_names ext) (walk_extensions fuel rest)
          (is_answer-read_names ext) (is_answer-walk_extensions fuel rest (omega arith)))
]

is_answer-read_extensions : (h : Bytes) → is_answer (read_extensions h) ≡ true
unfolding read_extensions is_answer
is_answer-read_extensions h = elim (Option-cases (vector16 h)) [
  | inl e ↦ rw (e, is_answer) refl
  | inr ((l, rest), e) ↦ rw (e, is_answer) (is_answer-walk_extensions (length l) l (omega arith))
]

is_answer-or_no_hello :
    (o : Option (Bytes × Bytes)) (next : Bytes → Sni)
    → ((r : Bytes) → is_answer (next r) ≡ true)
    → is_answer (or_no_hello o next) ≡ true
unfolding or_no_hello is_answer
is_answer-or_no_hello none next h = refl
is_answer-or_no_hello (some (x, rest)) next h = h rest

is_answer-read_hello : (h : Bytes) → is_answer (read_hello h) ≡ true
unfolding read_hello
is_answer-read_hello h = is_answer-or_no_hello _ _ λ h1. is_answer-or_no_hello _ _ λ h2.
    is_answer-or_no_hello _ _ λ h3.
      is_answer-or_no_hello _ _
        λ h4. is_answer-or_no_hello _ read_extensions is_answer-read_extensions

is_answer-read_handshake : (h : Bytes) → is_answer (read_handshake h) ≡ true
unfolding read_handshake is_answer
is_answer-read_handshake [] = refl
is_answer-read_handshake (kind ∷ h) =
    is_answer-if (kind == 1) (read_hello h) no_client_hello (is_answer-read_hello h) refl

-- Either an answer, or a request for more bytes while fewer than `n` have come.
abbrev pub AnswersWithin : ℕ → Bytes → Sni → Type 0
AnswersWithin n buf s = (is_answer s ≡ true) ⊎ ((s ≡ need_more) × (length buf < n))

read_body-AnswersWithin : (len : ℕ) (r : Bytes) → AnswersWithin max_client_hello r (read_body len r)
unfolding read_body is_answer
read_body-AnswersWithin len r = elim (Bool-cases (len == 0 || ltb max_client_hello len)) [
  | inl e ↦ inl (rw e refl)
  | inr e ↦ elim (Option-cases (take_bytes len r)) [
    | inr ((body, rest), t) ↦ inl (rw (e, t) (is_answer-read_handshake body))
    | inl t ↦ inr (rw (e, t) refl, ground (arith, take_bytes-le len r))
  ]
]

read_version-AnswersWithin : (r : Bytes) → AnswersWithin (max_client_hello + 4) r (read_version r)
unfolding read_version take_bytes
read_version-AnswersWithin [] = inr (refl, omega arith)
read_version-AnswersWithin (a ∷ []) = inr (refl, omega arith)
read_version-AnswersWithin (a ∷ b ∷ []) = inr (refl, omega arith)
read_version-AnswersWithin (a ∷ b ∷ c ∷ []) = inr (refl, omega arith)
read_version-AnswersWithin (a ∷ b ∷ c ∷ d ∷ r) = elim (read_body-AnswersWithin (c * 256 + d) r) [
  | inl h ↦ inl h
  | inr (h, k) ↦ inr (h, omega arith)
]

-- Every input gets an answer, or a request for more bytes before a whole record of the largest
-- size has come: five bytes of header and 16384 of payload. The fuel of the model never runs out.
pub extract_sni-AnswersWithin :
    (buf : Bytes) → AnswersWithin (max_client_hello + 5) buf (extract_sni buf)
unfolding extract_sni is_answer
extract_sni-AnswersWithin [] = inr (refl, omega arith)
extract_sni-AnswersWithin (k ∷ r) = elim (Bool-cases (k == 0x16)) [
  | inr e ↦ inl (rw e refl)
  | inl e ↦ rw e (elim (read_version-AnswersWithin r) [
    | inl h ↦ inl h
    | inr (h, short) ↦ inr (h, omega arith)
  ])
]
