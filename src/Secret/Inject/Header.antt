-- ===== src/Secret/Inject/Header.antt =====
-- What a rule that is valid makes of a secret.
use boks.Prelude.{
  ℕ, ◌≡◌, refl, sym, ap, ◌∙◌, inl, inr, true, false, not, ◌&&◌, ◌||◌, some, [], ◌∷◌, ◌++◌, arith,
  ◌==◌, ==_iff, Bool-cases, any, all, Result, err, ok, ◌>>◌,
}
use boks.Strings.{Text, is_empty, count}
use boks.Policy.Pattern.{is_any, pattern_text}
use boks.Secret.Inject.{
  Scheme, no_scheme, bearer, basic, Inject, InjectError, no_domain, any_domain, format_and_scheme,
  username_without_basic, format_placeholders, format_verb, format_newline, is_newline, count_verbs,
  header_of, format_of, effective_format, is_header_char, valid_header_name, valid_format,
  valid_attachment, validate_inject, sprintf, encoded, header_value,
}

abbrev pub Checked : Type 0
Checked = Result InjectError (Unit {0})

-- A format taken apart at its one placeholder, and what it makes of a text.
pub record HasPlace (raw format : Text) : Type 0 where
  pub front : Text
  pub back : Text
  pub place : format ≡ front ++ (b'%' ∷ b's' ∷ back)
  pub filled : sprintf raw format ≡ some (front ++ (raw ++ back))

sprintf-plain : (raw s : Text) → count b'%' s ≡ 0 → sprintf raw s ≡ some s
unfolding sprintf count
sprintf-plain raw [] h = refl
sprintf-plain raw (c ∷ []) h = let other : (c == b'%') ≡ false = ground arith in rw other refl
sprintf-plain raw (c ∷ d ∷ s) h =
    let other : (c == b'%') ≡ false = ground (arith, h) in
    let rest : count b'%' (d ∷ s) ≡ 0 = ground (arith, h) in
    rw (other, sprintf-plain raw (d ∷ s) rest) refl

count_verbs-plain : (s : Text) → count b'%' s ≡ 0 → count_verbs s ≡ 0
unfolding count_verbs count
count_verbs-plain [] h = refl
count_verbs-plain (c ∷ []) h = refl
count_verbs-plain (c ∷ d ∷ s) h =
    let other : (c == b'%') ≡ false = ground (arith, h) in
    let rest : count b'%' (d ∷ s) ≡ 0 = ground (arith, h) in
    rw (other, count_verbs-plain (d ∷ s) rest) refl

==_sound : (a b : ℕ) → (a == b) ≡ true → a ≡ b
==_sound a b h = (==_iff a b).0 h

HasPlace-cons :
    (raw : Text) (c d : ℕ) (s : Text)
    → (c == b'%') ≡ false
    → HasPlace raw (d ∷ s)
    → HasPlace raw (c ∷ d ∷ s)
unfolding sprintf
HasPlace-cons raw c d s h v = record {
  front = c ∷ v.front;
  back = v.back;
  place = ap (λ t. c ∷ t) v.place;
  filled = rw (h, v.filled) refl;
}

sprintf-HasPlace : (raw s : Text) → count_verbs s ≡ 1 → count b'%' s ≡ 1 → HasPlace raw s
unfolding sprintf count_verbs count
sprintf-HasPlace raw [] h k = absurd (omega (arith, h))
sprintf-HasPlace raw (c ∷ []) h k = absurd (omega (arith, h))
sprintf-HasPlace raw (c ∷ d ∷ s) h k = elim (Bool-cases (c == b'%')) [
  | inr e ↦
      let one : count_verbs (d ∷ s) ≡ 1 = ground (arith, h, e) in
      let once : count b'%' (d ∷ s) ≡ 1 = ground (arith, k, e) in
      HasPlace-cons raw c d s e (sprintf-HasPlace raw (d ∷ s) one once)
  | inl e ↦
      let none_left : count b'%' (d ∷ s) ≡ 0 = ground (arith, k, e) in
      elim (Bool-cases (d == b's')) [
        | inl e' ↦
            let rest : count b'%' s ≡ 0 = ground (arith, none_left) in
            record {
              front = [];
              back = s;
              place = rw (==_sound c b'%' e, ==_sound d b's' e') refl;
              filled = rw (e, e', sprintf-plain raw s rest) refl;
            }
        | inr e' ↦
            let zero_verbs = count_verbs-plain (d ∷ s) none_left in
            let bad : count_verbs (d ∷ s) ≡ 1 = rw (count_verbs, e, e') at h in
            absurd (omega (arith, bad, zero_verbs))
      ]
]

-- What a valid rule makes of a secret: its header has a name of letters, digits and `-_.`, its format
-- has one place for the secret and no newline around it, and its domain names hosts.
pub record IsAttached (base64 : Text → Text) (r : Inject) (raw : Text) : Type 0 where
  pub front : Text
  pub back : Text
  pub place : effective_format r ≡ front ++ (b'%' ∷ b's' ∷ back)
  pub rendered :
      header_value base64 r raw ≡ some (front ++ (encoded base64 r.scheme r.username raw ++ back))
  pub one_line : (any is_newline front || any is_newline back) ≡ false
  pub named : (not (is_empty (header_of r)) && all is_header_char (header_of r)) ≡ true
  pub narrow : is_any r.domain ≡ false

-- The checks of a format, each passed.
record IsFormat (s : Text) : Type 0 where
  verbs : count_verbs s ≡ 1
  signs : count b'%' s ≡ 1
  one_line : any is_newline s ≡ false

valid_format-IsFormat : (s : Text) → valid_format s ≡ ok tt → IsFormat s
unfolding valid_format
valid_format-IsFormat s h = elim (Bool-cases (count_verbs s == 1)) [
  | inr a ↦ let bad : err format_placeholders ≡ ok tt = rw a at h in cc
  | inl a ↦ elim (Bool-cases (count b'%' s == 1)) [
    | inr b ↦ let bad : err format_verb ≡ ok tt = rw (a, b) at h in cc
    | inl b ↦ elim (Bool-cases (any is_newline s)) [
      | inl c ↦ let bad : err format_newline ≡ ok tt = rw (a, b, c) at h in cc
      | inr c ↦ record { verbs = ==_sound _ 1 a; signs = ==_sound _ 1 b; one_line = c }
    ]
  ]
]

valid_header_name-chars :
    (name : Text)
    → valid_header_name name ≡ ok tt
    → (not (is_empty name) && all is_header_char name) ≡ true
unfolding valid_header_name
valid_header_name-chars name h = ground (arith, h)

any-around :
    (front back : Text)
    → any is_newline (front ++ (b'%' ∷ b's' ∷ back)) ≡ false
    → (any is_newline front || any is_newline back) ≡ false
any-around [] back h = ground (arith, h)
any-around (c ∷ front) back h = ground (arith, h, any-around front back)

>>-ok : (first rest : Checked) → first >> rest ≡ ok tt → (first ≡ ok tt) × (rest ≡ ok tt)
>>-ok (err why) rest h = cc
>>-ok (ok tt) rest h = (refl, h)

valid_attachment-none :
    (r : Inject)
    → valid_attachment no_scheme r ≡ ok tt
    → (valid_format (effective_format r) ≡ ok tt) × (valid_header_name (header_of r) ≡ ok tt)
unfolding valid_attachment
valid_attachment-none r h = elim (Bool-cases (not (is_empty r.username))) [
  | inl e ↦ let bad : err username_without_basic ≡ ok tt = rw e at h in cc
  | inr e ↦ let rest = rw e at h in >>-ok _ _ rest
]

valid_attachment-basic :
    (r : Inject) → valid_attachment basic r ≡ ok tt → valid_header_name (header_of r) ≡ ok tt
unfolding valid_attachment
valid_attachment-basic r h = elim (Bool-cases (not (is_empty r.format))) [
  | inl e ↦ let bad : err format_and_scheme ≡ ok tt = rw e at h in cc
  | inr e ↦ rw e at h
]

valid_attachment-bearer :
    (r : Inject) → valid_attachment bearer r ≡ ok tt → valid_header_name (header_of r) ≡ ok tt
unfolding valid_attachment
valid_attachment-bearer r h = elim (Bool-cases (not (is_empty r.format))) [
  | inl e ↦ let bad : err format_and_scheme ≡ ok tt = rw e at h in cc
  | inr e ↦ elim (Bool-cases (not (is_empty r.username))) [
    | inl e' ↦ let bad : err username_without_basic ≡ ok tt = rw (e, e') at h in cc
    | inr e' ↦ rw (e, e') at h
  ]
]

-- A valid rule has a format that is fine, whichever scheme it has, and a header name that is.
attachment-valid :
    (r : Inject) (sch : Scheme)
    → r.scheme ≡ sch
    → valid_attachment sch r ≡ ok tt
    → (valid_format (format_of sch r.format) ≡ ok tt) × (valid_header_name (header_of r) ≡ ok tt)
unfolding valid_format effective_format count_verbs count
attachment-valid r no_scheme e h =
    let v = valid_attachment-none r h in let fine = v.0 in (rw e at fine, v.1)
attachment-valid r bearer e h = (refl, valid_attachment-bearer r h)
attachment-valid r basic e h = (refl, valid_attachment-basic r h)

attached :
    (base64 : Text → Text) (r : Inject) (raw : Text)
    → valid_format (effective_format r) ≡ ok tt
    → valid_header_name (header_of r) ≡ ok tt
    → is_any r.domain ≡ false
    → IsAttached base64 r raw
unfolding header_value
attached base64 r raw f n d =
    let v = valid_format-IsFormat (effective_format r) f in
    let secret = encoded base64 r.scheme r.username raw in
    let x = sprintf-HasPlace secret (effective_format r) v.verbs v.signs in
    record {
      front = x.front;
      back = x.back;
      place = x.place;
      rendered = x.filled;
      one_line = any-around x.front x.back (ap (any is_newline) (sym x.place) ∙ v.one_line);
      named = valid_header_name-chars (header_of r) n;
      narrow = d;
    }

-- A rule that `Inject.Validate` accepts attaches a secret in one way: the value of its header is the
-- secret, as the scheme encodes it, between two texts of the rule without newlines; the header has
-- a name of letters, digits and `-_.`; and the rule does not apply to every host.
pub validate_inject-IsAttached :
    (base64 : Text → Text) (r : Inject) (raw : Text)
    → validate_inject r ≡ ok tt
    → IsAttached base64 r raw
unfolding validate_inject effective_format
validate_inject-IsAttached base64 r raw h = elim (Bool-cases (is_empty (pattern_text r.domain))) [
  | inl e ↦ let bad : err no_domain ≡ ok tt = rw e at h in cc
  | inr e ↦ elim (Bool-cases (is_any r.domain)) [
    | inl e' ↦ let bad : err any_domain ≡ ok tt = rw (e, e') at h in cc
    | inr e' ↦
        let v = attachment-valid r r.scheme refl (rw (e, e') at h) in
        attached base64 r raw v.0 v.1 e'
  ]
]
