-- ===== src/Policy/Ports/Canonical.antt =====
-- The text of a parsed port set parses to the same set.
use mathlib.Core.Path.{subst}
use boks.Prelude.{
  ℕ, zero, suc, ◌+◌, ◌/◌, ◌%◌, ◌≤◌, ◌<◌, ◌≡◌, refl, ap, ◌∙◌, inl, inr, Bool, true, false, ◌||◌,
  List, [], ◌∷◌, ◌++◌, map, arith, ◌==◌, ==_iff, Bool-cases, all, All, ok, ok-injective, >>=-eq-ok,
}
use boks.Strings.{Text, codes, text_eq, is_empty, trim_space, contains, split, join}
use boks.Strings.Laws.{all-weaken, contains-excluded}
use boks.Strings.Splitting.{all-append, cut-none, cut-append, Lacks, split-join}
use boks.Strings.Decimal.{is_digit, digits, itoa, StartsWithDigit, atoi-itoa, itoa-StartsWithDigit}
use boks.Policy.Target.{check_port}
use boks.Policy.Target.Canonical.{is_plain_char, trim_space-plain}
use boks.Policy.Ports.{
  PortRange, PortSet, parse_port, ends, make_range, range_between, parse_range, parse_ranges,
  parse_ports, range_text, ports_text,
}

pub record IsRange (r : PortRange) : Type 0 where
  pub low : 1 ≤ r.lo
  pub order : r.lo ≤ r.hi
  pub high : r.hi ≤ 65535

all-digits :
    (f n : ℕ) (out : Text) → n < f → all is_digit out ≡ true → all is_digit (digits f n out) ≡ true
unfolding digits is_digit
all-digits zero n out h k = absurd (omega arith)
all-digits (suc f) n out h k = ground (arith, all-digits f (n / 10) ((b'0' + n % 10) ∷ out))

all-itoa : (n : ℕ) → all is_digit (itoa n) ≡ true
unfolding itoa
all-itoa n = all-digits (suc n) n [] (omega arith) refl

digit_plain : (c : ℕ) → is_digit c ≡ true → is_plain_char c ≡ true
unfolding is_plain_char is_digit
digit_plain c h = ground arith

pub itoa_plain : (n : ℕ) → all is_plain_char (itoa n) ≡ true
itoa_plain n = all-weaken is_digit is_plain_char (itoa n) digit_plain (all-itoa n)

pub itoa_lacks : (d n : ℕ) → is_digit d ≡ false → contains d (itoa n) ≡ false
itoa_lacks d n h = contains-excluded is_digit d (itoa n) h (all-itoa n)

parse_port-itoa : (n : ℕ) → 1 ≤ n → n ≤ 65535 → parse_port (itoa n) ≡ ok n
unfolding parse_port check_port
parse_port-itoa n l h =
    rw (trim_space-plain (itoa n) (itoa_plain n), atoi-itoa n (omega arith), parse_port)
      (ground arith)

-- the characters of a range's text
abbrev is_range_char : ℕ → Bool
is_range_char c = is_digit c || c == b'-'

range_char_plain : (c : ℕ) → is_range_char c ≡ true → is_plain_char c ≡ true
unfolding is_plain_char is_digit
range_char_plain c h = ground arith

digit_range : (c : ℕ) → is_digit c ≡ true → is_range_char c ≡ true
digit_range c h = ground arith

itoa_range : (n : ℕ) → all is_range_char (itoa n) ≡ true
itoa_range n = all-weaken is_digit is_range_char (itoa n) digit_range (all-itoa n)

range_text-chars : (r : PortRange) → all is_range_char (range_text r) ≡ true
unfolding range_text is_digit
range_text-chars r = elim (Bool-cases (r.lo == r.hi)) [
  | inl e ↦ rw e (itoa_range r.lo)
  | inr e ↦
      rw e (
        all-append is_range_char (itoa r.lo) (b'-' ∷ itoa r.hi) (itoa_range r.lo) (itoa_range r.hi))
]

make_range-order : (l h : ℕ) → l ≤ h → make_range l h ≡ ok (record { lo = l; hi = h })
unfolding make_range
make_range-order l h k = ground arith

range_between-itoa : (r : PortRange) → IsRange r → range_between (itoa r.lo, itoa r.hi) ≡ ok r
unfolding range_between
range_between-itoa r v =
    rw (parse_port-itoa r.lo v.low (omega arith), parse_port-itoa r.hi (omega arith) v.high)
      (make_range-order r.lo r.hi v.order)

ends-single : (s : Text) → contains b'-' s ≡ false → ends s ≡ (s, s)
unfolding ends
ends-single s h = rw (cut-none b'-' s h, ends) refl

ends-pair : (a b : Text) → contains b'-' a ≡ false → ends (a ++ b'-' ∷ b) ≡ (a, b)
unfolding ends
ends-pair a b h = rw (cut-append b'-' a b h, ends) refl

range_text-single : (r : PortRange) → (r.lo == r.hi) ≡ true → range_text r ≡ itoa r.lo
unfolding range_text
range_text-single r e = rw e refl

range_text-pair :
    (r : PortRange) → (r.lo == r.hi) ≡ false → range_text r ≡ itoa r.lo ++ b'-' ∷ itoa r.hi
unfolding range_text
range_text-pair r e = rw e refl

ends-text : (r : PortRange) → ends (range_text r) ≡ (itoa r.lo, itoa r.hi)
unfolding is_digit
ends-text r = elim (Bool-cases (r.lo == r.hi)) [
  | inl e ↦
      ap ends (range_text-single r e)
      ∙ ends-single (itoa r.lo) (itoa_lacks b'-' r.lo refl)
      ∙ ap (λ n. (itoa r.lo, itoa n)) ((==_iff r.lo r.hi).0 e)
  | inr e ↦
      ap ends (range_text-pair r e) ∙ ends-pair (itoa r.lo) (itoa r.hi) (itoa_lacks b'-' r.lo refl)
]

parse_range-range_text : (r : PortRange) → IsRange r → parse_range (range_text r) ≡ ok r
unfolding parse_range
parse_range-range_text r v =
    let plain =
      all-weaken is_range_char is_plain_char (range_text r) range_char_plain (range_text-chars r) in
    rw (trim_space-plain (range_text r) plain, ends-text r) (range_between-itoa r v)

pub parse_ranges-map :
    (rs : List PortRange) → All IsRange rs → parse_ranges (map range_text rs) ≡ ok rs
unfolding parse_ranges
parse_ranges-map [] v = refl
parse_ranges-map (r ∷ rs) v = rw (parse_range-range_text r v.0, parse_ranges-map rs v.1) refl

-- The characters of the text of a port set that is not every port.
abbrev pub is_ports_char : ℕ → Bool
is_ports_char c = is_range_char c || c == b','

join-chars :
    (r : PortRange) (rs : List PortRange)
    → all is_ports_char (join b',' (map range_text (r ∷ rs))) ≡ true
unfolding join is_digit
join-chars r [] =
    all-weaken is_range_char is_ports_char (range_text r) (λ c h. ground arith) (range_text-chars r)
join-chars r (q ∷ rs) =
    all-append is_ports_char (range_text r) (b',' ∷ join b',' (map range_text (q ∷ rs)))
      (all-weaken is_range_char is_ports_char (range_text r) (λ c h. ground arith)
        (range_text-chars r))
      (join-chars q rs)

ranges_lack : (rs : List PortRange) → All (Lacks b',') (map range_text rs)
unfolding is_digit
ranges_lack [] = tt
ranges_lack (r ∷ rs) =
    (contains-excluded is_range_char b',' (range_text r) refl (range_text-chars r), ranges_lack rs)

ports_char_plain : (c : ℕ) → is_ports_char c ≡ true → is_plain_char c ≡ true
unfolding is_plain_char is_digit
ports_char_plain c h = ground arith

ports_char_colon : is_ports_char b':' ≡ false
unfolding is_digit
ports_char_colon = refl

ports_char_star : is_ports_char b'*' ≡ false
unfolding is_digit
ports_char_star = refl

some_of_digit : (s : Text) → StartsWithDigit s → is_empty s ≡ false
some_of_digit [] h = absurd h
some_of_digit (c ∷ s) h = refl

pub append-some : (s t : Text) → is_empty s ≡ false → is_empty (s ++ t) ≡ false
append-some [] t h = cc
append-some (c ∷ s) t h = refl

range_text-some : (r : PortRange) → is_empty (range_text r) ≡ false
range_text-some r =
    let some_ = some_of_digit (itoa r.lo) (itoa-StartsWithDigit r.lo) in
    elim (Bool-cases (r.lo == r.hi)) [
      | inl e ↦ rw (range_text-single r e) some_
      | inr e ↦ rw (range_text-pair r e) (append-some (itoa r.lo) _ some_)
    ]

join-some :
    (r : PortRange) (rs : List PortRange) → is_empty (join b',' (map range_text (r ∷ rs))) ≡ false
unfolding join
join-some r [] = range_text-some r
join-some r (q ∷ rs) = append-some (range_text r) _ (range_text-some r)

not_star : (s : Text) → contains b'*' s ≡ false → text_eq s (codes "*") ≡ false
unfolding contains text_eq
not_star [] h = refl
not_star (c ∷ s) h = ground arith

parse_ports-join :
    (r : PortRange) (rs : List PortRange)
    → All IsRange (r ∷ rs)
    → parse_ports (join b',' (map range_text (r ∷ rs))) ≡ ok (record { ranges = r ∷ rs })
unfolding parse_ports
parse_ports-join r rs v =
    let s = join b',' (map range_text (r ∷ rs)) in
    let chars = join-chars r rs in
    let plain = all-weaken is_ports_char is_plain_char s ports_char_plain chars in
    let star = not_star s (contains-excluded is_ports_char b'*' s ports_char_star chars) in
    let parts = split-join b',' (range_text r) (map range_text rs) (ranges_lack (r ∷ rs)) in
    rw (trim_space-plain s plain, join-some r rs, star, parts, parse_ranges-map (r ∷ rs) v) refl

-- The text of a port set, whose ranges lie in 1 to 65535 and do not run backwards, parses to it.
pub parse_ports-ports_text :
    (s : PortSet) → All IsRange s.ranges → parse_ports (ports_text s) ≡ ok s
parse_ports-ports_text s v = go s.ranges v
  where
    go :
        (rs : List PortRange)
        → All IsRange rs
        → parse_ports (ports_text (record { ranges = rs })) ≡ ok (record { ranges = rs })
    go [] w = unfold parse_ports ports_text trim_space text_eq in refl
    go (r ∷ rs) w = unfold ports_text in parse_ports-join r rs w

-- What `ParsePorts` accepts is such a set.
parse_port-range : (s : Text) {n : ℕ} → parse_port s ≡ ok n → (1 ≤ n) × (n ≤ 65535)
unfolding parse_port check_port
parse_port-range s h = ground arith

range_between-IsRange : (x : Text × Text) {r : PortRange} → range_between x ≡ ok r → IsRange r
unfolding range_between make_range
range_between-IsRange x {r} h =
    let (l, le, h1) = >>=-eq-ok (parse_port x.0) _ h in
    let (u, ue, h2) = >>=-eq-ok (parse_port x.1) _ h1 in
    let (low, _) = parse_port-range x.0 le in
    let (_, high) = parse_port-range x.1 ue in ground arith

parse_ranges-IsRange :
    (parts : List Text) {rs : List PortRange} → parse_ranges parts ≡ ok rs → All IsRange rs
unfolding parse_ranges parse_range
parse_ranges-IsRange [] h = subst (All IsRange) (ok-injective h) tt
parse_ranges-IsRange (p ∷ parts) h =
    let (r, re, h1) = >>=-eq-ok (parse_range p) _ h in
    let (rs, rse, h2) = >>=-eq-ok (parse_ranges parts) _ h1 in
    subst (All IsRange) (ok-injective h2)
      (range_between-IsRange (ends (trim_space p)) re, parse_ranges-IsRange parts rse)

pub parse_ports-IsRange :
    (s : Text) {set : PortSet} → parse_ports s ≡ ok set → All IsRange set.ranges
unfolding parse_ports
parse_ports-IsRange s h =
    let t = trim_space s in
    elim (Bool-cases (is_empty t || text_eq t (codes "*"))) [
      | inl e ↦ subst (λ (x : PortSet). All IsRange x.ranges) (ok-injective (rw e at h)) tt
      | inr e ↦
          let (rs, rse, h1) = >>=-eq-ok (parse_ranges (split b',' t)) _ (rw e at h) in
          subst (λ (x : PortSet). All IsRange x.ranges) (ok-injective h1)
            (parse_ranges-IsRange _ rse)
    ]

pub ports_text-plain :
    (r : PortRange) (rs : List PortRange)
    → (all is_plain_char (ports_text (record { ranges = r ∷ rs })) ≡ true)
      × (contains b':' (ports_text (record { ranges = r ∷ rs })) ≡ false)
unfolding ports_text
ports_text-plain r rs =
    let s = join b',' (map range_text (r ∷ rs)) in
    (
      all-weaken is_ports_char is_plain_char s ports_char_plain (join-chars r rs),
      contains-excluded is_ports_char b':' s ports_char_colon (join-chars r rs),
    )
