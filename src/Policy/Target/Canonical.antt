-- ===== src/Policy/Target/Canonical.antt =====
-- The normal form of a host: what `normalizeHost` returns is left as it is by a second call.
use mathlib.Core.Path.{subst}
use boks.Prelude.{
  ℕ, ◌≡◌, refl, sym, ◌∙◌, inl, inr, Bool, true, false, not, ◌&&◌, ◌||◌, false≢true, Option, none,
  some, List, [], ◌∷◌, arith, ltb, ◌==◌, Bool-cases, Option-cases, &&-true, any, all, ok,
  ok-injective, ◌>>=◌, >>=-eq-ok,
}
use boks.Strings.{
  Text, codes, is_empty, is_space, trim_space, lower_rune, to_lower, cut_prefix, has_prefix,
  has_suffix, split,
}
use boks.Strings.Laws.{trim_space-none, all-weaken, any-excluded}
use boks.Netip.{Addr, canonical_addr, Netip, is_addr_char, IsNetip, canonical_addr_idem}
use boks.Policy.Target.{
  is_host_char, valid_labels, valid_hostname, strip_brackets, strip_root, classify_host,
  normalize_host,
}

-- the characters of a hostname, dots included
abbrev pub is_name_char : ℕ → Bool
is_name_char c = is_host_char c || c == b'.'

-- A character that the normal forms of hosts, patterns and ports are made of: no space, no
-- bracket, and its own lower case.
unfoldable pub is_plain_char : ℕ → Bool
unfolding is_space lower_rune
is_plain_char c =
    not (is_space c) && not (c == b'[') && not (c == b']') && lower_rune c == c && ltb c 128

pub name_char_plain : (c : ℕ) → is_name_char c ≡ true → is_plain_char c ≡ true
unfolding is_plain_char is_host_char
name_char_plain c h = ground arith

pub addr_char_plain : (c : ℕ) → is_addr_char c ≡ true → is_plain_char c ≡ true
unfolding is_plain_char is_addr_char
addr_char_plain c h = ground arith

plain_char_facts :
    (c : ℕ)
    → is_plain_char c ≡ true
    → (is_space c ≡ false) × ((c == b'[') ≡ false) × (lower_rune c ≡ c)
unfolding is_plain_char
plain_char_facts c h = ground arith

pub trim_space-plain : (s : Text) → all is_plain_char s ≡ true → trim_space s ≡ s
trim_space-plain s h =
    trim_space-none s (any-excluded is_plain_char is_space s (λ c k. (plain_char_facts c k).0) h)

pub to_lower-plain : (s : Text) → all is_plain_char s ≡ true → to_lower s ≡ s
unfolding to_lower
to_lower-plain [] h = refl
to_lower-plain (c ∷ s) h =
    let (now, later) = &&-true (is_plain_char c) (all is_plain_char s) h in
    let (_, _, lower) = plain_char_facts c now in rw (lower, to_lower-plain s later) refl

pub no_bracket-plain : (s : Text) → all is_plain_char s ≡ true → cut_prefix s (codes "[") ≡ none
unfolding cut_prefix is_plain_char
no_bracket-plain [] h = refl
no_bracket-plain (c ∷ s) h = ground arith

strip_brackets-plain : (s : Text) → all is_plain_char s ≡ true → strip_brackets s ≡ s
unfolding strip_brackets has_prefix
strip_brackets-plain s h = rw (no_bracket-plain s h) refl

-- What `validHostname` accepts.
pub record IsHostname (h : Text) : Type 0 where
  pub chars : all is_name_char h ≡ true
  pub some_char : is_empty h ≡ false
  pub no_root : has_suffix h (codes ".") ≡ false
  pub valid : valid_hostname h ≡ ok tt

valid_labels-chars :
    (labels : List Text) → valid_labels labels ≡ ok tt → all (all is_host_char) labels ≡ true
unfolding valid_labels
valid_labels-chars [] h = refl
valid_labels-chars (l ∷ labels) h = ground (arith, valid_labels-chars labels)

valid_labels-some : (labels : List Text) → valid_labels labels ≡ ok tt → any is_empty labels ≡ false
unfolding valid_labels
valid_labels-some [] h = refl
valid_labels-some (l ∷ labels) h = ground (arith, valid_labels-some labels)

split-cons : (s : Text) → (l : Text) × (ls : List Text) × (split b'.' s ≡ l ∷ ls)
unfolding split
split-cons [] = ([], [], refl)
split-cons (c ∷ s) = elim (Bool-cases (c == b'.')) [
  | inl e ↦ ([], split b'.' s, rw e refl)
  | inr e ↦ let (l, ls, h) = split-cons s in (c ∷ l, ls, rw (e, h) refl)
]

labels_chars : (s : Text) → all (all is_host_char) (split b'.' s) ≡ true → all is_name_char s ≡ true
unfolding split
labels_chars [] h = refl
labels_chars (c ∷ s) h =
    let (l, ls, e) = split-cons s in
    elim (Bool-cases (c == b'.')) [
      | inl dot ↦ ground (arith, dot, labels_chars s)
      | inr other ↦ ground (arith, other, e, labels_chars s)
    ]

-- A dot at the end leaves an empty label behind the first.
tail_of : List Text → List Text
tail_of [] = []
tail_of (l ∷ ls) = ls

root_label :
    (s : Text) → has_suffix s (codes ".") ≡ true → any is_empty (tail_of (split b'.' s)) ≡ true
unfolding split has_suffix tail_of
root_label [] h = cc
root_label (c ∷ []) h = ground arith
root_label (c ∷ d ∷ s) h =
    let (l, ls, e) = split-cons (d ∷ s) in
    let later : has_suffix (d ∷ s) (codes ".") ≡ true = ground arith in
    ground (arith, e, root_label (d ∷ s) later)

valid_hostname-labels : (h : Text) → valid_hostname h ≡ ok tt → valid_labels (split b'.' h) ≡ ok tt
unfolding valid_hostname
valid_hostname-labels h e = ground arith

any-tail : (ls : List Text) → any is_empty ls ≡ false → any is_empty (tail_of ls) ≡ false
unfolding tail_of
any-tail [] h = refl
any-tail (l ∷ ls) h = ground arith

valid-some_char : (h : Text) → any is_empty (split b'.' h) ≡ false → is_empty h ≡ false
unfolding split
valid-some_char [] h = h
valid-some_char (c ∷ s) h = refl

false_of_not-true : (b : Bool) → (b ≡ true → ⊥) → b ≡ false
false_of_not-true true h = absurd (h refl)
false_of_not-true false h = refl

pub valid_hostname-IsHostname : (h : Text) → valid_hostname h ≡ ok tt → IsHostname h
valid_hostname-IsHostname h e =
    let labels = valid_hostname-labels h e in
    let full = valid_labels-some (split b'.' h) labels in
    record {
      chars = labels_chars h (valid_labels-chars (split b'.' h) labels);
      some_char = valid-some_char h full;
      no_root =
          false_of_not-true (has_suffix h (codes "."))
            (λ dot. false≢true (sym (any-tail (split b'.' h) full) ∙ root_label h dot));
      valid = e;
    }

strip_root-none : (h : Text) → has_suffix h (codes ".") ≡ false → strip_root h ≡ h
unfolding strip_root
strip_root-none h e = rw e refl

-- A host in normal form: of plain characters, not empty, with no dot at the end.
normalize_host-plain :
    (net : Netip) (h : Text)
    → all is_plain_char h ≡ true
    → is_empty h ≡ false
    → has_suffix h (codes ".") ≡ false
    → normalize_host net h ≡ classify_host net h
unfolding normalize_host
normalize_host-plain net h plain full dot =
    rw
      (
        trim_space-plain h plain,
        strip_brackets-plain h plain,
        full,
        strip_root-none h dot,
        to_lower-plain h plain,
      )
      refl

-- What `normalizeHost` returns: a hostname that is no address, or an address in canonical form.
pub data IsHost (net : Netip) : Text → Option Addr → Type 0 where
  named : (h : Text) → IsHostname h → net.parse_addr h ≡ none → IsHost net h none
  numbered :
      (t : Text) (a : Addr)
      → net.parse_addr t ≡ some a
      → IsHost net (net.addr_text (canonical_addr a)) (some (canonical_addr a))

classify_host-numbered :
    (net : Netip) (s : Text) (a : Addr)
    → net.parse_addr s ≡ some a
    → classify_host net s ≡ ok (net.addr_text (canonical_addr a), some (canonical_addr a))
unfolding classify_host
classify_host-numbered net s a p = rw (p, classify_host) refl

classify_host-named :
    (net : Netip) (s : Text)
    → net.parse_addr s ≡ none
    → classify_host net s ≡ (valid_hostname s >>= λ _. ok (s, none))
unfolding classify_host
classify_host-named net s p = rw (p, classify_host) refl

unit_lem : (u : Unit {0}) → u ≡ tt
unit_lem u = refl

classify_host-IsHost :
    (net : Netip) (s : Text) {x : Text × Option Addr}
    → classify_host net s ≡ ok x
    → IsHost net x.0 x.1
classify_host-IsHost net s {x} e = elim (Option-cases (net.parse_addr s)) [
  | inr (a, p) ↦
      subst (λ (y : Text × Option Addr). IsHost net y.0 y.1)
        (ok-injective (sym (classify_host-numbered net s a p) ∙ e)) (numbered s a p)
  | inl p ↦
      let (u, v, k) =
        >>=-eq-ok (valid_hostname s) (λ _. ok (s, none)) (sym (classify_host-named net s p) ∙ e) in
      subst (λ (y : Text × Option Addr). IsHost net y.0 y.1) (ok-injective k)
        (named s (valid_hostname-IsHostname s v) p)
]

pub normalize_host-IsHost :
    (net : Netip) (s : Text) {x : Text × Option Addr}
    → normalize_host net s ≡ ok x
    → IsHost net x.0 x.1
unfolding normalize_host
normalize_host-IsHost net s {x} e =
    let h = strip_brackets (trim_space s) in
    elim (Bool-cases (is_empty h)) [
      | inl k ↦ cc (rw k at e)
      | inr k ↦ classify_host-IsHost net (to_lower (strip_root h)) (rw k at e)
    ]

-- A host in normal form is its own normal form.
pub IsHost-normalize_host :
    (net : Netip)
    → IsNetip net
    → {h : Text} {o : Option Addr} → IsHost net h o
    → normalize_host net h ≡ ok (h, o)
IsHost-normalize_host net law (named h v p) =
    normalize_host-plain net h (all-weaken is_name_char is_plain_char h name_char_plain v.chars)
      v.some_char v.no_root
    ∙ classify_host-named net h p
    ∙ rw v.valid refl
IsHost-normalize_host net law (numbered t a p) =
    let (chars, full, dot, _) = law.addr_chars t a p in
    let h = net.addr_text (canonical_addr a) in
    normalize_host-plain net h (all-weaken is_addr_char is_plain_char h addr_char_plain chars) full
      dot
    ∙ classify_host-numbered net h (canonical_addr a) (law.addr_back t a p)
    ∙ rw (canonical_addr_idem a) refl
