-- ===== src/Secret/Inject/Rules.antt =====
-- The rules that `ParseInject` reads.
use boks.Prelude.{
  ℕ, ◌≤◌, ◌≡◌, refl, ap, inl, inr, false, List, [], ◌∷◌, arith, Bool-cases, Option-cases, length,
  All, ok, ok-injective, ◌>>=◌, >>=-eq-ok,
}
use boks.Strings.{Text, is_empty, trim_space, cons_head, split, cut}
use boks.Netip.{Netip}
use boks.Secret.Inject.{
  Inject, validate_inject, parse_attachment, host_pattern, rules_for, parse_rest, parse_inject,
}
use boks.Secret.Inject.Header.{IsAttached, validate_inject-IsAttached}

abbrev pub IsRule : Inject → Type 0
IsRule r = validate_inject r ≡ ok tt

module _ (net : Netip) where
  rules_for-All :
      (template : Inject) (hosts : List Text) (rules : List Inject)
      → rules_for net template hosts ≡ ok rules
      → (All IsRule rules) × (length rules ≡ length hosts)
  unfolding rules_for
  rules_for-All template [] rules h = let same = ok-injective h in rw (← same) (tt, refl)
  rules_for-All template (x ∷ hosts) rules h =
      let (domain, e, h1) = >>=-eq-ok (host_pattern net x) _ h in
      let rule = record template { domain = domain } in
      let (done, valid, h2) = >>=-eq-ok (validate_inject rule) _ h1 in
      let (rest, e', h3) = >>=-eq-ok (rules_for net template hosts) _ h2 in
      let same = ok-injective h3 in
      let (all_valid, size) = rules_for-All template hosts rest e' in
      rw (← same) ((valid, all_valid), omega (arith, size))

  length-cons_head : (c : ℕ) (ts : List Text) → 1 ≤ length ts → 1 ≤ length (cons_head c ts)
  length-cons_head c [] h = absurd (omega arith)
  length-cons_head c (t ∷ ts) h = omega arith

  length-split : (c : ℕ) (s : Text) → 1 ≤ length (split c s)
  unfolding split
  length-split c [] = omega arith
  length-split c (d ∷ s) = ground (arith, length-split c s, length-cons_head d (split c s))

  -- What is known of the service and of the rules that were read.
  abbrev IsRead : Text → List Inject → Type 0
  IsRead name rules = (is_empty name ≡ false) × (1 ≤ length rules) × All IsRule rules

  named_rules-All :
      (service hosts : Text) (template : Inject) (name : Text) (rules : List Inject)
      → is_empty service ≡ false
      → ◌>>=◌ {B = Text × List Inject}
          (rules_for net template (split b',' hosts))
          (λ found. ok (service, found))
        ≡ ok (name, rules)
      → IsRead name rules
  named_rules-All service hosts template name rules e h =
      let (found, r, h1) = >>=-eq-ok (rules_for net template (split b',' hosts)) _ h in
      let same = ok-injective h1 in
      let ename : service ≡ name = ap (λ x. x.0) same in
      let erules : found ≡ rules = ap (λ x. x.1) same in
      let (valid, size) = rules_for-All template (split b',' hosts) found r in
      rw (← ename, ← erules) (e, omega (arith, size, length-split b',' hosts), valid)

  parse_rest-All :
      (service rest name : Text) (rules : List Inject)
      → parse_rest net service rest ≡ ok (name, rules)
      → IsRead name rules
  unfolding parse_rest
  parse_rest-All service rest name rules h = elim (Bool-cases (is_empty service)) [
    | inl e ↦ cc (rw e at h)
    | inr e ↦ elim (Option-cases (cut b'=' rest)) [
      | inl e' ↦ cc (rw (e, e') at h)
      | inr ((hosts, attach), e') ↦
          let k = rw (e, e') at h in
          let (template, t, h1) = >>=-eq-ok (parse_attachment (trim_space attach)) _ k in
          named_rules-All service hosts template name rules e h1
    ]
  ]

  All-IsAttached :
      (base64 : Text → Text) (raw : Text) (rules : List Inject)
      → All IsRule rules
      → All (λ r. IsAttached base64 r raw) rules
  All-IsAttached base64 raw [] v = tt
  All-IsAttached base64 raw (r ∷ rules) v =
      (validate_inject-IsAttached base64 r raw v.0, All-IsAttached base64 raw rules v.1)

  -- What `ParseInject` reads names a service and gives it at least one rule, and each rule attaches any
  -- secret in one way: the value of its header is the secret, as the scheme encodes it, between two
  -- texts of the rule without newlines; the header has a name of letters, digits and `-_.`; and the
  -- rule does not apply to every host.
  pub parse_inject-IsAttached :
      (base64 : Text → Text) (raw spec name : Text) (rules : List Inject)
      → parse_inject net spec ≡ ok (name, rules)
      → (is_empty name ≡ false) × (1 ≤ length rules) × All (λ r. IsAttached base64 r raw) rules
  unfolding parse_inject
  parse_inject-IsAttached base64 raw spec name rules h = elim (Option-cases (cut b'@' spec)) [
    | inl e ↦ cc (rw (parse_inject, e) at h)
    | inr ((service, rest), e) ↦
        let v = parse_rest-All (trim_space service) rest name rules (rw (parse_inject, e) at h) in
        (v.0, v.1, All-IsAttached base64 raw rules v.2)
  ]
