-- ===== src/Kit/Parse/Accepted.antt =====
-- What `ParseSpec` gives.
use boks.Prelude.{◌≡◌, refl, ap, true, Result, err, ok, ok-injective, >>=-eq-ok}
use boks.Strings.{Text}
use boks.Kit.Spec.{Spec}
use boks.Kit.V1.Grammar.{Warnings}
use boks.Kit.Schemes.{SchemeError, expand_schemes}
use boks.Kit.Schemes.Expanded.{are_expanded, expand_schemes-expanded}
use boks.Kit.Validate.Errors.{Checked, Std}
use boks.Kit.Validate.{validate}
use boks.Kit.Parse.{Yaml, peek_schema_version, decode, as_scheme_error, as_kit_error, parse_spec}

as_scheme_error-ok : (x : Result SchemeError Spec) (s : Spec) → as_scheme_error x ≡ ok s → x ≡ ok s
as_scheme_error-ok (err e) s h = cc
as_scheme_error-ok (ok s') s h = cc

as_kit_error-ok : (x : Checked) (u : Unit {0}) → as_kit_error x ≡ ok u → x ≡ ok tt
as_kit_error-ok (err e) u h = cc
as_kit_error-ok (ok u') u h = refl

expanded-validate :
    (std : Std) (s s' s'' : Spec)
    → expand_schemes s ≡ ok s'
    → validate std s' ≡ ok tt
    → s' ≡ s''
    → (validate std s'' ≡ ok tt)
      × (are_expanded s''.credentials ≡ true)
      × (expand_schemes s'' ≡ ok s'')
expanded-validate std s s' s'' e v same =
    let (expanded, again) = expand_schemes-expanded s s' e in rw⁻¹ same (v, expanded, again)

-- A specification that `ParseSpec` gives, of either grammar, passes `Validate`, and no rule of it has a
-- scheme: to expand its schemes again changes nothing.
pub parse_spec-validate :
    (y : Yaml) (std : Std) (bytes : Text) (s : Spec) (w : Warnings)
    → parse_spec y std bytes ≡ ok (s, w)
    → (validate std s ≡ ok tt) × (are_expanded s.credentials ≡ true) × (expand_schemes s ≡ ok s)
unfolding parse_spec
parse_spec-validate y std bytes s w h =
    let (version, e, h1) = >>=-eq-ok (peek_schema_version y bytes) _ h in
    let (d, e1, h2) = >>=-eq-ok (decode y version bytes) _ h1 in
    let (s', e2, h3) = >>=-eq-ok (as_scheme_error (expand_schemes d.0)) _ h2 in
    let (u, e3, h4) = >>=-eq-ok (as_kit_error (validate std s')) _ h3 in
    expanded-validate std d.0 s' s (as_scheme_error-ok (expand_schemes d.0) s' e2)
      (as_kit_error-ok (validate std s') u e3) (ap (λ x. x.0) (ok-injective h4))
