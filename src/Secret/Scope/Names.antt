-- ===== src/Secret/Scope/Names.antt =====
-- The stored names of credentials.
use boks.Prelude.{
  ◌≡◌, refl, sym, ap, ◌∙◌, inl, inr, true, false, not, ◌||◌, some, [], ◌∷◌, ◌++◌, arith, ==_refl,
  Option-cases, ok,
}
use boks.Strings.{Text, is_empty, cut_prefix, has_prefix, contains}
use boks.Strings.Splitting.{cut-append}
use boks.Secret.Scope.{
  scope_prefix, scope_separator, scoped_name, or_whole, split_rest, split_scoped_name,
  validate_scoped_name,
}

-- The name that a credential is stored under: of one sandbox, or of the machine.
abbrev pub stored_name : Text → Text → Text
stored_name [] name = name
stored_name (c ∷ sandbox) name = scoped_name (c ∷ sandbox) name

cut_prefix-append : (p s : Text) → cut_prefix (p ++ s) p ≡ some s
unfolding cut_prefix
cut_prefix-append [] s = refl
cut_prefix-append (c ∷ p) s = rw (cut_prefix-append p s, ==_refl c) refl

split-scoped_name :
    (sandbox name : Text)
    → contains scope_separator sandbox ≡ false
    → split_scoped_name (scoped_name sandbox name) ≡ (sandbox, name)
unfolding split_scoped_name scoped_name
split-scoped_name sandbox name h =
    let stored = scoped_name sandbox name in
    let rest = sandbox ++ scope_separator ∷ name in
    ap (split_rest stored) (cut_prefix-append scope_prefix rest)
    ∙ ap (or_whole stored) (cut-append scope_separator sandbox name h)

split-machine_name :
    (name : Text) → has_prefix name scope_prefix ≡ false → split_scoped_name name ≡ ([], name)
unfolding split_scoped_name has_prefix
split-machine_name name h = elim (Option-cases (cut_prefix name scope_prefix)) [
  | inl e ↦ rw e refl
  | inr (rest, e) ↦ cc (rw e at h)
]

-- What `ValidateScopedName` accepts.
record IsScoped (sandbox name : Text) : Type 0 where
  whole_name : has_prefix name scope_prefix ≡ false
  whole_sandbox : (is_empty sandbox || not (contains scope_separator sandbox)) ≡ true

validate-IsScoped :
    (sandbox name : Text) → validate_scoped_name sandbox name ≡ ok tt → IsScoped sandbox name
unfolding validate_scoped_name
validate-IsScoped sandbox name h = record {
  whole_name = ground arith;
  whole_sandbox = ground arith;
}

-- The name that a credential is stored under, when the sandbox and the service are valid, gives
-- back the sandbox, empty for the machine, and the service.
pub split-stored_name :
    (sandbox name : Text)
    → validate_scoped_name sandbox name ≡ ok tt
    → split_scoped_name (stored_name sandbox name) ≡ (sandbox, name)
split-stored_name [] name h = split-machine_name name (validate-IsScoped [] name h).whole_name
split-stored_name (c ∷ sandbox) name h =
    let v = validate-IsScoped (c ∷ sandbox) name h in
    split-scoped_name (c ∷ sandbox) name (ground (arith, v.whole_sandbox))

-- Two valid pairs of a sandbox and a service that are stored under one name are the same pair.
pub stored_name-injective :
    (sandbox name other service : Text)
    → validate_scoped_name sandbox name ≡ ok tt
    → validate_scoped_name other service ≡ ok tt
    → stored_name sandbox name ≡ stored_name other service
    → (sandbox ≡ other) × (name ≡ service)
stored_name-injective sandbox name other service v w e =
    let pair =
      sym (split-stored_name sandbox name v)
      ∙ ap split_scoped_name e
      ∙ split-stored_name other service w in
    (ap (λ p. p.0) pair, ap (λ p. p.1) pair)
