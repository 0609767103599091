-- ===== src/Policy/Store/Scopes.antt =====
-- What a scope of the store holds after it has been written.
use boks.Prelude.{◌≡◌, refl, inl, inr, Bool, true, false, List, [], ◌∷◌, if◌then◌else◌, Bool-cases}
use boks.Strings.{Text, text_eq}
use boks.Strings.Laws.{text_eq_refl}
use boks.Dict.{Dict, lookup}
use boks.Dict.Laws.{lookup-insert, lookup-delete}
use boks.Policy.Store.{
  RuleSpec, Profile, Store, ScopeRef, global_scope, sandbox_scope, profile_scope, list_or_empty,
  rules_of_profile, rules_in, profile_or_zero, set_sandbox, set_profile, set_rules,
}

unfoldable pub scope_eq : ScopeRef → ScopeRef → Bool
scope_eq global_scope global_scope = true
scope_eq (sandbox_scope a) (sandbox_scope b) = text_eq a b
scope_eq (profile_scope a) (profile_scope b) = text_eq a b
scope_eq _ _ = false

lookup-set_sandbox :
    (m : Dict (List RuleSpec)) (name other : Text) (rules : List RuleSpec)
    → (list_or_empty (lookup other (set_sandbox name rules m))).0
      ≡ (if text_eq name other then rules else (list_or_empty (lookup other m)).0)
unfolding set_sandbox
lookup-set_sandbox m name other [] = elim (Bool-cases (text_eq name other)) [
  | inl e ↦ rw (lookup-delete m name other, e) refl
  | inr e ↦ rw (lookup-delete m name other, e) refl
]
lookup-set_sandbox m name other (r ∷ rules) = elim (Bool-cases (text_eq name other)) [
  | inl e ↦ rw (lookup-insert m name other (r ∷ rules), e) refl
  | inr e ↦ rw (lookup-insert m name other (r ∷ rules), e) refl
]

lookup-set_profile :
    (m : Dict Profile) (name other : Text) (rules : List RuleSpec)
    → (rules_of_profile (lookup other (set_profile name rules m))).0
      ≡ (if text_eq name other then rules else (rules_of_profile (lookup other m)).0)
unfolding set_profile
lookup-set_profile m name other rules =
    let p = profile_or_zero (lookup name m) in
    elim (Bool-cases (text_eq name other)) [
      | inl e ↦ rw (lookup-insert m name other (record p { rules = rules }), e) refl
      | inr e ↦ rw (lookup-insert m name other (record p { rules = rules }), e) refl
    ]

-- A write to one scope is seen there, and in no other scope.
pub rules_in-set_rules :
    (s : Store) (scope other : ScopeRef) (rules : List RuleSpec)
    → (rules_in (set_rules s scope rules) other).0
      ≡ (if scope_eq scope other then rules else (rules_in s other).0)
unfolding rules_in set_rules scope_eq
rules_in-set_rules s global_scope global_scope rules = refl
rules_in-set_rules s global_scope (sandbox_scope b) rules = refl
rules_in-set_rules s global_scope (profile_scope b) rules = refl
rules_in-set_rules s (sandbox_scope a) global_scope rules = refl
rules_in-set_rules s (sandbox_scope a) (sandbox_scope b) rules =
    lookup-set_sandbox s.sandboxes a b rules
rules_in-set_rules s (sandbox_scope a) (profile_scope b) rules = refl
rules_in-set_rules s (profile_scope a) global_scope rules = refl
rules_in-set_rules s (profile_scope a) (sandbox_scope b) rules = refl
rules_in-set_rules s (profile_scope a) (profile_scope b) rules =
    lookup-set_profile s.profiles a b rules

pub scope_eq_refl : (scope : ScopeRef) → scope_eq scope scope ≡ true
unfolding scope_eq
scope_eq_refl global_scope = refl
scope_eq_refl (sandbox_scope a) = text_eq_refl a
scope_eq_refl (profile_scope a) = text_eq_refl a
