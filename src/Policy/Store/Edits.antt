-- ===== src/Policy/Store/Edits.antt =====
-- What adding and removing rules do to the scopes of a store.
use mathlib.Core.Path.{subst}
use boks.Prelude.{
  ◌<◌, ◌≡◌, refl, inl, inr, Bool, true, false, not, ◌&&◌, Option, some, List, [], ◌∷◌, ◌++◌, arith,
  ltb, if◌then◌else◌, Bool-cases, Option-cases, length, any, keep_if, any-append, err, ok,
  ok-injective, >>=-eq-ok,
}
use boks.Strings.{Text, text_eq, is_empty}
use boks.Strings.Laws.{text_eq_refl}
use boks.Netip.{Netip}
use boks.Policy.Error.{unknown_profile}
use boks.Policy.Rule.{Action, deny, allow, action_eq}
use boks.Policy.Store.{
  RuleSpec, Store, ScopeRef, rules_in, set_rules, is_missing_profile, compile, canonical, same_rule,
  find_same, renote, add_to, add, is_wanted, probe_action, remove_from, remove,
}
use boks.Policy.Store.Scopes.{scope_eq, rules_in-set_rules, scope_eq_refl}

module _ (net : Netip) where
  action_eq_refl : (a : Action) → action_eq a a ≡ true
  unfolding action_eq
  action_eq_refl deny = refl
  action_eq_refl allow = refl

  same_rule_refl : (r : RuleSpec) → same_rule net r r ≡ true
  unfolding same_rule
  same_rule_refl r = rw (action_eq_refl r.action, text_eq_refl (canonical net r)) refl

  holds : RuleSpec → List RuleSpec → Bool
  holds spec rules = any (λ r. same_rule net r spec) rules

  holds-renote :
      (spec : RuleSpec) (rules : List RuleSpec)
      → holds spec rules ≡ true
      → holds spec (renote net spec rules) ≡ true
  unfolding holds renote same_rule canonical
  holds-renote spec [] h = cc
  holds-renote spec (r ∷ rules) h = ground (arith, holds-renote spec rules)

  holds-find_same :
      (spec : RuleSpec) (rules : List RuleSpec) {r : RuleSpec}
      → find_same net spec rules ≡ some r
      → holds spec rules ≡ true
  unfolding holds find_same
  holds-find_same spec [] h = cc
  holds-find_same spec (r ∷ rules) h = elim (Bool-cases (same_rule net r spec)) [
    | inl e ↦ rw e refl
    | inr e ↦ rw e (holds-find_same spec rules (rw e at h))
  ]

  holds-add_last :
      (spec : RuleSpec) (rules : List RuleSpec) → holds spec (rules ++ spec ∷ []) ≡ true
  unfolding holds
  holds-add_last spec rules =
      ground (arith, any-append (λ r. same_rule net r spec) rules (spec ∷ []), same_rule_refl spec)

  -- What `add_to` gives: the store as it was, or with other rules in the one scope.
  data Added (s : Store) (scope : ScopeRef) (spec : RuleSpec) (s' : Store) : Type 0 where
    kept : s' ≡ s → holds spec (rules_in s scope).0 ≡ true → Added s scope spec s'
    wrote :
        (rules : List RuleSpec)
        → s' ≡ set_rules s scope rules
        → holds spec rules ≡ true
        → Added s scope spec s'

  add_to-Added :
      (s : Store) (scope : ScopeRef) (spec : RuleSpec)
      → Added s scope spec (add_to net s scope spec (rules_in s scope).0).0
  unfolding add_to
  add_to-Added s scope spec =
      let rules = (rules_in s scope).0 in
      elim (Option-cases (find_same net spec rules)) [
        | inl e ↦ rw (add_to, e) (wrote (rules ++ spec ∷ []) refl (holds-add_last spec rules))
        | inr (r, e) ↦
            elim (Bool-cases (not (is_empty spec.note) && not (text_eq r.note spec.note))) [
              | inl e' ↦
                  rw (add_to, e, e')
                    (wrote (renote net spec rules) refl
                      (holds-renote spec rules (holds-find_same spec rules e)))
              | inr e' ↦ rw (add_to, e, e') (kept refl (holds-find_same spec rules e))
            ]
      ]

  add-Added :
      (s : Store) (scope : ScopeRef) (spec : RuleSpec) (s' : Store) (changed : Bool)
      → add net s scope spec ≡ ok (s', changed)
      → Added s scope spec s'
  unfolding add
  add-Added s scope spec s' changed h =
      let (r, e, h1) =
        >>=-eq-ok (compile net spec)
          (λ r.
            if is_missing_profile s scope
            then err unknown_profile
            else ok (add_to net s scope spec (rules_in s scope).0))
          h in
      elim (Bool-cases (is_missing_profile s scope)) [
        | inl e' ↦ cc (rw e' at h1)
        | inr e' ↦
            subst (λ (x : Store × Bool). Added s scope spec x.0) (ok-injective (rw e' at h1))
              (add_to-Added s scope spec)
      ]

  -- After a rule has been added to a scope, the scope holds a rule of the same action and the same
  -- canonical destination.
  pub add-holds :
      (s : Store) (scope : ScopeRef) (spec : RuleSpec) (s' : Store) (changed : Bool)
      → add net s scope spec ≡ ok (s', changed)
      → any (λ r. same_rule net r spec) (rules_in s' scope).0 ≡ true
  unfolding holds
  add-holds s scope spec s' changed h = elim (add-Added s scope spec s' changed h) [
    | kept e k ↦ rw e k
    | wrote rules e k ↦ rw (e, rules_in-set_rules s scope scope rules, scope_eq_refl scope) k
  ]

  -- After a rule has been added to a scope, every other scope holds the rules that it held.
  pub add-others :
      (s : Store) (scope : ScopeRef) (spec : RuleSpec) (s' : Store) (changed : Bool)
      (other : ScopeRef)
      → add net s scope spec ≡ ok (s', changed)
      → scope_eq scope other ≡ false
      → (rules_in s' other).0 ≡ (rules_in s other).0
  add-others s scope spec s' changed other h o = elim (add-Added s scope spec s' changed h) [
    | kept e k ↦ rw e refl
    | wrote rules e k ↦ rw (e, rules_in-set_rules s scope other rules, o) refl
  ]

  -- What `remove_from` gives, of the rules that the scope held.
  record Removed (s : Store) (scope : ScopeRef) (wanted : RuleSpec → Bool) (held : List RuleSpec)
      (s' : Store) (removed : List RuleSpec) : Type 0 where
    some_ : 0 < length removed
    taken : removed ≡ keep_if wanted held
    left : s' ≡ set_rules s scope (keep_if (λ r. not (wanted r)) held)

  remove_from-Removed :
      (s : Store) (scope : ScopeRef) (wanted : RuleSpec → Bool) (held : List RuleSpec)
      (exists : Bool) {out : Store × List RuleSpec}
      → remove_from net s scope wanted (held, exists) ≡ ok out
      → Removed s scope wanted held out.0 out.1
  unfolding remove_from
  remove_from-Removed s scope wanted held false h = cc
  remove_from-Removed s scope wanted held true h =
      elim (Bool-cases (ltb 0 (length (keep_if wanted held)))) [
        | inl e ↦
            subst (λ (x : Store × List RuleSpec). Removed s scope wanted held x.0 x.1)
              (ok-injective (rw e at h))
              (record { some_ = ground (arith, e); taken = refl; left = refl })
        | inr e ↦ cc (rw e at h)
      ]

  -- what `Store.Remove` of a destination looks for
  abbrev pub removed_by : Option Action → Text → RuleSpec → Bool
  removed_by action spec = is_wanted net action (
      canonical net
        (record { action = probe_action net action; spec = spec; note = []; scope = [] }))

  -- After a destination has been removed from a scope, at least one rule has been removed, each of
  -- them of that destination and action, and the scope holds the others, in their order.
  pub remove-rules_in :
      (s : Store) (scope : ScopeRef) (action : Option Action) (spec : Text) (s' : Store)
      (removed : List RuleSpec)
      → remove net s scope action spec ≡ ok (s', removed)
      → (0 < length removed)
        × (removed ≡ keep_if (removed_by action spec) (rules_in s scope).0)
        × ((rules_in s' scope).0
            ≡ keep_if (λ r. not (removed_by action spec r)) (rules_in s scope).0)
  unfolding remove
  remove-rules_in s scope action spec s' removed h =
      let (r, e, h1) =
        >>=-eq-ok
          (compile net
            (record { action = probe_action net action; spec = spec; note = []; scope = [] }))
          (λ r. remove_from net s scope (removed_by action spec) (rules_in s scope)) h in
      let v =
        remove_from-Removed s scope (removed_by action spec) (rules_in s scope).0
          (rules_in s scope).1 h1 in
      let kept = keep_if (λ r. not (removed_by action spec r)) (rules_in s scope).0 in
      (
        v.some_,
        v.taken,
        rw (v.left, rules_in-set_rules s scope scope kept, scope_eq_refl scope) refl,
      )
