-- ===== src/Policy/Evaluate/Precedence.antt =====
-- The precedence of `Evaluate` and `EvaluateDeny`.
use mathlib.Core.List.{Perm, Permᴰ}
use mathlib.Core.Logic.{∥∥₁_elim}
use mathlib.Core.Bool.{Bool-set}
use boks.Prelude.{
  ◌≡◌, refl, ap, ◌∙◌, Bool, true, false, not, ◌&&◌, ◌||◌, List, [], ◌∷◌, arith, is_some, any, all,
  any-append,
}
use boks.Policy.Target.{Target}
use boks.Policy.Rule.{Action, deny, allow, action_eq, Rule}
use boks.Policy.Evaluate.{Policy, applies, first_match, evaluate, evaluate_deny, with_rules}

pub is_some-first_match :
    (a : Action) (t : Target) (rules : List Rule)
    → is_some (first_match a t rules) ≡ any (applies a t) rules
unfolding first_match
is_some-first_match a t [] = refl
is_some-first_match a t (r ∷ rules) = ground (arith, is_some-first_match a t rules)

-- A target is allowed exactly when no deny rule matches it, and an allow rule matches it or the
-- default is to allow.
pub allowed-evaluate :
    (p : Policy) (t : Target)
    → (evaluate p t).allowed ≡ (
        not (any (applies deny t) p.rules)
        && (any (applies allow t) p.rules || action_eq p.default allow))
unfolding evaluate action_eq
allowed-evaluate p t =
    ground (arith, is_some-first_match deny t p.rules, is_some-first_match allow t p.rules)

pub allowed-evaluate_deny :
    (p : Policy) (t : Target) → (evaluate_deny p t).allowed ≡ not (any (applies deny t) p.rules)
unfolding evaluate_deny
allowed-evaluate_deny p t = ground (arith, is_some-first_match deny t p.rules)

-- `any` does not look at the order.
any-Permᴰ : (f : Rule → Bool) {xs ys : List Rule} → Permᴰ xs ys → any f xs ≡ any f ys
any-Permᴰ f Permᴰ.nil = refl
any-Permᴰ f (Permᴰ.cons {l₁ = xs} e d) = cc (any-Permᴰ f d, e)
any-Permᴰ f (Permᴰ.swap {a} {b} e e') = ground (arith, ap f e, ap f e')
any-Permᴰ f (Permᴰ.trans d d') = any-Permᴰ f d ∙ any-Permᴰ f d'

any-Perm : (f : Rule → Bool) {xs ys : List Rule} → Perm xs ys → any f xs ≡ any f ys
any-Perm f d = ∥∥₁_elim d (Bool-set _ _) (any-Permᴰ f)

-- The order of the rules never changes whether a target is allowed.
pub evaluate-perm :
    (p q : Policy) (t : Target)
    → p.default ≡ q.default
    → Perm p.rules q.rules
    → (evaluate p t).allowed ≡ (evaluate q t).allowed
evaluate-perm p q t e d = cc (
  allowed-evaluate p t,
  allowed-evaluate q t,
  any-Perm (applies deny t) d,
  any-Perm (applies allow t) d,
)

-- A deny rule that matches wins over every other rule, and over any rules that are added.
pub evaluate-with_rules-denied :
    (p : Policy) (t : Target) (rules : List Rule)
    → any (applies deny t) p.rules ≡ true
    → (evaluate (with_rules p rules) t).allowed ≡ false
unfolding with_rules
evaluate-with_rules-denied p t rules h =
    ground
      (arith, allowed-evaluate (with_rules p rules) t, any-append (applies deny t) p.rules rules)

any-deny_only :
    (t : Target) (rules : List Rule)
    → all (λ r. action_eq r.action deny) rules ≡ true
    → any (applies allow t) rules ≡ false
unfolding action_eq
any-deny_only t [] h = refl
any-deny_only t (r ∷ rules) h = ground (arith, any-deny_only t rules)

-- Adding deny rules never allows a target that was not allowed.
pub evaluate-add_denies :
    (p : Policy) (t : Target) (rules : List Rule)
    → all (λ r. action_eq r.action deny) rules ≡ true
    → (evaluate (with_rules p rules) t).allowed ≡ true
    → (evaluate p t).allowed ≡ true
unfolding with_rules
evaluate-add_denies p t rules h k = ground (
  arith,
  allowed-evaluate (with_rules p rules) t,
  allowed-evaluate p t,
  any-append (applies deny t) p.rules rules,
  any-append (applies allow t) p.rules rules,
  any-deny_only t rules,
)

-- A target that a policy allows is also allowed by the check of its deny rules alone.
pub evaluate-evaluate_deny :
    (p : Policy) (t : Target) → (evaluate p t).allowed ≡ true → (evaluate_deny p t).allowed ≡ true
evaluate-evaluate_deny p t h = ground (arith, allowed-evaluate p t, allowed-evaluate_deny p t)
