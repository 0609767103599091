-- ===== src/Enforce/Reload/Boundary.antt =====
-- What a reload of the policy can change for a running sandbox, and what it cannot.
use boks.Prelude.{
  ℕ, ◌≡◌, refl, sym, ap, ◌∙◌, true, false, not, ◌&&◌, ◌||◌, List, [], ◌∷◌, arith, any, keep_if,
  any-append, err, ok, >>=-eq-ok,
}
use boks.Netip.{Netip}
use boks.Policy.Error.{Outcome}
use boks.Policy.Target.{Target}
use boks.Policy.Rule.{Action, deny, allow, action_eq, Rule}
use boks.Policy.Evaluate.{Policy, applies, evaluate, evaluate_deny}
use boks.Policy.Evaluate.Precedence.{allowed-evaluate, allowed-evaluate_deny}
use boks.Policy.Store.{Store}
use boks.Policy.Resolve.{Resolution}
use boks.Policy.Engine.{Engine, update}
use boks.Enforce.Reload.{is_deny_rule, reloaded, fresh_policy, reload_policy}

-- `keep_if` by the action of a rule, and then a test for one action.
any-deny-denies :
    (t : Target) (rules : List Rule)
    → any (applies deny t) (keep_if is_deny_rule rules) ≡ any (applies deny t) rules
unfolding action_eq
any-deny-denies t [] = refl
any-deny-denies t (r ∷ rules) = ground (arith, any-deny-denies t rules)

any-deny-others :
    (t : Target) (rules : List Rule)
    → any (applies deny t) (keep_if (λ r. not (is_deny_rule r)) rules) ≡ false
unfolding action_eq
any-deny-others t [] = refl
any-deny-others t (r ∷ rules) = ground (arith, any-deny-others t rules)

any-allow-denies :
    (t : Target) (rules : List Rule) → any (applies allow t) (keep_if is_deny_rule rules) ≡ false
unfolding action_eq
any-allow-denies t [] = refl
any-allow-denies t (r ∷ rules) = ground (arith, any-allow-denies t rules)

any-allow-others :
    (t : Target) (rules : List Rule)
    → any (applies allow t) (keep_if (λ r. not (is_deny_rule r)) rules)
      ≡ any (applies allow t) rules
unfolding action_eq
any-allow-others t [] = refl
any-allow-others t (r ∷ rules) = ground (arith, any-allow-others t rules)

any-reloaded :
    (a : Action) (t : Target) (new old : Policy)
    → any (applies a t) (reloaded new old).rules ≡ (
        any (applies a t) (keep_if is_deny_rule old.rules)
        || any (applies a t) (keep_if (λ r. not (is_deny_rule r)) new.rules))
unfolding reloaded
any-reloaded a t new old = any-append (applies a t) (keep_if is_deny_rule old.rules) _

-- After a reload a target is allowed exactly when no deny rule from before matches it, and an
-- allow rule of the new policy matches it or the default from before is to allow.
pub allowed-reloaded :
    (new old : Policy) (t : Target)
    → (evaluate (reloaded new old) t).allowed ≡ (
        not (any (applies deny t) old.rules)
        && (any (applies allow t) new.rules || action_eq old.default allow))
unfolding reloaded
allowed-reloaded new old t =
    allowed-evaluate (reloaded new old) t
    ∙ rw
        (
          any-reloaded deny t new old,
          any-reloaded allow t new old,
          any-deny-denies t old.rules,
          any-deny-others t new.rules,
          any-allow-denies t old.rules,
          any-allow-others t new.rules,
        )
        (ground arith)

denied-reloaded :
    (new old : Policy) (t : Target)
    → (evaluate_deny (reloaded new old) t).allowed ≡ (evaluate_deny old t).allowed
denied-reloaded new old t =
    allowed-evaluate_deny (reloaded new old) t
    ∙ rw
        (
          any-reloaded deny t new old,
          any-deny-denies t old.rules,
          any-deny-others t new.rules,
          allowed-evaluate_deny old t,
        )
        (ground arith)

-- What a reload that succeeds has done.
reload_policy_inv :
    (net : Netip) (e : Engine) (started : Resolution) (store : Store) {e' : Engine} {n : ℕ}
    → reload_policy net e started store ≡ ok (e', n)
    → (new : Policy) × (fresh_policy net started store ≡ ok new) × (e' ≡ update e (reloaded new))
unfolding reload_policy
reload_policy_inv net e started store {e'} {n} h =
    let (new, fresh, done) = >>=-eq-ok (fresh_policy net started store) _ h in
    (new, fresh, sym (ap (λ r. engine_or e r) done))
  where
    engine_or : Engine → Outcome (Engine × ℕ) → Engine
    engine_or other (ok (e1, k)) = e1
    engine_or other (err x) = other

module _ (net : Netip) (e : Engine) (started : Resolution) (store : Store) {e' : Engine} {n : ℕ}
    (reloads : reload_policy net e started store ≡ ok (e', n)) where
  -- A reload that succeeds never changes which targets the deny rules refuse, the default action,
  -- the log or the sandbox: a deny rule that was removed from the store stays, and a new one waits.
  pub reload_policy-denies :
      (t : Target)
      → ((evaluate_deny e'.policy t).allowed ≡ (evaluate_deny e.policy t).allowed)
        × (e'.policy.default ≡ e.policy.default)
        × (e'.log ≡ e.log)
        × (e'.sandbox ≡ e.sandbox)
  unfolding update reloaded
  reload_policy-denies t =
      let (new, fresh, done) = reload_policy_inv net e started store reloads in
      (rw done (denied-reloaded new e.policy t), rw done refl, rw done refl, rw done refl)

  -- What a reload newly allows is covered by an allow rule of the policy that the store now gives.
  pub reload_policy-allows :
      (t : Target)
      → (evaluate e.policy t).allowed ≡ false
      → (evaluate e'.policy t).allowed ≡ true
      → (new : Policy) × (fresh_policy net started store ≡ ok new)
        × (any (applies allow t) new.rules ≡ true)
  unfolding update
  reload_policy-allows t before after =
      let (new, fresh, done) = reload_policy_inv net e started store reloads in
      (
        new,
        fresh,
        ground (
          arith,
          allowed-evaluate e.policy t,
          allowed-reloaded new e.policy t,
          ap (λ (x : Engine). (evaluate x.policy t).allowed) done,
        ),
      )
