-- ===== src/Enforce/Reload.antt =====
-- internal/enforce/enforce.go: `reloadPolicy`, which applies new allow rules to a running sandbox.
pub mod Boundary
use boks.Prelude.{ℕ, Bool, not, ◌&&◌, ◌++◌, length, any, keep_if, ok, ◌>>=◌}
use boks.Strings.{text_eq}
use boks.Netip.{Netip}
use boks.Policy.Error.{Outcome}
use boks.Policy.Rule.{deny, action_eq, Rule, rule_spec}
use boks.Policy.Evaluate.{Policy}
use boks.Policy.Store.{Store}
use boks.Policy.Resolve.{Resolution, resolve, policy_of, to_request}
use boks.Policy.Engine.{Engine, update}

abbrev pub is_deny_rule : Rule → Bool
is_deny_rule r = action_eq r.action deny

-- The function that `reloadPolicy` hands to `Engine.Update`: the old default and the old deny
-- rules, and the new rules that are no denies.
unfoldable pub reloaded : Policy → Policy → Policy
unfolding action_eq
reloaded new old = record new {
  default = old.default;
  rules = keep_if is_deny_rule old.rules ++ keep_if (λ r. not (is_deny_rule r)) new.rules;
}

-- How many deny rules of the new policy, by their text, the old one does not have.
unfoldable pub skipped_denies : Policy → Policy → ℕ
unfolding action_eq
skipped_denies new old = length (
    keep_if
      (λ r.
        is_deny_rule r
        && not (any (λ o. text_eq (rule_spec o) (rule_spec r)) (keep_if is_deny_rule old.rules)))
      new.rules)

module _ (net : Netip) where
  -- the policy that the store now gives
  unfoldable pub fresh_policy : Resolution → Store → Outcome Policy
  unfolding resolve policy_of to_request
  fresh_policy started store = resolve net (to_request started store) >>= policy_of net

  -- `Session.reloadPolicy` from the store it has read: the engine after it, and how many new deny
  -- rules its warning counts
  unfoldable pub reload_policy : Engine → Resolution → Store → Outcome (Engine × ℕ)
  unfolding fresh_policy update reloaded skipped_denies
  reload_policy e started store = do
    new ← fresh_policy started store
    ok (update e (reloaded new), skipped_denies new e.policy)
