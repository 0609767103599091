-- ===== src/Policy/Evaluate.antt =====
-- internal/policy/policy.go: policies and their verdicts.
pub mod Precedence
use boks.Prelude.{Bool, true, false, ◌&&◌, Option, none, some, List, [], ◌∷◌, ◌++◌, if◌then◌else◌}
use boks.Strings.{Text, codes}
use boks.Policy.Target.{Target}
use boks.Policy.Rule.{Action, deny, allow, action_eq, Rule, rule_match, rule_spec}

pub record Policy : Type 0 where
  pub name : Text
  pub default : Action
  pub rules : List Rule

-- The message of a verdict: which format the source prints, and the text that it puts in.
pub data Reason : Type 0 where
  denied_by_rule allowed_by_rule allowed_by_default denied_by_default : Text → Reason
  no_deny_matched : Reason
  noted : Text → Reason

pub record Verdict : Type 0 where
  pub allowed : Bool
  pub rule : Text
  pub scope : Text
  pub reason : Reason

abbrev pub applies : Action → Target → Rule → Bool
applies a t r = action_eq r.action a && rule_match r t

-- The loop of `Evaluate`: the first rule of an action that matches.
unfoldable pub first_match : Action → Target → List Rule → Option Rule
unfolding action_eq
first_match a t [] = none
first_match a t (r ∷ rules) =
    let rest = first_match a t rules in if applies a t r then some r else rest

unfoldable pub denied : Rule → Verdict
denied r = record {
  allowed = false;
  rule = rule_spec r;
  scope = r.scope;
  reason = denied_by_rule (rule_spec r);
}

unfoldable pub permitted : Rule → Verdict
permitted r = record {
  allowed = true;
  rule = rule_spec r;
  scope = r.scope;
  reason = allowed_by_rule (rule_spec r);
}

unfoldable pub by_default : Policy → Verdict
by_default p = elim p.default [
  | allow ↦ record {
    allowed = true;
    rule = [];
    scope = codes "default";
    reason = allowed_by_default p.name;
  }
  | deny ↦ record {
    allowed = false;
    rule = [];
    scope = codes "default";
    reason = denied_by_default p.name;
  }
]

unfoldable pub allow_or_default : Policy → Target → Verdict
unfolding permitted by_default
allow_or_default p t = elim (first_match allow t p.rules) [
  | some r ↦ permitted r
  | none ↦ by_default p
]

-- `Policy.Evaluate`
unfoldable pub evaluate : Policy → Target → Verdict
unfolding allow_or_default denied
evaluate p t = elim (first_match deny t p.rules) [ some r ↦ denied r | none ↦ allow_or_default p t ]

-- `Policy.EvaluateDeny`
unfoldable pub evaluate_deny : Policy → Target → Verdict
unfolding denied
evaluate_deny p t = elim (first_match deny t p.rules) [
  | some r ↦ denied r
  | none ↦ record { allowed = true; rule = []; scope = []; reason = no_deny_matched }
]

-- `Policy.With`
unfoldable pub with_rules : Policy → List Rule → Policy
with_rules p rules = record p { rules = p.rules ++ rules }
