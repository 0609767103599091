-- ===== src/Policy/Engine.antt =====
-- internal/policy/log.go: the engine, which evaluates a policy and records every decision. Each
-- method takes the time that the engine's clock gives.
use boks.Prelude.{ℕ, true, false, [], ◌∷◌}
use boks.Strings.{Text}
use boks.Policy.Target.{Target}
use boks.Policy.Evaluate.{Policy, noted, Verdict, evaluate, evaluate_deny}
use boks.Policy.Log.{
  Stage, dial_stage, Mode, no_mode, Ruling, by_rule, no_rule_for, Decision, resource_of, Log,
  record_decision,
}

pub record Engine : Type 0 where
  pub policy : Policy
  pub log : Log
  pub sandbox : Text

unfoldable pub ruling : Text → Target → Ruling
unfolding resource_of
ruling [] t = no_rule_for (resource_of t)
ruling (c ∷ s) t = by_rule (c ∷ s)

-- `Engine.record`, of the decision that it takes
unfoldable pub decision : Engine → ℕ → Stage → Target → Verdict → Mode → Decision
unfolding ruling
decision e now stage t v m = record {
  time = now;
  stage = stage;
  host = t.host;
  port = t.port;
  allowed = v.allowed;
  resource = resource_of t;
  reason = v.reason;
  rule = ruling v.rule t;
  policy = e.policy.name;
  mode = m;
  sandbox = e.sandbox;
}

unfoldable pub record_verdict : Engine → ℕ → Stage → Target → Verdict → Mode → Decision × Engine
unfolding decision record_decision
record_verdict e now stage t v m =
    let d = decision e now stage t v m in (d, record e { log = record_decision d e.log })

-- `Engine.CheckMode`; `Engine.Check` is at `no_mode`
unfoldable pub check_mode : Engine → ℕ → Stage → Target → Mode → Decision × Engine
unfolding record_verdict
check_mode e now stage t m = record_verdict e now stage t (evaluate e.policy t) m

unfoldable pub check : Engine → ℕ → Stage → Target → Decision × Engine
unfolding check_mode
check e now stage t = check_mode e now stage t no_mode

unfoldable pub check_resolved : Engine → ℕ → Target → Mode → Decision × Engine
unfolding record_verdict
check_resolved e now t m = record_verdict e now dial_stage t (evaluate_deny e.policy t) m

unfoldable pub note : Engine → ℕ → Stage → Target → Mode → Text → Decision × Engine
unfolding record_verdict
note e now stage t m reason =
    record_verdict e now stage t
      (record { allowed = true; rule = []; scope = []; reason = noted reason }) m

unfoldable pub note_refused : Engine → ℕ → Stage → Target → Mode → Text → Decision × Engine
unfolding record_verdict
note_refused e now stage t m reason =
    record_verdict e now stage t
      (record { allowed = false; rule = []; scope = []; reason = noted reason }) m

-- `Engine.Update`; `Engine.ReplacePolicy p` is at the constant function
unfoldable pub update : Engine → (Policy → Policy) → Engine
update e f = record e { policy = f e.policy }

-- `Engine.WithSandbox`: the log is shared
unfoldable pub with_sandbox : Engine → Text → Engine
with_sandbox e name = record e { sandbox = name }
