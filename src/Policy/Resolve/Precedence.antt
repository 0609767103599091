-- ===== src/Policy/Resolve/Precedence.antt =====
-- The precedence of a resolved policy: the layers are a union, and a deny in any of them wins.
use boks.Prelude.{
  ◌≡◌, refl, sym, ap, ◌∙◌, inl, inr, Bool, true, false, ◌||◌, Option, none, some, List, [], ◌∷◌,
  ◌++◌, arith, if◌then◌else◌, Bool-cases, any, keep_if, any-append, err, ok, ok-injective,
  >>=-eq-ok,
}
use boks.Strings.{Text, text_eq, is_empty}
use boks.Netip.{Netip}
use boks.Policy.Error.{Outcome}
use boks.Policy.Target.{Target}
use boks.Policy.Rule.{Action, deny, allow, action_eq, Rule, parse_rule, rule_match}
use boks.Policy.Evaluate.{Policy, applies, evaluate}
use boks.Policy.Evaluate.Precedence.{allowed-evaluate}
use boks.Policy.Preset.{preset_locked}
use boks.Policy.Store.{RuleSpec, Store, sandbox_scope, rules_in, compile, compile_all}
use boks.Policy.Resolve.{
  Resolution, Request, scope_flag_allow, scope_flag_deny, scope_global, scoped, is_deny, flag_rules,
  parse_flag_rules, resolve, policy_of,
}
use boks.Policy.Resolve.Layers.{
  agent_rules, kit_rules, sandbox_rules, rules_of_store, rules-final_draft, resolve-Assembled,
}

-- The rules that a store holds for the sandbox of a request.
abbrev pub stored_specs : Request → Option Store → List RuleSpec
stored_specs req none = []
stored_specs req (some s) =
    s.global ++ (if is_empty req.sandbox then [] else (rules_in s (sandbox_scope req.sandbox)).0)

abbrev pub flag_specs : Action → Text → List Text → List RuleSpec
flag_specs a scope [] = []
flag_specs a scope (spec ∷ specs) =
    record { action = a; spec = spec; note = []; scope = scope } ∷ flag_specs a scope specs

-- The rules of a request outside its base and its kit: the agent's, the machine's, the sandbox's
-- and the flags that deny. Its deny rules are those that a run cannot unsay.
abbrev pub written : Request → List RuleSpec
written req =
    (if is_empty req.agent then [] else req.agent_allow)
    ++ (stored_specs req req.store ++ flag_specs deny scope_flag_deny req.deny)

module _ (net : Netip) (t : Target) where
  abbrev pub rule_applies : Action → Outcome Rule → Bool
  rule_applies a (ok rule) = applies a t rule
  rule_applies a (err e) = false

  -- whether a rule as it is written applies to the target
  unfoldable pub spec_applies : Action → RuleSpec → Bool
  spec_applies a r = rule_applies a (compile net r)

  any-compile_all :
      (a : Action) (specs : List RuleSpec) {rules : List Rule}
      → compile_all net specs ≡ ok rules
      → any (applies a t) rules ≡ any (spec_applies a) specs
  unfolding spec_applies compile_all
  any-compile_all a [] h = ground arith
  any-compile_all a (r ∷ specs) {rules} h =
      let (rule, e, h1) = >>=-eq-ok (compile net r) _ h in
      let (rest, e', h2) = >>=-eq-ok (compile_all net specs) _ h1 in
      rw (← ok-injective h2, e) (ap (λ b. applies a t rule || b) (any-compile_all a specs e'))

  spec_applies-in_scope :
      (a : Action) (r : RuleSpec) (scope : Text)
      → spec_applies a (record r { scope = scope }) ≡ spec_applies a r
  unfolding spec_applies compile rule_match
  spec_applies-in_scope a r scope = ground arith

  any-scoped :
      (a : Action) (rules : List RuleSpec) (scope : Text)
      → any (spec_applies a) (scoped rules scope) ≡ any (spec_applies a) rules
  unfolding scoped
  any-scoped a [] scope = refl
  any-scoped a (r ∷ rules) scope = cc (spec_applies-in_scope a r scope, any-scoped a rules scope)

  spec_applies-deny : (r : RuleSpec) → spec_applies deny r ≡ true → is_deny r ≡ true
  unfolding spec_applies compile parse_rule action_eq
  spec_applies-deny r h = ground arith

  any-is_deny :
      (rules : List RuleSpec)
      → any (spec_applies deny) (keep_if is_deny rules) ≡ any (spec_applies deny) rules
  any-is_deny [] = refl
  any-is_deny (r ∷ rules) = ground (arith, any-is_deny rules, spec_applies-deny r)

  any-agent_rules :
      (req : Request) (b : Policy)
      → any (spec_applies deny) (agent_rules req b)
        ≡ any (spec_applies deny) (if is_empty req.agent then [] else req.agent_allow)
  any-agent_rules req b = elim (Bool-cases (is_empty req.agent)) [
    | inl e ↦ rw e refl
    | inr e ↦
        rw (e, any-scoped deny)
          (elim (Bool-cases (text_eq b.name preset_locked)) [
            | inl l ↦ rw l (any-is_deny req.agent_allow)
            | inr l ↦ rw l refl
          ])
  ]

  any-sandbox_rules :
      (a : Action) (req : Request) (s : Store)
      → any (spec_applies a) (sandbox_rules req s)
        ≡ any
            (spec_applies a)
            (if is_empty req.sandbox then [] else (rules_in s (sandbox_scope req.sandbox)).0)
  any-sandbox_rules a req s = elim (Bool-cases (is_empty req.sandbox)) [
    | inl e ↦ rw e refl
    | inr e ↦ rw e (any-scoped a _ _)
  ]

  any-rules_of_store :
      (a : Action) (req : Request) (o : Option Store)
      → any (spec_applies a) (rules_of_store req o) ≡ any (spec_applies a) (stored_specs req o)
  any-rules_of_store a req none = refl
  any-rules_of_store a req (some s) =
      rw
        (
          any-append (spec_applies a) (scoped s.global scope_global) (sandbox_rules req s),
          any-append (spec_applies a) s.global _,
          any-scoped a s.global scope_global,
          any-sandbox_rules a req s,
        )
        refl

flag_rules_lem :
    (net : Netip) (a : Action) (scope : Text) (specs : List Text) {rules : List RuleSpec}
    → flag_rules net a scope specs ≡ ok rules
    → rules ≡ flag_specs a scope specs
unfolding flag_rules
flag_rules_lem net a scope [] h = sym (ok-injective h)
flag_rules_lem net a scope (spec ∷ specs) h =
    let (rule, e, h1) = >>=-eq-ok (compile net _) _ h in
    let (rest, e', h2) = >>=-eq-ok (flag_rules net a scope specs) _ h1 in
    sym (ok-injective h2)
    ∙ ap (λ l. record { action = a; spec = spec; note = []; scope = scope } ∷ l)
        (flag_rules_lem net a scope specs e')

parse_flag_rules_lem :
    (net : Netip) (allows denies : List Text) {rules : List RuleSpec}
    → parse_flag_rules net allows denies ≡ ok rules
    → rules ≡ flag_specs deny scope_flag_deny denies ++ flag_specs allow scope_flag_allow allows
unfolding parse_flag_rules
parse_flag_rules_lem net allows denies h =
    let (d, e, h1) = >>=-eq-ok (flag_rules net deny scope_flag_deny denies) _ h in
    let (a, e', h2) = >>=-eq-ok (flag_rules net allow scope_flag_allow allows) _ h1 in
    sym (ok-injective h2)
    ∙ rw
        (
          flag_rules_lem net deny scope_flag_deny denies e,
          flag_rules_lem net allow scope_flag_allow allows e',
        )
        refl

module _ (net : Netip) (req : Request) {res : Resolution} {p : Policy}
    (resolves : resolve net req ≡ ok res) (compiles : policy_of net res ≡ ok p) where
  rules-policy_of : compile_all net res.rules ≡ ok p.rules
  unfolding policy_of
  rules-policy_of =
      let (rules, e, h) = >>=-eq-ok (compile_all net res.rules) _ compiles in
      e ∙ ap (λ (q : Policy). ok q.rules) (ok-injective h)

  -- In the policy that a request resolves to, a target is denied when a deny rule of the agent, of
  -- the stored global or sandbox rules, or of the deny flags applies to it, whatever the preset, the
  -- kit, the other rules and the flags that allow say.
  pub resolve-denied :
      (t : Target)
      → any (spec_applies net t deny) (written req) ≡ true
      → (evaluate p t).allowed ≡ false
  resolve-denied t h =
      let s = resolve-Assembled net req resolves in
      let f = spec_applies net t deny in
      let d1 = s.draft.rules ++ agent_rules req s.base_policy in
      let d2 = d1 ++ kit_rules req s.base_policy in
      let d3 = d2 ++ rules_of_store req req.store in
      let rules =
        ap (λ (r : Resolution). r.rules) s.result
        ∙ rules-final_draft req s.base_policy s.draft s.flags in
      let stored = stored_specs req req.store in
      let flags = parse_flag_rules_lem net req.allow req.deny s.flags_ok in
      let denials = flag_specs deny scope_flag_deny req.deny in
      let agent = if is_empty req.agent then [] else req.agent_allow in
      ground (
        arith,
        allowed-evaluate p t,
        any-compile_all net t deny res.rules rules-policy_of,
        ap (any f) rules,
        any-append f d3 s.flags,
        any-append f d2 (rules_of_store req req.store),
        any-append f d1 (kit_rules req s.base_policy),
        any-append f s.draft.rules (agent_rules req s.base_policy),
        any-agent_rules net t req s.base_policy,
        any-rules_of_store net t deny req req.store,
        any-append f agent (stored ++ denials),
        any-append f stored denials,
        ap (any f) flags,
        any-append f denials (flag_specs allow scope_flag_allow req.allow),
      )
