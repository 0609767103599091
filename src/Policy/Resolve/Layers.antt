-- ===== src/Policy/Resolve/Layers.antt =====
-- Which rules each layer of `Resolve` adds. A layer only ever adds.
use boks.Prelude.{
  ◌≡◌, refl, sym, ap, ◌∙◌, inl, inr, Option, none, some, List, [], ◌++◌, append-nil, append_assoc,
  if◌then◌else◌, Bool-cases, keep_if, ok, ok-injective, >>=-eq-ok,
}
use boks.Strings.{Text, codes, text_eq, is_empty}
use boks.Netip.{Netip}
use boks.Policy.Evaluate.{Policy}
use boks.Policy.Preset.{preset_locked}
use boks.Policy.Store.{RuleSpec, Store, sandbox_scope, rules_in}
use boks.Policy.Resolve.{
  Resolution, Request, scope_global, Draft, scoped, base_layer, profile_layer, is_deny, agent_layer,
  kit_layer, sandbox_layer, add_stored, store_layers, flag_layer, parse_flag_rules, base,
  resolution, resolve,
}

-- The rules of the agent layer: under `locked`, the denies alone.
abbrev pub agent_rules : Request → Policy → List RuleSpec
agent_rules req b =
    if is_empty req.agent
    then []
    else scoped
        (if text_eq b.name preset_locked then keep_if is_deny req.agent_allow else req.agent_allow)
        (codes "agent " ++ req.agent)

-- The rules of the kit layer: none under `locked`.
abbrev pub kit_rules : Request → Policy → List RuleSpec
kit_rules req b =
    if is_empty req.kit
    then []
    else if text_eq b.name preset_locked
    then []
    else scoped req.kit_deny (codes "kit " ++ req.kit)
      ++ scoped req.kit_allow (codes "kit " ++ req.kit)

abbrev pub sandbox_rules : Request → Store → List RuleSpec
sandbox_rules req s =
    if is_empty req.sandbox
    then []
    else scoped (rules_in s (sandbox_scope req.sandbox)).0 (codes "sandbox " ++ req.sandbox)

abbrev pub rules_of_store : Request → Option Store → List RuleSpec
rules_of_store req none = []
rules_of_store req (some s) = scoped s.global scope_global ++ sandbox_rules req s

rules-agent_layer :
    (req : Request) (b : Policy) (d : Draft)
    → (agent_layer req b d).rules ≡ d.rules ++ agent_rules req b
unfolding agent_layer
rules-agent_layer req b d = elim (Bool-cases (is_empty req.agent)) [
  | inl e ↦ rw e (sym (append-nil d.rules))
  | inr e ↦ elim (Bool-cases (text_eq b.name preset_locked)) [
    | inl l ↦ rw (e, l) refl
    | inr l ↦ rw (e, l) refl
  ]
]

rules-kit_layer :
    (req : Request) (b : Policy) (d : Draft)
    → (kit_layer req b d).rules ≡ d.rules ++ kit_rules req b
unfolding kit_layer
rules-kit_layer req b d = elim (Bool-cases (is_empty req.kit)) [
  | inl e ↦ rw e (sym (append-nil d.rules))
  | inr e ↦ elim (Bool-cases (text_eq b.name preset_locked)) [
    | inl l ↦ rw (e, l) refl
    | inr l ↦ rw (e, l) refl
  ]
]

rules-sandbox_layer :
    (req : Request) (s : Store) (d : Draft)
    → (sandbox_layer req s d).rules ≡ d.rules ++ sandbox_rules req s
unfolding sandbox_layer
rules-sandbox_layer req s d = elim (Bool-cases (is_empty req.sandbox)) [
  | inl e ↦ rw e (sym (append-nil d.rules))
  | inr e ↦ rw e refl
]

rules-add_stored :
    (req : Request) (d : Draft) (o : Option Store)
    → (add_stored req d o).rules ≡ d.rules ++ rules_of_store req o
unfolding add_stored
rules-add_stored req d none = sym (append-nil d.rules)
rules-add_stored req d (some s) =
    rules-sandbox_layer req s _
    ∙ append_assoc d.rules (scoped s.global scope_global) (sandbox_rules req s)

rules-flag_layer :
    (flags : List RuleSpec) (d : Draft) → (flag_layer flags d).rules ≡ d.rules ++ flags
unfolding flag_layer
rules-flag_layer flags d = refl

-- The draft that `Resolve` ends with.
abbrev pub final_draft : Request → Policy → Draft → List RuleSpec → Draft
final_draft req b d flags =
    flag_layer flags (store_layers req (kit_layer req b (agent_layer req b d)))

pub rules-final_draft :
    (req : Request) (b : Policy) (d : Draft) (flags : List RuleSpec)
    → (final_draft req b d flags).rules
      ≡ (((d.rules ++ agent_rules req b) ++ kit_rules req b) ++ rules_of_store req req.store)
        ++ flags
unfolding store_layers
rules-final_draft req b d flags =
    rules-flag_layer flags (store_layers req (kit_layer req b (agent_layer req b d)))
    ∙ ap (λ rules. rules ++ flags)
        (rules-add_stored req (kit_layer req b (agent_layer req b d)) req.store
          ∙ ap (λ rules. rules ++ rules_of_store req req.store)
              (rules-kit_layer req b (agent_layer req b d)
                ∙ ap (λ rules. rules ++ kit_rules req b) (rules-agent_layer req b d)))

-- A resolution that succeeds has a base, the profile's part and the flags, and its rules are those
-- of the layers, in order.
pub record Assembled (net : Netip) (req : Request) (res : Resolution) : Type 0 where
  pub base_policy : Policy
  pub base_name : Text
  pub draft : Draft
  pub flags : List RuleSpec
  pub base_ok : base net req ≡ ok (base_policy, base_name)
  pub profile_ok : profile_layer req (base_layer req base_policy base_name) ≡ ok draft
  pub flags_ok : parse_flag_rules net req.allow req.deny ≡ ok flags
  pub result : res ≡ resolution net req base_policy (final_draft req base_policy draft flags)

pub resolve-Assembled :
    (net : Netip) (req : Request) {res : Resolution}
    → resolve net req ≡ ok res
    → Assembled net req res
unfolding resolve
resolve-Assembled net req h =
    let (bn, base_ok, h1) = >>=-eq-ok (base net req) _ h in
    let (d, profile_ok, h2) = >>=-eq-ok (profile_layer req (base_layer req bn.0 bn.1)) _ h1 in
    let (flags, flags_ok, h3) = >>=-eq-ok (parse_flag_rules net req.allow req.deny) _ h2 in
    record {
      base_policy = bn.0;
      base_name = bn.1;
      draft = d;
      flags = flags;
      base_ok = base_ok;
      profile_ok = profile_ok;
      flags_ok = flags_ok;
      result = sym (ok-injective h3);
    }
