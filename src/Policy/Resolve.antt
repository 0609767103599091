-- ===== src/Policy/Resolve.antt =====
-- internal/policy/resolve.go: a preset, the stored rules and the flags of a run become one policy.
pub mod Layers
pub mod Precedence
use boks.Prelude.{
  ℕ, ◌+◌, Bool, true, false, not, ◌&&◌, ◌||◌, Option, none, some, List, [], ◌∷◌, ◌++◌, map,
  if◌then◌else◌, length, has_any, keep_if, err, ok, ◌>>=◌,
}
use boks.Strings.{Text, codes, text_eq, is_empty, cut_prefix, has_prefix, join}
use boks.Dict.{lookup}
use boks.Netip.{Netip}
use boks.Policy.Error.{unknown_profile, Outcome}
use boks.Policy.Rule.{Action, deny, allow, action_eq, action_text, Rule, rule_spec}
use boks.Policy.Evaluate.{Policy, with_rules}
use boks.Policy.Preset.{preset_locked, default_preset, preset, preset_description}
use boks.Policy.Store.{
  RuleSpec, Profile, Store, store_version, sandbox_scope, rules_in, compile, compile_all,
}

pub record Layer : Type 0 where
  pub source : Text
  pub detail : Text
  pub count : ℕ

pub record Resolution : Type 0 where
  pub version : ℕ
  pub name : Text
  pub default : Action
  pub rules : List RuleSpec
  pub layers : List Layer
  pub profile : Text
  pub sandbox : Text
  pub agent : Text
  pub kit : Text

pub record Request : Type 0 where
  pub store : Option Store
  pub sandbox : Text
  pub profile : Text
  pub preset : Text
  pub allow : List Text
  pub deny : List Text
  pub agent : Text
  pub agent_allow : List RuleSpec
  pub kit : Text
  pub kit_allow : List RuleSpec
  pub kit_deny : List RuleSpec

abbrev pub scope_flag_allow : Text
scope_flag_allow = codes "flag --allow"

abbrev pub scope_flag_deny : Text
scope_flag_deny = codes "flag --deny"

abbrev pub scope_global : Text
scope_global = codes "global"

-- What `Resolve` has assembled so far: `res.Rules`, `res.Layers` and `names`.
pub record Draft : Type 0 where
  pub rules : List RuleSpec
  pub layers : List Layer
  pub names : List Text

abbrev in_scope : RuleSpec → Text → RuleSpec
in_scope r scope = record r { scope = scope }

-- `appendScoped` onto nothing
unfoldable pub scoped : List RuleSpec → Text → List RuleSpec
scoped rules scope = map (λ (r : RuleSpec). in_scope r scope) rules

abbrev name_if : Bool → Text → List Text
name_if true name = name ∷ []
name_if false name = []

-- One more layer: its rules, its line in the display, and its name if it is to be named.
unfoldable pub extend : Draft → List RuleSpec → Layer → List Text → Draft
extend d rules layer names = record {
  rules = d.rules ++ rules;
  layers = d.layers ++ layer ∷ [];
  names = d.names ++ names;
}

unfoldable pub preset_detail : Policy → Text
preset_detail p =
    let described = preset_description p.name in
    if is_empty described then codes "default: " ++ action_text p.default else described

-- `Request.profile`
unfoldable pub profile_of : Request → Option Profile
profile_of req = elim req.store [ none ↦ none | some s ↦ lookup req.profile s.profiles ]

abbrev pub base_scope : Request → Policy → Text
base_scope req base =
    if not (is_empty req.profile) && is_empty req.preset
    then codes "profile " ++ req.profile
    else codes "preset " ++ base.name

unfoldable pub spec_of_rule : Text → Rule → RuleSpec
spec_of_rule scope r = record { action = r.action; spec = rule_spec r; note = r.why; scope = scope }

unfoldable pub base_layer : Request → Policy → Text → Draft
unfolding spec_of_rule preset_detail
base_layer req base name = record {
  rules = map (spec_of_rule (base_scope req base)) base.rules;
  layers =
      record {
        source = base_scope req base;
        detail =
            if has_prefix (base_scope req base) (codes "profile ")
            then codes "preset " ++ base.name ++ codes ", plus the profile's own rules"
            else preset_detail base;
        count = length base.rules;
      }
      ∷ [];
  names = name ∷ [];
}

-- The profile's own rules, where `--policy` replaced its preset; else they are in the base.
unfoldable pub profile_layer : Request → Draft → Outcome Draft
unfolding profile_of scoped extend
profile_layer req d = if is_empty req.profile then ok d else elim (profile_of req) [
  | none ↦ err unknown_profile
  | some p ↦
      if is_empty req.preset
      then ok d
      else (ok (
          extend d (scoped p.rules (codes "profile " ++ req.profile))
            (record {
              source = codes "profile " ++ req.profile;
              detail = codes "--policy " ++ req.preset ++ codes " replaced this profile's preset";
              count = length p.rules;
            })
            ((codes "profile:" ++ req.profile) ∷ [])))
]

abbrev pub is_deny : RuleSpec → Bool
is_deny r = action_eq r.action deny

unfoldable pub agent_layer : Request → Policy → Draft → Draft
unfolding scoped extend action_eq
agent_layer req base d =
    let scope = codes "agent " ++ req.agent in
    let denies = keep_if is_deny req.agent_allow in
    if is_empty req.agent
    then d
    else if text_eq base.name preset_locked
    then (extend d (scoped denies scope)
        (record {
          source = scope;
          detail =
              if has_any denies
              then codes "allows not applied under preset locked; its denies are"
              else codes "not applied: preset locked allows only what you write";
          count = length denies;
        })
        [])
    else (extend d (scoped req.agent_allow scope)
        (record {
          source = scope;
          detail = codes "what this agent cannot work without; a deny in any scope still wins";
          count = length req.agent_allow;
        })
        (name_if (has_any req.agent_allow) (codes "agent:" ++ req.agent)))

unfoldable pub kit_layer : Request → Policy → Draft → Draft
unfolding scoped extend
kit_layer req base d =
    let scope = codes "kit " ++ req.kit in
    if is_empty req.kit
    then d
    else if text_eq base.name preset_locked
    then (extend d []
        (record {
          source = scope;
          detail = codes "not applied: preset locked allows only what you write";
          count = 0;
        })
        [])
    else (extend d (scoped req.kit_deny scope ++ scoped req.kit_allow scope)
        (record {
          source = scope;
          detail = codes "what this kit declares it needs; a deny in any scope still wins";
          count = length req.kit_allow + length req.kit_deny;
        })
        (name_if (has_any req.kit_allow || has_any req.kit_deny) (codes "kit:" ++ req.kit)))

unfoldable pub sandbox_layer : Request → Store → Draft → Draft
unfolding scoped extend rules_in
sandbox_layer req s d =
    let rules = (rules_in s (sandbox_scope req.sandbox)).0 in
    if is_empty req.sandbox
    then d
    else (extend d (scoped rules (codes "sandbox " ++ req.sandbox))
        (record {
          source = codes "sandbox " ++ req.sandbox;
          detail = codes "rules for this sandbox only";
          count = length rules;
        })
        (name_if (has_any rules) (codes "sandbox:" ++ req.sandbox)))

unfoldable pub add_stored : Request → Draft → Option Store → Draft
unfolding sandbox_layer
add_stored req d none = d
add_stored req d (some s) = sandbox_layer req s (
    extend d (scoped s.global scope_global)
      (record {
        source = scope_global;
        detail = codes "rules for every sandbox on this machine";
        count = length s.global;
      })
      (name_if (has_any s.global) scope_global))

unfoldable pub store_layers : Request → Draft → Draft
unfolding add_stored
store_layers req d = add_stored req d req.store

unfoldable pub flag_layer : List RuleSpec → Draft → Draft
unfolding extend
flag_layer rules d =
    extend d rules
      (record {
        source = codes "flags";
        detail = codes "--allow/--deny on this run; a Boks addition, not carried by the sandbox";
        count = length rules;
      })
      (name_if (has_any rules) (codes "local"))

module _ (net : Netip) where
  -- one loop of `parseFlagRules`
  unfoldable pub flag_rules : Action → Text → List Text → Outcome (List RuleSpec)
  unfolding compile
  flag_rules action scope [] = ok []
  flag_rules action scope (spec ∷ specs) =
      let r : RuleSpec = record { action = action; spec = spec; note = []; scope = scope } in
      compile net r >>= λ _. flag_rules action scope specs >>= λ rules. ok (r ∷ rules)

  -- `parseFlagRules`: the denies first
  unfoldable pub parse_flag_rules : List Text → List Text → Outcome (List RuleSpec)
  unfolding flag_rules
  parse_flag_rules allows denies = do
    d ← flag_rules deny scope_flag_deny denies
    a ← flag_rules allow scope_flag_allow allows
    ok (d ++ a)

  unfoldable pub base_of_profile : Text → Profile → Outcome (Policy × Text)
  unfolding compile_all with_rules
  base_of_profile name profile = do
    p ← preset net profile.preset
    rules ← compile_all net profile.rules
    ok (with_rules p rules, codes "profile:" ++ name)

  abbrev stored_preset : Option Store → Text
  stored_preset none = default_preset
  stored_preset (some s) = if is_empty s.preset then default_preset else s.preset

  unfoldable pub base_of_preset : Text → Outcome (Policy × Text)
  unfolding preset
  base_of_preset name = do p ← preset net name; ok (p, p.name)

  -- `Request.base`
  unfoldable pub base : Request → Outcome (Policy × Text)
  unfolding base_of_profile base_of_preset profile_of
  base req =
      if not (is_empty req.preset)
      then base_of_preset req.preset
      else if not (is_empty req.profile)
      then (elim (profile_of req) [
        | none ↦ err unknown_profile
        | some profile ↦ base_of_profile req.profile profile
      ])
      else base_of_preset (stored_preset req.store)

  abbrev pub resolution : Request → Policy → Draft → Resolution
  resolution req b d = record {
    version = store_version;
    name = join b'+' d.names;
    default = b.default;
    rules = d.rules;
    layers = d.layers;
    profile = req.profile;
    sandbox = req.sandbox;
    agent = req.agent;
    kit = req.kit;
  }

  -- `Request.Resolve`
  unfoldable pub resolve : Request → Outcome Resolution
  unfolding base base_layer profile_layer agent_layer kit_layer store_layers parse_flag_rules
      flag_layer
  resolve req = do
    (b, name) ← base req
    d ← profile_layer req (base_layer req b name)
    flags ← parse_flag_rules req.allow req.deny
    ok (
        resolution req b
          (flag_layer flags (store_layers req (kit_layer req b (agent_layer req b d)))))

  -- `Resolution.Policy`
  unfoldable pub policy_of : Resolution → Outcome Policy
  unfolding compile_all
  policy_of r = do
    rules ← compile_all net r.rules
    ok (record {
      name = if is_empty r.name then default_preset else r.name;
      default = r.default;
      rules = rules;
    })

-- The preset that the first layer names, if it names one.
unfoldable pub preset_of_layers : List Layer → Text
preset_of_layers [] = []
preset_of_layers (layer ∷ layers) = elim (cut_prefix layer.source (codes "preset ")) [
  | none ↦ []
  | some name ↦ name
]

abbrev pub specs_in : Text → List RuleSpec → List Text
specs_in scope rules = map (λ r. r.spec) (keep_if (λ r. text_eq r.scope scope) rules)

abbrev pub is_agent_rule : Text → RuleSpec → Bool
is_agent_rule agent r =
    not (text_eq r.scope scope_flag_allow)
    && not (text_eq r.scope scope_flag_deny)
    && not (is_empty agent)
    && text_eq r.scope (codes "agent " ++ agent)

-- `Resolution.ToRequest`
unfoldable pub to_request : Resolution → Store → Request
unfolding preset_of_layers
to_request r store = record {
  store = some store;
  sandbox = r.sandbox;
  profile = r.profile;
  preset = preset_of_layers r.layers;
  allow = specs_in scope_flag_allow r.rules;
  deny = specs_in scope_flag_deny r.rules;
  agent = r.agent;
  agent_allow = keep_if (is_agent_rule r.agent) r.rules;
  kit = [];
  kit_allow = [];
  kit_deny = [];
}

-- What a sandbox remembers about how its policy was chosen.
pub record SandboxPolicy : Type 0 where
  pub version : ℕ
  pub profile : Text
  pub preset : Text
  pub allow : List Text
  pub deny : List Text

unfoldable pub is_zero : Option SandboxPolicy → Bool
is_zero none = true
is_zero (some p) =
    is_empty p.profile && is_empty p.preset && not (has_any p.allow) && not (has_any p.deny)

unfoldable pub request_of : Option SandboxPolicy → Option Store → Text → Request
request_of none store sandbox = record {
  store = store;
  sandbox = sandbox;
  profile = [];
  preset = [];
  allow = [];
  deny = [];
  agent = [];
  agent_allow = [];
  kit = [];
  kit_allow = [];
  kit_deny = [];
}
request_of (some p) store sandbox = record {
  store = store;
  sandbox = sandbox;
  profile = p.profile;
  preset = p.preset;
  allow = p.allow;
  deny = p.deny;
  agent = [];
  agent_allow = [];
  kit = [];
  kit_allow = [];
  kit_deny = [];
}
