-- ===== src/Policy/Store.antt =====
-- internal/policy/store.go: the durable rules.
pub mod Scopes
pub mod Edits
use boks.Prelude.{
  ℕ, ◌+◌, Bool, true, false, not, ◌&&◌, Option, none, some, List, [], ◌∷◌, ◌++◌, ltb, ◌==◌,
  if◌then◌else◌, is_some, length, keep_if, err, ok, ◌>>=◌,
}
use boks.Strings.{Text, codes, text_eq, is_empty, trim_space, to_lower}
use boks.Strings.Decimal.{ℤ, pos, negsuc}
use boks.Dict.{Dict, lookup, insert, delete, sorted_keys}
use boks.Netip.{Netip}
use boks.Policy.Error.{
  Error, unknown_preset, no_version, newer_version, unnamed_sandbox, unnamed_profile, unusable_rule,
  bad_profile, unknown_profile, profile_exists, not_stored, two_scopes, Outcome,
}
use boks.Policy.Rule.{Action, deny, action_eq, Rule, parse_rule, rule_spec}
use boks.Policy.Preset.{default_preset, preset}

pub record RuleSpec : Type 0 where
  pub action : Action
  pub spec : Text
  pub note : Text
  pub scope : Text

pub record Profile : Type 0 where
  pub description : Text
  pub preset : Text
  pub rules : List RuleSpec

-- The zero `Profile`.
abbrev pub no_profile : Profile
no_profile = record { description = []; preset = []; rules = [] }

pub record Store : Type 0 where
  pub version : ℤ
  pub preset : Text
  pub global : List RuleSpec
  pub sandboxes : Dict (List RuleSpec)
  pub profiles : Dict Profile
  pub path : Text
  pub exists : Bool

abbrev pub store_version : ℕ
store_version = 1

-- `NewStore`
unfoldable pub new_store : Text → Store
new_store path = record {
  version = pos store_version;
  preset = default_preset;
  global = [];
  sandboxes = [];
  profiles = [];
  path = path;
  exists = false;
}

-- `ScopeRef`: a kind, and the name of the two named kinds
pub data ScopeRef : Type 0 where
  global_scope : ScopeRef
  sandbox_scope : Text → ScopeRef
  profile_scope : Text → ScopeRef

-- `ScopeRef.String`
unfoldable pub scope_text : ScopeRef → Text
scope_text global_scope = codes "global"
scope_text (sandbox_scope name) = codes "sandbox " ++ name
scope_text (profile_scope name) = codes "profile " ++ name

unfoldable pub parse_scope : Text → Text → Outcome ScopeRef
parse_scope sandbox profile =
    let s = trim_space sandbox in
    let p = trim_space profile in
    if not (is_empty s) && not (is_empty p)
    then err two_scopes
    else if not (is_empty s)
    then ok (sandbox_scope s)
    else if not (is_empty p)
    then ok (profile_scope p)
    else ok global_scope

abbrev pub list_or_empty {ℓ} : {A : Type ℓ} → Option (List A) → List A × Bool
list_or_empty none = ([], false)
list_or_empty (some rules) = (rules, true)

abbrev pub rules_of_profile : Option Profile → List RuleSpec × Bool
rules_of_profile none = ([], false)
rules_of_profile (some p) = (p.rules, true)

-- `Store.Rules`: the rules of a scope, and whether the scope exists
unfoldable pub rules_in : Store → ScopeRef → List RuleSpec × Bool
rules_in s global_scope = (s.global, true)
rules_in s (sandbox_scope name) = list_or_empty (lookup name s.sandboxes)
rules_in s (profile_scope name) = rules_of_profile (lookup name s.profiles)

abbrev pub profile_or_zero : Option Profile → Profile
profile_or_zero none = no_profile
profile_or_zero (some p) = p

unfoldable pub set_sandbox : Text → List RuleSpec → Dict (List RuleSpec) → Dict (List RuleSpec)
set_sandbox name [] m = delete name m
set_sandbox name (r ∷ rules) m = insert name (r ∷ rules) m

unfoldable pub set_profile : Text → List RuleSpec → Dict Profile → Dict Profile
set_profile name rules m =
    let p = profile_or_zero (lookup name m) in insert name (record p { rules = rules }) m

-- `Store.setRules`
unfoldable pub set_rules : Store → ScopeRef → List RuleSpec → Store
unfolding set_sandbox set_profile
set_rules s global_scope rules = record s { global = rules }
set_rules s (sandbox_scope name) rules = record s { sandboxes = set_sandbox name rules s.sandboxes }
set_rules s (profile_scope name) rules = record s { profiles = set_profile name rules s.profiles }

-- whether a scope that must be created first is missing
unfoldable pub is_missing_profile : Store → ScopeRef → Bool
is_missing_profile s (profile_scope name) = not (is_some (lookup name s.profiles))
is_missing_profile s _ = false

module _ (net : Netip) where
  -- `RuleSpec.Rule`
  unfoldable pub compile : RuleSpec → Outcome Rule
  compile r = do
    rule ← parse_rule net r.action r.spec
    ok (record rule { why = r.note; scope = r.scope })

  -- `RuleSpec.canonical`
  unfoldable pub canonical : RuleSpec → Text
  canonical r = elim (parse_rule net r.action r.spec) [
    | ok rule ↦ rule_spec rule
    | err e ↦ to_lower (trim_space r.spec)
  ]

  -- `RuleSpec.SameDestination`
  unfoldable pub same_destination : RuleSpec → Text → Bool
  unfolding canonical
  same_destination r spec =
      text_eq (canonical r) (canonical (record r { spec = spec; note = []; scope = [] }))

  -- the identity of a stored rule
  unfoldable pub same_rule : RuleSpec → RuleSpec → Bool
  unfolding action_eq
  same_rule r spec = action_eq r.action spec.action && text_eq (canonical r) (canonical spec)

  unfoldable pub find_same : RuleSpec → List RuleSpec → Option RuleSpec
  find_same spec [] = none
  find_same spec (r ∷ rules) =
      let rest = find_same spec rules in if same_rule r spec then some r else rest

  -- the rules with a new note on the first that is the same
  unfoldable pub renote : RuleSpec → List RuleSpec → List RuleSpec
  renote spec [] = []
  renote spec (r ∷ rules) =
      let rest = r ∷ renote spec rules in
      if same_rule r spec then record r { note = spec.note } ∷ rules else rest

  unfoldable pub add_to : Store → ScopeRef → RuleSpec → List RuleSpec → Store × Bool
  unfolding find_same renote set_rules
  add_to s scope spec rules = elim (find_same spec rules) [
    | none ↦ (set_rules s scope (rules ++ spec ∷ []), true)
    | some r ↦
        if not (is_empty spec.note) && not (text_eq r.note spec.note)
        then (set_rules s scope (renote spec rules), true)
        else (s, false)
  ]

  -- `Store.Add`
  unfoldable pub add : Store → ScopeRef → RuleSpec → Outcome (Store × Bool)
  unfolding compile add_to is_missing_profile rules_in
  add s scope spec = compile spec >>= λ _.
      if is_missing_profile s scope
      then err unknown_profile
      else ok (add_to s scope spec (rules_in s scope).0)

  abbrev pub is_wanted : Option Action → Text → RuleSpec → Bool
  is_wanted none want r = text_eq (canonical r) want
  is_wanted (some a) want r = text_eq (canonical r) want && action_eq r.action a

  abbrev pub probe_action : Option Action → Action
  probe_action none = deny
  probe_action (some a) = a

  unfoldable pub remove_from :
      Store → ScopeRef → (RuleSpec → Bool) → List RuleSpec × Bool → Outcome (Store × List RuleSpec)
  unfolding set_rules
  remove_from s scope wanted (rules, false) = err not_stored
  remove_from s scope wanted (rules, true) =
      let removed = keep_if wanted rules in
      if ltb 0 (length removed)
      then ok (set_rules s scope (keep_if (λ r. not (wanted r)) rules), removed)
      else err not_stored

  -- `Store.Remove`
  unfoldable pub remove : Store → ScopeRef → Option Action → Text → Outcome (Store × List RuleSpec)
  unfolding compile remove_from rules_in
  remove s scope action spec =
      let probe : RuleSpec = record {
        action = probe_action action;
        spec = spec;
        note = [];
        scope = [];
      } in
      compile probe >>= λ _.
      remove_from s scope (is_wanted action (canonical probe)) (rules_in s scope)

  unfoldable pub compile_all : List RuleSpec → Outcome (List Rule)
  unfolding compile
  compile_all [] = ok []
  compile_all (r ∷ rules) =
      compile r >>= λ rule. compile_all rules >>= λ compiled. ok (rule ∷ compiled)

  -- `validateRules`
  unfoldable pub validate_rules : List RuleSpec → Outcome (Unit {0})
  unfolding compile
  validate_rules [] = ok tt
  validate_rules (r ∷ rules) = elim (compile r) [
    | ok rule ↦ validate_rules rules
    | err e ↦ err unusable_rule
  ]

  unfoldable pub validate_preset : Text → Error → Outcome (Unit {0})
  validate_preset name e =
      if is_empty name then ok tt else elim (preset net name) [ ok p ↦ ok tt | err e' ↦ err e ]

  unfoldable pub validate_sandboxes : Dict (List RuleSpec) → List Text → Outcome (Unit {0})
  unfolding validate_rules
  validate_sandboxes m [] = ok tt
  validate_sandboxes m (name ∷ names) =
      if is_empty (trim_space name)
      then err unnamed_sandbox
      else (validate_rules (list_or_empty (lookup name m)).0 >>= λ _. validate_sandboxes m names)

  unfoldable pub validate_profiles : Dict Profile → List Text → Outcome (Unit {0})
  unfolding validate_rules validate_preset
  validate_profiles m [] = ok tt
  validate_profiles m (name ∷ names) =
      let p = profile_or_zero (lookup name m) in
      if is_empty (trim_space name)
      then err unnamed_profile
      else (validate_preset p.preset bad_profile >>= λ _.
          validate_rules p.rules >>= λ _. validate_profiles m names)

  unfoldable pub validate_version : ℤ → Outcome (Unit {0})
  validate_version (negsuc n) = err no_version
  validate_version (pos n) =
      if n == 0 then err no_version else if ltb store_version n then err newer_version else ok tt

  -- `Store.validate`
  unfoldable pub validate : Store → Outcome (Unit {0})
  unfolding validate_version validate_sandboxes validate_profiles
  validate s = validate_version s.version >>= λ _. validate_preset s.preset unknown_preset >>= λ _.
      validate_rules s.global >>= λ _.
      validate_sandboxes s.sandboxes (sorted_keys s.sandboxes) >>= λ _.
      validate_profiles s.profiles (sorted_keys s.profiles)

  -- `Store.AddProfile`
  unfoldable pub add_profile : Store → Text → Profile → Outcome Store
  unfolding compile_all
  add_profile s name p =
      if is_empty (trim_space name)
      then err unnamed_profile
      else if is_some (lookup name s.profiles)
      then err profile_exists
      else ((if is_empty p.preset then ok tt else (preset net p.preset >>= λ _. ok tt))
          >>= λ (_ : Unit {0}).
              compile_all p.rules >>= λ _. ok (record s { profiles = insert name p s.profiles }))

-- `Store.RemoveProfile`
unfoldable pub remove_profile : Store → Text → Outcome Store
remove_profile s name = elim (lookup name s.profiles) [
  | none ↦ err unknown_profile
  | some p ↦ ok (record s { profiles = delete name s.profiles })
]

unfoldable pub count_sandboxes : Dict (List RuleSpec) → ℕ
count_sandboxes [] = 0
count_sandboxes ((name, rules) ∷ m) = length rules + count_sandboxes m

unfoldable pub count_profiles : Dict Profile → ℕ
count_profiles [] = 0
count_profiles ((name, p) ∷ m) = length p.rules + count_profiles m

-- `Store.Count`
unfoldable pub count_rules : Store → ℕ
unfolding count_sandboxes count_profiles
count_rules s = length s.global + count_sandboxes s.sandboxes + count_profiles s.profiles

-- `Store.Reset`, with the number of rules that it destroys
unfoldable pub reset : Store → ScopeRef → Bool → Store × ℕ
unfolding count_rules set_rules rules_in
reset s scope true = (
  record s { preset = default_preset; global = []; sandboxes = []; profiles = [] },
  count_rules s,
)
reset s scope false = (set_rules s scope [], length (rules_in s scope).0)
