-- ===== src/Samples/Layers.antt =====
-- A small store, what it resolves to, and a reload of it.
use boks.Prelude.{◌≡◌, refl, true, false, none, some, List, [], ◌∷◌, ◌++◌, any, ok}
use boks.Strings.{
  Text, codes, text_eq, is_space, trim_space, to_lower, byte_length, cut_prefix, has_prefix,
  has_suffix, contains, count, split, join, cut,
}
use boks.Strings.Decimal.{atoi}
use boks.Policy.Target.{
  Target, is_ip, unbracketed, split_host_port, is_host_char, valid_label, valid_labels,
  valid_hostname, strip_brackets, strip_root, check_port, classify_host, normalize_host,
}
use boks.Policy.Pattern.{
  Pattern, any_host, exact, suffix, exact_or_address, parse_host_pattern, parse_pattern,
  pattern_match,
}
use boks.Policy.Ports.{
  parse_port, ends, make_range, range_between, parse_range, parse_ranges, parse_ports, ports_match,
}
use boks.Policy.Rule.{Action, deny, allow, action_eq, Rule, parse_rule, rule_match}
use boks.Policy.Evaluate.{
  Policy, first_match, denied, permitted, by_default, allow_or_default, evaluate, evaluate_deny,
}
use boks.Policy.Preset.{preset_locked, locked_policy, preset, preset_description}
use boks.Policy.Store.{RuleSpec, Store, new_store, rules_in, compile, compile_all}
use boks.Policy.Resolve.{
  Layer, Resolution, Request, scope_flag_allow, scope_global, scoped, extend, preset_detail,
  profile_of, spec_of_rule, base_layer, profile_layer, agent_layer, kit_layer, sandbox_layer,
  add_stored, store_layers, flag_layer, flag_rules, parse_flag_rules, base_of_preset, base, resolve,
  policy_of, preset_of_layers, to_request,
}
use boks.Policy.Resolve.Precedence.{written, spec_applies, resolve-denied}
use boks.Policy.Engine.{Engine, update}
use boks.Enforce.Reload.{reloaded, skipped_denies, fresh_policy, reload_policy}
use boks.Enforce.Reload.Boundary.{reload_policy-denies}
use boks.Samples.Addresses.{table}

abbrev spec_of : Action → Text → RuleSpec
spec_of a s = record { action = a; spec = s; note = []; scope = scope_global }

abbrev small_store : Store
small_store = record (new_store []) {
  preset = preset_locked;
  global = spec_of allow (codes "a.org") ∷ spec_of deny (codes "*.b.org") ∷ [];
}

abbrev small_request : Request
small_request = record {
  store = some small_store;
  sandbox = [];
  profile = [];
  preset = preset_locked;
  allow = codes "*" ∷ [];
  deny = [];
  agent = [];
  agent_allow = [];
  kit = [];
  kit_allow = [];
  kit_deny = [];
}

abbrev flag_all : RuleSpec
flag_all = record { action = allow; spec = codes "*"; note = []; scope = scope_flag_allow }

abbrev small_name : Text
small_name = codes "locked+global+local"

abbrev small_rules : List RuleSpec
small_rules = small_store.global ++ flag_all ∷ []

abbrev small_layers : List Layer
small_layers =
    record {
      source = codes "preset locked";
      detail = codes "deny everything; every destination must be added with --allow";
      count = 0;
    }
    ∷ record {
      source = scope_global;
      detail = codes "rules for every sandbox on this machine";
      count = 2;
    }
    ∷ record {
      source = codes "flags";
      detail = codes "--allow/--deny on this run; a Boks addition, not carried by the sandbox";
      count = 1;
    }
    ∷ []

abbrev small_resolution : Resolution
small_resolution = record {
  version = 1;
  name = small_name;
  default = deny;
  rules = small_rules;
  layers = small_layers;
  profile = [];
  sandbox = [];
  agent = [];
  kit = [];
}

abbrev rule_in : Action → Pattern → Text → Rule
rule_in a q scope = record {
  action = a;
  host = q;
  ports = record { ranges = [] };
  why = [];
  scope = scope;
}

abbrev policy_named : Text → List Rule → Policy
policy_named name rules = record { name = name; default = deny; rules = rules }

abbrev small_policy : Policy
small_policy = policy_named small_name (
    rule_in allow (exact (codes "a.org")) scope_global
    ∷ rule_in deny (suffix (codes "b.org")) scope_global
    ∷ rule_in allow any_host scope_flag_allow
    ∷ [])

abbrev www_b : Target
www_b = record { host = codes "www.b.org"; addr = none; port = 443 }

resolves_small : resolve table small_request ≡ ok small_resolution
unfolding resolve base base_of_preset preset locked_policy preset_description preset_detail
    base_layer profile_layer profile_of agent_layer kit_layer store_layers add_stored sandbox_layer
    flag_layer parse_flag_rules flag_rules scoped extend rules_in spec_of_rule compile compile_all
    policy_of to_request preset_of_layers new_store parse_rule split_host_port unbracketed
    parse_pattern parse_host_pattern parse_ports parse_ranges parse_range range_between make_range
    ends parse_port check_port trim_space text_eq contains cut split count to_lower atoi
    normalize_host classify_host strip_brackets strip_root has_prefix has_suffix cut_prefix
    valid_hostname valid_labels valid_label is_host_char is_space byte_length join spec_applies
    rule_match pattern_match ports_match action_eq exact_or_address
resolves_small = refl

compiles_small : policy_of table small_resolution ≡ ok small_policy
unfolding resolve base base_of_preset preset locked_policy preset_description preset_detail
    base_layer profile_layer profile_of agent_layer kit_layer store_layers add_stored sandbox_layer
    flag_layer parse_flag_rules flag_rules scoped extend rules_in spec_of_rule compile compile_all
    policy_of to_request preset_of_layers new_store parse_rule split_host_port unbracketed
    parse_pattern parse_host_pattern parse_ports parse_ranges parse_range range_between make_range
    ends parse_port check_port trim_space text_eq contains cut split count to_lower atoi
    normalize_host classify_host strip_brackets strip_root has_prefix has_suffix cut_prefix
    valid_hostname valid_labels valid_label is_host_char is_space byte_length join spec_applies
    rule_match pattern_match ports_match action_eq exact_or_address
compiles_small = refl

denied_small : any (spec_applies table www_b deny) (written small_request) ≡ true
unfolding resolve base base_of_preset preset locked_policy preset_description preset_detail
    base_layer profile_layer profile_of agent_layer kit_layer store_layers add_stored sandbox_layer
    flag_layer parse_flag_rules flag_rules scoped extend rules_in spec_of_rule compile compile_all
    policy_of to_request preset_of_layers new_store parse_rule split_host_port unbracketed
    parse_pattern parse_host_pattern parse_ports parse_ranges parse_range range_between make_range
    ends parse_port check_port trim_space text_eq contains cut split count to_lower atoi
    normalize_host classify_host strip_brackets strip_root has_prefix has_suffix cut_prefix
    valid_hostname valid_labels valid_label is_host_char is_space byte_length join spec_applies
    rule_match pattern_match ports_match action_eq exact_or_address
denied_small = refl

resolve-denied_example : (evaluate small_policy www_b).allowed ≡ false
resolve-denied_example =
    resolve-denied table small_request resolves_small compiles_small www_b denied_small

-- A sandbox started from `small_store`, whose store now allows c.org and has lost its deny rule.
abbrev later_store : Store
later_store = record small_store { global = spec_of allow (codes "c.org") ∷ [] }

abbrev started_resolution : Resolution
started_resolution = record small_resolution { rules = small_store.global }

abbrev started_policy : Policy
started_policy = policy_named small_name (
    rule_in allow (exact (codes "a.org")) scope_global
    ∷ rule_in deny (suffix (codes "b.org")) scope_global
    ∷ [])

abbrev later_policy : Policy
later_policy =
    policy_named (codes "locked+global") (rule_in allow (exact (codes "c.org")) scope_global ∷ [])

abbrev small_engine : Engine
small_engine = record {
  policy = started_policy;
  log = record { ring = record { entries = []; next = 0; full = false }; sinks = [] };
  sandbox = codes "box";
}

abbrev c_org : Target
c_org = record { host = codes "c.org"; addr = none; port = 443 }

abbrev later_engine : Engine
later_engine = record small_engine {
  policy = record later_policy {
    rules =
        rule_in deny (suffix (codes "b.org")) scope_global
        ∷ rule_in allow (exact (codes "c.org")) scope_global
        ∷ [];
  };
}

reloads_small :
    reload_policy table small_engine started_resolution later_store ≡ ok (later_engine, 0)
unfolding resolve base base_of_preset preset locked_policy preset_description preset_detail
    base_layer profile_layer profile_of agent_layer kit_layer store_layers add_stored sandbox_layer
    flag_layer parse_flag_rules flag_rules scoped extend rules_in spec_of_rule compile compile_all
    policy_of to_request preset_of_layers new_store parse_rule split_host_port unbracketed
    parse_pattern parse_host_pattern parse_ports parse_ranges parse_range range_between make_range
    ends parse_port check_port trim_space text_eq contains cut split count to_lower atoi
    normalize_host classify_host strip_brackets strip_root has_prefix has_suffix cut_prefix
    valid_hostname valid_labels valid_label is_host_char is_space byte_length join spec_applies
    rule_match pattern_match ports_match action_eq exact_or_address reload_policy fresh_policy
    update reloaded skipped_denies
reloads_small = refl

refused_before : (evaluate started_policy c_org).allowed ≡ false
unfolding evaluate first_match allow_or_default permitted denied by_default rule_match pattern_match
    ports_match action_eq text_eq has_suffix is_ip
refused_before = refl

allowed_after : (evaluate later_engine.policy c_org).allowed ≡ true
unfolding evaluate first_match allow_or_default permitted denied by_default rule_match pattern_match
    ports_match action_eq text_eq has_suffix is_ip
allowed_after = refl

reload_policy-denies_example :
    ((evaluate_deny later_engine.policy c_org).allowed
      ≡ (evaluate_deny small_engine.policy c_org).allowed)
    × (later_engine.policy.default ≡ small_engine.policy.default)
    × (later_engine.log ≡ small_engine.log)
    × (later_engine.sandbox ≡ small_engine.sandbox)
reload_policy-denies_example =
    reload_policy-denies table small_engine started_resolution later_store reloads_small c_org
