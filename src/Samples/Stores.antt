-- ===== src/Samples/Stores.antt =====
-- Adding and removing rules of a small store.
use boks.Prelude.{◌<◌, ◌≡◌, refl, true, not, none, List, [], ◌∷◌, ◌++◌, keep_if, ok}
use boks.Strings.{
  Text, codes, text_eq, is_space, trim_space, to_lower, byte_length, cut_prefix, has_prefix,
  has_suffix, contains, count, split, cut,
}
use boks.Strings.Decimal.{pos}
use boks.Policy.Target.{
  unbracketed, split_host_port, is_host_char, valid_label, valid_labels, valid_hostname,
  strip_brackets, strip_root, classify_host, normalize_host,
}
use boks.Policy.Pattern.{exact_or_address, parse_host_pattern, parse_pattern, pattern_text}
use boks.Policy.Ports.{parse_ports}
use boks.Policy.Rule.{Action, deny, allow, action_eq, parse_rule, rule_spec}
use boks.Policy.Store.{
  RuleSpec, Store, ScopeRef, global_scope, sandbox_scope, rules_in, set_rules, is_missing_profile,
  compile, canonical, same_rule, find_same, add_to, add, remove_from, remove,
}
use boks.Policy.Store.Edits.{removed_by, remove-rules_in}
use boks.Samples.Addresses.{table}

abbrev plain_rule : Action → Text → RuleSpec
plain_rule a spec = record { action = a; spec = spec; note = []; scope = [] }

abbrev holding : List RuleSpec → Store
holding rules = record {
  version = pos 1;
  preset = [];
  global = rules;
  sandboxes = [];
  profiles = [];
  path = [];
  exists = true;
}

abbrev with_a : List RuleSpec
with_a = plain_rule allow (codes "a.org") ∷ []

abbrev deny_b : RuleSpec
deny_b = plain_rule deny (codes "b.org")

abbrev box : ScopeRef
box = sandbox_scope (codes "box")

adds_b : add table (holding with_a) global_scope deny_b ≡ ok (holding (with_a ++ deny_b ∷ []), true)
unfolding add add_to remove remove_from find_same same_rule canonical compile set_rules rules_in
    is_missing_profile rule_spec pattern_text parse_rule split_host_port unbracketed parse_pattern
    parse_host_pattern parse_ports trim_space text_eq contains cut split count to_lower
    normalize_host classify_host strip_brackets strip_root has_prefix has_suffix cut_prefix
    valid_hostname valid_labels valid_label is_host_char is_space byte_length exact_or_address
    action_eq
adds_b = refl

removes_b :
    remove table (holding (with_a ++ deny_b ∷ [])) global_scope none (codes "B.org")
    ≡ ok (holding with_a, deny_b ∷ [])
unfolding add add_to remove remove_from find_same same_rule canonical compile set_rules rules_in
    is_missing_profile rule_spec pattern_text parse_rule split_host_port unbracketed parse_pattern
    parse_host_pattern parse_ports trim_space text_eq contains cut split count to_lower
    normalize_host classify_host strip_brackets strip_root has_prefix has_suffix cut_prefix
    valid_hostname valid_labels valid_label is_host_char is_space byte_length exact_or_address
    action_eq
removes_b = refl

remove-rules_in_example :
    (0 < 1)
    × (deny_b ∷ []
        ≡ keep_if
            (removed_by table none (codes "B.org"))
            (rules_in (holding (with_a ++ deny_b ∷ [])) global_scope).0)
    × ((rules_in (holding with_a) global_scope).0
        ≡ keep_if
            (λ r. not (removed_by table none (codes "B.org") r))
            (rules_in (holding (with_a ++ deny_b ∷ [])) global_scope).0)
remove-rules_in_example =
    remove-rules_in table (holding (with_a ++ deny_b ∷ [])) global_scope none (codes "B.org")
      (holding with_a) (deny_b ∷ []) removes_b
