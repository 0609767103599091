-- ===== src/Samples/Rules.antt =====
-- The policy engine's values on small inputs.
use mathlib.Core.List.{Permᴰ}
use boks.Prelude.{◌≤◌, ◌≡◌, refl, true, not, ◌&&◌, ◌||◌, none, some, List, [], ◌∷◌, arith, any, ok}
use boks.Strings.{
  Text, codes, text_eq, is_space, trim_space, to_lower, byte_length, cut_prefix, has_prefix,
  has_suffix, contains, count, split, join, cut,
}
use boks.Strings.Decimal.{pos, itoa, atoi}
use boks.Netip.{v4, canonical_addr}
use boks.Policy.Target.{
  Target, unbracketed, split_host_port, is_host_char, valid_label, valid_labels, valid_hostname,
  strip_brackets, strip_root, check_port, classify_host, normalize_host, new_target,
}
use boks.Policy.Target.Normal.{new_target_stable}
use boks.Policy.Pattern.{
  Pattern, any_host, exact, suffix, parse_host_pattern, parse_pattern, pattern_match, pattern_text,
}
use boks.Policy.Ports.{
  PortSet, parse_port, ends, make_range, range_between, parse_range, parse_ranges, parse_ports,
  in_range, ports_match, range_text, ports_text,
}
use boks.Policy.Ports.Canonical.{IsRange, parse_ports-ports_text}
use boks.Policy.Rule.{
  Action, deny, allow, action_eq, Rule, parse_rule, rule_match, bracket_if_colon, rule_spec,
}
use boks.Policy.Rule.Canonical.{parse_rule-rule_spec}
use boks.Policy.Evaluate.{Policy, applies, first_match, evaluate}
use boks.Policy.Evaluate.Precedence.{allowed-evaluate, evaluate-perm}
use boks.Samples.Addresses.{table, table-IsNetip}

abbrev pub example_com : Target
example_com = record { host = codes "www.example.com"; addr = none; port = 443 }

abbrev https : PortSet
https = record { ranges = record { lo = 443; hi = 443 } ∷ [] }

abbrev rule_on : Action → Pattern → Rule
rule_on a q = record { action = a; host = q; ports = https; why = []; scope = [] }

abbrev all_hosts : Rule
all_hosts = rule_on allow any_host

abbrev no_example : Rule
no_example = rule_on deny (suffix (codes "example.com"))

abbrev no_other : Rule
no_other = rule_on deny (exact (codes "other.org"))

abbrev policy_with : List Rule → Policy
policy_with rules = record { name = codes "test"; default = deny; rules = rules }

allows_www : (evaluate (policy_with (all_hosts ∷ no_other ∷ [])) example_com).allowed ≡ true
unfolding evaluate rule_match pattern_match ports_match text_eq in_range first_match
allows_www = refl

denies_www : any (applies deny example_com) (policy_with (no_example ∷ [])).rules ≡ true
unfolding rule_match pattern_match ports_match has_suffix text_eq action_eq in_range
denies_www = refl

allowed-evaluate_example :
    (evaluate (policy_with (all_hosts ∷ no_example ∷ [])) example_com).allowed ≡ (
      not (any (applies deny example_com) (all_hosts ∷ no_example ∷ []))
      && (any (applies allow example_com) (all_hosts ∷ no_example ∷ []) || action_eq deny allow))
allowed-evaluate_example = allowed-evaluate (policy_with (all_hosts ∷ no_example ∷ [])) example_com

evaluate-perm_example :
    (evaluate (policy_with (all_hosts ∷ no_example ∷ [])) example_com).allowed
    ≡ (evaluate (policy_with (no_example ∷ all_hosts ∷ [])) example_com).allowed
evaluate-perm_example =
    evaluate-perm (policy_with (all_hosts ∷ no_example ∷ []))
      (policy_with (no_example ∷ all_hosts ∷ [])) example_com refl ∣ Permᴰ.swap refl refl ∣₁

written_host : Text
written_host = codes " [127.0.0.1] "

abbrev loopback_ssh : Target
loopback_ssh = record { host = codes "127.0.0.1"; addr = some (v4 2130706433); port = 22 }

reads_loopback : new_target table (codes " [127.0.0.1]") (pos 22) ≡ ok loopback_ssh
unfolding new_target normalize_host classify_host check_port strip_brackets strip_root trim_space
    to_lower has_prefix has_suffix text_eq is_space cut_prefix canonical_addr
reads_loopback = refl

new_target_stable_example :
    (new_target table (codes "127.0.0.1") (pos 22) ≡ ok loopback_ssh) × (1 ≤ 22) × (22 ≤ 65535)
new_target_stable_example =
    new_target_stable table (codes " [127.0.0.1]") (pos 22) table-IsNetip reads_loopback

abbrev web_rule : Rule
web_rule = rule_on allow (suffix (codes "example.com"))

reads_web : parse_rule table allow (codes " *.Example.com:443 ") ≡ ok web_rule
unfolding parse_rule split_host_port unbracketed parse_pattern parse_host_pattern parse_ports
    parse_ranges parse_range range_between make_range ends parse_port check_port trim_space text_eq
    contains cut split count to_lower atoi normalize_host classify_host strip_brackets strip_root
    has_prefix has_suffix cut_prefix valid_hostname valid_labels valid_label is_host_char is_space
    byte_length
reads_web = refl

parse_rule-rule_spec_example : parse_rule table allow (rule_spec web_rule) ≡ ok web_rule
parse_rule-rule_spec_example =
    parse_rule-rule_spec table allow (codes " *.Example.com:443 ") table-IsNetip reads_web

reads_plain : parse_rule table allow (codes "*.example.com:443") ≡ ok web_rule
unfolding rule_spec pattern_text ports_text itoa contains count bracket_if_colon range_text join
reads_plain = parse_rule-rule_spec table allow (codes " *.Example.com:443 ") table-IsNetip reads_web

https-IsRange : IsRange (record { lo = 443; hi = 443 })
https-IsRange = record { low = omega arith; order = omega arith; high = omega arith }

parse_ports-ports_text_example : parse_ports (ports_text https) ≡ ok https
parse_ports-ports_text_example = parse_ports-ports_text https (https-IsRange, tt)
