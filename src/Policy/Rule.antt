-- ===== src/Policy/Rule.antt =====
-- internal/policy/policy.go: actions and rules.
pub mod Canonical
use boks.Prelude.{Bool, true, false, ◌&&◌, [], ◌∷◌, ◌++◌, if◌then◌else◌, set, err, ok, ◌>>=◌}
use boks.Strings.{Text, codes, text_eq, trim_space, to_lower, contains}
use boks.Netip.{Netip}
use boks.Policy.Error.{unknown_action, Outcome}
use boks.Policy.Target.{Target, split_host_port}
use boks.Policy.Pattern.{Pattern, parse_pattern, pattern_match, is_single_label, pattern_text}
use boks.Policy.Ports.{PortSet, parse_ports, is_every_port, ports_match, ports_text}

pub data Action : Type 0 where
  deny allow : Action

unfoldable pub action_eq : Action → Action → Bool
action_eq deny deny = true
action_eq allow allow = true
action_eq _ _ = false

-- `Action.String`
unfoldable pub action_text : Action → Text
action_text allow = codes "allow"
action_text deny = codes "deny"

unfoldable pub parse_action : Text → Outcome Action
parse_action s =
    let word = to_lower (trim_space s) in
    if text_eq word (codes "allow")
    then ok allow
    else if text_eq word (codes "deny")
    then ok deny
    else err unknown_action

pub record Rule : Type 0 where
  pub action : Action
  pub host : Pattern
  pub ports : PortSet
  pub why : Text
  pub scope : Text

module _ (net : Netip) where
  unfoldable pub parse_rule : Action → Text → Outcome Rule
  parse_rule action spec = do
    (host, ports) ← split_host_port spec
    pattern_ ← parse_pattern net host
    set ← parse_ports ports
    ok (record { action = action; host = pattern_; ports = set; why = []; scope = [] })

-- `Rule.Match`
unfoldable pub rule_match : Rule → Target → Bool
rule_match r t = pattern_match r.host t && ports_match r.ports t.port

unfoldable pub bracket_if_colon : Text → Text
bracket_if_colon host = if contains b':' host then b'[' ∷ (host ++ codes "]") else host

-- `Rule.Spec`
unfoldable pub rule_spec : Rule → Text
unfolding bracket_if_colon
rule_spec r =
    if is_every_port r.ports.ranges
    then pattern_text r.host
    else bracket_if_colon (pattern_text r.host) ++ b':' ∷ ports_text r.ports

-- `Rule.WithScope`
unfoldable pub with_scope : Rule → Text → Rule
with_scope r scope = record r { scope = scope }

-- `Rule.WarnSingleLabel`
unfoldable pub warn_single_label : Rule → Bool
unfolding is_single_label
warn_single_label r = is_single_label r.host
