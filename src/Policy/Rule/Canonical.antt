-- ===== src/Policy/Rule/Canonical.antt =====
-- The text of a parsed rule parses to the same rule, so that two rules with one text are one rule.
use mathlib.Core.Path.{subst}
use boks.Prelude.{
  ℕ, ◌≡◌, refl, sym, ap, ◌∙◌, inl, inr, true, false, ◌||◌, List, [], ◌∷◌, ◌++◌, append_assoc, arith,
  ◌==◌, ==_refl, Bool-cases, set, any, all, All, any-append, ok, ok-injective, ◌>>=◌, >>=-eq-ok,
}
use boks.Strings.{Text, is_empty, is_space, trim_space, cut_prefix, contains, count}
use boks.Strings.Laws.{trim_space-none, all-weaken, any-excluded, contains-excluded}
use boks.Strings.Splitting.{all-append, cut-append, count-none, count-append}
use boks.Netip.{Netip, is_addr_char, IsNetip}
use boks.Policy.Error.{Outcome}
use boks.Policy.Target.{after_bracket, bracketed, unbracketed, split_host_port, is_host_char}
use boks.Policy.Target.Canonical.{
  is_name_char, is_plain_char, name_char_plain, addr_char_plain, trim_space-plain, no_bracket-plain,
  IsHostname,
}
use boks.Policy.Pattern.{Pattern, parse_pattern, pattern_text}
use boks.Policy.Pattern.Canonical.{
  IsPattern, any_form, exact_form, suffix_form, address_form, block_form, parse_pattern-IsPattern,
  is_block_char, block_char_plain, contains-some, parse_pattern-pattern_text,
}
use boks.Policy.Ports.{PortRange, PortSet, parse_ports, ports_text}
use boks.Policy.Ports.Canonical.{
  IsRange, append-some, parse_ports-ports_text, parse_ports-IsRange, ports_text-plain,
}
use boks.Policy.Rule.{Action, Rule, parse_rule, bracket_if_colon, rule_spec}

-- What the text of a pattern is made of.
record PlainHost (s : Text) : Type 0 where
  plain : all is_plain_char s ≡ true
  some_ : is_empty s ≡ false
  colons : (count b':' s == 1) ≡ false

colons-none : (s : Text) → contains b':' s ≡ false → (count b':' s == 1) ≡ false
colons-none s h = rw (count-none b':' s h) refl

name_colons : (h : Text) → IsHostname h → contains b':' h ≡ false
unfolding is_host_char
name_colons h v = contains-excluded is_name_char b':' h refl v.chars

pattern_text-PlainHost :
    (net : Netip) → IsNetip net → {q : Pattern} → IsPattern net q → PlainHost (pattern_text q)
unfolding pattern_text
pattern_text-PlainHost net law any_form = record {
  plain = unfold is_plain_char in refl;
  some_ = refl;
  colons = unfold count in refl;
}
pattern_text-PlainHost net law (exact_form h v p) = record {
  plain = all-weaken is_name_char is_plain_char h name_char_plain v.chars;
  some_ = v.some_char;
  colons = colons-none h (name_colons h v);
}
pattern_text-PlainHost net law (suffix_form h v p) = record {
  plain = unfold is_plain_char in all-weaken is_name_char is_plain_char h name_char_plain v.chars;
  some_ = refl;
  colons = colons-none (b'*' ∷ b'.' ∷ h) (unfold contains in name_colons h v);
}
pattern_text-PlainHost net law (address_form t a p) =
    let (chars, full, _, colons) = law.addr_chars t a p in
    record {
      plain = all-weaken is_addr_char is_plain_char _ addr_char_plain chars;
      some_ = full;
      colons = colons;
    }
pattern_text-PlainHost net law (block_form t p k) =
    let (chars, slash, colons) = law.prefix_chars t p k in
    record {
      plain = all-weaken is_block_char is_plain_char _ block_char_plain chars;
      some_ = contains-some b'/' _ slash;
      colons = colons;
    }

split_plain :
    (s : Text) → all is_plain_char s ≡ true → is_empty s ≡ false → split_host_port s ≡ unbracketed s
unfolding split_host_port
split_plain s plain some_ =
    rw (trim_space-plain s plain) rw (some_) rw (no_bracket-plain s plain) rw
      (trim_space-plain s plain) refl

-- A host with no port.
split_bare : (s : Text) → PlainHost s → split_host_port s ≡ ok (s, [])
unfolding unbracketed
split_bare s v = split_plain s v.plain v.some_ ∙ rw (v.colons) refl

count_one :
    (c : ℕ) (a b : Text) → contains c a ≡ false → contains c b ≡ false → count c (a ++ c ∷ b) ≡ 1
unfolding count
count_one c a b h k =
    count-append c a (c ∷ b) ∙ rw (count-none c a h, count-none c b k, ==_refl c) refl

-- A host without a colon, and ports.
split_ports :
    (s ports : Text)
    → PlainHost s
    → contains b':' s ≡ false
    → all is_plain_char ports ≡ true
    → contains b':' ports ≡ false
    → split_host_port (s ++ b':' ∷ ports) ≡ ok (s, ports)
unfolding unbracketed is_plain_char
split_ports s ports v h plain k =
    let whole = all-append is_plain_char s (b':' ∷ ports) v.plain plain in
    split_plain (s ++ b':' ∷ ports) whole (append-some s _ v.some_)
    ∙ rw (count_one b':' s ports h k, cut-append b':' s ports h, unbracketed) refl

plain_spaces : (s : Text) → all is_plain_char s ≡ true → any is_space s ≡ false
unfolding is_plain_char
plain_spaces s h = any-excluded is_plain_char is_space s (λ c k. ground arith) h

plain_close : (s : Text) → all is_plain_char s ≡ true → contains b']' s ≡ false
unfolding is_plain_char
plain_close s h = contains-excluded is_plain_char b']' s refl h

bracketed-text :
    (s ports : Text)
    → all is_plain_char s ≡ true
    → bracketed (s ++ b']' ∷ b':' ∷ ports) ≡ ok (s, ports)
unfolding bracketed after_bracket
bracketed-text s ports h = rw (cut-append b']' s (b':' ∷ ports) (plain_close s h), bracketed) refl

no_space :
    (s ports : Text)
    → all is_plain_char s ≡ true
    → all is_plain_char ports ≡ true
    → any is_space (b'[' ∷ (s ++ b']' ∷ b':' ∷ ports)) ≡ false
unfolding is_space
no_space s ports h k =
    let gap : (any is_space s || any is_space ports) ≡ false =
      rw (plain_spaces s h, plain_spaces ports k) refl in
    any-append is_space s (b']' ∷ b':' ∷ ports) ∙ gap

-- A host in brackets, and ports.
split_bracketed :
    (s ports : Text)
    → all is_plain_char s ≡ true
    → all is_plain_char ports ≡ true
    → split_host_port (b'[' ∷ (s ++ b']' ∷ b':' ∷ ports)) ≡ ok (s, ports)
unfolding split_host_port cut_prefix
split_bracketed s ports h k =
    let text = trim_space-none (b'[' ∷ (s ++ b']' ∷ b':' ∷ ports)) (no_space s ports h k) in
    rw (text) rw (bracketed-text s ports h) refl

-- A rule from its parts, as `ParseRule` makes it.
abbrev made : Action → Pattern → PortSet → Rule
made a q set = record { action = a; host = q; ports = set; why = []; scope = [] }

parse-made :
    (net : Netip) (a : Action) (spec : Text) {h p : Text} {q : Pattern} {set : PortSet}
    → split_host_port spec ≡ ok (h, p)
    → parse_pattern net h ≡ ok q
    → parse_ports p ≡ ok set
    → parse_rule net a spec ≡ ok (made a q set)
unfolding parse_rule
parse-made net a spec e f g = rw (e, f, g) refl

abbrev with_pattern : Action → Text → Pattern → Outcome Rule
with_pattern a p q = parse_ports p >>= λ set. ok (made a q set)

abbrev with_host : Netip → Action → Text × Text → Outcome Rule
with_host net a x = parse_pattern net x.0 >>= with_pattern a x.1

record Parts (net : Netip) (a : Action) (r : Rule) : Type 0 where
  q : Pattern
  set : PortSet
  host_ok : IsPattern net q
  ports_ok : All IsRange set.ranges
  same : made a q set ≡ r

parts :
    (net : Netip) (a : Action) (spec : Text) {r : Rule}
    → parse_rule net a spec ≡ ok r
    → Parts net a r
unfolding parse_rule
parts net a spec h =
    let (x, _, h1) = >>=-eq-ok (split_host_port spec) (with_host net a) h in
    let (q, e, h2) = >>=-eq-ok (parse_pattern net x.0) (with_pattern a x.1) h1 in
    let (set, f, h3) = >>=-eq-ok (parse_ports x.1) (λ set. ok (made a q set)) h2 in
    record {
      q = q;
      set = set;
      host_ok = parse_pattern-IsPattern net x.0 e;
      ports_ok = parse_ports-IsRange x.1 f;
      same = ok-injective h3;
    }

every-back :
    (net : Netip) (law : IsNetip net) (a : Action) (q : Pattern)
    → IsPattern net q
    → parse_rule net a (pattern_text q) ≡ ok (made a q (record { ranges = [] }))
every-back net law a q v =
    parse-made net a _ (split_bare _ (pattern_text-PlainHost net law v))
      (parse_pattern-pattern_text net law v) (unfold parse_ports trim_space in refl)

split_text :
    (host ports : Text)
    → PlainHost host
    → all is_plain_char ports ≡ true
    → contains b':' ports ≡ false
    → split_host_port (bracket_if_colon host ++ b':' ∷ ports) ≡ ok (host, ports)
unfolding bracket_if_colon
split_text host ports v plain k =
    let shape = ap (λ x. b'[' ∷ x) (append_assoc host (b']' ∷ []) (b':' ∷ ports)) in
    let back = ap split_host_port shape ∙ split_bracketed host ports v.plain plain in
    elim (Bool-cases (contains b':' host)) [
      | inl e ↦ rw e back
      | inr e ↦ rw e (split_ports host ports v e plain k)
    ]

ranges-back :
    (net : Netip) (law : IsNetip net) (a : Action) (q : Pattern) (set : PortSet)
    → IsPattern net q
    → All IsRange set.ranges
    → (all is_plain_char (ports_text set) ≡ true) × (contains b':' (ports_text set) ≡ false)
    → parse_rule net a (bracket_if_colon (pattern_text q) ++ b':' ∷ ports_text set)
      ≡ ok (made a q set)
ranges-back net law a q set v w (plain, k) =
    parse-made net a _ (split_text _ _ (pattern_text-PlainHost net law v) plain k)
      (parse_pattern-pattern_text net law v) (parse_ports-ports_text set w)

made-back :
    (net : Netip) (law : IsNetip net) (a : Action) (q : Pattern) (ranges : List PortRange)
    → IsPattern net q
    → All IsRange ranges
    → parse_rule net a (rule_spec (made a q (record { ranges = ranges })))
      ≡ ok (made a q (record { ranges = ranges }))
unfolding rule_spec
made-back net law a q [] v w = every-back net law a q v
made-back net law a q (r ∷ rs) v w =
    ranges-back net law a q (record { ranges = r ∷ rs }) v w (ports_text-plain r rs)

-- When addresses print as `net/netip` documents, the text of every rule that `ParseRule` made
-- parses, under the same action, to that rule.
pub parse_rule-rule_spec :
    (net : Netip) (a : Action) (spec : Text) {r : Rule}
    → IsNetip net
    → parse_rule net a spec ≡ ok r
    → parse_rule net a (rule_spec r) ≡ ok r
parse_rule-rule_spec net a spec law h =
    let p = parts net a spec h in
    subst (λ x. parse_rule net a (rule_spec x) ≡ ok x) p.same
      (made-back net law a p.q p.set.ranges p.host_ok p.ports_ok)

-- When addresses print as `net/netip` documents, two rules of one action that `ParseRule` made are
-- equal when their texts are.
pub rule_spec-injective :
    (net : Netip) (a : Action) (spec other : Text) {r s : Rule}
    → IsNetip net
    → parse_rule net a spec ≡ ok r
    → parse_rule net a other ≡ ok s
    → rule_spec r ≡ rule_spec s
    → r ≡ s
rule_spec-injective net a spec other law h k e = ok-injective (
    sym (parse_rule-rule_spec net a spec law h)
    ∙ ap (parse_rule net a) e
    ∙ parse_rule-rule_spec net a other law k)
