-- ===== src/Secret/Inject.antt =====
-- internal/secret/secret.go: the rules by which the proxy attaches a credential. A text that
-- `fmt.Sprintf` is not given here, a format with another verb, is `none`; `base64` is
-- `base64.StdEncoding` on the bytes of a text.
pub mod Header
pub mod Rules
use boks.Prelude.{
  ℕ, suc, Bool, not, ◌&&◌, ◌||◌, Option, none, some, List, [], ◌∷◌, ◌++◌, leb, ◌==◌, if◌then◌else◌,
  is_some, any, all, Result, err, ok, ◌>>=◌, ◌>>◌,
}
use boks.Strings.{Text, codes, text_eq, is_empty, trim_space, to_lower, count, split, cut}
use boks.Netip.{Netip}
use boks.Policy.Error.{Error}
use boks.Policy.Pattern.{Pattern, exact, parse_pattern, is_any, pattern_text}

pub data Scheme : Type 0 where
  no_scheme bearer basic : Scheme

-- `Inject`; a `Scheme` of another text is not made by `parse_attachment`.
pub record Inject : Type 0 where
  pub domain : Pattern
  pub header : Text
  pub format : Text
  pub scheme : Scheme
  pub username : Text

pub data InjectError : Type 0 where
  no_domain any_domain format_and_scheme username_without_basic : InjectError
  format_placeholders format_verb format_newline header_empty header_char : InjectError
  no_at no_service no_equals no_attachment bearer_field : InjectError
  bad_host : Error → InjectError

abbrev pub is_newline : ℕ → Bool
is_newline c = c == 10 || c == 13

-- `strings.Count(s, "%s")`
unfoldable pub count_verbs : Text → ℕ
count_verbs [] = 0
count_verbs (c ∷ []) = 0
count_verbs (c ∷ d ∷ s) =
    let rest = count_verbs s in
    let next = count_verbs (d ∷ s) in if c == b'%' && d == b's' then suc rest else next

-- `Inject.header`
unfoldable pub header_of : Inject → Text
header_of r = if is_empty r.header then codes "Authorization" else r.header

-- `Inject.effectiveFormat`
abbrev pub format_of : Scheme → Text → Text
format_of bearer format = codes "Bearer %s"
format_of basic format = codes "Basic %s"
format_of no_scheme format = if is_empty format then codes "%s" else format

unfoldable pub effective_format : Inject → Text
effective_format r = format_of r.scheme r.format

-- A character of a header's name.
unfoldable pub is_header_char : ℕ → Bool
is_header_char c =
    leb b'a' c && leb c b'z'
    || leb b'A' c && leb c b'Z'
    || leb b'0' c && leb c b'9'
    || c == b'-'
    || c == b'_'
    || c == b'.'

-- `validHeaderName`, before `next`
unfoldable pub valid_header_name : Text → Result InjectError (Unit {0})
unfolding is_header_char
valid_header_name name =
    if is_empty name
    then err header_empty
    else if all is_header_char name
    then ok tt
    else err header_char

-- The checks of a format without a scheme.
unfoldable pub valid_format : Text → Result InjectError (Unit {0})
unfolding count_verbs count
valid_format format =
    if not (count_verbs format == 1)
    then err format_placeholders
    else if not (count b'%' format == 1)
    then err format_verb
    else if any is_newline format
    then err format_newline
    else ok tt

unfoldable pub valid_attachment : Scheme → Inject → Result InjectError (Unit {0})
unfolding valid_format valid_header_name effective_format header_of
valid_attachment no_scheme r =
    if not (is_empty r.username)
    then err username_without_basic
    else valid_format (effective_format r) >> valid_header_name (header_of r)
valid_attachment bearer r =
    if not (is_empty r.format)
    then err format_and_scheme
    else if not (is_empty r.username)
    then err username_without_basic
    else valid_header_name (header_of r)
valid_attachment basic r =
    if not (is_empty r.format) then err format_and_scheme else valid_header_name (header_of r)

-- `Inject.Validate`
unfoldable pub validate_inject : Inject → Result InjectError (Unit {0})
unfolding pattern_text is_any valid_attachment
validate_inject r =
    if is_empty (pattern_text r.domain)
    then err no_domain
    else if is_any r.domain
    then err any_domain
    else valid_attachment r.scheme r

abbrev pub before_text : Text → Option Text → Option Text
before_text front none = none
before_text front (some rest) = some (front ++ rest)

abbrev pub before_char : ℕ → Option Text → Option Text
before_char c none = none
before_char c (some rest) = some (c ∷ rest)

-- `fmt.Sprintf(format, raw)` of formats with no verb but `%s`, which takes the one argument
unfoldable pub sprintf : Text → Text → Option Text
sprintf raw [] = some []
sprintf raw (c ∷ []) = if c == b'%' then none else some (c ∷ [])
sprintf raw (c ∷ d ∷ s) =
    let rest = sprintf raw s in
    let next = sprintf raw (d ∷ s) in
    if c == b'%' then (if d == b's' then before_text raw rest else none) else before_char c next

abbrev pub encoded : (Text → Text) → Scheme → Text → Text → Text
encoded base64 basic username raw = base64 (username ++ b':' ∷ raw)
encoded base64 _ username raw = raw

-- `Inject.headerValue`
unfoldable pub header_value : (Text → Text) → Inject → Text → Option Text
unfolding sprintf effective_format
header_value base64 r raw = sprintf (encoded base64 r.scheme r.username raw) (effective_format r)

abbrev pub blank_inject : Inject
blank_inject = record {
  domain = exact [];
  header = [];
  format = [];
  scheme = no_scheme;
  username = [];
}

abbrev pub tail_or_empty : Option (Text × Text) → Text
tail_or_empty none = []
tail_or_empty (some (head, tail)) = tail

abbrev pub head_or_whole : Text → Option (Text × Text) → Text
head_or_whole attach none = attach
head_or_whole attach (some (head, tail)) = head

-- `parseAttachment`
unfoldable pub parse_attachment : Text → Result InjectError Inject
unfolding cut to_lower trim_space text_eq
parse_attachment attach =
    let fields = cut b':' attach in
    let head = head_or_whole attach fields in
    let word = to_lower (trim_space head) in
    if is_empty attach
    then err no_attachment
    else if text_eq word (codes "bearer")
    then (if is_some fields then err bearer_field else ok (record blank_inject { scheme = bearer }))
    else if text_eq word (codes "basic")
    then ok (record blank_inject { scheme = basic; username = trim_space (tail_or_empty fields) })
    else ok (record blank_inject { header = trim_space head; format = tail_or_empty fields })

module _ (net : Netip) where
  abbrev pub host_pattern : Text → Result InjectError Pattern
  host_pattern h = elim (parse_pattern net h) [ err e ↦ err (bad_host e) | ok p ↦ ok p ]

  -- the loop of `ParseInject` over the hosts
  unfoldable pub rules_for : Inject → List Text → Result InjectError (List Inject)
  unfolding parse_pattern validate_inject
  rules_for template [] = ok []
  rules_for template (h ∷ hs) = do
    domain ← host_pattern h
    let rule = record template { domain = domain }
    done ← validate_inject rule
    rules ← rules_for template hs
    ok (rule ∷ rules)

  unfoldable pub parse_rest : Text → Text → Result InjectError (Text × List Inject)
  unfolding cut trim_space split parse_attachment rules_for
  parse_rest service rest = if is_empty service then err no_service else elim (cut b'=' rest) [
    | none ↦ err no_equals
    | some (hosts, attach) ↦ do
      template ← parse_attachment (trim_space attach)
      rules ← rules_for template (split b',' hosts)
      ok (service, rules)
  ]

  -- `ParseInject`
  unfoldable pub parse_inject : Text → Result InjectError (Text × List Inject)
  unfolding cut trim_space parse_rest
  parse_inject spec = elim (cut b'@' spec) [
    | none ↦ err no_at
    | some (service, rest) ↦ parse_rest (trim_space service) rest
  ]
