-- ===== src/Secret/Service.antt =====
-- internal/secret/service.go: the services that are known, their registry, and which credential is kept
-- of two for the same hosts. The table of services itself is data.
pub mod Prefer
pub mod Registry
use boks.Prelude.{
  ℕ, Bool, true, false, not, ◌&&◌, ◌||◌, Option, none, some, List, [], ◌∷◌, ◌++◌, map, leb, ◌==◌,
  if◌then◌else◌, is_some, has_any, any, all, keep_if, Result, err, ok, ◌>>=◌, ◌>>◌,
}
use boks.Strings.{Text, codes, text_eq, is_empty, to_lower, has_prefix, join}
use boks.Netip.{Netip}
use boks.Policy.Pattern.{pattern_text}
use boks.Secret.Inject.{Scheme, no_scheme, bearer, basic, Inject}
use boks.Secret.Oauth.{Endpoint, Oauth}
use boks.Secret.Oauth.Sentinel.{new_sentinel}
use boks.Secret.Credential.{Credential, CredentialError, Answer, parse_credentials}

-- `ServiceInject`
pub record ServiceInject : Type 0 where
  pub hosts : List Text
  pub header : Text
  pub format : Text
  pub scheme : Scheme
  pub username : Text
  pub why : Text

-- `Service`, less the texts for people that no operation here reads
pub record Service : Type 0 where
  pub name : Text
  pub inject : List ServiceInject
  pub ports : Text
  pub env_name : Text
  pub key_prefix : Text
  pub key_length : ℕ
  pub token_endpoint : Endpoint
  pub source : Text

pub data ServiceError : Type 0 where
  bad_name no_source no_key_shape rule_without_hosts rule_without_why : ServiceError
  not_configured no_credential bad_token_path : ServiceError
  bad_credential : CredentialError → ServiceError
  unknown_service : Text → ServiceError

-- `Service.Configured`
abbrev pub is_configured : Service → Bool
is_configured s = has_any s.inject

-- `Service.HasOAuth`
abbrev pub has_oauth : Service → Bool
has_oauth s = not (is_empty s.token_endpoint.host)

abbrev pub unique : List Text → List Text → List Text
unique seen [] = []
unique seen (h ∷ hs) =
    let known = any (text_eq h) seen in
    let rest = unique (if known then seen else h ∷ seen) hs in if known then rest else h ∷ rest

abbrev pub all_hosts : List ServiceInject → List Text
all_hosts [] = []
all_hosts (r ∷ rs) = r.hosts ++ all_hosts rs

-- `Service.Hosts`
unfoldable pub service_hosts : Service → List Text
unfolding text_eq
service_hosts s = unique [] (all_hosts s.inject)

-- `Service.Placeholder`
unfoldable pub service_placeholder : Service → Text
unfolding new_sentinel
service_placeholder s =
    if is_configured s
    then new_sentinel s.key_prefix s.name (if s.key_length == 0 then 64 else s.key_length)
    else []

-- `Service.AllowSpecs`
unfoldable pub allow_specs : Service → List Text
unfolding service_hosts
allow_specs s =
    map (λ h. h ++ b':' ∷ (if is_empty s.ports then codes "443" else s.ports)) (service_hosts s)

abbrev pub header_or_default : Text → Text
header_or_default h = if is_empty h then codes "Authorization" else h

-- `ServiceInject.attachment`
unfoldable pub attachment : ServiceInject → Text
attachment r = elim r.scheme [
  | bearer ↦ codes "bearer"
  | basic ↦ if is_empty r.username then codes "basic" else codes "basic:" ++ r.username
  | no_scheme ↦
      if is_empty r.format
      then header_or_default r.header
      else header_or_default r.header ++ b':' ∷ r.format
]

-- `Service.InjectSpecs`
unfoldable pub inject_specs : Service → List Text
unfolding attachment join
inject_specs s = map (λ r. s.name ++ b'@' ∷ (join b',' r.hosts ++ b'=' ∷ attachment r)) s.inject

-- `Service.GuestSpec`, as the list that `Service.Credential` makes of it
unfoldable pub guest_specs : Service → List Text
unfolding service_placeholder
guest_specs s =
    if is_configured s && not (is_empty s.env_name)
    then (s.name ++ b'=' ∷ (s.env_name ++ b'=' ∷ service_placeholder s)) ∷ []
    else []

abbrev pub first_credential : Answer (List Credential) → Result ServiceError Credential
first_credential (err e) = err (bad_credential e)
first_credential (ok []) = err no_credential
first_credential (ok (c ∷ cs)) = ok c

abbrev pub is_alnum : ℕ → Bool
is_alnum c = leb b'a' c && leb c b'z' || leb b'A' c && leb c b'Z' || leb b'0' c && leb c b'9'

abbrev pub is_separator : ℕ → Bool
is_separator c = c == b'.' || c == b'_' || c == b'-'

-- Whether the rest of a name may follow, after a letter or digit or not.
unfoldable pub name_after : Bool → Text → Bool
name_after after [] = after
name_after after (c ∷ s) =
    is_alnum c && name_after true s || is_separator c && after && name_after false s

-- `serviceNameRe`
abbrev pub is_service_name : Text → Bool
is_service_name s = name_after false s

abbrev pub refuse_service : Bool → ServiceError → Result ServiceError (Unit {0})
refuse_service true e = err e
refuse_service false e = ok tt

unfoldable pub valid_service_rules : List ServiceInject → Result ServiceError (Unit {0})
valid_service_rules [] = ok tt
valid_service_rules (r ∷ rs) =
    refuse_service (not (has_any r.hosts)) rule_without_hosts
    >> refuse_service (is_empty r.why) rule_without_why
    >> valid_service_rules rs

unfoldable pub put_service : Service → List Service → List Service
unfolding text_eq
put_service s [] = s ∷ []
put_service s (t ∷ ts) = if text_eq t.name s.name then s ∷ ts else t ∷ put_service s ts

module _ (net : Netip) where
  -- `Service.Credential`
  unfoldable pub service_credential : Service → Result ServiceError Credential
  unfolding inject_specs guest_specs parse_credentials
  service_credential s =
      if is_configured s
      then first_credential (parse_credentials net (inject_specs s) (guest_specs s))
      else err not_configured

  abbrev pub has_bad_path : Service → Bool
  has_bad_path s = has_oauth s && not (has_prefix s.token_endpoint.path (codes "/"))

  -- `Service.Validate`
  unfoldable pub validate_service : Service → Result ServiceError (Unit {0})
  unfolding name_after valid_service_rules service_credential has_prefix
  validate_service s =
      if not (is_service_name s.name)
      then err bad_name
      else if not (is_configured s)
      then ok tt
      else (refuse_service (is_empty s.source) no_source
          >> refuse_service (is_empty s.key_prefix && s.key_length == 0) no_key_shape
          >> valid_service_rules s.inject
          >> (service_credential s >>= λ c. refuse_service (has_bad_path s) bad_token_path))

  -- `ServiceRegistry.Add`
  unfoldable pub add_service : Service → List Service → Result ServiceError (List Service)
  unfolding validate_service put_service
  add_service s registry = validate_service s >> ok (put_service s registry)

-- `ServiceRegistry.Lookup`
unfoldable pub lookup_service : Text → List Service → Option Service
unfolding text_eq
lookup_service name [] = none
lookup_service name (s ∷ ss) =
    let rest = lookup_service name ss in if text_eq s.name name then some s else rest

-- `ServiceRegistry.Resolve`
unfoldable pub resolve_service : Text → List Service → Result ServiceError Service
unfolding lookup_service
resolve_service name registry = elim (lookup_service name registry) [
  | none ↦ err (unknown_service name)
  | some s ↦ ok s
]

abbrev pub domain_text : Inject → Text
domain_text r = to_lower (pattern_text r.domain)

abbrev pub resource_texts : Option Oauth → List Text
resource_texts none = []
resource_texts (some o) = map (λ h. to_lower (pattern_text h)) o.resource_hosts

unfoldable pub covered_hosts : List Credential → List Text
unfolding to_lower pattern_text
covered_hosts [] = []
covered_hosts (c ∷ cs) = resource_texts c.oauth ++ covered_hosts cs

-- Whether a credential is dropped: it has rules only, and each is for a covered host.
unfoldable pub is_covered : List Text → Credential → Bool
unfolding to_lower pattern_text text_eq
is_covered hosts c =
    not (is_some c.oauth)
    && (has_any c.inject && all (λ r. any (text_eq (domain_text r)) hosts) c.inject)

-- `PreferOAuth`
unfoldable pub prefer_oauth : List Credential → List Credential × List Text
unfolding covered_hosts is_covered
prefer_oauth cs =
    let hosts = covered_hosts cs in
    if has_any hosts
    then (
      keep_if (λ c. not (is_covered hosts c)) cs,
      map (λ c. c.service) (keep_if (is_covered hosts) cs),
    )
    else (cs, [])
