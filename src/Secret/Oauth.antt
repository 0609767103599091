-- ===== src/Secret/Oauth.antt =====
-- internal/secret/oauth.go: OAuth credentials, of which a guest holds stand-ins.
pub mod Tokens
pub mod Swap
pub mod Sentinel
use boks.Prelude.{
  Bool, true, false, not, ◌&&◌, ◌||◌, Option, none, some, List, [], ◌∷◌, ◌++◌, map, ltb,
  if◌then◌else◌, has_any, any, all, Result, err, ok, ◌>>◌,
}
use boks.Strings.{Text, codes, text_eq, is_empty, equal_fold, byte_length, has_prefix, contains}
use boks.Policy.Target.{Target}
use boks.Policy.Pattern.{Pattern, pattern_match, is_any, pattern_text}
use boks.Secret.Inject.{is_newline, is_header_char}

-- `Endpoint`
pub record Endpoint : Type 0 where
  pub host : Text
  pub path : Text

-- `Sentinels`
pub record Sentinels : Type 0 where
  pub access : Text
  pub refresh : Text

pub record CredentialFile : Type 0 where
  pub path : Text
  pub template : Text

-- `ResponseFields`; an empty name stands for the usual one.
pub record ResponseFields : Type 0 where
  pub access : Text
  pub refresh : Text
  pub expires_in : Text

-- `OAuth`, less the fields that only compose the texts for the guest
pub record Oauth : Type 0 where
  pub token_endpoint : Endpoint
  pub encoding : Text
  pub resource_hosts : List Pattern
  pub headers : List Text
  pub sentinels : Sentinels
  pub response_fields : ResponseFields
  pub scopes : List Text
  pub file : CredentialFile

pub data OauthError : Type 0 where
  no_endpoint_host endpoint_is_url endpoint_path_relative no_resource_hosts : OauthError
  any_resource_host empty_resource_host unknown_encoding bad_header_name : OauthError
  no_sentinel short_sentinel sentinel_newline sentinels_equal : OauthError
  file_path_relative file_without_template file_template : OauthError

abbrev pub Valid : Type 0
Valid = Result OauthError (Unit {0})

-- `if bad { return error }`
abbrev pub refuse : Bool → OauthError → Valid
refuse true why = err why
refuse false why = ok tt

-- `validSentinel`
unfoldable pub valid_sentinel : Text → Valid
unfolding byte_length
valid_sentinel s =
    refuse (is_empty s) no_sentinel
    >> refuse (ltb (byte_length s) 16) short_sentinel
    >> refuse (any is_newline s) sentinel_newline

-- `OAuth.headers`
unfoldable pub headers_of : Oauth → List Text
headers_of o = if has_any o.headers then o.headers else codes "Authorization" ∷ []

unfoldable pub valid_hosts : List Pattern → Valid
unfolding is_any pattern_text
valid_hosts [] = ok tt
valid_hosts (h ∷ hs) =
    refuse (is_any h) any_resource_host
    >> refuse (is_empty (pattern_text h)) empty_resource_host
    >> valid_hosts hs

abbrev pub is_header_name : Text → Bool
is_header_name name = not (is_empty name) && all is_header_char name

-- The file of a credential; `renders` is whether `text/template` accepts a template.
unfoldable pub valid_file : (Text → Bool) → CredentialFile → Valid
unfolding has_prefix
valid_file renders f =
    if is_empty f.path
    then ok tt
    else (refuse (not (has_prefix f.path (codes "/"))) file_path_relative
        >> refuse (is_empty f.template) file_without_template
        >> refuse (not (renders f.template)) file_template)

abbrev pub valid_refresh : Sentinels → Valid
valid_refresh s =
    if is_empty s.refresh
    then ok tt
    else (valid_sentinel s.refresh >> refuse (text_eq s.refresh s.access) sentinels_equal)

-- `OAuth.Validate`
unfoldable pub validate_oauth : (Text → Bool) → Oauth → Valid
unfolding valid_hosts valid_sentinel headers_of valid_file has_prefix text_eq contains
    is_header_char
validate_oauth renders o =
    refuse (is_empty o.token_endpoint.host) no_endpoint_host
    >> refuse (contains b'/' o.token_endpoint.host || contains b' ' o.token_endpoint.host)
        endpoint_is_url
    >> refuse (not (has_prefix o.token_endpoint.path (codes "/"))) endpoint_path_relative
    >> refuse (not (has_any o.resource_hosts)) no_resource_hosts
    >> valid_hosts o.resource_hosts
    >> refuse
        (not (
          is_empty o.encoding
          || text_eq o.encoding (codes "json")
          || text_eq o.encoding (codes "form")))
        unknown_encoding
    >> refuse (not (all is_header_name (headers_of o))) bad_header_name
    >> valid_sentinel o.sentinels.access
    >> valid_refresh o.sentinels
    >> valid_file renders o.file

-- `OAuth.MatchesResource`, of a credential that may have none
unfoldable pub matches_resource : Option Oauth → Target → Bool
unfolding pattern_match
matches_resource none t = false
matches_resource (some o) t = any (λ p. pattern_match p t) o.resource_hosts

-- `OAuth.MatchesTokenEndpoint`; the host of a target is ASCII
unfoldable pub matches_token_endpoint : Option Oauth → Target → Bool
unfolding equal_fold
matches_token_endpoint none t = false
matches_token_endpoint (some o) t = equal_fold t.host o.token_endpoint.host

-- `OAuth.Domains`
unfoldable pub oauth_domains : Option Oauth → List Text
unfolding pattern_text
oauth_domains none = []
oauth_domains (some o) = map pattern_text o.resource_hosts ++ o.token_endpoint.host ∷ []
