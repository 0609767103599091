-- ===== src/Secret/Injector.antt =====
-- internal/secret/secret.go: the injector, which attaches credentials to requests. The mutex is one
-- call at a time; a call is handled at one time of the clock.
pub mod Renewal
pub mod Exchange
pub mod Apply
use boks.Prelude.{
  ℕ, Bool, false, not, ◌&&◌, ◌||◌, Option, none, some, List, [], ◌∷◌, if◌then◌else◌, is_some, any,
  Result, err, ok, ◌>>=◌,
}
use boks.Strings.{Text, text_eq}
use boks.Dict.{Dict}
use boks.Policy.Target.{Target}
use boks.Policy.Pattern.{pattern_match}
use boks.Secret.Scope.{Value, LookupError, Provider}
use boks.Secret.Oauth.{Oauth, matches_resource, matches_token_endpoint}
use boks.Secret.Oauth.Tokens.{Tokens}
use boks.Secret.Credential.{Credential, CredentialError, validate_credential}

-- The error of a refresh: `ErrRefreshRejected`, or another one.
pub data RefreshError : Type 0 where
  rejected : RefreshError
  not_refreshed : Text → RefreshError

-- What an injector calls: the provider, which may also hold OAuth credentials and save them; the
-- refresher; the host's own login; and `base64` and the names of headers of the libraries.
pub record Services : Type 0 where
  pub provider : Provider
  pub lookup_oauth : Option (Text → Result LookupError Tokens)
  pub save_oauth : Option (Text → Tokens → Bool)
  pub refresher : Oauth → Value → Result RefreshError Tokens
  pub host_source : Option (Text → Option Tokens)
  pub base64 : Text → Text
  pub canonical : Text → Text
  pub renders : Text → Bool

-- `Injector`: `tokens` are those in use, and `host_checked` when the host was last asked.
pub record Injector : Type 0 where
  pub credentials : List Credential
  pub skew : ℕ
  pub tokens : Dict Tokens
  pub host_checked : Dict ℕ

pub data InjectorError : Type 0 where
  invalid : CredentialError → InjectorError
  defined_twice : Text → InjectorError
  no_oauth_provider : Text → InjectorError

-- The loop of `NewInjector` over the credentials.
unfoldable pub check_all :
    (Text → Bool) → List Text → List Credential → Result InjectorError (Unit {0})
unfolding validate_credential text_eq
check_all renders seen [] = ok tt
check_all renders seen (c ∷ cs) = elim (validate_credential renders c) [
  | err e ↦ err (invalid e)
  | ok done ↦
      let rest = check_all renders (c.service ∷ seen) cs in
      if any (text_eq c.service) seen then err (defined_twice c.service) else rest
]

unfoldable pub check_oauth : Bool → List Credential → Result InjectorError (Unit {0})
check_oauth has [] = ok tt
check_oauth has (c ∷ cs) =
    let rest = check_oauth has cs in
    if is_some c.oauth && not has then err (no_oauth_provider c.service) else rest

-- `DefaultRefreshSkew`, two minutes
abbrev pub default_refresh_skew : ℕ
default_refresh_skew = 120000000000

-- `NewInjector` of a provider
unfoldable pub new_injector : Services → List Credential → Result InjectorError Injector
unfolding check_all check_oauth
new_injector w cs = do
  valid ← check_all w.renders [] cs
  served ← check_oauth (is_some w.lookup_oauth) cs
  ok (record { credentials = cs; skew = default_refresh_skew; tokens = []; host_checked = [] })

-- Whether a rule of a credential is for a target.
abbrev pub has_rule_for : Credential → Target → Bool
has_rule_for c t = any (λ r. pattern_match r.domain t) c.inject

-- `Injector.Handles`
unfoldable pub handles : Injector → Target → Bool
unfolding pattern_match matches_resource matches_token_endpoint
handles i t =
    any (λ c. has_rule_for c t || (matches_resource c.oauth t || matches_token_endpoint c.oauth t))
      i.credentials

abbrev pub is_endpoint_of : Target → Text → Credential → Bool
is_endpoint_of t path c = elim c.oauth [
  | none ↦ false
  | some o ↦ matches_token_endpoint (some o) t && text_eq path o.token_endpoint.path
]

unfoldable pub first_endpoint : Target → Text → List Credential → Option Credential
unfolding matches_token_endpoint text_eq
first_endpoint t path [] = none
first_endpoint t path (c ∷ cs) =
    let rest = first_endpoint t path cs in if is_endpoint_of t path c then some c else rest

-- `Injector.TokenEndpointFor`
unfoldable pub token_endpoint_for : Injector → Target → Text → Option Credential
unfolding first_endpoint
token_endpoint_for i t path = first_endpoint t path i.credentials
