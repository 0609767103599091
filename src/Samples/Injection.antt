-- ===== src/Samples/Injection.antt =====
-- An injector with a key for one host and a login for another, which a request to each of them meets.
use boks.Prelude.{String, ◌≡◌, refl, Bool, true, false, none, some, [], ◌∷◌, arith, length, err, ok}
use boks.Strings.{codes, text_eq}
use boks.Dict.{lookup, insert}
use boks.Policy.Target.{Target}
use boks.Policy.Pattern.{exact}
use boks.Secret.Scope.{Value, map_provider}
use boks.Secret.Inject.{bearer}
use boks.Secret.Oauth.{Oauth, valid_sentinel}
use boks.Secret.Oauth.Tokens.{Tokens, no_tokens, is_zero, expired}
use boks.Secret.Oauth.Swap.{Header}
use boks.Secret.Credential.{Credential}
use boks.Secret.Injector.{rejected, Services, Injector, handles}
use boks.Secret.Injector.Renewal.{stale, keep, access_token}
use boks.Secret.Injector.Renewal.Given.{IsGiven, access_token-IsGiven}
use boks.Secret.Injector.Renewal.Progress.{access_token-again, access_token-recovers}
use boks.Secret.Injector.Exchange.{exchange_token}
use boks.Secret.Injector.Exchange.Public.{IsHarmless, exchange_token-IsHarmless}
use boks.Secret.Oauth.Sentinel.{new_sentinel}
use boks.Secret.Oauth.Sentinel.Shape.{new_sentinel-valid}
use boks.Secret.Injector.Apply.{tls, apply}
use boks.Secret.Injector.Apply.Reach.{Reach, apply-Reach}
use boks.Secret.Injector.Apply.Elsewhere.{apply-handles}

abbrev site : String → Target
site host = record { host = codes host; addr = none; port = 443 }

abbrev secret_of : String → Value
secret_of t = record { raw = codes t }

abbrev login : Tokens
login = record { access = secret_of "real"; refresh = secret_of "again"; expiry = some 900 }

abbrev fresh_login : Tokens
fresh_login = record { access = secret_of "new"; refresh = secret_of ""; expiry = none }

abbrev services : Services
services = record {
  provider = map_provider ((codes "key", codes "k1") ∷ []);
  lookup_oauth = some (λ service. ok login);
  save_oauth = some (λ service t. true);
  refresher = λ o refresh. ok fresh_login;
  host_source = some (λ service. some fresh_login);
  base64 = λ t. t;
  canonical = λ t. t;
  renders = λ t. true;
}

abbrev oauth : Oauth
oauth = record {
  token_endpoint = record { host = codes "login.org"; path = codes "/token" };
  encoding = [];
  resource_hosts = exact (codes "b.org") ∷ [];
  headers = [];
  sentinels = record { access = codes "sentinel"; refresh = codes "later" };
  response_fields = record { access = []; refresh = []; expires_in = [] };
  scopes = [];
  file = record { path = []; template = [] };
}

abbrev pub keyed : Credential
keyed = record {
  service = codes "key";
  env_name = [];
  proxy_managed = false;
  placeholder = [];
  inject =
      record {
        domain = exact (codes "a.org");
        header = [];
        format = [];
        scheme = bearer;
        username = [];
      }
      ∷ [];
  oauth = none;
}

abbrev pub logged_in : Credential
logged_in = record {
  service = codes "login";
  env_name = [];
  proxy_managed = false;
  placeholder = [];
  inject = [];
  oauth = some oauth;
}

abbrev injector : Injector
injector = record {
  credentials = keyed ∷ logged_in ∷ [];
  skew = 10;
  tokens = [];
  host_checked = [];
}

abbrev request : Header
request = (codes "Authorization", codes "Bearer sentinel" ∷ []) ∷ []

request-sent :
    (apply services 5 (site "b.org") tls injector request).1.header
    ≡ ((codes "Authorization", codes "Bearer real" ∷ []) ∷ [])
unfolding apply
request-sent = refl

apply-Reach_example :
    Reach services 5
      (site "b.org")
      tls
      injector.credentials
      (injector, request)
      (
        (apply services 5 (site "b.org") tls injector request).1.injector,
        (apply services 5 (site "b.org") tls injector request).1.header,
      )
apply-Reach_example = apply-Reach services 5 (site "b.org") tls injector request

elsewhere : handles injector (site "c.org") ≡ false
unfolding handles
elsewhere = refl

apply-handles_example :
    apply services 5 (site "c.org") tls injector request
    ≡ (none, record { injector = injector; header = request; used = []; is_stale = false })
apply-handles_example = apply-handles services 5 (site "c.org") tls injector request elsewhere

access_token-IsGiven_example :
    IsGiven logged_in (codes "other") injector (access_token services 5 injector logged_in oauth)
access_token-IsGiven_example =
    access_token-IsGiven services 5 logged_in oauth (codes "other") injector

abbrev holding : Injector
holding = keep injector (codes "login") login

first_time : access_token services 5 injector logged_in oauth ≡ (ok login, holding)
unfolding access_token
first_time = refl

access_token-again_example : access_token services 6 holding logged_in oauth ≡ (ok login, holding)
access_token-again_example =
    access_token-again services services 5 6 injector holding logged_in oauth login first_time
      (unfold expired in refl)

-- A login whose refresh is rejected, on a host without another one.
abbrev rejecting : Services
rejecting = record services {
  refresher = λ o refresh. err rejected;
  host_source = some (λ service. none);
}

abbrev stale_injector : Injector
stale_injector = record injector {
  tokens = (codes "login", no_tokens) ∷ [];
  host_checked = (codes "login", 950) ∷ [];
}

became_stale : access_token rejecting 950 holding logged_in oauth ≡ (err stale, stale_injector)
unfolding access_token
became_stale = refl

access_token-recovers_example :
    ((access_token services 30000000950 stale_injector logged_in oauth).0 ≡ ok fresh_login)
    × (◌≡◌ {A = Bool} true true)
unfolding lookup text_eq
access_token-recovers_example =
    access_token-recovers rejecting services 950 30000000950 holding stale_injector logged_in oauth
      fresh_login (λ service. some fresh_login) (unfold insert in refl) became_stale refl refl
      (unfold is_zero in refl) (unfold expired in refl)

exchange_token-IsHarmless_example :
    IsHarmless logged_in oauth
      (codes "other")
      (codes "scope")
      injector
      (exchange_token services 5 injector logged_in)
exchange_token-IsHarmless_example =
    exchange_token-IsHarmless services 5 injector logged_in oauth (codes "other") (codes "scope")
      refl

new_sentinel-valid_example :
    (valid_sentinel (new_sentinel (codes "sk-") (codes "a b") 40) ≡ ok tt)
    × (length (new_sentinel (codes "sk-") (codes "a b") 40) ≡ 40)
new_sentinel-valid_example = new_sentinel-valid (codes "sk-") (codes "a b") 40 refl (omega arith)
