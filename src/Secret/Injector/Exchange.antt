-- ===== src/Secret/Injector/Exchange.antt =====
-- internal/secret/secret.go and oauth.go: the answer to a guest's token request. Its body is the
-- object that `json.Marshal` prints. An error of the provider comes with no tokens.
pub mod Public
use boks.Prelude.{
  ℕ, Bool, true, false, not, ◌&&◌, ◌||◌, Option, none, some, [], if◌then◌else◌, has_any, Result,
  err, ok,
}
use boks.Strings.{Text, codes, is_empty, join}
use boks.Dict.{Dict, lookup, insert}
use boks.Secret.Scope.{LookupError}
use boks.Secret.Oauth.{Oauth}
use boks.Secret.Oauth.Tokens.{Tokens, no_tokens, is_zero_value, is_zero, expired}
use boks.Secret.Credential.{Credential}
use boks.Secret.Injector.{Services, Injector}
use boks.Secret.Injector.Renewal.{TokenError, not_oauth, Taken, keep, refresh}

pub data Json : Type 0 where
  text : Text → Json
  number : ℕ → Json

-- `TokenExchange`
pub record Exchange : Type 0 where
  pub service : Text
  pub status : ℕ
  pub body : Dict Json
  pub refreshed : Bool

abbrev pub name_or : Text → Text → Text
name_or given usual = if is_empty given then usual else given

-- `sentinelLifetime` in seconds, 365 days
abbrev pub sentinel_lifetime : ℕ
sentinel_lifetime = 31536000

abbrev pub with_refresh : Oauth → Dict Json → Dict Json
with_refresh o body =
    if is_empty o.sentinels.refresh
    then body
    else insert (name_or o.response_fields.refresh (codes "refresh_token"))
        (text o.sentinels.refresh) body

abbrev pub with_scope : Oauth → Dict Json → Dict Json
with_scope o body =
    if has_any o.scopes then insert (codes "scope") (text (join 32 o.scopes)) body else body

-- `OAuth.tokenResponseBody`
unfoldable pub token_response_body : Oauth → Dict Json
unfolding insert join
token_response_body o = with_scope o (
    with_refresh o (
      insert (codes "token_type") (text (codes "Bearer")) (
        insert (name_or o.response_fields.expires_in (codes "expires_in"))
          (number sentinel_lifetime)
          (insert (name_or o.response_fields.access (codes "access_token"))
            (text o.sentinels.access) []))))

-- What a call gives, and the injector after it.
abbrev pub Exchanged : Type 0
Exchanged = Result TokenError Exchange × Injector

abbrev pub answer : Credential → Oauth → Bool → Exchange
answer c o refreshed = record {
  service = c.service;
  status = 200;
  body = token_response_body o;
  refreshed = refreshed;
}

abbrev pub after_looking : Injector → Credential → Result LookupError Tokens → Tokens × Injector
after_looking i c (err e) = (no_tokens, i)
after_looking i c (ok t) = (t, keep i c.service t)

abbrev pub looked_up :
    Option (Text → Result LookupError Tokens) → Injector → Credential → Tokens × Injector
looked_up none i c = (no_tokens, i)
looked_up (some look) i c = after_looking i c (look c.service)

abbrev pub after_renewal : Credential → Oauth → Taken → Exchanged
after_renewal c o (err e, i) = (err e, i)
after_renewal c o (ok t, i) = (ok (answer c o true), i)

module _ (w : Services) (now : ℕ) where
  unfoldable pub exchange_with : Credential → Oauth → Tokens × Injector → Exchanged
  unfolding refresh token_response_body is_zero expired
  exchange_with c o (t, i) =
      if (is_zero t || expired t now i.skew) && not (is_zero_value t.refresh)
      then after_renewal c o (refresh w now i c o t)
      else (ok (answer c o false), i)

  unfoldable pub exchange_oauth : Injector → Credential → Oauth → Exchanged
  unfolding exchange_with lookup insert
  exchange_oauth i c o = elim (lookup c.service i.tokens) [
    | some t ↦ exchange_with c o (t, i)
    | none ↦ exchange_with c o (looked_up w.lookup_oauth i c)
  ]

  -- `Injector.ExchangeToken`
  unfoldable pub exchange_token : Injector → Credential → Exchanged
  unfolding exchange_oauth
  exchange_token i c = elim c.oauth [ none ↦ (err not_oauth, i) | some o ↦ exchange_oauth i c o ]
