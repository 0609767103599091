-- ===== src/Secret/Injector/Renewal.antt =====
-- internal/secret/secret.go: how the injector comes by an access token.
pub mod Given
pub mod Stale
pub mod Progress
use boks.Prelude.{
  ℕ, ◌+◌, Bool, true, not, ◌&&◌, ◌||◌, Option, none, some, leb, if◌then◌else◌, is_some, Result, err,
  ok,
}
use boks.Strings.{Text, text_eq}
use boks.Dict.{lookup, insert}
use boks.Secret.Scope.{Value, LookupError, not_found, failed}
use boks.Secret.Oauth.{Oauth}
use boks.Secret.Oauth.Tokens.{Tokens, no_tokens, is_zero_value, is_zero, expired}
use boks.Secret.Credential.{Credential}
use boks.Secret.Injector.{RefreshError, rejected, not_refreshed, Services, Injector}

-- The errors of a credential; `stale` is `ErrCredentialStale`.
pub data TokenError : Type 0 where
  stale no_store not_stored lookup_failed no_refresh_token : TokenError
  refresh_failed : Text → TokenError
  empty_refresh not_saved not_oauth : TokenError

-- What a call gives, and the injector after it.
abbrev pub Taken : Type 0
Taken = Result TokenError Tokens × Injector

abbrev pub save_with : Option (Text → Tokens → Bool) → Text → Tokens → Bool
save_with none service t = true
save_with (some save) service t = save service t

abbrev pub keep : Injector → Text → Tokens → Injector
keep i service t = record i { tokens = insert service t i.tokens }

-- The tokens of a refresh, which keep the old refresh token where no new one came.
abbrev pub renewed : Value → Tokens → Tokens
renewed old t = if is_zero_value t.refresh then record t { refresh = old } else t

abbrev pub is_past : ℕ → Option ℕ → Bool
is_past now none = true
is_past now (some at) = leb (at + 30000000000) now

module _ (w : Services) (now : ℕ) where
  -- `Injector.adopt`
  unfoldable pub adopt : Injector → Credential → Tokens → Taken
  unfolding insert
  adopt i c t =
      if save_with w.save_oauth c.service t
      then (ok t, keep i c.service t)
      else (err not_saved, keep i c.service t)

  -- The tokens of the host's login, unless they are none or those in use.
  abbrev pub other_login : Tokens → Option Tokens → Option Tokens
  other_login current none = none
  other_login current (some t) =
      if is_zero t || text_eq t.access.raw current.access.raw then none else some t

  -- `Injector.fromHost`
  unfoldable pub from_host : Injector → Credential → Tokens → Option Tokens × Injector
  unfolding insert text_eq is_zero
  from_host i c current = elim w.host_source [
    | none ↦ (none, i)
    | some source ↦ (
      other_login current (source c.service),
      record i { host_checked = insert c.service now i.host_checked },
    )
  ]

  -- A refresh with the login's own token; none where there is none, or it fails.
  unfoldable pub refreshed_login : Oauth → Tokens → Option Tokens
  unfolding is_zero
  refreshed_login o t = elim (w.refresher o t.refresh) [
    | err e ↦ none
    | ok fresh ↦ if is_zero fresh then none else some (renewed t.refresh fresh)
  ]

  -- The tokens to take over are used whether or not they are saved.
  abbrev pub taken_over : Injector → Credential → Tokens → Option Tokens × Injector
  taken_over i c t = (some t, keep i c.service t)

  abbrev pub over_login : Injector → Credential → Oauth → Option Tokens → Option Tokens × Injector
  over_login i c o none = (none, i)
  over_login i c o (some t) =
      if not (expired t now i.skew)
      then taken_over i c t
      else if is_zero_value t.refresh
      then (none, i)
      else elim (refreshed_login o t) [ none ↦ (none, i) | some fresh ↦ taken_over i c fresh ]

  -- `Injector.recoverFromHost`
  unfoldable pub recover_from_host : Injector → Credential → Oauth → Option Tokens × Injector
  unfolding from_host refreshed_login lookup expired insert
  recover_from_host i c o =
      if is_some w.host_source && is_past now (lookup c.service i.host_checked)
      then (let (login, i') = from_host i c no_tokens in over_login i' c o login)
      else (none, i)

  abbrev pub dropped : Injector → Credential → Taken
  dropped i c = (err stale, keep i c.service no_tokens)

  -- The end of a refresh that was rejected, with the host's login if it has another one.
  unfoldable pub after_rejection : Injector → Credential → Oauth → Tokens → Option Tokens → Taken
  unfolding adopt refreshed_login expired text_eq insert
  after_rejection i c o current none = dropped i c
  after_rejection i c o current (some t) =
      if not (expired t now i.skew)
      then adopt i c t
      else if is_zero_value t.refresh || text_eq t.refresh.raw current.refresh.raw
      then dropped i c
      else elim (refreshed_login o t) [ none ↦ dropped i c | some fresh ↦ adopt i c fresh ]

  unfoldable pub after_refresh :
      Injector → Credential → Oauth → Tokens → Result RefreshError Tokens → Taken
  unfolding from_host after_rejection adopt is_zero
  after_refresh i c o current (err rejected) =
      let (login, i') = from_host i c current in after_rejection i' c o current login
  after_refresh i c o current (err (not_refreshed why)) = (err (refresh_failed why), i)
  after_refresh i c o current (ok fresh) =
      if is_zero fresh then (err empty_refresh, i) else adopt i c (renewed current.refresh fresh)

  -- `Injector.refresh`
  unfoldable pub refresh : Injector → Credential → Oauth → Tokens → Taken
  unfolding after_refresh
  refresh i c o current =
      if is_zero_value current.refresh
      then (err no_refresh_token, i)
      else after_refresh i c o current (w.refresher o current.refresh)

  -- The host's login is preferred to a refresh.
  unfoldable pub renew_by : Injector → Credential → Oauth → Tokens → Option Tokens → Taken
  unfolding adopt refresh expired
  renew_by i c o current none = refresh i c o current
  renew_by i c o current (some t) =
      if expired t now i.skew then refresh i c o current else adopt i c t

  abbrev pub recovered : Option Tokens × Injector → Taken
  recovered (none, i) = (err stale, i)
  recovered (some t, i) = (ok t, i)

  -- `accessToken` of the tokens that are known.
  unfoldable pub use_tokens : Injector → Credential → Oauth → Tokens → Taken
  unfolding recover_from_host from_host renew_by is_zero expired
  use_tokens i c o t =
      if is_zero t
      then recovered (recover_from_host i c o)
      else if not (expired t now i.skew)
      then (ok t, i)
      else (let (login, i') = from_host i c t in renew_by i' c o t login)

  abbrev pub found_tokens : Injector → Credential → Oauth → Result LookupError Tokens → Taken
  found_tokens i c o (err not_found) = (err not_stored, i)
  found_tokens i c o (err (failed why)) = (err lookup_failed, i)
  found_tokens i c o (ok t) = use_tokens (keep i c.service t) c o t

  abbrev pub stored_tokens :
      Injector → Credential → Oauth → Option (Text → Result LookupError Tokens) → Taken
  stored_tokens i c o none = (err no_store, i)
  stored_tokens i c o (some look) = found_tokens i c o (look c.service)

  -- `Injector.accessToken`
  unfoldable pub access_token : Injector → Credential → Oauth → Taken
  unfolding use_tokens lookup insert
  access_token i c o = elim (lookup c.service i.tokens) [
    | some t ↦ use_tokens i c o t
    | none ↦ stored_tokens i c o w.lookup_oauth
  ]
