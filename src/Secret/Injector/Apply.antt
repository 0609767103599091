-- ===== src/Secret/Injector/Apply.antt =====
-- internal/secret/secret.go: `Injector.Apply`, on the headers of one request. The headers are changed
-- in place, so that an error comes with those that were set before it.
pub mod Reach
pub mod Elsewhere
use boks.Prelude.{
  ℕ, Bool, true, false, ◌&&◌, ◌||◌, Option, none, some, List, [], ◌∷◌, ◌++◌, if◌then◌else◌, Result,
  err, ok,
}
use boks.Strings.{Text}
use boks.Policy.Target.{Target}
use boks.Policy.Pattern.{pattern_match}
use boks.Secret.Scope.{Value, LookupError, not_found, failed}
use boks.Secret.Inject.{Inject, header_of, header_value}
use boks.Secret.Oauth.{Oauth, matches_resource}
use boks.Secret.Oauth.Tokens.{Tokens, is_zero_value}
use boks.Secret.Oauth.Swap.{Header, set_header, carries_sentinel, substitute}
use boks.Secret.Credential.{Credential}
use boks.Secret.Injector.{Services, Injector}
use boks.Secret.Injector.Renewal.{TokenError, stale, access_token}

-- `Flow`
pub data Flow : Type 0 where
  plaintext tls : Flow

abbrev pub is_tls : Flow → Bool
is_tls plaintext = false
is_tls tls = true

-- The errors of `Apply`; `unknown_verb` belongs to the model only, and no valid rule gives it.
pub data ApplyError : Type 0 where
  secret_missing secret_failed secret_empty unknown_verb : Text → ApplyError
  token_error : Text → TokenError → ApplyError

-- The state of a call: the injector, the headers, the services used and whether one was stale.
pub record Run : Type 0 where
  pub injector : Injector
  pub header : Header
  pub used : List Text
  pub is_stale : Bool

-- A step of a call: an error that ends it, or whether it attached something.
abbrev pub Done : Type 0
Done = Result ApplyError Bool × Run

abbrev pub lookup_error : Text → LookupError → ApplyError
lookup_error service not_found = secret_missing service
lookup_error service (failed why) = secret_failed service

module _ (w : Services) (now : ℕ) (t : Target) (flow : Flow) where
  abbrev pub attach_value : Credential → Inject → Run → Option Text → Done
  attach_value c r s none = (err (unknown_verb c.service), s)
  attach_value c r s (some v) =
      (ok true, record s { header = set_header w.canonical s.header (header_of r) v })

  -- One rule whose domain matches, with what the provider answers.
  unfoldable pub attach : Credential → Inject → Run → Result LookupError Value → Done
  unfolding header_value header_of set_header
  attach c r s (err e) = (err (lookup_error c.service e), s)
  attach c r s (ok v) =
      if is_zero_value v
      then (err (secret_empty c.service), s)
      else attach_value c r s (header_value w.base64 r v.raw)

  abbrev pub or_before : Bool → Done → Done
  or_before matched (err e, s) = (err e, s)
  or_before matched (ok b, s) = (ok (matched || b), s)

  -- A second step, from where the first one ended, unless that is an error.
  abbrev pub then_step : Done → Done → Done
  then_step (err e, s) later = (err e, s)
  then_step (ok b, s) later = or_before b later

  -- The loop over the rules of a credential.
  unfoldable pub apply_rules : Credential → List Inject → Run → Done
  unfolding attach pattern_match
  apply_rules c [] s = (ok false, s)
  apply_rules c (r ∷ rs) s =
      let passed = apply_rules c rs s in
      let first = attach c r s (w.provider c.service) in
      let later = apply_rules c rs first.1 in
      if pattern_match r.domain t then then_step first later else passed

  abbrev pub swap_with : Oauth → Value → Run → Done
  swap_with o access s =
      let (replaced, h) = substitute w.canonical o s.header access in
      (ok replaced, record s { header = h })

  abbrev pub take_token : Credential → Oauth → Run → Result TokenError Tokens → Done
  take_token c o s (err stale) = (ok false, record s { is_stale = true })
  take_token c o s (err e) = (err (token_error c.service e), s)
  take_token c o s (ok tokens) = swap_with o tokens.access s

  -- The OAuth half of a credential, which needs TLS.
  unfoldable pub apply_oauth : Credential → Option Oauth → Run → Done
  unfolding matches_resource carries_sentinel access_token substitute
  apply_oauth c none s = (ok false, s)
  apply_oauth c (some o) s =
      if matches_resource (some o) t && is_tls flow && carries_sentinel w.canonical o s.header
      then (let (taken, i) = access_token w now s.injector c o in
          take_token c o (record s { injector = i }) taken)
      else (ok false, s)

  abbrev pub use_service : Credential → Bool → Run → Run
  use_service c matched s = if matched then record s { used = s.used ++ c.service ∷ [] } else s

  unfoldable pub apply_credential : Credential → Run → Done
  unfolding apply_rules apply_oauth
  apply_credential c s =
      let first = apply_rules c c.inject s in then_step first (apply_oauth c c.oauth first.1)

  -- The loop goes on, unless a credential ended it.
  abbrev pub go_on : Credential → Done → (Run → Option ApplyError × Run) → Option ApplyError × Run
  go_on c (err e, s) others = (some e, s)
  go_on c (ok matched, s) others = others (use_service c matched s)

  -- The loop over the credentials: the error that ended it, if any, and the run.
  unfoldable pub apply_all : List Credential → Run → Option ApplyError × Run
  unfolding apply_credential
  apply_all [] s = (none, s)
  apply_all (c ∷ cs) s = go_on c (apply_credential c s) (apply_all cs)

  -- `Injector.Apply`
  unfoldable pub apply : Injector → Header → Option ApplyError × Run
  unfolding apply_all
  apply i h =
      apply_all i.credentials (record { injector = i; header = h; used = []; is_stale = false })
