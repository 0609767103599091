-- ===== src/Secret/Injector/Renewal/Stale.antt =====
-- What `Injector.accessToken` leaves when it says that a credential is stale.
use boks.Prelude.{
  ℕ, ◌≡◌, refl, ap, ◌∙◌, inl, inr, Bool, true, ◌&&◌, ◌||◌, Option, none, some, arith, leb, is_some,
  Bool-cases, Option-cases, Result, err, ok,
}
use boks.Strings.{text_eq}
use boks.Strings.Laws.{text_eq_refl}
use boks.Dict.{lookup}
use boks.Dict.Laws.{lookup-insert}
use boks.Secret.Scope.{LookupError, not_found, failed}
use boks.Secret.Oauth.{Oauth}
use boks.Secret.Oauth.Tokens.{Tokens, no_tokens, is_zero_value, is_zero, expired}
use boks.Secret.Credential.{Credential}
use boks.Secret.Injector.{RefreshError, rejected, not_refreshed, Services, Injector}
use boks.Secret.Injector.Renewal.{
  stale, Taken, save_with, keep, renewed, is_past, adopt, from_host, refreshed_login, over_login,
  recover_from_host, dropped, after_rejection, after_refresh, refresh, renew_by, recovered,
  use_tokens, found_tokens, access_token,
}
use boks.Secret.Injector.Renewal.Given.{keep-lookup, from_host-tokens}

-- Whether the host was last asked at a time or before it, or never.
abbrev pub asked_by : ℕ → Option ℕ → Bool
asked_by now none = true
asked_by now (some at) = leb at now

abbrev pub Asked : Credential → ℕ → Injector → Type 0
Asked c now i = asked_by now (lookup c.service i.host_checked) ≡ true

abbrev pub Dropped : Credential → Injector → Type 0
Dropped c i = (old : Tokens) × (lookup c.service i.tokens ≡ some old) × (is_zero old ≡ true)

-- A result that is stale has dropped the tokens.
unfoldable pub IsStale : Credential → ℕ → Taken → Type 0
IsStale c now (err stale, i) = Dropped c i × Asked c now i
IsStale c now _ = Unit {0}

module _ (w : Services) (now : ℕ) (c : Credential) (o : Oauth) where
  from_host-Asked :
      (i : Injector) (t : Tokens) → Asked c now i → Asked c now (from_host w now i c t).1
  unfolding from_host
  from_host-Asked i t a = elim (Option-cases w.host_source) [
    | inl e ↦ rw e a
    | inr (look, e) ↦
        rw (e, lookup-insert i.host_checked c.service c.service now, text_eq_refl c.service)
          (ground arith)
  ]

  adopt-IsStale : (i : Injector) (t : Tokens) → IsStale c now (adopt w now i c t)
  unfolding adopt IsStale
  adopt-IsStale i t = elim (Bool-cases (save_with w.save_oauth c.service t)) [
    | inl e ↦ rw e tt
    | inr e ↦ rw e tt
  ]

  dropped-IsStale : (i : Injector) → Asked c now i → IsStale c now (dropped w now i c)
  unfolding IsStale is_zero
  dropped-IsStale i a = ((no_tokens, keep-lookup w now c o c.service i no_tokens, refl), a)

  after_rejection-IsStale :
      (i : Injector) (current : Tokens) (login : Option Tokens)
      → Asked c now i
      → IsStale c now (after_rejection w now i c o current login)
  unfolding after_rejection
  after_rejection-IsStale i current none a = dropped-IsStale i a
  after_rejection-IsStale i current (some t) a = elim (Bool-cases (expired t now i.skew)) [
    | inr e ↦ rw e (adopt-IsStale i t)
    | inl e ↦
        elim (Bool-cases (is_zero_value t.refresh || text_eq t.refresh.raw current.refresh.raw)) [
          | inl z ↦ rw (e, z) (dropped-IsStale i a)
          | inr z ↦ elim (Option-cases (refreshed_login w now o t)) [
            | inl n ↦ rw (e, z, n) (dropped-IsStale i a)
            | inr (fresh, n) ↦ rw (e, z, n) (adopt-IsStale i fresh)
          ]
        ]
  ]

  after_refresh-IsStale :
      (i : Injector) (current : Tokens) (x : Result RefreshError Tokens)
      → Asked c now i
      → IsStale c now (after_refresh w now i c o current x)
  unfolding after_refresh
  after_refresh-IsStale i current (err rejected) a =
      let host = from_host w now i c current in
      after_rejection-IsStale host.1 current host.0 (from_host-Asked i current a)
  after_refresh-IsStale i current (err (not_refreshed why)) a = unfold IsStale in tt
  after_refresh-IsStale i current (ok fresh) a = elim (Bool-cases (is_zero fresh)) [
    | inl z ↦ rw z (unfold IsStale in tt)
    | inr z ↦ rw z (adopt-IsStale i (renewed current.refresh fresh))
  ]

  refresh-IsStale :
      (i : Injector) (current : Tokens)
      → Asked c now i
      → IsStale c now (refresh w now i c o current)
  unfolding refresh
  refresh-IsStale i current a = elim (Bool-cases (is_zero_value current.refresh)) [
    | inl z ↦ rw z (unfold IsStale in tt)
    | inr z ↦ rw z (after_refresh-IsStale i current (w.refresher o current.refresh) a)
  ]

  renew_by-IsStale :
      (i : Injector) (current : Tokens) (login : Option Tokens)
      → Asked c now i
      → IsStale c now (renew_by w now i c o current login)
  unfolding renew_by
  renew_by-IsStale i current none a = refresh-IsStale i current a
  renew_by-IsStale i current (some t) a = elim (Bool-cases (expired t now i.skew)) [
    | inl e ↦ rw e (refresh-IsStale i current a)
    | inr e ↦ rw e (adopt-IsStale i t)
  ]

  over_login-IsStale :
      (i : Injector) (login : Option Tokens)
      → Dropped c i
      → Asked c now i
      → IsStale c now (recovered w now (over_login w now i c o login))
  unfolding IsStale
  over_login-IsStale i none d a = (d, a)
  over_login-IsStale i (some t) d a = elim (Bool-cases (expired t now i.skew)) [
    | inr e ↦ rw e tt
    | inl e ↦ elim (Bool-cases (is_zero_value t.refresh)) [
      | inl z ↦ rw (e, z) (d, a)
      | inr z ↦ elim (Option-cases (refreshed_login w now o t)) [
        | inl n ↦ rw (e, z, n) (d, a)
        | inr (fresh, n) ↦ rw (e, z, n) tt
      ]
    ]
  ]

  recover-IsStale :
      (i : Injector)
      → Dropped c i
      → Asked c now i
      → IsStale c now (recovered w now (recover_from_host w now i c o))
  unfolding recover_from_host
  recover-IsStale i (old, known, z) a =
      elim (Bool-cases (is_some w.host_source && is_past now (lookup c.service i.host_checked))) [
        | inr e ↦ rw e (unfold IsStale in ((old, known, z), a))
        | inl e ↦
            let host = from_host w now i c no_tokens in
            let held : lookup c.service host.1.tokens ≡ some old =
              ap (lookup c.service) (from_host-tokens w now c o c.service i no_tokens) ∙ known in
            rw e (over_login-IsStale host.1 host.0 (old, held, z) (from_host-Asked i no_tokens a))
      ]

  use_tokens-IsStale :
      (i : Injector) (t : Tokens)
      → lookup c.service i.tokens ≡ some t
      → Asked c now i
      → IsStale c now (use_tokens w now i c o t)
  unfolding use_tokens
  use_tokens-IsStale i t known a = elim (Bool-cases (is_zero t)) [
    | inl z ↦ rw z (recover-IsStale i (t, known, z) a)
    | inr z ↦ elim (Bool-cases (expired t now i.skew)) [
      | inr e ↦ rw (z, e) (unfold IsStale in tt)
      | inl e ↦
          let host = from_host w now i c t in
          rw (z, e) (renew_by-IsStale host.1 t host.0 (from_host-Asked i t a))
    ]
  ]

  found_tokens-IsStale :
      (i : Injector) (x : Result LookupError Tokens)
      → Asked c now i
      → IsStale c now (found_tokens w now i c o x)
  unfolding IsStale
  found_tokens-IsStale i (err not_found) a = tt
  found_tokens-IsStale i (err (failed why)) a = tt
  found_tokens-IsStale i (ok t) a =
      use_tokens-IsStale (keep i c.service t) t (keep-lookup w now c o c.service i t) a

  pub access_token-IsStale :
      (i : Injector) → Asked c now i → IsStale c now (access_token w now i c o)
  unfolding access_token
  access_token-IsStale i a = elim (Option-cases (lookup c.service i.tokens)) [
    | inr (t, e) ↦ rw (access_token, e) (use_tokens-IsStale i t e a)
    | inl e ↦ elim (Option-cases w.lookup_oauth) [
      | inl n ↦ rw (access_token, e, n) (unfold IsStale in tt)
      | inr (look, n) ↦ rw (access_token, e, n) (found_tokens-IsStale i (look c.service) a)
    ]
  ]
