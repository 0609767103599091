-- ===== src/Secret/Injector/Renewal/Given.antt =====
-- What `Injector.accessToken` leaves in the injector.
use boks.Prelude.{
  ℕ, ◌≡◌, refl, inl, inr, false, ◌&&◌, ◌||◌, Option, none, some, arith, if◌then◌else◌, is_some,
  Bool-cases, Option-cases, Result, err, ok, Result-cases,
}
use boks.Strings.{Text, text_eq}
use boks.Strings.Laws.{text_eq_refl, text_eq_iff}
use boks.Dict.{lookup}
use boks.Dict.Laws.{lookup-insert}
use boks.Secret.Scope.{Value, LookupError, not_found, failed}
use boks.Secret.Oauth.{Oauth}
use boks.Secret.Oauth.Tokens.{Tokens, no_tokens, is_zero_value, is_zero, expired}
use boks.Secret.Credential.{Credential}
use boks.Secret.Injector.{RefreshError, rejected, not_refreshed, Services, Injector}
use boks.Secret.Injector.Renewal.{
  TokenError, stale, no_store, not_stored, lookup_failed, no_refresh_token, refresh_failed,
  empty_refresh, Taken, save_with, keep, renewed, is_past, adopt, other_login, from_host,
  refreshed_login, taken_over, over_login, recover_from_host, dropped, after_rejection,
  after_refresh, refresh, renew_by, recovered, use_tokens, found_tokens, access_token,
}

-- Of the tokens in use, those of the credential's own service may change and no others.
abbrev pub IsIsolated : Credential → Text → Injector → Injector → Type 0
IsIsolated c s i i' =
    lookup s i'.tokens
    ≡ (if text_eq c.service s then lookup c.service i'.tokens else lookup s i.tokens)

-- The tokens that are given are not empty and are in use.
unfoldable pub IsGiven : Credential → Text → Injector → Taken → Type 0
IsGiven c s i (err e, i') = IsIsolated c s i i'
IsGiven c s i (ok t, i') =
    (is_zero t ≡ false) × (lookup c.service i'.tokens ≡ some t) × IsIsolated c s i i'

IsUsable : Option Tokens → Type 0
IsUsable none = Unit {0}
IsUsable (some t) = is_zero t ≡ false

module _ (w : Services) (now : ℕ) (c : Credential) (o : Oauth) (s : Text) where
  pub same-IsIsolated : (i i' : Injector) → i'.tokens ≡ i.tokens → IsIsolated c s i i'
  same-IsIsolated i i' e = rw e (ground (arith, text_eq_iff c.service s))

  pub keep-lookup :
      (i : Injector) (t : Tokens) → lookup c.service (keep i c.service t).tokens ≡ some t
  keep-lookup i t = rw (lookup-insert i.tokens c.service c.service t, text_eq_refl c.service) refl

  pub keep-IsIsolated : (i : Injector) (t : Tokens) → IsIsolated c s i (keep i c.service t)
  keep-IsIsolated i t = rw (lookup-insert i.tokens c.service s t, keep-lookup i t) refl

  pub IsIsolated-trans :
      (i i' i'' : Injector) → IsIsolated c s i i' → IsIsolated c s i' i'' → IsIsolated c s i i''
  IsIsolated-trans i i' i'' p q = ground (arith, p, q)

  IsGiven-trans :
      (i i' : Injector) (x : Taken) → IsIsolated c s i i' → IsGiven c s i' x → IsGiven c s i x
  unfolding IsGiven
  IsGiven-trans i i' (err e, i'') p q = IsIsolated-trans i i' i'' p q
  IsGiven-trans i i' (ok t, i'') p (z, l, q) = (z, l, IsIsolated-trans i i' i'' p q)

  adopt-IsGiven :
      (i : Injector) (t : Tokens) → is_zero t ≡ false → IsGiven c s i (adopt w now i c t)
  unfolding IsGiven adopt
  adopt-IsGiven i t z = elim (Bool-cases (save_with w.save_oauth c.service t)) [
    | inl e ↦ rw e (z, keep-lookup i t, keep-IsIsolated i t)
    | inr e ↦ rw e (keep-IsIsolated i t)
  ]

  pub from_host-tokens : (i : Injector) (t : Tokens) → (from_host w now i c t).1.tokens ≡ i.tokens
  unfolding from_host
  from_host-tokens i t = elim (Option-cases w.host_source) [
    | inl e ↦ rw e refl
    | inr (look, e) ↦ rw e refl
  ]

  from_host-IsIsolated : (i : Injector) (t : Tokens) → IsIsolated c s i (from_host w now i c t).1
  from_host-IsIsolated i t = same-IsIsolated i (from_host w now i c t).1 (from_host-tokens i t)

  renewed-is_zero : (old : Value) (t : Tokens) → is_zero (renewed old t) ≡ is_zero t
  unfolding is_zero
  renewed-is_zero old t = elim (Bool-cases (is_zero_value t.refresh)) [
    | inl e ↦ rw e refl
    | inr e ↦ rw e refl
  ]

  other_login-IsUsable : (t : Tokens) (x : Option Tokens) → IsUsable (other_login w now t x)
  unfolding IsUsable
  other_login-IsUsable t none = tt
  other_login-IsUsable t (some t') =
      elim (Bool-cases (is_zero t' || text_eq t'.access.raw t.access.raw)) [
        | inl e ↦ rw e tt
        | inr e ↦ rw e (ground (arith, e))
      ]

  from_host-IsUsable : (i : Injector) (t : Tokens) → IsUsable (from_host w now i c t).0
  unfolding from_host IsUsable
  from_host-IsUsable i t = elim (Option-cases w.host_source) [
    | inl e ↦ rw e tt
    | inr (look, e) ↦ rw e (other_login-IsUsable t (look c.service))
  ]

  refreshed_login-IsUsable : (t : Tokens) → IsUsable (refreshed_login w now o t)
  unfolding refreshed_login IsUsable
  refreshed_login-IsUsable t = elim (Result-cases (w.refresher o t.refresh)) [
    | inl (e, p) ↦ rw (refreshed_login, p) tt
    | inr (fresh, p) ↦ elim (Bool-cases (is_zero fresh)) [
      | inl z ↦ rw (refreshed_login, p, z) tt
      | inr z ↦ rw (refreshed_login, p, z) (rw (renewed-is_zero t.refresh fresh) z)
    ]
  ]

  dropped-IsGiven : (i : Injector) → IsGiven c s i (dropped w now i c)
  unfolding IsGiven
  dropped-IsGiven i = keep-IsIsolated i no_tokens

  after_rejection-IsGiven :
      (i : Injector) (current : Tokens) (login : Option Tokens)
      → IsUsable login
      → IsGiven c s i (after_rejection w now i c o current login)
  unfolding after_rejection IsUsable
  after_rejection-IsGiven i current none u = dropped-IsGiven i
  after_rejection-IsGiven i current (some t) u = elim (Bool-cases (expired t now i.skew)) [
    | inr e ↦ rw e (adopt-IsGiven i t u)
    | inl e ↦
        elim (Bool-cases (is_zero_value t.refresh || text_eq t.refresh.raw current.refresh.raw)) [
          | inl z ↦ rw (e, z) (dropped-IsGiven i)
          | inr z ↦
              let login_usable = refreshed_login-IsUsable t in
              elim (Option-cases (refreshed_login w now o t)) [
                | inl n ↦ rw (e, z, n) (dropped-IsGiven i)
                | inr (fresh, n) ↦ rw (e, z, n) (adopt-IsGiven i fresh (rw n at login_usable))
              ]
        ]
  ]

  failed-IsGiven :
      (i i' : Injector) (e : TokenError) → i'.tokens ≡ i.tokens → IsGiven c s i (err e, i')
  unfolding IsGiven
  failed-IsGiven i i' e p = same-IsIsolated i i' p

  after_refresh-IsGiven :
      (i : Injector) (current : Tokens) (x : Result RefreshError Tokens)
      → IsGiven c s i (after_refresh w now i c o current x)
  unfolding after_refresh
  after_refresh-IsGiven i current (err rejected) =
      let host = from_host w now i c current in
      IsGiven-trans i host.1 (after_rejection w now host.1 c o current host.0)
        (from_host-IsIsolated i current)
        (after_rejection-IsGiven host.1 current host.0 (from_host-IsUsable i current))
  after_refresh-IsGiven i current (err (not_refreshed why)) =
      failed-IsGiven i i (refresh_failed why) refl
  after_refresh-IsGiven i current (ok fresh) = elim (Bool-cases (is_zero fresh)) [
    | inl z ↦ rw z (failed-IsGiven i i empty_refresh refl)
    | inr z ↦ rw z (
        adopt-IsGiven i (renewed current.refresh fresh)
          (rw (renewed-is_zero current.refresh fresh) z))
  ]

  pub refresh-IsGiven :
      (i : Injector) (current : Tokens) → IsGiven c s i (refresh w now i c o current)
  unfolding refresh
  refresh-IsGiven i current = elim (Bool-cases (is_zero_value current.refresh)) [
    | inl z ↦ rw z (failed-IsGiven i i no_refresh_token refl)
    | inr z ↦ rw z (after_refresh-IsGiven i current (w.refresher o current.refresh))
  ]

  renew_by-IsGiven :
      (i : Injector) (current : Tokens) (login : Option Tokens)
      → IsUsable login
      → IsGiven c s i (renew_by w now i c o current login)
  unfolding renew_by IsUsable
  renew_by-IsGiven i current none u = refresh-IsGiven i current
  renew_by-IsGiven i current (some t) u = elim (Bool-cases (expired t now i.skew)) [
    | inl e ↦ rw e (refresh-IsGiven i current)
    | inr e ↦ rw e (adopt-IsGiven i t u)
  ]

  -- What a login of the host leaves, whether or not it was taken over.
  IsTaken : Injector → Option Tokens × Injector → Type 0
  IsTaken i x = IsGiven c s i (recovered w now x)

  taken_over-IsTaken :
      (i : Injector) (t : Tokens) → is_zero t ≡ false → IsTaken i (taken_over w now i c t)
  unfolding IsTaken IsGiven
  taken_over-IsTaken i t z = (z, keep-lookup i t, keep-IsIsolated i t)

  nothing-IsTaken : (i : Injector) → IsTaken i (none, i)
  unfolding IsTaken
  nothing-IsTaken i = failed-IsGiven i i stale refl

  over_login-IsTaken :
      (i : Injector) (login : Option Tokens)
      → IsUsable login
      → IsTaken i (over_login w now i c o login)
  unfolding IsUsable
  over_login-IsTaken i none u = nothing-IsTaken i
  over_login-IsTaken i (some t) u = elim (Bool-cases (expired t now i.skew)) [
    | inr e ↦ rw e (taken_over-IsTaken i t u)
    | inl e ↦ elim (Bool-cases (is_zero_value t.refresh)) [
      | inl z ↦ rw (e, z) (nothing-IsTaken i)
      | inr z ↦
          let login_usable = refreshed_login-IsUsable t in
          elim (Option-cases (refreshed_login w now o t)) [
            | inl n ↦ rw (e, z, n) (nothing-IsTaken i)
            | inr (fresh, n) ↦ rw (e, z, n) (taken_over-IsTaken i fresh (rw n at login_usable))
          ]
    ]
  ]

  recover-IsTaken : (i : Injector) → IsTaken i (recover_from_host w now i c o)
  unfolding recover_from_host IsTaken
  recover-IsTaken i =
      elim (Bool-cases (is_some w.host_source && is_past now (lookup c.service i.host_checked))) [
        | inr e ↦ rw e (nothing-IsTaken i)
        | inl e ↦
            let host = from_host w now i c no_tokens in
            rw e (
              IsGiven-trans i host.1 (recovered w now (over_login w now host.1 c o host.0))
                (from_host-IsIsolated i no_tokens)
                (over_login-IsTaken host.1 host.0 (from_host-IsUsable i no_tokens)))
      ]

  use_tokens-IsGiven :
      (i : Injector) (t : Tokens)
      → lookup c.service i.tokens ≡ some t
      → IsGiven c s i (use_tokens w now i c o t)
  unfolding use_tokens IsTaken
  use_tokens-IsGiven i t known = elim (Bool-cases (is_zero t)) [
    | inl z ↦ rw z (recover-IsTaken i)
    | inr z ↦ elim (Bool-cases (expired t now i.skew)) [
      | inr e ↦ rw (z, e) (unfold IsGiven in (z, known, same-IsIsolated i i refl))
      | inl e ↦
          let host = from_host w now i c t in
          rw (z, e)
            (IsGiven-trans i host.1 (renew_by w now host.1 c o t host.0) (from_host-IsIsolated i t)
              (renew_by-IsGiven host.1 t host.0 (from_host-IsUsable i t)))
    ]
  ]

  found_tokens-IsGiven :
      (i : Injector) (x : Result LookupError Tokens) → IsGiven c s i (found_tokens w now i c o x)
  found_tokens-IsGiven i (err not_found) = failed-IsGiven i i not_stored refl
  found_tokens-IsGiven i (err (failed why)) = failed-IsGiven i i lookup_failed refl
  found_tokens-IsGiven i (ok t) =
      let i' = keep i c.service t in
      IsGiven-trans i i' (use_tokens w now i' c o t) (keep-IsIsolated i t)
        (use_tokens-IsGiven i' t (keep-lookup i t))

  -- The tokens that `Injector.accessToken` gives are not empty, and they are the ones that the injector
  -- then holds for the credential's service. Whether it gives tokens or an error, what it holds for
  -- any other service is what it held before.
  pub access_token-IsGiven : (i : Injector) → IsGiven c s i (access_token w now i c o)
  unfolding access_token
  access_token-IsGiven i = elim (Option-cases (lookup c.service i.tokens)) [
    | inr (t, e) ↦ rw (access_token, e) (use_tokens-IsGiven i t e)
    | inl e ↦ elim (Option-cases w.lookup_oauth) [
      | inl n ↦ rw (access_token, e, n) (failed-IsGiven i i no_store refl)
      | inr (look, n) ↦ rw (access_token, e, n) (found_tokens-IsGiven i (look c.service))
    ]
  ]
