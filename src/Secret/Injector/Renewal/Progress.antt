-- ===== src/Secret/Injector/Renewal/Progress.antt =====
-- When `Injector.accessToken` gives tokens.
use boks.Prelude.{
  ℕ, ◌+◌, ◌≡◌, refl, ◌∙◌, inl, inr, Bool, true, false, not, ◌||◌, Option, none, some, [], ◌∷◌,
  arith, leb, if◌then◌else◌, Bool-cases, err, ok,
}
use boks.Strings.{Text, text_eq, is_empty}
use boks.Dict.{lookup}
use boks.Secret.Oauth.{Oauth}
use boks.Secret.Oauth.Tokens.{Tokens, no_tokens, is_zero, expired}
use boks.Secret.Credential.{Credential}
use boks.Secret.Injector.{Services, Injector}
use boks.Secret.Injector.Renewal.{
  stale, is_past, from_host, recover_from_host, dropped, use_tokens, access_token,
}
use boks.Secret.Injector.Renewal.Stale.{asked_by, IsStale, access_token-IsStale}
use boks.Secret.Injector.Renewal.Given.{IsGiven, access_token-IsGiven}

-- Tokens that `Injector.accessToken` gave are given again, with no change of the injector, at any
-- time at which they are not expired.
pub access_token-again :
    (w w' : Services) (now later : ℕ) (i i' : Injector) (c : Credential) (o : Oauth) (t : Tokens)
    → access_token w now i c o ≡ (ok t, i')
    → expired t later i'.skew ≡ false
    → access_token w' later i' c o ≡ (ok t, i')
unfolding access_token use_tokens IsGiven
access_token-again w w' now later i i' c o t h e =
    let all = access_token-IsGiven w now c o c.service i in
    let given : IsGiven c c.service i (ok t, i') = rw h at all in
    let (z, known, isolated) = given in rw (access_token, known, z, e) refl

text_eq-empty : (s : Text) → is_empty s ≡ false → text_eq s [] ≡ false
unfolding text_eq
text_eq-empty [] h = cc
text_eq-empty (a ∷ s) h = refl

is_zero-no_tokens :
    (t : Tokens) → is_zero t ≡ false → text_eq t.access.raw no_tokens.access.raw ≡ false
unfolding is_zero
is_zero-no_tokens t h = text_eq-empty t.access.raw h

-- The thirty seconds, in nanoseconds, that the host is left alone after it was asked.
abbrev pub has_waited : ℕ → Option ℕ → Bool
has_waited later none = true
has_waited later (some at) = leb (at + 30000000000) later

is_past-has_waited : (later : ℕ) (x : Option ℕ) → is_past later x ≡ has_waited later x
is_past-has_waited later none = refl
is_past-has_waited later (some at) = refl

waited-after :
    (now later : ℕ) (x : Option ℕ)
    → asked_by now x ≡ true
    → (not (leb (now + 30000000000) later) || has_waited later x) ≡ true
waited-after now later none h = ground arith
waited-after now later (some at) h = ground (arith, h)

dropped-recovers :
    (w : Services) (later : ℕ) (i : Injector) (c : Credential) (o : Oauth) (old t : Tokens)
    (source : Text → Option Tokens)
    → lookup c.service i.tokens ≡ some old
    → is_zero old ≡ true
    → w.host_source ≡ some source
    → source c.service ≡ some t
    → is_zero t ≡ false
    → expired t later i.skew ≡ false
    → (access_token w later i c o).0
      ≡ (if has_waited later (lookup c.service i.host_checked) then ok t else err stale)
unfolding access_token use_tokens recover_from_host from_host
dropped-recovers w later i c o old t source known dropped asked login z fresh =
    let same = is_past-has_waited later (lookup c.service i.host_checked) in
    elim (Bool-cases (has_waited later (lookup c.service i.host_checked))) [
      | inl e ↦
          let past : is_past later (lookup c.service i.host_checked) ≡ true = same ∙ e in
          rw e (
            rw (access_token, known, dropped, asked, past, login, z, is_zero-no_tokens t z, fresh)
              refl)
      | inr e ↦
          let past : is_past later (lookup c.service i.host_checked) ≡ false = same ∙ e in
          rw e (rw (access_token, known, dropped, asked, past) refl)
    ]

-- After a call of `Injector.accessToken` that says that a credential is stale, and while the host has a
-- login for it that is not expired, a later call gives that login if the host was never asked or was
-- last asked at least thirty seconds before it, and says stale otherwise; from thirty seconds after
-- the first call on it always gives the login, where the host had not been asked at a time after that
-- call.
pub access_token-recovers :
    (w w' : Services) (now later : ℕ) (i i' : Injector) (c : Credential) (o : Oauth) (t : Tokens)
    (source : Text → Option Tokens)
    → asked_by now (lookup c.service i.host_checked) ≡ true
    → access_token w now i c o ≡ (err stale, i')
    → w'.host_source ≡ some source
    → source c.service ≡ some t
    → is_zero t ≡ false
    → expired t later i'.skew ≡ false
    → ((access_token w' later i' c o).0
        ≡ (if has_waited later (lookup c.service i'.host_checked) then ok t else err stale))
      × ((not (leb (now + 30000000000) later)
            || has_waited later (lookup c.service i'.host_checked))
          ≡ true)
unfolding IsStale
access_token-recovers w w' now later i i' c o t source before h asked login z fresh =
    let every = access_token-IsStale w now c o i before in
    let left : IsStale c now (err stale, i') = rw h at every in
    let ((old, known, dropped), a) = left in
    (
      dropped-recovers w' later i' c o old t source known dropped asked login z fresh,
      waited-after now later (lookup c.service i'.host_checked) a,
    )
