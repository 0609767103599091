-- ===== src/Secret/Injector/Apply/Elsewhere.antt =====
-- `Injector.Apply` on requests to targets of no credential.
use boks.Prelude.{ℕ, ◌≡◌, refl, false, ◌||◌, Option, none, some, List, [], ◌∷◌, arith, any, ok}
use boks.Policy.Target.{Target}
use boks.Policy.Pattern.{pattern_match}
use boks.Secret.Inject.{Inject}
use boks.Secret.Oauth.{Oauth, matches_resource, matches_token_endpoint}
use boks.Secret.Oauth.Swap.{Header}
use boks.Secret.Credential.{Credential}
use boks.Secret.Injector.{Services, Injector, has_rule_for, handles}
use boks.Secret.Injector.Apply.{
  Flow, Run, apply_rules, apply_oauth, apply_credential, apply_all, apply,
}

module _ (w : Services) (now : ℕ) (t : Target) (flow : Flow) where
  apply_rules-none :
      (c : Credential) (rs : List Inject) (s : Run)
      → any (λ r. pattern_match r.domain t) rs ≡ false
      → apply_rules w now t flow c rs s ≡ (ok false, s)
  unfolding apply_rules
  apply_rules-none c [] s h = refl
  apply_rules-none c (r ∷ rs) s h =
      let first : pattern_match r.domain t ≡ false = ground (arith, h) in
      let later : any (λ r'. pattern_match r'.domain t) rs ≡ false = ground (arith, h) in
      rw first (apply_rules-none c rs s later)

  apply_oauth-none :
      (c : Credential) (x : Option Oauth) (s : Run)
      → matches_resource x t ≡ false
      → apply_oauth w now t flow c x s ≡ (ok false, s)
  unfolding apply_oauth
  apply_oauth-none c none s h = refl
  apply_oauth-none c (some o) s h = rw h refl

  apply_credential-none :
      (c : Credential) (s : Run)
      → has_rule_for c t ≡ false
      → matches_resource c.oauth t ≡ false
      → apply_credential w now t flow c s ≡ (ok false, s)
  unfolding apply_credential
  apply_credential-none c s h k =
      let first = apply_rules-none c c.inject s h in
      let second = apply_oauth-none c c.oauth s k in rw (apply_credential, first, second) refl

  apply_all-none :
      (cs : List Credential) (s : Run)
      → any
          (λ c.
            has_rule_for c t || (matches_resource c.oauth t || matches_token_endpoint c.oauth t))
          cs
        ≡ false
      → apply_all w now t flow cs s ≡ (none, s)
  unfolding apply_all
  apply_all-none [] s h = refl
  apply_all-none (c ∷ cs) s h =
      let rule : has_rule_for c t ≡ false = ground (arith, h) in
      let resource : matches_resource c.oauth t ≡ false = ground (arith, h) in
      let later : any
            (λ c'.
              has_rule_for c' t
              || (matches_resource c'.oauth t || matches_token_endpoint c'.oauth t))
            cs
          ≡ false =
        ground (arith, h) in
      rw (apply_all, apply_credential-none c s rule resource) (apply_all-none cs s later)

  -- For a target that `Injector.Handles` does not name, `Injector.Apply` gives no error, uses no
  -- service, and changes neither the headers nor the tokens of the injector.
  pub apply-handles :
      (i : Injector) (h : Header)
      → handles i t ≡ false
      → apply w now t flow i h
        ≡ (none, record { injector = i; header = h; used = []; is_stale = false })
  unfolding apply handles
  apply-handles i h k = apply_all-none i.credentials _ k
