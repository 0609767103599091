-- ===== src/Secret/Injector/Apply/Reach.antt =====
-- What `Injector.Apply` may do to the headers of a request: steps, each of one credential.
use mathlib.Core.List.{Mem, mem-cons_self, mem-cons_of_mem}
use boks.Prelude.{
  ℕ, ◌≡◌, refl, inl, inr, Bool, true, false, ◌&&◌, Option, none, some, List, [], ◌∷◌, Bool-cases,
  Option-cases, Result, err, ok,
}
use boks.Strings.{Text}
use boks.Policy.Target.{Target}
use boks.Policy.Pattern.{pattern_match}
use boks.Secret.Scope.{Value, LookupError}
use boks.Secret.Inject.{Inject, header_of, header_value}
use boks.Secret.Oauth.{Oauth, matches_resource}
use boks.Secret.Oauth.Tokens.{Tokens, is_zero_value}
use boks.Secret.Oauth.Swap.{Header, set_header, carries_sentinel, substitute}
use boks.Secret.Credential.{Credential}
use boks.Secret.Injector.{Services, Injector}
use boks.Secret.Injector.Renewal.{
  TokenError, stale, no_store, not_stored, lookup_failed, no_refresh_token, refresh_failed,
  empty_refresh, not_saved, not_oauth, access_token,
}
use boks.Secret.Injector.Apply.{
  Flow, is_tls, ApplyError, Run, Done, attach, or_before, then_step, apply_rules, take_token,
  apply_oauth, use_service, apply_credential, go_on, apply_all, apply,
}

-- The injector and the headers, as they are between two changes.
abbrev pub State : Type 0
State = Injector × Header

-- One change: a rule for the target sets its header to the secret that is stored for its service; or,
-- on TLS and where the headers carry the sentinel of a credential for the target, the injector as it
-- is then asks for that credential's access token, which takes the place of the sentinel, or fails
-- to come by one.
pub data Step (w : Services) (now : ℕ) (t : Target) (flow : Flow) (cs : List Credential)
    (x x' : State) : Type 0 where
  attached :
      (c : Credential) (r : Inject) (v : Value) (text : Text)
      → Mem c cs
      → Mem r c.inject
      → pattern_match r.domain t ≡ true
      → w.provider c.service ≡ ok v
      → header_value w.base64 r v.raw ≡ some text
      → x' ≡ (x.0, set_header w.canonical x.1 (header_of r) text)
      → Step w now t flow cs x x'
  swapped :
      (c : Credential) (o : Oauth) (tokens : Tokens)
      → Mem c cs
      → c.oauth ≡ some o
      → (matches_resource (some o) t && is_tls flow && carries_sentinel w.canonical o x.1) ≡ true
      → (access_token w now x.0 c o).0 ≡ ok tokens
      → x' ≡ ((access_token w now x.0 c o).1, (substitute w.canonical o x.1 tokens.access).1)
      → Step w now t flow cs x x'
  failed :
      (c : Credential) (o : Oauth) (why : TokenError)
      → Mem c cs
      → c.oauth ≡ some o
      → (matches_resource (some o) t && is_tls flow && carries_sentinel w.canonical o x.1) ≡ true
      → (access_token w now x.0 c o).0 ≡ err why
      → x' ≡ ((access_token w now x.0 c o).1, x.1)
      → Step w now t flow cs x x'

pub data Reach (w : Services) (now : ℕ) (t : Target) (flow : Flow) (cs : List Credential)
    (x : State) : State → Type 0 where
  here : Reach w now t flow cs x x
  next :
      {x' x'' : State}
      → Reach w now t flow cs x x'
      → Step w now t flow cs x' x''
      → Reach w now t flow cs x x''

module _ (w : Services) (now : ℕ) (t : Target) (flow : Flow) (cs : List Credential) where
  Goes : Run → Run → Type 0
  Goes s s' = Reach w now t flow cs (s.injector, s.header) (s'.injector, s'.header)

  Reach-trans :
      {x x' x'' : State}
      → Reach w now t flow cs x x'
      → Reach w now t flow cs x' x''
      → Reach w now t flow cs x x''
  Reach-trans p here = p
  Reach-trans p (next q s) = next (Reach-trans p q) s

  attach-Goes :
      (c : Credential) (r : Inject) (s : Run) (x : Result LookupError Value)
      → Mem c cs
      → Mem r c.inject
      → pattern_match r.domain t ≡ true
      → w.provider c.service ≡ x
      → Goes s (attach w now t flow c r s x).1
  unfolding Goes attach
  attach-Goes c r s (err e) m n p q = here
  attach-Goes c r s (ok v) m n p q = elim (Bool-cases (is_zero_value v)) [
    | inl e ↦ rw e here
    | inr e ↦ elim (Option-cases (header_value w.base64 r v.raw)) [
      | inl e' ↦ rw (e, e') here
      | inr (text, e') ↦ rw (e, e') (next here (attached c r v text m n p q e' refl))
    ]
  ]

  or_before-run : (b : Bool) (d : Done) → (or_before w now t flow b d).1 ≡ d.1
  or_before-run b (err e, s) = refl
  or_before-run b (ok b', s) = refl

  then_step-Goes :
      (s : Run) (first later : Done)
      → Goes s first.1
      → Goes first.1 later.1
      → Goes s (then_step w now t flow first later).1
  unfolding Goes
  then_step-Goes s (err e, s') later g k = g
  then_step-Goes s (ok b, s') later g k = rw (or_before-run b later) (Reach-trans g k)

  apply_rules-Goes :
      (c : Credential) (rs : List Inject) (s : Run)
      → Mem c cs
      → ((r : Inject) → Mem r rs → Mem r c.inject)
      → Goes s (apply_rules w now t flow c rs s).1
  unfolding Goes apply_rules
  apply_rules-Goes c [] s m sub = here
  apply_rules-Goes c (r ∷ rs) s m sub =
      let rest : (r' : Inject) → Mem r' rs → Mem r' c.inject =
        λ r' n. sub r' (mem-cons_of_mem r n) in
      let first = attach w now t flow c r s (w.provider c.service) in
      elim (Bool-cases (pattern_match r.domain t)) [
        | inr e ↦ rw e (apply_rules-Goes c rs s m rest)
        | inl e ↦
            let one = attach-Goes c r s (w.provider c.service) m (sub r mem-cons_self) e refl in
            let more = apply_rules-Goes c rs first.1 m rest in
            rw e (then_step-Goes s first (apply_rules w now t flow c rs first.1) one more)
      ]

  take_token-Goes :
      (c : Credential) (o : Oauth) (s : Run) (i : Injector) (x : Result TokenError Tokens)
      → ((why : TokenError)
          → x ≡ err why
          → Step w now t flow cs (s.injector, s.header) (i, s.header))
      → ((tokens : Tokens)
          → x ≡ ok tokens
          → Step w now t flow cs
              (s.injector, s.header)
              (i, (substitute w.canonical o s.header tokens.access).1))
      → Goes s (take_token w now t flow c o (record s { injector = i }) x).1
  unfolding Goes
  take_token-Goes c o s i (err stale) fail step = next here (fail stale refl)
  take_token-Goes c o s i (err no_store) fail step = next here (fail no_store refl)
  take_token-Goes c o s i (err not_stored) fail step = next here (fail not_stored refl)
  take_token-Goes c o s i (err lookup_failed) fail step = next here (fail lookup_failed refl)
  take_token-Goes c o s i (err no_refresh_token) fail step = next here (fail no_refresh_token refl)
  take_token-Goes c o s i (err (refresh_failed why)) fail step =
      next here (fail (refresh_failed why) refl)
  take_token-Goes c o s i (err empty_refresh) fail step = next here (fail empty_refresh refl)
  take_token-Goes c o s i (err not_saved) fail step = next here (fail not_saved refl)
  take_token-Goes c o s i (err not_oauth) fail step = next here (fail not_oauth refl)
  take_token-Goes c o s i (ok tokens) fail step = next here (step tokens refl)

  apply_oauth-Goes :
      (c : Credential) (x : Option Oauth) (s : Run)
      → Mem c cs
      → c.oauth ≡ x
      → Goes s (apply_oauth w now t flow c x s).1
  unfolding Goes apply_oauth
  apply_oauth-Goes c none s m q = here
  apply_oauth-Goes c (some o) s m q =
      let taken = access_token w now s.injector c o in
      elim (Bool-cases
        (matches_resource (some o) t && is_tls flow && carries_sentinel w.canonical o s.header)) [
          | inr e ↦ rw e here
          | inl e ↦ rw e (
              take_token-Goes c o s taken.1 taken.0 (λ why k. failed c o why m q e k refl)
                (λ tokens k. swapped c o tokens m q e k refl))
        ]

  apply_credential-Goes :
      (c : Credential) (s : Run) → Mem c cs → Goes s (apply_credential w now t flow c s).1
  unfolding apply_credential
  apply_credential-Goes c s m =
      let first = apply_rules w now t flow c c.inject s in
      then_step-Goes s first (apply_oauth w now t flow c c.oauth first.1)
        (apply_rules-Goes c c.inject s m (λ r n. n)) (apply_oauth-Goes c c.oauth first.1 m refl)

  go_on-Goes :
      (c : Credential) (s : Run) (d : Done) (others : Run → Option ApplyError × Run)
      → Goes s d.1
      → ((s' : Run) → Goes s' (others s').1)
      → Goes s (go_on w now t flow c d others).1
  unfolding Goes
  go_on-Goes c s (err e, s') others g more = g
  go_on-Goes c s (ok true, s') others g more =
      Reach-trans g (more (use_service w now t flow c true s'))
  go_on-Goes c s (ok false, s') others g more = Reach-trans g (more s')

  apply_all-Goes :
      (l : List Credential) (s : Run)
      → ((c : Credential) → Mem c l → Mem c cs)
      → Goes s (apply_all w now t flow l s).1
  unfolding Goes apply_all
  apply_all-Goes [] s sub = here
  apply_all-Goes (c ∷ l) s sub =
      let rest : (c' : Credential) → Mem c' l → Mem c' cs = λ c' n. sub c' (mem-cons_of_mem c n) in
      go_on-Goes c s (apply_credential w now t flow c s) (apply_all w now t flow l)
        (apply_credential-Goes c s (sub c mem-cons_self)) (λ s'. apply_all-Goes l s' rest)

-- `Injector.Apply` reaches the headers and the injector that it leaves, with an error or without one, by
-- steps from those it began with: a rule of a credential whose domain is the target's sets its header
-- to the secret stored under that credential's service; or, on TLS, for a resource host of an OAuth
-- credential whose sentinel the headers carry, the injector of that step asks for that credential's
-- access token, which takes the place of the sentinel, or the headers stay as they are.
pub apply-Reach :
    (w : Services) (now : ℕ) (t : Target) (flow : Flow) (i : Injector) (h : Header)
    → Reach w now t flow i.credentials
        (i, h)
        ((apply w now t flow i h).1.injector, (apply w now t flow i h).1.header)
unfolding apply
apply-Reach w now t flow i h =
    unfold Goes in
    apply_all-Goes w now t flow i.credentials i.credentials
      (record { injector = i; header = h; used = []; is_stale = false }) (λ c n. n)
