-- ===== src/Secret/Injector/Exchange/Public.antt =====
-- What the answer to a guest's token request holds, and what it leaves in the injector.
use boks.Prelude.{
  ℕ, ◌≡◌, refl, inl, inr, not, ◌&&◌, ◌||◌, Option, none, some, [], ◌∷◌, if◌then◌else◌, Bool-cases,
  Option-cases, has_any, Result, err, ok, Result-cases,
}
use boks.Strings.{Text, codes, text_eq, is_empty, join}
use boks.Dict.Laws.{lookup-insert}
use boks.Dict.{Dict, lookup, insert}
use boks.Secret.Scope.{LookupError}
use boks.Secret.Oauth.{Oauth}
use boks.Secret.Oauth.Tokens.{Tokens, is_zero_value, is_zero, expired}
use boks.Secret.Credential.{Credential}
use boks.Secret.Injector.{Services, Injector}
use boks.Secret.Injector.Renewal.{Taken, refresh}
use boks.Secret.Injector.Renewal.Given.{
  IsIsolated, IsGiven, same-IsIsolated, keep-IsIsolated, IsIsolated-trans, refresh-IsGiven,
}
use boks.Secret.Injector.Exchange.{
  Json, text, number, name_or, sentinel_lifetime, with_refresh, with_scope, token_response_body,
  Exchanged, looked_up, after_renewal, exchange_with, exchange_oauth, exchange_token,
}

-- A value that the guest may see: a sentinel, or a text or number of the configuration.
pub data IsPublic (o : Oauth) : Json → Type 0 where
  lifetime : IsPublic o (number sentinel_lifetime)
  bearer_type : IsPublic o (text (codes "Bearer"))
  access_sentinel : IsPublic o (text o.sentinels.access)
  refresh_sentinel : IsPublic o (text o.sentinels.refresh)
  scope_text : IsPublic o (text (join 32 o.scopes))

pub ArePublic : Oauth → Dict Json → Type 0
ArePublic o [] = Unit {0}
ArePublic o ((k, v) ∷ m) = IsPublic o v × ArePublic o m

insert-ArePublic :
    (o : Oauth) (k : Text) (v : Json) (m : Dict Json)
    → IsPublic o v
    → ArePublic o m
    → ArePublic o (insert k v m)
unfolding ArePublic insert
insert-ArePublic o k v [] p q = (p, tt)
insert-ArePublic o k v ((j, x) ∷ m) p (q, r) = elim (Bool-cases (text_eq j k)) [
  | inl e ↦ rw e (p, r)
  | inr e ↦ rw e (q, insert-ArePublic o k v m p r)
]

with_refresh-ArePublic :
    (o : Oauth) (m : Dict Json) → ArePublic o m → ArePublic o (with_refresh o m)
with_refresh-ArePublic o m p = elim (Bool-cases (is_empty o.sentinels.refresh)) [
  | inl e ↦ rw e p
  | inr e ↦ rw e (insert-ArePublic o _ (text o.sentinels.refresh) m refresh_sentinel p)
]

with_scope-ArePublic : (o : Oauth) (m : Dict Json) → ArePublic o m → ArePublic o (with_scope o m)
with_scope-ArePublic o m p = elim (Bool-cases (has_any o.scopes)) [
  | inl e ↦ rw e (insert-ArePublic o (codes "scope") (text (join 32 o.scopes)) m scope_text p)
  | inr e ↦ rw e p
]

token_response_body-ArePublic : (o : Oauth) → ArePublic o (token_response_body o)
unfolding token_response_body
token_response_body-ArePublic o = with_scope-ArePublic o _ (
    with_refresh-ArePublic o _ (
      insert-ArePublic o _ _ _ bearer_type (
        insert-ArePublic o _ _ _ lifetime
          (insert-ArePublic o _ _ [] access_sentinel (unfold ArePublic in tt)))))

abbrev pub or_usual : Text → Text → Text
or_usual given usual = if is_empty given then usual else given

-- What the answer says under a name, of the configuration alone. A name that is configured may be the
-- same as another one: the scopes come first, then the refresh sentinel, the type, the lifetime of
-- 365 days in seconds, and the access sentinel.
abbrev pub said : Oauth → Text → Option Json
said o k =
    if has_any o.scopes && text_eq (codes "scope") k
    then some (text (join 32 o.scopes))
    else if not (is_empty o.sentinels.refresh)
        && text_eq (or_usual o.response_fields.refresh (codes "refresh_token")) k
    then some (text o.sentinels.refresh)
    else if text_eq (codes "token_type") k
    then some (text (codes "Bearer"))
    else if text_eq (or_usual o.response_fields.expires_in (codes "expires_in")) k
    then some (number 31536000)
    else if text_eq (or_usual o.response_fields.access (codes "access_token")) k
    then some (text o.sentinels.access)
    else none

with_scope-lookup :
    (o : Oauth) (m : Dict Json) (k : Text)
    → lookup k (with_scope o m) ≡ (
        if has_any o.scopes && text_eq (codes "scope") k
        then some (text (join 32 o.scopes))
        else lookup k m)
with_scope-lookup o m k = elim (Bool-cases (has_any o.scopes)) [
  | inl e ↦ rw (e, lookup-insert m (codes "scope") k (text (join 32 o.scopes))) refl
  | inr e ↦ rw e refl
]

with_refresh-lookup :
    (o : Oauth) (m : Dict Json) (k : Text)
    → lookup k (with_refresh o m) ≡ (
        if not (is_empty o.sentinels.refresh)
          && text_eq (or_usual o.response_fields.refresh (codes "refresh_token")) k
        then some (text o.sentinels.refresh)
        else lookup k m)
with_refresh-lookup o m k = elim (Bool-cases (is_empty o.sentinels.refresh)) [
  | inl e ↦ rw e refl
  | inr e ↦
      rw
        (
          e,
          lookup-insert m (or_usual o.response_fields.refresh (codes "refresh_token")) k
              (text o.sentinels.refresh),
        )
        refl
]

token_response_body-lookup : (o : Oauth) (k : Text) → lookup k (token_response_body o) ≡ said o k
unfolding token_response_body
token_response_body-lookup o k =
    let access = name_or o.response_fields.access (codes "access_token") in
    let expires_in = name_or o.response_fields.expires_in (codes "expires_in") in
    let m1 : Dict Json = insert access (text o.sentinels.access) [] in
    let m2 : Dict Json = insert expires_in (number sentinel_lifetime) m1 in
    let m3 : Dict Json = insert (codes "token_type") (text (codes "Bearer")) m2 in
    rw
      (
        with_scope-lookup o (with_refresh o m3) k,
        with_refresh-lookup o m3 k,
        lookup-insert m2 (codes "token_type") k (text (codes "Bearer")),
        lookup-insert m1 expires_in k (number sentinel_lifetime),
        lookup-insert [] access k (text o.sentinels.access),
      )
      (unfold lookup in refl)

-- The answer shows nothing that is not public, it says under the name `k` what the configuration
-- gives, and what the injector holds for services other than the credential's is what it held.
pub IsHarmless : Credential → Oauth → Text → Text → Injector → Exchanged → Type 0
IsHarmless c o s k i (err e, i') = IsIsolated c s i i'
IsHarmless c o s k i (ok x, i') =
    ArePublic o x.body × (lookup k x.body ≡ said o k) × IsIsolated c s i i'

module _ (w : Services) (now : ℕ) (c : Credential) (o : Oauth) (s k : Text) where
  after_renewal-IsHarmless :
      (i : Injector) (x : Taken) → IsGiven c s i x → IsHarmless c o s k i (after_renewal c o x)
  unfolding IsHarmless IsGiven
  after_renewal-IsHarmless i (err e, i') g = g
  after_renewal-IsHarmless i (ok t, i') (z, known, g) =
      (token_response_body-ArePublic o, token_response_body-lookup o k, g)

  exchange_with-IsHarmless :
      (t : Tokens) (i : Injector) → IsHarmless c o s k i (exchange_with w now c o (t, i))
  unfolding exchange_with
  exchange_with-IsHarmless t i =
      elim (Bool-cases ((is_zero t || expired t now i.skew) && not (is_zero_value t.refresh))) [
        | inl e ↦
            rw e
              (after_renewal-IsHarmless i (refresh w now i c o t) (refresh-IsGiven w now c o s i t))
        | inr e ↦ rw e (
            unfold IsHarmless in
            (
              token_response_body-ArePublic o,
              token_response_body-lookup o k,
              same-IsIsolated w now c o s i i refl,
            ))
      ]

  IsHarmless-trans :
      (i i' : Injector) (x : Exchanged)
      → IsIsolated c s i i'
      → IsHarmless c o s k i' x
      → IsHarmless c o s k i x
  unfolding IsHarmless
  IsHarmless-trans i i' (err e, i'') p q = IsIsolated-trans w now c o s i i' i'' p q
  IsHarmless-trans i i' (ok x, i'') p (b, l, q) = (b, l, IsIsolated-trans w now c o s i i' i'' p q)

  looked_up-IsIsolated :
      (x : Option (Text → Result LookupError Tokens)) (i : Injector)
      → IsIsolated c s i (looked_up x i c).1
  looked_up-IsIsolated none i = same-IsIsolated w now c o s i i refl
  looked_up-IsIsolated (some look) i = elim (Result-cases (look c.service)) [
    | inl (e, p) ↦ rw p (same-IsIsolated w now c o s i i refl)
    | inr (t, p) ↦ rw p (keep-IsIsolated w now c o s i t)
  ]

-- The body of the answer to a guest's token request says, under each name, what the configuration
-- gives, whatever the tokens are: the access sentinel, the lifetime of 365 days, the type Bearer, the
-- refresh sentinel where there is one and the scopes where there are any; and it has no other value.
-- With an answer or an error, what the injector holds for any service but the credential's own is
-- what it held before.
pub exchange_token-IsHarmless :
    (w : Services) (now : ℕ) (i : Injector) (c : Credential) (o : Oauth) (s k : Text)
    → c.oauth ≡ some o
    → IsHarmless c o s k i (exchange_token w now i c)
unfolding exchange_token exchange_oauth IsHarmless
exchange_token-IsHarmless w now i c o s k h = elim (Option-cases (lookup c.service i.tokens)) [
  | inr (t, e) ↦
      rw (exchange_token, h, exchange_oauth, e) (exchange_with-IsHarmless w now c o s k t i)
  | inl e ↦
      let x = looked_up w.lookup_oauth i c in
      rw (exchange_token, h, exchange_oauth, e)
        (IsHarmless-trans w now c o s k i x.1 (exchange_with w now c o x)
          (looked_up-IsIsolated w now c o s k w.lookup_oauth i)
          (exchange_with-IsHarmless w now c o s k x.0 x.1))
]
