-- ===== src/Kit/V1/Routes.antt =====
-- The credentials of a translated specification, and the domains that they may be sent to.
use boks.Prelude.{
  ◌≡◌, refl, sym, ap, ◌∙◌, ◌⊎◌, inl, inr, true, false, not, ◌||◌, Option, none, some, List, [], ◌∷◌,
  ◌++◌, arith, is_some, Bool-cases, has_any, any, All, All-append, All-imp, ok, ok-injective, ◌>>=◌,
  >>=-eq-ok,
}
use boks.Strings.{Text, codes, text_eq, is_empty}
use boks.Strings.Laws.{text_eq_refl}
use boks.Dict.Keys.{IsKey, sorted_keys-IsKey}
use boks.Dict.{Dict, sorted_keys}
use boks.Kit.Spec.{ApiKey, Credential, Spec}
use boks.Kit.V1.{carried, finish, translate_v1}
use boks.Kit.V1.Grammar.{
  kind_agent, Warnings, deprecate, NetworkV1, CommandsV1, OauthV1, SpecV1, Draft,
}
use boks.Kit.V1.Launch.{translate_v1_sandbox}
use boks.Kit.V1.Blocks.{
  translate_v1_agent_instructions, translate_v1_network, variables_of, translate_v1_environment,
  translate_commands, translate_v1_setup, translate_v1_volumes, translate_v1_removed,
}
use boks.Kit.V1.Surfaces.{
  Pending, Pendings, get_pending, is_explicit, fold_sources, network_pendings, env_to_service,
  managed_of, credential_of, credentials_of, fold_surfaces,
}
use boks.Kit.V1.Credentials.{
  is_routing_only_api_key, with_oauth, attach_oauth, oauth_warnings, translate_v1_oauth,
  translate_v1_credentials,
}
use boks.Kit.V1.Grounded.{
  AreFor, ArePending, domains_of, get_pending-AreFor, fold_sources-ArePending,
  fold_managed-ArePending, fold_domains-ArePending,
}

pub IsKeyFor : Dict Text → Text → Option ApiKey → Type 0
IsKeyFor domains service none = Unit {0}
IsKeyFor domains service (some k) = AreFor domains service k.inject

-- A credential of a service that the author wrote an entry of; or one whose every domain is given to
-- its service by `network.serviceDomains`.
pub IsGrounded : SpecV1 → Credential → Type 0
IsGrounded sf c =
    (is_explicit sf c.service ≡ true) ⊎ IsKeyFor (domains_of sf.network) c.service c.api_key

network_pendings-ArePending :
    (sf : SpecV1) (x : Option NetworkV1) (m : Pendings)
    → ArePending (domains_of x) m
    → ArePending (domains_of x) (network_pendings sf x m).0
unfolding IsKey
network_pendings-ArePending sf none m g = g
network_pendings-ArePending sf (some n) m g =
    fold_domains-ArePending sf n (sorted_keys n.service_domains) m false false
      (sorted_keys-IsKey n.service_domains) g

any_service : (l : List Credential) → All (λ c. any (λ c'. text_eq c'.service c.service) l ≡ true) l
any_service [] = tt
any_service (c ∷ l) = (
  rw (text_eq_refl c.service) refl,
  All-imp (λ c'. any (λ x. text_eq x.service c'.service) l ≡ true)
      (λ c'. any (λ x. text_eq x.service c'.service) (c ∷ l) ≡ true) l (λ c' h. ground (arith, h))
      (any_service l),
)

module _ (sf : SpecV1) where
  fold_surfaces-ArePending : ArePending (domains_of sf.network) (fold_surfaces sf).0
  unfolding fold_surfaces
  fold_surfaces-ArePending =
      let domains = domains_of sf.network in
      let first = fold_sources sf (sorted_keys sf.sources) ([], false) in
      let one =
        fold_sources-ArePending domains sf (sorted_keys sf.sources) [] false
          (unfold ArePending in tt) in
      let second = network_pendings sf sf.network first.0 in
      let two = network_pendings-ArePending sf sf.network first.0 one in
      fold_managed-ArePending domains sf (env_to_service sf.sources []) (managed_of sf.environment)
        second.0 [] two

  credential_of-IsGrounded :
      (service : Text) (p : Pending)
      → AreFor (domains_of sf.network) service p.inject
      → IsGrounded sf (credential_of service p)
  unfolding IsGrounded IsKeyFor
  credential_of-IsGrounded service p g =
      elim (Bool-cases (not (is_empty p.name) || has_any p.inject)) [
        | inl e ↦ rw e (inr g)
        | inr e ↦ rw e (inr tt)
      ]

  credentials_of-IsGrounded :
      (m : Pendings) (services : List Text)
      → ArePending (domains_of sf.network) m
      → All (IsGrounded sf) (credentials_of m services)
  credentials_of-IsGrounded m [] g = tt
  credentials_of-IsGrounded m (service ∷ services) g = (
    credential_of-IsGrounded service (get_pending service m)
        (get_pending-AreFor (domains_of sf.network) service m g),
    credentials_of-IsGrounded m services g,
  )

  with_oauth-IsGrounded :
      (o : OauthV1) (c c' : Credential)
      → with_oauth o c ≡ ok c'
      → IsGrounded sf c
      → IsGrounded sf c'
  unfolding with_oauth IsGrounded IsKeyFor
  with_oauth-IsGrounded o c c' h g = elim (Bool-cases (is_some c.oauth)) [
    | inl e ↦ cc (rw e at h)
    | inr e ↦ elim (Bool-cases (is_routing_only_api_key c.api_key)) [
      | inl r ↦ rw⁻¹ (ok-injective (rw (e, r) at h)) (elim g [ inl x ↦ inl x | inr k ↦ inr tt ])
      | inr r ↦ rw⁻¹ (ok-injective (rw (e, r) at h)) g
    ]
  ]

  attach_oauth-IsGrounded :
      (o : OauthV1) (cs cs' : List Credential)
      → attach_oauth o cs ≡ ok cs'
      → All (IsGrounded sf) cs
      → All (IsGrounded sf) cs'
  unfolding attach_oauth
  attach_oauth-IsGrounded o [] cs' h g =
      rw⁻¹ (ok-injective h) ((unfold IsGrounded IsKeyFor in inr tt), tt)
  attach_oauth-IsGrounded o (c ∷ cs) cs' h (g, gs) =
      elim (Bool-cases (text_eq c.service o.service)) [
        | inl e ↦
            let (c', p, q) = >>=-eq-ok (with_oauth o c) (λ x. ok (x ∷ cs)) (rw e at h) in
            rw⁻¹ (ok-injective q) (with_oauth-IsGrounded o c c' p g, gs)
        | inr e ↦
            let (rest, p, q) = >>=-eq-ok (attach_oauth o cs) (λ x. ok (c ∷ x)) (rw e at h) in
            rw⁻¹ (ok-injective q) (g, attach_oauth-IsGrounded o cs rest p gs)
      ]

  credentials_list-IsGrounded : All (IsGrounded sf) sf.credentials_list
  unfolding IsGrounded is_explicit
  credentials_list-IsGrounded =
      All-imp (λ c. is_explicit sf c.service ≡ true) (IsGrounded sf) sf.credentials_list
        (λ c h. inl h) (any_service sf.credentials_list)

  translate_v1_oauth-IsGrounded :
      (x : Option OauthV1) (d d' : Draft)
      → translate_v1_oauth x d ≡ ok d'
      → All (IsGrounded sf) d.0.credentials
      → All (IsGrounded sf) d'.0.credentials
  translate_v1_oauth-IsGrounded none d d' h g = rw⁻¹ (ok-injective h) g
  translate_v1_oauth-IsGrounded (some o) d d' h g = elim (Bool-cases (is_empty o.service)) [
    | inl e ↦ cc (rw e at h)
    | inr e ↦
        let (cs, p, q) =
          >>=-eq-ok (attach_oauth o d.0.credentials)
            (λ cs'. ok (record d.0 { credentials = cs' }, d.1 ++ oauth_warnings o)) (rw e at h) in
        rw⁻¹ (ok-injective q) (attach_oauth-IsGrounded o d.0.credentials cs p g)
  ]

  pub translate_v1_credentials-IsGrounded :
      (d d' : Draft) → translate_v1_credentials sf d ≡ ok d' → All (IsGrounded sf) d'.0.credentials
  unfolding translate_v1_credentials
  translate_v1_credentials-IsGrounded d d' h =
      let x = fold_surfaces sf in
      let made = credentials_of x.0 (sorted_keys x.0) in
      let s : Spec = record d.0 { credentials = sf.credentials_list ++ made } in
      translate_v1_oauth-IsGrounded sf.oauth (s, d.1 ++ x.1) d' h
        (All-append (IsGrounded sf) sf.credentials_list made credentials_list-IsGrounded
          (credentials_of-IsGrounded x.0 (sorted_keys x.0) fold_surfaces-ArePending))

  translate_commands-credentials :
      (x : Option CommandsV1) (d : Draft) → (translate_commands x d).0.credentials ≡ d.0.credentials
  translate_commands-credentials none d = refl
  translate_commands-credentials (some c) d = refl

  environment-credentials :
      (d : Draft) → (translate_v1_environment sf d).0.credentials ≡ d.0.credentials
  unfolding translate_v1_environment
  environment-credentials d = elim (Bool-cases (has_any (variables_of sf.environment))) [
    | inl e ↦ rw e refl
    | inr e ↦ rw e refl
  ]

  finish-credentials : (d : Draft) → (finish sf d).0.credentials ≡ d.0.credentials
  unfolding translate_v1_removed translate_v1_volumes translate_v1_setup
  finish-credentials d =
      translate_commands-credentials sf.commands (translate_v1_environment sf d)
      ∙ environment-credentials d

  finish-IsGrounded :
      (d : Draft) (s : Spec) (w : Warnings)
      → finish sf d ≡ (s, w)
      → All (IsGrounded sf) d.0.credentials
      → All (IsGrounded sf) s.credentials
  finish-IsGrounded d s w e g =
      let same : d.0.credentials ≡ s.credentials =
        sym (finish-credentials d) ∙ ap (λ x. x.0.credentials) e in
      rw⁻¹ same g

  -- In the specification that `translateV1` makes, a credential is of a service that the author wrote
  -- an entry of in the form of `schemaVersion` 2, or every domain that its API key is injected for is
  -- one that `network.serviceDomains` gives to its own service.
  pub translate_v1-IsGrounded :
      (s : Spec) (w : Warnings) → translate_v1 sf ≡ ok (s, w) → All (IsGrounded sf) s.credentials
  unfolding translate_v1
  translate_v1-IsGrounded s w h = elim (Bool-cases (has_any sf.secrets)) [
    | inl e ↦ cc (rw e at h)
    | inr e ↦ elim (Bool-cases (has_any sf.egress)) [
      | inl e' ↦ cc (rw (e, e') at h)
      | inr e' ↦
          let start : Draft =
            (carried sf, deprecate (text_eq sf.kind kind_agent) (codes "kind: agent")) in
          let later : Draft → Draft =
            λ d. translate_v1_network sf (translate_v1_agent_instructions sf d) in
          let (d, p, q) =
            >>=-eq-ok (translate_v1_sandbox sf start)
              (λ x. translate_v1_credentials sf (later x) >>= λ x'. ok (finish sf x'))
              (rw (e, e') at h) in
          let (d', p', q') =
            >>=-eq-ok (translate_v1_credentials sf (later d)) (λ x'. ok (finish sf x')) q in
          finish-IsGrounded d' s w (ok-injective q')
            (translate_v1_credentials-IsGrounded (later d) d' p')
    ]
  ]
