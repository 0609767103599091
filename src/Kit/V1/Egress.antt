-- ===== src/Kit/V1/Egress.antt =====
-- The network rules of a translated specification.
use boks.Prelude.{
  ◌≡◌, refl, sym, ap, ◌∙◌, inl, inr, false, ◌&&◌, ◌||◌, Option, none, some, List, [], ◌∷◌, ◌++◌,
  Bool-cases, has_any, ok, ok-injective, ◌>>=◌, >>=-eq-ok,
}
use boks.Strings.{Text, codes, text_eq, is_empty}
use boks.Kit.Spec.{Spec}
use boks.Kit.V1.{carried, finish, translate_v1}
use boks.Kit.V1.Grammar.{
  kind_agent, Warnings, deprecate, SandboxV1, CommandsV1, OauthV1, SpecV1, Draft,
}
use boks.Kit.V1.Launch.{block_of, translate_resources, translate_block, translate_v1_sandbox}
use boks.Kit.V1.Blocks.{
  filename_of, content_of, translate_v1_agent_instructions, caps_of, allow_of, deny_of, allowed_of,
  denied_of, translate_v1_network, network_rules, variables_of, translate_v1_environment,
  translate_commands, translate_v1_setup, translate_v1_volumes, translate_v1_removed,
}
use boks.Kit.V1.Credentials.{
  attach_oauth, oauth_warnings, translate_v1_oauth, translate_v1_credentials,
}

has_any-append : (a b : List Text) → has_any a || has_any b ≡ false → (a ≡ []) × (b ≡ [])
has_any-append [] [] h = (refl, refl)
has_any-append [] (x ∷ b) h = cc
has_any-append (x ∷ a) b h = cc

-- What the network block comes to.
abbrev pub declared : SpecV1 → List Text × List Text
declared sf = (
  allow_of (caps_of sf.caps) ++ allowed_of sf.network,
  deny_of (caps_of sf.caps) ++ denied_of sf.network,
)

module _ (sf : SpecV1) where
  network-rules :
      (d : Draft)
      → d.0.permissions ≡ none
      → network_rules (translate_v1_network sf d).0 ≡ declared sf
  unfolding network_rules translate_v1_network
  network-rules d h =
      let (allow, deny) = declared sf in
      elim (Bool-cases (has_any allow || has_any deny)) [
        | inl e ↦ rw e refl
        | inr e ↦ let (p, q) = has_any-append allow deny e in rw (e, h, p, q) refl
      ]

  instructions-permissions :
      (d : Draft) → (translate_v1_agent_instructions sf d).0.permissions ≡ d.0.permissions
  unfolding translate_v1_agent_instructions
  instructions-permissions d =
      elim (Bool-cases (is_empty (filename_of (block_of sf)) && is_empty (content_of sf))) [
        | inl e ↦ rw e refl
        | inr e ↦ rw e refl
      ]

  block-permissions :
      (x : Option SandboxV1) (d d' : Draft)
      → translate_block x d ≡ ok d'
      → d'.0.permissions ≡ d.0.permissions
  block-permissions none d d' h = rw⁻¹ (ok-injective h) refl
  block-permissions (some b) d d' h =
      let (r, e, h1) = >>=-eq-ok (translate_resources b.resources) _ h in
      rw⁻¹ (ok-injective h1) refl

  sandbox-permissions :
      (d d' : Draft) → translate_v1_sandbox sf d ≡ ok d' → d'.0.permissions ≡ d.0.permissions
  unfolding translate_v1_sandbox
  sandbox-permissions d d' h = block-permissions (block_of sf) _ d' h

  oauth-permissions :
      (x : Option OauthV1) (d d' : Draft)
      → translate_v1_oauth x d ≡ ok d'
      → d'.0.permissions ≡ d.0.permissions
  oauth-permissions none d d' h = rw⁻¹ (ok-injective h) refl
  oauth-permissions (some o) d d' h = elim (Bool-cases (is_empty o.service)) [
    | inl e ↦ cc (rw e at h)
    | inr e ↦
        let (cs, p, q) =
          >>=-eq-ok (attach_oauth o d.0.credentials)
            (λ cs'. ok (record d.0 { credentials = cs' }, d.1 ++ oauth_warnings o)) (rw e at h) in
        rw⁻¹ (ok-injective q) refl
  ]

  credentials-permissions :
      (d d' : Draft) → translate_v1_credentials sf d ≡ ok d' → d'.0.permissions ≡ d.0.permissions
  unfolding translate_v1_credentials
  credentials-permissions d d' h = oauth-permissions sf.oauth _ d' h

  commands-permissions :
      (x : Option CommandsV1) (d : Draft) → (translate_commands x d).0.permissions ≡ d.0.permissions
  commands-permissions none d = refl
  commands-permissions (some c) d = refl

  environment-permissions :
      (d : Draft) → (translate_v1_environment sf d).0.permissions ≡ d.0.permissions
  unfolding translate_v1_environment
  environment-permissions d = elim (Bool-cases (has_any (variables_of sf.environment))) [
    | inl e ↦ rw e refl
    | inr e ↦ rw e refl
  ]

  finish-permissions : (d : Draft) → (finish sf d).0.permissions ≡ d.0.permissions
  unfolding translate_v1_removed translate_v1_volumes translate_v1_setup
  finish-permissions d =
      commands-permissions sf.commands (translate_v1_environment sf d) ∙ environment-permissions d

  -- The network rules of the specification that `translateV1` makes are those that the author wrote:
  -- of `caps` first and then of `network`, in their order, those that allow and those that deny.
  pub translate_v1-network_rules :
      (s : Spec) (w : Warnings) → translate_v1 sf ≡ ok (s, w) → network_rules s ≡ declared sf
  unfolding translate_v1 network_rules
  translate_v1-network_rules s w h = elim (Bool-cases (has_any sf.secrets)) [
    | inl e ↦ cc (rw e at h)
    | inr e ↦ elim (Bool-cases (has_any sf.egress)) [
      | inl e' ↦ cc (rw (e, e') at h)
      | inr e' ↦
          let start : Draft =
            (carried sf, deprecate (text_eq sf.kind kind_agent) (codes "kind: agent")) in
          let named : Draft → Draft = translate_v1_agent_instructions sf in
          let (d, p, q) =
            >>=-eq-ok (translate_v1_sandbox sf start)
              (λ x. translate_v1_credentials sf (translate_v1_network sf (named x)) >>= λ x'.
                ok (finish sf x'))
              (rw (e, e') at h) in
          let later = translate_v1_network sf (named d) in
          let (d', p', q') =
            >>=-eq-ok (translate_v1_credentials sf later) (λ x'. ok (finish sf x')) q in
          let none_yet = instructions-permissions d ∙ sandbox-permissions start d p in
          let kept : s.permissions ≡ later.0.permissions =
            sym (ap (λ x. x.0.permissions) (ok-injective q'))
            ∙ (finish-permissions d' ∙ credentials-permissions later d' p') in
          ap (λ x. (allow_of (caps_of x), deny_of (caps_of x))) kept
          ∙ network-rules (named d) none_yet
    ]
  ]
