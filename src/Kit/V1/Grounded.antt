-- ===== src/Kit/V1/Grounded.antt =====
-- Where the credentials of a translated specification may be sent.
use boks.Prelude.{
  ◌≡◌, refl, inl, inr, Bool, true, ◌||◌, Option, none, some, List, [], ◌∷◌, is_some, Bool-cases,
  Option-cases, All, All-append,
}
use boks.Strings.{Text, text_eq}
use boks.Strings.Laws.{text_eq_iff}
use boks.Dict.{Dict, lookup, insert}
use boks.Kit.Spec.{ApiKeyInject}
use boks.Kit.V1.Grammar.{Warnings, ServiceAuth, NetworkV1, SourceV1, SpecV1}
use boks.Kit.V1.Surfaces.{
  Pending, Pendings, get_pending, is_explicit, add_source, fold_sources, inject_of, add_inject,
  fold_domains, add_name, fold_managed,
}

pub IsInjectFor : Dict Text → Text → ApiKeyInject → Type 0
IsInjectFor domains service inj = lookup inj.domain domains ≡ some service

-- Every rule of a service is for a domain that a table gives to that service.
unfoldable pub AreFor : Dict Text → Text → List ApiKeyInject → Type 0
AreFor domains service injects = All (IsInjectFor domains service) injects

unfoldable pub ArePending : Dict Text → Pendings → Type 0
ArePending domains [] = Unit {0}
ArePending domains ((service, p) ∷ m) = AreFor domains service p.inject × ArePending domains m

abbrev pub domains_of : Option NetworkV1 → Dict Text
domains_of none = []
domains_of (some n) = n.service_domains

module _ (domains : Dict Text) where
  pub get_pending-AreFor :
      (service : Text) (m : Pendings)
      → ArePending domains m
      → AreFor domains service (get_pending service m).inject
  unfolding ArePending AreFor lookup
  get_pending-AreFor service [] g = tt
  get_pending-AreFor service ((j, p) ∷ m) (g, h) = elim (Bool-cases (text_eq j service)) [
    | inl e ↦ rw e (rw ((text_eq_iff j service).0 e) at g)
    | inr e ↦ rw e (get_pending-AreFor service m h)
  ]

  insert-ArePending :
      (service : Text) (p : Pending) (m : Pendings)
      → AreFor domains service p.inject
      → ArePending domains m
      → ArePending domains (insert service p m)
  unfolding ArePending insert
  insert-ArePending service p [] f g = (f, tt)
  insert-ArePending service p ((j, q) ∷ m) f (g, h) = elim (Bool-cases (text_eq j service)) [
    | inl e ↦ rw e (f, h)
    | inr e ↦ rw e (g, insert-ArePending service p m f h)
  ]

  add_source-inject : (x : Option SourceV1) (p : Pending) → (add_source x p).inject ≡ p.inject
  add_source-inject none p = refl
  add_source-inject (some source) p = refl

  pub fold_sources-ArePending :
      (sf : SpecV1) (services : List Text) (m : Pendings) (saw : Bool)
      → ArePending domains m
      → ArePending domains (fold_sources sf services (m, saw)).0
  unfolding fold_sources
  fold_sources-ArePending sf [] m saw g = g
  fold_sources-ArePending sf (service ∷ services) m saw g =
      elim (Bool-cases (is_explicit sf service)) [
        | inl e ↦ rw (fold_sources, e) (fold_sources-ArePending sf services m saw g)
        | inr e ↦
            let source = lookup service sf.sources in
            let p = add_source source (get_pending service m) in
            let f : AreFor domains service p.inject =
              rw (add_source-inject source (get_pending service m))
                (get_pending-AreFor service m g) in
            rw (fold_sources, e)
              (fold_sources-ArePending sf services (insert service p m) true
                (insert-ArePending service p m f g))
      ]

  pub fold_managed-ArePending :
      (sf : SpecV1) (env : Dict Text) (names : List Text) (m : Pendings) (w : Warnings)
      → ArePending domains m
      → ArePending domains (fold_managed sf env names (m, w)).0
  unfolding fold_managed
  fold_managed-ArePending sf env [] m w g = g
  fold_managed-ArePending sf env (name ∷ names) m w g = elim (Option-cases (lookup name env)) [
    | inl n ↦ rw (fold_managed, n) (fold_managed-ArePending sf env names m _ g)
    | inr (service, n) ↦ elim (Bool-cases (is_explicit sf service)) [
      | inl e ↦ rw (fold_managed, n, e) (fold_managed-ArePending sf env names m w g)
      | inr e ↦
          let p = add_name name (get_pending service m) in
          rw (fold_managed, n, e)
            (fold_managed-ArePending sf env names (insert service p m) w
              (insert-ArePending service p m (get_pending-AreFor service m g) g))
    ]
  ]

  add_inject-AreFor :
      (service domain : Text) (x : Option ServiceAuth) (p : Pending)
      → lookup domain domains ≡ some service
      → AreFor domains service p.inject
      → AreFor domains service (add_inject (inject_of domain x) p).inject
  unfolding AreFor IsInjectFor
  add_inject-AreFor service domain none p h g =
      All-append (IsInjectFor domains service) p.inject (inject_of domain none ∷ []) g (h, tt)
  add_inject-AreFor service domain (some auth) p h g =
      All-append (IsInjectFor domains service) p.inject (inject_of domain (some auth) ∷ []) g
        (h, tt)

pub fold_domains-ArePending :
    (sf : SpecV1) (n : NetworkV1) (domains : List Text) (m : Pendings) (saw saw_auth : Bool)
    → All (λ d. is_some (lookup d n.service_domains) ≡ true) domains
    → ArePending n.service_domains m
    → ArePending n.service_domains (fold_domains sf n domains (m, saw, saw_auth)).0
unfolding fold_domains
fold_domains-ArePending sf n [] m saw saw_auth k g = g
fold_domains-ArePending sf n (domain ∷ domains) m saw saw_auth (k, ks) g =
    elim (Option-cases (lookup domain n.service_domains)) [
      | inl x ↦ cc (rw x at k)
      | inr (service, x) ↦ elim (Bool-cases (is_explicit sf service)) [
        | inl e ↦ rw (fold_domains, x, e) (fold_domains-ArePending sf n domains m saw saw_auth ks g)
        | inr e ↦
            let auth = lookup service n.service_auth in
            let p = add_inject (inject_of domain auth) (get_pending service m) in
            let old = get_pending-AreFor n.service_domains service m g in
            let f =
              add_inject-AreFor n.service_domains service domain auth (get_pending service m) x
                old in
            rw (fold_domains, x, e)
              (fold_domains-ArePending sf n domains (insert service p m) true
                (saw_auth || is_some auth) ks (insert-ArePending n.service_domains service p m f g))
      ]
    ]
