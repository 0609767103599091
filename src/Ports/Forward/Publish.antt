-- ===== src/Ports/Forward/Publish.antt =====
-- What a publish request that succeeds does to the forwarder.
use mathlib.Core.Path.{subst}
use boks.Prelude.{
  ℕ, ◌≡◌, refl, ap, inl, inr, Bool, true, false, not, ◌&&◌, ◌||◌, Option, none, some, List, [], ◌∷◌,
  ◌++◌, map, arith, ◌==◌, if◌then◌else◌, Bool-cases, Option-cases, any, all, err, ok, ok-injective,
}
use boks.Netip.{Addr, Netip}
use boks.Ports.Spec.{already_published, cannot_bind, is_udp, Spec, binds, Published}
use boks.Ports.Forward.{
  Forwarder, key_of, has_key, socket_of, early_clash, binding, bind_all, commit, publish,
}

some-value : {A : Type 0} {a b : A} → ◌≡◌ {A = Option A} (some a) (some b) → a ≡ b
some-value h = cc

module _ (net : Netip) (listen : Addr → ℕ → Option ℕ) where
  -- Bindings of addresses, for a request at a host port, which is 0 for an ephemeral one.
  pub record Binds (spec : Spec) (port : ℕ) (addrs : List Addr) (ps : List Published) : Type 0 where
    pub hosts : map (λ (p : Published). p.host_ip) ps ≡ map net.addr_text addrs
    pub guest : all (λ (p : Published). p.sandbox_port == spec.sandbox_port) ps ≡ true
    pub same_port : (port == 0 || all (λ (p : Published). p.host_port == port) ps) ≡ true

  -- The bindings `ps` of a request, and the forwarder `f'` that has them besides those of `f`.
  pub record Publishes (f : Forwarder) (spec : Spec) (ps : List Published) (f' : Forwarder)
      : Type 0 where
    pub was_open : f.closed ≡ false
    pub added : f'.entries ≡ f.entries ++ ps
    pub listens : f'.sockets ≡ f.sockets ++ map socket_of ps
    pub fresh : any (λ p. has_key f.entries (key_of p)) ps ≡ false
    pub bound : Binds spec spec.host_port (binds spec f.has_ipv6) ps

  bind_all-Binds :
      (spec : Spec) (port : ℕ) (addrs : List Addr) {ps : List Published}
      → bind_all net listen spec port addrs ≡ some ps
      → Binds spec port addrs ps
  unfolding bind_all binding
  bind_all-Binds spec port [] h =
      subst (Binds spec port []) (some-value h)
        (record { hosts = refl; guest = refl; same_port = ground arith })
  bind_all-Binds spec port (a ∷ addrs) h = elim (Option-cases (listen a port)) [
    | inl e ↦ cc (rw (bind_all, e) at h)
    | inr (got, e) ↦
        let port' : ℕ = if port == 0 then got else port in
        elim (Option-cases (bind_all net listen spec port' addrs)) [
          | inl e' ↦ cc (rw (bind_all, e, e') at h)
          | inr (ps, e') ↦
              let v = bind_all-Binds spec port' addrs e' in
              subst (Binds spec port (a ∷ addrs)) (some-value (rw (bind_all, e, e') at h)) (record {
                hosts = ap (λ hs. net.addr_text a ∷ hs) v.hosts;
                guest = ground (arith, v.guest);
                same_port = ground (arith, v.same_port);
              })
        ]
  ]

  commit-Publishes :
      (f : Forwarder) (spec : Spec) (ps : List Published) {out : List Published × Forwarder}
      → Binds spec spec.host_port (binds spec f.has_ipv6) ps
      → commit net listen f ps ≡ ok out
      → Publishes f spec out.0 out.1
  unfolding commit
  commit-Publishes f spec ps v h = elim (Bool-cases f.closed) [
    | inl e ↦ cc (rw e at h)
    | inr e ↦ elim (Bool-cases (any (λ p. has_key f.entries (key_of p)) ps)) [
      | inl e' ↦ cc (rw (e, e') at h)
      | inr e' ↦
          subst (λ (x : List Published × Forwarder). Publishes f spec x.0 x.1)
            (ok-injective (rw (e, e') at h))
            (record { was_open = e; added = refl; listens = refl; fresh = e'; bound = v })
    ]
  ]

  -- The end of `publish`, where the early clash has been tested.
  publish_bound :
      (f : Forwarder) (spec : Spec) {out : List Published × Forwarder} (clash : Bool)
      → (if clash
          then err already_published
          else (elim (bind_all net listen spec spec.host_port (binds spec f.has_ipv6)) [
            | none ↦ err cannot_bind
            | some published ↦ commit net listen f published
          ]))
        ≡ ok out
      → Publishes f spec out.0 out.1
  publish_bound f spec true h = cc
  publish_bound f spec false h =
      elim (Option-cases (bind_all net listen spec spec.host_port (binds spec f.has_ipv6))) [
        | inl e ↦ cc (rw e at h)
        | inr (ps, e) ↦
            commit-Publishes f spec ps
              (bind_all-Binds spec spec.host_port (binds spec f.has_ipv6) e) (rw e at h)
      ]

  -- A publish request that succeeds is not for UDP, and the forwarder was open. Every address that
  -- the request binds has become one entry with an open listener, at the port that was asked for
  -- where one was; none of them was an entry before, and no entry or listener was lost.
  pub publish-Publishes :
      (f : Forwarder) (spec : Spec) (ps : List Published) (f' : Forwarder)
      → publish net listen f spec ≡ ok (ps, f')
      → (is_udp spec.protocol ≡ false) × Publishes f spec ps f'
  unfolding publish
  publish-Publishes f spec ps f' h =
      let addrs = binds spec f.has_ipv6 in
      elim (Bool-cases (is_udp spec.protocol)) [
        | inl e1 ↦ cc (rw (publish, e1) at h)
        | inr e1 ↦ elim (Bool-cases (spec.sandbox_port == 0)) [
          | inl e2 ↦ cc (rw (publish, e1, e2) at h)
          | inr e2 ↦ elim (Bool-cases f.closed) [
            | inl e3 ↦ cc (rw (publish, e1, e2, e3) at h)
            | inr e3 ↦ (
              e1,
              publish_bound f spec
                  (not (spec.host_port == 0) && early_clash net listen f spec addrs)
                  (rw (publish, e1, e2, e3) at h),
            )
          ]
        ]
      ]
