-- ===== src/Proxy/Dial/Boundary.antt =====
-- Which addresses the proxy connects to.
use mathlib.Core.Path.{subst}
use boks.Prelude.{
  ℕ, ◌≡◌, refl, ap, ◌∙◌, inl, inr, Bool, true, false, not, ◌&&◌, ◌||◌, Option, none, some, List, [],
  ◌∷◌, ◌++◌, arith, ◌==◌, if◌then◌else◌, is_some, ==_refl, Bool-cases, Option-cases, any, all,
  Result, err, ok, ok-injective,
}
use boks.Strings.{Text}
use boks.Netip.{Addr, without_zone, unmap, addr_eq, Netip, addr_eq_refl}
use boks.Policy.Target.{Target, is_ip, target_from_addr}
use boks.Policy.Evaluate.{Policy, denied, evaluate_deny}
use boks.Policy.Log.{Mode, Decision}
use boks.Policy.Engine.{decision, record_verdict, check_resolved}
use boks.Proxy.Server.{Server, World, is_host, host_port_open}
use boks.Proxy.Dial.{
  home, attempt, port16, candidate_check, dial_each, dial_host, candidates, dial_candidates, dial,
}

module _ (net : Netip) where
  -- Whether an address is one that a target stands for: an address target's own, or one of a name
  -- that no deny rule matches.
  abbrev pub is_candidate : Policy → ℕ → Option Addr → Addr → Bool
  is_candidate policy port (some b) a = addr_eq a (without_zone (unmap b))
  is_candidate policy port none a = (evaluate_deny policy (target_from_addr net a port)).allowed

  -- Whether a connection may be opened for a target: at its port, to the host's own loopback if it is
  -- the host's name and the port was opened, and else to one of its addresses.
  unfoldable pub may_dial : Policy → List ℕ → Target → Addr × ℕ → Bool
  may_dial policy ports t (a, p) =
      p == port16 t
      && (if is_host t
          then addr_eq a home && any (λ q. q == t.port) ports
          else is_candidate policy (port16 t) t.addr a)

  -- What a call keeps and adds: the policy and the ports stay, and every connection may be opened.
  pub record Dials (t : Target) (s s' : Server) : Type 0 where
    pub policy : s'.engine.policy ≡ s.engine.policy
    pub ports : s'.host_ports ≡ s.host_ports
    pub allowed :
        all (may_dial s.engine.policy s.host_ports t) s.dialled ≡ true
        → all (may_dial s.engine.policy s.host_ports t) s'.dialled ≡ true

  Dials-refl : (t : Target) (s : Server) → Dials t s s
  Dials-refl t s = record { policy = refl; ports = refl; allowed = λ h. h }

  Dials-trans : (t : Target) (s s' s'' : Server) → Dials t s s' → Dials t s' s'' → Dials t s s''
  Dials-trans t s s' s'' v w = record {
    policy = w.policy ∙ v.policy;
    ports = w.ports ∙ v.ports;
    allowed = λ h. rw (v.policy, v.ports) at w.allowed (v.allowed h);
  }

  all-snoc :
      {A : Type 0} (p : A → Bool) (xs : List A) (x : A)
      → all p xs ≡ true
      → p x ≡ true
      → all p (xs ++ x ∷ []) ≡ true
  all-snoc p [] x h k = ground arith
  all-snoc p (y ∷ xs) x h k = ground (arith, all-snoc p xs x)

  attempt-Dials :
      (t : Target) (s : Server) (a : Addr) (port : ℕ)
      → may_dial s.engine.policy s.host_ports t (a, port) ≡ true
      → Dials t s (attempt s a port)
  attempt-Dials t s a port h = record {
    policy = refl;
    ports = refl;
    allowed = λ k. all-snoc (may_dial s.engine.policy s.host_ports t) s.dialled (a, port) k h;
  }

  candidate-deny :
      (policy : Policy) (port : ℕ) (x : Option Addr) (a : Addr)
      → is_some x ≡ false
      → (evaluate_deny policy (target_from_addr net a port)).allowed ≡ true
      → is_candidate policy port x a ≡ true
  candidate-deny policy port none a h k = k
  candidate-deny policy port (some b) a h k = cc

  may_dial-candidate :
      (policy : Policy) (ports : List ℕ) (t : Target) (a : Addr)
      → is_host t ≡ false
      → is_candidate policy (port16 t) t.addr a ≡ true
      → may_dial policy ports t (a, port16 t) ≡ true
  unfolding may_dial
  may_dial-candidate policy ports t a h k = rw (==_refl (port16 t), h, k) refl

  -- A candidate that stands for an address target is that address.
  abbrev is_own : Policy → Target → Addr → Bool
  is_own policy t c =
      not (is_ip t) || is_candidate policy (port16 t) t.addr (without_zone (unmap c))

module _ (net : Netip) (w : World) (t : Target) (mode : Mode) where
  candidate_check-Dials :
      (a : Addr) (s : Server) → Dials net t s (candidate_check net w t mode a s).1
  unfolding candidate_check check_resolved record_verdict
  candidate_check-Dials a s = elim (Bool-cases (is_ip t)) [
    | inl e ↦ rw e (Dials-refl net t s)
    | inr e ↦ rw e (record { policy = refl; ports = refl; allowed = λ h. h })
  ]

  candidate_check-allowed :
      (a : Addr) (s : Server)
      → is_ip t ≡ false
      → (candidate_check net w t mode a s).0 ≡ none
      → (evaluate_deny s.engine.policy (target_from_addr net a (port16 t))).allowed ≡ true
  unfolding candidate_check check_resolved record_verdict decision
  candidate_check-allowed a s h k = ground arith

  candidate_check-may_dial :
      (c : Addr) (s : Server)
      → is_host t ≡ false
      → is_own net s.engine.policy t c ≡ true
      → (candidate_check net w t mode (without_zone (unmap c)) s).0 ≡ none
      → may_dial net s.engine.policy s.host_ports t (without_zone (unmap c), port16 t) ≡ true
  candidate_check-may_dial c s h own k =
      let a = without_zone (unmap c) in
      may_dial-candidate net s.engine.policy s.host_ports t a h (elim (Bool-cases (is_ip t)) [
        | inl e ↦ rw e at own
        | inr e ↦
            candidate-deny net s.engine.policy (port16 t) t.addr a (unfold is_ip in e)
              (candidate_check-allowed a s e k)
      ])

  dial_each-Dials :
      (cs : List Addr) (denied : Option Decision) (failed : Option Text) (s : Server)
      → is_host t ≡ false
      → all (is_own net s.engine.policy t) cs ≡ true
      → Dials net t s (dial_each net w t mode cs denied failed s).1
  unfolding dial_each
  dial_each-Dials [] denied failed s h own = Dials-refl net t s
  dial_each-Dials (c ∷ cs) denied failed s h own =
      let a = without_zone (unmap c) in
      let s' = (candidate_check net w t mode a s).1 in
      let v = candidate_check-Dials a s in
      let own_c : is_own net s.engine.policy t c ≡ true = ground (arith, own) in
      let own_cs : all (is_own net s.engine.policy t) cs ≡ true = ground (arith, own) in
      let own' : all (is_own net s'.engine.policy t) cs ≡ true = rw (v.policy) own_cs in
      elim (Option-cases (candidate_check net w t mode a s).0) [
        | inr (d, e) ↦
            rw (dial_each, e)
              (Dials-trans net t s s' _ v (dial_each-Dials cs (some d) failed s' h own'))
        | inl e ↦
            let may : may_dial net s'.engine.policy s'.host_ports t (a, port16 t) ≡ true =
              rw (v.policy, v.ports) (candidate_check-may_dial c s h own_c e) in
            let tried =
              Dials-trans net t s s' (attempt s' a (port16 t)) v
                (attempt-Dials net t s' a (port16 t) may) in
            elim (Option-cases (w.dial_addr a (port16 t))) [
              | inl e' ↦ rw (dial_each, e, e') tried
              | inr (why, e') ↦
                  rw (dial_each, e, e')
                    (Dials-trans net t s (attempt s' a (port16 t)) _ tried
                      (dial_each-Dials cs denied (some why) (attempt s' a (port16 t)) h own'))
            ]
      ]

  own_address :
      (policy : Policy) (port : ℕ) (x : Option Addr) (a : Addr)
      → x ≡ some a
      → is_candidate net policy port x (without_zone (unmap a)) ≡ true
  own_address policy port x a e = rw e (addr_eq_refl (without_zone (unmap a)))

  all-names :
      (policy : Policy) (cs : List Addr) → is_ip t ≡ false → all (is_own net policy t) cs ≡ true
  all-names policy [] h = refl
  all-names policy (c ∷ cs) h = rw (h, all-names policy cs h) refl

  dial_host-Dials : (s : Server) → is_host t ≡ true → Dials net t s (dial_host net w s t).1
  unfolding dial_host host_port_open
  dial_host-Dials s h = elim (Bool-cases (any (λ p. p == t.port) s.host_ports)) [
    | inr e ↦ rw e (Dials-refl net t s)
    | inl e ↦
        let may : may_dial net s.engine.policy s.host_ports t (home, port16 t) ≡ true =
          unfold may_dial in rw (==_refl (port16 t), h, e, addr_eq_refl home) refl in
        let tried = attempt-Dials net t s home (port16 t) may in
        elim (Option-cases (w.dial_addr home (port16 t))) [
          | inl e' ↦ rw (dial_host, e, e') tried
          | inr (why, e') ↦ rw (dial_host, e, e') tried
        ]
  ]

  dial_candidates-Dials :
      (s : Server) (found : Result Text (List Addr))
      → is_host t ≡ false
      → ((cs : List Addr) → found ≡ ok cs → all (is_own net s.engine.policy t) cs ≡ true)
      → Dials net t s (dial_candidates net w s t mode found).1
  unfolding dial_candidates
  dial_candidates-Dials s (err why) h own = Dials-refl net t s
  dial_candidates-Dials s (ok []) h own = Dials-refl net t s
  dial_candidates-Dials s (ok (c ∷ cs)) h own =
      dial_each-Dials (c ∷ cs) none none s h (own (c ∷ cs) refl)

  candidates-own :
      (policy : Policy) (x : Option Addr) (cs : List Addr)
      → t.addr ≡ x
      → candidates net w t.host x ≡ ok cs
      → all (is_own net policy t) cs ≡ true
  candidates-own policy none cs e k = all-names policy cs (unfold is_ip in ap is_some e)
  candidates-own policy (some a) cs e k =
      let same : a ∷ [] ≡ cs = ok-injective k in
      subst (λ l. all (is_own net policy t) l ≡ true) same
        (rw (own_address policy (port16 t) t.addr a e) (ground arith))

  -- The same from any state.
  pub dial-Dials : (s : Server) → Dials net t s (dial net w s t mode).1
  unfolding dial
  dial-Dials s = elim (Bool-cases (is_host t)) [
    | inl h ↦ rw h (dial_host-Dials s h)
    | inr h ↦ rw h (
        dial_candidates-Dials s (candidates net w t.host t.addr) h
          (λ cs k. candidates-own s.engine.policy t.addr cs refl k))
  ]

  -- When no connection has been made for a request yet, every connection that a call of `dial` makes
  -- may be opened for its target: to the host's own loopback only for the host's name at a port that
  -- was opened; else to the address that the target is, or to one that no deny rule matches; always
  -- at the target's port. The policy and the opened ports stay as they are.
  pub dial-allowed :
      (s : Server)
      → s.dialled ≡ []
      → (all (may_dial net s.engine.policy s.host_ports t) (dial net w s t mode).1.dialled ≡ true)
        × ((dial net w s t mode).1.engine.policy ≡ s.engine.policy)
        × ((dial net w s t mode).1.host_ports ≡ s.host_ports)
  dial-allowed s h =
      let v = dial-Dials s in
      (v.allowed (ap (all (may_dial net s.engine.policy s.host_ports t)) h), v.policy, v.ports)
