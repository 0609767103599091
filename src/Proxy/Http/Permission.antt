-- ===== src/Proxy/Http/Permission.antt =====
-- The connections that a plain HTTP request makes.
use boks.Prelude.{
  ℕ, ◌≡◌, refl, sym, ◌∙◌, inl, inr, Bool, true, not, ◌&&◌, ◌||◌, List, [], arith, ◌==◌,
  if◌then◌else◌, Bool-cases, Option-cases, has_any, any, all, ok,
}
use boks.Strings.{Text, is_empty}
use boks.Strings.Decimal.{pos}
use boks.Netip.{Addr, Netip}
use boks.Policy.Target.{Target, parse_target}
use boks.Policy.Evaluate.{Policy, evaluate}
use boks.Policy.Log.{forward_mode}
use boks.Policy.Engine.{decision, record_verdict, check_mode, note, note_refused}
use boks.Proxy.Server.{
  Server, World, is_host, host_port_open, check_in, refuse_in, note_in, host_decision,
}
use boks.Proxy.Dial.{dial}
use boks.Proxy.Dial.Boundary.{may_dial, dial-allowed}
use boks.Proxy.Http.{
  HttpRequest, default_port_for_scheme, transport_dial, round_trip, http_decision, forward_http,
  handle_target, handle_http,
}

-- Whether a target is permitted: the host's name by an opened port, any other target by the policy.
abbrev pub is_permitted : Policy → List ℕ → Target → Bool
is_permitted policy ports t =
    if is_host t then any (λ p. p == t.port) ports else (evaluate policy t).allowed

-- A decision leaves the policy, the ports and the connections as they are.
pub record SameReach (s s' : Server) : Type 0 where
  pub policy : s'.engine.policy ≡ s.engine.policy
  pub ports : s'.host_ports ≡ s.host_ports
  pub dialled : s'.dialled ≡ s.dialled

module _ (net : Netip) (w : World) where
  http_decision-SameReach : (s : Server) (t : Target) → SameReach s (http_decision net w s t).1
  unfolding http_decision host_decision check_in note_in refuse_in check_mode note note_refused
      record_verdict
  http_decision-SameReach s t = elim (Bool-cases (is_host t)) [
    | inr e ↦ rw e (record { policy = refl; ports = refl; dialled = refl })
    | inl e ↦ elim (Bool-cases (host_port_open s t.port)) [
      | inl e' ↦ rw (e, e') (record { policy = refl; ports = refl; dialled = refl })
      | inr e' ↦ rw (e, e') (record { policy = refl; ports = refl; dialled = refl })
    ]
  ]

  http_decision-allowed :
      (s : Server) (t : Target)
      → (http_decision net w s t).0.allowed ≡ is_permitted s.engine.policy s.host_ports t
  unfolding http_decision host_decision check_in note_in refuse_in check_mode note note_refused
      record_verdict decision host_port_open
  http_decision-allowed s t = elim (Bool-cases (is_host t)) [
    | inr e ↦ rw e refl
    | inl e ↦ elim (Bool-cases (any (λ p. p == t.port) s.host_ports)) [
      | inl e' ↦ rw (e, e') refl
      | inr e' ↦ rw (e, e') refl
    ]
  ]

  -- Connections that may be opened for a target, and none at all unless it is permitted.
  abbrev pub is_covered : Policy → List ℕ → Target → List (Addr × ℕ) → Bool
  is_covered policy ports t ds =
      all (may_dial net policy ports t) ds && (not (has_any ds) || is_permitted policy ports t)

  transport_dial-server :
      (s : Server) (addr : Text) (t : Target)
      → parse_target net addr (pos 80) ≡ ok t
      → (transport_dial net w s addr).1 ≡ (dial net w s t forward_mode).1
  unfolding transport_dial
  transport_dial-server s addr t e = rw (transport_dial, e) refl

  round_trip-covered :
      (s : Server) (r : HttpRequest) (t : Target)
      → parse_target net (w.transport_addr r.scheme r.url_host) (pos 80) ≡ ok t
      → s.dialled ≡ []
      → is_permitted s.engine.policy s.host_ports t ≡ true
      → is_covered s.engine.policy s.host_ports t (round_trip net w s r).1.dialled ≡ true
  unfolding round_trip
  round_trip-covered s r t e none_yet right = elim (Bool-cases r.idle) [
    | inl i ↦ rw (i, none_yet) refl
    | inr i ↦
        let v = dial-allowed net w t forward_mode s none_yet in
        rw (i, transport_dial-server s (w.transport_addr r.scheme r.url_host) t e, v.0, right)
          (ground arith)
  ]

  forward_http-covered :
      (s : Server) (r : HttpRequest) (t : Target)
      → parse_target net (w.transport_addr r.scheme r.url_host) (pos 80) ≡ ok t
      → s.dialled ≡ []
      → is_permitted s.engine.policy s.host_ports t ≡ true
      → is_covered s.engine.policy s.host_ports t (forward_http net w s r t).1.dialled ≡ true
  unfolding forward_http
  forward_http-covered s r t e none_yet right = elim (Option-cases (w.apply t)) [
    | inr (why, a) ↦ rw (forward_http, a, none_yet) refl
    | inl a ↦ rw (forward_http, a) (round_trip-covered s r t e none_yet right)
  ]

  handle_target-covered :
      (s : Server) (r : HttpRequest) (t : Target)
      → parse_target net (w.transport_addr r.scheme r.url_host) (pos 80) ≡ ok t
      → s.dialled ≡ []
      → is_covered s.engine.policy s.host_ports t (handle_target net w s r t).1.dialled ≡ true
  unfolding handle_target
  handle_target-covered s r t e none_yet =
      let s' = (http_decision net w s t).1 in
      let v = http_decision-SameReach s t in
      elim (Bool-cases (http_decision net w s t).0.allowed) [
        | inr d ↦ rw (d, v.dialled, none_yet) refl
        | inl d ↦
            let right = sym (http_decision-allowed s t) ∙ d in
            let covered =
              forward_http-covered s' r t e (v.dialled ∙ none_yet) (rw (v.policy, v.ports) right) in
            rw d (rw (v.policy, v.ports) at covered)
      ]

  -- When the transport dials the address that the request names: a plain HTTP request to a target
  -- opens a connection only if the target is permitted, the host's name by an opened port and any
  -- other by the policy; and each connection may be opened for that target.
  pub handle_http-covered :
      (s : Server) (r : HttpRequest) (t : Target)
      → parse_target net r.url_host (default_port_for_scheme r.scheme) ≡ ok t
      → parse_target net (w.transport_addr r.scheme r.url_host) (pos 80) ≡ ok t
      → s.dialled ≡ []
      → is_covered s.engine.policy s.host_ports t (handle_http net w s r).1.dialled ≡ true
  unfolding handle_http
  handle_http-covered s r t named e none_yet =
      elim (Bool-cases (not r.is_absolute || is_empty r.url_host)) [
        | inl b ↦ rw (b, none_yet) refl
        | inr b ↦ rw (b, named) (handle_target-covered s r t e none_yet)
      ]
