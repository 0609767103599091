-- ===== src/Proxy/Connect/Carrying.antt =====
-- What must hold of a CONNECT whose bytes are carried or inspected.
use boks.Prelude.{
  ◌≡◌, refl, ◌∙◌, inl, inr, Bool, true, false, not, ◌&&◌, ◌||◌, Option, none, some, [],
  if◌then◌else◌, Bool-cases, Result, err, ok,
}
use boks.Strings.Decimal.{pos}
use boks.Netip.{Netip}
use boks.Policy.Error.{Error}
use boks.Policy.Target.{Target, new_target}
use boks.Policy.Evaluate.{Policy, evaluate}
use boks.Policy.Log.{connect_stage, Mode}
use boks.Policy.Engine.{decision, record_verdict, check_mode, note}
use boks.Proxy.Sni.{Bytes}
use boks.Proxy.Server.{Server, World, check_in, note_in}
use boks.Proxy.Dial.{Dialled, connected, refused, unreachable, dial}
use boks.Proxy.Dial.Boundary.{dial-Dials}
use boks.Proxy.Connect.{
  read_client_hello, Client, Tunnel, no_tunnel, closed, inspected, spliced, denied_tunnel,
  is_forward, connect_mode, name_matches, check_name, after_hello, after_dial, noted_blind,
  connect_target,
}

-- Whether bytes of the client reach the destination, or a forged certificate reaches the client.
abbrev pub is_carried : Tunnel → Bool
is_carried inspected = true
is_carried spliced = true
is_carried _ = false

abbrev pub allows_name : Policy → Result Error Target → Bool
allows_name policy (err e) = false
allows_name policy (ok other) = (evaluate policy other).allowed

is_carried-else :
    (b : Bool) (x : Tunnel) (s : Server) (rest : Tunnel × Server)
    → is_carried x ≡ false
    → is_carried (if b then (x, s) else rest).0 ≡ true
    → is_carried rest.0 ≡ true
is_carried-else true x s rest e h = cc
is_carried-else false x s rest e h = h

module _ (net : Netip) (w : World) where
  -- Whether a server name may stand in a tunnel to a target: absent, the target's own, or one that
  -- the policy allows at the target's port.
  abbrev pub is_named_for : Policy → Target → Option (Bytes × Bytes) → Bool
  is_named_for policy t none = false
  is_named_for policy t (some (head, sni)) =
      name_matches net w t sni || allows_name policy (new_target net (w.runes sni) (pos t.port))

  check_name-named :
      (t : Target) (mode : Mode) (head sni : Bytes) (c : Client) (s : Server)
      (found : Result Error Target)
      → new_target net (w.runes sni) (pos t.port) ≡ found
      → is_carried (check_name net w t mode head sni c s).0 ≡ true
      → allows_name s.engine.policy found ≡ true
  unfolding check_name check_in check_mode record_verdict decision
  check_name-named t mode head sni c s (err e) q h = rw (check_name, q) at h
  check_name-named t mode head sni c s (ok other) q h =
      elim (Bool-cases (evaluate s.engine.policy other).allowed) [
        | inl a ↦ a
        | inr a ↦ let bad : false ≡ true = rw (check_name, q, a) at h in cc
      ]

  after_hello-named :
      (t : Target) (mode : Mode) (x : Option (Bytes × Bytes)) (c : Client) (s : Server)
      → is_carried (after_hello net w t mode x c s).0 ≡ true
      → is_named_for s.engine.policy t x ≡ true
  unfolding after_hello
  after_hello-named t mode none c s h = cc
  after_hello-named t mode (some (head, sni)) c s h = elim (Bool-cases (name_matches net w t sni)) [
    | inl e ↦ rw e refl
    | inr e ↦
        let found = new_target net (w.runes sni) (pos t.port) in
        rw e (check_name-named t mode head sni c s found refl (rw e at h))
  ]

  after_dial-named :
      (t : Target) (mode : Mode) (x : Dialled) (c : Client) (s : Server)
      → is_carried (after_dial net w t mode x c s).0 ≡ true
      → is_named_for s.engine.policy t (read_client_hello c.chunks c.end []) ≡ true
  unfolding after_dial
  after_dial-named t mode (refused d) c s h = cc
  after_dial-named t mode (unreachable why) c s h = cc
  after_dial-named t mode (connected a) c s h =
      let x = read_client_hello c.chunks c.end [] in
      let rest = after_hello net w t mode x c s in
      let past = is_carried-else (not c.hijackable) no_tunnel s _ refl h in
      after_hello-named t mode x c s
        (is_carried-else (not c.hijacks || not c.accepts) closed s rest refl past)

  noted_blind-policy :
      (t : Target) (mode : Mode) (s : Server)
      → (noted_blind net w t mode s).engine.policy ≡ s.engine.policy
  unfolding note_in note record_verdict
  noted_blind-policy t mode s = elim (Bool-cases (not (is_forward mode) && w.handles t)) [
    | inl e ↦ rw e refl
    | inr e ↦ rw e refl
  ]

  -- When the bytes of a CONNECT reach its destination, or its client is shown a certificate of the
  -- proxy, the policy allows the target, and the server name that `readClientHello` finds in what the
  -- client sent is none, the target's own, or one that the policy allows at the target's port.
  pub connect_target-carried :
      (t : Target) (c : Client) (s : Server)
      → is_carried (connect_target net w t c s).0 ≡ true
      → ((evaluate s.engine.policy t).allowed ≡ true)
        × (is_named_for s.engine.policy t (read_client_hello c.chunks c.end []) ≡ true)
  unfolding connect_target check_in check_mode record_verdict decision
  connect_target-carried t c s h = elim (Bool-cases (evaluate s.engine.policy t).allowed) [
    | inr e ↦ let bad : false ≡ true = rw e at h in cc
    | inl e ↦
        let mode = connect_mode net w s t in
        let s1 = (check_in s w.now connect_stage t mode).1 in
        let s2 = noted_blind net w t mode s1 in
        let (x, s3) = dial net w s2 t mode in
        let kept : s3.engine.policy ≡ s.engine.policy =
          (dial-Dials net w t mode s2).policy ∙ noted_blind-policy t mode s1 in
        let d = (check_in s w.now connect_stage t mode).0 in
        let past = is_carried-else (not d.allowed) (denied_tunnel d) s1 _ refl h in
        let named = after_dial-named t mode x c s3 past in (e, rw kept at named)
  ]
