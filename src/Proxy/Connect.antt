-- ===== src/Proxy/Connect.antt =====
-- internal/proxy/proxy.go: `handleConnect` and `readClientHello`, with `handleHostTunnel` of host.go
-- and `shouldInspect` of inspect.go. What the client does is a record of its acts.
pub mod Chunks
pub mod Carrying
use boks.Prelude.{
  ℕ, Bool, true, false, not, ◌&&◌, ◌||◌, Option, none, some, List, [], ◌∷◌, ◌++◌, leb, ◌==◌,
  if◌then◌else◌, length, has_any, err, ok,
}
use boks.Strings.{Text, codes, equal_fold}
use boks.Strings.Decimal.{pos}
use boks.Netip.{Netip}
use boks.Policy.Target.{Target, new_target, parse_target, target_text}
use boks.Policy.Log.{
  http_stage, connect_stage, sni_stage, Mode, forward_mode, forward_bypass, Decision,
}
use boks.Proxy.Sni.{
  Bytes, name, need_more, no_client_hello, no_sni, out_of_fuel, max_client_hello, extract_sni,
}
use boks.Proxy.Server.{Server, World, is_host, check_in, refuse_in, note_in, host_decision}
use boks.Proxy.Dial.{Dialled, connected, refused, unreachable, dial}
use boks.Proxy.Http.{round_trip}

-- How the client's bytes end: a timeout or the end of the stream, or another error.
pub data ReadEnd : Type 0 where
  quiet broken : ReadEnd

abbrev pub at_end : ReadEnd → Bytes → Option (Bytes × Bytes)
at_end quiet head = some (head, [])
at_end broken head = none

-- `readClientHello` of what the reads give: the bytes consumed and the server name, which is empty
-- where there is none; `none` where it returns an error.
unfoldable pub read_client_hello : List Bytes → ReadEnd → Bytes → Option (Bytes × Bytes)
read_client_hello [] end head =
    if leb max_client_hello (length head) then some (head, []) else at_end end head
read_client_hello (c ∷ cs) end head =
    if leb max_client_hello (length head) then some (head, []) else elim (extract_sni (head ++ c)) [
      | name host ↦ some (head ++ c, host)
      | need_more ↦ read_client_hello cs end (head ++ c)
      | no_client_hello ↦ some (head ++ c, [])
      | no_sni ↦ some (head ++ c, [])
      | out_of_fuel ↦ some (head ++ c, [])
    ]

-- A request inside a tunnel to the host: whether the transport has a connection for it, whether the
-- service answers, and whether either side ends the tunnel with it.
pub record HostRequest : Type 0 where
  pub idle : Bool
  pub answers : Bool
  pub closes : Bool

pub record Client : Type 0 where
  pub hijackable : Bool
  pub hijacks : Bool
  pub accepts : Bool
  pub chunks : List Bytes
  pub end : ReadEnd
  pub forwards : Bool
  pub first : Option ℕ
  pub requests : List HostRequest

-- What became of a CONNECT.
pub data Tunnel : Type 0 where
  bad_target no_tunnel closed dropped host_served inspected spliced : Tunnel
  denied_tunnel : Decision → Tunnel
  unreachable_tunnel : Text → Tunnel

-- `looksLikeTLS`
unfoldable pub looks_like_tls : Bytes → Bool
looks_like_tls [] = false
looks_like_tls (b ∷ head) = b == 0x16

-- `Server.shouldInspect`
unfoldable pub should_inspect : World → Server → Target → Bool
should_inspect w s t = s.has_ca && w.handles t

abbrev pub is_forward : Mode → Bool
is_forward forward_mode = true
is_forward _ = false

module _ (net : Netip) (w : World) where
  abbrev pub connect_mode : Server → Target → Mode
  connect_mode s t = if should_inspect w s t then forward_mode else forward_bypass

  -- The round trip of a request inside a tunnel to the host.
  unfoldable pub host_round_trip : Server → Target → HostRequest → Bool × Server
  unfolding round_trip
  host_round_trip s t r = round_trip net w s (record {
    is_absolute = true;
    url_host = target_text t;
    scheme = codes "http";
    idle = r.idle;
    answers = r.answers;
  })

  -- `Server.serveHostRequests`
  unfoldable pub serve_host_requests : Target → List HostRequest → Server → Server
  unfolding host_decision host_round_trip
  serve_host_requests t [] s = s
  serve_host_requests t (r ∷ rs) s =
      let (d, s1) = host_decision s w.now http_stage t in
      if not d.allowed then s1 else elim (w.apply t) [
        | some why ↦ s1
        | none ↦
            let (answered, s2) = host_round_trip s1 t r in
            let rest = serve_host_requests t rs s2 in if not answered || r.closes then s2 else rest
      ]

  abbrev tls_refused : Text
  tls_refused =
      codes
        "TLS inside a tunnel to the host; the host is reachable as plain HTTP only, which the proxy can read"

  unfoldable pub read_host_tunnel : Target → Client → Server → Tunnel × Server
  unfolding serve_host_requests refuse_in
  read_host_tunnel t c s = elim c.first [
    | none ↦ (closed, s)
    | some b ↦
        if b == 0x16
        then (dropped, (refuse_in s w.now connect_stage t forward_bypass tls_refused).1)
        else (host_served, serve_host_requests t c.requests s)
  ]

  -- `Server.handleHostTunnel`
  unfoldable pub handle_host_tunnel : Target → Client → Server → Tunnel × Server
  unfolding host_decision read_host_tunnel
  handle_host_tunnel t c s =
      let (d, s') = host_decision s w.now connect_stage t in
      if not d.allowed
      then (denied_tunnel d, s')
      else if not c.hijackable
      then (no_tunnel, s')
      else if not c.hijacks || not c.accepts
      then (closed, s')
      else read_host_tunnel t c s'

  -- The end of `handleConnect`: the flow is inspected, or its bytes are carried blind.
  unfoldable pub carry : Target → Mode → Bytes → Bool → Client → Server → Tunnel × Server
  unfolding looks_like_tls note_in
  carry t mode head matches c s =
      let blind = if not (has_any head) || c.forwards then spliced else closed in
      if is_forward mode
      then (if matches && looks_like_tls head then (inspected, s) else (
        blind,
        (note_in s w.now connect_stage t forward_bypass (
            codes
              "marked for inspection, but the tunnel is not TLS for this name; carried blind and no credential attached")).1,
      ))
      else (blind, s)

  abbrev pub name_matches : Target → Bytes → Bool
  name_matches t sni = not (has_any sni) || equal_fold (w.runes sni) t.host

  -- The check of a server name that is not the target's.
  unfoldable pub check_name : Target → Mode → Bytes → Bytes → Client → Server → Tunnel × Server
  unfolding check_in carry
  check_name t mode head sni c s = elim (new_target net (w.runes sni) (pos t.port)) [
    | err e ↦ (closed, s)
    | ok other ↦
        let (d, s') = check_in s w.now sni_stage other mode in
        if d.allowed then carry t mode head false c s' else (dropped, s')
  ]

  unfoldable pub after_hello :
      Target → Mode → Option (Bytes × Bytes) → Client → Server → Tunnel × Server
  unfolding check_name carry
  after_hello t mode none c s = (closed, s)
  after_hello t mode (some (head, sni)) c s =
      if name_matches t sni then carry t mode head true c s else check_name t mode head sni c s

  unfoldable pub after_dial : Target → Mode → Dialled → Client → Server → Tunnel × Server
  unfolding after_hello read_client_hello
  after_dial t mode (refused d) c s = (denied_tunnel d, s)
  after_dial t mode (unreachable why) c s = (unreachable_tunnel why, s)
  after_dial t mode (connected a) c s =
      if not c.hijackable
      then (no_tunnel, s)
      else if not c.hijacks || not c.accepts
      then (closed, s)
      else after_hello t mode (read_client_hello c.chunks c.end []) c s

  abbrev blind_note : Text
  blind_note =
      codes
        "a credential rule names this host, but no certificate authority is configured, so the flow is carried blind and nothing is injected"

  -- The note of a credential rule that cannot fire.
  abbrev pub noted_blind : Target → Mode → Server → Server
  noted_blind t mode s =
      if not (is_forward mode) && w.handles t
      then (note_in s w.now connect_stage t forward_bypass blind_note).1
      else s

  unfoldable pub connect_target : Target → Client → Server → Tunnel × Server
  unfolding should_inspect check_in note_in dial after_dial
  connect_target t c s =
      let mode = connect_mode s t in
      let (d, s1) = check_in s w.now connect_stage t mode in
      if not d.allowed
      then (denied_tunnel d, s1)
      else (let (x, s2) = dial net w (noted_blind t mode s1) t mode in after_dial t mode x c s2)

  -- `Server.handleConnect`
  unfoldable pub handle_connect : Text → Client → Server → Tunnel × Server
  unfolding connect_target handle_host_tunnel is_host
  handle_connect host c s = elim (parse_target net host (pos 443)) [
    | err e ↦ (bad_target, s)
    | ok t ↦ if is_host t then handle_host_tunnel t c s else connect_target t c s
  ]
