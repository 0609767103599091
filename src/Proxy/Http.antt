-- ===== src/Proxy/Http.antt =====
-- internal/proxy/proxy.go: `handleHTTP`, a plain HTTP request through the proxy.
pub mod Permission
use boks.Prelude.{Bool, true, false, not, ◌&&◌, ◌||◌, none, some, if◌then◌else◌, err, ok}
use boks.Strings.{Text, codes, is_empty, equal_fold}
use boks.Strings.Decimal.{ℤ, pos}
use boks.Netip.{Netip}
use boks.Policy.Target.{Target, parse_target}
use boks.Policy.Log.{http_stage, forward_mode, Decision}
use boks.Proxy.Server.{Server, World, is_host, check_in, host_decision}
use boks.Proxy.Dial.{Dialled, connected, dial}

-- The parts of a request that decide; `idle` is whether the transport has a connection for it, and
-- `answers` whether the origin's answer comes.
pub record HttpRequest : Type 0 where
  pub is_absolute : Bool
  pub url_host : Text
  pub scheme : Text
  pub idle : Bool
  pub answers : Bool

pub data HttpReply : Type 0 where
  bad_request injection_failed bad_gateway relayed : HttpReply
  denied_reply : Decision → HttpReply

-- `defaultPortForScheme`
unfoldable pub default_port_for_scheme : Text → ℤ
default_port_for_scheme scheme = if equal_fold scheme (codes "https") then pos 443 else pos 80

abbrev pub is_connected : Dialled → Bool
is_connected (connected a) = true
is_connected _ = false

module _ (net : Netip) (w : World) where
  -- `http.Transport.DialContext`, as `New` sets it
  unfoldable pub transport_dial : Server → Text → Bool × Server
  unfolding dial
  transport_dial s addr = elim (parse_target net addr (pos 80)) [
    | err e ↦ (false, s)
    | ok t ↦ let (d, s') = dial net w s t forward_mode in (is_connected d, s')
  ]

  -- `transport.RoundTrip`: on an idle connection, or on a new one
  unfoldable pub round_trip : Server → HttpRequest → Bool × Server
  unfolding transport_dial
  round_trip s r =
      if r.idle
      then (r.answers, s)
      else (let (reached, s') = transport_dial s (w.transport_addr r.scheme r.url_host) in
          (reached && r.answers, s'))

  unfoldable pub http_decision : Server → Target → Decision × Server
  unfolding is_host host_decision check_in
  http_decision s t =
      if is_host t
      then host_decision s w.now http_stage t
      else check_in s w.now http_stage t forward_mode

  -- The part of `handleHTTP` after the decision.
  unfoldable pub forward_http : Server → HttpRequest → Target → HttpReply × Server
  unfolding round_trip
  forward_http s r t = elim (w.apply t) [
    | some why ↦ (injection_failed, s)
    | none ↦ let (answered, s') = round_trip s r in (if answered then relayed else bad_gateway, s')
  ]

  unfoldable pub handle_target : Server → HttpRequest → Target → HttpReply × Server
  unfolding http_decision forward_http
  handle_target s r t =
      let (d, s') = http_decision s t in
      if d.allowed then forward_http s' r t else (denied_reply d, s')

  -- `Server.handleHTTP`
  unfoldable pub handle_http : Server → HttpRequest → HttpReply × Server
  unfolding handle_target
  handle_http s r =
      if not r.is_absolute || is_empty r.url_host
      then (bad_request, s)
      else elim (parse_target net r.url_host (default_port_for_scheme r.scheme)) [
        | err e ↦ (bad_request, s)
        | ok t ↦ handle_target s r t
      ]
