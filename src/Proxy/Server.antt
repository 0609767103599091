-- ===== src/Proxy/Server.antt =====
-- internal/proxy/proxy.go and host.go: the state of a proxy, and the world that it runs in. One
-- request is handled at one time of the engine's clock.
use boks.Prelude.{ℕ, Bool, not, ◌&&◌, Option, List, ◌++◌, ◌==◌, if◌then◌else◌, any, Result}
use boks.Strings.{Text, codes, equal_fold, has_suffix}
use boks.Strings.Decimal.{itoa}
use boks.Netip.{Addr}
use boks.Policy.Target.{Target, is_ip, drop_last}
use boks.Policy.Log.{Stage, Mode, forward_mode, Decision}
use boks.Policy.Engine.{Engine, check_mode, note, note_refused}

-- `Server` with its `Config`: the engine, the ports of `HostPorts`, whether a certificate authority
-- is configured, and the connections that the host was asked to open.
pub record Server : Type 0 where
  pub engine : Engine
  pub host_ports : List ℕ
  pub has_ca : Bool
  pub dialled : List (Addr × ℕ)

-- What the code calls: `Config.Resolver`, `Config.DialAddr`, `Injector.Handles`, `Injector.Apply`;
-- the address that `http.Transport` dials for a URL's scheme and host; and the code points of a
-- string of bytes.
pub record World : Type 0 where
  pub now : ℕ
  pub resolver : Text → Result Text (List Addr)
  pub dial_addr : Addr → ℕ → Option Text
  pub handles : Target → Bool
  pub apply : Target → Option Text
  pub transport_addr : Text → Text → Text
  pub runes : List ℕ → Text

-- `HostName`
abbrev pub host_name : Text
host_name = codes "host.boks.internal"

-- `strings.TrimSuffix(s, ".")`
abbrev pub trim_dot : Text → Text
trim_dot s = if has_suffix s (codes ".") then drop_last s else s

-- `isHost`
unfoldable pub is_host : Target → Bool
is_host t = not (is_ip t) && equal_fold (trim_dot t.host) host_name

-- `Server.hostPortOpen`
unfoldable pub host_port_open : Server → ℕ → Bool
host_port_open s port = any (λ p. p == port) s.host_ports

abbrev pub with_engine : Server → Engine → Server
with_engine s e = record s { engine = e }

-- `Engine.CheckMode` of the server's engine
unfoldable pub check_in : Server → ℕ → Stage → Target → Mode → Decision × Server
check_in s now stage t m = let (d, e) = check_mode s.engine now stage t m in (d, with_engine s e)

unfoldable pub refuse_in : Server → ℕ → Stage → Target → Mode → Text → Decision × Server
refuse_in s now stage t m reason =
    let (d, e) = note_refused s.engine now stage t m reason in (d, with_engine s e)

unfoldable pub note_in : Server → ℕ → Stage → Target → Mode → Text → Decision × Server
note_in s now stage t m reason =
    let (d, e) = note s.engine now stage t m reason in (d, with_engine s e)

-- `Server.hostDecision`
unfoldable pub host_decision : Server → ℕ → Stage → Target → Decision × Server
unfolding refuse_in note_in host_port_open
host_decision s now stage t =
    let port = itoa t.port in
    if host_port_open s t.port
    then (note_in s now stage t forward_mode (
        codes "host port "
        ++ port
        ++ codes ", opened with --allow-host-port; forwarded to 127.0.0.1:"
        ++ port))
    else (refuse_in s now stage t forward_mode (
        codes "port "
        ++ port
        ++ codes " on the host is not open to this sandbox; start it with --allow-host-port "
        ++ port))
