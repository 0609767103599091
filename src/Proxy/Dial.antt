-- ===== src/Proxy/Dial.antt =====
-- internal/proxy/proxy.go: `Server.dial`, with `dialHost` of host.go. Each address that a name
-- resolves to is checked against the deny rules before it is dialled.
pub mod Boundary
use boks.Prelude.{ℕ, ◌%◌, Option, none, some, List, [], ◌∷◌, ◌++◌, if◌then◌else◌, Result, err, ok}
use boks.Strings.{Text, codes}
use boks.Strings.Decimal.{itoa}
use boks.Netip.{Addr, v4, without_zone, unmap, Netip}
use boks.Policy.Target.{Target, is_ip, target_from_addr}
use boks.Policy.Evaluate.{denied}
use boks.Policy.Log.{Mode, Decision}
use boks.Policy.Engine.{check_resolved}
use boks.Proxy.Server.{Server, World, is_host, host_port_open, with_engine}

-- What `dial` returns; `refused` is a `deniedError`.
pub data Dialled : Type 0 where
  connected : Addr → Dialled
  refused : Decision → Dialled
  unreachable : Text → Dialled

abbrev pub home : Addr
home = v4 2130706433

-- The error of a loop that found no address.
unfoldable pub none_left : Option Decision → Option Text → Dialled
none_left last_denied (some why) = unreachable why
none_left (some d) none = refused d
none_left none none = unreachable (codes "no usable address")

-- A connection attempt is made.
abbrev pub attempt : Server → Addr → ℕ → Server
attempt s a port = record s { dialled = s.dialled ++ (a, port) ∷ [] }

abbrev pub port16 : Target → ℕ
port16 t = t.port % 65536

module _ (net : Netip) (w : World) where
  -- `Engine.CheckResolved` of a candidate, unless the target is an address, which was judged before
  unfoldable pub candidate_check : Target → Mode → Addr → Server → Option Decision × Server
  candidate_check t mode a s =
      if is_ip t
      then (none, s)
      else (let (d, e) = check_resolved s.engine w.now (target_from_addr net a (port16 t)) mode in
          (if d.allowed then none else some d, with_engine s e))

  -- the loop of `dial`
  unfoldable pub dial_each :
      Target → Mode → List Addr → Option Decision → Option Text → Server → Dialled × Server
  unfolding none_left
  dial_each t mode [] last_denied last_err s = (none_left last_denied last_err, s)
  dial_each t mode (c ∷ cs) last_denied last_err s =
      let a = without_zone (unmap c) in
      let (denied, s') = candidate_check t mode a s in
      elim denied [
        | some d ↦ dial_each t mode cs (some d) last_err s'
        | none ↦ elim (w.dial_addr a (port16 t)) [
          | none ↦ (connected a, attempt s' a (port16 t))
          | some why ↦ dial_each t mode cs last_denied (some why) (attempt s' a (port16 t))
        ]
      ]

  -- `Server.dialHost`
  unfoldable pub dial_host : Server → Target → Dialled × Server
  unfolding host_port_open
  dial_host s t =
      if host_port_open s t.port
      then (elim (w.dial_addr home (port16 t)) [
        | none ↦ (connected home, attempt s home (port16 t))
        | some why ↦ (unreachable why, attempt s home (port16 t))
      ])
      else (
        unreachable
            (codes "port " ++ itoa t.port ++ codes " on the host is not open to this sandbox"),
        s,
      )

  abbrev pub candidates : Text → Option Addr → Result Text (List Addr)
  candidates host (some a) = ok (a ∷ [])
  candidates host none = w.resolver host

  unfoldable pub dial_candidates :
      Server → Target → Mode → Result Text (List Addr) → Dialled × Server
  unfolding dial_each
  dial_candidates s t mode (err why) =
      (unreachable (codes "resolving " ++ t.host ++ codes ": " ++ why), s)
  dial_candidates s t mode (ok []) = (unreachable (t.host ++ codes " has no addresses"), s)
  dial_candidates s t mode (ok (c ∷ cs)) = dial_each t mode (c ∷ cs) none none s

  -- `Server.dial`
  unfoldable pub dial : Server → Target → Mode → Dialled × Server
  unfolding is_host dial_host dial_candidates
  dial s t mode =
      if is_host t then dial_host s t else dial_candidates s t mode (candidates t.host t.addr)
