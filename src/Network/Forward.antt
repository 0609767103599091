-- ===== src/Network/Forward.antt =====
-- internal/network/stack.go: the host's stack, its two logs, and the TCP connections it forwards.
pub mod Boundary
pub mod Quota
pub mod Delivery
use boks.Prelude.{
  ℕ, Bool, true, false, not, ◌&&◌, ◌||◌, Option, none, some, List, [], ◌∷◌, ◌++◌, leb,
  if◌then◌else◌, length, any,
}
use boks.Strings.{Text, codes, text_eq, is_empty}
use boks.Strings.Decimal.{itoa}
use boks.Netip.{Addr, Prefix, unmap, prefix_contains, is_link_local, Netip}
use boks.Policy.Target.{Target, target_from_addr, target_text}
use boks.Policy.Log.{network_stage, transparent_mode}
use boks.Policy.Engine.{Engine, check_mode, note_refused}
use boks.Network.Stack.{Bytes, EtherType, Headers, DropReason, classify}

-- `hostStack`: `noticed` are the destinations that were mentioned, `lines` the operational log.
pub record HostStack : Type 0 where
  pub engine : Option Engine
  pub subnet : Prefix
  pub metadata_access : Bool
  pub closed : Bool
  pub noticed : List Text
  pub lines : List Text

abbrev pub max_noticed_destinations : ℕ
max_noticed_destinations = 64

abbrev pub is_noticed : HostStack → Text → Bool
is_noticed h what = any (text_eq what) h.noticed

abbrev pub is_full : HostStack → Bool
is_full h = leb max_noticed_destinations (length h.noticed)

-- The mention of a destination, in the operational log, by both functions below.
abbrev pub mention : HostStack → Text → HostStack
mention h what = record h {
  noticed = what ∷ h.noticed;
  lines = h.lines ++ (codes "network: dropped " ++ what) ∷ [];
}

-- `hostStack.noteDrop`
unfoldable pub note_drop : HostStack → Text → HostStack
note_drop h what = if is_noticed h what || is_full h then h else mention h what

-- `if h.engine != nil { h.engine.NoteRefused(...) }`
unfoldable pub refuse_flow : Option Engine → ℕ → Target → Text → Option Engine
refuse_flow none now t reason = none
refuse_flow (some e) now t reason =
    some ((note_refused e now network_stage t transparent_mode reason).1)

-- `hostStack.noteDroppedFlow`
unfoldable pub note_dropped_flow : HostStack → ℕ → Target → Text → Text → HostStack
unfolding refuse_flow
note_dropped_flow h now t reason operational =
    if is_noticed h operational || is_full h
    then h
    else record (mention h operational) { engine = refuse_flow h.engine now t reason }

-- `hostStack.noteLinkDrop`
unfoldable pub note_link_drop : HostStack → ℕ → DropReason → HostStack
unfolding note_drop note_dropped_flow
note_link_drop h now why = elim why.refused [
  | none ↦ note_drop h why.operational
  | some (reason, t) ↦ note_dropped_flow h now t reason why.operational
]

-- What became of a connection: refused before any dial, dialled in vain, dialled but lost on the
-- guest's side, or carried.
pub data Fate : Type 0 where
  reset : Fate
  unreachable lost carried : Addr → ℕ → Fate

module _ (net : Netip) where
  unfoldable pub judge_by : HostStack → ℕ → Target → Option Engine → Bool × HostStack
  unfolding note_drop
  judge_by h now t none = (
    false,
    note_drop h
        (codes "tcp to " ++ target_text t ++ codes " with no policy attached to this stack"),
  )
  judge_by h now t (some e) =
      let (d, e') = check_mode e now network_stage t transparent_mode in
      (d.allowed, record h { engine = some e' })

  -- `hostStack.judge`
  unfoldable pub judge : HostStack → ℕ → Target → Bool × HostStack
  unfolding judge_by
  judge h now t = judge_by h now t h.engine

  -- The line of a connection whose guest's side could not be made; it is not counted or capped.
  abbrev pub note_lost : HostStack → Target → Text → HostStack
  note_lost h t why = record h {
    lines =
        h.lines
        ++ (codes "network: accepting the guest's connection to "
            ++ target_text t
            ++ codes ": "
            ++ why)
          ∷ [];
  }

  -- The end of `forwardTCP`, once the policy has permitted the flow: the answer of the dial is an
  -- error text, or none; the same of the guest's side, which is made then.
  unfoldable pub dial_out :
      HostStack → Addr → ℕ → Target → (Addr → ℕ → Option Text) → Option Text → Fate × HostStack
  unfolding note_drop
  dial_out h dst port t dial endpoint = elim (dial dst port) [
    | some why ↦
        (unreachable dst port, note_drop h (codes "tcp to " ++ target_text t ++ codes ": " ++ why))
    | none ↦ elim endpoint [
      | none ↦ (carried dst port, h)
      | some why ↦ (lost dst port, note_lost h t why)
    ]
  ]

  unfoldable pub judge_and_dial :
      HostStack → ℕ → Addr → ℕ → Target → (Addr → ℕ → Option Text) → Option Text → Fate × HostStack
  unfolding judge dial_out
  judge_and_dial h now dst port t dial endpoint =
      let (allowed, h') = judge h now t in
      if allowed then dial_out h' dst port t dial endpoint else (reset, h')

  unfoldable pub forward_to :
      HostStack → ℕ → Addr → ℕ → (Addr → ℕ → Option Text) → Option Text → Fate × HostStack
  unfolding note_drop judge_and_dial
  forward_to h now dst port dial endpoint =
      let at = net.addr_text dst ++ b':' ∷ itoa port in
      if prefix_contains h.subnet dst
      then (
        reset,
        note_drop h (
            codes "tcp to "
            ++ at
            ++ codes " inside the sandbox's own network, where nothing answers"),
      )
      else if not h.metadata_access && is_link_local dst
      then (
        reset,
        note_drop h (
            codes "tcp to link-local "
            ++ at
            ++ codes ", which includes the instance metadata endpoint"),
      )
      else judge_and_dial h now dst port (target_from_addr net dst port) dial endpoint

  -- `hostStack.forwardTCP`, of the address that the segment was addressed to
  unfoldable pub forward_tcp :
      HostStack → ℕ → Option Addr → ℕ → (Addr → ℕ → Option Text) → Option Text → Fate × HostStack
  unfolding forward_to
  forward_tcp h now none port dial endpoint = (reset, h)
  forward_tcp h now (some dst) port dial endpoint = forward_to h now (unmap dst) port dial endpoint

  -- `filteredLink.DeliverNetworkPacket`: whether the stack sees the frame
  unfoldable pub deliver : HostStack → ℕ → Headers → Addr → EtherType → Bytes → Bool × HostStack
  unfolding note_link_drop classify
  deliver h now ip gateway kind pkt = elim (classify net ip gateway kind pkt) [
    | none ↦ (true, h)
    | some why ↦ (false, if is_empty why.operational then h else note_link_drop h now why)
  ]
