-- ===== src/Network/Forward/Quota.antt =====
-- The operational log of the host's stack, over any sequence of frames and connections.
use boks.Prelude.{
  ℕ, suc, ◌+◌, ◌≤◌, ◌≡◌, ◌∙◌, inl, inr, Bool, true, false, not, ◌&&◌, ◌||◌, Option, none, some,
  List, [], ◌∷◌, ◌++◌, arith, Bool-cases, Option-cases, length, any, length-append,
}
use boks.Strings.{Text, codes, text_eq, is_empty}
use boks.Netip.{Addr, unmap, prefix_contains, is_link_local, Netip}
use boks.Policy.Target.{Target, target_from_addr}
use boks.Policy.Engine.{Engine}
use boks.Network.Stack.{Bytes, EtherType, Headers, DropReason, classify}
use boks.Network.Forward.{
  HostStack, is_noticed, is_full, mention, note_drop, refuse_flow, note_dropped_flow,
  note_link_drop, Fate, reset, unreachable, lost, carried, judge_by, judge, note_lost, dial_out,
  judge_and_dial, forward_to, forward_tcp, deliver,
}

-- One more line for a connection that was lost on the guest's side.
abbrev pub and_lost : Fate → ℕ → ℕ
and_lost reset n = n
and_lost (unreachable a port) n = n
and_lost (lost a port) n = suc n
and_lost (carried a port) n = n

-- One frame, or one connection, of the guest, with any answer of the parameters; `n` connections were
-- lost on the guest's side before it, and `n'` with it.
pub data Step (net : Netip) (n : ℕ) (h : HostStack) (n' : ℕ) (h' : HostStack) : Type 0 where
  frame :
      (now : ℕ) (ip : Headers) (gateway : Addr) (kind : EtherType) (pkt : Bytes)
      → n' ≡ n
      → h' ≡ (deliver net h now ip gateway kind pkt).1
      → Step net n h n' h'
  connection :
      (now : ℕ) (dst : Option Addr) (port : ℕ) (dial : Addr → ℕ → Option Text)
      (endpoint : Option Text)
      → n' ≡ and_lost (forward_tcp net h now dst port dial endpoint).0 n
      → h' ≡ (forward_tcp net h now dst port dial endpoint).1
      → Step net n h n' h'

-- Any number of steps.
pub data Reach (net : Netip) (n : ℕ) (h : HostStack) : ℕ → HostStack → Type 0 where
  here : Reach net n h n h
  next :
      {n' n'' : ℕ} {h' h'' : HostStack}
      → Reach net n h n' h'
      → Step net n' h' n'' h''
      → Reach net n h n'' h''

abbrev pub distinct : List Text → Bool
distinct [] = true
distinct (s ∷ ss) = not (any (text_eq s) ss) && distinct ss

-- A line for each destination that was mentioned, each once and at most 64 of them, and one for each of
-- `n` connections that were lost on the guest's side.
pub record IsBounded (n : ℕ) (h : HostStack) : Type 0 where
  pub each_line : length h.lines ≡ length h.noticed + n
  pub capped : length h.noticed ≤ 64
  pub once : distinct h.noticed ≡ true

module _ (n : ℕ) where
  mention-IsBounded :
      (h : HostStack) (what : Text)
      → (is_noticed h what || is_full h) ≡ false
      → IsBounded n h
      → IsBounded n (mention h what)
  mention-IsBounded h what k v = record {
    each_line =
        omega
          (arith, length-append h.lines ((codes "network: dropped " ++ what) ∷ []), v.each_line);
    capped = ground (arith, v.capped);
    once = ground (arith, v.once);
  }

  note_drop-IsBounded :
      (h : HostStack) (what : Text) → IsBounded n h → IsBounded n (note_drop h what)
  unfolding note_drop
  note_drop-IsBounded h what v = elim (Bool-cases (is_noticed h what || is_full h)) [
    | inl e ↦ rw e v
    | inr e ↦ rw e (mention-IsBounded h what e v)
  ]

  with_engine-IsBounded :
      (h : HostStack) (e : Option Engine) → IsBounded n h → IsBounded n (record h { engine = e })
  with_engine-IsBounded h e v = record { each_line = v.each_line; capped = v.capped; once = v.once }

  note_dropped_flow-IsBounded :
      (h : HostStack) (now : ℕ) (t : Target) (reason operational : Text)
      → IsBounded n h
      → IsBounded n (note_dropped_flow h now t reason operational)
  unfolding note_dropped_flow
  note_dropped_flow-IsBounded h now t reason operational v =
      elim (Bool-cases (is_noticed h operational || is_full h)) [
        | inl e ↦ rw e v
        | inr e ↦ rw e (
            with_engine-IsBounded (mention h operational) (refuse_flow h.engine now t reason)
              (mention-IsBounded h operational e v))
      ]

  note_link_drop-IsBounded :
      (h : HostStack) (now : ℕ) (why : DropReason)
      → IsBounded n h
      → IsBounded n (note_link_drop h now why)
  unfolding note_link_drop
  note_link_drop-IsBounded h now why v = elim (Option-cases why.refused) [
    | inl e ↦ rw e (note_drop-IsBounded h why.operational v)
    | inr ((reason, t), e) ↦ rw e (note_dropped_flow-IsBounded h now t reason why.operational v)
  ]

  module _ (net : Netip) where
    note_lost-IsBounded :
        (h : HostStack) (t : Target) (why : Text)
        → IsBounded n h
        → IsBounded (suc n) (note_lost net h t why)
    note_lost-IsBounded h t why v = record {
      each_line = length-append h.lines _ ∙ omega (arith, v.each_line);
      capped = v.capped;
      once = v.once;
    }

    deliver-IsBounded :
        (h : HostStack) (now : ℕ) (ip : Headers) (gateway : Addr) (kind : EtherType) (pkt : Bytes)
        → IsBounded n h
        → IsBounded n (deliver net h now ip gateway kind pkt).1
    unfolding deliver
    deliver-IsBounded h now ip gateway kind pkt v =
        elim (Option-cases (classify net ip gateway kind pkt)) [
          | inl e ↦ rw (deliver, e) v
          | inr (why, e) ↦ elim (Bool-cases (is_empty why.operational)) [
            | inl e' ↦ rw (deliver, e, e') v
            | inr e' ↦ rw (deliver, e, e') (note_link_drop-IsBounded h now why v)
          ]
        ]

    judge_by-IsBounded :
        (h : HostStack) (now : ℕ) (t : Target) (x : Option Engine)
        → IsBounded n h
        → IsBounded n (judge_by net h now t x).1
    unfolding judge_by
    judge_by-IsBounded h now t none v = note_drop-IsBounded h _ v
    judge_by-IsBounded h now t (some e) v = with_engine-IsBounded h _ v

    judge-IsBounded :
        (h : HostStack) (now : ℕ) (t : Target) → IsBounded n h → IsBounded n (judge net h now t).1
    unfolding judge
    judge-IsBounded h now t v = judge_by-IsBounded h now t h.engine v

    module _ (dial : Addr → ℕ → Option Text) (endpoint : Option Text) where
      dial_out-IsBounded :
          (h : HostStack) (dst : Addr) (port : ℕ) (t : Target)
          → IsBounded n h
          → IsBounded
              (and_lost (dial_out net h dst port t dial endpoint).0 n)
              (dial_out net h dst port t dial endpoint).1
      unfolding dial_out
      dial_out-IsBounded h dst port t v = elim (Option-cases (dial dst port)) [
        | inl e ↦ elim (Option-cases endpoint) [
          | inl e' ↦ rw (dial_out, e, e') v
          | inr (why, e') ↦ rw (dial_out, e, e') (note_lost-IsBounded h t why v)
        ]
        | inr (why, e) ↦ rw (dial_out, e) (note_drop-IsBounded h _ v)
      ]

      judge_and_dial-IsBounded :
          (h : HostStack) (now : ℕ) (dst : Addr) (port : ℕ) (t : Target)
          → IsBounded n h
          → IsBounded
              (and_lost (judge_and_dial net h now dst port t dial endpoint).0 n)
              (judge_and_dial net h now dst port t dial endpoint).1
      unfolding judge_and_dial
      judge_and_dial-IsBounded h now dst port t v =
          let w = judge-IsBounded h now t v in
          elim (Bool-cases (judge net h now t).0) [
            | inl e ↦ rw e (dial_out-IsBounded (judge net h now t).1 dst port t w)
            | inr e ↦ rw e w
          ]

      forward_to-IsBounded :
          (h : HostStack) (now : ℕ) (dst : Addr) (port : ℕ)
          → IsBounded n h
          → IsBounded
              (and_lost (forward_to net h now dst port dial endpoint).0 n)
              (forward_to net h now dst port dial endpoint).1
      unfolding forward_to
      forward_to-IsBounded h now dst port v = elim (Bool-cases (prefix_contains h.subnet dst)) [
        | inl e ↦ rw e (note_drop-IsBounded h _ v)
        | inr e ↦ elim (Bool-cases (not h.metadata_access && is_link_local dst)) [
          | inl e' ↦ rw (e, e') (note_drop-IsBounded h _ v)
          | inr e' ↦
              rw (e, e') (judge_and_dial-IsBounded h now dst port (target_from_addr net dst port) v)
        ]
      ]

      forward_tcp-IsBounded :
          (h : HostStack) (now : ℕ) (dst : Option Addr) (port : ℕ)
          → IsBounded n h
          → IsBounded
              (and_lost (forward_tcp net h now dst port dial endpoint).0 n)
              (forward_tcp net h now dst port dial endpoint).1
      unfolding forward_tcp
      forward_tcp-IsBounded h now none port v = v
      forward_tcp-IsBounded h now (some dst) port v = forward_to-IsBounded h now (unmap dst) port v

module _ (net : Netip) where
  Step-IsBounded :
      {n n' : ℕ} {h h' : HostStack} → Step net n h n' h' → IsBounded n h → IsBounded n' h'
  Step-IsBounded {n} {n'} {h} (frame now ip gateway kind pkt k e) v =
      rw (k, e) (deliver-IsBounded n net h now ip gateway kind pkt v)
  Step-IsBounded {n} {n'} {h} (connection now dst port dial endpoint k e) v =
      rw (k, e) (forward_tcp-IsBounded n net dial endpoint h now dst port v)

  -- From a stack with a bounded log, such as a new one, any frames and connections of the guest, in any
  -- number and order, lead to a log that has one line for each of at most 64 destinations, each
  -- mentioned once, and one line for each connection that was lost on the guest's side.
  pub Reach-IsBounded :
      {n : ℕ} {h : HostStack} {n' : ℕ} {h' : HostStack}
      → Reach net n h n' h'
      → IsBounded n h
      → IsBounded n' h'
  Reach-IsBounded here v = v
  Reach-IsBounded (next r s) v = Step-IsBounded s (Reach-IsBounded r v)
