-- ===== src/Network/Forward/Boundary.antt =====
-- What the host's stack lets a guest reach.
use boks.Prelude.{
  ℕ, ◌≡◌, refl, sym, ap, ◌∙◌, inl, inr, true, false, not, ◌&&◌, ◌||◌, Option, none, some, arith,
  Bool-cases,
}
use boks.Strings.{Text}
use boks.Netip.{Addr, unmap, prefix_contains, is_link_local, Netip}
use boks.Policy.Target.{Target, target_from_addr}
use boks.Policy.Evaluate.{evaluate}
use boks.Policy.Engine.{Engine, decision, record_verdict, check_mode}
use boks.Network.Forward.{
  HostStack, Fate, reset, unreachable, lost, carried, judge_by, judge, dial_out, judge_and_dial,
  forward_to, forward_tcp,
}

-- Where the host was made to open a connection.
unfoldable pub dialled : Fate → Option (Addr × ℕ)
dialled reset = none
dialled (unreachable a port) = some (a, port)
dialled (lost a port) = some (a, port)
dialled (carried a port) = some (a, port)

some-value : {A : Type 0} {a b : A} → ◌≡◌ {A = Option A} (some a) (some b) → a ≡ b
some-value h = cc

-- A connection to an address and a port that may be opened for a guest.
pub record IsPermitted (net : Netip) (h : HostStack) (dst : Addr) (port : ℕ) : Type 0 where
  pub engine : Engine
  pub attached : h.engine ≡ some engine
  pub allowed : (evaluate engine.policy (target_from_addr net dst port)).allowed ≡ true
  pub outside : prefix_contains h.subnet dst ≡ false
  pub not_metadata : (h.metadata_access || not (is_link_local dst)) ≡ true

judge_by-allowed :
    (net : Netip) (h : HostStack) (now : ℕ) (t : Target) (x : Option Engine)
    → (judge_by net h now t x).0 ≡ true
    → (e : Engine) × (x ≡ some e) × ((evaluate e.policy t).allowed ≡ true)
unfolding judge_by check_mode record_verdict decision
judge_by-allowed net h now t none k = cc
judge_by-allowed net h now t (some e) k = (e, refl, k)

judge-allowed :
    (net : Netip) (h : HostStack) (now : ℕ) (t : Target)
    → (judge net h now t).0 ≡ true
    → (e : Engine) × (h.engine ≡ some e) × ((evaluate e.policy t).allowed ≡ true)
unfolding judge
judge-allowed net h now t k = judge_by-allowed net h now t h.engine k

module _ (net : Netip) (dial : Addr → ℕ → Option Text) (endpoint : Option Text) where
  dialled-dial_out :
      (h : HostStack) (dst : Addr) (port : ℕ) (t : Target)
      → dialled (dial_out net h dst port t dial endpoint).0 ≡ some (dst, port)
  unfolding dialled dial_out
  dialled-dial_out h dst port t = ground (arith)

  dialled-judge_and_dial :
      (h : HostStack) (now : ℕ) (dst : Addr) (port : ℕ) (t : Target) {x : Addr × ℕ}
      → dialled (judge_and_dial net h now dst port t dial endpoint).0 ≡ some x
      → ((judge net h now t).0 ≡ true) × (x ≡ (dst, port))
  unfolding judge_and_dial dialled
  dialled-judge_and_dial h now dst port t k = elim (Bool-cases (judge net h now t).0) [
    | inr e ↦ cc (rw e at k)
    | inl e ↦ (e, some-value (sym (rw e at k) ∙ dialled-dial_out (judge net h now t).1 dst port t))
  ]

  dialled-forward_to :
      (h : HostStack) (now : ℕ) (dst : Addr) (port : ℕ) {x : Addr × ℕ}
      → dialled (forward_to net h now dst port dial endpoint).0 ≡ some x
      → (x ≡ (dst, port)) × IsPermitted net h dst port
  unfolding forward_to dialled
  dialled-forward_to h now dst port k = elim (Bool-cases (prefix_contains h.subnet dst)) [
    | inl e ↦ cc (rw e at k)
    | inr e ↦ elim (Bool-cases (not h.metadata_access && is_link_local dst)) [
      | inl e' ↦ cc (rw (e, e') at k)
      | inr e' ↦
          let t = target_from_addr net dst port in
          let (allowed, same) = dialled-judge_and_dial h now dst port t (rw (e, e') at k) in
          let (engine, attached, verdict) = judge-allowed net h now t allowed in
          (
            same,
            record {
              engine = engine;
              attached = attached;
              allowed = verdict;
              outside = e;
              not_metadata = ground (arith, e');
            },
          )
    ]
  ]

  -- When the host opens a connection for a guest, it is to the address and the port that the guest
  -- addressed; a policy is attached and allows that target; the address lies outside the sandbox's
  -- own subnet, and it is not link-local, which the metadata endpoint is, unless that is opened.
  pub forward_tcp-IsPermitted :
      (h : HostStack) (now : ℕ) (dst : Addr) (port : ℕ) (a : Addr) (p : ℕ)
      → dialled (forward_tcp net h now (some dst) port dial endpoint).0 ≡ some (a, p)
      → (a ≡ unmap dst) × (p ≡ port) × IsPermitted net h a p
  unfolding forward_tcp
  forward_tcp-IsPermitted h now dst port a p k =
      let (same, v) = dialled-forward_to h now (unmap dst) port k in
      let ea : a ≡ unmap dst = ap (λ x. x.0) same in
      let ep : p ≡ port = ap (λ x. x.1) same in (ea, ep, rw (ea, ep) v)
