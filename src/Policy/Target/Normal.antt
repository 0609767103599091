-- ===== src/Policy/Target/Normal.antt =====
-- Targets are in normal form: every path that builds one returns it as a second call would.
use mathlib.Core.Path.{subst}
use boks.Prelude.{ℕ, ◌≤◌, ◌≡◌, refl, arith, ok, ok-injective, >>=-eq-ok}
use boks.Strings.{Text}
use boks.Strings.Decimal.{ℤ, pos, negsuc}
use boks.Netip.{Netip, IsNetip}
use boks.Policy.Target.{Target, check_port, normalize_host, new_target}
use boks.Policy.Target.Canonical.{IsHost, normalize_host-IsHost, IsHost-normalize_host}

-- A target in normal form, with a port that TCP has.
pub record IsTarget (net : Netip) (t : Target) : Type 0 where
  pub host_form : IsHost net t.host t.addr
  pub port_low : 1 ≤ t.port
  pub port_high : t.port ≤ 65535

check_port-range : (z : ℤ) {p : ℕ} → check_port z ≡ ok p → (1 ≤ p) × (p ≤ 65535)
unfolding check_port
check_port-range (pos n) h = ground arith
check_port-range (negsuc n) h = cc

check_port-pos : (p : ℕ) → 1 ≤ p → p ≤ 65535 → check_port (pos p) ≡ ok p
unfolding check_port
check_port-pos p l h = ground arith

pub new_target-IsTarget :
    (net : Netip) (host : Text) (port : ℤ) {t : Target}
    → new_target net host port ≡ ok t
    → IsTarget net t
unfolding new_target
new_target-IsTarget net host port h =
    let (p, pe, h1) = >>=-eq-ok (check_port port) _ h in
    let (x, xe, h2) = >>=-eq-ok (normalize_host net host) _ h1 in
    let (low, high) = check_port-range port pe in
    subst (IsTarget net) (ok-injective h2)
      (record { host_form = normalize_host-IsHost net host xe; port_low = low; port_high = high })

IsTarget-new_target :
    (net : Netip)
    → IsNetip net
    → (t : Target) → IsTarget net t
    → new_target net t.host (pos t.port) ≡ ok t
unfolding new_target
IsTarget-new_target net law t v =
    rw (check_port-pos t.port v.port_low v.port_high, IsHost-normalize_host net law v.host_form)
      refl

-- When addresses print as `net/netip` documents: whatever spelling of a destination `NewTarget`
-- accepts, the target that it returns has a port from 1 to 65535, and `NewTarget` of the target's own host and port is that same target.
pub new_target_stable :
    (net : Netip) (host : Text) (port : ℤ) {t : Target}
    → IsNetip net
    → new_target net host port ≡ ok t
    → (new_target net t.host (pos t.port) ≡ ok t) × (1 ≤ t.port) × (t.port ≤ 65535)
new_target_stable net host port {t} law h =
    let v = new_target-IsTarget net host port h in
    (IsTarget-new_target net law t v, v.port_low, v.port_high)
