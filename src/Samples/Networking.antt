-- ===== src/Samples/Networking.antt =====
-- A stack whose policy allows everything.
use boks.Prelude.{ℕ, ◌≡◌, refl, true, false, Option, none, some, [], arith, length, replicate}
use boks.Strings.{Text, codes}
use boks.Netip.{Addr, v4, unmap, addr_eq, prefix_contains, is_link_local}
use boks.Policy.Rule.{allow}
use boks.Policy.Evaluate.{Policy, first_match, evaluate}
use boks.Policy.Log.{Decision, Ring}
use boks.Policy.Engine.{Engine, check_mode}
use boks.Network.Stack.{ipv4, udp, Headers}
use boks.Network.Forward.Delivery.{is_carried, deliver-carried}
use boks.Network.Forward.{HostStack, forward_tcp, deliver}
use boks.Network.Forward.Boundary.{dialled, IsPermitted, forward_tcp-IsPermitted}
use boks.Network.Forward.Quota.{connection, here, next, IsBounded, Reach-IsBounded}
use boks.Samples.Addresses.{table}

abbrev pub open_policy : Policy
open_policy = record { name = codes "open"; default = allow; rules = [] }

abbrev pub empty_ring : Ring Decision
empty_ring = record { entries = []; next = 0; full = false }

abbrev pub open_engine : Engine
open_engine = record {
  policy = open_policy;
  log = record { ring = empty_ring; sinks = [] };
  sandbox = codes "demo";
}

abbrev stack : HostStack
stack = record {
  engine = some open_engine;
  subnet = record { addr = v4 167772160; bits = 8 };
  metadata_access = false;
  closed = false;
  noticed = [];
  lines = [];
}

abbrev reachable : Addr → ℕ → Option Text
reachable a p = none

stack-carries :
    dialled (forward_tcp table stack 7 (some (v4 2130706433)) 443 reachable none).0
    ≡ some (v4 2130706433, 443)
unfolding dialled forward_tcp prefix_contains unmap is_link_local check_mode evaluate first_match
stack-carries = refl

forward_tcp-IsPermitted_example :
    (v4 2130706433 ≡ unmap (v4 2130706433))
    × (◌≡◌ {A = ℕ} 443 443)
    × IsPermitted table stack (v4 2130706433) 443
forward_tcp-IsPermitted_example =
    forward_tcp-IsPermitted table reachable none stack 7 (v4 2130706433) 443 (v4 2130706433) 443
      stack-carries

-- A connection to the stack's own subnet, which is mentioned.
abbrev inside : Addr
inside = v4 167772161

abbrev mentioned : HostStack
mentioned = (forward_tcp table stack 7 (some inside) 22 reachable none).1

mentioned-once : length mentioned.lines ≡ 1
unfolding forward_tcp prefix_contains unmap
mentioned-once = refl

Reach-IsBounded_example : IsBounded 0 mentioned
unfolding forward_tcp prefix_contains unmap
Reach-IsBounded_example =
    Reach-IsBounded table {n = 0} {h = stack}
      (next here (connection 7 (some inside) 22 reachable none refl refl))
      (record { each_line = refl; capped = omega arith; once = refl })

-- A DNS query to the gateway.
abbrev headers : Headers
headers = record {
  destination = λ pkt. inside;
  transport = λ pkt. udp;
  fragment_offset = λ pkt. 0;
  header_length = λ pkt. 20;
  udp_port = λ datagram. 53;
}

deliver-carried_example :
    ((deliver table stack 7 headers inside ipv4 (replicate 28 0)).0
      ≡ is_carried headers inside ipv4 (replicate 28 0))
    × (is_carried headers inside ipv4 (replicate 28 0) ≡ true
        → (deliver table stack 7 headers inside ipv4 (replicate 28 0)).1 ≡ stack)
deliver-carried_example = deliver-carried table headers inside stack 7 ipv4 (replicate 28 0)

query-carried : is_carried headers inside ipv4 (replicate 28 0) ≡ true
unfolding is_carried addr_eq unmap
query-carried = refl
