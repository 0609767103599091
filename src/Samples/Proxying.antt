-- ===== src/Samples/Proxying.antt =====
-- A proxy whose policy allows everything, and a name with one address.
use boks.Prelude.{◌≡◌, refl, ap, true, false, none, some, List, [], ◌∷◌, arith, all, ok}
use boks.Strings.{
  codes, text_eq, trim_space, to_lower, equal_fold, byte_length, cut_prefix, has_prefix, has_suffix,
  count, split,
}
use boks.Strings.Decimal.{pos}
use boks.Netip.{v4, without_zone, unmap}
use boks.Policy.Target.{Target, is_ip, unbracketed, parse_target}
use boks.Policy.Evaluate.{first_match, evaluate, evaluate_deny}
use boks.Policy.Log.{forward_mode}
use boks.Policy.Engine.{check_mode, check_resolved}
use boks.Proxy.Sni.{Bytes, extract_sni}
use boks.Proxy.Server.{Server, World}
use boks.Proxy.Dial.{connected, candidate_check, dial}
use boks.Proxy.Dial.Boundary.{may_dial, dial-allowed}
use boks.Proxy.Http.{HttpRequest, default_port_for_scheme, handle_http}
use boks.Proxy.Http.Permission.{is_covered, handle_http-covered}
use boks.Proxy.Connect.{quiet, read_client_hello, Client, spliced, connect_target}
use boks.Proxy.Connect.Chunks.{joined, name_in, found_name, read_client_hello-joined}
use boks.Proxy.Connect.Carrying.{is_carried, is_named_for, connect_target-carried}
use boks.Samples.Addresses.{table}
use boks.Samples.Networking.{open_policy, open_engine}

abbrev proxy : Server
proxy = record { engine = open_engine; host_ports = []; has_ca = false; dialled = [] }

abbrev world : World
world = record {
  now = 7;
  resolver = λ host. ok (v4 2130706433 ∷ []);
  dial_addr = λ a p. none;
  handles = λ t. false;
  apply = λ t. none;
  transport_addr = λ scheme host. host;
  runes = λ bytes. bytes;
}

abbrev site : Target
site = record { host = codes "a.org"; addr = none; port = 443 }

dial-connects : (dial table world proxy site forward_mode).0 ≡ connected (v4 2130706433)
unfolding dial is_ip equal_fold has_suffix candidate_check check_resolved evaluate_deny first_match
    without_zone unmap
dial-connects = refl

dial-allowed_example :
    (all (may_dial table open_policy [] site) (dial table world proxy site forward_mode).1.dialled
      ≡ true)
    × ((dial table world proxy site forward_mode).1.engine.policy ≡ open_policy)
    × ((dial table world proxy site forward_mode).1.host_ports ≡ [])
dial-allowed_example = dial-allowed table world site forward_mode proxy refl

abbrev web : Target
web = record { host = codes "a.org"; addr = none; port = 80 }

abbrev request : HttpRequest
request = record {
  is_absolute = true;
  url_host = codes "a.org";
  scheme = codes "http";
  idle = false;
  answers = true;
}

names-web : parse_target table (codes "a.org") (pos 80) ≡ ok web
unfolding parse_target trim_space cut_prefix unbracketed count has_prefix text_eq to_lower
    has_suffix byte_length split
names-web = refl

default-web : parse_target table (codes "a.org") (default_port_for_scheme (codes "http")) ≡ ok web
unfolding parse_target default_port_for_scheme trim_space cut_prefix unbracketed count equal_fold
    has_prefix to_lower has_suffix byte_length split
default-web = refl

handle_http-covered_example :
    is_covered table world open_policy [] web (handle_http table world proxy request).1.dialled
    ≡ true
handle_http-covered_example =
    handle_http-covered table world proxy request web default-web names-web refl

-- The start of a record, cut in two.
abbrev pieces : List Bytes
pieces = (0x16 ∷ 3 ∷ []) ∷ (1 ∷ 0 ∷ 1 ∷ 2 ∷ []) ∷ []

read_client_hello-joined_example :
    found_name (read_client_hello pieces quiet []) ≡ some (name_in (extract_sni (joined pieces)))
read_client_hello-joined_example = read_client_hello-joined pieces (omega arith)

-- A client that sends no TLS.
abbrev client : Client
client = record {
  hijackable = true;
  hijacks = true;
  accepts = true;
  chunks = (b'G' ∷ b'E' ∷ b'T' ∷ []) ∷ [];
  end = quiet;
  forwards = true;
  first = none;
  requests = [];
}

connect-spliced : (connect_target table world site client proxy).0 ≡ spliced
unfolding connect_target check_mode evaluate first_match is_ip equal_fold has_suffix candidate_check
    check_resolved evaluate_deny extract_sni
connect-spliced = refl

connect_target-carried_example :
    ((evaluate open_policy site).allowed ≡ true)
    × (is_named_for table world open_policy site (read_client_hello client.chunks client.end [])
        ≡ true)
connect_target-carried_example =
    connect_target-carried table world site client proxy (ap is_carried connect-spliced)
