-- ===== src/Samples/Publishing.antt =====
-- Publishing a port, a guest path and two versions.
use boks.Prelude.{
  ℕ, ◌≡◌, refl, true, false, Option, none, some, List, [], ◌∷◌, map, ◌==◌, if◌then◌else◌, ok,
}
use boks.Strings.{
  Text, codes, text_eq, text_lt, is_space, trim_space, cut_prefix, contains, split, cut,
}
use boks.Strings.Decimal.{atoi}
use boks.Netip.{Addr}
use boks.Ports.Spec.{tcp, is_udp, family, Spec, loopback_binds, binds, Published}
use boks.Ports.Spec.Loopback.{IsLocal, binds-loopback}
use boks.Ports.Forward.{
  Forwarder, has_key, transport_of, socket_of, published_lt, insert_published, sort_published,
  early_clash, binding, bind_all, commit, publish,
}
use boks.Ports.Forward.Publish.{Publishes, publish-Publishes}
use boks.Update.Version.{
  parse_component, parse_numbers, split_pre, trim_v, parse_version, newer, newer_if_read, is_newer,
}
use boks.Workspace.GuestPath.{is_drive_letter, windows_guest_path}
use boks.Workspace.GuestPath.Drive.{windows_guest_path-components}
use boks.Samples.Addresses.{table}

-- An operating system where every port is free.
abbrev listen_all : Addr → ℕ → Option ℕ
listen_all a port = some (if port == 0 then 40000 else port)

abbrev web_spec : Spec
web_spec = record { host_ip = none; host_port = 0; sandbox_port = 80; protocol = tcp }

binds-loopback_example : IsLocal tcp true (binds web_spec true)
binds-loopback_example = binds-loopback web_spec true refl

abbrev idle : Forwarder
idle = record { has_ipv6 = true; closed = false; entries = []; sockets = []; notified = [] }

abbrev web_on : Text → Published
web_on host = record {
  host_ip = host;
  host_port = 40000;
  sandbox_port = 80;
  protocol = tcp;
  last_error = [];
}

abbrev web_bindings : List Published
web_bindings = web_on (codes "127.0.0.1") ∷ web_on (codes "::1") ∷ []

abbrev serving : Forwarder
serving = record {
  has_ipv6 = true;
  closed = false;
  entries = web_bindings;
  sockets = map socket_of web_bindings;
  notified = web_bindings ∷ [];
}

publishes_web : publish table listen_all idle web_spec ≡ ok (web_bindings, serving)
unfolding publish binds loopback_binds family is_udp bind_all binding commit early_clash
    sort_published insert_published published_lt text_lt text_eq transport_of has_key
publishes_web = refl

publish-Publishes_example :
    (is_udp tcp ≡ false) × Publishes table listen_all idle web_spec web_bindings serving
publish-Publishes_example =
    publish-Publishes table listen_all idle web_spec web_bindings serving publishes_web

old_release : is_newer (codes "v1.2.3") (codes "1.10.0") ≡ true
unfolding is_newer newer_if_read newer parse_version parse_numbers parse_component trim_v split_pre
    trim_space cut_prefix cut split atoi text_eq text_lt is_space
old_release = refl

windows_guest_path-components_example :
    windows_guest_path (codes "C:\\work\\app") ≡ ok (codes "/c/work/app")
unfolding is_drive_letter text_eq contains
windows_guest_path-components_example =
    windows_guest_path-components b'C' (codes "work") (codes "app" ∷ []) refl refl
