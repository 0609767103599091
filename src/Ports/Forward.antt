-- ===== src/Ports/Forward.antt =====
-- internal/ports/forward.go: the bindings that exist, and how they are made and removed. The
-- operating system is the function `listen`: whether a host address can be bound at a port, and
-- the port that it got. `sockets` are the host listeners that are open.
pub mod Publish
use boks.Prelude.{
  ℕ, Bool, true, false, not, ◌&&◌, ◌||◌, Option, none, some, List, [], ◌∷◌, ◌++◌, map, ltb, ◌==◌,
  if◌then◌else◌, length, any, keep_if, err, ok,
}
use boks.Strings.{Text, text_eq, text_lt}
use boks.Netip.{Addr, Netip}
use boks.Ports.Spec.{
  udp_not_carried, no_sandbox_port, shut_down, already_published, cannot_bind, not_published,
  Outcome, Protocol, tcp, udp, protocol_text, is_udp, Spec, binds, Published, matches,
}

pub record Socket : Type 0 where
  pub host : Text
  pub port : ℕ

pub record Forwarder : Type 0 where
  pub has_ipv6 : Bool
  pub closed : Bool
  pub entries : List Published
  pub sockets : List Socket
  pub notified : List (List Published)

-- `key`
pub record Key : Type 0 where
  pub host : Text
  pub port : ℕ
  pub sandbox : ℕ
  pub udp_ : Bool

-- `keyOf`
unfoldable pub key_of : Published → Key
unfolding is_udp
key_of p = record {
  host = p.host_ip;
  port = p.host_port;
  sandbox = p.sandbox_port;
  udp_ = is_udp p.protocol;
}

unfoldable pub key_eq : Key → Key → Bool
key_eq a b =
    text_eq a.host b.host
    && a.port == b.port
    && a.sandbox == b.sandbox
    && (if a.udp_ then b.udp_ else not b.udp_)

unfoldable pub has_key : List Published → Key → Bool
unfolding key_of key_eq
has_key entries k = any (λ e. key_eq (key_of e) k) entries

-- `transportOf`
unfoldable pub transport_of : Protocol → Protocol
unfolding is_udp
transport_of p = if is_udp p then udp else tcp

abbrev pub socket_of : Published → Socket
socket_of p = record { host = p.host_ip; port = p.host_port }

-- `sortPublished` orders by these; the text of a protocol comes last.
unfoldable pub published_lt : Published → Published → Bool
unfolding protocol_text
published_lt p q =
    ltb p.host_port q.host_port
    || (p.host_port == q.host_port
        && (text_lt p.host_ip q.host_ip
            || (text_eq p.host_ip q.host_ip
                && text_lt (protocol_text p.protocol) (protocol_text q.protocol))))

unfoldable pub insert_published : Published → List Published → List Published
unfolding published_lt
insert_published p [] = p ∷ []
insert_published p (q ∷ qs) =
    let rest = insert_published p qs in if published_lt q p then q ∷ rest else p ∷ q ∷ qs

unfoldable pub sort_published : List Published → List Published
unfolding insert_published
sort_published [] = []
sort_published (p ∷ ps) = insert_published p (sort_published ps)

module _ (net : Netip) (listen : Addr → ℕ → Option ℕ) where
  -- The first locked part of `Publish`.
  unfoldable pub early_clash : Forwarder → Spec → List Addr → Bool
  unfolding has_key is_udp
  early_clash f spec [] = false
  early_clash f spec (a ∷ addrs) =
      has_key f.entries (record {
        host = net.addr_text a;
        port = spec.host_port;
        sandbox = spec.sandbox_port;
        udp_ = is_udp spec.protocol;
      })
      || early_clash f spec addrs

  unfoldable pub binding : Spec → Addr → ℕ → Published
  unfolding transport_of
  binding spec a port = record {
    host_ip = net.addr_text a;
    host_port = port;
    sandbox_port = spec.sandbox_port;
    protocol = transport_of spec.protocol;
    last_error = [];
  }

  -- The loop that binds: an ephemeral port is allocated once, and kept for the addresses left.
  -- `none` where a bind failed; what was opened before it is closed again.
  unfoldable pub bind_all : Spec → ℕ → List Addr → Option (List Published)
  unfolding binding
  bind_all spec port [] = some []
  bind_all spec port (a ∷ addrs) = elim (listen a port) [
    | none ↦ none
    | some got ↦
        let port' = if port == 0 then got else port in
        elim (bind_all spec port' addrs) [
          | none ↦ none
          | some ps ↦ some (binding spec a port' ∷ ps)
        ]
  ]

  -- The second locked part: either every binding becomes an entry, or none does and the
  -- listeners are closed.
  unfoldable pub commit : Forwarder → List Published → Outcome (List Published × Forwarder)
  unfolding has_key sort_published
  commit f published =
      if f.closed
      then err shut_down
      else if any (λ p. has_key f.entries (key_of p)) published
      then err already_published
      else (let entries = f.entries ++ published in
          ok (
            published,
            record f {
              entries = entries;
              sockets = f.sockets ++ map socket_of published;
              notified = f.notified ++ sort_published entries ∷ [];
            },
          ))

  -- `Forwarder.Publish`, with nothing else between its two locked parts
  unfoldable pub publish : Forwarder → Spec → Outcome (List Published × Forwarder)
  unfolding early_clash bind_all commit
  publish f spec =
      let addrs = binds spec f.has_ipv6 in
      if is_udp spec.protocol
      then err udp_not_carried
      else if spec.sandbox_port == 0
      then err no_sandbox_port
      else if f.closed
      then err shut_down
      else if not (spec.host_port == 0) && early_clash f spec addrs
      then err already_published
      else elim (bind_all spec spec.host_port addrs) [
        | none ↦ err cannot_bind
        | some published ↦ commit f published
      ]

abbrev pub socket_eq : Socket → Socket → Bool
socket_eq a b = text_eq a.host b.host && a.port == b.port

unfoldable pub close_sockets : List Published → List Socket → List Socket
close_sockets ps sockets = keep_if (λ s. not (any (λ p. socket_eq (socket_of p) s) ps)) sockets

-- `Forwarder.Unpublish`
unfoldable pub unpublish : Netip → Forwarder → Spec → Outcome (List Published × Forwarder)
unfolding matches close_sockets sort_published
unpublish net f spec =
    let removed = keep_if (λ p. matches net p spec) f.entries in
    let kept = keep_if (λ p. not (matches net p spec)) f.entries in
    if ltb 0 (length removed)
    then (ok (
      sort_published removed,
      record f {
        entries = kept;
        sockets = close_sockets removed f.sockets;
        notified = f.notified ++ sort_published kept ∷ [];
      },
    ))
    else err not_published

-- `Forwarder.List`
unfoldable pub listing : Forwarder → List Published
unfolding sort_published
listing f = sort_published f.entries

-- `Forwarder.Close`
unfoldable pub close : Forwarder → Forwarder
unfolding close_sockets
close f =
    if f.closed
    then f
    else record f { closed = true; entries = []; sockets = close_sockets f.entries f.sockets }
