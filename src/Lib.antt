-- ===== src/Lib.antt =====
-- A model of Boks' own decisions: what a sandbox may reach, what it publishes, and what it mounts.
--
-- Boks runs coding agents in sandboxes. A policy says which destinations a sandbox may reach; the
-- proxy asks an engine about every connection and the engine records each decision; a running
-- session takes up new rules from the store; the host's stack forwards what a guest sends; ports
-- are published to the host on request; a host directory is mounted at a path of the guest;
-- credentials belong to one sandbox or to all; a kit says what a sandbox is made of.
--
-- Files, with the code that each is about:
--   Policy/Target, Policy/Pattern, Policy/Ports: internal/policy/target.go and pattern.go. A
--     destination or a pattern is read to its normal form (`NewTarget` is `new_target`,
--     `ParsePattern` is `parse_pattern`, `ParsePorts` is `parse_ports`).
--   Policy/Rule, Policy/Evaluate: internal/policy/policy.go. `ParseRule`, `Rule.Spec`,
--     `Policy.Evaluate` and `Policy.EvaluateDeny` keep their names; a policy is a record and a
--     verdict is a value.
--   Policy/Preset, Policy/Store, Policy/Resolve: internal/policy/preset.go, store.go, resolve.go. A
--     store is a record with association lists for its maps; an operation returns the new store,
--     or an error. `Request.Resolve` is `resolve`, one function per layer.
--   Policy/Log, Policy/Engine: internal/policy/log.go. The ring buffer is over any entries; a method
--     of the engine returns its decision and the engine after it.
--   Enforce/Reload: `Session.reloadPolicy` of internal/enforce/enforce.go.
--   Ports/Spec, Ports/Forward: internal/ports/spec.go and forward.go, with the open listeners as a
--     list and the operating system's answer to a bind as a parameter.
--   Proxy/Sni: internal/proxy/sni.go. A read step returns what it read and the bytes left.
--   Proxy/Server, Proxy/Dial, Proxy/Http, Proxy/Connect: internal/proxy/proxy.go and host.go.
--     `Server.dial` is `dial`, `handleHTTP` is `handle_http`, `handleConnect` is `handle_connect`;
--     each returns its outcome and the server after it, with the connections that it opened. The
--     resolver, the origins, the injector and what a client does are arguments.
--   Network/Stack, Network/Forward, Network/Gateway: internal/network/stack.go and gateway.go. A
--     frame or a connection of the guest is a step of the host's stack, with its operational log;
--     the fields of headers, which gVisor reads, are the parameter `Headers`. In the gateway every
--     part under the lock, and every close after it, is an operation, and Network/Gateway/Link is the
--     relation of the steps that may come next, in any interleaving of the goroutines.
--   Secret/Scope: internal/secret/scope.go, with the providers of secret.go as functions.
--   Secret/Inject: internal/secret/secret.go. `Inject.Validate` is `validate_inject`, `ParseInject` is
--     `parse_inject`; base64 is an argument.
--   Secret/Oauth, Secret/Credential, Secret/Injector: internal/secret/oauth.go and secret.go. The
--     injector is a record; `Injector.Apply` is `apply`, `Injector.accessToken` is `access_token` and
--     each returns what it gives and the injector after it. The stores, the refresher and the login
--     of the host are the parameter `Services`.
--   Secret/Service: internal/secret/service.go, with the registry as a list.
--   Kit/V1: internal/kit/decode_v1.go. `translateV1` is `translate_v1`, from the decoded grammar of
--     schema version 1 to a specification with its warnings. Kit/Parse: parse.go and load.go, with
--     the YAML library as the parameter `Yaml`.
--   Kit/Spec, Kit/Patterns, Kit/Size, Kit/Schemes, Kit/Validate: internal/kit/spec.go, validate.go
--     and parse.go. An error is a value that names its place; the regular expressions of the
--     validator are tests on code points, those of a kit the parameter `Std`.
--   Workspace/GuestPath, Workspace/Mode: internal/workspace/guestpath.go and workspace.go.
--   Update/Version: internal/update/version.go.
--   Strings, Dict, Netip: what these use of Go's `strings`, `strconv`, maps and `net/netip`. A text
--     is a list of code points. Reading and printing addresses is the parameter `Netip`, whose
--     documented behaviour is `IsNetip`.
--   Prelude: the shared lists, tests and results. Samples: small examples.
--
-- Bounds and fuel: numbers are natural numbers; Go's `int` is read by `atoi` within 64 bits. Only
-- the two loops of `extractSNI` run on fuel, the length of what they read: a round of the first
-- reads at least four bytes and a round of the second at least three.
--
-- Not modelled: file, process and network I/O, printing for people, and the parts of the program
-- that are only that (the command line, the daemon, the doctor, the stack that gVisor provides,
-- certificates). The requests inside an inspected tunnel are TLS and HTTP of libraries. Error texts
-- are one constructor for each place that makes one. What runs under a lock is one step.
-- `strings.ToLower` is written out for ASCII letters and for the two other code points whose lower
-- case is an ASCII letter; the rest are left as they are, and no host with one of them is accepted.
mod Prelude
pub mod Strings
pub mod Dict
pub mod Netip
pub mod Policy
pub mod Ports
pub mod Proxy
pub mod Workspace
pub mod Secret
pub mod Kit
pub mod Network
pub mod Update
pub mod Enforce
mod Samples
