-- ===== src/Kit/V1/Surfaces.antt =====
-- internal/kit/decode_v1.go: the four surfaces that describe a credential, as one entry for each
-- service. The order of the entries of `sources` is the one in which a loop over the map meets them.
use boks.Prelude.{
  Bool, true, false, not, ◌||◌, Option, none, some, List, [], ◌∷◌, ◌++◌, if◌then◌else◌, is_some,
  has_any, any,
}
use boks.Strings.{Text, codes, text_eq, is_empty}
use boks.Dict.{Dict, lookup, insert, sorted_keys}
use boks.Kit.Spec.{ApiKeyInject, Credential, or_default}
use boks.Kit.V1.Grammar.{
  dropped_proxy_managed, Warnings, deprecate, ServiceAuth, NetworkV1, EnvironmentV1, SourceV1,
  SpecV1,
}
use boks.Kit.V1.Blocks.{text_or_empty}

pub record Pending : Type 0 where
  pub required : Bool
  pub name : Text
  pub proxy_managed : Bool
  pub inject : List ApiKeyInject

abbrev pub Pendings : Type 0
Pendings = Dict Pending

abbrev pub no_pending : Pending
no_pending = record { required = false; name = []; proxy_managed = false; inject = [] }

abbrev pub or_new : Option Pending → Pending
or_new none = no_pending
or_new (some p) = p

-- `get`
abbrev pub get_pending : Text → Pendings → Pending
get_pending service m = or_new (lookup service m)

-- Whether the author wrote an entry of a service.
unfoldable pub is_explicit : SpecV1 → Text → Bool
unfolding text_eq
is_explicit sf service = any (λ c. text_eq c.service service) sf.credentials_list

abbrev pub first_name : Text → List Text → Text
first_name name [] = name
first_name name (env ∷ rest) = env

abbrev pub add_source : Option SourceV1 → Pending → Pending
add_source none p = p
add_source (some source) p = record p {
  required = p.required || source.required;
  name = first_name p.name source.env;
}

-- The loop over `credentials.sources`, with whether an entry was used.
unfoldable pub fold_sources : SpecV1 → List Text → Pendings × Bool → Pendings × Bool
unfolding is_explicit insert lookup
fold_sources sf [] x = x
fold_sources sf (service ∷ services) (m, saw) = fold_sources sf services (
    if is_explicit sf service
    then (m, saw)
    else (insert service (add_source (lookup service sf.sources) (get_pending service m)) m, true))

-- An entry of `serviceDomains`, and whether `serviceAuth` has one for its service.
abbrev pub inject_of : Text → Option ServiceAuth → ApiKeyInject
inject_of domain none = record {
  domain = domain;
  header = [];
  format = codes "%s";
  username = [];
  scheme = [];
}
inject_of domain (some auth) = record {
  domain = domain;
  header = auth.header_name;
  format = or_default auth.value_format (codes "%s");
  username = [];
  scheme = [];
}

abbrev pub add_inject : ApiKeyInject → Pending → Pending
add_inject inj p = record p { inject = p.inject ++ (inj ∷ []) }

-- The loop over `network.serviceDomains`, with whether an entry and an entry of `serviceAuth` were
-- used.
unfoldable pub fold_domains :
    SpecV1 → NetworkV1 → List Text → Pendings × Bool × Bool → Pendings × Bool × Bool
unfolding is_explicit insert lookup
fold_domains sf n [] x = x
fold_domains sf n (domain ∷ domains) (m, saw, saw_auth) =
    let service = text_or_empty (lookup domain n.service_domains) in
    let auth = lookup service n.service_auth in
    fold_domains sf n domains (
      if is_explicit sf service then (m, saw, saw_auth) else (
        insert service (add_inject (inject_of domain auth) (get_pending service m)) m,
        true,
        saw_auth || is_some auth,
      ))

abbrev pub network_pendings : SpecV1 → Option NetworkV1 → Pendings → Pendings × Bool × Bool
network_pendings sf none m = (m, false, false)
network_pendings sf (some n) m =
    let (m', saw, saw_auth) = fold_domains sf n (sorted_keys n.service_domains) (m, false, false) in
    (m', saw, saw_auth || has_any n.service_auth)

-- `envToService`
unfoldable pub add_names : Text → List Text → Dict Text → Dict Text
unfolding insert
add_names service [] m = m
add_names service (name ∷ names) m = add_names service names (insert name service m)

unfoldable pub env_to_service : Dict SourceV1 → Dict Text → Dict Text
unfolding add_names
env_to_service [] m = m
env_to_service ((service, source) ∷ sources) m =
    env_to_service sources (add_names service source.env m)

abbrev pub add_name : Text → Pending → Pending
add_name name p = record p { name = or_default p.name name; proxy_managed = true }

abbrev pub managed_by : SpecV1 → Text → Option Text → Pendings × Warnings → Pendings × Warnings
managed_by sf name none (m, w) = (m, w ++ (dropped_proxy_managed name ∷ []))
managed_by sf name (some service) (m, w) =
    if is_explicit sf service
    then (m, w)
    else (insert service (add_name name (get_pending service m)) m, w)

-- The loop over `environment.proxyManaged`.
unfoldable pub fold_managed :
    SpecV1 → Dict Text → List Text → Pendings × Warnings → Pendings × Warnings
unfolding is_explicit insert lookup
fold_managed sf services [] x = x
fold_managed sf services (name ∷ names) x =
    fold_managed sf services names (managed_by sf name (lookup name services) x)

abbrev pub managed_of : Option EnvironmentV1 → List Text
managed_of none = []
managed_of (some e) = e.proxy_managed

-- The credential of a service; no `apiKey` where nothing is known of one.
abbrev pub credential_of : Text → Pending → Credential
credential_of service p = record {
  service = service;
  description = [];
  required = p.required;
  provider = [];
  api_key =
      if not (is_empty p.name) || has_any p.inject
      then some (record { name = p.name; proxy_managed = p.proxy_managed; inject = p.inject })
      else none;
  oauth = none;
}

abbrev pub credentials_of : Pendings → List Text → List Credential
credentials_of m [] = []
credentials_of m (service ∷ services) =
    credential_of service (get_pending service m) ∷ credentials_of m services

-- What the four surfaces come to, before the block `oauth`.
unfoldable pub fold_surfaces : SpecV1 → Pendings × Warnings
unfolding fold_sources fold_domains env_to_service fold_managed sorted_keys
fold_surfaces sf =
    let (m1, saw_sources) = fold_sources sf (sorted_keys sf.sources) ([], false) in
    let (m2, saw_domains, saw_auth) = network_pendings sf sf.network m1 in
    let managed = managed_of sf.environment in
    let (m3, w) = fold_managed sf (env_to_service sf.sources []) managed (m2, []) in
    (
      m3,
      w
          ++ (deprecate saw_sources (codes "credentials.sources")
              ++ (deprecate saw_domains (codes "network.serviceDomains")
                  ++ (deprecate saw_auth (codes "network.serviceAuth")
                      ++ deprecate (has_any managed) (codes "environment.proxyManaged")))),
    )
