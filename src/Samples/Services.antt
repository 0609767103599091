-- ===== src/Samples/Services.antt =====
-- A service of one host, in a registry, and a key beside a login for the same host.
use boks.Prelude.{◌≡◌, refl, some, [], ◌∷◌, All, ok}
use boks.Strings.{codes, text_eq, has_suffix, contains}
use boks.Policy.Target.{normalize_host}
use boks.Policy.Pattern.{exact, parse_host_pattern}
use boks.Secret.Inject.{bearer}
use boks.Secret.Credential.{Credential}
use boks.Secret.Service.{Service, validate_service, add_service, lookup_service, prefer_oauth}
use boks.Secret.Service.Prefer.{IsServed, prefer_oauth-IsServed}
use boks.Secret.Service.Registry.{add_service-lookup}
use boks.Samples.Addresses.{table}
use boks.Samples.Injection.{keyed, logged_in}

abbrev example_service : Service
example_service = record {
  name = codes "example";
  inject =
      record {
        hosts = codes "a.org" ∷ [];
        header = [];
        format = [];
        scheme = bearer;
        username = [];
        why = codes "the interface";
      }
      ∷ [];
  ports = [];
  env_name = codes "EXAMPLE_KEY";
  key_prefix = codes "ex-";
  key_length = 20;
  token_endpoint = record { host = []; path = [] };
  source = codes "the manual";
}

example_service-valid : validate_service table example_service ≡ ok tt
unfolding validate_service parse_host_pattern contains normalize_host has_suffix
example_service-valid = refl

example_service-added : add_service table example_service [] ≡ ok (example_service ∷ [])
unfolding add_service parse_host_pattern contains normalize_host has_suffix
example_service-added = refl

add_service-lookup_example :
    (validate_service table example_service ≡ ok tt)
    × (lookup_service (codes "example") (example_service ∷ []) ≡ some example_service)
unfolding text_eq
add_service-lookup_example =
    add_service-lookup table example_service [] (example_service ∷ []) (codes "example")
      example_service-added

abbrev keyed_b : Credential
keyed_b = record keyed {
  inject =
      record {
        domain = exact (codes "b.org");
        header = [];
        format = [];
        scheme = bearer;
        username = [];
      }
      ∷ [];
}

key-dropped : prefer_oauth (keyed_b ∷ logged_in ∷ []) ≡ (logged_in ∷ [], codes "key" ∷ [])
unfolding prefer_oauth
key-dropped = refl

prefer_oauth-IsServed_example :
    All (IsServed (prefer_oauth (keyed_b ∷ logged_in ∷ [])).0) (keyed_b ∷ logged_in ∷ [])
prefer_oauth-IsServed_example = prefer_oauth-IsServed (keyed_b ∷ logged_in ∷ [])
