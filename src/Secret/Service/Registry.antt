-- ===== src/Secret/Service/Registry.antt =====
-- What the registry of services finds after a service was added.
use boks.Prelude.{◌≡◌, refl, some, List, [], ◌∷◌, arith, if◌then◌else◌, ok, ok-injective, >>=-eq-ok}
use boks.Strings.{Text, text_eq}
use boks.Strings.Laws.{text_eq_iff}
use boks.Netip.{Netip}
use boks.Secret.Service.{Service, put_service, validate_service, add_service, lookup_service}

lookup-put_service :
    (s : Service) (name : Text) (r : List Service)
    → lookup_service name (put_service s r)
      ≡ (if text_eq s.name name then some s else lookup_service name r)
unfolding lookup_service put_service
lookup-put_service s name [] = refl
lookup-put_service s name (t ∷ ts) = ground (
  arith,
  text_eq_iff s.name name,
  text_eq_iff t.name name,
  text_eq_iff t.name s.name,
  lookup-put_service s name ts,
)

-- A service that `ServiceRegistry.Add` took passes `Service.Validate`; from then on it is what
-- `ServiceRegistry.Lookup` finds under its name, and every other name finds what it found before.
pub add_service-lookup :
    (net : Netip) (s : Service) (r r' : List Service) (name : Text)
    → add_service net s r ≡ ok r'
    → (validate_service net s ≡ ok tt)
      × (lookup_service name r' ≡ (if text_eq s.name name then some s else lookup_service name r))
unfolding add_service
add_service-lookup net s r r' name h =
    let (u, e, q) = >>=-eq-ok (validate_service net s) (λ x. ok (put_service s r)) h in
    (e, rw⁻¹ (ok-injective q) (lookup-put_service s name r))
