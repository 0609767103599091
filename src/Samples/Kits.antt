-- ===== src/Samples/Kits.antt =====
-- A kit that is accepted.
use boks.Prelude.{
  ◌*◌, ◌^◌, ◌≡◌, refl, true, not, ◌&&◌, none, some, [], ◌∷◌, ◌++◌, map, arith, any, ok,
}
use boks.Strings.{codes, is_empty, is_space, lower_rune, byte_length}
use boks.Strings.Decimal.{pos, is_digit, itoa}
use boks.Kit.Spec.{ApiKeyInject, Credential, Spec}
use boks.Kit.Size.{multiplier, parse_byte_size}
use boks.Kit.Size.Units.{IsUnit, parse_byte_size-itoa}
use boks.Kit.Schemes.{expand_schemes}
use boks.Kit.Validate.{validate}
use boks.Kit.Validate.Errors.{in_licenses, Std}
use boks.Kit.Validate.Blocks.{validate_string_list}
use boks.Kit.Validate.Accepted.{has_kind_shape, validate-has_kind_shape}
use boks.Kit.Validate.Distinct.{are_distinct, is_ok, validate_string_list-distinct}

gib-IsUnit : IsUnit (codes "GiB")
unfolding is_digit is_space
gib-IsUnit = record { some_rune = refl; no_digit = refl; no_space = refl }

same-size : byte_length (map lower_rune (codes "GiB")) ≡ byte_length (codes "GiB")
unfolding byte_length lower_rune
same-size = refl

gib-multiplier : multiplier (map lower_rune (codes "GiB")) ≡ some (2 ^ 30)
unfolding multiplier lower_rune
gib-multiplier = refl

parse_byte_size-itoa_example : parse_byte_size lower_rune (itoa 4 ++ codes "GiB") ≡ ok (4 * 2 ^ 30)
parse_byte_size-itoa_example =
    parse_byte_size-itoa lower_rune 4 (2 ^ 30) (codes "GiB") gib-IsUnit same-size gib-multiplier
      (omega arith)

abbrev bearer : ApiKeyInject
bearer = record {
  domain = codes "api.a.org";
  header = [];
  format = [];
  username = [];
  scheme = codes "bearer";
}

abbrev expanded_bearer : ApiKeyInject
expanded_bearer = record {
  domain = codes "api.a.org";
  header = codes "Authorization";
  format = codes "Bearer %s";
  username = [];
  scheme = [];
}

abbrev credential : ApiKeyInject → Credential
credential inj = record {
  service = codes "a";
  description = [];
  required = true;
  provider = [];
  api_key = some (record { name = codes "A_KEY"; proxy_managed = true; inject = inj ∷ [] });
  oauth = none;
}

abbrev kit : ApiKeyInject → Spec
kit inj = record {
  schema_version = codes "2";
  kind = codes "sandbox";
  name = codes "demo-kit";
  version = [];
  display_name = [];
  description = [];
  source_url = [];
  licenses = codes "MIT" ∷ [];
  locked = [];
  security = none;
  extends = [];
  mixins = [];
  requires = none;
  args = [];
  sandbox = some (record {
    image = codes "a.org/demo";
    build = none;
    entrypoint = codes "agent" ∷ [];
    command = record { default = []; interactive = none };
    resources = none;
  });
  agent_instructions = none;
  permissions = none;
  ports = record { container = pos 8080; protocol = []; label = [] } ∷ [];
  credentials = credential inj ∷ [];
  environment = none;
  setup = none;
  volumes = record { path = codes "/cache"; mount = []; size = []; mode = codes "0755" } ∷ [];
}

kit-expands : expand_schemes (kit bearer) ≡ ok (kit expanded_bearer)
unfolding expand_schemes
kit-expands = refl

abbrev pub std : Std
std = record { lower = lower_rune; compiles = λ p. true; find = λ p v. some v }

kit-valid : validate std (kit expanded_bearer) ≡ ok tt
unfolding validate
kit-valid = refl

validate-has_kind_shape_example : has_kind_shape (kit expanded_bearer) ≡ true
validate-has_kind_shape_example = validate-has_kind_shape std (kit expanded_bearer) kit-valid

validate_string_list-distinct_example :
    is_ok (validate_string_list in_licenses (codes "MIT" ∷ codes "MIT" ∷ [])) ≡ (
      not (any is_empty (codes "MIT" ∷ codes "MIT" ∷ []))
      && are_distinct (codes "MIT" ∷ codes "MIT" ∷ []))
validate_string_list-distinct_example =
    validate_string_list-distinct in_licenses (codes "MIT" ∷ codes "MIT" ∷ [])
