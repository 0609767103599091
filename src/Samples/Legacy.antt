-- ===== src/Samples/Legacy.antt =====
-- A kit in the grammar of `schemaVersion` 1, with one service that two surfaces describe.
use boks.Prelude.{◌≡◌, refl, true, false, none, some, [], ◌∷◌, All, err, ok}
use boks.Strings.{codes, lower_rune}
use boks.Strings.Decimal.{pos, itoa}
use boks.Kit.V1.{carried, translate_v1}
use boks.Kit.V1.Grammar.{NetworkV1, SpecV1, Draft}
use boks.Kit.V1.Blocks.{network_rules}
use boks.Kit.V1.Routes.{IsGrounded, translate_v1-IsGrounded}
use boks.Kit.V1.Egress.{declared, translate_v1-network_rules}
use boks.Kit.Schemes.{expand_schemes}
use boks.Kit.Schemes.Expanded.{are_expanded}
use boks.Kit.Validate.{validate}
use boks.Kit.Parse.{Yaml, parse_spec}
use boks.Kit.Parse.Accepted.{parse_spec-validate}
use boks.Samples.Kits.{std}

abbrev network : NetworkV1
network = record {
  allowed_domains = codes "a.org" ∷ [];
  denied_domains = codes "b.org" ∷ [];
  service_domains = (codes "api.a.org", codes "a") ∷ [];
  service_auth = (codes "a", record { header_name = codes "X-Key"; value_format = [] }) ∷ [];
  published_ports = [];
}

abbrev old_kit : SpecV1
old_kit = record {
  schema_version = codes "1";
  kind = codes "agent";
  name = codes "old-kit";
  version = [];
  display_name = [];
  description = [];
  source_url = [];
  extends = [];
  mixins = [];
  requires = none;
  locked = [];
  licenses = [];
  security = none;
  sandbox = none;
  legacy_agent = some (record {
    image = codes "a.org/old";
    build = none;
    entrypoint = none;
    ai_filename = [];
    resources = some (record { cpu = 0; memory_mb = pos 512; gpu = [] });
    persistence = [];
    binary = codes "agent";
    run_options = [];
    interactive_options = [];
  });
  network = some network;
  published_ports = [];
  credentials_list = [];
  sources = (codes "a", record { env = codes "A_KEY" ∷ []; required = true }) ∷ [];
  oauth = none;
  environment = none;
  commands = none;
  agent_context = [];
  legacy_memory = [];
  volumes_list = [];
  volume_sizes = [];
  tmpfs = [];
  caps = some (some (record { allow = codes "c.org" ∷ []; deny = [] }));
  has_settings = false;
  persistence = [];
  kit_dir = [];
  secrets = [];
  egress = [];
}

abbrev new_kit : Draft
new_kit = elim (translate_v1 old_kit) [ ok d ↦ d | err e ↦ (carried old_kit, []) ]

old_kit-translated : translate_v1 old_kit ≡ ok (new_kit.0, new_kit.1)
unfolding translate_v1
old_kit-translated = refl

translate_v1-IsGrounded_example : All (IsGrounded old_kit) new_kit.0.credentials
translate_v1-IsGrounded_example =
    translate_v1-IsGrounded old_kit new_kit.0 new_kit.1 old_kit-translated

translate_v1-network_rules_example : network_rules new_kit.0 ≡ declared old_kit
translate_v1-network_rules_example =
    translate_v1-network_rules old_kit new_kit.0 new_kit.1 old_kit-translated

abbrev yaml : Yaml
yaml = record {
  version = λ t. some (codes "1");
  decode_v1 = λ t. some old_kit;
  decode_v2 = λ t. none;
}

old_kit-parsed : parse_spec yaml std (codes "a") ≡ ok (new_kit.0, new_kit.1)
unfolding parse_spec itoa lower_rune
old_kit-parsed = refl

parse_spec-validate_example :
    (validate std new_kit.0 ≡ ok tt)
    × (are_expanded new_kit.0.credentials ≡ true)
    × (expand_schemes new_kit.0 ≡ ok new_kit.0)
parse_spec-validate_example =
    parse_spec-validate yaml std (codes "a") new_kit.0 new_kit.1 old_kit-parsed
