-- ===== src/Kit/V1.antt =====
-- internal/kit/decode_v1.go: the grammar of `schemaVersion` 1 and its translation.
pub mod Grammar
pub mod Launch
pub mod Blocks
pub mod Surfaces
pub mod Credentials
pub mod Grounded
pub mod Routes
pub mod Egress
use boks.Prelude.{none, [], if◌then◌else◌, has_any, Result, err, ok, ◌>>=◌}
use boks.Strings.{codes, text_eq}
use boks.Kit.Spec.{kind_sandbox, Spec}
use boks.Kit.V1.Grammar.{kind_agent, deprecate, SpecV1, V1Error, has_secrets, has_egress, Draft}
use boks.Kit.V1.Launch.{translate_v1_sandbox}
use boks.Kit.V1.Blocks.{
  translate_v1_agent_instructions, translate_v1_network, translate_v1_environment,
  translate_v1_setup, translate_v1_volumes, translate_v1_removed,
}
use boks.Kit.V1.Credentials.{translate_v1_credentials}

-- The fields that are carried over as they are.
abbrev pub carried : SpecV1 → Spec
carried sf = record {
  schema_version = sf.schema_version;
  kind = if text_eq sf.kind kind_agent then kind_sandbox else sf.kind;
  name = sf.name;
  version = sf.version;
  display_name = sf.display_name;
  description = sf.description;
  source_url = sf.source_url;
  licenses = sf.licenses;
  locked = sf.locked;
  security = sf.security;
  extends = sf.extends;
  mixins = sf.mixins;
  requires = sf.requires;
  args = [];
  sandbox = none;
  agent_instructions = none;
  permissions = none;
  ports = sf.published_ports;
  credentials = [];
  environment = none;
  setup = none;
  volumes = [];
}

-- The translations after the credentials.
abbrev pub finish : SpecV1 → Draft → Draft
finish sf d =
    translate_v1_removed sf
      (translate_v1_volumes sf (translate_v1_setup sf (translate_v1_environment sf d)))

-- `translateV1`
unfoldable pub translate_v1 : SpecV1 → Result V1Error Draft
unfolding text_eq translate_v1_sandbox translate_v1_agent_instructions translate_v1_network
    translate_v1_credentials translate_v1_environment translate_v1_setup translate_v1_volumes
    translate_v1_removed
translate_v1 sf =
    if has_any sf.secrets then err has_secrets else if has_any sf.egress then err has_egress else do
      d ←
          translate_v1_sandbox sf
            (carried sf, deprecate (text_eq sf.kind kind_agent) (codes "kind: agent"))
      d' ←
          translate_v1_credentials sf
            (translate_v1_network sf (translate_v1_agent_instructions sf d))
      ok (finish sf d')
