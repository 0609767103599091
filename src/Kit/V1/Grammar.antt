-- ===== src/Kit/V1/Grammar.antt =====
-- internal/kit/decode_v1.go: the grammar of `schemaVersion` 1, as it is decoded, and the warnings of
-- its translation.
use boks.Prelude.{ℕ, Bool, Option, List, [], ◌∷◌, if◌then◌else◌}
use boks.Strings.{Text, codes}
use boks.Strings.Decimal.{ℤ}
use boks.Dict.{Dict}
use boks.Kit.Spec.{
  BuildConfig, NetworkPermissions, Port, OauthCredentialFile, OauthResponseFields, Credential,
  InstallCommand, StartupCommand, SetupFile, Volume, Spec,
}

abbrev pub kind_agent : Text
kind_agent = codes "agent"

-- A warning, by its kind and the field it names, without the advice.
pub data Warning : Type 0 where
  deprecated dropped ignored : Text → Warning
  dropped_proxy_managed : Text → Warning
  ignored_at : ℕ → Text → Warning

abbrev pub Warnings : Type 0
Warnings = List Warning

abbrev pub deprecate : Bool → Text → Warnings
deprecate b field = if b then deprecated field ∷ [] else []

abbrev pub drop_field : Bool → Text → Warnings
drop_field b field = if b then dropped field ∷ [] else []

abbrev pub ignore : Bool → Text → Warnings
ignore b field = if b then ignored field ∷ [] else []

-- `entrypointV1`; the arguments of a terminal may be an empty list or none at all.
pub record EntrypointV1 : Type 0 where
  pub run : List Text
  pub args : List Text
  pub tty_args : Option (List Text)
  pub pipe_mode : Text

-- `resourcesV1`; `cpu` is the bits of a float64.
pub record ResourcesV1 : Type 0 where
  pub cpu : ℕ
  pub memory_mb : ℤ
  pub gpu : Text

-- `sandboxV1`
pub record SandboxV1 : Type 0 where
  pub image : Text
  pub build : Option BuildConfig
  pub entrypoint : Option EntrypointV1
  pub ai_filename : Text
  pub resources : Option ResourcesV1
  pub persistence : Text
  pub binary : Text
  pub run_options : List Text
  pub interactive_options : List Text

-- `serviceAuth`
pub record ServiceAuth : Type 0 where
  pub header_name : Text
  pub value_format : Text

-- `networkV1`
pub record NetworkV1 : Type 0 where
  pub allowed_domains : List Text
  pub denied_domains : List Text
  pub service_domains : Dict Text
  pub service_auth : Dict ServiceAuth
  pub published_ports : List Port

-- `environmentV1`
pub record EnvironmentV1 : Type 0 where
  pub variables : Dict Text
  pub proxy_managed : List Text

-- `commandsV1`
pub record CommandsV1 : Type 0 where
  pub install : List InstallCommand
  pub startup : List StartupCommand
  pub init_files : List SetupFile

-- `oauthV1`
pub record OauthV1 : Type 0 where
  pub service : Text
  pub token_host : Text
  pub token_path : Text
  pub access_sentinel : Text
  pub refresh_sentinel : Text
  pub credential_file : Option OauthCredentialFile
  pub skip_if_env : List Text
  pub response_fields : Option OauthResponseFields
  pub passthrough_response : Bool

-- `credentialSourceV1`, less where the host keeps the value.
pub record SourceV1 : Type 0 where
  pub env : List Text
  pub required : Bool

-- `specV1`. A field of two shapes is one field for each: `credentials` is `credentials_list` or
-- `sources`, and `volumes` is `volumes_list` or `volume_sizes`. `caps` is `caps.network` under each
-- of two pointers, and of `settings`, whether it is there.
pub record SpecV1 : Type 0 where
  pub schema_version : Text
  pub kind : Text
  pub name : Text
  pub version : Text
  pub display_name : Text
  pub description : Text
  pub source_url : Text
  pub extends : Text
  pub mixins : List Text
  pub requires : Option Text
  pub locked : List Text
  pub licenses : List Text
  pub security : Option Bool
  pub sandbox : Option SandboxV1
  pub legacy_agent : Option SandboxV1
  pub network : Option NetworkV1
  pub published_ports : List Port
  pub credentials_list : List Credential
  pub sources : Dict SourceV1
  pub oauth : Option OauthV1
  pub environment : Option EnvironmentV1
  pub commands : Option CommandsV1
  pub agent_context : Text
  pub legacy_memory : Text
  pub volumes_list : List Volume
  pub volume_sizes : Dict Text
  pub tmpfs : Dict Text
  pub caps : Option (Option NetworkPermissions)
  pub has_settings : Bool
  pub persistence : Text
  pub kit_dir : Text
  pub secrets : List Text
  pub egress : Dict Text

pub data V1Error : Type 0 where
  has_secrets has_egress : V1Error
  negative_memory : ℤ → V1Error
  oauth_without_service : V1Error
  oauth_twice : Text → V1Error

-- A translation on its way: the specification so far and the warnings so far.
abbrev pub Draft : Type 0
Draft = Spec × Warnings
