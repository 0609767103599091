-- ===== src/Kit/Spec.antt =====
-- internal/kit/spec.go: what a kit declares. A pointer is an `Option`, and empty text is an absent
-- field, as in the source.
use boks.Prelude.{ℕ, Bool, Option, none, some, List, if◌then◌else◌}
use boks.Strings.{Text, codes, is_empty}
use boks.Strings.Decimal.{ℤ}
use boks.Dict.{Dict}

abbrev pub schema_version1 : Text
schema_version1 = codes "1"

abbrev pub schema_version2 : Text
schema_version2 = codes "2"

abbrev pub kind_sandbox : Text
kind_sandbox = codes "sandbox"

abbrev pub kind_mixin : Text
kind_mixin = codes "mixin"

pub record Arg : Type 0 where
  pub default : Option Text
  pub required : Bool
  pub description : Text
  pub enum : List Text
  pub pattern : Text

pub record BuildConfig : Type 0 where
  pub context : Text
  pub dockerfile : Text
  pub args : Dict Text
  pub target : Text
  pub platforms : List Text

-- `cpu` is the bits of a float64.
pub record Resources : Type 0 where
  pub cpu : ℕ
  pub memory : Text
  pub gpu : Text

-- `Command`: no interactive words at all are not the same as an empty list of them.
pub record Command : Type 0 where
  pub default : List Text
  pub interactive : Option (List Text)

-- `Command.InteractiveTail`
unfoldable pub interactive_tail : Command → List Text
interactive_tail c = elim c.interactive [ none ↦ c.default | some words ↦ words ]

pub record Sandbox : Type 0 where
  pub image : Text
  pub build : Option BuildConfig
  pub entrypoint : List Text
  pub command : Command
  pub resources : Option Resources

pub record AgentInstructions : Type 0 where
  pub filename : Text
  pub content : Text

pub record NetworkPermissions : Type 0 where
  pub allow : List Text
  pub deny : List Text

pub record Port : Type 0 where
  pub container : ℤ
  pub protocol : Text
  pub label : Text

pub record ApiKeyInject : Type 0 where
  pub domain : Text
  pub header : Text
  pub format : Text
  pub username : Text
  pub scheme : Text

pub record ApiKey : Type 0 where
  pub name : Text
  pub proxy_managed : Bool
  pub inject : List ApiKeyInject

-- Of `structure`, whose values are arbitrary, the keys.
pub record OauthCredentialFile : Type 0 where
  pub path : Text
  pub template : Text
  pub structure : List Text

pub record OauthResponseFields : Type 0 where
  pub access_token : Text
  pub refresh_token : Text
  pub expires_in : Text
  pub scope : Text

pub record Oauth : Type 0 where
  pub token_host : Text
  pub token_path : Text
  pub access_sentinel : Text
  pub refresh_sentinel : Text
  pub resource_hosts : List Text
  pub credential_file : Option OauthCredentialFile
  pub skip_if_env : List Text
  pub response_fields : Option OauthResponseFields
  pub passthrough : Bool

pub record Credential : Type 0 where
  pub service : Text
  pub description : Text
  pub required : Bool
  pub provider : Text
  pub api_key : Option ApiKey
  pub oauth : Option Oauth

pub record InstallCommand : Type 0 where
  pub command : Text
  pub user : Text
  pub description : Text

pub record StartupCommand : Type 0 where
  pub command : List Text
  pub user : Text
  pub background : Bool
  pub description : Text

pub record SetupFile : Type 0 where
  pub path : Text
  pub content : Text
  pub mode : Text
  pub only_if_missing : Bool
  pub description : Text

pub record Setup : Type 0 where
  pub install : List InstallCommand
  pub startup : List StartupCommand
  pub files : List SetupFile

-- `type` is a `MountType`: empty for a block-backed volume.
pub record Volume : Type 0 where
  pub path : Text
  pub mount : Text
  pub size : Text
  pub mode : Text

abbrev pub mount_type_block : Text
mount_type_block = codes ""

abbrev pub mount_type_tmpfs : Text
mount_type_tmpfs = codes "tmpfs"

-- `Spec`. `security` is `security.privileged`, `requires` is `requires.agent`, `permissions` is
-- `permissions.network` under each of two pointers, and `environment` is the variables.
pub record Spec : Type 0 where
  pub schema_version : Text
  pub kind : Text
  pub name : Text
  pub version : Text
  pub display_name : Text
  pub description : Text
  pub source_url : Text
  pub licenses : List Text
  pub locked : List Text
  pub security : Option Bool
  pub extends : Text
  pub mixins : List Text
  pub requires : Option Text
  pub args : Dict Arg
  pub sandbox : Option Sandbox
  pub agent_instructions : Option AgentInstructions
  pub permissions : Option (Option NetworkPermissions)
  pub ports : List Port
  pub credentials : List Credential
  pub environment : Option (Dict Text)
  pub setup : Option Setup
  pub volumes : List Volume

abbrev pub or_default : Text → Text → Text
or_default given fallback = if is_empty given then fallback else given

abbrev pub default_response_fields : OauthResponseFields
default_response_fields = record {
  access_token = codes "access_token";
  refresh_token = codes "refresh_token";
  expires_in = codes "expires_in";
  scope = codes "scope";
}

abbrev pub with_defaults : Option OauthResponseFields → OauthResponseFields
with_defaults none = default_response_fields
with_defaults (some f) = record {
  access_token = or_default f.access_token (codes "access_token");
  refresh_token = or_default f.refresh_token (codes "refresh_token");
  expires_in = or_default f.expires_in (codes "expires_in");
  scope = or_default f.scope (codes "scope");
}

-- `OAuth.ResolvedResponseFields`
unfoldable pub resolved_response_fields : Option Oauth → OauthResponseFields
resolved_response_fields none = default_response_fields
resolved_response_fields (some o) = with_defaults o.response_fields
