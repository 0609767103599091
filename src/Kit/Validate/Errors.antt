-- ===== src/Kit/Validate/Errors.antt =====
-- internal/kit/validate.go: the errors of the validator, each with the path of the field that it is
-- about, and what it calls of the standard library.
use boks.Prelude.{ℕ, Bool, true, false, Option, Result, err, ok}
use boks.Strings.{Text}
use boks.Kit.Size.{SizeError}

-- The list that an entry belongs to.
pub data Field : Type 0 where
  in_licenses in_locked : Field
  in_enum : Text → Field

pub data KitError : Type 0 where
  schema_version_required schema_version_unsupported kind_required kind_invalid : KitError
  name_required name_invalid agent_invalid : KitError
  mixin_with_sandbox mixin_with_extends mixin_with_mixins : KitError
  sandbox_with_affinity sandbox_missing sandbox_and_extends : KitError
  image_required cpu_negative entrypoint_empty : KitError
  memory_invalid : SizeError → KitError
  entry_empty entry_duplicate : Field → ℕ → KitError
  locked_invalid : ℕ → KitError
  arg_name_invalid arg_required_with_default arg_without_default arg_enum_with_pattern :
      Text → KitError
  arg_pattern_invalid arg_default_not_permitted arg_default_not_matching : Text → KitError
  container_out_of_range protocol_invalid : ℕ → KitError
  variable_empty : KitError
  variable_invalid : Text → KitError
  install_empty startup_empty startup_program_empty : ℕ → KitError
  file_path_required file_path_relative file_mode_invalid : ℕ → KitError
  service_required no_mechanism key_name_invalid key_name_required : ℕ → KitError
  domain_required scheme_not_expanded username_unused format_required format_invalid :
      ℕ → ℕ → KitError
  token_host_required token_path_required access_sentinel_required refresh_sentinel_required :
      ℕ → KitError
  credential_file_path_required credential_file_empty : ℕ → KitError
  volume_type_invalid volume_path_required volume_path_relative volume_mode_invalid : ℕ → KitError
  volume_duplicate : ℕ → ℕ → KitError
  volume_size_invalid : ℕ → SizeError → KitError

-- An `error`, nil where the check passes.
abbrev pub Checked : Type 0
Checked = Result KitError (Unit {0})

-- `if bad { return error }`
unfoldable pub check : Bool → KitError → Checked
check true why = err why
check false why = ok tt

-- What the validator calls: `unicode.ToLower`; whether `regexp.Compile` accepts a pattern; and
-- `FindString` of a pattern on a value, where it matches.
pub record Std : Type 0 where
  pub lower : ℕ → ℕ
  pub compiles : Text → Bool
  pub find : Text → Text → Option Text
