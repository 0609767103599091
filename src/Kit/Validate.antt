-- ===== src/Kit/Validate.antt =====
-- internal/kit/validate.go: `Validate`.
pub mod Errors
pub mod Blocks
pub mod Credentials
pub mod Accepted
pub mod Distinct
use boks.Prelude.{
  Bool, false, not, ◌&&◌, ◌||◌, Option, none, some, [], if◌then◌else◌, is_some, has_any, ok, ◌>>◌,
}
use boks.Strings.{Text, text_eq, is_empty}
use boks.Kit.Spec.{schema_version1, schema_version2, kind_sandbox, kind_mixin, Spec}
use boks.Kit.Patterns.{is_kit_name}
use boks.Kit.Validate.Errors.{
  in_licenses, schema_version_required, schema_version_unsupported, kind_required, kind_invalid,
  name_required, name_invalid, agent_invalid, mixin_with_sandbox, mixin_with_extends,
  mixin_with_mixins, sandbox_with_affinity, sandbox_missing, sandbox_and_extends, Checked, check,
  Std,
}
use boks.Kit.Validate.Blocks.{
  validate_string_list, validate_locked, validate_ports, validate_environment, validate_setup,
  validate_sandbox, validate_args, validate_volumes,
}
use boks.Kit.Validate.Credentials.{validate_credentials}

-- The fields that say what a specification is.
unfoldable pub validate_identity : Spec → Checked
unfolding check text_eq is_kit_name
validate_identity s =
    check (is_empty s.schema_version) schema_version_required
    >> check
        (not (text_eq s.schema_version schema_version1 || text_eq s.schema_version schema_version2))
        schema_version_unsupported
    >> check (is_empty s.kind) kind_required
    >> check (not (text_eq s.kind kind_sandbox || text_eq s.kind kind_mixin)) kind_invalid
    >> check (is_empty s.name) name_required
    >> check (not (is_kit_name s.name)) name_invalid

-- The rules of `kind: mixin`.
unfoldable pub mixin_shape : Spec → Checked
unfolding check text_eq
mixin_shape s =
    check (is_some s.sandbox) mixin_with_sandbox
    >> check (not (is_empty s.extends) && text_eq s.schema_version schema_version2)
        mixin_with_extends
    >> check (has_any s.mixins) mixin_with_mixins

abbrev pub has_affinity : Option Text → Bool
has_affinity none = false
has_affinity (some agent) = not (is_empty agent)

-- The rules of `kind: sandbox`.
unfoldable pub sandbox_shape : Spec → Checked
unfolding check
sandbox_shape s =
    check (has_affinity s.requires) sandbox_with_affinity
    >> check (not (is_some s.sandbox) && is_empty s.extends) sandbox_missing
    >> check (is_some s.sandbox && not (is_empty s.extends)) sandbox_and_extends

abbrev pub is_bad_agent : Option Text → Bool
is_bad_agent none = false
is_bad_agent (some agent) = not (is_empty agent) && not (is_kit_name agent)

-- `validateKindShape`
unfoldable pub validate_kind_shape : Spec → Checked
unfolding check text_eq mixin_shape sandbox_shape is_kit_name
validate_kind_shape s =
    (if text_eq s.kind kind_mixin
      then mixin_shape s
      else if text_eq s.kind kind_sandbox
      then sandbox_shape s
      else ok tt)
    >> check (is_bad_agent s.requires) agent_invalid

module _ (std : Std) where
  -- `Validate` of a specification that is not nil.
  unfoldable pub validate : Spec → Checked
  unfolding validate_identity validate_kind_shape validate_sandbox validate_string_list
      validate_locked validate_args validate_ports validate_environment validate_setup
      validate_credentials validate_volumes
  validate s =
      validate_identity s
      >> validate_kind_shape s
      >> validate_sandbox std s
      >> validate_string_list in_licenses s.licenses
      >> validate_locked s.locked
      >> validate_args std s.args
      >> validate_ports 0 s.ports
      >> validate_environment s.environment
      >> validate_setup s.setup
      >> validate_credentials 0 s.credentials
      >> validate_volumes std 0 [] s.volumes
