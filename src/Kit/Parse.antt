-- ===== src/Kit/Parse.antt =====
-- internal/kit/parse.go and load.go: a specification from the bytes of its file, and what its reference
-- may be. The YAML library is a parameter: what it reads of the version, and of each grammar.
pub mod Accepted
use boks.Prelude.{
  ℕ, suc, Bool, false, not, ◌&&◌, ◌||◌, Option, none, some, List, [], ◌∷◌, ◌++◌, ◌==◌,
  if◌then◌else◌, is_some, has_any, any, keep_if, Result, err, ok, ◌>>=◌,
}
use boks.Strings.{
  Text, codes, text_eq, is_empty, trim_space, has_prefix, has_suffix, split, join, cut,
}
use boks.Kit.Spec.{
  schema_version1, schema_version2, kind_mixin, Sandbox, AgentInstructions, OauthCredentialFile,
  Oauth, Credential, Spec,
}
use boks.Kit.V1.Grammar.{ignored_at, Warnings, ignore, SpecV1, V1Error, Draft}
use boks.Kit.V1.{translate_v1}
use boks.Kit.Schemes.{SchemeError, expand_schemes}
use boks.Kit.Validate.Errors.{KitError, Checked, Std}
use boks.Kit.Validate.{validate}

-- `yaml.Unmarshal` of the field `schemaVersion`, and the strict decoding of `specV1` and `Spec`.
pub record Yaml : Type 0 where
  pub version : Text → Option Text
  pub decode_v1 : Text → Option SpecV1
  pub decode_v2 : Text → Option Spec

pub data ParseError : Type 0 where
  is_empty_file bad_yaml : ParseError
  unsupported_version : Text → ParseError
  bad_v1 : V1Error → ParseError
  bad_scheme : SchemeError → ParseError
  not_valid : KitError → ParseError

-- `stripYAMLComments`
unfoldable pub strip_yaml_comments : Text → Text
unfolding has_prefix trim_space split join
strip_yaml_comments bytes =
    join 10 (keep_if (λ line. not (has_prefix (trim_space line) (codes "#"))) (split 10 bytes))

-- `peekSchemaVersion`
unfoldable pub peek_schema_version : Yaml → Text → Result ParseError Text
unfolding strip_yaml_comments trim_space
peek_schema_version y bytes =
    if is_empty (trim_space (strip_yaml_comments bytes))
    then err is_empty_file
    else elim (y.version bytes) [ none ↦ err bad_yaml | some version ↦ ok version ]

abbrev pub has_filename : Option AgentInstructions → Bool
has_filename none = false
has_filename (some a) = not (is_empty a.filename)

abbrev pub has_build : Option Sandbox → Bool
has_build none = false
has_build (some s) = is_some s.build

abbrev pub skips_if_env : Option Oauth → Bool
skips_if_env none = false
skips_if_env (some o) = has_any o.skip_if_env

abbrev pub has_both : Option OauthCredentialFile → Bool
has_both none = false
has_both (some f) = not (is_empty f.template) && has_any f.structure

abbrev pub has_two_contents : Option Oauth → Bool
has_two_contents none = false
has_two_contents (some o) = has_both o.credential_file

abbrev pub ignore_at : Bool → ℕ → Text → Warnings
ignore_at b i field = if b then ignored_at i field ∷ [] else []

unfoldable pub warn_credentials : Bool → ℕ → List Credential → Warnings
warn_credentials is_v2 i [] = []
warn_credentials is_v2 i (c ∷ cs) =
    ignore_at (not (is_empty c.provider)) i (codes "provider")
    ++ (ignore_at (is_v2 && skips_if_env c.oauth) i (codes "oauth.skipIfEnv")
        ++ (ignore_at (has_two_contents c.oauth) i (codes "oauth.credentialFile.template")
            ++ warn_credentials is_v2 (suc i) cs))

-- `warnV2`
unfoldable pub warn_v2 : Spec → Warnings
unfolding warn_credentials text_eq
warn_v2 s =
    ignore (has_any s.mixins) (codes "mixins")
    ++ (ignore (has_build s.sandbox) (codes "sandbox.build")
        ++ (ignore (text_eq s.kind kind_mixin && has_filename s.agent_instructions)
              (codes "agentInstructions.filename")
            ++ warn_credentials (text_eq s.schema_version schema_version2) 0 s.credentials))

abbrev pub decoded : Option Spec → Result ParseError Draft
decoded none = err bad_yaml
decoded (some s) = ok (s, warn_v2 s)

abbrev pub translated : Result V1Error Draft → Result ParseError Draft
translated (err e) = err (bad_v1 e)
translated (ok (s, w)) = ok (s, w ++ warn_v2 s)

abbrev pub decoded_v1 : Option SpecV1 → Result ParseError Draft
decoded_v1 none = err bad_yaml
decoded_v1 (some sf) = translated (translate_v1 sf)

-- The grammar that the version selects.
unfoldable pub decode : Yaml → Text → Text → Result ParseError Draft
unfolding warn_v2 translate_v1 text_eq
decode y version bytes =
    if text_eq version schema_version2
    then decoded (y.decode_v2 bytes)
    else if text_eq version schema_version1
    then decoded_v1 (y.decode_v1 bytes)
    else err (unsupported_version version)

abbrev pub as_scheme_error : Result SchemeError Spec → Result ParseError Spec
as_scheme_error (err e) = err (bad_scheme e)
as_scheme_error (ok s) = ok s

abbrev pub as_kit_error : Checked → Result ParseError (Unit {0})
as_kit_error (err e) = err (not_valid e)
as_kit_error (ok done) = ok tt

-- `ParseSpec`
unfoldable pub parse_spec : Yaml → Std → Text → Result ParseError Draft
unfolding peek_schema_version decode expand_schemes validate
parse_spec y std bytes = do
  version ← peek_schema_version y bytes
  d ← decode y version bytes
  s ← as_scheme_error (expand_schemes d.0)
  checked ← as_kit_error (validate std s)
  ok (s, d.1)

-- `remoteForm`, by the prefix and the form it names; git's own forms are loaded elsewhere. `is_abs` is
-- `filepath.IsAbs`.
pub data RemoteForm : Type 0 where
  git_plain http https oci zip : RemoteForm

abbrev pub prefix_form : Text → Option RemoteForm
prefix_form r =
    if has_prefix r (codes "git://")
    then some git_plain
    else if has_prefix r (codes "http://")
    then some http
    else if has_prefix r (codes "https://")
    then some https
    else if has_prefix r (codes "oci://")
    then some oci
    else none

abbrev pub is_local : (Text → Bool) → Text → Bool
is_local is_abs r =
    has_prefix r (codes "/")
    || (has_prefix r (codes "./")
        || (has_prefix r (codes "../") || (has_prefix r (codes "file://") || is_abs r)))

abbrev pub is_host_char : ℕ → Bool
is_host_char c = c == b'.' || c == b':'

abbrev pub is_registry : Option (Text × Text) → Bool
is_registry none = false
is_registry (some (head, rest)) = any is_host_char head

unfoldable pub remote_form : (Text → Bool) → Text → Option RemoteForm
unfolding has_prefix has_suffix cut
remote_form is_abs r = elim (prefix_form r) [
  | some form ↦ some form
  | none ↦
      if has_suffix r (codes ".zip")
      then some zip
      else if is_local is_abs r
      then none
      else if is_registry (cut b'/' r)
      then some oci
      else none
]
