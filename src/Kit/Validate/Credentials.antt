-- ===== src/Kit/Validate/Credentials.antt =====
-- internal/kit/validate.go: `validateCredentials`, with its API keys and OAuth halves.
use boks.Prelude.{
  ℕ, suc, not, ◌&&◌, Option, none, some, List, [], ◌∷◌, ◌==◌, if◌then◌else◌, is_some, has_any, ok,
  ◌>>◌,
}
use boks.Strings.{Text, codes, text_eq, is_empty}
use boks.Kit.Spec.{ApiKeyInject, ApiKey, OauthCredentialFile, Oauth, Credential}
use boks.Kit.Patterns.{is_shell_identifier}
use boks.Kit.Validate.Errors.{
  service_required, no_mechanism, key_name_invalid, key_name_required, domain_required,
  scheme_not_expanded, username_unused, format_required, format_invalid, token_host_required,
  token_path_required, access_sentinel_required, refresh_sentinel_required,
  credential_file_path_required, credential_file_empty, Checked, check,
}
use boks.Kit.Validate.Blocks.{each}

-- `strings.ReplaceAll(s, "%%", "")`
unfoldable pub drop_escapes : Text → Text
drop_escapes [] = []
drop_escapes (c ∷ []) = c ∷ []
drop_escapes (c ∷ d ∷ s) =
    let rest = drop_escapes s in
    let kept = drop_escapes (d ∷ s) in if c == b'%' && d == b'%' then rest else c ∷ kept

-- `strings.Count(s, "%s")`
unfoldable pub count_verbs : Text → ℕ
count_verbs [] = 0
count_verbs (c ∷ []) = 0
count_verbs (c ∷ d ∷ s) =
    let rest = count_verbs s in
    let next = count_verbs (d ∷ s) in if c == b'%' && d == b's' then suc rest else next

unfoldable pub placeholders : Text → ℕ
unfolding drop_escapes count_verbs
placeholders format = count_verbs (drop_escapes format)

unfoldable pub inject_entry : ℕ → ℕ → ApiKeyInject → Checked
unfolding check text_eq placeholders
inject_entry i j inj =
    check (is_empty inj.domain) (domain_required i j)
    >> check (not (is_empty inj.scheme)) (scheme_not_expanded i j)
    >> check (not (is_empty inj.username) && not (text_eq inj.format (codes "%s")))
        (username_unused i j)
    >> check (is_empty inj.format) (format_required i j)
    >> check (not (placeholders inj.format == 1)) (format_invalid i j)

-- `validateAPIKey`, of the credential with an index
unfoldable pub validate_api_key : ℕ → Option ApiKey → Checked
unfolding check is_shell_identifier each inject_entry
validate_api_key i none = ok tt
validate_api_key i (some k) =
    check (not (is_empty k.name) && not (is_shell_identifier k.name)) (key_name_invalid i)
    >> check (k.proxy_managed && is_empty k.name) (key_name_required i)
    >> each (inject_entry i) 0 k.inject

abbrev pub credential_file : ℕ → Option OauthCredentialFile → Checked
credential_file i none = ok tt
credential_file i (some f) =
    check (is_empty f.path) (credential_file_path_required i)
    >> check (is_empty f.template && not (has_any f.structure)) (credential_file_empty i)

-- `validateOAuth`
unfoldable pub validate_oauth : ℕ → Option Oauth → Checked
unfolding check
validate_oauth i none = ok tt
validate_oauth i (some o) =
    check (is_empty o.token_host) (token_host_required i)
    >> check (is_empty o.token_path) (token_path_required i)
    >> check (not o.passthrough && is_empty o.access_sentinel) (access_sentinel_required i)
    >> check (not o.passthrough && is_empty o.refresh_sentinel) (refresh_sentinel_required i)
    >> credential_file i o.credential_file

-- `validateCredentials`
unfoldable pub validate_credentials : ℕ → List Credential → Checked
unfolding check validate_api_key validate_oauth
validate_credentials i [] = ok tt
validate_credentials i (c ∷ cs) =
    check (is_empty c.service) (service_required i)
    >> check (not (is_some c.api_key) && not (is_some c.oauth)) (no_mechanism i)
    >> validate_api_key i c.api_key
    >> validate_oauth i c.oauth
    >> validate_credentials (suc i) cs
