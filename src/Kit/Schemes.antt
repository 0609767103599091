-- ===== src/Kit/Schemes.antt =====
-- internal/kit/parse.go: `ExpandSchemes`.
pub mod Expanded
use boks.Prelude.{
  ℕ, suc, not, Option, none, some, List, [], ◌∷◌, if◌then◌else◌, Result, err, ok, ◌>>=◌,
}
use boks.Strings.{Text, codes, text_eq, is_empty}
use boks.Kit.Spec.{ApiKeyInject, ApiKey, Credential, Spec, or_default}

pub data SchemeError : Type 0 where
  format_with_scheme username_with_bearer basic_without_username :
      (credential inject : ℕ) → SchemeError
  unknown_scheme : (credential inject : ℕ) → Text → SchemeError

-- One entry of `inject`.
unfoldable pub expand_inject : ℕ → ℕ → ApiKeyInject → Result SchemeError ApiKeyInject
unfolding text_eq
expand_inject i j inj =
    if is_empty inj.scheme
    then ok inj
    else if not (is_empty inj.format)
    then err (format_with_scheme i j)
    else if text_eq inj.scheme (codes "bearer")
    then (if not (is_empty inj.username)
        then err (username_with_bearer i j)
        else ok (record inj {
          format = codes "Bearer %s";
          header = or_default inj.header (codes "Authorization");
          scheme = [];
        }))
    else if text_eq inj.scheme (codes "basic")
    then (if is_empty inj.username
        then err (basic_without_username i j)
        else ok (record inj { format = codes "%s"; scheme = [] }))
    else err (unknown_scheme i j inj.scheme)

unfoldable pub expand_injects : ℕ → ℕ → List ApiKeyInject → Result SchemeError (List ApiKeyInject)
unfolding expand_inject
expand_injects i j [] = ok []
expand_injects i j (inj ∷ rest) = do
  inj' ← expand_inject i j inj
  rest' ← expand_injects i (suc j) rest
  ok (inj' ∷ rest')

abbrev pub expand_key : ℕ → Option ApiKey → Result SchemeError (Option ApiKey)
expand_key i none = ok none
expand_key i (some k) = do
  injects ← expand_injects i 0 k.inject
  ok (some (record k { inject = injects }))

unfoldable pub expand_credentials : ℕ → List Credential → Result SchemeError (List Credential)
unfolding expand_injects
expand_credentials i [] = ok []
expand_credentials i (c ∷ rest) = do
  key ← expand_key i c.api_key
  rest' ← expand_credentials (suc i) rest
  ok (record c { api_key = key } ∷ rest')

-- `ExpandSchemes`
unfoldable pub expand_schemes : Spec → Result SchemeError Spec
unfolding expand_credentials
expand_schemes s = do
  credentials ← expand_credentials 0 s.credentials
  ok (record s { credentials = credentials })
