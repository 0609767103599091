-- ===== src/Secret/Oauth/Tokens.antt =====
-- internal/secret/oauth.go: `OAuthTokens`. Times and durations are nanoseconds; the zero time is no
-- expiry.
use boks.Prelude.{ℕ, ◌+◌, Bool, false, Option, none, some, [], leb}
use boks.Strings.{is_empty}
use boks.Secret.Scope.{Value}

pub record Tokens : Type 0 where
  pub access : Value
  pub refresh : Value
  pub expiry : Option ℕ

abbrev pub no_value : Value
no_value = record { raw = [] }

abbrev pub no_tokens : Tokens
no_tokens = record { access = no_value; refresh = no_value; expiry = none }

-- `Value.IsZero`
abbrev pub is_zero_value : Value → Bool
is_zero_value v = is_empty v.raw

-- `OAuthTokens.IsZero`
unfoldable pub is_zero : Tokens → Bool
is_zero t = is_zero_value t.access

abbrev pub expires_before : Option ℕ → ℕ → Bool
expires_before none limit = false
expires_before (some at) limit = leb at limit

-- `OAuthTokens.Expired`
unfoldable pub expired : Tokens → ℕ → ℕ → Bool
expired t now skew = expires_before t.expiry (now + skew)
