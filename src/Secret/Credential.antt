-- ===== src/Secret/Credential.antt =====
-- internal/secret/secret.go: `Credential`, its validation, and how credentials are read from flags.
use boks.Prelude.{
  Bool, true, false, not, ◌&&◌, Option, none, some, List, [], ◌∷◌, ◌++◌, map, if◌then◌else◌,
  is_some, has_any, any, Result, err, ok, ◌>>=◌, ◌>>◌,
}
use boks.Strings.{Text, text_eq, is_empty, trim_space, cut}
use boks.Dict.{Dict, insert, sort_texts}
use boks.Netip.{Netip}
use boks.Policy.Pattern.{pattern_text}
use boks.Secret.Inject.{Inject, InjectError, is_newline, validate_inject, parse_inject}
use boks.Secret.Oauth.{Oauth, OauthError, Valid, validate_oauth, oauth_domains}

-- `Credential`, less its description
pub record Credential : Type 0 where
  pub service : Text
  pub env_name : Text
  pub proxy_managed : Bool
  pub placeholder : Text
  pub inject : List Inject
  pub oauth : Option Oauth

pub data CredentialError : Type 0 where
  no_service_name no_rules placeholder_newline : CredentialError
  bad_oauth : OauthError → CredentialError
  bad_rule : InjectError → CredentialError
  no_guest_equals no_guest_service no_placeholder : CredentialError
  unknown_service : Text → CredentialError

abbrev pub Answer : Type 0 → Type 0
Answer A = Result CredentialError A

abbrev pub as_rule_error : {A : Type 0} → Result InjectError A → Answer A
as_rule_error (err e) = err (bad_rule e)
as_rule_error (ok a) = ok a

abbrev pub as_oauth_error : Valid → Answer (Unit {0})
as_oauth_error (err e) = err (bad_oauth e)
as_oauth_error (ok a) = ok a

unfoldable pub valid_rules : List Inject → Answer (Unit {0})
unfolding validate_inject
valid_rules [] = ok tt
valid_rules (r ∷ rs) = as_rule_error (validate_inject r) >> valid_rules rs

abbrev pub valid_half : (Text → Bool) → Option Oauth → Answer (Unit {0})
valid_half renders none = ok tt
valid_half renders (some o) = as_oauth_error (validate_oauth renders o)

-- `Credential.Validate`
unfoldable pub validate_credential : (Text → Bool) → Credential → Answer (Unit {0})
unfolding validate_oauth valid_rules
validate_credential renders c =
    if is_empty c.service
    then err no_service_name
    else if not (has_any c.inject) && not (is_some c.oauth)
    then err no_rules
    else (valid_half renders c.oauth
        >> (if any is_newline c.placeholder then err placeholder_newline else ok tt)
        >> valid_rules c.inject)

-- `Credential.Domains`
unfoldable pub domains : Credential → List Text
unfolding pattern_text oauth_domains
domains c = map (λ r. pattern_text r.domain) c.inject ++ oauth_domains c.oauth

unfoldable pub collect : List Text → List Text → List Text
unfolding text_eq
collect seen [] = []
collect seen (d ∷ ds) =
    let later = collect (d ∷ seen) ds in
    let same = collect seen ds in if any (text_eq d) seen then same else d ∷ later

abbrev pub all_domains : List Credential → List Text
all_domains [] = []
all_domains (c ∷ cs) = domains c ++ all_domains cs

-- `CredentialHosts`
unfoldable pub credential_hosts : List Credential → List Text
unfolding collect domains sort_texts
credential_hosts cs = sort_texts (collect [] (all_domains cs))

-- `Placeholders`; a later credential of one name takes the place of an earlier one.
unfoldable pub placeholders_from : Dict Text → List Credential → Dict Text
unfolding insert
placeholders_from out [] = out
placeholders_from out (c ∷ cs) =
    let skipped = placeholders_from out cs in
    let key = if is_empty c.env_name then c.service else c.env_name in
    let taken = placeholders_from (insert key c.placeholder out) cs in
    if is_empty c.placeholder then skipped else taken

pub record Guest : Type 0 where
  pub service : Text
  pub env : Text
  pub placeholder : Text

abbrev pub guest_rest : Text → Text → Option (Text × Text) → Guest
guest_rest service rest none = record { service = service; env = []; placeholder = rest }
guest_rest service rest (some (name, value)) = record {
  service = service;
  env = trim_space name;
  placeholder = value;
}

abbrev pub with_placeholder : Guest → Answer Guest
with_placeholder g = if is_empty g.placeholder then err no_placeholder else ok g

-- `ParseGuestCredential`
unfoldable pub parse_guest_credential : Text → Answer Guest
unfolding cut trim_space
parse_guest_credential spec = elim (cut b'=' spec) [
  | none ↦ err no_guest_equals
  | some (name, rest) ↦
      let service = trim_space name in
      if is_empty service
      then err no_guest_service
      else with_placeholder (guest_rest service rest (cut b'=' rest))
]

abbrev pub blank_credential : Text → Credential
blank_credential service = record {
  service = service;
  env_name = [];
  proxy_managed = false;
  placeholder = [];
  inject = [];
  oauth = none;
}

-- The credentials in the order in which their services were first named.
unfoldable pub add_rules : Text → List Inject → List Credential → List Credential
unfolding text_eq
add_rules service rules [] = record (blank_credential service) { inject = rules } ∷ []
add_rules service rules (c ∷ cs) =
    let rest = add_rules service rules cs in
    if text_eq c.service service then record c { inject = c.inject ++ rules } ∷ cs else c ∷ rest

abbrev pub on_rest : Credential → Answer (List Credential) → Answer (List Credential)
on_rest c (err e) = err e
on_rest c (ok cs) = ok (c ∷ cs)

unfoldable pub set_guest : Guest → List Credential → Answer (List Credential)
unfolding text_eq
set_guest g [] = err (unknown_service g.service)
set_guest g (c ∷ cs) =
    let rest = set_guest g cs in
    if text_eq c.service g.service
    then ok (record c { env_name = g.env; placeholder = g.placeholder; proxy_managed = true } ∷ cs)
    else on_rest c rest

unfoldable pub set_guests : List Text → List Credential → Answer (List Credential)
unfolding parse_guest_credential set_guest
set_guests [] cs = ok cs
set_guests (spec ∷ specs) cs = do
  g ← parse_guest_credential spec
  cs' ← set_guest g cs
  set_guests specs cs'

module _ (net : Netip) where
  unfoldable pub read_rules : List Text → List Credential → Answer (List Credential)
  unfolding parse_inject add_rules
  read_rules [] cs = ok cs
  read_rules (spec ∷ specs) cs = do
    read ← as_rule_error (parse_inject net spec)
    read_rules specs (add_rules read.0 read.1 cs)

  -- `ParseCredentials`
  unfoldable pub parse_credentials : List Text → List Text → Answer (List Credential)
  unfolding read_rules set_guests
  parse_credentials inject guest = do cs ← read_rules inject []; set_guests guest cs
