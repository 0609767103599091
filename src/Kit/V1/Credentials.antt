-- ===== src/Kit/V1/Credentials.antt =====
-- internal/kit/decode_v1.go: the credentials, with the block `oauth` on the entry of its service.
use boks.Prelude.{
  Bool, false, not, ◌&&◌, ◌||◌, Option, none, some, List, [], ◌∷◌, ◌++◌, map, if◌then◌else◌,
  is_some, has_any, keep_if, Result, err, ok, ◌>>=◌,
}
use boks.Strings.{Text, codes, text_eq, is_empty}
use boks.Dict.{sort_texts, sorted_keys}
use boks.Kit.Spec.{ApiKey, Oauth, Credential}
use boks.Kit.V1.Grammar.{
  deprecated, Warnings, deprecate, ignore, OauthV1, SpecV1, V1Error, oauth_without_service,
  oauth_twice, Draft,
}
use boks.Kit.V1.Surfaces.{no_pending, credential_of, credentials_of, fold_surfaces}

-- `isRoutingOnlyAPIKey`
abbrev pub is_routing_only_api_key : Option ApiKey → Bool
is_routing_only_api_key none = false
is_routing_only_api_key (some k) = is_empty k.name && has_any k.inject

abbrev pub hosts_of : Option ApiKey → Text → List Text
hosts_of none token_host = []
hosts_of (some k) token_host =
    keep_if (λ h. not (is_empty h || text_eq h token_host)) (map (λ inj. inj.domain) k.inject)

abbrev pub oauth_of : OauthV1 → Oauth
oauth_of o = record {
  token_host = o.token_host;
  token_path = o.token_path;
  access_sentinel = o.access_sentinel;
  refresh_sentinel = o.refresh_sentinel;
  resource_hosts = [];
  credential_file = o.credential_file;
  skip_if_env = o.skip_if_env;
  response_fields = o.response_fields;
  passthrough = o.passthrough_response;
}

-- The entry of the block's service with the block; the domains of a key without a name are hosts.
unfoldable pub with_oauth : OauthV1 → Credential → Result V1Error Credential
unfolding sort_texts text_eq
with_oauth o c =
    let hosts = sort_texts (hosts_of c.api_key o.token_host) in
    if is_some c.oauth
    then err (oauth_twice o.service)
    else if is_routing_only_api_key c.api_key
    then ok
        (record c { api_key = none; oauth = some (record (oauth_of o) { resource_hosts = hosts }) })
    else ok (record c { oauth = some (oauth_of o) })

abbrev pub oauth_credential : OauthV1 → Credential
oauth_credential o = record (credential_of o.service no_pending) { oauth = some (oauth_of o) }

-- The loop of `translateV1OAuth`: the first entry of the service, or a new one after all others.
unfoldable pub attach_oauth : OauthV1 → List Credential → Result V1Error (List Credential)
unfolding with_oauth text_eq
attach_oauth o [] = ok (oauth_credential o ∷ [])
attach_oauth o (c ∷ cs) =
    let later = attach_oauth o cs >>= λ rest. ok (c ∷ rest) in
    let here = with_oauth o c >>= λ c'. ok (c' ∷ cs) in
    if text_eq c.service o.service then here else later

abbrev pub oauth_warnings : OauthV1 → Warnings
oauth_warnings o =
    deprecate o.passthrough_response (codes "oauth.passthroughResponse")
    ++ (ignore (has_any o.skip_if_env) (codes "oauth.skipIfEnv")
        ++ (deprecated (codes "oauth: (standalone block)") ∷ []))

-- `translateV1OAuth`
abbrev pub translate_v1_oauth : Option OauthV1 → Draft → Result V1Error Draft
translate_v1_oauth none d = ok d
translate_v1_oauth (some o) (s, w) = if is_empty o.service then err oauth_without_service else do
  credentials ← attach_oauth o s.credentials
  ok (record s { credentials = credentials }, w ++ oauth_warnings o)

-- `translateV1Credentials`
unfoldable pub translate_v1_credentials : SpecV1 → Draft → Result V1Error Draft
unfolding fold_surfaces attach_oauth sorted_keys
translate_v1_credentials sf (s, w) =
    let (m, found) = fold_surfaces sf in
    let all_entries = sf.credentials_list ++ credentials_of m (sorted_keys m) in
    translate_v1_oauth sf.oauth (record s { credentials = all_entries }, w ++ found)
