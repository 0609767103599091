-- ===== src/Policy/Preset.antt =====
-- internal/policy/preset.go: the three postures.
use boks.Prelude.{◌||◌, List, [], ◌∷◌, if◌then◌else◌, err, ok, ◌>>=◌}
use boks.Strings.{Text, codes, text_eq, is_empty, trim_space, to_lower}
use boks.Netip.{Netip}
use boks.Policy.Error.{unknown_preset, Outcome}
use boks.Policy.Rule.{Action, deny, allow, Rule, parse_rule}
use boks.Policy.Evaluate.{Policy}

abbrev pub preset_open : Text
preset_open = codes "open"

abbrev pub preset_standard : Text
preset_standard = codes "standard"

abbrev pub preset_locked : Text
preset_locked = codes "locked"

abbrev pub default_preset : Text
default_preset = preset_standard

-- the arguments of `MustRule`: the action, the destination and the reason
abbrev Entry : Type 0
Entry = Action × Text × Text

-- The host's loopback and the link-local block, for both families, and the name.
abbrev pub open_entries : List Entry
open_entries =
    (deny, codes "127.0.0.0/8", codes "the host's own loopback; under TSI the guest shares it")
    ∷ (deny, codes "::1/128", codes "the host's own loopback (IPv6)")
    ∷ (
      deny,
      codes "169.254.0.0/16",
      codes "link-local, including the 169.254.169.254 metadata endpoint",
    )
    ∷ (deny, codes "fe80::/10", codes "link-local (IPv6)")
    ∷ (deny, codes "localhost", codes "the host's own loopback, by name")
    ∷ []

abbrev pub standard_entries : List Entry
standard_entries =
    (allow, codes "github.com:443", codes "git clone/fetch/push over HTTPS")
    ∷ (allow, codes "api.github.com:443", codes "GitHub REST and GraphQL APIs")
    ∷ (allow, codes "codeload.github.com:443", codes "source archives git and go get fetch")
    ∷ (allow, codes "proxy.golang.org:443", codes "Go module proxy")
    ∷ (allow, codes "sum.golang.org:443", codes "Go checksum database")
    ∷ (allow, codes "registry.npmjs.org:443", codes "npm registry")
    ∷ (allow, codes "pypi.org:443", codes "PyPI index")
    ∷ (allow, codes "files.pythonhosted.org:443", codes "PyPI package downloads")
    ∷ (allow, codes "crates.io:443", codes "crates.io API")
    ∷ (allow, codes "index.crates.io:443", codes "Cargo sparse index")
    ∷ (allow, codes "static.crates.io:443", codes "crate downloads")
    ∷ (allow, codes "registry-1.docker.io:443", codes "Docker Hub registry")
    ∷ (allow, codes "auth.docker.io:443", codes "Docker Hub tokens")
    ∷ (allow, codes "production.cloudfront.docker.com:443", codes "Docker Hub image layers")
    ∷ []

module _ (net : Netip) where
  -- `MustRule`; the error stands for its panic.
  unfoldable pub must_rule : Action → Text → Text → Outcome Rule
  must_rule action spec why = parse_rule net action spec >>= λ r. ok (record r { why = why })

  unfoldable pub must_rules : List Entry → Outcome (List Rule)
  unfolding must_rule
  must_rules [] = ok []
  must_rules ((action, spec, why) ∷ entries) =
      must_rule action spec why >>= λ r. must_rules entries >>= λ rs. ok (r ∷ rs)

  unfoldable pub open_policy : Outcome Policy
  unfolding must_rules
  open_policy = do
    rules ← must_rules open_entries
    ok (record { name = preset_open; default = allow; rules = rules })

  unfoldable pub standard_policy : Outcome Policy
  unfolding must_rules
  standard_policy = do
    rules ← must_rules standard_entries
    ok (record { name = preset_standard; default = deny; rules = rules })

  unfoldable pub locked_policy : Policy
  locked_policy = record { name = preset_locked; default = deny; rules = [] }

  -- `Preset`
  unfoldable pub preset : Text → Outcome Policy
  unfolding locked_policy
  preset name =
      let word = to_lower (trim_space name) in
      if text_eq word preset_open
      then open_policy
      else if text_eq word preset_standard || is_empty word
      then standard_policy
      else if text_eq word preset_locked
      then ok locked_policy
      else err unknown_preset

-- `PresetDescription`
unfoldable pub preset_description : Text → Text
preset_description name =
    if text_eq name preset_open
    then codes "allow everything except this machine's own loopback and link-local addresses"
    else if text_eq name preset_standard
    then codes
        "deny by default; allow a small set of package registries and source hosts over HTTPS"
    else if text_eq name preset_locked
    then codes "deny everything; every destination must be added with --allow"
    else []
