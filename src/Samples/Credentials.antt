-- ===== src/Samples/Credentials.antt =====
-- A credential of the sandbox `demo` beside one of the machine.
use boks.Prelude.{◌≤◌, ◌≡◌, refl, ◌≢◌, false, [], ◌∷◌, length, All, ok}
use boks.Strings.{Text, codes, is_empty, byte_length, cut_prefix, has_prefix, has_suffix, contains}
use boks.Dict.{Dict, insert}
use boks.Policy.Target.{normalize_host}
use boks.Policy.Pattern.{exact, parse_host_pattern}
use boks.Secret.Inject.{bearer, Inject, parse_inject}
use boks.Secret.Inject.Header.{IsAttached}
use boks.Secret.Inject.Rules.{parse_inject-IsAttached}
use boks.Samples.Addresses.{table}
use boks.Secret.Scope.{map_provider, validate_scoped_name, for_sandbox}
use boks.Secret.Scope.Names.{stored_name}
use boks.Secret.Scope.Isolation.{for_sandbox-insert_other}

abbrev machine_store : Dict Text
machine_store = (codes "github", codes "token") ∷ []

demo-valid : validate_scoped_name (codes "demo") (codes "github") ≡ ok tt
unfolding validate_scoped_name contains has_prefix
demo-valid = refl

other-valid : validate_scoped_name (codes "other") (codes "github") ≡ ok tt
unfolding validate_scoped_name contains has_prefix
other-valid = refl

apart : codes "demo" ≢ codes "other"
apart e = cc e

for_sandbox-insert_other_example :
    for_sandbox
      (map_provider
        (insert (stored_name (codes "other") (codes "github")) (codes "mine") machine_store))
      (codes "demo")
      (codes "github")
    ≡ for_sandbox (map_provider machine_store) (codes "demo") (codes "github")
for_sandbox-insert_other_example =
    for_sandbox-insert_other machine_store (codes "demo") (codes "other") (codes "github")
      (codes "github") (codes "mine") demo-valid other-valid refl apart

-- A rule for a token of one host.
abbrev rule : Inject
rule = record {
  domain = exact (codes "a.org");
  header = [];
  format = [];
  scheme = bearer;
  username = [];
}

rule-read : parse_inject table (codes "git@a.org=bearer") ≡ ok (codes "git", rule ∷ [])
unfolding parse_inject parse_host_pattern contains cut_prefix normalize_host has_prefix has_suffix
    byte_length
rule-read = refl

parse_inject-IsAttached_example :
    (is_empty (codes "git") ≡ false)
    × (1 ≤ length (rule ∷ []))
    × All (λ r. IsAttached (λ b. b) r (codes "token")) (rule ∷ [])
parse_inject-IsAttached_example =
    parse_inject-IsAttached table (λ b. b) (codes "token") (codes "git@a.org=bearer") (codes "git")
      (rule ∷ []) rule-read
