-- ===== src/Secret/Scope.antt =====
-- internal/secret/scope.go: credentials of one sandbox, by the names they are stored under; with
-- `Value` and `MapProvider` of internal/secret/secret.go.
pub mod Names
pub mod Isolation
use boks.Prelude.{ℕ, Option, none, some, [], ◌∷◌, ◌++◌, if◌then◌else◌, Result, err, ok}
use boks.Strings.{Text, codes, is_empty, cut_prefix, has_prefix, contains, cut}
use boks.Dict.{Dict, lookup}

-- `Value`: the raw credential. Its printed form is `redacted`.
pub record Value : Type 0 where
  pub raw : Text

unfoldable pub value_text : Value → Text
value_text v = codes "[redacted]"

-- The error of a lookup: `ErrNotFound`, which falls through, or another one.
pub data LookupError : Type 0 where
  not_found : LookupError
  failed : Text → LookupError

-- `Provider`: what it answers to a name, while nothing is stored or removed.
abbrev pub Provider : Type 0
Provider = Text → Result LookupError Value

abbrev pub found : Option Text → Result LookupError Value
found none = err not_found
found (some v) = ok (record { raw = v })

-- `MapProvider.Lookup`
unfoldable pub map_provider : Dict Text → Provider
map_provider m name = found (lookup name m)

pub data NameError : Type 0 where
  no_name name_has_separator name_has_prefix sandbox_has_separator : NameError

abbrev pub scope_prefix : Text
scope_prefix = codes "sandbox:"

abbrev pub scope_separator : ℕ
scope_separator = b'/'

-- `ScopedName`
unfoldable pub scoped_name : Text → Text → Text
scoped_name sandbox name = scope_prefix ++ (sandbox ++ scope_separator ∷ name)

abbrev pub or_whole : Text → Option (Text × Text) → Text × Text
or_whole stored none = ([], stored)
or_whole stored (some pair) = pair

-- What stands after the prefix, taken apart; a name with no separator there is the machine's.
abbrev pub split_rest : Text → Option Text → Text × Text
split_rest stored none = ([], stored)
split_rest stored (some rest) = or_whole stored (cut scope_separator rest)

-- `SplitScopedName`
unfoldable pub split_scoped_name : Text → Text × Text
split_scoped_name stored = split_rest stored (cut_prefix stored scope_prefix)

-- `ValidateScopedName`
unfoldable pub validate_scoped_name : Text → Text → Result NameError (Unit {0})
validate_scoped_name sandbox name =
    if is_empty name
    then err no_name
    else if contains scope_separator name
    then err name_has_separator
    else if has_prefix name scope_prefix
    then err name_has_prefix
    else if is_empty sandbox
    then ok tt
    else if contains scope_separator sandbox
    then err sandbox_has_separator
    else ok tt

-- `scopedProvider.Lookup`
abbrev pub or_machine :
    Result LookupError Value → Result LookupError Value → Result LookupError Value
or_machine (ok v) machine = ok v
or_machine (err not_found) machine = machine
or_machine (err (failed why)) machine = err (failed why)

unfoldable pub scoped_provider : Provider → Text → Provider
scoped_provider p sandbox name = or_machine (p (scoped_name sandbox name)) (p name)

-- `ForSandbox`
unfoldable pub for_sandbox : Provider → Text → Provider
unfolding scoped_provider
for_sandbox p sandbox name = if is_empty sandbox then p name else scoped_provider p sandbox name
