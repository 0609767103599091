-- ===== src/Update/Version.antt =====
-- internal/update/version.go: the order of release versions.
pub mod Order
use boks.Prelude.{
  ℕ, Bool, true, false, not, ◌||◌, Option, none, some, List, [], ◌∷◌, ltb, ◌==◌, if◌then◌else◌,
}
use boks.Strings.{Text, codes, text_eq, is_empty, text_lt, trim_space, cut_prefix, split, cut}
use boks.Strings.Decimal.{pos, negsuc, atoi}

pub record Version : Type 0 where
  pub major : ℕ
  pub minor : ℕ
  pub patch : ℕ
  pub pre : Text

abbrev front_or_all : Text → Option (Text × Text) → Text
front_or_all s none = s
front_or_all s (some (front, back)) = front

-- one component: decimal digits with no sign
unfoldable pub parse_component : Text → Option ℕ
parse_component [] = none
parse_component (c ∷ s) =
    if c == b'+' || c == b'-'
    then none
    else elim (atoi (c ∷ s)) [ none ↦ none | some (pos n) ↦ some n | some (negsuc n) ↦ none ]

infixl 5 ◌>>=?◌
abbrev ◌>>=?◌ {ℓ κ} : {A : Type ℓ} {B : Type κ} → Option A → (A → Option B) → Option B
none >>=? f = none
some a >>=? f = f a

unfoldable pub parse_numbers : Text → List Text → Option Version
unfolding parse_component
parse_numbers pre (a ∷ b ∷ c ∷ []) = parse_component a >>=? λ major. parse_component b >>=? λ minor.
    parse_component c >>=? λ patch.
    some (record { major = major; minor = minor; patch = patch; pre = pre })
parse_numbers pre _ = none

-- the suffix after the first hyphen, which may not be empty
unfoldable pub split_pre : Text → Option (Text × Text)
split_pre s = elim (cut b'-' s) [
  | none ↦ some (s, [])
  | some (front, pre) ↦ if is_empty pre then none else some (front, pre)
]

unfoldable pub trim_v : Text → Text
trim_v s = elim (cut_prefix s (codes "v")) [ none ↦ s | some rest ↦ rest ]

-- `parseVersion`
unfoldable pub parse_version : Text → Option Version
unfolding trim_v split_pre parse_numbers
parse_version text =
    let s = trim_v (trim_space text) in
    if is_empty s
    then none
    else (split_pre (front_or_all s (cut b'+' s)) >>=? λ (front, pre).
        parse_numbers pre (split b'.' front))

abbrev pub newer_pre : Text → Text → Bool
newer_pre v other =
    if text_eq other v
    then false
    else if is_empty v
    then false
    else if is_empty other
    then true
    else text_lt v other

-- `version.newer`: whether `other` is later than `v`
unfoldable pub newer : Version → Version → Bool
newer v other =
    if not (other.major == v.major)
    then ltb v.major other.major
    else if not (other.minor == v.minor)
    then ltb v.minor other.minor
    else if not (other.patch == v.patch)
    then ltb v.patch other.patch
    else newer_pre v.pre other.pre

-- A version that cannot be read is never newer, nor is anything newer than it.
unfoldable pub newer_if_read : Option Version → Option Version → Bool
newer_if_read (some cur) (some next) = newer cur next
newer_if_read _ _ = false

-- `IsNewer`
unfoldable pub is_newer : Text → Text → Bool
unfolding newer_if_read
is_newer current latest = newer_if_read (parse_version current) (parse_version latest)
