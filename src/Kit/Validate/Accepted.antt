-- ===== src/Kit/Validate/Accepted.antt =====
-- What is known of a specification that `Validate` accepts.
use boks.Prelude.{
  ◌≡◌, refl, inl, inr, Bool, true, false, not, ◌&&◌, ◌||◌, Option, none, some, [], arith,
  if◌then◌else◌, is_some, Bool-cases, has_any, err, ok, ◌>>◌,
}
use boks.Strings.{Text, codes, text_eq, is_empty}
use boks.Kit.Spec.{schema_version2, kind_sandbox, kind_mixin, Sandbox, Spec}
use boks.Kit.Validate.{
  validate_identity, mixin_shape, has_affinity, sandbox_shape, validate_kind_shape, validate,
}
use boks.Kit.Validate.Errors.{
  KitError, kind_invalid, mixin_with_sandbox, mixin_with_extends, mixin_with_mixins,
  sandbox_with_affinity, Checked, check, Std,
}
use boks.Kit.Validate.Blocks.{validate_ports, sandbox_block, validate_sandbox, validate_volumes}
use boks.Kit.Validate.Credentials.{validate_credentials}

pub >>-ok : (first rest : Checked) → first >> rest ≡ ok tt → (first ≡ ok tt) × (rest ≡ ok tt)
>>-ok (err why) rest h = cc
>>-ok (ok tt) rest h = (refl, h)

pub check-ok : (bad : Bool) (why : KitError) → check bad why ≡ ok tt → bad ≡ false
unfolding check
check-ok true why h = cc
check-ok false why h = refl

-- The steps of `Validate` that the facts below come from, each passed.
pub record Passes (std : Std) (s : Spec) : Type 0 where
  pub identity : validate_identity s ≡ ok tt
  pub shape : validate_kind_shape s ≡ ok tt
  pub sandbox : validate_sandbox std s ≡ ok tt
  pub ports : validate_ports 0 s.ports ≡ ok tt
  pub credentials : validate_credentials 0 s.credentials ≡ ok tt
  pub volumes : validate_volumes std 0 [] s.volumes ≡ ok tt

module _ (std : Std) (s : Spec) where
  pub validate-Passes : validate std s ≡ ok tt → Passes std s
  unfolding validate
  validate-Passes h =
      let (h9, volumes) = >>-ok _ _ h in
      let (h8, credentials) = >>-ok _ _ h9 in
      let (h7, setup) = >>-ok _ _ h8 in
      let (h6, environment) = >>-ok _ _ h7 in
      let (h5, ports) = >>-ok _ _ h6 in
      let (h4, args) = >>-ok _ _ h5 in
      let (h3, locked) = >>-ok _ _ h4 in
      let (h2, licenses) = >>-ok _ _ h3 in
      let (h1, sandbox) = >>-ok _ _ h2 in
      let (identity, shape) = >>-ok _ _ h1 in
      record {
        identity = identity;
        shape = shape;
        sandbox = sandbox;
        ports = ports;
        credentials = credentials;
        volumes = volumes;
      }

-- The image of a sandbox block, empty where there is none.
abbrev pub image_of : Option Sandbox → Text
image_of none = []
image_of (some sb) = sb.image

-- Whether the parts that launch a container fit the kind: a mixin has neither a sandbox block nor
-- mixins, and extends no parent from schema version 2 on; a sandbox has a block with an image or extends a parent, never both, and no base agent.
unfoldable pub has_kind_shape : Spec → Bool
has_kind_shape s =
    if text_eq s.kind kind_mixin
    then not (is_some s.sandbox)
      && not (has_any s.mixins)
      && (is_empty s.extends || not (text_eq s.schema_version (codes "2")))
    else text_eq s.kind kind_sandbox
      && not (has_affinity s.requires)
      && (if is_empty s.extends
          then is_some s.sandbox && not (is_empty (image_of s.sandbox))
          else not (is_some s.sandbox))

mixin_shape-ok :
    (s : Spec)
    → mixin_shape s ≡ ok tt
    → (not (is_some s.sandbox)
        && not (has_any s.mixins)
        && (is_empty s.extends || not (text_eq s.schema_version (codes "2"))))
      ≡ true
unfolding mixin_shape
mixin_shape-ok s h =
    let (first, m) = >>-ok _ _ h in
    let (b, e) = >>-ok _ _ first in
    let none_given = check-ok (has_any s.mixins) mixin_with_mixins m in
    let no_block = check-ok (is_some s.sandbox) mixin_with_sandbox b in
    let no_parent =
      check-ok (not (is_empty s.extends) && text_eq s.schema_version schema_version2)
        mixin_with_extends e in
    ground (arith, no_block, none_given, no_parent)

sandbox_block-image :
    (std : Std) (s : Spec) (sb : Sandbox)
    → sandbox_block std s (some sb) ≡ ok tt
    → (is_empty sb.image && is_empty s.extends) ≡ false
unfolding sandbox_block
sandbox_block-image std s sb h = let (first, e) = >>-ok _ _ h in check-ok _ _ ((>>-ok _ _ first).0)

-- What launches a sandbox that is accepted.
sandbox-launch :
    (std : Std) (s : Spec) (sb : Option Sandbox)
    → sandbox_block std s sb ≡ ok tt
    → (not (is_some sb) && is_empty s.extends) ≡ false
    → (is_some sb && not (is_empty s.extends)) ≡ false
    → (if is_empty s.extends then is_some sb && not (is_empty (image_of sb)) else not (is_some sb))
      ≡ true
sandbox-launch std s none h missing both = ground arith
sandbox-launch std s (some sb) h missing both = ground (arith, sandbox_block-image std s sb h)

sandbox_shape-ok :
    (std : Std) (s : Spec)
    → sandbox_shape s ≡ ok tt
    → validate_sandbox std s ≡ ok tt
    → (not (has_affinity s.requires)
        && (if is_empty s.extends
            then is_some s.sandbox && not (is_empty (image_of s.sandbox))
            else not (is_some s.sandbox)))
      ≡ true
unfolding sandbox_shape validate_sandbox
sandbox_shape-ok std s h block =
    let (first, both) = >>-ok _ _ h in
    let (affinity, missing) = >>-ok _ _ first in
    let alone = check-ok (has_affinity s.requires) sandbox_with_affinity affinity in
    let launch = sandbox-launch std s s.sandbox block (check-ok _ _ missing) (check-ok _ _ both) in
    rw (alone, launch) refl

kind-ok :
    (s : Spec)
    → validate_identity s ≡ ok tt
    → (text_eq s.kind kind_sandbox || text_eq s.kind kind_mixin) ≡ true
unfolding validate_identity
kind-ok s h =
    let (h1, name) = >>-ok _ _ h in
    let (h2, named) = >>-ok _ _ h1 in
    let (h3, allowed) = >>-ok _ _ h2 in
    let bad = not (text_eq s.kind kind_sandbox || text_eq s.kind kind_mixin) in
    let known = check-ok bad kind_invalid allowed in ground (arith, known)

-- A specification that is accepted has what its kind needs to launch, and nothing that its kind
-- forbids: a mixin has neither a sandbox block nor mixins, and no parent in schema version 2; a sandbox
-- has a block with an image or extends a parent, never both, and requires no base agent.
pub validate-has_kind_shape :
    (std : Std) (s : Spec) → validate std s ≡ ok tt → has_kind_shape s ≡ true
unfolding has_kind_shape validate_kind_shape
validate-has_kind_shape std s h =
    let v = validate-Passes std s h in
    let known = kind-ok s v.identity in
    let by_kind =
      if text_eq s.kind kind_mixin
      then mixin_shape s
      else if text_eq s.kind kind_sandbox
      then sandbox_shape s
      else ok tt in
    let shape = (>>-ok by_kind _ v.shape).0 in
    elim (Bool-cases (text_eq s.kind kind_mixin)) [
      | inl e ↦ rw e (mixin_shape-ok s (rw e at shape))
      | inr e ↦
          let k : text_eq s.kind kind_sandbox ≡ true = ground (arith, known, e) in
          rw (e, k) (sandbox_shape-ok std s (rw (e, k) at shape) v.sandbox)
    ]
