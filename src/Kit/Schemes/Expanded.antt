-- ===== src/Kit/Schemes/Expanded.antt =====
-- What `ExpandSchemes` leaves behind.
use boks.Prelude.{
  ℕ, suc, ◌≡◌, refl, inl, inr, Bool, true, false, not, Option, none, some, List, [], ◌∷◌, arith,
  if◌then◌else◌, Bool-cases, all, Result, err, ok, ok-injective, >>=-eq-ok,
}
use boks.Strings.{codes, text_eq, is_empty}
use boks.Kit.Spec.{ApiKeyInject, ApiKey, Credential, Spec}
use boks.Kit.Schemes.{
  SchemeError, expand_inject, expand_injects, expand_key, expand_credentials, expand_schemes,
}

abbrev pub is_expanded : ApiKeyInject → Bool
is_expanded inj = is_empty inj.scheme

abbrev pub is_key_expanded : Option ApiKey → Bool
is_key_expanded none = true
is_key_expanded (some k) = all is_expanded k.inject

-- Whether no entry of `inject` has a scheme.
abbrev pub are_expanded : List Credential → Bool
are_expanded cs = all (λ c. is_key_expanded c.api_key) cs

-- An error, or an entry without a scheme.
abbrev is_fine : Result SchemeError ApiKeyInject → Bool
is_fine (err why) = true
is_fine (ok inj) = is_expanded inj

is_fine-if :
    (b : Bool) (x y : Result SchemeError ApiKeyInject)
    → is_fine x ≡ true
    → is_fine y ≡ true
    → is_fine (if b then x else y) ≡ true
is_fine-if true x y h k = h
is_fine-if false x y h k = k

is_fine-expand_inject : (i j : ℕ) (inj : ApiKeyInject) → is_fine (expand_inject i j inj) ≡ true
unfolding expand_inject
is_fine-expand_inject i j inj = elim (Bool-cases (is_empty inj.scheme)) [
  | inl e ↦ rw e e
  | inr e ↦ rw e (
      is_fine-if (not (is_empty inj.format)) _ _ refl (
        is_fine-if (text_eq inj.scheme (codes "bearer")) _ _
          (is_fine-if (not (is_empty inj.username)) _ _ refl refl)
          (is_fine-if (text_eq inj.scheme (codes "basic")) _ _
            (is_fine-if (is_empty inj.username) _ _ refl refl) refl)))
]

expand_inject-is_expanded :
    (i j : ℕ) (inj out : ApiKeyInject) → expand_inject i j inj ≡ ok out → is_expanded out ≡ true
expand_inject-is_expanded i j inj out h = let fine = is_fine-expand_inject i j inj in rw h at fine

expand_injects-is_expanded :
    (i j : ℕ) (injects outs : List ApiKeyInject)
    → expand_injects i j injects ≡ ok outs
    → all is_expanded outs ≡ true
unfolding expand_injects
expand_injects-is_expanded i j [] outs h = let same = ok-injective h in rw (← same) refl
expand_injects-is_expanded i j (inj ∷ rest) outs h =
    let (inj', e, h1) = >>=-eq-ok (expand_inject i j inj) _ h in
    let (rest', e', h2) = >>=-eq-ok (expand_injects i (suc j) rest) _ h1 in
    let same = ok-injective h2 in
    rw
      (
        ← same,
        expand_inject-is_expanded i j inj inj' e,
        expand_injects-is_expanded i (suc j) rest rest' e',
      )
      refl

expand_key-is_expanded :
    (i : ℕ) (key out : Option ApiKey) → expand_key i key ≡ ok out → is_key_expanded out ≡ true
expand_key-is_expanded i none out h = let same = ok-injective h in rw (← same) refl
expand_key-is_expanded i (some k) out h =
    let (injects, e, h1) = >>=-eq-ok (expand_injects i 0 k.inject) _ h in
    let same = ok-injective h1 in rw (← same) (expand_injects-is_expanded i 0 k.inject injects e)

expand_credentials-are_expanded :
    (i : ℕ) (cs outs : List Credential)
    → expand_credentials i cs ≡ ok outs
    → are_expanded outs ≡ true
unfolding expand_credentials
expand_credentials-are_expanded i [] outs h = let same = ok-injective h in rw (← same) refl
expand_credentials-are_expanded i (c ∷ cs) outs h =
    let (key, e, h1) = >>=-eq-ok (expand_key i c.api_key) _ h in
    let (rest, e', h2) = >>=-eq-ok (expand_credentials (suc i) cs) _ h1 in
    let same = ok-injective h2 in
    rw
      (
        ← same,
        expand_key-is_expanded i c.api_key key e,
        expand_credentials-are_expanded (suc i) cs rest e',
      )
      refl

expand_injects-done :
    (i j : ℕ) (injects : List ApiKeyInject)
    → all is_expanded injects ≡ true
    → expand_injects i j injects ≡ ok injects
unfolding expand_injects expand_inject
expand_injects-done i j [] h = refl
expand_injects-done i j (inj ∷ rest) h =
    let first : is_empty inj.scheme ≡ true = ground (arith, h) in
    let others : all is_expanded rest ≡ true = ground (arith, h) in
    rw (first, expand_injects-done i (suc j) rest others) refl

expand_key-done :
    (i : ℕ) (key : Option ApiKey) → is_key_expanded key ≡ true → expand_key i key ≡ ok key
expand_key-done i none h = refl
expand_key-done i (some k) h = rw (expand_injects-done i 0 k.inject h) refl

expand_credentials-done :
    (i : ℕ) (cs : List Credential) → are_expanded cs ≡ true → expand_credentials i cs ≡ ok cs
unfolding expand_credentials
expand_credentials-done i [] h = refl
expand_credentials-done i (c ∷ cs) h =
    let first : is_key_expanded c.api_key ≡ true = ground (arith, h) in
    let others : are_expanded cs ≡ true = ground (arith, h) in
    rw (expand_key-done i c.api_key first, expand_credentials-done (suc i) cs others) refl

-- What `ExpandSchemes` returns has no scheme left, and expanding it again changes nothing.
pub expand_schemes-expanded :
    (s s' : Spec)
    → expand_schemes s ≡ ok s'
    → (are_expanded s'.credentials ≡ true) × (expand_schemes s' ≡ ok s')
unfolding expand_schemes
expand_schemes-expanded s s' h =
    let (cs, e, h1) = >>=-eq-ok (expand_credentials 0 s.credentials) _ h in
    let same = ok-injective h1 in
    let left : are_expanded s'.credentials ≡ true =
      rw (← same) (expand_credentials-are_expanded 0 s.credentials cs e) in
    (left, rw (expand_credentials-done 0 s'.credentials left) refl)
