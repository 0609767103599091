-- ===== src/Secret/Service/Prefer.antt =====
-- Which credentials `PreferOAuth` keeps.
use mathlib.Core.List.{Mem, mem-cons_self, mem-cons_of_mem}
use boks.Prelude.{
  ◌≡◌, refl, sym, ◌∙◌, ◌⊎◌, inl, inr, Bool, true, false, not, ◌&&◌, List, [], ◌∷◌, arith,
  Bool-cases, Option-cases, has_any, any, all, keep_if, All, any-append, any-keep_if, All-imp,
}
use boks.Strings.{Text, text_eq}
use boks.Secret.Inject.{Inject}
use boks.Secret.Credential.{Credential}
use boks.Secret.Service.{domain_text, resource_texts, covered_hosts, is_covered, prefer_oauth}

-- Whether a credential's OAuth half has a resource host of a text.
abbrev pub has_resource : Text → Credential → Bool
has_resource t c = any (text_eq t) (resource_texts c.oauth)

any-covered_hosts :
    (t : Text) (cs : List Credential) → any (text_eq t) (covered_hosts cs) ≡ any (has_resource t) cs
unfolding covered_hosts
any-covered_hosts t [] = refl
any-covered_hosts t (c ∷ cs) =
    let first = any-append (text_eq t) (resource_texts c.oauth) (covered_hosts cs) in
    rw (first, any-covered_hosts t cs) refl

has_resource-kept :
    (t : Text) (hosts : List Text) (c : Credential)
    → (not (is_covered hosts c) && has_resource t c) ≡ has_resource t c
unfolding is_covered
has_resource-kept t hosts c = elim (Option-cases c.oauth) [
  | inl e ↦ rw e (ground arith)
  | inr (o, e) ↦ rw e refl
]

any-pointwise :
    (p q : Credential → Bool) (cs : List Credential)
    → ((c : Credential) → p c ≡ q c)
    → any p cs ≡ any q cs
any-pointwise p q [] h = refl
any-pointwise p q (c ∷ cs) h = rw (h c, any-pointwise p q cs h) refl

any-kept :
    (t : Text) (hosts : List Text) (cs : List Credential)
    → any (has_resource t) (keep_if (λ c. not (is_covered hosts c)) cs) ≡ any (has_resource t) cs
any-kept t hosts cs =
    any-keep_if (has_resource t) (λ c. not (is_covered hosts c)) cs
    ∙ any-pointwise (λ c. not (is_covered hosts c) && has_resource t c) (has_resource t) cs
        (has_resource-kept t hosts)

-- A credential is kept, or for each of its rules one that is kept has the rule's domain as a resource
-- host of its OAuth half.
pub data IsServed (kept : List Credential) (c : Credential) : Type 0 where
  is_kept : Mem c kept → IsServed kept c
  replaced : (all (λ r. any (has_resource (domain_text r)) kept) c.inject ≡ true) → IsServed kept c

all-pointwise :
    (p q : Inject → Bool) (rs : List Inject)
    → ((r : Inject) → p r ≡ q r)
    → all p rs ≡ true
    → all q rs ≡ true
all-pointwise p q [] h k = refl
all-pointwise p q (r ∷ rs) h k = ground (arith, h r, k, all-pointwise p q rs h)

Passes : (Credential → Bool) → List Credential → Credential → Type 0
Passes p kept c = Mem c kept ⊎ (p c ≡ false)

Passes-cons :
    (p : Credential → Bool) (c c' : Credential) (cs : List Credential)
    → Passes p (keep_if p cs) c'
    → Passes p (keep_if p (c ∷ cs)) c'
unfolding Passes
Passes-cons p c c' cs h = elim (Bool-cases (p c)) [
  | inl e ↦ rw e (elim h [ inl m ↦ inl (mem-cons_of_mem c m) | inr f ↦ inr f ])
  | inr e ↦ rw e h
]

Passes-keep_if : (p : Credential → Bool) (cs : List Credential) → All (Passes p (keep_if p cs)) cs
Passes-keep_if p [] = tt
Passes-keep_if p (c ∷ cs) = (
  elim (Bool-cases (p c)) [
    | inl e ↦ rw e (unfold Passes in inl mem-cons_self)
    | inr e ↦ unfold Passes in inr e
  ],
  All-imp (Passes p (keep_if p cs)) (Passes p (keep_if p (c ∷ cs))) cs
      (λ c' h. Passes-cons p c c' cs h) (Passes-keep_if p cs),
)

Served-imp :
    (cs : List Credential) (c : Credential)
    → Passes
        (λ x. not (is_covered (covered_hosts cs) x))
        (keep_if (λ x. not (is_covered (covered_hosts cs) x)) cs)
        c
    → IsServed (keep_if (λ x. not (is_covered (covered_hosts cs) x)) cs) c
unfolding Passes is_covered
Served-imp cs c (inl m) = is_kept m
Served-imp cs c (inr f) =
    let hosts = covered_hosts cs in
    let kept = keep_if (λ x. not (is_covered hosts x)) cs in
    let every : all (λ r. any (text_eq (domain_text r)) hosts) c.inject ≡ true =
      ground (arith, f) in
    replaced (
      all-pointwise (λ r. any (text_eq (domain_text r)) hosts)
        (λ r. any (has_resource (domain_text r)) kept) c.inject
        (λ r. any-covered_hosts (domain_text r) cs ∙ sym (any-kept (domain_text r) hosts cs)) every)

Mem-All : (cs : List Credential) → All (λ c. Mem c cs) cs
Mem-All [] = tt
Mem-All (c ∷ cs) = (
  mem-cons_self,
  All-imp (λ x. Mem x cs) (λ x. Mem x (c ∷ cs)) cs (λ x m. mem-cons_of_mem c m) (Mem-All cs),
)

-- Every credential given to `PreferOAuth` is kept, or each domain of its rules is a resource host of
-- the OAuth half of a credential that is kept.
pub prefer_oauth-IsServed : (cs : List Credential) → All (IsServed (prefer_oauth cs).0) cs
unfolding prefer_oauth
prefer_oauth-IsServed cs =
    let hosts = covered_hosts cs in
    let p : Credential → Bool = λ c. not (is_covered hosts c) in
    elim (Bool-cases (has_any hosts)) [
      | inl e ↦ rw e (
          All-imp (Passes p (keep_if p cs)) (IsServed (keep_if p cs)) cs (Served-imp cs)
            (Passes-keep_if p cs))
      | inr e ↦ rw e (All-imp (λ c. Mem c cs) (IsServed cs) cs (λ c m. is_kept m) (Mem-All cs))
    ]
