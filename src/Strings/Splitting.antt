-- ===== src/Strings/Splitting.antt =====
-- `cut`, `split`, `join` and `count` at a character that one part does not contain.
use boks.Prelude.{
  ℕ, ◌+◌, ◌≡◌, refl, ap, ◌∙◌, Bool, true, false, ◌||◌, none, some, List, [], ◌∷◌, ◌++◌, arith, ◌==◌,
  ==_refl, all, All,
}
use boks.Strings.{Text, contains, count, split, join, cut}

pub all-append :
    (p : ℕ → Bool) (s t : Text) → all p s ≡ true → all p t ≡ true → all p (s ++ t) ≡ true
all-append p [] t h k = k
all-append p (c ∷ s) t h k = ground (arith, all-append p s t)

pub cut-none : (c : ℕ) (s : Text) → contains c s ≡ false → cut c s ≡ none
unfolding cut contains
cut-none c [] h = refl
cut-none c (d ∷ s) h = ground (arith, cut-none c s)

pub cut-append : (c : ℕ) (a b : Text) → contains c a ≡ false → cut c (a ++ c ∷ b) ≡ some (a, b)
unfolding cut contains
cut-append c [] b h = rw (==_refl c) refl
cut-append c (d ∷ a) b h =
    let other : (d == c) ≡ false = ground arith in
    let rest : contains c a ≡ false = ground arith in rw (other, cut-append c a b rest) refl

pub split-none : (c : ℕ) (s : Text) → contains c s ≡ false → split c s ≡ s ∷ []
unfolding split contains
split-none c [] h = refl
split-none c (d ∷ s) h =
    let other : (d == c) ≡ false = ground arith in
    let rest : contains c s ≡ false = ground arith in rw (other, split-none c s rest) refl

pub split-append :
    (c : ℕ) (a b : Text) → contains c a ≡ false → split c (a ++ c ∷ b) ≡ a ∷ split c b
unfolding split contains
split-append c [] b h = rw (==_refl c) refl
split-append c (d ∷ a) b h =
    let other : (d == c) ≡ false = ground arith in
    let rest : contains c a ≡ false = ground arith in rw (other, split-append c a b rest) refl

abbrev pub Lacks : ℕ → Text → Type 0
Lacks c s = contains c s ≡ false

pub split-join :
    (c : ℕ) (t : Text) (ts : List Text)
    → All (Lacks c) (t ∷ ts)
    → split c (join c (t ∷ ts)) ≡ t ∷ ts
unfolding join
split-join c t [] h = split-none c t h.0
split-join c t (u ∷ ts) h =
    split-append c t (join c (u ∷ ts)) h.0 ∙ ap (λ l. t ∷ l) (split-join c u ts h.1)

pub count-none : (c : ℕ) (s : Text) → contains c s ≡ false → count c s ≡ 0
unfolding count contains
count-none c [] h = refl
count-none c (d ∷ s) h = ground (arith, count-none c s)

pub count-append : (c : ℕ) (s t : Text) → count c (s ++ t) ≡ count c s + count c t
unfolding count
count-append c [] t = omega arith
count-append c (d ∷ s) t = omega (arith, count-append c s t)

pub contains-append : (c : ℕ) (s t : Text) → contains c (s ++ t) ≡ (contains c s || contains c t)
unfolding contains
contains-append c [] t = refl
contains-append c (d ∷ s) t = ground (arith, contains-append c s t)
