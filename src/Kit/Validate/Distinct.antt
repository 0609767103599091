-- ===== src/Kit/Validate/Distinct.antt =====
-- What is known of the volumes of a specification that `Validate` accepts, and when a list of strings
-- is accepted.
use boks.Prelude.{
  ℕ, suc, ◌≡◌, refl, inl, inr, Bool, true, false, not, ◌&&◌, Option, none, some, List, [], ◌∷◌, map,
  arith, is_some, Bool-cases, any, all, err, ok, ◌>>◌,
}
use boks.Strings.{Text, text_eq, is_empty}
use boks.Strings.Laws.{text_eq_iff}
use boks.Dict.{Dict, lookup, insert}
use boks.Dict.Laws.{lookup-insert}
use boks.Kit.Spec.{Volume, Spec}
use boks.Kit.Validate.{validate}
use boks.Kit.Validate.Errors.{
  Field, KitError, entry_empty, entry_duplicate, volume_path_relative, Checked, check, Std,
}
use boks.Kit.Validate.Blocks.{
  list_entries, validate_string_list, is_absolute, unseen, volume_entry, validate_volumes,
}
use boks.Kit.Validate.Accepted.{>>-ok, check-ok, validate-Passes}

-- Whether no text occurs twice.
unfoldable pub are_distinct : List Text → Bool
unfolding text_eq
are_distinct [] = true
are_distinct (x ∷ xs) = not (any (text_eq x) xs) && are_distinct xs

abbrev pub paths : List Volume → List Text
paths vs = map (λ v. v.path) vs

abbrev pub all_fresh : Dict ℕ → List Volume → Bool
all_fresh seen vs = all (λ v. is_absolute v.path && not (is_some (lookup v.path seen))) vs

-- Volumes whose paths are not among those seen, one path more included.
all_fresh-insert :
    (p : Text) (i : ℕ) (seen : Dict ℕ) (vs : List Volume)
    → all_fresh (insert p i seen) vs ≡ true
    → (all_fresh seen vs ≡ true) × (any (text_eq p) (paths vs) ≡ false)
all_fresh-insert p i seen [] h = (refl, refl)
all_fresh-insert p i seen (v ∷ vs) h =
    let there = lookup-insert seen p v.path i in
    let a : all_fresh (insert p i seen) vs ≡ true = ground (arith, h) in
    let (old, other) = all_fresh-insert p i seen vs a in
    let h' = rw there at h in
    elim (Bool-cases (text_eq p v.path)) [
      | inl e ↦ let bad : false ≡ true = ground (arith, h', e) in cc
      | inr e ↦ (ground (arith, h', e, old), rw (e, other) refl)
    ]

unseen-ok :
    (std : Std) (i : ℕ) (found : Option ℕ) → unseen std i found ≡ ok tt → is_some found ≡ false
unseen-ok std i none h = refl
unseen-ok std i (some prev) h = cc

volume_entry-fresh :
    (std : Std) (i : ℕ) (seen : Dict ℕ) (v : Volume)
    → volume_entry std i seen v ≡ ok tt
    → (is_absolute v.path && not (is_some (lookup v.path seen))) ≡ true
unfolding volume_entry
volume_entry-fresh std i seen v h =
    let (h1, mode) = >>-ok _ _ h in
    let (h2, size) = >>-ok _ _ h1 in
    let (h3, dup) = >>-ok _ _ h2 in
    let (h4, absolute) = >>-ok _ _ h3 in
    let slash = check-ok (not (is_absolute v.path)) (volume_path_relative i) absolute in
    let new = unseen-ok std i (lookup v.path seen) dup in ground (arith, slash, new)

validate_volumes-fresh :
    (std : Std) (i : ℕ) (seen : Dict ℕ) (vs : List Volume)
    → validate_volumes std i seen vs ≡ ok tt
    → (all_fresh seen vs ≡ true) × (are_distinct (paths vs) ≡ true)
unfolding validate_volumes are_distinct
validate_volumes-fresh std i seen [] h = (refl, refl)
validate_volumes-fresh std i seen (v ∷ vs) h =
    let (entry, rest) = >>-ok (volume_entry std i seen v) _ h in
    let (fresh, apart) = validate_volumes-fresh std (suc i) (insert v.path i seen) vs rest in
    let (old, other) = all_fresh-insert v.path i seen vs fresh in
    (rw (volume_entry-fresh std i seen v entry, old) refl, rw (other, apart) refl)

all-first :
    {A : Type 0} (p q : A → Bool) (xs : List A) → all (λ x. p x && q x) xs ≡ true → all p xs ≡ true
all-first p q [] h = refl
all-first p q (x ∷ xs) h = ground (arith, all-first p q xs)

-- The volumes of a specification that is accepted have absolute paths, no two the same.
pub validate-volumes :
    (std : Std) (s : Spec)
    → validate std s ≡ ok tt
    → (all (λ v. is_absolute v.path) s.volumes ≡ true) × (are_distinct (paths s.volumes) ≡ true)
validate-volumes std s h =
    let (fresh, apart) =
      validate_volumes-fresh std 0 [] s.volumes (validate-Passes std s h).volumes in
    (all-first _ _ s.volumes fresh, apart)

abbrev pub is_ok : Checked → Bool
is_ok (err why) = false
is_ok (ok done) = true

is_ok-check : (bad : Bool) (why : KitError) → is_ok (check bad why) ≡ not bad
unfolding check
is_ok-check true why = refl
is_ok-check false why = refl

is_ok->> : (first rest : Checked) → is_ok (first >> rest) ≡ (is_ok first && is_ok rest)
is_ok->> (err why) rest = refl
is_ok->> (ok done) rest = refl

-- Whether an entry is not empty and not among those seen.
abbrev pub is_new : List Text → Text → Bool
is_new seen v = not (is_empty v) && not (any (text_eq v) seen)

text_eq_sym : (s t : Text) → text_eq s t ≡ text_eq t s
text_eq_sym s t = ground (arith, text_eq_iff s t, text_eq_iff t s)

all_new-cons :
    (v : Text) (seen vs : List Text)
    → all (is_new (v ∷ seen)) vs ≡ (all (is_new seen) vs && not (any (text_eq v) vs))
all_new-cons v seen [] = refl
all_new-cons v seen (w ∷ vs) = ground (arith, all_new-cons v seen vs, text_eq_sym v w)

all_new-nil : (l : List Text) → all (is_new []) l ≡ not (any is_empty l)
all_new-nil [] = refl
all_new-nil (v ∷ vs) = ground (arith, all_new-nil vs)

list_entries-distinct :
    (field : Field) (seen : List Text) (i : ℕ) (vs : List Text)
    → is_ok (list_entries field seen i vs) ≡ (all (is_new seen) vs && are_distinct vs)
unfolding list_entries are_distinct
list_entries-distinct field seen i [] = refl
list_entries-distinct field seen i (v ∷ vs) =
    let empty = check (is_empty v) (entry_empty field i) in
    let again = check (any (text_eq v) seen) (entry_duplicate field i) in
    let rest = list_entries field (v ∷ seen) (suc i) vs in
    let two = is_ok->> empty again in
    let all_three = is_ok->> (empty >> again) rest in
    let a = is_ok-check (is_empty v) (entry_empty field i) in
    let b = is_ok-check (any (text_eq v) seen) (entry_duplicate field i) in
    let more = list_entries-distinct field (v ∷ seen) (suc i) vs in
    let step = all_new-cons v seen vs in rw (all_three, two, a, b, more, step) (ground arith)

-- A list of strings is accepted exactly when none is empty and no two are the same.
pub validate_string_list-distinct :
    (field : Field) (l : List Text)
    → is_ok (validate_string_list field l) ≡ (not (any is_empty l) && are_distinct l)
unfolding validate_string_list
validate_string_list-distinct field l = rw (list_entries-distinct field [] 0 l, all_new-nil l) refl
