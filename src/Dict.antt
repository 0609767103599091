-- ===== src/Dict.antt =====
-- Go maps with string keys, as association lists. Where the sources iterate over a map they sort the
-- keys first, but for one loop of `Kit/V1/Credentials`.
pub mod Laws
pub mod Keys
use boks.Prelude.{Option, none, some, List, [], ◌∷◌, if◌then◌else◌}
use boks.Strings.{Text, text_eq, text_lt}

abbrev pub Dict {ℓ} : Type ℓ → Type ℓ
Dict V = List (Text × V)

module _ {ℓ} {V : Type ℓ} where
  unfoldable pub lookup : Text → Dict V → Option V
  lookup k [] = none
  lookup k ((j, v) ∷ m) = if text_eq j k then some v else lookup k m

  unfoldable pub insert : Text → V → Dict V → Dict V
  insert k v [] = (k, v) ∷ []
  insert k v ((j, w) ∷ m) = if text_eq j k then (k, v) ∷ m else (j, w) ∷ insert k v m

  unfoldable pub delete : Text → Dict V → Dict V
  delete k [] = []
  delete k ((j, w) ∷ m) = let rest = delete k m in if text_eq j k then rest else (j, w) ∷ rest

  abbrev pub keys : Dict V → List Text
  keys [] = []
  keys ((j, v) ∷ m) = j ∷ keys m

unfoldable pub insert_sorted : Text → List Text → List Text
insert_sorted k [] = k ∷ []
insert_sorted k (j ∷ ks) =
    let rest = insert_sorted k ks in if text_lt j k then j ∷ rest else k ∷ j ∷ ks

-- `sort.Strings`
unfoldable pub sort_texts : List Text → List Text
unfolding insert_sorted
sort_texts [] = []
sort_texts (t ∷ ts) = insert_sorted t (sort_texts ts)

-- `sortedKeys`
unfoldable pub sorted_keys {ℓ} : {V : Type ℓ} → Dict V → List Text
unfolding insert_sorted
sorted_keys [] = []
sorted_keys ((j, v) ∷ m) = insert_sorted j (sorted_keys m)
