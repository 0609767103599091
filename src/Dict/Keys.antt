-- ===== src/Dict/Keys.antt =====
-- Lemmas on the sorted keys of a map.
use boks.Prelude.{◌≡◌, refl, inl, inr, true, List, [], ◌∷◌, is_some, Bool-cases, All, All-imp}
use boks.Strings.{Text, text_eq, text_lt}
use boks.Strings.Laws.{text_eq_refl}
use boks.Dict.{Dict, lookup, insert_sorted, sorted_keys}

module _ {ℓ} {V : Type ℓ} where
  unfoldable pub IsKey : Dict V → Text → Type 0
  IsKey m k = is_some (lookup k m) ≡ true

  insert_sorted-IsKey :
      (m : Dict V) (k : Text) (ks : List Text)
      → IsKey m k
      → All (IsKey m) ks
      → All (IsKey m) (insert_sorted k ks)
  unfolding insert_sorted
  insert_sorted-IsKey m k [] h g = (h, tt)
  insert_sorted-IsKey m k (j ∷ ks) h (g, gs) = elim (Bool-cases (text_lt j k)) [
    | inl e ↦ rw e (g, insert_sorted-IsKey m k ks h gs)
    | inr e ↦ rw e (h, (g, gs))
  ]

  IsKey-cons : (j : Text) (v : V) (m : Dict V) (k : Text) → IsKey m k → IsKey ((j, v) ∷ m) k
  unfolding IsKey lookup
  IsKey-cons j v m k h = elim (Bool-cases (text_eq j k)) [ inl e ↦ rw e refl | inr e ↦ rw e h ]

  pub sorted_keys-IsKey : (m : Dict V) → All (IsKey m) (sorted_keys m)
  unfolding sorted_keys IsKey lookup
  sorted_keys-IsKey [] = tt
  sorted_keys-IsKey ((j, v) ∷ m) =
      insert_sorted-IsKey ((j, v) ∷ m) j (sorted_keys m) (rw (text_eq_refl j) refl) (
        All-imp (IsKey m) (IsKey ((j, v) ∷ m)) (sorted_keys m) (IsKey-cons j v m)
          (sorted_keys-IsKey m))
