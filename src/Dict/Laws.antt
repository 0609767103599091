-- ===== src/Dict/Laws.antt =====
-- What a lookup finds after a write or a deletion.
use boks.Prelude.{◌≡◌, refl, none, some, [], ◌∷◌, arith, if◌then◌else◌}
use boks.Strings.{Text, text_eq}
use boks.Strings.Laws.{text_eq_iff}
use boks.Dict.{Dict, lookup, insert, delete}

module _ {ℓ} {V : Type ℓ} where
  -- What is found after a write: the value written under its key, and what was there elsewhere.
  pub lookup-insert :
      (m : Dict V) (name other : Text) (value : V)
      → lookup other (insert name value m)
        ≡ (if text_eq name other then some value else lookup other m)
  unfolding lookup insert
  lookup-insert [] name other value = refl
  lookup-insert ((held, w) ∷ m) name other value = ground (
    arith,
    text_eq_iff name other,
    text_eq_iff held name,
    text_eq_iff held other,
    lookup-insert m name other value,
  )

  pub lookup-delete :
      (m : Dict V) (name other : Text)
      → lookup other (delete name m) ≡ (if text_eq name other then none else lookup other m)
  unfolding lookup delete
  lookup-delete [] name other = ground arith
  lookup-delete ((held, w) ∷ m) name other = ground (
    arith,
    text_eq_iff name other,
    text_eq_iff held name,
    text_eq_iff held other,
    lookup-delete m name other,
  )

pub ruleset dict_laws = (lookup-insert, lookup-delete)
