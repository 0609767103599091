-- ===== src/Secret/Scope/Isolation.antt =====
-- Which credentials a sandbox is given.
use boks.Prelude.{◌≡◌, refl, sym, ap, ◌∙◌, ◌≢◌, inl, inr, false, [], ◌∷◌, arith, Bool-cases, ok}
use boks.Strings.{Text, text_eq, is_empty}
use boks.Strings.Laws.{text_eq_refl, text_eq_iff}
use boks.Dict.{Dict, insert}
use boks.Dict.Laws.{lookup-insert}
use boks.Secret.Scope.{found, map_provider, scoped_name, validate_scoped_name, for_sandbox}
use boks.Secret.Scope.Names.{stored_name, stored_name-injective}

validate-machine :
    (mine name : Text)
    → validate_scoped_name mine name ≡ ok tt
    → validate_scoped_name [] name ≡ ok tt
unfolding validate_scoped_name
validate-machine mine name h = ground arith

read-other :
    (m : Dict Text) (stored asked secret : Text)
    → stored ≢ asked
    → map_provider (insert stored secret m) asked ≡ map_provider m asked
unfolding map_provider
read-other m stored asked secret h = elim (Bool-cases (text_eq stored asked)) [
  | inl e ↦ absurd (h ((text_eq_iff stored asked).0 e))
  | inr e ↦ ap found (lookup-insert m stored asked secret ∙ rw e refl)
]

read-stored :
    (m : Dict Text) (stored secret : Text)
    → map_provider (insert stored secret m) stored ≡ ok (record { raw = secret })
unfolding map_provider
read-stored m stored secret =
    ap found (lookup-insert m stored stored secret) ∙ rw (text_eq_refl stored) refl

-- Storing a credential for one sandbox does not change what another sandbox is given, under any
-- service name.
pub for_sandbox-insert_other :
    (m : Dict Text) (mine other service name secret : Text)
    → validate_scoped_name mine name ≡ ok tt
    → validate_scoped_name other service ≡ ok tt
    → is_empty other ≡ false
    → mine ≢ other
    → for_sandbox (map_provider (insert (stored_name other service) secret m)) mine name
      ≡ for_sandbox (map_provider m) mine name
unfolding for_sandbox
for_sandbox-insert_other m [] other service name secret v w full apart =
    read-other m (stored_name other service) name secret
      (λ e. apart (sym (stored_name-injective other service [] name w v e).0))
for_sandbox-insert_other m (c ∷ mine) other service name secret v w full apart =
    let own =
      read-other m (stored_name other service) (scoped_name (c ∷ mine) name) secret
        (λ e. apart (sym (stored_name-injective other service (c ∷ mine) name w v e).0)) in
    let machine = read-other m (stored_name other service) name secret (λ e.
      other_full
        (stored_name-injective other service [] name w (validate-machine (c ∷ mine) name v) e).0) in
    rw (own, machine) refl
  where
    other_full : other ≢ []
    other_full e = cc (full, ap is_empty e)

-- A credential that is stored for a sandbox, or for the machine, is what is given there, whatever
-- the machine has under that name.
pub for_sandbox-insert :
    (m : Dict Text) (mine name secret : Text)
    → for_sandbox (map_provider (insert (stored_name mine name) secret m)) mine name
      ≡ ok (record { raw = secret })
unfolding for_sandbox
for_sandbox-insert m [] name secret = read-stored m name secret
for_sandbox-insert m (c ∷ mine) name secret =
    rw (read-stored m (scoped_name (c ∷ mine) name) secret) refl
