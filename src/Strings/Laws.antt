-- ===== src/Strings/Laws.antt =====
-- laws
use boks.Prelude.{
  ℕ, ◌≡◌, refl, ap, ◌↔◌, inl, inr, Bool, true, false, [], ◌∷◌, arith, ==_iff, Bool-cases, any, all,
}
use boks.Strings.{
  Text, text_eq, is_space, trim_left, cons_unless_space, trim_right, trim_space, contains,
}

pub text_eq_refl : (s : Text) → text_eq s s ≡ true
unfolding text_eq
text_eq_refl [] = refl
text_eq_refl (c ∷ s) = ground (arith, text_eq_refl s)

text_eq_sound : (s t : Text) → text_eq s t ≡ true → s ≡ t
unfolding text_eq
text_eq_sound [] [] h = refl
text_eq_sound [] (b ∷ t) h = cc
text_eq_sound (a ∷ s) [] h = cc
text_eq_sound (a ∷ s) (b ∷ t) h = ground (arith, text_eq_sound s t)

pub text_eq_iff : (s t : Text) → (text_eq s t ≡ true) ↔ (s ≡ t)
text_eq_iff s t = (text_eq_sound s t, λ e. rw e (text_eq_refl t))

-- A text of characters that pass a test, none of which is a space, is not trimmed.
trim_left-none : (s : Text) → any is_space s ≡ false → trim_left s ≡ s
unfolding trim_left
trim_left-none [] h = refl
trim_left-none (c ∷ s) h = elim (Bool-cases (is_space c)) [
  | inl e ↦ ground (arith, e)
  | inr e ↦ rw e refl
]

trim_right-none : (s : Text) → any is_space s ≡ false → trim_right s ≡ s
unfolding trim_right
trim_right-none [] h = refl
trim_right-none (c ∷ []) h = elim (Bool-cases (is_space c)) [
  | inl e ↦ ground (arith, e)
  | inr e ↦ rw e refl
]
trim_right-none (c ∷ d ∷ s) h = elim (Bool-cases (is_space c)) [
  | inl e ↦ ground (arith, e)
  | inr e ↦
      let later : any is_space (d ∷ s) ≡ false = ground (arith, e) in
      rw (trim_right-none (d ∷ s) later, cons_unless_space) refl
]

pub trim_space-none : (s : Text) → any is_space s ≡ false → trim_space s ≡ s
unfolding trim_space
trim_space-none s h = rw (trim_left-none s h) (trim_right-none s h)

-- A weaker test holds of every character too.
pub all-weaken :
    (p q : ℕ → Bool) (s : Text)
    → ((c : ℕ) → p c ≡ true → q c ≡ true)
    → all p s ≡ true
    → all q s ≡ true
all-weaken p q [] w h = refl
all-weaken p q (c ∷ s) w h = ground (arith, w c, all-weaken p q s w)

-- A test that fails at every character that passes another.
pub any-excluded :
    (p q : ℕ → Bool) (s : Text)
    → ((c : ℕ) → p c ≡ true → q c ≡ false)
    → all p s ≡ true
    → any q s ≡ false
any-excluded p q [] w h = refl
any-excluded p q (c ∷ s) w h = ground (arith, w c, any-excluded p q s w)

pub contains-excluded :
    (p : ℕ → Bool) (d : ℕ) (s : Text) → p d ≡ false → all p s ≡ true → contains d s ≡ false
unfolding contains
contains-excluded p d [] w h = refl
contains-excluded p d (c ∷ s) w h =
    ground (arith, ==_iff c d, contains-excluded p d s w, ap p {x = c} {y = d})
