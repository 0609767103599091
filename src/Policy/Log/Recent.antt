-- ===== src/Policy/Log/Recent.antt =====
-- The ring buffer keeps the most recent entries: it refines the list of all that were recorded.
use native.Mathlib.Nat.{mod-eq_of_lt, add-mod_right, mod_self}
use mathlib.Core.Path.{ap₂}
use boks.Prelude.{
  ℕ, zero, suc, ◌+◌, ◌-◌, ◌%◌, ◌<◌, ◌≡◌, refl, sym, ap, ◌∙◌, true, false, Option, none, some, List,
  [], ◌∷◌, ◌++◌, append-nil, append_assoc, arith, length, get_elem?, set, drop, replicate,
  length-append,
}
use boks.Policy.Log.{Ring, new_ring, put, cons_some, window, last_n, recent}

module _ {ℓ} {A : Type ℓ} where
  get_elem?-middle : (a : List A) (x : A) (c : List A) → get_elem? (a ++ x ∷ c) (length a) ≡ some x
  get_elem?-middle [] x c = refl
  get_elem?-middle (y ∷ a) x c = get_elem?-middle a x c

  set-middle : (a : List A) (x y : A) (c : List A) → set (a ++ x ∷ c) (length a) y ≡ a ++ y ∷ c
  set-middle [] x y c = refl
  set-middle (z ∷ a) x y c = ap (λ l. z ∷ l) (set-middle a x y c)

  mod-middle : (a : List A) (x : A) (c : List A) → length a % length (a ++ x ∷ c) ≡ length a
  mod-middle a x c = mod-eq_of_lt (omega (arith, length-append a (x ∷ c)))

  -- A stretch inside the buffer is read as it stands.
  window-middle :
      (es : List A) (s : ℕ) (a b c : List A)
      → es ≡ a ++ (b ++ c)
      → s ≡ length a
      → window es s (length b) ≡ b
  unfolding window
  window-middle es s a [] c e h = refl
  window-middle es s a (x ∷ b) c e h = rw (
    window-middle es (s + 1) (a ++ x ∷ []) b c (e ∙ sym (append_assoc a (x ∷ []) (b ++ c)))
        (omega (arith, length-append a (x ∷ []))),
    h,
    e,
    mod-middle a x (b ++ c),
    get_elem?-middle a x (b ++ c),
  )

  cons_some-append : (o : Option A) (xs ys : List A) → cons_some o (xs ++ ys) ≡ cons_some o xs ++ ys
  cons_some-append none xs ys = refl
  cons_some-append (some x) xs ys = refl

  window-append :
      (es : List A) (s t u j k : ℕ)
      → t ≡ s + j
      → u ≡ j + k
      → window es s u ≡ window es s j ++ window es t k
  unfolding window
  window-append es s t u zero k h e =
      let t-s : t ≡ s = omega arith in let u-k : u ≡ k = omega arith in rw (t-s, u-k)
  window-append es s t zero (suc j) k h e = absurd (omega arith)
  window-append es s t (suc u) (suc j) k h e =
      rw (window-append es (s + 1) t u j k (omega arith) (omega arith))
        (cons_some-append (get_elem? es (s % length es)) (window es (s + 1) j) (window es t k))

  window-wrap : (es : List A) (s t k : ℕ) → t ≡ s + length es → window es t k ≡ window es s k
  unfolding window
  window-wrap es s t zero h = refl
  window-wrap es s t (suc k) h =
      rw (window-wrap es (s + 1) (t + 1) k (omega arith), h, add-mod_right s (length es))

  -- The whole buffer, read from the seam on.
  window-around :
      (front back : List A)
      → window (front ++ back) (length front) (length (front ++ back)) ≡ back ++ front
  window-around front back =
      let es = front ++ back in
      let n = length-append front back in
      window-append es (length front) (length front + length back) (length es) (length back)
        (length front) refl (omega arith)
      ∙ ap₂ ◌++◌
          (window-middle es (length front) front back []
            (ap (λ l. front ++ l) (sym (append-nil back))) refl)
          (window-wrap es 0 (length front + length back) (length front) (omega arith)
            ∙ window-middle es 0 [] front back refl refl)

  -- `recorded` is everything that was recorded so far. While the buffer fills, it is at the front;
  -- then the buffer holds the end of it, with a seam at the next slot.
  pub data Refines (l : Ring A) (recorded : List A) : Type ℓ where
    filling :
        (back : List A)
        → l.entries ≡ recorded ++ back
        → l.next ≡ length recorded
        → 0 < length back
        → l.full ≡ false
        → Refines l recorded
    wrapped :
        (front back forgotten : List A)
        → l.entries ≡ front ++ back
        → l.next ≡ length front
        → 0 < length back
        → l.full ≡ true
        → recorded ≡ forgotten ++ (back ++ front)
        → Refines l recorded

  module _ (d : A) (l : Ring A) (front back : List A) (x : A) where
    entries-put :
        l.entries ≡ front ++ x ∷ back
        → l.next ≡ length front
        → (put d l).entries ≡ front ++ d ∷ back
    unfolding put
    entries-put e h = rw (e, h) (set-middle front x d back)

    next-put :
        l.entries ≡ front ++ x ∷ back
        → l.next ≡ length front
        → 0 < length back
        → (put d l).next ≡ length (front ++ d ∷ [])
    unfolding put
    next-put e h room =
        rw (e, h)
          (mod-eq_of_lt (omega (arith, length-append front (x ∷ back)))
            ∙ omega (arith, length-append front (d ∷ [])))

    full-put :
        l.entries ≡ front ++ x ∷ back
        → l.next ≡ length front
        → 0 < length back
        → (put d l).full ≡ l.full
    unfolding put
    full-put e h room = let n = next-put e h room in ground (arith, n, length-append front (d ∷ []))

  module _ (d : A) (l : Ring A) (front : List A) (x : A) where
    next-put_last : l.entries ≡ front ++ x ∷ [] → l.next ≡ length front → (put d l).next ≡ 0
    unfolding put
    next-put_last e h = rw (e, h, length-append front (x ∷ [])) (mod_self (length front + 1))

    full-put_last : l.entries ≡ front ++ x ∷ [] → l.next ≡ length front → (put d l).full ≡ true
    unfolding put
    full-put_last e h = ground (arith, next-put_last e h)

  snoc-append : (a : List A) (x : A) (b : List A) → a ++ x ∷ b ≡ (a ++ x ∷ []) ++ b
  snoc-append a x b = sym (append_assoc a (x ∷ []) b)

  pub Refines-put :
      {l : Ring A} {recorded : List A} (d : A)
      → Refines l recorded
      → Refines (put d l) (recorded ++ d ∷ [])
  Refines-put d (filling [] e h room f) = absurd (omega arith)
  Refines-put {l} {recorded = r} d (filling (x ∷ []) e h room f) =
      wrapped [] (r ++ d ∷ []) [] (entries-put d l r [] x e h) (next-put_last d l r x e h)
        (omega (arith, length-append r (d ∷ []))) (full-put_last d l r x e h)
        (sym (append-nil (r ++ d ∷ [])))
  Refines-put {l} {recorded = r} d (filling (x ∷ y ∷ b) e h room f) =
      filling (y ∷ b) (entries-put d l r (y ∷ b) x e h ∙ snoc-append r d (y ∷ b))
        (next-put d l r (y ∷ b) x e h (omega arith)) (omega arith)
        (full-put d l r (y ∷ b) x e h (omega arith) ∙ f)
  Refines-put d (wrapped front [] forgotten e h room f k) = absurd (omega arith)
  Refines-put {l} d (wrapped front (x ∷ []) forgotten e h room f k) =
      wrapped [] (front ++ d ∷ []) (forgotten ++ x ∷ []) (entries-put d l front [] x e h)
        (next-put_last d l front x e h) (omega (arith, length-append front (d ∷ [])))
        (full-put_last d l front x e h) (rw k (simp (append_assoc, append-nil)))
  Refines-put {l} d (wrapped front (x ∷ y ∷ b) forgotten e h room f k) =
      wrapped (front ++ d ∷ []) (y ∷ b) (forgotten ++ x ∷ [])
        (entries-put d l front (y ∷ b) x e h ∙ snoc-append front d (y ∷ b))
        (next-put d l front (y ∷ b) x e h (omega arith)) (omega arith)
        (full-put d l front (y ∷ b) x e h (omega arith) ∙ f) (rw k (simp (append_assoc)))

  -- What the buffer shows once everything in a list has been recorded.
  pub put_all : List A → Ring A → Ring A
  put_all [] l = l
  put_all (d ∷ ds) l = put_all ds (put d l)

  Refines-put_all :
      (ds : List A) (l : Ring A) (recorded : List A)
      → Refines l recorded
      → Refines (put_all ds l) (recorded ++ ds)
  unfolding put_all
  Refines-put_all [] l r h = rw (append-nil r) h
  Refines-put_all (d ∷ ds) l r h =
      rw (snoc-append r d ds) (Refines-put_all ds (put d l) (r ++ d ∷ []) (Refines-put d h))

  length-replicate : (n : ℕ) (a : A) → length (replicate n a) ≡ n
  length-replicate zero a = refl
  length-replicate (suc n) a = ap suc (length-replicate n a)

  length-set : (xs : List A) (i : ℕ) (a : A) → length (set xs i a) ≡ length xs
  length-set [] i a = refl
  length-set (x ∷ xs) zero a = refl
  length-set (x ∷ xs) (suc i) a = ap suc (length-set xs i a)

  length-put_all : (ds : List A) (l : Ring A) → length (put_all ds l).entries ≡ length l.entries
  unfolding put_all put
  length-put_all [] l = refl
  length-put_all (d ∷ ds) l = length-put_all ds (put d l) ∙ length-set l.entries l.next d

  drop-append : (a b : List A) (n : ℕ) → n ≡ length a → drop n (a ++ b) ≡ b
  drop-append [] b n e = rw e
  drop-append (x ∷ a) b zero e = absurd (omega arith)
  drop-append (x ∷ a) b (suc n) e = drop-append a b n (omega arith)

  drop-none : (xs : List A) (n : ℕ) → n ≡ 0 → drop n xs ≡ xs
  drop-none xs zero e = refl
  drop-none xs (suc n) e = absurd (omega arith)

  recent-Refines :
      {l : Ring A} {recorded : List A} (n : ℕ)
      → Refines l recorded
      → recent l n ≡ last_n n (drop (length recorded - length l.entries) recorded)
  unfolding recent
  recent-Refines {l} {recorded = r} n (filling back e h room f) =
      rw (f, e, h, window-middle (r ++ back) 0 [] r back refl refl)
        (ap (last_n n) (sym (drop-none r _ (omega (arith, length-append r back)))))
  recent-Refines {l} {recorded = r} n (wrapped front back forgotten e h room f k) =
      rw (f, e, h, window-around front back)
        (ap (last_n n) (
          sym (
            rw k (
              drop-append forgotten (back ++ front) _ (
                omega (
                  arith,
                  length-append forgotten (back ++ front),
                  length-append back front,
                  length-append front back,
                ))))))

  length-new_ring : (z : A) (c : ℕ) → 0 < c → length (new_ring z c).entries ≡ c
  unfolding new_ring
  length-new_ring z c room = ground (arith, length-replicate c z)

  Refines-new_ring : (z : A) (c : ℕ) → 0 < c → Refines (new_ring z c) []
  unfolding new_ring
  Refines-new_ring z c room =
      let size = length-new_ring z c room in
      filling (new_ring z c).entries refl refl (omega (arith, size)) refl

  -- A log of a capacity that is not 0 keeps, oldest first, the last entries that were recorded, as
  -- many as its capacity, and `Recent` returns at most the last `n` of them, or all for `n` = 0.
  pub recent-put_all :
      (zero_value : A) (capacity n : ℕ) (ds : List A)
      → 0 < capacity
      → recent (put_all ds (new_ring zero_value capacity)) n
        ≡ last_n n (drop (length ds - capacity) ds)
  recent-put_all z c n ds room =
      recent-Refines n (Refines-put_all ds (new_ring z c) [] (Refines-new_ring z c room))
      ∙ ap (λ k. last_n n (drop (length ds - k) ds))
          (length-put_all ds (new_ring z c) ∙ length-new_ring z c room)
