-- ===== src/Network/Gateway/Link/Account.antt =====
-- Lemmas on the connections and the lines of a gateway, by their parts.
use boks.Prelude.{
  ℕ, ◌+◌, ◌≡◌, refl, inl, inr, Bool, true, false, ◌||◌, Option, none, some, List, [], ◌∷◌, arith,
  ◌==◌, is_some, ==_iff, Bool-cases, length, any, all, keep_if, length-append,
}
use boks.Strings.{Text}
use boks.Network.Gateway.{
  Hand, free, fresh, turned_away, Gateway, notice_lines, notice, close_conn, clear_if, with_held,
}
use boks.Network.Gateway.Link.{
  is_holder, in_hand, is_accounted, IsExclusive, lines_of, all-weaken, all-close, any-close,
  length-keep_if, all-keep_if,
}

pub IsExclusive-claim :
    (s : Bool) (conn : Option ℕ) (c : ℕ) (served : List ℕ)
    → (s || is_some conn) ≡ false
    → IsExclusive s conn served
    → IsExclusive s (some c) (c ∷ served)
IsExclusive-claim s none c [] h v = record {
  one = omega arith;
  carried = ground arith;
  at_rest = ground arith;
}
IsExclusive-claim s none c (x ∷ xs) h v =
    let bad : false ≡ true = ground (arith, h, v.carried) in cc
IsExclusive-claim s (some d) c served h v = ground arith

ended-carried :
    (b : Bool) (conn : Option ℕ) (p : ℕ → Bool) (served : List ℕ)
    → (b || all (is_holder conn) served) ≡ true
    → (b || all (is_holder conn) (keep_if p served)) ≡ true
ended-carried true conn p served h = refl
ended-carried false conn p served h = all-keep_if (is_holder conn) p served h

pub IsExclusive-ended :
    (s : Bool) (conn : Option ℕ) (p : ℕ → Bool) (served : List ℕ)
    → IsExclusive s conn served
    → IsExclusive s conn (keep_if p served)
IsExclusive-ended s conn p served v = record {
  one = omega (arith, length-keep_if p served, v.one);
  carried = ended-carried s conn p served v.carried;
  at_rest = v.at_rest;
}

released-carried :
    (b : Bool) (d' c' : ℕ) (xs : List ℕ)
    → (d' == c') ≡ true
    → any (λ x. x == c') xs ≡ false
    → (b || all (is_holder (some d')) xs) ≡ true
    → (b || all (is_holder none) xs) ≡ true
released-carried b d' c' [] e' h' k = ground arith
released-carried b d' c' (x ∷ xs) e' h' k =
    ground (arith, e', h', k, ==_iff d' c', ==_iff x c', ==_iff x d')

pub IsExclusive-release :
    (s : Bool) (conn : Option ℕ) (c : ℕ) (served : List ℕ)
    → any (λ d. d == c) served ≡ false
    → IsExclusive s conn served
    → IsExclusive s (clear_if conn c) served
IsExclusive-release s none c served h v = v
IsExclusive-release s (some d) c served h v = elim (Bool-cases (d == c)) [
  | inr e ↦ rw e v
  | inl e ↦ rw e (record {
    one = v.one;
    carried = released-carried s d c served e h v.carried;
    at_rest = ground arith;
  })
]

pub IsExclusive-stop :
    (s : Bool) (conn : Option ℕ) (served : List ℕ)
    → IsExclusive s conn served
    → IsExclusive true none served
IsExclusive-stop s conn served v = record { one = v.one; carried = refl; at_rest = refl }

-- From one account of the open connections to another one.
pub accounted-to :
    (conn conn' : Option ℕ) (hand hand' : Hand) (due due' open' : List ℕ)
    → ((x : ℕ) → is_accounted conn hand due x ≡ true → is_accounted conn' hand' due' x ≡ true)
    → all (is_accounted conn hand due) open' ≡ true
    → all (is_accounted conn' hand' due') open' ≡ true
accounted-to conn conn' hand hand' due due' open' h k =
    all-weaken (is_accounted conn hand due) (is_accounted conn' hand' due') open' h k

pub accounted-hand :
    (conn : Option ℕ) (hand hand' : Hand) (due open' : List ℕ)
    → ((x : ℕ) → in_hand hand x ≡ in_hand hand' x)
    → all (is_accounted conn hand due) open' ≡ true
    → all (is_accounted conn hand' due) open' ≡ true
accounted-hand conn hand hand' due open' h k =
    accounted-to conn conn hand hand' due due open' (λ x e. rw (← h x) e) k

pub accounted-claim :
    (s : Bool) (conn : Option ℕ) (c : ℕ) (due open' : List ℕ)
    → (s || is_some conn) ≡ false
    → all (is_accounted conn (fresh c) due) open' ≡ true
    → all (is_accounted (some c) free due) open' ≡ true
accounted-claim s none c due open' h k =
    accounted-to none (some c) (fresh c) free due due open' (λ x e. ground (arith, e)) k
accounted-claim s (some d) c due open' h k = ground arith

pub accounted-release :
    (conn : Option ℕ) (c : ℕ) (hand : Hand) (due open' : List ℕ)
    → all (is_accounted conn hand due) open' ≡ true
    → all (is_accounted (clear_if conn c) hand (c ∷ due)) open' ≡ true
accounted-release none c hand due open' k =
    accounted-to none none hand hand due (c ∷ due) open' (λ x e. ground (arith, e)) k
accounted-release (some d) c hand due open' k = elim (Bool-cases (d == c)) [
  | inl e ↦ rw e (
      accounted-to (some d) none hand hand due (c ∷ due) open'
        (λ x k'. ground (arith, k', e, ==_iff d c, ==_iff x d, ==_iff c x)) k)
  | inr e ↦
      rw e (
        accounted-to (some d) (some d) hand hand due (c ∷ due) open' (λ x k'. ground (arith, k')) k)
]

pub accounted-held :
    (conn conn' : Option ℕ) (hand : Hand) (due open' : List ℕ)
    → all (is_accounted conn hand due) open' ≡ true
    → all (is_accounted conn' hand (with_held conn due)) open' ≡ true
accounted-held none conn' hand due open' k =
    accounted-to none conn' hand hand due due open' (λ x e. ground (arith, e)) k
accounted-held (some d) conn' hand due open' k =
    accounted-to (some d) conn' hand hand due (d ∷ due) open'
      (λ x e. ground (arith, e, ==_iff x d, ==_iff d x)) k

pub accounted-turn_away :
    (conn : Option ℕ) (c : ℕ) (due open' : List ℕ)
    → all (is_accounted conn (turned_away c) due) open' ≡ true
    → all (is_accounted conn free due) (close_conn c open') ≡ true
accounted-turn_away conn c due open' k =
    all-close (is_accounted conn (turned_away c) due) (is_accounted conn free due) c open'
      (λ x e n. ground (arith, e, n)) k

pub accounted-close :
    (conn : Option ℕ) (hand : Hand) (c : ℕ) (due open' : List ℕ)
    → all (is_accounted conn hand due) open' ≡ true
    → all (is_accounted conn hand (close_conn c due)) (close_conn c open') ≡ true
accounted-close conn hand c due open' k =
    all-close (is_accounted conn hand due) (is_accounted conn hand (close_conn c due)) c open'
      (λ x e n. rw (any-close c x due n) e) k

length-notice_lines :
    (n : ℕ) (line : Text) → lines_of n + length (notice_lines (n + 1) line) ≡ lines_of (n + 1)
unfolding lines_of
length-notice_lines n line = ground arith

pub noted :
    (g : Gateway) (k : ℕ) (line : Text)
    → length g.lines ≡ lines_of g.notices + k
    → length (notice g line).lines ≡ lines_of (notice g line).notices + k
unfolding notice
noted g k line q = omega (
  arith,
  length-append g.lines (notice_lines (g.notices + 1) line),
  length-notice_lines g.notices line,
  q,
)
