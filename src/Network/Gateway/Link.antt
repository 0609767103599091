-- ===== src/Network/Gateway/Link.antt =====
-- The connections of a gateway, over any interleaving of what its goroutines do.
pub mod Account
pub mod Sound
use boks.Prelude.{
  ℕ, ◌+◌, ◌≤◌, ◌≡◌, refl, inl, inr, Bool, true, false, not, ◌||◌, Option, none, some, List, [], ◌∷◌,
  ◌++◌, arith, ltb, ◌==◌, if◌then◌else◌, is_some, ==_iff, Bool-cases, length, any, all, keep_if,
}
use boks.Strings.{Text}
use boks.Network.Gateway.{
  Hand, free, fresh, refused, turned_away, over, Gateway, close_conn, accepted, accept_failed,
  claim_link, refuse, turn_away, ended, mention_end, release, close_due, close_link, stop,
  close_listener,
}

-- What may run next. A connection that is accepted is a new one; one is released once the stack does
-- not carry it, and what is due is closed at any time.
pub data Step (g g' : Gateway) : Type 0 where
  accepts :
      (c : ℕ)
      → g.hand ≡ free
      → g.listening ≡ true
      → any (λ d. d == c) g.open_ ≡ false
      → g' ≡ accepted g c
      → Step g g'
  accept_fails :
      (socket : Text) (cancelled : Bool) (why : Text)
      → g.hand ≡ free
      → g' ≡ accept_failed g socket cancelled why
      → Step g g'
  claims : (c : ℕ) → g.hand ≡ fresh c → g' ≡ claim_link g c → Step g g'
  refuses : (socket : Text) (c : ℕ) → g.hand ≡ refused c → g' ≡ refuse g socket c → Step g g'
  turns_away : (c : ℕ) → g.hand ≡ turned_away c → g' ≡ turn_away g c → Step g g'
  ends :
      (c : ℕ) (failed cancelled : Bool) (why : Text)
      → any (λ d. d == c) g.served ≡ true
      → g' ≡ ended g c failed cancelled why
      → Step g g'
  mentions :
      (before : List Text) (why : Text) (after : List Text)
      → g.due_notices ≡ before ++ why ∷ after
      → g' ≡ mention_end g before why after
      → Step g g'
  releases : (c : ℕ) → any (λ d. d == c) g.served ≡ false → g' ≡ release g c → Step g g'
  closes : (c : ℕ) → any (λ d. d == c) g.due ≡ true → g' ≡ close_due g c → Step g g'
  cancels : g' ≡ close_link g → Step g g'
  stops : g' ≡ stop g → Step g g'
  closes_listener : g.listener_due ≡ true → g' ≡ close_listener g → Step g g'

pub data Reach (g : Gateway) : Gateway → Type 0 where
  here : Reach g g
  next : {g' g'' : Gateway} → Reach g g' → Step g' g'' → Reach g g''

abbrev pub is_holder : Option ℕ → ℕ → Bool
is_holder none c = false
is_holder (some d) c = c == d

abbrev pub in_hand : Hand → ℕ → Bool
in_hand free c = false
in_hand (fresh d) c = c == d
in_hand (refused d) c = c == d
in_hand (turned_away d) c = c == d
in_hand (over told) c = false

-- An open connection holds the link, or is in hand, or is about to be closed.
abbrev pub is_accounted : Option ℕ → Hand → List ℕ → ℕ → Bool
is_accounted conn hand due c = is_holder conn c || in_hand hand c || any (λ d. d == c) due

-- At most one connection is carried, and before a stop it is the one that holds the link; after a
-- stop none holds it.
pub record IsExclusive (stopped : Bool) (conn : Option ℕ) (served : List ℕ) : Type 0 where
  pub one : length served ≤ 1
  pub carried : (stopped || all (is_holder conn) served) ≡ true
  pub at_rest : (not stopped || not (is_some conn)) ≡ true

-- A line for each of the first 15 notices, two for the next one, and none from there.
unfoldable pub lines_of : ℕ → ℕ
lines_of n = if ltb n 16 then n else 17

-- The line of the end of the loop.
abbrev pub last_line : Hand → ℕ
last_line (over true) = 1
last_line _ = 0

pub record IsSound (g : Gateway) : Type 0 where
  pub link : IsExclusive g.stopped g.conn g.served
  pub accounted : all (is_accounted g.conn g.hand g.due) g.open_ ≡ true
  pub quota : length g.lines ≡ lines_of g.notices + last_line g.hand

-- lemmas on lists
pub all-weaken :
    (p q : ℕ → Bool) (xs : List ℕ)
    → ((x : ℕ) → p x ≡ true → q x ≡ true)
    → all p xs ≡ true
    → all q xs ≡ true
all-weaken p q [] h k = refl
all-weaken p q (x ∷ xs) h k = elim (Bool-cases (p x)) [
  | inl e ↦
      let rest : all p xs ≡ true = ground (arith, e, k) in rw (h x e) (all-weaken p q xs h rest)
  | inr e ↦ cc (rw e at k)
]

pub all-close :
    (p q : ℕ → Bool) (c : ℕ) (xs : List ℕ)
    → ((x : ℕ) → p x ≡ true → (x == c) ≡ false → q x ≡ true)
    → all p xs ≡ true
    → all q (close_conn c xs) ≡ true
unfolding close_conn
all-close p q c [] h k = refl
all-close p q c (x ∷ xs) h k =
    let first : p x ≡ true = ground (arith, k) in
    let rest : all p xs ≡ true = ground (arith, k) in
    let later = all-close p q c xs h rest in
    elim (Bool-cases (x == c)) [ inl e ↦ rw e later | inr e ↦ rw (e, h x first e) later ]

pub any-close :
    (c x : ℕ) (xs : List ℕ)
    → (x == c) ≡ false
    → any (λ d. d == x) (close_conn c xs) ≡ any (λ d. d == x) xs
unfolding close_conn
any-close c x [] h = refl
any-close c x (d ∷ xs) h = ground (arith, h, ==_iff d c, ==_iff d x, ==_iff x c, any-close c x xs h)

pub length-keep_if : (p : ℕ → Bool) (xs : List ℕ) → length (keep_if p xs) ≤ length xs
length-keep_if p [] = omega arith
length-keep_if p (x ∷ xs) = ground (arith, length-keep_if p xs)

pub all-keep_if : (p q : ℕ → Bool) (xs : List ℕ) → all p xs ≡ true → all p (keep_if q xs) ≡ true
all-keep_if p q [] h = refl
all-keep_if p q (x ∷ xs) h = ground (arith, all-keep_if p q xs)
