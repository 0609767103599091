-- ===== src/Network/Gateway/Link/Sound.antt =====
-- What every interleaving keeps.
use boks.Prelude.{
  ℕ, ◌+◌, ◌≤◌, ◌≡◌, refl, ap, inl, inr, Bool, true, false, not, ◌&&◌, ◌||◌, none, List, [], ◌∷◌,
  ◌++◌, arith, ◌==◌, if◌then◌else◌, is_some, ==_refl, Bool-cases, length, any, all, length-append,
}
use boks.Strings.{Text, codes}
use boks.Network.Gateway.{
  Hand, free, fresh, refused, turned_away, over, Gateway, started, notice, claim, accepted,
  accept_failed, claim_link, refuse, turn_away, ended, mention_end, release, close_due, close_link,
  stop, close_listener,
}
use boks.Network.Gateway.Link.{
  Step, accepts, accept_fails, claims, refuses, turns_away, ends, mentions, releases, closes,
  cancels, stops, closes_listener, Reach, here, next, in_hand, is_accounted, lines_of, last_line,
  IsSound,
}
use boks.Network.Gateway.Link.Account.{
  IsExclusive-claim, IsExclusive-ended, IsExclusive-release, IsExclusive-stop, accounted-to,
  accounted-hand, accounted-claim, accounted-release, accounted-held, accounted-turn_away,
  accounted-close, noted,
}

-- The log's quota, with another thing in hand.
quota-hand :
    (n m : ℕ) (hand hand' : Hand)
    → last_line hand ≡ last_line hand'
    → m ≡ n + last_line hand
    → m ≡ n + last_line hand'
quota-hand n m hand hand' h q = rw (← h) q

claim_link-IsSound : (g : Gateway) (c : ℕ) → g.hand ≡ fresh c → IsSound g → IsSound (claim_link g c)
unfolding claim_link claim
claim_link-IsSound g c h v =
    let same = ap last_line h in
    let mine : all (is_accounted g.conn (fresh c) g.due) g.open_ ≡ true = rw h at v.accounted in
    elim (Bool-cases (g.stopped || is_some g.conn)) [
      | inr e ↦ rw e (record {
        link = IsExclusive-claim g.stopped g.conn c g.served e v.link;
        accounted = accounted-claim g.stopped g.conn c g.due g.open_ e mine;
        quota = quota-hand (lines_of g.notices) (length g.lines) g.hand free same v.quota;
      })
      | inl e ↦ rw e (record {
        link = v.link;
        accounted = accounted-hand g.conn (fresh c) (refused c) g.due g.open_ (λ x. refl) mine;
        quota = quota-hand (lines_of g.notices) (length g.lines) g.hand (refused c) same v.quota;
      })
    ]

refuse-IsSound :
    (g : Gateway) (socket : Text) (c : ℕ)
    → g.hand ≡ refused c
    → IsSound g
    → IsSound (refuse g socket c)
unfolding refuse notice
refuse-IsSound g socket c h v = record {
  link = v.link;
  accounted =
      accounted-hand g.conn g.hand (turned_away c) g.due g.open_
        (λ x. ap (λ hand. in_hand hand x) h) v.accounted;
  quota = noted g 0 _ (
      quota-hand (lines_of g.notices) (length g.lines) g.hand (turned_away c) (ap last_line h)
        v.quota);
}

turn_away-IsSound :
    (g : Gateway) (c : ℕ) → g.hand ≡ turned_away c → IsSound g → IsSound (turn_away g c)
unfolding turn_away
turn_away-IsSound g c h v = record {
  link = v.link;
  accounted = accounted-turn_away g.conn c g.due g.open_ (rw h at v.accounted);
  quota = quota-hand (lines_of g.notices) (length g.lines) g.hand free (ap last_line h) v.quota;
}

accepted-IsSound : (g : Gateway) (c : ℕ) → g.hand ≡ free → IsSound g → IsSound (accepted g c)
unfolding accepted
accepted-IsSound g c h v =
    let mine : all (is_accounted g.conn free g.due) g.open_ ≡ true = rw h at v.accounted in
    let others =
      accounted-to g.conn g.conn free (fresh c) g.due g.due g.open_ (λ x e. ground (arith, e))
        mine in
    record {
      link = v.link;
      accounted = ground (arith, others, ==_refl c);
      quota =
          quota-hand (lines_of g.notices) (length g.lines) g.hand (fresh c) (ap last_line h)
            v.quota;
    }

told-line : (b : Bool) (line : Text) → length (if b then line ∷ [] else []) ≡ last_line (over b)
told-line true line = refl
told-line false line = refl

accept_failed-IsSound :
    (g : Gateway) (socket : Text) (cancelled : Bool) (why : Text)
    → g.hand ≡ free
    → IsSound g
    → IsSound (accept_failed g socket cancelled why)
unfolding accept_failed
accept_failed-IsSound g socket cancelled why h v =
    let told = not cancelled && not g.stopped in
    let before =
      quota-hand (lines_of g.notices) (length g.lines) g.hand free (ap last_line h) v.quota in
    record {
      link = v.link;
      accounted =
          accounted-hand g.conn g.hand (over told) g.due g.open_
            (λ x. ap (λ hand. in_hand hand x) h) v.accounted;
      quota = omega (arith, length-append g.lines _, told-line told _, before);
    }

ended-IsSound :
    (g : Gateway) (c : ℕ) (failed cancelled : Bool) (why : Text)
    → IsSound g
    → IsSound (ended g c failed cancelled why)
unfolding ended
ended-IsSound g c failed cancelled why v = record {
  link = IsExclusive-ended g.stopped g.conn (λ d. not (d == c)) g.served v.link;
  accounted = v.accounted;
  quota = v.quota;
}

mention_end-IsSound :
    (g : Gateway) (before : List Text) (why : Text) (after : List Text)
    → IsSound g
    → IsSound (mention_end g before why after)
unfolding mention_end notice
mention_end-IsSound g before why after v = record {
  link = v.link;
  accounted = v.accounted;
  quota = noted g (last_line g.hand) (codes "network: link to the VM ended: " ++ why) v.quota;
}

release-IsSound :
    (g : Gateway) (c : ℕ) → any (λ d. d == c) g.served ≡ false → IsSound g → IsSound (release g c)
unfolding release
release-IsSound g c h v = record {
  link = IsExclusive-release g.stopped g.conn c g.served h v.link;
  accounted = accounted-release g.conn c g.hand g.due g.open_ v.accounted;
  quota = v.quota;
}

close_due-IsSound : (g : Gateway) (c : ℕ) → IsSound g → IsSound (close_due g c)
unfolding close_due
close_due-IsSound g c v = record {
  link = v.link;
  accounted = accounted-close g.conn g.hand c g.due g.open_ v.accounted;
  quota = v.quota;
}

close_link-IsSound : (g : Gateway) → IsSound g → IsSound (close_link g)
unfolding close_link
close_link-IsSound g v = record {
  link = v.link;
  accounted = accounted-held g.conn g.conn g.hand g.due g.open_ v.accounted;
  quota = v.quota;
}

either-IsSound :
    (b : Bool) (g g' : Gateway) → IsSound g → IsSound g' → IsSound (if b then g else g')
either-IsSound true g g' v w = v
either-IsSound false g g' v w = w

stop-IsSound : (g : Gateway) → IsSound g → IsSound (stop g)
unfolding stop
stop-IsSound g v = either-IsSound g.stopped g _ v (record {
  link = IsExclusive-stop g.stopped g.conn g.served v.link;
  accounted = accounted-held g.conn none g.hand g.due g.open_ v.accounted;
  quota = v.quota;
})

close_listener-IsSound : (g : Gateway) → IsSound g → IsSound (close_listener g)
unfolding close_listener
close_listener-IsSound g v = record { link = v.link; accounted = v.accounted; quota = v.quota }

Step-IsSound : {g g' : Gateway} → Step g g' → IsSound g → IsSound g'
Step-IsSound {g} (accepts c h l n e) v = rw e (accepted-IsSound g c h v)
Step-IsSound {g} (accept_fails socket cancelled why h e) v =
    rw e (accept_failed-IsSound g socket cancelled why h v)
Step-IsSound {g} (claims c h e) v = rw e (claim_link-IsSound g c h v)
Step-IsSound {g} (refuses socket c h e) v = rw e (refuse-IsSound g socket c h v)
Step-IsSound {g} (turns_away c h e) v = rw e (turn_away-IsSound g c h v)
Step-IsSound {g} (ends c failed cancelled why h e) v =
    rw e (ended-IsSound g c failed cancelled why v)
Step-IsSound {g} (mentions before why after h e) v = rw e (mention_end-IsSound g before why after v)
Step-IsSound {g} (releases c h e) v = rw e (release-IsSound g c h v)
Step-IsSound {g} (closes c h e) v = rw e (close_due-IsSound g c v)
Step-IsSound {g} (cancels e) v = rw e (close_link-IsSound g v)
Step-IsSound {g} (stops e) v = rw e (stop-IsSound g v)
Step-IsSound {g} (closes_listener h e) v = rw e (close_listener-IsSound g v)

Reach-IsSound : {g g' : Gateway} → Reach g g' → IsSound g → IsSound g'
Reach-IsSound here v = v
Reach-IsSound (next r s) v = Step-IsSound s (Reach-IsSound r v)

started-IsSound : IsSound started
unfolding started lines_of
started-IsSound = record {
  link = record { one = omega arith; carried = refl; at_rest = refl };
  accounted = refl;
  quota = refl;
}

at_most : (n m : ℕ) (hand : Hand) → m ≡ lines_of n + last_line hand → m ≤ 18
unfolding lines_of
at_most n m (over true) h = ground (arith, h)
at_most n m (over false) h = ground (arith, h)
at_most n m free h = ground (arith, h)
at_most n m (fresh c) h = ground (arith, h)
at_most n m (refused c) h = ground (arith, h)
at_most n m (turned_away c) h = ground (arith, h)

-- However the accept loop, the ends of connections, a cancellation and a stop interleave after a start:
-- the stack carries at most one connection, and before a stop it is the one that holds the link; after
-- a stop none holds it; every open connection holds the link, or was just accepted or refused, or is
-- about to be closed; and at most 18 lines have been written: one for each of the first 15 notices, two
-- for the next one and none from there, and one for the end of the accept loop.
pub started-Reach : {g : Gateway} → Reach started g → IsSound g × (length g.lines ≤ 18)
started-Reach {g} r =
    let v = Reach-IsSound r started-IsSound in
    (v, at_most g.notices (length g.lines) g.hand v.quota)
