-- ===== src/Samples/Link.antt =====
-- A link socket with two connections, the second of which meets a stop.
use boks.Prelude.{◌≤◌, ◌≡◌, refl, [], ◌∷◌, length}
use boks.Strings.{codes}
use boks.Network.Gateway.{
  Gateway, started, notice, close_conn, claim, accepted, claim_link, refuse, turn_away, close_due,
  stop,
}
use boks.Network.Gateway.Link.{
  accepts, claims, refuses, turns_away, closes, stops, here, next, IsSound,
}
use boks.Network.Gateway.Link.Sound.{started-Reach}

-- The first connection is carried, a second one was accepted, and then the gateway is stopped.
abbrev raced : Gateway
raced = stop (accepted (claim_link (accepted started 1) 1) 2)

-- The second connection is refused, and the first one is closed.
abbrev both_done : Gateway
both_done = close_due (turn_away (refuse (claim_link raced 2) (codes "link.sock") 2) 2) 1

raced-open : raced.open_ ≡ 2 ∷ 1 ∷ []
unfolding stop accepted claim_link claim started
raced-open = refl

done-closed : both_done.open_ ≡ []
unfolding close_due turn_away refuse notice stop accepted claim_link claim started close_conn
done-closed = refl

started-Reach_example : IsSound both_done × (length both_done.lines ≤ 18)
unfolding close_due turn_away refuse notice stop accepted claim_link claim started close_conn
started-Reach_example = started-Reach (
    next
      (next
        (next
          (next
            (next
              (next (next (next here (accepts 1 refl refl refl refl)) (claims 1 refl refl))
                (accepts 2 refl refl refl refl))
              (stops refl))
            (claims 2 refl refl))
          (refuses (codes "link.sock") 2 refl refl))
        (turns_away 2 refl refl))
      (closes 1 refl refl))
