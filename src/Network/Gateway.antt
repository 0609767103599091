-- ===== src/Network/Gateway.antt =====
-- internal/network/gateway.go: the one connection that holds a sandbox's link. A connection is a
-- number. An operation here is what runs without another one between: a part under the lock, or
-- the close of a connection or of the listener after it. The count of a notice and the line that it
-- writes after the lock are one operation; the line changes nothing that another part reads.
pub mod Link
use boks.Prelude.{
  ℕ, ◌+◌, Bool, true, false, not, ◌&&◌, ◌||◌, Option, none, some, List, [], ◌∷◌, ◌++◌, ltb, ◌==◌,
  if◌then◌else◌, is_some, keep_if,
}
use boks.Strings.{Text, codes, count}

-- What the loop of `serve` has in hand: nothing, while it accepts; a connection that was just accepted;
-- one that was refused, before and after the notice of it; or it is over.
pub data Hand : Type 0 where
  free : Hand
  fresh refused turned_away : ℕ → Hand
  over : Bool → Hand

-- `open_` are the accepted connections that are not closed, and `due` those that are about to be closed;
-- `served` are those that the stack carries (`hostStack.accept`), and `due_notices` the ends of links
-- that are about to be mentioned.
pub record Gateway : Type 0 where
  pub listening : Bool
  pub listener_due : Bool
  pub conn : Option ℕ
  pub stopped : Bool
  pub notices : ℕ
  pub attached : Bool
  pub hand : Hand
  pub served : List ℕ
  pub open_ : List ℕ
  pub due : List ℕ
  pub due_notices : List Text
  pub lines : List Text

abbrev pub max_link_notices : ℕ
max_link_notices = 16

-- `gateway.start`, once the socket is bound
unfoldable pub started : Gateway
started = record {
  listening = true;
  listener_due = false;
  conn = none;
  stopped = false;
  notices = 0;
  attached = false;
  hand = free;
  served = [];
  open_ = [];
  due = [];
  due_notices = [];
  lines = [];
}

abbrev suppressed : Text
suppressed = codes "network: further messages about this link's connections are suppressed"

-- What a notice writes, by its number.
abbrev pub notice_lines : ℕ → Text → List Text
notice_lines count line =
    if ltb count max_link_notices
    then line ∷ []
    else if count == max_link_notices
    then line ∷ suppressed ∷ []
    else []

-- `gateway.notice`
unfoldable pub notice : Gateway → Text → Gateway
notice g line = record g {
  notices = g.notices + 1;
  lines = g.lines ++ notice_lines (g.notices + 1) line;
}

-- `conn.Close`, which may be called again
unfoldable pub close_conn : ℕ → List ℕ → List ℕ
close_conn c open_ = keep_if (λ d. not (d == c)) open_

-- `gateway.claim`
unfoldable pub claim : Gateway → ℕ → Bool × Gateway
claim g c =
    if g.stopped || is_some g.conn
    then (false, g)
    else (true, record g { conn = some c; attached = true })

-- `gateway.serve`: `Accept` gives a connection.
unfoldable pub accepted : Gateway → ℕ → Gateway
accepted g c = record g { hand = fresh c; open_ = c ∷ g.open_ }

-- `Accept` gives an error, which ends the loop; `cancelled` is whether the context is.
unfoldable pub accept_failed : Gateway → Text → Bool → Text → Gateway
accept_failed g socket cancelled why =
    let told = not cancelled && not g.stopped in
    record g {
      hand = over told;
      lines =
          g.lines
          ++ (if told
              then (codes "network: the link socket "
                  ++ socket
                  ++ codes " stopped accepting connections: "
                  ++ why)
                ∷ []
              else []);
    }

-- The connection in hand claims the link; the stack carries it from then on.
unfoldable pub claim_link : Gateway → ℕ → Gateway
unfolding claim
claim_link g c =
    let (held, g') = claim g c in
    if held
    then record g' { hand = free; served = c ∷ g'.served }
    else record g' { hand = refused c }

unfoldable pub refuse : Gateway → Text → ℕ → Gateway
unfolding notice
refuse g socket c =
    let g' = notice g (
      codes "network: refused a second connection to the link socket "
      ++ socket
      ++ codes "; one VM per sandbox") in
    record g' { hand = turned_away c }

unfoldable pub turn_away : Gateway → ℕ → Gateway
unfolding close_conn
turn_away g c = record g { hand = free; open_ = close_conn c g.open_ }

-- The stack carries a connection no longer. An error is mentioned, unless the context is cancelled or
-- the gateway is stopping; the connection is released after that.
unfoldable pub ended : Gateway → ℕ → Bool → Bool → Text → Gateway
ended g c failed cancelled why = record g {
  served = keep_if (λ d. not (d == c)) g.served;
  due_notices =
      if failed && not cancelled && not g.stopped then why ∷ g.due_notices else g.due_notices;
}

unfoldable pub mention_end : Gateway → List Text → Text → List Text → Gateway
unfolding notice
mention_end g before why after =
    notice (record g { due_notices = before ++ after })
      (codes "network: link to the VM ended: " ++ why)

abbrev pub clear_if : Option ℕ → ℕ → Option ℕ
clear_if none c = none
clear_if (some d) c = if d == c then none else some d

-- `gateway.release`, under the lock
unfoldable pub release : Gateway → ℕ → Gateway
release g c = record g { conn = clear_if g.conn c; due = c ∷ g.due }

-- The close that `release`, `closeLink` or `stop` makes after the lock.
unfoldable pub close_due : Gateway → ℕ → Gateway
unfolding close_conn
close_due g c = record g { open_ = close_conn c g.open_; due = close_conn c g.due }

abbrev pub with_held : Option ℕ → List ℕ → List ℕ
with_held none due = due
with_held (some c) due = c ∷ due

-- `gateway.closeLink`, under the lock
unfoldable pub close_link : Gateway → Gateway
close_link g = record g { listener_due = true; due = with_held g.conn g.due }

-- `gateway.stop`, under the lock
unfoldable pub stop : Gateway → Gateway
stop g =
    if g.stopped
    then g
    else record g { listener_due = true; conn = none; stopped = true; due = with_held g.conn g.due }

-- The close of the listener that `closeLink` or `stop` makes after the lock.
unfoldable pub close_listener : Gateway → Gateway
close_listener g = record g { listening = false; listener_due = false }
