-- ===== src/Policy/Log.antt =====
-- internal/policy/log.go: decisions, and the ring buffer that keeps the most recent.
pub mod Recent
use boks.Prelude.{
  ℕ, zero, suc, ◌+◌, ◌-◌, ◌%◌, Bool, true, false, not, ◌&&◌, ◌||◌, Option, none, some, List, [],
  ◌∷◌, ◌++◌, map, ltb, ◌==◌, if◌then◌else◌, is_some, length, get_elem?, set, drop, replicate,
  keep_if,
}
use boks.Strings.{Text, codes, text_eq, is_empty, count}
use boks.Strings.Decimal.{itoa}
use boks.Policy.Target.{Target, is_ip}
use boks.Policy.Evaluate.{Reason}

pub data Stage : Type 0 where
  http_stage connect_stage sni_stage dial_stage request_stage network_stage : Stage

pub data Mode : Type 0 where
  no_mode forward_mode forward_bypass transparent_mode : Mode

-- The field `Rule`: the rule that decided, or the statement that none applied to a resource.
pub data Ruling : Type 0 where
  by_rule : Text → Ruling
  no_rule_for : Text → Ruling

pub record Decision : Type 0 where
  pub time : ℕ
  pub stage : Stage
  pub host : Text
  pub port : ℕ
  pub allowed : Bool
  pub resource : Text
  pub reason : Reason
  pub rule : Ruling
  pub policy : Text
  pub mode : Mode
  pub sandbox : Text

-- `ResourceOf`
unfoldable pub resource_of : Target → Text
resource_of t =
    (if is_ip t then codes "net:ip:" else codes "net:domain:") ++ t.host ++ codes ":" ++ itoa t.port

-- The ring buffer, over any type of entries. `empty` is Go's zero value, which fills a new buffer.
pub record Ring {ℓ} (A : Type ℓ) : Type ℓ where
  pub entries : List A
  pub next : ℕ
  pub full : Bool

abbrev pub default_capacity : ℕ
default_capacity = 512

module _ {ℓ} {A : Type ℓ} where
  -- `NewLog`
  unfoldable pub new_ring : A → ℕ → Ring A
  new_ring zero_value capacity = record {
    entries = replicate (if capacity == 0 then default_capacity else capacity) zero_value;
    next = 0;
    full = false;
  }

  -- The part of `Log.Record` that stands under the lock.
  unfoldable pub put : A → Ring A → Ring A
  put d l =
      let next' = (l.next + 1) % length l.entries in
      record { entries = set l.entries l.next d; next = next'; full = l.full || next' == 0 }

  abbrev pub cons_some : Option A → List A → List A
  cons_some none xs = xs
  cons_some (some x) xs = x ∷ xs

  -- the loop of `Log.Recent`: `count` entries from `start` on, around the end
  unfoldable pub window : List A → ℕ → ℕ → List A
  window entries start zero = []
  window entries start (suc count) =
      cons_some (get_elem? entries (start % length entries)) (window entries (start + 1) count)

  unfoldable pub last_n : ℕ → List A → List A
  last_n n xs = if ltb 0 n && ltb n (length xs) then drop (length xs - n) xs else xs

  -- `Log.Recent`
  unfoldable pub recent : Ring A → ℕ → List A
  unfolding window last_n
  recent l n =
      last_n n
        (if l.full then window l.entries l.next (length l.entries) else window l.entries 0 l.next)

-- `Log`: the ring, and what each sink has been given
pub record Log : Type 0 where
  pub ring : Ring Decision
  pub sinks : List (List Decision)

-- `Log.AddSink`
unfoldable pub add_sink : Log → Log
add_sink l = record l { sinks = l.sinks ++ [] ∷ [] }

-- `Log.Record`
unfoldable pub record_decision : Decision → Log → Log
unfolding put
record_decision d l = record { ring = put d l.ring; sinks = map (λ given. given ++ d ∷ []) l.sinks }

-- `Filter`; the zero `Since` is `none`
pub record Filter : Type 0 where
  pub sandbox : Text
  pub since : Option ℕ

unfoldable pub filter_match : Filter → Decision → Bool
filter_match f d =
    (is_empty f.sandbox || text_eq d.sandbox f.sandbox)
    && elim f.since [ none ↦ true | some since ↦ not (ltb d.time since) ]

unfoldable pub filter_is_empty : Filter → Bool
filter_is_empty f = is_empty f.sandbox && not (is_some f.since)

unfoldable pub filter_apply : Filter → List Decision → List Decision
unfolding filter_match filter_is_empty
filter_apply f ds = if filter_is_empty f then ds else keep_if (filter_match f) ds
