-- ===== src/Agent.antt =====
-- `ReportAgent` of src/remote_host_mcp/report_agent.py: batches the events of the audit log and
-- ships them to the Hub. Times are in milliseconds.
pub mod State
pub mod Events
pub mod Queue
pub mod Delivery
pub mod Backoff
pub mod Cycle
pub mod Loop
pub mod PushedConfig
pub mod Payloads
pub mod Queued
pub mod Replay
mod Tests
unfoldable pub use remote_host_mcp.Agent.State.*
use remote_host_mcp.Prelude.{
  ℕ, zero, suc, ◌+◌, ◌*◌, Bool, true, false, not, ◌&&◌, Option, none, some, List, [], ◌∷◌, ◌++◌,
  map, min, take, drop, length, leb, ltb, ◌==◌, if◌then◌else◌,
}
use remote_host_mcp.Prelude.Text.{Text, codes, text_eq, strip, lower}
use remote_host_mcp.Prelude.Dict.{lookup}
use remote_host_mcp.Json.{Json, bool, str, Event, truthy_or_absent}
use remote_host_mcp.Disk.{Bytes}
use remote_host_mcp.Hub.{
  Answer, Outcome, answered, hub_unavailable, hub_rejected, escaped, Ack, Report, acked,
  unavailable, refused, broken, request, report,
}
use remote_host_mcp.Tail.{
  Tail, Cursor, World, Yield, Reading, commit, load_cursor, new_tail, read_new,
}
use remote_host_mcp.Agent.Events.{prepare_event}
use remote_host_mcp.HubSettings.{HubSettings, configured, report_levels, output_modes}
use remote_host_mcp.HubSettings.Parsers.{member}

-- The loop of `_read_more` over what the reader yields; `final` is the reader at its end.
unfoldable pub collect : List Yield → Tail → Agent → ℕ × Agent
collect [] final a = (0, record a { tail = final })
collect (y ∷ ys) final a = elim (prepare_event a.report_level a.redact_enabled y.event) [
  | none ↦ collect ys final (record a { dropped = suc a.dropped })
  | some prepared ↦
      let a' = record a { pending = a.pending ++ (y.at, prepared) ∷ [] } in
      let (added, b) = collect ys final a' in
      if leb max_pending_events (length a'.pending)
      then (1, record a' { tail = y.after })
      else (suc added, b)
]

-- `_should_flush`
unfoldable pub should_flush : Settings → ℕ → Agent → Bool
should_flush s now a = elim a.pending [
  | [] ↦ false
  | _ ∷ _ ↦
      if leb s.report_batch_size (length a.pending)
      then true
      else leb (a.last_flush + s.report_interval_seconds * second) now
]

-- `batch[-1][0]`
unfoldable pub last_offset : Pending → Option ℕ
last_offset [] = none
last_offset ((at, event) ∷ []) = some at
last_offset (_ ∷ p ∷ rest) = last_offset (p ∷ rest)

-- `_commit` after the deletion: the last offset is written to the cursor
unfoldable pub commit_at : ℕ → ℕ → Agent → Agent
unfolding commit
commit_at at now a =
    let (tail, cursor) = commit at a.tail in
    record a { tail = tail; cursor = some cursor; last_flush = now }

-- `_reset_backoff`
unfoldable pub reset_backoff : Agent → Agent
reset_backoff a = record a { backoff = 0; next_attempt = 0 }

-- `_commit` and `_reset_backoff`, as both callers put them; an empty batch has no last element.
unfoldable pub commit_batch : Bool → Pending → ℕ → Agent → Reply
unfolding last_offset commit_at reset_backoff
commit_batch value batch now a =
    let a' = record a { pending = drop (length batch) a.pending } in
    elim (last_offset batch) [
      | none ↦ raised a'
      | some at ↦ returned value (reset_backoff (commit_at at now a'))
    ]

-- `_schedule_retry`
unfoldable pub schedule_retry : Settings → ℕ → Agent → Agent
schedule_retry s now a =
    let wait =
      min (if a.backoff == 0 then s.report_interval_seconds * second else a.backoff * 2)
        max_backoff in
    record a { backoff = wait; next_attempt = now + wait }

-- `flush`, once the client has answered for the batch
unfoldable pub settle : Settings → ℕ → Pending → Report → Agent → Reply
unfolding schedule_retry commit_batch
settle s now batch (unavailable why) a = returned false (schedule_retry s now a)
settle s now batch (refused why) a = commit_batch false batch now a
settle s now batch broken a = raised a
settle s now batch (acked ack) a =
    if ack.ok then commit_batch true batch now a else returned false (schedule_retry s now a)

-- The batch that `flush` sends.
abbrev pub next_batch : Settings → Agent → Pending
next_batch s a = take s.report_max_batch a.pending

abbrev pub batch_events : Pending → List Event
batch_events = map (λ p. p.1)

-- What a change of the configuration is logged as.
pub data Change : Type 0 where
  level_change : Text → Text → Change
  redact_change : Bool → Bool → Change
  mode_change : Text → Text → Change

-- The value of a choice after the Hub has sent one.
unfoldable pub choose : List Text → Text → Option Json → Text
choose allowed current (some (str t)) =
    let normalised = lower (strip t) in if member normalised allowed then normalised else current
choose allowed current _ = current

-- The value of a switch after the Hub has sent one.
unfoldable pub switch : Bool → Option Json → Bool
switch current (some (bool b)) = b
switch current _ = current

abbrev pub note_text : (Text → Text → Change) → Text → Text → List Change
note_text change old new = if text_eq old new then [] else change old new ∷ []

abbrev pub note_bool : Bool → Bool → List Change
note_bool true false = redact_change true false ∷ []
note_bool false true = redact_change false true ∷ []
note_bool true true = []
note_bool false false = []

-- `apply_config`
unfoldable pub apply_config : Event → Agent → List Change × Agent
unfolding choose switch
apply_config config a =
    let level = choose report_levels a.report_level (lookup "reportLevel" config) in
    let redact = switch a.redact_enabled (lookup "redactEnabled" config) in
    let mode = choose output_modes a.output_mode (lookup "outputMode" config) in
    (
      note_text level_change a.report_level level
          ++ note_bool a.redact_enabled redact
          ++ note_text mode_change a.output_mode mode,
      record a { report_level = level; redact_enabled = redact; output_mode = mode },
    )

abbrev pub still_pending : Agent → Bool
still_pending a = not (length a.pending == 0)

-- The end of `cycle`: `return bool(self.pending)`
unfoldable pub end_cycle : Option Reply → Option Reply
end_cycle none = none
end_cycle (some (raised a)) = some (raised a)
end_cycle (some (returned _ a)) = some (returned (still_pending a) a)

-- A call whose value is not looked at, and `return True`
abbrev pub true_unless_raised : Reply → Reply
true_unless_raised (returned value a) = returned true a
true_unless_raised (raised a) = raised a

-- The decoder of JSON, and the Hub: what it answers to the n-th batch of a cycle, to a heartbeat
-- and to a request for the configuration.
module _ (loads : Bytes → Option Json) (hub : ℕ → List Event → Answer) (beat config : Answer) where
  -- `_read_more`
  unfoldable pub read_more : World → Agent → ℕ × Agent
  unfolding read_new collect
  read_more w a =
      if leb max_pending_events (length a.pending)
      then (0, a)
      else (let r = read_new loads w a.tail in
          collect r.yields (elim r.final [ none ↦ a.tail | some t ↦ t ]) a)

  -- `flush`, the n-th of a cycle
  unfoldable pub flush : Settings → ℕ → ℕ → Agent → Reply
  unfolding settle
  flush s n now a = elim a.pending [
    | [] ↦ returned true a
    | _ ∷ _ ↦
        let batch = next_batch s a in
        settle s now batch (report loads (hub n (batch_events batch))) a
  ]

  -- `pull_config`
  unfoldable pub pull_config : Agent → Reply
  unfolding apply_config
  pull_config a = elim (request loads config) [
    | answered settings ↦ returned true (apply_config settings a).1
    | hub_unavailable _ ↦ returned false a
    | hub_rejected _ ↦ returned false a
    | escaped ↦ raised a
  ]

  -- `heartbeat`
  unfoldable pub heartbeat : Settings → ℕ → Agent → Reply
  unfolding pull_config
  heartbeat s now a =
      let a' = record a { next_heartbeat = now + s.heartbeat_seconds * second } in
      elim (request loads beat) [
        | answered reply ↦
            if truthy_or_absent (lookup "configChanged" reply)
            then true_unless_raised (pull_config a')
            else returned true a'
        | hub_unavailable _ ↦ returned false a'
        | hub_rejected _ ↦ returned false a'
        | escaped ↦ raised a'
      ]

  -- The loop of `cycle`, from its n-th round on; `clock` is read after a round. `none` says that
  -- the fuel ran out.
  unfoldable pub flush_loop : ℕ → Settings → (ℕ → ℕ) → ℕ → ℕ → Agent → Option Reply
  unfolding flush
  flush_loop zero s clock n now a = none
  flush_loop (suc fuel) s clock n now a = elim a.pending [
    | [] ↦ some (returned false a)
    | _ ∷ _ ↦
        if leb a.next_attempt now
        then (elim (flush s n now a) [
          | raised a' ↦ some (raised a')
          | returned false a' ↦ some (returned true a')
          | returned true a' ↦ flush_loop fuel s clock (suc n) (clock n) a'
        ])
        else some (returned true a)
  ]

  -- `cycle` behind the heartbeat
  unfoldable pub read_and_flush : Settings → World → (ℕ → ℕ) → ℕ → Agent → Option Reply
  unfolding read_more flush_loop end_cycle should_flush
  read_and_flush s w clock now a =
      let b = (read_more w a).1 in
      if leb a.next_attempt now
      then (if should_flush s now b
          then end_cycle (flush_loop (suc (length b.pending)) s clock 0 now b)
          else some (returned (still_pending b) b))
      else some (returned (still_pending a) a)

  -- `cycle`: each round of the loop but the last takes an event from the queue
  unfoldable pub cycle : Settings → World → (ℕ → ℕ) → ℕ → Agent → Option Reply
  cycle s w clock now a =
      let beaten = if leb a.next_heartbeat now then heartbeat s now a else returned true a in
      elim beaten [ raised b ↦ some (raised b) | returned _ b ↦ read_and_flush s w clock now b ]
