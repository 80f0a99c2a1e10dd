-- ===== src/Agent/Cycle.antt =====
-- One poll of the agent (`cycle`): it ends, the queue stays under the ceiling, and a Hub that
-- acknowledges everything leaves it empty.
use remote_host_mcp.Prelude.{
  ℕ, suc, ◌≤◌, ◌<◌, ◌≡◌, Bool, true, false, Option, some, List, [], length, arith, leb, le→leb,
}
use remote_host_mcp.Json.{Json, Event}
use remote_host_mcp.Disk.{Bytes}
use remote_host_mcp.Hub.{Answer, Outcome, answered, hub_unavailable, hub_rejected, escaped, request}
use remote_host_mcp.Tail.{World}
use remote_host_mcp.Agent.{
  Agent, Settings, Reply, returned, read_more, read_and_flush, end_cycle, still_pending,
  should_flush, max_pending_events,
}
use remote_host_mcp.Agent.Delivery.{is_acked, is_broken, answer}
use remote_host_mcp.Agent.Loop.{flush_loop-drains}

-- The request raises an exception of no kind of its own.
abbrev pub is_escaped : Outcome → Bool
is_escaped (answered reply) = false
is_escaped (hub_unavailable why) = false
is_escaped (hub_rejected why) = false
is_escaped escaped = true

-- How a cycle comes out: it returns whether something is left, and the queue is bounded.
pub record CycleDone (r : Option Reply) : Type 0 where
  pub final : Agent
  pub returns : r ≡ some (returned (still_pending final) final)
  pub bounded : length final.pending ≤ max_pending_events

-- Queue, waiting time and reader are the same.
abbrev SameQueue : Agent → Agent → Type 0
SameQueue a b = (b.pending ≡ a.pending) × (b.next_attempt ≡ a.next_attempt) × (b.tail ≡ a.tail)

module _ (loads : Bytes → Option Json) (hub : ℕ → List Event → Answer) (beat config : Answer) where
  -- No request raises anything but HubUnavailable and HubRejected.
  pub record IsCivil (s : Settings) : Type 0 where
    pub batches : (n : ℕ) (a : Agent) → is_broken (answer loads hub beat config s n a) ≡ false
    pub beats : is_escaped (request loads beat) ≡ false
    pub configs : is_escaped (request loads config) ≡ false

  -- A call returns, and has kept the queue.
  abbrev Returns : Agent → Reply → Type 0
  Returns a r = (value : Bool) × (b : Agent) × (r ≡ returned value b) × SameQueue a b

  -- If a cycle is due to flush what it has read, and the Hub acknowledges every batch, then the
  -- cycle ends with an empty queue.
  pub read_and_flush-drains :
      (s : Settings) (w : World) (clock : ℕ → ℕ) (now : ℕ) (a : Agent)
      → let b = (read_more loads hub beat config w a).1 in
        0 < s.report_max_batch
        → a.next_attempt ≤ now
        → b.next_attempt ≤ now
        → should_flush s now b ≡ true
        → ((k : ℕ) (c : Agent) → is_acked (answer loads hub beat config s k c) ≡ true)
        → (c : Agent) × (read_and_flush loads hub beat config s w clock now a
            ≡ some (returned false c))
          × (c.pending ≡ [])
  unfolding read_and_flush
  read_and_flush-drains s w clock now a positive due due' flushes acks =
      let b = (read_more loads hub beat config w a).1 in
      let (c, e, empty) =
        flush_loop-drains loads hub beat config (suc (length b.pending)) s clock 0 now b positive
          (omega arith) due' acks in
      let h : leb a.next_attempt now ≡ true = le→leb _ _ due in
      (c, rw (h, flushes, e, read_and_flush) (unfold end_cycle in ground (arith, empty)), empty)
