-- ===== src/Terminal/Events.antt =====
-- The life of a command in a terminal of src/remote_host_mcp/terminal.py, in any order of events.
use remote_host_mcp.Prelude.{ℕ, ◌≡◌, Bool, false, Option, none, some, List, [], ◌∷◌, arith}
use remote_host_mcp.Prelude.Text.{Text}
use remote_host_mcp.Disk.{Bytes}
use remote_host_mcp.Terminal.State.{Pending, Session, buffer_end, append_output}
use remote_host_mcp.Terminal.Commands.{
  Round, monitor_round, Limits, start_command, clear_completed, note_signal,
}
use remote_host_mcp.Terminal.Outcome.{Explained, IsExplained}

-- What may happen to a terminal and its command, in any order.
pub data Event : Type 0 where
  outputs : ℕ → Bytes → Event
  rounds : Round → Event
  starts : Limits → Bool → Text → Text → ℕ → Event
  signals : Option ℕ → Option ℕ → Option ℕ → Event
  clears : Event

unfoldable pub apply_event : Event → Session → Session
apply_event (outputs now chunk) s = append_output now chunk s
apply_event (rounds r) s = monitor_round r s
apply_event (starts l alive id command wait_ms) s =
    elim (start_command l alive id command wait_ms s) [ none ↦ s | some t ↦ t ]
apply_event (signals number foreground shell) s = note_signal number foreground shell s
apply_event clears s = clear_completed s

unfoldable pub apply_events : List Event → Session → Session
apply_events [] s = s
apply_events (e ∷ es) s = apply_events es (apply_event e s)

-- A round of the monitor is among the events.
pub data Occurs (r : Round) : List Event → Type 0 where
  at_first : {e : Event} → {es : List Event} → e ≡ rounds r → Occurs r (e ∷ es)
  after_first : {e : Event} → {es : List Event} → Occurs r es → Occurs r (e ∷ es)

module _ (seen : Round → Type 0) where
  pub idle-IsExplained : (s : Session) → s.pending ≡ none → IsExplained seen s
  idle-IsExplained s e p f = absurd (ground (arith, e, f))

  -- A command that is open, in its session.
  record Runs (s : Session) : Type 0 where
    command : Pending
    found : s.pending ≡ some command
    running : command.completed ≡ false
    explained : Explained seen (buffer_end s) command
