-- ===== src/Terminal/State.antt =====
-- The state of a terminal of src/remote_host_mcp/terminal.py: its output buffer, and the command that it
-- runs.
use remote_host_mcp.Prelude.{
  is_nil, or_else, ℕ, ◌+◌, ◌-◌, Bool, false, not, ◌&&◌, Option, none, some, List, [], ◌∷◌, ◌++◌,
  take, drop, length, min, max, leb, ltb, if◌then◌else◌,
}
use remote_host_mcp.Prelude.Text.{Text, text_eq}
use remote_host_mcp.Prelude.Int.{ℤ}
use remote_host_mcp.Disk.{Bytes}
use remote_host_mcp.Terminal.Markers.{Marker, status_value, strip_markers}

-- Where the exit code of a command comes from.
pub data Source : Type 0 where
  osc133 sentinel terminal_exit foreground_pgid : Source

-- `PendingCommand`. `signal_number` is set together with `signal_name`, which has no part of its own.
pub record Pending : Type 0 where
  pub command_id : Text
  pub start_cursor : ℕ
  pub exit_code : Option ℤ
  pub end_cursor : Option ℕ
  pub completed : Bool
  pub signal_number : Option ℕ
  pub foreground_group : Option ℕ
  pub saw_non_shell : Bool
  pub semantic_exit_code : Option ℤ
  pub completion_source : Option Source

-- `TerminalSession`, but for the process and the screen. A command that is not completed is
-- `session.pending` until it is, so the monitor's command is this one.
pub record Session : Type 0 where
  pub buffer : Bytes
  pub buffer_start : ℕ
  pub max_buffer_bytes : ℕ
  pub osc_tail : Bytes
  pub pending : Option Pending
  pub created_at : ℕ
  pub last_activity_at : ℕ
  pub cols : ℕ
  pub rows : ℕ

-- `buffer_end`
abbrev pub buffer_end : Session → ℕ
buffer_end s = s.buffer_start + length s.buffer

-- A session as `open` makes it.
unfoldable pub new_session : ℕ → ℕ → ℕ → ℕ → Session
new_session max_bytes cols rows now = record {
  buffer = [];
  buffer_start = 0;
  max_buffer_bytes = max_bytes;
  osc_tail = [];
  pending = none;
  created_at = now;
  last_activity_at = now;
  cols = cols;
  rows = rows;
}

abbrev pub is_busy : Session → Bool
is_busy s = elim s.pending [ none ↦ false | some p ↦ not p.completed ]

-- `consume`, for one marker
unfoldable pub consume : Marker → Option Pending → Option Pending
consume m none = none
consume m (some p) = elim m.status [
  | none ↦ some p
  | some (minus, ds) ↦
      if m.is_done && not p.completed && text_eq p.command_id m.id
      then elim (status_value minus ds) [
        | none ↦ some p
        | some code ↦ some (record p { semantic_exit_code = some code })
      ]
      else some p
]

unfoldable pub consume_all : List Marker → Option Pending → Option Pending
unfolding consume
consume_all [] p = p
consume_all (m ∷ ms) p = consume_all ms (consume m p)

-- The buffer behind new output, cut to its limit from the front.
unfoldable pub extend_buffer : Bytes → Session → Session
extend_buffer out s =
    let longer = s.buffer ++ out in
    let excess = length longer - s.max_buffer_bytes in
    record s { buffer = drop excess longer; buffer_start = s.buffer_start + excess }

-- `append_output`, at a time
unfoldable pub append_output : ℕ → Bytes → Session → Session
append_output now chunk s =
    let (out, tail, ms) = strip_markers s.osc_tail chunk in
    let s' = record s { osc_tail = tail; pending = consume_all ms s.pending } in
    let shown = record (extend_buffer out s') { last_activity_at = now } in
    if is_nil chunk then s else if is_nil out then s' else shown

-- The end of `reader_loop`, which passes on what was held back.
unfoldable pub end_output : Session → Session
end_output s =
    if is_nil s.osc_tail then s else extend_buffer s.osc_tail (record s { osc_tail = [] })

-- What a reader gets.
pub record Slice : Type 0 where
  pub cursor : ℕ
  pub next_cursor : ℕ
  pub text : Bytes
  pub truncated : Bool
  pub at_end : Bool

-- One wait of `read_slice`: output that came, and whether the shell is alive afterwards.
pub record Wake : Type 0 where
  pub now : ℕ
  pub chunk : Bytes
  pub alive : Bool

-- The loop of `read_slice`, over the waits that the deadline leaves time for
unfoldable pub wait_output : ℕ → Bool → List Wake → Session → Session
unfolding append_output
wait_output requested alive [] s = s
wait_output requested alive (w ∷ ws) s =
    let later = wait_output requested w.alive ws (append_output w.now w.chunk s) in
    if leb (buffer_end s) requested && alive then later else s

-- `read_slice` behind its loop; none is the ValueError
unfoldable pub slice_at : ℕ → ℕ → Session → Option Slice
slice_at requested max_bytes s =
    let effective = max requested s.buffer_start in
    let text = take max_bytes (drop (effective - s.buffer_start) s.buffer) in
    if ltb (buffer_end s) effective
    then none
    else some (record {
      cursor = effective;
      next_cursor = effective + length text;
      text = text;
      truncated = ltb requested s.buffer_start;
      at_end = leb (buffer_end s) (effective + length text);
    })

-- `read_slice`; the cursor is none or a number that is not negative
unfoldable pub read_slice : Option ℕ → ℕ → Bool → List Wake → Session → Option Slice × Session
read_slice cursor max_bytes alive waits s =
    let requested = or_else s.buffer_start cursor in
    let s' = wait_output requested alive waits s in (slice_at requested max_bytes s', s')

-- What `output_between` gives.
pub record Output : Type 0 where
  pub cursor : ℕ
  pub next_cursor : ℕ
  pub text : Bytes
  pub truncated : Bool

-- `output_between`. Where the end lies before the buffer the source has a negative index, and takes
-- nothing from it.
unfoldable pub output_between : ℕ → Option ℕ → ℕ → Session → Output
output_between start end max_bytes s =
    let upper = min (or_else (buffer_end s) end) (buffer_end s) in
    let effective = min (max start s.buffer_start) upper in
    let text =
      take (min max_bytes (upper - effective)) (drop (effective - s.buffer_start) s.buffer) in
    record {
      cursor = effective;
      next_cursor = effective + length text;
      text = text;
      truncated = ltb start s.buffer_start;
    }
