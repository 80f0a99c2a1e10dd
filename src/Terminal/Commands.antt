-- ===== src/Terminal/Commands.antt =====
-- Commands in a terminal of src/remote_host_mcp/terminal.py: `exec`, the monitor that finds out that one has
-- ended, and `signal`.
use remote_host_mcp.Prelude.{
  is_nil, ℕ, Bool, true, false, not, ◌&&◌, ◌||◌, Option, none, some, List, [], ◌∷◌, length, leb,
  ◌==◌, if◌then◌else◌,
}
use remote_host_mcp.Prelude.Text.{has_nul, Text, text_eq, strip}
use remote_host_mcp.Prelude.Int.{ℤ}
use remote_host_mcp.Disk.{is_some, Bytes}
use remote_host_mcp.Redact.PathKey.{hide_key}
use remote_host_mcp.Terminal.Markers.{signed}
use remote_host_mcp.Terminal.State.{
  Source, osc133, sentinel, terminal_exit, foreground_pgid, Pending, Session, buffer_end, is_busy,
  append_output, output_between,
}

-- Output that comes in while somebody sleeps.
unfoldable pub settle : List (ℕ × Bytes) → Session → Session
settle [] s = s
settle ((now, chunk) ∷ rest) s = settle rest (append_output now chunk s)

-- What one round of the monitor finds, in the order in which it looks: the done file, whose text may
-- be no number, the shell, the process groups, the output during the sleep, and the second looks.
pub record Round : Type 0 where
  pub now : ℕ
  pub done_file : Option (Option ℤ)
  pub alive : Bool
  pub exit_status : Option ℤ
  pub shell_group : Option ℕ
  pub foreground : Option ℕ
  pub during : List (ℕ × Bytes)
  pub done_later : Bool
  pub alive_later : Bool
  pub foreground_later : Option ℕ

-- `_mark_pending_complete`, and the end of `_monitor_command`
unfoldable pub mark_complete : ℕ → Option ℤ → Source → Session → Session
mark_complete now code source s = elim s.pending [
  | none ↦ s
  | some p ↦ record s {
    last_activity_at = now;
    pending = some (record p {
      exit_code = code;
      completion_source = some source;
      end_cursor = some (buffer_end s);
      completed = true;
    });
  }
]

abbrev pub semantic_of : Session → Option ℤ
semantic_of s = elim s.pending [ none ↦ none | some p ↦ p.semantic_exit_code ]

abbrev pub is_group : Option ℕ → ℕ → Bool
is_group none g = false
is_group (some f) g = f == g

-- The command is seen in the foreground.
unfoldable pub see_foreground : ℕ → Session → Session
see_foreground group s = elim s.pending [
  | none ↦ s
  | some p ↦ record s {
    pending = some (record p { saw_non_shell = true; foreground_group = some group });
  }
]

-- The shell has the terminal back after a signal that ends commands.
unfoldable pub handed_back : Round → ℕ → ℕ → Session → Session
unfolding settle mark_complete
handed_back r shell number s =
    let s' = settle r.during s in
    if is_some (semantic_of s')
      || r.done_later
      || not r.alive_later
      || not (is_group r.foreground_later shell)
    then s'
    else mark_complete r.now (some (signed true number)) foreground_pgid s'

-- The part of a round about process groups
unfoldable pub watch_groups : Round → Pending → Session → Session
unfolding see_foreground handed_back settle
watch_groups r p s = elim r.shell_group [
  | none ↦ settle r.during s
  | some shell ↦ elim r.foreground [
    | none ↦ settle r.during s
    | some group ↦
        if not (group == shell)
        then settle r.during (see_foreground group s)
        else elim p.signal_number [
          | none ↦ settle r.during s
          | some number ↦
              if p.saw_non_shell then handed_back r shell number s else settle r.during s
        ]
  ]
]

-- One round of `_monitor_command` for a command that is not completed
unfoldable pub watch_command : Round → Pending → Session → Session
unfolding watch_groups mark_complete settle
watch_command r p s = elim p.semantic_exit_code [
  | some _ ↦ (let s' = settle r.during s in mark_complete r.now (semantic_of s') osc133 s')
  | none ↦ elim r.done_file [
    | some code ↦ mark_complete r.now code sentinel (settle r.during s)
    | none ↦
        if r.alive
        then watch_groups r p s
        else mark_complete r.now r.exit_status terminal_exit (settle r.during s)
  ]
]

-- One round of `_monitor_command`
unfoldable pub monitor_round : Round → Session → Session
unfolding watch_command
monitor_round r s = elim s.pending [
  | none ↦ s
  | some p ↦ if p.completed then s else watch_command r p s
]

-- The bounds of `exec`.
pub record Limits : Type 0 where
  pub max_command_bytes : ℕ
  pub terminal_wait_max_ms : ℕ
  pub terminal_read_max_bytes : ℕ

-- The checks of `exec`; the text is counted in bytes.
unfoldable pub may_start : Limits → Bool → Text → ℕ → Session → Bool
may_start l alive command wait_ms s =
    not (is_nil (strip command))
    && not (has_nul command)
    && leb (length command) l.max_command_bytes
    && leb wait_ms l.terminal_wait_max_ms
    && alive
    && not (is_busy s)

unfoldable pub new_pending : Text → ℕ → Pending
new_pending id start = record {
  command_id = id;
  start_cursor = start;
  exit_code = none;
  end_cursor = none;
  completed = false;
  signal_number = none;
  foreground_group = none;
  saw_non_shell = false;
  semantic_exit_code = none;
  completion_source = none;
}

-- `exec` up to the sending of the command; none is the ValueError
unfoldable pub start_command : Limits → Bool → Text → Text → ℕ → Session → Option Session
unfolding may_start new_pending
start_command l alive id command wait_ms s =
    if may_start l alive command wait_ms s
    then some (record s { pending = some (new_pending id (buffer_end s)) })
    else none

pub record ExecResult : Type 0 where
  pub completed : Bool
  pub still_running : Bool
  pub exit_code : Option ℤ
  pub completion_source : Option Source
  pub output : Text
  pub cursor : ℕ
  pub next_cursor : ℕ
  pub truncated_before_cursor : Bool

abbrev pub is_pending : Text → Session → Bool
is_pending id s = elim s.pending [ none ↦ false | some p ↦ text_eq p.command_id id ]

-- `bytes.decode("utf-8", errors="replace")`, and the key of the path
module _ (decode : Bytes → Text) (path_key : Text) where
  -- `exec` from the end of its wait on, for the command that it started
  unfoldable pub answer_exec : Limits → ℕ → Bool → Pending → Session → ExecResult × Session
  unfolding output_between hide_key
  answer_exec l now alive p s =
      let end = if p.completed then p.end_cursor else none in
      let cleared =
        if p.completed && is_pending p.command_id s then record s { pending = none } else s in
      let o = output_between p.start_cursor end l.terminal_read_max_bytes s in
      (
        record {
          completed = p.completed;
          still_running = not p.completed && alive;
          exit_code = if p.completed then p.exit_code else none;
          completion_source = if p.completed then p.completion_source else none;
          output = hide_key path_key (decode o.text);
          cursor = o.cursor;
          next_cursor = o.next_cursor;
          truncated_before_cursor = o.truncated;
        },
        record cleared { last_activity_at = now },
      )

-- `status` and `list`, before they report
unfoldable pub clear_completed : Session → Session
clear_completed s = elim s.pending [
  | none ↦ s
  | some p ↦ if p.completed then record s { pending = none } else s
]

-- What `signal` notes of the process groups
unfoldable pub see_group : Option ℕ → Option ℕ → Session → Session
unfolding see_foreground
see_group none shell s = s
see_group (some f) none s = s
see_group (some f) (some g) s = if f == g then s else see_foreground f s

-- What it notes of a signal, if that is one of `_COMPLETING_SIGNALS`
unfoldable pub note_number : Option ℕ → Session → Session
note_number none s = s
note_number (some n) s = elim s.pending [
  | none ↦ s
  | some p ↦ record s { pending = some (record p { signal_number = some n }) }
]

-- The notes of `signal` for the command that runs
unfoldable pub note_signal : Option ℕ → Option ℕ → Option ℕ → Session → Session
unfolding see_group note_number
note_signal number foreground shell s = elim s.pending [
  | none ↦ s
  | some p ↦ if p.completed then s else note_number number (see_group foreground shell s)
]
