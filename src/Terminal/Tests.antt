-- ===== src/Terminal/Tests.antt =====
-- A terminal with a small buffer, and inputs to which the theorems apply.
use remote_host_mcp.Prelude.{
  ◌≡◌, ◌≤◌, refl, true, false, none, some, List, [], ◌∷◌, ◌++◌, arith, max, min, take, drop, length,
  ◌-◌, ltb,
}
use remote_host_mcp.Prelude.Text.{Text, codes}
use remote_host_mcp.Prelude.Int.{pos}
use remote_host_mcp.Prelude.Assoc.{find}
use remote_host_mcp.Terminal.Markers.{Marker, strip_markers, scan, osc_tail_max}
use remote_host_mcp.Terminal.State.{Session, Pending, append_output}
use remote_host_mcp.Terminal.Stream.{Stream}
use remote_host_mcp.Terminal.Stripping.{strip_markers-IsCut}
use remote_host_mcp.Terminal.Printing.{print_marker, strip_markers-print}
use remote_host_mcp.Terminal.Refine.{Call, writes, reads, run, run_stream, Stands, run-run_stream}
use remote_host_mcp.Terminal.Following.{Turn, shell, poll}
use remote_host_mcp.Terminal.Commands
use remote_host_mcp.Terminal.Commands.{Round, new_pending, answer_exec}
use remote_host_mcp.Terminal.Events.{Event, outputs, rounds, starts}
use remote_host_mcp.Disk.{Bytes}
use remote_host_mcp.Redact.PathKey.{hide_key, replace_from}
use remote_host_mcp.HubSettings.Parsers.{starts_with}
use remote_host_mcp.Terminal.Answer.{answer_exec-stretch}
use remote_host_mcp.Terminal.Table
use remote_host_mcp.Terminal.Table.{Table, janitor_round, valid_id}
use remote_host_mcp.Terminal.Sessions.{IsTable, IsStale, janitor_round-find}

-- Four bytes of buffer.
abbrev small : Session
small = record {
  buffer = [];
  buffer_start = 0;
  max_buffer_bytes = 4;
  osc_tail = [];
  pending = none;
  created_at = 0;
  last_activity_at = 0;
  cols = 80;
  rows = 24;
}

abbrev silent : Stream
silent = record { shown = []; gone = 0 }

abbrev small_Stands : Stands 4 ([], silent) small
small_Stands = record {
  limit = refl;
  hidden = refl;
  shows = record { start = refl; inside = omega arith; window = refl; bounded = omega arith };
}

abbrev calls : List Call
calls =
    writes 1 (codes "abcdef")
    ∷ reads none 3 true []
    ∷ reads (some 5) 9 true []
    ∷ reads (some 0) 2 true []
    ∷ []

run-run_stream_example : run small calls ≡ run_stream 4 ([], silent) calls
run-run_stream_example = run-run_stream 4 calls ([], silent) small small_Stands

abbrev done_marker : Marker
done_marker = record {
  is_done = true;
  id = codes "0123456789abcdef01234567";
  status = some (false, codes "0");
}

strip_markers-print_example :
    strip_markers [] (codes "ok" ++ (print_marker done_marker ++ codes "$ "))
    ≡ (codes "ok" ++ codes "$ ", [], done_marker ∷ [])
strip_markers-print_example =
    strip_markers-print done_marker (codes "ok") (codes "$ ")
      (record { id_length = refl; id_hex = refl; status_digits = refl }) refl refl

-- An escape byte at the end of a chunk is held back.
strip_markers-IsCut_example :
    let (out, tail, _) = strip_markers [] (codes "ab" ++ 27 ∷ []) in
    (out ++ tail ≡ (scan 0 (codes "ab" ++ 27 ∷ [])).0) × (length tail ≤ osc_tail_max)
strip_markers-IsCut_example = strip_markers-IsCut [] (codes "ab" ++ 27 ∷ [])

abbrev turns : List Turn
turns = shell 1 (codes "abc") ∷ poll 2 true [] ∷ shell 2 (codes "de") ∷ poll 9 true [] ∷ []

abbrev after_turns : Session
after_turns = append_output 2 (codes "de") (append_output 1 (codes "abc") small)

abbrev limits : Commands.Limits
limits = record {
  max_command_bytes = 100;
  terminal_wait_max_ms = 1000;
  terminal_read_max_bytes = 3;
}

abbrev exited : Round
exited = record {
  now = 3;
  done_file = some (some (pos 0));
  alive = true;
  exit_status = none;
  shell_group = some 7;
  foreground = some 7;
  during = [];
  done_later = false;
  alive_later = true;
  foreground_later = some 7;
}

abbrev events : List Event
events =
    starts limits true (codes "c1") (codes "ls") 0 ∷ outputs 2 (codes "ab") ∷ rounds exited ∷ []

-- Five bytes were shown, and the first one is gone.
abbrev full : Session
full = record small { buffer = codes "bcde"; buffer_start = 1 }

abbrev five : Stream
five = record { shown = codes "abcde"; gone = 1 }

abbrev ended : Pending
ended = record (new_pending (codes "c1") 0) {
  completed = true;
  exit_code = some (pos 0);
  end_cursor = some 4;
}

-- ASCII output
abbrev ascii : Bytes → Text
ascii b = b

key_taken_out : hide_key (codes "bc") (codes "abcbcd") ≡ codes "a[REDACTED][REDACTED]d"
unfolding hide_key replace_from starts_with
key_taken_out = refl

answer_exec-stretch_example :
    let r = (answer_exec ascii (codes "bc") limits 9 true ended full).0 in
    let from = max 0 1 in
    (r.completed ≡ true)
    × (r.still_running ≡ false)
    × (r.exit_code ≡ ended.exit_code)
    × (r.completion_source ≡ ended.completion_source)
    × (r.truncated_before_cursor ≡ ltb 0 1)
    × (r.cursor ≡ from)
    × (r.output
        ≡ hide_key (codes "bc") (ascii (take (min 3 (4 - from)) (drop from (codes "abcde")))))
unfolding new_pending
answer_exec-stretch_example =
    answer_exec-stretch ascii (codes "bc") limits 9 4 true ended five full
      (record { start = refl; inside = omega arith; window = refl; bounded = omega arith }) refl
      refl (omega arith) (omega arith) (omega arith)

abbrev table_limits : Table.Limits
table_limits = record {
  terminal_max_sessions = 2;
  terminal_buffer_bytes = 4;
  terminal_idle_seconds = 60;
  terminal_max_lifetime_seconds = 900;
}

abbrev id_a : Text
id_a = codes "aaaaaaaaaaaaaaaaaaaaaaaaaaaaaaaa"

abbrev id_b : Text
id_b = codes "bbbbbbbbbbbbbbbbbbbbbbbbbbbbbbbb"

abbrev table : Table
table = (id_a, small) ∷ (id_b, record small { last_activity_at = 100 }) ∷ []

table-IsTable : IsTable table
unfolding valid_id find
table-IsTable = (refl, refl, (refl, refl, tt))

-- The first session is idle at 100, the second one is not.
janitor_round-find_example :
    ((s : Session)
      → find id_a table ≡ some s
      → (IsStale table_limits 100 true s
          → find id_a (janitor_round table_limits 100 (λ _. true) table) ≡ none)
        × (¬ IsStale table_limits 100 true s
            → find id_a (janitor_round table_limits 100 (λ _. true) table) ≡ some s))
    × (find id_a table ≡ none → find id_a (janitor_round table_limits 100 (λ _. true) table) ≡ none)
janitor_round-find_example =
    janitor_round-find table_limits 100 (λ _. true) id_a table table-IsTable
