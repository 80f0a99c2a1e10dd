-- ===== src/Worker.antt =====
-- src/remote_host_mcp/job_worker.py: the process that runs one durable job.
pub mod Capture
pub mod Outcome
mod Tests
use remote_host_mcp.Prelude.{
  ℕ, zero, suc, ◌+◌, ◌-◌, ◌*◌, Bool, true, false, not, ◌&&◌, ◌||◌, Option, none, some, List, [],
  ◌∷◌, ◌++◌, take, length, leb, ltb, ◌==◌, if◌then◌else◌,
}
use remote_host_mcp.Prelude.Int.{ℤ, pos, negsuc}
use remote_host_mcp.Disk.{Bytes}

-- What the worker or the manager says of a job.
pub data JobState : Type 0 where
  starting : JobState
  running : JobState
  cancel_requested : JobState
  lost : JobState
  interrupted : JobState
  completed : JobState
  failed : JobState
  timed_out : JobState
  canceled : JobState
  start_failed : JobState

-- What terminated the process group, as `terminated_by` names it.
pub data Killer : Type 0 where
  sigterm : Killer
  sigkill : Killer
  signal : ℕ → Killer

-- The members of result.json.
pub record Result : Type 0 where
  pub status : JobState
  pub exit_code : Option ℤ
  pub was_timed_out : Bool
  pub terminated_by : Option Killer
  pub started_at : Option ℕ
  pub completed_at : ℕ
  pub stdout_truncated : Bool
  pub stderr_truncated : Bool

-- The file, and the truncation flag, of a stream in `_drain_stream`.
pub record Captured : Type 0 where
  pub kept : Bytes
  pub truncated : Bool

-- One round of the loop in `_drain_stream`; writes go through.
unfoldable pub keep_chunk : ℕ → Bytes → Captured → Captured
keep_chunk limit data_bytes c =
    let remaining = limit - length c.kept in
    record {
      kept = if ltb 0 remaining then c.kept ++ take remaining data_bytes else c.kept;
      truncated = if ltb remaining (length data_bytes) then true else c.truncated;
    }

-- The loop of `_drain_stream` over what `read` returns; an empty chunk ends it.
unfoldable pub drain_chunks : ℕ → List Bytes → Captured → Captured
drain_chunks limit [] c = c
drain_chunks limit ([] ∷ rest) c = c
drain_chunks limit ((b ∷ bs) ∷ rest) c = drain_chunks limit rest (keep_chunk limit (b ∷ bs) c)

-- `_drain_stream`
unfoldable pub drain_stream : ℕ → List Bytes → Captured
unfolding drain_chunks
drain_stream limit chunks = drain_chunks limit chunks (record { kept = []; truncated = false })

-- What one round of the polling loop in `run` sees.
pub record Look : Type 0 where
  pub exited : Bool
  pub marker : Bool
  pub now : ℕ

-- Why the polling loop ended.
pub data Watched : Type 0 where
  by_itself : Watched
  by_cancel : Watched
  by_timeout : Watched
  still_running : Watched

abbrev is_past : Option ℕ → ℕ → Bool
is_past none now = false
is_past (some deadline) now = leb deadline now

-- The polling loop of `run`, as far as the rounds that are given.
unfoldable pub watch : Option ℕ → List Look → Watched
watch deadline [] = still_running
watch deadline (l ∷ rest) =
    let more = watch deadline rest in
    if l.exited
    then by_itself
    else if l.marker
    then by_cancel
    else if is_past deadline l.now
    then by_timeout
    else more

-- `_terminate_process_group`, on whether the process had exited, whether the group was gone when
-- it was signalled, and whether it exited within the grace period
unfoldable pub terminate : Bool → Bool → Bool → Option Killer
terminate exited gone in_time =
    if exited then none else if gone || in_time then some sigterm else some sigkill

-- What the system does after the loop: the group at the kill, a late kill, the exit code and the
-- marker at the end.
pub record Ending : Type 0 where
  pub exited_at_kill : Bool
  pub group_gone : Bool
  pub in_grace : Bool
  pub late : Option (Option Killer)
  pub exit_code : ℤ
  pub marker : Bool

abbrev or_killer : Option Killer → Option Killer → Option Killer
or_killer none other = other
or_killer (some k) other = some k

abbrev pub is_cancel : Watched → Bool
is_cancel by_cancel = true
is_cancel by_itself = false
is_cancel by_timeout = false
is_cancel still_running = false

abbrev pub is_timeout : Watched → Bool
is_timeout by_timeout = true
is_timeout by_itself = false
is_timeout by_cancel = false
is_timeout still_running = false

-- `canceled`, after the marker was looked at once more
unfoldable pub is_canceled : Watched → Ending → Bool
is_canceled w e = is_cancel w || (not (is_timeout w) && e.marker)

abbrev late_killer : Option (Option Killer) → Option Killer → Option Killer
late_killer none first = first
late_killer (some late) first = or_killer late first

abbrev by_signal : ℤ → Option Killer
by_signal (pos n) = none
by_signal (negsuc n) = some (signal (suc n))

-- `terminated_by` once the process is gone
unfoldable pub killer : Watched → Ending → Option Killer
unfolding terminate
killer w e =
    let at_kill = terminate e.exited_at_kill e.group_gone e.in_grace in
    let waited = late_killer e.late (if is_cancel w || is_timeout w then at_kill else none) in
    if not (is_timeout w) && e.marker then or_killer waited (by_signal e.exit_code) else waited

-- The status of a job that has ended.
unfoldable pub final_status : Bool → Bool → ℤ → JobState
final_status true was_timed_out code = canceled
final_status false true code = timed_out
final_status false false (pos zero) = completed
final_status false false (pos (suc n)) = failed
final_status false false (negsuc n) = failed

-- What `run` starts from: the spec and the command could be read, the marker was there already,
-- the process could be started.
pub record Start : Type 0 where
  pub readable : Bool
  pub marker : Bool
  pub starts : Bool
  pub at : ℕ

-- Without a process there is nothing but the status and the time.
unfoldable pub bare_result : JobState → Option ℕ → ℕ → Result
bare_result state started now = record {
  status = state;
  exit_code = none;
  was_timed_out = false;
  terminated_by = none;
  started_at = started;
  completed_at = now;
  stdout_truncated = false;
  stderr_truncated = false;
}

-- `run` up to the result that it writes; `stdout` and `stderr` are what the process puts out.
unfoldable pub run_job :
    ℕ → Option ℕ → Start → List Look → Ending → List Bytes → List Bytes → ℕ → Result
unfolding is_canceled killer final_status
run_job limit deadline s looks e stdout stderr now =
    if not s.readable
    then bare_result start_failed none now
    else if s.marker
    then bare_result canceled none now
    else if not s.starts
    then bare_result start_failed none now
    else let w = watch deadline looks in
      record {
        status = final_status (is_canceled w e) (is_timeout w) e.exit_code;
        exit_code = some e.exit_code;
        was_timed_out = is_timeout w;
        terminated_by = killer w e;
        started_at = some s.at;
        completed_at = now;
        stdout_truncated = (drain_stream limit stdout).truncated;
        stderr_truncated = (drain_stream limit stderr).truncated;
      }
