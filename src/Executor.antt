-- ===== src/Executor.antt =====
-- src/remote_host_mcp/executor.py: a shell command with a time limit, whose two output streams share one
-- budget; src/remote_host_mcp/agent_ops.py has a budget and a drain of its own for `run_argv`.
mod Tests
pub mod Results
pub mod Budgets
use remote_host_mcp.Prelude.{
  is_nil, or_else, ℕ, suc, ◌+◌, ◌-◌, Bool, true, false, not, ◌&&◌, ◌||◌, Option, none, some, List,
  [], ◌∷◌, ◌++◌, take, length, leb, ltb, ◌==◌, if◌then◌else◌,
}
use remote_host_mcp.Prelude.Text.{has_nul, Text, strip}
use remote_host_mcp.Prelude.Int.{ℤ, pos, eq_ℤ}
use remote_host_mcp.Disk.{Bytes}
use remote_host_mcp.Redact.PathKey.{hide_key}

-- `_Budget`
pub record Budget : Type 0 where
  pub limit : ℕ
  pub used : ℕ
  pub seen : ℕ
  pub truncated : Bool

abbrev pub new_budget : ℕ → Budget
new_budget limit = record { limit = limit; used = 0; seen = 0; truncated = false }

-- `_Budget.keep`
unfoldable pub keep : Bytes → Budget → Bytes × Budget
keep chunk b =
    let remaining = b.limit - b.used in
    let b' : Budget = record b { seen = b.seen + length chunk } in
    let kept = take remaining chunk in
    if leb remaining 0 then ([], if is_nil chunk then b' else record b' { truncated = true }) else (
      kept,
      record b' {
        used = b.used + length kept;
        truncated = if ltb remaining (length chunk) then true else b.truncated;
      },
    )

-- `_OutputBudget.keep` of agent_ops.py
unfoldable pub keep_output : Bytes → Budget → Bytes × Budget
keep_output chunk b =
    let remaining = b.limit - b.used in
    let kept = take remaining chunk in
    (
      kept,
      record b {
        seen = b.seen + length chunk;
        used = b.used + length kept;
        truncated = if ltb remaining (length chunk) then true else b.truncated;
      },
    )

-- What `read` of one of the streams returns, in the order in which the two drains get it.
pub data Piece : Type 0 where
  out : Bytes → Piece
  err : Bytes → Piece

-- What the two calls of `_drain` have joined, and their budget.
pub record Drained : Type 0 where
  pub stdout : Bytes
  pub stderr : Bytes
  pub budget : Budget

-- One round of the loop of one `_drain`
unfoldable pub drain_piece : Piece → Drained → Drained
unfolding keep
drain_piece (out chunk) d =
    let (kept, b) = keep chunk d.budget in record d { stdout = d.stdout ++ kept; budget = b }
drain_piece (err chunk) d =
    let (kept, b) = keep chunk d.budget in record d { stderr = d.stderr ++ kept; budget = b }

unfoldable pub drain_pieces : List Piece → Drained → Drained
unfolding drain_piece
drain_pieces [] d = d
drain_pieces (p ∷ ps) d = drain_pieces ps (drain_piece p d)

-- Both calls of `_drain`, to the ends of their streams
unfoldable pub drain : ℕ → List Piece → Drained
unfolding drain_pieces
drain limit ps = drain_pieces ps (record { stdout = []; stderr = []; budget = new_budget limit })

pub data Stop : Type 0 where
  sigterm sigkill : Stop

-- What `_terminate_group` finds: an exit code, the group at each signal, and an exit in the grace
-- period.
pub record Ending : Type 0 where
  pub returned : Option ℤ
  pub group_there : Bool
  pub in_grace : Bool
  pub group_left : Bool

-- `_terminate_group`: its answer, and the signals that reached the group
unfoldable pub terminate_group : Ending → Option Stop × List Stop
terminate_group e = elim e.returned [
  | some _ ↦ (none, [])
  | none ↦
      if not e.group_there
      then (some sigterm, [])
      else if e.in_grace
      then (some sigterm, sigterm ∷ [])
      else (some sigkill, sigterm ∷ (if e.group_left then sigkill ∷ [] else []))
]

pub data ErrorCode : Type 0 where
  invalid_cwd invalid_command invalid_timeout timeout nonzero_exit exec_setup_failed : ErrorCode

-- `ExecResult`, but for the duration and the messages.
pub record ExecResult : Type 0 where
  pub success : Bool
  pub exit_code : Option ℤ
  pub stdout : Text
  pub stderr : Text
  pub timed_out : Bool
  pub terminated_by : Option Stop
  pub truncated : Bool
  pub output_bytes_returned : ℕ
  pub output_bytes_total : ℕ
  pub cwd : Text
  pub error : Option ErrorCode

pub record Limits : Type 0 where
  pub max_command_bytes : ℕ
  pub default_timeout_ms : ℕ
  pub max_timeout_ms : ℕ
  pub max_output_bytes : ℕ

-- What the system makes of a run that goes through: the output that both drains get; whether the
-- process ends in time, and its exit code in the end.
pub record Run : Type 0 where
  pub pieces : List Piece
  pub in_time : Bool
  pub ending : Ending
  pub exit_code : ℤ

-- How an attempt to run comes out: OSError or ValueError before the shell has started, or afterwards,
-- when the drains have got some output; or a run that goes through.
pub data Attempt : Type 0 where
  not_started : Attempt
  broken : List Piece → Attempt
  ran : Run → Attempt

abbrev pub failed : ErrorCode → Text → ExecResult
failed code cwd = record {
  success = false;
  exit_code = none;
  stdout = [];
  stderr = [];
  timed_out = false;
  terminated_by = none;
  truncated = false;
  output_bytes_returned = 0;
  output_bytes_total = 0;
  cwd = cwd;
  error = some code;
}

abbrev pub exit_error : Bool → ℤ → Option ErrorCode
exit_error timed_out code =
    if timed_out then some timeout else if eq_ℤ code (pos 0) then none else some nonzero_exit

-- The handler of OSError and ValueError in `run_shell`
unfoldable pub broken_run : Limits → Text → List Piece → ExecResult
broken_run l cwd pieces =
    let d = drain l.max_output_bytes pieces in
    record (failed exec_setup_failed cwd) {
      output_bytes_returned = d.budget.used;
      output_bytes_total = d.budget.seen;
    }

-- The directory of a run, by the path policy and the first allowed root; none is INVALID_CWD.
unfoldable pub run_cwd : (Option Text → Option Text) → Text → Option Text → Option Text
run_cwd resolve root none = elim (resolve none) [ none ↦ some root | some d ↦ some d ]
run_cwd resolve root (some raw) = resolve (some raw)

-- `bytes.decode("utf-8", errors="replace")`, and the key of the path
module _ (decode : Bytes → Text) (path_key : Text) where
  -- The end of `run_shell` for a process that was started
  unfoldable pub finish_run : Limits → Text → Run → ExecResult
  unfolding drain terminate_group
  finish_run l cwd r =
      let d = drain l.max_output_bytes r.pieces in
      let timed_out = not r.in_time in
      record {
        success = r.in_time && eq_ℤ r.exit_code (pos 0);
        exit_code = some r.exit_code;
        stdout = hide_key path_key (decode d.stdout);
        stderr = hide_key path_key (decode d.stderr);
        timed_out = timed_out;
        terminated_by = if timed_out then (terminate_group r.ending).0 else none;
        truncated = d.budget.truncated;
        output_bytes_returned = d.budget.used;
        output_bytes_total = d.budget.seen;
        cwd = cwd;
        error = exit_error timed_out r.exit_code;
      }

  -- `run_shell` from the start of the shell on
  unfoldable pub attempt_run : Limits → Text → Attempt → ExecResult
  unfolding broken_run finish_run
  attempt_run l cwd not_started = broken_run l cwd []
  attempt_run l cwd (broken pieces) = broken_run l cwd pieces
  attempt_run l cwd (ran r) = finish_run l cwd r

  -- `run_shell`. `resolve` is the path policy, `here` the directory of the server, `root` the first
  -- allowed root; texts are counted in bytes.
  module _ (resolve : Option Text → Option Text) (here root : Text) where
    unfoldable pub run_shell : Limits → Text → Option ℕ → Option Text → Attempt → ExecResult
    unfolding run_cwd attempt_run
    run_shell l command timeout_ms cwd attempt =
        let limit = or_else l.default_timeout_ms timeout_ms in
        elim (run_cwd resolve root cwd) [
          | none ↦ failed invalid_cwd here
          | some dir ↦
              if is_nil (strip command)
                || has_nul command
                || ltb l.max_command_bytes (length command)
              then failed invalid_command dir
              else if ltb limit 1000 || ltb l.max_timeout_ms limit
              then failed invalid_timeout dir
              else attempt_run l dir attempt
        ]
