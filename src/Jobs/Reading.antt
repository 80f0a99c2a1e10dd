-- ===== src/Jobs/Reading.antt =====
-- `job_read` of src/remote_host_mcp/jobs.py: the logs of a job, by offset.
use remote_host_mcp.Prelude.{
  ℕ, ◌+◌, Bool, true, not, ◌&&◌, Option, none, some, List, [], ◌∷◌, ◌++◌, take, drop, length, leb,
  ltb, if◌then◌else◌,
}
use remote_host_mcp.Disk.{Bytes}
use remote_host_mcp.Prelude.Text.{Text}
use remote_host_mcp.Redact.PathKey.{hide_key}
use remote_host_mcp.Worker.{JobState}
use remote_host_mcp.Jobs.State.{is_terminal, Procs, Root, job_status}

pub record LogRead : Type 0 where
  pub text : Bytes
  pub next_offset : ℕ
  pub at_end : Bool

-- `_log_size`; none where there is no file yet
abbrev pub log_size : Option Bytes → ℕ
log_size none = 0
log_size (some log) = length log

-- `_read_log`; none is the ValueError
unfoldable pub read_log : ℕ → ℕ → Option Bytes → Option LogRead
read_log offset max_bytes none =
    if ltb 0 offset then none else some (record { text = []; next_offset = offset; at_end = true })
read_log offset max_bytes (some log) =
    let text = take max_bytes (drop offset log) in
    let next = offset + length text in
    if ltb (length log) offset
    then none
    else some (record { text = text; next_offset = next; at_end = leb (length log) next })

-- The result of `job_read`
pub record JobRead : Type 0 where
  pub status : JobState
  pub stdout : Text
  pub stderr : Text
  pub next_stdout_offset : ℕ
  pub next_stderr_offset : ℕ
  pub stdout_at_end : Bool
  pub stderr_at_end : Bool
  pub job_done : Bool

-- Both logs, at the time of a call.
pub record Logs : Type 0 where
  pub stdout_log : Option Bytes
  pub stderr_log : Option Bytes

-- One call of a client that reads on: what the processes are, the time, its limit, and how much of
-- each log is written.
pub record Visit : Type 0 where
  pub procs : Procs
  pub now : ℕ
  pub max_bytes : ℕ
  pub out_written : ℕ
  pub err_written : ℕ

-- What a client has got, call by call, and where it goes on.
pub record Got : Type 0 where
  pub out : List Text
  pub err : List Text
  pub out_offset : ℕ
  pub err_offset : ℕ

-- `bytes.decode("utf-8", errors="replace")`, and the key of the path
module _ (decode : Bytes → Text) (path_key : Text) where
  -- `job_read`; none is the ValueError
  unfoldable pub job_read : ℕ → Procs → ℕ → ℕ → ℕ → ℕ → ℕ → Logs → Root → Option (JobRead × Root)
  unfolding read_log job_status hide_key
  job_read job_read_max_bytes procs now id stdout_offset stderr_offset max_bytes logs root =
      if not (leb 1 max_bytes && leb max_bytes job_read_max_bytes)
      then none
      else elim (job_status procs now id root) [
        | none ↦ none
        | some (s, root') ↦ elim (read_log stdout_offset max_bytes logs.stdout_log) [
          | none ↦ none
          | some out ↦ elim (read_log stderr_offset max_bytes logs.stderr_log) [
            | none ↦ none
            | some err ↦ some (
              record {
                status = s.state;
                stdout = hide_key path_key (decode out.text);
                stderr = hide_key path_key (decode err.text);
                next_stdout_offset = out.next_offset;
                next_stderr_offset = err.next_offset;
                stdout_at_end = out.at_end;
                stderr_at_end = err.at_end;
                job_done = is_terminal s.state;
              },
              root',
            )
          ]
        ]
      ]

  -- A client that reads on from the offsets that it was given, of logs that become `out` and `err`
  unfoldable pub read_on : ℕ → ℕ → Bytes → Bytes → List Visit → Got → Root → Option Got
  unfolding job_read
  read_on limit id out err [] g root = some g
  read_on limit id out err (v ∷ vs) g root =
      let logs : Logs = record {
        stdout_log = some (take v.out_written out);
        stderr_log = some (take v.err_written err);
      } in
      elim (job_read limit v.procs v.now id g.out_offset g.err_offset v.max_bytes logs root) [
        | none ↦ none
        | some (r, root') ↦
            read_on limit id out err vs
              (record {
                out = g.out ++ r.stdout ∷ [];
                err = g.err ++ r.stderr ∷ [];
                out_offset = r.next_stdout_offset;
                err_offset = r.next_stderr_offset;
              })
              root'
      ]
