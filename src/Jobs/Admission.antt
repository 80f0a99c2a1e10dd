-- ===== src/Jobs/Admission.antt =====
-- A request to `start_job` of src/remote_host_mcp/jobs.py: its checks, and the directory of a new job.
use remote_host_mcp.Prelude.{
  is_nil, ℕ, Bool, true, false, ◌&&◌, ◌||◌, Option, none, some, length, leb, ltb, if◌then◌else◌,
}
use remote_host_mcp.Prelude.Text.{has_nul, Text, strip}
use remote_host_mcp.Worker.{JobState, starting, start_failed, bare_result}
use remote_host_mcp.Jobs.State.{Meta, JobDir}

-- Why a request is refused.
pub data Refusal : Type 0 where
  bad_command : Refusal
  bad_cwd : Refusal
  bad_timeout : Refusal
  bad_key : Refusal
  key_reused : Refusal
  key_cleaned : Refusal
  unknown_job : Refusal
  job_limit : Refusal
  directory_exists : Refusal
  still_active : Refusal
  bad_limit : Refusal

pub data Answer (A : Type 0) : Type 0 where
  ok : A → Answer A
  refused : Refusal → Answer A

pub record StartResult : Type 0 where
  pub job_id : ℕ
  pub status : JobState
  pub idempotent_reuse : Bool

-- A request to start a job. `safe_cwd` is what the path policy made of the directory, none where it
-- is refused or does not exist.
pub record Request : Type 0 where
  pub command : Text
  pub safe_cwd : Option Text
  pub timeout_ms : Option ℕ
  pub idempotency_key : Option Text

pub record Limits : Type 0 where
  pub max_command_bytes : ℕ
  pub job_max_timeout_ms : ℕ
  pub max_jobs : ℕ
  pub job_retention_seconds : ℕ

-- What the system provides to one start: a random id, the time, and the worker's pid and start time,
-- none where the process could not be started.
pub record Launch : Type 0 where
  pub token : ℕ
  pub now : ℕ
  pub worker : Option (ℕ × Option ℕ)

abbrev timeout_ok : Limits → Option ℕ → Bool
timeout_ok l none = true
timeout_ok l (some t) = leb 1000 t && leb t l.job_max_timeout_ms

-- The checks before the lock in `start_job`; the working directory if they pass.
unfoldable pub check_request : Limits → Request → Answer Text
check_request l q =
    if is_nil (strip q.command) || has_nul q.command || ltb l.max_command_bytes (length q.command)
    then refused bad_command
    else elim q.safe_cwd [
      | none ↦ refused bad_cwd
      | some cwd ↦ if timeout_ok l q.timeout_ms then ok cwd else refused bad_timeout
    ]

-- The metadata of a new job.
unfoldable pub new_meta : Text → Request → Text → Option Text → ℕ → Meta
new_meta digest q cwd hash now = record {
  status = starting;
  cwd = cwd;
  created_at = now;
  started_at = none;
  completed_at = none;
  worker_pid = none;
  worker_start_ticks = none;
  child_pid = none;
  child_start_ticks = none;
  command_sha256 = digest;
  command_bytes = length q.command;
  timeout_ms = q.timeout_ms;
  idempotency_hash = hash;
}

-- The directory once the worker was started, or could not be.
unfoldable pub launched : Launch → Meta → Request → JobDir
launched v m q = elim v.worker [
  | some (pid, ticks) ↦ record {
    metadata = some (record m { worker_pid = some pid; worker_start_ticks = ticks });
    result = none;
    cancel_request = false;
    command = some q.command;
  }
  | none ↦ record {
    metadata = some (record m { status = start_failed; completed_at = some v.now });
    result = some (bare_result start_failed none v.now);
    cancel_request = false;
    command = none;
  }
]

abbrev pub launch_state : Option (ℕ × Option ℕ) → JobState
launch_state none = start_failed
launch_state (some _) = starting
