-- ===== src/Tasks.antt =====
-- src/remote_host_mcp/tasks_extension.py: durable jobs as tasks of the protocol.
pub mod Final
mod Tests
use remote_host_mcp.Prelude.{
  ℕ, ◌+◌, ◌-◌, ◌*◌, max, Bool, true, false, not, ◌||◌, Option, none, some, if◌then◌else◌,
}
use remote_host_mcp.Prelude.Text.{Text}
use remote_host_mcp.Prelude.Int.{ℤ, pos, eq_ℤ}
use remote_host_mcp.Worker.{
  JobState, starting, running, cancel_requested, lost, interrupted, completed, failed, timed_out,
  canceled, start_failed,
}
use remote_host_mcp.Jobs.{
  Answer, ok, refused, Refusal, Limits, Procs, Launch, Request, Root, Status, job_status, start_job,
}

pub data TaskState : Type 0 where
  working cancelled done : TaskState

-- The state of a task, by that of its job
unfoldable pub task_state : JobState → TaskState
task_state starting = working
task_state running = working
task_state cancel_requested = working
task_state canceled = cancelled
task_state lost = done
task_state interrupted = done
task_state completed = done
task_state failed = done
task_state timed_out = done
task_state start_failed = done

-- `_terminal_job_result` and `_call_tool_result`, of the members that the model has
pub record CallResult : Type 0 where
  pub job_id : ℕ
  pub status : JobState
  pub exit_code : Option ℤ
  pub is_error : Bool

abbrev pub is_completed : JobState → Bool
is_completed starting = false
is_completed running = false
is_completed cancel_requested = false
is_completed lost = false
is_completed interrupted = false
is_completed completed = true
is_completed failed = false
is_completed timed_out = false
is_completed canceled = false
is_completed start_failed = false

abbrev pub fails_with : Option ℤ → Bool
fails_with none = false
fails_with (some z) = not (eq_ℤ z (pos 0))

unfoldable pub call_tool_result : ℕ → Status → CallResult
call_tool_result id s = record {
  job_id = id;
  status = s.state;
  exit_code = s.exit_code;
  is_error = not (is_completed s.state) || fails_with s.exit_code;
}

pub record Payload : Type 0 where
  pub created : Bool
  pub task_id : ℕ
  pub status : TaskState
  pub ttl_ms : Option ℕ
  pub poll_interval_ms : ℕ
  pub result : Option CallResult

pub record TaskSettings : Type 0 where
  pub job_retention_seconds : ℕ
  pub job_heartbeat_seconds : ℕ

-- The time to live, once the job has ended
unfoldable pub ttl_of : TaskSettings → Status → Option ℕ
ttl_of t s = elim s.completed_at [
  | none ↦ none
  | some ended ↦ some ((ended - s.created_at) * 1000 + t.job_retention_seconds * 1000)
]

unfoldable pub result_of : ℕ → Status → Option CallResult
unfolding task_state call_tool_result
result_of id s = elim (task_state s.state) [
  | working ↦ none
  | cancelled ↦ none
  | done ↦ some (call_tool_result id s)
]

-- `_task_payload`
unfoldable pub task_payload : TaskSettings → Bool → ℕ → Status → Payload
unfolding task_state ttl_of result_of
task_payload t create id s = record {
  created = create;
  task_id = id;
  status = task_state s.state;
  ttl_ms = ttl_of t s;
  poll_interval_ms = max 500 (t.job_heartbeat_seconds * 1000);
  result = result_of id s;
}

-- `_get`; none is the error of a task that is not there
unfoldable pub get_task : TaskSettings → Procs → ℕ → ℕ → Root → Option (Payload × Root)
unfolding task_payload
get_task t procs now id root = elim (job_status procs now id root) [
  | none ↦ none
  | some (s, root') ↦ some (task_payload t false id s, root')
]

-- `_update`: the task has to be there, and nothing is done
unfoldable pub update_task : Procs → ℕ → ℕ → Root → Option Root
update_task procs now id root = elim (job_status procs now id root) [
  | none ↦ none
  | some (s, root') ↦ some root'
]

module _ (sha256 : Text → Text) (encode : Text → Text → Option ℕ → Text) where
  -- `intercept_tool_call` for a call of job_run that is made a task
  unfoldable pub create_task :
      TaskSettings → Limits → Procs → Launch → Request → Root → Answer Payload × Root
  unfolding task_payload start_job
  create_task t l procs v q root =
      let (started, root') = start_job sha256 encode l procs v q root in
      elim started [
        | refused why ↦ (refused why, root')
        | ok r ↦ elim (job_status procs v.now r.job_id root') [
          | none ↦ (refused Refusal.unknown_job, root')
          | some (s, root'') ↦ (ok (task_payload t true r.job_id s), root'')
        ]
      ]
