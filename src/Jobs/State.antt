-- ===== src/Jobs/State.antt =====
-- Job directories, and what `job_status` and `_active_job_count` of src/remote_host_mcp/jobs.py make of
-- them.
use remote_host_mcp.Prelude.{
  ℕ, suc, Bool, true, false, ◌||◌, Option, none, some, List, [], ◌∷◌, ◌==◌, if◌then◌else◌,
}
use remote_host_mcp.Prelude.Text.{Text, text_eq}
use remote_host_mcp.Prelude.Int.{ℤ}
use remote_host_mcp.Worker.{
  JobState, starting, running, cancel_requested, lost, interrupted, completed, failed, timed_out,
  canceled, start_failed, Result,
}

-- `_TERMINAL_STATES`
abbrev pub is_terminal : JobState → Bool
is_terminal starting = false
is_terminal running = false
is_terminal cancel_requested = false
is_terminal lost = false
is_terminal interrupted = true
is_terminal completed = true
is_terminal failed = true
is_terminal timed_out = true
is_terminal canceled = true
is_terminal start_failed = true

-- `proc_start_ticks` of every pid
abbrev pub Procs : Type 0
Procs = ℕ → Option ℕ

-- `proc_identity_alive`
unfoldable pub identity_alive : Procs → Option ℕ → Option ℕ → Bool
identity_alive procs none ticks = false
identity_alive procs (some pid) ticks = if pid == 0 then false else elim (procs pid) [
  | none ↦ false
  | some current ↦ elim ticks [ none ↦ true | some known ↦ current == known ]
]

-- metadata.json
pub record Meta : Type 0 where
  pub status : JobState
  pub cwd : Text
  pub created_at : ℕ
  pub started_at : Option ℕ
  pub completed_at : Option ℕ
  pub worker_pid : Option ℕ
  pub worker_start_ticks : Option ℕ
  pub child_pid : Option ℕ
  pub child_start_ticks : Option ℕ
  pub command_sha256 : Text
  pub command_bytes : ℕ
  pub timeout_ms : Option ℕ
  pub idempotency_hash : Option Text

-- A job's directory; `metadata` is none where the file is missing or unreadable.
pub record JobDir : Type 0 where
  pub metadata : Option Meta
  pub result : Option Result
  pub cancel_request : Bool
  pub command : Option Text

-- One file of the idempotency directory.
pub record Mapping : Type 0 where
  pub job_id : ℕ
  pub fingerprint : Text
  pub tombstone : Bool

pub record Root : Type 0 where
  pub jobs : List (ℕ × JobDir)
  pub idempotency : List (Text × Mapping)

unfoldable pub find_job : ℕ → List (ℕ × JobDir) → Option JobDir
find_job id [] = none
find_job id ((j, d) ∷ rest) = if j == id then some d else find_job id rest

unfoldable pub put_job : ℕ → JobDir → List (ℕ × JobDir) → List (ℕ × JobDir)
put_job id d [] = (id, d) ∷ []
put_job id d ((j, e) ∷ rest) = if j == id then (id, d) ∷ rest else (j, e) ∷ put_job id d rest

-- `shutil.rmtree(job_dir)`
unfoldable pub remove_job : ℕ → List (ℕ × JobDir) → List (ℕ × JobDir)
remove_job id [] = []
remove_job id ((j, d) ∷ rest) =
    let others = remove_job id rest in if j == id then others else (j, d) ∷ others

unfoldable pub find_key : Text → List (Text × Mapping) → Option Mapping
find_key k [] = none
find_key k ((j, m) ∷ rest) = if text_eq j k then some m else find_key k rest

unfoldable pub put_key : Text → Mapping → List (Text × Mapping) → List (Text × Mapping)
put_key k m [] = (k, m) ∷ []
put_key k m ((j, n) ∷ rest) = if text_eq j k then (k, m) ∷ rest else (j, n) ∷ put_key k m rest

-- The members of JobStatusResult that other operations read.
pub record Status : Type 0 where
  pub state : JobState
  pub cwd : Text
  pub created_at : ℕ
  pub completed_at : Option ℕ
  pub exit_code : Option ℤ
  pub cancel_requested : Bool
  pub command_sha256 : Text
  pub command_bytes : ℕ

-- The state of a job without a result, by whether its child and its worker are alive.
unfoldable pub live_state : Bool → Bool → Bool → JobState
live_state true true cancel = if cancel then cancel_requested else running
live_state true false cancel = if cancel then cancel_requested else lost
live_state false true cancel = if cancel then cancel_requested else starting
live_state false false cancel = interrupted

-- The directory of a job whose processes are gone.
unfoldable pub interrupt : ℕ → Meta → JobDir → JobDir
interrupt now m d = record d {
  metadata = some (
      if is_terminal m.status
      then m
      else record m { status = interrupted; completed_at = some now });
  command = none;
}

abbrev pub completed_of : Option Meta → Option ℕ
completed_of none = none
completed_of (some m) = m.completed_at

-- The answer of `job_status`, from the directory it leaves.
unfoldable pub describe : JobState → Meta → JobDir → Status
describe state m d = record {
  state = state;
  cwd = m.cwd;
  created_at = m.created_at;
  completed_at = elim d.result [ none ↦ completed_of d.metadata | some r ↦ some r.completed_at ];
  exit_code = elim d.result [ none ↦ none | some r ↦ r.exit_code ];
  cancel_requested = d.cancel_request;
  command_sha256 = m.command_sha256;
  command_bytes = m.command_bytes;
}

-- `job_status` of a directory, without a result
unfoldable pub observe : Procs → ℕ → Meta → JobDir → Status × JobDir
observe procs now m d =
    let child = identity_alive procs m.child_pid m.child_start_ticks in
    let worker = identity_alive procs m.worker_pid m.worker_start_ticks in
    let d' = if child || worker then d else interrupt now m d in
    (describe (live_state child worker d.cancel_request) m d', d')

-- `job_status` of a directory; none is the ValueError
unfoldable pub dir_status : Procs → ℕ → JobDir → Option (Status × JobDir)
dir_status procs now d = elim d.metadata [
  | none ↦ none
  | some m ↦ elim d.result [
    | some r ↦ some (describe r.status m d, d)
    | none ↦ some (observe procs now m d)
  ]
]

-- `job_status`
unfoldable pub job_status : Procs → ℕ → ℕ → Root → Option (Status × Root)
job_status procs now id root = elim (find_job id root.jobs) [
  | none ↦ none
  | some d ↦ elim (dir_status procs now d) [
    | none ↦ none
    | some (s, d') ↦ some (s, record root { jobs = put_job id d' root.jobs })
  ]
]

-- The loop of `_active_job_count`: the count, and the directories as the observations leave them
unfoldable pub count_active : Procs → ℕ → List (ℕ × JobDir) → ℕ × List (ℕ × JobDir)
count_active procs now [] = (0, [])
count_active procs now ((id, d) ∷ rest) =
    let (n, rest') = count_active procs now rest in
    elim (dir_status procs now d) [
      | none ↦ (n, (id, d) ∷ rest')
      | some (s, d') ↦ (if is_terminal s.state then n else suc n, (id, d') ∷ rest')
    ]
