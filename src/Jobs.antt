-- ===== src/Jobs.antt =====
-- src/remote_host_mcp/jobs.py: the manager of durable jobs. A job directory is a record, the process
-- table is a function from a pid to its start time, and the clock is an argument.
pub mod Admission
pub mod State
pub mod Observing
pub mod Active
pub mod Starts
pub mod Twice
pub mod Cancelled
pub mod Cancel
pub mod Signals
pub mod Listing
pub mod Reading
pub mod Reads
pub mod Cleanup
mod CancelTests
mod Tests
unfoldable pub use remote_host_mcp.Jobs.Admission.*
unfoldable pub use remote_host_mcp.Jobs.State.*
use remote_host_mcp.Prelude.{
  ℕ, zero, suc, ◌+◌, ◌-◌, Bool, true, false, not, ◌&&◌, ◌||◌, Option, none, some, List, [], ◌∷◌,
  ◌++◌, take, length, leb, ltb, ◌==◌, if◌then◌else◌,
}
use remote_host_mcp.Prelude.Text.{Text, text_eq, strip}
use remote_host_mcp.Prelude.Int.{ℤ}
use remote_host_mcp.Worker.{
  JobState, starting, running, cancel_requested, lost, interrupted, completed, failed, timed_out,
  canceled, start_failed, Result, bare_result,
}

-- `hashlib.sha256(...).hexdigest()`, and the JSON text of a fingerprint
module _ (sha256 : Text → Text) (encode : Text → Text → Option ℕ → Text) where
  -- `_job_fingerprint`
  unfoldable pub job_fingerprint : Request → Text → Text
  job_fingerprint q cwd = sha256 (encode (sha256 q.command) cwd q.timeout_ms)

  -- `start_job` from the count of the active jobs on
  unfoldable pub start_new :
      Limits → Procs → Launch → Request → Text → Option Text → Root → Answer StartResult × Root
  start_new l procs v q cwd hash root =
      let (active, jobs) = count_active procs v.now root.jobs in
      let seen : Root = record root { jobs = jobs } in
      if leb l.max_jobs active then (refused job_limit, seen) else elim (find_job v.token jobs) [
        | some _ ↦ (refused directory_exists, seen)
        | none ↦
            let dir = launched v (new_meta (sha256 q.command) q cwd hash v.now) q in
            let mapping : Mapping = record {
              job_id = v.token;
              fingerprint = job_fingerprint q cwd;
              tombstone = false;
            } in
            (
              ok (record {
                job_id = v.token;
                status = launch_state v.worker;
                idempotent_reuse = false;
              }),
              record {
                jobs = put_job v.token dir jobs;
                idempotency = elim hash [
                  | none ↦ root.idempotency
                  | some k ↦ put_key k mapping root.idempotency
                ];
              },
            )
      ]

  -- `start_job` for a key that is known already
  unfoldable pub start_again :
      Procs → Launch → Request → Text → Mapping → Root → Answer StartResult × Root
  start_again procs v q cwd mapping root =
      if not (text_eq mapping.fingerprint (job_fingerprint q cwd))
      then (refused key_reused, root)
      else elim (find_job mapping.job_id root.jobs) [
        | none ↦ (refused key_cleaned, root)
        | some _ ↦ elim (job_status procs v.now mapping.job_id root) [
          | none ↦ (refused unknown_job, root)
          | some (s, root') ↦ (
            ok (record { job_id = mapping.job_id; status = s.state; idempotent_reuse = true }),
            root',
          )
        ]
      ]

  abbrev key_ok : Text → Bool
  key_ok key = ltb 0 (length key) && leb (length key) 256

  -- `start_job`; texts are counted in bytes
  unfoldable pub start_job : Limits → Procs → Launch → Request → Root → Answer StartResult × Root
  start_job l procs v q root = elim (check_request l q) [
    | refused why ↦ (refused why, root)
    | ok cwd ↦ elim q.idempotency_key [
      | none ↦ start_new l procs v q cwd none root
      | some key ↦
          if not (key_ok key)
          then (refused bad_key, root)
          else elim (find_key (sha256 key) root.idempotency) [
            | none ↦ start_new l procs v q cwd (some (sha256 key)) root
            | some mapping ↦ start_again procs v q cwd mapping root
          ]
    ]
  ]

-- The mapping of a removed job is kept as a tombstone.
unfoldable pub bury : ℕ → Option Text → List (Text × Mapping) → List (Text × Mapping)
bury id none keys = keys
bury id (some k) keys = elim (find_key k keys) [
  | none ↦ keys
  | some m ↦ if m.job_id == id then put_key k (record m { tombstone = true }) keys else keys
]

abbrev pub hash_of : Option JobDir → Option Text
hash_of none = none
hash_of (some d) = elim d.metadata [ none ↦ none | some m ↦ m.idempotency_hash ]

-- `cleanup_job`: whether a directory was removed
unfoldable pub cleanup_job : Procs → ℕ → ℕ → Root → Answer Bool × Root
cleanup_job procs now id root = elim (find_job id root.jobs) [
  | none ↦ (ok false, root)
  | some _ ↦ elim (job_status procs now id root) [
    | none ↦ (refused unknown_job, root)
    | some (s, root') ↦
        if is_terminal s.state
        then (
          ok true,
          record {
            jobs = remove_job id root'.jobs;
            idempotency = bury id (hash_of (find_job id root'.jobs)) root'.idempotency;
          },
        )
        else (refused still_active, root')
  ]
]

pub record Recovery : Type 0 where
  pub reconciled : ℕ
  pub was_interrupted : ℕ
  pub removed : ℕ

abbrev is_interrupted : JobState → Bool
is_interrupted interrupted = true
is_interrupted starting = false
is_interrupted running = false
is_interrupted cancel_requested = false
is_interrupted lost = false
is_interrupted completed = false
is_interrupted failed = false
is_interrupted timed_out = false
is_interrupted canceled = false
is_interrupted start_failed = false

-- `status.completed_at or status.created_at`
abbrev pub finished_at : Status → ℕ
finished_at s = elim s.completed_at [
  | none ↦ s.created_at
  | some t ↦ if t == 0 then s.created_at else t
]

-- The removal in one round of `recover_jobs`: whether the job is gone
unfoldable pub expire : Limits → Procs → ℕ → ℕ → Status → Root → Bool × Root
expire l procs now id s root =
    if is_terminal s.state && leb (finished_at s + l.job_retention_seconds) now
    then (let (answer, root') = cleanup_job procs now id root in
        (elim answer [ ok _ ↦ true | refused _ ↦ false ], root'))
    else (false, root)

-- The loop of `recover_jobs` over the ids that were there at its start
unfoldable pub recover_all : Limits → Procs → ℕ → List ℕ → Root → Recovery × Root
recover_all l procs now [] root =
    (record { reconciled = 0; was_interrupted = 0; removed = 0 }, root)
recover_all l procs now (id ∷ ids) root = elim (job_status procs now id root) [
  | none ↦ recover_all l procs now ids root
  | some (s, root') ↦
      let (gone, root'') = expire l procs now id s root' in
      let (r, final) = recover_all l procs now ids root'' in
      (
        record {
          reconciled = suc r.reconciled;
          was_interrupted =
              if is_interrupted s.state then suc r.was_interrupted else r.was_interrupted;
          removed = if gone then suc r.removed else r.removed;
        },
        final,
      )
]
