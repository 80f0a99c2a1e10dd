-- ===== src/Tasks/Final.antt =====
-- A task of src/remote_host_mcp/tasks_extension.py that has a result stays as it is.
use remote_host_mcp.Prelude.{ℕ, ◌≡◌, refl, false, some, arith}
use remote_host_mcp.Worker.{Result}
use remote_host_mcp.Jobs.{Procs, Root, JobDir, Meta, find_job, put_job, describe, dir_status}
use remote_host_mcp.Jobs.Starts.{find_job-put_job, job_status-known}
use remote_host_mcp.Tasks.{TaskSettings, Payload, task_payload, get_task}

-- The answer of a job that has a result.
abbrev pub settled : TaskSettings → ℕ → JobDir → Meta → Result → Payload
settled t id d m r = task_payload t false id (describe r.status m d)

get_task-settled :
    (t : TaskSettings) (procs : Procs) (now id : ℕ) (root : Root) (d : JobDir) (m : Meta)
    (r : Result)
    → find_job id root.jobs ≡ some d
    → d.metadata ≡ some m
    → d.result ≡ some r
    → get_task t procs now id root
      ≡ some (settled t id d m r, record root { jobs = put_job id d root.jobs })
unfolding get_task dir_status
get_task-settled t procs now id root d m r found known ended =
    let looked : dir_status procs now d ≡ some (describe r.status m d, d) =
      ground (arith, known, ended) in
    rw (job_status-known procs now id root d d (describe r.status m d) found looked, get_task) refl

-- Two looks at a task whose job has its result, at any times and whatever processes there are then,
-- give one answer, with the status, the exit code and the time to live of the result.
pub get_task-final :
    (t : TaskSettings) (id : ℕ) (root : Root) (d : JobDir) (m : Meta) (r : Result)
    (procs later_procs : Procs) (now later : ℕ)
    → find_job id root.jobs ≡ some d
    → d.metadata ≡ some m
    → d.result ≡ some r
    → let seen : Root = record root { jobs = put_job id d root.jobs } in
      let answer = settled t id d m r in
      (get_task t procs now id root ≡ some (answer, seen))
      × (get_task t later_procs later id seen
          ≡ some (answer, record seen { jobs = put_job id d seen.jobs }))
get_task-final t id root d m r procs later_procs now later found known ended = (
  get_task-settled t procs now id root d m r found known ended,
  get_task-settled t later_procs later id _ d m r (find_job-put_job id d root.jobs) known ended,
)
