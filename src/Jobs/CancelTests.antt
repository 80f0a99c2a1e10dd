-- ===== src/Jobs/CancelTests.antt =====
-- A job that is cancelled, and a listing of two jobs.
use mathlib.Core.List.{Permᴰ}
use remote_host_mcp.Prelude.{
  ℕ, ◌≡◌, refl, true, false, Option, none, some, List, [], ◌∷◌, ◌++◌, arith, ltb, min, length, ◌==◌,
  if◌then◌else◌,
}
use remote_host_mcp.Prelude.Text.{codes}
use remote_host_mcp.Worker.{starting}
use remote_host_mcp.Jobs.{
  Procs, Meta, JobDir, Root, Status, find_job, ok, job_status, dir_status, observe, describe,
  live_state, identity_alive, put_job,
}
use remote_host_mcp.Jobs.Listing.{
  readable_rows, looked_at, list_jobs, JobList, newest_first, list_jobs-newest,
}
use remote_host_mcp.Jobs.Cancel.{
  Moment, World, Signal, cancel_job, signal_cancel, force_cancel, wait_grace, send_signal,
  group_alive, request_cancel, read_meta,
}
use remote_host_mcp.Jobs.Signals.{AreAimed, cancel_job-AreAimed}

-- Process 7 started at tick 100, and nothing ends it.
abbrev procs : Procs
procs pid = if pid == 7 then some 100 else none

abbrev meta_at : ℕ → Option ℕ → Meta
meta_at created child = record {
  status = starting;
  cwd = codes "/srv";
  created_at = created;
  started_at = none;
  completed_at = none;
  worker_pid = none;
  worker_start_ticks = none;
  child_pid = child;
  child_start_ticks = some 100;
  command_sha256 = [];
  command_bytes = 2;
  timeout_ms = none;
  idempotency_hash = none;
}

abbrev dir_at : ℕ → Option ℕ → JobDir
dir_at created child = record {
  metadata = some (meta_at created child);
  result = none;
  cancel_request = false;
  command = some (codes "ls");
}

abbrev root : Root
root = record { jobs = (3, dir_at 50 (some 7)) ∷ (4, dir_at 60 none) ∷ []; idempotency = [] }

abbrev quiet : Moment
quiet = record { now = 70; procs = procs; leads = λ p. true; denied = false; change = λ r. r }

abbrev world : World
world = record {
  first = quiet;
  asked = quiet;
  grace = (quiet, quiet) ∷ [];
  forced = quiet;
  settling = λ n. quiet;
}

cancel_job-AreAimed_example : AreAimed (cancel_job 3 world root).signals
cancel_job-AreAimed_example = cancel_job-AreAimed 3 world root

-- The only row of a listing with limit 1 is the newer job.
list_jobs-newest_example :
    let all = readable_rows procs 70 root.jobs in
    (a : JobList) × (hidden : List Status) × (list_jobs procs 70 1 root
      ≡ (ok a, record root { jobs = looked_at procs 70 root.jobs }))
    × Permᴰ all (a.jobs ++ hidden)
    × (newest_first (a.jobs ++ hidden) ≡ true)
    × (length a.jobs ≡ min 1 (length all))
    × (a.truncated ≡ ltb 0 (length hidden))
list_jobs-newest_example = list_jobs-newest procs 70 1 root (omega arith) (omega arith)

abbrev pids : List Signal → List ℕ
pids [] = []
pids (g ∷ rest) = g.group ∷ pids rest

cancel_sends_both : pids (cancel_job 3 world root).signals ≡ 7 ∷ 7 ∷ []
unfolding cancel_job signal_cancel job_status find_job dir_status observe describe live_state
    identity_alive request_cancel put_job read_meta wait_grace group_alive force_cancel send_signal
cancel_sends_both = refl
