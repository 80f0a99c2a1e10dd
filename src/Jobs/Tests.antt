-- ===== src/Jobs/Tests.antt =====
-- A job directory or two, and inputs to which the theorems apply.
use remote_host_mcp.Prelude.{
  ℕ, suc, length, ◌++◌, ◌≡◌, refl, true, false, Option, none, some, [], ◌∷◌, ◌==◌, if◌then◌else◌,
}
use remote_host_mcp.Prelude.Text.{Text, codes}
use remote_host_mcp.Worker.{completed, starting, Result, bare_result}
use remote_host_mcp.Jobs.{
  Procs, Meta, JobDir, Mapping, Root, Status, dir_status, observe, describe, live_state,
  identity_alive, find_job, put_job, find_key, is_terminal, Request, Limits, Launch, new_meta,
  job_fingerprint, start_new, StartResult, ok, cleanup_job, count_active, launched,
}
use remote_host_mcp.Jobs.Observing.{dir_status-result}
use remote_host_mcp.Jobs.Starts.{Created, start_new-Created}
use remote_host_mcp.Jobs.Reading.{job_read, Visit, Got, read_on}
use remote_host_mcp.Jobs.Reads.{Fronts, read_on-Fronts}
use remote_host_mcp.Jobs.Cleanup.{Remembers, cleanup_job-ended}

-- Process 7 started at tick 100.
abbrev procs : Procs
procs pid = if pid == 7 then some 100 else none

abbrev request : Request
request = record {
  command = codes "ls";
  safe_cwd = some (codes "/srv");
  timeout_ms = some 5000;
  idempotency_key = some (codes "k1");
}

-- A hash that keeps its input, and a fingerprint text of command and directory.
abbrev plain_hash : Text → Text
plain_hash t = t

abbrev plain_encode : Text → Text → Option ℕ → Text
plain_encode digest cwd timeout = digest

abbrev meta : Meta
meta = record (new_meta (codes "ls") request (codes "/srv") (some (codes "k1")) 50) {
  worker_pid = some 7;
  worker_start_ticks = some 100;
}

abbrev live_dir : JobDir
live_dir = record {
  metadata = some meta;
  result = none;
  cancel_request = false;
  command = some (codes "ls");
}

abbrev dead_meta : Meta
dead_meta = record meta { worker_start_ticks = some 99 }

abbrev dead_dir : JobDir
dead_dir = record live_dir { metadata = some dead_meta }

abbrev result : Result
result = bare_result completed none 60

abbrev done_dir : JobDir
done_dir = record live_dir { result = some result }

abbrev live_status : Status
live_status = describe starting meta live_dir

live_seen : dir_status procs 70 live_dir ≡ some (live_status, live_dir)
unfolding dir_status observe live_state identity_alive new_meta describe
live_seen = refl

dir_status-result_example :
    (s : Status) × (dir_status procs 70 done_dir ≡ some (s, done_dir)) × (s.state ≡ result.status)
dir_status-result_example = dir_status-result procs 70 done_dir meta result refl refl

no_child : identity_alive procs dead_meta.child_pid dead_meta.child_start_ticks ≡ false
unfolding identity_alive new_meta
no_child = refl

-- The pid is in use again by another process.
no_worker : identity_alive procs dead_meta.worker_pid dead_meta.worker_start_ticks ≡ false
unfolding identity_alive
no_worker = refl

abbrev limits : Limits
limits = record {
  max_command_bytes = 1000;
  job_max_timeout_ms = 60000;
  max_jobs = 2;
  job_retention_seconds = 3600;
}

abbrev launch : Launch
launch = record { token = 11; now = 70; worker = some (8, some 120) }

abbrev mapping : Mapping
mapping = record { job_id = 5; fingerprint = codes "ls"; tombstone = false }

abbrev one_job : Root
one_job = record { jobs = (5, live_dir) ∷ []; idempotency = (codes "k1", mapping) ∷ [] }

abbrev no_jobs : Root
no_jobs = record { jobs = []; idempotency = (codes "k1", mapping) ∷ [] }

abbrev empty_root : Root
empty_root = record { jobs = []; idempotency = [] }

abbrev after_start : Root
after_start = record {
  jobs = (11, launched launch (new_meta (codes "ls") request (codes "/srv") none 70) request) ∷ [];
  idempotency = [];
}

abbrev started : StartResult
started = record { job_id = 11; status = starting; idempotent_reuse = false }

start_runs :
    start_new plain_hash plain_encode limits procs launch request (codes "/srv") none empty_root
    ≡ (ok started, after_start)
unfolding start_new count_active find_job put_job
start_runs = refl

start_new-Created_example :
    Created plain_hash plain_encode limits procs launch request
      (codes "/srv")
      none
      (job_fingerprint plain_hash plain_encode request (codes "/srv"))
      empty_root
      after_start
      started
start_new-Created_example =
    start_new-Created plain_hash plain_encode limits procs launch request (codes "/srv") none
      empty_root after_start started start_runs

-- An encoding of a request that can be taken apart again.
abbrev tagged : Text → Text → Option ℕ → Text
tagged digest cwd none = length digest ∷ 0 ∷ (digest ++ cwd)
tagged digest cwd (some t) = length digest ∷ suc t ∷ (digest ++ cwd)

-- The same key, with another limit of time.
abbrev longer : Request
longer = record request { timeout_ms = some 9000 }

abbrev after_first : Root
after_first = record {
  jobs =
      (
        11,
        launched launch (new_meta (codes "ls") request (codes "/srv") (some (codes "k1")) 70)
            request,
      )
      ∷ [];
  idempotency =
      (
        codes "k1",
        record {
          job_id = 11;
          fingerprint = job_fingerprint plain_hash tagged request (codes "/srv");
          tombstone = false;
        },
      )
      ∷ [];
}

live_active : is_terminal live_status.state ≡ false
unfolding describe
live_active = refl

abbrev done_job : Root
done_job = record one_job { jobs = (5, done_dir) ∷ [] }

abbrev done_status : Status
done_status = describe completed meta done_dir

done_found : find_job 5 done_job.jobs ≡ some done_dir
unfolding find_job
done_found = refl

done_seen : dir_status procs 70 done_dir ≡ some (done_status, done_dir)
unfolding dir_status bare_result
done_seen = refl

done_ended : is_terminal done_status.state ≡ true
unfolding describe
done_ended = refl

cleanup_job-ended_example :
    let (answer, after) = cleanup_job procs 70 5 done_job in
    (answer ≡ ok true)
    × ((j : ℕ) → find_job j after.jobs ≡ (if 5 == j then none else find_job j done_job.jobs))
    × ((k : Text) (m : Mapping)
        → find_key k done_job.idempotency ≡ some m
        → Remembers after.idempotency k m)
cleanup_job-ended_example =
    cleanup_job-ended procs 70 5 done_job done_dir done_dir done_status done_found done_seen
      done_ended

abbrev visit : ℕ → Visit
visit n = record { procs = procs; now = 70; max_bytes = 2; out_written = n; err_written = 0 }

abbrev nothing_yet : Got
nothing_yet = record { out = []; err = []; out_offset = 0; err_offset = 0 }

abbrev three_read : Got
three_read = record {
  out = codes "a" ∷ codes "bc" ∷ [] ∷ [];
  err = [] ∷ [] ∷ [] ∷ [];
  out_offset = 3;
  err_offset = 0;
}

-- ASCII output
abbrev ascii : Text → Text
ascii b = b

-- The log grows from one byte to three, and a call reads two bytes at most.
three_reads :
    read_on ascii [] 1000 5 (codes "abc") [] (visit 1 ∷ visit 3 ∷ visit 3 ∷ []) nothing_yet one_job
    ≡ some three_read
unfolding read_on job_read find_job dir_status put_job observe identity_alive new_meta
three_reads = refl

read_on-Fronts_example : Fronts ascii [] (codes "abc") [] three_read
read_on-Fronts_example =
    read_on-Fronts ascii [] 1000 5 (codes "abc") [] (visit 1 ∷ visit 3 ∷ visit 3 ∷ []) nothing_yet
      three_read one_job
      (record {
        got_out = record { stretches = []; whole = refl; texts_of = refl };
        got_err = record { stretches = []; whole = refl; texts_of = refl };
      })
      three_reads
