-- ===== src/Jobs/Twice.antt =====
-- Two starts of src/remote_host_mcp/jobs.py with one idempotency key.
use remote_host_mcp.Prelude.{ℕ, ◌≡◌, true, false, ◌==◌}
use remote_host_mcp.Prelude.Text.{Text}
use remote_host_mcp.Worker.{JobState}
use remote_host_mcp.Jobs.{Root, find_job, Answer, ok, StartResult, Request}

-- Two requests ask for the same: the command, the directory and the limit of time.
abbrev pub SameRequest : Request → Text → Request → Text → Type 0
SameRequest q cwd q' cwd' = (q.command ≡ q'.command) × (cwd ≡ cwd') × (q.timeout_ms ≡ q'.timeout_ms)

-- The answer is that of a reuse, and no job but the first is touched.
pub record Reused (s : StartResult) (before : Root) (r : Answer StartResult × Root) : Type 0 where
  pub state : JobState
  pub answer : r.0 ≡ ok (record { job_id = s.job_id; status = state; idempotent_reuse = true })
  pub keys : r.1.idempotency ≡ before.idempotency
  pub others : (j : ℕ) → (s.job_id == j) ≡ false → find_job j r.1.jobs ≡ find_job j before.jobs
