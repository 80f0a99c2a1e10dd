-- ===== src/Jobs/Active.antt =====
-- Which jobs of src/remote_host_mcp/jobs.py are active, by their directories and processes.
use remote_host_mcp.Prelude.{
  ℕ, suc, ◌≡◌, refl, Bool, true, false, not, ◌||◌, none, some, List, [], ◌∷◌, arith, if◌then◌else◌,
  Option-cases, inl, inr,
}
use remote_host_mcp.Worker.{
  JobState, starting, running, cancel_requested, lost, interrupted, completed, failed, timed_out,
  canceled, start_failed,
}
use remote_host_mcp.Jobs.State.{
  Procs, identity_alive, JobDir, is_terminal, dir_status, observe, live_state, describe, find_job,
  count_active,
}

-- A state that a job may still leave.
abbrev pub is_open_state : JobState → Bool
is_open_state starting = true
is_open_state running = true
is_open_state cancel_requested = true
is_open_state lost = true
is_open_state interrupted = false
is_open_state completed = false
is_open_state failed = false
is_open_state timed_out = false
is_open_state canceled = false
is_open_state start_failed = false

-- A readable job without a result of which the child or the worker lives, or with an open result.
abbrev pub is_active : Procs → JobDir → Bool
is_active procs d = elim d.metadata [
  | none ↦ false
  | some m ↦ elim d.result [
    | some r ↦ is_open_state r.status
    | none ↦
        identity_alive procs m.child_pid m.child_start_ticks
        || identity_alive procs m.worker_pid m.worker_start_ticks
  ]
]

abbrev pub active_jobs : Procs → List (ℕ × JobDir) → ℕ
active_jobs procs [] = 0
active_jobs procs ((id, d) ∷ rest) =
    let n = active_jobs procs rest in if is_active procs d then suc n else n

terminal-open : (s : JobState) → is_terminal s ≡ not (is_open_state s)
terminal-open starting = refl
terminal-open running = refl
terminal-open cancel_requested = refl
terminal-open lost = refl
terminal-open interrupted = refl
terminal-open completed = refl
terminal-open failed = refl
terminal-open timed_out = refl
terminal-open canceled = refl
terminal-open start_failed = refl

live_state-open :
    (child worker cancel : Bool)
    → is_terminal (live_state child worker cancel) ≡ not (child || worker)
unfolding live_state
live_state-open true true true = refl
live_state-open true true false = refl
live_state-open true false true = refl
live_state-open true false false = refl
live_state-open false true true = refl
live_state-open false true false = refl
live_state-open false false true = refl
live_state-open false false false = refl

-- The loop of `_active_job_count` counts the active jobs.
pub count_active-active :
    (procs : Procs) (now : ℕ) (jobs : List (ℕ × JobDir))
    → (count_active procs now jobs).0 ≡ active_jobs procs jobs
unfolding count_active dir_status observe describe
count_active-active procs now [] = refl
count_active-active procs now ((id, d) ∷ rest) =
    let ih = count_active-active procs now rest in
    elim (Option-cases d.metadata) [
      | inl e ↦ ground (arith, e, ih)
      | inr (m, e) ↦ elim (Option-cases d.result) [
        | inr (r, f) ↦ ground (arith, e, f, ih, terminal-open r.status)
        | inl f ↦
            let child = identity_alive procs m.child_pid m.child_start_ticks in
            let worker = identity_alive procs m.worker_pid m.worker_start_ticks in
            ground (arith, e, f, ih, live_state-open child worker d.cancel_request)
      ]
    ]

-- The counting removes no directory.
pub count_active-none :
    (procs : Procs) (now j : ℕ) (jobs : List (ℕ × JobDir))
    → find_job j (count_active procs now jobs).1 ≡ none
    → find_job j jobs ≡ none
unfolding count_active find_job
count_active-none procs now j [] h = refl
count_active-none procs now j ((id, d) ∷ rest) h =
    let ih = count_active-none procs now j rest in
    elim (Option-cases (dir_status procs now d)) [
      | inl e ↦ ground (arith, e, h, ih)
      | inr ((s, d'), e) ↦ ground (arith, e, h, ih)
    ]
