-- ===== src/Jobs/Observing.antt =====
-- What `job_status` says of a job, and what it leaves.
use remote_host_mcp.Prelude.{
  ℕ, ◌≡◌, refl, ap, sym, ◌∙◌, true, false, ◌||◌, none, some, arith, if◌then◌else◌, Option-cases,
  Bool-cases, inl, inr,
}
use remote_host_mcp.Worker.{interrupted, Result}
use remote_host_mcp.Jobs.{
  is_terminal, Procs, identity_alive, Meta, JobDir, Status, live_state, interrupt, describe,
  observe, dir_status,
}

pub dir_status-live :
    (procs : Procs) (now : ℕ) (d : JobDir) (m : Meta)
    → d.metadata ≡ some m
    → d.result ≡ none
    → dir_status procs now d ≡ some (observe procs now m d)
unfolding dir_status
dir_status-live procs now d m e f = ground arith

pub dir_status-done :
    (procs : Procs) (now : ℕ) (d : JobDir) (m : Meta) (r : Result)
    → d.metadata ≡ some m
    → d.result ≡ some r
    → dir_status procs now d ≡ some (describe r.status m d, d)
unfolding dir_status
dir_status-done procs now d m r e f = ground arith

unfoldable interrupted_meta : ℕ → Meta → Meta
interrupted_meta now m =
    if is_terminal m.status then m else record m { status = interrupted; completed_at = some now }

pub observe-dead :
    (procs : Procs) (now : ℕ) (m : Meta) (d : JobDir)
    → identity_alive procs m.child_pid m.child_start_ticks ≡ false
    → identity_alive procs m.worker_pid m.worker_start_ticks ≡ false
    → observe procs now m d ≡ (describe interrupted m (interrupt now m d), interrupt now m d)
unfolding observe live_state
observe-dead procs now m d child worker = ground (arith, child, worker)

interrupt-again :
    (now later : ℕ) (m : Meta) (d : JobDir)
    → interrupt later (interrupted_meta now m) (interrupt now m d) ≡ interrupt now m d
unfolding interrupt interrupted_meta
interrupt-again now later m d = ground arith

describe-interrupted_meta :
    (now : ℕ) (m : Meta) (d : JobDir)
    → describe interrupted (interrupted_meta now m) d ≡ describe interrupted m d
unfolding describe interrupted_meta
describe-interrupted_meta now m d = ground arith

interrupted_meta-dead :
    (procs : Procs) (now : ℕ) (m : Meta)
    → identity_alive procs m.child_pid m.child_start_ticks ≡ false
    → identity_alive procs m.worker_pid m.worker_start_ticks ≡ false
    → let m' = interrupted_meta now m in
      (identity_alive procs m'.child_pid m'.child_start_ticks ≡ false)
      × (identity_alive procs m'.worker_pid m'.worker_start_ticks ≡ false)
unfolding interrupted_meta
interrupted_meta-dead procs now m child worker = elim (Bool-cases (is_terminal m.status)) [
  | inl t ↦ rw (t, interrupted_meta) (child, worker)
  | inr t ↦ rw (t, interrupted_meta) (child, worker)
]

dir_status-interrupt :
    (procs : Procs) (now later : ℕ) (m : Meta) (d : JobDir)
    → d.result ≡ none
    → identity_alive procs m.child_pid m.child_start_ticks ≡ false
    → identity_alive procs m.worker_pid m.worker_start_ticks ≡ false
    → dir_status procs later (interrupt now m d)
      ≡ some (describe interrupted m (interrupt now m d), interrupt now m d)
unfolding interrupt interrupted_meta
dir_status-interrupt procs now later m d f child worker =
    let m' = interrupted_meta now m in
    let (child', worker') = interrupted_meta-dead procs now m child worker in
    dir_status-live procs later (interrupt now m d) m' refl f
    ∙ ap some (
        observe-dead procs later m' (interrupt now m d) child' worker'
        ∙ ap (λ x. (describe interrupted m' x, x)) (interrupt-again now later m d)
        ∙ ap (λ x. (x, interrupt now m d)) (describe-interrupted_meta now m (interrupt now m d)))

pub observe-alive :
    (procs : Procs) (now : ℕ) (m : Meta) (d : JobDir)
    → (identity_alive procs m.child_pid m.child_start_ticks
        || identity_alive procs m.worker_pid m.worker_start_ticks)
      ≡ true
    → let state =
        live_state
          (identity_alive procs m.child_pid m.child_start_ticks)
          (identity_alive procs m.worker_pid m.worker_start_ticks)
          d.cancel_request in
      observe procs now m d ≡ (describe state m d, d)
unfolding observe
observe-alive procs now m d alive = rw (alive, observe) refl

observe-again :
    (procs : Procs) (now later : ℕ) (m : Meta) (d : JobDir)
    → d.metadata ≡ some m
    → d.result ≡ none
    → dir_status procs later (observe procs now m d).1 ≡ some (observe procs now m d)
observe-again procs now later m d e f =
    let child = identity_alive procs m.child_pid m.child_start_ticks in
    let worker = identity_alive procs m.worker_pid m.worker_start_ticks in
    elim (Bool-cases (child || worker)) [
      | inl alive ↦
          let first = observe-alive procs now m d alive in
          rw first
            (dir_status-live procs later d m e f ∙ ap some (observe-alive procs later m d alive))
      | inr dead ↦
          let c : child ≡ false = ground arith in
          let w : worker ≡ false = ground arith in
          rw (observe-dead procs now m d c w) (dir_status-interrupt procs now later m d f c w)
    ]

-- What a second look at a job finds, which nothing has touched in between: the same answer, and
-- nothing to change. The process table is the same, the clock may have moved on.
pub dir_status-again :
    (procs : Procs) (now later : ℕ) (d d' : JobDir) (s : Status)
    → dir_status procs now d ≡ some (s, d')
    → dir_status procs later d' ≡ some (s, d')
unfolding dir_status
dir_status-again procs now later d d' s h = elim (Option-cases d.metadata) [
  | inl e ↦ absurd (ground arith)
  | inr (m, e) ↦ elim (Option-cases d.result) [
    | inr (r, f) ↦
        let known : dir_status procs now d ≡ some (describe r.status m d, d) =
          dir_status-done procs now d m r e f in
        let later_known : dir_status procs later d ≡ some (describe r.status m d, d) =
          dir_status-done procs later d m r e f in
        let same : some (describe r.status m d, d) ≡ some (s, d') = sym known ∙ h in
        let is_s : describe r.status m d ≡ s = cc same in
        let is_d : d ≡ d' = cc same in rw (← is_s, ← is_d) later_known
    | inl f ↦
        let same : some (observe procs now m d) ≡ some (s, d') =
          sym (dir_status-live procs now d m e f) ∙ h in
        let pair : observe procs now m d ≡ (s, d') = cc same in
        let is_s : (observe procs now m d).0 ≡ s = ap (λ (p : Status × JobDir). p.0) pair in
        let is_d : (observe procs now m d).1 ≡ d' = ap (λ (p : Status × JobDir). p.1) pair in
        rw (← is_s, ← is_d) (observe-again procs now later m d e f)
  ]
]

-- A job that has a result keeps the status in it, whatever processes there are, and its directory is
-- not touched.
pub dir_status-result :
    (procs : Procs) (now : ℕ) (d : JobDir) (m : Meta) (r : Result)
    → d.metadata ≡ some m
    → d.result ≡ some r
    → (s : Status) × (dir_status procs now d ≡ some (s, d)) × (s.state ≡ r.status)
unfolding dir_status describe
dir_status-result procs now d m r e f =
    (describe r.status m d, dir_status-done procs now d m r e f, refl)

-- A job without a result whose processes are both gone is interrupted for good: its metadata say so,
-- and the text of its command is removed from the disk.
pub dir_status-dead :
    (procs : Procs) (now : ℕ) (d : JobDir) (m : Meta)
    → d.metadata ≡ some m
    → d.result ≡ none
    → identity_alive procs m.child_pid m.child_start_ticks ≡ false
    → identity_alive procs m.worker_pid m.worker_start_ticks ≡ false
    → (s : Status) × (d' : JobDir) × (dir_status procs now d ≡ some (s, d'))
      × (s.state ≡ interrupted)
      × (d'.command ≡ none)
unfolding describe interrupt
dir_status-dead procs now d m e f child worker = (
  describe interrupted m (interrupt now m d),
  interrupt now m d,
  dir_status-live procs now d m e f ∙ ap some (observe-dead procs now m d child worker),
  refl,
  refl,
)
