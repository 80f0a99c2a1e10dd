-- ===== src/Jobs/Cancelled.antt =====
-- The answer of `cancel_job` of src/remote_host_mcp/jobs.py.
use remote_host_mcp.Prelude.{
  ℕ, suc, ◌≡◌, ◌⊎◌, refl, true, false, ◌||◌, Option, some, List, [], ◌∷◌, arith, Option-cases,
  Bool-cases, inl, inr,
}
use remote_host_mcp.Jobs.{
  is_terminal, Procs, identity_alive, Meta, JobDir, Root, find_job, Status, observe, interrupt,
  describe, dir_status, job_status,
}
use remote_host_mcp.Jobs.Observing.{dir_status-live, dir_status-done, observe-alive, observe-dead}
use remote_host_mcp.Jobs.Cancel.{Moment, World}

-- The job's directory is there, with readable metadata.
pub record IsThere (id : ℕ) (root : Root) : Type 0 where
  pub dir : JobDir
  pub meta : Meta
  pub found : find_job id root.jobs ≡ some dir
  pub readable : dir.metadata ≡ some meta

-- What the other processes do before a look leaves the job in place.
abbrev pub Keeps : ℕ → Moment → Type 0
Keeps id w = (root : Root) → IsThere id root → IsThere id (w.change root)

pub data KeepsRounds (id : ℕ) : List (Moment × Moment) → Type 0 where
  no_round : KeepsRounds id []
  one_more :
      {w x : Moment} {rounds : List (Moment × Moment)}
      → Keeps id w
      → Keeps id x
      → KeepsRounds id rounds
      → KeepsRounds id ((w, x) ∷ rounds)

pub record KeepsWorld (id : ℕ) (world : World) : Type 0 where
  pub at_first : Keeps id world.first
  pub may_ask : world.asked.denied ≡ false
  pub may_force : world.forced.denied ≡ false
  pub when_asked : Keeps id world.asked
  pub in_grace : KeepsRounds id world.grace
  pub when_forced : Keeps id world.forced
  pub while_settling : (n : ℕ) → Keeps id (world.settling n)

observe-metadata :
    (procs : Procs) (now : ℕ) (m : Meta) (d : JobDir)
    → d.metadata ≡ some m
    → (m' : Meta) × ((observe procs now m d).1.metadata ≡ some m')
unfolding interrupt
observe-metadata procs now m d e =
    elim (Bool-cases (
      identity_alive procs m.child_pid m.child_start_ticks
      || identity_alive procs m.worker_pid m.worker_start_ticks)) [
        | inl alive ↦ rw (observe-alive procs now m d alive) (m, e)
        | inr dead ↦ rw (observe-dead procs now m d (ground arith) (ground arith)) (_, refl)
      ]

pub dir_status-metadata :
    (procs : Procs) (now : ℕ) (m : Meta) (d : JobDir)
    → d.metadata ≡ some m
    → (s : Status) × (d' : JobDir) × (m' : Meta) × (dir_status procs now d ≡ some (s, d'))
      × (d'.metadata ≡ some m')
dir_status-metadata procs now m d e = elim (Option-cases d.result) [
  | inl f ↦
      let (m', e') = observe-metadata procs now m d e in
      (
        (observe procs now m d).0,
        (observe procs now m d).1,
        m',
        dir_status-live procs now d m e f,
        e',
      )
  | inr (r, f) ↦ (describe r.status m d, d, m, dir_status-done procs now d m r e f, e)
]

-- A look of the grace period at the job
pub data InGrace (w : Moment) : List (Moment × Moment) → Type 0 where
  here : {x : Moment} → {rounds : List (Moment × Moment)} → InGrace w ((w, x) ∷ rounds)
  there :
      {r : Moment × Moment}
      → {rounds : List (Moment × Moment)} → InGrace w rounds
      → InGrace w (r ∷ rounds)

-- What so many more looks and the final one come to: the first look at an ended job counts, and the
-- final one in any case.
pub data Settles (id : ℕ) (world : World) (s : Status) : ℕ → Root → Type 0 where
  finally :
      (root root' : Root)
      → job_status
          (world.settling 0).procs
          (world.settling 0).now
          id
          ((world.settling 0).change root)
        ≡ some (s, root')
      → Settles id world s 0 root
  stops :
      (n : ℕ) (root root' : Root)
      → job_status
          (world.settling (suc n)).procs
          (world.settling (suc n)).now
          id
          ((world.settling (suc n)).change root)
        ≡ some (s, root')
      → is_terminal s.state ≡ true
      → Settles id world s (suc n) root
  waits :
      (n : ℕ) (root root' : Root) (t : Status)
      → job_status
          (world.settling (suc n)).procs
          (world.settling (suc n)).now
          id
          ((world.settling (suc n)).change root)
        ≡ some (t, root')
      → is_terminal t.state ≡ false
      → Settles id world s n root'
      → Settles id world s (suc n) root

-- The status that the call answers with: that of an ended job at the first look or in the grace
-- period, or what twenty more looks and the final one come to.
pub data IsFinal (id : ℕ) (world : World) (s : Status) : Type 0 where
  ended :
      (w : Moment) (root root' : Root)
      → ((w ≡ world.first) ⊎ InGrace w world.grace)
      → job_status w.procs w.now id root ≡ some (s, root')
      → is_terminal s.state ≡ true
      → IsFinal id world s
  settled : (root : Root) → Settles id world s 20 root → IsFinal id world s

abbrev Answers : ℕ → World → Option Status → Type 0
Answers id world answer = (s : Status) × (answer ≡ some s) × IsFinal id world s
