-- ===== src/Jobs/Signals.antt =====
-- The signals of `cancel_job` of src/remote_host_mcp/jobs.py: whom they reach, and how many there are.
use remote_host_mcp.Prelude.{
  ℕ, ◌≡◌, ◌≢◌, ◌⊎◌, refl, Bool, true, false, Option, none, some, List, [], ◌∷◌, ◌++◌, arith,
  Option-cases, Bool-cases, inl, inr,
}
use remote_host_mcp.Jobs.{is_terminal, Procs, identity_alive, Meta, Root, Status, job_status}
use remote_host_mcp.Jobs.Cancel.{
  Moment, World, Signal, group_alive, send_signal, read_meta, request_cancel, wait_grace,
  is_refused, Waited, raised, answered, left, force_cancel, signal_cancel, cancel_job,
}

-- The group of a signal is the job's child: a process that runs with the start time on record,
-- where one is on record, and leads its group.
pub record IsChild (g : Signal) : Type 0 where
  pub on_record : g.known.child_pid ≡ some g.group
  pub not_zero : g.group ≢ 0
  pub started :
      (t : ℕ) × (g.seen.procs g.group ≡ some t)
      × ((g.known.child_start_ticks ≡ none) ⊎ (g.known.child_start_ticks ≡ some t))
  pub leader : g.seen.leads g.group ≡ true

-- At most one SIGTERM and then at most one SIGKILL, each to the job's child.
pub data AreAimed : List Signal → Type 0 where
  no_signal : AreAimed []
  one_signal : (g : Signal) → IsChild g → AreAimed (g ∷ [])
  then_killed :
      (g h : Signal)
      → g.force ≡ false
      → h.force ≡ true
      → IsChild g
      → IsChild h
      → AreAimed (g ∷ h ∷ [])

identity_alive-started :
    (procs : Procs) (p : ℕ) (ticks : Option ℕ)
    → identity_alive procs (some p) ticks ≡ true
    → (p ≢ 0) × ((t : ℕ) × (procs p ≡ some t) × ((ticks ≡ none) ⊎ (ticks ≡ some t)))
unfolding identity_alive
identity_alive-started procs p ticks h = elim (Option-cases (procs p)) [
  | inl gone ↦ absurd (ground (arith, gone, h))
  | inr (t, runs) ↦ (
    ground (arith, runs, h),
    (
      t,
      runs,
      elim (Option-cases ticks) [
        | inl unknown ↦ inl unknown
        | inr (u, known) ↦ inr (ground (arith, runs, known, h))
      ],
    ),
  )
]

send_signal-cases :
    (force : Bool) (w : Moment) (m : Meta)
    → (send_signal force w m ≡ [])
      ⊎ ((g : Signal) × (send_signal force w m ≡ g ∷ []) × (g.force ≡ force) × IsChild g)
unfolding send_signal group_alive
send_signal-cases force w m = elim (Option-cases m.child_pid) [
  | inl nobody ↦ inl (ground (arith, nobody))
  | inr (p, child) ↦ elim (Bool-cases (identity_alive w.procs (some p) m.child_start_ticks)) [
    | inr dead ↦ inl (ground (arith, child, dead))
    | inl alive ↦ elim (Bool-cases (w.leads p)) [
      | inr follows ↦ inl (ground (arith, child, alive, follows))
      | inl leads ↦ inr (
        record { force = force; group = p; seen = w; known = m },
        ground (arith, child, alive, leads),
        refl,
        (let (not_zero, started) = identity_alive-started w.procs p m.child_start_ticks alive in
            record { on_record = child; not_zero = not_zero; started = started; leader = leads }),
      )
    ]
  ]
]

signals_first : (w : Moment) (m : Meta) → AreAimed (send_signal false w m)
signals_first w m = elim (send_signal-cases false w m) [
  | inl none_sent ↦ rw none_sent no_signal
  | inr (g, sent, _, child) ↦ rw sent (one_signal g child)
]

signals_both :
    (w x : Moment) (m n : Meta) → AreAimed (send_signal false w m ++ send_signal true x n)
signals_both w x m n = elim (send_signal-cases false w m) [
  | inl none_sent ↦ rw none_sent (elim (send_signal-cases true x n) [
    | inl none_forced ↦ rw none_forced no_signal
    | inr (h, forced, _, child) ↦ rw forced (one_signal h child)
  ])
  | inr (g, sent, soft, child) ↦ rw sent (elim (send_signal-cases true x n) [
    | inl none_forced ↦ rw none_forced (one_signal g child)
    | inr (h, forced, hard, child') ↦ rw forced (then_killed g h soft hard child child')
  ])
]

force_cancel-AreAimed :
    (id : ℕ) (world : World) (w : Moment) (m : Meta) (root : Root)
    → AreAimed (force_cancel id world (send_signal false w m) root).signals
unfolding force_cancel
force_cancel-AreAimed id world w m root =
    elim (Option-cases (read_meta id (world.forced.change root))) [
      | inl gone ↦ rw (gone, force_cancel) (signals_first w m)
      | inr (n, there) ↦
          rw (there, force_cancel)
            (elim (Bool-cases (is_refused world.forced (send_signal true world.forced n))) [
              | inl e ↦ rw e (signals_both w world.forced m n)
              | inr e ↦ rw e (signals_both w world.forced m n)
            ])
    ]

Waited-cases : (w : Waited) → (w ≡ raised) ⊎ (((s : Status) × (w ≡ answered s)) ⊎ (w ≡ left))
Waited-cases raised = inl refl
Waited-cases (answered s) = inr (inl (s, refl))
Waited-cases left = inr (inr refl)

signal_cancel-AreAimed :
    (id : ℕ) (world : World) (root : Root) → AreAimed (signal_cancel id world root).signals
unfolding signal_cancel
signal_cancel-AreAimed id world root = elim (Option-cases (read_meta id root)) [
  | inl gone ↦ rw (gone, signal_cancel) no_signal
  | inr (m, there) ↦
      rw (there, signal_cancel)
        (elim (Bool-cases (is_refused world.asked (send_signal false world.asked m))) [
          | inl denied ↦ rw denied (signals_first world.asked m)
          | inr go ↦ rw go (elim (Waited-cases (wait_grace id world.grace root).0) [
            | inl e ↦ rw e (signals_first world.asked m)
            | inr (inl (s, e)) ↦ rw e (signals_first world.asked m)
            | inr (inr e) ↦ rw e (force_cancel-AreAimed id world world.asked m _)
          ])
        ])
]

-- Whatever the other processes do in the meantime, `cancel_job` sends at most one SIGTERM and then at
-- most one SIGKILL, and each goes to the group of a process that, at the look on which it was
-- decided, ran under the child's pid on record, with the start time on record if there is one, and
-- led its group.
pub cancel_job-AreAimed :
    (id : ℕ) (world : World) (root : Root) → AreAimed (cancel_job id world root).signals
unfolding cancel_job
cancel_job-AreAimed id world root =
    elim (Option-cases
      (job_status world.first.procs world.first.now id (world.first.change root))) [
        | inl unknown ↦ rw (unknown, cancel_job) no_signal
        | inr ((s, root'), known) ↦
            rw (known, cancel_job)
              (elim (Bool-cases (is_terminal s.state)) [
                | inl ended ↦ rw ended no_signal
                | inr active ↦
                    rw active (elim (Option-cases (request_cancel id (world.asked.change root'))) [
                      | inl gone ↦ rw gone no_signal
                      | inr (marked, there) ↦ rw there (signal_cancel-AreAimed id world marked)
                    ])
              ])
      ]
