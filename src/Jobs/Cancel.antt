-- ===== src/Jobs/Cancel.antt =====
-- `cancel_job` of src/remote_host_mcp/jobs.py: the request, the two signals and the waiting.
use remote_host_mcp.Prelude.{
  ℕ, zero, suc, Bool, true, false, not, is_nil, ◌&&◌, Option, none, some, List, [], ◌∷◌, ◌++◌,
  if◌then◌else◌,
}
use remote_host_mcp.Jobs.{
  is_terminal, Procs, identity_alive, Meta, Root, find_job, put_job, Status, job_status,
}

-- A look at the system: the time, the processes, which of them lead their process group
-- (`os.getpgid(pid) == pid`), whether `os.killpg` is not permitted, and what other processes made of the directories since the last look.
pub record Moment : Type 0 where
  pub now : ℕ
  pub procs : Procs
  pub leads : ℕ → Bool
  pub denied : Bool
  pub change : Root → Root

-- What the system does during one call. `grace` has the looks of the rounds that the deadline
-- leaves time for, two in a round; the looks of the last loop are counted down to the final one.
pub record World : Type 0 where
  pub first : Moment
  pub asked : Moment
  pub grace : List (Moment × Moment)
  pub forced : Moment
  pub settling : ℕ → Moment

-- A call of `os.killpg`, with the look and the metadata that it was decided on; `force` is SIGKILL.
pub record Signal : Type 0 where
  pub force : Bool
  pub group : ℕ
  pub seen : Moment
  pub known : Meta

-- `proc_group_identity_alive`
unfoldable pub group_alive : Moment → Option ℕ → Option ℕ → Bool
group_alive w pid ticks =
    identity_alive w.procs pid ticks && elim pid [ none ↦ false | some p ↦ w.leads p ]

unfoldable pub send_signal : Bool → Moment → Meta → List Signal
send_signal force w m =
    if group_alive w m.child_pid m.child_start_ticks
    then elim m.child_pid [
      | none ↦ []
      | some p ↦ record { force = force; group = p; seen = w; known = m } ∷ []
    ]
    else []

-- A signal that is not permitted ends the call with PermissionError.
abbrev pub is_refused : Moment → List Signal → Bool
is_refused w sent = w.denied && not (is_nil sent)

-- `read_json(job_dir / "metadata.json")`; none is an exception
unfoldable pub read_meta : ℕ → Root → Option Meta
read_meta id root = elim (find_job id root.jobs) [ none ↦ none | some d ↦ d.metadata ]

-- The creation of cancel.request; none where the directory is gone
unfoldable pub request_cancel : ℕ → Root → Option Root
request_cancel id root = elim (find_job id root.jobs) [
  | none ↦ none
  | some d ↦ some (record root { jobs = put_job id (record d { cancel_request = true }) root.jobs })
]

-- How a loop ends.
pub data Waited : Type 0 where
  raised : Waited
  answered : Status → Waited
  left : Waited

-- The loop up to the deadline
unfoldable pub wait_grace : ℕ → List (Moment × Moment) → Root → Waited × Root
wait_grace id [] root = (left, root)
wait_grace id ((w, x) ∷ rounds) root = elim (job_status w.procs w.now id (w.change root)) [
  | none ↦ (raised, w.change root)
  | some (s, root') ↦
      let later = x.change root' in
      let rest = wait_grace id rounds later in
      if is_terminal s.state then (answered s, root') else elim (read_meta id later) [
        | none ↦ (raised, later)
        | some m ↦ if group_alive x m.child_pid m.child_start_ticks then rest else (left, later)
      ]
]

-- The last loop, with so many rounds left, and the final look
unfoldable pub settle_job : ℕ → ℕ → (ℕ → Moment) → Root → Option Status × Root
settle_job id zero looks root =
    let w = looks 0 in
    elim (job_status w.procs w.now id (w.change root)) [
      | none ↦ (none, w.change root)
      | some (s, root') ↦ (some s, root')
    ]
settle_job id (suc n) looks root =
    let w = looks (suc n) in
    elim (job_status w.procs w.now id (w.change root)) [
      | none ↦ (none, w.change root)
      | some (s, root') ↦
          let rest = settle_job id n looks root' in
          if is_terminal s.state then (some s, root') else rest
    ]

-- What one call did: its answer, none for an exception, the signals in their order, and the
-- directories it leaves.
pub record Cancellation : Type 0 where
  pub answer : Option Status
  pub signals : List Signal
  pub root : Root

-- `cancel_job` from the end of the grace period on
unfoldable pub force_cancel : ℕ → World → List Signal → Root → Cancellation
force_cancel id world sent root =
    let here = world.forced.change root in
    elim (read_meta id here) [
      | none ↦ record { answer = none; signals = sent; root = here }
      | some m ↦
          let killed = send_signal true world.forced m in
          let (answer, final) = settle_job id 20 world.settling here in
          if is_refused world.forced killed
          then record { answer = none; signals = sent ++ killed; root = here }
          else record { answer = answer; signals = sent ++ killed; root = final }
    ]

-- `cancel_job` once cancel.request is there
unfoldable pub signal_cancel : ℕ → World → Root → Cancellation
signal_cancel id world root = elim (read_meta id root) [
  | none ↦ record { answer = none; signals = []; root = root }
  | some m ↦
      let sent = send_signal false world.asked m in
      let (waited, later) = wait_grace id world.grace root in
      if is_refused world.asked sent
      then record { answer = none; signals = sent; root = root }
      else elim waited [
        | raised ↦ record { answer = none; signals = sent; root = later }
        | answered s ↦ record { answer = some s; signals = sent; root = later }
        | left ↦ force_cancel id world sent later
      ]
]

-- `cancel_job`
unfoldable pub cancel_job : ℕ → World → Root → Cancellation
cancel_job id world root =
    let here = world.first.change root in
    elim (job_status world.first.procs world.first.now id here) [
      | none ↦ record { answer = none; signals = []; root = here }
      | some (s, root') ↦
          let asked = world.asked.change root' in
          if is_terminal s.state
          then record { answer = some s; signals = []; root = root' }
          else elim (request_cancel id asked) [
            | none ↦ record { answer = none; signals = []; root = asked }
            | some marked ↦ signal_cancel id world marked
          ]
    ]
