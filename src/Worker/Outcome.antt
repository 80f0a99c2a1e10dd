-- ===== src/Worker/Outcome.antt =====
-- How a job is classified when it ends (`run` of src/remote_host_mcp/job_worker.py).
use remote_host_mcp.Prelude.{
  ℕ, ◌≤◌, ◌≡◌, ◌≢◌, ◌↔◌, sym, ◌∙◌, true, false, Option, none, some, List, [], ◌∷◌, arith, ◌⊎◌, inl,
  inr, Bool-cases, leb→le, le→leb,
}
use remote_host_mcp.Prelude.Int.{pos}
use remote_host_mcp.Disk.{Bytes}
use remote_host_mcp.Worker.{
  completed, timed_out, canceled, Look, Watched, by_itself, by_cancel, by_timeout, still_running,
  watch, is_timeout, is_canceled, Ending, final_status, Start, run_job, is_past,
}

-- The deadline has come.
abbrev pub IsPast : Option ℕ → ℕ → Type 0
IsPast none now = ⊥
IsPast (some deadline) now = deadline ≤ now

-- A round sees that the process runs, that there is a request to cancel, or no request and the
-- deadline.
abbrev pub AsksToCancel : Look → Type 0
AsksToCancel l = (l.exited ≡ false) × (l.marker ≡ true)

abbrev pub IsLate : Option ℕ → Look → Type 0
IsLate deadline l = (l.exited ≡ false) × (l.marker ≡ false) × IsPast deadline l.now

abbrev pub IsQuiet : Option ℕ → Look → Type 0
IsQuiet deadline l = (l.exited ≡ false) × (l.marker ≡ false) × ¬ IsPast deadline l.now

-- Some round is of a kind, and all before it are quiet.
pub data Reaches (deadline : Option ℕ) (kind : Look → Type 0) : List Look → Type 0 where
  at_first : {l : Look} → {rest : List Look} → kind l → Reaches deadline kind (l ∷ rest)
  at_later :
      {l : Look}
      → {rest : List Look} → IsQuiet deadline l
      → Reaches deadline kind rest
      → Reaches deadline kind (l ∷ rest)

past_lem : (deadline : Option ℕ) (now : ℕ) → (is_past deadline now ≡ true) ↔ IsPast deadline now
past_lem none now = (λ h. absurd (ground arith), λ h. absurd h)
past_lem (some d) now = (λ h. leb→le d now h, λ h. le→leb d now h)

not_past : (deadline : Option ℕ) (now : ℕ) → ¬ IsPast deadline now → is_past deadline now ≡ false
not_past deadline now h = elim (Bool-cases (is_past deadline now)) [
  | inl e ↦ absurd (h ((past_lem deadline now).0 e))
  | inr e ↦ e
]

not_yet : (deadline : Option ℕ) (now : ℕ) → is_past deadline now ≡ false → ¬ IsPast deadline now
not_yet deadline now e p = absurd (ground (arith, e, (past_lem deadline now).1 p))

watch-quiet :
    (deadline : Option ℕ) (l : Look) (rest : List Look)
    → IsQuiet deadline l
    → watch deadline (l ∷ rest) ≡ watch deadline rest
unfolding watch
watch-quiet deadline l rest (a, b, c) = ground (arith, a, b, not_past deadline l.now c)

Reaches-cancel :
    (deadline : Option ℕ) (looks : List Look)
    → Reaches deadline AsksToCancel looks
    → watch deadline looks ≡ by_cancel
unfolding watch
Reaches-cancel deadline _ (at_first (a, b)) = ground (arith, a, b)
Reaches-cancel deadline _ (at_later {l = l} {rest = rest} q r) =
    watch-quiet deadline l rest q ∙ Reaches-cancel deadline rest r

Reaches-late :
    (deadline : Option ℕ) (looks : List Look)
    → Reaches deadline (IsLate deadline) looks
    → watch deadline looks ≡ by_timeout
unfolding watch
Reaches-late deadline _ (at_first {l = l} (a, b, c)) =
    ground (arith, a, b, (past_lem deadline l.now).1 c)
Reaches-late deadline _ (at_later {l = l} {rest = rest} q r) =
    watch-quiet deadline l rest q ∙ Reaches-late deadline rest r

-- A loop that a request or the deadline has ended has reached such a round.
watch-Reaches :
    (deadline : Option ℕ) (looks : List Look)
    → (watch deadline looks ≡ by_cancel → Reaches deadline AsksToCancel looks)
      × (watch deadline looks ≡ by_timeout → Reaches deadline (IsLate deadline) looks)
unfolding watch
watch-Reaches deadline [] = (λ h. absurd (ground (arith, h)), λ h. absurd (ground (arith, h)))
watch-Reaches deadline (l ∷ rest) = elim (Bool-cases l.exited) [
  | inl a ↦ (λ h. absurd (ground (arith, a, h)), λ h. absurd (ground (arith, a, h)))
  | inr a ↦ elim (Bool-cases l.marker) [
    | inl b ↦ (λ h. at_first (a, b), λ h. absurd (ground (arith, a, b, h)))
    | inr b ↦ elim (Bool-cases (is_past deadline l.now)) [
      | inl c ↦ (
        λ h. absurd (ground (arith, a, b, c, h)),
        λ h. at_first (a, b, (past_lem deadline l.now).0 c),
      )
      | inr c ↦
          let quiet : IsQuiet deadline l = (a, b, not_yet deadline l.now c) in
          let same = watch-quiet deadline l rest quiet in
          let (first, second) = watch-Reaches deadline rest in
          (λ h. at_later quiet (first (sym same ∙ h)), λ h. at_later quiet (second (sym same ∙ h)))
    ]
  ]
]

status-cases :
    (w : Watched) (e : Ending)
    → let state = final_status (is_canceled w e) (is_timeout w) e.exit_code in
      ((state ≡ canceled) ↔ ((w ≡ by_cancel) ⊎ (w ≢ by_timeout) × (e.marker ≡ true)))
      × ((state ≡ timed_out) ↔ (w ≡ by_timeout))
      × (state ≡ completed → e.exit_code ≡ pos 0)
unfolding is_canceled final_status
status-cases by_itself e = ground arith
status-cases by_cancel e = ground arith
status-cases by_timeout e = ground arith
status-cases still_running e = ground arith

-- What a job that was started is called: canceled exactly if the polling reached a round with a
-- request to cancel before any with the deadline or the end of the process, or if there is a request
-- in the end and the polling did not reach the deadline first; timed out exactly if it reached the
-- deadline first; and completed only with exit code 0.
pub run_job-status :
    (limit : ℕ) (deadline : Option ℕ) (s : Start) (looks : List Look) (e : Ending)
    (stdout stderr : List Bytes) (now : ℕ)
    → s.readable ≡ true
    → s.marker ≡ false
    → s.starts ≡ true
    → let r = run_job limit deadline s looks e stdout stderr now in
      let late = Reaches deadline (IsLate deadline) looks in
      ((r.status ≡ canceled) ↔ (Reaches deadline AsksToCancel looks ⊎ (¬ late) × (e.marker ≡ true)))
      × ((r.status ≡ timed_out) ↔ late)
      × (r.status ≡ completed → e.exit_code ≡ pos 0)
unfolding run_job is_canceled final_status
run_job-status limit deadline s looks e stdout stderr now readable fresh starts =
    let (canceling, timing, completing) = status-cases (watch deadline looks) e in
    let (asked, late) = watch-Reaches deadline looks in
    rw (readable, fresh, starts, run_job)
      (
        (
          λ h. elim (canceling.0 h) [
            | inl a ↦ inl (asked a)
            | inr (a, b) ↦ inr (λ l. a (Reaches-late deadline looks l), b)
          ],
          λ h. canceling.1 (elim h [
            | inl a ↦ inl (Reaches-cancel deadline looks a)
            | inr (a, b) ↦ inr (λ w. a (late w), b)
          ]),
        ),
        (λ h. late (timing.0 h), λ l. timing.1 (Reaches-late deadline looks l)),
        completing,
      )
