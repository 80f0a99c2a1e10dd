-- ===== src/Audit/Retention.antt =====
-- What the audit log retains over calls of `AuditWriter.record`: nothing but the oldest generation
-- is given up, and the size stays within the budget.
use remote_host_mcp.Prelude.{
  ℕ, zero, suc, ◌-◌, ◌*◌, ◌≤◌, ◌≡◌, refl, true, false, some, List, [], ◌∷◌, ◌++◌, arith,
  if◌then◌else◌, length, length-append, append_assoc, Bool-cases, inl, inr, ◌∙◌,
}
use remote_host_mcp.Disk.{Bytes, Disk, content}
use remote_host_mcp.Audit.{Faults, Writer, record_event}
use remote_host_mcp.Audit.Records.{
  IsConsistent, AllWell, log, is_due, record_event-content, record_event-IsConsistent,
}

-- What a rotation keeps: all but generation `keep`.
abbrev pub survives : ℕ → Disk → Bytes
survives zero d = []
survives (suc n) d = log n d

module _ (f : Faults) (payload : Bytes) (well : AllWell f payload) (w : Writer) (d : Disk)
    (on : w.enabled ≡ true) (c : IsConsistent w d) where
  -- the generations from k down, when the record did not rotate
  log_grown :
      (k : ℕ)
      → is_due w.max_bytes (length (content d 0)) (length payload) ≡ false
      → log k (record_event f (some payload) w d).2 ≡ log k d ++ payload
  unfolding log
  log_grown zero room = ground (arith, record_event-content f payload well w d on c 0)
  log_grown (suc k) room = rw (log_grown k room) (
      ground (
        arith,
        record_event-content f payload well w d on c (suc k),
        append_assoc (content d (suc k)) (log k d) payload,
      ))

  -- and when it did
  log_rotated :
      (k : ℕ)
      → suc k ≤ w.keep_files
      → is_due w.max_bytes (length (content d 0)) (length payload) ≡ true
      → log (suc k) (record_event f (some payload) w d).2 ≡ log k d ++ payload
  unfolding log
  log_rotated zero room due = ground (
    arith,
    record_event-content f payload well w d on c 1,
    record_event-content f payload well w d on c 0,
  )
  log_rotated (suc k) room due = rw (log_rotated k (omega arith) due) (
      ground (
        arith,
        record_event-content f payload well w d on c (suc (suc k)),
        append_assoc (content d (suc k)) (log k d) payload,
      ))

  -- A `record` whose calls go through adds its line at the end of the retained log. When the line
  -- would take a main file that is not empty past the budget, the oldest generation is given up
  -- for it, and nothing else.
  pub record_keeps_log :
      (log w.keep_files (record_event f (some payload) w d).2)
      ≡ (if is_due w.max_bytes (length (content d 0)) (length payload)
          then survives w.keep_files d
          else log w.keep_files d)
        ++ payload
  unfolding log
  record_keeps_log = by_keep w.keep_files refl
    where
      by_keep :
          (k : ℕ)
          → w.keep_files ≡ k
          → log k (record_event f (some payload) w d).2
            ≡ (if is_due w.max_bytes (length (content d 0)) (length payload)
                then survives k d
                else log k d)
              ++ payload
      by_keep zero e = ground (arith, record_event-content f payload well w d on c 0)
      by_keep (suc k) e =
          elim (Bool-cases (is_due w.max_bytes (length (content d 0)) (length payload))) [
            | inl due ↦ rw due (log_rotated k (rw e (omega arith)) due)
            | inr room ↦ rw room (log_grown (suc k) room)
          ]

-- No generation is larger than the budget.
abbrev pub IsWithin : ℕ → Disk → Type 0
IsWithin limit d = (i : ℕ) → length (content d i) ≤ limit

record_event-IsWithin :
    (f : Faults) (payload : Bytes) (well : AllWell f payload) (w : Writer) (d : Disk)
    (on : w.enabled ≡ true) (c : IsConsistent w d) (limit : ℕ)
    → w.max_bytes ≡ some limit
    → length payload ≤ limit
    → IsWithin limit d
    → IsWithin limit (record_event f (some payload) w d).2
record_event-IsWithin f payload well w d on c limit budget fits h i =
    rw (record_event-content f payload well w d on c i, budget)
      (ground (arith, h 0, h i, h (i - 1), length-append (content d 0) payload))

length-log : (limit k : ℕ) (d : Disk) → IsWithin limit d → length (log k d) ≤ suc k * limit
unfolding log
length-log limit zero d h = omega (arith, h 0)
length-log limit (suc k) d h =
    rw (length-append (content d (suc k)) (log k d))
      (omega (arith, h (suc k), length-log limit k d h))

-- The calls of `record` in the life of a log, each with what the system calls answered.
unfoldable pub record_all : List (Faults × Bytes) → Writer → Disk → Writer × Disk
record_all [] w d = (w, d)
record_all ((f, payload) ∷ rest) w d =
    let (_, w', d') = record_event f (some payload) w d in record_all rest w' d'

abbrev pub AllFit : ℕ → List (Faults × Bytes) → Type 0
AllFit limit [] = Unit
AllFit limit ((f, payload) ∷ rest) =
    AllWell f payload × (length payload ≤ limit) × AllFit limit rest

record_all-IsWithin :
    (limit : ℕ) (lines : List (Faults × Bytes)) (w : Writer) (d : Disk)
    → AllFit limit lines
    → w.enabled ≡ true
    → w.max_bytes ≡ some limit
    → IsConsistent w d
    → IsWithin limit d
    → IsWithin limit (record_all lines w d).1
unfolding record_all
record_all-IsWithin limit [] w d fit on budget c h = h
record_all-IsWithin limit ((f, payload) ∷ rest) w d (well, fits, more) on budget c h =
    let (c', l, k, e) = record_event-IsConsistent f payload well w d on c in
    record_all-IsWithin limit rest _ _ more e (l ∙ budget) c'
      (record_event-IsWithin f payload well w d on c limit budget fits h)

-- However many lines are written, each at most the budget long, the retained log (the main file
-- and `keep_files` generations) stays within `keep_files + 1` times the budget.
pub log_bounded :
    (limit : ℕ) (lines : List (Faults × Bytes)) (w : Writer) (d : Disk)
    → AllFit limit lines
    → w.enabled ≡ true
    → w.max_bytes ≡ some limit
    → IsConsistent w d
    → IsWithin limit d
    → length (log w.keep_files (record_all lines w d).1) ≤ suc w.keep_files * limit
log_bounded limit lines w d fit on budget c h =
    length-log limit w.keep_files _ (record_all-IsWithin limit lines w d fit on budget c h)
