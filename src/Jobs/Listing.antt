-- ===== src/Jobs/Listing.antt =====
-- `list_jobs` of src/remote_host_mcp/jobs.py: the newest jobs, up to a limit.
use mathlib.Core.List.{Permᴰ, filter_map, map}
use remote_host_mcp.Prelude.{
  ℕ, suc, ◌≡◌, refl, Bool, true, ◌&&◌, ◌||◌, none, some, List, [], ◌∷◌, ◌++◌, arith, take, drop,
  length, leb, ltb, ◌≤◌, min, if◌then◌else◌, take-append-drop, length-take, length-drop, Bool-cases,
  Option-cases, inl, inr, Option,
}
use remote_host_mcp.Jobs.{Procs, JobDir, Root, Status, dir_status, Answer, ok, refused, bad_limit}

-- The loop of `list_jobs`: the rows, and the directories as the observations leave them
unfoldable pub list_dirs : Procs → ℕ → List (ℕ × JobDir) → List Status × List (ℕ × JobDir)
list_dirs procs now [] = ([], [])
list_dirs procs now ((id, d) ∷ rest) =
    let (rows, rest') = list_dirs procs now rest in
    elim (dir_status procs now d) [
      | none ↦ (rows, (id, d) ∷ rest')
      | some (s, d') ↦ (s ∷ rows, (id, d') ∷ rest')
    ]

-- A row goes before the first one that is not newer.
unfoldable pub insert_row : Status → List Status → List Status
insert_row s [] = s ∷ []
insert_row s (r ∷ rows) =
    let later = insert_row s rows in
    if leb r.created_at s.created_at then s ∷ r ∷ rows else r ∷ later

-- `rows.sort(key=..., reverse=True)`, which keeps rows of one time in their order
unfoldable pub sort_rows : List Status → List Status
sort_rows [] = []
sort_rows (s ∷ rows) = insert_row s (sort_rows rows)

pub record JobList : Type 0 where
  pub jobs : List Status
  pub truncated : Bool

-- `list_jobs`
unfoldable pub list_jobs : Procs → ℕ → ℕ → Root → Answer JobList × Root
list_jobs procs now limit root =
    if ltb limit 1 || ltb 500 limit
    then (refused bad_limit, root)
    else (let (rows, dirs) = list_dirs procs now root.jobs in
        (
          ok (record { jobs = take limit (sort_rows rows); truncated = ltb limit (length rows) }),
          record root { jobs = dirs },
        ))

-- No row is newer than a time.
abbrev pub none_newer : ℕ → List Status → Bool
none_newer t [] = true
none_newer t (r ∷ rows) = leb r.created_at t && none_newer t rows

abbrev pub newest_first : List Status → Bool
newest_first [] = true
newest_first (r ∷ rows) = none_newer r.created_at rows && newest_first rows

none_newer-insert_row :
    (t : ℕ) (s : Status) (rows : List Status)
    → s.created_at ≤ t
    → none_newer t rows ≡ true
    → none_newer t (insert_row s rows) ≡ true
unfolding insert_row
none_newer-insert_row t s [] h k = ground arith
none_newer-insert_row t s (r ∷ rows) h k = ground (arith, none_newer-insert_row t s rows h)

none_newer_later :
    (t u : ℕ) (rows : List Status) → t ≤ u → none_newer t rows ≡ true → none_newer u rows ≡ true
none_newer_later t u [] h k = refl
none_newer_later t u (r ∷ rows) h k = ground (arith, none_newer_later t u rows h)

newest_first-insert_row :
    (s : Status) (rows : List Status)
    → newest_first rows ≡ true
    → newest_first (insert_row s rows) ≡ true
unfolding insert_row
newest_first-insert_row s [] h = refl
newest_first-insert_row s (r ∷ rows) h = ground (
  arith,
  newest_first-insert_row s rows,
  none_newer_later r.created_at s.created_at rows,
  none_newer-insert_row r.created_at s rows,
)

newest_first-sort_rows : (rows : List Status) → newest_first (sort_rows rows) ≡ true
unfolding sort_rows
newest_first-sort_rows [] = refl
newest_first-sort_rows (s ∷ rows) =
    newest_first-insert_row s (sort_rows rows) (newest_first-sort_rows rows)

perm_refl : (rows : List Status) → Permᴰ rows rows
perm_refl [] = Permᴰ.nil
perm_refl (r ∷ rows) = Permᴰ.cons refl (perm_refl rows)

insert_row-Perm : (s : Status) (rows : List Status) → Permᴰ (s ∷ rows) (insert_row s rows)
unfolding insert_row
insert_row-Perm s [] = Permᴰ.cons refl Permᴰ.nil
insert_row-Perm s (r ∷ rows) = elim (Bool-cases (leb r.created_at s.created_at)) [
  | inl old ↦ rw old (perm_refl (s ∷ r ∷ rows))
  | inr new ↦ rw new (Permᴰ.trans (Permᴰ.swap refl refl) (Permᴰ.cons refl (insert_row-Perm s rows)))
]

sort_rows-Perm : (rows : List Status) → Permᴰ rows (sort_rows rows)
unfolding sort_rows
sort_rows-Perm [] = Permᴰ.nil
sort_rows-Perm (s ∷ rows) =
    Permᴰ.trans (Permᴰ.cons refl (sort_rows-Perm rows)) (insert_row-Perm s (sort_rows rows))

length-insert_row :
    (s : Status) (rows : List Status) → length (insert_row s rows) ≡ suc (length rows)
unfolding insert_row
length-insert_row s [] = refl
length-insert_row s (r ∷ rows) = ground (arith, length-insert_row s rows)

length-sort_rows : (rows : List Status) → length (sort_rows rows) ≡ length rows
unfolding sort_rows
length-sort_rows [] = refl
length-sort_rows (s ∷ rows) =
    omega (arith, length-insert_row s (sort_rows rows), length-sort_rows rows)

abbrev pub status_of : Option (Status × JobDir) → Option Status
status_of none = none
status_of (some (s, d)) = some s

abbrev pub dir_after : JobDir → Option (Status × JobDir) → JobDir
dir_after d none = d
dir_after d (some (s, d')) = d'

-- The statuses of the readable jobs, in the order of the directories
abbrev pub readable_rows : Procs → ℕ → List (ℕ × JobDir) → List Status
readable_rows procs now = filter_map (λ (job : ℕ × JobDir). status_of (dir_status procs now job.1))

-- The directories after a look at each of them
abbrev pub looked_at : Procs → ℕ → List (ℕ × JobDir) → List (ℕ × JobDir)
looked_at procs now =
    map (λ (job : ℕ × JobDir). (job.0, dir_after job.1 (dir_status procs now job.1)))

list_dirs-rows :
    (procs : Procs) (now : ℕ) (jobs : List (ℕ × JobDir))
    → list_dirs procs now jobs ≡ (readable_rows procs now jobs, looked_at procs now jobs)
unfolding list_dirs filter_map
list_dirs-rows procs now [] = refl
list_dirs-rows procs now ((id, d) ∷ rest) =
    let ih = list_dirs-rows procs now rest in
    elim (Option-cases (dir_status procs now d)) [
      | inl e ↦ ground (arith, e, ih)
      | inr ((s, d'), e) ↦ ground (arith, e, ih)
    ]

-- With a limit from 1 to 500, `list_jobs` lists the newest jobs: the listed rows and the hidden ones
-- are together the rows of all readable jobs, from the newest to the oldest, as many as the limit
-- allows are listed, and the answer is marked as truncated exactly when a row is hidden. The
-- directories are left as the observations of their states leave them.
pub list_jobs-newest :
    (procs : Procs) (now limit : ℕ) (root : Root)
    → 1 ≤ limit
    → limit ≤ 500
    → let all = readable_rows procs now root.jobs in
      (a : JobList) × (hidden : List Status) × (list_jobs procs now limit root
        ≡ (ok a, record root { jobs = looked_at procs now root.jobs }))
      × Permᴰ all (a.jobs ++ hidden)
      × (newest_first (a.jobs ++ hidden) ≡ true)
      × (length a.jobs ≡ min limit (length all))
      × (a.truncated ≡ ltb 0 (length hidden))
unfolding list_jobs
list_jobs-newest procs now limit root low high =
    let rows = readable_rows procs now root.jobs in
    let sorted = sort_rows rows in
    let whole = take-append-drop limit sorted in
    let size = length-sort_rows rows in
    (
      record { jobs = take limit sorted; truncated = ltb limit (length rows) },
      drop limit sorted,
      ground (arith, low, high, list_dirs-rows procs now root.jobs),
      rw whole (sort_rows-Perm rows),
      rw whole (newest_first-sort_rows rows),
      omega (arith, length-take limit sorted, size),
      ground (arith, length-drop limit sorted, size),
    )
