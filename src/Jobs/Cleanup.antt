-- ===== src/Jobs/Cleanup.antt =====
-- Removing a job: only an ended one, and its idempotency key starts nothing afterwards.
use remote_host_mcp.Prelude.{
  ℕ, ◌≡◌, refl, ap, sym, ◌∙◌, true, false, Option, none, some, List, [], ◌∷◌, arith, ◌==◌,
  if◌then◌else◌, Option-cases, Bool-cases, inl, inr,
}
use remote_host_mcp.Prelude.Text.{Text, text_eq, text_eq_sound}
use remote_host_mcp.Jobs.{
  is_terminal, Procs, JobDir, Mapping, Root, find_job, put_job, remove_job, find_key, put_key,
  Status, dir_status, ok, refused, still_active, bury, hash_of, cleanup_job,
}
use remote_host_mcp.Jobs.Starts.{job_status-known}

find_job-remove_job :
    (id j : ℕ) (jobs : List (ℕ × JobDir))
    → find_job j (remove_job id jobs) ≡ (if id == j then none else find_job j jobs)
unfolding find_job remove_job
find_job-remove_job id j [] = ground arith
find_job-remove_job id j ((i, d) ∷ rest) = ground (arith, find_job-remove_job id j rest)

pub find_job-put_other :
    (id j : ℕ) (d : JobDir) (jobs : List (ℕ × JobDir))
    → find_job j (put_job id d jobs) ≡ (if id == j then some d else find_job j jobs)
unfolding find_job put_job
find_job-put_other id j d [] = ground arith
find_job-put_other id j d ((i, e) ∷ rest) = ground (arith, find_job-put_other id j d rest)

find_key-put_other :
    (j k : Text) (m : Mapping) (keys : List (Text × Mapping))
    → find_key k (put_key j m keys) ≡ (if text_eq j k then some m else find_key k keys)
unfolding find_key put_key
find_key-put_other j k m [] = refl
find_key-put_other j k m ((i, n) ∷ rest) =
    ground (
      arith,
      find_key-put_other j k m rest,
      text_eq_sound i j,
      text_eq_sound j k,
      text_eq_sound i k,
    )

-- The key still leads to the same job, for the same request.
pub record Remembers (keys : List (Text × Mapping)) (k : Text) (m : Mapping) : Type 0 where
  pub entry : Mapping
  pub found : find_key k keys ≡ some entry
  pub job : entry.job_id ≡ m.job_id
  pub request : entry.fingerprint ≡ m.fingerprint

Remembers-put :
    (id : ℕ) (j k : Text) (keys : List (Text × Mapping)) (m n : Mapping)
    → find_key k keys ≡ some m
    → find_key j keys ≡ some n
    → Remembers (put_key j (record n { tombstone = true }) keys) k m
Remembers-put id j k keys m n h e = elim (Bool-cases (text_eq j k)) [
  | inl same ↦
      let names : j ≡ k = text_eq_sound j k same in
      let one : some n ≡ some m = sym (ap (λ x. find_key x keys) (sym names) ∙ e) ∙ h in
      let is_m : n ≡ m = cc one in
      record {
        entry = record n { tombstone = true };
        found = find_key-put_other j k (record n { tombstone = true }) keys ∙ (rw same refl);
        job = ap (λ (x : Mapping). x.job_id) is_m;
        request = ap (λ (x : Mapping). x.fingerprint) is_m;
      }
  | inr other ↦ record {
    entry = m;
    found = find_key-put_other j k (record n { tombstone = true }) keys ∙ (rw other h);
    job = refl;
    request = refl;
  }
]

bury-keeps :
    (id : ℕ) (hash : Option Text) (keys : List (Text × Mapping)) (k : Text) (m : Mapping)
    → find_key k keys ≡ some m
    → Remembers (bury id hash keys) k m
unfolding bury
bury-keeps id none keys k m h = record { entry = m; found = h; job = refl; request = refl }
bury-keeps id (some j) keys k m h = elim (Option-cases (find_key j keys)) [
  | inl e ↦ rw (e, bury) (record { entry = m; found = h; job = refl; request = refl })
  | inr (n, e) ↦ elim (Bool-cases (n.job_id == id)) [
    | inr other ↦ rw (e, other, bury) (record { entry = m; found = h; job = refl; request = refl })
    | inl mine ↦ rw (e, mine, bury) (Remembers-put id j k keys m n h e)
  ]
]

-- A job that is still active is not removed: its directory stays, as the look at it left it.
pub cleanup_job-active :
    (procs : Procs) (now id : ℕ) (root : Root) (d d' : JobDir) (s : Status)
    → find_job id root.jobs ≡ some d
    → dir_status procs now d ≡ some (s, d')
    → is_terminal s.state ≡ false
    → cleanup_job procs now id root
      ≡ (refused still_active, record root { jobs = put_job id d' root.jobs })
unfolding cleanup_job
cleanup_job-active procs now id root d d' s there seen active =
    rw (there, job_status-known procs now id root d d' s there seen, active, cleanup_job) refl

-- Removing an ended job takes away its directory and no other, and no idempotency key is forgotten:
-- every key still leads to the id that it led to.
pub cleanup_job-ended :
    (procs : Procs) (now id : ℕ) (root : Root) (d d' : JobDir) (s : Status)
    → find_job id root.jobs ≡ some d
    → dir_status procs now d ≡ some (s, d')
    → is_terminal s.state ≡ true
    → let (answer, after) = cleanup_job procs now id root in
      (answer ≡ ok true)
      × ((j : ℕ) → find_job j after.jobs ≡ (if id == j then none else find_job j root.jobs))
      × ((k : Text) (m : Mapping)
          → find_key k root.idempotency ≡ some m
          → Remembers after.idempotency k m)
unfolding cleanup_job
cleanup_job-ended procs now id root d d' s there seen ended =
    let jobs = put_job id d' root.jobs in
    let known = job_status-known procs now id root d d' s there seen in
    rw (there, known, ended, cleanup_job)
      (
        refl,
        λ j. find_job-remove_job id j jobs ∙ ground (arith, find_job-put_other id j d' root.jobs),
        bury-keeps id (hash_of (find_job id jobs)) root.idempotency,
      )
