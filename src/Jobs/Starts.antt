-- ===== src/Jobs/Starts.antt =====
-- Starting a job: the limit on active jobs, and the idempotency key.
use remote_host_mcp.Prelude.{
  ℕ, suc, ◌≤◌, ◌<◌, ◌≡◌, refl, ap, sym, ◌∙◌, true, false, Option, none, some, List, [], ◌∷◌, arith,
  leb, le→leb, ltb, lt→ltb, length, if◌then◌else◌, Option-cases, Bool-cases, inl, inr, ◌⊎◌, false,
}
use remote_host_mcp.Prelude.Text.{text_eq_refl, Text, text_eq}
use remote_host_mcp.Worker.{start_failed, bare_result}
use remote_host_mcp.Jobs.Active.{active_jobs, count_active-active, count_active-none}
use remote_host_mcp.Jobs.{
  Procs, Meta, JobDir, Mapping, Root, find_job, put_job, find_key, put_key, Status, dir_status,
  job_status, count_active, Answer, ok, refused, StartResult, Request, Limits, Launch,
  check_request, new_meta, launched, job_fingerprint, start_new, start_again, start_job,
  launch_state, Refusal, key_cleaned, key_reused,
}

find_key-put_key :
    (k : Text) (m : Mapping) (keys : List (Text × Mapping)) → find_key k (put_key k m keys) ≡ some m
unfolding find_key put_key
find_key-put_key k m [] = rw (text_eq_refl k) refl
find_key-put_key k m ((j, n) ∷ rest) = ground (arith, text_eq_refl k, find_key-put_key k m rest)

pub find_job-put_job :
    (id : ℕ) (d : JobDir) (jobs : List (ℕ × JobDir)) → find_job id (put_job id d jobs) ≡ some d
unfolding find_job put_job
find_job-put_job id d [] = ground arith
find_job-put_job id d ((j, e) ∷ rest) = ground (arith, find_job-put_job id d rest)

pub job_status-known :
    (procs : Procs) (now id : ℕ) (root : Root) (d d' : JobDir) (s : Status)
    → find_job id root.jobs ≡ some d
    → dir_status procs now d ≡ some (s, d')
    → job_status procs now id root ≡ some (s, record root { jobs = put_job id d' root.jobs })
unfolding job_status
job_status-known procs now id root d d' s there seen = rw (there, seen, job_status) refl

ok_injective : {A : Type 0} {a b : A} → ok a ≡ ok b → a ≡ b
ok_injective h = cc h

-- A directory made for a request: its metadata say what was asked for and when, and there is either
-- the worker and the command for it, or the result of a start that failed.
pub record IsNew (digest : Text) (v : Launch) (q : Request) (cwd : Text) (hash : Option Text)
    (d : JobDir) : Type 0 where
  pub meta : Meta
  pub readable : d.metadata ≡ some meta
  pub asked : (meta.command_sha256 ≡ digest) × (meta.cwd ≡ cwd) × (meta.timeout_ms ≡ q.timeout_ms)
  pub keyed : meta.idempotency_hash ≡ hash
  pub created : meta.created_at ≡ v.now
  pub calm : d.cancel_request ≡ false
  pub begun :
      ((worker : ℕ × Option ℕ) × (v.worker ≡ some worker)
        × (meta.worker_pid ≡ some worker.0)
        × (meta.worker_start_ticks ≡ worker.1)
        × (d.command ≡ some q.command)
        × (d.result ≡ none))
      ⊎ ((v.worker ≡ none)
          × (d.command ≡ none)
          × (d.result ≡ some (bare_result start_failed none v.now)))

launched-IsNew :
    (digest : Text) (v : Launch) (q : Request) (cwd : Text) (hash : Option Text)
    → IsNew digest v q cwd hash (launched v (new_meta digest q cwd hash v.now) q)
unfolding launched new_meta
launched-IsNew digest v q cwd hash = elim (Option-cases v.worker) [
  | inl e ↦
      rw (e, launched)
        (record {
          meta = record (new_meta digest q cwd hash v.now) {
            status = start_failed;
            completed_at = some v.now;
          };
          readable = refl;
          asked = (refl, refl, refl);
          keyed = refl;
          created = refl;
          calm = refl;
          begun = inr (refl, refl, refl);
        })
  | inr (worker, e) ↦
      rw (e, launched)
        (record {
          meta = record (new_meta digest q cwd hash v.now) {
            worker_pid = some worker.0;
            worker_start_ticks = worker.1;
          };
          readable = refl;
          asked = (refl, refl, refl);
          keyed = refl;
          created = refl;
          calm = refl;
          begun = inl (worker, refl, refl, refl, refl, refl);
        })
]

module _ (sha256 : Text → Text) (encode : Text → Text → Option ℕ → Text) where
  -- What a start leaves behind when it has made a new job.
  pub record Created (l : Limits) (procs : Procs) (v : Launch) (q : Request) (cwd : Text)
      (hash : Option Text) (print : Text) (before after : Root) (s : StartResult) : Type 0 where
    pub id : s.job_id ≡ v.token
    pub new : s.idempotent_reuse ≡ false
    pub limit : suc (active_jobs procs before.jobs) ≤ l.max_jobs
    pub fresh : find_job v.token before.jobs ≡ none
    pub dir : JobDir
    pub there : find_job v.token after.jobs ≡ some dir
    pub made_for : IsNew (sha256 q.command) v q cwd hash dir
    pub key :
        (k : Text)
        → hash ≡ some k
        → find_key k after.idempotency
          ≡ some (record { job_id = v.token; fingerprint = print; tombstone = false })

  -- The root behind a start that makes a new job.
  abbrev made : Procs → Launch → Request → Text → Option Text → Root → Root
  made procs v q cwd hash root = record {
    jobs =
        put_job v.token (launched v (new_meta (sha256 q.command) q cwd hash v.now) q)
          (count_active procs v.now root.jobs).1;
    idempotency = elim hash [
      | none ↦ root.idempotency
      | some k ↦
          put_key k
            (record {
              job_id = v.token;
              fingerprint = job_fingerprint sha256 encode q cwd;
              tombstone = false;
            })
            root.idempotency
    ];
  }

  abbrev made_result : Launch → StartResult
  made_result v = record {
    job_id = v.token;
    status = launch_state v.worker;
    idempotent_reuse = false;
  }

  start_new-made :
      (l : Limits) (procs : Procs) (v : Launch) (q : Request) (cwd : Text) (hash : Option Text)
      (root : Root)
      → leb l.max_jobs (count_active procs v.now root.jobs).0 ≡ false
      → find_job v.token (count_active procs v.now root.jobs).1 ≡ none
      → start_new sha256 encode l procs v q cwd hash root
        ≡ (ok (made_result v), made procs v q cwd hash root)
  unfolding start_new
  start_new-made l procs v q cwd hash root room fresh = rw (room, fresh, start_new) refl

  made-Created :
      (l : Limits) (procs : Procs) (v : Launch) (q : Request) (cwd : Text) (hash : Option Text)
      (root : Root)
      → leb l.max_jobs (count_active procs v.now root.jobs).0 ≡ false
      → find_job v.token (count_active procs v.now root.jobs).1 ≡ none
      → Created l procs v q cwd hash
          (job_fingerprint sha256 encode q cwd)
          root
          (made procs v q cwd hash root)
          (made_result v)
  made-Created l procs v q cwd hash root room fresh = record {
    id = refl;
    new = refl;
    limit = ground (arith, room, count_active-active procs v.now root.jobs);
    fresh = count_active-none procs v.now v.token root.jobs fresh;
    dir = launched v (new_meta (sha256 q.command) q cwd hash v.now) q;
    there = find_job-put_job v.token _ _;
    made_for = launched-IsNew (sha256 q.command) v q cwd hash;
    key = λ k e. rw e (find_key-put_key k _ root.idempotency);
  }

  -- A start that makes a new job stays within the limit, counted over the active jobs and the new one,
  -- takes an id that no job has, leaves a directory under that id that says what was asked for and has
  -- the worker or the result of a failed start, and stores the key, if there is one, with the
  -- fingerprint of the request.
  pub start_new-Created :
      (l : Limits) (procs : Procs) (v : Launch) (q : Request) (cwd : Text) (hash : Option Text)
      (root after : Root) (s : StartResult)
      → start_new sha256 encode l procs v q cwd hash root ≡ (ok s, after)
      → Created l procs v q cwd hash (job_fingerprint sha256 encode q cwd) root after s
  unfolding start_new
  start_new-Created l procs v q cwd hash root after s h =
      elim (Bool-cases (leb l.max_jobs (count_active procs v.now root.jobs).0)) [
        | inl full ↦ absurd (ground arith)
        | inr room ↦ elim (Option-cases (find_job v.token (count_active procs v.now root.jobs).1)) [
          | inr (d, taken) ↦ absurd (ground arith)
          | inl fresh ↦
              let same : (ok (made_result v), made procs v q cwd hash root) ≡ (ok s, after) =
                sym (start_new-made l procs v q cwd hash root room fresh) ∙ h in
              let is_s : made_result v ≡ s =
                ok_injective (ap (λ (p : Answer StartResult × Root). p.0) same) in
              let is_after : made procs v q cwd hash root ≡ after =
                ap (λ (p : Answer StartResult × Root). p.1) same in
              rw (← is_s, ← is_after) (made-Created l procs v q cwd hash root room fresh)
        ]
      ]

  -- The request is well-formed and carries a key.
  pub record Keyed (l : Limits) (q : Request) (cwd key : Text) : Type 0 where
    pub valid : check_request l q ≡ ok cwd
    pub has_key : q.idempotency_key ≡ some key
    pub key_fits : (0 < length key) × (length key ≤ 256)

  start_job-again :
      (l : Limits) (procs : Procs) (v : Launch) (q : Request) (cwd key : Text) (root : Root)
      (m : Mapping)
      → Keyed l q cwd key
      → find_key (sha256 key) root.idempotency ≡ some m
      → start_job sha256 encode l procs v q root ≡ start_again sha256 encode procs v q cwd m root
  unfolding start_job start_again job_fingerprint
  start_job-again l procs v q cwd key root m k found =
      let low : ltb 0 (length key) ≡ true = lt→ltb _ _ k.key_fits.0 in
      let high : leb (length key) 256 ≡ true = le→leb _ _ k.key_fits.1 in
      rw (k.valid, k.has_key, low, high, found, start_job) refl

  -- A second start with the key of a job that is still there makes no new job, at any later time
  -- and with any processes: it answers with the first job's id, marked as a reuse, if the request
  -- is the same one, and is refused otherwise.
  pub start_job-reuse :
      (l : Limits) (procs : Procs) (v : Launch) (q : Request) (cwd key : Text) (root : Root)
      (m : Mapping) (d d' : JobDir) (s : Status)
      → Keyed l q cwd key
      → find_key (sha256 key) root.idempotency ≡ some m
      → find_job m.job_id root.jobs ≡ some d
      → dir_status procs v.now d ≡ some (s, d')
      → start_job sha256 encode l procs v q root ≡ (
          if text_eq m.fingerprint (job_fingerprint sha256 encode q cwd)
          then (
            ok (record { job_id = m.job_id; status = s.state; idempotent_reuse = true }),
            record root { jobs = put_job m.job_id d' root.jobs },
          )
          else (refused key_reused, root))
  unfolding start_again
  start_job-reuse l procs v q cwd key root m d d' s k found there seen =
      start_job-again l procs v q cwd key root m k found
      ∙ elim (Bool-cases (text_eq m.fingerprint (job_fingerprint sha256 encode q cwd))) [
        | inl e ↦
            rw (e, there, job_status-known procs v.now m.job_id root d d' s there seen, start_again)
              refl
        | inr e ↦ rw (e, start_again) refl
      ]

  -- A key whose job was removed starts nothing, whatever the request.
  pub start_job-removed :
      (l : Limits) (procs : Procs) (v : Launch) (q : Request) (cwd key : Text) (root : Root)
      (m : Mapping)
      → Keyed l q cwd key
      → find_key (sha256 key) root.idempotency ≡ some m
      → find_job m.job_id root.jobs ≡ none
      → (why : Refusal) × (start_job sha256 encode l procs v q root ≡ (refused why, root))
  unfolding start_again
  start_job-removed l procs v q cwd key root m k found gone =
      elim (Bool-cases (text_eq m.fingerprint (job_fingerprint sha256 encode q cwd))) [
        | inl e ↦ (
          key_cleaned,
          start_job-again l procs v q cwd key root m k found ∙ (rw (e, gone, start_again) refl),
        )
        | inr e ↦ (
          key_reused,
          start_job-again l procs v q cwd key root m k found ∙ (rw (e, start_again) refl),
        )
      ]
