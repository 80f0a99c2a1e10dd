-- ===== src/Leases/Held.antt =====
-- A lease of src/remote_host_mcp/agent_ops.py keeps everybody else off its resource until it expires or
-- is released.
use remote_host_mcp.Prelude.{
  ℕ, ◌+◌, ◌<◌, ◌≡◌, refl, ap, ◌∙◌, Bool, true, false, not, ◌&&◌, Option, none, some, List, [], ◌∷◌,
  ◌++◌, length, leb, ltb, ◌==◌, arith, inl, inr, ◌⊎◌, Bool-cases, Option-cases,
}
use remote_host_mcp.Prelude.Text.{all_hex, Text, text_eq, text_eq_refl}
use remote_host_mcp.Leases.{
  Lease, File, holds, Answer, ok, refused, unexpired, find_lease, without, validate_resource,
  Acquired, holder_ok, load_leases, acquire_checked, lease_acquire, lease_status, lease_list,
  lease_release,
}

unexpired-find :
    (now : ℕ) (r : Text) (l : Lease) (ls : List Lease)
    → now < l.expires_at
    → find_lease r ls ≡ some l
    → find_lease r (unexpired now ls) ≡ some l
unfolding find_lease unexpired
unexpired-find now r l [] fresh h = absurd (ground arith)
unexpired-find now r l (k ∷ ls) fresh h = elim (Bool-cases (text_eq k.resource r)) [
  | inl e ↦
      let same : k ≡ l = ground (arith, e) in
      let kept : ltb now k.expires_at ≡ true = rw same (ground arith) in
      rw kept (rw (e, find_lease) (ap some same))
  | inr e ↦ ground (arith, e, unexpired-find now r l ls)
]

without-find :
    (id r : Text) (l : Lease) (ls : List Lease)
    → text_eq l.lease_id id ≡ false
    → find_lease r ls ≡ some l
    → find_lease r (without id ls) ≡ some l
unfolding find_lease without
without-find id r l [] other h = absurd (ground arith)
without-find id r l (k ∷ ls) other h = elim (Bool-cases (text_eq k.resource r)) [
  | inl e ↦
      let same : k ≡ l = ground (arith, e) in
      let kept : text_eq k.lease_id id ≡ false =
        ap (λ (x : Lease). text_eq x.lease_id id) same ∙ other in
      rw kept (rw (e, find_lease) (ap some same))
  | inr e ↦ ground (arith, e, without-find id r l ls)
]

append-find :
    (r : Text) (l e : Lease) (ls : List Lease)
    → find_lease r ls ≡ some l
    → find_lease r (ls ++ e ∷ []) ≡ some l
unfolding find_lease
append-find r l e [] h = absurd (ground arith)
append-find r l e (k ∷ ls) h = ground (arith, append-find r l e ls)

append-new :
    (r : Text) (e : Lease) (ls : List Lease)
    → find_lease r ls ≡ none
    → text_eq e.resource r ≡ true
    → find_lease r (ls ++ e ∷ []) ≡ some e
unfolding find_lease
append-new r e [] h same = ground arith
append-new r e (k ∷ ls) h same = ground (arith, append-new r e ls)

-- The registry names a lease for a resource.
pub record Names (r : Text) (l : Lease) (file : File) : Type 0 where
  pub entries : List Lease
  pub stored : file ≡ holds entries
  pub found : find_lease r entries ≡ some l

-- A call of one of the four operations.
pub data Call : Type 0 where
  acquires : ℕ → ℕ → Text → Text → Option Text → ℕ → Call
  asks : ℕ → Text → Call
  lists : ℕ → Call
  releases : ℕ → Text → Call

-- A call before the time at which a lease expires, and not the release of its id.
abbrev pub spares : Text → ℕ → Call → Bool
spares own until (acquires now later id raw holder ttl) = ltb now until
spares own until (asks now raw) = ltb now until
spares own until (lists now) = ltb now until
spares own until (releases now id) = ltb now until && not (text_eq own id)

abbrev pub all_calls_spare : Text → ℕ → List Call → Bool
all_calls_spare own until [] = true
all_calls_spare own until (c ∷ cs) = spares own until c && all_calls_spare own until cs

abbrev pub is_acquired : Answer Acquired → Bool
is_acquired refused = false
is_acquired (ok a) = a.acquired

module _ (json_size : List Lease → ℕ) where
  -- The registry after a call, and after several.
  unfoldable pub after_call : Call → File → File
  unfolding lease_acquire lease_status lease_list lease_release
  after_call (acquires now later id raw holder ttl) file =
      (lease_acquire json_size now later id raw holder ttl file).1
  after_call (asks now raw) file = (lease_status json_size now raw file).1
  after_call (lists now) file = (lease_list json_size now file).1
  after_call (releases now id) file = (lease_release json_size now id file).1

  unfoldable pub after_calls : List Call → File → File
  unfolding after_call
  after_calls [] file = file
  after_calls (c ∷ cs) file = after_calls cs (after_call c file)

  -- What a load gives of a registry that names a lease which has not expired.
  load_leases-Names :
      (now : ℕ) (r : Text) (l : Lease) (file : File)
      → now < l.expires_at
      → Names r l file
      → (load_leases json_size now file ≡ refused)
        ⊎ ((ls : List Lease) × (load_leases json_size now file ≡ ok ls)
            × (find_lease r ls ≡ some l))
  unfolding load_leases
  load_leases-Names now r l file fresh n =
      rw n.stored (elim (Bool-cases (ltb 1048576 (json_size n.entries))) [
        | inl e ↦ inl (rw e refl)
        | inr e ↦
            inr (unexpired now n.entries, rw e refl, unexpired-find now r l n.entries fresh n.found)
      ])

  Answer-cases : {A : Type 0} (a : Answer A) → (a ≡ refused) ⊎ ((x : A) × (a ≡ ok x))
  Answer-cases refused = inl refl
  Answer-cases (ok x) = inr (x, refl)

  acquire_checked-Names :
      (now later : ℕ) (id q : Text) (holder : Option Text) (ttl : ℕ) (r : Text) (l : Lease)
      (file : File)
      → now < l.expires_at
      → Names r l file
      → Names r l (acquire_checked json_size now later id q holder ttl file).1
  unfolding acquire_checked
  acquire_checked-Names now later id q holder ttl r l file fresh n =
      elim (load_leases-Names now r l file fresh n) [
        | inl f ↦ rw (f, acquire_checked) n
        | inr (ls, f, g) ↦ elim (Option-cases (find_lease q ls)) [
          | inr (k, taken) ↦
              rw (f, taken, acquire_checked) (record { entries = ls; stored = refl; found = g })
          | inl free ↦
              rw (f, free, acquire_checked)
                (record { entries = _; stored = refl; found = append-find r l _ ls g })
        ]
      ]

  acquire-Names :
      (now later : ℕ) (id raw : Text) (holder : Option Text) (ttl : ℕ) (r : Text) (l : Lease)
      (file : File)
      → now < l.expires_at
      → Names r l file
      → Names r l (lease_acquire json_size now later id raw holder ttl file).1
  unfolding lease_acquire acquire_checked
  acquire-Names now later id raw holder ttl r l file fresh n =
      elim (Answer-cases (validate_resource raw)) [
        | inl e ↦ rw (e, lease_acquire) n
        | inr (q, e) ↦ elim (Bool-cases (holder_ok holder && leb 5 ttl && leb ttl 86400)) [
          | inr no_way ↦ rw (e, no_way, lease_acquire) n
          | inl go ↦
              rw (e, go, lease_acquire)
                (acquire_checked-Names now later id q holder ttl r l file fresh n)
        ]
      ]

  status-Names :
      (now : ℕ) (raw r : Text) (l : Lease) (file : File)
      → now < l.expires_at
      → Names r l file
      → Names r l (lease_status json_size now raw file).1
  unfolding lease_status
  status-Names now raw r l file fresh n = elim (Answer-cases (validate_resource raw)) [
    | inl e ↦ rw (e, lease_status) n
    | inr (q, e) ↦ elim (load_leases-Names now r l file fresh n) [
      | inl f ↦ rw (e, f, lease_status) n
      | inr (ls, f, g) ↦ rw (e, f, lease_status) (record { entries = ls; stored = refl; found = g })
    ]
  ]

  list-Names :
      (now : ℕ) (r : Text) (l : Lease) (file : File)
      → now < l.expires_at
      → Names r l file
      → Names r l (lease_list json_size now file).1
  unfolding lease_list
  list-Names now r l file fresh n = elim (load_leases-Names now r l file fresh n) [
    | inl f ↦ rw (f, lease_list) n
    | inr (ls, f, g) ↦ rw (f, lease_list) (record { entries = ls; stored = refl; found = g })
  ]

  release-Names :
      (now : ℕ) (id r : Text) (l : Lease) (file : File)
      → now < l.expires_at
      → text_eq l.lease_id id ≡ false
      → Names r l file
      → Names r l (lease_release json_size now id file).1
  unfolding lease_release
  release-Names now id r l file fresh other n = elim (Bool-cases (length id == 32 && all_hex id)) [
    | inr bad ↦ rw (bad, lease_release) n
    | inl good ↦ elim (load_leases-Names now r l file fresh n) [
      | inl f ↦ rw (good, f, lease_release) n
      | inr (ls, f, g) ↦
          rw (good, f, lease_release)
            (record {
              entries = without id ls;
              stored = refl;
              found = without-find id r l ls other g;
            })
    ]
  ]

  after_calls-Names :
      (calls : List Call) (r : Text) (l : Lease) (file : File)
      → all_calls_spare l.lease_id l.expires_at calls ≡ true
      → Names r l file
      → Names r l (after_calls calls file)
  unfolding after_calls after_call
  after_calls-Names [] r l file h n = n
  after_calls-Names (acquires now later id raw holder ttl ∷ cs) r l file h n =
      after_calls-Names cs r l _ (ground arith)
        (acquire-Names now later id raw holder ttl r l file (ground arith) n)
  after_calls-Names (asks now raw ∷ cs) r l file h n =
      after_calls-Names cs r l _ (ground arith) (status-Names now raw r l file (ground arith) n)
  after_calls-Names (lists now ∷ cs) r l file h n =
      after_calls-Names cs r l _ (ground arith) (list-Names now r l file (ground arith) n)
  after_calls-Names (releases now id ∷ cs) r l file h n =
      after_calls-Names cs r l _ (ground arith)
        (release-Names now id r l file (ground arith) (ground arith) n)

  -- What a successful acquire leaves behind.
  record Granted (a : Acquired) (id : Text) (until : ℕ) (file : File) : Type 0 where
    lease : Lease
    names : Names a.resource lease file
    own : lease.lease_id ≡ id
    ends : lease.expires_at ≡ until

  acquire_checked-Granted :
      (now later : ℕ) (id q : Text) (holder : Option Text) (ttl : ℕ) (file file' : File)
      (a : Acquired)
      → acquire_checked json_size now later id q holder ttl file ≡ (ok a, file')
      → a.acquired ≡ true
      → Granted a id (later + ttl) file'
  unfolding acquire_checked
  acquire_checked-Granted now later id q holder ttl file file' a h won =
      elim (Answer-cases (load_leases json_size now file)) [
        | inl e ↦ absurd (ground (arith, e))
        | inr (ls, e) ↦ elim (Option-cases (find_lease q ls)) [
          | inr (k, f) ↦ absurd (ground (arith, e, f))
          | inl f ↦
              let entry : Lease = record {
                lease_id = id;
                resource = q;
                holder = holder;
                expires_at = later + ttl;
                created_at = later;
              } in
              let stored : holds (ls ++ entry ∷ []) ≡ file' = ground (arith, e, f) in
              let name : q ≡ a.resource = ground (arith, e, f) in
              rw (← stored, ← name)
                (record {
                  lease = entry;
                  names = record {
                    entries = ls ++ entry ∷ [];
                    stored = refl;
                    found = append-new q entry ls f (text_eq_refl q);
                  };
                  own = refl;
                  ends = refl;
                })
        ]
      ]

  -- Nobody gets a resource whose lease is in the registry and has not expired.
  Names-refuses :
      (now later : ℕ) (id raw : Text) (holder : Option Text) (ttl : ℕ) (r : Text) (l : Lease)
      (file : File)
      → validate_resource raw ≡ ok r
      → now < l.expires_at
      → Names r l file
      → is_acquired (lease_acquire json_size now later id raw holder ttl file).0 ≡ false
  unfolding lease_acquire acquire_checked
  Names-refuses now later id raw holder ttl r l file same fresh n =
      elim (Bool-cases (holder_ok holder && leb 5 ttl && leb ttl 86400)) [
        | inr no_way ↦ rw (same, no_way, lease_acquire) refl
        | inl go ↦ elim (load_leases-Names now r l file fresh n) [
          | inl f ↦ rw (same, go, f, lease_acquire, acquire_checked) refl
          | inr (ls, f, g) ↦ rw (same, go, f, g, lease_acquire, acquire_checked) refl
        ]
      ]

  acquire-Granted :
      (now later : ℕ) (id raw : Text) (holder : Option Text) (ttl : ℕ) (file file' : File)
      (a : Acquired)
      → lease_acquire json_size now later id raw holder ttl file ≡ (ok a, file')
      → a.acquired ≡ true
      → Granted a id (later + ttl) file'
  unfolding lease_acquire
  acquire-Granted now later id raw holder ttl file file' a h won =
      elim (Answer-cases (validate_resource raw)) [
        | inl e ↦ absurd (ground (arith, e))
        | inr (q, e) ↦ elim (Bool-cases (holder_ok holder && leb 5 ttl && leb ttl 86400)) [
          | inr no_way ↦ absurd (ground (arith, e, no_way))
          | inl go ↦
              acquire_checked-Granted now later id q holder ttl file file' a
                (rw (e, go, lease_acquire) at h) won
        ]
      ]

  -- Whoever has acquired a resource keeps it until the lease expires or is released: after any
  -- further calls before that time, none of which releases it, nobody else can acquire the
  -- resource, under any spelling that is stripped to its name.
  pub lease_held :
      (now later : ℕ) (id raw : Text) (holder : Option Text) (ttl : ℕ) (file file' : File)
      (a : Acquired) (calls : List Call) (now' later' : ℕ) (id' raw' : Text) (holder' : Option Text)
      (ttl' : ℕ)
      → lease_acquire json_size now later id raw holder ttl file ≡ (ok a, file')
      → a.acquired ≡ true
      → all_calls_spare id (later + ttl) calls ≡ true
      → validate_resource raw' ≡ ok a.resource
      → now' < later + ttl
      → is_acquired
          (lease_acquire json_size now' later' id' raw' holder' ttl' (after_calls calls file')).0
        ≡ false
  lease_held now later id raw holder ttl file file' a calls now' later' id' raw' holder' ttl' h won
        spared same fresh =
      let g = acquire-Granted now later id raw holder ttl file file' a h won in
      Names-refuses now' later' id' raw' holder' ttl' a.resource g.lease (after_calls calls file')
        same (omega (arith, g.ends))
        (after_calls-Names calls a.resource g.lease file' (rw (g.own, g.ends) spared) g.names)
