-- ===== src/Audit/Records.antt =====
-- What one call of `AuditWriter.record` does to the log.
use mathlib.Core.Path.{ap₂}
use remote_host_mcp.Prelude.{
  ℕ, zero, suc, ◌+◌, ◌<◌, ◌-◌, ◌≡◌, refl, Bool, true, false, Option, none, some, [], ◌++◌, arith,
  ltb, ◌==◌, if◌then◌else◌, length, take_all, Bool-cases, Option-cases, inl, inr, ◌∙◌,
}
use remote_host_mcp.Disk.{Bytes, Disk, update, content, append, open_main}
use remote_host_mcp.Audit.{Faults, Writer, get_handle, should_rotate, record_open, record_event}
use remote_host_mcp.Audit.Rotation.{NoFaults, rotated, rotate_locked-eq}

-- The descriptor is that of the main file, and no two names share an inode.
pub record IsConsistent (w : Writer) (d : Disk) : Type 0 where
  pub on_main : (h : ℕ) → w.handle ≡ some h → d.names 0 ≡ some h
  pub distinct : (i j h : ℕ) → d.names i ≡ some h → d.names j ≡ some h → i ≡ j
  pub allocated : (i h : ℕ) → d.names i ≡ some h → h < d.fresh

-- The retained log, oldest generation first.
unfoldable pub log : ℕ → Disk → Bytes
log zero d = content d 0
log (suc k) d = content d (suc k) ++ log k d

-- Every call of this `record` goes through, and the whole payload is written.
pub record AllWell (f : Faults) (payload : Bytes) : Type 0 where
  pub calls : NoFaults f
  pub stats : f.stat_fails ≡ false
  pub whole : f.written ≡ some (length payload)

-- `_should_rotate` as a test on sizes alone.
abbrev pub is_due : Option ℕ → ℕ → ℕ → Bool
is_due none size incoming = false
is_due (some limit) size incoming = if ltb 0 size then ltb limit (size + incoming) else false

-- The state in which a rotation leaves writer and disk.
abbrev pub after_rotation : Writer → Disk → Disk
after_rotation w d = record {
  names = update (rotated w.keep_files d.names) 0 (some d.fresh);
  contents = update d.contents d.fresh [];
  fresh = suc d.fresh;
}

-- The writer and the disk once the descriptor is there.
abbrev pub opened : Writer → Disk → ℕ × Writer × Disk
opened w d = elim w.handle [
  | some h ↦ (h, w, d)
  | none ↦ let (h, d') = open_main d in (h, record w { handle = some h }, d')
]

-- What a generation holds after a `record`.
abbrev pub recorded : Option ℕ → ℕ → Bytes → Disk → ℕ → Bytes
recorded limit keep payload d i =
    if is_due limit (length (content d 0)) (length payload)
    then (if i == 0 then payload else if ltb keep i then content d i else content d (i - 1))
    else (if i == 0 then content d 0 ++ payload else content d i)

module _ (f : Faults) (payload : Bytes) (well : AllWell f payload) where
  should_rotate-eq :
      (w : Writer) (d : Disk) (h : ℕ)
      → should_rotate f w d h (length payload)
        ≡ is_due w.max_bytes (length (d.contents h)) (length payload)
  unfolding should_rotate
  should_rotate-eq w d h = ground (arith, well.stats)

  record_open-eq :
      (h : ℕ) (w : Writer) (d : Disk)
      → record_open f payload (h, w, d) ≡ (
          if is_due w.max_bytes (length (d.contents h)) (length payload)
          then (
            true,
            record w { handle = some d.fresh },
            append d.fresh payload (after_rotation w d),
          )
          else (true, w, append h payload d))
  unfolding record_open
  record_open-eq h w d = rw (
    should_rotate-eq w d h,
    rotate_locked-eq f well.calls w d,
    well.whole,
    take_all (length payload) payload (omega arith),
  )

  record_event-eq :
      (w : Writer) (d : Disk)
      → w.enabled ≡ true
      → record_event f (some payload) w d ≡ record_open f payload (opened w d)
  unfolding record_event get_handle
  record_event-eq w d on = rw on (ground (arith, well.calls.opens))

append-content :
    (w : Writer) (h : ℕ) (payload : Bytes) (d : Disk) (i : ℕ)
    → d.names 0 ≡ some h
    → IsConsistent w d
    → content (append h payload d) i ≡ (if i == 0 then content d 0 ++ payload else content d i)
append-content w h payload d i at c = elim (Option-cases (d.names i)) [
  | inl e ↦ ground arith
  | inr (k, e) ↦ ground (arith, c.distinct 0 i h)
]

rotation-content :
    (w : Writer) (payload : Bytes) (d : Disk) (i : ℕ)
    → IsConsistent w d
    → content (append d.fresh payload (after_rotation w d)) i
      ≡ (if i == 0 then payload else if ltb w.keep_files i then content d i else content d (i - 1))
rotation-content w payload d i c = elim (Option-cases (d.names i)) [
  | inl e ↦ elim (Option-cases (d.names (i - 1))) [
    | inl e' ↦ ground arith
    | inr (k', e') ↦ ground (arith, c.allocated (i - 1) k')
  ]
  | inr (k, e) ↦ elim (Option-cases (d.names (i - 1))) [
    | inl e' ↦ ground (arith, c.allocated i k)
    | inr (k', e') ↦ ground (arith, c.allocated i k, c.allocated (i - 1) k')
  ]
]

-- Opening the main file changes no content and keeps the descriptor on it.
module _ (w : Writer) (d : Disk) (c : IsConsistent w d) where
  opened-on_main : (opened w d).2.names 0 ≡ some (opened w d).0
  opened-on_main = elim (Option-cases w.handle) [
    | inr (h, e) ↦ ground (arith, c.on_main h)
    | inl e ↦ ground arith
  ]

  opened-settings :
      ((opened w d).1.max_bytes ≡ w.max_bytes) × ((opened w d).1.keep_files ≡ w.keep_files)
  opened-settings = ground arith

  opened-content : (i : ℕ) → content (opened w d).2 i ≡ content d i
  opened-content i = elim (Option-cases (d.names i)) [
    | inl e ↦ ground arith
    | inr (k, e) ↦ ground (arith, c.allocated i k)
  ]

  opened-IsConsistent : IsConsistent (opened w d).1 (opened w d).2
  opened-IsConsistent = record {
    on_main = λ h e. ground (arith, c.on_main h);
    distinct = λ i j h p q. ground (arith, c.distinct i j h, c.allocated i h, c.allocated j h);
    allocated = λ i h p. ground (arith, c.allocated i h);
  }

append-IsConsistent :
    (w : Writer) (h : ℕ) (payload : Bytes) (d : Disk)
    → IsConsistent w d
    → IsConsistent w (append h payload d)
append-IsConsistent w h payload d c = record {
  on_main = c.on_main;
  distinct = c.distinct;
  allocated = c.allocated;
}

rotation-IsConsistent :
    (w : Writer) (d : Disk)
    → IsConsistent w d
    → IsConsistent (record w { handle = some d.fresh }) (after_rotation w d)
rotation-IsConsistent w d c = record {
  on_main = λ h e. ground arith;
  distinct = λ i j h p q. ground (
    arith,
    c.allocated i h,
    c.allocated j h,
    c.allocated (i - 1) h,
    c.allocated (j - 1) h,
    c.distinct i j h,
    c.distinct i (j - 1) h,
    c.distinct (i - 1) j h,
    c.distinct (i - 1) (j - 1) h,
  );
  allocated = λ i h p. ground (arith, c.allocated i h, c.allocated (i - 1) h);
}

module _ (f : Faults) (payload : Bytes) (well : AllWell f payload) where
  after_record-content :
      (h : ℕ) (w : Writer) (d : Disk) (i : ℕ)
      → d.names 0 ≡ some h
      → IsConsistent w d
      → content (record_open f payload (h, w, d)).2 i
        ≡ recorded w.max_bytes w.keep_files payload d i
  after_record-content h w d i at c =
      rw (record_open-eq f payload well h w d)
        (ground (arith, rotation-content w payload d i c, append-content w h payload d i at c))

  after_record-IsConsistent :
      (h : ℕ) (w : Writer) (d : Disk)
      → IsConsistent w d
      → let (_, w', d') = record_open f payload (h, w, d) in
        IsConsistent w' d'
        × (w'.max_bytes ≡ w.max_bytes)
        × (w'.keep_files ≡ w.keep_files)
        × (w'.enabled ≡ w.enabled)
  after_record-IsConsistent h w d c =
      rw (record_open-eq f payload well h w d)
        (elim (Bool-cases (is_due w.max_bytes (length (d.contents h)) (length payload))) [
          | inl due ↦ rw due (
            append-IsConsistent _ d.fresh payload _ (rotation-IsConsistent w d c),
            refl,
            refl,
            refl,
          )
          | inr room ↦ rw room (append-IsConsistent w h payload d c, refl, refl, refl)
        ])

recorded-cong :
    (limit : Option ℕ) (keep : ℕ) (payload : Bytes) (d d' : Disk) (i : ℕ)
    → ((j : ℕ) → content d' j ≡ content d j)
    → recorded limit keep payload d' i ≡ recorded limit keep payload d i
recorded-cong limit keep payload d d' i same = ground (arith, same 0, same i, same (i - 1))

module _ (f : Faults) (payload : Bytes) (well : AllWell f payload) (w : Writer) (d : Disk)
    (on : w.enabled ≡ true) (c : IsConsistent w d) where
  -- After a `record` whose calls go through, every generation holds what the rotation rule says: if the
  -- line would take a main file that is not empty past the budget, what stood one below (the line alone
  -- in the main file), otherwise what it held, with the line at the end of the main file.
  pub record_event-content :
      (i : ℕ)
      → content (record_event f (some payload) w d).2 i
        ≡ recorded w.max_bytes w.keep_files payload d i
  record_event-content i =
      let (h, w', d') = opened w d in
      let (limit, keep) = opened-settings w d c in
      rw (record_event-eq f payload well w d on) (
        after_record-content f payload well h w' d' i (opened-on_main w d c)
          (opened-IsConsistent w d c)
        ∙ ap₂ (λ l k. recorded l k payload d' i) limit keep
        ∙ recorded-cong w.max_bytes w.keep_files payload d d' i (opened-content w d c))

  pub record_event-true : (record_event f (some payload) w d).0 ≡ true
  record_event-true =
      let (h, w', d') = opened w d in
      rw (record_event-eq f payload well w d on, record_open-eq f payload well h w' d')
        (ground arith)

  -- A `record` whose calls go through keeps the descriptor on the main file and the generations on
  -- different inodes, and leaves the settings of the writer alone.
  pub record_event-IsConsistent :
      let (_, w', d') = record_event f (some payload) w d in
      IsConsistent w' d'
      × (w'.max_bytes ≡ w.max_bytes)
      × (w'.keep_files ≡ w.keep_files)
      × (w'.enabled ≡ true)
  record_event-IsConsistent =
      let (h, w', d') = opened w d in
      let (limit, keep) = opened-settings w d c in
      let (c', l, k, e) =
        after_record-IsConsistent f payload well h w' d' (opened-IsConsistent w d c) in
      rw (record_event-eq f payload well w d on) (c', l ∙ limit, k ∙ keep, e ∙ ground (arith, on))
