-- ===== src/Audit.antt =====
-- `class AuditWriter` of src/remote_host_mcp/audit.py: the append-only log with rotation by size.
pub mod Rotation
pub mod Records
pub mod Retention
mod Tests
use remote_host_mcp.Prelude.{
  ℕ, zero, suc, ◌+◌, ◌-◌, Bool, true, false, ◌&&◌, Option, none, some, take, ltb, ◌==◌,
  if◌then◌else◌, length,
}
use remote_host_mcp.Disk.{Bytes, Disk, exists, unlink, replace, append, open_main}

pub record Writer : Type 0 where
  pub enabled : Bool
  pub max_bytes : Option ℕ
  pub keep_files : ℕ
  pub handle : Option ℕ
  pub open_failed : Bool

-- `__init__`: a budget that is absent or zero turns rotation off.
unfoldable pub new_writer : Bool → Option ℕ → ℕ → Writer
new_writer enabled budget keep = record {
  enabled = enabled;
  max_bytes = elim budget [ none ↦ none | some m ↦ if ltb 0 m then some m else none ];
  keep_files = keep;
  handle = none;
  open_failed = false;
}

-- What the system calls of one `record` answer. `written` is the result of `os.write`, at most
-- the length that it was given; `none` is an OSError.
pub record Faults : Type 0 where
  pub open_fails : Bool
  pub stat_fails : Bool
  pub unlink_fails : Bool
  pub rename_fails : ℕ → Bool
  pub written : Option ℕ

-- `_handle`
unfoldable pub get_handle : Faults → Writer → Disk → Option (ℕ × Writer × Disk)
get_handle f w d = elim w.handle [
  | some h ↦ some (h, w, d)
  | none ↦
      if f.open_fails
      then none
      else (let (h, d') = open_main d in some (h, record w { handle = some h }, d'))
]

-- `_should_rotate`
unfoldable pub should_rotate : Faults → Writer → Disk → ℕ → ℕ → Bool
should_rotate f w d h incoming = elim w.max_bytes [
  | none ↦ false
  | some limit ↦
      let size = length (d.contents h) in
      if f.stat_fails then false else ltb 0 size && ltb limit (size + incoming)
]

-- The loop of `_rotate_files`: the generations n, …, 1 move up by one. The flag says that every
-- call went through.
unfoldable pub shift_up : Faults → ℕ → Disk → Disk × Bool
shift_up f zero d = (d, true)
shift_up f (suc n) d =
    let moved = shift_up f n (replace (suc n) (suc (suc n)) d) in
    let skipped = shift_up f n d in
    if exists d (suc n) then (if f.rename_fails (suc n) then (d, false) else moved) else skipped

-- The last step of `_rotate_files`: the main file becomes generation 1.
unfoldable pub retire_main : Faults → Disk × Bool → Disk × Bool
retire_main f (d, false) = (d, false)
retire_main f (d, true) =
    if exists d 0
    then (if f.rename_fails 0 then (d, false) else (replace 0 1 d, true))
    else (d, true)

-- `_rotate_files`
unfoldable pub rotate_files : Faults → ℕ → Disk → Disk × Bool
unfolding shift_up retire_main
rotate_files f zero d =
    if exists d 0 then (if f.unlink_fails then (d, false) else (unlink 0 d, true)) else (d, true)
rotate_files f (suc n) d =
    if exists d (suc n) && f.unlink_fails
    then (d, false)
    else retire_main f (shift_up f n (unlink (suc n) d))

-- `_rotate_locked`: a failed rotation is logged, and the file is opened again.
unfoldable pub rotate_locked : Faults → Writer → Disk → Option (ℕ × Writer × Disk)
unfolding rotate_files get_handle
rotate_locked f w d = get_handle f (record w { handle = none }) (rotate_files f w.keep_files d).0

-- The `os.write` at the end of `record`.
unfoldable pub write_payload : Faults → Bytes → ℕ × Writer × Disk → Bool × Writer × Disk
write_payload f payload (h, w, d) = elim f.written [
  | none ↦ (false, record w { open_failed = true }, d)
  | some n ↦ (true, w, append h (take n payload) d)
]

-- The body of `record` under the lock, once a handle is there.
unfoldable pub record_open : Faults → Bytes → ℕ × Writer × Disk → Bool × Writer × Disk
unfolding should_rotate rotate_locked write_payload
record_open f payload (h, w, d) =
    if should_rotate f w d h (length payload)
    then (elim (rotate_locked f w d) [
      | none ↦
          (false, record w { handle = none; open_failed = true }, (rotate_files f w.keep_files d).0)
      | some opened ↦ write_payload f payload opened
    ])
    else write_payload f payload (h, w, d)

-- `record`: the line that the JSON encoder made of the event, or `none` where it raised.
unfoldable pub record_event : Faults → Option Bytes → Writer → Disk → Bool × Writer × Disk
unfolding get_handle record_open
record_event f line w d = elim line [
  | none ↦ (false, w, d)
  | some payload ↦
      if w.enabled
      then (elim (get_handle f w d) [
        | none ↦ (false, record w { open_failed = true }, d)
        | some opened ↦ record_open f payload opened
      ])
      else (false, w, d)
]

-- `close`
unfoldable pub close_writer : Writer → Writer
close_writer w = record w { handle = none }
