-- ===== src/Upload.antt =====
-- Uploads of src/remote_host_mcp/transfer.py: one upload with its metadata, its staging file and its
-- target. Calls hold the upload's lock, so a history is a sequence of calls; the clock is an
-- argument. Paths are resolved to the same files in every call.
pub mod State
pub mod Chunks
pub mod Finish
mod Tests
unfoldable pub use remote_host_mcp.Upload.State.*
use mathlib.Core.List.{map}
use remote_host_mcp.Prelude.{
  ℕ, zero, suc, ◌+◌, ◌-◌, Bool, true, false, not, ◌&&◌, ◌||◌, Option, none, some, List, [], ◌∷◌,
  ◌++◌, take, drop, length, leb, ltb, ◌==◌, if◌then◌else◌,
}
use remote_host_mcp.Prelude.Text.{Text, text_eq, lower}
use remote_host_mcp.Disk.{Bytes}

pub record ChunkResult : Type 0 where
  pub duplicate : Bool
  pub bytes_received : ℕ
  pub complete : Bool

-- `upload_chunk` on the staging file, of which `current` is the content
unfoldable pub place_chunk : ℕ → Bytes → Bytes → Upload → Answer ChunkResult × Upload
place_chunk offset data_bytes current u =
    let total = u.metadata.total_size in
    if ltb offset (length current)
    then (if ltb (length current) (offset + length data_bytes)
        then (fails overlap, u)
        else if not (text_eq (take (length data_bytes) (drop offset current)) data_bytes)
        then (fails conflict, u)
        else (
          ok (record {
            duplicate = true;
            bytes_received = length current;
            complete = length current == total;
          }),
          u,
        ))
    else if ltb (length current) offset
    then (fails wrong_offset, u)
    else if ltb total (length current + length data_bytes)
    then (fails too_long, u)
    else (
      ok (record {
        duplicate = false;
        bytes_received = length current + length data_bytes;
        complete = length current + length data_bytes == total;
      }),
      record u { staging = some (current ++ data_bytes) },
    )

-- `upload_chunk` under the lock, once an upload that is out of time has been closed
unfoldable pub chunk_open : ℕ → Bytes → Upload → Answer ChunkResult × Upload
chunk_open offset data_bytes u =
    if is_open u.metadata.status
    then (elim u.staging [
      | none ↦ (fails no_staging, u)
      | some current ↦ place_chunk offset data_bytes current u
    ])
    else (fails not_open, u)

pub record FinishResult : Type 0 where
  pub bytes_written : ℕ
  pub sha256 : Option Text
  pub replaced : Bool
  pub already_committed : Bool

-- What stands under the staging name when `finish_upload` looks again: the file that was hashed,
-- another regular file, something else, or nothing.
pub data Staged : Type 0 where
  kept : Staged
  other : Bytes → Staged
  not_a_file : Staged
  gone : Staged

-- What other processes do during `finish_upload`: what stands under the staging name at the second
-- look, the file that they put there between that look and the rename, and what the target is then.
pub record Race : Type 0 where
  pub at_check : Staged
  pub meddled : Option Bytes
  pub at_rename : Target

-- The second look at the staging name
unfoldable pub staging_problem : Staged → Option Problem
staging_problem kept = none
staging_problem (other b) = some staging_changed
staging_problem not_a_file = some staging_changed
staging_problem gone = some no_staging

-- The content under the staging name
abbrev pub standing : Staged → Bytes → Option Bytes
standing kept content = some content
standing (other b) content = some b
standing not_a_file content = none
standing gone content = none

-- The content that the rename moves
abbrev pub moved : Race → Bytes → Bytes
moved race content = elim race.meddled [
  | some b ↦ b
  | none ↦ elim (standing race.at_check content) [ none ↦ [] | some b ↦ b ]
]

-- `os.replace` onto what stands there
unfoldable pub replace : Target → Answer Bool
replace directory = fails is_a_directory
replace absent = ok true
replace (regular b) = ok true
replace symlink = ok true
replace special = ok true

-- The rename in `finish_upload`, from what the target was at its check and what it is now; the value
-- says whether a file was replaced.
unfoldable pub rename : Bool → Target → Target → Answer Bool
unfolding replace
rename true absent absent = ok false
rename true absent (regular b) = ok true
rename true absent symlink = fails is_symlink
rename true absent directory = fails not_regular
rename true absent special = fails not_regular
rename true (regular b) late = replace late
rename true symlink late = replace late
rename true directory late = replace late
rename true special late = replace late
rename false early absent = ok false
rename false early (regular b) = fails destination_exists
rename false early symlink = fails destination_exists
rename false early directory = fails destination_exists
rename false early special = fails destination_exists

-- The end of `finish_upload`, once the file is in its place
unfoldable pub commit_meta : ℕ → Text → Bool → Meta → Meta
commit_meta now actual replaced m = record m {
  status = committed;
  final_sha256 = some actual;
  committed_at = some now;
  replaced = replaced;
}

-- `finish_upload` behind the check of the digest
unfoldable pub put_in_place : ℕ → Race → Text → Bytes → Upload → Answer FinishResult × Upload
put_in_place now race actual content u = elim (check_target u.metadata.overwrite u.target) [
  | some problem ↦ (fails problem, u)
  | none ↦ elim (staging_problem race.at_check) [
    | some problem ↦ (fails problem, record u { staging = standing race.at_check content })
    | none ↦ elim (rename u.metadata.overwrite u.target race.at_rename) [
      | fails problem ↦ (fails problem, record u { target = race.at_rename })
      | ok replaced ↦ (
        ok (record {
          bytes_written = length content;
          sha256 = some actual;
          replaced = replaced;
          already_committed = false;
        }),
        record {
          metadata = commit_meta now actual replaced u.metadata;
          staging = none;
          target = regular (moved race content);
        },
      )
    ]
  ]
]

-- `abort_upload`
unfoldable pub abort_upload : Upload → Answer ℕ × Upload
abort_upload u = if is_committed u.metadata.status then (fails already_done, u) else (
  ok 0,
  record { metadata = record u.metadata { status = aborted }; staging = none; target = u.target },
)

-- The bytes that `upload_status` reports.
unfoldable pub received : Upload → ℕ
received u = elim u.metadata.status [
  | committed ↦ u.metadata.total_size
  | aborted ↦ 0
  | expired ↦ 0
  | open_ ↦ elim u.staging [ none ↦ 0 | some b ↦ length b ]
  | hash_mismatch ↦ elim u.staging [ none ↦ 0 | some b ↦ length b ]
]

-- `upload_status`
unfoldable pub upload_status : ℕ → Upload → ℕ × Upload
upload_status now u = let u' = expire_if_needed now u in (received u', u')

-- `hashlib.sha256(data).hexdigest()`
module _ (sha256 : Bytes → Text) where
  abbrev pub chunk_ok : Option Text → Bytes → Option Problem
  chunk_ok none data_bytes = none
  chunk_ok (some claimed) data_bytes = elim (validate_sha256 claimed) [
    | none ↦ some bad_sha256
    | some expected ↦ if text_eq (sha256 data_bytes) expected then none else some chunk_mismatch
  ]

  -- `upload_chunk`, on the decoded bytes
  unfoldable pub upload_chunk :
      Limits → ℕ → ℕ → Bytes → Option Text → Upload → Answer ChunkResult × Upload
  upload_chunk l now offset data_bytes claimed u =
      if ltb l.max_file_chunk_bytes (length data_bytes)
      then (fails chunk_too_large, u)
      else elim (chunk_ok claimed data_bytes) [
        | some problem ↦ (fails problem, u)
        | none ↦ chunk_open offset data_bytes (expire_if_needed now u)
      ]

  -- `finish_upload` of an open upload, on the content of the staging file
  unfoldable pub check_content : ℕ → Race → Bytes → Upload → Answer FinishResult × Upload
  check_content now race content u =
      if not (length content == u.metadata.total_size)
      then (fails incomplete, u)
      else if not (text_eq (sha256 content) u.metadata.expected_sha256)
      then (
        fails final_mismatch,
        record u {
          metadata = record u.metadata {
            status = hash_mismatch;
            final_sha256 = some (sha256 content);
          };
        },
      )
      else put_in_place now race (sha256 content) content u

  -- `finish_upload` under the lock
  unfoldable pub finish_open : ℕ → Race → Upload → Answer FinishResult × Upload
  finish_open now race u =
      if is_committed u.metadata.status
      then (
        ok (record {
          bytes_written = u.metadata.total_size;
          sha256 = u.metadata.final_sha256;
          replaced = u.metadata.replaced;
          already_committed = true;
        }),
        u,
      )
      else if is_open u.metadata.status
      then (elim u.staging [
        | none ↦ (fails no_staging, u)
        | some content ↦ check_content now race content u
      ])
      else (fails not_open, u)

  -- `finish_upload`
  unfoldable pub finish_upload : ℕ → Race → Upload → Answer FinishResult × Upload
  finish_upload now race u = finish_open now race (expire_if_needed now u)
