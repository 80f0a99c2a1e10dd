-- ===== src/Upload/State.antt =====
-- The state of an upload of src/remote_host_mcp/transfer.py: its metadata, its beginning and its end of
-- time.
use remote_host_mcp.Prelude.{
  ℕ, ◌+◌, Bool, true, false, ◌&&◌, Option, none, some, [], length, ltb, ◌==◌, if◌then◌else◌,
}
use remote_host_mcp.Prelude.Text.{all_hex, Text, lower}
use remote_host_mcp.Disk.{Bytes}

pub data UploadState : Type 0 where
  open_ : UploadState
  expired : UploadState
  aborted : UploadState
  hash_mismatch : UploadState
  committed : UploadState

-- What stands at the target path.
pub data Target : Type 0 where
  absent : Target
  regular : Bytes → Target
  symlink : Target
  directory : Target
  special : Target

pub record Meta : Type 0 where
  pub total_size : ℕ
  pub expected_sha256 : Text
  pub mode : ℕ
  pub overwrite : Bool
  pub status : UploadState
  pub expires_at : ℕ
  pub committed_at : Option ℕ
  pub final_sha256 : Option Text
  pub replaced : Bool

pub record Upload : Type 0 where
  pub metadata : Meta
  pub staging : Option Bytes
  pub target : Target

pub record Limits : Type 0 where
  pub max_transfer_bytes : ℕ
  pub max_file_chunk_bytes : ℕ
  pub upload_ttl_seconds : ℕ

-- Why a call raises.
pub data Problem : Type 0 where
  bad_size : Problem
  bad_sha256 : Problem
  bad_mode : Problem
  is_symlink : Problem
  not_regular : Problem
  is_a_directory : Problem
  destination_exists : Problem
  chunk_too_large : Problem
  chunk_mismatch : Problem
  not_open : Problem
  overlap : Problem
  conflict : Problem
  wrong_offset : Problem
  too_long : Problem
  no_staging : Problem
  incomplete : Problem
  final_mismatch : Problem
  staging_changed : Problem
  already_done : Problem

pub data Answer (A : Type 0) : Type 0 where
  ok : A → Answer A
  fails : Problem → Answer A

-- `_validate_sha256`; `[a-fA-F0-9]{64}`
unfoldable pub validate_sha256 : Text → Option Text
validate_sha256 t = if length t == 64 && all_hex (lower t) then some (lower t) else none

-- The checks on the target in `begin_upload`, and the second ones in `finish_upload`.
unfoldable pub check_target : Bool → Target → Option Problem
check_target overwrite absent = none
check_target overwrite symlink = some is_symlink
check_target overwrite directory = some not_regular
check_target overwrite special = some not_regular
check_target overwrite (regular b) = if overwrite then none else some destination_exists

abbrev pub is_present : Target → Bool
is_present absent = false
is_present (regular _) = true
is_present symlink = true
is_present directory = true
is_present special = true

-- `begin_upload`: the new upload
unfoldable pub begin_upload : Limits → ℕ → Target → ℕ → Text → ℕ → Bool → Answer Upload
begin_upload l now target total sha mode overwrite =
    if ltb l.max_transfer_bytes total then fails bad_size else elim (validate_sha256 sha) [
      | none ↦ fails bad_sha256
      | some expected ↦
          if ltb 511 mode then fails bad_mode else elim (check_target overwrite target) [
            | some problem ↦ fails problem
            | none ↦ ok (record {
              metadata = record {
                total_size = total;
                expected_sha256 = expected;
                mode = mode;
                overwrite = overwrite;
                status = open_;
                expires_at = now + l.upload_ttl_seconds;
                committed_at = none;
                final_sha256 = none;
                replaced = is_present target;
              };
              staging = some [];
              target = target;
            })
          ]
    ]

abbrev pub is_open : UploadState → Bool
is_open open_ = true
is_open expired = false
is_open aborted = false
is_open hash_mismatch = false
is_open committed = false

abbrev pub is_committed : UploadState → Bool
is_committed committed = true
is_committed open_ = false
is_committed expired = false
is_committed aborted = false
is_committed hash_mismatch = false

-- `_expire_if_needed`
unfoldable pub expire_if_needed : ℕ → Upload → Upload
expire_if_needed now u =
    if is_open u.metadata.status && ltb u.metadata.expires_at now
    then record {
      metadata = record u.metadata { status = expired };
      staging = none;
      target = u.target;
    }
    else u
