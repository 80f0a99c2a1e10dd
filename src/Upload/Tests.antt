-- ===== src/Upload/Tests.antt =====
-- One small upload.
use remote_host_mcp.Prelude.{
  ◌≡◌, ◌≢◌, refl, true, false, none, some, List, [], ◌∷◌, ◌++◌, arith, ◌==◌,
}
use remote_host_mcp.Prelude.Text.{Text}
use remote_host_mcp.Disk.{Bytes}
use remote_host_mcp.Upload.{
  Upload, Meta, absent, regular, ok, open_, committed, FinishResult, Race, kept, Limits,
  check_target, rename, finish_upload, upload_chunk,
}
use remote_host_mcp.Upload.Chunks.{InTime, send_all, upload_chunk-retry}
use remote_host_mcp.Upload.Finish.{send_all-finish}

-- A digest that is the content.
abbrev plain_hash : Bytes → Text
plain_hash b = b

abbrev limits : Limits
limits = record { max_transfer_bytes = 100; max_file_chunk_bytes = 2; upload_ttl_seconds = 60 }

abbrev file : Bytes
file = 7 ∷ 8 ∷ 9 ∷ []

abbrev pieces : List Bytes
pieces = (7 ∷ 8 ∷ []) ∷ (9 ∷ []) ∷ []

abbrev metadata : Meta
metadata = record {
  total_size = 3;
  expected_sha256 = file;
  mode = 420;
  overwrite = false;
  status = open_;
  expires_at = 60;
  committed_at = none;
  final_sha256 = none;
  replaced = false;
}

abbrev new_upload : Upload
new_upload = record { metadata = metadata; staging = some []; target = absent }

new_upload-InTime : InTime 5 new_upload []
new_upload-InTime = record { is_open = refl; in_time = omega arith; staged = refl }

abbrev no_race : Race
no_race = record { at_check = kept; meddled = none; at_rename = absent }

file-free : check_target false absent ≡ none
unfolding check_target
file-free = refl

file-renamed : rename false absent absent ≡ ok false
unfolding rename
file-renamed = refl

send_all-finish_example :
    let (answer, v) =
      finish_upload plain_hash 5 no_race (send_all plain_hash limits 5 0 pieces new_upload) in
    (v.target ≡ regular file)
    × (v.metadata.status ≡ committed)
    × (answer
        ≡ ok (record {
          bytes_written = 3;
          sha256 = some file;
          replaced = false;
          already_committed = false;
        }))
send_all-finish_example =
    send_all-finish plain_hash limits 5 no_race pieces new_upload new_upload-InTime
      (omega arith, (omega arith, tt)) refl refl refl refl file-free false file-renamed

abbrev full_upload : Upload
full_upload = record new_upload { staging = some file }

full_upload-InTime : InTime 5 full_upload ([] ++ ((7 ∷ 8 ∷ []) ++ 9 ∷ []))
full_upload-InTime = record { is_open = refl; in_time = omega arith; staged = refl }

cons_not_nil : {A : Type 0} (x : A) (l : List A) → x ∷ l ≢ []
cons_not_nil x l = ground arith

upload_chunk-retry_example :
    upload_chunk plain_hash limits 5 0 (7 ∷ 8 ∷ []) none full_upload
    ≡ (ok (record { duplicate = true; bytes_received = 3; complete = 3 == 3 }), full_upload)
upload_chunk-retry_example =
    upload_chunk-retry plain_hash limits 5 full_upload [] (7 ∷ 8 ∷ []) (9 ∷ []) full_upload-InTime
      (cons_not_nil _ _) (omega arith)

abbrev done_upload : Upload
done_upload = record {
  metadata = record metadata {
    status = committed;
    final_sha256 = some file;
    committed_at = some 5;
    replaced = false;
  };
  staging = none;
  target = regular file;
}

abbrev finished : FinishResult
finished = record {
  bytes_written = 3;
  sha256 = some file;
  replaced = false;
  already_committed = false;
}
