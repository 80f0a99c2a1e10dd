-- ===== src/Upload/Finish.antt =====
-- What `finish_upload` puts at the target, and that a committed upload stays as it is.
use remote_host_mcp.Prelude.{
  ℕ, ◌≡◌, refl, ◌∙◌, Bool, true, false, Option, none, some, List, [], length, arith, ltb, ◌==◌,
  Option-cases, Bool-cases, inl, inr,
}
use remote_host_mcp.Prelude.Text.{Text, text_eq}
use remote_host_mcp.Disk.{Bytes}
use remote_host_mcp.Upload.{
  Upload, absent, regular, kept, staging_problem, ok, fails, Problem, chunk_too_large, chunk_ok,
  not_open, already_done, committed, FinishResult, Race, expire_if_needed, check_target, rename,
  commit_meta, put_in_place, check_content, finish_open, finish_upload, abort_upload, chunk_open,
  upload_chunk, Limits,
}
use remote_host_mcp.Upload.Chunks.{
  InTime, expire_if_needed-InTime, joined, AllSmall, send_all, send_all-eq, grown,
}

-- A commit: the target is a regular file with exactly the announced content.
pub record Committed (sha256 : Bytes → Text) (race : Race) (u v : Upload) (r : FinishResult)
    : Type 0 where
  pub content : Bytes
  pub staged : u.staging ≡ some content
  pub placed : v.target ≡ regular content
  pub size : length content ≡ u.metadata.total_size
  pub digest : text_eq (sha256 content) u.metadata.expected_sha256 ≡ true
  pub state : v.metadata.status ≡ committed
  pub spared : u.metadata.overwrite ≡ false → race.at_rename ≡ absent

ok_injective : {A : Type 0} {a b : A} → ok a ≡ ok b → a ≡ b
ok_injective h = cc h

module _ (sha256 : Bytes → Text) where
  expire_if_needed-committed :
      (now : ℕ) (u : Upload) → u.metadata.status ≡ committed → expire_if_needed now u ≡ u
  unfolding expire_if_needed
  expire_if_needed-committed now u done = ground arith

  chunk-committed :
      (l : Limits) (now offset : ℕ) (b : Bytes) (claimed : Option Text) (u : Upload)
      → u.metadata.status ≡ committed
      → (problem : Problem) × (upload_chunk sha256 l now offset b claimed u ≡ (fails problem, u))
  unfolding upload_chunk chunk_open
  chunk-committed l now offset b claimed u done =
      let same = expire_if_needed-committed now u done in
      elim (Bool-cases (ltb l.max_file_chunk_bytes (length b))) [
        | inl large ↦ (chunk_too_large, ground arith)
        | inr small ↦ elim (Option-cases (chunk_ok sha256 claimed b)) [
          | inr (problem, e) ↦ (problem, rw (small, e, upload_chunk) refl)
          | inl e ↦ (not_open, rw (small, e, upload_chunk) (ground (arith, same)))
        ]
      ]

  -- A committed upload is final: finishing it again answers with the stored digest and touches
  -- nothing, and neither an abort nor another chunk is taken.
  pub committed-final :
      (l : Limits) (now offset : ℕ) (race : Race) (b : Bytes) (claimed : Option Text) (u : Upload)
      → u.metadata.status ≡ committed
      → (finish_upload sha256 now race u ≡ (
        ok (record {
          bytes_written = u.metadata.total_size;
          sha256 = u.metadata.final_sha256;
          replaced = u.metadata.replaced;
          already_committed = true;
        }),
        u,
      ))
        × (abort_upload u ≡ (fails already_done, u))
        × ((problem : Problem) × (upload_chunk sha256 l now offset b claimed u
              ≡ (fails problem, u)))
  unfolding finish_upload finish_open abort_upload
  committed-final l now offset race b claimed u done =
      let same = expire_if_needed-committed now u done in
      (ground (arith, same), ground arith, chunk-committed l now offset b claimed u done)

  finish_upload-open :
      (now : ℕ) (race : Race) (u : Upload) (content : Bytes)
      → InTime now u content
      → finish_upload sha256 now race u ≡ check_content sha256 now race content u
  unfolding finish_upload finish_open
  finish_upload-open now race u content t =
      let same = expire_if_needed-InTime now u content t in
      ground (arith, same, t.is_open, t.staged)

  check_content-commits :
      (now : ℕ) (race : Race) (content : Bytes) (u : Upload) (replaced : Bool)
      → length content ≡ u.metadata.total_size
      → text_eq (sha256 content) u.metadata.expected_sha256 ≡ true
      → race.at_check ≡ kept
      → race.meddled ≡ none
      → check_target u.metadata.overwrite u.target ≡ none
      → rename u.metadata.overwrite u.target race.at_rename ≡ ok replaced
      → check_content sha256 now race content u ≡ (
        ok (record {
          bytes_written = length content;
          sha256 = some (sha256 content);
          replaced = replaced;
          already_committed = false;
        }),
        record {
          metadata = commit_meta now (sha256 content) replaced u.metadata;
          staging = none;
          target = regular content;
        },
      )
  unfolding check_content put_in_place staging_problem
  check_content-commits now race content u replaced size digest same alone free placed =
      let e : length content == u.metadata.total_size ≡ true = ground arith in
      ground (arith, e, digest, same, alone, free, placed)

  -- A file that is sent in chunks, each within the limit, to an open upload that was announced with
  -- the file's size and digest, is at the target after a finish: whatever stood there before with
  -- leave to overwrite, or where nothing stands without it.
  pub send_all-finish :
      (l : Limits) (now : ℕ) (race : Race) (chunks : List Bytes) (u : Upload)
      → InTime now u []
      → AllSmall sha256 l chunks
      → length (joined chunks) ≡ u.metadata.total_size
      → text_eq (sha256 (joined chunks)) u.metadata.expected_sha256 ≡ true
      → race.at_check ≡ kept
      → race.meddled ≡ none
      → check_target u.metadata.overwrite u.target ≡ none
      → (replaced : Bool)
        (placed : rename u.metadata.overwrite u.target race.at_rename ≡ ok replaced)
      → let (answer, v) = finish_upload sha256 now race (send_all sha256 l now 0 chunks u) in
        (v.target ≡ regular (joined chunks))
        × (v.metadata.status ≡ committed)
        × (answer
            ≡ ok (record {
              bytes_written = length (joined chunks);
              sha256 = some (sha256 (joined chunks));
              replaced = replaced;
              already_committed = false;
            }))
  send_all-finish l now race chunks u t small size digest same alone free replaced placed =
      let sent : send_all sha256 l now 0 chunks u ≡ grown u (joined chunks) =
        send_all-eq sha256 l now chunks u [] t small (omega (arith, size)) in
      let ready : InTime now (grown u (joined chunks)) (joined chunks) = record {
        is_open = t.is_open;
        in_time = t.in_time;
        staged = refl;
      } in
      let finished =
        finish_upload-open now race (grown u (joined chunks)) (joined chunks) ready
        ∙ check_content-commits now race (joined chunks) (grown u (joined chunks)) replaced size
            digest same alone free placed in
      rw (sent, finished) (unfold commit_meta in (refl, refl, refl))
