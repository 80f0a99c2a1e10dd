-- ===== src/Upload/Chunks.antt =====
-- Sending chunks: the staging file grows only at its end and only up to the declared size.
use remote_host_mcp.Prelude.{
  ℕ, ◌+◌, ◌≤◌, ◌<◌, ◌≡◌, ◌≢◌, refl, ap, sym, ◌∙◌, true, false, none, some, List, [], ◌∷◌, ◌++◌,
  take, drop, length, length-append, drop-length, append_assoc, append-nil, arith, ltb, ◌==◌,
}
use remote_host_mcp.Prelude.Text.{Text, text_eq}
use remote_host_mcp.Disk.{Bytes}
use remote_host_mcp.Upload.{
  Upload, Answer, ok, ChunkResult, is_open, expire_if_needed, place_chunk, chunk_open, upload_chunk,
  Limits,
}

-- An open upload in time, its staging file in hand.
pub record InTime (now : ℕ) (u : Upload) (current : Bytes) : Type 0 where
  pub is_open : is_open u.metadata.status ≡ true
  pub in_time : now ≤ u.metadata.expires_at
  pub staged : u.staging ≡ some current

-- An accepted chunk: the upload is the old one but for the staging file.
abbrev pub grown : Upload → Bytes → Upload
grown u b = record u { staging = some b }

length-positive : (b : Bytes) → b ≢ [] → 0 < length b
length-positive [] h = absurd (h refl)
length-positive (c ∷ b) h = omega arith

text_eq_refl : (t : Text) → text_eq t t ≡ true
text_eq_refl [] = refl
text_eq_refl (c ∷ t) = ground (arith, text_eq_refl t)

take-length : (b later : Bytes) → take (length b) (b ++ later) ≡ b
take-length [] later = refl
take-length (c ∷ b) later = ap (λ r. c ∷ r) (take-length b later)

abbrev pub joined : List Bytes → Bytes
joined [] = []
joined (b ∷ rest) = b ++ joined rest

pub expire_if_needed-InTime :
    (now : ℕ) (u : Upload) (current : Bytes) → InTime now u current → expire_if_needed now u ≡ u
unfolding expire_if_needed
expire_if_needed-InTime now u current t =
    let early : ltb u.metadata.expires_at now ≡ false = ground (arith, t.in_time) in
    ground (arith, early)

module _ (sha256 : Bytes → Text) (l : Limits) where
  upload_chunk-open :
      (now offset : ℕ) (u : Upload) (current b : Bytes)
      → InTime now u current
      → length b ≤ l.max_file_chunk_bytes
      → upload_chunk sha256 l now offset b none u ≡ place_chunk offset b current u
  unfolding upload_chunk chunk_open
  upload_chunk-open now offset u current b t small =
      let small' : ltb l.max_file_chunk_bytes (length b) ≡ false = ground arith in
      let same = expire_if_needed-InTime now u current t in
      ground (arith, small', same, t.is_open, t.staged)

  -- A chunk without a claimed digest that starts at the end of the staging file and fits is appended.
  upload_chunk-append :
      (now : ℕ) (u : Upload) (current b : Bytes)
      → InTime now u current
      → length b ≤ l.max_file_chunk_bytes
      → length current + length b ≤ u.metadata.total_size
      → upload_chunk sha256 l now (length current) b none u ≡ (
        ok (record {
          duplicate = false;
          bytes_received = length current + length b;
          complete = length current + length b == u.metadata.total_size;
        }),
        grown u (current ++ b),
      )
  unfolding place_chunk
  upload_chunk-append now u current b t small fits =
      upload_chunk-open now (length current) u current b t small
      ∙ (let e : ltb (length current) (length current) ≡ false = ground arith in
          let f : ltb u.metadata.total_size (length current + length b) ≡ false = ground arith in
          ground (arith, e, f))

  -- Sending a chunk that has arrived once more without a digest of its own, after any number of later
  -- chunks, changes nothing and is answered as a duplicate, for an upload that is open and in time and
  -- a chunk that is not empty and within the limit: a client may repeat a call whose answer it did not
  -- get.
  pub upload_chunk-retry :
      (now : ℕ) (u : Upload) (front b later : Bytes)
      → InTime now u (front ++ (b ++ later))
      → b ≢ []
      → length b ≤ l.max_file_chunk_bytes
      → let size = length (front ++ (b ++ later)) in
        upload_chunk sha256 l now (length front) b none u ≡ (
          ok (record {
            duplicate = true;
            bytes_received = size;
            complete = size == u.metadata.total_size;
          }),
          u,
        )
  unfolding place_chunk
  upload_chunk-retry now u front b later t some_ small =
      let size = length (front ++ (b ++ later)) in
      let sizes : size ≡ length front + (length b + length later) =
        omega (arith, length-append front (b ++ later), length-append b later) in
      let positive = length-positive b some_ in
      let e : ltb (length front) size ≡ true = ground (arith, sizes, positive) in
      let f : ltb size (length front + length b) ≡ false = ground (arith, sizes) in
      let same : text_eq (take (length b) (drop (length front) (front ++ (b ++ later)))) b ≡ true =
        rw (drop-length front (b ++ later), take-length b later) (text_eq_refl b) in
      upload_chunk-open now (length front) u (front ++ (b ++ later)) b t small
      ∙ rw (e, f, same, place_chunk) refl

  -- The chunks of a file, each sent at the offset where the one before ended.
  unfoldable pub send_all : ℕ → ℕ → List Bytes → Upload → Upload
  send_all now offset [] u = u
  send_all now offset (b ∷ rest) u =
      send_all now (offset + length b) rest (upload_chunk sha256 l now offset b none u).1

  abbrev pub AllSmall : List Bytes → Type 0
  AllSmall [] = Unit
  AllSmall (b ∷ rest) = (length b ≤ l.max_file_chunk_bytes) × AllSmall rest

  pub send_all-eq :
      (now : ℕ) (chunks : List Bytes) (u : Upload) (current : Bytes)
      → InTime now u current
      → AllSmall chunks
      → length current + length (joined chunks) ≤ u.metadata.total_size
      → send_all now (length current) chunks u ≡ grown u (current ++ joined chunks)
  unfolding send_all
  send_all-eq now [] u current t small fits =
      ap (λ s. record u { staging = s }) (t.staged ∙ ap some (sym (append-nil current)))
  send_all-eq now (b ∷ rest) u current t (here, small) fits =
      let sizes : length (b ++ joined rest) ≡ length b + length (joined rest) =
        length-append b (joined rest) in
      let size : length current + length b ≡ length (current ++ b) =
        sym (length-append current b) in
      let step : (upload_chunk sha256 l now (length current) b none u).1 ≡ grown u (current ++ b) =
        ap (λ (p : Answer ChunkResult × Upload). p.1)
          (upload_chunk-append now u current b t here (omega (arith, sizes))) in
      let next : InTime now (grown u (current ++ b)) (current ++ b) = record {
        is_open = t.is_open;
        in_time = t.in_time;
        staged = refl;
      } in
      ap (λ v. send_all now (length current + length b) rest v) step
      ∙ ap (λ n. send_all now n rest (grown u (current ++ b))) size
      ∙ send_all-eq now rest (grown u (current ++ b)) (current ++ b) next small
          (omega (arith, sizes, size))
      ∙ ap (grown u) (append_assoc current b (joined rest))
