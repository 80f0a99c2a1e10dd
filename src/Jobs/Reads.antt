-- ===== src/Jobs/Reads.antt =====
-- A client of `job_read` of src/remote_host_mcp/jobs.py that reads on from where it stopped.
use remote_host_mcp.Prelude.{
  ℕ, ◌+◌, ◌≤◌, ◌≡◌, sym, ap, ◌∙◌, some, List, [], ◌∷◌, ◌++◌, take, drop, length, arith, inl, inr,
  Option-cases, refl, map, append-nil, append_assoc, take-stretch, take-append-drop, length-take,
  length-drop,
}
use mathlib.Core.Path.{subst}
use remote_host_mcp.Prelude.Text.{Text}
use remote_host_mcp.Disk.{Bytes}
use remote_host_mcp.Jobs.State.{Procs, Root, job_status}
use remote_host_mcp.Redact.PathKey.{hide_key}
use remote_host_mcp.Jobs.Reading.{LogRead, read_log, JobRead, Logs, job_read, Visit, Got, read_on}

-- What is read from an offset on, of a log that is written up to some point.
read_log-stretch :
    (offset max_bytes written : ℕ) (log : Bytes) (r : LogRead)
    → read_log offset max_bytes (some (take written log)) ≡ some r
    → (take offset log ++ r.text ≡ take r.next_offset log) × (r.next_offset ≤ length log)
unfolding read_log
read_log-stretch offset max_bytes written log r h =
    let part = take max_bytes (drop offset (take written log)) in
    let inside : offset ≤ length (take written log) = ground (arith, h) in
    let text : part ≡ r.text = ground (arith, h) in
    let next : offset + length part ≡ r.next_offset = ground (arith, h) in
    let whole = take-append-drop written log in
    let stretch = take-stretch offset max_bytes (take written log) (drop written log) inside in
    let in_log : take (offset + length part) log ≡ take offset log ++ part =
      ap (take (offset + length part)) (sym whole)
      ∙ stretch
      ∙ ap (λ l. take offset l ++ part) whole in
    (
      ap (λ t. take offset log ++ t) (sym text) ∙ sym in_log ∙ ap (λ n. take n log) next,
      omega (
        arith,
        next,
        inside,
        length-take max_bytes (drop offset (take written log)),
        length-drop offset (take written log),
        length-take written log,
      ),
    )

abbrev pub joined : List Bytes → Bytes
joined [] = []
joined (b ∷ bs) = b ++ joined bs

joined-append : (bs : List Bytes) (b : Bytes) → joined (bs ++ b ∷ []) ≡ joined bs ++ b
joined-append [] b = append-nil b
joined-append (c ∷ bs) b =
    ap (λ l. c ++ l) (joined-append bs b) ∙ sym (append_assoc c (joined bs) b)

map-append_one :
    (f : Bytes → Text) (bs : List Bytes) (b : Bytes) → map f (bs ++ b ∷ []) ≡ map f bs ++ f b ∷ []
map-append_one f [] b = refl
map-append_one f (c ∷ bs) b = ap (λ l. f c ∷ l) (map-append_one f bs b)

-- The text of a stretch: decoded, with the key of the path taken out.
abbrev pub displayed : (Bytes → Text) → Text → Bytes → Text
displayed decode path_key part = hide_key path_key (decode part)

module _ (decode : Bytes → Text) (path_key : Text) where
  -- The texts are those of stretches of a log that follow one another without a gap, from its start up
  -- to an offset.
  pub record Covers (log : Bytes) (texts : List Text) (offset : ℕ) : Type 0 where
    pub stretches : List Bytes
    pub whole : joined stretches ≡ take offset log
    pub texts_of : texts ≡ map (displayed decode path_key) stretches

  Covers-more :
      (log : Bytes) (texts : List Text) (offset next : ℕ) (part : Bytes)
      → Covers log texts offset
      → take offset log ++ part ≡ take next log
      → Covers log (texts ++ displayed decode path_key part ∷ []) next
  Covers-more log texts offset next part c e = record {
    stretches = c.stretches ++ part ∷ [];
    whole = joined-append c.stretches part ∙ ap (λ l. l ++ part) c.whole ∙ e;
    texts_of =
        ap (λ l. l ++ displayed decode path_key part ∷ []) c.texts_of
        ∙ sym (map-append_one (displayed decode path_key) c.stretches part);
  }

  -- A client has got the front of both logs, up to its offsets.
  pub record Fronts (out err : Bytes) (g : Got) : Type 0 where
    pub got_out : Covers out g.out g.out_offset
    pub got_err : Covers err g.err g.err_offset

  -- Where an answer comes from.
  record Origin (logs : Logs) (out_offset err_offset max_bytes : ℕ) (r : JobRead) : Type 0 where
    out_read : LogRead
    err_read : LogRead
    out_from : read_log out_offset max_bytes logs.stdout_log ≡ some out_read
    err_from : read_log err_offset max_bytes logs.stderr_log ≡ some err_read
    out_text : r.stdout ≡ displayed decode path_key out_read.text
    err_text : r.stderr ≡ displayed decode path_key err_read.text
    out_next : r.next_stdout_offset ≡ out_read.next_offset
    err_next : r.next_stderr_offset ≡ err_read.next_offset

  job_read-Origin :
      (limit : ℕ) (procs : Procs) (now id out_offset err_offset max_bytes : ℕ) (logs : Logs)
      (root root' : Root) (r : JobRead)
      → job_read decode path_key limit procs now id out_offset err_offset max_bytes logs root
        ≡ some (r, root')
      → Origin logs out_offset err_offset max_bytes r
  unfolding job_read
  job_read-Origin limit procs now id out_offset err_offset max_bytes logs root root' r h =
      elim (Option-cases (job_status procs now id root)) [
        | inl e ↦ absurd (ground (arith, e, h))
        | inr ((s, seen), e) ↦ elim (Option-cases (read_log out_offset max_bytes logs.stdout_log)) [
          | inl f ↦ absurd (ground (arith, e, f, h))
          | inr (a, f) ↦ elim (Option-cases (read_log err_offset max_bytes logs.stderr_log)) [
            | inl k ↦ absurd (ground (arith, e, f, k, h))
            | inr (b, k) ↦ record {
              out_read = a;
              err_read = b;
              out_from = f;
              err_from = k;
              out_text = ground (arith, e, f, k, h);
              err_text = ground (arith, e, f, k, h);
              out_next = ground (arith, e, f, k, h);
              err_next = ground (arith, e, f, k, h);
            }
          ]
        ]
      ]

  Covers-read :
      (log : Bytes) (texts : List Text) (offset max_bytes written : ℕ) (p : LogRead) (text : Text)
      (next : ℕ)
      → Covers log texts offset
      → read_log offset max_bytes (some (take written log)) ≡ some p
      → text ≡ displayed decode path_key p.text
      → next ≡ p.next_offset
      → Covers log (texts ++ text ∷ []) next
  Covers-read log texts offset max_bytes written p text next c e same there =
      let (on, _) = read_log-stretch offset max_bytes written log p e in
      rw (same, there) (Covers-more log texts offset p.next_offset p.text c on)

  -- A client that reads on from the offsets that it was given gets the texts of stretches of both logs
  -- that follow one another without a gap or an overlap up to its offsets, whatever the limits of its
  -- calls are, whatever state the job is in at each of them and however much of the logs is written by
  -- then; each stretch is decoded for itself, and the key of the path is taken out of each for itself.
  pub read_on-Fronts :
      (limit id : ℕ) (out err : Bytes) (visits : List Visit) (g g' : Got) (root : Root)
      → Fronts out err g
      → read_on decode path_key limit id out err visits g root ≡ some g'
      → Fronts out err g'
  unfolding read_on
  read_on-Fronts limit id out err [] g g' root v h =
      let same : g ≡ g' = ground (arith, h) in subst (Fronts out err) same v
  read_on-Fronts limit id out err (w ∷ ws) g g' root v h =
      let logs : Logs = record {
        stdout_log = some (take w.out_written out);
        stderr_log = some (take w.err_written err);
      } in
      elim (Option-cases (
        job_read decode path_key limit w.procs w.now id g.out_offset g.err_offset w.max_bytes logs
          root)) [
            | inl e ↦ absurd (ground (arith, e, h))
            | inr ((r, seen), e) ↦
                let o =
                  job_read-Origin limit w.procs w.now id g.out_offset g.err_offset w.max_bytes logs
                    root seen r e in
                let next : Got = record {
                  out = g.out ++ r.stdout ∷ [];
                  err = g.err ++ r.stderr ∷ [];
                  out_offset = r.next_stdout_offset;
                  err_offset = r.next_stderr_offset;
                } in
                read_on-Fronts limit id out err ws next g' seen
                  (record {
                    got_out =
                        Covers-read out g.out g.out_offset w.max_bytes w.out_written o.out_read
                          r.stdout r.next_stdout_offset v.got_out o.out_from o.out_text o.out_next;
                    got_err =
                        Covers-read err g.err g.err_offset w.max_bytes w.err_written o.err_read
                          r.stderr r.next_stderr_offset v.got_err o.err_from o.err_text o.err_next;
                  })
                  (ground (arith, e, h))
          ]
