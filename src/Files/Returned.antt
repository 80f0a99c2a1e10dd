-- ===== src/Files/Returned.antt =====
-- What `read_text_file` of src/remote_host_mcp/filesystem.py returns.
use remote_host_mcp.Prelude.{
  ◌-◌, ◌≤◌, ◌≡◌, refl, ap, sym, ◌∙◌, Bool, true, false, not, ◌&&◌, some, List, [], ◌∷◌, ◌++◌,
  length, is_nil, if◌then◌else◌, arith, ◌⊎◌, inl, inr, length-append, append-nil,
}
use remote_host_mcp.Disk.{Bytes}
use remote_host_mcp.Files.Reading.{
  Scan, Range, scan_chunk, scan_chunks, new_scan, range_ok, TextRead, read_text_file,
}
use remote_host_mcp.Files.Lines.{
  skip_lines, count_lines, skip_lines-nil, count_lines-nil, ends_open-nil,
}
use remote_host_mcp.Files.Rounds.{Stays, Ended}
use remote_host_mcp.Files.Scanning.{not_nil, scan_chunk-ends}

-- What several reads give together, and that each gives something.
unfoldable pub joined : List Bytes → Bytes
joined [] = []
joined (chunk ∷ chunks) = chunk ++ joined chunks

unfoldable pub all_begin : List Bytes → Bool
all_begin [] = true
all_begin (chunk ∷ chunks) = not (is_nil chunk) && all_begin chunks

joined-more :
    (chunks : List Bytes)
    → all_begin chunks ≡ true
    → not (is_nil chunks) ≡ not (is_nil (joined chunks))
unfolding joined all_begin
joined-more [] h = refl
joined-more ([] ∷ chunks) h = absurd (ground arith)
joined-more ((c ∷ cs) ∷ chunks) h = refl

Ended-all :
    (r : Range) (target later : Bytes) (s : Scan) → Ended r target later s → Ended r target [] s
Ended-all r target later s v =
    let whole = append-nil (v.rest ++ later) in
    record {
      counts = v.counts;
      rest = v.rest ++ later;
      cut = ap (λ l. s.output ++ l) whole ∙ v.cut;
      mark = v.mark ∙ ap (λ l. not (is_nil l)) (sym whole);
      full = v.full;
    }

-- Only the last chunk ends without a mark.
Ended-marked :
    (r : Range) (chunks : List Bytes) (s : Scan) (target : Bytes)
    → all_begin chunks ≡ true
    → Ended r target (joined chunks) s
    → (if s.truncated then s else scan_chunks r chunks s) ≡ s
unfolding scan_chunks joined all_begin
Ended-marked r [] s target h v = ground arith
Ended-marked r ([] ∷ chunks) s target h v = absurd (ground arith)
Ended-marked r ((c ∷ cs) ∷ chunks) s target h v =
    let marked : s.truncated ≡ true =
      v.mark
      ∙ sym (
          not_nil (v.rest ++ ((c ∷ cs) ++ joined chunks))
            (omega (arith, length-append v.rest ((c ∷ cs) ++ joined chunks)))) in
    rw marked refl

scan_chunks-Ended :
    (r : Range) (chunks : List Bytes) (s : Scan) (target : Bytes)
    → all_begin chunks ≡ true
    → Stays r target (joined chunks) s
    → Ended r target [] (scan_chunks r chunks s)
unfolding scan_chunks joined all_begin
scan_chunks-Ended r [] s target h v = record {
  counts = v.counts;
  rest = [];
  cut = ap (λ l. s.output ++ l) (sym (skip_lines-nil (r.start_line - s.line_no))) ∙ v.cut;
  mark = v.goes_on;
  full = λ e. absurd (ground (arith, e, v.goes_on));
}
scan_chunks-Ended r (chunk ∷ chunks) s target h v =
    let t = scan_chunk (length chunk) r (not (is_nil chunks)) chunk s in
    let rest_begin : all_begin chunks ≡ true = ground arith in
    elim (scan_chunk-ends (length chunk) r (not (is_nil chunks)) chunk s (joined chunks) target v
      (joined-more chunks rest_begin) (omega arith)) [
        | inl stays ↦ rw stays.goes_on (scan_chunks-Ended r chunks t target rest_begin stays)
        | inr ended ↦
            rw (Ended-marked r chunks t target rest_begin ended)
              (Ended-all r target (joined chunks) t ended)
      ]

-- A result: the front of what is selected of the file.
pub record IsFront (r : Range) (selected : Bytes) (t : TextRead) : Type 0 where
  pub rest : Bytes
  pub cut : t.text ++ rest ≡ selected
  pub mark : t.truncated ≡ not (is_nil rest)
  pub lines : t.lines_returned ≡ count_lines false t.text
  pub few : t.lines_returned ≤ r.max_lines
  pub fits : length t.text ≤ r.max_bytes
  pub full : t.truncated ≡ true → (length t.text ≡ r.max_bytes) ⊎ (t.lines_returned ≡ r.max_lines)

pub record Reads (r : Range) (chunks : List Bytes) : Type 0 where
  pub result : TextRead
  pub returns : read_text_file r (some chunks) ≡ some result
  pub front : IsFront r (skip_lines (r.start_line - 1) (joined chunks)) result

-- For a range within its bounds, `read_text_file` returns the front of the file from the start line
-- on, however the reads cut the file into chunks: the mark of truncation is set exactly when
-- something of the file is missing, the lines are counted right and no more than asked for, the
-- bytes are no more than asked for, and it stops early only at the last byte or in the last line
-- that were asked for.
pub read_text_file-Reads :
    (r : Range) (chunks : List Bytes) → range_ok r ≡ true → all_begin chunks ≡ true → Reads r chunks
unfolding read_text_file
read_text_file-Reads r chunks valid begin =
    let s = scan_chunks r chunks new_scan in
    let selected = skip_lines (r.start_line - 1) (joined chunks) in
    let ended = scan_chunks-Ended r chunks new_scan selected begin (record {
      counts = record {
        is_used = refl;
        fits = omega arith;
        lines = sym (count_lines-nil false);
        few = omega arith;
      };
      line_open = sym (ends_open-nil false);
      goes_on = refl;
      cut = refl;
    }) in
    record {
      result = record {
        start_line = r.start_line;
        lines_returned = s.returned;
        text = s.output;
        truncated = s.truncated;
      };
      returns = rw valid refl;
      front = record {
        rest = ended.rest;
        cut = ap (λ l. s.output ++ l) (sym (append-nil ended.rest)) ∙ ended.cut;
        mark = ended.mark ∙ ap (λ l. not (is_nil l)) (append-nil ended.rest);
        lines = ended.counts.lines;
        few = ended.counts.few;
        fits = omega (arith, ended.counts.is_used, ended.counts.fits);
        full = λ e. elim (ended.full e) [
          | inl bytes ↦ inl (omega (arith, bytes, ended.counts.is_used))
          | inr lines ↦ inr lines
        ];
      };
    }
