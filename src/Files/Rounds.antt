-- ===== src/Files/Rounds.antt =====
-- The rounds of the inner loop of `read_text_file` of src/remote_host_mcp/filesystem.py.
use remote_host_mcp.Prelude.{
  ℕ, suc, ◌+◌, ◌-◌, ◌≤◌, ◌<◌, ◌≡◌, refl, ap, sym, ◌∙◌, Bool, true, false, not, ◌||◌, Option, none,
  some, [], ◌∷◌, ◌++◌, take, length, is_nil, leb, if◌then◌else◌, arith, ◌⊎◌, inl, inr, Bool-cases,
  length-append, take_all, append_assoc,
}
use mathlib.Core.Path.{subst}
use remote_host_mcp.Disk.{Bytes}
use remote_host_mcp.Files.Reading.{
  split_line, Scan, enter_line, leave_line, add_output, Range, keep_segment,
}
use remote_host_mcp.Files.Lines.{
  skip_lines, count_lines, ends_open, split_line-joined, split_line-begins, count_lines-segment,
  ends_open-segment, count_lines-append, ends_open-append, skip_lines-split,
}

-- The counters are those of the output, and within the bounds.
pub record Counts (r : Range) (output : Bytes) (used returned : ℕ) : Type 0 where
  pub is_used : used ≡ length output
  pub fits : used ≤ r.max_bytes
  pub lines : returned ≡ count_lines false output
  pub few : returned ≤ r.max_lines

-- Between two rounds: what is selected of the file is the output so far and what is still to come.
pub record Stays (r : Range) (target rest : Bytes) (s : Scan) : Type 0 where
  pub counts : Counts r s.output s.used s.returned
  pub line_open : s.in_selected_line ≡ ends_open false s.output
  pub goes_on : s.truncated ≡ false
  pub cut : s.output ++ skip_lines (r.start_line - s.line_no) rest ≡ target

-- At a `break`: what is missing is what the mark tells, and the bytes or the lines are used up.
pub record Ended (r : Range) (target later : Bytes) (s : Scan) : Type 0 where
  pub counts : Counts r s.output s.used s.returned
  pub rest : Bytes
  pub cut : s.output ++ (rest ++ later) ≡ target
  pub mark : s.truncated ≡ not (is_nil (rest ++ later))
  pub full : s.truncated ≡ true → (s.used ≡ r.max_bytes) ⊎ (s.returned ≡ r.max_lines)

-- A round in front of the first selected line.
pub skipped-Stays :
    (r : Range) (target chunk later : Bytes) (s : Scan)
    → Stays r target (chunk ++ later) s
    → s.line_no < r.start_line
    → let (_, rest, found) = split_line chunk in
      Stays r target (rest ++ later) (if found then record s { line_no = suc s.line_no } else s)
skipped-Stays r target chunk later s v early =
    let (_, rest, found) = split_line chunk in
    let n = r.start_line - suc s.line_no in
    let gap : r.start_line - s.line_no ≡ suc n = omega (arith, early) in
    let cut : s.output ++ skip_lines (if found then n else suc n) (rest ++ later) ≡ target =
      ap (λ l. s.output ++ l) (sym (skip_lines-split n chunk later))
      ∙ ap (λ k. s.output ++ skip_lines k (chunk ++ later)) (sym gap)
      ∙ v.cut in
    let stays = λ (b : Bool).
      (e : found ≡ b)
      → Stays r target (rest ++ later) (if b then record s { line_no = suc s.line_no } else s) in
    elim (Bool-cases found) [
      | inl e ↦ rw e (record {
        counts = v.counts;
        line_open = v.line_open;
        goes_on = v.goes_on;
        cut =
            ap (λ b. s.output ++ skip_lines (if b then n else suc n) (rest ++ later)) (sym e) ∙ cut;
      })
      | inr e ↦ rw e (record {
        counts = v.counts;
        line_open = v.line_open;
        goes_on = v.goes_on;
        cut =
            ap (λ k. s.output ++ skip_lines k (rest ++ later)) gap
            ∙ ap (λ b. s.output ++ skip_lines (if b then n else suc n) (rest ++ later)) (sym e)
            ∙ cut;
      })
    ]

-- The counters behind a piece of a segment, of a byte at least.
pub piece-Counts :
    (r : Range) (n c : ℕ) (cs : Bytes) (s : Scan) (target rest : Bytes)
    → Stays r target rest s
    → s.returned < r.max_lines
    → let piece = take (suc n) (split_line (c ∷ cs)).0 in
      s.used + length piece ≤ r.max_bytes
      → let t = add_output piece (enter_line s) in Counts r t.output t.used t.returned
unfolding add_output enter_line
piece-Counts r n c cs s target rest v more fits =
    let piece = take (suc n) (split_line (c ∷ cs)).0 in
    let begins = count_lines-segment (ends_open false s.output) n c cs in
    let joined = count_lines-append false s.output piece in
    let size = length-append s.output piece in
    let one : count_lines (ends_open false s.output) piece ≡ (if s.in_selected_line then 0 else 1) =
      begins ∙ ap (λ b. if b then 0 else 1) (sym v.line_open) in
    elim (Bool-cases s.in_selected_line) [
      | inl e ↦
          let none_new = one ∙ ap (λ b. if b then 0 else 1) e in
          rw e (record {
            is_used = omega (arith, v.counts.is_used, size);
            fits = fits;
            lines = omega (arith, v.counts.lines, joined, none_new);
            few = v.counts.few;
          })
      | inr e ↦
          let one_new = one ∙ ap (λ b. if b then 0 else 1) e in
          rw e (record {
            is_used = omega (arith, v.counts.is_used, size);
            fits = fits;
            lines = omega (arith, v.counts.lines, joined, one_new);
            few = omega (arith, more);
          })
    ]

pub enter_line-output :
    (s : Scan)
    → ((enter_line s).output ≡ s.output)
      × ((enter_line s).used ≡ s.used)
      × ((enter_line s).line_no ≡ s.line_no)
      × ((enter_line s).in_selected_line ≡ true)
      × ((enter_line s).truncated ≡ s.truncated)
unfolding enter_line
enter_line-output s = ground arith

-- A piece that moves from what is to come to the output.
pub move-cut :
    (k : ℕ) (output piece left chunk later target : Bytes)
    → output ++ skip_lines k (chunk ++ later) ≡ target
    → k ≡ 0
    → piece ++ left ≡ chunk
    → (output ++ piece) ++ (left ++ later) ≡ target
unfolding skip_lines
move-cut k output piece left chunk later target h e joined =
    append_assoc output piece (left ++ later)
    ∙ ap (λ l. output ++ l) (sym (append_assoc piece left later) ∙ ap (λ l. l ++ later) joined)
    ∙ ap (λ n. output ++ skip_lines n (chunk ++ later)) (sym e)
    ∙ h

-- A segment that fits, in the output.
pub record Added (r : Range) (rest : Bytes) (found : Bool) (later target : Bytes) (s t : Scan)
    : Type 0 where
  pub counts : Counts r t.output t.used t.returned
  pub ending : ends_open false t.output ≡ not found
  pub in_line : t.in_selected_line ≡ true
  pub same_line : t.line_no ≡ s.line_no
  pub going : t.truncated ≡ false
  pub cut : t.output ++ (rest ++ later) ≡ target

pub segment-Added :
    (r : Range) (c : ℕ) (cs : Bytes) (s : Scan) (target later : Bytes)
    → Stays r target ((c ∷ cs) ++ later) s
    → r.start_line ≤ s.line_no
    → s.returned < r.max_lines
    → let (segment, rest, found) = split_line (c ∷ cs) in
      s.used + length segment ≤ r.max_bytes
      → Added r rest found later target s (add_output segment (enter_line s))
unfolding add_output
segment-Added r c cs s target later v late room fits =
    let (segment, rest, found) = split_line (c ∷ cs) in
    let (same, same_used, same_line, is_open, same_mark) = enter_line-output s in
    let n = length segment - 1 in
    let whole : take (suc n) segment ≡ segment =
      take_all (suc n) segment (omega (arith, split_line-begins c cs)) in
    record {
      counts =
          subst
            (λ b.
              s.used + length b ≤ r.max_bytes
              → let t = add_output b (enter_line s) in Counts r t.output t.used t.returned)
            whole (piece-Counts r n c cs s target _ v room) fits;
      ending =
          ends_open-append false (enter_line s).output segment
          ∙ ends_open-segment (ends_open false (enter_line s).output) c cs;
      in_line = is_open;
      same_line = same_line;
      going = same_mark ∙ v.goes_on;
      cut =
          ap (λ o. (o ++ segment) ++ (rest ++ later)) same
          ∙ move-cut (r.start_line - s.line_no) s.output segment rest (c ∷ cs) later target v.cut
              (omega (arith, late)) (split_line-joined (c ∷ cs));
    }

-- What a round of the inner loop leads to.
abbrev pub Step : Range → Bytes → Bytes → Scan × Option Bytes → Type 0
Step r target later (s, none) = Ended r target later s
Step r target later (s, some rest) = Stays r target (rest ++ later) s

pub is_nil-append : (a b : Bytes) → (not (is_nil a) || not (is_nil b)) ≡ not (is_nil (a ++ b))
is_nil-append [] b = refl
is_nil-append (c ∷ cs) b = refl

pub keep_segment-Step :
    (r : Range) (more : Bool) (segment rest : Bytes) (found : Bool) (s0 s : Scan)
    (later target : Bytes)
    → Added r rest found later target s0 (add_output segment s)
    → r.start_line ≤ s0.line_no
    → more ≡ not (is_nil later)
    → Step r target later (keep_segment r more segment rest found s)
unfolding keep_segment leave_line skip_lines
keep_segment-Step r more segment rest found s0 s later target a late is_more =
    let t = add_output segment s in
    let behind : r.start_line - t.line_no ≡ 0 = omega (arith, late, a.same_line) in
    let past : r.start_line - suc t.line_no ≡ 0 = omega (arith, late, a.same_line) in
    elim (Bool-cases found) [
      | inr e ↦ rw e (record {
        counts = a.counts;
        line_open = a.in_line ∙ sym (a.ending ∙ ap not e);
        goes_on = a.going;
        cut = ap (λ k. t.output ++ skip_lines k (rest ++ later)) behind ∙ a.cut;
      })
      | inl e ↦ elim (Bool-cases (leb r.max_lines t.returned)) [
        | inl full ↦
            rw (e, full)
              (record {
                counts = a.counts;
                rest = rest;
                cut = a.cut;
                mark = ap (λ b. not (is_nil rest) || b) is_more ∙ is_nil-append rest later;
                full = λ _. inr (ground (arith, full, a.counts.few));
              })
        | inr not_full ↦
            rw (e, not_full)
              (record {
                counts = a.counts;
                line_open = sym (a.ending ∙ ap not e);
                goes_on = a.going;
                cut = ap (λ k. t.output ++ skip_lines k (rest ++ later)) past ∙ a.cut;
              })
      ]
    ]
