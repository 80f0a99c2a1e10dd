-- ===== src/Files/Scanning.antt =====
-- The inner loop of `read_text_file` of src/remote_host_mcp/filesystem.py, over one chunk.
use remote_host_mcp.Prelude.{
  ℕ, zero, suc, ◌+◌, ◌-◌, ◌≤◌, ◌<◌, ◌≡◌, refl, ap, sym, ◌∙◌, Bool, true, not, ◌||◌, Option, none,
  some, [], ◌∷◌, ◌++◌, take, drop, length, is_nil, leb, ltb, arith, ◌⊎◌, inl, inr, Bool-cases,
  Option-cases, length-append, length-take, length-drop, append_assoc, take-append-drop,
}
use mathlib.Core.Path.{subst}
use remote_host_mcp.Disk.{Bytes}
use remote_host_mcp.Files.Reading.{
  split_line, Scan, enter_line, add_output, Range, keep_segment, scan_step, scan_chunk,
}
use remote_host_mcp.Files.Lines.{skip_lines, split_line-joined, split_line-begins}
use remote_host_mcp.Files.Rounds.{
  Counts, Stays, Ended, skipped-Stays, piece-Counts, enter_line-output, move-cut, segment-Added,
  Step, keep_segment-Step,
}

pub not_nil : (bs : Bytes) → 0 < length bs → true ≡ not (is_nil bs)
not_nil [] h = absurd (omega (arith, h))
not_nil (c ∷ cs) h = refl

-- A segment that is longer than the bytes that are left.
pub cut_segment-Ended :
    (r : Range) (c : ℕ) (cs : Bytes) (s : Scan) (later target : Bytes)
    → Stays r target ((c ∷ cs) ++ later) s
    → r.start_line ≤ s.line_no
    → s.returned < r.max_lines
    → s.used < r.max_bytes
    → let segment = (split_line (c ∷ cs)).0 in
      let left = r.max_bytes - s.used in
      left < length segment
      → Ended r target later
          (record (add_output (take left segment) (enter_line s)) { truncated = true })
unfolding add_output
cut_segment-Ended r c cs s later target v late room free long =
    let (segment, rest, _) = split_line (c ∷ cs) in
    let left = r.max_bytes - s.used in
    let n = left - 1 in
    let (same, same_used, _, _, _) = enter_line-output s in
    let all : suc n ≡ left = omega (arith, free) in
    let size : length (take left segment) ≡ left = omega (arith, length-take left segment, long) in
    let behind = drop left segment ++ rest in
    let more : 0 < length (behind ++ later) = omega (
      arith,
      length-append behind later,
      length-append (drop left segment) rest,
      length-drop left segment,
      long,
    ) in
    record {
      counts =
          subst
            (λ k.
              s.used + length (take k segment) ≤ r.max_bytes
              → let t = add_output (take k segment) (enter_line s) in
                Counts r t.output t.used t.returned)
            all (piece-Counts r n c cs s target _ v room) (omega (arith, size, free));
      rest = behind;
      cut =
          ap (λ o. (o ++ take left segment) ++ (behind ++ later)) same
          ∙ move-cut (r.start_line - s.line_no) s.output (take left segment) behind (c ∷ cs) later
              target v.cut (omega (arith, late))
              (sym (append_assoc (take left segment) (drop left segment) rest)
                ∙ ap (λ l. l ++ rest) (take-append-drop left segment)
                ∙ split_line-joined (c ∷ cs));
      mark = not_nil (behind ++ later) more;
      full = λ _. inl (omega (arith, same_used, size, free));
    }

-- The lines or the bytes are used up, and there is more to come.
pub full-Ended :
    (r : Range) (chunk : Bytes) (s : Scan) (later target : Bytes)
    → Stays r target (chunk ++ later) s
    → r.start_line ≤ s.line_no
    → (leb r.max_lines s.returned || leb r.max_bytes s.used) ≡ true
    → 0 < length chunk
    → Ended r target later (record s { truncated = true })
unfolding skip_lines
full-Ended r chunk s later target v late full some_left =
    let behind : r.start_line - s.line_no ≡ 0 = omega (arith, late) in
    record {
      counts = v.counts;
      rest = chunk;
      cut = ap (λ k. s.output ++ skip_lines k (chunk ++ later)) (sym behind) ∙ v.cut;
      mark = not_nil (chunk ++ later) (omega (arith, length-append chunk later, some_left));
      full = λ _. elim (Bool-cases (leb r.max_lines s.returned)) [
        | inl lines ↦ inr (ground (arith, lines, v.counts.few))
        | inr other ↦ inl (ground (arith, other, full, v.counts.fits))
      ];
    }

pub scan_step-Step :
    (r : Range) (more : Bool) (c : ℕ) (cs : Bytes) (s : Scan) (later target : Bytes)
    → Stays r target ((c ∷ cs) ++ later) s
    → more ≡ not (is_nil later)
    → Step r target later (scan_step r more (c ∷ cs) s)
unfolding scan_step
scan_step-Step r more c cs s later target v is_more =
    let (segment, rest, found) = split_line (c ∷ cs) in
    elim (Bool-cases (ltb s.line_no r.start_line)) [
      | inl early ↦ rw early (skipped-Stays r target (c ∷ cs) later s v (ground (arith, early)))
      | inr late ↦ elim (Bool-cases (leb r.max_lines s.returned || leb r.max_bytes s.used)) [
        | inl full ↦
            rw (late, full)
              (full-Ended r (c ∷ cs) s later target v (ground (arith, late)) full (ground arith))
        | inr free ↦ elim (Bool-cases (ltb (r.max_bytes - s.used) (length segment))) [
          | inl long ↦
              rw (late, free, long)
                (cut_segment-Ended r c cs s later target v (ground (arith, late))
                  (ground (arith, free)) (ground (arith, free)) (ground (arith, long)))
          | inr fits ↦
              rw (late, free, fits)
                (keep_segment-Step r more segment rest found s (enter_line s) later target
                  (segment-Added r c cs s target later v (ground (arith, late))
                    (ground (arith, free)) (ground (arith, free, fits)))
                  (ground (arith, late)) is_more)
        ]
      ]
    ]

pub split_line-shorter : (c : ℕ) (cs : Bytes) → length (split_line (c ∷ cs)).1 ≤ length cs
split_line-shorter c cs =
    let (segment, rest, _) = split_line (c ∷ cs) in
    omega (
      arith,
      split_line-begins c cs,
      length-append segment rest,
      ap length (split_line-joined (c ∷ cs)),
    )

pub keep_segment-rest :
    (r : Range) (more : Bool) (segment rest : Bytes) (found : Bool) (s : Scan) (left : Bytes)
    → (keep_segment r more segment rest found s).1 ≡ some left
    → rest ≡ left
unfolding keep_segment
keep_segment-rest r more segment rest found s left h = ground (arith, h)

pub scan_step-rest :
    (r : Range) (more : Bool) (c : ℕ) (cs : Bytes) (s : Scan) (left : Bytes)
    → (scan_step r more (c ∷ cs) s).1 ≡ some left
    → (split_line (c ∷ cs)).1 ≡ left
unfolding scan_step
scan_step-rest r more c cs s left h =
    let (segment, rest, found) = split_line (c ∷ cs) in
    ground (arith, h, keep_segment-rest r more segment rest found (enter_line s) left)

pub Step-some :
    (r : Range) (target later : Bytes) (p : Scan × Option Bytes) (rest : Bytes)
    → p.1 ≡ some rest
    → Step r target later p
    → Stays r target (rest ++ later) p.0
Step-some r target later (s, none) rest e v = absurd (ground arith)
Step-some r target later (s, some left) rest e v =
    let same : left ≡ rest = ground arith in subst (λ l. Stays r target (l ++ later) s) same v

pub Step-none :
    (r : Range) (target later : Bytes) (p : Scan × Option Bytes)
    → p.1 ≡ none
    → Step r target later p
    → Ended r target later p.0
Step-none r target later (s, none) e v = v
Step-none r target later (s, some left) e v = absurd (ground arith)

pub scan_chunk-next :
    (n : ℕ) (r : Range) (more : Bool) (c : ℕ) (cs : Bytes) (s : Scan) (next : Option Bytes)
    → let p = scan_step r more (c ∷ cs) s in
      p.1 ≡ next
      → scan_chunk (suc n) r more (c ∷ cs) s
        ≡ (elim next [ none ↦ p.0 | some rest ↦ scan_chunk n r more rest p.0 ])
unfolding scan_chunk
scan_chunk-next n r more c cs s next e =
    let p = scan_step r more (c ∷ cs) s in
    ap (λ (o : Option Bytes). elim o [ none ↦ p.0 | some rest ↦ scan_chunk n r more rest p.0 ]) e

pub scan_chunk-nil : (n : ℕ) (r : Range) (more : Bool) (s : Scan) → scan_chunk n r more [] s ≡ s
unfolding scan_chunk
scan_chunk-nil zero r more s = refl
scan_chunk-nil (suc n) r more s = refl

pub scan_chunk-ends :
    (n : ℕ) (r : Range) (more : Bool) (chunk : Bytes) (s : Scan) (later target : Bytes)
    → Stays r target (chunk ++ later) s
    → more ≡ not (is_nil later)
    → length chunk ≤ n
    → let t = scan_chunk n r more chunk s in Stays r target later t ⊎ Ended r target later t
scan_chunk-ends n r more [] s later target v is_more h = rw (scan_chunk-nil n r more s) (inl v)
scan_chunk-ends zero r more (c ∷ cs) s later target v is_more h = absurd (omega (arith, h))
scan_chunk-ends (suc n) r more (c ∷ cs) s later target v is_more h =
    let step = scan_step-Step r more c cs s later target v is_more in
    elim (Option-cases (scan_step r more (c ∷ cs) s).1) [
      | inl e ↦
          rw (scan_chunk-next n r more c cs s none e)
            (inr (Step-none r target later (scan_step r more (c ∷ cs) s) e step))
      | inr (rest, e) ↦
          let small : length rest ≤ n =
            omega (
              arith,
              split_line-shorter c cs,
              ap length (scan_step-rest r more c cs s rest e),
              h,
            ) in
          rw (scan_chunk-next n r more c cs s (some rest) e) (
            scan_chunk-ends n r more rest (scan_step r more (c ∷ cs) s).0 later target
              (Step-some r target later (scan_step r more (c ∷ cs) s) rest e step) is_more small)
    ]
