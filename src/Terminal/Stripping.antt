-- ===== src/Terminal/Stripping.antt =====
-- `_strip_rhmcp_osc133` of src/remote_host_mcp/terminal.py loses nothing but markers, and hides little.
use remote_host_mcp.Prelude.{
  ℕ, zero, suc, ◌-◌, ◌≤◌, ◌≡◌, refl, ap, ◌∙◌, some, [], ◌∷◌, ◌++◌, take, drop, length, min, ltb,
  arith, inl, inr, Bool-cases, Option-cases, take-append-drop, length-drop, append-nil,
  append_assoc,
}
use remote_host_mcp.Prelude.Text.{text_eq}
use remote_host_mcp.Disk.{Bytes}
use remote_host_mcp.Terminal.Markers.{
  osc_prefix, osc_tail_max, has_bel, last_prefix, split_prefix, split_partial, hold_back,
  flush_tail, scan, strip_markers,
}

-- Two parts of a text, the second of at most so many bytes.
pub record IsCut (whole : Bytes) (n : ℕ) (cut : Bytes × Bytes) : Type 0 where
  pub joined : cut.0 ++ cut.1 ≡ whole
  pub short : length cut.1 ≤ n

split_prefix-IsCut : (n : ℕ) (bs : Bytes) → IsCut bs n (split_prefix n bs)
unfolding split_prefix
split_prefix-IsCut zero bs = record { joined = append-nil bs; short = omega arith }
split_prefix-IsCut (suc n) bs =
    elim (Bool-cases (text_eq (drop (length bs - suc n) bs) (take (suc n) osc_prefix))) [
      | inl e ↦
          rw (e, split_prefix)
            (record {
              joined = take-append-drop (length bs - suc n) bs;
              short = omega (arith, length-drop (length bs - suc n) bs);
            })
      | inr e ↦
          (let ih = split_prefix-IsCut n bs in
            rw (e, split_prefix) (record { joined = ih.joined; short = omega (arith, ih.short) }))
    ]

split_partial-IsCut : (bs : Bytes) → IsCut bs 5 (split_partial bs)
split_partial-IsCut bs =
    let c = split_prefix-IsCut (min (length osc_prefix - 1) (length bs)) bs in
    record { joined = c.joined; short = omega (arith, c.short) }

last_prefix-joined :
    (bs front tail : Bytes) → last_prefix bs ≡ some (front, tail) → front ++ tail ≡ bs
unfolding last_prefix
last_prefix-joined [] front tail h = absurd (ground arith)
last_prefix-joined (b ∷ bs) front tail h = elim (Option-cases (last_prefix bs)) [
  | inl e ↦ ground (arith, e)
  | inr ((f, t), e) ↦ ground (arith, e, last_prefix-joined bs f t)
]

hold_back-joined : (bs : Bytes) → (hold_back bs).0 ++ (hold_back bs).1 ≡ bs
unfolding hold_back
hold_back-joined bs = elim (Option-cases (last_prefix bs)) [
  | inl e ↦ rw (e, hold_back) (split_partial-IsCut bs).joined
  | inr ((front, tail), e) ↦ elim (Bool-cases (has_bel tail)) [
    | inl h ↦ rw (e, h, hold_back) (split_partial-IsCut bs).joined
    | inr h ↦ rw (e, h, hold_back) (last_prefix-joined bs front tail e)
  ]
]

flush_tail-IsCut :
    (cleaned tail : Bytes) → IsCut (cleaned ++ tail) osc_tail_max (flush_tail (cleaned, tail))
unfolding flush_tail
flush_tail-IsCut cleaned tail = elim (Bool-cases (ltb osc_tail_max (length tail))) [
  | inl e ↦
      (let c = split_partial-IsCut tail in
        rw (e, flush_tail)
          (record {
            joined = append_assoc cleaned _ _ ∙ ap (λ r. cleaned ++ r) c.joined;
            short = omega (arith, c.short);
          }))
  | inr e ↦ rw (e, flush_tail) (record { joined = refl; short = ground arith })
]

-- What a read passes on and what it holds back are together the bytes outside the markers of what
-- was held back before and the chunk, in order; at most 256 bytes are held back.
pub strip_markers-IsCut :
    (osc_tail chunk : Bytes)
    → let (out, tail, _) = strip_markers osc_tail chunk in
      (out ++ tail ≡ (scan 0 (osc_tail ++ chunk)).0) × (length tail ≤ osc_tail_max)
unfolding strip_markers
strip_markers-IsCut osc_tail chunk =
    let cleaned = (scan 0 (osc_tail ++ chunk)).0 in
    let c = flush_tail-IsCut (hold_back cleaned).0 (hold_back cleaned).1 in
    (c.joined ∙ hold_back-joined cleaned, c.short)
