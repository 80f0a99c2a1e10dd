-- ===== src/Tail/Main.antt =====
-- Reading the main file (`_read_main`): nothing is lost or read twice while the writer appends.
use mathlib.Core.List.{filter_map, filter_map-append, filter_map-cons-none, filter_map-cons-some}
use mathlib.Core.Path.{ap₂}
use remote_host_mcp.Prelude.{
  ℕ, ◌+◌, ◌≤◌, ◌≡◌, refl, ap, true, Option, some, List, [], ◌∷◌, ◌++◌, map, length, length-append,
  length-drop, arith, Option-cases, inl, inr, take, drop, drop-append, drop-drop, ◌∙◌, take_all,
  sym,
}
use remote_host_mcp.Json.{Json, Event}
use remote_host_mcp.Disk.{Bytes}
use remote_host_mcp.Tail.{
  Tail, World, Yield, split_lines, main_lines, line_event, read_main, read_chunk_bytes,
}
use remote_host_mcp.Tail.Lines.{
  lines_length, position_after-eq, drop-split_lines, split_lines-append, split_lines-length,
}

-- The events that a generator has given out.
abbrev pub events : List Yield → List Event
events ys = map (λ y. y.event) ys

pub lines_length-append :
    (ls ms : List Bytes) → lines_length (ls ++ ms) ≡ lines_length ls + lines_length ms
lines_length-append [] ms = omega arith
lines_length-append (l ∷ rest) ms = omega (arith, lines_length-append rest ms)

-- The lines and the next offset that a longer file gives from offset r on.
module _ (r : ℕ) (b more : Bytes) (start : r ≤ length b) where
  abbrev lines_from : List Bytes
  lines_from = (split_lines (drop r b)).0

  abbrev rest_from : Bytes
  rest_from = (split_lines (drop r b)).1

  drop_unread : drop (r + lines_length lines_from) (b ++ more) ≡ rest_from ++ more
  drop_unread =
      sym (drop-drop (lines_length lines_from) r (b ++ more))
      ∙ ap (drop (lines_length lines_from)) (drop-append r b more start)
      ∙ drop-append (lines_length lines_from) (drop r b) more
          (omega (arith, split_lines-length (drop r b)))
      ∙ ap (λ x. x ++ more) (drop-split_lines (drop r b))

  lines_grown :
      (split_lines (drop r (b ++ more))).0 ≡ lines_from ++ (split_lines (rest_from ++ more)).0
  lines_grown =
      ap (λ x. (split_lines x).0) (drop-append r b more start)
      ∙ ap (λ (p : List Bytes × Bytes). p.0) (split_lines-append (drop r b) more)

module _ (loads : Bytes → Option Json) where
  pub events-main_lines :
      (t : Tail) (p : ℕ) (ls : List Bytes)
      → events (main_lines loads t p ls) ≡ filter_map (line_event loads) ls
  unfolding main_lines
  events-main_lines t p [] = unfold filter_map in refl
  events-main_lines t p (l ∷ rest) = elim (Option-cases (line_event loads l)) [
    | inl e ↦
        rw (filter_map-cons-none (line_event loads) l rest e, e, main_lines)
          (events-main_lines t (p + length l + 1) rest)
    | inr (v, e) ↦
        rw (filter_map-cons-some (line_event loads) l rest e, e, main_lines)
          (ap (λ r. v ∷ r) (events-main_lines t (p + length l + 1) rest))
  ]

  -- What `_read_main` does with a main file that fits in one chunk behind the read offset.
  read_main-eq :
      (w : World) (t : Tail) (h : ℕ)
      → w.disk.names 0 ≡ some h
      → w.readable 0 ≡ true
      → length (w.disk.contents h) ≤ t.read_offset + read_chunk_bytes
      → let lines = (split_lines (drop t.read_offset (w.disk.contents h))).0 in
        (events (read_main loads w t).yields ≡ filter_map (line_event loads) lines)
        × ((read_main loads w t).final
            ≡ some (record t { read_offset = t.read_offset + lines_length lines }))
  unfolding read_main
  read_main-eq w t h at can fits =
      let b = w.disk.contents h in
      let whole : take read_chunk_bytes (drop t.read_offset b) ≡ drop t.read_offset b =
        take_all read_chunk_bytes _ (omega (arith, length-drop t.read_offset b)) in
      rw (at, can, whole, read_main)
        (
          events-main_lines t t.read_offset _,
          rw (position_after-eq t.read_offset (split_lines (drop t.read_offset b)).0) refl,
        )

  -- While the writer only appends, two reads report what one read of the longer file would: the
  -- same events in the same order, none lost and none twice, and they leave the same offset.
  pub read_main-append :
      (w v : World) (t u : Tail) (h : ℕ) (more : Bytes)
      → w.disk.names 0 ≡ some h
      → v.disk.names 0 ≡ some h
      → w.readable 0 ≡ true
      → v.readable 0 ≡ true
      → v.disk.contents h ≡ w.disk.contents h ++ more
      → t.read_offset ≤ length (w.disk.contents h)
      → length (v.disk.contents h) ≤ t.read_offset + read_chunk_bytes
      → (read_main loads w t).final ≡ some u
      → (events (read_main loads w t).yields ++ events (read_main loads v u).yields
          ≡ events (read_main loads v t).yields)
        × ((read_main loads v u).final ≡ (read_main loads v t).final)
  read_main-append w v t u h more at_w at_v can_w can_v grown start fits ended =
      let r = t.read_offset in
      let b = w.disk.contents h in
      let n = lines_length (lines_from r b more start) in
      let next : Tail = record t { read_offset = r + n } in
      let later = (split_lines (rest_from r b more start ++ more)).0 in
      let sizes : length (v.disk.contents h) ≡ length b + length more =
        ap length grown ∙ length-append b more in
      let (ys, e) = read_main-eq w t h at_w can_w (omega arith) in
      let (zs, f) = read_main-eq v t h at_v can_v fits in
      let (xs, g) = read_main-eq v next h at_v can_v (omega arith) in
      let is_u : next ≡ u = cc e in
      let unread = ap (drop (r + n)) grown ∙ drop_unread r b more start in
      let lines = ap (λ x. (split_lines (drop r x)).0) grown ∙ lines_grown r b more start in
      let moved : r + n + lines_length later
          ≡ r + lines_length (lines_from r b more start ++ later) =
        omega (arith, lines_length-append (lines_from r b more start) later) in
      rw (← is_u) (
        ap₂ ◌++◌ ys (xs ∙ ap (λ x. filter_map (line_event loads) (split_lines x).0) unread)
            ∙ sym (filter_map-append (line_event loads) (lines_from r b more start) later)
            ∙ sym (zs ∙ ap (filter_map (line_event loads)) lines),
        g
            ∙ ap (λ x. some (record t { read_offset = r + n + lines_length (split_lines x).0 }))
                unread
            ∙ ap (λ k. some (record t { read_offset = k })) moved
            ∙ sym (f ∙ ap (λ ls. some (record t { read_offset = r + lines_length ls })) lines),
      )
