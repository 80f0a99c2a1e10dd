-- ===== src/Tail/Drain.antt =====
-- What the catch-up over rotated generations reports (`_drain_step`).
use mathlib.Core.List.{
  append-nil, filter_map, filter_map-append, filter_map-cons-none, filter_map-cons-some,
}
use remote_host_mcp.Prelude.{
  ℕ, zero, suc, ◌+◌, ◌-◌, ◌≤◌, ◌<◌, ◌≡◌, refl, ap, true, false, Option, none, some, List, [], ◌∷◌,
  ◌++◌, length, length-drop, arith, Option-cases, Bool-cases, inl, inr, if◌then◌else◌, drop,
  drop_all, leb, leb→le, le→leb, ◌==◌, min, sym, ◌∙◌, take_all,
}
use remote_host_mcp.Prelude.Int.{ℤ, pos}
use remote_host_mcp.Json.{Json, Event}
use remote_host_mcp.Disk.{Bytes, content}
use remote_host_mcp.Tail.{
  Entry, Tail, World, Yield, Reading, is_blank, split_lines, round_lines, drain_lines, pop_entry,
  prepend, line_event, read_chunk, stat, differs, inode_of, drain_round, next_entry, drain_pass,
  drain_loop, drain_step, read_chunk_bytes, end_drain,
}
use remote_host_mcp.Tail.Main.{events}

-- What is left of an entry's generation.
abbrev pub unread : World → Entry → Bytes
unread w e = drop e.start (content w.disk e.gen)

abbrev pub total : World → List Entry → ℕ
total w [] = 0
total w (e ∷ rest) = length (unread w e) + total w rest

-- Every file of the plan is there, can be opened, and is the one that was planned.
abbrev pub IsIntact : World → List Entry → Type 0
IsIntact w [] = Unit
IsIntact w (e ∷ rest) =
    ((h : ℕ) × (w.disk.names e.gen ≡ some h))
    × (w.readable e.gen ≡ true)
    × (differs (inode_of (stat w.disk e.gen)) e.expected ≡ false)
    × IsIntact w rest

module _ (loads : Bytes → Option Json) where
  -- The events of a file that will not grow any more: of all its lines, also of the last one.
  abbrev pub file_events : Bytes → List Event
  file_events b =
      let (lines, tail) = split_lines b in filter_map (line_event loads) (lines ++ tail ∷ [])

  abbrev pub plan_events : World → List Entry → List Event
  plan_events w [] = []
  plan_events w (e ∷ rest) = file_events (unread w e) ++ plan_events w rest

  events-drain_lines :
      (e : Entry) (rest : List Entry) (t : Tail) (p : ℕ) (ls : List Bytes)
      → events (drain_lines loads e rest t p ls) ≡ filter_map (line_event loads) ls
  unfolding drain_lines
  events-drain_lines e rest t p [] = unfold filter_map in refl
  events-drain_lines e rest t p (l ∷ ls) = elim (Option-cases (line_event loads l)) [
    | inl q ↦
        rw (filter_map-cons-none (line_event loads) l ls q, q, drain_lines)
          (events-drain_lines e rest t (p + length l + 1) ls)
    | inr (v, q) ↦
        rw (filter_map-cons-some (line_event loads) l ls q, q, drain_lines)
          (ap (λ r. v ∷ r) (events-drain_lines e rest t (p + length l + 1) ls))
  ]

  -- A chunk that reaches the end of its file.
  read_chunk-rest :
      (w : World) (i start budget h : ℕ)
      → w.disk.names i ≡ some h
      → w.readable i ≡ true
      → length (drop start (w.disk.contents h)) ≤ budget
      → budget ≤ read_chunk_bytes
      → read_chunk w i start (min (length (w.disk.contents h)) (start + budget))
        ≡ some (drop start (w.disk.contents h))
  unfolding read_chunk
  read_chunk-rest w i start budget h at can fits small =
      rw (at, can, read_chunk)
        (ap some (take_all _ _ (omega (arith, length-drop start (w.disk.contents h)))))

  line_event-blank : (l : Bytes) → is_blank l ≡ true → line_event loads l ≡ none
  unfolding line_event
  line_event-blank l blank = rw (blank, line_event) refl

  file_events-nil : file_events [] ≡ []
  unfolding split_lines
  file_events-nil =
      filter_map-cons-none (line_event loads) [] [] (line_event-blank [] (unfold is_blank in refl))
      ∙ (unfold filter_map in refl)

  -- Leaving out a blank last line costs no event.
  file_events-round_lines :
      (p : List Bytes × Bytes)
      → filter_map (line_event loads) (round_lines true p)
        ≡ filter_map (line_event loads) (p.0 ++ p.1 ∷ [])
  unfolding round_lines
  file_events-round_lines (lines, tail) = elim (Bool-cases (is_blank tail)) [
    | inl blank ↦
        rw (blank, round_lines)
          (sym (append-nil (filter_map (line_event loads) lines))
            ∙ ap (λ e. filter_map (line_event loads) lines ++ e)
                (sym (
                  filter_map-cons-none (line_event loads) tail [] (line_event-blank tail blank)
                  ∙ (unfold filter_map in refl)))
            ∙ sym (filter_map-append (line_event loads) lines (tail ∷ [])))
    | inr full ↦ rw (full, round_lines) refl
  ]

  events-append : (xs ys : List Yield) → events (xs ++ ys) ≡ events xs ++ events ys
  events-append [] ys = refl
  events-append (x ∷ xs) ys = ap (λ r. x.event ∷ r) (events-append xs ys)

  module _ (loop : ℕ → Tail → Reading) (w : World) (budget : ℕ) (t : Tail) (e : Entry)
      (rest : List Entry) (h : ℕ) (at : w.disk.names e.gen ≡ some h)
      (nonzero : budget == 0 ≡ false) where
    abbrev inode : Option ℤ
    inode = if h == 0 then none else some (pos h)

    stat_known : stat w.disk e.gen ≡ some (length (w.disk.contents h), inode)
    unfolding stat
    stat_known = rw (at, stat)

    drain_pass-past :
        leb (length (w.disk.contents h)) e.start ≡ true
        → drain_pass loads loop w budget t e rest ≡ loop budget (pop_entry rest t)
    unfolding drain_pass
    drain_pass-past past = rw (nonzero, stat_known, past, drain_pass)

    drain_pass-read :
        leb (length (w.disk.contents h)) e.start ≡ false
        → differs (inode_of (stat w.disk e.gen)) e.expected ≡ false
        → w.readable e.gen ≡ true
        → length (drop e.start (w.disk.contents h)) ≤ budget
        → budget ≤ read_chunk_bytes
        → let chunk = drop e.start (w.disk.contents h) in
          drain_pass loads loop w budget t e rest
          ≡ prepend
              (drain_lines loads e rest t e.start (round_lines true (split_lines chunk)))
              (loop (budget - length chunk) (pop_entry rest t))
    unfolding drain_pass
    drain_pass-read left same can fits small =
        let chunk = drop e.start (w.disk.contents h) in
        let known : differs inode e.expected ≡ false = rw stat_known at same in
        let ends : leb (length (w.disk.contents h)) (e.start + length chunk) ≡ true =
          le→leb _ _ (omega (arith, length-drop e.start (w.disk.contents h))) in
        rw
          (
            nonzero,
            stat_known,
            left,
            known,
            read_chunk-rest w e.gen e.start budget h at can fits small,
            ends,
            drain_pass,
          )
          (unfold drain_round next_entry in refl)

  drain_pass-whole :
      (loop : ℕ → Tail → Reading) (w : World) (budget : ℕ) (t : Tail) (e : Entry)
      (rest : List Entry)
      → IsIntact w (e ∷ rest)
      → length (unread w e) < budget
      → budget ≤ read_chunk_bytes
      → let next = loop (budget - length (unread w e)) (pop_entry rest t) in
        (events (drain_pass loads loop w budget t e rest).yields
          ≡ file_events (unread w e) ++ events next.yields)
        × ((drain_pass loads loop w budget t e rest).final ≡ next.final)
  drain_pass-whole loop w budget t e rest ((h, at), can, same, more) fits small =
      let b = w.disk.contents h in
      let nonzero : budget == 0 ≡ false = ground arith in
      let here : content w.disk e.gen ≡ b = rw (at, content) in
      let fits' : length (drop e.start b) < budget = rw here at fits in
      let all : budget - 0 ≡ budget = omega arith in
      elim (Bool-cases (leb (length b) e.start)) [
        | inl past ↦
            let nothing : drop e.start b ≡ [] = drop_all e.start b (leb→le _ _ past) in
            rw
              (
                here,
                nothing,
                drain_pass-past loop w budget t e rest h at nonzero past,
                file_events-nil,
                all,
              )
              (refl, refl)
        | inr left ↦
            rw
              (
                here,
                drain_pass-read loop w budget t e rest h at nonzero left same can (omega arith)
                    small,
              )
              (
                events-append (drain_lines loads e rest t e.start _) _
                    ∙ ap
                        (λ x.
                          x
                          ++ events
                              (loop (budget - length (drop e.start b)) (pop_entry rest t)).yields)
                        (events-drain_lines e rest t e.start _ ∙ file_events-round_lines _),
                refl,
              )
      ]

  drain_loop-covers :
      (fuel : ℕ) (w : World) (budget : ℕ) (t : Tail) (plan : List Entry)
      → t.drain_plan ≡ some plan
      → IsIntact w plan
      → total w plan < budget
      → budget ≤ read_chunk_bytes
      → length plan < fuel
      → (events (drain_loop loads fuel w budget t).yields ≡ plan_events w plan)
        × ((drain_loop loads fuel w budget t).final ≡ some (record t { drain_plan = none }))
  unfolding drain_loop
  drain_loop-covers zero w budget t plan at intact fits small enough = elim enough [ ]
  drain_loop-covers (suc fuel) w budget t [] at intact fits small enough =
      rw at (unfold end_drain in (refl, refl))
  drain_loop-covers (suc fuel) w budget t (e ∷ rest) at intact fits small enough =
      let u : Tail = pop_entry rest t in
      let (ys, end) =
        drain_pass-whole (drain_loop loads fuel w) w budget
          (record t { drain_plan = some (e ∷ rest) }) e rest intact (omega arith) small in
      let (zs, end') =
        drain_loop-covers fuel w (budget - length (unread w e)) u rest refl intact.3 (omega arith)
          (omega arith) (omega arith) in
      rw at (ys ∙ ap (λ x. file_events (unread w e) ++ x) zs, end ∙ end')

  -- A catch-up whose files are in place and that fits in one chunk reports every record of the
  -- plan, file by file in the order of the plan, also an unterminated last one, and ends the plan.
  pub drain_step-covers :
      (w : World) (t : Tail) (plan : List Entry)
      → t.drain_plan ≡ some plan
      → IsIntact w plan
      → total w plan < read_chunk_bytes
      → (events (drain_step loads w t).yields ≡ plan_events w plan)
        × ((drain_step loads w t).final ≡ some (record t { drain_plan = none }))
  unfolding drain_step
  drain_step-covers w t plan at intact fits = simp at (
      drain_loop-covers (length plan + 2) w read_chunk_bytes t plan at intact fits (omega arith)
        (omega arith))
