-- ===== src/Tail/Ends.antt =====
-- The generators of the reader end: every loop is given enough rounds.
use remote_host_mcp.Prelude.{
  ℕ, zero, suc, ◌+◌, ◌-◌, ◌≤◌, ◌≡◌, refl, ◌≢◌, Option, none, some, List, [], ◌∷◌, min, drop, length,
  length-take, length-drop, arith, Option-cases, Bool-cases, inl, inr, ◌==◌, if◌then◌else◌,
}
use remote_host_mcp.Prelude.Int.{ℤ}
use remote_host_mcp.Json.{Json}
use remote_host_mcp.Disk.{Bytes}
use remote_host_mcp.Tail.{
  Entry, Tail, World, Reading, read_chunk_bytes, stat, read_chunk, split_lines, round_lines,
  drain_round, next_entry, drain_loop, drain_step, start_drain, drain_pass, pop_entry, move_entry,
  position_after, read_new, read_current, read_drained, read_resumed, read_known, ◌andthen◌,
}

-- A chunk that was read has the length that was asked for, as far as the file goes.
length-read_chunk :
    (w : World) (i start budget size : ℕ) {inode : Option ℤ} {chunk : Bytes}
    → budget ≤ read_chunk_bytes
    → stat w.disk i ≡ some (size, inode)
    → read_chunk w i start (min size (start + budget)) ≡ some chunk
    → length chunk ≡ min budget (size - start)
unfolding stat read_chunk
length-read_chunk w i start budget size {chunk = chunk} small known got =
    elim (Option-cases (w.disk.names i)) [
      | inl e ↦ ground arith
      | inr (h, e) ↦ ground (
        arith,
        length-take (min read_chunk_bytes (min size (start + budget) - start))
            (drop start (w.disk.contents h)),
        length-drop start (w.disk.contents h),
      )
    ]

-- The rounds that a drain may still take.
abbrev pub rounds : Option (List Entry) → ℕ → ℕ
rounds none budget = 1
rounds (some plan) budget = length plan + (if budget == 0 then 1 else 2)

module _ (loads : Bytes → Option Json) where
  drain_pass-ends :
      (loop : ℕ → Tail → Reading) (w : World) (budget : ℕ) (t : Tail) (e : Entry)
      (rest : List Entry)
      → budget ≤ read_chunk_bytes
      → ((b : ℕ) → b ≤ budget → (loop b (pop_entry rest t)).final ≢ none)
      → ((p : ℕ) → (loop 0 (move_entry e rest p t)).final ≢ none)
      → (drain_pass loads loop w budget t e rest).final ≢ none
  unfolding drain_pass drain_round next_entry round_lines
  drain_pass-ends loop w budget t e rest small popped moved =
      elim (Option-cases (stat w.disk e.gen)) [
        | inl gone ↦ ground (arith, popped budget)
        | inr ((size, inode), known) ↦
            elim (Option-cases (read_chunk w e.gen e.start (min size (e.start + budget)))) [
              | inl unread ↦ ground (arith, popped budget)
              | inr (chunk, got) ↦ ground (
                arith,
                popped budget,
                popped (budget - length chunk),
                moved (position_after e.start (split_lines chunk).0),
                length-read_chunk w e.gen e.start budget size {inode = inode} {chunk = chunk} small
                    known got,
              )
            ]
      ]

  drain_loop-ends :
      (fuel : ℕ) (w : World) (budget : ℕ) (t : Tail) (plan : Option (List Entry))
      → t.drain_plan ≡ plan
      → budget ≤ read_chunk_bytes
      → rounds plan budget ≤ fuel
      → (drain_loop loads fuel w budget t).final ≢ none
  unfolding drain_loop
  drain_loop-ends zero w budget t none at small enough = absurd (omega arith)
  drain_loop-ends zero w budget t (some plan) at small enough = absurd (ground arith)
  drain_loop-ends (suc fuel) w budget t none at small enough = ground arith
  drain_loop-ends (suc fuel) w budget t (some []) at small enough = ground arith
  drain_loop-ends (suc fuel) w budget t (some (e ∷ rest)) at small enough =
      rw at (elim (Bool-cases (budget == 0)) [
        | inl empty ↦ unfold drain_pass in ground arith
        | inr left ↦
            drain_pass-ends (drain_loop loads fuel w) w budget
              (record t { drain_plan = some (e ∷ rest) }) e rest small
              (λ b less.
                drain_loop-ends fuel w b (pop_entry rest t) (some rest) refl (omega arith)
                  (ground arith))
              (λ p.
                drain_loop-ends fuel w 0 (move_entry e rest p t)
                  (some (record e { start = p } ∷ rest)) refl (omega arith) (ground arith))
      ])

  -- A call of `_drain_step` comes to its end, whatever the plan and the directory.
  pub drain_step-ends : (w : World) (t : Tail) → (drain_step loads w t).final ≢ none
  unfolding drain_step
  drain_step-ends w t = elim (Option-cases t.drain_plan) [
    | inl e ↦ simp e (drain_loop-ends 1 w read_chunk_bytes t none e (omega arith) (omega arith))
    | inr (plan, e) ↦ simp e (
        drain_loop-ends (length plan + 2) w read_chunk_bytes t (some plan) e (omega arith)
          (omega arith))
  ]

  read_known-ends :
      (w : World) (size : ℕ) (inode : Option ℤ) (t : Tail)
      → (read_known loads w size inode t).final ≢ none
  unfolding read_known
  read_known-ends w size inode t = ground arith

  read_drained-ends : (w : World) (t : Tail) → (read_drained loads w t).final ≢ none
  unfolding read_drained
  read_drained-ends w t = elim (Option-cases (stat w.disk 0)) [
    | inl e ↦ ground arith
    | inr ((size, inode), e) ↦ ground (arith, read_known-ends w size inode t)
  ]

  andthen-ends :
      (r : Reading) (k : Tail → Reading)
      → r.final ≢ none
      → ((t : Tail) → (k t).final ≢ none)
      → (◌andthen◌ r k).final ≢ none
  andthen-ends r k h g = elim (Option-cases r.final) [
    | inl e ↦ absurd (h e)
    | inr (t, e) ↦ ground (arith, g t)
  ]

  read_current-ends : (w : World) (t : Tail) → (read_current loads w t).final ≢ none
  unfolding read_current
  read_current-ends w t = elim (Option-cases (stat w.disk 0)) [
    | inl e ↦ ground arith
    | inr ((size, inode), e) ↦ ground (
      arith,
      read_known-ends w size inode t,
      andthen-ends (drain_step loads w (start_drain w.disk t)) (read_drained loads w)
          (drain_step-ends w (start_drain w.disk t)) (read_drained-ends w),
    )
  ]

  read_resumed-ends : (w : World) (t : Tail) → (read_resumed loads w t).final ≢ none
  unfolding read_resumed
  read_resumed-ends w t = ground (arith, read_current-ends w t)

  -- A call of `read_new` comes to its end, whatever the state of the reader and of the directory:
  -- the rounds that the loop is given are always enough.
  pub read_new-ends : (w : World) (t : Tail) → (read_new loads w t).final ≢ none
  unfolding read_new
  read_new-ends w t = elim (Option-cases t.drain_plan) [
    | inl e ↦ ground (arith, read_current-ends w t)
    | inr (plan, e) ↦ ground (
      arith,
      andthen-ends (drain_step loads w t) (read_resumed loads w) (drain_step-ends w t)
          (read_resumed-ends w),
    )
  ]
