-- ===== src/Tail.antt =====
-- `class AuditTail` of src/remote_host_mcp/report_agent.py: the reader of the audit log.
pub mod State
pub mod Ends
pub mod Lines
pub mod Main
pub mod Drain
pub mod Plan
pub mod Suffix
mod Tests
unfoldable pub use remote_host_mcp.Tail.State.*
use mathlib.Core.List.{reverse, filter_map}
use remote_host_mcp.Prelude.{
  ℕ, zero, suc, ◌+◌, ◌-◌, ◌*◌, Bool, true, false, not, ◌&&◌, ◌||◌, Option, none, some, List, [],
  ◌∷◌, ◌++◌, min, take, drop, length, ltb, leb, ◌==◌, if◌then◌else◌,
}
use remote_host_mcp.Prelude.Dict.{lookup}
use remote_host_mcp.Prelude.Int.{ℤ, pos, eq_ℤ}
use remote_host_mcp.Json.{Json, bool, int, obj, Event, to_dict}
use remote_host_mcp.Disk.{Bytes, Disk, exists}

-- `_read_chunk`
unfoldable pub read_chunk : World → ℕ → ℕ → ℕ → Option Bytes
read_chunk w i start limit = elim (w.disk.names i) [
  | none ↦ none
  | some h ↦
      if w.readable i
      then some (take (min read_chunk_bytes (limit - start)) (drop start (w.disk.contents h)))
      else none
]

-- One more byte in front of a split chunk.
unfoldable pub add_char : ℕ → List Bytes × Bytes → List Bytes × Bytes
add_char c ([], tail) = if c == 10 then ([] ∷ [], tail) else ([], c ∷ tail)
add_char c (l ∷ rest, tail) = if c == 10 then ([] ∷ l ∷ rest, tail) else ((c ∷ l) ∷ rest, tail)

-- `chunk.split(b"\n")`, the last element apart
unfoldable pub split_lines : Bytes → List Bytes × Bytes
split_lines [] = ([], [])
split_lines (c ∷ s) = add_char c (split_lines s)

-- `not line.strip()`
unfoldable pub is_blank : Bytes → Bool
is_blank [] = true
is_blank (c ∷ s) = (c == 32 || (leb 9 c && leb c 13)) && is_blank s

-- What a generator has given out: an offset, an event, and the reader as it stands at that yield,
-- which is where it stays if the caller takes no more.
pub record Yield : Type 0 where
  pub at : ℕ
  pub event : Event
  pub after : Tail

-- A run of a generator to its end; `none` says that the fuel ran out.
pub record Reading : Type 0 where
  pub yields : List Yield
  pub final : Option Tail

abbrev pub done : Tail → Reading
done t = record { yields = []; final = some t }

abbrev pub prepend : List Yield → Reading → Reading
prepend ys r = record r { yields = ys ++ r.yields }

-- `yield from`, and then the rest of the function.
abbrev pub ◌andthen◌ : Reading → (Tail → Reading) → Reading
◌andthen◌ r k = elim r.final [ none ↦ r | some t ↦ prepend r.yields (k t) ]

-- `plan.pop(0)`
abbrev pub pop_entry : List Entry → Tail → Tail
pop_entry rest t = record t { drain_plan = some rest }

-- `entry[1] = position`
abbrev pub move_entry : Entry → List Entry → ℕ → Tail → Tail
move_entry e rest position t = record t { drain_plan = some (record e { start = position } ∷ rest) }

-- The end of `_drain_step`: an empty plan is dropped.
unfoldable pub end_drain : Tail → Tail
end_drain t = elim t.drain_plan [
  | some [] ↦ record t { drain_plan = none }
  | some (_ ∷ _) ↦ t
  | none ↦ t
]

-- Position behind a run of lines.
unfoldable pub position_after : ℕ → List Bytes → ℕ
position_after position [] = position
position_after position (line ∷ rest) = position_after (position + length line + 1) rest

-- The plan's first entry after a round: gone, or moved behind the lines that were read.
unfoldable pub next_entry : Bool → Entry → List Entry → ℕ → Tail → Tail
next_entry true e rest position t = pop_entry rest t
next_entry false e rest position t = move_entry e rest position t

-- The lines of a round: an unterminated last line of a finished generation is one too.
unfoldable pub round_lines : Bool → List Bytes × Bytes → List Bytes
unfolding is_blank
round_lines false (lines, tail) = lines
round_lines true (lines, tail) = if is_blank tail then lines else lines ++ tail ∷ []

-- `json.loads` of a decoded line, `none` where it raises UnicodeDecodeError or JSONDecodeError. A log
-- with a line on which it raises anything else, such as the ValueError of a number with more than 4300
-- digits, is not modelled: the writer puts no such number into a line, since `json.dumps` has the same
-- limit.
module _ (loads : Bytes → Option Json) where
  -- `_parse_line`
  unfoldable pub parse_line : Bytes → Option Event
  parse_line line = elim (loads line) [ some (obj fields) ↦ some (to_dict fields) | _ ↦ none ]

  -- What a line gives: nothing if it is blank or malformed.
  unfoldable pub line_event : Bytes → Option Event
  unfolding parse_line is_blank
  line_event line = if is_blank line then none else parse_line line

  -- The loop over the lines in `_drain_step`.
  unfoldable pub drain_lines : Entry → List Entry → Tail → ℕ → List Bytes → List Yield
  drain_lines e rest t position [] = []
  drain_lines e rest t position (line ∷ lines) =
      let here = position + length line + 1 in
      let more = drain_lines e rest t here lines in
      elim (line_event line) [
        | none ↦ more
        | some event ↦ record { at = 0; event = event; after = move_entry e rest here t } ∷ more
      ]

  -- The loop over the lines in `_read_main`.
  unfoldable pub main_lines : Tail → ℕ → List Bytes → List Yield
  main_lines t position [] = []
  main_lines t position (line ∷ lines) =
      let here = position + length line + 1 in
      let more = main_lines t here lines in
      elim (line_event line) [
        | none ↦ more
        | some event ↦
            record { at = here; event = event; after = record t { read_offset = here } } ∷ more
      ]

  -- `_read_main`
  unfoldable pub read_main : World → Tail → Reading
  read_main w t = elim (w.disk.names 0) [
    | none ↦ done t
    | some h ↦
        if w.readable 0
        then (let chunk = take read_chunk_bytes (drop t.read_offset (w.disk.contents h)) in
            let lines = (split_lines chunk).0 in
            record {
              yields = main_lines t t.read_offset lines;
              final = some (record t { read_offset = position_after t.read_offset lines });
            })
        else done t
  ]

  -- One round of the loop in `_drain_step`, once a chunk is read: its yields and the next state.
  unfoldable pub drain_round : Entry → List Entry → Tail → Bytes → Bool → List Yield × Tail
  drain_round e rest t chunk final =
      let lines = round_lines final (split_lines chunk) in
      (drain_lines e rest t e.start lines, next_entry final e rest (position_after e.start lines) t)

  -- One pass through the loop of `_drain_step`, on the plan `e ∷ rest`; `loop` is the loop.
  unfoldable pub drain_pass : (ℕ → Tail → Reading) → World → ℕ → Tail → Entry → List Entry → Reading
  drain_pass loop w budget t e rest = if budget == 0 then done t else elim (stat w.disk e.gen) [
    | none ↦ loop budget (pop_entry rest t)
    | some (size, inode) ↦
        if leb size e.start
        then loop budget (pop_entry rest t)
        else if differs inode e.expected
        then done (start_drain w.disk t)
        else elim (read_chunk w e.gen e.start (min size (e.start + budget))) [
          | none ↦ loop budget (pop_entry rest t)
          | some chunk ↦
              let (ys, t') = drain_round e rest t chunk (leb size (e.start + length chunk)) in
              prepend ys (loop (budget - length chunk) t')
        ]
  ]

  -- The loop of `_drain_step`.
  unfoldable pub drain_loop : ℕ → World → ℕ → Tail → Reading
  unfolding drain_pass end_drain
  drain_loop zero w budget t = record { yields = []; final = none }
  drain_loop (suc fuel) w budget t = elim t.drain_plan [
    | none ↦ done t
    | some [] ↦ done (end_drain t)
    | some (e ∷ rest) ↦ drain_pass (drain_loop fuel w) w budget t e rest
  ]

  -- `_drain_step`: each round but the last drops an entry of the plan.
  unfoldable pub drain_step : World → Tail → Reading
  unfolding drain_loop
  drain_step w t =
      drain_loop (elim t.drain_plan [ none ↦ 1 | some plan ↦ length plan + 2 ]) w read_chunk_bytes t

  -- The end of `read_new`, on a main file that is the one the reader knows.
  unfoldable pub read_known : World → ℕ → Option ℤ → Tail → Reading
  unfolding read_main
  read_known w size inode t =
      let t' = record t { inode = inode } in
      if leb size t.read_offset then done t' else read_main w t'

  -- `read_new` behind a drain: nothing more while the plan is not empty.
  unfoldable pub read_drained : World → Tail → Reading
  unfolding stat read_known
  read_drained w t = elim t.drain_plan [
    | some _ ↦ done t
    | none ↦ elim (stat w.disk 0) [ none ↦ done t | some (size, inode) ↦ read_known w size inode t ]
  ]

  -- `read_new` from the test for a rotation on
  unfoldable pub read_current : World → Tail → Reading
  unfolding stat was_rotated start_drain drain_step read_drained read_known
  read_current w t = elim (stat w.disk 0) [
    | none ↦ done t
    | some (size, inode) ↦
        if was_rotated w.disk t size inode
        then ◌andthen◌ (drain_step w (start_drain w.disk t)) (read_drained w)
        else read_known w size inode t
  ]

  -- `read_new` behind the drain of an earlier plan
  unfoldable pub read_resumed : World → Tail → Reading
  unfolding read_current
  read_resumed w t = elim t.drain_plan [ none ↦ read_current w t | some _ ↦ done t ]

  -- `read_new`
  unfoldable pub read_new : World → Tail → Reading
  unfolding drain_step read_resumed
  read_new w t = elim t.drain_plan [
    | none ↦ read_current w t
    | some _ ↦ ◌andthen◌ (drain_step w t) (read_resumed w)
  ]
