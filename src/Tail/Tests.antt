-- ===== src/Tail/Tests.antt =====
-- Runs of the reader on small files, and inputs to which its theorems apply.
use remote_host_mcp.Prelude.{
  ℕ, ◌≡◌, refl, none, some, List, [], ◌∷◌, ◌++◌, arith, ◌==◌, if◌then◌else◌,
}
use remote_host_mcp.Prelude.Int.{pos}
use remote_host_mcp.Tail.{
  Tail, World, Entry, read_main, drain_step, split_lines, add_char, position_after, stat,
}
use remote_host_mcp.Tail.Main.{events, read_main-append}
use remote_host_mcp.Tail.Drain.{IsIntact, plan_events, drain_step-covers}
use remote_host_mcp.Samples.{
  sample_loads, main_bytes, sample_world, sample_tail, sample_disk, sample_contents, always,
}

-- The main file once the line has been written to its end.
abbrev grown_contents : ℕ → List ℕ
grown_contents h = if h == 1 then main_bytes ++ 101 ∷ 10 ∷ [] else sample_contents h

abbrev grown_world : World
grown_world = record { disk = record sample_disk { contents = grown_contents }; readable = always }

abbrev read_tail : Tail
read_tail = record sample_tail { read_offset = 6 }

first_read : (read_main sample_loads sample_world sample_tail).final ≡ some read_tail
unfolding read_main split_lines add_char position_after
first_read = refl

read_main-append_example :
    (events (read_main sample_loads sample_world sample_tail).yields
        ++ events (read_main sample_loads grown_world read_tail).yields
      ≡ events (read_main sample_loads grown_world sample_tail).yields)
    × ((read_main sample_loads grown_world read_tail).final
        ≡ (read_main sample_loads grown_world sample_tail).final)
read_main-append_example =
    read_main-append sample_loads sample_world grown_world sample_tail read_tail 1 (101 ∷ 10 ∷ [])
      refl refl refl refl refl (omega arith) (omega arith) first_read

abbrev sample_entry : Entry
sample_entry = record { gen = 1; start = 0; expected = some (pos 2) }

abbrev draining_tail : Tail
draining_tail = record sample_tail { drain_plan = some (sample_entry ∷ []) }

sample_plan-IsIntact : IsIntact sample_world (sample_entry ∷ [])
unfolding stat
sample_plan-IsIntact = ((2, refl), refl, refl, tt)

drain_step-covers_example :
    (events (drain_step sample_loads sample_world draining_tail).yields
      ≡ plan_events sample_loads sample_world (sample_entry ∷ []))
    × ((drain_step sample_loads sample_world draining_tail).final
        ≡ some (record draining_tail { drain_plan = none }))
drain_step-covers_example =
    drain_step-covers sample_loads sample_world draining_tail (sample_entry ∷ []) refl
      sample_plan-IsIntact (omega arith)
