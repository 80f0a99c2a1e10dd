-- ===== src/Worker/Tests.antt =====
-- Small runs of the worker.
use remote_host_mcp.Prelude.{
  ◌≡◌, ◌≢◌, ◌↔◌, ◌⊎◌, refl, true, false, none, some, List, [], ◌∷◌, arith, take, length, ltb,
}
use remote_host_mcp.Prelude.Int.{pos, negsuc}
use remote_host_mcp.Disk.{Bytes}
use remote_host_mcp.Worker.{
  canceled, timed_out, completed, Look, Ending, Start, run_job, drain_stream,
}
use remote_host_mcp.Worker.Capture.{joined, drain_stream-eq}
use remote_host_mcp.Worker.Outcome.{AsksToCancel, IsLate, Reaches, run_job-status}

abbrev chunks : List Bytes
chunks = (1 ∷ 2 ∷ []) ∷ (3 ∷ 4 ∷ []) ∷ []

cons_not_nil : {A : Type 0} (x : A) (l : List A) → x ∷ l ≢ []
cons_not_nil x l = ground arith

drain_stream-eq_example :
    ((drain_stream 3 chunks).kept ≡ take 3 (joined chunks))
    × ((drain_stream 3 chunks).truncated ≡ ltb 3 (length (joined chunks)))
drain_stream-eq_example = drain_stream-eq 3 chunks (cons_not_nil _ _, (cons_not_nil _ _, tt))

abbrev clean_start : Start
clean_start = record { readable = true; marker = false; starts = true; at = 5 }

abbrev two_looks : List Look
two_looks =
    record { exited = false; marker = false; now = 6 }
    ∷ record { exited = false; marker = true; now = 7 }
    ∷ []

abbrev killed : Ending
killed = record {
  exited_at_kill = false;
  group_gone = false;
  in_grace = true;
  late = none;
  exit_code = negsuc 14;
  marker = true;
}

run_job-status_example :
    let r = run_job 100 (some 9) clean_start two_looks killed [] [] 8 in
    let late = Reaches (some 9) (IsLate (some 9)) two_looks in
    ((r.status ≡ canceled) ↔ (Reaches (some 9) AsksToCancel two_looks ⊎ (¬ late) × (true ≡ true)))
    × ((r.status ≡ timed_out) ↔ late)
    × (r.status ≡ completed → negsuc 14 ≡ pos 0)
run_job-status_example =
    run_job-status 100 (some 9) clean_start two_looks killed [] [] 8 refl refl refl
