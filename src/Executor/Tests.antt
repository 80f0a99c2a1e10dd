-- ===== src/Executor/Tests.antt =====
-- Two streams that share a small budget, and a command that runs.
use remote_host_mcp.Prelude.{◌≡◌, ◌⊎◌, true, false, Option, none, some, List, [], ◌∷◌}
use remote_host_mcp.Prelude.Text.{Text, codes}
use remote_host_mcp.Prelude.Int.{pos}
use remote_host_mcp.Executor.{Piece, out, err, drain, Limits, Run, ran, run_shell, run_cwd}
use remote_host_mcp.Disk.{Bytes}
use remote_host_mcp.Redact.PathKey.{hide_key}
use remote_host_mcp.Executor.Budgets.{Keeps, drain-Keeps}
use remote_host_mcp.Executor.Results.{Refused, IsAdmitted, Answers, run_shell-Answers}

abbrev pieces : List Piece
pieces = out (codes "abc") ∷ err (codes "de") ∷ out (codes "fg") ∷ []

drain-Keeps_example : Keeps 4 pieces (drain 4 pieces)
drain-Keeps_example = drain-Keeps 4 pieces

abbrev limits : Limits
limits = record {
  max_command_bytes = 100;
  default_timeout_ms = 5000;
  max_timeout_ms = 90000;
  max_output_bytes = 4;
}

abbrev timed : Run
timed = record {
  pieces = pieces;
  in_time = false;
  ending = record { returned = none; group_there = true; in_grace = true; group_left = false };
  exit_code = pos 1;
}

abbrev same_dir : Option Text → Option Text
same_dir cwd = cwd

-- The bytes as they are
abbrev plain_text : Bytes → Text
plain_text b = b

run_shell-Answers_example :
    let x =
      run_shell plain_text
        (codes "bc")
        same_dir
        (codes "/")
        (codes "/srv")
        limits
        (codes "ls")
        none
        (some (codes "/srv"))
        (ran timed) in
    (Refused limits
        (run_cwd same_dir (codes "/srv") (some (codes "/srv")))
        (codes "ls")
        5000
        x.error
      × (x.success ≡ false)
      × (x.stdout ≡ [])
      × (x.stderr ≡ [])
      × (x.output_bytes_total ≡ 0))
    ⊎ (IsAdmitted limits
          (run_cwd same_dir (codes "/srv") (some (codes "/srv")))
          (codes "ls")
          5000
          x.cwd
        × Answers (λ b. hide_key (codes "bc") (plain_text b)) 4 (ran timed) x)
run_shell-Answers_example =
    run_shell-Answers plain_text (codes "bc") same_dir (codes "/") (codes "/srv") limits
      (codes "ls") none (some (codes "/srv")) (ran timed)
