-- ===== src/Executor/Results.antt =====
-- What `run_shell` of src/remote_host_mcp/executor.py answers with, on every branch.
use remote_host_mcp.Prelude.{
  is_nil, or_else, ◌≢◌, ◌≤◌, ◌<◌, ap, ltb→lt, ◌∷◌, ℕ, zero, suc, ◌≡◌, ◌↔◌, ◌⊎◌, refl, true, false,
  not, ◌||◌, Option, none, some, List, [], arith, inl, inr, Bool-cases, Option-cases, length, ltb,
  min,
}
use remote_host_mcp.Prelude.Text.{has_nul, Text, strip}
use remote_host_mcp.Disk.{Bytes}
use remote_host_mcp.Redact.PathKey.{hide_key}
use remote_host_mcp.Prelude.Int.{ℤ, pos, negsuc, eq_ℤ}
use remote_host_mcp.Executor.{
  Piece, ErrorCode, invalid_cwd, invalid_command, invalid_timeout, timeout, exec_setup_failed,
  ExecResult, Limits, Run, Attempt, not_started, broken, ran, broken_run, finish_run, attempt_run,
  run_shell, run_cwd,
}
use remote_host_mcp.Executor.Budgets.{outs, errs, total, cut, drain-Keeps}

-- The answer for a run that went through: what the process did within the limit of time, and the
-- first bytes of its output.
pub record Tells (shown : Bytes → Text) (limit : ℕ) (r : Run) (x : ExecResult) : Type 0 where
  pub clean : (x.success ≡ true) ↔ ((r.in_time ≡ true) × (r.exit_code ≡ pos 0))
  pub late : x.timed_out ≡ not r.in_time
  pub named : (x.error ≡ some timeout) ↔ (r.in_time ≡ false)
  pub unnamed : (x.error ≡ none) ↔ (x.success ≡ true)
  pub code : x.exit_code ≡ some r.exit_code
  pub spared : r.in_time ≡ true → x.terminated_by ≡ none
  pub stdout : x.stdout ≡ shown (outs (cut limit r.pieces))
  pub stderr : x.stderr ≡ shown (errs (cut limit r.pieces))
  pub returned : x.output_bytes_returned ≡ min limit (total r.pieces)
  pub counted : x.output_bytes_total ≡ total r.pieces
  pub marked : x.truncated ≡ ltb limit (total r.pieces)

-- The answer for an attempt that broke off: an error without output, and how many bytes of the output
-- that was read would have been returned.
pub record BreaksOff (limit : ℕ) (pieces : List Piece) (x : ExecResult) : Type 0 where
  pub error : x.error ≡ some exec_setup_failed
  pub no_success : (x.success ≡ false) × (x.exit_code ≡ none) × (x.timed_out ≡ false)
  pub no_output : (x.stdout ≡ []) × (x.stderr ≡ [])
  pub returned : x.output_bytes_returned ≡ min limit (total pieces)
  pub counted : x.output_bytes_total ≡ total pieces

-- The answer for an attempt
abbrev pub Answers : (Bytes → Text) → ℕ → Attempt → ExecResult → Type 0
Answers shown limit not_started x = BreaksOff limit [] x
Answers shown limit (broken pieces) x = BreaksOff limit pieces x
Answers shown limit (ran r) x = Tells shown limit r x

-- Why nothing is run: the directory, the command or the limit of time.
pub data Refused (l : Limits) (dir : Option Text) (command : Text) (limit : ℕ)
    : Option ErrorCode → Type 0 where
  bad_dir : dir ≡ none → Refused l dir command limit (some invalid_cwd)
  no_text : strip command ≡ [] → Refused l dir command limit (some invalid_command)
  with_nul : has_nul command ≡ true → Refused l dir command limit (some invalid_command)
  too_long :
      l.max_command_bytes < length command → Refused l dir command limit (some invalid_command)
  too_short_a_time : limit < 1000 → Refused l dir command limit (some invalid_timeout)
  too_long_a_time : l.max_timeout_ms < limit → Refused l dir command limit (some invalid_timeout)

-- What an attempt is made with
pub record IsAdmitted (l : Limits) (dir : Option Text) (command : Text) (limit : ℕ) (cwd : Text)
    : Type 0 where
  pub place : dir ≡ some cwd
  pub text : strip command ≢ []
  pub whole : has_nul command ≡ false
  pub fits : length command ≤ l.max_command_bytes
  pub low : 1000 ≤ limit
  pub high : limit ≤ l.max_timeout_ms

is_nil_lem : (t : Text) → (is_nil t ≡ true) ↔ (t ≡ [])
is_nil_lem [] = ground arith
is_nil_lem (c ∷ t) = ground arith

text-Refused :
    (l : Limits) (dir : Option Text) (command : Text) (limit : ℕ)
    → (is_nil (strip command) || has_nul command || ltb l.max_command_bytes (length command)) ≡ true
    → Refused l dir command limit (some invalid_command)
text-Refused l dir command limit bad = elim (Bool-cases (is_nil (strip command))) [
  | inl e ↦ no_text ((is_nil_lem (strip command)).0 e)
  | inr e ↦ elim (Bool-cases (has_nul command)) [
    | inl n ↦ with_nul n
    | inr n ↦ too_long (ground (arith, bad, e, n))
  ]
]

time-Refused :
    (l : Limits) (dir : Option Text) (command : Text) (limit : ℕ)
    → (ltb limit 1000 || ltb l.max_timeout_ms limit) ≡ true
    → Refused l dir command limit (some invalid_timeout)
time-Refused l dir command limit bad = elim (Bool-cases (ltb limit 1000)) [
  | inl e ↦ too_short_a_time (ltb→lt _ _ e)
  | inr e ↦ too_long_a_time (ground (arith, bad, e))
]

admitted :
    (l : Limits) (command : Text) (limit : ℕ) (dir : Text)
    → (is_nil (strip command) || has_nul command || ltb l.max_command_bytes (length command))
      ≡ false
    → (ltb limit 1000 || ltb l.max_timeout_ms limit) ≡ false
    → IsAdmitted l (some dir) command limit dir
admitted l command limit dir good fine = record {
  place = refl;
  text = λ e. absurd (ground (arith, good, (is_nil_lem (strip command)).1 e));
  whole = ground (arith, good);
  fits = ground (arith, good);
  low = ground (arith, fine);
  high = ground (arith, fine);
}

eq_zero : (z : ℤ) → (eq_ℤ z (pos 0) ≡ true) ↔ (z ≡ pos 0)
eq_zero (pos zero) = ground arith
eq_zero (pos (suc n)) = ground arith
eq_zero (negsuc n) = ground arith

finish_run-Tells :
    (decode : Bytes → Text) (path_key : Text) (l : Limits) (cwd : Text) (r : Run)
    → Tells
        (λ b. hide_key path_key (decode b))
        l.max_output_bytes
        r
        (finish_run decode path_key l cwd r)
unfolding finish_run
finish_run-Tells decode path_key l cwd r =
    let k = drain-Keeps l.max_output_bytes r.pieces in
    let z = eq_zero r.exit_code in
    record {
      clean = ground (arith, z);
      late = refl;
      named = ground arith;
      unnamed = ground arith;
      code = refl;
      spared = λ h. ground (arith, h);
      stdout = ap (λ b. hide_key path_key (decode b)) k.stdout;
      stderr = ap (λ b. hide_key path_key (decode b)) k.stderr;
      returned = k.returned;
      counted = k.counted;
      marked = k.marked;
    }

broken_run-BreaksOff :
    (l : Limits) (cwd : Text) (pieces : List Piece)
    → BreaksOff l.max_output_bytes pieces (broken_run l cwd pieces)
unfolding broken_run
broken_run-BreaksOff l cwd pieces =
    let k = drain-Keeps l.max_output_bytes pieces in
    record {
      error = refl;
      no_success = (refl, refl, refl);
      no_output = (refl, refl);
      returned = k.returned;
      counted = k.counted;
    }

attempted :
    (decode : Bytes → Text) (path_key : Text) (l : Limits) (cwd : Text) (attempt : Attempt)
    → Answers
        (λ b. hide_key path_key (decode b))
        l.max_output_bytes
        attempt
        (attempt_run decode path_key l cwd attempt)
unfolding attempt_run
attempted decode path_key l cwd not_started = broken_run-BreaksOff l cwd []
attempted decode path_key l cwd (broken pieces) = broken_run-BreaksOff l cwd pieces
attempted decode path_key l cwd (ran r) = finish_run-Tells decode path_key l cwd r

attempt_run-cwd :
    (decode : Bytes → Text) (path_key : Text) (l : Limits) (cwd : Text) (attempt : Attempt)
    → (attempt_run decode path_key l cwd attempt).cwd ≡ cwd
unfolding attempt_run finish_run broken_run
attempt_run-cwd decode path_key l cwd not_started = refl
attempt_run-cwd decode path_key l cwd (broken pieces) = refl
attempt_run-cwd decode path_key l cwd (ran r) = refl

-- `run_shell` refuses a directory outside the allowed roots, a command that is blank, too long or has
-- a NUL, and a limit of time out of range, with the error of one that is at fault and with no output;
-- everything else is attempted, in the directory of the request, and the answer tells how that went.
-- A run is a success exactly when it ended in time with code 0, a timeout is named exactly when it did
-- not end in time, its output is the first bytes of both streams up to the limit, in their order,
-- decoded and with the key of the path taken out, and the counters and the mark of truncation are
-- exact; an attempt that breaks off is an error without output, whose counters are those of the output
-- that was read.
pub run_shell-Answers :
    (decode : Bytes → Text) (path_key : Text) (resolve : Option Text → Option Text)
    (here root : Text) (l : Limits) (command : Text) (timeout_ms : Option ℕ) (cwd : Option Text)
    (attempt : Attempt)
    → let x = run_shell decode path_key resolve here root l command timeout_ms cwd attempt in
      let dir = run_cwd resolve root cwd in
      let limit = or_else l.default_timeout_ms timeout_ms in
      (Refused l dir command limit x.error
        × (x.success ≡ false)
        × (x.stdout ≡ [])
        × (x.stderr ≡ [])
        × (x.output_bytes_total ≡ 0))
      ⊎ (IsAdmitted l dir command limit x.cwd
          × Answers (λ b. hide_key path_key (decode b)) l.max_output_bytes attempt x)
unfolding run_shell
run_shell-Answers decode path_key resolve here root l command timeout_ms cwd attempt =
    let limit = or_else l.default_timeout_ms timeout_ms in
    elim (Option-cases (run_cwd resolve root cwd)) [
      | inl e ↦ rw (e, run_shell) (inl (bad_dir refl, refl, refl, refl, refl))
      | inr (dir, e) ↦
          elim (Bool-cases (
            is_nil (strip command)
            || has_nul command
            || ltb l.max_command_bytes (length command))) [
              | inl bad ↦
                  rw (e, bad, run_shell)
                    (inl (text-Refused l (some dir) command limit bad, refl, refl, refl, refl))
              | inr good ↦ elim (Bool-cases (ltb limit 1000 || ltb l.max_timeout_ms limit)) [
                | inl late ↦
                    rw (e, good, late, run_shell)
                      (inl (time-Refused l (some dir) command limit late, refl, refl, refl, refl))
                | inr fine ↦
                    rw (e, good, fine, run_shell)
                      (inr (
                        rw (attempt_run-cwd decode path_key l dir attempt)
                            (admitted l command limit dir good fine),
                        attempted decode path_key l dir attempt,
                      ))
              ]
            ]
    ]
