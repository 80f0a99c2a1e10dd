-- ===== src/Audit/Tests.antt =====
-- Inputs to which the theorems on the audit log apply.
use remote_host_mcp.Prelude.{
  suc, ◌*◌, ◌≤◌, ◌≡◌, refl, some, List, [], ◌∷◌, ◌++◌, arith, length, if◌then◌else◌,
}
use remote_host_mcp.Disk.{Bytes, content}
use remote_host_mcp.Audit.{Faults, record_event}
use remote_host_mcp.Audit.Rotation.{NoFaults}
use remote_host_mcp.Audit.Records.{IsConsistent, AllWell, log, is_due}
use remote_host_mcp.Audit.Retention.{
  survives, record_keeps_log, IsWithin, record_all, AllFit, log_bounded,
}
use remote_host_mcp.Samples.{sample_disk, sample_faults, sample_writer}

sample_faults-NoFaults : NoFaults sample_faults
sample_faults-NoFaults = record { opens = refl; unlinks = refl; renames = λ i. refl }

-- A line of two bytes, which takes the main file of seven past its budget of eight.
abbrev line : Bytes
line = 120 ∷ 10 ∷ []

sample_faults-AllWell : AllWell sample_faults line
sample_faults-AllWell = record { calls = sample_faults-NoFaults; stats = refl; whole = refl }

sample_writer-IsConsistent : IsConsistent sample_writer sample_disk
sample_writer-IsConsistent = record {
  on_main = λ h e. e;
  distinct = λ i j h p q. ground arith;
  allocated = λ i h p. ground arith;
}

record_keeps_log_example :
    log 2 (record_event sample_faults (some line) sample_writer sample_disk).2
    ≡ (if is_due (some 8) (length (content sample_disk 0)) (length line)
        then survives 2 sample_disk
        else log 2 sample_disk)
      ++ line
record_keeps_log_example =
    record_keeps_log sample_faults line sample_faults-AllWell sample_writer sample_disk refl
      sample_writer-IsConsistent

abbrev two_lines : List (Faults × Bytes)
two_lines = (sample_faults, line) ∷ (sample_faults, line) ∷ []

two_lines-AllFit : AllFit 8 two_lines
two_lines-AllFit = (sample_faults-AllWell, omega arith, (sample_faults-AllWell, omega arith, tt))

sample_disk-IsWithin : IsWithin 8 sample_disk
sample_disk-IsWithin i = ground arith

log_bounded_example : length (log 2 (record_all two_lines sample_writer sample_disk).1) ≤ suc 2 * 8
log_bounded_example =
    log_bounded 8 two_lines sample_writer sample_disk two_lines-AllFit refl refl
      sample_writer-IsConsistent sample_disk-IsWithin
