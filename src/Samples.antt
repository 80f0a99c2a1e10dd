-- ===== src/Samples.antt =====
-- Small concrete inputs for the tests.
use remote_host_mcp.Prelude.{
  ℕ, Bool, true, false, Option, none, some, List, [], ◌∷◌, ◌==◌, if◌then◌else◌,
}
use remote_host_mcp.Prelude.Text.{codes}
use remote_host_mcp.Prelude.Int.{pos}
use remote_host_mcp.Json.{Json, str, obj, field, end, Event}
use remote_host_mcp.Disk.{Bytes, Disk}
use remote_host_mcp.Tail.{Tail, World}
use remote_host_mcp.Hub.{Answer, body, unreachable}
use remote_host_mcp.Agent.{Settings, Agent}
use remote_host_mcp.Audit.{Faults, Writer}

-- A decoder that takes every line which begins with a brace for a call record.
abbrev pub sample_loads : Bytes → Option Json
sample_loads [] = none
sample_loads (c ∷ s) =
    if c == 123
    then some (
        obj (
          field "toolName" (str (codes "run")) (
            field "status" (str (codes "ok"))
              (field "startedAt" (str (codes "now")) (field "argsText" (str s) end)))))
    else none

-- `{a`, `{b` and the line of a call that is being written
abbrev pub main_bytes : Bytes
main_bytes = 123 ∷ 97 ∷ 10 ∷ 123 ∷ 98 ∷ 10 ∷ 123 ∷ []

abbrev pub rotated_bytes : Bytes
rotated_bytes = 123 ∷ 99 ∷ 10 ∷ 123 ∷ 100 ∷ []

abbrev pub sample_names : ℕ → Option ℕ
sample_names i = if i == 0 then some 1 else if i == 1 then some 2 else none

abbrev pub sample_contents : ℕ → Bytes
sample_contents h = if h == 1 then main_bytes else if h == 2 then rotated_bytes else []

-- A main file and one rotated generation.
abbrev pub sample_disk : Disk
sample_disk = record { names = sample_names; contents = sample_contents; fresh = 3 }

abbrev pub always : ℕ → Bool
always i = true

abbrev pub sample_world : World
sample_world = record { disk = sample_disk; readable = always }

-- A reader at the start of the main file.
abbrev pub sample_tail : Tail
sample_tail = record { offset = 0; inode = some (pos 1); read_offset = 0; drain_plan = none }

abbrev pub sample_settings : Settings
sample_settings = record {
  base_url = some (codes "https://hub.example");
  host_id = some (codes "h1");
  agent_key = some (codes "agt_1");
  report_level = codes "full";
  redact_enabled = false;
  output_mode = codes "preview";
  report_enabled = true;
  audit_enabled = true;
  audit_log_path = none;
  audit_max_bytes = 65536;
  audit_keep_files = 3;
  report_interval_seconds = 30;
  report_batch_size = 2;
  report_max_batch = 1;
  heartbeat_seconds = 60;
}

abbrev pub sample_agent : Agent
sample_agent = record {
  tail = sample_tail;
  cursor = none;
  pending = [];
  backoff = 0;
  next_attempt = 0;
  last_flush = 0;
  next_heartbeat = 0;
  dropped = 0;
  report_level = codes "full";
  redact_enabled = false;
  output_mode = codes "preview";
}

-- A Hub that acknowledges, and one that cannot be reached.
abbrev pub good_hub : ℕ → List Event → Answer
good_hub n events = body (123 ∷ [])

abbrev pub lost_hub : ℕ → List Event → Answer
lost_hub n events = unreachable

-- System calls that all go through, for a line of two bytes.
abbrev pub sample_faults : Faults
sample_faults = record {
  open_fails = false;
  stat_fails = false;
  unlink_fails = false;
  rename_fails = λ i. false;
  written = some 2;
}

abbrev pub sample_writer : Writer
sample_writer = record {
  enabled = true;
  max_bytes = some 8;
  keep_files = 2;
  handle = some 1;
  open_failed = false;
}
