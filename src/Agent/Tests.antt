-- ===== src/Agent/Tests.antt =====
-- Runs of the agent on small inputs, and inputs to which its theorems apply.
use remote_host_mcp.Prelude.{
  ℕ, ◌≤◌, ◌≡◌, ◌≢◌, refl, true, false, ◌&&◌, none, some, List, [], ◌∷◌, arith, if◌then◌else◌,
}
use remote_host_mcp.Prelude.Text.{codes, strip, lstrip, lower}
use remote_host_mcp.Prelude.Dict.{lookup, insert, erase}
use remote_host_mcp.Json.{Event, str}
use remote_host_mcp.Hub.{unreachable, report, request, decode_body, report_ack, ack_ok, as_int}
use remote_host_mcp.Tail.{
  split_lines, add_char, read_new, read_current, read_known, read_main, main_lines, stat,
  was_rotated, position_after, parse_line, line_event, is_blank, Tail,
}
use remote_host_mcp.Redact.{
  redact_event, redact_fields, redact_field, redact_text, apply_rules, redactable_fields,
}
use remote_host_mcp.Redact.Rules.{
  rules, sub, sub_from, replacement, pem, bearer, key_value, prefix_key, openai_key, hex_blob,
}
use remote_host_mcp.Agent.{
  Agent, flush, returned, read_more, collect, should_flush, apply_config, choose, switch,
  level_change,
}
use remote_host_mcp.Agent.Events.{prepare_event, has_all, trim, without, required_fields}
use remote_host_mcp.Agent.Queued.{queue, IsQueueOf}
use remote_host_mcp.Agent.Replay.{Recoverable, flush-Recoverable}
use remote_host_mcp.Agent.Delivery.{Flushed, is_acked, is_broken, is_settled, answer, flush-Flushed}
use remote_host_mcp.Agent.Queue.{Collected, read_more-Collected}
use remote_host_mcp.Agent.PushedConfig.{IsKnown}
use remote_host_mcp.Agent.Payloads.{listed, hidden, scrub, prepare_event-fields}
use remote_host_mcp.Samples.{
  sample_loads, main_bytes, sample_world, sample_tail, sample_settings, sample_agent, good_hub,
  lost_hub,
}

-- The agent after it has read both records of the main file.
abbrev read_tail : Tail
read_tail = record sample_tail { read_offset = 6 }

abbrev busy_agent : Agent
busy_agent = record sample_agent {
  tail = read_tail;
  pending = queue sample_loads (codes "full") false 0 ((123 ∷ 97 ∷ []) ∷ (123 ∷ 98 ∷ []) ∷ []);
}

busy_agent-IsQueueOf :
    IsQueueOf sample_loads (codes "full") false main_bytes read_tail busy_agent.pending
unfolding split_lines add_char
busy_agent-IsQueueOf = record {
  read = (123 ∷ 97 ∷ []) ∷ (123 ∷ 98 ∷ []) ∷ [];
  later = [];
  lines = refl;
  reach = refl;
  queued = refl;
}

cons_not_nil : {A : Type 0} (x : A) (l : List A) → x ∷ l ≢ []
cons_not_nil x l = ground arith

busy_agent-busy : busy_agent.pending ≢ []
unfolding prepare_event has_all trim line_event parse_line is_blank redact_event lookup
busy_agent-busy = cons_not_nil _ _

good_hub-settles :
    is_settled (answer sample_loads good_hub unreachable unreachable sample_settings 0 busy_agent)
    ≡ true
unfolding report request decode_body report_ack ack_ok as_int lookup
good_hub-settles = refl

flush-Recoverable_example :
    Recoverable sample_loads
      (codes "full")
      false
      sample_world
      main_bytes
      (flush sample_loads good_hub unreachable unreachable sample_settings 0 7 busy_agent)
      (is_acked (answer sample_loads good_hub unreachable unreachable sample_settings 0 busy_agent))
flush-Recoverable_example =
    flush-Recoverable sample_loads (codes "full") false good_hub unreachable unreachable
      sample_settings 0 7 sample_world busy_agent 1 refl refl (omega arith) busy_agent-IsQueueOf
      busy_agent-busy (omega arith) good_hub-settles

lost_hub-whole :
    is_broken (answer sample_loads lost_hub unreachable unreachable sample_settings 0 busy_agent)
    ≡ false
unfolding report request
lost_hub-whole = refl

flush-Flushed_example :
    (b : Agent) × (flush sample_loads lost_hub unreachable unreachable sample_settings 0 7
        busy_agent
      ≡ returned
          (is_acked
            (answer sample_loads lost_hub unreachable unreachable sample_settings 0 busy_agent))
          b)
    × Flushed
        (is_settled
          (answer sample_loads lost_hub unreachable unreachable sample_settings 0 busy_agent))
        sample_settings
        7
        busy_agent
        b
flush-Flushed_example =
    flush-Flushed sample_loads lost_hub unreachable unreachable sample_settings 0 7 busy_agent
      busy_agent-busy (omega arith) lost_hub-whole

-- The clock of a cycle that is given a time.
abbrev still : ℕ → ℕ
still n = 90000

read_first : (read_new sample_loads sample_world sample_tail).final ≡ some read_tail
unfolding read_new read_current read_known read_main stat was_rotated split_lines add_char
    position_after
read_first = refl

read_more-Collected_example :
    Collected sample_agent
      (read_more sample_loads good_hub unreachable unreachable sample_world sample_agent).1
      (read_more sample_loads good_hub unreachable unreachable sample_world sample_agent).0
      (read_new sample_loads sample_world sample_tail).yields
      read_tail
read_more-Collected_example =
    read_more-Collected sample_loads good_hub unreachable unreachable sample_world sample_agent
      read_tail (omega arith) read_first

abbrev filled_agent : Agent
filled_agent = (read_more sample_loads good_hub unreachable unreachable sample_world sample_agent).1

filled_agent-due : filled_agent.next_attempt ≤ 90000
unfolding read_more collect read_new read_current read_known read_main main_lines stat was_rotated
    split_lines add_char position_after prepare_event has_all trim line_event parse_line is_blank
    redact_event lookup
filled_agent-due = omega arith

filled_agent-flushes : should_flush sample_settings 90000 filled_agent ≡ true
unfolding should_flush read_more collect read_new read_current read_known read_main main_lines stat
    was_rotated split_lines add_char position_after prepare_event has_all trim line_event parse_line
    is_blank redact_event lookup
filled_agent-flushes = refl

-- A configuration with one good and one unknown value.
abbrev sample_config : Event
sample_config = ("reportLevel", str (codes " META ")) ∷ ("outputMode", str (codes "tape")) ∷ []

sample_agent-IsKnown : IsKnown sample_agent
sample_agent-IsKnown = record { level = refl; mode = refl }

-- What that configuration does.
apply_config_test :
    (apply_config sample_config sample_agent).0 ≡ level_change (codes "full") (codes "meta") ∷ []
unfolding apply_config choose switch lookup strip lstrip lower
apply_config_test = refl

-- An event with a password among its arguments, and what a host with redaction sends of it.
abbrev sample_event : Event
sample_event =
    ("toolName", str (codes "run"))
    ∷ ("status", str (codes "ok"))
    ∷ ("startedAt", str (codes "now"))
    ∷ ("argsText", str (codes "password=hunter2hunter2"))
    ∷ []

abbrev sample_payload : Event
sample_payload =
    ("toolName", str (codes "run"))
    ∷ ("status", str (codes "ok"))
    ∷ ("startedAt", str (codes "now"))
    ∷ ("argsText", str (codes "password=[REDACTED]"))
    ∷ []

sample_event-prepared : prepare_event (codes "tool") true sample_event ≡ some sample_payload
unfolding prepare_event has_all trim without erase redact_event redact_fields redact_field
    redact_text apply_rules rules sub sub_from replacement pem bearer key_value prefix_key
    openai_key hex_blob lookup insert
sample_event-prepared = refl

prepare_event-fields_example :
    (has_all required_fields sample_event ≡ true)
    × (lookup "argsText" sample_payload ≡ (
        if listed "argsText" (hidden (codes "tool"))
        then none
        else if true && listed "argsText" redactable_fields
        then scrub (lookup "argsText" sample_event)
        else lookup "argsText" sample_event))
prepare_event-fields_example =
    prepare_event-fields (codes "tool") true "argsText" sample_event sample_payload
      sample_event-prepared
