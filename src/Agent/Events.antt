-- ===== src/Agent/Events.antt =====
-- `prepare_event` of src/remote_host_mcp/report_agent.py.
use remote_host_mcp.Prelude.{
  String, Bool, true, ◌&&◌, Option, none, some, List, [], ◌∷◌, ◌++◌, if◌then◌else◌,
}
use remote_host_mcp.Prelude.Text.{Text, codes, text_eq}
use remote_host_mcp.Prelude.Dict.{lookup, erase}
use remote_host_mcp.Json.{Event, truthy_or_absent}
use remote_host_mcp.Redact.{redact_event}

-- `_OUTPUT_FIELDS`
abbrev pub output_fields : List String
output_fields = "outputBytes" ∷ "outputPreview" ∷ "outputRef" ∷ []

-- `_ARG_FIELDS`
abbrev pub arg_fields : List String
arg_fields = "argsText" ∷ []

-- `_REQUIRED_FIELDS`
abbrev pub required_fields : List String
required_fields = "toolName" ∷ "status" ∷ "startedAt" ∷ []

-- Every field is there and not empty.
unfoldable pub has_all : List String → Event → Bool
has_all [] event = true
has_all (f ∷ rest) event = truthy_or_absent (lookup f event) && has_all rest event

-- The loops over fields to leave out
unfoldable pub without : List String → Event → Event
without [] event = event
without (f ∷ rest) event = without rest (erase f event)

-- What a report level leaves of an event.
unfoldable pub trim : Text → Event → Event
trim level event =
    if text_eq level (codes "meta")
    then without (arg_fields ++ output_fields) event
    else if text_eq level (codes "tool")
    then without output_fields event
    else event

-- `prepare_event`
unfoldable pub prepare_event : Text → Bool → Event → Option Event
prepare_event level redact event =
    if has_all required_fields event then some (redact_event redact (trim level event)) else none
