-- ===== src/Redact.antt =====
-- src/remote_host_mcp/redact.py: secrets are cut out of an event before it leaves the host.
pub mod Rules
pub mod PathKey
use remote_host_mcp.Prelude.{
  ℕ, String, Bool, true, false, not, ◌&&◌, ◌||◌, Option, none, some, List, [], ◌∷◌, ◌++◌, map, leb,
  ◌==◌, if◌then◌else◌,
}
use remote_host_mcp.Prelude.Text.{Text, codes}
use remote_host_mcp.Prelude.Dict.{lookup, insert}
use remote_host_mcp.Json.{Json, str, Event}
use remote_host_mcp.Redact.Rules.{Rule, rules, sub}

-- The loop over `_RULES` in `redact_text`
unfoldable pub apply_rules : List Rule → Text → Text
apply_rules [] text = text
apply_rules (rule ∷ rest) text = apply_rules rest (sub rule text)

-- `redact_text`
unfoldable pub redact_text : Text → Text
unfolding apply_rules
redact_text [] = []
redact_text (c ∷ s) = apply_rules rules (c ∷ s)

-- `_REDACTABLE_FIELDS`
abbrev pub redactable_fields : List String
redactable_fields = "argsText" ∷ "outputPreview" ∷ "outputRef" ∷ []

-- One round of the loop in `redact_event`
unfoldable pub redact_field : String → Event → Event
redact_field f payload = elim (lookup f payload) [
  | some (str value) ↦ insert f (str (redact_text value)) payload
  | _ ↦ payload
]

-- The loop in `redact_event`
unfoldable pub redact_fields : List String → Event → Event
redact_fields [] payload = payload
redact_fields (f ∷ rest) payload = redact_fields rest (redact_field f payload)

-- `redact_event`
unfoldable pub redact_event : Bool → Event → Event
redact_event false event = event
redact_event true event = redact_fields redactable_fields event
