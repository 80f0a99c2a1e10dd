-- ===== src/Agent/State.antt =====
-- The state of `ReportAgent`, and how a method of it ends. Times are in milliseconds.
use remote_host_mcp.Prelude.{ℕ, ◌*◌, Bool, Option, none, some, List, [], if◌then◌else◌}
use remote_host_mcp.Prelude.Text.{Text}
use remote_host_mcp.Json.{Json, Event}
use remote_host_mcp.Tail.{Tail, Cursor, load_cursor, new_tail}
use remote_host_mcp.HubSettings.{HubSettings, configured}

abbrev pub second : ℕ
second = 1000

-- `MAX_BACKOFF_SECONDS`
abbrev pub max_backoff : ℕ
max_backoff = 300 * second

abbrev pub max_pending_events : ℕ
max_pending_events = 5000

abbrev pub Settings : Type 0
Settings = HubSettings

abbrev pub Pending : Type 0
Pending = List (ℕ × Event)

-- `cursor` is the cursor file, as far as this process has written it.
pub record Agent : Type 0 where
  pub tail : Tail
  pub cursor : Option Cursor
  pub pending : Pending
  pub backoff : ℕ
  pub next_attempt : ℕ
  pub last_flush : ℕ
  pub next_heartbeat : ℕ
  pub dropped : ℕ
  pub report_level : Text
  pub redact_enabled : Bool
  pub output_mode : Text

-- `__init__`
unfoldable pub new_agent : Settings → Tail → Agent
new_agent s tail = record {
  tail = tail;
  cursor = none;
  pending = [];
  backoff = 0;
  next_attempt = 0;
  last_flush = 0;
  next_heartbeat = 0;
  dropped = 0;
  report_level = s.report_level;
  redact_enabled = s.redact_enabled;
  output_mode = s.output_mode;
}

-- `build_agent`, on what the decoded cursor file says; `none` is the HubConfigError.
unfoldable pub build_agent : Settings → Option Json → Option Agent
build_agent s cursor =
    if configured s then some (new_agent s (new_tail (load_cursor cursor))) else none

-- A method's value, or the exception that leaves it, with the state it leaves.
pub data Reply : Type 0 where
  returned : Bool → Agent → Reply
  raised : Agent → Reply
