-- ===== src/Config.antt =====
-- The settings of the server: `from_env` of src/remote_host_mcp/config.py.
pub mod Variables
pub mod Groups
pub mod Bounds
pub mod Names
mod Tests
use remote_host_mcp.Prelude.{
  ℕ, String, Bool, true, false, not, ◌&&◌, ◌||◌, Option, none, some, List, [], ◌∷◌, ◌++◌, is_nil,
  min, leb, if◌then◌else◌,
}
use remote_host_mcp.Prelude.Text.{Text, codes, text_eq, strip, lower}
use remote_host_mcp.HubSettings.{Parsed, value, config_error}
use remote_host_mcp.HubSettings.Parsers.{member, starts_with}
use remote_host_mcp.Config.Variables.{
  ◌>>=◌, Env, Read, raw, read_int, read_bool, read_choice, read_https_url, read_list, read_roots,
  is_path_key, is_host, drop_dots, text_or,
}

pub record ExecSettings : Type 0 where
  pub max_command_bytes : ℕ
  pub max_output_bytes : ℕ
  pub kill_grace_ms : ℕ

unfoldable pub exec_settings : Read → Parsed ExecSettings
unfolding read_int
exec_settings read = do
  max_command_bytes ← read_int read "MAX_COMMAND_BYTES" 8192 1 32768
  max_output_bytes ← read_int read "MAX_OUTPUT_BYTES" 262144 4096 2097152
  kill_grace_ms ← read_int read "KILL_GRACE_MS" 1500 100 10000
  value (record {
    max_command_bytes = max_command_bytes;
    max_output_bytes = max_output_bytes;
    kill_grace_ms = kill_grace_ms;
  })

pub record FileSettings : Type 0 where
  pub max_file_chunk_bytes : ℕ
  pub max_transfer_bytes : ℕ
  pub upload_ttl_seconds : ℕ

unfoldable pub file_settings : Read → Parsed FileSettings
unfolding read_int
file_settings read = do
  max_file_chunk_bytes ← read_int read "MAX_FILE_CHUNK_BYTES" 262144 16384 524288
  max_transfer_bytes ← read_int read "MAX_TRANSFER_BYTES" 2147483648 1048576 109951162777
  upload_ttl_seconds ← read_int read "UPLOAD_TTL_SECONDS" 3600 60 86400
  value (record {
    max_file_chunk_bytes = max_file_chunk_bytes;
    max_transfer_bytes = max_transfer_bytes;
    upload_ttl_seconds = upload_ttl_seconds;
  })

pub record JobSettings : Type 0 where
  pub max_jobs : ℕ
  pub job_max_timeout_ms : ℕ
  pub job_log_max_bytes : ℕ
  pub job_read_max_bytes : ℕ
  pub job_retention_seconds : ℕ
  pub job_heartbeat_seconds : ℕ

unfoldable pub job_settings : Read → Parsed JobSettings
unfolding read_int
job_settings read = do
  max_jobs ← read_int read "MAX_JOBS" 256 1 4096
  job_max_timeout_ms ← read_int read "JOB_MAX_TIMEOUT_MS" 604800000 60000 2592000000
  job_log_max_bytes ← read_int read "JOB_LOG_MAX_BYTES" 67108864 1048576 1073741824
  job_read_max_bytes ← read_int read "JOB_READ_MAX_BYTES" 131072 4096 1048576
  job_retention_seconds ← read_int read "JOB_RETENTION_SECONDS" 604800 3600 2592000
  job_heartbeat_seconds ← read_int read "JOB_HEARTBEAT_SECONDS" 5 1 60
  value (record {
    max_jobs = max_jobs;
    job_max_timeout_ms = job_max_timeout_ms;
    job_log_max_bytes = job_log_max_bytes;
    job_read_max_bytes = job_read_max_bytes;
    job_retention_seconds = job_retention_seconds;
    job_heartbeat_seconds = job_heartbeat_seconds;
  })

pub record TerminalSettings : Type 0 where
  pub terminal_max_sessions : ℕ
  pub terminal_buffer_bytes : ℕ
  pub terminal_read_max_bytes : ℕ
  pub terminal_idle_seconds : ℕ
  pub terminal_max_lifetime_seconds : ℕ
  pub terminal_wait_max_ms : ℕ
  pub terminal_osc133_enabled : Bool

unfoldable pub terminal_settings : Read → Parsed TerminalSettings
unfolding read_int read_bool
terminal_settings read = do
  terminal_max_sessions ← read_int read "TERMINAL_MAX_SESSIONS" 16 1 128
  terminal_buffer_bytes ← read_int read "TERMINAL_BUFFER_BYTES" 1048576 65536 16777216
  terminal_read_max_bytes ← read_int read "TERMINAL_READ_MAX_BYTES" 131072 4096 1048576
  terminal_idle_seconds ← read_int read "TERMINAL_IDLE_SECONDS" 1800 60 86400
  terminal_max_lifetime_seconds ← read_int read "TERMINAL_MAX_LIFETIME_SECONDS" 28800 300 604800
  terminal_wait_max_ms ← read_int read "TERMINAL_WAIT_MAX_MS" 20000 0 30000
  terminal_osc133_enabled ← read_bool read "TERMINAL_OSC133" true
  value (record {
    terminal_max_sessions = terminal_max_sessions;
    terminal_buffer_bytes = terminal_buffer_bytes;
    terminal_read_max_bytes = terminal_read_max_bytes;
    terminal_idle_seconds = terminal_idle_seconds;
    terminal_max_lifetime_seconds = terminal_max_lifetime_seconds;
    terminal_wait_max_ms = terminal_wait_max_ms;
    terminal_osc133_enabled = terminal_osc133_enabled;
  })

pub record OauthSettings : Type 0 where
  pub oauth_issuer : Option Text
  pub oauth_jwks_url : Option Text
  pub oauth_audience : Option Text
  pub oauth_scopes : List Text
  pub oauth_algorithms : List Text

abbrev pub known_algorithms : List Text
known_algorithms = codes "RS256" ∷ codes "PS256" ∷ codes "ES256" ∷ []

abbrev pub all_known : List Text → Bool
all_known [] = true
all_known (a ∷ as') = member a known_algorithms && all_known as'

-- The settings of OAuth, where they are read
unfoldable pub oauth_read : Read → Text → Parsed OauthSettings
unfolding read_https_url read_list
oauth_read read public_host = do
  issuer ← read_https_url read "OAUTH_ISSUER" []
  jwks_url ← read_https_url read "OAUTH_JWKS_URL" []
  audience ← read_https_url read "OAUTH_AUDIENCE" (codes "https://" ++ public_host ++ codes "/mcp")
  scopes ← read_list read "OAUTH_SCOPES" (codes "remote-host")
  algorithms ← read_list read "OAUTH_ALGORITHMS" (codes "RS256")
  if all_known algorithms
      then value (record {
        oauth_issuer = some issuer;
        oauth_jwks_url = some jwks_url;
        oauth_audience = some audience;
        oauth_scopes = scopes;
        oauth_algorithms = algorithms;
      })
      else config_error "OAUTH_ALGORITHMS"

abbrev pub no_oauth : OauthSettings
no_oauth = record {
  oauth_issuer = none;
  oauth_jwks_url = none;
  oauth_audience = none;
  oauth_scopes = codes "remote-host" ∷ [];
  oauth_algorithms = codes "RS256" ∷ [];
}

abbrev pub oauth : Text
oauth = codes "oauth"

abbrev pub capability : Text
capability = codes "capability"

-- The path key that fits the mode
unfoldable pub key_fits : Text → Text → Bool
unfolding is_path_key
key_fits auth_mode key =
    if text_eq auth_mode capability
    then is_path_key key && not (starts_with (codes "REPLACE_") key)
    else is_nil key || is_path_key key

unfoldable pub read_path_key : Read → Text → Parsed Text
unfolding key_fits
read_path_key read auth_mode = do
  found ← read "PATH_KEY"
  let key = strip (text_or [] found)
  if key_fits auth_mode key then value key else config_error "PATH_KEY"

unfoldable pub read_public_host : Read → Parsed Text
unfolding is_host drop_dots
read_public_host read = do
  found ← read "PUBLIC_HOST"
  let host = drop_dots (lower (strip (text_or [] found)))
  if is_host host then value host else config_error "PUBLIC_HOST"

abbrev pub loopback : List Text
loopback = codes "127.0.0.1" ∷ codes "localhost" ∷ codes "::1" ∷ []

unfoldable pub read_bind_host : Read → Parsed Text
read_bind_host read = do
  found ← read "BIND_HOST"
  let host = strip (text_or (codes "127.0.0.1") found)
  if member host loopback then value host else config_error "BIND_HOST"

abbrev pub exec_hard_max_ms : ℕ
exec_hard_max_ms = 90000

pub record Settings : Type 0 where
  pub path_key : Text
  pub public_host : Text
  pub bind_host : Text
  pub port : ℕ
  pub default_timeout_ms : ℕ
  pub max_timeout_ms : ℕ
  pub exec : ExecSettings
  pub allowed_roots : List Text
  pub state_dir : Text
  pub files : FileSettings
  pub jobs : JobSettings
  pub terminals : TerminalSettings
  pub tasks_extension_enabled : Bool
  pub auth_mode : Text
  pub oauth_settings : OauthSettings
  pub json_response : Bool
  pub stateless_http : Bool
  pub max_request_body_bytes : ℕ

-- `from_env` over a reader: `resolve` expands and resolves a path, and `home` is the home directory.
-- The variables are read in the order of the code.
unfoldable pub settings_from : (Text → Text) → Text → Read → Parsed Settings
unfolding read_choice read_path_key read_public_host read_bind_host read_int read_roots oauth_read
    exec_settings file_settings job_settings terminal_settings read_bool
settings_from resolve home read = do
  auth_mode ← read_choice read "AUTH_MODE" capability (capability ∷ oauth ∷ [])
  path_key ← read_path_key read auth_mode
  public_host ← read_public_host read
  bind_host ← read_bind_host read
  configured ← read_int read "MAX_TIMEOUT_MS" exec_hard_max_ms 1000 300000
  let max_timeout_ms = min configured exec_hard_max_ms
  default_timeout_ms ← read_int read "DEFAULT_TIMEOUT_MS" 30000 1000 max_timeout_ms
  allowed_roots ← read_roots resolve home read
  state_found ← read "STATE_DIR"
  let state_dir =
      resolve (strip (text_or (home ++ codes "/.local/state/remote-host-mcp") state_found))
  oauth_settings ← if text_eq auth_mode oauth then oauth_read read public_host else value no_oauth
  port ← read_int read "PORT" 8765 1024 65535
  exec ← exec_settings read
  files ← file_settings read
  jobs ← job_settings read
  terminals ← terminal_settings read
  tasks_extension_enabled ← read_bool read "TASKS_EXTENSION" true
  json_response ← read_bool read "JSON_RESPONSE" true
  stateless_http ← read_bool read "STATELESS_HTTP" true
  max_request_body_bytes ← read_int read "MAX_REQUEST_BODY_BYTES" 786432 65536 8388608
  value (record {
    path_key = path_key;
    public_host = public_host;
    bind_host = bind_host;
    port = port;
    default_timeout_ms = default_timeout_ms;
    max_timeout_ms = max_timeout_ms;
    exec = exec;
    allowed_roots = allowed_roots;
    state_dir = state_dir;
    files = files;
    jobs = jobs;
    terminals = terminals;
    tasks_extension_enabled = tasks_extension_enabled;
    auth_mode = auth_mode;
    oauth_settings = oauth_settings;
    json_response = json_response;
    stateless_http = stateless_http;
    max_request_body_bytes = max_request_body_bytes;
  })

-- `from_env`
unfoldable pub from_env : (Text → Text) → Text → Env → Parsed Settings
unfolding settings_from raw
from_env resolve home env = settings_from resolve home (raw env)

-- `mcp_path`
unfoldable pub mcp_path : Settings → Text
mcp_path s = if text_eq s.auth_mode oauth then codes "/mcp" else codes "/mcp/" ++ s.path_key

-- `public_url` and `redacted_public_url`
unfoldable pub public_url : Settings → Text
unfolding mcp_path
public_url s = codes "https://" ++ s.public_host ++ mcp_path s

unfoldable pub redacted_public_url : Settings → Text
unfolding public_url
redacted_public_url s =
    if text_eq s.auth_mode oauth
    then public_url s
    else codes "https://" ++ s.public_host ++ codes "/mcp/[REDACTED]"
