-- ===== src/HubSettings.antt =====
-- src/remote_host_mcp/hub_settings.py: the RHMCP_HUB_* variables.
pub mod Parsers
pub mod Bounds
pub mod Modes
mod Tests
use remote_host_mcp.Prelude.{
  ℕ, ◌*◌, String, Bool, true, false, not, ◌&&◌, ◌||◌, Option, none, some, List, [], ◌∷◌, leb, ltb,
  ◌==◌, if◌then◌else◌,
}
use remote_host_mcp.Prelude.Text.{Text, codes, text_eq, strip, lower}
use remote_host_mcp.Prelude.Int.{ℤ, pos, negsuc}
use remote_host_mcp.HubSettings.Parsers.{parse_int, is_https, rstrip_slash, starts_with, member}

-- The environment, by the part of a name behind RHMCP_HUB_.
abbrev pub Env : Type 0
Env = String → Option Text

-- A value, a HubConfigError about the named variable, or the ValueError of `urlparse`.
pub data Parsed (A : Type 0) : Type 0 where
  value : A → Parsed A
  config_error : String → Parsed A
  value_error : Parsed A

-- The rest of a constructor call, once one argument is evaluated.
abbrev pub ◌bind◌ : {A B : Type 0} → Parsed A → (A → Parsed B) → Parsed B
◌bind◌ (value a) k = k a
◌bind◌ (config_error name) k = config_error name
◌bind◌ value_error k = value_error

pub record HubSettings : Type 0 where
  pub base_url : Option Text
  pub host_id : Option Text
  pub agent_key : Option Text
  pub report_level : Text
  pub redact_enabled : Bool
  pub output_mode : Text
  pub report_enabled : Bool
  pub audit_enabled : Bool
  pub audit_log_path : Option Text
  pub audit_max_bytes : ℕ
  pub audit_keep_files : ℕ
  pub report_interval_seconds : ℕ
  pub report_batch_size : ℕ
  pub report_max_batch : ℕ
  pub heartbeat_seconds : ℕ

-- `stripped or None`
abbrev pub or_none : Text → Option Text
or_none [] = none
or_none (c ∷ s) = some (c ∷ s)

-- `_env`
unfoldable pub get_env : Env → String → Option Text
get_env env name = elim (env name) [ none ↦ none | some v ↦ or_none (strip v) ]

-- An invalid value: an error if strict, the default otherwise.
abbrev pub fall_back : {A : Type 0} → Bool → String → A → Parsed A
fall_back true name default = config_error name
fall_back false name default = value default

abbrev pub true_words : List Text
true_words = codes "1" ∷ codes "true" ∷ codes "yes" ∷ codes "on" ∷ []

abbrev pub false_words : List Text
false_words = codes "0" ∷ codes "false" ∷ codes "no" ∷ codes "off" ∷ []

-- `_env_bool`
unfoldable pub env_bool : Env → String → Bool → Bool → Parsed Bool
env_bool env name default strict = elim (get_env env name) [
  | none ↦ value default
  | some raw ↦
      let lowered = lower raw in
      if member lowered true_words
      then value true
      else if member lowered false_words
      then value false
      else fall_back strict name default
]

-- `minimum <= value <= maximum`
unfoldable pub in_range : ℕ → ℕ → ℤ → Option ℕ
in_range low high (pos n) = if leb low n && leb n high then some n else none
in_range low high (negsuc n) = none

-- `_env_int`
unfoldable pub env_int : Env → String → ℕ → ℕ → ℕ → Bool → Parsed ℕ
env_int env name default low high strict = elim (get_env env name) [
  | none ↦ value default
  | some raw ↦ elim (parse_int raw) [
    | none ↦ fall_back strict name default
    | some z ↦ elim (in_range low high z) [
      | none ↦ fall_back strict name default
      | some n ↦ value n
    ]
  ]
]

-- `_env_choice`
unfoldable pub env_choice : Env → String → Text → List Text → Bool → Parsed Text
env_choice env name default allowed strict = elim (get_env env name) [
  | none ↦ value default
  | some raw ↦
      let lowered = lower raw in
      if member lowered allowed then value lowered else fall_back strict name default
]

-- `_env_https_url`; `splits` tells whether `urlparse` returns
unfoldable pub env_https_url : (Text → Bool) → Env → String → Bool → Parsed (Option Text)
env_https_url splits env name strict = elim (get_env env name) [
  | none ↦ value none
  | some raw ↦
      if not (splits raw)
      then value_error
      else if is_https raw
      then value (some (rstrip_slash raw))
      else fall_back strict name none
]

-- The agent key in `from_env`: dropped, or an error, without its prefix.
unfoldable pub env_agent_key : Env → Bool → Parsed (Option Text)
env_agent_key env strict = elim (get_env env "AGENT_KEY") [
  | none ↦ value none
  | some key ↦
      if starts_with (codes "agt_") key then value (some key) else fall_back strict "AGENT_KEY" none
]

-- The log path in `from_env`. `resolve` expands and resolves a path, `none` if it is relative.
unfoldable pub env_log_path : (Text → Option Text) → Env → Bool → Parsed (Option Text)
env_log_path resolve env strict = elim (get_env env "AUDIT_LOG_PATH") [
  | none ↦ value none
  | some raw ↦ elim (resolve raw) [
    | some path ↦ value (some path)
    | none ↦ fall_back strict "AUDIT_LOG_PATH" none
  ]
]

abbrev pub report_levels : List Text
report_levels = codes "meta" ∷ codes "tool" ∷ codes "full" ∷ []

abbrev pub output_modes : List Text
output_modes = codes "r2" ∷ codes "local" ∷ codes "preview" ∷ []

-- `from_env`: the arguments are evaluated in order, and the first error leaves.
unfoldable pub from_env : (Text → Option Text) → (Text → Bool) → Env → Bool → Parsed HubSettings
from_env resolve splits env strict = ◌bind◌ (env_agent_key env strict) λ agent_key.
    ◌bind◌ (env_log_path resolve env strict) λ audit_log_path.
      ◌bind◌ (env_https_url splits env "BASE_URL" strict) λ base_url.
        ◌bind◌ (env_choice env "REPORT_LEVEL" (codes "tool") report_levels strict) λ report_level.
          ◌bind◌ (env_bool env "REDACT_ENABLED" true strict) λ redact_enabled.
            ◌bind◌ (env_choice env "OUTPUT_MODE" (codes "preview") output_modes strict)
              λ output_mode. ◌bind◌ (env_bool env "REPORT_ENABLED" true strict) λ report_enabled.
                ◌bind◌ (env_bool env "AUDIT_ENABLED" true strict) λ audit_enabled.
                  ◌bind◌
                    (env_int env "AUDIT_MAX_BYTES" (32 * 1024 * 1024) (64 * 1024)
                      (4 * 1024 * 1024 * 1024) strict)
                    λ audit_max_bytes.
                      ◌bind◌ (env_int env "AUDIT_KEEP_FILES" 3 0 100 strict) λ audit_keep_files.
                        ◌bind◌ (env_int env "REPORT_INTERVAL_SECONDS" 30 1 3600 strict)
                          λ report_interval_seconds.
                            ◌bind◌ (env_int env "REPORT_BATCH_SIZE" 50 1 200 strict)
                              λ report_batch_size.
                                ◌bind◌ (env_int env "REPORT_MAX_BATCH" 200 1 1000 strict)
                                  λ report_max_batch.
                                    ◌bind◌ (env_int env "HEARTBEAT_SECONDS" 60 5 86400 strict)
                                      λ heartbeat_seconds. value (record {
                                        base_url = base_url;
                                        host_id = get_env env "HOST_ID";
                                        agent_key = agent_key;
                                        report_level = report_level;
                                        redact_enabled = redact_enabled;
                                        output_mode = output_mode;
                                        report_enabled = report_enabled;
                                        audit_enabled = audit_enabled;
                                        audit_log_path = audit_log_path;
                                        audit_max_bytes = audit_max_bytes;
                                        audit_keep_files = audit_keep_files;
                                        report_interval_seconds = report_interval_seconds;
                                        report_batch_size = report_batch_size;
                                        report_max_batch = report_max_batch;
                                        heartbeat_seconds = heartbeat_seconds;
                                      })

abbrev pub present : Option Text → Bool
present none = false
present (some []) = false
present (some (c ∷ s)) = true

-- `configured`
unfoldable pub configured : HubSettings → Bool
configured s = present s.base_url && present s.agent_key && present s.host_id

-- `reporting_active`
unfoldable pub reporting_active : HubSettings → Bool
unfolding configured
reporting_active s = s.report_enabled && configured s
