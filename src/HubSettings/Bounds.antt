-- ===== src/HubSettings/Bounds.antt =====
-- What the settings guarantee to the server and the agent that use them, and how the strict and the
-- lenient reading of the variables relate.
use remote_host_mcp.Prelude.{
  ℕ, ◌*◌, ◌≤◌, ◌≡◌, refl, String, Bool, true, false, Option, none, some, List, arith, Option-cases,
  Bool-cases, inl, inr,
}
use remote_host_mcp.Prelude.Text.{Text, codes, lower}
use remote_host_mcp.Prelude.Int.{ℤ, pos, negsuc}
use remote_host_mcp.HubSettings.Parsers.{parse_int, starts_with, member}
use remote_host_mcp.HubSettings.{
  Env, Parsed, value, config_error, value_error, ◌bind◌, HubSettings, get_env, env_bool, in_range,
  env_int, env_choice, env_https_url, env_agent_key, env_log_path, fall_back, report_levels,
  output_modes, from_env,
}

-- A property of the value, if there is one.
abbrev pub Holds : {A : Type 0} → (A → Type 0) → Parsed A → Type 0
Holds P (value a) = P a
Holds P (config_error name) = Unit
Holds P value_error = Unit

pub bind-Holds :
    {A B : Type 0} (Q : A → Type 0) (P : B → Type 0) (p : Parsed A) (k : A → Parsed B)
    → Holds Q p
    → ((a : A) → Q a → Holds P (k a))
    → Holds P (◌bind◌ p k)
bind-Holds Q P (value a) k h g = g a h
bind-Holds Q P (config_error name) k h g = tt
bind-Holds Q P value_error k h g = tt

fall_back-Holds :
    {A : Type 0} (P : A → Type 0) (strict : Bool) (name : String) (default : A)
    → P default
    → Holds P (fall_back strict name default)
fall_back-Holds P true name default h = tt
fall_back-Holds P false name default h = h

abbrev pub Within : ℕ → ℕ → ℕ → Type 0
Within low high n = (low ≤ n) × (n ≤ high)

pub in_range-Within : (low high n : ℕ) (z : ℤ) → in_range low high z ≡ some n → Within low high n
unfolding in_range
in_range-Within low high n (pos m) h = ground arith
in_range-Within low high n (negsuc m) h = absurd (ground arith)

env_int-Within :
    (env : Env) (name : String) (default low high : ℕ) (strict : Bool)
    → Within low high default
    → Holds (Within low high) (env_int env name default low high strict)
unfolding env_int
env_int-Within env name default low high strict ok = elim (Option-cases (get_env env name)) [
  | inl e ↦ rw (e, env_int) ok
  | inr (raw, e) ↦ elim (Option-cases (parse_int raw)) [
    | inl f ↦ rw (e, f, env_int) (fall_back-Holds (Within low high) strict name default ok)
    | inr (z, f) ↦ elim (Option-cases (in_range low high z)) [
      | inl g ↦ rw (e, f, g, env_int) (fall_back-Holds (Within low high) strict name default ok)
      | inr (n, g) ↦ rw (e, f, g, env_int) (in_range-Within low high n z g)
    ]
  ]
]

-- The value is one of a list.
abbrev pub Among : List Text → Text → Type 0
Among allowed t = member t allowed ≡ true

env_choice-Among :
    (env : Env) (name : String) (default : Text) (allowed : List Text) (strict : Bool)
    → Among allowed default
    → Holds (Among allowed) (env_choice env name default allowed strict)
unfolding env_choice
env_choice-Among env name default allowed strict ok = elim (Option-cases (get_env env name)) [
  | inl e ↦ rw (e, env_choice) ok
  | inr (raw, e) ↦ elim (Bool-cases (member (lower raw) allowed)) [
    | inl f ↦ rw (e, f, env_choice) f
    | inr f ↦ rw (e, f, env_choice) (fall_back-Holds (Among allowed) strict name default ok)
  ]
]

-- The key is absent, or has its prefix.
abbrev pub HasPrefix : Option Text → Type 0
HasPrefix none = Unit
HasPrefix (some key) = starts_with (codes "agt_") key ≡ true

env_agent_key-HasPrefix : (env : Env) (strict : Bool) → Holds HasPrefix (env_agent_key env strict)
unfolding env_agent_key
env_agent_key-HasPrefix env strict = elim (Option-cases (get_env env "AGENT_KEY")) [
  | inl e ↦ rw (e, env_agent_key) tt
  | inr (key, e) ↦ elim (Bool-cases (starts_with (codes "agt_") key)) [
    | inl f ↦ rw (e, f, env_agent_key) f
    | inr f ↦ rw (e, f, env_agent_key) (fall_back-Holds HasPrefix strict "AGENT_KEY" none tt)
  ]
]

-- Any value will do.
abbrev pub Any : {A : Type 0} → A → Type 0
Any a = Unit

pub Any-Holds : {A : Type 0} (p : Parsed A) → Holds Any p
Any-Holds (value a) = tt
Any-Holds (config_error name) = tt
Any-Holds value_error = tt

-- What every user of the settings may rely on.
pub record IsValid (s : HubSettings) : Type 0 where
  pub key : HasPrefix s.agent_key
  pub level : Among report_levels s.report_level
  pub mode : Among output_modes s.output_mode
  pub max_bytes : Within (64 * 1024) (4 * 1024 * 1024 * 1024) s.audit_max_bytes
  pub keep_files : Within 0 100 s.audit_keep_files
  pub interval : Within 1 3600 s.report_interval_seconds
  pub batch_size : Within 1 200 s.report_batch_size
  pub max_batch : Within 1 1000 s.report_max_batch
  pub heartbeat : Within 5 86400 s.heartbeat_seconds

-- Whatever the environment holds, settings that come out of it, strict or not, have every number in
-- its documented range, a known report level and output mode, and no agent key without its prefix.
pub from_env-IsValid :
    (resolve : Text → Option Text) (splits : Text → Bool) (env : Env) (strict : Bool)
    → Holds IsValid (from_env resolve splits env strict)
unfolding from_env
from_env-IsValid resolve splits env strict =
    bind-Holds HasPrefix IsValid _ _ (env_agent_key-HasPrefix env strict) λ key h1.
      bind-Holds Any IsValid (env_log_path resolve env strict) _ (Any-Holds _) λ path h2.
        bind-Holds Any IsValid (env_https_url splits env "BASE_URL" strict) _ (Any-Holds _)
          λ url h3.
            bind-Holds (Among report_levels) IsValid _ _
              (env_choice-Among env "REPORT_LEVEL" (codes "tool") report_levels strict refl)
              λ level h4.
                bind-Holds Any IsValid (env_bool env "REDACT_ENABLED" true strict) _ (Any-Holds _)
                  λ redact h5.
                    bind-Holds (Among output_modes) IsValid _ _
                      (env_choice-Among env "OUTPUT_MODE" (codes "preview") output_modes strict
                        refl)
                      λ mode h6.
                        bind-Holds Any IsValid (env_bool env "REPORT_ENABLED" true strict) _
                          (Any-Holds _)
                          λ report h7.
                            bind-Holds Any IsValid (env_bool env "AUDIT_ENABLED" true strict) _
                              (Any-Holds _)
                              λ audit h8.
                                bind-Holds (Within (64 * 1024) (4 * 1024 * 1024 * 1024)) IsValid _ _
                                  (env_int-Within env "AUDIT_MAX_BYTES" (32 * 1024 * 1024)
                                    (64 * 1024) (4 * 1024 * 1024 * 1024) strict
                                    (omega arith, omega arith))
                                  λ bytes h9.
                                    bind-Holds (Within 0 100) IsValid _ _
                                      (env_int-Within env "AUDIT_KEEP_FILES" 3 0 100 strict
                                        (omega arith, omega arith))
                                      λ keep h10.
                                        bind-Holds (Within 1 3600) IsValid _ _
                                          (env_int-Within env "REPORT_INTERVAL_SECONDS" 30 1 3600
                                            strict (omega arith, omega arith))
                                          λ interval h11.
                                            bind-Holds (Within 1 200) IsValid _ _
                                              (env_int-Within env "REPORT_BATCH_SIZE" 50 1 200
                                                strict (omega arith, omega arith))
                                              λ size h12.
                                                bind-Holds (Within 1 1000) IsValid _ _
                                                  (env_int-Within env "REPORT_MAX_BATCH" 200 1 1000
                                                    strict (omega arith, omega arith))
                                                  λ batch h13.
                                                    bind-Holds (Within 5 86400) IsValid _ _
                                                      (env_int-Within env "HEARTBEAT_SECONDS" 60 5
                                                        86400 strict (omega arith, omega arith))
                                                      λ beat h14. record {
                                                        key = h1;
                                                        level = h4;
                                                        mode = h6;
                                                        max_bytes = h9;
                                                        keep_files = h10;
                                                        interval = h11;
                                                        batch_size = h12;
                                                        max_batch = h13;
                                                        heartbeat = h14;
                                                      }
