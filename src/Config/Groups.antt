-- ===== src/Config/Groups.antt =====
-- The groups of settings of src/remote_host_mcp/config.py, and the variables they are read from.
use remote_host_mcp.Prelude.{
  ℕ, ◌≡◌, refl, String, Bool, true, false, none, some, List, Option-cases, inl, inr, if◌then◌else◌,
}
use remote_host_mcp.Prelude.Text.{Text, lower, strip}
use remote_host_mcp.HubSettings.{Parsed, value, config_error, in_range}
use remote_host_mcp.HubSettings.Parsers.{member}
use remote_host_mcp.HubSettings.Bounds.{
  Holds, bind-Holds, Within, in_range-Within, Among, Any, Any-Holds,
}
use remote_host_mcp.Config.Variables.{Read, int_of, read_int, read_bool, read_choice, text_or}
use remote_host_mcp.Config.{
  ExecSettings, exec_settings, FileSettings, file_settings, JobSettings, job_settings,
  TerminalSettings, terminal_settings,
}

-- What every value of a branch has, the whole has.
pub if-Holds :
    {A : Type 0} (P : A → Type 0) (b : Bool) (p q : Parsed A)
    → (b ≡ true → Holds P p)
    → (b ≡ false → Holds P q)
    → Holds P (if b then p else q)
if-Holds P true p q h k = h refl
if-Holds P false p q h k = k refl

pub range-Holds :
    (name : String) (low high : ℕ) (z : _)
    → Holds
        (Within low high)
        (elim (in_range low high z) [ none ↦ config_error name | some n ↦ value n ])
range-Holds name low high z = elim (Option-cases (in_range low high z)) [
  | inl e ↦ rw e tt
  | inr (n, e) ↦ rw e (in_range-Within low high n z e)
]

pub read_int-Within :
    (read : Read) (name : String) (default low high : ℕ)
    → Holds (Within low high) (read_int read name default low high)
unfolding read_int
read_int-Within read name default low high =
    bind-Holds Any (Within low high) (read name) _ (Any-Holds (read name)) λ found h.
      elim (Option-cases (int_of default found)) [
        | inl e ↦ rw e tt
        | inr (z, e) ↦ rw e (range-Holds name low high z)
      ]

pub read_choice-Among :
    (read : Read) (name : String) (default : Text) (allowed : List Text)
    → Holds (Among allowed) (read_choice read name default allowed)
unfolding read_choice
read_choice-Among read name default allowed =
    bind-Holds Any (Among allowed) (read name) _ (Any-Holds (read name)) λ found h.
      if-Holds (Among allowed) (member (lower (strip (text_or default found))) allowed) _ _ (λ e. e)
        (λ _. tt)

pub record IsExec (s : ExecSettings) : Type 0 where
  pub command : Within 1 32768 s.max_command_bytes
  pub output : Within 4096 2097152 s.max_output_bytes
  pub grace : Within 100 10000 s.kill_grace_ms

pub exec_settings-IsExec : (read : Read) → Holds IsExec (exec_settings read)
unfolding exec_settings
exec_settings-IsExec read =
    bind-Holds (Within 1 32768) IsExec _ _ (read_int-Within read "MAX_COMMAND_BYTES" 8192 1 32768)
      λ a h1.
        bind-Holds (Within 4096 2097152) IsExec _ _
          (read_int-Within read "MAX_OUTPUT_BYTES" 262144 4096 2097152)
          λ b h2.
            bind-Holds (Within 100 10000) IsExec _ _
              (read_int-Within read "KILL_GRACE_MS" 1500 100 10000)
              λ c h3. record { command = h1; output = h2; grace = h3 }

pub record AreFiles (s : FileSettings) : Type 0 where
  pub chunk : Within 16384 524288 s.max_file_chunk_bytes
  pub transfer : Within 1048576 109951162777 s.max_transfer_bytes
  pub lifetime : Within 60 86400 s.upload_ttl_seconds

pub file_settings-AreFiles : (read : Read) → Holds AreFiles (file_settings read)
unfolding file_settings
file_settings-AreFiles read =
    bind-Holds (Within 16384 524288) AreFiles _ _
      (read_int-Within read "MAX_FILE_CHUNK_BYTES" 262144 16384 524288)
      λ a h1.
        bind-Holds (Within 1048576 109951162777) AreFiles _ _
          (read_int-Within read "MAX_TRANSFER_BYTES" 2147483648 1048576 109951162777)
          λ b h2.
            bind-Holds (Within 60 86400) AreFiles _ _
              (read_int-Within read "UPLOAD_TTL_SECONDS" 3600 60 86400)
              λ c h3. record { chunk = h1; transfer = h2; lifetime = h3 }

pub record AreJobs (s : JobSettings) : Type 0 where
  pub active : Within 1 4096 s.max_jobs
  pub timeout : Within 60000 2592000000 s.job_max_timeout_ms
  pub log : Within 1048576 1073741824 s.job_log_max_bytes
  pub read : Within 4096 1048576 s.job_read_max_bytes
  pub retention : Within 3600 2592000 s.job_retention_seconds
  pub heartbeat : Within 1 60 s.job_heartbeat_seconds

pub job_settings-AreJobs : (read : Read) → Holds AreJobs (job_settings read)
unfolding job_settings
job_settings-AreJobs read =
    bind-Holds (Within 1 4096) AreJobs _ _ (read_int-Within read "MAX_JOBS" 256 1 4096) λ a h1.
      bind-Holds (Within 60000 2592000000) AreJobs _ _
        (read_int-Within read "JOB_MAX_TIMEOUT_MS" 604800000 60000 2592000000)
        λ b h2.
          bind-Holds (Within 1048576 1073741824) AreJobs _ _
            (read_int-Within read "JOB_LOG_MAX_BYTES" 67108864 1048576 1073741824)
            λ c h3.
              bind-Holds (Within 4096 1048576) AreJobs _ _
                (read_int-Within read "JOB_READ_MAX_BYTES" 131072 4096 1048576)
                λ d h4.
                  bind-Holds (Within 3600 2592000) AreJobs _ _
                    (read_int-Within read "JOB_RETENTION_SECONDS" 604800 3600 2592000)
                    λ e h5.
                      bind-Holds (Within 1 60) AreJobs _ _
                        (read_int-Within read "JOB_HEARTBEAT_SECONDS" 5 1 60)
                        λ f h6. record {
                          active = h1;
                          timeout = h2;
                          log = h3;
                          read = h4;
                          retention = h5;
                          heartbeat = h6;
                        }

pub record AreTerminals (s : TerminalSettings) : Type 0 where
  pub sessions : Within 1 128 s.terminal_max_sessions
  pub buffer : Within 65536 16777216 s.terminal_buffer_bytes
  pub read : Within 4096 1048576 s.terminal_read_max_bytes
  pub idle : Within 60 86400 s.terminal_idle_seconds
  pub lifetime : Within 300 604800 s.terminal_max_lifetime_seconds
  pub wait : Within 0 30000 s.terminal_wait_max_ms

pub terminal_settings-AreTerminals : (read : Read) → Holds AreTerminals (terminal_settings read)
unfolding terminal_settings
terminal_settings-AreTerminals read =
    bind-Holds (Within 1 128) AreTerminals _ _
      (read_int-Within read "TERMINAL_MAX_SESSIONS" 16 1 128)
      λ a h1.
        bind-Holds (Within 65536 16777216) AreTerminals _ _
          (read_int-Within read "TERMINAL_BUFFER_BYTES" 1048576 65536 16777216)
          λ b h2.
            bind-Holds (Within 4096 1048576) AreTerminals _ _
              (read_int-Within read "TERMINAL_READ_MAX_BYTES" 131072 4096 1048576)
              λ c h3.
                bind-Holds (Within 60 86400) AreTerminals _ _
                  (read_int-Within read "TERMINAL_IDLE_SECONDS" 1800 60 86400)
                  λ d h4.
                    bind-Holds (Within 300 604800) AreTerminals _ _
                      (read_int-Within read "TERMINAL_MAX_LIFETIME_SECONDS" 28800 300 604800)
                      λ e h5.
                        bind-Holds (Within 0 30000) AreTerminals _ _
                          (read_int-Within read "TERMINAL_WAIT_MAX_MS" 20000 0 30000)
                          λ f h6.
                            bind-Holds Any AreTerminals (read_bool read "TERMINAL_OSC133" true) _
                              (Any-Holds _)
                              λ g h7. record {
                                sessions = h1;
                                buffer = h2;
                                read = h3;
                                idle = h4;
                                lifetime = h5;
                                wait = h6;
                              }
