-- ===== src/Config/Bounds.antt =====
-- What the settings of src/remote_host_mcp/config.py guarantee to the parts of the server that use them.
use remote_host_mcp.Prelude.{◌≡◌, true, [], ◌∷◌, min, arith, if◌then◌else◌}
use remote_host_mcp.Prelude.Text.{Text, codes, text_eq, lower, strip}
use remote_host_mcp.HubSettings.{value}
use remote_host_mcp.HubSettings.Parsers.{member}
use remote_host_mcp.HubSettings.Bounds.{Holds, bind-Holds, Within, Among, Any, Any-Holds}
use remote_host_mcp.Config.Variables.{
  Read, Env, raw, read_bool, read_roots, is_host, drop_dots, text_or,
}
use remote_host_mcp.Config.{
  oauth_read, no_oauth, oauth, capability, key_fits, read_path_key, read_public_host, loopback,
  read_bind_host, exec_hard_max_ms, Settings, settings_from, from_env,
}
use remote_host_mcp.Config.Groups.{
  if-Holds, read_int-Within, read_choice-Among, IsExec, exec_settings-IsExec, AreFiles,
  file_settings-AreFiles, AreJobs, job_settings-AreJobs, AreTerminals,
  terminal_settings-AreTerminals,
}

-- What the server may rely on.
pub record IsSafe (s : Settings) : Type 0 where
  pub mode : Among (capability ∷ oauth ∷ []) s.auth_mode
  pub key : key_fits s.auth_mode s.path_key ≡ true
  pub host : is_host s.public_host ≡ true
  pub local : Among loopback s.bind_host
  pub port : Within 1024 65535 s.port
  pub default_timeout : Within 1000 s.max_timeout_ms s.default_timeout_ms
  pub max_timeout : Within 1000 exec_hard_max_ms s.max_timeout_ms
  pub exec : IsExec s.exec
  pub files : AreFiles s.files
  pub jobs : AreJobs s.jobs
  pub terminals : AreTerminals s.terminals
  pub body : Within 65536 8388608 s.max_request_body_bytes

read_path_key-fits :
    (read : Read) (mode : Text) → Holds (λ k. key_fits mode k ≡ true) (read_path_key read mode)
unfolding read_path_key
read_path_key-fits read mode =
    bind-Holds Any (λ k. key_fits mode k ≡ true) (read "PATH_KEY") _ (Any-Holds _)
      λ found h.
        if-Holds (λ k. key_fits mode k ≡ true) (key_fits mode (strip (text_or [] found))) _ _
          (λ e. e) (λ _. tt)

read_public_host-fits : (read : Read) → Holds (λ h. is_host h ≡ true) (read_public_host read)
unfolding read_public_host
read_public_host-fits read =
    bind-Holds Any (λ h. is_host h ≡ true) (read "PUBLIC_HOST") _ (Any-Holds _)
      λ found h.
        if-Holds (λ h. is_host h ≡ true) (is_host (drop_dots (lower (strip (text_or [] found))))) _
          _ (λ e. e) (λ _. tt)

read_bind_host-Among : (read : Read) → Holds (Among loopback) (read_bind_host read)
unfolding read_bind_host
read_bind_host-Among read =
    bind-Holds Any (Among loopback) (read "BIND_HOST") _ (Any-Holds _) λ found h.
      if-Holds (Among loopback) (member (strip (text_or (codes "127.0.0.1") found)) loopback) _ _
        (λ e. e) (λ _. tt)

-- Settings that come out of an environment have every number in its documented range, a default
-- timeout within the longest one and that within 90 seconds, a known mode with a path key that fits
-- it, a host name as the public host, and listen on the loopback interface only.
pub from_env-IsSafe :
    (resolve : Text → Text) (home : Text) (env : Env) → Holds IsSafe (from_env resolve home env)
unfolding from_env settings_from
from_env-IsSafe resolve home env =
    let read = raw env in
    bind-Holds (Among (capability ∷ oauth ∷ [])) IsSafe _ _
      (read_choice-Among read "AUTH_MODE" capability (capability ∷ oauth ∷ []))
      λ mode h1.
        bind-Holds (λ k. key_fits mode k ≡ true) IsSafe _ _ (read_path_key-fits read mode)
          λ key h2.
            bind-Holds (λ h. is_host h ≡ true) IsSafe _ _ (read_public_host-fits read)
              λ host h3.
                bind-Holds (Among loopback) IsSafe _ _ (read_bind_host-Among read) λ bind h4.
                  bind-Holds (Within 1000 300000) IsSafe _ _
                    (read_int-Within read "MAX_TIMEOUT_MS" exec_hard_max_ms 1000 300000)
                    λ most h5.
                      bind-Holds (Within 1000 (min most exec_hard_max_ms)) IsSafe _ _
                        (read_int-Within read "DEFAULT_TIMEOUT_MS" 30000 1000
                          (min most exec_hard_max_ms))
                        λ default h6.
                          bind-Holds Any IsSafe (read_roots resolve home read) _ (Any-Holds _)
                            λ roots h7.
                              bind-Holds Any IsSafe (read "STATE_DIR") _ (Any-Holds _) λ state h8.
                                bind-Holds Any IsSafe
                                  (if text_eq mode oauth
                                    then oauth_read read host
                                    else value no_oauth)
                                  _ (Any-Holds _)
                                  λ auth h9.
                                    bind-Holds (Within 1024 65535) IsSafe _ _
                                      (read_int-Within read "PORT" 8765 1024 65535)
                                      λ port h10.
                                        bind-Holds IsExec IsSafe _ _ (exec_settings-IsExec read)
                                          λ exec h11.
                                            bind-Holds AreFiles IsSafe _ _
                                              (file_settings-AreFiles read)
                                              λ files h12.
                                                bind-Holds AreJobs IsSafe _ _
                                                  (job_settings-AreJobs read)
                                                  λ jobs h13.
                                                    bind-Holds AreTerminals IsSafe _ _
                                                      (terminal_settings-AreTerminals read)
                                                      λ terminals h14.
                                                        bind-Holds Any IsSafe
                                                          (read_bool read "TASKS_EXTENSION" true) _
                                                          (Any-Holds _)
                                                          λ tasks h15.
                                                            bind-Holds Any IsSafe
                                                            (read_bool read "JSON_RESPONSE" true) _
                                                            (Any-Holds _)
                                                            λ json h16.
                                                            bind-Holds Any IsSafe
                                                            (read_bool read "STATELESS_HTTP" true) _
                                                            (Any-Holds _)
                                                            λ stateless h17.
                                                            bind-Holds (Within 65536 8388608) IsSafe
                                                            _ _
                                                            (read_int-Within read
                                                            "MAX_REQUEST_BODY_BYTES" 786432 65536
                                                            8388608)
                                                            λ body h18. record {
                                                            mode = h1;
                                                            key = h2;
                                                            host = h3;
                                                            local = h4;
                                                            port = h10;
                                                            default_timeout = h6;
                                                            max_timeout =
                                                            (omega (arith, h5), omega arith);
                                                            exec = h11;
                                                            files = h12;
                                                            jobs = h13;
                                                            terminals = h14;
                                                            body = h18;
                                                            }
