-- ===== src/HubSettings/Tests.antt =====
-- An environment, and what is read from it.
use remote_host_mcp.Prelude.{◌≡◌, refl, Bool, Option, none, some, true, if◌then◌else◌}
use text.Mathlib.Text.{◌==◌}
use remote_host_mcp.Prelude.Text.{Text, codes}
use remote_host_mcp.Prelude.Int.{negsuc}
use remote_host_mcp.HubSettings.{Env}
use remote_host_mcp.HubSettings.Parsers.{parse_int, is_https}

abbrev sample_env : Env
sample_env name =
    if name == "REPORT_MAX_BATCH"
    then some (codes " 5000 ")
    else if name == "AGENT_KEY"
    then some (codes "agt_1")
    else none

-- Every path is relative.
abbrev no_path : Text → Option Text
no_path path = none

abbrev any_url : Text → Bool
any_url raw = true

parse_int_test : parse_int (codes "-1_0") ≡ some (negsuc 9)
unfolding parse_int
parse_int_test = refl

is_https_test : is_https (codes "HTTPS://hub.example#") ≡ true
unfolding is_https
is_https_test = refl
