-- ===== src/Config/Tests.antt =====
-- Environments for the settings of src/remote_host_mcp/config.py.
use remote_host_mcp.Prelude.{◌≡◌, String, Option, none, some, if◌then◌else◌}
use text.Mathlib.Text.{◌==◌}
use remote_host_mcp.Prelude.Text.{Text, codes}
use remote_host_mcp.HubSettings.Bounds.{Holds}
use remote_host_mcp.Config.{from_env}
use remote_host_mcp.Config.Bounds.{IsSafe, from_env-IsSafe}
use remote_host_mcp.Config.Names.{with_canonical, with_legacy, with_both, from_env-renamed}

abbrev variables : String → Option Text
variables name =
    if name == "PATH_KEY"
    then some (codes "0123456789abcdef0123456789abcdef")
    else if name == "PUBLIC_HOST"
    then some (codes "Host.Example.org.")
    else if name == "MAX_TIMEOUT_MS"
    then some (codes "120000")
    else none

abbrev resolve : Text → Text
resolve path = path

from_env-IsSafe_example : Holds IsSafe (from_env resolve (codes "/root") (with_legacy variables))
from_env-IsSafe_example = from_env-IsSafe resolve (codes "/root") (with_legacy variables)

from_env-renamed_example :
    (from_env resolve (codes "/root") (with_legacy variables)
      ≡ from_env resolve (codes "/root") (with_canonical variables))
    × (from_env resolve (codes "/root") (with_both variables)
        ≡ from_env resolve (codes "/root") (with_canonical variables))
from_env-renamed_example = from_env-renamed resolve (codes "/root") variables
