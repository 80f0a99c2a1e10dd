-- ===== src/Tasks/Tests.antt =====
-- The states of tasks.
use remote_host_mcp.Prelude.{◌≡◌, refl, true, false}
use remote_host_mcp.Jobs.{live_state}
use remote_host_mcp.Tasks.{working, done, task_state}

-- A job that is lost counts as done, and as working again once it is asked to stop.
lost_works_again :
    (task_state (live_state true false false) ≡ done)
    × (task_state (live_state true false true) ≡ working)
unfolding task_state live_state
lost_works_again = (refl, refl)
