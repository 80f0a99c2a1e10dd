-- ===== src/Leases/Tests.antt =====
-- A lease that is taken, and another agent that asks for it too early.
use remote_host_mcp.Prelude.{ℕ, ◌≡◌, refl, true, false, none, some, List, [], ◌∷◌, arith}
use remote_host_mcp.Prelude.Text.{Text, codes, strip, lstrip}
use remote_host_mcp.Leases.{
  Lease, missing, holds, ok, Acquired, lease_acquire, validate_resource, acquire_checked,
  load_leases, find_lease,
}
use remote_host_mcp.Leases.Held.{asks, lists, is_acquired, after_calls, lease_held}

abbrev size : List Lease → ℕ
size ls = 100

abbrev id_a : Text
id_a = codes "aaaaaaaaaaaaaaaaaaaaaaaaaaaaaaaa"

abbrev entry : Lease
entry = record {
  lease_id = id_a;
  resource = codes "gpu";
  holder = some (codes "me");
  expires_at = 160;
  created_at = 100;
}

abbrev granted : Acquired
granted = record {
  acquired = true;
  resource = codes "gpu";
  lease_id = some id_a;
  holder = some (codes "me");
  expires_at = 160;
}

taken :
    lease_acquire size 99 100 id_a (codes " gpu") (some (codes "me")) 60 missing
    ≡ (ok granted, holds (entry ∷ []))
unfolding lease_acquire validate_resource acquire_checked load_leases find_lease strip lstrip
taken = refl

same_name : validate_resource (codes "gpu ") ≡ ok (codes "gpu")
unfolding validate_resource strip lstrip
same_name = refl

lease_held_example :
    is_acquired
      (lease_acquire size 159 160
        (codes "b")
        (codes "gpu ")
        none
        60
        (after_calls size (asks 120 (codes "gpu") ∷ lists 130 ∷ []) (holds (entry ∷ [])))).0
    ≡ false
lease_held_example =
    lease_held size 99 100 id_a (codes " gpu") (some (codes "me")) 60 missing (holds (entry ∷ []))
      granted (asks 120 (codes "gpu") ∷ lists 130 ∷ []) 159 160 (codes "b") (codes "gpu ") none 60
      taken refl refl same_name (omega arith)
