-- ===== src/Leases.antt =====
-- The leases of src/remote_host_mcp/agent_ops.py: named resources that one agent at a time may hold.
mod Tests
pub mod Held
use remote_host_mcp.Prelude.{
  is_nil, ℕ, ◌+◌, Bool, true, false, not, ◌&&◌, ◌||◌, Option, none, some, List, [], ◌∷◌, ◌++◌, map,
  length, leb, ltb, ◌==◌, if◌then◌else◌,
}
use remote_host_mcp.Prelude.Text.{has_nul, all_hex, Text, text_eq, strip}

-- One entry of registry.json.
pub record Lease : Type 0 where
  pub lease_id : Text
  pub resource : Text
  pub holder : Option Text
  pub expires_at : ℕ
  pub created_at : ℕ

-- registry.json: not there, not a readable list, or a list of entries.
pub data File : Type 0 where
  missing : File
  unreadable : File
  holds : List Lease → File

pub data Answer (A : Type 0) : Type 0 where
  ok : A → Answer A
  refused : Answer A

unfoldable pub unexpired : ℕ → List Lease → List Lease
unexpired now [] = []
unexpired now (l ∷ ls) =
    let rest = unexpired now ls in if ltb now l.expires_at then l ∷ rest else rest

unfoldable pub find_lease : Text → List Lease → Option Lease
find_lease r [] = none
find_lease r (l ∷ ls) = if text_eq l.resource r then some l else find_lease r ls

-- The entries with another id.
unfoldable pub without : Text → List Lease → List Lease
without id [] = []
without id (l ∷ ls) = let rest = without id ls in if text_eq l.lease_id id then rest else l ∷ rest

-- `_validate_resource`; texts are counted in bytes
unfoldable pub validate_resource : Text → Answer Text
validate_resource raw =
    let r = strip raw in if is_nil r || has_nul r || ltb 256 (length r) then refused else ok r

pub record Acquired : Type 0 where
  pub acquired : Bool
  pub resource : Text
  pub lease_id : Option Text
  pub holder : Option Text
  pub expires_at : ℕ

pub record LeaseStatus : Type 0 where
  pub active : Bool
  pub resource : Text
  pub holder : Option Text
  pub expires_at : Option ℕ

abbrev pub holder_ok : Option Text → Bool
holder_ok none = true
holder_ok (some h) = leb (length h) 128

-- The answer where somebody holds the resource.
abbrev pub held_by : Text → Lease → Acquired
held_by r l = record {
  acquired = false;
  resource = r;
  lease_id = none;
  holder = l.holder;
  expires_at = l.expires_at;
}

-- The answer of `lease_status`
abbrev pub status_of : Text → Option Lease → LeaseStatus
status_of r none = record { active = false; resource = r; holder = none; expires_at = none }
status_of r (some l) = record {
  active = true;
  resource = r;
  holder = l.holder;
  expires_at = some l.expires_at;
}

-- Texts in the order of `sorted`.
unfoldable pub text_leb : Text → Text → Bool
text_leb [] t = true
text_leb (c ∷ s) [] = false
text_leb (c ∷ s) (d ∷ t) = if ltb c d then true else c == d && text_leb s t

unfoldable pub insert_lease : Lease → List Lease → List Lease
unfolding text_leb
insert_lease l [] = l ∷ []
insert_lease l (k ∷ ks) =
    let later = insert_lease l ks in
    if text_leb l.resource k.resource then l ∷ k ∷ ks else k ∷ later

-- `sorted(leases, key=...)`, which keeps entries of one resource in their order
unfoldable pub sort_leases : List Lease → List Lease
unfolding insert_lease
sort_leases [] = []
sort_leases (l ∷ ls) = insert_lease l (sort_leases ls)

-- How many bytes the JSON text of a registry has.
module _ (json_size : List Lease → ℕ) where
  -- `_load_leases` at a time
  unfoldable pub load_leases : ℕ → File → Answer (List Lease)
  load_leases now missing = ok []
  load_leases now unreadable = refused
  load_leases now (holds ls) = if ltb 1048576 (json_size ls) then refused else ok (unexpired now ls)

  -- `lease_acquire` behind its checks: the times are those of the load and of the new entry, and the
  -- id is `secrets.token_hex(16)`
  unfoldable pub acquire_checked :
      ℕ → ℕ → Text → Text → Option Text → ℕ → File → Answer Acquired × File
  acquire_checked now later id r holder ttl file = elim (load_leases now file) [
    | refused ↦ (refused, file)
    | ok ls ↦ elim (find_lease r ls) [
      | some l ↦ (ok (held_by r l), holds ls)
      | none ↦
          let entry : Lease = record {
            lease_id = id;
            resource = r;
            holder = holder;
            expires_at = later + ttl;
            created_at = later;
          } in
          (
            ok (record {
              acquired = true;
              resource = r;
              lease_id = some id;
              holder = holder;
              expires_at = later + ttl;
            }),
            holds (ls ++ entry ∷ []),
          )
    ]
  ]

  -- `lease_acquire`
  unfoldable pub lease_acquire :
      ℕ → ℕ → Text → Text → Option Text → ℕ → File → Answer Acquired × File
  lease_acquire now later id raw holder ttl file = elim (validate_resource raw) [
    | refused ↦ (refused, file)
    | ok r ↦
        if holder_ok holder && leb 5 ttl && leb ttl 86400
        then acquire_checked now later id r holder ttl file
        else (refused, file)
  ]

  -- `lease_status`
  unfoldable pub lease_status : ℕ → Text → File → Answer LeaseStatus × File
  lease_status now raw file = elim (validate_resource raw) [
    | refused ↦ (refused, file)
    | ok r ↦ elim (load_leases now file) [
      | refused ↦ (refused, file)
      | ok ls ↦ (ok (status_of r (find_lease r ls)), holds ls)
    ]
  ]

  -- `lease_list`
  unfoldable pub lease_list : ℕ → File → Answer (List LeaseStatus) × File
  unfolding sort_leases
  lease_list now file = elim (load_leases now file) [
    | refused ↦ (refused, file)
    | ok ls ↦ (ok (map (λ l. status_of l.resource (some l)) (sort_leases ls)), holds ls)
  ]

  -- `lease_release`: whether an entry was removed
  unfoldable pub lease_release : ℕ → Text → File → Answer Bool × File
  lease_release now id file =
      if not (length id == 32 && all_hex id) then (refused, file) else elim (load_leases now file) [
        | refused ↦ (refused, file)
        | ok ls ↦ let rest = without id ls in (ok (not (length rest == length ls)), holds rest)
      ]
