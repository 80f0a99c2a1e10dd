-- ===== src/Ssh/Tests.antt =====
-- A host name and a user.
use remote_host_mcp.Prelude.{◌≡◌, refl, false, Option, none, some}
use remote_host_mcp.Prelude.Text.{Text, codes, strip, lstrip}
use remote_host_mcp.HubSettings.Parsers.{starts_with}
use remote_host_mcp.Ssh.{
  every, host_matches, user_matches, remote_path_matches, dotted, validate_host, validate_user,
  validate_remote_path, remote_spec,
}
use remote_host_mcp.Ssh.Spec.{read_spec, remote_spec-read}

abbrev no_address : Text → Option Text
no_address t = none

host_passes : validate_host no_address (codes " db.example.org") ≡ some (codes "db.example.org")
unfolding validate_host host_matches every strip lstrip starts_with
host_passes = refl

user_passes : validate_user (some (codes "root")) ≡ some (some (codes "root"))
unfolding validate_user user_matches every strip lstrip
user_passes = refl

dots_refused : validate_remote_path (codes "/srv/../etc") ≡ none
unfolding validate_remote_path remote_path_matches every dotted
dots_refused = refl

remote_spec-read_example :
    (read_spec (remote_spec (codes "db.example.org") (some (codes "root")) (codes "/a@b:c"))
      ≡ some (some (codes "root"), codes "db.example.org", codes "/a@b:c"))
    × (starts_with
          (codes "-")
          (remote_spec (codes "db.example.org") (some (codes "root")) (codes "/a@b:c"))
        ≡ false)
remote_spec-read_example =
    remote_spec-read no_address (codes " db.example.org") (codes "db.example.org") (codes "/a@b:c")
      (some (codes "root")) (some (codes "root")) refl host_passes user_passes
