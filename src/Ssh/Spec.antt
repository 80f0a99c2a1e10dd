-- ===== src/Ssh/Spec.antt =====
-- What `_remote_spec` of src/remote_host_mcp/ssh_helpers.py names.
use remote_host_mcp.Prelude.{
  ℕ, ◌≡◌, refl, ap, ◌∙◌, true, false, ◌||◌, Option, none, some, [], ◌∷◌, ◌++◌, ◌==◌, is_nil, arith,
  append_assoc,
}
use mathlib.Core.Path.{ap₂, subst}
use remote_host_mcp.Prelude.Text.{
  Text, codes, strip, has, split_once, split_once-first, split_once-none, has-append,
}
use remote_host_mcp.HubSettings.Parsers.{starts_with}
use remote_host_mcp.Ssh.{
  is_name_char, every, host_matches, user_matches, validate_host, validate_user, remote_spec,
}

-- How a client reads the argument: the path stands behind the first colon, and the user before the
-- first at sign of the rest.
unfoldable pub read_spec : Text → Option (Option Text × Text × Text)
read_spec t = elim (split_once 58 t) [
  | none ↦ none
  | some (place, path) ↦ elim (split_once 64 place) [
    | none ↦ some (none, place, path)
    | some (user, host) ↦ some (some user, host, path)
  ]
]

-- A name of a host or a user, as both patterns demand.
record IsName (t : Text) : Type 0 where
  no_colon : has 58 t ≡ false
  no_at : has 64 t ≡ false
  no_dash : (rest : Text) → starts_with (codes "-") (t ++ rest) ≡ false
  not_empty : is_nil t ≡ false

every-has :
    (c : ℕ) (t : Text) → is_name_char c ≡ false → every is_name_char t ≡ true → has c t ≡ false
unfolding every has
every-has c [] n h = refl
every-has c (d ∷ t) n h =
    let rest : every is_name_char t ≡ true = ground (arith, h) in
    let here : is_name_char d ≡ true = ground (arith, h) in
    let other : (d == c) ≡ false = ground (arith, here, n) in
    ground (arith, other, every-has c t n rest)

host_matches-IsName : (t : Text) → host_matches t ≡ true → IsName t
unfolding host_matches starts_with
host_matches-IsName [] h = absurd (ground (arith, h))
host_matches-IsName (c ∷ t) h =
    let names : every is_name_char (c ∷ t) ≡ true = ground (arith, h) in
    record {
      no_colon = every-has 58 (c ∷ t) refl names;
      no_at = every-has 64 (c ∷ t) refl names;
      no_dash = λ _. ground (arith, h);
      not_empty = refl;
    }

user_matches-IsName : (t : Text) → user_matches t ≡ true → IsName t
unfolding user_matches starts_with
user_matches-IsName [] h = absurd (ground (arith, h))
user_matches-IsName (c ∷ t) h =
    let names : every is_name_char (c ∷ t) ≡ true = ground (arith, h) in
    record {
      no_colon = every-has 58 (c ∷ t) refl names;
      no_at = every-has 64 (c ∷ t) refl names;
      no_dash = λ _. ground (arith, h);
      not_empty = refl;
    }

validate_host-IsName :
    (ip_address : Text → Option Text) (text host : Text)
    → ip_address (strip text) ≡ none
    → validate_host ip_address text ≡ some host
    → IsName host
unfolding validate_host
validate_host-IsName ip_address text host n h =
    let matches : host_matches host ≡ true = ground (arith, n, h) in
    host_matches-IsName host matches

abbrev Reads : Text → Option Text → Text → Type 0
Reads host user path =
    (read_spec (remote_spec host user path) ≡ some (user, host, path))
    × (starts_with (codes "-") (remote_spec host user path) ≡ false)

remote_spec-alone : (host path : Text) → IsName host → Reads host none path
unfolding read_spec remote_spec
remote_spec-alone host path v =
    let bare = v.no_colon in
    let place = split_once-first 58 host path v.no_colon in
    let whole = split_once-none 64 host v.no_at in
    let first = v.no_dash (58 ∷ path) in
    (ground (arith, bare, place, whole), ground (arith, bare, first))

remote_spec-named :
    (host user path : Text) → IsName host → IsName user → Reads host (some user) path
unfolding read_spec remote_spec has
remote_spec-named host user path v w =
    let bare = v.no_colon in
    let some_user = w.not_empty in
    let alone : has 58 (user ++ 64 ∷ host) ≡ false =
      has-append 58 user (64 ∷ host) ∙ ap₂ ◌||◌ w.no_colon v.no_colon in
    let place = split_once-first 58 (user ++ 64 ∷ host) path alone in
    let parts = split_once-first 64 user host w.no_at in
    let first = w.no_dash (64 ∷ (host ++ 58 ∷ path)) in
    let spec : remote_spec host (some user) path ≡ (user ++ 64 ∷ host) ++ 58 ∷ path =
      ground (arith, bare, some_user) in
    (
      ap read_spec spec ∙ ground (arith, place, parts),
      ap (starts_with (codes "-")) (spec ∙ append_assoc user (64 ∷ host) (58 ∷ path)) ∙ first,
    )

-- For a host that is no IP address, the argument for a host and a user that pass the checks is read
-- back as this user, this host and the path, and is never taken for an option.
pub remote_spec-read :
    (ip_address : Text → Option Text) (host_text host path : Text) (user_text user : Option Text)
    → ip_address (strip host_text) ≡ none
    → validate_host ip_address host_text ≡ some host
    → validate_user user_text ≡ some user
    → (read_spec (remote_spec host user path) ≡ some (user, host, path))
      × (starts_with (codes "-") (remote_spec host user path) ≡ false)
unfolding validate_user
remote_spec-read ip_address host_text host path none user n h u =
    let nobody : none ≡ user = ground (arith, u) in
    subst (λ w. Reads host w path) nobody
      (remote_spec-alone host path (validate_host-IsName ip_address host_text host n h))
remote_spec-read ip_address host_text host path (some name) user n h u =
    let matches : user_matches (strip name) ≡ true = ground (arith, u) in
    let named : some (strip name) ≡ user = ground (arith, u) in
    subst (λ w. Reads host w path) named
      (remote_spec-named host (strip name) path (validate_host-IsName ip_address host_text host n h)
        (user_matches-IsName (strip name) matches))
