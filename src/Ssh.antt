-- ===== src/Ssh.antt =====
-- src/remote_host_mcp/ssh_helpers.py: the checks of a remote host, user, port and path, and the
-- arguments that are made of them, for ASCII text.
pub mod Spec
mod Tests
use remote_host_mcp.Prelude.{
  ℕ, ◌+◌, Bool, true, false, not, ◌&&◌, ◌||◌, Option, none, some, List, [], ◌∷◌, ◌++◌, length, leb,
  ltb, ◌==◌, if◌then◌else◌, is_nil,
}
use remote_host_mcp.Prelude.Text.{Text, codes, text_eq, is_space, strip, is_digit, has}
use remote_host_mcp.HubSettings.Parsers.{starts_with}

-- `[A-Za-z]`
abbrev pub is_letter : ℕ → Bool
is_letter c = (leb 65 c && leb c 90) || (leb 97 c && leb c 122)

-- `[A-Za-z0-9]`
abbrev pub is_plain : ℕ → Bool
is_plain c = is_letter c || is_digit c

-- `[A-Za-z0-9._-]`
abbrev pub is_name_char : ℕ → Bool
is_name_char c = is_plain c || c == 46 || c == 95 || c == 45

-- `[A-Za-z0-9._/+=,@%:-]`
abbrev pub is_path_char : ℕ → Bool
is_path_char c =
    is_name_char c || c == 47 || c == 43 || c == 61 || c == 44 || c == 64 || c == 37 || c == 58

unfoldable pub every : (ℕ → Bool) → Text → Bool
every p [] = true
every p (c ∷ t) = p c && every p t

abbrev any_space : Text → Bool
any_space [] = false
any_space (c ∷ t) = is_space c || any_space t

abbrev last_plain : Text → Bool
last_plain [] = false
last_plain (c ∷ []) = is_plain c
last_plain (c ∷ d ∷ t) = last_plain (d ∷ t)

abbrev first_is : (ℕ → Bool) → Text → Bool
first_is p [] = false
first_is p (c ∷ t) = p c

-- Two of the character stand side by side.
abbrev doubled : ℕ → Text → Bool
doubled c [] = false
doubled c (d ∷ []) = false
doubled c (d ∷ e ∷ t) = (d == c && e == c) || doubled c (e ∷ t)

-- `_HOST_RE.fullmatch`
unfoldable pub host_matches : Text → Bool
host_matches t = leb (length t) 253 && first_is is_plain t && every is_name_char t && last_plain t

-- `_USER_RE.fullmatch`
unfoldable pub user_matches : Text → Bool
user_matches t =
    leb (length t) 64 && first_is (λ c. is_letter c || c == 95) t && every is_name_char t

-- `_REMOTE_PATH_RE.fullmatch`
unfoldable pub remote_path_matches : Text → Bool
remote_path_matches t = ltb 1 (length t) && first_is (λ c. c == 47) t && every is_path_char t

-- A part between slashes, of which the front is already read, is `.` or `..`.
unfoldable pub dotted : Text → Text → Bool
dotted part [] = text_eq part (codes ".") || text_eq part (codes "..")
dotted part (c ∷ t) =
    let next = dotted [] t in
    let on = dotted (part ++ c ∷ []) t in
    if c == 47 then text_eq part (codes ".") || text_eq part (codes "..") || next else on

-- `_validate_host`, none where it raises, from what `ipaddress.ip_address` makes of a text
unfoldable pub validate_host : (Text → Option Text) → Text → Option Text
validate_host ip_address host =
    let value = strip host in
    if is_nil value || starts_with (codes "-") value || any_space value
    then none
    else elim (ip_address value) [
      | some address ↦ some address
      | none ↦ if not (host_matches value) || doubled 46 value then none else some value
    ]

-- `_validate_user`
unfoldable pub validate_user : Option Text → Option (Option Text)
validate_user none = some none
validate_user (some user) =
    let value = strip user in if user_matches value then some (some value) else none

-- `_validate_port`
unfoldable pub validate_port : Option ℕ → Option (Option ℕ)
validate_port none = some none
validate_port (some port) = if ltb port 1 || ltb 65535 port then none else some (some port)

-- `_validate_remote_path`
unfoldable pub validate_remote_path : Text → Option Text
validate_remote_path path =
    if not (remote_path_matches path) || doubled 47 path
    then none
    else if dotted [] path
    then none
    else if ltb 4096 (length path)
    then none
    else some path

abbrev with_user : Option Text → Text → Text
with_user none host = host
with_user (some user) host = if is_nil user then host else user ++ 64 ∷ host

-- `_destination`
unfoldable pub destination : Text → Option Text → Text
destination host user = with_user user host

-- `_remote_spec`
unfoldable pub remote_spec : Text → Option Text → Text → Text
remote_spec host user path =
    let formatted_host = if has 58 host then (91 ∷ host) ++ 93 ∷ [] else host in
    with_user user formatted_host ++ 58 ∷ path
