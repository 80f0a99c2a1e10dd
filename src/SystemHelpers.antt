-- ===== src/SystemHelpers.antt =====
-- src/remote_host_mcp/system_helpers.py: how the command line of a process is shown without its
-- secrets, for ASCII text.
pub mod Redaction
pub mod Secrets
pub mod Unseen
mod Tests
use remote_host_mcp.Prelude.{
  ℕ, ◌+◌, ◌-◌, ◌*◌, Bool, true, false, not, ◌&&◌, ◌||◌, Option, none, some, List, [], ◌∷◌, ◌++◌,
  leb, ◌==◌, if◌then◌else◌,
}
use remote_host_mcp.Prelude.Text.{Text, codes, strip, lower, is_digit}
use mathlib.Core.List.{map, reverse}
use remote_host_mcp.HubSettings.Parsers.{member, starts_with}

abbrev pub redacted : Text
redacted = codes "<redacted>"

abbrev sensitive_long_options : List Text
sensitive_long_options =
    codes "token"
    ∷ codes "password"
    ∷ codes "passwd"
    ∷ codes "secret"
    ∷ codes "api-key"
    ∷ codes "apikey"
    ∷ codes "access-token"
    ∷ codes "auth-token"
    ∷ codes "authorization"
    ∷ codes "credential"
    ∷ codes "credentials"
    ∷ codes "client-secret"
    ∷ codes "client-password"
    ∷ codes "bearer-token"
    ∷ codes "refresh-token"
    ∷ codes "private-key-passphrase"
    ∷ codes "path-key"
    ∷ codes "capability-key"
    ∷ codes "tunnel-token"
    ∷ []

abbrev sensitive_option_suffixes : List Text
sensitive_option_suffixes =
    codes "-token"
    ∷ codes "-password"
    ∷ codes "-passwd"
    ∷ codes "-secret"
    ∷ codes "-credential"
    ∷ codes "-credentials"
    ∷ codes "-api-key"
    ∷ []

abbrev sensitive_query_keys : List Text
sensitive_query_keys = codes "key" ∷ sensitive_long_options

abbrev hex_value : ℕ → Option ℕ
hex_value c =
    if is_digit c
    then some (c - 48)
    else if leb 97 c && leb c 102
    then some (c - 87)
    else if leb 65 c && leb c 70
    then some (c - 55)
    else none

-- The byte that two hexadecimal digits stand for.
abbrev byte : ℕ → ℕ → Option ℕ
byte c d = elim (hex_value c) [
  | none ↦ none
  | some high ↦ elim (hex_value d) [ none ↦ none | some low ↦ some (high * 16 + low) ]
]

abbrev plus_is_space : ℕ → ℕ
plus_is_space c = if c == 43 then 32 else c

-- `unquote_plus`
unfoldable pub unquote_plus : Text → Text
unquote_plus (c ∷ d ∷ e ∷ s) =
    let on = unquote_plus (d ∷ e ∷ s) in
    let behind = unquote_plus s in
    let plain = plus_is_space c ∷ on in
    if c == 37 then elim (byte d e) [ none ↦ plain | some b ↦ b ∷ behind ] else plain
unquote_plus (c ∷ d ∷ []) = plus_is_space c ∷ plus_is_space d ∷ []
unquote_plus (c ∷ []) = plus_is_space c ∷ []
unquote_plus [] = []

abbrev lstrip_dash : Text → Text
lstrip_dash [] = []
lstrip_dash (c ∷ s) = let rest = lstrip_dash s in if c == 45 then rest else c ∷ s

abbrev dash : ℕ → ℕ
dash c = if c == 95 then 45 else c

-- `_normalized_secret_name`
unfoldable pub normalized_secret_name : Text → Text
unfolding unquote_plus
normalized_secret_name value = map dash (lstrip_dash (lower (strip (unquote_plus value))))

abbrev ends_with_any : List Text → Text → Bool
ends_with_any [] t = false
ends_with_any (s ∷ ss) t = starts_with (reverse s) (reverse t) || ends_with_any ss t

-- `_is_sensitive_long_option`
unfoldable pub is_sensitive_long_option : Text → Bool
is_sensitive_long_option value =
    let name = normalized_secret_name value in
    member name sensitive_long_options || ends_with_any sensitive_option_suffixes name

-- `_is_sensitive_query_key`
unfoldable pub is_sensitive_query_key : Text → Bool
is_sensitive_query_key value =
    let name = normalized_secret_name value in
    member name sensitive_query_keys || is_sensitive_long_option name
