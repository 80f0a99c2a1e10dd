-- ===== src/SystemHelpers/Redaction.antt =====
-- `_redact_url`, `_redact_argument` and `_redact_argv` of src/remote_host_mcp/system_helpers.py.
use remote_host_mcp.Prelude.{
  ℕ, Bool, true, false, not, ◌&&◌, ◌||◌, Option, none, some, List, [], ◌∷◌, ◌++◌, ◌==◌,
  if◌then◌else◌, is_nil,
}
use remote_host_mcp.Prelude.Text.{Text, codes, text_eq, has, split_once}
use remote_host_mcp.HubSettings.Parsers.{starts_with}
use remote_host_mcp.SystemHelpers.{redacted, is_sensitive_long_option, is_sensitive_query_key}

-- The end of `t.rsplit(c, 1)`, none where there is no `c`
unfoldable pub after_last : ℕ → Text → Option Text
after_last c [] = none
after_last c (d ∷ t) = elim (after_last c t) [
  | some end ↦ some end
  | none ↦ if d == c then some t else none
]

abbrev onto_first : ℕ → List Text → List Text
onto_first d [] = (d ∷ []) ∷ []
onto_first d (t ∷ ts) = (d ∷ t) ∷ ts

-- `t.split(c)`
unfoldable pub split_all : ℕ → Text → List Text
split_all c [] = [] ∷ []
split_all c (d ∷ t) = let rest = split_all c t in if d == c then [] ∷ rest else onto_first d rest

-- `c.join(ts)`
abbrev pub join_with : ℕ → List Text → Text
join_with c [] = []
join_with c (t ∷ []) = t
join_with c (t ∷ u ∷ us) = t ++ c ∷ join_with c (u ∷ us)

-- What `urlsplit` returns.
pub record Url : Type 0 where
  pub scheme : Text
  pub netloc : Text
  pub path : Text
  pub query : Text
  pub fragment : Text

-- The network location without its user, and whether that changed it
unfoldable pub redact_netloc : Text → Text × Bool
redact_netloc netloc = elim (after_last 64 netloc) [
  | none ↦ (netloc, false)
  | some host ↦ (redacted ++ 64 ∷ host, true)
]

-- One parameter of a query
unfoldable pub redact_piece : Text → Text × Bool
redact_piece piece = elim (split_once 61 piece) [
  | none ↦ (piece, false)
  | some (key, current) ↦
      if is_sensitive_query_key key then (key ++ 61 ∷ redacted, true) else (piece, false)
]

unfoldable pub redact_pieces : List Text → List Text × Bool
redact_pieces [] = ([], false)
redact_pieces (piece ∷ pieces) =
    let (first, changed) = redact_piece piece in
    let (rest, changes) = redact_pieces pieces in (first ∷ rest, changed || changes)

unfoldable pub redact_query : Text → Text × Bool
unfolding split_all
redact_query query =
    if is_nil query
    then (query, false)
    else let (pieces, changed) = redact_pieces (split_all 38 query) in
      (join_with 38 pieces, changed)

-- `value.startswith("--") and "=" not in value and _is_sensitive_long_option(value)`
unfoldable pub takes_secret : Text → Bool
takes_secret value =
    starts_with (codes "--") value && not (has 61 value) && is_sensitive_long_option value

-- `urlsplit`, none where it raises ValueError, and `urlunsplit`
module _ (urlsplit : Text → Option Url) (urlunsplit : Url → Text) where
  -- `_redact_url`
  unfoldable pub redact_url : Text → Text
  unfolding redact_query
  redact_url value = elim (urlsplit value) [
    | none ↦ value
    | some parsed ↦
        if is_nil parsed.scheme || is_nil parsed.netloc
        then value
        else let (netloc, without_user) = redact_netloc parsed.netloc in
          let (query, without_keys) = redact_query parsed.query in
          if without_user || without_keys
          then urlunsplit (record parsed { netloc = netloc; query = query })
          else value
  ]

  -- `_redact_argument`
  unfoldable pub redact_argument : Text → Text
  redact_argument value = elim (split_once 61 value) [
    | none ↦ redact_url value
    | some (prefix, remainder) ↦
        let inside = redact_url remainder in
        if starts_with (codes "--") prefix && is_sensitive_long_option prefix
        then prefix ++ 61 ∷ redacted
        else if not (text_eq inside remainder)
        then prefix ++ 61 ∷ inside
        else redact_url value
  ]

  -- `_redact_argv`
  unfoldable pub redact_argv : List Text → List Text
  redact_argv [] = []
  redact_argv (value ∷ []) = (if takes_secret value then value else redact_argument value) ∷ []
  redact_argv (value ∷ next ∷ argv) =
      let behind = redact_argv argv in
      let on = redact_argv (next ∷ argv) in
      if takes_secret value then value ∷ redacted ∷ behind else redact_argument value ∷ on
