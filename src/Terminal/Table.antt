-- ===== src/Terminal/Table.antt =====
-- The sessions of `TerminalManager` of src/remote_host_mcp/terminal.py. An id is a text, the dictionary an
-- association list in the order of insertion.
use remote_host_mcp.Prelude.{
  ℕ, suc, ◌+◌, Bool, not, ◌&&◌, ◌||◌, Option, none, some, List, [], ◌∷◌, length, leb, ltb, ◌==◌,
  if◌then◌else◌,
}
use remote_host_mcp.Prelude.Text.{all_hex, Text}
use remote_host_mcp.Prelude.Assoc.{find, put, drop_key}
use remote_host_mcp.Terminal.State.{Session, new_session}

abbrev pub Table : Type 0
Table = List (Text × Session)

-- `_validate_id`
unfoldable pub valid_id : Text → Bool
valid_id id = length id == 32 && all_hex id

-- `_session`; none is the ValueError
unfoldable pub session_of : Text → Table → Option Session
unfolding valid_id find
session_of id t = if valid_id id then find id t else none

pub record Limits : Type 0 where
  pub terminal_max_sessions : ℕ
  pub terminal_buffer_bytes : ℕ
  pub terminal_idle_seconds : ℕ
  pub terminal_max_lifetime_seconds : ℕ

-- `len(live)`, by which shells are alive
unfoldable pub live_count : (Text → Bool) → Table → ℕ
live_count alive [] = 0
live_count alive ((id, s) ∷ rest) = let n = live_count alive rest in if alive id then suc n else n

abbrev pub size_ok : ℕ → ℕ → Bool
size_ok cols rows = leb 20 cols && leb cols 500 && leb 5 rows && leb rows 300

-- `open`: `safe` tells whether the directory is allowed and exists, `id` is `secrets.token_hex(16)`.
-- None is the ValueError.
unfoldable pub open_session :
    Limits → (Text → Bool) → Bool → Text → ℕ → ℕ → ℕ → Table → Option Table
open_session l alive safe id cols rows now t =
    if size_ok cols rows && safe && ltb (live_count alive t) l.terminal_max_sessions
    then some (put id (new_session l.terminal_buffer_bytes cols rows now) t)
    else none

-- `resize`
unfoldable pub resize : (Text → Bool) → Text → ℕ → ℕ → ℕ → Table → Option Table
unfolding session_of
resize alive id cols rows now t = elim (session_of id t) [
  | none ↦ none
  | some s ↦
      if size_ok cols rows && alive id
      then some (put id (record s { cols = cols; rows = rows; last_activity_at = now }) t)
      else none
]

-- `close`, of the table
unfoldable pub close_session : Text → Table → Option Table
unfolding session_of
close_session id t = elim (session_of id t) [ none ↦ none | some _ ↦ some (drop_key id t) ]

-- The tests of the janitor on one session
unfoldable pub is_stale : Limits → ℕ → Bool → Session → Bool
is_stale l now alive s =
    not alive
    || leb (s.last_activity_at + l.terminal_idle_seconds) now
    || leb (s.created_at + l.terminal_max_lifetime_seconds) now

unfoldable pub stale_ids : Limits → ℕ → (Text → Bool) → Table → List Text
unfolding is_stale
stale_ids l now alive [] = []
stale_ids l now alive ((id, s) ∷ rest) =
    let others = stale_ids l now alive rest in
    if is_stale l now (alive id) s then id ∷ others else others

-- The closing of the stale sessions; one that is gone already is passed over.
unfoldable pub close_all : List Text → Table → Table
unfolding close_session
close_all [] t = t
close_all (id ∷ ids) t = elim (close_session id t) [
  | none ↦ close_all ids t
  | some t' ↦ close_all ids t'
]

-- One round of `_janitor_loop`
unfoldable pub janitor_round : Limits → ℕ → (Text → Bool) → Table → Table
unfolding stale_ids close_all
janitor_round l now alive t = close_all (stale_ids l now alive t) t
