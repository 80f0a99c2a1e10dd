-- ===== src/Terminal/Sessions.antt =====
-- The table of sessions of src/remote_host_mcp/terminal.py: its limit, and what the janitor takes away.
use remote_host_mcp.Prelude.{
  ℕ, suc, ◌+◌, ◌≤◌, ◌≡◌, ◌⊎◌, ◌↔◌, refl, ◌∙◌, Bool, true, false, ◌&&◌, ◌||◌, Option, none, some,
  List, [], ◌∷◌, ltb, if◌then◌else◌, arith, inl, inr, Bool-cases, Option-cases,
}
use remote_host_mcp.Prelude.Text.{Text, text_eq, text_eq_refl, text_eq_sound}
use remote_host_mcp.Prelude.Assoc.{find, put, find-put, find-drop_key}
use remote_host_mcp.Terminal.State.{Session, new_session}
use remote_host_mcp.Terminal.Table.{
  Table, valid_id, session_of, Limits, live_count, size_ok, open_session, close_session, is_stale,
  stale_ids, close_all, janitor_round,
}

-- Every id is valid and stands once.
abbrev pub IsTable : Table → Type 0
IsTable [] = Unit {0}
IsTable ((id, s) ∷ rest) = (valid_id id ≡ true) × (find id rest ≡ none) × IsTable rest

abbrev has : Text → List Text → Bool
has j [] = false
has j (id ∷ ids) = text_eq id j || has j ids

abbrev all_valid : List Text → Bool
all_valid [] = true
all_valid (id ∷ ids) = valid_id id && all_valid ids

-- The table after one `close` of the janitor.
abbrev after_close : Text → Table → Table
after_close id t = elim (close_session id t) [ none ↦ t | some t' ↦ t' ]

after_close-find :
    (id j : Text) (t : Table)
    → valid_id id ≡ true
    → find j (after_close id t) ≡ (if text_eq id j then none else find j t)
unfolding close_session session_of
after_close-find id j t v = elim (Option-cases (find id t)) [
  | inl e ↦ ground (arith, v, e, text_eq_sound id j)
  | inr (s, e) ↦ ground (arith, v, e, find-drop_key id j t)
]

close_all-find :
    (ids : List Text) (j : Text) (t : Table)
    → all_valid ids ≡ true
    → find j (close_all ids t) ≡ (if has j ids then none else find j t)
unfolding close_all
close_all-find [] j t v = refl
close_all-find (id ∷ ids) j t v =
    let first = after_close-find id j t (ground arith) in
    let rest = close_all-find ids j (after_close id t) (ground arith) in
    elim (Option-cases (close_session id t)) [
      | inl e ↦ ground (arith, first, rest, e)
      | inr (t', e) ↦ ground (arith, first, rest, e)
    ]

stale_ids-valid :
    (l : Limits) (now : ℕ) (alive : Text → Bool) (t : Table)
    → IsTable t
    → all_valid (stale_ids l now alive t) ≡ true
unfolding stale_ids
stale_ids-valid l now alive [] v = refl
stale_ids-valid l now alive ((id, s) ∷ t) (valid, alone, rest) =
    ground (arith, valid, stale_ids-valid l now alive t rest)

-- Whether a session is there and stale.
abbrev stale_there : Limits → ℕ → Bool → Option Session → Bool
stale_there l now alive none = false
stale_there l now alive (some s) = is_stale l now alive s

has-stale_ids :
    (l : Limits) (now : ℕ) (alive : Text → Bool) (j : Text) (t : Table)
    → IsTable t
    → has j (stale_ids l now alive t) ≡ stale_there l now (alive j) (find j t)
unfolding stale_ids find
has-stale_ids l now alive j [] v = refl
has-stale_ids l now alive j ((id, s) ∷ t) (valid, alone, rest) =
    let ih = has-stale_ids l now alive j t rest in
    elim (Bool-cases (text_eq id j)) [
      | inl e ↦
          let same : id ≡ j = text_eq_sound id j e in
          let gone : find j t ≡ none = rw same at alone in
          let none_stale : has j (stale_ids l now alive t) ≡ false = ih ∙ (rw gone refl) in
          rw e (elim (Bool-cases (is_stale l now (alive j) s)) [
            | inl h ↦ rw same (rw h (rw (text_eq_refl j) refl))
            | inr h ↦ rw same (rw h none_stale)
          ])
      | inr e ↦ rw e (elim (Bool-cases (is_stale l now (alive id) s)) [
        | inl h ↦ rw h (rw e ih)
        | inr h ↦ rw h ih
      ])
    ]

-- The shell is gone, or the session has been idle or has lived for the allowed time.
abbrev pub IsStale : Limits → ℕ → Bool → Session → Type 0
IsStale l now alive s =
    (alive ≡ false)
    ⊎ (s.last_activity_at + l.terminal_idle_seconds ≤ now)
    ⊎ (s.created_at + l.terminal_max_lifetime_seconds ≤ now)

is_stale_lem :
    (l : Limits) (now : ℕ) (alive : Bool) (s : Session)
    → (is_stale l now alive s ≡ true) ↔ IsStale l now alive s
unfolding is_stale
is_stale_lem l now alive s = ground arith

janitor_round-stale :
    (l : Limits) (now : ℕ) (alive : Text → Bool) (j : Text) (t : Table)
    → IsTable t
    → find j (janitor_round l now alive t)
      ≡ (if stale_there l now (alive j) (find j t) then none else find j t)
unfolding janitor_round
janitor_round-stale l now alive j t v =
    close_all-find (stale_ids l now alive t) j t (stale_ids-valid l now alive t v)
    ∙ (rw (has-stale_ids l now alive j t v) refl)

-- A round of the janitor takes away each session whose shell is gone, which has been idle for the
-- allowed time, or which has lived for the allowed time; all others stay as they are, and none
-- appears.
pub janitor_round-find :
    (l : Limits) (now : ℕ) (alive : Text → Bool) (j : Text) (t : Table)
    → IsTable t
    → ((s : Session)
        → find j t ≡ some s
        → (IsStale l now (alive j) s → find j (janitor_round l now alive t) ≡ none)
          × (¬ IsStale l now (alive j) s → find j (janitor_round l now alive t) ≡ some s))
      × (find j t ≡ none → find j (janitor_round l now alive t) ≡ none)
janitor_round-find l now alive j t v =
    let after = janitor_round-stale l now alive j t v in
    (
      λ s e.
          let to = is_stale_lem l now (alive j) s in
          (
            λ h. let stale = to.1 h in after ∙ (rw (e, stale) refl),
            λ h. elim (Bool-cases (is_stale l now (alive j) s)) [
              | inl stale ↦ absurd (h (to.0 stale))
              | inr fresh ↦ after ∙ (rw (e, fresh) refl)
            ],
          ),
      λ e. after ∙ (rw e refl),
    )

live_count-put :
    (alive : Text → Bool) (id : Text) (s : Session) (t : Table)
    → live_count alive (put id s t) ≤ suc (live_count alive t)
unfolding live_count put
live_count-put alive id s [] = ground arith
live_count-put alive id s ((j, r) ∷ t) =
    ground (arith, live_count-put alive id s t, text_eq_sound j id)

-- A session opens only within the limit of live ones and with a size in its bounds, and starts with
-- an empty buffer and no command; every other session stays as it is.
pub open_session-limit :
    (l : Limits) (alive : Text → Bool) (safe : Bool) (id : Text) (cols rows now : ℕ) (j : Text)
    (t t' : Table)
    → open_session l alive safe id cols rows now t ≡ some t'
    → (live_count alive t' ≤ l.terminal_max_sessions)
      × (size_ok cols rows ≡ true)
      × (safe ≡ true)
      × (find j t' ≡ (
          if text_eq id j
          then some (new_session l.terminal_buffer_bytes cols rows now)
          else find j t))
unfolding open_session
open_session-limit l alive safe id cols rows now j t t' h =
    let s = new_session l.terminal_buffer_bytes cols rows now in
    elim (Bool-cases
      (size_ok cols rows && safe && ltb (live_count alive t) l.terminal_max_sessions)) [
        | inr no_way ↦ absurd (ground (arith, no_way))
        | inl go ↦
            let made : put id s t ≡ t' = ground (arith, go) in
            rw (← made) (
              ground (arith, go, live_count-put alive id s t),
              ground (arith, go),
              ground (arith, go),
              find-put id j s t,
            )
      ]
