-- ===== src/Agent/Queue.antt =====
-- The queue of un-acknowledged events: what `_read_more` puts in, and its ceiling.
use mathlib.Core.List.{filter_map, filter_map-cons-none, filter_map-cons-some}
use remote_host_mcp.Prelude.{
  ℕ, suc, ◌+◌, ◌≤◌, ◌<◌, ◌≡◌, refl, ap, ◌∙◌, sym, Bool, true, false, Option, none, some, List, [],
  ◌∷◌, ◌++◌, length, length-append, append_assoc, append-nil, arith, Option-cases, Bool-cases, inl,
  inr, leb, leb→le, ◌⊎◌,
}
use remote_host_mcp.Prelude.Text.{Text}
use remote_host_mcp.Json.{Json, Event}
use remote_host_mcp.Disk.{Bytes}
use remote_host_mcp.Hub.{Answer}
use remote_host_mcp.Tail.{Tail, World, Yield, read_new}
use remote_host_mcp.Agent.{Agent, collect, read_more, max_pending_events}
use remote_host_mcp.Agent.Events.{prepare_event}

-- The queue entry that a yield makes, if its event is usable.
abbrev pub entry_for : Text → Bool → Yield → Option (ℕ × Event)
entry_for level redact y = elim (prepare_event level redact y.event) [
  | none ↦ none
  | some e ↦ some (y.at, e)
]

entry_for-none :
    (a : Agent) (y : Yield)
    → prepare_event a.report_level a.redact_enabled y.event ≡ none
    → entry_for a.report_level a.redact_enabled y ≡ none
entry_for-none a y h = rw (h, entry_for) refl

entry_for-some :
    (a : Agent) (y : Yield) (e : Event)
    → prepare_event a.report_level a.redact_enabled y.event ≡ some e
    → entry_for a.report_level a.redact_enabled y ≡ some (y.at, e)
entry_for-some a y e h = rw (h, entry_for) refl

-- The reader stands where it stood at the last yield that was taken.
pub record StoppedAt (taken : List Yield) (t : Tail) : Type 0 where
  pub front : List Yield
  pub last : Yield
  pub split : front ++ last ∷ [] ≡ taken
  pub here : t ≡ last.after

StoppedAt-cons :
    {taken : List Yield} {t : Tail} (y : Yield) → StoppedAt taken t → StoppedAt (y ∷ taken) t
StoppedAt-cons y s = record {
  front = y ∷ s.front;
  last = s.last;
  split = ap (λ l. y ∷ l) s.split;
  here = s.here;
}

-- The yields that `_read_more` has taken: the queue grew by their usable events, in order, which are
-- counted as added; every other one is counted as dropped, and a yield is left only at the ceiling.
pub record Collected (a b : Agent) (added : ℕ) (ys : List Yield) (final : Tail) : Type 0 where
  pub taken : List Yield
  pub rest : List Yield
  pub all : taken ++ rest ≡ ys
  pub queued : b.pending ≡ a.pending ++ filter_map (entry_for a.report_level a.redact_enabled) taken
  pub fresh : added ≡ length (filter_map (entry_for a.report_level a.redact_enabled) taken)
  pub counted : added + b.dropped ≡ length taken + a.dropped
  pub stopped :
      (rest ≡ []) × (b.tail ≡ final)
      ⊎ (length b.pending ≡ max_pending_events) × StoppedAt taken b.tail
  pub below : length b.pending ≤ max_pending_events

Collected-drop :
    {b : Agent} {added : ℕ} (a : Agent) (y : Yield) (ys : List Yield) (final : Tail)
    → prepare_event a.report_level a.redact_enabled y.event ≡ none
    → Collected (record a { dropped = suc a.dropped }) b added ys final
    → Collected a b added (y ∷ ys) final
Collected-drop {b = b} a y ys final bad c = record {
  taken = y ∷ c.taken;
  rest = c.rest;
  all = ap (λ l. y ∷ l) c.all;
  queued =
      c.queued
      ∙ ap (λ l. a.pending ++ l)
          (sym (
            filter_map-cons-none (entry_for a.report_level a.redact_enabled) y c.taken
              (entry_for-none a y bad)));
  fresh =
      c.fresh
      ∙ ap length (
          sym (
            filter_map-cons-none (entry_for a.report_level a.redact_enabled) y c.taken
              (entry_for-none a y bad)));
  counted = omega (arith, c.counted);
  stopped = elim c.stopped [ inl e ↦ inl e | inr (e, at) ↦ inr (e, StoppedAt-cons y at) ];
  below = c.below;
}

Collected-queue :
    {b : Agent} {added : ℕ} (a : Agent) (y : Yield) (ys : List Yield) (final : Tail) (e : Event)
    → prepare_event a.report_level a.redact_enabled y.event ≡ some e
    → Collected (record a { pending = a.pending ++ (y.at, e) ∷ [] }) b added ys final
    → Collected a b (suc added) (y ∷ ys) final
Collected-queue {b = b} a y ys final e good c = record {
  taken = y ∷ c.taken;
  rest = c.rest;
  all = ap (λ l. y ∷ l) c.all;
  queued =
      c.queued
      ∙ append_assoc a.pending ((y.at, e) ∷ []) _
      ∙ ap (λ l. a.pending ++ l)
          (sym (
            filter_map-cons-some (entry_for a.report_level a.redact_enabled) y c.taken
              (entry_for-some a y e good)));
  fresh =
      ap suc c.fresh
      ∙ ap length (
          sym (
            filter_map-cons-some (entry_for a.report_level a.redact_enabled) y c.taken
              (entry_for-some a y e good)));
  counted = omega (arith, c.counted);
  stopped = elim c.stopped [ inl e ↦ inl e | inr (e, at) ↦ inr (e, StoppedAt-cons y at) ];
  below = c.below;
}

Collected-full :
    (a : Agent) (y : Yield) (ys : List Yield) (final : Tail) (e : Event)
    → prepare_event a.report_level a.redact_enabled y.event ≡ some e
    → length (a.pending ++ (y.at, e) ∷ []) ≡ length a.pending + 1
    → length a.pending < max_pending_events
    → leb max_pending_events (length (a.pending ++ (y.at, e) ∷ [])) ≡ true
    → Collected a
        (record a { pending = a.pending ++ (y.at, e) ∷ []; tail = y.after })
        1
        (y ∷ ys)
        final
unfolding filter_map
Collected-full a y ys final e good size room full = record {
  taken = y ∷ [];
  rest = ys;
  all = refl;
  queued =
      ap (λ l. a.pending ++ l)
        (sym (
          filter_map-cons-some (entry_for a.report_level a.redact_enabled) y []
            (entry_for-some a y e good)));
  fresh = ap length (
      sym (
        filter_map-cons-some (entry_for a.report_level a.redact_enabled) y []
          (entry_for-some a y e good)));
  counted = refl;
  stopped = inr (
    omega (arith, size, leb→le _ _ full),
    record { front = []; last = y; split = refl; here = refl },
  );
  below = omega (arith, size);
}

collect-Collected :
    (ys : List Yield) (final : Tail) (a : Agent)
    → length a.pending < max_pending_events
    → let (added, b) = collect ys final a in Collected a b added ys final
unfolding collect
collect-Collected [] final a room = record {
  taken = [];
  rest = [];
  all = refl;
  queued = unfold filter_map in sym (append-nil a.pending);
  fresh = unfold filter_map in refl;
  counted = refl;
  stopped = inl (refl, refl);
  below = omega arith;
}
collect-Collected (y ∷ ys) final a room =
    elim (Option-cases (prepare_event a.report_level a.redact_enabled y.event)) [
      | inl bad ↦
          rw (bad, collect)
            (Collected-drop a y ys final bad
              (collect-Collected ys final (record a { dropped = suc a.dropped }) room))
      | inr (e, good) ↦
          let a' : Agent = record a { pending = a.pending ++ (y.at, e) ∷ [] } in
          let size : length a'.pending ≡ length a.pending + 1 =
            length-append a.pending ((y.at, e) ∷ []) in
          elim (Bool-cases (leb max_pending_events (length a'.pending))) [
            | inl full ↦
                rw (good, full, collect) (Collected-full a y ys final e good size room full)
            | inr open_ ↦
                rw (good, open_, collect)
                  (Collected-queue a y ys final e good
                    (collect-Collected ys final a' (ground arith)))
          ]
    ]

module _ (loads : Bytes → Option Json) (hub : ℕ → List Event → Answer) (beat config : Answer) where
  -- Reading more keeps the queue under its ceiling, at 5000 events, loses no order and no event
  -- of what the reader gave out: the usable events of what it took are queued behind the old entries,
  -- and it returns how many they are; every other one is counted as dropped. The reader
  -- stops early only with a full queue, just behind the last record taken.
  pub read_more-Collected :
      (w : World) (a : Agent) (final : Tail)
      → length a.pending < max_pending_events
      → (read_new loads w a.tail).final ≡ some final
      → let (added, b) = read_more loads hub beat config w a in
        Collected a b added (read_new loads w a.tail).yields final
  unfolding read_more
  read_more-Collected w a final room ended =
      let open_ : leb max_pending_events (length a.pending) ≡ false = ground arith in
      rw (open_, ended, read_more) (collect-Collected (read_new loads w a.tail).yields final a room)
