-- ===== src/Terminal/Refine.antt =====
-- No sequence of calls tells a terminal of src/remote_host_mcp/terminal.py from its stream of output.
use remote_host_mcp.Prelude.{
  is_nil, or_else, ℕ, ◌-◌, ◌≡◌, refl, ap, Bool, ◌&&◌, Option, List, [], ◌∷◌, ◌++◌, length, max, leb,
  arith, inl, inr, Bool-cases, append-nil, if◌then◌else◌,
}
use remote_host_mcp.Disk.{Bytes}
use remote_host_mcp.Terminal.Markers.{strip_markers}
use remote_host_mcp.Terminal.State.{
  Session, extend_buffer, append_output, Slice, Wake, wait_output, read_slice, consume_all, Pending,
}
use remote_host_mcp.Terminal.Stream.{
  Stream, show, view, Shows, buffer_end-Shows, extend_buffer-Shows, slice_at-view,
}

-- What happens to a terminal: the shell writes, or somebody reads.
pub data Call : Type 0 where
  writes : ℕ → Bytes → Call
  reads : Option ℕ → ℕ → Bool → List Wake → Call

-- The calls in order, with what each read returns.
unfoldable pub run : Session → List Call → List (Option Slice)
unfolding append_output read_slice
run s [] = []
run s (writes now chunk ∷ calls) = run (append_output now chunk s) calls
run s (reads cursor max_bytes alive waits ∷ calls) =
    let (slice, s') = read_slice cursor max_bytes alive waits s in slice ∷ run s' calls

-- The abstract terminal, with the bytes that may still turn out to be a marker.
unfoldable pub receive : ℕ → Bytes → Bytes × Stream → Bytes × Stream
receive cap chunk (tail, t) =
    let (out, tail', _) = strip_markers tail chunk in
    if is_nil chunk then (tail, t) else (tail', show cap out t)

unfoldable pub await : ℕ → ℕ → Bool → List Wake → Bytes × Stream → Bytes × Stream
unfolding receive
await cap requested alive [] a = a
await cap requested alive (w ∷ ws) a =
    let later = await cap requested w.alive ws (receive cap w.chunk a) in
    if leb (length a.1.shown) requested && alive then later else a

unfoldable pub run_stream : ℕ → Bytes × Stream → List Call → List (Option Slice)
unfolding receive await
run_stream cap a [] = []
run_stream cap a (writes now chunk ∷ calls) = run_stream cap (receive cap chunk a) calls
run_stream cap a (reads cursor max_bytes alive waits ∷ calls) =
    let requested = or_else a.1.gone cursor in
    let a' = await cap requested alive waits a in
    view requested max_bytes a'.1 ∷ run_stream cap a' calls

-- A session stands for an abstract terminal with its limit.
pub record Stands (cap : ℕ) (a : Bytes × Stream) (s : Session) : Type 0 where
  pub limit : s.max_buffer_bytes ≡ cap
  pub hidden : s.osc_tail ≡ a.0
  pub shows : Shows a.1 s

show-nil :
    (cap : ℕ) (t : Stream) (s : Session)
    → s.max_buffer_bytes ≡ cap
    → Shows t s
    → Shows (show cap [] t) s
unfolding show
show-nil cap t s e v =
    let same : t.shown ++ [] ≡ t.shown = append-nil t.shown in
    let gone : max t.gone (length (t.shown ++ []) - cap) ≡ t.gone =
      omega (arith, e, ap length same, buffer_end-Shows t s v, v.start, v.bounded) in
    record {
      start = omega (arith, gone, v.start);
      inside = omega (arith, gone, v.inside, ap length same);
      window = rw (gone, same) v.window;
      bounded = v.bounded;
    }

-- The window does not depend on the rest of the session.
Shows-rest :
    (t : Stream) (s : Session) (tail : Bytes) (p : Option Pending)
    → Shows t s
    → Shows t (record s { osc_tail = tail; pending = p })
Shows-rest t s tail p v = record {
  start = v.start;
  inside = v.inside;
  window = v.window;
  bounded = v.bounded;
}

out-Stands :
    (cap now : ℕ) (out tail : Bytes) (p : Option Pending) (t : Stream) (s : Session)
    → s.max_buffer_bytes ≡ cap
    → Shows t s
    → let s' : Session = record s { osc_tail = tail; pending = p } in
      Stands cap
        (tail, show cap out t)
        (if is_nil out then s' else record (extend_buffer out s') { last_activity_at = now })
unfolding extend_buffer
out-Stands cap now [] tail p t s e v = record {
  limit = e;
  hidden = refl;
  shows = show-nil cap t (record s { osc_tail = tail; pending = p }) e (Shows-rest t s tail p v);
}
out-Stands cap now (b ∷ out) tail p t s e v =
    let s' : Session = record s { osc_tail = tail; pending = p } in
    let w = extend_buffer-Shows t s' (b ∷ out) (Shows-rest t s tail p v) in
    record {
      limit = e;
      hidden = refl;
      shows =
          rw (← e)
            (record { start = w.start; inside = w.inside; window = w.window; bounded = w.bounded });
    }

pub append_output-Stands :
    (cap now : ℕ) (chunk : Bytes) (a : Bytes × Stream) (s : Session)
    → Stands cap a s
    → Stands cap (receive cap chunk a) (append_output now chunk s)
unfolding append_output receive
append_output-Stands cap now [] a s v = v
append_output-Stands cap now (b ∷ bs) a s v =
    let (out, tail, ms) = strip_markers s.osc_tail (b ∷ bs) in
    rw (← v.hidden) (out-Stands cap now out tail (consume_all ms s.pending) a.1 s v.limit v.shows)

pub wait_output-Stands :
    (cap requested : ℕ) (alive : Bool) (waits : List Wake) (a : Bytes × Stream) (s : Session)
    → Stands cap a s
    → Stands cap (await cap requested alive waits a) (wait_output requested alive waits s)
unfolding wait_output await
wait_output-Stands cap requested alive [] a s v = v
wait_output-Stands cap requested alive (w ∷ ws) a s v =
    let end = buffer_end-Shows a.1 s v.shows in
    let next = append_output-Stands cap w.now w.chunk a s v in
    elim (Bool-cases (leb (length a.1.shown) requested && alive)) [
      | inl e ↦
          rw (end, e, wait_output, await) (wait_output-Stands cap requested w.alive ws _ _ next)
      | inr e ↦ rw (end, e, wait_output, await) v
    ]

-- Reading with any cursors, limits and waits, between any writes of the shell, gives exactly what
-- the abstract terminal gives: the output behind the cursor, or behind the first byte that is still
-- kept, which is marked; the error only for a cursor beyond the output.
pub run-run_stream :
    (cap : ℕ) (calls : List Call) (a : Bytes × Stream) (s : Session)
    → Stands cap a s
    → run s calls ≡ run_stream cap a calls
unfolding run run_stream read_slice
run-run_stream cap [] a s v = refl
run-run_stream cap (writes now chunk ∷ calls) a s v =
    run-run_stream cap calls _ _ (append_output-Stands cap now chunk a s v)
run-run_stream cap (reads cursor max_bytes alive waits ∷ calls) a s v =
    let from : or_else s.buffer_start cursor ≡ or_else a.1.gone cursor =
      ap (λ n. or_else n cursor) v.shows.start in
    let w = wait_output-Stands cap (or_else a.1.gone cursor) alive waits a s v in
    rw
      (
        from,
        slice_at-view _ _ (or_else a.1.gone cursor) max_bytes w.shows,
        run-run_stream cap calls _ _ w,
      )
      refl
