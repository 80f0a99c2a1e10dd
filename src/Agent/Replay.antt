-- ===== src/Agent/Replay.antt =====
-- What a restart reads again: the contract of the cursor file in src/remote_host_mcp/report_agent.py
-- for a main file that is not rotated.
use mathlib.Core.List.{filter_map, filter_map-cons-none, filter_map-cons-some}
use mathlib.Core.Path.{ap₂}
use remote_host_mcp.Prelude.{
  ℕ, ◌+◌, ◌≤◌, ◌<◌, ◌≡◌, ◌≢◌, refl, ap, ◌∙◌, sym, Bool, true, Option, none, some, List, [], ◌∷◌,
  ◌++◌, length, arith, Option-cases, inl, inr, drop, take, length-drop, take_all,
}
use remote_host_mcp.Prelude.Text.{Text}
use remote_host_mcp.Json.{Json, Event}
use remote_host_mcp.Disk.{Bytes}
use remote_host_mcp.Hub.{Answer}
use remote_host_mcp.Tail.{
  Tail, World, Yield, Cursor, line_event, main_lines, read_main, read_chunk_bytes, restart,
  new_tail,
}
use remote_host_mcp.Tail.Lines.{lines_length}
use remote_host_mcp.Prelude.Int.{ℤ}
use remote_host_mcp.Tail.Suffix.{lines_at, lines_at-behind}
use remote_host_mcp.Agent.{Agent, Settings, Reply, returned, flush, Pending}
use remote_host_mcp.Agent.Events.{prepare_event}
use remote_host_mcp.Agent.Queue.{entry_for}
use remote_host_mcp.Agent.Delivery.{
  Shipped, is_acked, is_settled, settled-whole, answer, flush-Flushed,
}
use remote_host_mcp.Agent.Queued.{
  IsQueueOf, usable, queue, queue-unusable, queue-usable, queue-append, Shipped-IsQueueOf,
}

module _ (loads : Bytes → Option Json) (level : Text) (redact : Bool) where
  main_lines-none :
      (t : Tail) (p : ℕ) (l : Bytes) (ls : List Bytes)
      → line_event loads l ≡ none
      → main_lines loads t p (l ∷ ls) ≡ main_lines loads t (p + length l + 1) ls
  unfolding main_lines
  main_lines-none t p l ls e = rw (e, main_lines) refl

  unfoldable yield_at : Tail → ℕ → Event → Yield
  yield_at t p v = record { at = p; event = v; after = record t { read_offset = p } }

  main_lines-some :
      (t : Tail) (p : ℕ) (l : Bytes) (ls : List Bytes) (v : Event)
      → line_event loads l ≡ some v
      → main_lines loads t p (l ∷ ls)
        ≡ yield_at t (p + length l + 1) v ∷ main_lines loads t (p + length l + 1) ls
  unfolding main_lines yield_at
  main_lines-some t p l ls v e = rw (e, main_lines) refl

  usable-some :
      (l : Bytes) (v : Event) (u : Option Event)
      → line_event loads l ≡ some v
      → prepare_event level redact v ≡ u
      → usable loads level redact l ≡ u
  usable-some l v u e f = ground (arith, e, f)

  entry_for-yield_at :
      (t : Tail) (p : ℕ) (v : Event)
      → entry_for level redact (yield_at t p v)
        ≡ elim (prepare_event level redact v) [ none ↦ none | some u ↦ some (p, u) ]
  unfolding yield_at
  entry_for-yield_at t p v = refl

  queue-main_lines :
      (t : Tail) (p : ℕ) (ls : List Bytes)
      → filter_map (entry_for level redact) (main_lines loads t p ls)
        ≡ queue loads level redact p ls
  unfolding main_lines
  queue-main_lines t p [] = unfold filter_map in refl
  queue-main_lines t p (l ∷ ls) =
      let here = p + length l + 1 in
      let rest = main_lines loads t here ls in
      let next = queue-main_lines t here ls in
      let entry = entry_for level redact in
      elim (Option-cases (line_event loads l)) [
        | inl e ↦
            ap (filter_map entry) (main_lines-none t p l ls e)
            ∙ next
            ∙ sym (queue-unusable loads level redact p l ls (ground (arith, e)))
        | inr (v, e) ↦
            ap (filter_map entry) (main_lines-some t p l ls v e)
            ∙ elim (Option-cases (prepare_event level redact v)) [
              | inl f ↦
                  filter_map-cons-none entry (yield_at t here v) rest
                    (entry_for-yield_at t here v ∙ (rw f refl))
                  ∙ next
                  ∙ sym (queue-unusable loads level redact p l ls (usable-some l v none e f))
              | inr (u, f) ↦
                  filter_map-cons-some entry (yield_at t here v) rest
                    (entry_for-yield_at t here v ∙ (rw f refl))
                  ∙ ap (λ r. (here, u) ∷ r) next
                  ∙ sym (queue-usable loads level redact p l ls u (usable-some l v (some u) e f))
            ]
      ]

  -- What the reader's next call on a main file puts in the queue.
  abbrev pub next_queue : World → Tail → Pending
  next_queue w t = filter_map (entry_for level redact) (read_main loads w t).yields

  next_queue-eq :
      (w : World) (t : Tail) (h : ℕ)
      → w.disk.names 0 ≡ some h
      → w.readable 0 ≡ true
      → length (w.disk.contents h) ≤ t.read_offset + read_chunk_bytes
      → next_queue w t
        ≡ queue loads level redact t.read_offset (lines_at (w.disk.contents h) t.read_offset)
  unfolding read_main
  next_queue-eq w t h at can fits =
      let b = w.disk.contents h in
      let whole : take read_chunk_bytes (drop t.read_offset b) ≡ drop t.read_offset b =
        take_all read_chunk_bytes _ (omega (arith, length-drop t.read_offset b)) in
      rw (at, can, whole, read_main) (queue-main_lines t t.read_offset (lines_at b t.read_offset))

  -- A restart from the checkpoint queues exactly the events that are pending, followed by those
  -- that the running process would have read next: nothing is lost, nothing is out of order, and
  -- nothing before the checkpoint is sent again. The main file is not rotated in between, and what
  -- lies behind the checkpoint fits in one chunk.
  pub restart-next_queue :
      (w : World) (t : Tail) (pending : Pending) (file : Option ℤ) (h : ℕ)
      → w.disk.names 0 ≡ some h
      → w.readable 0 ≡ true
      → length (w.disk.contents h) ≤ t.offset + read_chunk_bytes
      → IsQueueOf loads level redact (w.disk.contents h) t pending
      → next_queue w (restart (record { at = t.offset; file = file })) ≡ pending ++ next_queue w t
  unfolding restart new_tail
  restart-next_queue w t pending file h at can fits q =
      let b = w.disk.contents h in
      let from : next_queue w t
          ≡ queue loads level redact (t.offset + lines_length q.read) q.later =
        next_queue-eq w t h at can (omega (arith, q.reach))
        ∙ ap (λ r. queue loads level redact r (lines_at b r)) q.reach
        ∙ ap (queue loads level redact (t.offset + lines_length q.read))
            (lines_at-behind q.read q.later b t.offset q.lines) in
      next_queue-eq w (restart (record { at = t.offset; file = file })) h at can fits
      ∙ ap (queue loads level redact t.offset) q.lines
      ∙ queue-append loads level redact t.offset q.read q.later
      ∙ ap₂ ◌++◌ (sym q.queued) (sym from)

  -- How a flush that the Hub settled leaves things for a process that crashes right after it.
  pub record Recoverable (w : World) (b : Bytes) (r : Reply) (value : Bool) : Type 0 where
    pub after : Agent
    pub returns : r ≡ returned value after
    pub saved : Cursor
    pub on_disk : after.cursor ≡ some saved
    pub in_step : IsQueueOf loads level redact b after.tail after.pending
    pub replay : next_queue w (restart saved) ≡ after.pending ++ next_queue w after.tail

  Shipped-replay :
      (s : Settings) (now : ℕ) (w : World) (a a' : Agent) (h : ℕ)
      → w.disk.names 0 ≡ some h
      → w.readable 0 ≡ true
      → length (w.disk.contents h) ≤ read_chunk_bytes
      → IsQueueOf loads level redact (w.disk.contents h) a.tail a.pending
      → (c : Shipped s now a a')
      → next_queue w (restart (record { at = c.at; file = a.tail.inode }))
        ≡ a'.pending ++ next_queue w a'.tail
  Shipped-replay s now w a a' h at can fits q c =
      let t : Tail = record a.tail { offset = c.at } in
      let same : a'.tail ≡ t = c.offset in
      let q' = Shipped-IsQueueOf loads level redact s now (w.disk.contents h) a a' q c in
      rw same
        (restart-next_queue w t a'.pending a.tail.inode h at can (omega arith) (rw same at q'))

  -- After a batch is acknowledged or refused, a crash loses nothing: the cursor file makes the
  -- next process queue exactly the events that were still pending, then those that the old one
  -- would have read next. It holds for a queue that was read from the main file, which is not
  -- rotated and fits in one chunk.
  pub flush-Recoverable :
      (hub : ℕ → List Event → Answer) (beat config : Answer) (s : Settings) (n now : ℕ) (w : World)
      (a : Agent) (h : ℕ)
      → w.disk.names 0 ≡ some h
      → w.readable 0 ≡ true
      → length (w.disk.contents h) ≤ read_chunk_bytes
      → IsQueueOf loads level redact (w.disk.contents h) a.tail a.pending
      → a.pending ≢ []
      → 0 < s.report_max_batch
      → is_settled (answer loads hub beat config s n a) ≡ true
      → Recoverable w
          (w.disk.contents h)
          (flush loads hub beat config s n now a)
          (is_acked (answer loads hub beat config s n a))
  flush-Recoverable hub beat config s n now w a h at can fits q busy positive settled =
      let (b, e, f) =
        flush-Flushed loads hub beat config s n now a busy positive
          (settled-whole (answer loads hub beat config s n a) settled) in
      let c : Shipped s now a b = rw settled at f in
      record {
        after = b;
        returns = e;
        saved = record { at = c.at; file = a.tail.inode };
        on_disk = c.saved;
        in_step = Shipped-IsQueueOf loads level redact s now (w.disk.contents h) a b q c;
        replay = Shipped-replay s now w a b h at can fits q c;
      }
