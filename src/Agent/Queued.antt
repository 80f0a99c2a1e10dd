-- ===== src/Agent/Queued.antt =====
-- The queue of the agent in src/remote_host_mcp/report_agent.py, as the lines of the main file that it was
-- read from.
use remote_host_mcp.Prelude.{
  ℕ, suc, ◌+◌, ◌≡◌, refl, ap, ◌∙◌, sym, Bool, Option, none, some, List, [], ◌∷◌, ◌++◌, length,
  append_assoc, arith, Option-cases, inl, inr,
}
use remote_host_mcp.Prelude.Text.{Text}
use remote_host_mcp.Json.{Json, Event}
use remote_host_mcp.Disk.{Bytes}
use remote_host_mcp.Tail.{Tail, line_event}
use remote_host_mcp.Tail.Lines.{lines_length}
use remote_host_mcp.Tail.Main.{lines_length-append}
use remote_host_mcp.Tail.Suffix.{lines_at, lines_at-behind}
use remote_host_mcp.Agent.{Agent, Settings, Pending, last_offset, next_batch}
use remote_host_mcp.Agent.Events.{prepare_event}
use remote_host_mcp.Agent.Delivery.{Shipped}

-- A queue entry for a line, if it has a usable event.
abbrev add_usable : Option Event → ℕ → Pending → Pending
add_usable none at rest = rest
add_usable (some e) at rest = (at, e) ∷ rest

module _ (loads : Bytes → Option Json) (level : Text) (redact : Bool) where
  abbrev pub usable : Bytes → Option Event
  usable line = elim (line_event loads line) [ none ↦ none | some e ↦ prepare_event level redact e ]

  -- The queue that the lines from an offset on give.
  abbrev pub queue : ℕ → List Bytes → Pending
  queue p [] = []
  queue p (l ∷ ls) = add_usable (usable l) (p + length l + 1) (queue (p + length l + 1) ls)

  -- A queue that was cut behind a batch is that of the lines behind the batch.
  pub record Cut (p : ℕ) (ls : List Bytes) (at : ℕ) (rest : Pending) : Type 0 where
    pub read : List Bytes
    pub todo : List Bytes
    pub split : ls ≡ read ++ todo
    pub position : at ≡ p + lines_length read
    pub left : rest ≡ queue at todo

  Cut-cons :
      (p : ℕ) (l : Bytes) (ls : List Bytes) (at : ℕ) (rest : Pending)
      → Cut (p + length l + 1) ls at rest
      → Cut p (l ∷ ls) at rest
  Cut-cons p l ls at rest c = record {
    read = l ∷ c.read;
    todo = c.todo;
    split = ap (λ r. l ∷ r) c.split;
    position = omega (arith, c.position);
    left = c.left;
  }

  pub queue-unusable :
      (p : ℕ) (l : Bytes) (ls : List Bytes)
      → usable l ≡ none
      → queue p (l ∷ ls) ≡ queue (p + length l + 1) ls
  queue-unusable p l ls e =
      ap (λ o. add_usable o (p + length l + 1) (queue (p + length l + 1) ls)) e

  pub queue-usable :
      (p : ℕ) (l : Bytes) (ls : List Bytes) (u : Event)
      → usable l ≡ some u
      → queue p (l ∷ ls) ≡ (p + length l + 1, u) ∷ queue (p + length l + 1) ls
  queue-usable p l ls u e =
      ap (λ o. add_usable o (p + length l + 1) (queue (p + length l + 1) ls)) e

  queue-Cut :
      (p : ℕ) (ls : List Bytes) (batch rest : Pending) (at : ℕ)
      → queue p ls ≡ batch ++ rest
      → last_offset batch ≡ some at
      → Cut p ls at rest
  unfolding last_offset
  queue-Cut p ls [] rest at h b = absurd (ground arith)
  queue-Cut p [] (x ∷ batch) rest at h b = absurd (ground arith)
  queue-Cut p (l ∷ ls) (x ∷ []) rest at h b = elim (Option-cases (usable l)) [
    | inl e ↦
        Cut-cons p l ls at rest
          (queue-Cut (p + length l + 1) ls (x ∷ []) rest at (sym (queue-unusable p l ls e) ∙ h) b)
    | inr (u, e) ↦
        let same = sym (queue-usable p l ls u e) ∙ h in
        let here : p + length l + 1 ≡ at = ground arith in
        record {
          read = l ∷ [];
          todo = ls;
          split = refl;
          position = omega arith;
          left = rw (← here) (cc same);
        }
  ]
  queue-Cut p (l ∷ ls) (x ∷ y ∷ batch) rest at h b = elim (Option-cases (usable l)) [
    | inl e ↦ Cut-cons p l ls at rest (
        queue-Cut (p + length l + 1) ls (x ∷ y ∷ batch) rest at (sym (queue-unusable p l ls e) ∙ h)
          b)
    | inr (u, e) ↦
        let same = sym (queue-usable p l ls u e) ∙ h in
        Cut-cons p l ls at rest (queue-Cut (p + length l + 1) ls (y ∷ batch) rest at (cc same) b)
  ]

  pub queue-append :
      (p : ℕ) (ls ms : List Bytes)
      → queue p (ls ++ ms) ≡ queue p ls ++ queue (p + lines_length ls) ms
  queue-append p [] ms = let e : p + 0 ≡ p = omega arith in rw e refl
  queue-append p (l ∷ ls) ms =
      let e : p + suc (length l + lines_length ls) ≡ p + length l + 1 + lines_length ls =
        omega arith in
      let next = queue-append (p + length l + 1) ls ms in
      elim (Option-cases (usable l)) [
        | inl h ↦
            queue-unusable p l (ls ++ ms) h
            ∙ next
            ∙ (rw e (
                ap (λ x. x ++ queue (p + length l + 1 + lines_length ls) ms)
                  (sym (queue-unusable p l ls h))))
        | inr (u, h) ↦
            queue-usable p l (ls ++ ms) u h
            ∙ ap (λ x. (p + length l + 1, u) ∷ x) next
            ∙ (rw e (
                ap (λ x. x ++ queue (p + length l + 1 + lines_length ls) ms)
                  (sym (queue-usable p l ls u h))))
      ]

  -- The queue is that of the lines between the committed offset and the read offset.
  pub record IsQueueOf (b : Bytes) (t : Tail) (pending : Pending) : Type 0 where
    pub read : List Bytes
    pub later : List Bytes
    pub lines : lines_at b t.offset ≡ read ++ later
    pub reach : t.read_offset ≡ t.offset + lines_length read
    pub queued : pending ≡ queue t.offset read

  -- Shipping a batch keeps the queue in step with the file and the new checkpoint.
  pub Shipped-IsQueueOf :
      (s : Settings) (now : ℕ) (b : Bytes) (a a' : Agent)
      → IsQueueOf b a.tail a.pending
      → Shipped s now a a'
      → IsQueueOf b a'.tail a'.pending
  Shipped-IsQueueOf s now b a a' q c =
      let cut =
        queue-Cut a.tail.offset q.read (next_batch s a) a'.pending c.at (sym q.queued ∙ sym c.order)
          c.behind in
      let behind =
        lines_at-behind cut.read (cut.todo ++ q.later) b a.tail.offset
          (q.lines ∙ ap (λ r. r ++ q.later) cut.split ∙ append_assoc cut.read cut.todo q.later) in
      rw c.offset (record {
        read = cut.todo;
        later = q.later;
        lines = ap (lines_at b) cut.position ∙ behind;
        reach = omega (
          arith,
          q.reach,
          cut.position,
          ap lines_length cut.split,
          lines_length-append cut.read cut.todo,
        );
        queued = cut.left;
      })
