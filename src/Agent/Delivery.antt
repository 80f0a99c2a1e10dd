-- ===== src/Agent/Delivery.antt =====
-- What `flush` does to the queue, the cursor and the waiting time, whatever the Hub answers.
use remote_host_mcp.Prelude.{
  ℕ, zero, suc, ◌+◌, ◌≤◌, ◌<◌, ◌≡◌, ◌≢◌, refl, ap, Bool, true, false, Option, some, List, [], ◌∷◌,
  ◌++◌, take, drop, length, arith, Bool-cases, inl, inr,
}
use remote_host_mcp.Json.{Json, Event}
use remote_host_mcp.Disk.{Bytes}
use remote_host_mcp.Hub.{Answer, Report, acked, unavailable, refused, broken, report}
use remote_host_mcp.Tail.{commit}
use remote_host_mcp.Agent.{
  Agent, Settings, Pending, returned, max_backoff, schedule_retry, commit_batch, commit_at,
  reset_backoff, last_offset, settle, flush, next_batch, batch_events,
}

-- The Hub took the batch, or refused it for good.
abbrev pub is_settled : Report → Bool
is_settled (acked ack) = ack.ok
is_settled (unavailable _) = false
is_settled (refused _) = true
is_settled broken = false

abbrev pub is_acked : Report → Bool
is_acked (acked ack) = ack.ok
is_acked (unavailable _) = false
is_acked (refused _) = false
is_acked broken = false

-- An exception of no kind of its own came back.
abbrev pub is_broken : Report → Bool
is_broken (acked _) = false
is_broken (unavailable _) = false
is_broken (refused _) = false
is_broken broken = true

pub settled-whole : (r : Report) → is_settled r ≡ true → is_broken r ≡ false
settled-whole (acked ack) h = refl
settled-whole (unavailable why) h = refl
settled-whole (refused why) h = refl
settled-whole broken h = absurd (ground arith)

-- The batch has left the queue, and the cursor stands behind its last event.
pub record Shipped (s : Settings) (now : ℕ) (a b : Agent) : Type 0 where
  pub order : next_batch s a ++ b.pending ≡ a.pending
  pub at : ℕ
  pub behind : last_offset (next_batch s a) ≡ some at
  pub saved : b.cursor ≡ some (record { at = at; file = a.tail.inode })
  pub offset : b.tail ≡ record a.tail { offset = at }
  pub calm : (b.backoff ≡ 0) × (b.next_attempt ≡ 0) × (b.last_flush ≡ now)
  pub rest : b ≡ record a {
    pending = b.pending;
    cursor = b.cursor;
    tail = b.tail;
    backoff = 0;
    next_attempt = 0;
    last_flush = now;
  }

-- Nothing but the waiting time has changed.
pub record Delayed (s : Settings) (now : ℕ) (a b : Agent) : Type 0 where
  pub kept : b.pending ≡ a.pending
  pub cursor : (b.cursor ≡ a.cursor) × (b.tail ≡ a.tail)
  pub rest : b ≡ record a { backoff = b.backoff; next_attempt = b.next_attempt }
  pub wait : b.backoff ≤ max_backoff
  pub grows : a.backoff ≤ max_backoff → a.backoff ≤ b.backoff
  pub retry : b.next_attempt ≡ now + b.backoff

last_offset-cons : (p : ℕ × Event) (b : Pending) → (at : ℕ) × (last_offset (p ∷ b) ≡ some at)
unfolding last_offset
last_offset-cons (at, e) [] = (at, refl)
last_offset-cons p (q ∷ b) = last_offset-cons q b

commit_batch-some :
    (value : Bool) (batch : Pending) (now : ℕ) (a : Agent) (at : ℕ)
    → last_offset batch ≡ some at
    → commit_batch value batch now a
      ≡ returned value
          (reset_backoff (commit_at at now (record a { pending = drop (length batch) a.pending })))
unfolding commit_batch
commit_batch-some value batch now a at h = rw (h, commit_batch) refl

take-drop-length : {A : Type 0} (n : ℕ) (l : List A) → take n l ++ drop (length (take n l)) l ≡ l
take-drop-length zero l = refl
take-drop-length (suc n) [] = refl
take-drop-length (suc n) (x ∷ xs) = ap (λ r. x ∷ r) (take-drop-length n xs)

last_offset-take :
    (n : ℕ) (l : Pending) → l ≢ [] → 0 < n → (at : ℕ) × (last_offset (take n l) ≡ some at)
last_offset-take zero l busy positive = absurd (omega arith)
last_offset-take (suc n) [] busy positive = absurd (busy refl)
last_offset-take (suc n) (p ∷ l) busy positive = last_offset-cons p (take n l)

commit_batch-Shipped :
    (s : Settings) (value : Bool) (now : ℕ) (a : Agent)
    → a.pending ≢ []
    → 0 < s.report_max_batch
    → (b : Agent) × (commit_batch value (next_batch s a) now a ≡ returned value b)
      × Shipped s now a b
commit_batch-Shipped s value now a busy positive =
    let (at, behind) = last_offset-take s.report_max_batch a.pending busy positive in
    (
      reset_backoff
          (commit_at at now (record a { pending = drop (length (next_batch s a)) a.pending })),
      commit_batch-some value (next_batch s a) now a at behind,
      unfold reset_backoff commit_at commit in
          record {
            order = take-drop-length s.report_max_batch a.pending;
            at = at;
            behind = behind;
            saved = refl;
            offset = refl;
            calm = (refl, refl, refl);
            rest = refl;
          },
    )

schedule_retry-Delayed :
    (s : Settings) (now : ℕ) (a : Agent) → Delayed s now a (schedule_retry s now a)
unfolding schedule_retry
schedule_retry-Delayed s now a = record {
  kept = refl;
  cursor = (refl, refl);
  rest = refl;
  wait = ground arith;
  grows = λ h. ground arith;
  retry = refl;
}

-- What a batch turns into: it is shipped where the Hub has settled it, and kept otherwise.
abbrev pub Flushed : Bool → Settings → ℕ → Agent → Agent → Type 0
Flushed true s now a b = Shipped s now a b
Flushed false s now a b = Delayed s now a b

settle-Flushed :
    (s : Settings) (now : ℕ) (r : Report) (a : Agent)
    → a.pending ≢ []
    → 0 < s.report_max_batch
    → is_broken r ≡ false
    → (b : Agent) × (settle s now (next_batch s a) r a ≡ returned (is_acked r) b)
      × Flushed (is_settled r) s now a b
unfolding settle
settle-Flushed s now broken a busy positive whole = absurd (ground arith)
settle-Flushed s now (unavailable why) a busy positive whole =
    (schedule_retry s now a, refl, schedule_retry-Delayed s now a)
settle-Flushed s now (refused why) a busy positive whole =
    commit_batch-Shipped s false now a busy positive
settle-Flushed s now (acked ack) a busy positive whole = elim (Bool-cases ack.ok) [
  | inl e ↦ rw e (commit_batch-Shipped s true now a busy positive)
  | inr e ↦ rw e (schedule_retry s now a, refl, schedule_retry-Delayed s now a)
]

module _ (loads : Bytes → Option Json) (hub : ℕ → List Event → Answer) (beat config : Answer) where
  -- The report that the client makes of the Hub's answer to the next batch.
  abbrev pub answer : Settings → ℕ → Agent → Report
  answer s n a = report loads (hub n (batch_events (next_batch s a)))

  flush-settle :
      (s : Settings) (n now : ℕ) (a : Agent)
      → a.pending ≢ []
      → flush loads hub beat config s n now a ≡ settle s now (next_batch s a) (answer s n a) a
  unfolding flush
  flush-settle s n now a busy = ground arith

  -- A flush with something to send raises nothing, unless the request raises an exception that is
  -- neither HubUnavailable nor HubRejected. It returns true exactly when the Hub acknowledged the
  -- batch. Where the Hub acknowledged or refused it, the batch is the front of
  -- the queue, what stays is the rest in the old order, the cursor file holds the offset of the
  -- batch's last event, and the waiting time is reset. In every other case nothing but the
  -- waiting time changes, which does not shrink, and the next attempt is at most 300 seconds away.
  pub flush-Flushed :
      (s : Settings) (n now : ℕ) (a : Agent)
      → a.pending ≢ []
      → 0 < s.report_max_batch
      → is_broken (answer s n a) ≡ false
      → (b : Agent) × (flush loads hub beat config s n now a ≡ returned (is_acked (answer s n a)) b)
        × Flushed (is_settled (answer s n a)) s now a b
  unfolding flush
  flush-Flushed s n now a busy positive whole =
      rw (flush-settle s n now a busy) (settle-Flushed s now (answer s n a) a busy positive whole)
