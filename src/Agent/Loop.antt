-- ===== src/Agent/Loop.antt =====
-- The loop of `cycle` that sends batches (`flush_loop`): it ends, events leave the queue from the front, and
-- a Hub that acknowledges everything gets all of them.
use remote_host_mcp.Prelude.{
  ℕ, zero, suc, ◌≤◌, ◌<◌, ◌≡◌, ◌≢◌, refl, ap, ◌∙◌, Bool, true, false, Option, some, List, [], ◌∷◌,
  ◌++◌, length, length-append, arith, Bool-cases, inl, inr, leb, if◌then◌else◌, append_assoc,
  leb→le, le→leb, ◌⊎◌,
}
use remote_host_mcp.Json.{Json, Event}
use remote_host_mcp.Disk.{Bytes}
use remote_host_mcp.Hub.{Answer, Report, acked, unavailable, refused, broken}
use remote_host_mcp.Agent.{
  Agent, Settings, Pending, Reply, returned, flush, flush_loop, next_batch, last_offset,
}
use remote_host_mcp.Agent.Delivery.{
  Shipped, Flushed, is_acked, is_settled, is_broken, settled-whole, answer, flush-Flushed,
}

is_acked-is_settled : (r : Report) → is_acked r ≡ true → is_settled r ≡ true
is_acked-is_settled (acked ack) h = h
is_acked-is_settled (unavailable why) h = absurd (ground arith)
is_acked-is_settled broken h = absurd (ground arith)
is_acked-is_settled (refused why) h = refl

last_offset-nonempty : (l : Pending) (at : ℕ) → last_offset l ≡ some at → 0 < length l
unfolding last_offset
last_offset-nonempty [] at h = absurd (ground arith)
last_offset-nonempty (p ∷ l) at h = omega arith

-- A shipped batch makes the queue shorter.
Shipped-shorter :
    (s : Settings) (now : ℕ) (a b : Agent) → Shipped s now a b → length b.pending < length a.pending
Shipped-shorter s now a b c = omega (
  arith,
  ap length c.order,
  length-append (next_batch s a) b.pending,
  last_offset-nonempty (next_batch s a) c.at c.behind,
)

-- What left the queue is a front of it.
pub record LeftInOrder (a b : Agent) : Type 0 where
  pub front : Pending
  pub order : front ++ b.pending ≡ a.pending

LeftInOrder-trans : {a b c : Agent} → LeftInOrder a b → LeftInOrder b c → LeftInOrder a c
LeftInOrder-trans {a = a} {b = b} {c = c} f g = record {
  front = f.front ++ g.front;
  order = append_assoc f.front g.front c.pending ∙ ap (λ l. f.front ++ l) g.order ∙ f.order;
}

Flushed-LeftInOrder :
    (settled : Bool) (s : Settings) (now : ℕ) (a b : Agent)
    → Flushed settled s now a b
    → LeftInOrder a b
Flushed-LeftInOrder true s now a b c = record { front = next_batch s a; order = c.order }
Flushed-LeftInOrder false s now a b c = record { front = []; order = c.kept }

-- How a run of the loop comes out.
pub record LoopDone (r : Option Reply) (a : Agent) : Type 0 where
  pub value : Bool
  pub final : Agent
  pub returns : r ≡ some (returned value final)
  pub left : LeftInOrder a final

pub LeftInOrder-below : (a b : Agent) → LeftInOrder a b → length b.pending ≤ length a.pending
LeftInOrder-below a b l = omega (arith, ap length l.order, length-append l.front b.pending)

is_empty-cases : {A : Type 0} (l : List A) → (l ≡ []) ⊎ (l ≢ [])
is_empty-cases [] = inl refl
is_empty-cases (x ∷ l) = inr (ground arith)

module _ (loads : Bytes → Option Json) (hub : ℕ → List Event → Answer) (beat config : Answer) where
  flush_loop-round :
      (fuel : ℕ) (s : Settings) (clock : ℕ → ℕ) (n now : ℕ) (a b : Agent) (value : Bool)
      → a.pending ≢ []
      → a.next_attempt ≤ now
      → flush loads hub beat config s n now a ≡ returned value b
      → flush_loop loads hub beat config (suc fuel) s clock n now a ≡ (
          if value
          then flush_loop loads hub beat config fuel s clock (suc n) (clock n) b
          else some (returned true b))
  unfolding flush_loop
  flush_loop-round fuel s clock n now a b value busy due h =
      let e : leb a.next_attempt now ≡ true = le→leb _ _ due in ground (arith, h, e)

  flush_loop-stops :
      (fuel : ℕ) (s : Settings) (clock : ℕ → ℕ) (n now : ℕ) (a : Agent)
      → (a.pending ≡ []) ⊎ (now < a.next_attempt)
      → (value : Bool) × (flush_loop loads hub beat config (suc fuel) s clock n now a
          ≡ some (returned value a))
  unfolding flush_loop
  flush_loop-stops fuel s clock n now a (inl e) = (false, ground arith)
  flush_loop-stops fuel s clock n now a (inr later) =
      let e : leb a.next_attempt now ≡ false = ground arith in
      elim (is_empty-cases a.pending) [
        | inl h ↦ (false, ground arith)
        | inr h ↦ (true, ground arith)
      ]

  loop-cases :
      (now : ℕ) (a : Agent)
      → ((a.pending ≡ []) ⊎ (now < a.next_attempt)) ⊎ (a.pending ≢ []) × (a.next_attempt ≤ now)
  loop-cases now a = elim (is_empty-cases a.pending) [
    | inl e ↦ inl (inl e)
    | inr busy ↦ elim (Bool-cases (leb a.next_attempt now)) [
      | inl due ↦ inr (busy, leb→le _ _ due)
      | inr later ↦ inl (inr (ground arith))
    ]
  ]

  LoopDone-round :
      (r q : Option Reply) (a b : Agent) → q ≡ r → LeftInOrder a b → LoopDone r b → LoopDone q a
  LoopDone-round r q a b e left d = record {
    value = d.value;
    final = d.final;
    returns = e ∙ d.returns;
    left = LeftInOrder-trans left d.left;
  }

  pub flush_loop-ends :
      (fuel : ℕ) (s : Settings) (clock : ℕ → ℕ) (n now : ℕ) (a : Agent)
      → 0 < s.report_max_batch
      → length a.pending < fuel
      → ((k : ℕ) (b : Agent) → is_broken (answer loads hub beat config s k b) ≡ false)
      → LoopDone (flush_loop loads hub beat config fuel s clock n now a) a
  flush_loop-ends zero s clock n now a positive enough whole = absurd (omega arith)
  flush_loop-ends (suc fuel) s clock n now a positive enough whole = elim (loop-cases now a) [
    | inl stop ↦
        let (value, e) = flush_loop-stops fuel s clock n now a stop in
        record { value = value; final = a; returns = e; left = record { front = []; order = refl } }
    | inr (busy, due) ↦
        let (b, e, f) = flush-Flushed loads hub beat config s n now a busy positive (whole n a) in
        let r = answer loads hub beat config s n a in
        let round = flush_loop-round fuel s clock n now a b (is_acked r) busy due e in
        let left = Flushed-LeftInOrder (is_settled r) s now a b f in
        elim (Bool-cases (is_acked r)) [
          | inl yea ↦
              let shipped : Shipped s now a b = rw (is_acked-is_settled r yea) at f in
              LoopDone-round _ _ a b (rw yea at round) left (
                flush_loop-ends fuel s clock (suc n) (clock n) b positive
                  (omega (arith, Shipped-shorter s now a b shipped)) whole)
          | inr nay ↦ record { value = true; final = b; returns = rw nay at round; left = left }
        ]
  ]

  -- A Hub that acknowledges every batch gets the whole queue.
  pub flush_loop-drains :
      (fuel : ℕ) (s : Settings) (clock : ℕ → ℕ) (n now : ℕ) (a : Agent)
      → 0 < s.report_max_batch
      → length a.pending < fuel
      → a.next_attempt ≤ now
      → ((k : ℕ) (b : Agent) → is_acked (answer loads hub beat config s k b) ≡ true)
      → (b : Agent) × (flush_loop loads hub beat config fuel s clock n now a
          ≡ some (returned false b))
        × (b.pending ≡ [])
  flush_loop-drains zero s clock n now a positive enough due acks = absurd (omega arith)
  flush_loop-drains (suc fuel) s clock n now a positive enough due acks =
      elim (is_empty-cases a.pending) [
        | inl e ↦ (a, unfold flush_loop in ground arith, e)
        | inr busy ↦
            let (b, e, f) = flush-Flushed loads hub beat config s n now a busy positive (
              settled-whole (answer loads hub beat config s n a)
                (is_acked-is_settled (answer loads hub beat config s n a) (acks n a))) in
            let r = answer loads hub beat config s n a in
            let round = flush_loop-round fuel s clock n now a b (is_acked r) busy due e in
            let shipped : Shipped s now a b = rw (is_acked-is_settled r (acks n a)) at f in
            let (c, g, h) =
              flush_loop-drains fuel s clock (suc n) (clock n) b positive
                (omega (arith, Shipped-shorter s now a b shipped)) (omega (arith, shipped.calm.1))
                acks in
            (c, (rw (acks n a) at round) ∙ g, h)
      ]
