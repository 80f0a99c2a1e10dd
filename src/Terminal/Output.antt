-- ===== src/Terminal/Output.antt =====
-- What output does to the command of a terminal of src/remote_host_mcp/terminal.py.
use remote_host_mcp.Prelude.{
  is_nil, ℕ, ◌-◌, ◌≤◌, ◌≡◌, refl, ap, ◌∙◌, true, not, ◌&&◌, none, some, List, [], ◌∷◌, ◌++◌, length,
  arith, inl, inr, Bool-cases, Option-cases, length-append, length-drop,
}
use remote_host_mcp.Prelude.Text.{text_eq}
use remote_host_mcp.Disk.{is_some, Bytes}
use remote_host_mcp.Terminal.Markers.{Marker, status_value, strip_markers}
use remote_host_mcp.Terminal.State.{
  Pending, Session, buffer_end, consume, consume_all, extend_buffer, append_output,
}
use remote_host_mcp.Terminal.Commands.{settle}

-- The same command, but for the status that a marker has told; what is told is not forgotten, and a
-- completed command is not touched.
pub record Kept (p q : Pending) : Type 0 where
  pub same : q ≡ record p { semantic_exit_code = q.semantic_exit_code }
  pub told : is_some p.semantic_exit_code ≡ true → is_some q.semantic_exit_code ≡ true
  pub frozen : p.completed ≡ true → q ≡ p

Kept-refl : (p : Pending) → Kept p p
Kept-refl p = record { same = refl; told = λ h. h; frozen = λ h. refl }

Kept-trans : (p q r : Pending) → Kept p q → Kept q r → Kept p r
Kept-trans p q r f g = record {
  same =
      g.same ∙ ap (λ (x : Pending). record x { semantic_exit_code = r.semantic_exit_code }) f.same;
  told = λ h. g.told (f.told h);
  frozen = λ h. g.frozen (ap (λ (x : Pending). x.completed) (f.frozen h) ∙ h) ∙ f.frozen h;
}

consume-Kept : (m : Marker) (p : Pending) → (q : Pending) × (consume m (some p) ≡ some q) × Kept p q
unfolding consume
consume-Kept m p = elim (Option-cases m.status) [
  | inl e ↦ (p, rw (e, consume) refl, Kept-refl p)
  | inr ((minus, ds), e) ↦
      elim (Bool-cases (m.is_done && not p.completed && text_eq p.command_id m.id)) [
        | inr other ↦ (p, rw (e, other, consume) refl, Kept-refl p)
        | inl own ↦ elim (Option-cases (status_value minus ds)) [
          | inl f ↦ (p, rw (e, own, f, consume) refl, Kept-refl p)
          | inr (code, f) ↦ (
            record p { semantic_exit_code = some code },
            rw (e, own, f, consume) refl,
            record { same = refl; told = λ h. refl; frozen = λ h. absurd (ground (arith, own, h)) },
          )
        ]
      ]
]

consume_all-Kept :
    (ms : List Marker) (p : Pending) → (q : Pending) × (consume_all ms (some p) ≡ some q) × Kept p q
unfolding consume_all
consume_all-Kept [] p = (p, refl, Kept-refl p)
consume_all-Kept (m ∷ ms) p =
    let (q, e, k) = consume-Kept m p in
    let (r, f, l) = consume_all-Kept ms q in (r, rw (e, consume_all) f, Kept-trans p q r k l)

extend_buffer-grows : (out : Bytes) (s : Session) → buffer_end s ≤ buffer_end (extend_buffer out s)
unfolding extend_buffer
extend_buffer-grows out s =
    let longer = s.buffer ++ out in
    omega
      (arith, length-append s.buffer out, length-drop (length longer - s.max_buffer_bytes) longer)

-- The command of a session afterwards, and a buffer that has not shrunk at its end.
pub record StillRuns (s t : Session) (p : Pending) : Type 0 where
  pub now_is : Pending
  pub found : t.pending ≡ some now_is
  pub kept : Kept p now_is
  pub grown : buffer_end s ≤ buffer_end t

pub append_output-StillRuns :
    (now : ℕ) (chunk : Bytes) (s : Session) (p : Pending)
    → s.pending ≡ some p
    → StillRuns s (append_output now chunk s) p
unfolding append_output
append_output-StillRuns now [] s p e = record {
  now_is = p;
  found = e;
  kept = Kept-refl p;
  grown = omega arith;
}
append_output-StillRuns now (b ∷ bs) s p e =
    let (out, tail, ms) = strip_markers s.osc_tail (b ∷ bs) in
    let (q, f, k) = consume_all-Kept ms p in
    let found : consume_all ms s.pending ≡ some q = rw e f in
    elim (Bool-cases (is_nil out)) [
      | inl h ↦
          rw (h, append_output)
            (record { now_is = q; found = found; kept = k; grown = omega arith })
      | inr h ↦
          rw (h, append_output)
            (record {
              now_is = q;
              found = (unfold extend_buffer in found);
              kept = k;
              grown =
                  (extend_buffer-grows out
                    (record s { osc_tail = tail; pending = consume_all ms s.pending }));
            })
    ]

pub settle-StillRuns :
    (chunks : List (ℕ × Bytes)) (s : Session) (p : Pending)
    → s.pending ≡ some p
    → StillRuns s (settle chunks s) p
unfolding settle
settle-StillRuns [] s p e = record {
  now_is = p;
  found = e;
  kept = Kept-refl p;
  grown = omega arith;
}
settle-StillRuns ((now, chunk) ∷ rest) s p e =
    let first = append_output-StillRuns now chunk s p e in
    let later = settle-StillRuns rest (append_output now chunk s) first.now_is first.found in
    record {
      now_is = later.now_is;
      found = later.found;
      kept = Kept-trans p first.now_is later.now_is first.kept later.kept;
      grown = omega (arith, first.grown, later.grown);
    }

consume_all-none : (ms : List Marker) → consume_all ms none ≡ none
unfolding consume_all consume
consume_all-none [] = refl
consume_all-none (m ∷ ms) = consume_all-none ms

pub append_output-idle :
    (now : ℕ) (chunk : Bytes) (s : Session)
    → s.pending ≡ none
    → (append_output now chunk s).pending ≡ none
unfolding append_output extend_buffer
append_output-idle now [] s e = e
append_output-idle now (b ∷ bs) s e =
    let (out, tail, ms) = strip_markers s.osc_tail (b ∷ bs) in
    let idle : consume_all ms s.pending ≡ none = rw e (consume_all-none ms) in
    elim (Bool-cases (is_nil out)) [
      | inl h ↦ rw (h, append_output) idle
      | inr h ↦ rw (h, append_output) idle
    ]
