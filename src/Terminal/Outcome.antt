-- ===== src/Terminal/Outcome.antt =====
-- How a command in a terminal of src/remote_host_mcp/terminal.py may come out, in any order of events.
use remote_host_mcp.Disk.{is_some}
use remote_host_mcp.Prelude.{
  ℕ, ◌≤◌, ◌≡◌, refl, ap, ◌∙◌, Bool, true, false, not, ◌||◌, ◌==◌, Option, none, some, arith, inl,
  inr, Bool-cases, Option-cases,
}
use remote_host_mcp.Prelude.Int.{ℤ}
use remote_host_mcp.Terminal.Markers.{signed}
use remote_host_mcp.Terminal.State.{
  Source, osc133, sentinel, terminal_exit, foreground_pgid, Pending, Session, buffer_end,
}
use remote_host_mcp.Terminal.Commands.{
  settle, Round, mark_complete, semantic_of, is_group, see_foreground, handed_back, watch_groups,
  watch_command,
}
use remote_host_mcp.Terminal.Output.{Kept, StillRuns, settle-StillRuns}

is_group-some : (f : Option ℕ) (g : ℕ) → is_group f g ≡ true → f ≡ some g
is_group-some none g h = absurd (ground (arith, h))
is_group-some (some f) g h = ap some (ground (arith, h))

-- `seen` are the rounds of the monitor that there were.
module _ (seen : Round → Type 0) where
  -- Where the exit code of a completed command comes from: the status that its end marker told, the
  -- done file or the end of the shell as a round saw it, or a signal that was noted for it, after which
  -- a round saw that the shell had the terminal back from it at both looks.
  pub data Reason (p : Pending) : Type 0 where
    by_marker :
        p.completion_source ≡ some osc133
        → p.exit_code ≡ p.semantic_exit_code
        → is_some p.semantic_exit_code ≡ true
        → Reason p
    by_file :
        (r : Round)
        → seen r
        → r.done_file ≡ some p.exit_code
        → p.completion_source ≡ some sentinel
        → Reason p
    by_exit :
        (r : Round)
        → seen r
        → r.alive ≡ false
        → r.done_file ≡ none
        → p.exit_code ≡ r.exit_status
        → p.completion_source ≡ some terminal_exit
        → Reason p
    by_group :
        (n shell : ℕ) (r : Round)
        → seen r
        → r.shell_group ≡ some shell
        → r.foreground ≡ some shell
        → r.foreground_later ≡ some shell
        → r.alive_later ≡ true
        → r.done_later ≡ false
        → p.completion_source ≡ some foreground_pgid
        → p.signal_number ≡ some n
        → p.exit_code ≡ some (signed true n)
        → p.saw_non_shell ≡ true
        → Reason p

  -- A command is open, with nothing said about its end, or it has ended between its start and the end
  -- of the output, for a reason.
  pub data Explained (end : ℕ) (p : Pending) : Type 0 where
    open_still :
        p.completed ≡ false
        → p.exit_code ≡ none
        → p.end_cursor ≡ none
        → p.completion_source ≡ none
        → p.start_cursor ≤ end
        → Explained end p
    has_ended :
        p.completed ≡ true
        → (at : ℕ) → p.end_cursor ≡ some at
        → p.start_cursor ≤ at
        → at ≤ end
        → Reason p
        → Explained end p

  abbrev pub IsExplained : Session → Type 0
  IsExplained s = (p : Pending) → s.pending ≡ some p → Explained (buffer_end s) p

  Explained-Kept :
      (end later : ℕ) (p q : Pending) → Kept p q → end ≤ later → Explained end p → Explained later q
  Explained-Kept end later p q k h (open_still a b c d low) =
      rw k.same (open_still a b c d (omega (arith, h, low)))
  Explained-Kept end later p q k h (has_ended a at b low high r) =
      rw (k.frozen a) (has_ended a at b low (omega (arith, h, high)) r)

  pub StillRuns-IsExplained :
      (s t : Session) (p : Pending) → Explained (buffer_end s) p → StillRuns s t p → IsExplained t
  StillRuns-IsExplained s t p x r q e =
      let same : r.now_is ≡ q = ground (arith, r.found, e) in
      Explained-Kept (buffer_end s) (buffer_end t) p q (rw same at r.kept) r.grown x

  abbrev marked : Option ℤ → Source → ℕ → Pending → Pending
  marked code source at q = record q {
    exit_code = code;
    completion_source = some source;
    end_cursor = some at;
    completed = true;
  }

  mark_complete-IsExplained :
      (now : ℕ) (code : Option ℤ) (source : Source) (s : Session) (q : Pending)
      → s.pending ≡ some q
      → q.start_cursor ≤ buffer_end s
      → Reason (marked code source (buffer_end s) q)
      → IsExplained (mark_complete now code source s)
  unfolding mark_complete
  mark_complete-IsExplained now code source s q e low r =
      rw (e, mark_complete)
        (λ p f.
          let same : marked code source (buffer_end s) q ≡ p = ground (arith, f) in
          rw (← same) (has_ended refl (buffer_end s) refl low (omega arith) r))

  Explained-start : (end : ℕ) (p : Pending) → Explained end p → p.start_cursor ≤ end
  Explained-start end p (open_still a b c d low) = low
  Explained-start end p (has_ended a at b low high r) = omega (arith, low, high)

  StillRuns-start :
      (s t : Session) (p : Pending)
      → Explained (buffer_end s) p
      → (x : StillRuns s t p) → x.now_is.start_cursor ≤ buffer_end t
  StillRuns-start s t p v x = omega (
    arith,
    Explained-start (buffer_end s) p v,
    x.grown,
    ap (λ (q : Pending). q.start_cursor) x.kept.same,
  )

  -- A round in which the command is still running when it has been settled.
  settled-IsExplained :
      (r : Round) (p : Pending) (s : Session)
      → s.pending ≡ some p
      → Explained (buffer_end s) p
      → IsExplained (settle r.during s)
  settled-IsExplained r p s e v =
      StillRuns-IsExplained s (settle r.during s) p v (settle-StillRuns r.during s p e)

  -- What is noted of an open command explains nothing yet.
  pub Explained-noted :
      (end : ℕ) (p : Pending) (number group : Option ℕ) (saw : Bool)
      → p.completed ≡ false
      → Explained end p
      → Explained end
          (record p { signal_number = number; foreground_group = group; saw_non_shell = saw })
  Explained-noted end p number group saw running (open_still a b c d low) = open_still a b c d low
  Explained-noted end p number group saw running (has_ended a at b low high r) =
      absurd (ground (arith, a, running))

  see_foreground-IsExplained :
      (r : Round) (group : ℕ) (p : Pending) (s : Session)
      → s.pending ≡ some p
      → p.completed ≡ false
      → Explained (buffer_end s) p
      → IsExplained (settle r.during (see_foreground group s))
  unfolding see_foreground
  see_foreground-IsExplained r group p s e running v =
      let p' : Pending = record p { saw_non_shell = true; foreground_group = some group } in
      rw (e, see_foreground)
        (settled-IsExplained r p' (record s { pending = some p' }) refl
          (Explained-noted (buffer_end s) p p.signal_number (some group) true running v))

  handed_back-IsExplained :
      (r : Round) (shell number : ℕ) (p : Pending) (s : Session)
      → seen r
      → r.shell_group ≡ some shell
      → r.foreground ≡ some shell
      → s.pending ≡ some p
      → p.signal_number ≡ some number
      → p.saw_non_shell ≡ true
      → Explained (buffer_end s) p
      → IsExplained (handed_back r shell number s)
  unfolding handed_back
  handed_back-IsExplained r shell number p s z a b e signal saw v =
      let t = settle r.during s in
      let x = settle-StillRuns r.during s p e in
      let q = x.now_is in
      elim (Bool-cases (
        is_some (semantic_of t)
        || r.done_later
        || not r.alive_later
        || not (is_group r.foreground_later shell))) [
          | inl h ↦ rw (h, handed_back) (settled-IsExplained r p s e v)
          | inr h ↦
              rw (h, handed_back)
                (mark_complete-IsExplained r.now (some (signed true number)) foreground_pgid t q
                  x.found (StillRuns-start s t p v x)
                  (by_group number shell r z a b
                    (is_group-some r.foreground_later shell (ground (arith, h))) (ground (arith, h))
                    (ground (arith, h)) refl
                    (ap (λ (y : Pending). y.signal_number) x.kept.same ∙ signal) refl
                    (ap (λ (y : Pending). y.saw_non_shell) x.kept.same ∙ saw)))
        ]

  watch_groups-IsExplained :
      (r : Round) (p : Pending) (s : Session)
      → seen r
      → s.pending ≡ some p
      → p.completed ≡ false
      → Explained (buffer_end s) p
      → IsExplained (watch_groups r p s)
  unfolding watch_groups
  watch_groups-IsExplained r p s z e running v =
      let quiet = settled-IsExplained r p s e v in
      elim (Option-cases r.shell_group) [
        | inl a ↦ rw (a, watch_groups) quiet
        | inr (shell, a) ↦ elim (Option-cases r.foreground) [
          | inl b ↦ rw (a, b, watch_groups) quiet
          | inr (group, b) ↦ elim (Bool-cases (group == shell)) [
            | inr c ↦
                rw (a, b, c, watch_groups) (see_foreground-IsExplained r group p s e running v)
            | inl c ↦ elim (Option-cases p.signal_number) [
              | inl d ↦ rw (a, b, c, d, watch_groups) quiet
              | inr (number, d) ↦ elim (Bool-cases p.saw_non_shell) [
                | inl saw ↦
                    let same_group : group ≡ shell = ground (arith, c) in
                    rw (a, b, c, d, saw, watch_groups)
                      (handed_back-IsExplained r shell number p s z a (b ∙ ap some same_group) e d
                        saw v)
                | inr f ↦ rw (a, b, c, d, f, watch_groups) quiet
              ]
            ]
          ]
        ]
      ]

  pub watch_command-IsExplained :
      (r : Round) (p : Pending) (s : Session)
      → seen r
      → s.pending ≡ some p
      → p.completed ≡ false
      → Explained (buffer_end s) p
      → IsExplained (watch_command r p s)
  unfolding watch_command
  watch_command-IsExplained r p s z e running v =
      let t = settle r.during s in
      let x = settle-StillRuns r.during s p e in
      let low = StillRuns-start s t p v x in
      elim (Option-cases p.semantic_exit_code) [
        | inr (code, a) ↦
            rw (a, watch_command)
              (mark_complete-IsExplained r.now (semantic_of t) osc133 t x.now_is x.found low
                (by_marker refl (ground (arith, x.found)) (x.kept.told (ground (arith, a)))))
        | inl a ↦ elim (Option-cases r.done_file) [
          | inr (code, b) ↦
              rw (a, b, watch_command)
                (mark_complete-IsExplained r.now code sentinel t x.now_is x.found low
                  (by_file r z b refl))
          | inl b ↦ elim (Bool-cases r.alive) [
            | inl c ↦ rw (a, b, c, watch_command) (watch_groups-IsExplained r p s z e running v)
            | inr c ↦
                rw (a, b, c, watch_command)
                  (mark_complete-IsExplained r.now r.exit_status terminal_exit t x.now_is x.found
                    low (by_exit r z c b refl refl))
          ]
        ]
      ]
