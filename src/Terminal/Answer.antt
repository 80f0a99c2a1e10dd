-- ===== src/Terminal/Answer.antt =====
-- What `exec` of src/remote_host_mcp/terminal.py answers with.
use remote_host_mcp.Prelude.{
  ℕ, Bool, true, false, ◌-◌, ◌≤◌, ◌≡◌, refl, ap, ◌∙◌, some, take, drop, length, min, max, arith,
  drop-drop, ltb,
}
use remote_host_mcp.Prelude.Text.{Text}
use remote_host_mcp.Disk.{Bytes}
use remote_host_mcp.Redact.PathKey.{hide_key}
use remote_host_mcp.Terminal.State.{Pending, Session, buffer_end, output_between}
use remote_host_mcp.Terminal.Commands.{Limits, answer_exec}
use remote_host_mcp.Terminal.Stream.{Stream, Shows, buffer_end-Shows}

-- A stretch of the output, if the buffer still holds its front.
output_between-stretch :
    (start at max_bytes : ℕ) (t : Stream) (s : Session)
    → Shows t s
    → start ≤ at
    → at ≤ length t.shown
    → t.gone ≤ at
    → let o = output_between start (some at) max_bytes s in
      let from = max start t.gone in
      (o.truncated ≡ ltb start t.gone)
      × (o.cursor ≡ from)
      × (o.text ≡ take (min max_bytes (at - from)) (drop from t.shown))
unfolding output_between
output_between-stretch start at max_bytes t s v h k g =
    let end = buffer_end-Shows t s v in
    let from = max start t.gone in
    let cursor : min (max start s.buffer_start) (min at (buffer_end s)) ≡ from =
      omega (arith, end, v.start, h, k, g) in
    let upper : min at (buffer_end s) ≡ at = omega (arith, end, k) in
    let text : drop (from - s.buffer_start) s.buffer ≡ drop from t.shown =
      ap (drop (from - s.buffer_start)) v.window
      ∙ drop-drop (from - s.buffer_start) t.gone t.shown
      ∙ ap (λ n. drop n t.shown) (omega (arith, v.start)) in
    (rw v.start refl, cursor, rw (cursor, upper, text) refl)

-- The answer for a command that has ended, while the buffer still reaches back behind its end: its
-- exit code and where that comes from, and as its output the stretch of the terminal's output
-- between its start and its end, up to the limit of a read, decoded and with the key of the path
-- taken out; it begins later, and is marked, exactly when the front of it is gone from the buffer.
pub answer_exec-stretch :
    (decode : Bytes → Text) (path_key : Text) (l : Limits) (now at : ℕ) (alive : Bool) (p : Pending)
    (t : Stream) (s : Session)
    → Shows t s
    → p.completed ≡ true
    → p.end_cursor ≡ some at
    → p.start_cursor ≤ at
    → at ≤ length t.shown
    → t.gone ≤ at
    → let r = (answer_exec decode path_key l now alive p s).0 in
      let from = max p.start_cursor t.gone in
      (r.completed ≡ true)
      × (r.still_running ≡ false)
      × (r.exit_code ≡ p.exit_code)
      × (r.completion_source ≡ p.completion_source)
      × (r.truncated_before_cursor ≡ ltb p.start_cursor t.gone)
      × (r.cursor ≡ from)
      × (r.output
          ≡ hide_key path_key
              (decode (take (min l.terminal_read_max_bytes (at - from)) (drop from t.shown))))
unfolding answer_exec
answer_exec-stretch decode path_key l now at alive p t s v done ends h k g =
    let (a, b, c) =
      output_between-stretch p.start_cursor at l.terminal_read_max_bytes t s v h k g in
    rw (done, ends) (refl, refl, refl, refl, a, b, ap (λ o. hide_key path_key (decode o)) c)
