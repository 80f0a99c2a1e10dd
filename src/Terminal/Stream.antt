-- ===== src/Terminal/Stream.antt =====
-- What a reader may rely on: the buffer of src/remote_host_mcp/terminal.py is a window on one stream of
-- output, which only loses its front.
use remote_host_mcp.Prelude.{
  ℕ, ◌+◌, ◌-◌, ◌≤◌, ◌≡◌, refl, ap, sym, ◌∙◌, Option, none, some, ◌++◌, take, drop, length, max, ltb,
  leb, arith, length-append, length-drop, drop-append, drop-drop, if◌then◌else◌,
}
use remote_host_mcp.Disk.{Bytes}
use remote_host_mcp.Terminal.State.{Session, buffer_end, extend_buffer, Slice, slice_at}

-- The abstract terminal: everything that was ever shown, and how much of its front is gone.
pub record Stream : Type 0 where
  pub shown : Bytes
  pub gone : ℕ

-- New output; at most `cap` bytes are kept.
unfoldable pub show : ℕ → Bytes → Stream → Stream
show cap out t = record {
  shown = t.shown ++ out;
  gone = max t.gone (length (t.shown ++ out) - cap);
}

-- Reading from a position: the output from there on, or from the first byte that is still kept.
unfoldable pub view : ℕ → ℕ → Stream → Option Slice
view requested max_bytes t =
    let from = max requested t.gone in
    let text = take max_bytes (drop from t.shown) in
    if ltb (length t.shown) from
    then none
    else some (record {
      cursor = from;
      next_cursor = from + length text;
      text = text;
      truncated = ltb requested t.gone;
      at_end = leb (length t.shown) (from + length text);
    })

-- The session holds the part of the stream that is not gone, and it is within its limit.
pub record Shows (t : Stream) (s : Session) : Type 0 where
  pub start : s.buffer_start ≡ t.gone
  pub inside : t.gone ≤ length t.shown
  pub window : s.buffer ≡ drop t.gone t.shown
  pub bounded : length s.buffer ≤ s.max_buffer_bytes

pub buffer_end-Shows : (t : Stream) (s : Session) → Shows t s → buffer_end s ≡ length t.shown
buffer_end-Shows t s v =
    omega (arith, v.start, v.inside, ap length v.window, length-drop t.gone t.shown)

pub extend_buffer-Shows :
    (t : Stream) (s : Session) (out : Bytes)
    → Shows t s
    → Shows (show s.max_buffer_bytes out t) (extend_buffer out s)
unfolding show extend_buffer
extend_buffer-Shows t s out v =
    let longer : s.buffer ++ out ≡ drop t.gone (t.shown ++ out) =
      ap (λ b. b ++ out) v.window ∙ sym (drop-append t.gone t.shown out v.inside) in
    let e = length-append s.buffer out in
    let total = length-append t.shown out in
    let here = buffer_end-Shows t s v in
    let excess = length (s.buffer ++ out) - s.max_buffer_bytes in
    let gone : max t.gone (length (t.shown ++ out) - s.max_buffer_bytes) ≡ t.gone + excess =
      omega (arith, here, v.start, e, total, v.bounded) in
    record {
      start = omega (arith, gone, v.start);
      inside = omega (arith, gone, here, v.start, e, total);
      window =
          ap (drop excess) longer
          ∙ drop-drop excess t.gone (t.shown ++ out)
          ∙ ap (λ k. drop k (t.shown ++ out)) (sym gone);
      bounded = omega (arith, length-drop excess (s.buffer ++ out));
    }

pub slice_at-view :
    (t : Stream) (s : Session) (requested max_bytes : ℕ)
    → Shows t s
    → slice_at requested max_bytes s ≡ view requested max_bytes t
unfolding slice_at view
slice_at-view t s requested max_bytes v =
    let same : drop (max requested s.buffer_start - s.buffer_start) s.buffer
        ≡ drop (max requested t.gone) t.shown =
      ap (drop (max requested s.buffer_start - s.buffer_start)) v.window
      ∙ drop-drop (max requested s.buffer_start - s.buffer_start) t.gone t.shown
      ∙ ap (λ k. drop k t.shown) (omega (arith, v.start)) in
    rw (same, buffer_end-Shows t s v, v.start) refl
