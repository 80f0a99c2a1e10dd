-- ===== src/Files/Splicing.antt =====
-- The edits of `apply_line_patch` of src/remote_host_mcp/agent_ops.py, read from the top of the file down.
use remote_host_mcp.Prelude.{
  ◌&&◌, not, ◌==◌, take-add, take-length, drop-length, take-append-drop, ℕ, ◌-◌, ◌≤◌, ◌≡◌, refl, ap,
  sym, ◌∙◌, none, List, [], ◌∷◌, ◌++◌, take, drop, length, arith, append_assoc, length-take,
  drop-drop, Bool-cases, inl, inr,
}
use remote_host_mcp.Prelude.Text.{Text}
use remote_host_mcp.Files.Patch.{
  is_line_end, starts_line_feed, attach, splitlines, join, LineEdit, start_index, end_index,
  check_edits, apply_edits,
}

join-attach : (c : ℕ) (lines : List Text) → join (attach c lines) ≡ c ∷ join lines
unfolding join attach
join-attach c [] = refl
join-attach c (line ∷ lines) = refl

-- The lines of a text are the text.
pub join-splitlines : (t : Text) → join (splitlines t) ≡ t
unfolding join splitlines
join-splitlines [] = refl
join-splitlines (c ∷ cs) =
    elim (Bool-cases (is_line_end c && not (c == 13 && starts_line_feed cs))) [
      | inl e ↦ rw e (ap (λ l. c ∷ l) (join-splitlines cs))
      | inr e ↦ rw e (join-attach c (splitlines cs) ∙ ap (λ l. c ∷ l) (join-splitlines cs))
    ]

-- Lines from a position on, with edits at positions from there on: copy the lines up to an edit,
-- put its replacement, leave out what it deletes, and go on.
unfoldable pub edit_down : ℕ → List LineEdit → List Text → List Text
edit_down at [] rest = rest
edit_down at (e ∷ es) rest =
    take (start_index e - at) rest
    ++ (splitlines e.replacement ++ edit_down (end_index e) es (drop (end_index e - at) rest))

-- The edits from the last one up are the edits from the first one down.
pub apply_edits-down :
    (at : ℕ) (es : List LineEdit) (lines : List Text)
    → at ≤ length lines
    → check_edits (length lines) at es ≡ none
    → apply_edits es lines ≡ take at lines ++ edit_down at es (drop at lines)
unfolding apply_edits edit_down check_edits
apply_edits-down at [] lines h ok = sym (take-append-drop at lines)
apply_edits-down at (e ∷ es) lines h ok =
    let s = start_index e in
    let t = end_index e in
    let past : s ≤ t = omega arith in
    let inside : t ≤ length lines = ground (arith, ok) in
    let behind : at ≤ s = ground (arith, ok) in
    let later : check_edits (length lines) t es ≡ none = ground (arith, ok) in
    let rest = edit_down t es (drop t lines) in
    let front = take s lines in
    let middle = take (t - s) (drop s lines) in
    let whole : apply_edits es lines ≡ take t lines ++ rest =
      apply_edits-down t es lines inside later in
    let cut : take t lines ≡ front ++ middle =
      ap (λ n. take n lines) (omega (arith, past)) ∙ take-add s (t - s) lines in
    let size_s : length front ≡ s = omega (arith, length-take s lines, past, inside) in
    let size_t : length (take t lines) ≡ t = omega (arith, length-take t lines, inside) in
    let taken : take s (apply_edits es lines) ≡ front =
      ap (take s) (whole ∙ ap (λ l. l ++ rest) cut ∙ append_assoc front middle rest)
      ∙ ap (λ n. take n (front ++ (middle ++ rest))) (sym size_s)
      ∙ take-length front (middle ++ rest) in
    let dropped : drop t (apply_edits es lines) ≡ rest =
      ap (drop t) whole
      ∙ ap (λ n. drop n (take t lines ++ rest)) (sym size_t)
      ∙ drop-length (take t lines) rest in
    let start : front ≡ take at lines ++ take (s - at) (drop at lines) =
      ap (λ n. take n lines) (omega (arith, behind)) ∙ take-add at (s - at) lines in
    let end : drop (t - at) (drop at lines) ≡ drop t lines =
      drop-drop (t - at) at lines ∙ ap (λ n. drop n lines) (omega (arith, behind, past)) in
    rw (taken, dropped, start, end)
      (append_assoc (take at lines) (take (s - at) (drop at lines))
        (splitlines e.replacement ++ rest))
