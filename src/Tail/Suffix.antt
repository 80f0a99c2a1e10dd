-- ===== src/Tail/Suffix.antt =====
-- The lines of a file from an offset on, cut behind a line.
use remote_host_mcp.Prelude.{
  ℕ, suc, ◌+◌, ◌≡◌, refl, List, [], ◌∷◌, ◌++◌, length, arith, Bool-cases, inl, inr, ◌==◌, drop,
  drop-drop,
}
use remote_host_mcp.Disk.{Bytes}
use remote_host_mcp.Tail.{split_lines, add_char}
use remote_host_mcp.Tail.Lines.{lines_length}

-- The complete lines from an offset on.
abbrev pub lines_at : Bytes → ℕ → List Bytes
lines_at b p = (split_lines (drop p b)).0

add_char-first :
    (c : ℕ) (s : Bytes) (p : List Bytes × Bytes) (l : Bytes) (rest : List Bytes)
    → ((m : Bytes) (ms : List Bytes)
        → p.0 ≡ m ∷ ms
        → (split_lines (drop (suc (length m)) s)).0 ≡ ms)
    → (split_lines s).0 ≡ p.0
    → (add_char c p).0 ≡ l ∷ rest
    → (split_lines (drop (suc (length l)) (c ∷ s))).0 ≡ rest
unfolding add_char
add_char-first c s ([], t) l rest next same h = elim (Bool-cases (c == 10)) [
  | inl e ↦
      let h' : [] ∷ [] ≡ l ∷ rest = rw e at h in
      let is_l : [] ≡ l = cc h' in let is_rest : [] ≡ rest = cc h' in rw (← is_l, ← is_rest) same
  | inr e ↦ let h' : [] ≡ l ∷ rest = rw e at h in absurd (ground arith)
]
add_char-first c s (m ∷ ms, t) l rest next same h = elim (Bool-cases (c == 10)) [
  | inl e ↦
      let h' : [] ∷ m ∷ ms ≡ l ∷ rest = rw e at h in
      let is_l : [] ≡ l = cc h' in
      let is_rest : m ∷ ms ≡ rest = cc h' in rw (← is_l, ← is_rest) same
  | inr e ↦
      let h' : (c ∷ m) ∷ ms ≡ l ∷ rest = rw e at h in
      let is_l : c ∷ m ≡ l = cc h' in
      let is_rest : ms ≡ rest = cc h' in rw (← is_l, ← is_rest) (next m ms refl)
]

split_lines-first :
    (s : Bytes) (l : Bytes) (rest : List Bytes)
    → (split_lines s).0 ≡ l ∷ rest
    → (split_lines (drop (suc (length l)) s)).0 ≡ rest
unfolding split_lines
split_lines-first [] l rest h = absurd (ground arith)
split_lines-first (c ∷ s) l rest h =
    add_char-first c s (split_lines s) l rest (split_lines-first s) refl h

pub lines_at-behind :
    (done todo : List Bytes) (b : Bytes) (p : ℕ)
    → lines_at b p ≡ done ++ todo
    → lines_at b (p + lines_length done) ≡ todo
lines_at-behind [] todo b p h = let e : p + 0 ≡ p = omega arith in rw e h
lines_at-behind (l ∷ done) todo b p h =
    let first = split_lines-first (drop p b) l (done ++ todo) h in
    let e : p + suc (length l + lines_length done) ≡ p + suc (length l) + lines_length done =
      omega arith in
    rw e (
      lines_at-behind done todo b (p + suc (length l))
        (rw (drop-drop (suc (length l)) p b) at first))
