-- ===== src/Tail/Lines.antt =====
-- Lines in chunks: splitting, positions, and the events that a run of lines gives.
use native.Mathlib.Nat.{zero-add, suc-add}
use remote_host_mcp.Prelude.{
  ℕ, suc, ◌+◌, ◌≡◌, refl, ap, true, List, [], ◌∷◌, ◌++◌, length, arith, Bool-cases, inl, inr, ◌==◌,
  drop, ◌∙◌,
}
use remote_host_mcp.Disk.{Bytes}
use remote_host_mcp.Tail.{split_lines, position_after, add_char}

-- The length of the complete lines of a chunk, with their line ends.
abbrev pub lines_length : List Bytes → ℕ
lines_length [] = 0
lines_length (l ∷ rest) = suc (length l + lines_length rest)

pub position_after-eq : (p : ℕ) (ls : List Bytes) → position_after p ls ≡ p + lines_length ls
unfolding position_after
position_after-eq p [] = omega arith
position_after-eq p (l ∷ rest) = omega (arith, position_after-eq (p + length l + 1) rest)

-- A chunk is its complete lines and the unfinished one.
add_char-length :
    (c : ℕ) (p : List Bytes × Bytes)
    → lines_length (add_char c p).0 + length (add_char c p).1 ≡ suc (lines_length p.0 + length p.1)
unfolding add_char
add_char-length c ([], t) = ground arith
add_char-length c (l ∷ rest, t) = ground arith

pub split_lines-length :
    (s : Bytes) → lines_length (split_lines s).0 + length (split_lines s).1 ≡ length s
unfolding split_lines
split_lines-length [] = omega arith
split_lines-length (c ∷ s) = omega (arith, add_char-length c (split_lines s), split_lines-length s)

add_char-drop :
    (c : ℕ) (s : Bytes) (p : List Bytes × Bytes)
    → drop (lines_length p.0) s ≡ p.1
    → drop (lines_length (add_char c p).0) (c ∷ s) ≡ (add_char c p).1
unfolding add_char
add_char-drop c s ([], t) h = elim (Bool-cases (c == 10)) [
  | inl e ↦ rw e h
  | inr e ↦ rw e (ap (λ l. c ∷ l) h)
]
add_char-drop c s (l ∷ rest, t) h = elim (Bool-cases (c == 10)) [
  | inl e ↦ rw e (ap (λ k. drop k s) (zero-add (lines_length (l ∷ rest))) ∙ h)
  | inr e ↦ rw e (ap (λ k. drop k s) (suc-add (length l) (lines_length rest)) ∙ h)
]

-- Behind the complete lines of a chunk stands its unfinished line.
pub drop-split_lines : (s : Bytes) → drop (lines_length (split_lines s).0) s ≡ (split_lines s).1
unfolding split_lines
drop-split_lines [] = refl
drop-split_lines (c ∷ s) = add_char-drop c s (split_lines s) (drop-split_lines s)

add_char-newline :
    (c : ℕ) (p : List Bytes × Bytes) → c == 10 ≡ true → add_char c p ≡ ([] ∷ p.0, p.1)
unfolding add_char
add_char-newline c ([], t) e = rw e
add_char-newline c (l ∷ rest, t) e = rw e

-- What is appended to a chunk goes on with its unfinished line.
abbrev joined : List Bytes × Bytes → Bytes → List Bytes × Bytes
joined p u = (p.0 ++ (split_lines (p.1 ++ u)).0, (split_lines (p.1 ++ u)).1)

add_char-joined :
    (c : ℕ) (p : List Bytes × Bytes) (u : Bytes) → add_char c (joined p u) ≡ joined (add_char c p) u
unfolding split_lines
add_char-joined c ([], t) u = elim (Bool-cases (c == 10)) [
  | inl e ↦ add_char-newline c _ e ∙ (unfold add_char in rw e refl)
  | inr e ↦ unfold add_char in rw e refl
]
add_char-joined c (l ∷ rest, t) u = elim (Bool-cases (c == 10)) [
  | inl e ↦ unfold add_char in rw e refl
  | inr e ↦ unfold add_char in rw e refl
]

pub split_lines-append : (s u : Bytes) → split_lines (s ++ u) ≡ joined (split_lines s) u
unfolding split_lines
split_lines-append [] u = refl
split_lines-append (c ∷ s) u =
    ap (add_char c) (split_lines-append s u) ∙ add_char-joined c (split_lines s) u
