-- ===== src/Files/Lines.antt =====
-- What `read_text_file` of src/remote_host_mcp/filesystem.py returns.
use remote_host_mcp.Prelude.{
  ℕ, zero, suc, ◌+◌, ◌≤◌, ◌≡◌, refl, ap, Bool, true, false, not, [], ◌∷◌, ◌++◌, take, length, ◌==◌,
  if◌then◌else◌, arith, inl, inr, Bool-cases, take-nil,
}
use remote_host_mcp.Disk.{Bytes}
use remote_host_mcp.Files.Reading.{split_line}

-- A text behind its first `n` lines.
unfoldable pub skip_lines : ℕ → Bytes → Bytes
skip_lines zero bs = bs
skip_lines (suc n) [] = []
skip_lines (suc n) (c ∷ cs) = if c == 10 then skip_lines n cs else skip_lines (suc n) cs

-- How many lines a text begins, where a line may be begun before it.
unfoldable pub count_lines : Bool → Bytes → ℕ
count_lines begun [] = 0
count_lines begun (c ∷ cs) = (if begun then 0 else 1) + count_lines (not (c == 10)) cs

-- Whether a line is begun and not ended behind a text.
unfoldable pub ends_open : Bool → Bytes → Bool
ends_open begun [] = begun
ends_open begun (c ∷ cs) = ends_open (not (c == 10)) cs

pub split_line-joined : (bs : Bytes) → (split_line bs).0 ++ (split_line bs).1 ≡ bs
unfolding split_line
split_line-joined [] = refl
split_line-joined (c ∷ cs) = elim (Bool-cases (c == 10)) [
  | inl e ↦ rw e refl
  | inr e ↦ rw e (ap (λ l. c ∷ l) (split_line-joined cs))
]

pub split_line-begins : (c : ℕ) (cs : Bytes) → 1 ≤ length (split_line (c ∷ cs)).0
unfolding split_line
split_line-begins c cs = ground arith

pub split_line-last : (bs : Bytes) → (split_line bs).2 ≡ false → (split_line bs).1 ≡ []
unfolding split_line
split_line-last [] h = refl
split_line-last (c ∷ cs) h = ground (arith, split_line-last cs)

-- A segment is within one line, and ends it exactly when it has a line end.
count_lines-within : (n : ℕ) (bs : Bytes) → count_lines true (take n (split_line bs).0) ≡ 0
unfolding split_line count_lines
count_lines-within zero bs = refl
count_lines-within (suc n) [] = refl
count_lines-within (suc n) (c ∷ cs) = elim (Bool-cases (c == 10)) [
  | inl e ↦ rw (e, take-nil n) (ground (arith, e))
  | inr e ↦ ground (arith, e, count_lines-within n cs)
]

pub count_lines-segment :
    (begun : Bool) (n c : ℕ) (cs : Bytes)
    → count_lines begun (take (suc n) (split_line (c ∷ cs)).0) ≡ (if begun then 0 else 1)
unfolding split_line count_lines
count_lines-segment begun n c cs = elim (Bool-cases (c == 10)) [
  | inl e ↦ rw (e, take-nil n) (omega arith)
  | inr e ↦ rw e (rw e (omega (arith, count_lines-within n cs)))
]

ends_open-within : (bs : Bytes) → ends_open true (split_line bs).0 ≡ not (split_line bs).2
unfolding split_line ends_open
ends_open-within [] = refl
ends_open-within (c ∷ cs) = elim (Bool-cases (c == 10)) [
  | inl e ↦ ground (arith, e)
  | inr e ↦ ground (arith, e, ends_open-within cs)
]

pub ends_open-segment :
    (begun : Bool) (c : ℕ) (cs : Bytes)
    → ends_open begun (split_line (c ∷ cs)).0 ≡ not (split_line (c ∷ cs)).2
unfolding split_line ends_open
ends_open-segment begun c cs = elim (Bool-cases (c == 10)) [
  | inl e ↦ ground (arith, e)
  | inr e ↦ ground (arith, e, ends_open-within cs)
]

pub count_lines-append :
    (begun : Bool) (a b : Bytes)
    → count_lines begun (a ++ b) ≡ count_lines begun a + count_lines (ends_open begun a) b
unfolding count_lines ends_open
count_lines-append begun [] b = omega arith
count_lines-append begun (c ∷ cs) b = omega (arith, count_lines-append (not (c == 10)) cs b)

pub ends_open-append :
    (begun : Bool) (a b : Bytes) → ends_open begun (a ++ b) ≡ ends_open (ends_open begun a) b
unfolding ends_open
ends_open-append begun [] b = refl
ends_open-append begun (c ∷ cs) b = ends_open-append (not (c == 10)) cs b

pub skip_lines-nil : (n : ℕ) → skip_lines n [] ≡ []
unfolding skip_lines
skip_lines-nil zero = refl
skip_lines-nil (suc n) = refl

-- What skipping a line leaves of a chunk and of what comes behind it.
pub skip_lines-split :
    (n : ℕ) (bs later : Bytes)
    → skip_lines (suc n) (bs ++ later) ≡ (
        let (_, rest, found) = split_line bs in
        skip_lines (if found then n else suc n) (rest ++ later))
unfolding skip_lines split_line
skip_lines-split n [] later = refl
skip_lines-split n (c ∷ cs) later = elim (Bool-cases (c == 10)) [
  | inl e ↦ rw e refl
  | inr e ↦ rw e (skip_lines-split n cs later)
]

pub count_lines-nil : (begun : Bool) → count_lines begun [] ≡ 0
unfolding count_lines
count_lines-nil begun = refl

pub ends_open-nil : (begun : Bool) → ends_open begun [] ≡ begun
unfolding ends_open
ends_open-nil begun = refl
