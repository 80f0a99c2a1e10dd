-- ===== src/Executor/Budgets.antt =====
-- What the budget of src/remote_host_mcp/executor.py keeps of two streams.
use remote_host_mcp.Prelude.{
  ℕ, suc, ◌+◌, ◌-◌, ◌≤◌, ◌≡◌, refl, ap, sym, ◌∙◌, true, ◌||◌, List, [], ◌∷◌, ◌++◌, take, length,
  leb, ltb, min, arith, inl, inr, Bool-cases, length-take, length-append, append_assoc, append-nil,
}
use remote_host_mcp.Disk.{Bytes}
use remote_host_mcp.Executor.{
  Budget, new_budget, keep, keep_output, Piece, out, err, Drained, drain_piece, drain_pieces, drain,
}

-- The two budgets of the program do the same.
pub keep-keep_output : (chunk : Bytes) (b : Budget) → keep chunk b ≡ keep_output chunk b
unfolding keep keep_output
keep-keep_output [] b = elim (Bool-cases (leb (b.limit - b.used) 0)) [
  | inl e ↦
      let spent : b.limit - b.used ≡ 0 = ground arith in
      let same : b.used + 0 ≡ b.used = omega arith in rw (spent, same) refl
  | inr e ↦ rw e refl
]
keep-keep_output (c ∷ chunk) b = elim (Bool-cases (leb (b.limit - b.used) 0)) [
  | inl e ↦
      let spent : b.limit - b.used ≡ 0 = ground arith in
      let same : b.used + 0 ≡ b.used = omega arith in
      let long : ltb 0 (suc (length chunk)) ≡ true = ground arith in rw (spent, same, long) refl
  | inr e ↦ rw e refl
]

-- The bytes of one stream in a sequence of pieces, and of both.
abbrev pub outs : List Piece → Bytes
outs [] = []
outs (out c ∷ ps) = c ++ outs ps
outs (err c ∷ ps) = outs ps

abbrev pub errs : List Piece → Bytes
errs [] = []
errs (out c ∷ ps) = errs ps
errs (err c ∷ ps) = c ++ errs ps

abbrev pub total : List Piece → ℕ
total [] = 0
total (out c ∷ ps) = length c + total ps
total (err c ∷ ps) = length c + total ps

-- The first bytes of a sequence of pieces, whichever stream they are of.
abbrev pub cut : ℕ → List Piece → List Piece
cut n [] = []
cut n (out c ∷ ps) = out (take n c) ∷ cut (n - length c) ps
cut n (err c ∷ ps) = err (take n c) ∷ cut (n - length c) ps

-- The drains kept exactly the first bytes of what came, up to the limit.
pub record Keeps (limit : ℕ) (ps : List Piece) (d : Drained) : Type 0 where
  pub stdout : d.stdout ≡ outs (cut limit ps)
  pub stderr : d.stderr ≡ errs (cut limit ps)
  pub returned : d.budget.used ≡ min limit (total ps)
  pub counted : d.budget.seen ≡ total ps
  pub marked : d.budget.truncated ≡ ltb limit (total ps)

-- The loop, from a budget that is partly used.
record KeepsOn (ps : List Piece) (d e : Drained) : Type 0 where
  stdout : e.stdout ≡ d.stdout ++ outs (cut (d.budget.limit - d.budget.used) ps)
  stderr : e.stderr ≡ d.stderr ++ errs (cut (d.budget.limit - d.budget.used) ps)
  returned : e.budget.used ≡ d.budget.used + min (d.budget.limit - d.budget.used) (total ps)
  counted : e.budget.seen ≡ d.budget.seen + total ps
  marked :
      e.budget.truncated ≡ (d.budget.truncated || ltb (d.budget.limit - d.budget.used) (total ps))

-- What one piece does to the budget.
record Spent (n : ℕ) (b b' : Budget) : Type 0 where
  limit : b'.limit ≡ b.limit
  used : b'.used ≡ b.used + min (b.limit - b.used) n
  seen : b'.seen ≡ b.seen + n
  truncated : b'.truncated ≡ (b.truncated || ltb (b.limit - b.used) n)

keep-Spent : (chunk : Bytes) (b : Budget) → Spent (length chunk) b (keep chunk b).1
unfolding keep_output
keep-Spent chunk b = rw (keep-keep_output chunk b) (record {
  limit = refl;
  used = ap (λ n. b.used + n) (length-take (b.limit - b.used) chunk);
  seen = refl;
  truncated = ground arith;
})

keep-taken : (chunk : Bytes) (b : Budget) → (keep chunk b).0 ≡ take (b.limit - b.used) chunk
unfolding keep_output
keep-taken chunk b = rw (keep-keep_output chunk b) refl

-- The pieces behind the first one are cut at what that leaves.
Spent-cut :
    (n : ℕ) (b b' : Budget) (ps : List Piece)
    → Spent n b b'
    → cut (b.limit - b.used - n) ps ≡ cut (b'.limit - b'.used) ps
Spent-cut n b b' ps s = ap (λ k. cut k ps) (omega (arith, s.limit, s.used))

record Later (n : ℕ) (b b' e : Budget) (m : ℕ) : Type 0 where
  used : e.used ≡ b.used + min (b.limit - b.used) (n + m)
  seen : e.seen ≡ b.seen + (n + m)
  truncated : e.truncated ≡ (b.truncated || ltb (b.limit - b.used) (n + m))

-- A piece and what comes behind it spend the budget as one piece of their joint length.
Spent-Later :
    (n m : ℕ) (b b' e : Budget)
    → Spent n b b'
    → e.used ≡ b'.used + min (b'.limit - b'.used) m
    → e.seen ≡ b'.seen + m
    → e.truncated ≡ (b'.truncated || ltb (b'.limit - b'.used) m)
    → Later n b b' e m
Spent-Later n m b b' e s used seen truncated = record {
  used = omega (arith, s.limit, s.used, used);
  seen = omega (arith, s.seen, seen);
  truncated = ground (arith, s.limit, s.used, s.truncated, truncated);
}

drain_pieces-KeepsOn : (ps : List Piece) (d : Drained) → KeepsOn ps d (drain_pieces ps d)
unfolding drain_pieces drain_piece
drain_pieces-KeepsOn [] d = record {
  stdout = sym (append-nil d.stdout);
  stderr = sym (append-nil d.stderr);
  returned = omega arith;
  counted = omega arith;
  marked = ground arith;
}
drain_pieces-KeepsOn (out c ∷ ps) d =
    let b = d.budget in
    let d' = drain_piece (out c) d in
    let s = keep-Spent c b in
    let ih = drain_pieces-KeepsOn ps d' in
    let e = (drain_pieces ps d').budget in
    let later =
      Spent-Later (length c) (total ps) b d'.budget e s ih.returned ih.counted ih.marked in
    let same = Spent-cut (length c) b d'.budget ps s in
    record {
      stdout =
          ih.stdout
          ∙ append_assoc d.stdout (keep c b).0 (outs (cut (d'.budget.limit - d'.budget.used) ps))
          ∙ (rw (keep-taken c b)
              (ap (λ l. d.stdout ++ (take (b.limit - b.used) c ++ outs l)) (sym same)));
      stderr = ih.stderr ∙ ap (λ l. d.stderr ++ errs l) (sym same);
      returned = later.used;
      counted = later.seen;
      marked = later.truncated;
    }
drain_pieces-KeepsOn (err c ∷ ps) d =
    let b = d.budget in
    let d' = drain_piece (err c) d in
    let s = keep-Spent c b in
    let ih = drain_pieces-KeepsOn ps d' in
    let e = (drain_pieces ps d').budget in
    let later =
      Spent-Later (length c) (total ps) b d'.budget e s ih.returned ih.counted ih.marked in
    let same = Spent-cut (length c) b d'.budget ps s in
    record {
      stdout = ih.stdout ∙ ap (λ l. d.stdout ++ outs l) (sym same);
      stderr =
          ih.stderr
          ∙ append_assoc d.stderr (keep c b).0 (errs (cut (d'.budget.limit - d'.budget.used) ps))
          ∙ (rw (keep-taken c b)
              (ap (λ l. d.stderr ++ (take (b.limit - b.used) c ++ errs l)) (sym same)));
      returned = later.used;
      counted = later.seen;
      marked = later.truncated;
    }

-- In whatever order the pieces of the two streams come, the drains keep exactly the first bytes of
-- what comes, up to the limit and each in its stream; the counters are right, and the mark of
-- truncation is set exactly when more came than fits.
pub drain-Keeps : (limit : ℕ) (ps : List Piece) → Keeps limit ps (drain limit ps)
unfolding drain
drain-Keeps limit ps =
    let k =
      drain_pieces-KeepsOn ps (record { stdout = []; stderr = []; budget = new_budget limit }) in
    let whole : limit - 0 ≡ limit = omega arith in
    record {
      stdout = k.stdout ∙ ap (λ n. outs (cut n ps)) whole;
      stderr = k.stderr ∙ ap (λ n. errs (cut n ps)) whole;
      returned = omega (arith, k.returned);
      counted = omega (arith, k.counted);
      marked = k.marked ∙ ap (λ n. ltb n (total ps)) whole;
    }

length-outs-errs : (ps : List Piece) → length (outs ps) + length (errs ps) ≡ total ps
length-outs-errs [] = omega arith
length-outs-errs (out c ∷ ps) = omega (arith, length-append c (outs ps), length-outs-errs ps)
length-outs-errs (err c ∷ ps) = omega (arith, length-append c (errs ps), length-outs-errs ps)

total-cut : (n : ℕ) (ps : List Piece) → total (cut n ps) ≡ min n (total ps)
total-cut n [] = omega arith
total-cut n (out c ∷ ps) = omega (arith, length-take n c, total-cut (n - length c) ps)
total-cut n (err c ∷ ps) = omega (arith, length-take n c, total-cut (n - length c) ps)

-- What is returned of both streams together is within the limit.
pub drain-size :
    (limit : ℕ) (ps : List Piece)
    → let d = drain limit ps in
      (length d.stdout + length d.stderr ≡ d.budget.used) × (d.budget.used ≤ limit)
drain-size limit ps =
    let k = drain-Keeps limit ps in
    let both = length-outs-errs (cut limit ps) in
    (
      omega (arith, ap length k.stdout, ap length k.stderr, both, total-cut limit ps, k.returned),
      omega (arith, k.returned),
    )
