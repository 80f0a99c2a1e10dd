-- ===== src/Tail/Plan.antt =====
-- What the catch-up plan covers (`_start_drain`): the records behind the checkpoint, oldest first.
use mathlib.Core.List.{
  filter_map, filter_map-cons-none, filter_map-cons-some, reverse, reverse-append,
}
use remote_host_mcp.Prelude.{
  ℕ, zero, suc, ◌+◌, ◌≤◌, ◌<◌, ◌≡◌, refl, ap, true, false, Option, none, some, List, [], ◌∷◌, ◌++◌,
  arith, Bool-cases, inl, inr, ◌⊎◌, ltb, lt→ltb, ◌==◌, ◌∙◌,
}
use remote_host_mcp.Prelude.Int.{ℤ}
use remote_host_mcp.Disk.{Disk, exists}
use remote_host_mcp.Tail.{
  Entry, Tail, stat, inode_of, same_inode, scan, rotated_files, max_rotated_files, find_inode,
  checkpoint_index, plan_entry, start_drain,
}

-- The rotated generations of a directory are 1, …, n.
pub record IsContiguous (d : Disk) (n : ℕ) : Type 0 where
  pub present : (i : ℕ) → 1 ≤ i → i ≤ n → exists d i ≡ true
  pub gap : exists d (suc n) ≡ false
  pub few : n ≤ max_rotated_files

abbrev up_from : ℕ → ℕ → List ℕ
up_from i zero = []
up_from i (suc m) = i ∷ up_from (suc i) m

abbrev down : ℕ → List ℕ
down zero = []
down (suc k) = suc k ∷ down k

up_from-snoc : (i m : ℕ) → up_from i (suc m) ≡ up_from i m ++ (i + m) ∷ []
up_from-snoc i zero = ap (λ k. k ∷ []) (omega arith)
up_from-snoc i (suc m) =
    ap (λ l. i ∷ l) (up_from-snoc (suc i) m ∙ ap (λ k. up_from (suc i) m ++ k ∷ []) (omega arith))

reverse-up_from : (n : ℕ) → reverse (up_from 1 n) ≡ down n
reverse-up_from zero = refl
reverse-up_from (suc n) =
    ap reverse (up_from-snoc 1 n)
    ∙ reverse-append (up_from 1 n) ((1 + n) ∷ [])
    ∙ (let e : 1 + n ≡ suc n = omega arith in rw (e, reverse-up_from n))

scan-eq :
    (rounds i m : ℕ) (d : Disk)
    → m ≤ rounds
    → ((j : ℕ) → i ≤ j → j < i + m → exists d j ≡ true)
    → exists d (i + m) ≡ false
    → scan rounds i d ≡ up_from i m
unfolding scan
scan-eq zero i zero d few here gap = refl
scan-eq zero i (suc m) d few here gap = absurd (omega arith)
scan-eq (suc rounds) i zero d few here gap =
    let e : i + 0 ≡ i = omega arith in let f : exists d i ≡ false = rw e at gap in rw f
scan-eq (suc rounds) i (suc m) d few here gap =
    let f = here i (omega arith) (omega arith) in
    let e : i + suc m ≡ suc i + m = omega arith in
    rw f (
      ap (λ l. i ∷ l)
        (scan-eq rounds (suc i) m d (omega arith) (λ j p q. here j (omega arith) (omega arith))
          (rw e at gap)))

rotated_files-eq : (d : Disk) (n : ℕ) → IsContiguous d n → rotated_files d ≡ up_from 1 n
unfolding rotated_files
rotated_files-eq d n c =
    let e : 1 + n ≡ suc n = omega arith in
    scan-eq max_rotated_files 1 n d c.few (λ j p q. c.present j p (omega arith)) (rw e c.gap)

find_inode-eq :
    (inode : Option ℤ) (i m c : ℕ) (d : Disk)
    → i ≤ c
    → c < i + m
    → same_inode (inode_of (stat d c)) inode ≡ true
    → ((j : ℕ) → i ≤ j → j < c → same_inode (inode_of (stat d j)) inode ≡ false)
    → find_inode inode (up_from i m) d ≡ some c
unfolding find_inode
find_inode-eq inode i zero c d low high found newer = absurd (omega arith)
find_inode-eq inode i (suc m) c d low high found newer = elim (Bool-cases (i == c)) [
  | inl e ↦
      let same : i ≡ c = ground arith in
      let f : same_inode (inode_of (stat d i)) inode ≡ true = rw same found in
      rw (f, find_inode) (ap some same)
  | inr e ↦
      let f = newer i (omega arith) (ground arith) in
      rw (f, find_inode)
        (find_inode-eq inode (suc i) m c d (ground arith) (omega arith) found
          (λ j p q. newer j (omega arith) q))
]

-- The entry that reads generation i from a position.
abbrev pub entry : Disk → ℕ → ℕ → Entry
entry d i start = record { gen = i; start = start; expected = inode_of (stat d i) }

-- The entries that read k, …, 1 in full.
abbrev pub newer_entries : Disk → ℕ → List Entry
newer_entries d zero = []
newer_entries d (suc k) = entry d (suc k) 0 ∷ newer_entries d k

module _ (offset : ℕ) (d : Disk) where
  plan_entry-newer : (c i : ℕ) → i < c → plan_entry (some c) offset d i ≡ some (entry d i 0)
  unfolding plan_entry
  plan_entry-newer c i h = rw (lt→ltb i c h)

  plan_entry_self : (c : ℕ) → plan_entry (some c) offset d c ≡ some (entry d c offset)
  unfolding plan_entry
  plan_entry_self c = ground arith

  plan_entry-older : (c i : ℕ) → c < i → plan_entry (some c) offset d i ≡ none
  unfolding plan_entry
  plan_entry-older c i h = ground arith

  plan_entry-unknown : (i : ℕ) → plan_entry none offset d i ≡ some (entry d i 0)
  unfolding plan_entry
  plan_entry-unknown i = refl

  plan-below :
      (c n : ℕ) → n < c → filter_map (plan_entry (some c) offset d) (down n) ≡ newer_entries d n
  plan-below c zero h = unfold filter_map in refl
  plan-below c (suc n) h =
      filter_map-cons-some (plan_entry (some c) offset d) (suc n) (down n)
        (plan_entry-newer c (suc n) h)
      ∙ ap (λ l. entry d (suc n) 0 ∷ l) (plan-below c n (omega arith))

  plan-known :
      (k n : ℕ)
      → suc k ≤ n
      → filter_map (plan_entry (some (suc k)) offset d) (down n)
        ≡ entry d (suc k) offset ∷ newer_entries d k
  plan-known k zero h = absurd (omega arith)
  plan-known k (suc n) h = elim (Bool-cases (n == k)) [
    | inl e ↦
        let same : n ≡ k = ground arith in
        rw same (
          filter_map-cons-some (plan_entry (some (suc k)) offset d) (suc k) (down k)
            (plan_entry_self (suc k))
          ∙ ap (λ l. entry d (suc k) offset ∷ l) (plan-below (suc k) k (omega arith)))
    | inr e ↦
        filter_map-cons-none (plan_entry (some (suc k)) offset d) (suc n) (down n)
          (plan_entry-older (suc k) (suc n) (ground arith))
        ∙ plan-known k n (ground arith)
  ]

  plan-unknown : (n : ℕ) → filter_map (plan_entry none offset d) (down n) ≡ newer_entries d n
  plan-unknown zero = unfold filter_map in refl
  plan-unknown (suc n) =
      filter_map-cons-some (plan_entry none offset d) (suc n) (down n) (plan_entry-unknown (suc n))
      ∙ ap (λ l. entry d (suc n) 0 ∷ l) (plan-unknown n)

find_inode-none :
    (inode : Option ℤ) (i m : ℕ) (d : Disk)
    → ((j : ℕ) → i ≤ j → j < i + m → same_inode (inode_of (stat d j)) inode ≡ false)
    → find_inode inode (up_from i m) d ≡ none
unfolding find_inode
find_inode-none inode i zero d other = refl
find_inode-none inode i (suc m) d other =
    let f = other i (omega arith) (omega arith) in
    rw (f, find_inode)
      (find_inode-none inode (suc i) m d (λ j p q. other j (omega arith) (omega arith)))

-- When the checkpoint's file is found among the rotated generations, the plan reads it from the
-- checkpoint on, then every newer generation in full, oldest first, and nothing older.
pub start_drain-known :
    (d : Disk) (t : Tail) (n k : ℕ)
    → IsContiguous d n
    → suc k ≤ n
    → 0 < t.offset
    → same_inode (inode_of (stat d (suc k))) t.inode ≡ true
    → ((j : ℕ) → 1 ≤ j → j ≤ k → same_inode (inode_of (stat d j)) t.inode ≡ false)
    → (start_drain d t).drain_plan ≡ some (entry d (suc k) t.offset ∷ newer_entries d k)
unfolding start_drain checkpoint_index
start_drain-known d t n k c le acked found newer =
    rw
      (
        rotated_files-eq d n c,
        lt→ltb 0 t.offset acked,
        reverse-up_from n,
        find_inode-eq t.inode 1 n (suc k) d (omega arith) (omega arith) found
            (λ j p q. newer j p (omega arith)),
      )
      (ap some (plan-known t.offset d k n le))

-- Before anything was acknowledged, or when no rotated file has the inode of the checkpoint, every
-- generation is read again in full.
pub start_drain-unknown :
    (d : Disk) (t : Tail) (n : ℕ)
    → IsContiguous d n
    → (t.offset ≡ 0) ⊎ ((j : ℕ) → 1 ≤ j → j ≤ n → same_inode (inode_of (stat d j)) t.inode ≡ false)
    → (start_drain d t).drain_plan ≡ some (newer_entries d n)
unfolding start_drain checkpoint_index
start_drain-unknown d t n c (inl fresh) =
    let e : ltb 0 t.offset ≡ false = ground arith in
    rw (rotated_files-eq d n c, e, reverse-up_from n) (ap some (plan-unknown t.offset d n))
start_drain-unknown d t n c (inr other) = elim (Bool-cases (ltb 0 t.offset)) [
  | inl e ↦
      rw
        (
          rotated_files-eq d n c,
          e,
          reverse-up_from n,
          find_inode-none t.inode 1 n d (λ j p q. other j p (omega arith)),
        )
        (ap some (plan-unknown t.offset d n))
  | inr e ↦ rw (rotated_files-eq d n c, e, reverse-up_from n) (ap some (plan-unknown t.offset d n))
]
