-- ===== src/Disk.antt =====
-- The log directory as the audit writer and the report agent see it: generation 0 is
-- `calls.jsonl`, generation n is `calls.jsonl.n`. Names point to inodes, so an open descriptor
-- follows its file through a rename, as on POSIX.
use remote_host_mcp.Prelude.{
  ℕ, suc, Bool, true, false, Option, none, some, List, [], ◌++◌, ◌==◌, if◌then◌else◌,
}

abbrev pub Bytes : Type 0
Bytes = List ℕ

pub record Disk : Type 0 where
  pub names : ℕ → Option ℕ
  pub contents : ℕ → Bytes
  pub fresh : ℕ

-- A finite change of a function.
abbrev pub update {ℓ} : {A : Type ℓ} → (ℕ → A) → ℕ → A → ℕ → A
update f k v j = if k == j then v else f j

abbrev pub is_some {ℓ} : {A : Type ℓ} → Option A → Bool
is_some none = false
is_some (some _) = true

-- `Path.exists`
abbrev pub exists : Disk → ℕ → Bool
exists d i = is_some (d.names i)

-- `unlink` of an entry that is there
abbrev pub unlink : ℕ → Disk → Disk
unlink i d = record d { names = update d.names i none }

-- `os.replace(source, target)`
abbrev pub replace : ℕ → ℕ → Disk → Disk
replace i j d = record d { names = update (update d.names j (d.names i)) i none }

-- `os.write` on a descriptor opened with O_APPEND
abbrev pub append : ℕ → Bytes → Disk → Disk
append h data_bytes d = record d { contents = update d.contents h (d.contents h ++ data_bytes) }

-- `os.open(path, O_CREAT | O_APPEND)` of the main file, and the inode behind the descriptor
abbrev pub open_main : Disk → ℕ × Disk
open_main d = elim (d.names 0) [
  | some h ↦ (h, d)
  | none ↦ (
    d.fresh,
    record {
      names = update d.names 0 (some d.fresh);
      contents = update d.contents d.fresh [];
      fresh = suc d.fresh;
    },
  )
]

-- What a generation holds; a missing one holds nothing.
abbrev pub content : Disk → ℕ → Bytes
content d i = elim (d.names i) [ none ↦ [] | some h ↦ d.contents h ]
