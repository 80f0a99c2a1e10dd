-- ===== src/Tail/State.antt =====
-- The state of `AuditTail`: the checkpoint, the directory as it looks, and the catch-up plan.
use mathlib.Core.List.{reverse, filter_map}
use remote_host_mcp.Prelude.{
  ℕ, zero, suc, ◌*◌, Bool, true, false, not, Option, none, some, List, [], ◌∷◌, length, ltb, ◌==◌,
  if◌then◌else◌,
}
use remote_host_mcp.Prelude.Dict.{lookup}
use remote_host_mcp.Prelude.Int.{ℤ, pos, eq_ℤ}
use remote_host_mcp.Json.{Json, bool, int, obj, to_dict}
use remote_host_mcp.Disk.{Disk, exists}

abbrev pub read_chunk_bytes : ℕ
read_chunk_bytes = 4 * 1024 * 1024

abbrev pub max_rotated_files : ℕ
max_rotated_files = 64

-- One entry of `_drain_plan`: `[path, resume_offset, inode]`.
pub record Entry : Type 0 where
  pub gen : ℕ
  pub start : ℕ
  pub expected : Option ℤ

pub record Tail : Type 0 where
  pub offset : ℕ
  pub inode : Option ℤ
  pub read_offset : ℕ
  pub drain_plan : Option (List Entry)

-- What the cursor file holds: `commit` writes the offset and the inode.
pub record Cursor : Type 0 where
  pub at : ℕ
  pub file : Option ℤ

-- The directory during one read, and which files can be opened.
pub record World : Type 0 where
  pub disk : Disk
  pub readable : ℕ → Bool

-- The `inode` member of the cursor: any int but 0 is taken, and a bool is an int.
unfoldable pub cursor_inode : Option Json → Option ℤ
cursor_inode (some (int z)) = if eq_ℤ z (pos 0) then none else some z
cursor_inode (some (bool true)) = some (pos 1)
cursor_inode _ = none

cursor_offset : Option Json → Option Json → ℕ × Option ℤ
unfolding cursor_inode
cursor_offset (some (int (pos n))) inode = (n, cursor_inode inode)
cursor_offset _ inode = (0, none)

-- `_load_cursor`: what the decoded cursor file says, `none` if it cannot be read or decoded
unfoldable pub load_cursor : Option Json → ℕ × Option ℤ
unfolding cursor_offset
load_cursor (some (obj fields)) =
    let d = to_dict fields in cursor_offset (lookup "offset" d) (lookup "inode" d)
load_cursor _ = (0, none)

-- `__init__`
unfoldable pub new_tail : ℕ × Option ℤ → Tail
new_tail (offset, inode) = record {
  offset = offset;
  inode = inode;
  read_offset = offset;
  drain_plan = none;
}

-- `commit`: the new state, and the cursor file that it leaves behind
unfoldable pub commit : ℕ → Tail → Tail × Cursor
commit offset t = (record t { offset = offset }, record { at = offset; file = t.inode })

-- A tail that a later process makes from the cursor file.
unfoldable pub restart : Cursor → Tail
unfolding new_tail
restart c = new_tail (c.at, c.file)

-- `_stat`: size and inode of a generation
unfoldable pub stat : Disk → ℕ → Option (ℕ × Option ℤ)
stat d i = elim (d.names i) [
  | none ↦ none
  | some h ↦ some (length (d.contents h), if h == 0 then none else some (pos h))
]

abbrev pub inode_of : Option (ℕ × Option ℤ) → Option ℤ
inode_of none = none
inode_of (some (size, inode)) = inode

-- Both are known and equal.
abbrev pub same_inode : Option ℤ → Option ℤ → Bool
same_inode (some a) (some b) = eq_ℤ a b
same_inode none _ = false
same_inode (some a) none = false

-- Both are known and differ.
abbrev pub differs : Option ℤ → Option ℤ → Bool
differs (some a) (some b) = not (eq_ℤ a b)
differs none _ = false
differs (some a) none = false

-- The loop of `_rotated_files`, `rounds` indices from `index`
unfoldable pub scan : ℕ → ℕ → Disk → List ℕ
scan zero index d = []
scan (suc rounds) index d =
    let rest = scan rounds (suc index) d in if exists d index then index ∷ rest else []

-- `_rotated_files`: newest generation first, up to the first gap
unfoldable pub rotated_files : Disk → List ℕ
rotated_files d = scan max_rotated_files 1 d

-- The loop of `_checkpoint_index`
unfoldable pub find_inode : Option ℤ → List ℕ → Disk → Option ℕ
find_inode inode [] d = none
find_inode inode (i ∷ rest) d =
    if same_inode (inode_of (stat d i)) inode then some i else find_inode inode rest d

-- `_checkpoint_index`
unfoldable pub checkpoint_index : Tail → List ℕ → Disk → Option ℕ
checkpoint_index t rotated d = find_inode t.inode rotated d

-- One round of the loop that builds the plan
unfoldable pub plan_entry : Option ℕ → ℕ → Disk → ℕ → Option Entry
plan_entry none offset d i = some (record { gen = i; start = 0; expected = inode_of (stat d i) })
plan_entry (some c) offset d i =
    if ltb i c
    then some (record { gen = i; start = 0; expected = inode_of (stat d i) })
    else if i == c
    then some (record { gen = i; start = offset; expected = inode_of (stat d i) })
    else none

-- `_start_drain`
unfoldable pub start_drain : Disk → Tail → Tail
start_drain d t =
    let rotated = rotated_files d in
    let checkpoint = if ltb 0 t.offset then checkpoint_index t rotated d else none in
    record {
      offset = 0;
      inode = inode_of (stat d 0);
      read_offset = 0;
      drain_plan = some (filter_map (plan_entry checkpoint t.offset d) (reverse rotated));
    }

-- `_was_rotated`
unfoldable pub was_rotated : Disk → Tail → ℕ → Option ℤ → Bool
was_rotated d t size inode = if ltb size t.read_offset then true else elim t.inode [
  | none ↦ not (elim (rotated_files d) [ [] ↦ true | _ ∷ _ ↦ false ])
  | some known ↦ differs inode (some known)
]
