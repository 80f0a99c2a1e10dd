-- ===== src/Files/Patch.antt =====
-- `apply_line_patch` of src/remote_host_mcp/agent_ops.py. A file is the text that its bytes stand for.
use remote_host_mcp.Prelude.{
  ℕ, ◌+◌, ◌-◌, ◌/◌, ◌%◌, Bool, true, false, not, ◌&&◌, ◌||◌, Option, none, some, List, [], ◌∷◌,
  ◌++◌, take, drop, length, is_nil, leb, ltb, ◌==◌, if◌then◌else◌,
}
use remote_host_mcp.Prelude.Text.{Text, text_eq, lower, all_hex}
use remote_host_mcp.Disk.{Bytes}
use remote_host_mcp.Files.Writing.{regular, Node, Place, Others, Written, write_text_file}

-- UTF-8
unfoldable pub encode_char : ℕ → Bytes
encode_char c =
    if ltb c 128
    then c ∷ []
    else if ltb c 2048
    then (192 + c / 64) ∷ (128 + c % 64) ∷ []
    else if ltb c 65536
    then (224 + c / 4096) ∷ (128 + c / 64 % 64) ∷ (128 + c % 64) ∷ []
    else (240 + c / 262144) ∷ (128 + c / 4096 % 64) ∷ (128 + c / 64 % 64) ∷ (128 + c % 64) ∷ []

unfoldable pub encode : Text → Bytes
unfolding encode_char
encode [] = []
encode (c ∷ cs) = encode_char c ++ encode cs

-- The line ends of `splitlines`
unfoldable pub is_line_end : ℕ → Bool
is_line_end c =
    (leb 10 c && leb c 13) || (leb 28 c && leb c 30) || c == 133 || c == 8232 || c == 8233

abbrev pub starts_line_feed : Text → Bool
starts_line_feed [] = false
starts_line_feed (c ∷ cs) = c == 10

-- A character in front of lines.
unfoldable pub attach : ℕ → List Text → List Text
attach c [] = (c ∷ []) ∷ []
attach c (line ∷ lines) = (c ∷ line) ∷ lines

-- `splitlines(keepends=True)`; a carriage return and a line feed end a line together
unfoldable pub splitlines : Text → List Text
unfolding is_line_end attach
splitlines [] = []
splitlines (c ∷ cs) =
    let rest = splitlines cs in
    if is_line_end c && not (c == 13 && starts_line_feed cs) then (c ∷ []) ∷ rest else attach c rest

-- `"".join`
unfoldable pub join : List Text → Text
join [] = []
join (line ∷ lines) = line ++ join lines

pub record LineEdit : Type 0 where
  pub start_line : ℕ
  pub delete_lines : ℕ
  pub replacement : Text

abbrev pub start_index : LineEdit → ℕ
start_index e = e.start_line - 1

abbrev pub end_index : LineEdit → ℕ
end_index e = start_index e + e.delete_lines

unfoldable pub insert_edit : LineEdit → List LineEdit → List LineEdit
insert_edit e [] = e ∷ []
insert_edit e (k ∷ ks) =
    let later = insert_edit e ks in if leb e.start_line k.start_line then e ∷ k ∷ ks else k ∷ later

-- `sorted(edits, key=...)`, which keeps edits of one line in their order
unfoldable pub sort_edits : List LineEdit → List LineEdit
unfolding insert_edit
sort_edits [] = []
sort_edits (e ∷ es) = insert_edit e (sort_edits es)

pub data Problem : Type 0 where
  bad_digest_form : Problem
  bad_count : Problem
  unreadable : Problem
  changed_since : Problem
  beyond_end : Problem
  deletes_beyond : Problem
  overlap : Problem
  too_large : Problem

-- The checks of the sorted edits against the number of lines
unfoldable pub check_edits : ℕ → ℕ → List LineEdit → Option Problem
check_edits total previous_end [] = none
check_edits total previous_end (e ∷ es) =
    let later = check_edits total (end_index e) es in
    if ltb total (start_index e)
    then some beyond_end
    else if ltb total (end_index e)
    then some deletes_beyond
    else if ltb (start_index e) previous_end
    then some overlap
    else later

-- `new_lines[start_index:end_index] = replacement`
unfoldable pub splice : LineEdit → List Text → List Text
unfolding splitlines
splice e lines =
    take (start_index e) lines ++ (splitlines e.replacement ++ drop (end_index e) lines)

-- The edits, the last one first
unfoldable pub apply_edits : List LineEdit → List Text → List Text
unfolding splice
apply_edits [] lines = lines
apply_edits (e ∷ es) lines = splice e (apply_edits es lines)

pub data Patched : Type 0 where
  problem : Problem → Patched
  result : Text → Patched

-- `_read_text_bounded`: the size that `fstat` tells, and the text that is read, none if the file may
-- not be opened, is no regular file or no UTF-8
unfoldable pub read_text_bounded : ℕ → Option (ℕ × Text) → Option Text
unfolding encode
read_text_bounded max_file_bytes none = none
read_text_bounded max_file_bytes (some (size, text)) =
    if leb 1 max_file_bytes
      && leb max_file_bytes 4194304
      && leb size max_file_bytes
      && leb (length (encode text)) max_file_bytes
    then some text
    else none

-- The text with the edits
unfoldable pub patch_text : ℕ → List LineEdit → Text → Patched
unfolding splitlines sort_edits check_edits apply_edits join encode
patch_text max_file_bytes edits current =
    let lines = splitlines current in
    let normalized = sort_edits edits in
    let text = join (apply_edits normalized lines) in
    elim (check_edits (length lines) 0 normalized) [
      | some why ↦ problem why
      | none ↦ if ltb max_file_bytes (length (encode text)) then problem too_large else result text
    ]

pub data PatchAnswer : Type 0 where
  refuses : Problem → PatchAnswer
  writes : Written × Place → PatchAnswer

module _ (sha256 : Bytes → Text) where
  -- What `apply_line_patch` makes of the file that it reads
  unfoldable pub patched : Text → ℕ → List LineEdit → Option (ℕ × Text) → Patched
  unfolding read_text_bounded patch_text encode
  patched expected max_file_bytes edits file =
      if not (length expected == 64 && all_hex (lower expected))
      then problem bad_digest_form
      else if is_nil edits || ltb 100 (length edits)
      then problem bad_count
      else elim (read_text_bounded max_file_bytes file) [
        | none ↦ problem unreadable
        | some current ↦
            if text_eq (lower (sha256 (encode current))) (lower expected)
            then patch_text max_file_bytes edits current
            else problem changed_since
      ]

  -- `apply_line_patch`: the new file has the given inode and time, and `existing` stands at the path
  -- when it is looked at to be written
  unfoldable pub apply_line_patch :
      Text
      → List LineEdit
      → ℕ
      → ℕ
      → Option (ℕ × Text)
      → ℕ
      → ℕ
      → Bool
      → Option Node
      → Others
      → PatchAnswer
  unfolding patched encode write_text_file
  apply_line_patch expected edits mode max_file_bytes file inode now stores existing o =
      elim (patched expected max_file_bytes edits file) [
        | problem why ↦ refuses why
        | result text ↦
            let new : Node = record {
              inode = inode;
              kind = regular;
              content = encode text;
              modified = now;
            } in
            writes (write_text_file sha256 true (some (lower expected)) mode stores new existing o)
      ]
