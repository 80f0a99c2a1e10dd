-- ===== src/Files/Reading.antt =====
-- Reading a file: `read_text_file` and `read_file_chunk` of src/remote_host_mcp/filesystem.py.
use remote_host_mcp.Prelude.{
  ℕ, zero, suc, ◌+◌, ◌-◌, Bool, true, false, not, ◌&&◌, ◌||◌, Option, none, some, List, [], ◌∷◌,
  ◌++◌, take, drop, length, is_nil, leb, ltb, ◌==◌, if◌then◌else◌,
}
use remote_host_mcp.Disk.{Bytes}

-- A chunk up to its first line end and with it, the rest, and whether there is a line end.
unfoldable pub split_line : Bytes → Bytes × Bytes × Bool
split_line [] = ([], [], false)
split_line (c ∷ cs) =
    let (segment, rest, found) = split_line cs in
    if c == 10 then (c ∷ [], cs, true) else (c ∷ segment, rest, found)

-- The variables of the loops of `read_text_file`
pub record Scan : Type 0 where
  pub output : Bytes
  pub used : ℕ
  pub returned : ℕ
  pub line_no : ℕ
  pub in_selected_line : Bool
  pub truncated : Bool

-- A line that is selected begins, if none is open.
unfoldable pub enter_line : Scan → Scan
enter_line s =
    if s.in_selected_line
    then s
    else record s { returned = suc s.returned; in_selected_line = true }

-- The end of a line
unfoldable pub leave_line : Scan → Scan
leave_line s = record s { line_no = suc s.line_no; in_selected_line = false }

unfoldable pub add_output : Bytes → Scan → Scan
add_output bs s = record s { output = s.output ++ bs; used = s.used + length bs }

-- What a call asks for.
pub record Range : Type 0 where
  pub start_line : ℕ
  pub max_lines : ℕ
  pub max_bytes : ℕ

-- A segment of a selected line that fits into the budget; the rest of the chunk is what to go on
-- with, none is the `break`.
unfoldable pub keep_segment : Range → Bool → Bytes → Bytes → Bool → Scan → Scan × Option Bytes
unfolding add_output leave_line
keep_segment r more segment rest found s =
    let kept = add_output segment s in
    let left = leave_line kept in
    if not found
    then (kept, some rest)
    else if leb r.max_lines left.returned
    then (record left { truncated = not (is_nil rest) || more }, none)
    else (left, some rest)

-- One round of the inner loop; `more` tells whether a further read finds a byte.
unfoldable pub scan_step : Range → Bool → Bytes → Scan → Scan × Option Bytes
unfolding split_line enter_line leave_line add_output keep_segment
scan_step r more chunk s =
    let (segment, rest, found) = split_line chunk in
    let remaining = r.max_bytes - s.used in
    if ltb s.line_no r.start_line
    then (if found then record s { line_no = suc s.line_no } else s, some rest)
    else if leb r.max_lines s.returned || leb r.max_bytes s.used
    then (record s { truncated = true }, none)
    else if ltb remaining (length segment)
    then (record (add_output (take remaining segment) (enter_line s)) { truncated = true }, none)
    else keep_segment r more segment rest found (enter_line s)

-- The inner loop; every round takes a byte at least.
unfoldable pub scan_chunk : ℕ → Range → Bool → Bytes → Scan → Scan
unfolding scan_step
scan_chunk zero r more chunk s = s
scan_chunk (suc n) r more [] s = s
scan_chunk (suc n) r more (c ∷ cs) s =
    let (s', next) = scan_step r more (c ∷ cs) s in
    elim next [ none ↦ s' | some rest ↦ scan_chunk n r more rest s' ]

-- The outer loop, over what the reads give
unfoldable pub scan_chunks : Range → List Bytes → Scan → Scan
unfolding scan_chunk
scan_chunks r [] s = s
scan_chunks r (chunk ∷ chunks) s =
    let s' = scan_chunk (length chunk) r (not (is_nil chunks)) chunk s in
    let later = scan_chunks r chunks s' in if s'.truncated then s' else later

abbrev pub new_scan : Scan
new_scan = record {
  output = [];
  used = 0;
  returned = 0;
  line_no = 1;
  in_selected_line = false;
  truncated = false;
}

-- The checks of the range
unfoldable pub range_ok : Range → Bool
range_ok r =
    leb 1 r.start_line
    && leb 1 r.max_lines
    && leb r.max_lines 5000
    && leb 256 r.max_bytes
    && leb r.max_bytes 131072

-- The result of `read_text_file`, before its decoding.
pub record TextRead : Type 0 where
  pub start_line : ℕ
  pub lines_returned : ℕ
  pub text : Bytes
  pub truncated : Bool

-- `read_text_file`: the file is what the reads give, none if it may not be opened or is no regular
-- file; none is the error
unfoldable pub read_text_file : Range → Option (List Bytes) → Option TextRead
unfolding range_ok scan_chunks
read_text_file r none = none
read_text_file r (some chunks) =
    let s = scan_chunks r chunks new_scan in
    if range_ok r
    then some (record {
      start_line = r.start_line;
      lines_returned = s.returned;
      text = s.output;
      truncated = s.truncated;
    })
    else none

-- The result of `read_file_chunk`, before its encoding.
pub record ChunkRead : Type 0 where
  pub offset : ℕ
  pub data_bytes : Bytes
  pub next_offset : ℕ
  pub eof : Bool

-- `read_file_chunk`; none is the error
unfoldable pub read_file_chunk : ℕ → ℕ → ℕ → Option Bytes → Option ChunkRead
read_file_chunk max_file_chunk_bytes offset max_bytes none = none
read_file_chunk max_file_chunk_bytes offset max_bytes (some content) =
    let bytes = take max_bytes (drop offset content) in
    let next = offset + length bytes in
    if leb 1 max_bytes && leb max_bytes max_file_chunk_bytes && leb offset (length content)
    then some (record {
      offset = offset;
      data_bytes = bytes;
      next_offset = next;
      eof = leb (length content) next;
    })
    else none
