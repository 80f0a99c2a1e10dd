-- ===== src/Files/Tests.antt =====
-- Runs of the models of src/remote_host_mcp/filesystem.py and of `apply_line_patch`.
use remote_host_mcp.Prelude.{
  drop, ℕ, ◌+◌, ◌==◌, ◌≡◌, refl, true, none, some, List, [], ◌∷◌, ◌++◌, map, if◌then◌else◌, arith,
}
use mathlib.Core.Path.{ap₂}
use remote_host_mcp.Prelude.Text.{Text, codes, lower, lower_char}
use remote_host_mcp.Disk.{Bytes}
use remote_host_mcp.Files.Reading.{Range, range_ok, TextRead, read_text_file}
use remote_host_mcp.Files.Returned.{Reads, all_begin, read_text_file-Reads}
use remote_host_mcp.Files.Writing.{regular, Node, Place, Others, done, write_text_file}
use remote_host_mcp.Files.Guarded.{Fate, write_text_file-Fate}
use remote_host_mcp.Files.Patch.{LineEdit, writes, apply_line_patch}
use remote_host_mcp.Files.Patching.{Landed, apply_line_patch-Landed}

abbrev two_lines : Range
two_lines = record { start_line = 2; max_lines = 2; max_bytes = 256 }

abbrev one_line : Range
one_line = record { start_line = 1; max_lines = 1; max_bytes = 256 }

abbrev cut_line : TextRead
cut_line = record { start_line = 1; lines_returned = 1; text = codes "ab"; truncated = true }

abbrev chunks : List Bytes
chunks = codes "ab\ncd" ∷ codes "e\nfg\nh" ∷ []

read_text_file-Reads_example : Reads two_lines chunks
unfolding range_ok all_begin
read_text_file-Reads_example = read_text_file-Reads two_lines chunks refl refl

-- A digest that tells contents apart, in lower case; 64 line feeds have one of 64 zeros.
abbrev digest_char : ℕ → ℕ
digest_char c = if c == 10 then 48 else c + 200

abbrev digest : Bytes → Text
digest = map digest_char

digest_char-same : (c d : ℕ) → digest_char c ≡ digest_char d → c ≡ d
digest_char-same c d h = ground (arith, h)

digest-same : (a b : Bytes) → digest a ≡ digest b → a ≡ b
digest-same [] [] h = refl
digest-same [] (d ∷ ds) h = absurd (ground (arith, h))
digest-same (c ∷ cs) [] h = absurd (ground (arith, h))
digest-same (c ∷ cs) (d ∷ ds) h =
    let head : digest_char c ≡ digest_char d = ground (arith, h) in
    let tail : digest cs ≡ digest ds = ground (arith, h) in
    ap₂ ◌∷◌ (digest_char-same c d head) (digest-same cs ds tail)

lower_char-digest : (c : ℕ) → lower_char (digest_char c) ≡ digest_char c
lower_char-digest c = ground arith

digest-lower : (a : Bytes) → lower (digest a) ≡ digest a
unfolding lower
digest-lower [] = refl
digest-lower (c ∷ cs) = ap₂ ◌∷◌ (lower_char-digest c) (digest-lower cs)

abbrev eight : Text
eight = 10 ∷ 10 ∷ 10 ∷ 10 ∷ 10 ∷ 10 ∷ 10 ∷ 10 ∷ []

abbrev blank_lines : Text
blank_lines = eight ++ eight ++ eight ++ eight ++ eight ++ eight ++ eight ++ eight

abbrev zeros : Text
zeros = digest blank_lines

abbrev old_file : Node
old_file = record { inode = 1; kind = regular; content = blank_lines; modified = 5 }

abbrev new_file : Node
new_file = record { inode = 2; kind = regular; content = codes "new"; modified = 9 }

-- Nobody else writes.
abbrev alone : Others
alone = record {
  after_look = λ d. d;
  before_commit = λ d. d;
  after_commit = λ d. d;
  before_rollback = λ d. d;
}

write_text_file-Fate_example :
    Fate digest
      (lower zeros)
      new_file
      (some old_file)
      alone
      (write_text_file digest true (some zeros) 420 true new_file (some old_file) alone)
write_text_file-Fate_example =
    write_text_file-Fate digest true zeros 420 true new_file (some old_file) alone (λ d. refl)

abbrev edits : List LineEdit
edits =
    record { start_line = 2; delete_lines = 1; replacement = codes "x\ny\n" }
    ∷ record { start_line = 3; delete_lines = 0; replacement = codes "z\n" }
    ∷ []

abbrev patched_file : Node
patched_file = record {
  inode = 2;
  kind = regular;
  content = 10 ∷ codes "x\ny\nz\n" ++ drop 2 blank_lines;
  modified = 9;
}

abbrev landed_place : Place
landed_place = record { at_name = some patched_file; at_temporary = none }

lands :
    apply_line_patch digest zeros edits 420 1000
      (some (64, blank_lines))
      2
      9
      true
      (some old_file)
      alone
    ≡ writes (done, landed_place)
unfolding apply_line_patch lower
lands = refl

apply_line_patch-Landed_example :
    Landed edits (some old_file) alone (some (64, blank_lines)) landed_place
apply_line_patch-Landed_example =
    apply_line_patch-Landed digest zeros edits 420 1000 (some (64, blank_lines)) 2 9 true
      (some old_file) alone landed_place digest-same digest-lower (λ d. refl) lands

-- The last line that is asked for is cut where a read ends.
cut_at_read : read_text_file one_line (some (codes "ab" ∷ codes "c\n" ∷ [])) ≡ some cut_line
unfolding read_text_file
cut_at_read = refl
