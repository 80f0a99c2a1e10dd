-- ===== src/Files/Patching.antt =====
-- What `apply_line_patch` of src/remote_host_mcp/agent_ops.py writes, and over what.
use remote_host_mcp.Prelude.{
  ℕ, ◌≤◌, ◌≡◌, refl, ap, sym, ◌∙◌, Bool, true, Option, none, some, List, [], ◌∷◌, length, arith,
  Option-cases, inl, inr, ◌⊎◌,
}
use remote_host_mcp.Prelude.Text.{Text, text_eq, text_eq_sound, lower, lower_char}
use mathlib.Core.Path.{ap₂, subst}
use remote_host_mcp.Disk.{Bytes}
use remote_host_mcp.Files.Writing.{regular, Node, Place, Others, done, write_text_file}
use remote_host_mcp.Files.Guarded.{Fate, replaces, write_text_file-Fate}
use remote_host_mcp.Files.Patch.{
  encode, splitlines, join, LineEdit, sort_edits, check_edits, apply_edits, Problem, Patched,
  problem, result, read_text_bounded, patch_text, writes, patched, apply_line_patch,
}
use remote_host_mcp.Files.Splicing.{edit_down, apply_edits-down}

-- The text with the edits, from its first line to its last one.
abbrev pub edited : List LineEdit → Text → Text
edited edits current = join (edit_down 0 (sort_edits edits) (splitlines current))

pub patch_text-edited :
    (max_file_bytes : ℕ) (edits : List LineEdit) (current text : Text)
    → patch_text max_file_bytes edits current ≡ result text
    → (text ≡ edited edits current) × (length (encode text) ≤ max_file_bytes)
unfolding patch_text
patch_text-edited max_file_bytes edits current text h =
    let lines = splitlines current in
    elim (Option-cases (check_edits (length lines) 0 (sort_edits edits))) [
      | inr (why, e) ↦ absurd (ground (arith, e, h))
      | inl e ↦
          let down : join (apply_edits (sort_edits edits) lines) ≡ edited edits current =
            ap join (apply_edits-down 0 (sort_edits edits) lines (omega arith) e) in
          ground (arith, e, h, down)
    ]

lower_char-lower_char : (c : ℕ) → lower_char (lower_char c) ≡ lower_char c
lower_char-lower_char c = ground arith

lower-lower : (t : Text) → lower (lower t) ≡ lower t
unfolding lower
lower-lower [] = refl
lower-lower (c ∷ cs) = ap₂ ◌∷◌ (lower_char-lower_char c) (lower-lower cs)

read_text_bounded-read :
    (max_file_bytes : ℕ) (file : Option (ℕ × Text)) (current : Text)
    → read_text_bounded max_file_bytes file ≡ some current
    → (size : ℕ) × (file ≡ some (size, current))
unfolding read_text_bounded
read_text_bounded-read max_file_bytes none current h = absurd (ground arith)
read_text_bounded-read max_file_bytes (some (size, text)) current h =
    let same : text ≡ current = ground (arith, h) in (size, ap (λ t. some (size, t)) same)

Patched-cases :
    (q : Patched) → ((why : Problem) × (q ≡ problem why)) ⊎ ((t : Text) × (q ≡ result t))
Patched-cases (problem why) = inl (why, refl)
Patched-cases (result t) = inr (t, refl)

-- A patch that is done.
pub record Landed (edits : List LineEdit) (existing : Option Node) (o : Others)
    (file : Option (ℕ × Text)) (p : Place) : Type 0 where
  pub size : ℕ
  pub current : Text
  pub was_read : file ≡ some (size, current)
  pub old : Node
  pub new : Node
  pub stood : o.before_commit (o.after_look existing) ≡ some old
  pub for_this : old.content ≡ encode current
  pub stands : p.at_name ≡ o.after_commit (some new)
  pub patched : new.content ≡ encode (edited edits current)

-- What a result of `patched` rests on.
record IsPatched (sha256 : Bytes → Text) (expected : Text) (edits : List LineEdit)
    (file : Option (ℕ × Text)) (text : Text) : Type 0 where
  size : ℕ
  current : Text
  was_read : file ≡ some (size, current)
  digest : text_eq (lower (sha256 (encode current))) (lower expected) ≡ true
  is_edited : text ≡ edited edits current

module _ (sha256 : Bytes → Text) where
  patched-IsPatched :
      (expected : Text) (max_file_bytes : ℕ) (edits : List LineEdit) (file : Option (ℕ × Text))
      (text : Text)
      → patched sha256 expected max_file_bytes edits file ≡ result text
      → IsPatched sha256 expected edits file text
  unfolding patched
  patched-IsPatched expected max_file_bytes edits file text h =
      elim (Option-cases (read_text_bounded max_file_bytes file)) [
        | inl e ↦ absurd (ground (arith, e, h))
        | inr (current, e) ↦
            let (size, was) = read_text_bounded-read max_file_bytes file current e in
            let made : patch_text max_file_bytes edits current ≡ result text =
              ground (arith, e, h) in
            record {
              size = size;
              current = current;
              was_read = was;
              digest = ground (arith, e, h);
              is_edited = (patch_text-edited max_file_bytes edits current text made).0;
            }
      ]

  Fate-done :
      (expected : Text) (new : Node) (existing : Option Node) (o : Others) (p : Place)
      → Fate sha256 expected new existing o (done, p)
      → (old : Node) × (o.before_commit (o.after_look existing) ≡ some old)
        × (text_eq (sha256 old.content) expected ≡ true)
        × (p.at_name ≡ o.after_commit (some new))
  Fate-done expected new existing o p (replaces old _ was digest stands gone) =
      (old, was, digest, stands)

  -- A patch that is done has replaced exactly the text that was read, which has the expected digest,
  -- by that text with the edits from its first line to its last one, so that no change of another
  -- process is lost: for a digest that tells contents apart and is written in lower case, as long
  -- as no other process acts in the middle of the way back of a failing write.
  pub apply_line_patch-Landed :
      (expected : Text) (edits : List LineEdit) (mode max_file_bytes : ℕ) (file : Option (ℕ × Text))
      (inode now : ℕ) (stores : Bool) (existing : Option Node) (o : Others) (p : Place)
      → ((a b : Bytes) → sha256 a ≡ sha256 b → a ≡ b)
      → ((a : Bytes) → lower (sha256 a) ≡ sha256 a)
      → ((d : Option Node) → o.before_rollback d ≡ d)
      → apply_line_patch sha256 expected edits mode max_file_bytes file inode now stores existing o
        ≡ writes (done, p)
      → Landed edits existing o file p
  unfolding apply_line_patch
  apply_line_patch-Landed expected edits mode max_file_bytes file inode now stores existing o p
        injective low quiet h =
      elim (Patched-cases (patched sha256 expected max_file_bytes edits file)) [
        | inl (why, e) ↦ absurd (ground (arith, e, h))
        | inr (text, e) ↦
            let new : Node = record {
              inode = inode;
              kind = regular;
              content = encode text;
              modified = now;
            } in
            let wrote : write_text_file sha256 true (some (lower expected)) mode stores new existing
                  o
                ≡ (done, p) =
              ground (arith, e, h) in
            let is = patched-IsPatched expected max_file_bytes edits file text e in
            let fate = subst (Fate sha256 (lower (lower expected)) new existing o) wrote (
              write_text_file-Fate sha256 true (lower expected) mode stores new existing o quiet) in
            let (old, stood, digest, stands) =
              Fate-done (lower (lower expected)) new existing o p fate in
            record {
              size = is.size;
              current = is.current;
              was_read = is.was_read;
              old = old;
              new = new;
              stood = stood;
              for_this = injective old.content (encode is.current) (
                  text_eq_sound (sha256 old.content) (lower (lower expected)) digest
                  ∙ lower-lower expected
                  ∙ sym (text_eq_sound _ (lower expected) is.digest)
                  ∙ low (encode is.current));
              stands = stands;
              patched = ap encode is.is_edited;
            }
      ]
