-- ===== src/Terminal/Markers.antt =====
-- The markers that `_strip_rhmcp_osc133` of src/remote_host_mcp/terminal.py takes out of the output of a
-- shell: `ESC ]133; C|D ;id=<24 hex digits> [;rc=<integer>] BEL`.
use remote_host_mcp.Prelude.{
  is_nil, ℕ, zero, suc, ◌+◌, ◌*◌, ◌-◌, Bool, true, false, Option, none, some, List, [], ◌∷◌, ◌++◌,
  take, drop, length, min, leb, ltb, ◌==◌, if◌then◌else◌,
}
use remote_host_mcp.Prelude.Text.{is_hex, is_digit, Text, codes, text_eq}
use remote_host_mcp.Prelude.Int.{ℤ, pos, negsuc}
use remote_host_mcp.Disk.{is_some, Bytes}

-- `_RHMCP_OSC_PREFIX`
abbrev pub osc_prefix : Bytes
osc_prefix = 27 ∷ codes "]133;"

abbrev pub bel : ℕ
bel = 7

-- `_RHMCP_OSC_TAIL_MAX_BYTES`
abbrev pub osc_tail_max : ℕ
osc_tail_max = 256

-- The rest of a text behind a literal that it starts with.
unfoldable pub after_literal : Bytes → Bytes → Option Bytes
after_literal [] bs = some bs
after_literal (c ∷ lit) [] = none
after_literal (c ∷ lit) (b ∷ bs) = if c == b then after_literal lit bs else none

-- `[a-f0-9]{n}`: the match and the rest
unfoldable pub take_hex : ℕ → Bytes → Option (Bytes × Bytes)
take_hex zero bs = some ([], bs)
take_hex (suc n) [] = none
take_hex (suc n) (b ∷ bs) = elim (take_hex n bs) [
  | none ↦ none
  | some (id, rest) ↦ if is_hex b then some (b ∷ id, rest) else none
]

-- `\d*`
unfoldable pub take_digits : Bytes → Bytes × Bytes
take_digits [] = ([], [])
take_digits (b ∷ bs) =
    let (ds, rest) = take_digits bs in if is_digit b then (b ∷ ds, rest) else ([], b ∷ bs)

unfoldable pub digits_value : ℕ → Bytes → ℕ
digits_value acc [] = acc
digits_value acc (d ∷ ds) = digits_value (acc * 10 + (d - b'0')) ds

-- The integer of a sign and digits.
abbrev pub signed : Bool → ℕ → ℤ
signed false n = pos n
signed true zero = pos 0
signed true (suc n) = negsuc n

-- `int` of an exit status; none is the ValueError for more than 4300 digits.
unfoldable pub status_value : Bool → Bytes → Option ℤ
unfolding digits_value
status_value minus ds =
    if leb (length ds) 4300 then some (signed minus (digits_value 0 ds)) else none

-- A marker: its kind, its id, and the sign and digits of its status.
pub record Marker : Type 0 where
  pub is_done : Bool
  pub id : Text
  pub status : Option (Bool × Bytes)

-- `-?`
unfoldable pub take_minus : Bytes → Bool × Bytes
take_minus bs = elim (after_literal (b'-' ∷ []) bs) [
  | none ↦ (false, bs)
  | some rest ↦ (true, rest)
]

-- `-?\d+`
unfoldable pub match_number : Bytes → Option ((Bool × Bytes) × Bytes)
match_number bs =
    let (minus, unsigned) = take_minus bs in
    let (ds, rest) = take_digits unsigned in if is_nil ds then none else some ((minus, ds), rest)

-- `(?:;rc=(-?\d+))?\x07`. Where the optional group matches but no BEL follows, the pattern without
-- the group fails too, at the semicolon.
unfoldable pub match_status : Bytes → Option (Option (Bool × Bytes) × Bytes)
match_status bs = elim (after_literal (codes ";rc=") bs) [
  | none ↦ elim (after_literal (bel ∷ []) bs) [ none ↦ none | some rest ↦ some (none, rest) ]
  | some number ↦ elim (match_number number) [
    | none ↦ none
    | some (status, rest) ↦ elim (after_literal (bel ∷ []) rest) [
      | none ↦ none
      | some rest' ↦ some (some status, rest')
    ]
  ]
]

-- `;id=([a-f0-9]{24})` and what follows
unfoldable pub match_id : Bool → Bytes → Option (Marker × Bytes)
match_id is_done bs = elim (after_literal (codes ";id=") bs) [
  | none ↦ none
  | some from_id ↦ elim (take_hex 24 from_id) [
    | none ↦ none
    | some (id, rest) ↦ elim (match_status rest) [
      | none ↦ none
      | some (status, rest') ↦ some (record { is_done = is_done; id = id; status = status }, rest')
    ]
  ]
]

-- `_RHMCP_OSC_RE` at the start of a text
unfoldable pub match_marker : Bytes → Option (Marker × Bytes)
match_marker bs = elim (after_literal osc_prefix bs) [
  | none ↦ none
  | some [] ↦ none
  | some (k ∷ rest) ↦
      if k == b'C' then match_id false rest else if k == b'D' then match_id true rest else none
]

-- `_RHMCP_OSC_RE.sub`: the bytes outside the matches, and the markers in order. The number counts
-- the bytes of a match that are still to be skipped.
unfoldable pub scan : ℕ → Bytes → Bytes × List Marker
scan skip [] = ([], [])
scan (suc skip) (b ∷ bs) = scan skip bs
scan zero (b ∷ bs) = elim (match_marker (b ∷ bs)) [
  | none ↦ (let (kept, ms) = scan zero bs in (b ∷ kept, ms))
  | some (m, rest) ↦ (let (kept, ms) = scan (length bs - length rest) bs in (kept, m ∷ ms))
]

-- A text cut in front of the last place where the prefix starts (`rfind`).
unfoldable pub last_prefix : Bytes → Option (Bytes × Bytes)
last_prefix [] = none
last_prefix (b ∷ bs) = elim (last_prefix bs) [
  | some (front, tail) ↦ some (b ∷ front, tail)
  | none ↦ if is_some (after_literal osc_prefix (b ∷ bs)) then some ([], b ∷ bs) else none
]

abbrev pub has_bel : Bytes → Bool
has_bel [] = false
has_bel (b ∷ bs) = if b == bel then true else has_bel bs

-- The loop over `size`, downwards: the longest end of a text that is a start of the prefix is cut
-- off.
unfoldable pub split_prefix : ℕ → Bytes → Bytes × Bytes
split_prefix zero bs = (bs, [])
split_prefix (suc size) bs =
    let end = drop (length bs - suc size) bs in
    let shorter = split_prefix size bs in
    if text_eq end (take (suc size) osc_prefix)
    then (take (length bs - suc size) bs, end)
    else shorter

-- `max_prefix` and the loop
abbrev pub split_partial : Bytes → Bytes × Bytes
split_partial bs = split_prefix (min (length osc_prefix - 1) (length bs)) bs

-- What stays back for the next read.
unfoldable pub hold_back : Bytes → Bytes × Bytes
hold_back cleaned = elim (last_prefix cleaned) [
  | none ↦ split_partial cleaned
  | some (front, tail) ↦ if has_bel tail then split_partial cleaned else (front, tail)
]

-- The flush of a hidden tail that has grown too long.
unfoldable pub flush_tail : Bytes × Bytes → Bytes × Bytes
flush_tail (cleaned, tail) =
    let (released, keep) = split_partial tail in
    if ltb osc_tail_max (length tail) then (cleaned ++ released, keep) else (cleaned, tail)

-- `_strip_rhmcp_osc133`: the output, the new tail, and the markers
unfoldable pub strip_markers : Bytes → Bytes → Bytes × Bytes × List Marker
unfolding scan hold_back flush_tail
strip_markers osc_tail chunk =
    let (cleaned, ms) = scan 0 (osc_tail ++ chunk) in
    let (out, tail) = flush_tail (hold_back cleaned) in (out, tail, ms)
