-- ===== src/Terminal/Printing.antt =====
-- The marker that `exec` of src/remote_host_mcp/terminal.py has the shell print is the one that
-- `_strip_rhmcp_osc133` takes out.
use remote_host_mcp.Prelude.{
  is_nil, ℕ, zero, suc, ◌-◌, ◌≡◌, refl, ◌∙◌, Bool, true, false, ◌&&◌, not, Option, none, some, [],
  ◌∷◌, ◌++◌, take, drop, length, min, arith, length-append, append_assoc, if◌then◌else◌, ◌==◌,
}
use remote_host_mcp.Prelude.Text.{all_hex, is_digit, codes, text_eq}
use remote_host_mcp.Disk.{Bytes}
use remote_host_mcp.Terminal.Markers.{
  osc_prefix, bel, after_literal, take_hex, take_digits, take_minus, match_number, match_status,
  match_id, match_marker, Marker, last_prefix, split_prefix, hold_back, scan, strip_markers,
}

abbrev pub print_status : Option (Bool × Bytes) → Bytes
print_status none = []
print_status (some (minus, ds)) = codes ";rc=" ++ ((if minus then b'-' ∷ [] else []) ++ ds)

-- What `printf '\033]133;D;id=...;rc=%s\007'` prints for a status, and the one for the start.
unfoldable pub print_marker : Marker → Bytes
print_marker m =
    osc_prefix
    ++ ((if m.is_done then b'D' else b'C')
        ∷ (codes ";id=" ++ (m.id ++ (print_status m.status ++ bel ∷ []))))

abbrev pub all_digits : Bytes → Bool
all_digits [] = true
all_digits (b ∷ bs) = is_digit b && all_digits bs

-- No escape byte.
abbrev pub is_plain : Bytes → Bool
is_plain [] = true
is_plain (b ∷ bs) = not (b == 27) && is_plain bs

abbrev pub status_ok : Option (Bool × Bytes) → Bool
status_ok none = true
status_ok (some (minus, ds)) = not (is_nil ds) && all_digits ds

-- A marker with 24 digits of id, and digits in its status if it has one.
pub record IsMarker (m : Marker) : Type 0 where
  pub id_length : length m.id ≡ 24
  pub id_hex : all_hex m.id ≡ true
  pub status_digits : status_ok m.status ≡ true

after_literal-append : (lit bs : Bytes) → after_literal lit (lit ++ bs) ≡ some bs
unfolding after_literal
after_literal-append [] bs = refl
after_literal-append (c ∷ lit) bs = ground (arith, after_literal-append lit bs)

take_hex-append :
    (n : ℕ) (id rest : Bytes)
    → length id ≡ n
    → all_hex id ≡ true
    → take_hex n (id ++ rest) ≡ some (id, rest)
unfolding take_hex
take_hex-append zero [] rest e h = refl
take_hex-append zero (b ∷ id) rest e h = absurd (omega arith)
take_hex-append (suc n) [] rest e h = absurd (omega arith)
take_hex-append (suc n) (b ∷ id) rest e h = ground (arith, take_hex-append n id rest)

take_digits-append :
    (ds rest : Bytes) → all_digits ds ≡ true → take_digits (ds ++ bel ∷ rest) ≡ (ds, bel ∷ rest)
unfolding take_digits
take_digits-append [] rest h = refl
take_digits-append (d ∷ ds) rest h = ground (arith, take_digits-append ds rest)

take_minus-append :
    (minus : Bool) (ds rest : Bytes)
    → is_nil ds ≡ false
    → all_digits ds ≡ true
    → take_minus ((if minus then b'-' ∷ [] else []) ++ (ds ++ rest)) ≡ (minus, ds ++ rest)
unfolding take_minus after_literal
take_minus-append minus [] rest e h = absurd (ground arith)
take_minus-append true (d ∷ ds) rest e h = refl
take_minus-append false (d ∷ ds) rest e h = ground arith

match_number-print :
    (minus : Bool) (ds rest : Bytes)
    → is_nil ds ≡ false
    → all_digits ds ≡ true
    → match_number ((if minus then b'-' ∷ [] else []) ++ (ds ++ bel ∷ rest))
      ≡ some ((minus, ds), bel ∷ rest)
unfolding match_number
match_number-print minus ds rest some_digit digits =
    rw
      (
        take_minus-append minus ds (bel ∷ rest) some_digit digits,
        take_digits-append ds rest digits,
        some_digit,
        match_number,
      )
      refl

match_status-print :
    (s : Option (Bool × Bytes)) (rest : Bytes)
    → status_ok s ≡ true
    → match_status (print_status s ++ bel ∷ rest) ≡ some (s, rest)
unfolding match_status after_literal
match_status-print none rest h = refl
match_status-print (some (minus, ds)) rest h =
    let some_digit : is_nil ds ≡ false = ground arith in
    let digits : all_digits ds ≡ true = ground arith in
    let sign : Bytes = if minus then b'-' ∷ [] else [] in
    rw
      (
        append_assoc sign ds (bel ∷ rest),
        match_number-print minus ds rest some_digit digits,
        match_status,
      )
      refl

match_id-print :
    (k : Bool) (m : Marker) (rest : Bytes)
    → IsMarker m
    → match_id k (codes ";id=" ++ (m.id ++ (print_status m.status ++ bel ∷ rest)))
      ≡ some (record m { is_done = k }, rest)
unfolding match_id after_literal
match_id-print k m rest v =
    rw
      (
        take_hex-append 24 m.id (print_status m.status ++ bel ∷ rest) v.id_length v.id_hex,
        match_status-print m.status rest v.status_digits,
        match_id,
      )
      refl

-- The marker with a text behind it.
print_marker-append :
    (m : Marker) (rest : Bytes)
    → print_marker m ++ rest
      ≡ osc_prefix
        ++ ((if m.is_done then b'D' else b'C')
            ∷ (codes ";id=" ++ (m.id ++ (print_status m.status ++ bel ∷ rest))))
unfolding print_marker
print_marker-append m rest = simp append_assoc

match_marker-kind :
    (k : Bool) (m : Marker) (rest : Bytes)
    → IsMarker m
    → match_marker (
        osc_prefix
        ++ ((if k then b'D' else b'C')
            ∷ (codes ";id=" ++ (m.id ++ (print_status m.status ++ bel ∷ rest)))))
      ≡ some (record m { is_done = k }, rest)
unfolding match_marker after_literal
match_marker-kind true m rest v = match_id-print true m rest v
match_marker-kind false m rest v = match_id-print false m rest v

match_marker-print :
    (m : Marker) (rest : Bytes)
    → IsMarker m
    → match_marker (print_marker m ++ rest) ≡ some (m, rest)
match_marker-print m rest v = rw (print_marker-append m rest) (match_marker-kind m.is_done m rest v)

-- A plain byte starts no marker.
match_marker-plain : (b : ℕ) (bs : Bytes) → (b == 27) ≡ false → match_marker (b ∷ bs) ≡ none
unfolding match_marker after_literal
match_marker-plain b bs h = ground arith

scan-plain :
    (a bs : Bytes) → is_plain a ≡ true → scan 0 (a ++ bs) ≡ (a ++ (scan 0 bs).0, (scan 0 bs).1)
unfolding scan
scan-plain [] bs h = refl
scan-plain (b ∷ a) bs h =
    let plain : (b == 27) ≡ false = ground arith in
    let ih = scan-plain a bs (ground arith) in
    rw (match_marker-plain b (a ++ bs) plain, scan) (rw ih refl)

scan-skip : (xs bs : Bytes) → scan (length xs) (xs ++ bs) ≡ scan 0 bs
unfolding scan
scan-skip [] bs = refl
scan-skip (x ∷ xs) bs = scan-skip xs bs

scan-all_plain : (bs : Bytes) → is_plain bs ≡ true → scan 0 bs ≡ (bs, [])
unfolding scan
scan-all_plain [] h = refl
scan-all_plain (b ∷ bs) h =
    let plain : (b == 27) ≡ false = ground arith in
    let ih = scan-all_plain bs (ground arith) in
    rw (match_marker-plain b bs plain, scan) (rw ih refl)

-- A printed marker but for its first byte.
abbrev marker_rest : Marker → Bytes
marker_rest m = drop 1 (print_marker m)

print_marker-first : (m : Marker) → print_marker m ≡ 27 ∷ marker_rest m
unfolding print_marker
print_marker-first m = refl

scan-print_marker :
    (m : Marker) (bs : Bytes)
    → IsMarker m
    → scan 0 (print_marker m ++ bs) ≡ ((scan 0 bs).0, m ∷ (scan 0 bs).1)
unfolding scan
scan-print_marker m bs v =
    let r = marker_rest m in
    let found : match_marker (27 ∷ (r ++ bs)) ≡ some (m, bs) =
      rw (print_marker-first m) at (match_marker-print m bs v) in
    let skip : length (r ++ bs) - length bs ≡ length r = omega (arith, length-append r bs) in
    rw (print_marker-first m, found, scan) (rw (skip, scan-skip r bs) refl)

is_plain-append : (a b : Bytes) → is_plain a ≡ true → is_plain b ≡ true → is_plain (a ++ b) ≡ true
is_plain-append [] b h k = k
is_plain-append (x ∷ a) b h k = ground (arith, is_plain-append a b)

is_plain-drop : (n : ℕ) (bs : Bytes) → is_plain bs ≡ true → is_plain (drop n bs) ≡ true
is_plain-drop zero bs h = h
is_plain-drop (suc n) [] h = refl
is_plain-drop (suc n) (b ∷ bs) h = is_plain-drop n bs (ground arith)

text_eq-plain : (bs rest : Bytes) → is_plain bs ≡ true → text_eq bs (27 ∷ rest) ≡ false
text_eq-plain [] rest h = refl
text_eq-plain (b ∷ bs) rest h = ground arith

last_prefix-plain : (bs : Bytes) → is_plain bs ≡ true → last_prefix bs ≡ none
unfolding last_prefix after_literal
last_prefix-plain [] h = refl
last_prefix-plain (b ∷ bs) h = ground (arith, last_prefix-plain bs)

split_prefix-plain : (n : ℕ) (bs : Bytes) → is_plain bs ≡ true → split_prefix n bs ≡ (bs, [])
unfolding split_prefix
split_prefix-plain zero bs h = refl
split_prefix-plain (suc n) bs h =
    let end = drop (length bs - suc n) bs in
    let other : text_eq end (take (suc n) osc_prefix) ≡ false =
      text_eq-plain end (take n (codes "]133;")) (is_plain-drop (length bs - suc n) bs h) in
    rw (other, split_prefix) (split_prefix-plain n bs h)

hold_back-plain : (bs : Bytes) → is_plain bs ≡ true → hold_back bs ≡ (bs, [])
unfolding hold_back
hold_back-plain bs h =
    rw (last_prefix-plain bs h, hold_back)
      (split_prefix-plain (min (length osc_prefix - 1) (length bs)) bs h)

-- A marker that the shell prints amid plain output, with an id of 24 hex digits and a status of
-- digits if it has one, is taken out whole and read back as it was printed, and the rest of the
-- output goes through unchanged and at once.
pub strip_markers-print :
    (m : Marker) (a b : Bytes)
    → IsMarker m
    → is_plain a ≡ true
    → is_plain b ≡ true
    → strip_markers [] (a ++ (print_marker m ++ b)) ≡ (a ++ b, [], m ∷ [])
unfolding strip_markers
strip_markers-print m a b v left right =
    let scanned : scan 0 (a ++ (print_marker m ++ b)) ≡ (a ++ b, m ∷ []) =
      scan-plain a (print_marker m ++ b) left
      ∙ (rw (scan-print_marker m b v, scan-all_plain b right) refl) in
    rw (scanned, hold_back-plain (a ++ b) (is_plain-append a b left right)) refl
