-- ===== src/HubSettings/Parsers.antt =====
-- What src/remote_host_mcp/hub_settings.py uses of Python's `int`, `urlparse` and `str`, for ASCII
-- text.
use mathlib.Core.List.{reverse}
use remote_host_mcp.Prelude.{
  ℕ, zero, suc, ◌+◌, ◌*◌, ◌-◌, Bool, true, false, not, ◌&&◌, ◌||◌, Option, none, some, List, [],
  ◌∷◌, leb, ◌==◌, if◌then◌else◌,
}
use remote_host_mcp.Prelude.Text.{Text, codes, text_eq, lower_char}
use remote_host_mcp.Prelude.Int.{ℤ, pos, negsuc}

abbrev pub member : Text → List Text → Bool
member t [] = false
member t (u ∷ us) = if text_eq u t then true else member t us

-- `str.startswith`
unfoldable pub starts_with : Text → Text → Bool
starts_with [] t = true
starts_with (c ∷ s) [] = false
starts_with (c ∷ s) (d ∷ t) = c == d && starts_with s t

abbrev is_digit : ℕ → Bool
is_digit c = leb 48 c && leb c 57

-- The digits behind the first one, where one underscore may stand between two digits.
abbrev digits_from : ℕ → Text → Option ℕ
digits_from n [] = some n
digits_from n (c ∷ []) = if is_digit c then some (n * 10 + (c - 48)) else none
digits_from n (c ∷ d ∷ s) =
    let next = digits_from (n * 10 + (c - 48)) (d ∷ s) in
    let under = digits_from (n * 10 + (d - 48)) s in
    if is_digit c then next else if c == 95 && is_digit d then under else none

abbrev digits : Text → Option ℕ
digits [] = none
digits (c ∷ s) = if is_digit c then digits_from (c - 48) s else none

abbrev negated : Option ℕ → Option ℤ
negated none = none
negated (some zero) = some (pos 0)
negated (some (suc n)) = some (negsuc n)

abbrev plain : Option ℕ → Option ℤ
plain none = none
plain (some n) = some (pos n)

-- `int(raw)` of a stripped text, `none` where it raises
unfoldable pub parse_int : Text → Option ℤ
parse_int [] = none
parse_int (c ∷ s) =
    if c == 45
    then negated (digits s)
    else if c == 43
    then plain (digits s)
    else plain (digits (c ∷ s))

-- What stands behind a prefix that is compared in lower case.
abbrev after_scheme : Text → Text → Option Text
after_scheme [] t = some t
after_scheme (c ∷ s) [] = none
after_scheme (c ∷ s) (d ∷ t) = if c == lower_char d then after_scheme s t else none

abbrev has_netloc : Text → Bool
has_netloc [] = false
has_netloc (c ∷ s) = not (c == 47 || c == 63 || c == 35)

abbrev has_fragment : Text → Bool
has_fragment [] = false
has_fragment (c ∷ []) = false
has_fragment (c ∷ d ∷ s) = if c == 35 then true else has_fragment (d ∷ s)

-- The scheme is https, there is a network location, and no fragment.
unfoldable pub is_https : Text → Bool
is_https raw = elim (after_scheme (codes "https://") raw) [
  | none ↦ false
  | some rest ↦ has_netloc rest && not (has_fragment rest)
]

abbrev drop_slashes : Text → Text
drop_slashes [] = []
drop_slashes (c ∷ s) = let rest = drop_slashes s in if c == 47 then rest else c ∷ s

-- `raw.rstrip("/")`
unfoldable pub rstrip_slash : Text → Text
rstrip_slash raw = reverse (drop_slashes (reverse raw))
