-- ===== src/Prelude/Text.antt =====
-- Python's `str` as a list of code points, `strip`, `lower` and equality; `strip` and `lower` are
-- those of ASCII text.
use Prim.Native.Nat.{ℕ, ◌+◌}
use Prim.Native.Char.{code}
use Prim.Native.String.{String}
use mathlib.Core.Path.{◌≡◌, refl, ap₂}
use native.Mathlib.Omega.{arith}
use mathlib.Core.Bool.{Bool, true, false, ◌&&◌, ◌||◌}
use mathlib.Core.Option.{Option, none, some}
use mathlib.Core.List.{List, [], ◌∷◌, ◌++◌, map, reverse}
use remote_host_mcp.Prelude.Tests.{leb, ◌==◌, if◌then◌else◌}

abbrev pub Text : Type 0
Text = List ℕ

-- The code points of a literal.
abbrev pub codes : String → Text
codes String.[] = []
codes (String.◌∷◌ c s) = code c ∷ codes s

abbrev pub text_eq : Text → Text → Bool
text_eq [] [] = true
text_eq [] (d ∷ t) = false
text_eq (c ∷ s) [] = false
text_eq (c ∷ s) (d ∷ t) = c == d && text_eq s t

pub text_eq_refl : (t : Text) → text_eq t t ≡ true
text_eq_refl [] = refl
text_eq_refl (c ∷ t) = ground (arith, text_eq_refl t)

pub text_eq_sound : (s t : Text) → text_eq s t ≡ true → s ≡ t
text_eq_sound [] [] h = refl
text_eq_sound [] (d ∷ t) h = absurd (ground arith)
text_eq_sound (c ∷ s) [] h = absurd (ground arith)
text_eq_sound (c ∷ s) (d ∷ t) h =
    let head : c ≡ d = ground arith in
    let tail : text_eq s t ≡ true = ground arith in ap₂ ◌∷◌ head (text_eq_sound s t tail)

abbrev pub is_space : ℕ → Bool
is_space c = c == 32 || (leb 9 c && leb c 13) || (leb 28 c && leb c 31)

unfoldable pub lstrip : Text → Text
lstrip [] = []
lstrip (c ∷ s) = let rest = lstrip s in if is_space c then rest else c ∷ s

unfoldable pub strip : Text → Text
unfolding lstrip
strip s = reverse (lstrip (reverse (lstrip s)))

abbrev pub lower_char : ℕ → ℕ
lower_char c = if leb 65 c && leb c 90 then c + 32 else c

unfoldable pub lower : Text → Text
lower = map lower_char

abbrev pub has_nul : Text → Bool
has_nul [] = false
has_nul (c ∷ s) = if c == 0 then true else has_nul s

-- `[a-f0-9]`
abbrev pub is_hex : ℕ → Bool
is_hex c = (leb b'0' c && leb c b'9') || (leb b'a' c && leb c b'f')

abbrev pub all_hex : Text → Bool
all_hex [] = true
all_hex (c ∷ cs) = is_hex c && all_hex cs

-- `[0-9]`
abbrev pub is_digit : ℕ → Bool
is_digit c = leb b'0' c && leb c b'9'

-- `c in t`
unfoldable pub has : ℕ → Text → Bool
has c [] = false
has c (d ∷ t) = d == c || has c t

-- `t.split(c, 1)`, none where there is no `c`
unfoldable pub split_once : ℕ → Text → Option (Text × Text)
split_once c [] = none
split_once c (d ∷ t) =
    let rest = split_once c t in
    if d == c
    then some ([], t)
    else elim rest [ none ↦ none | some (before, behind) ↦ some (d ∷ before, behind) ]

pub split_once-first :
    (c : ℕ) (key value : Text)
    → has c key ≡ false
    → split_once c (key ++ c ∷ value) ≡ some (key, value)
unfolding split_once has
split_once-first c [] value h = ground (arith)
split_once-first c (d ∷ key) value h =
    let other : (d == c) ≡ false = ground arith in
    let rest : has c key ≡ false = ground arith in
    ground (arith, other, split_once-first c key value rest)

pub split_once-none : (c : ℕ) (t : Text) → has c t ≡ false → split_once c t ≡ none
unfolding split_once has
split_once-none c [] h = refl
split_once-none c (d ∷ t) h =
    let other : (d == c) ≡ false = ground arith in
    let rest : has c t ≡ false = ground arith in ground (arith, other, split_once-none c t rest)

pub has-append : (c : ℕ) (s t : Text) → has c (s ++ t) ≡ (has c s || has c t)
unfolding has
has-append c [] t = refl
has-append c (d ∷ s) t = ground (arith, has-append c s t)
