-- ===== src/Config/Variables.antt =====
-- One variable of the environment: the helpers of src/remote_host_mcp/config.py. A name stands without
-- its prefix.
use mathlib.Core.List.{reverse}
use remote_host_mcp.Prelude.{
  ℕ, String, Bool, true, false, ◌&&◌, ◌||◌, Option, none, some, List, [], ◌∷◌, ◌++◌, length, is_nil,
  leb, ◌==◌, if◌then◌else◌,
}
use remote_host_mcp.Prelude.Text.{Text, codes, text_eq, strip, lower, is_space, is_digit}
use remote_host_mcp.Prelude.Int.{ℤ, pos}
use remote_host_mcp.HubSettings.{
  Parsed, value, config_error, ◌bind◌, in_range, true_words, false_words,
}
use remote_host_mcp.HubSettings.Parsers.{parse_int, is_https, member}

infixl 10 ◌>>=◌
abbrev pub ◌>>=◌ : {A B : Type 0} → Parsed A → (A → Parsed B) → Parsed B
p >>= k = ◌bind◌ p k

-- The environment: the names with the prefix RHMCP_, and those with DSW_MCP_.
pub record Env : Type 0 where
  pub canonical : String → Option Text
  pub legacy : String → Option Text

-- A reader of variables
abbrev pub Read : Type 0
Read = String → Parsed (Option Text)

-- `_raw`, of the two values; none is the default
abbrev pub choose : String → Option Text → Option Text → Parsed (Option Text)
choose name none legacy = value legacy
choose name (some c) none = value (some c)
choose name (some c) (some l) = if text_eq c l then value (some c) else config_error name

unfoldable pub raw : Env → Read
raw env name = choose name (env.canonical name) (env.legacy name)

abbrev pub int_of : ℕ → Option Text → Option ℤ
int_of default none = some (pos default)
int_of default (some t) = parse_int (strip t)

-- `_int`; the default has to be in range too
unfoldable pub read_int : Read → String → ℕ → ℕ → ℕ → Parsed ℕ
read_int read name default low high = do
  found ← read name
  elim (int_of default found) [
    | none ↦ config_error name
    | some z ↦ elim (in_range low high z) [ none ↦ config_error name | some n ↦ value n ]
  ]

abbrev pub text_or : Text → Option Text → Text
text_or default none = default
text_or default (some t) = t

-- `_bool`
unfoldable pub read_bool : Read → String → Bool → Parsed Bool
read_bool read name default = do
  found ← read name
  let word = lower (strip (text_or (if default then codes "true" else codes "false") found))
  if member word true_words
      then value true
      else if member word false_words
      then value false
      else config_error name

-- `_choice`
unfoldable pub read_choice : Read → String → Text → List Text → Parsed Text
read_choice read name default allowed = do
  found ← read name
  let word = lower (strip (text_or default found))
  if member word allowed then value word else config_error name

-- `_https_url` of a variable that is required; `default` is none where there is none
unfoldable pub read_https_url : Read → String → Text → Parsed Text
read_https_url read name default = do
  found ← read name
  let url = strip (text_or default found)
  if is_nil url then config_error name else if is_https url then value url else config_error name

-- `str.split`, of text with commas taken as blanks: a word that is begun, and the words behind it
abbrev pub is_gap : ℕ → Bool
is_gap c = is_space c || c == 44

abbrev pub cons_word : Text → List Text → List Text
cons_word [] words = words
cons_word (c ∷ w) words = (c ∷ w) ∷ words

unfoldable pub split_words : Text → Text × List Text
split_words [] = ([], [])
split_words (c ∷ cs) =
    let (word, words) = split_words cs in
    if is_gap c then ([], cons_word word words) else (c ∷ word, words)

-- `dict.fromkeys`
unfoldable pub remove_word : Text → List Text → List Text
remove_word w [] = []
remove_word w (v ∷ vs) = let rest = remove_word w vs in if text_eq v w then rest else v ∷ rest

unfoldable pub dedupe : List Text → List Text
unfolding remove_word
dedupe [] = []
dedupe (w ∷ ws) = w ∷ remove_word w (dedupe ws)

-- `_list_env`
unfoldable pub read_list : Read → String → Text → Parsed (List Text)
unfolding split_words dedupe
read_list read name default = do
  found ← read name
  let (word, words) = split_words (text_or default found)
  let all = dedupe (cons_word word words)
  if is_nil all then config_error name else value all

-- `str.split(":")`
unfoldable pub split_colons : Text → List Text
split_colons [] = [] ∷ []
split_colons (c ∷ cs) =
    let rest = split_colons cs in
    if c == 58 then [] ∷ rest else elim rest [ [] ↦ (c ∷ []) ∷ [] | w ∷ ws ↦ (c ∷ w) ∷ ws ]

-- The directories of `_roots`, resolved
unfoldable pub resolve_roots : (Text → Text) → List Text → List Text
resolve_roots resolve [] = []
resolve_roots resolve (item ∷ items) =
    let rest = resolve_roots resolve items in
    if is_nil (strip item) then rest else resolve (strip item) ∷ rest

-- `_roots`: `home` is the home directory
unfoldable pub read_roots : (Text → Text) → Text → Read → Parsed (List Text)
unfolding split_colons resolve_roots dedupe
read_roots resolve home read = do
  found ← read "ALLOWED_ROOTS"
  let given = text_or [] found
  let text = if is_nil given then home ++ codes ":/tmp" else given
  let roots = dedupe (resolve_roots resolve (split_colons text))
  if is_nil roots then config_error "ALLOWED_ROOTS" else value roots

abbrev pub is_letter : ℕ → Bool
is_letter c = (leb 65 c && leb c 90) || (leb 97 c && leb c 122)

abbrev pub all_of : (ℕ → Bool) → Text → Bool
all_of ok [] = true
all_of ok (c ∷ cs) = ok c && all_of ok cs

-- `_KEY_RE`
unfoldable pub is_path_key : Text → Bool
is_path_key t =
    leb 32 (length t)
    && leb (length t) 128
    && all_of (λ c. is_letter c || is_digit c || c == 95 || c == 45) t

abbrev pub is_alnum : ℕ → Bool
is_alnum c = is_letter c || is_digit c

abbrev pub first_is : (ℕ → Bool) → Text → Bool
first_is ok [] = false
first_is ok (c ∷ cs) = ok c

-- One label of `_HOST_RE`
unfoldable pub is_label : Text → Bool
is_label t =
    leb 1 (length t)
    && leb (length t) 63
    && all_of (λ c. is_alnum c || c == 45) t
    && first_is is_alnum t
    && first_is is_alnum (reverse t)

unfoldable pub split_dots : Text → List Text
split_dots [] = [] ∷ []
split_dots (c ∷ cs) =
    let rest = split_dots cs in
    if c == 46 then [] ∷ rest else elim rest [ [] ↦ (c ∷ []) ∷ [] | w ∷ ws ↦ (c ∷ w) ∷ ws ]

-- Labels, of which the last one is a top-level domain
unfoldable pub are_labels : List Text → Bool
unfolding is_label
are_labels [] = false
are_labels (t ∷ []) = leb 2 (length t) && leb (length t) 63 && all_of is_letter t
are_labels (t ∷ u ∷ us) = is_label t && are_labels (u ∷ us)

-- `_HOST_RE`
unfoldable pub is_host : Text → Bool
unfolding split_dots are_labels
is_host t = leb (length t) 253 && leb 2 (length (split_dots t)) && are_labels (split_dots t)

abbrev drop_front_dots : Text → Text
drop_front_dots [] = []
drop_front_dots (c ∷ cs) = let rest = drop_front_dots cs in if c == 46 then rest else c ∷ cs

-- `rstrip(".")`
unfoldable pub drop_dots : Text → Text
drop_dots t = reverse (drop_front_dots (reverse t))
