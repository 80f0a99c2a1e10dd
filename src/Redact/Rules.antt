-- ===== src/Redact/Rules.antt =====
-- The patterns of src/remote_host_mcp/redact.py as backtracking matchers, for ASCII text. A matcher
-- is given the character before the text and what has to match behind it.
use remote_host_mcp.Prelude.{
  ℕ, zero, suc, ◌-◌, Bool, true, false, not, ◌&&◌, ◌||◌, Option, none, some, List, [], ◌∷◌, ◌++◌,
  take, length, leb, ◌==◌, if◌then◌else◌,
}
use remote_host_mcp.Prelude.Text.{Text, codes, is_space, lower_char}

-- Where a match ends, and where its second group begins.
abbrev pub Match : Type 0
Match = Text × Text

abbrev pub Next : Type 0
Next = Option ℕ → Text → Option Match

abbrev pub Pattern : Type 0
Pattern = Option ℕ → Text → Next → Option Match

abbrev pub or_else : Option Match → Option Match → Option Match
or_else none other = other
or_else (some m) other = some m

abbrev pub when : Bool → Option Match → Option Match
when true m = m
when false m = none

-- A character class.
abbrev pub one : (ℕ → Bool) → Pattern
one p prev [] k = none
one p prev (c ∷ s) k = when (p c) (k (some c) s)

-- `[...]{low}`, as many as will go
abbrev pub greedy : (ℕ → Bool) → ℕ → Pattern
greedy p low prev [] k = when (low == 0) (k prev [])
greedy p low prev (c ∷ s) k =
    or_else (when (p c) (greedy p (low - 1) (some c) s k)) (when (low == 0) (k prev (c ∷ s)))

-- `.*?`, as few as will do
abbrev pub anything_lazy : Pattern
anything_lazy prev [] k = k prev []
anything_lazy prev (c ∷ s) k = or_else (k prev (c ∷ s)) (anything_lazy (some c) s k)

abbrev pub then_also : Pattern → Pattern → Pattern
then_also p q prev s k = p prev s (λ prev' s'. q prev' s' k)

abbrev pub either : Pattern → Pattern → Pattern
either p q prev s k = or_else (p prev s k) (q prev s k)

abbrev pub optional : (ℕ → Bool) → Pattern
optional p prev s k = or_else (one p prev s k) (k prev s)

-- A text, letter by letter under a fold of the letters.
abbrev pub literal : (ℕ → ℕ) → Text → Pattern
literal fold [] prev s k = k prev s
literal fold (x ∷ xs) prev [] k = none
literal fold (x ∷ xs) prev (c ∷ s) k = when (fold c == x) (literal fold xs (some c) s k)

abbrev pub exactly : ℕ → ℕ
exactly c = c

abbrev pub is_digit : ℕ → Bool
is_digit c = leb 48 c && leb c 57

abbrev pub is_upper : ℕ → Bool
is_upper c = leb 65 c && leb c 90

abbrev pub is_alnum : ℕ → Bool
is_alnum c = is_digit c || is_upper c || (leb 97 c && leb c 122)

abbrev pub is_word : ℕ → Bool
is_word c = is_alnum c || c == 95

abbrev pub word_at : Option ℕ → Bool
word_at none = false
word_at (some c) = is_word c

abbrev pub first : Text → Option ℕ
first [] = none
first (c ∷ s) = some c

-- `\b`
abbrev pub boundary : Pattern
boundary prev s k = elim (word_at prev) [
  | true ↦ when (not (word_at (first s))) (k prev s)
  | false ↦ when (word_at (first s)) (k prev s)
]

-- The end of the first group.
abbrev pub group : Pattern
group prev s k = elim (k prev s) [ none ↦ none | some (end, mark) ↦ some (end, s) ]

-- `[A-Za-z0-9_-]`
abbrev pub is_key_char : ℕ → Bool
is_key_char c = is_word c || c == 45

abbrev pub is_hex : ℕ → Bool
is_hex c = is_digit c || (leb 65 c && leb c 70) || (leb 97 c && leb c 102)

abbrev pub is_quote : ℕ → Bool
is_quote c = c == 34 || c == 39

-- `[A-Z0-9 ]`
abbrev pub is_label : ℕ → Bool
is_label c = is_upper c || is_digit c || c == 32

-- `[^\s,;"']`
abbrev pub is_value : ℕ → Bool
is_value c = not (is_space c || c == 44 || c == 59 || is_quote c)

-- `_PEM_RE`
unfoldable pub pem : Pattern
pem = then_also (literal exactly (codes "-----BEGIN ")) (
    then_also (greedy is_label 0) (
      then_also (literal exactly (codes "PRIVATE KEY-----")) (
        then_also anything_lazy (
          then_also (literal exactly (codes "-----END "))
            (then_also (greedy is_label 0) (literal exactly (codes "PRIVATE KEY-----")))))))

-- `_BEARER_RE`
unfoldable pub bearer : Pattern
bearer = then_also boundary (
    then_also (literal lower_char (codes "bearer"))
      (then_also (greedy is_space 1) (greedy (λ c. is_key_char c || c == 46) 16)))

-- `_KEY_VALUE_RE`
unfoldable pub key_value : Pattern
key_value = then_also (optional is_quote) (
    then_also
      (either
        (then_also (literal lower_char (codes "api"))
          (then_also (optional (λ c. c == 95 || c == 45)) (literal lower_char (codes "key"))))
        (either (literal lower_char (codes "token"))
          (either (literal lower_char (codes "password")) (literal lower_char (codes "secret")))))
      (then_also (optional is_quote) (
        then_also (greedy is_space 0) (
          then_also (one (λ c. c == 61 || c == 58)) (
            then_also (greedy is_space 0)
              (then_also (optional is_quote) (then_also group (greedy is_value 8))))))))

-- `_PREFIX_KEY_RE`
unfoldable pub prefix_key : Pattern
prefix_key = then_also boundary (
    then_also (either (literal exactly (codes "gwk")) (literal exactly (codes "agt")))
      (then_also (literal exactly (codes "_")) (greedy is_key_char 20)))

-- `_OPENAI_KEY_RE`
unfoldable pub openai_key : Pattern
openai_key = then_also boundary (then_also (literal exactly (codes "sk-")) (greedy is_key_char 16))

-- `_HEX_BLOB_RE`
unfoldable pub hex_blob : Pattern
hex_blob = then_also boundary (then_also (greedy is_hex 32) boundary)

-- A pattern with its replacement: whether group 1 is kept, and the text that follows it.
pub record Rule : Type 0 where
  pub pattern : Pattern
  pub keeps_group : Bool
  pub put : Text

-- `_RULES`
unfoldable pub rules : List Rule
rules =
    record { pattern = pem; keeps_group = false; put = codes "[REDACTED:pem]" }
    ∷ record { pattern = bearer; keeps_group = false; put = codes "Bearer [REDACTED]" }
    ∷ record { pattern = key_value; keeps_group = true; put = codes "[REDACTED]" }
    ∷ record { pattern = prefix_key; keeps_group = false; put = codes "[REDACTED:gwk]" }
    ∷ record { pattern = openai_key; keeps_group = false; put = codes "[REDACTED:sk]" }
    ∷ record { pattern = hex_blob; keeps_group = false; put = codes "[REDACTED:hex]" }
    ∷ []

-- What a match is replaced by.
unfoldable pub replacement : Rule → Text → Text → Text
replacement rule s mark =
    if rule.keeps_group then take (length s - length mark) s ++ rule.put else rule.put

-- `pattern.sub(replacement, text)` from a position on: `skip` characters belong to the last match.
unfoldable pub sub_from : Rule → Option ℕ → ℕ → Text → Text
unfolding replacement
sub_from rule prev skip [] = []
sub_from rule prev (suc skip) (c ∷ s) = sub_from rule (some c) skip s
sub_from rule prev zero (c ∷ s) = elim (rule.pattern prev (c ∷ s) (λ q t. some (t, t))) [
  | none ↦ c ∷ sub_from rule (some c) 0 s
  | some (end, mark) ↦
      replacement rule (c ∷ s) mark ++ sub_from rule (some c) (length s - length end) s
]

-- `pattern.sub(replacement, text)`; no pattern matches the empty text
unfoldable pub sub : Rule → Text → Text
unfolding sub_from
sub rule text = sub_from rule none 0 text
