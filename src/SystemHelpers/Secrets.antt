-- ===== src/SystemHelpers/Secrets.antt =====
-- Command lines that differ in their secrets only, for `_redact_argv` of
-- src/remote_host_mcp/system_helpers.py.
use remote_host_mcp.Prelude.{
  ℕ, ◌≡◌, refl, sym, ap, ◌∙◌, Bool, true, false, ◌||◌, none, some, List, [], ◌∷◌, ◌++◌, ◌==◌, arith,
}
use mathlib.Core.Path.{ap₂}
use remote_host_mcp.Prelude.Text.{Text, has, split_once, split_once-first}
use remote_host_mcp.SystemHelpers.{redacted, is_sensitive_query_key}
use remote_host_mcp.SystemHelpers.Redaction.{
  after_last, split_all, join_with, redact_netloc, redact_piece, redact_pieces, redact_query,
}

-- Network locations that differ in the user at most; the flag says that there is one.
pub data SameHost : Bool → Text → Text → Type 0 where
  whole : (host : Text) → SameHost false host host
  with_user :
      (user user' host : Text)
      → has 64 host ≡ false
      → SameHost true (user ++ 64 ∷ host) (user' ++ 64 ∷ host)

-- Parameters that differ in the values of the sensitive keys at most; the flag says that there is
-- such a key.
pub data SameQuery : Bool → List Text → List Text → Type 0 where
  no_more : SameQuery false [] []
  open_one :
      {b : Bool}
      → {ps qs : List Text} → (piece : Text) → SameQuery b ps qs
      → SameQuery b (piece ∷ ps) (piece ∷ qs)
  secret_one :
      {b : Bool}
      → {ps qs : List Text} → (key value value' : Text) → has 61 key ≡ false
      → is_sensitive_query_key key ≡ true
      → SameQuery b ps qs
      → SameQuery true ((key ++ 61 ∷ value) ∷ ps) ((key ++ 61 ∷ value') ∷ qs)

after_last-none : (c : ℕ) (t : Text) → has c t ≡ false → after_last c t ≡ none
unfolding after_last has
after_last-none c [] h = refl
after_last-none c (d ∷ t) h =
    let other : (d == c) ≡ false = ground arith in
    let rest : has c t ≡ false = ground arith in ground (arith, other, after_last-none c t rest)

after_last-end :
    (c : ℕ) (user host : Text) → has c host ≡ false → after_last c (user ++ c ∷ host) ≡ some host
unfolding after_last
after_last-end c [] host h = ground (arith, after_last-none c host h)
after_last-end c (d ∷ user) host h = ground (arith, after_last-end c user host h)

pub redact_netloc-SameHost :
    {b : Bool}
    → (m n : Text) → SameHost b m n
    → (redact_netloc m ≡ redact_netloc n) × (b ≡ true → (redact_netloc m).1 ≡ true)
unfolding redact_netloc
redact_netloc-SameHost m n (whole host) = (refl, λ h. absurd (ground arith))
redact_netloc-SameHost m n (with_user user user' host alone) =
    let first = after_last-end 64 user host alone in
    let second = after_last-end 64 user' host alone in
    (ground (arith, first, second), λ _. ground (arith, first))

redact_piece-secret :
    (key value : Text)
    → has 61 key ≡ false
    → is_sensitive_query_key key ≡ true
    → redact_piece (key ++ 61 ∷ value) ≡ (key ++ 61 ∷ redacted, true)
unfolding redact_piece
redact_piece-secret key value h s = ground (arith, s, split_once-first 61 key value h)

redact_pieces-SameQuery :
    {b : Bool}
    → (ps qs : List Text) → SameQuery b ps qs
    → (redact_pieces ps ≡ redact_pieces qs) × (b ≡ true → (redact_pieces ps).1 ≡ true)
unfolding redact_pieces
redact_pieces-SameQuery ps qs no_more = (refl, λ h. absurd (ground arith))
redact_pieces-SameQuery _ _ (open_one {ps = ps} {qs = qs} piece same) =
    let (equal, found) = redact_pieces-SameQuery ps qs same in
    (
      ap (λ r. ((redact_piece piece).0 ∷ r.0, (redact_piece piece).1 || r.1)) equal,
      λ h. let more = found h in ground (arith, more),
    )
redact_pieces-SameQuery _ _ (secret_one {ps = ps} {qs = qs} key value value' h s same) =
    let (equal, _) = redact_pieces-SameQuery ps qs same in
    let first = redact_piece-secret key value h s in
    let second = redact_piece-secret key value' h s in
    (
      ap₂ (λ p r. (p.0 ∷ r.0, p.1 || r.1)) (first ∙ sym second) equal,
      λ _. ap (λ p. p.1 || (redact_pieces ps).1) first,
    )

redact_query-eq :
    (q : Text)
    → redact_query q
      ≡ (join_with 38 (redact_pieces (split_all 38 q)).0, (redact_pieces (split_all 38 q)).1)
unfolding redact_query redact_pieces redact_piece split_all split_once
redact_query-eq [] = refl
redact_query-eq (c ∷ q) = refl

pub redact_query-SameQuery :
    {b : Bool}
    → (p q : Text) → SameQuery b (split_all 38 p) (split_all 38 q)
    → (redact_query p ≡ redact_query q) × (b ≡ true → (redact_query p).1 ≡ true)
redact_query-SameQuery p q same =
    let (equal, found) = redact_pieces-SameQuery (split_all 38 p) (split_all 38 q) same in
    (
      redact_query-eq p ∙ ap (λ r. (join_with 38 r.0, r.1)) equal ∙ sym (redact_query-eq q),
      λ h. ap (λ r. r.1) (redact_query-eq p) ∙ found h,
    )
