-- ===== src/Worker/Capture.antt =====
-- What `_drain_stream` keeps of a stream.
use remote_host_mcp.Prelude.{
  ℕ, zero, suc, ◌-◌, ◌≡◌, ◌≢◌, refl, ap, ◌∙◌, sym, false, List, [], ◌∷◌, ◌++◌, take, length,
  length-append, length-take, append_assoc, append-nil, ltb, arith, min, Bool-cases, inl, inr,
}
use remote_host_mcp.Disk.{Bytes}
use remote_host_mcp.Worker.{Captured, keep_chunk, drain_chunks, drain_stream}

abbrev pub joined : List Bytes → Bytes
joined [] = []
joined (b ∷ rest) = b ++ joined rest

-- `read` returns an empty chunk only at the end of the stream.
abbrev pub NonEmpty : List Bytes → Type 0
NonEmpty [] = Unit
NonEmpty (b ∷ rest) = (b ≢ []) × NonEmpty rest

take-append :
    {A : Type 0} (n : ℕ) (xs ys : List A) → take n (xs ++ ys) ≡ take n xs ++ take (n - length xs) ys
take-append zero xs ys = let e : 0 - length xs ≡ 0 = omega arith in rw e refl
take-append (suc n) [] ys = let e : suc n - 0 ≡ suc n = omega arith in rw e refl
take-append (suc n) (x ∷ xs) ys =
    let e : suc n - suc (length xs) ≡ n - length xs = omega arith in
    rw e (ap (λ l. x ∷ l) (take-append n xs ys))

take_nil : (n : ℕ) (b : Bytes) → b ≡ [] → take n b ≡ []
take_nil zero b h = refl
take_nil (suc n) [] h = refl
take_nil (suc n) (c ∷ b) h = absurd (ground arith)

-- The captured state behind a prefix of the stream.
abbrev Holding : ℕ → Bytes → Captured → Type 0
Holding limit seen c = (c.kept ≡ take limit seen) × (c.truncated ≡ ltb limit (length seen))

keep_chunk-Holding :
    (limit : ℕ) (seen b : Bytes) (c : Captured)
    → Holding limit seen c
    → Holding limit (seen ++ b) (keep_chunk limit b c)
unfolding keep_chunk
keep_chunk-Holding limit seen b c (kept, cut) =
    let size : length c.kept ≡ min limit (length seen) = ap length kept ∙ length-take limit seen in
    let rest : limit - length c.kept ≡ limit - length seen = omega (arith, size) in
    elim (Bool-cases (ltb 0 (limit - length seen))) [
      | inl room ↦ (
        rw (rest, room, kept) (sym (take-append limit seen b)),
        ground (arith, cut, rest, length-append seen b),
      )
      | inr full ↦ (
        let nothing : limit - length seen ≡ 0 = ground arith in
            rw (rest, full, kept)
              (sym (take-append limit seen b ∙ (rw nothing (append-nil (take limit seen))))),
        ground (arith, cut, rest, length-append seen b),
      )
    ]

drain_chunks-Holding :
    (limit : ℕ) (chunks : List Bytes) (seen : Bytes) (c : Captured)
    → NonEmpty chunks
    → Holding limit seen c
    → Holding limit (seen ++ joined chunks) (drain_chunks limit chunks c)
unfolding drain_chunks
drain_chunks-Holding limit [] seen c more h = rw (append-nil seen) h
drain_chunks-Holding limit ([] ∷ rest) seen c (bad, more) h = absurd (bad refl)
drain_chunks-Holding limit ((x ∷ xs) ∷ rest) seen c (ok, more) h =
    rw (← append_assoc seen (x ∷ xs) (joined rest)) (
      drain_chunks-Holding limit rest (seen ++ x ∷ xs) (keep_chunk limit (x ∷ xs) c) more
        (keep_chunk-Holding limit seen (x ∷ xs) c h))

-- However a stream is cut into chunks, its file holds exactly the first `limit` bytes of it, and the
-- job is marked as truncated exactly when the stream is longer.
pub drain_stream-eq :
    (limit : ℕ) (chunks : List Bytes)
    → NonEmpty chunks
    → ((drain_stream limit chunks).kept ≡ take limit (joined chunks))
      × ((drain_stream limit chunks).truncated ≡ ltb limit (length (joined chunks)))
unfolding drain_stream
drain_stream-eq limit chunks more =
    drain_chunks-Holding limit chunks [] (record { kept = []; truncated = false }) more
      (sym (take_nil limit [] refl), ground arith)
