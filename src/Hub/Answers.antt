-- ===== src/Hub/Answers.antt =====
-- Which answers of the Hub cost a batch (`_request`): a refusal is only ever a 4xx status.
use remote_host_mcp.Prelude.{
  ℕ, ◌≡◌, refl, Bool, true, false, Option, [], ◌∷◌, leb, ltb, arith, ◌&&◌,
}
use remote_host_mcp.Json.{Json}
use remote_host_mcp.Disk.{Bytes}
use remote_host_mcp.Hub.{
  Answer, body, http_error, unreachable, other_error, Outcome, escaped, answered, hub_unavailable,
  hub_rejected, http_failure, decode_body, request,
}

abbrev pub is_rejected : Outcome → Bool
is_rejected (answered _) = false
is_rejected (hub_unavailable _) = false
is_rejected (hub_rejected _) = true
is_rejected escaped = false

-- A client error, by its status.
abbrev pub is_client_error : Answer → Bool
is_client_error (body _) = false
is_client_error (http_error code) = leb 400 code && ltb code 500
is_client_error unreachable = false
is_client_error other_error = false

module _ (loads : Bytes → Option Json) where
  decode_body-rejected : (raw : Bytes) → is_rejected (decode_body loads raw) ≡ false
  unfolding decode_body
  decode_body-rejected [] = refl
  decode_body-rejected (c ∷ s) = ground arith

  http_failure-rejected :
      (code : ℕ) → is_rejected (http_failure code) ≡ (leb 400 code && ltb code 500)
  unfolding http_failure
  http_failure-rejected code = ground arith

  -- A request counts as rejected, which drops a batch for good, exactly when the Hub answered
  -- with a status from 400 to 499. Every other failure, a body that is no JSON object included,
  -- counts as unavailable or leaves as it is, and both keep the batch.
  pub request-rejected : (a : Answer) → is_rejected (request loads a) ≡ is_client_error a
  unfolding request
  request-rejected (body raw) = decode_body-rejected raw
  request-rejected (http_error code) = http_failure-rejected code
  request-rejected unreachable = refl
  request-rejected other_error = refl
