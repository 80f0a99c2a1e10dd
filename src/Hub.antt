-- ===== src/Hub.antt =====
-- `HubClient` of src/remote_host_mcp/report_agent.py: what an answer of the Hub is taken for.
pub mod Answers
use remote_host_mcp.Prelude.{
  ℕ, Bool, true, false, ◌&&◌, ◌||◌, Option, none, some, List, [], ◌∷◌, leb, ltb, ◌==◌,
  if◌then◌else◌,
}
use remote_host_mcp.Prelude.Dict.{lookup}
use remote_host_mcp.Prelude.Int.{ℤ, pos}
use remote_host_mcp.Json.{Json, int, obj, Event, to_dict, truthy}
use remote_host_mcp.Disk.{Bytes}

-- What comes back: a body, an HTTPError, URLError or OSError, or any other exception: of the opener,
-- such as IncompleteRead, or of `json.loads` on the body, such as the ValueError of a number with too
-- many digits.
pub data Answer : Type 0 where
  body : Bytes → Answer
  http_error : ℕ → Answer
  unreachable : Answer
  other_error : Answer

-- Why a request failed, as the exception's message says it.
pub data Reason : Type 0 where
  bad_key : ℕ → Reason
  status : ℕ → Reason
  no_route : Reason
  not_json : Reason
  bad_shape : Reason

-- The value of `_request`, or the exception that it raises; `escaped` is one of no kind of its own.
pub data Outcome : Type 0 where
  answered : Event → Outcome
  hub_unavailable : Reason → Outcome
  hub_rejected : Reason → Outcome
  escaped : Outcome

pub record Ack : Type 0 where
  pub ok : Bool
  pub accepted : ℤ
  pub rejected : ℤ

-- `report` of the client: the acknowledgement, or the exception.
pub data Report : Type 0 where
  acked : Ack → Report
  unavailable : Reason → Report
  refused : Reason → Report
  broken : Report

-- The `except HTTPError` of `_request`
unfoldable pub http_failure : ℕ → Outcome
http_failure code =
    if code == 401 || code == 403
    then hub_rejected (bad_key code)
    else if leb 400 code && ltb code 500
    then hub_rejected (status code)
    else hub_unavailable (status code)

-- `_as_int`: a bool is no number here
unfoldable pub as_int : Option Json → ℤ
as_int (some (int z)) = z
as_int _ = pos 0

-- `bool(body.get("ok", True))`
unfoldable pub ack_ok : Option Json → Bool
ack_ok none = true
ack_ok (some v) = truthy v

-- `ReportAck(...)` in `report`
unfoldable pub report_ack : Event → Ack
unfolding as_int ack_ok
report_ack reply = record {
  ok = ack_ok (lookup "ok" reply);
  accepted = as_int (lookup "accepted" reply);
  rejected = as_int (lookup "rejected" reply);
}

-- `json.loads(raw.decode("utf-8"))`, `none` where it raises UnicodeDecodeError or JSONDecodeError; a
-- body on which it raises anything else is `other_error`
module _ (loads : Bytes → Option Json) where
  -- The end of `_request`, on the body of the response
  unfoldable pub decode_body : Bytes → Outcome
  decode_body [] = answered []
  decode_body (c ∷ s) = elim (loads (c ∷ s)) [
    | none ↦ hub_unavailable not_json
    | some (obj fields) ↦ answered (to_dict fields)
    | some _ ↦ hub_unavailable bad_shape
  ]

  -- `_request`
  unfoldable pub request : Answer → Outcome
  unfolding decode_body http_failure
  request (body raw) = decode_body raw
  request (http_error code) = http_failure code
  request unreachable = hub_unavailable no_route
  request other_error = escaped

  -- `report`
  unfoldable pub report : Answer → Report
  unfolding request report_ack
  report a = elim (request a) [
    | answered reply ↦ acked (report_ack reply)
    | hub_unavailable why ↦ unavailable why
    | hub_rejected why ↦ refused why
    | escaped ↦ broken
  ]
