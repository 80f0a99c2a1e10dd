-- ===== src/Agent/Payloads.antt =====
-- What of an event leaves the host (`prepare_event`): its fields one by one.
use remote_host_mcp.Prelude.{
  String, ◌≡◌, refl, ap, ◌∙◌, Bool, true, false, Option, none, some, List, [], ◌∷◌, ◌++◌, arith,
  Bool-cases, inl, inr, if◌then◌else◌, ◌&&◌, eq_iff,
}
use text.Mathlib.Text.{◌==◌}
use remote_host_mcp.Prelude.Text.{Text, codes, text_eq}
use remote_host_mcp.Prelude.Dict.{lookup, erase, insert, lookup-insert, lookup-erase}
use remote_host_mcp.Json.{Json, null, bool, int, float, str, arr, obj, Event}
use remote_host_mcp.Redact.{
  redact_text, redact_event, redact_field, redact_fields, redactable_fields,
}
use remote_host_mcp.Agent.Events.{
  output_fields, arg_fields, required_fields, has_all, without, trim, prepare_event,
}

abbrev pub listed : String → List String → Bool
listed j [] = false
listed j (f ∷ fs) = if f == j then true else listed j fs

-- A field's value without its secrets.
abbrev pub scrub : Option Json → Option Json
scrub (some (str t)) = some (str (redact_text t))
scrub v = v

-- The fields that a report level leaves out.
abbrev pub hidden : Text → List String
hidden level =
    if text_eq level (codes "meta")
    then arg_fields ++ output_fields
    else if text_eq level (codes "tool")
    then output_fields
    else []

lookup-without :
    (fs : List String) (j : String) (e : Event)
    → lookup j (without fs e) ≡ (if listed j fs then none else lookup j e)
unfolding without
lookup-without [] j e = refl
lookup-without (f ∷ fs) j e =
    ground (arith, eq_iff f j, lookup-without fs j (erase f e), lookup-erase f j e)

lookup-trim :
    (level : Text) (j : String) (e : Event)
    → lookup j (trim level e) ≡ (if listed j (hidden level) then none else lookup j e)
unfolding trim
lookup-trim level j e = elim (Bool-cases (text_eq level (codes "meta"))) [
  | inl h ↦ rw h (lookup-without (arg_fields ++ output_fields) j e)
  | inr h ↦ elim (Bool-cases (text_eq level (codes "tool"))) [
    | inl k ↦ rw (h, k) (lookup-without output_fields j e)
    | inr k ↦ rw (h, k) refl
  ]
]

-- Setting a field, as far as the field's old value was a text.
abbrev set_scrubbed : String → Event → Option Json → Event
set_scrubbed f e (some (str t)) = insert f (str (redact_text t)) e
set_scrubbed f e _ = e

redact_field-eq : (f : String) (e : Event) → redact_field f e ≡ set_scrubbed f e (lookup f e)
unfolding redact_field
redact_field-eq f e = ground arith

lookup-set_scrubbed :
    (f j : String) (e : Event) (v : Option Json)
    → lookup f e ≡ v
    → lookup j (set_scrubbed f e v) ≡ (if f == j then scrub (lookup j e) else lookup j e)
lookup-set_scrubbed f j e (some (str t)) h =
    ground (arith, h, eq_iff f j, lookup-insert f j (str (redact_text t)) e)
lookup-set_scrubbed f j e none h = ground (arith, h, eq_iff f j)
lookup-set_scrubbed f j e (some null) h = ground (arith, h, eq_iff f j)
lookup-set_scrubbed f j e (some (bool b)) h = ground (arith, h, eq_iff f j)
lookup-set_scrubbed f j e (some (int z)) h = ground (arith, h, eq_iff f j)
lookup-set_scrubbed f j e (some (float b t)) h = ground (arith, h, eq_iff f j)
lookup-set_scrubbed f j e (some (arr xs)) h = ground (arith, h, eq_iff f j)
lookup-set_scrubbed f j e (some (obj xs)) h = ground (arith, h, eq_iff f j)

lookup-redact_field :
    (f j : String) (e : Event)
    → lookup j (redact_field f e) ≡ (if f == j then scrub (lookup j e) else lookup j e)
lookup-redact_field f j e = rw (redact_field-eq f e) (lookup-set_scrubbed f j e (lookup f e) refl)

abbrev IsDistinct : List String → Type 0
IsDistinct [] = Unit
IsDistinct (f ∷ fs) = (listed f fs ≡ false) × IsDistinct fs

lookup-redact_fields :
    (fs : List String) (j : String) (e : Event)
    → IsDistinct fs
    → lookup j (redact_fields fs e) ≡ (if listed j fs then scrub (lookup j e) else lookup j e)
unfolding redact_fields
lookup-redact_fields [] j e d = refl
lookup-redact_fields (f ∷ fs) j e (fresh, d) = elim (Bool-cases (f == j)) [
  | inl h ↦
      let same : f ≡ j = ground (arith, eq_iff f j) in
      let absent : listed j fs ≡ false = rw same at fresh in
      rw (lookup-redact_fields fs j (redact_field f e) d, absent, lookup-redact_field f j e, h) refl
  | inr h ↦ rw (lookup-redact_fields fs j (redact_field f e) d, lookup-redact_field f j e, h) refl
]

lookup-redact_event :
    (redact : Bool) (j : String) (e : Event)
    → lookup j (redact_event redact e)
      ≡ (if redact && listed j redactable_fields then scrub (lookup j e) else lookup j e)
unfolding redact_event
lookup-redact_event false j e = refl
lookup-redact_event true j e = lookup-redact_fields redactable_fields j e (refl, (refl, (refl, tt)))

scrub-hidden :
    (r b : Bool) (v : Option Json)
    → (if r then scrub (if b then none else v) else if b then none else v)
      ≡ (if b then none else if r then scrub v else v)
scrub-hidden true true v = refl
scrub-hidden true false v = refl
scrub-hidden false b v = refl

-- An event is reported only with a non-empty tool name, status and start time, and then every
-- field of what leaves the host is known: the fields that the report level leaves out are gone;
-- with redaction on, a text in one of the three redactable fields has passed through the rules;
-- everything else is as it was recorded.
pub prepare_event-fields :
    (level : Text) (redact : Bool) (j : String) (e p : Event)
    → prepare_event level redact e ≡ some p
    → (has_all required_fields e ≡ true)
      × (lookup j p ≡ (
          if listed j (hidden level)
          then none
          else if redact && listed j redactable_fields
          then scrub (lookup j e)
          else lookup j e))
unfolding prepare_event
prepare_event-fields level redact j e p h = elim (Bool-cases (has_all required_fields e)) [
  | inr bad ↦ absurd (ground arith)
  | inl all ↦
      let is_p : redact_event redact (trim level e) ≡ p = ground arith in
      (
        all,
        rw (← is_p) (
            lookup-redact_event redact j (trim level e)
            ∙ ap (λ v. if redact && listed j redactable_fields then scrub v else v)
                (lookup-trim level j e)
            ∙ scrub-hidden (redact && listed j redactable_fields) (listed j (hidden level))
                (lookup j e)),
      )
]
