-- ===== src/Bridge/Envelope.antt =====
-- The wire envelope of norves-bridge-core/src/envelope.rs, flat and by kind. `V` stands for the
-- JSON values of serde_json and `M` for its maps.
pub mod Structure
use norves_editor.Common.{
  ℕ, zero, suc, ◌+◌, ◌-◌, ◌*◌, ◌/◌, ◌%◌, ◌≤◌, ◌<◌, min, max, ◌≡◌, ◌≢◌, refl, sym, ap, subst, ◌∙◌,
  ◌⊎◌, inl, inr, ◌↔◌, Bool, true, false, not, ◌&&◌, ◌||◌, String, Option, none, some, List, [], ◌∷◌,
  ◌++◌, map, reverse, arith, length, head?, any, retain, take_while, All, if◌then◌else◌, ltb, leb,
  nat_beq, nat_beq_iff, Bool-cases, Option-cases, ◌==◌, Eq, string_eq, nat_eq, option_eq,
  option_beq, beq_refl, eq_iff, u64_max, u64_modulus, wrapping_add, saturating_add, saturating_sub,
}

pub data Kind : Type 0 where
  request : Kind
  response : Kind
  event : Kind

-- Why a function of the codec fails, with the violations of envelope.rs by name.
pub data Violation : Type 0 where
  request_requires_id : Violation
  request_requires_method : Violation
  request_carries_result : Violation
  request_carries_error : Violation
  request_carries_event : Violation
  request_requires_id_and_method : Violation
  response_requires_id : Violation
  response_carries_both : Violation
  response_requires_exactly_one : Violation
  response_carries_method : Violation
  response_carries_event : Violation
  response_carries_params : Violation
  event_requires_event : Violation
  event_carries_id : Violation
  event_carries_method : Violation
  event_carries_result : Violation
  event_carries_error : Violation

pub data CodecError : Type 0 where
  json : CodecError
  structural_violation : Violation → CodecError

pub data Checked (A : Type 0) : Type 0 where
  ok : A → Checked A
  err : CodecError → Checked A

abbrev pub violation : {A : Type 0} → Violation → Checked A
violation v = err (structural_violation v)

pub record BridgeError (V : Type 0) : Type 0 where
  pub code : String
  pub message : String
  pub data_of : Option V

-- The marker `bridge` has one value and is left out.
pub record Envelope (M V : Type 0) : Type 0 where
  pub version : String
  pub kind : Kind
  pub id : Option String
  pub method_name : Option String
  pub event_name : Option String
  pub params : Option M
  pub result : Option V
  pub error : Option (BridgeError V)
  pub session_id : Option String
  pub seq : Option ℕ

pub data ResponsePayload (V : Type 0) : Type 0 where
  result : V → ResponsePayload V
  error : BridgeError V → ResponsePayload V

pub data ValidatedEnvelope (M V : Type 0) : Type 0 where
  request :
      (version id method_name : String)
      → (params : Option M) → (session_id : Option String) → (seq : Option ℕ)
      → ValidatedEnvelope M V
  response :
      (version id : String)
      → ResponsePayload V
      → (session_id : Option String) → (seq : Option ℕ) → ValidatedEnvelope M V
  event :
      (version event_name : String)
      → (params : Option M) → (session_id : Option String) → (seq : Option ℕ)
      → ValidatedEnvelope M V

abbrev pub is_none {ℓ} : {A : Type ℓ} → Option A → Bool
is_none none = true
is_none (some a) = false

abbrev pub is_some {ℓ} : {A : Type ℓ} → Option A → Bool
is_some o = not (is_none o)

abbrev pub payload_of :
    {V : Type 0} → Option V → Option (BridgeError V) → Checked (ResponsePayload V)
payload_of (some v) none = ok (ResponsePayload.result v)
payload_of none (some x) = ok (ResponsePayload.error x)
payload_of _ _ = violation Violation.response_requires_exactly_one

abbrev pub result_of : {V : Type 0} → ResponsePayload V → Option V
result_of (ResponsePayload.result v) = some v
result_of (ResponsePayload.error x) = none

abbrev pub error_of : {V : Type 0} → ResponsePayload V → Option (BridgeError V)
error_of (ResponsePayload.result v) = none
error_of (ResponsePayload.error x) = some x

module _ {M V : Type 0} where
  unfoldable pub validate_request : Envelope M V → Checked Unit
  validate_request e =
      if is_none e.id
      then violation Violation.request_requires_id
      else if is_none e.method_name
      then violation Violation.request_requires_method
      else if is_some e.result
      then violation Violation.request_carries_result
      else if is_some e.error
      then violation Violation.request_carries_error
      else if is_some e.event_name
      then violation Violation.request_carries_event
      else ok tt

  unfoldable pub validate_response : Envelope M V → Checked Unit
  validate_response e =
      if is_none e.id
      then violation Violation.response_requires_id
      else if is_some e.result && is_some e.error
      then violation Violation.response_carries_both
      else if is_none e.result && is_none e.error
      then violation Violation.response_requires_exactly_one
      else if is_some e.method_name
      then violation Violation.response_carries_method
      else if is_some e.event_name
      then violation Violation.response_carries_event
      else if is_some e.params
      then violation Violation.response_carries_params
      else ok tt

  unfoldable pub validate_event : Envelope M V → Checked Unit
  validate_event e =
      if is_none e.event_name
      then violation Violation.event_requires_event
      else if is_some e.id
      then violation Violation.event_carries_id
      else if is_some e.method_name
      then violation Violation.event_carries_method
      else if is_some e.result
      then violation Violation.event_carries_result
      else if is_some e.error
      then violation Violation.event_carries_error
      else ok tt

  abbrev pub validate_as : Kind → Envelope M V → Checked Unit
  validate_as Kind.request e = validate_request e
  validate_as Kind.response e = validate_response e
  validate_as Kind.event e = validate_event e

  -- `Envelope::validate`
  unfoldable pub validate : Envelope M V → Checked Unit
  unfolding validate_request validate_response validate_event
  validate e = validate_as e.kind e

  unfoldable pub lift_request : Envelope M V → Checked (ValidatedEnvelope M V)
  lift_request e = elim e.id [
    | none ↦ violation Violation.request_requires_id_and_method
    | some id ↦ elim e.method_name [
      | none ↦ violation Violation.request_requires_id_and_method
      | some name ↦ ok (ValidatedEnvelope.request e.version id name e.params e.session_id e.seq)
    ]
  ]

  unfoldable pub lift_response : Envelope M V → Checked (ValidatedEnvelope M V)
  lift_response e = elim e.id [
    | none ↦ violation Violation.response_requires_id
    | some id ↦ elim (payload_of e.result e.error) [
      | err x ↦ err x
      | ok payload ↦ ok (ValidatedEnvelope.response e.version id payload e.session_id e.seq)
    ]
  ]

  unfoldable pub lift_event : Envelope M V → Checked (ValidatedEnvelope M V)
  lift_event e = elim e.event_name [
    | none ↦ violation Violation.event_requires_event
    | some name ↦ ok (ValidatedEnvelope.event e.version name e.params e.session_id e.seq)
  ]

  abbrev pub lift_as : Kind → Envelope M V → Checked (ValidatedEnvelope M V)
  lift_as Kind.request e = lift_request e
  lift_as Kind.response e = lift_response e
  lift_as Kind.event e = lift_event e

  -- The destructuring of `try_from`, after its validation, with the defensive arms.
  unfoldable pub lift : Envelope M V → Checked (ValidatedEnvelope M V)
  unfolding lift_request lift_response lift_event
  lift e = lift_as e.kind e

  -- `ValidatedEnvelope::try_from`
  unfoldable pub try_from : Envelope M V → Checked (ValidatedEnvelope M V)
  unfolding validate lift
  try_from e = elim (validate e) [ err x ↦ err x | ok u ↦ lift e ]

  -- `Envelope::from`
  unfoldable pub flatten : ValidatedEnvelope M V → Envelope M V
  flatten (ValidatedEnvelope.request version id name params session_id seq) = record {
    version = version;
    kind = Kind.request;
    id = some id;
    method_name = some name;
    event_name = none;
    params = params;
    result = none;
    error = none;
    session_id = session_id;
    seq = seq;
  }
  flatten (ValidatedEnvelope.response version id payload session_id seq) = record {
    version = version;
    kind = Kind.response;
    id = some id;
    method_name = none;
    event_name = none;
    params = none;
    result = result_of payload;
    error = error_of payload;
    session_id = session_id;
    seq = seq;
  }
  flatten (ValidatedEnvelope.event version name params session_id seq) = record {
    version = version;
    kind = Kind.event;
    id = none;
    method_name = none;
    event_name = some name;
    params = params;
    result = none;
    error = none;
    session_id = session_id;
    seq = seq;
  }

-- codec.rs: `decode_envelope` is serde_json's, and so a parameter of the decoders that use it.
module _ {M V : Type 0} (decode_envelope : String → Checked (Envelope M V)) where
  unfoldable pub decode_validated : String → Checked (Envelope M V)
  unfolding validate
  decode_validated text = elim (decode_envelope text) [
    | err x ↦ err x
    | ok e ↦ elim (validate e) [ err x ↦ err x | ok u ↦ ok e ]
  ]

  unfoldable pub decode_typed : String → Checked (ValidatedEnvelope M V)
  unfolding try_from
  decode_typed text = elim (decode_envelope text) [ err x ↦ err x | ok e ↦ try_from e ]
