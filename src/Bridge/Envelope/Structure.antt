-- ===== src/Bridge/Envelope/Structure.antt =====
-- What the validation of an envelope accepts, and the round trips between its two forms.
use norves_editor.Common.{
  ◌≡◌, refl, subst, ◌⊎◌, inl, inr, ◌↔◌, true, none, arith, string_eq, nat_eq, option_eq,
}
use norves_editor.Bridge.Envelope.{
  Kind, CodecError, Checked, ok, err, Envelope, ResponsePayload, ValidatedEnvelope, is_none,
  is_some, validate_request, validate_response, validate_event, validate, validate_as, lift_request,
  lift_response, lift_event, lift_as, lift, try_from, flatten,
}

module _ {M V : Type 0} where
  -- The schema's rules, one kind at a time: the fields that must and that must not be there.
  abbrev pub Conforms : Envelope M V → Kind → Type 0
  Conforms e Kind.request =
      (is_some e.id ≡ true)
      × (is_some e.method_name ≡ true)
      × (e.result ≡ none)
      × (e.error ≡ none)
      × (e.event_name ≡ none)
  Conforms e Kind.response =
      (is_some e.id ≡ true)
      × (is_some e.result ≡ is_none e.error)
      × (e.method_name ≡ none)
      × (e.event_name ≡ none)
      × (e.params ≡ none)
  Conforms e Kind.event =
      (is_some e.event_name ≡ true)
      × (e.id ≡ none)
      × (e.method_name ≡ none)
      × (e.result ≡ none)
      × (e.error ≡ none)

  validate_request_iff : (e : Envelope M V) → (validate_request e ≡ ok tt) ↔ Conforms e Kind.request
  unfolding validate_request
  validate_request_iff e = ground arith

  validate_response_iff :
      (e : Envelope M V) → (validate_response e ≡ ok tt) ↔ Conforms e Kind.response
  unfolding validate_response
  validate_response_iff e = ground arith

  validate_event_iff : (e : Envelope M V) → (validate_event e ≡ ok tt) ↔ Conforms e Kind.event
  unfolding validate_event
  validate_event_iff e = ground arith

  validate_as_iff : (k : Kind) (e : Envelope M V) → (validate_as k e ≡ ok tt) ↔ Conforms e k
  validate_as_iff Kind.request e = validate_request_iff e
  validate_as_iff Kind.response e = validate_response_iff e
  validate_as_iff Kind.event e = validate_event_iff e

  -- An envelope is valid exactly where it has the fields that its kind requires and none that its
  -- kind forbids; a response has exactly one of `result` and `error`.
  pub validate_iff : (e : Envelope M V) → (validate e ≡ ok tt) ↔ Conforms e e.kind
  unfolding validate
  validate_iff e = validate_as_iff e.kind e

  -- To flatten a typed envelope and to lift it back gives the envelope itself.
  try_from-flatten : (x : ValidatedEnvelope M V) → try_from (flatten x) ≡ ok x
  unfolding try_from flatten validate lift
  try_from-flatten (ValidatedEnvelope.request v i n p s q) = refl
  try_from-flatten (ValidatedEnvelope.response v i (ResponsePayload.result r) s q) = refl
  try_from-flatten (ValidatedEnvelope.response v i (ResponsePayload.error x) s q) = refl
  try_from-flatten (ValidatedEnvelope.event v n p s q) = refl

  -- What lifting gives, flattened; `e` where it fails.
  abbrev unlift : Envelope M V → Checked (ValidatedEnvelope M V) → Envelope M V
  unlift e (ok x) = flatten x
  unlift e (err x) = e

  -- The valid envelopes of each kind have one form, and it is the flattened one.
  unlift-lift_as :
      (k : Kind) (e : Envelope M V)
      → e.kind ≡ k
      → validate_as k e ≡ ok tt
      → unlift e (lift_as k e) ≡ e
  unfolding validate_request validate_response validate_event lift_request lift_response lift_event
      flatten
  unlift-lift_as k e q h = ground arith

  unlift-try_from : (e : Envelope M V) → unlift e (try_from e) ≡ e
  unfolding try_from validate lift
  unlift-try_from e = elim (Checked-cases (validate e)) [
    | inl v ↦ rw (v, try_from) (unlift-lift_as e.kind e refl v)
    | inr (x, v) ↦ rw (v, try_from) refl
  ]
    where
      Checked-cases : (c : Checked Unit) → (c ≡ ok tt) ⊎ ((x : CodecError) × (c ≡ err x))
      Checked-cases (ok u) = inl refl
      Checked-cases (err x) = inr (x, refl)

  -- An envelope is lifted to a typed one exactly where the typed one, flattened, is that envelope:
  -- the two conversions are inverse to each other, and every flattened envelope is valid.
  pub try_from_iff :
      (e : Envelope M V) (x : ValidatedEnvelope M V) → (try_from e ≡ ok x) ↔ (flatten x ≡ e)
  try_from_iff e x = (
    (λ h. subst (λ c. unlift e c ≡ e) h (unlift-try_from e)),
    (λ h. subst (λ d. try_from d ≡ ok x) h (try_from-flatten x)),
  )

  -- The defensive arms of the destructuring are never reached: lifting fails only where the
  -- validation does, and with its error.
  pub try_from-error : (e : Envelope M V) (x : CodecError) → try_from e ≡ err x → validate e ≡ err x
  unfolding try_from lift lift_request lift_response lift_event validate validate_request
      validate_response validate_event
  try_from-error e x h = ground arith
