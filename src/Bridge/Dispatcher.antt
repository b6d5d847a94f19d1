-- ===== src/Bridge/Dispatcher.antt =====
-- The dispatcher task of norves-bridge-editor-client/src/dispatcher.rs as a machine on commands and
-- frames. A responder is a number; an answer that is sent to it is logged in the order of sending.
pub mod Accounts
pub mod Answers
use norves_editor.Common.{
  ℕ, zero, suc, ◌+◌, ◌-◌, ◌*◌, ◌/◌, ◌%◌, ◌≤◌, ◌<◌, min, max, ◌≡◌, ◌≢◌, refl, sym, ap, subst, ◌∙◌,
  ◌⊎◌, inl, inr, ◌↔◌, Bool, true, false, not, ◌&&◌, ◌||◌, String, Option, none, some, List, [], ◌∷◌,
  ◌++◌, map, reverse, arith, length, head?, any, retain, take_while, All, if◌then◌else◌, ltb, leb,
  nat_beq, nat_beq_iff, Bool-cases, Option-cases, ◌==◌, Eq, string_eq, nat_eq, option_eq,
  option_beq, beq_refl, eq_iff, u64_max, u64_modulus, wrapping_add, saturating_add, saturating_sub,
}
use norves_editor.Common.Dict
use norves_editor.Common.Dict.{Dict}
use norves_editor.Bridge.Correlation
use norves_editor.Bridge.Correlation.{PendingTable, SeqObservation, observe}
use norves_editor.Bridge.Envelope.{
  Checked, CodecError, Envelope, ValidatedEnvelope, ResponsePayload, decode_typed,
}

pub data RequestError : Type 0 where
  connection_closed : RequestError
  timeout : RequestError
  encode : CodecError → RequestError

-- What a responder is sent: `Result<ResponsePayload, RequestError>`.
pub data Outcome (V : Type 0) : Type 0 where
  answered : ResponsePayload V → Outcome V
  failed : RequestError → Outcome V

pub record Waiter : Type 0 where
  pub token : ℕ
  pub responder : ℕ

-- `TaskState`. The transport and the subscribers are outside: `sent` are the frames that were
-- written, `answers` what the responders were sent and `events` what was broadcast, latest first.
pub record TaskState (M V : Type 0) : Type 0 where
  pub pending : PendingTable Waiter
  pub seq : Option ℕ
  pub sent : List String
  pub answers : List (ℕ × Outcome V)
  pub events : List (ValidatedEnvelope M V)

abbrev pub spawned : {M V : Type 0} → TaskState M V
spawned = record { pending = []; seq = none; sent = []; answers = []; events = [] }

abbrev pub closed_answers :
    {V : Type 0} → PendingTable Waiter → List (ℕ × Outcome V) → List (ℕ × Outcome V)
closed_answers [] answers = answers
closed_answers ((id, w) ∷ table) answers =
    closed_answers table ((w.responder, failed connection_closed) ∷ answers)

module _ {M V : Type 0} where
  abbrev pub answer : ℕ → Outcome V → TaskState M V → TaskState M V
  answer responder outcome s = record s { answers = (responder, outcome) ∷ s.answers }

  abbrev pub answer_old : Option Waiter → TaskState M V → TaskState M V
  answer_old none s = s
  answer_old (some w) s = answer w.responder (failed connection_closed) s

  -- Takes the waiter, and puts it back if it has another token.
  abbrev pub settle_taken :
      Option Waiter × PendingTable Waiter
      → String
      → ℕ
      → (Waiter → TaskState M V → TaskState M V)
      → TaskState M V
      → TaskState M V
  settle_taken (none, table) id token f s = record s { pending = table }
  settle_taken (some w, table) id token f s =
      if w.token == token
      then f w (record s { pending = table })
      else record s { pending = (Correlation.insert table id w).1 }

  -- `on_send_request`; `written` is what the transport answered to the frame.
  unfoldable pub on_send_request :
      (encode_envelope : Envelope M V → Checked String)
      → (written : Bool) → TaskState M V
      → String
      → ℕ
      → Envelope M V
      → (responder : ℕ) → TaskState M V
  unfolding Correlation.insert Correlation.take
  on_send_request encode_envelope written s id token envelope responder =
      elim (encode_envelope envelope) [
        | Checked.err x ↦ answer responder (failed (encode x)) s
        | Checked.ok frame ↦
            let inserted =
              Correlation.insert s.pending id (record { token = token; responder = responder }) in
            let s1 = answer_old inserted.0 (record s { pending = inserted.1 }) in
            if written
            then record s1 { sent = frame ∷ s1.sent }
            else settle_taken (Correlation.take s1.pending id) id token
                (λ w. answer w.responder (failed connection_closed)) s1
      ]

  -- `on_cancel`: the waiter of that token is dropped, which its receiver sees as closed.
  unfoldable pub on_cancel : TaskState M V → String → ℕ → TaskState M V
  unfolding Correlation.insert Correlation.take
  on_cancel s id token = settle_taken (Correlation.take s.pending id) id token (λ w s'. s') s

  abbrev pub event_seq : ValidatedEnvelope M V → Option ℕ
  event_seq (ValidatedEnvelope.event version name params session_id seq) = seq
  event_seq _ = none

  unfoldable pub on_event : TaskState M V → ValidatedEnvelope M V → TaskState M V
  unfolding observe
  on_event s e = record s { seq = (observe s.seq (event_seq e)).1; events = e ∷ s.events }

  abbrev pub answer_taken :
      Option Waiter × PendingTable Waiter → ResponsePayload V → TaskState M V → TaskState M V
  answer_taken (none, table) payload s = record s { pending = table }
  answer_taken (some w, table) payload s =
      answer w.responder (answered payload) (record s { pending = table })

  abbrev pub route : TaskState M V → ValidatedEnvelope M V → TaskState M V
  route s (ValidatedEnvelope.response version id payload session_id seq) =
      answer_taken (Correlation.take s.pending id) payload s
  route s (ValidatedEnvelope.event version name params session_id seq) =
      on_event s (ValidatedEnvelope.event version name params session_id seq)
  route s (ValidatedEnvelope.request version id name params session_id seq) = s

  -- `on_frame`
  unfoldable pub on_frame :
      (decode_envelope : String → Checked (Envelope M V)) → TaskState M V → String → TaskState M V
  unfolding Correlation.take on_event decode_typed
  on_frame decode_envelope s text = elim (decode_typed decode_envelope text) [
    | Checked.err x ↦ s
    | Checked.ok envelope ↦ route s envelope
  ]

  unfoldable pub fail_all_pending : TaskState M V → TaskState M V
  fail_all_pending s = record s { pending = []; answers = closed_answers s.pending s.answers }

-- What the select loop receives next.
pub data Input (M V : Type 0) : Type 0 where
  send_request :
      (written : Bool) → (id : String) → (token : ℕ) → Envelope M V → (responder : ℕ) → Input M V
  cancel : (id : String) → (token : ℕ) → Input M V
  frame : String → Input M V
  -- A shutdown, the last handle's drop, the peer's close, or an error of the transport.
  stop : Input M V

module _ {M V : Type 0} (encode_envelope : Envelope M V → Checked String)
    (decode_envelope : String → Checked (Envelope M V)) where
  abbrev pub step : TaskState M V → Input M V → TaskState M V
  step s (send_request written id token envelope responder) =
      on_send_request encode_envelope written s id token envelope responder
  step s (cancel id token) = on_cancel s id token
  step s (frame text) = on_frame decode_envelope s text
  step s stop = fail_all_pending s

  -- The loop over what it receives: it ends with the first `stop`, and tells whether it ended.
  unfoldable pub run : TaskState M V → List (Input M V) → TaskState M V × Bool
  unfolding on_send_request on_cancel on_frame fail_all_pending
  run s [] = (s, false)
  run s (stop ∷ is) = (fail_all_pending s, true)
  run s (i ∷ is) = run (step s i) is
