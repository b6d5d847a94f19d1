-- ===== src/Bridge/Dispatcher/Answers.antt =====
-- How often a responder is answered, over every run of the dispatcher task.
use norves_editor.Common.{
  ℕ, ◌+◌, ◌≡◌, refl, ap, ◌∙◌, inl, inr, Bool, true, false, ◌&&◌, String, Option, none, some, List,
  [], ◌∷◌, arith, if◌then◌else◌, Bool-cases, Option-cases, ◌==◌, string_eq, nat_eq, option_eq,
  eq_iff,
}
use norves_editor.Common.Dict
use norves_editor.Common.Dict.{
  Dict, Unique, get-remove, get-insert, get-remove_self, get-insert_self, remove-Unique,
  insert-Unique,
}
use norves_editor.Bridge.Correlation
use norves_editor.Bridge.Correlation.{PendingTable}
use norves_editor.Bridge.Envelope.{Checked, Envelope, ValidatedEnvelope, decode_typed}
use norves_editor.Bridge.Dispatcher.{
  connection_closed, failed, Waiter, TaskState, spawned, answer, answer_taken, route,
  on_send_request, on_cancel, on_event, on_frame, fail_all_pending, Input, send_request, cancel,
  frame, stop, step, run,
}
use norves_editor.Bridge.Dispatcher.Accounts.{
  one, held, sent_to, sent_to-closed_answers, account, dropped, issued, issued_in,
  on_cancel-account, answer_taken-account, registered-account, registered, unsent-account,
  registered-there, registered-Unique, settle_taken-Unique,
}

module _ {M V : Type 0} (encode_envelope : Envelope M V → Checked String)
    (decode_envelope : String → Checked (Envelope M V)) where
  on_send_request-account :
      (r : ℕ) (written : Bool) (s : TaskState M V) (id : String) (token : ℕ) (e : Envelope M V)
      (responder : ℕ)
      → Unique s.pending
      → account r (on_send_request encode_envelope written s id token e responder)
        ≡ account r s + one r responder
  unfolding on_send_request Correlation.insert
  on_send_request-account r written s id token e responder u =
      go (encode_envelope e) refl written refl
    where
      w : Waiter
      w = record { token = token; responder = responder }

      go :
          (c : Checked String)
          → encode_envelope e ≡ c
          → (b : Bool) → written ≡ b
          → account r (on_send_request encode_envelope written s id token e responder)
            ≡ account r s + one r responder
      go (Checked.err x) q b h = rw (q, on_send_request) (omega arith)
      go (Checked.ok text) q true h = rw (q, h, on_send_request) (registered-account r s id w u)
      go (Checked.ok text) q false h =
          rw (q, h, on_send_request)
            (unsent-account r (registered s id w) id w (registered-Unique s id w u)
                (registered-there s id w)
              ∙ registered-account r s id w u)

  on_send_request-Unique :
      (written : Bool) (s : TaskState M V) (id : String) (token : ℕ) (e : Envelope M V)
      (responder : ℕ)
      → Unique s.pending
      → Unique (on_send_request encode_envelope written s id token e responder).pending
  unfolding on_send_request Correlation.insert
  on_send_request-Unique written s id token e responder u = go (encode_envelope e) refl written refl
    where
      w : Waiter
      w = record { token = token; responder = responder }

      go :
          (c : Checked String)
          → encode_envelope e ≡ c
          → (b : Bool) → written ≡ b
          → Unique (on_send_request encode_envelope written s id token e responder).pending
      go (Checked.err x) q b h = rw (q, on_send_request) u
      go (Checked.ok text) q true h = rw (q, h, on_send_request) (registered-Unique s id w u)
      go (Checked.ok text) q false h =
          rw (q, h, on_send_request)
            (settle_taken-Unique (registered s id w) id token
              (λ v. answer v.responder (failed connection_closed)) (λ v s'. refl)
              (registered-Unique s id w u))

  route-account :
      (r : ℕ) (s : TaskState M V) (e : ValidatedEnvelope M V)
      → Unique s.pending
      → account r (route s e) ≡ account r s
  unfolding on_event
  route-account r s (ValidatedEnvelope.request v i n p x q) u = refl
  route-account r s (ValidatedEnvelope.response v i p x q) u = answer_taken-account r s i p u
  route-account r s (ValidatedEnvelope.event v n p x q) u = refl

  route-Unique :
      (s : TaskState M V) (e : ValidatedEnvelope M V)
      → Unique s.pending
      → Unique (route s e).pending
  unfolding on_event Correlation.take
  route-Unique s (ValidatedEnvelope.request v i n p x q) u = u
  route-Unique s (ValidatedEnvelope.response v i p x q) u = go (Dict.get i s.pending)
    where
      go : (o : Option Waiter) → Unique (answer_taken (o, Dict.remove i s.pending) p s).pending
      go none = remove-Unique i s.pending u
      go (some w) = remove-Unique i s.pending u
  route-Unique s (ValidatedEnvelope.event v n p x q) u = u

  on_frame-account :
      (r : ℕ) (s : TaskState M V) (text : String)
      → Unique s.pending
      → (account r (on_frame decode_envelope s text) ≡ account r s)
        × Unique (on_frame decode_envelope s text).pending
  unfolding on_frame
  on_frame-account r s text u = go (decode_typed decode_envelope text) refl
    where
      go :
          (c : Checked (ValidatedEnvelope M V))
          → decode_typed decode_envelope text ≡ c
          → (account r (on_frame decode_envelope s text) ≡ account r s)
            × Unique (on_frame decode_envelope s text).pending
      go (Checked.err x) q = rw (q, on_frame) (refl, u)
      go (Checked.ok e) q = rw (q, on_frame) (route-account r s e u, route-Unique s e u)

  -- One input: what is owed and what was sent grow by what it issues, less what it drops.
  step-account :
      (r : ℕ) (s : TaskState M V) (i : Input M V)
      → Unique s.pending
      → (account r (step encode_envelope decode_envelope s i) + dropped r s i
          ≡ account r s + issued r i)
        × Unique (step encode_envelope decode_envelope s i).pending
  unfolding dropped issued fail_all_pending
  step-account r s (send_request written id token e responder) u = (
    omega (arith, on_send_request-account r written s id token e responder u),
    on_send_request-Unique written s id token e responder u,
  )
  step-account r s (cancel id token) u = (
    omega (arith, on_cancel-account r s id token u),
    (unfold on_cancel in settle_taken-Unique s id token (λ w s'. s') (λ v s'. refl) u),
  )
  step-account r s (frame text) u =
      (omega (arith, (on_frame-account r s text u).0), (on_frame-account r s text u).1)
  step-account r s stop u = (omega (arith, sent_to-closed_answers r s.pending s.answers), tt)

  -- The cancellations of a run that drop it.
  unfoldable pub dropped_in : ℕ → TaskState M V → List (Input M V) → ℕ
  dropped_in r s [] = 0
  dropped_in r s (stop ∷ is) = 0
  dropped_in r s (i ∷ is) =
      dropped r s i + dropped_in r (step encode_envelope decode_envelope s i) is

  run-account :
      (r : ℕ) (s : TaskState M V) (is : List (Input M V))
      → Unique s.pending
      → account r (run encode_envelope decode_envelope s is).0 + dropped_in r s is
        ≡ account r s + issued_in r is
  unfolding run dropped_in issued_in
  run-account r s [] u = omega arith
  run-account r s (stop ∷ is) u =
      unfold dropped issued in omega (arith, (step-account r s stop u).0)
  run-account r s (send_request written id token e responder ∷ is) u =
      let i : Input M V = send_request written id token e responder in
      let now = step-account r s i u in
      omega (arith, now.0, run-account r (step encode_envelope decode_envelope s i) is now.1)
  run-account r s (cancel id token ∷ is) u =
      let i : Input M V = cancel id token in
      let now = step-account r s i u in
      omega (arith, now.0, run-account r (step encode_envelope decode_envelope s i) is now.1)
  run-account r s (frame text ∷ is) u =
      let i : Input M V = frame text in
      let now = step-account r s i u in
      omega (arith, now.0, run-account r (step encode_envelope decode_envelope s i) is now.1)

  run-empty :
      (s : TaskState M V) (is : List (Input M V))
      → (run encode_envelope decode_envelope s is).1 ≡ true
      → (run encode_envelope decode_envelope s is).0.pending ≡ []
  unfolding run fail_all_pending
  run-empty s [] h = absurd (ground arith)
  run-empty s (stop ∷ is) h = refl
  run-empty s (send_request written id token e responder ∷ is) h =
      run-empty (step encode_envelope decode_envelope s (send_request written id token e responder))
        is h
  run-empty s (cancel id token ∷ is) h =
      run-empty (step encode_envelope decode_envelope s (cancel id token)) is h
  run-empty s (frame text ∷ is) h =
      run-empty (step encode_envelope decode_envelope s (frame text)) is h

  -- Over every run of a fresh task that has stopped, whatever commands and frames it received
  -- before, in whatever order, whatever serde_json and the transport did, and under reused ids:
  -- the answers sent to a responder and the cancellations that dropped its waiter are together as
  -- many as the requests that brought it in. So no responder of a single request is answered
  -- twice, and one that is not cancelled is answered.
  pub run_answers_every_request :
      (r : ℕ) (is : List (Input M V))
      → (run encode_envelope decode_envelope spawned is).1 ≡ true
      → sent_to r (run encode_envelope decode_envelope spawned is).0.answers
          + dropped_in r spawned is
        ≡ issued_in r is
  run_answers_every_request r is h =
      omega (arith, run-account r spawned is tt, ap (held r) (run-empty spawned is h))

module _ {M V : Type 0} where
  -- A cancellation removes the waiter under its id if the waiter has its token, and else changes
  -- no entry: a request that reuses the id of one that timed out, under a new token, stays
  -- registered.
  pub on_cancel-get :
      (s : TaskState M V) (id : String) (token : ℕ) (j : String)
      → Dict.get j (on_cancel s id token).pending ≡ (
          if id == j && elim (Dict.get id s.pending) [ none ↦ false | some w ↦ w.token == token ]
          then none
          else Dict.get j s.pending)
  unfolding on_cancel Correlation.take Correlation.insert
  on_cancel-get s id token j = elim (Option-cases (Dict.get id s.pending)) [
    | inl gone ↦ rw (gone, on_cancel) (ground (arith, get-remove j id s.pending, eq_iff id j, gone))
    | inr (w, there) ↦ elim (Bool-cases (w.token == token)) [
      | inl own ↦ rw (there, own, on_cancel) (ground (arith, get-remove j id s.pending))
      | inr other ↦
          rw (there, other, on_cancel)
            (ground (
              arith,
              get-insert j id w (Dict.remove id s.pending),
              get-remove j id s.pending,
              eq_iff id j,
              there,
            ))
    ]
  ]
