-- ===== src/Jobs/Redelivery.antt =====
-- When a message that the relay has taken is run again.
use relais.Base.{
  ℕ, List, ◌≡◌, ◌≢◌, refl, Bool, true, false, Bool-cases, inl, inr, Result, ok, err, leb,
}
use relais.Crypto.Keyring.{Bytes}
use relais.Store.Rows.{Message, is_sent}
use relais.Store.Session.{
  reference, constraint, World, StoreError, not_found, failure, validation, conflict,
}
use relais.Store.Messages.{get_message, get_payload}
use relais.Store.Marks.{mark_sending, mark_sent, mark_failed, mark_retrying}
use relais.Store.Routes.{Keys, SenderRoute, route_for_message}
use relais.Sender.{DeliveryError, Delivery, Outgoing, is_partial, is_permanent, code_of, detail_of}
use relais.Jobs.{
  Outcome, done, cancel, retry, Job, End, recorded, permanent_failure, transient_failure,
  settle_delivery, Deliverer, with_route, with_payload, with_claim, with_message, work,
}

-- The relay takes a message for all of its recipients or refuses it.
abbrev pub TakesAll : Deliverer → Type 0
TakesAll send =
    (r : SenderRoute) (m : Outgoing) (d : Delivery) → send r m ≡ ok d → is_partial d ≡ false

-- An end after which a message that the relay has taken is not run again.
abbrev NotAgain : End → Type 0
NotAgain e = e.relayed ≡ true → e.outcome ≢ retry

not_relayed :
    (good bad : Outcome) (r : Result StoreError (Unit {0}) × World)
    → NotAgain (recorded good bad false r)
not_relayed good bad (ok _, w) h = cc
not_relayed good bad (err _, w) h = cc

permanent_failure-NotAgain :
    (job : Job) (code detail : List ℕ) (w : World) → NotAgain (permanent_failure job code detail w)
unfolding permanent_failure
permanent_failure-NotAgain job code detail w =
    not_relayed cancel retry (mark_failed job.message_id code detail w)

transient_failure-NotAgain :
    (job : Job) (code detail : List ℕ) (w : World) → NotAgain (transient_failure job code detail w)
unfolding transient_failure
transient_failure-NotAgain job code detail w =
    elim (Bool-cases (leb job.max_attempts job.attempt)) [
      | inl last ↦ rw last (not_relayed cancel retry (mark_failed job.message_id code detail w))
      | inr more ↦ rw more (not_relayed retry retry (mark_retrying job.message_id code detail w))
    ]

delivered-NotAgain :
    (r : Result StoreError (Unit {0}) × World) → NotAgain (recorded done cancel true r)
delivered-NotAgain (ok _, w) h = cc
delivered-NotAgain (err _, w) h = cc

settle_delivery-NotAgain :
    (job : Job) (answer : Result DeliveryError Delivery) (w : World)
    → ((d : Delivery) → answer ≡ ok d → is_partial d ≡ false)
    → NotAgain (settle_delivery job answer w)
unfolding settle_delivery
settle_delivery-NotAgain job (err e) w whole = elim (Bool-cases (is_permanent e)) [
  | inl lasting ↦ rw lasting (permanent_failure-NotAgain job (code_of e) (detail_of e) w)
  | inr passing ↦ rw passing (transient_failure-NotAgain job (code_of e) (detail_of e) w)
]
settle_delivery-NotAgain job (ok result) w whole =
    rw (whole result refl) (delivered-NotAgain (mark_sent job.message_id w))

module _ (k : Keys) (send : Deliverer) (takes_all : TakesAll send) (job : Job) where
  with_route-NotAgain :
      (n : Message) (raw : Bytes) (route : Result StoreError (SenderRoute × Bool)) (w : World)
      → NotAgain (with_route k send job n raw (route, w))
  unfolding with_route
  with_route-NotAgain n raw (err not_found) w = permanent_failure-NotAgain job _ _ w
  with_route-NotAgain n raw (err failure) w = transient_failure-NotAgain job _ _ w
  with_route-NotAgain n raw (err reference) w = transient_failure-NotAgain job _ _ w
  with_route-NotAgain n raw (err constraint) w = transient_failure-NotAgain job _ _ w
  with_route-NotAgain n raw (err validation) w = transient_failure-NotAgain job _ _ w
  with_route-NotAgain n raw (err (conflict c)) w = transient_failure-NotAgain job _ _ w
  with_route-NotAgain n raw (ok (route, true)) w =
      settle_delivery-NotAgain job _ w (takes_all route _)
  with_route-NotAgain n raw (ok (route, false)) w = transient_failure-NotAgain job _ _ w

  with_payload-NotAgain :
      (n : Message) (payload : Result StoreError Bytes) (w : World)
      → NotAgain (with_payload k send job n (payload, w))
  unfolding with_payload
  with_payload-NotAgain n (err not_found) w = permanent_failure-NotAgain job _ _ w
  with_payload-NotAgain n (err failure) w = λ h. cc
  with_payload-NotAgain n (err reference) w = λ h. cc
  with_payload-NotAgain n (err constraint) w = λ h. cc
  with_payload-NotAgain n (err validation) w = λ h. cc
  with_payload-NotAgain n (err (conflict c)) w = λ h. cc
  with_payload-NotAgain n (ok raw) w =
      with_route-NotAgain n raw (route_for_message k n w).0 (route_for_message k n w).1

  with_claim-NotAgain :
      (n : Message) (claim : Result StoreError Bool) (w : World)
      → NotAgain (with_claim k send job n (claim, w))
  unfolding with_claim
  with_claim-NotAgain n (err e) w = λ h. cc
  with_claim-NotAgain n (ok false) w = λ h. cc
  with_claim-NotAgain n (ok true) w =
      let payload = get_payload job.message_id w in with_payload-NotAgain n payload.0 payload.1

  with_message-NotAgain :
      (found : Result StoreError Message) (w : World)
      → NotAgain (with_message k send job (found, w))
  unfolding with_message
  with_message-NotAgain (err not_found) w = λ h. cc
  with_message-NotAgain (err failure) w = λ h. cc
  with_message-NotAgain (err reference) w = λ h. cc
  with_message-NotAgain (err constraint) w = λ h. cc
  with_message-NotAgain (err validation) w = λ h. cc
  with_message-NotAgain (err (conflict c)) w = λ h. cc
  with_message-NotAgain (ok n) w = elim (Bool-cases (is_sent n.status)) [
    | inl over ↦ rw over (λ h. cc)
    | inr still ↦
        let claim = mark_sending job.message_id w in
        rw still (with_claim-NotAgain n claim.0 claim.1)
  ]

  -- A job whose message the relay has taken is not retried, whichever queries fail, when the relay
  -- takes every message that it takes for all of its recipients.
  pub work-NotAgain :
      (w : World) → (work k send job w).relayed ≡ true → (work k send job w).outcome ≢ retry
  unfolding work
  work-NotAgain w = let read = get_message job.message_id w in with_message-NotAgain read.0 read.1
