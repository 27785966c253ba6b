-- ===== src/Jobs/Ends.antt =====
-- The end of a run of the delivery worker: the job's outcome and the row of its message.
use relais.Base.{
  ℕ, ◌≡◌, refl, ap, Bool, true, false, [], Option, none, some, arith, ltb, leb, Bool-cases, inl,
  inr, Result, ok, err,
}
use relais.Text.{Text}
use relais.Crypto.Keyring.{Bytes}
use relais.Store.Rows.{
  Status, queued, sending, sent, failed, rejected, Message, is_sent, is_claimable, claim_row,
  sent_row, failed_row, retrying_row, find_payload,
}
use relais.Store.Session.{
  reference, constraint, tick, World, StoreError, failure, not_found, next_fault,
}
use relais.Store.Messages.{string_ptr}
use relais.Store.Marks.{
  mark, not_sent, ignore_count, mark_sending, mark_sent, mark_sent_partial, mark_failed,
  mark_retrying,
}
use relais.Store.Status.{KeepsId, row, marked, mark-hit}
use relais.Store.Reads.{
  Reads, answer, get_message-quiet, get_payload-quiet, route_for_message-IsRead,
}
use relais.Store.Routes.{Keys, SenderRoute, route_for_message}
use relais.Sender.{
  DeliveryError, Delivery, is_permanent, code_of, detail_of, is_partial, partial_recipients,
  rejected_detail,
}
use relais.Jobs.{
  Outcome, done, cancel, retry, Job, End, stop, recorded, permanent_failure, transient_failure,
  settle_delivery, Deliverer, with_route, with_payload, with_claim, with_message, work,
}

-- The outcome, whether the relay took the message, and the status agree.
abbrev pub agrees : Job → Outcome → Bool → Status → Bool
agrees job done true sent = true
agrees job cancel false failed = true
agrees job retry false queued = ltb job.attempt job.max_attempts
agrees _ _ _ _ = false

abbrev pub Settled : Job → End → Type 0
Settled job e =
    (m : Message) × (row job.message_id e.world ≡ some m)
    × (agrees job e.outcome e.relayed m.status ≡ true)
    × (e.world.faults ≡ [])

-- A message that is not sent, in a world where no query fails.
pub record Open (id : ℕ) (w : World) : Type 0 where
  pub quiet : w.faults ≡ []
  pub message : Message
  pub found : row id w ≡ some message
  pub unsent : is_sent message.status ≡ false

recorded-hit :
    {id : ℕ} {w : World} (o : Open id w) (good bad : Outcome) (b : Bool) (f : ℕ → Message → Message)
    → KeepsId (f w.now)
    → (recorded good bad b (ignore_count (mark not_sent f id) w)
        ≡ stop good b (marked not_sent f id w))
      × (row id (marked not_sent f id w) ≡ some (f w.now o.message))
recorded-hit {id} {w} o good bad b f keeps =
    let hit =
      mark-hit not_sent f id w o.message (rw o.quiet refl) keeps o.found (rw o.unsent refl) in
    (
      ap (λ p. recorded good bad b (elim p.0 [ ok _ ↦ (ok tt, p.1) | err e ↦ (err e, p.1) ])) hit.0,
      hit.1,
    )

pub permanent_failure-Settled :
    (job : Job) (code detail : Text) (w : World)
    → Open job.message_id w
    → Settled job (permanent_failure job code detail w)
unfolding permanent_failure mark_failed
permanent_failure-Settled job code detail w o =
    let hit =
      recorded-hit o cancel retry false
        (λ now. failed_row now (string_ptr code) (string_ptr detail)) (λ m. refl) in
    rw hit.0 (_, hit.1, refl, rw o.quiet refl)

pub transient_failure-Settled :
    (job : Job) (code detail : Text) (w : World)
    → Open job.message_id w
    → Settled job (transient_failure job code detail w)
unfolding transient_failure mark_failed mark_retrying
transient_failure-Settled job code detail w o =
    elim (Bool-cases (leb job.max_attempts job.attempt)) [
      | inl last ↦
          let hit =
            recorded-hit o cancel retry false
              (λ now. failed_row now (string_ptr code) (string_ptr detail)) (λ m. refl) in
          rw last (rw hit.0 (_, hit.1, refl, rw o.quiet refl))
      | inr more ↦
          let hit =
            recorded-hit o retry retry false
              (λ now. retrying_row now (string_ptr code) (string_ptr detail)) (λ m. refl) in
          rw more (rw hit.0 (_, hit.1, ground (arith, more), rw o.quiet refl))
    ]

pub settle_delivery-Settled :
    (job : Job) (answer : Result DeliveryError Delivery) (w : World)
    → Open job.message_id w
    → Settled job (settle_delivery job answer w)
unfolding settle_delivery mark_sent mark_sent_partial
settle_delivery-Settled job (err e) w o = elim (Bool-cases (is_permanent e)) [
  | inl lasting ↦ rw lasting (permanent_failure-Settled job (code_of e) (detail_of e) w o)
  | inr passing ↦ rw passing (transient_failure-Settled job (code_of e) (detail_of e) w o)
]
settle_delivery-Settled job (ok result) w o = elim (Bool-cases (is_partial result)) [
  | inl partly ↦
      let hit =
        recorded-hit o done retry true
          (λ now.
            sent_row now (string_ptr partial_recipients) (string_ptr (rejected_detail result)))
          (λ m. refl) in
      rw partly (rw hit.0 (_, hit.1, refl, rw o.quiet refl))
  | inr fully ↦
      let hit = recorded-hit o done cancel true (λ now. sent_row now none none) (λ m. refl) in
      rw fully (rw hit.0 (_, hit.1, refl, rw o.quiet refl))
]

pub with_route-Settled :
    (k : Keys) (send : Deliverer) (job : Job) (m : Message) (raw : Bytes)
    (route : Result StoreError (SenderRoute × Bool)) (w : World)
    → Open job.message_id w
    → Settled job (with_route k send job m raw (route, w))
unfolding with_route
with_route-Settled k send job m raw (err not_found) w o = permanent_failure-Settled job _ _ w o
with_route-Settled k send job m raw (err failure) w o = transient_failure-Settled job _ _ w o
with_route-Settled k send job m raw (err reference) w o = transient_failure-Settled job _ _ w o
with_route-Settled k send job m raw (err constraint) w o = transient_failure-Settled job _ _ w o
with_route-Settled k send job m raw (err relais.Store.Session.validation) w o =
    transient_failure-Settled job _ _ w o
with_route-Settled k send job m raw (err (relais.Store.Session.conflict c)) w o =
    transient_failure-Settled job _ _ w o
with_route-Settled k send job m raw (ok (route, true)) w o = settle_delivery-Settled job _ w o
with_route-Settled k send job m raw (ok (route, false)) w o = transient_failure-Settled job _ _ w o

Reads-Open : {id : ℕ} {w w' : World} → Reads w w' → Open id w → Open id w'
Reads-Open r o = record {
  quiet = r.still_quiet o.quiet;
  message = o.message;
  found = rw r.same o.found;
  unsent = o.unsent;
}

with_payload-Settled :
    (k : Keys) (send : Deliverer) (job : Job) (m : Message) (payload : Option Bytes) (w : World)
    → Open job.message_id w
    → Settled job (with_payload k send job m (answer payload, w))
unfolding with_payload
with_payload-Settled k send job m none w o = permanent_failure-Settled job _ _ w o
with_payload-Settled k send job m (some raw) w o =
    let found = route_for_message k m w in
    with_route-Settled k send job m raw found.0 found.1
      (Reads-Open (route_for_message-IsRead k m w) o)

tick-Open : {id : ℕ} {w : World} → Open id w → Open id (tick w)
tick-Open o = record {
  quiet = rw o.quiet refl;
  message = o.message;
  found = o.found;
  unsent = o.unsent;
}

-- A message that the worker may claim.
pub record Ready (id : ℕ) (w : World) : Type 0 where
  pub quiet : w.faults ≡ []
  pub message : Message
  pub found : row id w ≡ some message
  pub claimable : is_claimable message.status ≡ true

mark_sending-hit :
    {id : ℕ} {w : World} (r : Ready id w)
    → (mark_sending id w ≡ (ok true, marked is_claimable claim_row id w))
      × Open id (marked is_claimable claim_row id w)
unfolding mark_sending
mark_sending-hit {id} {w} r =
    let hit =
      mark-hit is_claimable claim_row id w r.message (rw r.quiet refl) (λ m. refl) r.found
        r.claimable in
    (
      ap (λ p. elim p.0 [ ok n ↦ (ok (ltb 0 n), p.1) | err e ↦ (err e, p.1) ]) hit.0,
      record {
        quiet = rw r.quiet refl;
        message = claim_row w.now r.message;
        found = hit.1;
        unsent = refl;
      },
    )

claimed-Settled :
    (k : Keys) (send : Deliverer) (job : Job) (m : Message) (w : World)
    → Ready job.message_id w
    → Settled job (with_claim k send job m (mark_sending job.message_id w))
unfolding with_claim
claimed-Settled k send job m w r =
    let hit = mark_sending-hit r in
    let v = marked is_claimable claim_row job.message_id w in
    rw hit.0 (
      rw (get_payload-quiet job.message_id v (rw (hit.1).quiet refl)) (
        with_payload-Settled k send job m (find_payload job.message_id v.db.payloads) (tick v)
          (tick-Open hit.1)))

pub claimable-unsent : (s : Status) → is_claimable s ≡ true → is_sent s ≡ false
claimable-unsent queued h = refl
claimable-unsent sending h = refl
claimable-unsent sent h = cc
claimable-unsent failed h = refl
claimable-unsent rejected h = refl

-- A run of the worker on a message that is queued or sending, when no query fails, leaves the
-- job's outcome and the row in agreement, whatever the relay answers: the job is done and the
-- relay has taken the message and the row is sent; or the job is cancelled, the relay has not
-- taken it and the row is failed; or the job is to be retried, an attempt is left, the relay has
-- not taken it and the row is queued. No query is left to fail.
pub work-Settled :
    (k : Keys) (send : Deliverer) (job : Job) (w : World)
    → Ready job.message_id w
    → Settled job (work k send job w)
unfolding work with_message
work-Settled k send job w r = rw (get_message-quiet job.message_id w (rw r.quiet refl)) (
    rw r.found (
      rw (claimable-unsent r.message.status r.claimable) (
        claimed-Settled k send job r.message (tick w) (record {
          quiet = rw r.quiet refl;
          message = r.message;
          found = r.found;
          claimable = r.claimable;
        }))))
