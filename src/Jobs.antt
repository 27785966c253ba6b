-- ===== src/Jobs.antt =====
-- internal/jobs/jobs.go: the delivery worker.
-- A run takes the answer that the relay gives, and what the database does, as its inputs. It
-- returns what river does with the job, and whether the relay has taken the message.
pub mod Ends
pub mod Once
pub mod Idle
pub mod History
pub mod Redelivery
pub mod Rounds
use relais.Base.{
  ℕ, Bool, true, false, not, ◌&&◌, List, [], ◌∷◌, ◌++◌, Option, none, some, ◌||◌, ◌==◌, ltb, leb,
  if◌then◌else◌, is_empty, Result, ok, err,
}
use relais.Text.{Text, codes}
use relais.Crypto.Keyring.{Bytes}
use relais.Store.Rows.{Message, is_sent}
use relais.Store.Session.{StoreError, not_found, World}
use relais.Store.Messages.{get_message, get_payload}
use relais.Store.Marks.{mark_sending, mark_sent, mark_sent_partial, mark_failed, mark_retrying}
use relais.Store.Routes.{SenderRoute, Keys, route_for_message}
use relais.Sender.{
  Kind, permanent, DeliveryError, is_permanent, code_of, detail_of, Delivery, is_partial,
  rejected_detail, partial_recipients, Outgoing,
}

-- `nil`, `river.JobCancel`, and an error, on which river runs the job again.
pub data Outcome : Type 0 where
  done cancel retry : Outcome

-- `river.Job[SendEmailArgs]`
pub record Job : Type 0 where
  pub message_id : ℕ
  pub attempt : ℕ
  pub max_attempts : ℕ

-- The end of a run: the outcome, whether the relay has taken the message, and the world.
pub record End : Type 0 where
  pub outcome : Outcome
  pub relayed : Bool
  pub world : World

abbrev pub stop : Outcome → Bool → World → End
stop o b w = record { outcome = o; relayed = b; world = w }

-- the result of the last write before the return
abbrev pub recorded : Outcome → Outcome → Bool → Result StoreError (Unit {0}) × World → End
recorded good bad b (ok _, w) = stop good b w
recorded good bad b (err _, w) = stop bad b w

-- `permanent`
unfoldable pub permanent_failure : Job → Text → Text → World → End
permanent_failure job code detail w =
    recorded cancel retry false (mark_failed job.message_id code detail w)

-- `transient`
unfoldable pub transient_failure : Job → Text → Text → World → End
transient_failure job code detail w =
    if leb job.max_attempts job.attempt
    then recorded cancel retry false (mark_failed job.message_id code detail w)
    else recorded retry retry false (mark_retrying job.message_id code detail w)

-- `Work` after `deliverer.Send` has answered
unfoldable pub settle_delivery : Job → Result DeliveryError Delivery → World → End
settle_delivery job (err e) w =
    if is_permanent e
    then permanent_failure job (code_of e) (detail_of e) w
    else transient_failure job (code_of e) (detail_of e) w
settle_delivery job (ok result) w =
    if is_partial result
    then recorded done retry true
        (mark_sent_partial job.message_id partial_recipients (rejected_detail result) w)
    else recorded done cancel true (mark_sent job.message_id w)

-- `%q`, on printable text
abbrev quote_runes : Text → Text
quote_runes [] = b'"' ∷ []
quote_runes (c ∷ s) =
    let rest = quote_runes s in if c == b'"' || c == b'\\' then b'\\' ∷ c ∷ rest else c ∷ rest

abbrev pub quote : Text → Text
quote s = b'"' ∷ quote_runes s

-- `deliverer.Send`, which may answer as it likes
abbrev pub Deliverer : Type 0
Deliverer = SenderRoute → Outgoing → Result DeliveryError Delivery

abbrev pub outgoing : Message → Bytes → Outgoing
outgoing m raw = record { from = m.from_addr; recipients = m.envelope_recipients; raw = raw }

-- `Work` after `RouteForMessage`
unfoldable pub with_route :
    Keys → Deliverer → Job → Message → Bytes → Result StoreError (SenderRoute × Bool) × World → End
with_route k send job m raw (err not_found, w) =
    permanent_failure job (codes "backend_missing")
      (codes "the backend this message was routed to no longer exists") w
with_route k send job m raw (err e, w) =
    transient_failure job (codes "backend_unavailable") (k.describe e) w
with_route k send job m raw (ok (route, enabled), w) =
    if not enabled
    then transient_failure job (codes "backend_disabled")
        (codes "backend " ++ (quote route.backend_name ++ codes " is disabled")) w
    else settle_delivery job (send route (outgoing m raw)) w

-- `Work` after `GetPayload`
unfoldable pub with_payload :
    Keys → Deliverer → Job → Message → Result StoreError Bytes × World → End
with_payload k send job m (err not_found, w) =
    permanent_failure job (codes "payload_purged")
      (codes "the message body was purged by retention before it could be delivered") w
with_payload k send job m (err _, w) = stop retry false w
with_payload k send job m (ok raw, w) = with_route k send job m raw (route_for_message k m w)

-- `Work` after `MarkSending`
unfoldable pub with_claim : Keys → Deliverer → Job → Message → Result StoreError Bool × World → End
with_claim k send job m (err _, w) = stop retry false w
with_claim k send job m (ok claimed, w) =
    if not claimed
    then stop done false w
    else with_payload k send job m (get_payload job.message_id w)

-- `Work` after `GetMessage`
unfoldable pub with_message : Keys → Deliverer → Job → Result StoreError Message × World → End
with_message k send job (err not_found, w) = stop cancel false w
with_message k send job (err _, w) = stop retry false w
with_message k send job (ok m, w) =
    if is_sent m.status
    then stop done false w
    else with_claim k send job m (mark_sending job.message_id w)

-- `SendEmailWorker.Work`
unfoldable pub work : Keys → Deliverer → Job → World → End
work k send job w = with_message k send job (get_message job.message_id w)
