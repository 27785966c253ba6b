-- ===== src/Jobs/Once.antt =====
-- Rows that a run of the delivery worker is to leave alone.
use relais.Base.{
  ℕ, ◌≡◌, ◌≢◌, refl, ◌∙◌, Bool, true, false, none, some, leb, Bool-cases, inl, inr, ◌⊎◌, Result,
  Result-cases, ok, err,
}
use relais.Text.{Text}
use relais.Crypto.Keyring.{Bytes}
use relais.Store.Rows.{
  Status, queued, sending, sent, failed, rejected, Message, is_sent, is_claimable, claim_row,
  sent_row, failed_row, retrying_row,
}
use relais.Store.Session.{
  reference, constraint, Run, ◌>>=◌, World, StoreError, failure, not_found, validation, conflict,
}
use relais.Store.Messages.{get_message, get_payload, string_ptr}
use relais.Store.Marks.{
  mark, not_sent, ignore_count, mark_sending, mark_sent, mark_sent_partial, mark_failed,
  mark_retrying,
}
use relais.Store.Status.{KeepsId, row, mark-kept}
use relais.Store.Reads.{get_message-IsRead, get_payload-IsRead, route_for_message-IsRead}
use relais.Store.Routes.{Keys, SenderRoute, route_for_message}
use relais.Sender.{
  DeliveryError, Delivery, is_permanent, code_of, detail_of, is_partial, partial_recipients,
  rejected_detail,
}
use relais.Jobs.{
  Outcome, done, cancel, retry, Job, End, recorded, permanent_failure, transient_failure,
  settle_delivery, Deliverer, with_route, with_payload, with_claim, with_message, work,
}

final-unclaimable : (s : Status) → not_sent s ≡ false → is_claimable s ≡ false
final-unclaimable sent h = refl
final-unclaimable queued h = cc
final-unclaimable sending h = cc
final-unclaimable failed h = refl
final-unclaimable rejected h = refl

-- The row `j` is `m` after each of the steps, when the step does not write the row.
module _ (j : ℕ) (m : Message) where
  abbrev Kept : End → Type 0
  Kept e = row j e.world ≡ some m

  -- The job is another message's, or the row is already sent.
  abbrev Spared : Job → Type 0
  Spared job = (j ≢ job.message_id) ⊎ (not_sent m.status ≡ false)

  recorded-Kept :
      (good bad : Outcome) (b : Bool) (r : Result StoreError (Unit {0}) × World)
      → row j r.1 ≡ some m
      → Kept (recorded good bad b r)
  recorded-Kept good bad b (ok _, w) kept = kept
  recorded-Kept good bad b (err _, w) kept = kept

  ignore_count-row : (r : Run ℕ) (w : World) → row j (ignore_count r w).1 ≡ row j (r w).1
  ignore_count-row r w = elim (Result-cases (r w).0) [
    | inl (_, e) ↦ rw (e, ◌>>=◌, ignore_count) refl
    | inr (_, e) ↦ rw (e, ◌>>=◌, ignore_count) refl
  ]

  write-Kept :
      (job : Job) (good bad : Outcome) (b : Bool) (f : ℕ → Message → Message) (w : World)
      → ((now : ℕ) → KeepsId (f now))
      → Spared job
      → row j w ≡ some m
      → Kept (recorded good bad b (ignore_count (mark not_sent f job.message_id) w))
  write-Kept job good bad b f w keeps spared found = recorded-Kept good bad b _ (
      ignore_count-row (mark not_sent f job.message_id) w
      ∙ mark-kept not_sent f job.message_id w j m (keeps w.now) found spared)

  permanent_failure-Kept :
      (job : Job) (code detail : Text) (w : World)
      → Spared job
      → row j w ≡ some m
      → Kept (permanent_failure job code detail w)
  unfolding permanent_failure mark_failed
  permanent_failure-Kept job code detail w spared found =
      write-Kept job cancel retry false
        (λ now. failed_row now (string_ptr code) (string_ptr detail)) w (λ now m. refl) spared found

  transient_failure-Kept :
      (job : Job) (code detail : Text) (w : World)
      → Spared job
      → row j w ≡ some m
      → Kept (transient_failure job code detail w)
  unfolding transient_failure mark_failed mark_retrying
  transient_failure-Kept job code detail w spared found =
      elim (Bool-cases (leb job.max_attempts job.attempt)) [
        | inl last ↦ rw last (
            write-Kept job cancel retry false
              (λ now. failed_row now (string_ptr code) (string_ptr detail)) w (λ now m. refl) spared
              found)
        | inr more ↦ rw more (
            write-Kept job retry retry false
              (λ now. retrying_row now (string_ptr code) (string_ptr detail)) w (λ now m. refl)
              spared found)
      ]

  settle_delivery-Kept :
      (job : Job) (answer : Result DeliveryError Delivery) (w : World)
      → Spared job
      → row j w ≡ some m
      → Kept (settle_delivery job answer w)
  unfolding settle_delivery mark_sent mark_sent_partial
  settle_delivery-Kept job (err e) w spared found = elim (Bool-cases (is_permanent e)) [
    | inl lasting ↦ rw lasting (permanent_failure-Kept job (code_of e) (detail_of e) w spared found)
    | inr passing ↦ rw passing (transient_failure-Kept job (code_of e) (detail_of e) w spared found)
  ]
  settle_delivery-Kept job (ok result) w spared found = elim (Bool-cases (is_partial result)) [
    | inl partly ↦ rw partly (
        write-Kept job done retry true
          (λ now.
            sent_row now (string_ptr partial_recipients) (string_ptr (rejected_detail result)))
          w (λ now m. refl) spared found)
    | inr fully ↦ rw fully (
        write-Kept job done cancel true (λ now. sent_row now none none) w (λ now m. refl) spared
          found)
  ]

  with_route-Kept :
      (k : Keys) (send : Deliverer) (job : Job) (n : Message) (raw : Bytes)
      (route : Result StoreError (SenderRoute × Bool)) (w : World)
      → Spared job
      → row j w ≡ some m
      → Kept (with_route k send job n raw (route, w))
  unfolding with_route
  with_route-Kept k send job n raw (err not_found) w spared found =
      permanent_failure-Kept job _ _ w spared found
  with_route-Kept k send job n raw (err failure) w spared found =
      transient_failure-Kept job _ _ w spared found
  with_route-Kept k send job n raw (err reference) w spared found =
      transient_failure-Kept job _ _ w spared found
  with_route-Kept k send job n raw (err constraint) w spared found =
      transient_failure-Kept job _ _ w spared found
  with_route-Kept k send job n raw (err validation) w spared found =
      transient_failure-Kept job _ _ w spared found
  with_route-Kept k send job n raw (err (conflict c)) w spared found =
      transient_failure-Kept job _ _ w spared found
  with_route-Kept k send job n raw (ok (route, true)) w spared found =
      settle_delivery-Kept job _ w spared found
  with_route-Kept k send job n raw (ok (route, false)) w spared found =
      transient_failure-Kept job _ _ w spared found

  with_payload-Kept :
      (k : Keys) (send : Deliverer) (job : Job) (n : Message) (payload : Result StoreError Bytes)
      (w : World)
      → Spared job
      → row j w ≡ some m
      → Kept (with_payload k send job n (payload, w))
  unfolding with_payload
  with_payload-Kept k send job n (err not_found) w spared found =
      permanent_failure-Kept job _ _ w spared found
  with_payload-Kept k send job n (err failure) w spared found = found
  with_payload-Kept k send job n (err reference) w spared found = found
  with_payload-Kept k send job n (err constraint) w spared found = found
  with_payload-Kept k send job n (err validation) w spared found = found
  with_payload-Kept k send job n (err (conflict c)) w spared found = found
  with_payload-Kept k send job n (ok raw) w spared found =
      let r = route_for_message-IsRead k n w in
      with_route-Kept k send job n raw (route_for_message k n w).0 (route_for_message k n w).1
        spared (rw r.same found)

  with_claim-Kept :
      (k : Keys) (send : Deliverer) (job : Job) (n : Message) (claim : Result StoreError Bool)
      (w : World)
      → Spared job
      → row j w ≡ some m
      → Kept (with_claim k send job n (claim, w))
  unfolding with_claim
  with_claim-Kept k send job n (err e) w spared found = found
  with_claim-Kept k send job n (ok false) w spared found = found
  with_claim-Kept k send job n (ok true) w spared found =
      let p = get_payload job.message_id w in
      with_payload-Kept k send job n p.0 p.1 spared
        (rw (get_payload-IsRead job.message_id w).same found)

  Spared-unclaimable :
      (job : Job) → Spared job → (j ≢ job.message_id) ⊎ (is_claimable m.status ≡ false)
  Spared-unclaimable job (inl other) = inl other
  Spared-unclaimable job (inr final) = inr (final-unclaimable m.status final)

  mark_sending-row :
      (id : ℕ) (w : World)
      → row j (mark_sending id w).1 ≡ row j (mark is_claimable claim_row id w).1
  unfolding mark_sending
  mark_sending-row id w = elim (Result-cases (mark is_claimable claim_row id w).0) [
    | inl (_, e) ↦ rw (e, ◌>>=◌) refl
    | inr (_, e) ↦ rw (e, ◌>>=◌) refl
  ]

  with_message-Kept :
      (k : Keys) (send : Deliverer) (job : Job) (found : Result StoreError Message) (w : World)
      → Spared job
      → row j w ≡ some m
      → Kept (with_message k send job (found, w))
  unfolding with_message
  with_message-Kept k send job (err not_found) w spared kept = kept
  with_message-Kept k send job (err failure) w spared kept = kept
  with_message-Kept k send job (err reference) w spared kept = kept
  with_message-Kept k send job (err constraint) w spared kept = kept
  with_message-Kept k send job (err validation) w spared kept = kept
  with_message-Kept k send job (err (conflict c)) w spared kept = kept
  with_message-Kept k send job (ok n) w spared kept = elim (Bool-cases (is_sent n.status)) [
    | inl over ↦ rw over kept
    | inr still ↦
        let claim = mark_sending job.message_id w in
        rw still (
          with_claim-Kept k send job n claim.0 claim.1 spared (
            mark_sending-row job.message_id w
            ∙ mark-kept is_claimable claim_row job.message_id w j m (λ n. refl) kept
                (Spared-unclaimable job spared)))
  ]

  -- A run of the worker leaves a row as it was if the row is sent or belongs to another message
  -- than the job's, whichever queries fail and whatever the relay answers.
  pub work-Kept :
      (k : Keys) (send : Deliverer) (job : Job) (w : World)
      → Spared job
      → row j w ≡ some m
      → Kept (work k send job w)
  unfolding work
  work-Kept k send job w spared found =
      let read = get_message job.message_id w in
      with_message-Kept k send job read.0 read.1 spared
        (rw (get_message-IsRead job.message_id w).same found)
