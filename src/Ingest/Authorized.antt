-- ===== src/Ingest/Authorized.antt =====
-- What a submission needs in order to reach the queue.
use relais.Base.{
  ap, ◌∙◌, ◌++◌, ◌≡◌, refl, true, List, is_empty, Bool-cases, Result-cases, inl, inr, ◌⊎◌, Result,
  ok, err,
}
use relais.Text.{Text, codes}
use relais.FromPattern.Matching.{allows}
use relais.RateLimit.{Limiter, allow}
use relais.Store.Rows.{Message}
use relais.Store.Session.{
  reference, constraint, World, StoreError, not_found, validation, failure, conflict, query-quiet,
  query-lost, next_fault,
}
use relais.Store.Messages.{
  RejectedMessage, check_message, rejected_row, insert_rejected_row, insert_rejected_message,
  find_by_idempotency_key,
}
use relais.Store.Reads.{find_by_idempotency_key-IsRead}
use relais.Ingest.{
  validate_recipients, reject, record_rejection, rejected_message, with_mail, with_search,
  with_limit, submit,
}
use relais.Mailnorm.{Mail}
use relais.Ingest.Submission.{Service, Request, Rejection, usable, rate_limit}

-- Nothing was queued.
pub record Unqueued (w w' : World) : Type 0 where
  pub jobs : w'.db.jobs ≡ w.db.jobs
  pub payloads : w'.db.payloads ≡ w.db.payloads

unqueued : (w : World) → Unqueued w w
unqueued w = record { jobs = refl; payloads = refl }

insert_rejected_message-Unqueued :
    (p : RejectedMessage) (w : World) → Unqueued w (insert_rejected_message p w).1
unfolding insert_rejected_message insert_rejected_row
insert_rejected_message-Unqueued p w = elim (Bool-cases (is_empty p.reason)) [
  | inl no_reason ↦ rw no_reason (unqueued w)
  | inr reason ↦ rw reason (elim (Bool-cases (next_fault w.faults)) [
    | inl lost ↦
        rw (query-lost (insert_rejected_row p) w lost) (record { jobs = refl; payloads = refl })
    | inr quiet ↦
        rw (query-quiet (insert_rejected_row p) w quiet)
          (elim (Bool-cases (check_message (rejected_row p w.next_id w.now))) [
            | inl good ↦ rw (good, insert_rejected_row) (record { jobs = refl; payloads = refl })
            | inr bad ↦ rw (bad, insert_rejected_row) (record { jobs = refl; payloads = refl })
          ])
  ])
]

module _ {Float Tokens : Type 0} (s : Service Float Tokens) (req : Request Float) where
  -- The checks that a submission has passed when its message is queued.
  pub record Authorized : Type 0 where
    pub credential : usable req.credential ≡ true
    pub mail : Mail
    pub parsed : s.parse_mail req.raw ≡ ok mail
    pub sender : allows req.credential.patterns mail.from ≡ true
    pub recipients : List Text
    pub envelope : validate_recipients s req ≡ ok recipients

  reject-Unqueued :
      (mail : Mail) (r : Rejection) (l : Limiter Float Tokens) (w : World)
      → Unqueued w (reject s req mail r (l, w)).1.1
  unfolding reject record_rejection
  reject-Unqueued mail r l w =
      let rps = s.rejected_rps in
      let decision =
        allow s.rates l (codes "rejected:" ++ s.show_id req.credential.id) rps s.rejected_burst
          w.now in
      let p = rejected_message s req mail r.reason in
      let same = insert_rejected_message-Unqueued p w in
      elim (Bool-cases decision.0) [
        | inr saturated ↦ rw saturated (unqueued w)
        | inl allowed ↦ rw allowed (elim (Result-cases (insert_rejected_message p w).0) [
          | inl (_, written) ↦ rw (written, record_rejection) same
          | inr (_, failed) ↦ rw (failed, record_rejection) same
        ])
      ]

  with_mail-Unqueued :
      (l : Limiter Float Tokens) (w : World)
      → usable req.credential ≡ true
      → Unqueued w (with_mail s req (s.parse_mail req.raw) (l, w)).1.1 ⊎ Authorized
  unfolding with_mail
  with_mail-Unqueued l w credential = elim (Result-cases (s.parse_mail req.raw)) [
    | inr ((code, text), unparsed) ↦ rw unparsed (inl (reject-Unqueued _ _ l w))
    | inl (mail, parsed) ↦ rw parsed (elim (Bool-cases (allows req.credential.patterns mail.from)) [
      | inr stranger ↦ rw stranger (inl (reject-Unqueued _ _ l w))
      | inl sender ↦ rw sender (elim (Result-cases (validate_recipients s req)) [
        | inr (_, bad) ↦ rw bad (inl (reject-Unqueued _ _ l w))
        | inl (recipients, envelope) ↦ inr (record {
          credential = credential;
          mail = mail;
          parsed = parsed;
          sender = sender;
          recipients = recipients;
          envelope = envelope;
        })
      ])
    ])
  ]

  with_search-Unqueued :
      (l : Limiter Float Tokens) (w : World) (found : Result StoreError Message)
      → usable req.credential ≡ true
      → Unqueued w (with_search s req l (found, w)).1.1 ⊎ Authorized
  unfolding with_search
  with_search-Unqueued l w (ok existing) credential = inl (unqueued w)
  with_search-Unqueued l w (err not_found) credential = with_mail-Unqueued l w credential
  with_search-Unqueued l w (err validation) credential = inl (unqueued w)
  with_search-Unqueued l w (err failure) credential = inl (unqueued w)
  with_search-Unqueued l w (err reference) credential = inl (unqueued w)
  with_search-Unqueued l w (err constraint) credential = inl (unqueued w)
  with_search-Unqueued l w (err (conflict name)) credential = inl (unqueued w)

  with_limit-Unqueued :
      (l : Limiter Float Tokens) (w : World)
      → usable req.credential ≡ true
      → Unqueued w (with_limit s req (l, w)).1.1 ⊎ Authorized
  unfolding with_limit
  with_limit-Unqueued l w credential = elim (Bool-cases (is_empty req.idempotency_key)) [
    | inl no_key ↦ rw no_key (with_mail-Unqueued l w credential)
    | inr key ↦
        let search =
          find_by_idempotency_key req.credential.id req.idempotency_key s.idempotency_ttl w in
        let same =
          (find_by_idempotency_key-IsRead req.credential.id req.idempotency_key s.idempotency_ttl
            w).same in
        rw key (elim (with_search-Unqueued l search.1 search.0 credential) [
          | inl left ↦ inl (record {
            jobs = left.jobs ∙ ap (λ d. d.jobs) same;
            payloads = left.payloads ∙ ap (λ d. d.payloads) same;
          })
          | inr authorized ↦ inr authorized
        ])
  ]

  -- A submission leaves the payloads and the delivery jobs of the database as they were, or its
  -- credential is usable, its message parses, a pattern of the credential allows the sender that
  -- the message names, and `validate_recipients` accepts its recipients. This holds whatever the
  -- parser answers and whichever queries fail.
  pub submit-Unqueued :
      (l : Limiter Float Tokens) (w : World) → Unqueued w (submit s req (l, w)).1.1 ⊎ Authorized
  unfolding submit
  submit-Unqueued l w = elim (Bool-cases (usable req.credential)) [
    | inr unusable ↦ rw unusable (inl (reject-Unqueued _ _ l w))
    | inl credential ↦
        let limits = rate_limit req.credential s.default_rps s.default_burst in
        let decision = allow s.rates l (s.show_id req.credential.id) limits.0 limits.1 w.now in
        rw credential (elim (Bool-cases decision.0) [
          | inr over ↦ rw over (inl (unqueued w))
          | inl under ↦ rw under (with_limit-Unqueued decision.1 w credential)
        ])
  ]
