-- ===== src/Ingest.antt =====
-- internal/ingest/ingest.go: `Submit`, `validateRecipients` and `reject`.
-- One clock, `World.now`, stands for that of the limiter and that of the database.
pub mod Submission
pub mod Authorized
pub mod Envelope
pub mod Genuine
use relais.Base.{
  ℕ, Bool, true, false, not, ◌&&◌, ◌||◌, List, [], ◌∷◌, ◌++◌, Option, none, some, ltb,
  if◌then◌else◌, is_empty, is_some, any, equal, length, Result, ok, err, ◌>>=◌, refuse_if, ◌>>◌,
}
use relais.Base.Int.{ℤ}
use relais.Text.{Text, codes}
use relais.Crypto.Keyring.{Bytes}
use relais.FromPattern.Parse.{Address, no_address, address_string, parse_address}
use relais.FromPattern.Matching.{Patterns, match_set, allows}
use relais.RateLimit.{Rates, Limiter, allow}
use relais.Sender.{decimal}
use relais.Store.Rows.{Status, queued, Message}
use relais.Store.Session.{StoreError, not_found, conflict, World, Run, query}
use relais.Store.Messages.{
  NewMessage, RejectedMessage, insert_queued_message, insert_rejected_message,
  find_by_idempotency_key, idempotency_index,
}
use relais.Store.Routes.{SenderRoute, Keys, resolve_sender}
use relais.Mailnorm.{Mail, no_mail}
use relais.Ingest.Submission.{
  Credential, usable, or_else, rate_limit, rules_allow, Rejection, refusal, Request, Accepted,
  Answer, Service, deref_uuid, accepted, refused, broken,
}

module _ {Float Tokens : Type 0} (s : Service Float Tokens) where
  -- one round of the loop of `validateRecipients`
  unfoldable pub check_recipient : Patterns → Text → Result Rejection Text
  check_recipient rules raw = elim (parse_address s.keys.idna raw) [
    | err _ ↦ err (
        refusal (codes "invalid_recipient")
          (s.quote raw ++ codes " is not a usable recipient address"))
    | ok addr ↦
        if rules_allow rules addr
        then ok (address_string addr)
        else err (
            refusal (codes "recipient_not_allowed")
              (codes "the credential is not allowed to send to " ++ address_string addr))
  ]

  -- the loop. The keys of `seen` are the elements of `out`.
  unfoldable pub check_recipients : Patterns → List Text → List Text → Result Rejection (List Text)
  check_recipients rules out [] = ok out
  check_recipients rules out (raw ∷ rest) = do
    normalized ← check_recipient rules raw
    check_recipients rules (if any (equal normalized) out then out else out ++ normalized ∷ []) rest

  -- `validateRecipients`
  unfoldable pub validate_recipients : Request Float → Result Rejection (List Text)
  validate_recipients req = do
    refuse_if (is_empty req.envelope_recipients)
        (refusal (codes "no_recipients") (codes "the submission has no recipients"))
    refuse_if (ltb s.max_recipients (length req.envelope_recipients)) (
        refusal (codes "too_many_recipients") (
          decimal (length req.envelope_recipients)
          ++ (codes " recipients, over the limit of " ++ decimal s.max_recipients)))
    check_recipients req.credential.recipients [] req.envelope_recipients

  abbrev pub State : Type 0
  State = Limiter Float Tokens × World

  abbrev pub rejected_message : Request Float → Mail → Text → RejectedMessage
  rejected_message req mail reason = record {
    credential_id = req.credential.id;
    facade = req.facade;
    reason = reason;
    from_addr = address_string mail.from;
    from_domain = mail.from.domain;
    to = mail.to;
    cc = mail.cc;
    bcc = mail.bcc;
    envelope_recipients = req.envelope_recipients;
    subject = mail.subject;
    message_id = mail.message_id;
    size_bytes = length req.raw;
    remote_ip = req.remote_ip;
  }

  -- `reject` when the row may be written
  unfoldable pub record_rejection : Request Float → Mail → Rejection → World → Rejection × World
  record_rejection req mail r w =
      let (answer, w') = insert_rejected_message (rejected_message req mail r.reason) w in
      elim answer [ err _ ↦ (r, w') | ok row ↦ (record r { message_id = row.id }, w') ]

  -- `reject`
  unfoldable pub reject : Request Float → Mail → Rejection → State → Answer × State
  reject req mail r (l, w) =
      let (allowed, l') =
        allow s.rates l (codes "rejected:" ++ s.show_id req.credential.id) s.rejected_rps
          s.rejected_burst w.now in
      let (r', w') = record_rejection req mail r w in
      if allowed then (refused r', (l', w')) else (refused r, (l', w))

  abbrev pub replayed : Message → Answer
  replayed m = accepted (record {
    id = m.id;
    status = m.status;
    rfc_message_id = m.message_id;
    recipients = m.envelope_recipients;
    backend_id = deref_uuid m.smtp_backend_id;
    duplicate = true;
  })

  abbrev pub new_message : Request Float → Mail → List Text → SenderRoute → NewMessage
  new_message req mail recipients route = record {
    credential_id = req.credential.id;
    facade = req.facade;
    from_addr = address_string mail.from;
    from_domain = mail.from.domain;
    to = mail.to;
    cc = mail.cc;
    bcc = if is_empty req.declared_bcc then mail.bcc else req.declared_bcc;
    envelope_recipients = recipients;
    subject = mail.subject;
    message_id = mail.message_id;
    size_bytes = mail.size;
    backend_id = route.backend_id;
    idempotency_key = req.idempotency_key;
    remote_ip = req.remote_ip;
  }

  -- `TouchCredential`, whose only column is not in the model's tables
  abbrev pub touch : Run (Unit {0})
  touch = query λ w. ok (tt, w.db)

  -- the search after a lost race for the idempotency key
  unfoldable pub find_winner : Request Float → StoreError → World → Answer × World
  find_winner req e w =
      let (found, w') =
        find_by_idempotency_key req.credential.id req.idempotency_key s.idempotency_ttl w in
      elim found [ ok existing ↦ (replayed existing, w') | err _ ↦ (broken e, w') ]

  unfoldable pub after_insert :
      Request Float
      → Mail
      → List Text
      → SenderRoute
      → Result StoreError Message × World
      → Answer × World
  after_insert req mail recipients route (ok row, w) = (
    accepted (record {
      id = row.id;
      status = row.status;
      rfc_message_id = mail.message_id;
      recipients = recipients;
      backend_id = route.backend_id;
      duplicate = false;
    }),
    (touch w).1,
  )
  after_insert req mail recipients route (err (conflict name), w) =
      if not (is_empty req.idempotency_key) && equal name idempotency_index
      then find_winner req (conflict name) w
      else (broken (conflict name), w)
  after_insert req mail recipients route (err e, w) = (broken e, w)

  -- `Submit` after `ResolveSender`
  unfoldable pub with_sender_route :
      Request Float
      → Mail
      → List Text
      → Limiter Float Tokens
      → Result StoreError SenderRoute × World
      → Answer × State
  with_sender_route req mail recipients l (err not_found, w) =
      reject req mail
        (refusal (codes "domain_not_configured")
          (codes "no enabled sending domain covers " ++ mail.from.domain))
        (l, w)
  with_sender_route req mail recipients l (err e, w) = (broken e, (l, w))
  with_sender_route req mail recipients l (ok route, w) =
      let (answer, w') =
        after_insert req mail recipients route
          (insert_queued_message (new_message req mail recipients route) mail.raw w) in
      (answer, (l, w'))

  -- `Submit` after `mailnorm.Parse`
  unfoldable pub with_mail : Request Float → Result (Text × Text) Mail → State → Answer × State
  with_mail req (err (code, text)) state = reject req no_mail (refusal code text) state
  with_mail req (ok mail) (l, w) =
      if not (allows req.credential.patterns mail.from)
      then reject req mail
          (refusal (codes "sender_not_allowed")
            (codes "the credential is not allowed to send as " ++ address_string mail.from))
          (l, w)
      else elim (validate_recipients req) [
        | err r ↦ reject req mail r (l, w)
        | ok recipients ↦
            with_sender_route req mail recipients l (resolve_sender s.keys mail.from.domain w)
      ]

  -- `Submit` after the search for the idempotency key
  unfoldable pub with_search :
      Request Float → Limiter Float Tokens → Result StoreError Message × World → Answer × State
  with_search req l (ok existing, w) = (replayed existing, (l, w))
  with_search req l (err not_found, w) = with_mail req (s.parse_mail req.raw) (l, w)
  with_search req l (err e, w) = (broken e, (l, w))

  -- `Submit` after the rate limit
  unfoldable pub with_limit : Request Float → State → Answer × State
  with_limit req (l, w) =
      if is_empty req.idempotency_key
      then with_mail req (s.parse_mail req.raw) (l, w)
      else with_search req l
          (find_by_idempotency_key req.credential.id req.idempotency_key s.idempotency_ttl w)

  abbrev pub over_limit : Float → Rejection
  over_limit rps = record {
    reason = codes "rate_limited";
    detail = codes "rate limit of " ++ (s.show_rate rps ++ codes " requests per second exceeded");
    message_id = 0;
    temporary = true;
  }

  -- `Submit`
  unfoldable pub submit : Request Float → State → Answer × State
  submit req (l, w) =
      let c = req.credential in
      let (rps, burst) = rate_limit c s.default_rps s.default_burst in
      let (allowed, l') = allow s.rates l (s.show_id c.id) rps burst w.now in
      if not (usable c)
      then reject req no_mail
          (refusal (codes "credential_unusable") (codes "the credential is disabled or revoked"))
          (l, w)
      else if not allowed
      then (refused (over_limit rps), (l', w))
      else with_limit req (l', w)
