-- ===== src/Store/Messages.antt =====
-- internal/store/email.go: the operations on messages.
use relais.Base.{
  ◌-◌, length, Bool, true, false, not, ◌&&◌, any, equal, leb, ℕ, ◌+◌, ◌||◌, List, [], ◌∷◌, ◌++◌,
  Option, none, some, ◌==◌, if◌then◌else◌, is_empty, Result, ok, err,
}
use relais.Base.Int.{ℤ, pos, negsuc, int32}
use relais.Text.{Text, codes, to_lower}
use relais.Crypto.Keyring.{Bytes}
use relais.Store.Rows.{
  Status, queued, rejected, Message, Db, find_message, find_payload, find_by_key, key_taken, purge,
}
use relais.Store.Session.{
  StoreError, not_found, constraint, conflict, failure, World, Run, ◌>>=◌, ◌>>◌, return, query,
  with_tx,
}

-- `NewMessageParams`
pub record NewMessage : Type 0 where
  pub credential_id : ℕ
  pub facade : Text
  pub from_addr : Text
  pub from_domain : Text
  pub to : List Text
  pub cc : List Text
  pub bcc : List Text
  pub envelope_recipients : List Text
  pub subject : Text
  pub message_id : Text
  pub size_bytes : ℕ
  pub backend_id : ℕ
  pub idempotency_key : Text
  pub remote_ip : Option Text

-- `uuidPtr`
abbrev pub uuid_ptr : ℕ → Option ℕ
uuid_ptr id = if id == 0 then none else some id

-- `stringPtr`
abbrev pub string_ptr : Text → Option Text
string_ptr s = if is_empty s then none else some s

unfoldable pub queued_row : NewMessage → ℕ → ℕ → Message
queued_row p id now = record {
  id = id;
  credential_id = uuid_ptr p.credential_id;
  status = queued;
  facade = p.facade;
  from_addr = p.from_addr;
  from_domain = p.from_domain;
  to_addrs = p.to;
  cc_addrs = p.cc;
  bcc_addrs = p.bcc;
  envelope_recipients = p.envelope_recipients;
  subject = p.subject;
  message_id = p.message_id;
  size_bytes = int32 p.size_bytes;
  smtp_backend_id = uuid_ptr p.backend_id;
  idempotency_key = string_ptr p.idempotency_key;
  attempt_count = 0;
  error_code = none;
  error_detail = none;
  rejection_reason = none;
  remote_ip = p.remote_ip;
  created_at = now;
  updated_at = now;
  sent_at = none;
}

abbrev is_natural : ℤ → Bool
is_natural (pos n) = true
is_natural (negsuc n) = false

abbrev key_fits : Option Text → Bool
key_fits none = true
key_fits (some key) = leb 1 (length key) && leb (length key) 255

abbrev is_rejected : Status → Bool
is_rejected rejected = true
is_rejected _ = false

-- the constraint that a second use of an idempotency key violates
abbrev pub idempotency_index : Text
idempotency_index = codes "email_message_idempotency_key"

-- the CHECKs of `email_message`, as far as the types leave them open. Domains are ASCII, on which
-- `lower` is that of ASCII.
unfoldable pub check_message : Message → Bool
check_message m =
    any (equal m.facade) (codes "rest" ∷ codes "smtp" ∷ [])
    && is_natural m.size_bytes
    && equal m.from_domain (to_lower (λ c. c) m.from_domain)
    && key_fits m.idempotency_key
    && (is_rejected m.status || not (is_empty m.envelope_recipients))

-- `InsertEmailMessage`. The new id is the database's.
unfoldable pub insert_row : NewMessage → World → Result StoreError (Message × Db)
insert_row p w =
    let row = queued_row p w.next_id w.now in
    if not (check_message row)
    then err constraint
    else if key_taken row.credential_id row.idempotency_key w.db.messages
    then err (conflict idempotency_index)
    else ok (row, record (w.db) { messages = w.db.messages ++ row ∷ [] })

unfoldable pub insert_payload : ℕ → Bytes → World → Result StoreError (Unit {0} × Db)
insert_payload id raw w = ok (tt, record (w.db) { payloads = w.db.payloads ++ (id, raw) ∷ [] })

-- `Enqueuer.Enqueue` of internal/jobs, inside the transaction
unfoldable pub enqueue : ℕ → World → Result StoreError (Unit {0} × Db)
enqueue id w = ok (tt, record (w.db) { jobs = w.db.jobs ++ id ∷ [] })

-- The id is drawn whether or not the insert succeeds.
abbrev pub draw_id : World → World
draw_id w = record w { next_id = w.next_id + 1 }

unfoldable pub insert_body : NewMessage → Bytes → Run Message
insert_body p raw = do
  row ← query (insert_row p)
  query (insert_payload row.id raw)
  query (enqueue row.id)
  return row

-- `InsertQueuedMessage`
unfoldable pub insert_queued_message : NewMessage → Bytes → Run Message
insert_queued_message p raw w =
    if is_empty p.envelope_recipients || is_empty raw
    then (err failure, w)
    else (let (r, w') = with_tx (insert_body p raw) w in (r, draw_id w'))

abbrev pub message_query : ℕ → World → Result StoreError (Message × Db)
message_query id w = elim (find_message id w.db.messages) [
  | none ↦ err not_found
  | some m ↦ ok (m, w.db)
]

-- `RejectedMessageParams`
pub record RejectedMessage : Type 0 where
  pub credential_id : ℕ
  pub facade : Text
  pub reason : Text
  pub from_addr : Text
  pub from_domain : Text
  pub to : List Text
  pub cc : List Text
  pub bcc : List Text
  pub envelope_recipients : List Text
  pub subject : Text
  pub message_id : Text
  pub size_bytes : ℕ
  pub remote_ip : Option Text

unfoldable pub rejected_row : RejectedMessage → ℕ → ℕ → Message
rejected_row p id now = record {
  id = id;
  credential_id = uuid_ptr p.credential_id;
  status = rejected;
  facade = p.facade;
  from_addr = p.from_addr;
  from_domain = p.from_domain;
  to_addrs = p.to;
  cc_addrs = p.cc;
  bcc_addrs = p.bcc;
  envelope_recipients = p.envelope_recipients;
  subject = p.subject;
  message_id = p.message_id;
  size_bytes = int32 p.size_bytes;
  smtp_backend_id = none;
  idempotency_key = none;
  attempt_count = 0;
  error_code = none;
  error_detail = none;
  rejection_reason = some p.reason;
  remote_ip = p.remote_ip;
  created_at = now;
  updated_at = now;
  sent_at = none;
}

-- `InsertRejectedEmailMessage`
unfoldable pub insert_rejected_row : RejectedMessage → World → Result StoreError (Message × Db)
insert_rejected_row p w =
    let row = rejected_row p w.next_id w.now in
    if not (check_message row)
    then err constraint
    else ok (row, record (w.db) { messages = w.db.messages ++ row ∷ [] })

-- `InsertRejectedMessage`
unfoldable pub insert_rejected_message : RejectedMessage → Run Message
insert_rejected_message p w =
    if is_empty p.reason
    then (err failure, w)
    else (let (r, w') = query (insert_rejected_row p) w in (r, draw_id w'))

-- `GetMessage`
unfoldable pub get_message : ℕ → Run Message
get_message id = query (message_query id)

abbrev pub key_query : ℕ → Text → ℕ → World → Result StoreError (Message × Db)
key_query credential key ttl w = elim (find_by_key credential key ttl w.now w.db.messages) [
  | none ↦ err not_found
  | some m ↦ ok (m, w.db)
]

-- `FindByIdempotencyKey`
unfoldable pub find_by_idempotency_key : ℕ → Text → ℕ → Run Message
find_by_idempotency_key credential key ttl = query (key_query credential key ttl)

abbrev pub payload_query : ℕ → World → Result StoreError (Bytes × Db)
payload_query id w = elim (find_payload id w.db.payloads) [
  | none ↦ err not_found
  | some raw ↦ ok (raw, w.db)
]

-- `GetPayload`
unfoldable pub get_payload : ℕ → Run Bytes
get_payload id = query (payload_query id)

abbrev pub purge_query : ℕ → ℕ → World → Result StoreError (ℕ × Db)
purge_query sent_ttl failed_ttl w =
    let kept = purge sent_ttl failed_ttl w.now w.db.messages w.db.payloads in
    ok (length w.db.payloads - length kept, record (w.db) { payloads = kept })

-- `PurgePayloads`
unfoldable pub purge_payloads : ℕ → ℕ → Run ℕ
purge_payloads sent_ttl failed_ttl = query (purge_query sent_ttl failed_ttl)
