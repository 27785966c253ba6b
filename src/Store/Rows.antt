-- ===== src/Store/Rows.antt =====
-- internal/db/migrations and internal/db/queries: the rows, and the queries as functions on tables.
-- An id is a number, 0 for `uuid.Nil`; a time is a number.
use relais.Base.{
  ℕ, ◌+◌, Bool, true, false, ◌&&◌, ◌||◌, List, [], ◌∷◌, Option, none, some, ltb, ◌==◌,
  if◌then◌else◌, equal,
}
use relais.Base.Int.{ℤ}
use relais.Text.{Text}
use relais.Crypto.Keyring.{Bytes}
use relais.Store.Vault.{CredentialRow, Grant}

pub data Status : Type 0 where
  queued sending sent failed rejected : Status

-- `email_message`
pub record Message : Type 0 where
  pub id : ℕ
  pub credential_id : Option ℕ
  pub status : Status
  pub facade : Text
  pub from_addr : Text
  pub from_domain : Text
  pub to_addrs : List Text
  pub cc_addrs : List Text
  pub bcc_addrs : List Text
  pub envelope_recipients : List Text
  pub subject : Text
  pub message_id : Text
  pub size_bytes : ℤ
  pub smtp_backend_id : Option ℕ
  pub idempotency_key : Option Text
  pub attempt_count : ℕ
  pub error_code : Option Text
  pub error_detail : Option Text
  pub rejection_reason : Option Text
  pub remote_ip : Option Text
  pub created_at : ℕ
  pub updated_at : ℕ
  pub sent_at : Option ℕ

-- `smtp_backend`
pub record Backend : Type 0 where
  pub id : ℕ
  pub name : Text
  pub host : Text
  pub port : ℕ
  pub tls_mode : Text
  pub auth_user : Text
  pub auth_password_sealed : Text
  pub helo_name : Text
  pub max_concurrency : ℕ
  pub enabled : Bool

-- `domain`
pub record Domain : Type 0 where
  pub id : ℕ
  pub name : Text
  pub smtp_backend_id : ℕ
  pub include_subdomains : Bool
  pub enabled : Bool

-- The database: messages, their payloads, backends, domains, the delivery jobs of the queue, and the
-- credentials with their two lists of patterns.
pub record Db : Type 0 where
  pub messages : List Message
  pub payloads : List (ℕ × Bytes)
  pub backends : List Backend
  pub domains : List Domain
  pub jobs : List ℕ
  pub credentials : List CredentialRow
  pub from_patterns : List Grant
  pub recipient_patterns : List Grant

-- `WHERE id = @id`
unfoldable pub find_message : ℕ → List Message → Option Message
find_message id [] = none
find_message id (m ∷ ms) = if m.id == id then some m else find_message id ms

-- `UPDATE … WHERE id = @id`
unfoldable pub update_message : ℕ → (Message → Message) → List Message → List Message
update_message id f [] = []
update_message id f (m ∷ ms) = (if m.id == id then f m else m) ∷ update_message id f ms

unfoldable pub find_payload : ℕ → List (ℕ × Bytes) → Option Bytes
find_payload id [] = none
find_payload id ((j, raw) ∷ ps) = if j == id then some raw else find_payload id ps

unfoldable pub find_backend : ℕ → List Backend → Option Backend
find_backend id [] = none
find_backend id (b ∷ bs) = if b.id == id then some b else find_backend id bs

abbrev pub is_sent : Status → Bool
is_sent sent = true
is_sent _ = false

abbrev pub is_failed : Status → Bool
is_failed failed = true
is_failed _ = false

-- `status IN ('queued', 'sending')`
abbrev pub is_claimable : Status → Bool
is_claimable queued = true
is_claimable sending = true
is_claimable _ = false

-- `MarkEmailSending`, on a row of which the guard holds
abbrev pub claim_row : ℕ → Message → Message
claim_row now m = record m {
  status = sending;
  attempt_count = m.attempt_count + 1;
  error_code = none;
  error_detail = none;
  updated_at = now;
}

-- `MarkEmailSent` and `MarkEmailSentPartial`
abbrev pub sent_row : ℕ → Option Text → Option Text → Message → Message
sent_row now code detail m = record m {
  status = sent;
  sent_at = some now;
  error_code = code;
  error_detail = detail;
  updated_at = now;
}

-- `MarkEmailFailed`
abbrev pub failed_row : ℕ → Option Text → Option Text → Message → Message
failed_row now code detail m = record m {
  status = failed;
  error_code = code;
  error_detail = detail;
  updated_at = now;
}

-- `MarkEmailRetrying`
abbrev pub retrying_row : ℕ → Option Text → Option Text → Message → Message
retrying_row now code detail m = record m {
  status = queued;
  error_code = code;
  error_detail = detail;
  updated_at = now;
}

-- An `UPDATE` guarded by a test of the status.
unfoldable pub guarded : (Status → Bool) → (Message → Message) → Message → Message
guarded test f m = if test m.status then f m else m

-- The rows that it changes: the id is the primary key, so one at most.
unfoldable pub affected : (Status → Bool) → ℕ → List Message → ℕ
affected test id ms = elim (find_message id ms) [
  | none ↦ 0
  | some m ↦ if test m.status then 1 else 0
]

-- `GetEmailMessageByIdempotencyKey`
unfoldable pub find_by_key : ℕ → Text → ℕ → ℕ → List Message → Option Message
find_by_key credential key ttl now [] = none
find_by_key credential key ttl now (m ∷ ms) =
    let of_credential : Bool = elim m.credential_id [ none ↦ false | some c ↦ c == credential ] in
    let of_key : Bool = elim m.idempotency_key [ none ↦ false | some k ↦ equal k key ] in
    if of_credential && of_key && ltb now (m.created_at + ttl)
    then some m
    else find_by_key credential key ttl now ms

-- The unique index `email_message_idempotency_key`: a row with this credential and key.
unfoldable pub key_taken : Option ℕ → Option Text → List Message → Bool
key_taken (some credential) (some key) (m ∷ ms) =
    let of_credential : Bool = elim m.credential_id [ none ↦ false | some c ↦ c == credential ] in
    let of_key : Bool = elim m.idempotency_key [ none ↦ false | some k ↦ equal k key ] in
    of_credential && of_key || key_taken (some credential) (some key) ms
key_taken _ _ _ = false

-- `PurgeSentPayloads`: whether a payload goes, by its message's row
unfoldable pub is_purged : ℕ → ℕ → ℕ → Option Message → Bool
is_purged sent_ttl failed_ttl now none = false
is_purged sent_ttl failed_ttl now (some m) =
    let since_sent : Bool = elim m.sent_at [ none ↦ false | some t ↦ ltb (t + sent_ttl) now ] in
    is_sent m.status && since_sent || is_failed m.status && ltb (m.updated_at + failed_ttl) now

unfoldable pub purge : ℕ → ℕ → ℕ → List Message → List (ℕ × Bytes) → List (ℕ × Bytes)
purge sent_ttl failed_ttl now ms [] = []
purge sent_ttl failed_ttl now ms ((id, raw) ∷ ps) =
    let rest = purge sent_ttl failed_ttl now ms ps in
    if is_purged sent_ttl failed_ttl now (find_message id ms) then rest else (id, raw) ∷ rest
