-- ===== src/Store/Insert.antt =====
-- The transaction that puts a message, its payload and its delivery job in the database.
use relais.Base.{◌≡◌, [], ◌∷◌, ◌++◌, arith, Result, ok, err}
use relais.Crypto.Keyring.{Bytes}
use relais.Store.Rows.{Message, Db}
use relais.Store.Session.{World, StoreError, query, with_tx}
use relais.Store.Messages.{
  NewMessage, queued_row, insert_row, insert_payload, enqueue, insert_body, insert_queued_message,
}

-- The database with the message, its payload and its job.
abbrev pub with_message_rows : NewMessage → Bytes → World → Db
with_message_rows p raw w =
    let row = queued_row p w.next_id w.now in
    record (w.db) {
      messages = w.db.messages ++ row ∷ [];
      payloads = w.db.payloads ++ (w.next_id, raw) ∷ [];
      jobs = w.db.jobs ++ w.next_id ∷ [];
    }

-- Everything is written, or nothing.
abbrev pub Atomic : NewMessage → Bytes → World → Result StoreError Message × World → Type 0
Atomic p raw w (err _, w') = w'.db ≡ w.db
Atomic p raw w (ok row, w') =
    (row ≡ queued_row p w.next_id w.now) × (w'.db ≡ with_message_rows p raw w)

-- Putting a message in the queue either fails and leaves the database as it was, or succeeds and
-- appends the queued row, its payload and its delivery job, all under the new id and nothing else,
-- whichever queries fail.
pub insert_queued_message-Atomic :
    (p : NewMessage) (raw : Bytes) (w : World) → Atomic p raw w (insert_queued_message p raw w)
unfolding insert_queued_message with_tx query insert_body insert_row insert_payload enqueue
    queued_row
insert_queued_message-Atomic p raw w = ground arith
