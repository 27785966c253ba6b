-- ===== src/Store/Marks.antt =====
-- internal/store/email.go: the operations that change the status of a message.
use relais.Base.{ℕ, Bool, not, none, ltb, Result, ok}
use relais.Text.{Text}
use relais.Store.Rows.{
  Status, Message, Db, update_message, is_sent, is_claimable, claim_row, sent_row, failed_row,
  retrying_row, guarded, affected,
}
use relais.Store.Session.{StoreError, World, Run, ◌>>=◌, return, query}
use relais.Store.Messages.{string_ptr}

-- A guarded `UPDATE` of one message, with the count of the rows that it changed.
abbrev pub marking :
    (Status → Bool) → (ℕ → Message → Message) → ℕ → World → Result StoreError (ℕ × Db)
marking test f id w = ok (
  affected test id w.db.messages,
  record (w.db) { messages = update_message id (guarded test (f w.now)) w.db.messages },
)

unfoldable pub mark : (Status → Bool) → (ℕ → Message → Message) → ℕ → Run ℕ
mark test f id = query (marking test f id)

-- `MarkSending`
unfoldable pub mark_sending : ℕ → Run Bool
mark_sending id = do changed ← mark is_claimable claim_row id; return (ltb 0 changed)

abbrev pub not_sent : Status → Bool
not_sent s = not (is_sent s)

abbrev pub ignore_count : Run ℕ → Run (Unit {0})
ignore_count m = do _ ← m; return tt

-- `MarkSent`
unfoldable pub mark_sent : ℕ → Run (Unit {0})
mark_sent id = ignore_count (mark not_sent (λ now. sent_row now none none) id)

-- `MarkSentPartial`
unfoldable pub mark_sent_partial : ℕ → Text → Text → Run (Unit {0})
mark_sent_partial id code detail =
    ignore_count (mark not_sent (λ now. sent_row now (string_ptr code) (string_ptr detail)) id)

-- `MarkFailed`
unfoldable pub mark_failed : ℕ → Text → Text → Run (Unit {0})
mark_failed id code detail =
    ignore_count (mark not_sent (λ now. failed_row now (string_ptr code) (string_ptr detail)) id)

-- `MarkRetrying`
unfoldable pub mark_retrying : ℕ → Text → Text → Run (Unit {0})
mark_retrying id code detail =
    ignore_count (mark not_sent (λ now. retrying_row now (string_ptr code) (string_ptr detail)) id)
