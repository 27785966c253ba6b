-- ===== src/Store/Reads.antt =====
-- The operations of the store that only read.
use relais.Base.{
  ℕ, ◌≡◌, refl, ◌∙◌, true, false, [], Option, none, some, Bool-cases, Option-cases, inl, inr,
  Result, ok, err, Result-cases,
}
use relais.Crypto.Keyring.{Bytes}
use relais.Text.{Text}
use relais.Store.Rows.{Message, Backend, Db, find_message, find_payload, find_backend, find_by_key}
use relais.Store.Session.{
  World, Run, StoreError, query, query-quiet, query-lost, next_fault, tick, settle, not_found,
  failure, ◌>>=◌,
}
use relais.Store.Messages.{
  get_message, get_payload, message_query, payload_query, key_query, find_by_idempotency_key,
}
use relais.Store.Routes.{
  Keys, route_for_message, opened_route, open_backend_password, backend_query,
}

-- A run from `w` to `w'` left the tables, and failed no query if none was to fail.
pub record Reads (w w' : World) : Type 0 where
  pub same : w'.db ≡ w.db
  pub still_quiet : w.faults ≡ [] → w'.faults ≡ []

abbrev pub IsRead : {A : Type 0} → Run A → Type 0
IsRead m = (w : World) → Reads w (m w).1

abbrev pub Keeps : {A : Type 0} → World → Result StoreError (A × Db) → Type 0
Keeps w (ok p) = p.1 ≡ w.db
Keeps w (err _) = Unit {0}

abbrev found_or_missing : {A : Type 0} → Db → Option A → Result StoreError (A × Db)
found_or_missing db none = err not_found
found_or_missing db (some a) = ok (a, db)

lookup-Keeps : {A : Type 0} (w : World) (o : Option A) → Keeps w (found_or_missing w.db o)
lookup-Keeps w none = tt
lookup-Keeps w (some a) = refl

settle-Reads :
    {A : Type 0} (w : World) (r : Result StoreError (A × Db))
    → Keeps w r
    → Reads w (settle (tick w) r).1
settle-Reads w (ok p) same = record { same = same; still_quiet = λ e. rw e refl }
settle-Reads w (err _) _ = record { same = refl; still_quiet = λ e. rw e refl }

pub query-IsRead :
    {A : Type 0} (q : World → Result StoreError (A × Db))
    → ((w : World) → Keeps w (q w))
    → IsRead (query q)
query-IsRead q keeps w = elim (Bool-cases (next_fault w.faults)) [
  | inl lost ↦ rw (query-lost q w lost) (record { same = refl; still_quiet = λ e. rw e refl })
  | inr quiet ↦ rw (query-quiet q w quiet) (settle-Reads w (q w) (keeps w))
]

Reads-trans : {u v w : World} → Reads u v → Reads v w → Reads u w
Reads-trans a b = record {
  same = b.same ∙ a.same;
  still_quiet = λ e. b.still_quiet (a.still_quiet e);
}

pub bind-IsRead :
    {A B : Type 0} (m : Run A) (f : A → Run B)
    → IsRead m
    → ((a : A) → IsRead (f a))
    → IsRead (m >>= f)
bind-IsRead m f first next w = elim (Result-cases (m w).0) [
  | inl (a, e) ↦ rw (e, ◌>>=◌) (Reads-trans (first w) (next a (m w).1))
  | inr (_, e) ↦ rw (e, ◌>>=◌) (first w)
]

pub Reads-refl : (w : World) → Reads w w
Reads-refl w = record { same = refl; still_quiet = λ e. e }

pub get_message-IsRead : (id : ℕ) → IsRead (get_message id)
unfolding get_message
get_message-IsRead id =
    query-IsRead (message_query id) (λ w. lookup-Keeps w (find_message id w.db.messages))

pub get_payload-IsRead : (id : ℕ) → IsRead (get_payload id)
unfolding get_payload
get_payload-IsRead id =
    query-IsRead (payload_query id) (λ w. lookup-Keeps w (find_payload id w.db.payloads))

pub find_by_idempotency_key-IsRead :
    (credential : ℕ) (key : Text) (ttl : ℕ) → IsRead (find_by_idempotency_key credential key ttl)
unfolding find_by_idempotency_key
find_by_idempotency_key-IsRead credential key ttl =
    query-IsRead (key_query credential key ttl)
      (λ w. lookup-Keeps w (find_by_key credential key ttl w.now w.db.messages))

opened_route-IsRead : (k : Keys) (m : Message) (b : Backend) → IsRead (opened_route k m b)
opened_route-IsRead k m b w = elim (Result-cases (open_backend_password k b.auth_password_sealed)) [
  | inl (_, e) ↦ rw (e, opened_route) (Reads-refl w)
  | inr (_, e) ↦ rw (e, opened_route) (Reads-refl w)
]

pub route_for_message-IsRead : (k : Keys) (m : Message) → IsRead (route_for_message k m)
unfolding route_for_message
route_for_message-IsRead k m w = elim (Option-cases m.smtp_backend_id) [
  | inl none_set ↦ rw none_set (Reads-refl w)
  | inr (id, e) ↦ rw e (
      bind-IsRead (query (backend_query id)) (opened_route k m)
        (query-IsRead (backend_query id) (λ v. lookup-Keeps v (find_backend id v.db.backends)))
        (opened_route-IsRead k m) w)
]

-- What a lookup answers when no query fails.
abbrev pub answer : {A : Type 0} → Option A → Result StoreError A
answer none = err not_found
answer (some a) = ok a

pub get_message-quiet :
    (id : ℕ) (w : World)
    → next_fault w.faults ≡ false
    → get_message id w ≡ (answer (find_message id w.db.messages), tick w)
unfolding get_message
get_message-quiet id w quiet =
    query-quiet (message_query id) w quiet ∙ by_case (find_message id w.db.messages)
  where
    by_case : (o : Option Message) → settle (tick w) (found_or_missing w.db o) ≡ (answer o, tick w)
    by_case none = refl
    by_case (some m) = refl

pub get_message-lost :
    (id : ℕ) (w : World) → next_fault w.faults ≡ true → get_message id w ≡ (err failure, tick w)
unfolding get_message
get_message-lost id w lost = query-lost (message_query id) w lost

pub get_payload-quiet :
    (id : ℕ) (w : World)
    → next_fault w.faults ≡ false
    → get_payload id w ≡ (answer (find_payload id w.db.payloads), tick w)
unfolding get_payload
get_payload-quiet id w quiet =
    query-quiet (payload_query id) w quiet ∙ by_case (find_payload id w.db.payloads)
  where
    by_case : (o : Option Bytes) → settle (tick w) (found_or_missing w.db o) ≡ (answer o, tick w)
    by_case none = refl
    by_case (some m) = refl
