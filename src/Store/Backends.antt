-- ===== src/Store/Backends.antt =====
-- internal/store/backend.go: the relays, with the queries of smtp_backend.sql and the table's CHECKs.
-- What `rand.Read` gives for a password is an argument.
pub mod Creation
pub mod Passwords
use relais.Base.{
  ℕ, zero, suc, Bool, true, false, not, ◌&&◌, ◌||◌, ◌==◌, List, [], ◌∷◌, ◌++◌, Option, none, some,
  leb, any, if◌then◌else◌, is_empty, equal, Result, ok, err, ◌>>=◌, refuse_if, ◌>>◌,
}
use relais.Base.Int.{ℤ, pos, negsuc}
use relais.Text.{Text, codes, trim_space, to_lower}
use relais.Crypto.Keyring.{Bytes, KeyError, seal_with, open_envelope, needs_rewrap}
use relais.Store.Vault.{Sql}
use relais.Store.Rows.{Message, Backend, Domain, Db, find_backend}
use relais.Store.Session.{
  StoreError, not_found, conflict, reference, constraint, validation, failure, World, Run, query,
}
use relais.Store.Routes.{Keys}

-- `NewBackendParams`
pub record NewBackend : Type 0 where
  pub name : Text
  pub host : Text
  pub port : ℤ
  pub tls_mode : Text
  pub auth_user : Text
  pub auth_password : Text
  pub helo_name : Text
  pub max_concurrency : ℤ
  pub enabled : Bool

-- `validTLSModes`
abbrev pub valid_tls_modes : List Text
valid_tls_modes = codes "starttls" ∷ codes "tls" ∷ codes "none" ∷ []

abbrev pub in_range : ℕ → ℕ → ℤ → Bool
in_range low high (pos n) = leb low n && leb n high
in_range low high (negsuc n) = false

abbrev pub natural : ℤ → ℕ
natural (pos n) = n
natural (negsuc n) = zero

abbrev pub default_concurrency : ℤ → ℤ
default_concurrency (pos n) = if n == 0 then pos 2 else pos n
default_concurrency (negsuc n) = negsuc n

-- the texts trimmed, as `normalize` leaves them
unfoldable pub trimmed : (ℕ → ℕ) → NewBackend → NewBackend
trimmed fold p = record {
  name = trim_space p.name;
  host = trim_space p.host;
  port = p.port;
  tls_mode = to_lower fold (trim_space p.tls_mode);
  auth_user = trim_space p.auth_user;
  auth_password = p.auth_password;
  helo_name = trim_space p.helo_name;
  max_concurrency = default_concurrency p.max_concurrency;
  enabled = p.enabled;
}

-- the `switch` of `normalize`
unfoldable pub check_params : NewBackend → Result StoreError (Unit {0})
check_params p = do
  refuse_if (is_empty p.name) validation
  refuse_if (is_empty p.host) validation
  refuse_if (not (in_range 1 65535 p.port)) validation
  refuse_if (not (any (equal p.tls_mode) valid_tls_modes)) validation
  refuse_if (not (in_range 1 64 p.max_concurrency)) validation
  refuse_if (not (is_empty p.auth_user) && is_empty p.auth_password) validation
  refuse_if (is_empty p.auth_user && not (is_empty p.auth_password)) validation
  refuse_if (equal p.tls_mode (codes "none") && not (is_empty p.auth_user)) validation
  ok tt

-- `normalize`
unfoldable pub normalize : (ℕ → ℕ) → NewBackend → Result StoreError NewBackend
normalize fold p = do check_params (trimmed fold p); ok (trimmed fold p)

-- `sealBackendPassword`
unfoldable pub seal_backend_password : Keys → Bytes → Text → Result KeyError Text
seal_backend_password k nonce password =
    if is_empty password then ok [] else seal_with k.ciphers k.keyring nonce password

-- `btrim(t) <> ''`
abbrev is_filled : Text → Bool
is_filled t = any (λ c. not (c == 32)) t

-- the CHECKs of `smtp_backend`
unfoldable pub check_backend : Backend → Bool
check_backend b =
    is_filled b.name
    && is_filled b.host
    && (leb 1 b.port && leb b.port 65535)
    && any (equal b.tls_mode) valid_tls_modes
    && (leb 1 b.max_concurrency && leb b.max_concurrency 64)
    && (not (equal b.tls_mode (codes "none"))
        || is_empty b.auth_user && is_empty b.auth_password_sealed)

abbrev pub backend_row : NewBackend → Text → ℕ → Backend
backend_row p sealed id = record {
  id = id;
  name = p.name;
  host = p.host;
  port = natural p.port;
  tls_mode = p.tls_mode;
  auth_user = p.auth_user;
  auth_password_sealed = sealed;
  helo_name = p.helo_name;
  max_concurrency = natural p.max_concurrency;
  enabled = p.enabled;
}

-- `CreateSMTPBackend` of the queries
abbrev pub create_query : Sql → (ℕ → Backend) → World → Result StoreError (Backend × Db)
create_query q row w =
    let b = row w.next_id in
    if not (check_backend b)
    then err constraint
    else if any (λ (c : Backend). equal (q.lower c.name) (q.lower b.name)) w.db.backends
    then err (conflict (codes "smtp_backend_name_key"))
    else ok (b, record (w.db) { backends = w.db.backends ++ b ∷ [] })

-- `CreateBackend`
unfoldable pub create_backend : Sql → Keys → Bytes → NewBackend → Run Backend
create_backend q k nonce given w = elim (normalize k.idna.fold given) [
  | err e ↦ (err e, w)
  | ok p ↦ elim (seal_backend_password k nonce p.auth_password) [
    | err _ ↦ (err failure, w)
    | ok sealed ↦
        let (r, w') = query (create_query q (backend_row p sealed)) w in
        (r, record w' { next_id = suc w'.next_id })
  ]
]

abbrev pub get_query : ℕ → World → Result StoreError (Backend × Db)
get_query id w = elim (find_backend id w.db.backends) [
  | none ↦ err not_found
  | some b ↦ ok (b, w.db)
]

-- `GetBackend`
unfoldable pub get_backend : ℕ → Run Backend
get_backend id = query (get_query id)

abbrev pub name_query : Sql → Text → List Backend → Db → Result StoreError (Backend × Db)
name_query q name [] db = err not_found
name_query q name (b ∷ bs) db =
    if equal (q.lower b.name) (q.lower name) then ok (b, db) else name_query q name bs db

-- `GetBackendByName`
unfoldable pub get_backend_by_name : Sql → Text → Run Backend
get_backend_by_name q name = query (λ w. name_query q (trim_space name) w.db.backends w.db)

abbrev pub holds : ℕ → Option ℕ → Bool
holds id none = false
holds id (some n) = n == id

unfoldable pub drop_backend : ℕ → List Backend → List Backend
drop_backend id [] = []
drop_backend id (b ∷ bs) = let rest = drop_backend id bs in if b.id == id then rest else b ∷ rest

-- ON DELETE SET NULL of `email_message.smtp_backend_id`
unfoldable pub detach : ℕ → List Message → List Message
detach id [] = []
detach id (m ∷ ms) =
    (if holds id m.smtp_backend_id then record m { smtp_backend_id = none } else m) ∷ detach id ms

-- `DeleteSMTPBackend` of the queries, where a domain may still point at the row: one row, or none
abbrev pub delete_query : ℕ → World → Result StoreError (Unit {0} × Db)
delete_query id w = elim (find_backend id w.db.backends) [
  | none ↦ err not_found
  | some b ↦
      if any (λ (d : Domain). d.smtp_backend_id == id) w.db.domains
      then err reference
      else ok (
        tt,
        record (w.db) {
          backends = drop_backend id w.db.backends;
          messages = detach id w.db.messages;
        },
      )
]

-- `DeleteBackend`
unfoldable pub delete_backend : ℕ → Run (Unit {0})
delete_backend id = query (delete_query id)

-- `UpdateSMTPBackendSealedPassword`
unfoldable pub reseal : ℕ → Text → List Backend → List Backend
reseal id sealed [] = []
reseal id sealed (b ∷ bs) =
    (if b.id == id then record b { auth_password_sealed = sealed } else b) ∷ reseal id sealed bs

abbrev pub reseal_query : ℕ → Text → World → Result StoreError (Unit {0} × Db)
reseal_query id sealed w = ok (tt, record (w.db) { backends = reseal id sealed w.db.backends })

-- `ListSMTPBackendsNeedingRewrap`. `by_name` is the order of the rows.
unfoldable pub sealed_rows : List Backend → List Backend
sealed_rows [] = []
sealed_rows (b ∷ bs) =
    let rest = sealed_rows bs in if is_empty b.auth_password_sealed then rest else b ∷ rest

abbrev pub rewrap_list :
    (List Backend → List Backend) → World → Result StoreError (List Backend × Db)
rewrap_list by_name w = ok (by_name (sealed_rows w.db.backends), w.db)

-- one round of the loop of `RewrapBackendPasswords`, on a row that needs it
unfoldable pub rewrap_row : Keys → Bytes → Backend → Run (Unit {0})
rewrap_row k nonce row w = elim (open_envelope k.ciphers k.keyring row.auth_password_sealed) [
  | err _ ↦ (err failure, w)
  | ok plaintext ↦ elim (seal_with k.ciphers k.keyring nonce plaintext) [
    | err _ ↦ (err failure, w)
    | ok sealed ↦ query (reseal_query row.id sealed) w
  ]
]

-- What the operation returns: how many were rewrapped, and the error that stopped it.
abbrev pub Rewrapped : Type 0
Rewrapped = ℕ × Option StoreError

-- the loop, with the nonces of the rows
unfoldable pub rewrap_rows : Keys → (ℕ → Bytes) → ℕ → List Backend → World → Rewrapped × World
rewrap_rows k nonces n [] w = ((n, none), w)
rewrap_rows k nonces n (row ∷ rows) w =
    let (r, w') = rewrap_row k (nonces row.id) row w in
    let skipped = rewrap_rows k nonces n rows w in
    let done = rewrap_rows k nonces (suc n) rows w' in
    if not (needs_rewrap k.keyring row.auth_password_sealed)
    then skipped
    else elim r [ ok _ ↦ done | err e ↦ ((n, some e), w') ]

-- `RewrapBackendPasswords`
unfoldable pub rewrap_backend_passwords :
    Keys → (ℕ → Bytes) → (List Backend → List Backend) → World → Rewrapped × World
rewrap_backend_passwords k nonces by_name w =
    let (listed, w') = query (rewrap_list by_name) w in
    elim listed [ err e ↦ ((zero, some e), w') | ok rows ↦ rewrap_rows k nonces zero rows w' ]
