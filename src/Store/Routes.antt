-- ===== src/Store/Routes.antt =====
-- internal/store/domain.go and the routes of internal/store/email.go: which relay carries a message.
use relais.Base.{
  ℕ, Bool, not, ◌&&◌, ◌||◌, List, [], ◌∷◌, Option, none, some, ltb, if◌then◌else◌, is_empty, equal,
  length, Result, ok, err,
}
use relais.Text.{Text}
use relais.Crypto.Keyring.{Ciphers, Keyring, KeyError, open_envelope}
use relais.FromPattern.Normalize.{Idna, invalid_address, normalize_domain, dot}
use relais.FromPattern.Matching.{has_suffix}
use relais.Store.Rows.{Message, Backend, Domain, Db, find_backend}
use relais.Store.Session.{
  StoreError, not_found, validation, failure, World, Run, ◌>>=◌, return, throw, query,
}

-- `SenderRoute`. The password is the text that the keyring opened.
pub record SenderRoute : Type 0 where
  pub domain_id : ℕ
  pub domain_name : Text
  pub backend_id : ℕ
  pub backend_name : Text
  pub host : Text
  pub port : ℕ
  pub tls_mode : Text
  pub auth_user : Text
  pub auth_password : Text
  pub helo_name : Text
  pub max_concurrency : ℕ

-- `SenderRoute.UsesAuth`
abbrev pub uses_auth : SenderRoute → Bool
uses_auth r = not (is_empty r.auth_user) && not (is_empty r.auth_password)

abbrev pub route_of : ℕ → Text → Backend → Text → SenderRoute
route_of domain_id domain_name b password = record {
  domain_id = domain_id;
  domain_name = domain_name;
  backend_id = b.id;
  backend_name = b.name;
  host = b.host;
  port = b.port;
  tls_mode = b.tls_mode;
  auth_user = b.auth_user;
  auth_password = password;
  helo_name = b.helo_name;
  max_concurrency = b.max_concurrency;
}

-- What the store was built with: the ciphers, the keyring and the domain tables; and the texts of
-- its errors, which the worker copies into the row.
pub record Keys : Type 0 where
  pub ciphers : Ciphers
  pub keyring : Keyring
  pub idna : Idna
  pub describe : StoreError → Text

-- `OpenBackendPassword`
unfoldable pub open_backend_password : Keys → Text → Result KeyError Text
open_backend_password k sealed =
    if is_empty sealed then ok [] else open_envelope k.ciphers k.keyring sealed

-- `GetSenderRouteForBackend`
abbrev pub backend_query : ℕ → World → Result StoreError (Backend × Db)
backend_query id w = elim (find_backend id w.db.backends) [
  | none ↦ err not_found
  | some b ↦ ok (b, w.db)
]

-- `RouteForMessage` on the row that it read, with `Enabled`
abbrev pub opened_route : Keys → Message → Backend → Run (SenderRoute × Bool)
opened_route k m b = elim (open_backend_password k b.auth_password_sealed) [
  | err _ ↦ throw failure
  | ok password ↦ return (route_of 0 m.from_domain b password, b.enabled)
]

-- `RouteForMessage`
unfoldable pub route_for_message : Keys → Message → Run (SenderRoute × Bool)
route_for_message k m = elim m.smtp_backend_id [
  | none ↦ throw not_found
  | some id ↦ do b ← query (backend_query id); opened_route k m b
]

-- The condition of `ResolveSenderDomain` on a domain row, its backend's flag apart. Names hold no
-- `%` and no `_`, so `LIKE '%.' || name` is a test for a suffix.
unfoldable pub covers_sender : Text → Domain → Bool
covers_sender sender d =
    d.enabled && (equal d.name sender || d.include_subdomains && has_suffix sender (dot ∷ d.name))

-- `ORDER BY length(d.name) DESC LIMIT 1`: the row with the longest name, with its backend.
abbrev pub longer : Option (Domain × Backend) → Domain × Backend → Option (Domain × Backend)
longer none c = some c
longer (some b) c = if ltb (length b.0.name) (length c.0.name) then some c else some b

-- the rows of the join that pass the condition, kept to the best one
unfoldable pub resolve_onto :
    Text → List Backend → Option (Domain × Backend) → List Domain → Option (Domain × Backend)
resolve_onto sender bs best [] = best
resolve_onto sender bs best (d ∷ ds) =
    let next : Option (Domain × Backend) = elim (find_backend d.smtp_backend_id bs) [
      | none ↦ best
      | some b ↦ if b.enabled && covers_sender sender d then longer best (d, b) else best
    ] in
    resolve_onto sender bs next ds

-- `ResolveSenderDomain`
unfoldable pub resolve_sender_domain : Text → Run (Domain × Backend)
resolve_sender_domain sender = query λ w.
    elim (resolve_onto sender w.db.backends none w.db.domains) [
      | none ↦ err not_found
      | some row ↦ ok (row, w.db)
    ]

-- `ResolveSender`
unfoldable pub resolve_sender : Keys → Text → Run SenderRoute
resolve_sender k sender = elim (normalize_domain k.idna sender invalid_address) [
  | err _ ↦ throw failure
  | ok normalized ↦ do
    row ← resolve_sender_domain normalized
    elim (open_backend_password k row.1.auth_password_sealed) [
      | err _ ↦ throw validation
      | ok password ↦ return (route_of row.0.id row.0.name row.1 password)
    ]
]
