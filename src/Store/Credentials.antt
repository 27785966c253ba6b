-- ===== src/Store/Credentials.antt =====
-- internal/store/credential.go: the credentials and their lists of patterns. Left out are the lists of
-- rows for display.
pub mod Operations
pub mod Revoked
pub mod Revocation
use relais.Base.{
  ℕ, zero, suc, Bool, true, false, not, ◌&&◌, ◌||◌, List, [], ◌∷◌, ◌++◌, Option, none, some, ltb,
  ◌==◌, if◌then◌else◌, is_empty, is_some, equal, any, map, Result, ok, err,
}
use relais.Base.Int.{ℤ, is_positive}
use relais.Text.{Text, codes, trim_space, to_lower}
use relais.Crypto.Keyring.{Bytes}
use relais.Crypto.Secret.{Digests, Hasher, mint_api_key, mint_smtp_password, generate_smtp_username}
use relais.FromPattern.Normalize.{Idna}
use relais.FromPattern.Matching.{Patterns, new_set}
use relais.Store.Vault.{
  CredentialType, api_key_type, smtp_user_type, same_type, CredentialRow, Grant, Sql,
  find_credential, find_lookup, update_credential, delete_row, revoked_row, rotated_row,
  patterns_of, is_granted, delete_grants_of, delete_grant, check_row, check_pattern,
}
use relais.Store.Rows.{Message, Db}
use relais.Store.Session.{
  StoreError, not_found, validation, failure, reference, constraint, conflict, World, Run, ◌>>=◌,
  ◌>>◌, return, throw, query, with_tx,
}

-- `AuthCredential`: the row, and its two compiled lists
pub record AuthCredential : Type 0 where
  pub credential : CredentialRow
  pub patterns : Patterns
  pub recipients : Patterns

-- `NewCredentialParams`
pub record NewCredential : Type 0 where
  pub name : Text
  pub kind : Text
  pub smtp_username : Text
  pub patterns : List Text
  pub recipient_patterns : List Text
  pub rate_limit_rps : Option ℕ
  pub rate_limit_burst : Option ℤ
  pub created_by : Text
  pub enabled : Bool

-- `CreatedCredential`
pub record Created : Type 0 where
  pub credential : CredentialRow
  pub secret : Text
  pub patterns : List Text
  pub recipient_patterns : List Text

-- `Store`, as far as the credentials need it. `draws` is what the random source gives at each attempt,
-- of a call that finds this world: the text for a lookup and that for a secret.
pub record Secrets : Type 0 where
  pub digests : Digests
  pub hasher : Hasher
  pub idna : Idna
  pub sql : Sql
  pub draws : World → ℕ → Option (Text × Text)

-- the `AddFromPattern` table or the `AddRecipientPattern` table
pub data Side : Type 0 where
  senders receivers : Side

abbrev pub grants : Side → Db → List Grant
grants senders db = db.from_patterns
grants receivers db = db.recipient_patterns

abbrev pub put_grants : Side → List Grant → Db → Db
put_grants senders gs db = record db { from_patterns = gs }
put_grants receivers gs db = record db { recipient_patterns = gs }

-- the id that the database has given to a row is not given again
abbrev pub next_id : Run (Unit {0})
next_id w = (ok tt, record w { next_id = suc w.next_id })

-- `AddFromPattern` and `AddRecipientPattern`
abbrev pub grant_query : Sql → Side → ℕ → Text → World → Result StoreError (Unit {0} × Db)
grant_query q side id pattern w =
    let g : Grant = record { id = w.next_id; credential_id = id; pattern = pattern } in
    if not (check_pattern q pattern)
    then err constraint
    else if is_granted id pattern (grants side w.db)
    then ok (tt, w.db)
    else if not (is_some (find_credential id w.db.credentials))
    then err reference
    else ok (tt, put_grants side (grants side w.db ++ g ∷ []) w.db)

-- the loops over the patterns
unfoldable pub add_grants : Sql → Side → ℕ → List Text → Run (Unit {0})
add_grants q side id [] = return tt
add_grants q side id (p ∷ ps) = do query (grant_query q side id p); next_id; add_grants q side id ps

abbrev pub lookup_index : Text
lookup_index = codes "credential_lookup_key"

-- `CreateCredential` of the queries
abbrev pub insert_query : Sql → CredentialRow → World → Result StoreError (CredentialRow × Db)
insert_query q c w =
    if not (check_row q c)
    then err constraint
    else if any (λ d. equal d.lookup c.lookup) w.db.credentials
    then err (conflict lookup_index)
    else if any (λ d. equal (q.lower d.name) (q.lower c.name)) w.db.credentials
    then err (conflict (codes "credential_name_key"))
    else ok (c, record (w.db) { credentials = w.db.credentials ++ c ∷ [] })

-- what `ListFromPatterns` and `ListRecipientPatterns` return
abbrev pub list_query : Sql → Side → ℕ → World → Result StoreError (List Text × Db)
list_query q side id w = ok (q.order (patterns_of id (grants side w.db)), w.db)

abbrev pub found : Option CredentialRow → World → Result StoreError (CredentialRow × Db)
found none w = err not_found
found (some c) w = ok (c, w.db)

abbrev pub id_query : ℕ → World → Result StoreError (CredentialRow × Db)
id_query id w = found (find_credential id w.db.credentials) w

abbrev pub lookup_query : Text → World → Result StoreError (CredentialRow × Db)
lookup_query lookup w = found (find_lookup lookup w.db.credentials) w

-- `RevokeCredential` of the queries
abbrev pub revoke_query : ℕ → World → Result StoreError (CredentialRow × Db)
revoke_query id w = elim (find_credential id w.db.credentials) [
  | none ↦ err not_found
  | some c ↦ ok (
    revoked_row w.now c,
    record (w.db) { credentials = update_credential id (revoked_row w.now) w.db.credentials },
  )
]

-- `RotateCredentialSecret` of the queries, on the row that its `WHERE` finds
abbrev pub rotate_row :
    Sql → CredentialRow → Text → Bytes → World → Result StoreError (CredentialRow × Db)
rotate_row q c lookup hmac w =
    let row = rotated_row lookup hmac w.now c in
    if is_some c.revoked_at
    then err not_found
    else if not (check_row q row)
    then err constraint
    else if any (λ d. not (d.id == c.id) && equal d.lookup lookup) w.db.credentials
    then err (conflict lookup_index)
    else ok (
      row,
      record (w.db) {
        credentials = update_credential c.id (rotated_row lookup hmac w.now) w.db.credentials;
      },
    )

abbrev pub rotate_query : Sql → ℕ → Text → Bytes → World → Result StoreError (CredentialRow × Db)
rotate_query q id lookup hmac w = elim (find_credential id w.db.credentials) [
  | none ↦ err not_found
  | some c ↦ rotate_row q c lookup hmac w
]

-- `ON DELETE SET NULL`
unfoldable pub forget : ℕ → List Message → List Message
forget id [] = []
forget id (m ∷ ms) =
    let of_it : Bool = elim m.credential_id [ none ↦ false | some c ↦ c == id ] in
    (if of_it then record m { credential_id = none } else m) ∷ forget id ms

-- `DeleteCredential` of the queries: the number of rows
abbrev pub delete_query : ℕ → World → Result StoreError (Bool × Db)
delete_query id w = elim (find_credential id w.db.credentials) [
  | none ↦ ok (false, w.db)
  | some c ↦ ok (
    true,
    record (w.db) {
      credentials = delete_row id w.db.credentials;
      from_patterns = delete_grants_of id w.db.from_patterns;
      recipient_patterns = delete_grants_of id w.db.recipient_patterns;
      messages = forget id w.db.messages;
    },
  )
]

-- `DeleteFromPattern` and `DeleteRecipientPattern`
abbrev pub ungrant_query : Side → ℕ → ℕ → World → Result StoreError (Bool × Db)
ungrant_query side owner id w = ok (
  any (λ g. g.credential_id == owner && g.id == id) (grants side w.db),
  put_grants side (delete_grant owner id (grants side w.db)) w.db,
)
