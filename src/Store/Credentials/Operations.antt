-- ===== src/Store/Credentials/Operations.antt =====
-- internal/store/credential.go: the operations on credentials.
use relais.Base.{
  ℕ, zero, suc, Bool, true, false, not, ◌&&◌, List, [], Option, none, some, if◌then◌else◌, is_empty,
  is_some, equal, map, Result, ok, err,
}
use relais.Base.Int.{ℤ, is_positive}
use relais.Text.{Text, codes, trim_space, to_lower}
use relais.Crypto.Keyring.{Bytes}
use relais.Crypto.Secret.{mint_api_key, mint_smtp_password, generate_smtp_username}
use relais.FromPattern.Parse.{Pattern}
use relais.FromPattern.Matching.{Patterns, new_set}
use relais.Store.Vault.{CredentialType, api_key_type, smtp_user_type, same_type, CredentialRow}
use relais.Store.Session.{
  StoreError, not_found, validation, failure, conflict, World, Run, ◌>>=◌, ◌>>◌, return, throw,
  query, with_tx,
}
use relais.Store.Credentials.{
  AuthCredential, NewCredential, Created, Secrets, Side, senders, receivers, next_id, add_grants,
  lookup_index, insert_query, list_query, id_query, lookup_query, revoke_query, rotate_query,
  delete_query, ungrant_query,
}

-- `Minted`: the plaintext, the lookup and the fingerprint
abbrev pub Minted : Type 0
Minted = Text × Text × Bytes

abbrev api_key_text : Text
api_key_text = codes "api_key"

abbrev smtp_user_text : Text
smtp_user_text = codes "smtp_user"

abbrev pub read_kind : Text → Option CredentialType
read_kind t =
    if equal t api_key_text
    then some api_key_type
    else if equal t smtp_user_text
    then some smtp_user_type
    else none

-- `if bad { return …, err }`
abbrev pub throw_if : Bool → StoreError → Run (Unit {0})
throw_if true e = throw e
throw_if false e = return tt

-- `if affected == 0`
abbrev pub none_affected : Bool → Run (Unit {0})
none_affected true = return tt
none_affected false = throw not_found

-- the attempts behind the first
abbrev pub lookup_collision_retries : ℕ
lookup_collision_retries = 2

-- Only a collision on a lookup that was drawn here is worth another attempt.
abbrev pub is_collision : CredentialType → StoreError → Bool
is_collision kind (conflict name) = equal name lookup_index && same_type kind api_key_type
is_collision kind e = false

-- `continue`, with the attempts that are left
unfoldable pub retry_collision : {A : Type 0} → CredentialType → (ℕ → Run A) → ℕ → ℕ → Run A
retry_collision kind once zero attempt w = once attempt w
retry_collision kind once (suc left) attempt w =
    let (r, w') = once attempt w in
    elim r [
      | ok a ↦ (ok a, w')
      | err e ↦
          if is_collision kind e
          then retry_collision kind once left (suc attempt) w'
          else (err e, w')
    ]

-- a row that was there a moment ago is gone or revoked
abbrev pub lost_race : {A : Type 0} → Run A → Run A
lost_race m w =
    let (r, w') = m w in
    elim r [ ok a ↦ (ok a, w') | err not_found ↦ (err validation, w') | err e ↦ (err e, w') ]

abbrev pub created : Text → List Text → List Text → CredentialRow → Created
created secret patterns recipients row = record {
  credential = row;
  secret = secret;
  patterns = patterns;
  recipient_patterns = recipients;
}

module _ (s : Secrets) where
  -- `withPatterns`
  unfoldable pub compile : List Text → Run Patterns
  compile raw = elim (new_set s.idna raw) [ ok set ↦ return set | err e ↦ throw validation ]

  unfoldable pub with_patterns : CredentialRow → Run AuthCredential
  with_patterns row = do
    stored ← query (list_query s.sql senders row.id)
    set ← compile stored
    stored_recipients ← query (list_query s.sql receivers row.id)
    recipients ← compile stored_recipients
    return (record { credential = row; patterns = set; recipients = recipients })

  -- `LoadCredentialByLookup`
  unfoldable pub load_credential_by_lookup : Text → Run AuthCredential
  load_credential_by_lookup lookup = do row ← query (lookup_query lookup); with_patterns row

  -- `LoadCredential`
  unfoldable pub load_credential : ℕ → Run AuthCredential
  load_credential id = do row ← query (id_query id); with_patterns row

  abbrev pub bad_rate : Option ℕ → Bool
  bad_rate none = false
  bad_rate (some r) = s.sql.rate_le_zero r

  abbrev pub bad_burst : Option ℤ → Bool
  bad_burst none = false
  bad_burst (some b) = not (is_positive b)

  -- `normalize`: the kind, and the parameters with the texts trimmed
  unfoldable pub normalize : NewCredential → Result StoreError (CredentialType × NewCredential)
  normalize p =
      let name = trim_space p.name in
      let named = record p { name = name; created_by = trim_space p.created_by } in
      if is_empty name
      then err validation
      else elim (read_kind (to_lower s.digests.fold (trim_space p.kind))) [
        | none ↦ err validation
        | some kind ↦
            if same_type kind api_key_type && not (is_empty p.smtp_username)
            then err validation
            else if bad_rate p.rate_limit_rps
            then err validation
            else if bad_burst p.rate_limit_burst
            then err validation
            else ok (kind, named)
      ]

  -- `normalizePatterns`
  unfoldable pub normalize_patterns : List Text → Result StoreError (List Text)
  normalize_patterns raw = elim (new_set s.idna raw) [
    | ok set ↦ ok (map (λ (p : Pattern). p.normalized) set)
    | err e ↦ err validation
  ]

  -- `mintFor`, on what the random source gives
  unfoldable pub mint_for : Option (Text × Text) → CredentialType → Text → Result StoreError Minted
  mint_for none kind username = err failure
  mint_for (some (lookup_rand, secret)) api_key_type username =
      ok (mint_api_key s.digests s.hasher lookup_rand secret)
  mint_for (some (lookup_rand, secret)) smtp_user_type username =
      let name =
        if is_empty (trim_space username) then generate_smtp_username lookup_rand else username in
      elim (mint_smtp_password s.digests s.hasher secret name) [
        | none ↦ err validation
        | some minted ↦ ok minted
      ]

  abbrev pub new_row : NewCredential → CredentialType → Minted → World → CredentialRow
  new_row p kind minted w = record {
    id = w.next_id;
    name = p.name;
    kind = kind;
    lookup = minted.1;
    secret_hmac = minted.2;
    enabled = p.enabled;
    rate_limit_rps = p.rate_limit_rps;
    rate_limit_burst = p.rate_limit_burst;
    created_by = p.created_by;
    created_at = w.now;
    updated_at = w.now;
    revoked_at = none;
  }

  -- the transaction of `CreateCredential`
  unfoldable pub insert_credential :
      NewCredential → CredentialType → List Text → List Text → Minted → Run CredentialRow
  insert_credential p kind patterns recipients minted = with_tx (do
    row ← query (λ w. insert_query s.sql (new_row p kind minted w) w)
    next_id
    add_grants s.sql senders row.id patterns
    add_grants s.sql receivers row.id recipients
    return row)

  -- one round of the loop of `CreateCredential`
  unfoldable pub create_once :
      NewCredential → CredentialType → List Text → List Text → ℕ → Run Created
  create_once p kind patterns recipients attempt w =
      elim (mint_for (s.draws w attempt) kind p.smtp_username) [
        | err e ↦ (err e, w)
        | ok minted ↦
            (do
              row ← insert_credential p kind patterns recipients minted
              return (created minted.0 patterns recipients row))
              w
      ]

  -- `CreateCredential`
  unfoldable pub create_credential : NewCredential → Run Created
  create_credential params = elim (normalize params) [
    | err e ↦ throw e
    | ok (kind, p) ↦ elim (normalize_patterns p.patterns) [
      | err e ↦ throw e
      | ok patterns ↦ elim (normalize_patterns p.recipient_patterns) [
        | err e ↦ throw e
        | ok recipients ↦
            retry_collision kind (create_once p kind patterns recipients) lookup_collision_retries 0
      ]
    ]
  ]

  -- one round of the loop of `RotateCredentialSecret`: the row and the plaintext
  unfoldable pub rotate_once : CredentialRow → ℕ → Run (CredentialRow × Text)
  rotate_once existing attempt w =
      elim (mint_for (s.draws w attempt) existing.kind existing.lookup) [
        | err e ↦ (err e, w)
        | ok minted ↦
            (do
              row ← query (rotate_query s.sql existing.id minted.1 minted.2)
              return (row, minted.0))
              w
      ]

  -- `RotateCredentialSecret`
  unfoldable pub rotate_credential_secret : ℕ → Run Created
  rotate_credential_secret id = do
    existing ← query (id_query id)
    throw_if (is_some existing.revoked_at) validation
    rotated ←
        lost_race (retry_collision existing.kind (rotate_once existing) lookup_collision_retries 0)
    patterns ← query (list_query s.sql senders id)
    return (created rotated.1 patterns [] rotated.0)

  -- `AddPatterns` and `AddRecipientPatterns`
  unfoldable pub add_patterns : Side → ℕ → List Text → Run (List Text)
  add_patterns side id raw = elim (normalize_patterns raw) [
    | err e ↦ throw e
    | ok patterns ↦ do
      throw_if (is_empty patterns) validation
      with_tx (add_grants s.sql side id patterns)
      return patterns
  ]

-- `RevokeCredential`
unfoldable pub revoke_credential : ℕ → Run CredentialRow
revoke_credential id = query (revoke_query id)

-- `DeleteCredential`
unfoldable pub delete_credential : ℕ → Run (Unit {0})
delete_credential id = do affected ← query (delete_query id); none_affected affected

-- `RemovePattern` and `RemoveRecipientPattern`
unfoldable pub remove_pattern : Side → ℕ → ℕ → Run (Unit {0})
remove_pattern side owner id = do
  affected ← query (ungrant_query side owner id)
  none_affected affected
