-- ===== src/Authn.antt =====
-- internal/authn/authn.go: who presents a secret. The dummy check of an unknown secret has no effect.
pub mod Checks
pub mod Token
pub mod Revoked
pub mod Reads
use relais.Base.{
  Bool, true, false, not, ◌||◌, Option, none, some, ltb, if◌then◌else◌, is_empty, is_some, equal,
  take, drop, Result, ok, err,
}
use relais.Text.{Text, codes, len, trim_space, to_lower}
use relais.Crypto.Secret.{Digests, Hasher, verify_secret, parse_api_key, normalize_smtp_username}
use relais.Store.Vault.{CredentialType, api_key_type, smtp_user_type, same_type}
use relais.Store.Session.{StoreError, not_found, World}
use relais.Store.Credentials.{AuthCredential, Secrets}
use relais.Store.Credentials.Operations.{load_credential_by_lookup}

-- `ErrUnauthenticated`, and every other error
pub data AuthError : Type 0 where
  unauthenticated unavailable : AuthError

-- `BearerToken`
unfoldable pub bearer_token : Text → Result AuthError Text
bearer_token header =
    let value = trim_space header in
    let token = trim_space (drop 7 value) in
    if is_empty value
    then err unauthenticated
    else if ltb (len value) 7 || not (equal (to_lower (λ c. c) (take 7 value)) (codes "bearer "))
    then err unauthenticated
    else if is_empty token
    then err unauthenticated
    else ok token

module _ (x : Digests) where
  -- `verify` on what the store answered
  unfoldable pub verify :
      Hasher
      → Text
      → CredentialType
      → Result StoreError AuthCredential
      → Result AuthError AuthCredential
  verify h secret want (err not_found) = err unauthenticated
  verify h secret want (err e) = err unavailable
  verify h secret want (ok auth) =
      let c = auth.credential in
      if not (verify_secret x h secret c.secret_hmac)
      then err unauthenticated
      else if not (same_type c.kind want)
      then err unauthenticated
      else if is_some c.revoked_at
      then err unauthenticated
      else if not c.enabled
      then err unauthenticated
      else ok auth

module _ (s : Secrets) where
  -- `verify`
  unfoldable pub verify_lookup :
      Text → Text → CredentialType → World → Result AuthError AuthCredential × World
  verify_lookup lookup secret want w =
      let (loaded, w') = load_credential_by_lookup s lookup w in
      (verify s.digests s.hasher secret want loaded, w')

  -- `APIKey`
  unfoldable pub api_key : Text → World → Result AuthError AuthCredential × World
  api_key token w = elim (parse_api_key s.digests token) [
    | none ↦ (err unauthenticated, w)
    | some (lookup, secret) ↦ verify_lookup lookup secret api_key_type w
  ]

  -- `SMTPUser`
  unfoldable pub smtp_user : Text → Text → World → Result AuthError AuthCredential × World
  smtp_user username password w = elim (normalize_smtp_username s.digests username) [
    | none ↦ (err unauthenticated, w)
    | some lookup ↦ verify_lookup lookup password smtp_user_type w
  ]
