-- ===== src/Examples/Login.antt =====
-- Runs of the authentication and of the operations on credentials.
use relais.Base.{◌≡◌, ◌↔◌, refl, false, [], ◌∷◌, some, ◌==◌, arith, Result, ok, err}
use relais.Text.{Text, codes, is_space}
use relais.Crypto.Secret.{mint_api_key, fingerprint}
use relais.Store.Vault.{CredentialRow, smtp_user_type, find_lookup, find_credential, patterns_of}
use relais.Store.Rows.{queued}
use relais.Store.Session.{StoreError, failure, World, query}
use relais.Store.Credentials.{AuthCredential}
use relais.Store.Credentials.Operations.{
  load_credential_by_lookup, with_patterns, compile, revoke_credential,
}
use relais.FromPattern.Matching.{new_set_onto}
use relais.Authn.{verify, api_key, smtp_user}
use relais.Authn.Checks.{Passes, verify_iff}
use relais.Authn.Token.{api_key-mint_api_key}
use relais.Authn.Revoked.{rotates, run, revoke-Final}
use relais.Examples.Samples.{credential_row, digests, hasher, secrets, world_of}

abbrev auth : AuthCredential
auth = record { credential = credential_row; patterns = []; recipients = [] }

abbrev stored : Result StoreError AuthCredential
stored = ok auth

abbrev lost : Result StoreError AuthCredential
lost = err failure

-- no pattern is stored
abbrev bare : World
bare =
    let w = world_of queued [] in
    record w { db = record (w.db) { from_patterns = []; recipient_patterns = [] } }

api_key-mint_api_key_example :
    (api_key secrets
      (mint_api_key digests hasher (codes "abcdefghijkl") (codes "se_cret")).0
      bare).0
    ≡ ok auth
unfolding is_space mint_api_key fingerprint load_credential_by_lookup with_patterns compile query
    find_lookup patterns_of new_set_onto
api_key-mint_api_key_example =
    api_key-mint_api_key secrets (codes "abcdefghijkl") (codes "se_cret") bare auth
      (record {
        lookup_size = refl;
        lookup_base32 = refl;
        lookup_plain = refl;
        secret_plain = refl;
        secret_nonempty = refl;
      })
      refl refl refl refl refl refl

verify_iff_example :
    (verify digests hasher (codes "secret") smtp_user_type stored ≡ ok auth)
    ↔ ((stored ≡ ok auth) × Passes digests hasher (codes "secret") smtp_user_type auth)
verify_iff_example = verify_iff digests hasher (codes "secret") smtp_user_type stored auth

abbrev revoked : CredentialRow
revoked = record credential_row { revoked_at = some 100; enabled = false }

-- a rotation does not bring it back
revoke-Final_example :
    ((token : Text)
      → (api_key secrets token (run secrets (rotates 7 ∷ []) (revoke_credential 7 bare).1)).0
        ≡ ok auth
      → (auth.credential.id == 7) ≡ false)
    × ((username password : Text)
        → (smtp_user secrets username password
            (run secrets (rotates 7 ∷ []) (revoke_credential 7 bare).1)).0
          ≡ ok auth
        → (auth.credential.id == 7) ≡ false)
unfolding revoke_credential query find_credential
revoke-Final_example = revoke-Final secrets 7 bare revoked (rotates 7 ∷ []) (omega arith) refl auth
