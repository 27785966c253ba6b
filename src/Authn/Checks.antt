-- ===== src/Authn/Checks.antt =====
-- Which answers of the store authenticate a secret.
use mathlib.Core.Path.{subst}
use relais.Base.{
  ap, ◌∙◌, ◌≡◌, ◌≢◌, ◌↔◌, refl, true, false, arith, is_some, none, length, equal_iff, Result, ok,
  err,
}
use relais.Text.{Text}
use relais.Crypto.Keyring.{Bytes}
use relais.Store.Session.{
  reference, constraint, StoreError, not_found, validation, failure, conflict,
}
use relais.Crypto.Secret.{Digests, Hasher, fingerprint, verify_secret}
use relais.Store.Vault.{CredentialType, api_key_type, smtp_user_type, same_type}
use relais.Store.Credentials.{AuthCredential}
use relais.Authn.{unavailable, verify}

-- The row is that of an enabled and unrevoked credential of this kind, and holds the HMAC of the
-- secret, of 32 bytes.
pub record Passes (x : Digests) (h : Hasher) (secret : Text) (want : CredentialType)
    (c : AuthCredential) : Type 0 where
  pub size : length c.credential.secret_hmac ≡ 32
  pub secret_fits : x.hmac h.pepper secret ≡ c.credential.secret_hmac
  pub kind_fits : c.credential.kind ≡ want
  pub not_revoked : c.credential.revoked_at ≡ none
  pub is_enabled : c.credential.enabled ≡ true

verify_secret_iff :
    (x : Digests) (h : Hasher) (secret : Text) (stored : Bytes)
    → (verify_secret x h secret stored ≡ true)
      ↔ ((length stored ≡ 32) × (x.hmac h.pepper secret ≡ stored))
unfolding verify_secret fingerprint
verify_secret_iff x h secret stored = ground (arith, equal_iff (x.hmac h.pepper secret) stored)

same_type_iff : (a b : CredentialType) → (same_type a b ≡ true) ↔ (a ≡ b)
same_type_iff api_key_type api_key_type = ground arith
same_type_iff api_key_type smtp_user_type = ground arith
same_type_iff smtp_user_type api_key_type = ground arith
same_type_iff smtp_user_type smtp_user_type = ground arith

module _ (x : Digests) (h : Hasher) (secret : Text) (want : CredentialType) where
  row-Passes :
      (c d : AuthCredential)
      → verify x h secret want (ok c) ≡ ok d
      → (c ≡ d) × Passes x h secret want c
  unfolding verify
  row-Passes c d e =
      let r = c.credential in
      let fits : verify_secret x h secret r.secret_hmac ≡ true = ground arith in
      let kind : same_type r.kind want ≡ true = ground arith in
      let (size, secret_fits) = (verify_secret_iff x h secret r.secret_hmac).0 fits in
      (
        ground arith,
        record {
          size = size;
          secret_fits = secret_fits;
          kind_fits = (same_type_iff r.kind want).0 kind;
          not_revoked = ground arith;
          is_enabled = ground arith;
        },
      )

  Passes-row :
      (c : AuthCredential) → Passes x h secret want c → verify x h secret want (ok c) ≡ ok c
  unfolding verify
  Passes-row c p =
      let r = c.credential in
      let fits : verify_secret x h secret r.secret_hmac ≡ true =
        (verify_secret_iff x h secret r.secret_hmac).1 (p.size, p.secret_fits) in
      let kind : same_type r.kind want ≡ true = (same_type_iff r.kind want).1 p.kind_fits in
      let current : is_some r.revoked_at ≡ false = ground (arith, p.not_revoked) in
      ground (arith, fits, kind, current, p.is_enabled)

  verified :
      (loaded : Result StoreError AuthCredential) (d : AuthCredential)
      → verify x h secret want loaded ≡ ok d
      → (loaded ≡ ok d) × Passes x h secret want d
  unfolding verify
  verified (ok c) d e =
      let (same, p) = row-Passes c d e in (ap ok same, subst (Passes x h secret want) same p)
  verified (err not_found) d e = cc
  verified (err validation) d e = cc
  verified (err failure) d e = cc
  verified (err reference) d e = cc
  verified (err constraint) d e = cc
  verified (err (conflict n)) d e = cc

-- `verify` gives back a row exactly if the store has answered with this row, the row holds the
-- HMAC of the secret under the pepper, of 32 bytes, it is of the kind that is wanted, and it is
-- neither revoked nor disabled.
pub verify_iff :
    (x : Digests) (h : Hasher) (secret : Text) (want : CredentialType)
    (loaded : Result StoreError AuthCredential) (c : AuthCredential)
    → (verify x h secret want loaded ≡ ok c) ↔ ((loaded ≡ ok c) × Passes x h secret want c)
verify_iff x h secret want loaded c = (
  verified x h secret want loaded c,
  λ p. ap (verify x h secret want) p.0 ∙ Passes-row x h secret want c p.1,
)

-- `verify` reports an error other than a failed authentication exactly if the store has answered
-- with an error other than a missing row.
pub verify-unavailable :
    (x : Digests) (h : Hasher) (secret : Text) (want : CredentialType)
    (loaded : Result StoreError AuthCredential)
    → (verify x h secret want loaded ≡ err unavailable)
      ↔ ((e : StoreError) × (loaded ≡ err e) × (e ≢ not_found))
unfolding verify
verify-unavailable x h secret want (ok c) = ground arith
verify-unavailable x h secret want (err not_found) = ground arith
verify-unavailable x h secret want (err validation) =
    ((λ e. (validation, refl, λ n. cc)), (λ p. refl))
verify-unavailable x h secret want (err failure) = ((λ e. (failure, refl, λ n. cc)), (λ p. refl))
verify-unavailable x h secret want (err reference) =
    ((λ e. (reference, refl, λ n. cc)), (λ p. refl))
verify-unavailable x h secret want (err constraint) =
    ((λ e. (constraint, refl, λ n. cc)), (λ p. refl))
verify-unavailable x h secret want (err (conflict n)) =
    ((λ e. (conflict n, refl, λ n. cc)), (λ p. refl))
