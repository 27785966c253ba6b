-- ===== src/Authn/Token.antt =====
-- The minting and the parsing of an API key.
use relais.Base.{
  sym, ℕ, zero, suc, ◌≡◌, refl, ap, ◌∙◌, true, false, [], ◌∷◌, ◌++◌, none, some, arith, ==_iff,
  is_empty, length, length-append, take, drop, all, all-append, ok,
}
use relais.Text.{Text, cut_prefix, trim_space, is_space}
use relais.FromPattern.RoundTrip.{is_plain, trim_space-plain}
use relais.Crypto.Secret.{
  fingerprint, Digests, Hasher, api_key_prefix, lookup_prefix, lookup_random_chars, separator,
  mint_api_key, parse_body, parse_api_key,
}
use relais.Store.Vault.{api_key_type}
use relais.Store.Session.{World}
use relais.Store.Credentials.{AuthCredential, Secrets}
use relais.Store.Credentials.Operations.{load_credential_by_lookup}
use relais.Authn.{verify_lookup, api_key}
use relais.Authn.Checks.{verify_iff}

cut_prefix-append : (p s : Text) → cut_prefix p (p ++ s) ≡ some s
unfolding cut_prefix
cut_prefix-append [] s = refl
cut_prefix-append (c ∷ p) s = ground (arith, ==_iff c c, cut_prefix-append p s)

take-append : (a b : Text) (n : ℕ) → length a ≡ n → (take n (a ++ b) ≡ a) × (drop n (a ++ b) ≡ b)
take-append [] b zero h = (refl, refl)
take-append (c ∷ a) b (suc n) h =
    let (t, d) = take-append a b n (omega arith) in (ap (λ u. c ∷ u) t, d)
take-append [] b (suc n) h = ground arith
take-append (c ∷ a) b zero h = ground arith

drop_behind : (a : Text) (c : ℕ) (b : Text) (n : ℕ) → length a ≡ n → drop (suc n) (a ++ c ∷ b) ≡ b
drop_behind [] c b zero h = refl
drop_behind (d ∷ a) c b (suc n) h = drop_behind a c b n (omega arith)
drop_behind [] c b (suc n) h = ground arith
drop_behind (d ∷ a) c b zero h = ground arith

-- What `MintAPIKey` draws: a lookup that decodes and a secret, without spaces.
pub record IsDrawn (x : Digests) (lookup_rand secret : Text) : Type 0 where
  pub lookup_size : length lookup_rand ≡ lookup_random_chars
  pub lookup_base32 : x.is_base32 lookup_rand ≡ true
  pub lookup_plain : all is_plain lookup_rand ≡ true
  pub secret_plain : all is_plain secret ≡ true
  pub secret_nonempty : is_empty secret ≡ false

fixed_plain : (all is_plain api_key_prefix ≡ true) × (is_plain separator ≡ true)
unfolding is_space
fixed_plain = (refl, refl)

module _ (x : Digests) (h : Hasher) (lookup_rand secret : Text) where
  parse_body-mint :
      IsDrawn x lookup_rand secret
      → parse_body x (lookup_rand ++ separator ∷ secret)
        ≡ some (lookup_prefix ++ lookup_rand, secret)
  unfolding parse_body
  parse_body-mint d =
      let (front, back) =
        take-append lookup_rand (separator ∷ secret) lookup_random_chars d.lookup_size in
      let behind = drop_behind lookup_rand separator secret lookup_random_chars d.lookup_size in
      rw (front, back, behind)
        (ground (
          arith,
          length-append lookup_rand (separator ∷ secret),
          d.lookup_size,
          d.lookup_base32,
          d.secret_nonempty,
        ))

  parse_api_key-mint :
      IsDrawn x lookup_rand secret
      → parse_api_key x (mint_api_key x h lookup_rand secret).0
        ≡ some ((mint_api_key x h lookup_rand secret).1, secret)
  unfolding parse_api_key mint_api_key
  parse_api_key-mint d =
      let body = lookup_rand ++ separator ∷ secret in
      let plain : all is_plain (api_key_prefix ++ body) ≡ true =
        all-append is_plain api_key_prefix body
        ∙ ground (
          arith,
          fixed_plain,
          all-append is_plain lookup_rand (separator ∷ secret),
          d.lookup_plain,
          d.secret_plain,
        ) in
      let cut_off : cut_prefix api_key_prefix (trim_space (api_key_prefix ++ body)) ≡ some body =
        ap (cut_prefix api_key_prefix) (trim_space-plain (api_key_prefix ++ body) plain)
        ∙ cut_prefix-append api_key_prefix body in
      rw (cut_off, parse_api_key, mint_api_key) (parse_body-mint d)

-- A minted API key authenticates, as its row, whatever enabled and unrevoked API key row the store
-- answers with for the key's lookup and that holds the key's fingerprint, of 32 bytes. The random
-- lookup is assumed to have its length and to decode, the random secret not to be empty, and both
-- to have no spaces and no angle brackets.
pub api_key-mint_api_key :
    (s : Secrets) (lookup_rand secret : Text) (w : World) (auth : AuthCredential)
    → IsDrawn s.digests lookup_rand secret
    → (load_credential_by_lookup s (mint_api_key s.digests s.hasher lookup_rand secret).1 w).0
      ≡ ok auth
    → auth.credential.secret_hmac ≡ (mint_api_key s.digests s.hasher lookup_rand secret).2
    → length auth.credential.secret_hmac ≡ 32
    → auth.credential.kind ≡ api_key_type
    → auth.credential.enabled ≡ true
    → auth.credential.revoked_at ≡ none
    → (api_key s (mint_api_key s.digests s.hasher lookup_rand secret).0 w).0 ≡ ok auth
unfolding api_key verify_lookup mint_api_key fingerprint
api_key-mint_api_key s lookup_rand secret w auth d stored written size kind enabled revoked =
    rw (parse_api_key-mint s.digests s.hasher lookup_rand secret d, api_key)
      ((verify_iff s.digests s.hasher secret api_key_type _ auth).1 (
        stored,
        record {
          size = size;
          secret_fits = sym written;
          kind_fits = kind;
          not_revoked = revoked;
          is_enabled = enabled;
        },
      ))
