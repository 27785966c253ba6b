-- ===== src/Crypto/Secret.antt =====
-- internal/crypto/secret.go: the secrets of credentials.
-- Every malformed secret is `none`, since the callers treat them alike. A token is a list of code
-- points: an offset into it is the one in bytes as long as base32 refuses what is not ASCII, and
-- otherwise the token is malformed either way.
use relais.Base.{
  ℕ, suc, Bool, false, not, ◌&&◌, ◌||◌, [], ◌∷◌, ◌++◌, Option, none, some, ltb, leb, ◌==◌,
  if◌then◌else◌, is_empty, equal, length, take, drop, all,
}
use relais.Text.{Text, codes, within, trim_space, to_lower, cut_prefix}
use relais.Crypto.Keyring.{Bytes}

-- `crypto/hmac` with SHA-256, `unicode.ToLower` beyond ASCII, and base32 in the alphabet of the
-- lookups, as far as it tells whether a text decodes.
pub record Digests : Type 0 where
  pub hmac : Bytes → Text → Bytes
  pub fold : ℕ → ℕ
  pub is_base32 : Text → Bool

-- `Hasher`
pub record Hasher : Type 0 where
  pub pepper : Bytes

abbrev pub api_key_prefix : Text
api_key_prefix = codes "relais_sk_"

abbrev pub lookup_prefix : Text
lookup_prefix = codes "k_"

abbrev pub lookup_random_chars : ℕ
lookup_random_chars = 12

abbrev pub separator : ℕ
separator = b'_'

module _ (x : Digests) where
  -- `Fingerprint`
  unfoldable pub fingerprint : Hasher → Text → Bytes
  fingerprint h secret = x.hmac h.pepper secret

  -- `Verify` of a hasher
  unfoldable pub verify_secret : Hasher → Text → Bytes → Bool
  verify_secret h secret stored = length stored == 32 && equal (fingerprint h secret) stored

  -- `MintAPIKey`, on the two random texts: the token, the lookup and the fingerprint
  unfoldable pub mint_api_key : Hasher → Text → Text → Text × Text × Bytes
  mint_api_key h lookup_rand secret = (
    api_key_prefix ++ (lookup_rand ++ separator ∷ secret),
    lookup_prefix ++ lookup_rand,
    fingerprint h secret,
  )

  -- `ParseAPIKey` behind the prefix
  unfoldable pub parse_body : Text → Option (Text × Text)
  parse_body body =
      let lookup_rand = take lookup_random_chars body in
      let secret = drop (suc lookup_random_chars) body in
      if ltb (length body) (suc lookup_random_chars)
      then none
      else if not (equal (take 1 (drop lookup_random_chars body)) (separator ∷ []))
      then none
      else if is_empty secret || not (x.is_base32 lookup_rand)
      then none
      else some (lookup_prefix ++ lookup_rand, secret)

  -- `ParseAPIKey`
  unfoldable pub parse_api_key : Text → Option (Text × Text)
  parse_api_key token = elim (cut_prefix api_key_prefix (trim_space token)) [
    | none ↦ none
    | some body ↦ parse_body body
  ]

  abbrev pub is_username_start : ℕ → Bool
  is_username_start c = within b'a' b'z' c || within b'0' b'9' c

  abbrev pub is_username_char : ℕ → Bool
  is_username_char c = is_username_start c || c == b'.' || c == b'_' || c == b'-'

  -- `smtpUsernamePattern`
  unfoldable pub is_smtp_username : Text → Bool
  is_smtp_username [] = false
  is_smtp_username (c ∷ s) =
      is_username_start c && leb 2 (length s) && leb (length s) 63 && all is_username_char s

  -- `NormalizeSMTPUsername`
  unfoldable pub normalize_smtp_username : Text → Option Text
  normalize_smtp_username username =
      let normalized = to_lower x.fold (trim_space username) in
      if is_smtp_username normalized then some normalized else none

  -- `MintSMTPPassword`, on the random secret: the plaintext, the lookup and the fingerprint
  unfoldable pub mint_smtp_password : Hasher → Text → Text → Option (Text × Text × Bytes)
  mint_smtp_password h secret username = elim (normalize_smtp_username username) [
    | none ↦ none
    | some normalized ↦ some (secret, normalized, fingerprint h secret)
  ]

-- `GenerateSMTPUsername`, on the random suffix
abbrev pub generate_smtp_username : Text → Text
generate_smtp_username suffix = codes "relais_" ++ suffix
