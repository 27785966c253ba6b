-- ===== src/Crypto/Keyring.antt =====
-- internal/crypto/keyring.go: the keys, and the sealed envelope `v1:<key id>:<payload>`.
use relais.Base.{
  ℕ, Bool, false, not, ◌&&◌, ◌||◌, List, [], ◌∷◌, ◌++◌, Option, none, some, ltb, leb, ◌==◌,
  if◌then◌else◌, all, is_empty, length, take, drop, is_some, equal, Result, ok, err, ◌>>=◌, ◌>>◌,
  refuse_if,
}
use relais.Text.{Text, codes, within, trim_space, split}

abbrev pub Bytes : Type 0
Bytes = List ℕ

-- `crypto/aes`, `crypto/cipher` and `encoding/base64`. A key is known by its bytes.
pub record Ciphers : Type 0 where
  pub nonce_size : ℕ
  pub seal : Bytes → Bytes → Bytes → Text → Bytes
  pub open_sealed : Bytes → Bytes → Bytes → Text → Option Bytes
  pub encode : Bytes → Text
  pub decode : Text → Option Bytes
  pub decode_raw : Text → Option Bytes

pub data KeyError : Type 0 where
  malformed_entry invalid_id duplicate_id bad_base64 bad_length : KeyError
  no_key active_unset active_unknown : KeyError
  not_sealed unknown_key not_authentic : KeyError

pub record Keyring : Type 0 where
  pub keys : List (Text × Bytes)
  pub active_id : Text

abbrev pub key_size : ℕ
key_size = 32

abbrev pub colon : ℕ
colon = b':'

abbrev pub sealed_version : Text
sealed_version = codes "v1"

-- `strings.Cut(s, c)`, for one character
unfoldable pub cut : ℕ → Text → Option (Text × Text)
cut c [] = none
cut c (x ∷ s) =
    let rest = cut c s in
    if x == c
    then some ([], s)
    else elim rest [ none ↦ none | some (before, behind) ↦ some (x ∷ before, behind) ]

-- `k.keys[id]`
unfoldable pub find_key : Text → List (Text × Bytes) → Option Bytes
find_key id [] = none
find_key id ((j, key) ∷ keys) = if equal j id then some key else find_key id keys

-- `keyIDPattern`
unfoldable pub is_key_id : Text → Bool
is_key_id id =
    not (is_empty id)
    && leb (length id) 16
    && all
        (λ c.
          within b'A' b'Z' c || within b'a' b'z' c || within b'0' b'9' c || c == b'_' || c == b'-')
        id

-- padded base64, and raw base64 if that fails
abbrev decode_any : Option Bytes → Option Bytes → Option Bytes
decode_any none raw = raw
decode_any (some key) raw = some key

module _ (x : Ciphers) where
  -- `decodeKey`
  unfoldable pub decode_key : Text → Result KeyError Bytes
  decode_key encoded = elim (decode_any (x.decode encoded) (x.decode_raw encoded)) [
    | none ↦ err bad_base64
    | some key ↦ if length key == key_size then ok key else err bad_length
  ]

  -- one round of the loop of `ParseKeyring`, on a trimmed entry with a colon
  unfoldable pub add_entry :
      Text → Text → List (Text × Bytes) → Result KeyError (List (Text × Bytes))
  add_entry raw_id key_b64 keys = do
    let id = trim_space raw_id
    refuse_if (not (is_key_id id)) invalid_id
    refuse_if (is_some (find_key id keys)) duplicate_id
    key ← decode_key (trim_space key_b64)
    ok (keys ++ (id, key) ∷ [])

  unfoldable pub entry_keys : Text → List (Text × Bytes) → Result KeyError (List (Text × Bytes))
  entry_keys entry keys = if is_empty entry then ok keys else elim (cut colon entry) [
    | none ↦ err malformed_entry
    | some (id, key) ↦ add_entry id key keys
  ]

  -- the loop of `ParseKeyring`
  unfoldable pub parse_entries :
      List (Text × Bytes) → List Text → Result KeyError (List (Text × Bytes))
  parse_entries keys [] = ok keys
  parse_entries keys (raw ∷ entries) = do
    keys' ← entry_keys (trim_space raw) keys
    parse_entries keys' entries

-- the final `switch` of `ParseKeyring`; with one key, `lastID` is its id
unfoldable pub choose_active : List (Text × Bytes) → Text → Result KeyError Keyring
unfolding find_key
choose_active [] active = err no_key
choose_active ((id, key) ∷ []) [] = ok (record { keys = (id, key) ∷ []; active_id = id })
choose_active (k ∷ l ∷ keys) [] = err active_unset
choose_active (k ∷ keys) (c ∷ active) =
    if is_some (find_key (c ∷ active) (k ∷ keys))
    then ok (record { keys = k ∷ keys; active_id = c ∷ active })
    else err active_unknown

-- `ParseKeyring`
unfoldable pub parse_keyring : Ciphers → Text → Text → Result KeyError Keyring
parse_keyring x spec active = do
  keys ← parse_entries x [] (split b',' spec)
  choose_active keys active

-- `associatedData`
abbrev pub associated_data : Text → Text
associated_data id = sealed_version ++ colon ∷ id

-- `Keyring.Seal`, the nonce being what `rand.Read` gave
unfoldable pub seal_with : Ciphers → Keyring → Bytes → Bytes → Result KeyError Text
seal_with x k nonce plaintext = elim (find_key k.active_id k.keys) [
  | none ↦ err unknown_key
  | some key ↦ ok (
      sealed_version
      ++ colon
        ∷ (k.active_id
            ++ colon
              ∷ x.encode (nonce ++ x.seal key nonce plaintext (associated_data k.active_id))))
]

-- `splitEnvelope`: `strings.SplitN(envelope, ":", 3)`, and no part empty
unfoldable pub split_envelope : Text → Result KeyError (Text × Text × Text)
split_envelope envelope = elim (cut colon envelope) [
  | none ↦ err not_sealed
  | some (version, rest) ↦ elim (cut colon rest) [
    | none ↦ err not_sealed
    | some (id, payload) ↦
        if is_empty version || is_empty id || is_empty payload
        then err not_sealed
        else ok (version, id, payload)
  ]
]

-- `Keyring.Open` on a decoded payload
unfoldable pub open_raw : Ciphers → Text → Bytes → Bytes → Result KeyError Bytes
open_raw x id key raw =
    if ltb (length raw) x.nonce_size
    then err not_sealed
    else elim (x.open_sealed key (take x.nonce_size raw) (drop x.nonce_size raw)
        (associated_data id)) [ none ↦ err not_authentic | some plaintext ↦ ok plaintext ]

-- `Keyring.Open` on the parts of the envelope
unfoldable pub open_parts : Ciphers → Keyring → Text × Text × Text → Result KeyError Bytes
open_parts x k (version, id, payload) =
    if not (equal version sealed_version) then err not_sealed else elim (find_key id k.keys) [
      | none ↦ err unknown_key
      | some key ↦ elim (x.decode payload) [
        | none ↦ err not_sealed
        | some raw ↦ open_raw x id key raw
      ]
    ]

-- `Keyring.Open`
unfoldable pub open_envelope : Ciphers → Keyring → Text → Result KeyError Bytes
open_envelope x k envelope = do parts ← split_envelope envelope; open_parts x k parts

-- `Keyring.NeedsRewrap`
unfoldable pub needs_rewrap : Keyring → Text → Bool
needs_rewrap k envelope = elim (split_envelope envelope) [
  | err _ ↦ false
  | ok (version, id, payload) ↦ not (equal id k.active_id)
]
