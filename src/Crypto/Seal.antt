-- ===== src/Crypto/Seal.antt =====
-- Well-formed keyrings, and the envelopes that they seal.
use mathlib.Core.Path.{subst}
use relais.Base.{
  ℕ, zero, suc, ◌<◌, ◌≡◌, ◌≢◌, refl, sym, ap, ◌∙◌, true, false, not, ◌||◌, List, [], ◌∷◌, ◌++◌,
  some, arith, ◌==◌, all, is_empty, length, length-append, take, drop, is_some, equal, equal_refl,
  equal_iff, ok, refuse_if, bind-eq-ok, All, All-append, ok_inj, err_ne_ok, Bool-cases,
  Option-cases, inl, inr,
}
use relais.Text.{trim_space, Text, within, split, contains}
use relais.Crypto.Keyring.{
  Bytes, Ciphers, Keyring, colon, sealed_version, cut, find_key, is_key_id, decode_key, entry_keys,
  add_entry, parse_entries, choose_active, parse_keyring, associated_data, seal_with,
  split_envelope, open_raw, open_parts, open_envelope, needs_rewrap,
}

-- What AES-GCM and base64 promise.
pub record IsCipher (x : Ciphers) : Type 0 where
  pub open_seal :
      (key nonce plaintext : Bytes) (ad : Text)
      → length nonce ≡ x.nonce_size
      → x.open_sealed key nonce (x.seal key nonce plaintext ad) ad ≡ some plaintext
  pub decode_encode : (b : Bytes) → x.decode (x.encode b) ≡ some b
  pub encode_nonempty : (b : Bytes) → b ≢ [] → x.encode b ≢ []
  pub nonce_positive : 0 < x.nonce_size

cut-append : (c : ℕ) (s t : Text) → contains c s ≡ false → cut c (s ++ c ∷ t) ≡ some (s, t)
unfolding cut
cut-append c [] t h = ground arith
cut-append c (y ∷ s) t h = ground (arith, cut-append c s t)

key_id_colon :
    (id : Text) → is_key_id id ≡ true → (contains colon id ≡ false) × (is_empty id ≡ false)
unfolding is_key_id
key_id_colon id h = (colon_free id (ground arith), ground arith)
  where
    colon_free :
        (s : Text)
        → all
            (λ c.
              within b'A' b'Z' c
              || within b'a' b'z' c
              || within b'0' b'9' c
              || c == b'_'
              || c == b'-')
            s
          ≡ true
        → contains colon s ≡ false
    colon_free [] e = refl
    colon_free (c ∷ s) e = ground (arith, colon_free s)

take-append : (a b : Bytes) (n : ℕ) → length a ≡ n → (take n (a ++ b) ≡ a) × (drop n (a ++ b) ≡ b)
take-append [] b zero h = (refl, refl)
take-append [] b (suc n) h = absurd (omega arith)
take-append (c ∷ a) b zero h = absurd (omega arith)
take-append (c ∷ a) b (suc n) h = let (t, d) = take-append a b n (omega arith) in (ap (◌∷◌ c) t, d)

-- The active key of a keyring is one of its keys, and every id is well formed.
pub record IsKeyring (k : Keyring) : Type 0 where
  pub active_id : is_key_id k.active_id ≡ true
  pub active_key : is_some (find_key k.active_id k.keys) ≡ true

abbrev Ids : List (Text × Bytes) → Type 0
Ids = All (λ (e : Text × Bytes). is_key_id e.0 ≡ true)

add_entry-Ids :
    (x : Ciphers) (raw_id b64 : Text) (keys : List (Text × Bytes)) {keys' : List (Text × Bytes)}
    → Ids keys
    → add_entry x raw_id b64 keys ≡ ok keys'
    → Ids keys'
unfolding add_entry
add_entry-Ids x raw_id b64 keys ids h =
    let (_, valid, h₁) = bind-eq-ok (refuse_if (not (is_key_id (trim_space raw_id))) _) _ h in
    let (_, _, h₂) = bind-eq-ok (refuse_if (is_some (find_key (trim_space raw_id) keys)) _) _ h₁ in
    let (key, _, h₃) = bind-eq-ok (decode_key x (trim_space b64)) _ h₂ in
    rw (← (ok_inj h₃)) (All-append _ keys _ ids (ground arith, tt))

entry_keys-Ids :
    (x : Ciphers) (entry : Text) (keys : List (Text × Bytes)) {keys' : List (Text × Bytes)}
    → Ids keys
    → entry_keys x entry keys ≡ ok keys'
    → Ids keys'
unfolding entry_keys
entry_keys-Ids x [] keys ids h = rw (← (ok_inj h)) ids
entry_keys-Ids x (c ∷ entry) keys ids h = elim (Option-cases (cut colon (c ∷ entry))) [
  | inl bare ↦ absurd (err_ne_ok (rw bare at h))
  | inr ((id, key), e) ↦ add_entry-Ids x id key keys ids (rw e at h)
]

parse_entries-Ids :
    (x : Ciphers) (keys : List (Text × Bytes)) (entries : List Text) {keys' : List (Text × Bytes)}
    → Ids keys
    → parse_entries x keys entries ≡ ok keys'
    → Ids keys'
unfolding parse_entries
parse_entries-Ids x keys [] ids h = rw (← (ok_inj h)) ids
parse_entries-Ids x keys (raw ∷ entries) ids h =
    let (next, e, onward) = bind-eq-ok (entry_keys x (trim_space raw) keys) _ h in
    parse_entries-Ids x next entries (entry_keys-Ids x (trim_space raw) keys ids e) onward

find_key-Ids :
    (id : Text) (keys : List (Text × Bytes))
    → Ids keys
    → is_some (find_key id keys) ≡ true
    → is_key_id id ≡ true
unfolding find_key
find_key-Ids id [] ids h = cc
find_key-Ids id ((j, key) ∷ keys) ids h = ground (arith, equal_iff j id, find_key-Ids id keys ids.1)

choose_active_given :
    (keys : List (Text × Bytes)) (active : Text) {k : Keyring}
    → is_empty active ≡ false
    → choose_active keys active ≡ ok k
    → (active ≡ k.active_id) × (is_some (find_key k.active_id k.keys) ≡ true) × (keys ≡ k.keys)
unfolding choose_active
choose_active_given [] active ne h = absurd (err_ne_ok h)
choose_active_given (j ∷ keys) [] ne h = cc
choose_active_given (j ∷ keys) (c ∷ active) {k} ne h =
    elim (Bool-cases (is_some (find_key (c ∷ active) (j ∷ keys)))) [
      | inl found ↦ rw (← (ok_inj (rw found at h))) (refl, found, refl)
      | inr lost ↦ absurd (err_ne_ok (rw lost at h))
    ]

choose_active-IsKeyring :
    (keys : List (Text × Bytes)) (active : Text) {k : Keyring}
    → Ids keys
    → choose_active keys active ≡ ok k
    → IsKeyring k
unfolding choose_active
choose_active-IsKeyring [] active ids h = absurd (err_ne_ok h)
choose_active-IsKeyring ((id, key) ∷ []) [] ids h =
    rw (← (ok_inj h)) (record { active_id = ids.0; active_key = rw (equal_refl id) })
choose_active-IsKeyring (j ∷ l ∷ keys) [] ids h = absurd (err_ne_ok h)
choose_active-IsKeyring (j ∷ keys) (c ∷ active) {k} ids h =
    let (_, found, same) = choose_active_given (j ∷ keys) (c ∷ active) {k = k} refl h in
    record {
      active_id = find_key-Ids k.active_id k.keys (subst Ids same ids) found;
      active_key = found;
    }

-- Whatever keyring `ParseKeyring` accepts has an active id of the right form, and a key under that
-- id.
pub parse_keyring-IsKeyring :
    (x : Ciphers) (spec active : Text) {k : Keyring}
    → parse_keyring x spec active ≡ ok k
    → IsKeyring k
unfolding parse_keyring
parse_keyring-IsKeyring x spec active h =
    let (keys, e, chosen) = bind-eq-ok (parse_entries x [] (split b',' spec)) _ h in
    choose_active-IsKeyring keys active (parse_entries-Ids x [] (split b',' spec) tt e) chosen

abbrev envelope_of : Text → Text → Text
envelope_of id payload = sealed_version ++ colon ∷ (id ++ colon ∷ payload)

split_envelope-envelope_of :
    (id payload : Text)
    → is_key_id id ≡ true
    → payload ≢ []
    → split_envelope (envelope_of id payload) ≡ ok (sealed_version, id, payload)
unfolding split_envelope
split_envelope-envelope_of id [] valid ne = absurd (ne refl)
split_envelope-envelope_of id (c ∷ payload) valid ne =
    let (free, nonempty) = key_id_colon id valid in
    ground (
      arith,
      cut-append colon sealed_version (id ++ colon ∷ c ∷ payload) refl,
      cut-append colon id (c ∷ payload) free,
      nonempty,
    )

sealed_nonempty : (n : ℕ) (nonce rest : Bytes) → length nonce ≡ n → 0 < n → nonce ++ rest ≢ []
sealed_nonempty n [] rest size pos = absurd (omega arith)
sealed_nonempty n (b ∷ nonce) rest size pos = λ e. cc

seal_with_parts :
    (x : Ciphers) (k : Keyring) (nonce plaintext : Bytes) {envelope : Text}
    → seal_with x k nonce plaintext ≡ ok envelope
    → (key : Bytes) × (find_key k.active_id k.keys ≡ some key)
      × (envelope
          ≡ envelope_of k.active_id
              (x.encode (nonce ++ x.seal key nonce plaintext (associated_data k.active_id))))
unfolding seal_with
seal_with_parts x k nonce plaintext h = elim (Option-cases (find_key k.active_id k.keys)) [
  | inl lost ↦ absurd (err_ne_ok (rw (lost, seal_with) at h))
  | inr (key, found) ↦ (key, found, sym (ok_inj (rw (found, seal_with) at h)))
]

open_raw-seal :
    (x : Ciphers) (id : Text) (key nonce plaintext : Bytes)
    → IsCipher x
    → length nonce ≡ x.nonce_size
    → open_raw x id key (nonce ++ x.seal key nonce plaintext (associated_data id)) ≡ ok plaintext
unfolding open_raw
open_raw-seal x id key nonce plaintext c size =
    let sealed = x.seal key nonce plaintext (associated_data id) in
    let (front, back) = take-append nonce sealed x.nonce_size size in
    ground (
      arith,
      length-append nonce sealed,
      front,
      back,
      size,
      c.open_seal key nonce plaintext (associated_data id) size,
    )

-- What one well-formed keyring seals, another opens to the same bytes if it holds the same key
-- under the sealing keyring's active id, whichever key it has made active; and it asks for a new
-- seal exactly if its active id is another one. The cipher is assumed to open what it seals, and
-- the encoding to decode what it encodes.
pub open_envelope-seal :
    (x : Ciphers) (k l : Keyring) (nonce plaintext : Bytes) {envelope : Text}
    → IsCipher x
    → IsKeyring k
    → find_key k.active_id l.keys ≡ find_key k.active_id k.keys
    → length nonce ≡ x.nonce_size
    → seal_with x k nonce plaintext ≡ ok envelope
    → (open_envelope x l envelope ≡ ok plaintext)
      × (needs_rewrap l envelope ≡ not (equal k.active_id l.active_id))
unfolding open_envelope needs_rewrap open_parts
open_envelope-seal x k l nonce plaintext {envelope} c v shared size h =
    let (key, found, e) = seal_with_parts x k nonce plaintext h in
    let raw = nonce ++ x.seal key nonce plaintext (associated_data k.active_id) in
    let parts =
      split_envelope-envelope_of k.active_id (x.encode raw) v.active_id
        (c.encode_nonempty raw (sealed_nonempty x.nonce_size nonce _ size c.nonce_positive)) in
    rw e (
      ground (
        arith,
        parts,
        shared ∙ found,
        c.decode_encode raw,
        open_raw-seal x k.active_id key nonce plaintext c size,
      ),
      ground (arith, parts),
    )
