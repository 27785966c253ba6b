-- ===== src/Store/Backends/Passwords.antt =====
-- The passwords of the relays and the keys that they are sealed under.
use mathlib.Core.Path.{subst}
use relais.Base.{
  ℕ, zero, suc, ◌≡◌, refl, sym, ◌∙◌, ap, false, ◌==◌, List, [], ◌∷◌, Option, none, some, arith, All,
  Bool-cases, Result-cases, inl, inr, length, Result, ok, ok_inj,
}
use relais.Text.{Text}
use relais.Crypto.Keyring.{
  Bytes, KeyError, cut, seal_with, open_envelope, split_envelope, needs_rewrap,
}
use relais.Crypto.Seal.{IsCipher, IsKeyring, open_envelope-seal}
use relais.Store.Rows.{Backend, find_backend}
use relais.Store.Reads.{query-IsRead}
use relais.Store.Session.{World, query-ok, query, query-quiet, query-lost, next_fault}
use relais.Store.Routes.{Keys, open_backend_password}
use relais.Store.Backends.{
  reseal, reseal_query, sealed_rows, rewrap_list, rewrap_row, rewrap_rows, rewrap_backend_passwords,
}

-- What the store opens a relay's password to.
abbrev pub opened : Keys → Option Backend → Option (Result KeyError Text)
opened k none = none
opened k (some b) = some (open_backend_password k b.auth_password_sealed)

pub open_backend_password-open :
    (k : Keys) (sealed : Text) {p : Bytes}
    → open_envelope k.ciphers k.keyring sealed ≡ ok p
    → open_backend_password k sealed ≡ ok p
unfolding open_backend_password open_envelope split_envelope cut
open_backend_password-open k [] h = ground arith
open_backend_password-open k (c ∷ s) h = h

-- a row that the update passes over, and one that it changes
reseal-other :
    (id other : ℕ) (sealed : Text) (bs : List Backend)
    → (other == id) ≡ false
    → find_backend other (reseal id sealed bs) ≡ find_backend other bs
unfolding reseal find_backend
reseal-other id other sealed [] h = refl
reseal-other id other sealed (b ∷ bs) h = elim (Bool-cases (b.id == id)) [
  | inl here ↦ rw here (ground (arith, reseal-other id other sealed bs h))
  | inr there ↦ rw there (ground (arith, reseal-other id other sealed bs h))
]

reseal-same :
    (k : Keys) (id : ℕ) (sealed : Text) (bs : List Backend) (r : Result KeyError Text)
    → opened k (find_backend id bs) ≡ some r
    → open_backend_password k sealed ≡ r
    → opened k (find_backend id (reseal id sealed bs)) ≡ some r
unfolding reseal find_backend
reseal-same k id sealed [] r h e = h
reseal-same k id sealed (b ∷ bs) r h e = elim (Bool-cases (b.id == id)) [
  | inl here ↦ rw here (rw here (ap some e))
  | inr there ↦ rw there (rw there (reseal-same k id sealed bs r (ground arith) e))
]

module _ (k : Keys) where
  -- Every password opens, or fails to, as before.
  abbrev pub Unchanged : World → World → Type 0
  Unchanged w w' =
      (id : ℕ)
      → opened k (find_backend id w'.db.backends) ≡ opened k (find_backend id w.db.backends)

  -- The row has the password that is stored under its id.
  abbrev pub IsStored : World → Backend → Type 0
  IsStored w row =
      opened k (find_backend row.id w.db.backends)
      ≡ some (open_backend_password k row.auth_password_sealed)

  reseal-Unchanged :
      (row : Backend) (sealed : Text) (w : World)
      → IsStored w row
      → open_backend_password k sealed ≡ open_backend_password k row.auth_password_sealed
      → Unchanged w (query (reseal_query row.id sealed) w).1
  unfolding query
  reseal-Unchanged row sealed w stored e other = elim (Bool-cases (next_fault w.faults)) [
    | inl lost ↦ rw (query-lost (reseal_query row.id sealed) w lost) refl
    | inr quiet ↦
        rw (query-quiet (reseal_query row.id sealed) w quiet) (elim (Bool-cases (other == row.id)) [
          | inr apart ↦ ap (opened k) (reseal-other row.id other sealed w.db.backends apart)
          | inl same ↦
              let here : other ≡ row.id = ground arith in
              subst
                (λ i.
                  opened k (find_backend i (reseal row.id sealed w.db.backends))
                  ≡ opened k (find_backend i w.db.backends))
                (sym here)
                (reseal-same k row.id sealed w.db.backends
                    (open_backend_password k row.auth_password_sealed) stored e
                  ∙ sym stored)
        ])
  ]

  module _ (c : IsCipher k.ciphers) (v : IsKeyring k.keyring) where
    rewrap_row-Unchanged :
        (nonce : Bytes) (row : Backend) (w : World)
        → length nonce ≡ k.ciphers.nonce_size
        → IsStored w row
        → Unchanged w (rewrap_row k nonce row w).1
    unfolding rewrap_row
    rewrap_row-Unchanged nonce row w size stored other =
        let open_it = open_envelope k.ciphers k.keyring row.auth_password_sealed in
        elim (Result-cases open_it) [
          | inr (_, lost) ↦ rw (lost, rewrap_row) refl
          | inl (plaintext, was) ↦
              elim (Result-cases (seal_with k.ciphers k.keyring nonce plaintext)) [
                | inr (_, bad) ↦ rw (was, rewrap_row) (rw (bad, rewrap_row) refl)
                | inl (sealed, sealing) ↦
                    let again =
                      (open_envelope-seal k.ciphers k.keyring k.keyring nonce plaintext c v refl
                        size sealing).0 in
                    rw (was, rewrap_row)
                      (rw (sealing, rewrap_row)
                        (reseal-Unchanged row sealed w stored
                          (open_backend_password-open k sealed again
                            ∙ sym (open_backend_password-open k row.auth_password_sealed was))
                          other))
              ]
        ]

    IsStored-kept :
        (w w' : World) (rows : List Backend)
        → Unchanged w w'
        → All (IsStored w) rows
        → All (IsStored w') rows
    IsStored-kept w w' [] same h = tt
    IsStored-kept w w' (row ∷ rows) same h = (same row.id ∙ h.0, IsStored-kept w w' rows same h.1)

    module _ (nonces : ℕ → Bytes)
        (sizes : (id : ℕ) → length (nonces id) ≡ k.ciphers.nonce_size) where
      rewrap_rows-Unchanged :
          (n : ℕ) (rows : List Backend) (w : World)
          → All (IsStored w) rows
          → Unchanged w (rewrap_rows k nonces n rows w).1
      unfolding rewrap_rows
      rewrap_rows-Unchanged n [] w h other = refl
      rewrap_rows-Unchanged n (row ∷ rows) w h other =
          let step = rewrap_row k (nonces row.id) row w in
          let same : Unchanged w step.1 =
            rewrap_row-Unchanged (nonces row.id) row w (sizes row.id) h.0 in
          elim (Bool-cases (needs_rewrap k.keyring row.auth_password_sealed)) [
            | inr current ↦ rw current (rewrap_rows-Unchanged n rows w h.1 other)
            | inl old ↦ rw old (elim (Result-cases step.0) [
              | inr (_, failed) ↦ rw failed (same other)
              | inl (_, done) ↦ rw done (
                  rewrap_rows-Unchanged (suc n) rows step.1 (IsStored-kept w step.1 rows same h.1)
                    other
                  ∙ same other)
            ])
          ]

      -- The rewrapping of the relays' passwords, whether it ends or is stopped by an error, and
      -- whichever queries fail, leaves every relay's password opening to what it opened to before.
      -- The keyring is well formed, the cipher opens what it seals, the nonces have its size, and
      -- each row that is listed has the password that is stored under its id.
      pub rewrap_backend_passwords-Unchanged :
          (by_name : List Backend → List Backend) (w : World)
          → All (IsStored w) (by_name (sealed_rows w.db.backends))
          → Unchanged w (rewrap_backend_passwords k nonces by_name w).1
      unfolding rewrap_backend_passwords
      rewrap_backend_passwords-Unchanged by_name w h other =
          let listing = query (rewrap_list by_name) w in
          let same : Unchanged w listing.1 = λ i.
            ap (λ d. opened k (find_backend i d.backends))
              (query-IsRead (rewrap_list by_name) (λ v. refl) w).same in
          elim (Result-cases listing.0) [
            | inr (_, failed) ↦ rw (failed, rewrap_backend_passwords) (same other)
            | inl (rows, listed) ↦
                let (db, e) = query-ok (rewrap_list by_name) w listed in
                let stored : All (IsStored w) rows =
                  subst (λ l. All (IsStored w) l) (ap (λ t. t.0) (ok_inj e)) h in
                rw (listed, rewrap_backend_passwords)
                  (rewrap_rows-Unchanged zero rows listing.1
                      (IsStored-kept w listing.1 rows same stored) other
                    ∙ same other)
          ]
