-- ===== src/Store/Backends/Creation.antt =====
-- A relay that has been created.
use mathlib.Core.Path.{subst}
use relais.Base.{
  ℕ, ◌≤◌, ◌≡◌, refl, ap, sym, inl, inr, false, not, ◌&&◌, [], ◌∷◌, arith, equal, equal_iff,
  is_empty, length, Result-cases, ok, bind-eq-ok, ok_inj,
}
use relais.Text.{Text, codes, trim_space}
use relais.Crypto.Keyring.{Bytes}
use relais.Crypto.Seal.{IsCipher, IsKeyring, open_envelope-seal}
use relais.Store.Vault.{Sql}
use relais.Store.Rows.{Backend}
use relais.Store.Session.{World, query, query-ok}
use relais.Store.Routes.{Keys, open_backend_password}
use relais.Store.Backends.{
  NewBackend, trimmed, check_params, normalize, seal_backend_password, backend_row, create_query,
  create_backend,
}
use relais.Store.Backends.Passwords.{open_backend_password-open}

-- What is known of the row.
pub record Configured (k : Keys) (p : NewBackend) (b : Backend) : Type 0 where
  pub opens : open_backend_password k b.auth_password_sealed ≡ ok p.auth_password
  pub user : b.auth_user ≡ trim_space p.auth_user
  pub both_or_neither : is_empty b.auth_user ≡ is_empty p.auth_password
  pub encrypted : b.tls_mode ≡ codes "none" → b.auth_user ≡ []
  pub port : (1 ≤ b.port) × (b.port ≤ 65535)
  pub concurrency : (1 ≤ b.max_concurrency) × (b.max_concurrency ≤ 64)

seal_backend_password-open :
    (k : Keys) (nonce : Bytes) (password sealed : Text)
    → IsCipher k.ciphers
    → IsKeyring k.keyring
    → length nonce ≡ k.ciphers.nonce_size
    → seal_backend_password k nonce password ≡ ok sealed
    → open_backend_password k sealed ≡ ok password
unfolding seal_backend_password open_backend_password
seal_backend_password-open k nonce [] sealed c v size h =
    ap (open_backend_password k) (sym (ok_inj h))
seal_backend_password-open k nonce (x ∷ password) sealed c v size h =
    open_backend_password-open k sealed
      (open_envelope-seal k.ciphers k.keyring k.keyring nonce (x ∷ password) c v refl size h).0

-- What `normalize` lets through.
record Checked (p : NewBackend) (id : ℕ) : Type 0 where
  both : is_empty p.auth_user ≡ is_empty p.auth_password
  plain : (equal p.tls_mode (codes "none") && not (is_empty p.auth_user)) ≡ false
  port : (1 ≤ (backend_row p [] id).port) × ((backend_row p [] id).port ≤ 65535)
  concurrency :
      (1 ≤ (backend_row p [] id).max_concurrency) × ((backend_row p [] id).max_concurrency ≤ 64)

check_params-Checked :
    (p : NewBackend) (id : ℕ) {t : Unit {0}} → check_params p ≡ ok t → Checked p id
unfolding check_params
check_params-Checked p id h = record {
  both = ground arith;
  plain = ground arith;
  port = ground arith;
  concurrency = ground arith;
}

trimmed-Configured :
    (k : Keys) (p : NewBackend) (sealed : Text) (id : ℕ)
    → Checked (trimmed k.idna.fold p) id
    → open_backend_password k sealed ≡ ok p.auth_password
    → Configured k p (backend_row (trimmed k.idna.fold p) sealed id)
unfolding trimmed
trimmed-Configured k p sealed id h opens = record {
  opens = opens;
  user = refl;
  both_or_neither = h.both;
  encrypted =
      λ e. ground (arith, h.plain, (equal_iff (trimmed k.idna.fold p).tls_mode (codes "none")).1 e);
  port = h.port;
  concurrency = h.concurrency;
}

normalized :
    (fold : ℕ → ℕ) (p given : NewBackend)
    → normalize fold p ≡ ok given
    → (t : Unit {0}) × (check_params (trimmed fold p) ≡ ok t) × (trimmed fold p ≡ given)
unfolding normalize
normalized fold p given h =
    let (t, checked, e) = bind-eq-ok (check_params (trimmed fold p)) _ h in (t, checked, ok_inj e)

-- A relay that `CreateBackend` has created has a sealed password that opens to the one that was
-- given, the user that was given, trimmed, and a user exactly if it has a password; without
-- encryption it has no user; its port is from 1 to 65535, and its concurrency from 1 to 64. The
-- keyring is well formed, the cipher opens what it seals, and the nonce has its size.
pub create_backend-Configured :
    (q : Sql) (k : Keys) (nonce : Bytes) (p : NewBackend) (w : World) (b : Backend)
    → IsCipher k.ciphers
    → IsKeyring k.keyring
    → length nonce ≡ k.ciphers.nonce_size
    → (create_backend q k nonce p w).0 ≡ ok b
    → Configured k p b
unfolding create_backend trimmed
create_backend-Configured q k nonce p w b c v size h =
    elim (Result-cases (normalize k.idna.fold p)) [
      | inr (e, bad) ↦ ground arith
      | inl (given, good) ↦
          elim (Result-cases (seal_backend_password k nonce given.auth_password)) [
            | inr (e, bad) ↦ ground arith
            | inl (sealed, sealing) ↦
                let row : ℕ → Backend = backend_row given sealed in
                let written : (query (create_query q row) w).0 ≡ ok b = ground arith in
                let (db, created) = query-ok (create_query q row) w written in
                let same : row w.next_id ≡ b = ground (arith, created) in
                let (t, checked, trimming) = normalized k.idna.fold p given good in
                let opens =
                  seal_backend_password-open k nonce given.auth_password sealed c v size sealing in
                subst (Configured k p) same (
                  subst
                    (λ g.
                      open_backend_password k sealed ≡ ok g.auth_password
                      → Configured k p (backend_row g sealed w.next_id))
                    trimming
                    (trimmed-Configured k p sealed w.next_id
                      (check_params-Checked (trimmed k.idna.fold p) w.next_id checked))
                    opens)
          ]
    ]
