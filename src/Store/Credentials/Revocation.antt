-- ===== src/Store/Credentials/Revocation.antt =====
-- The operations on credentials, one after another.
use relais.Base.{
  ℕ, zero, suc, refl, inl, inr, Bool, true, false, List, [], ◌∷◌, is_some, is_empty, Result-cases,
  Result, if◌then◌else◌,
}
use relais.Text.{Text}
use relais.Store.Vault.{CredentialType, CredentialRow, Sql}
use relais.Store.Rows.{Db}
use relais.Store.Session.{
  StoreError, World, Run, ◌>>=◌, ◌>>◌, return, query, with_tx, not_found, validation, failure,
  reference, constraint, conflict,
}
use relais.Store.Credentials.{
  NewCredential, Created, Secrets, Side, senders, receivers, next_id, add_grants, grant_query,
  insert_query, list_query, id_query, rotate_query, delete_query, ungrant_query,
}
use relais.Store.Credentials.Operations.{
  create_credential, rotate_credential_secret, delete_credential, add_patterns, remove_pattern,
  create_once, rotate_once, retry_collision, insert_credential, lost_race, created,
  lookup_collision_retries, throw_if, none_affected, mint_for, normalize, normalize_patterns,
  is_collision, new_row,
}
use relais.Store.Credentials.Revoked.{
  Barred, Keeps, bind-Keeps, query-Keeps, with_tx-Keeps, next_id-Keeps, return-Keeps, throw-Keeps,
  ok-Leaves, insert-Leaves, grant-Leaves, rotate-Leaves, delete-Leaves, put_grants-Leaves,
  found-Leaves,
}

module _ (id : ℕ) where
  add_grants-Keeps :
      (q : Sql) (side : Side) (j : ℕ) (ps : List Text) → Keeps id (add_grants q side j ps)
  unfolding add_grants
  add_grants-Keeps q side j [] = return-Keeps id tt
  add_grants-Keeps q side j (p ∷ ps) =
      bind-Keeps id (query (grant_query q side j p)) (λ _. next_id >> add_grants q side j ps)
        (query-Keeps id (grant_query q side j p) (grant-Leaves id q side j p))
        (λ _.
          bind-Keeps id next_id (λ _. add_grants q side j ps) (next_id-Keeps id)
            (λ _. add_grants-Keeps q side j ps))

  throw_if-Keeps : (b : Bool) (e : StoreError) → Keeps id (throw_if b e)
  throw_if-Keeps true e = throw-Keeps id (Unit {0}) e
  throw_if-Keeps false e = return-Keeps id tt

  none_affected-Keeps : (b : Bool) → Keeps id (none_affected b)
  none_affected-Keeps true = return-Keeps id tt
  none_affected-Keeps false = throw-Keeps id (Unit {0}) not_found

  lost_race-Keeps : {A : Type 0} (m : Run A) → Keeps id m → Keeps id (lost_race m)
  lost_race-Keeps m keep w b = elim (Result-cases (m w).0) [
    | inl (a, e) ↦ rw (e, lost_race) (keep w b)
    | inr (not_found, e) ↦ rw (e, lost_race) (keep w b)
    | inr (validation, e) ↦ rw (e, lost_race) (keep w b)
    | inr (failure, e) ↦ rw (e, lost_race) (keep w b)
    | inr (reference, e) ↦ rw (e, lost_race) (keep w b)
    | inr (constraint, e) ↦ rw (e, lost_race) (keep w b)
    | inr (conflict name, e) ↦ rw (e, lost_race) (keep w b)
  ]

  if-Barred :
      (c : Bool) {A : Type 0} (p q : A × World)
      → Barred id p.1
      → Barred id q.1
      → Barred id (if c then p else q).1
  if-Barred true p q hp hq = hp
  if-Barred false p q hp hq = hq

  retry-Keeps :
      {A : Type 0} (kind : CredentialType) (once : ℕ → Run A) (left attempt : ℕ)
      → ((n : ℕ) → Keeps id (once n))
      → Keeps id (retry_collision kind once left attempt)
  unfolding retry_collision
  retry-Keeps kind once zero attempt keep w b = keep attempt w b
  retry-Keeps kind once (suc left) attempt keep w b =
      let next =
        retry-Keeps kind once left (suc attempt) keep (once attempt w).1 (keep attempt w b) in
      elim (Result-cases (once attempt w).0) [
        | inl (a, e) ↦ rw (e, retry_collision) (keep attempt w b)
        | inr (x, e) ↦
            rw (e, retry_collision) (if-Barred (is_collision kind x) _ _ next (keep attempt w b))
      ]

  module _ (s : Secrets) where
    insert_credential-Keeps :
        (p : NewCredential) (kind : CredentialType) (ps rs : List Text)
        (minted : Text × Text × List ℕ)
        → Keeps id (insert_credential s p kind ps rs minted)
    unfolding insert_credential
    insert_credential-Keeps p kind ps rs minted =
        let insertion : World → Result StoreError (CredentialRow × Db) =
          λ w. insert_query s.sql (new_row s p kind minted w) w in
        let last : CredentialRow → Run CredentialRow =
          λ row. add_grants s.sql receivers row.id rs >> return row in
        let grants : CredentialRow → Run CredentialRow =
          λ row. add_grants s.sql senders row.id ps >> last row in
        with_tx-Keeps id (query insertion >>= λ row. next_id >> grants row) (
          bind-Keeps id (query insertion) (λ row. next_id >> grants row)
            (query-Keeps id insertion
              (λ w b. insert-Leaves id s.sql (new_row s p kind minted w) w refl b))
            (λ row.
              bind-Keeps id next_id (λ _. grants row) (next_id-Keeps id)
                (λ _.
                  bind-Keeps id (add_grants s.sql senders row.id ps) (λ _. last row)
                    (add_grants-Keeps s.sql senders row.id ps)
                    (λ _.
                      bind-Keeps id (add_grants s.sql receivers row.id rs) (λ _. return row)
                        (add_grants-Keeps s.sql receivers row.id rs) (λ _. return-Keeps id row)))))

    create_once-Keeps :
        (p : NewCredential) (kind : CredentialType) (ps rs : List Text) (n : ℕ)
        → Keeps id (create_once s p kind ps rs n)
    unfolding create_once
    create_once-Keeps p kind ps rs n w b =
        elim (Result-cases (mint_for s (s.draws w n) kind p.smtp_username)) [
          | inr (e, broken) ↦ rw (broken, create_once) b
          | inl (minted, ready) ↦
              rw (ready, create_once)
                (bind-Keeps id (insert_credential s p kind ps rs minted)
                  (λ row. return (created minted.0 ps rs row))
                  (insert_credential-Keeps p kind ps rs minted)
                  (λ row. return-Keeps id (created minted.0 ps rs row)) w b)
        ]

    rotate_once-Keeps : (c : CredentialRow) (n : ℕ) → Keeps id (rotate_once s c n)
    unfolding rotate_once
    rotate_once-Keeps c n w b = elim (Result-cases (mint_for s (s.draws w n) c.kind c.lookup)) [
      | inr (e, broken) ↦ rw (broken, rotate_once) b
      | inl (minted, ready) ↦
          let q = rotate_query s.sql c.id minted.1 minted.2 in
          let answer : CredentialRow → Run (CredentialRow × Text) = λ row. return (row, minted.0) in
          rw (ready, rotate_once)
            (bind-Keeps id (query q) answer
              (query-Keeps id q (rotate-Leaves id s.sql c.id minted.1 minted.2))
              (λ row. return-Keeps id {A = CredentialRow × Text} (row, minted.0)) w b)
    ]

    pub create_credential-Keeps : (params : NewCredential) → Keeps id (create_credential s params)
    unfolding create_credential
    create_credential-Keeps params w b = elim (Result-cases (normalize s params)) [
      | inr (e, bad) ↦ rw (bad, create_credential) b
      | inl ((kind, p), fine) ↦
          rw (fine, create_credential)
            (elim (Result-cases (normalize_patterns s p.patterns)) [
              | inr (e, bad) ↦ rw bad b
              | inl (ps, read) ↦
                  rw read (elim (Result-cases (normalize_patterns s p.recipient_patterns)) [
                    | inr (e, bad) ↦ rw bad b
                    | inl (rs, read_too) ↦ rw read_too (
                        retry-Keeps kind (create_once s p kind ps rs) lookup_collision_retries 0
                          (create_once-Keeps p kind ps rs) w b)
                  ])
            ])
    ]

    list-Keeps : (side : Side) (j : ℕ) → Keeps id (query (list_query s.sql side j))
    list-Keeps side j = query-Keeps id (list_query s.sql side j) (λ w b. ok-Leaves id _ w.db b.rows)

    pub rotate-Keeps : (j : ℕ) → Keeps id (rotate_credential_secret s j)
    unfolding rotate_credential_secret
    rotate-Keeps j =
        let listed : CredentialRow × Text → Run Created =
          λ r. query (list_query s.sql senders j) >>= λ ps. return (created r.1 ps [] r.0) in
        let turn : CredentialRow → Run (CredentialRow × Text) =
          λ c. lost_race (retry_collision c.kind (rotate_once s c) lookup_collision_retries 0) in
        bind-Keeps id (query (id_query j))
          (λ c. throw_if (is_some c.revoked_at) validation >> (turn c >>= listed))
          (query-Keeps id (id_query j) (λ w b. found-Leaves id _ w b))
          (λ c.
            bind-Keeps id (throw_if (is_some c.revoked_at) validation) (λ _. turn c >>= listed)
              (throw_if-Keeps (is_some c.revoked_at) validation)
              (λ _.
                bind-Keeps id (turn c) listed
                  (lost_race-Keeps _ (
                    retry-Keeps c.kind (rotate_once s c) lookup_collision_retries 0
                      (rotate_once-Keeps c)))
                  (λ r.
                    bind-Keeps id (query (list_query s.sql senders j))
                      (λ ps. return (created r.1 ps [] r.0)) (list-Keeps senders j)
                      (λ ps. return-Keeps id (created r.1 ps [] r.0)))))

    pub add_patterns-Keeps :
        (side : Side) (j : ℕ) (raw : List Text) → Keeps id (add_patterns s side j raw)
    unfolding add_patterns
    add_patterns-Keeps side j raw w b = elim (Result-cases (normalize_patterns s raw)) [
      | inr (e, bad) ↦ rw (bad, add_patterns) b
      | inl (ps, read) ↦
          let rest : Unit {0} → Run (List Text) =
            λ _. with_tx (add_grants s.sql side j ps) >> return ps in
          rw (read, add_patterns)
            (bind-Keeps id (throw_if (is_empty ps) validation) rest
              (throw_if-Keeps (is_empty ps) validation)
              (λ _.
                bind-Keeps id (with_tx (add_grants s.sql side j ps)) (λ _. return ps)
                  (with_tx-Keeps id _ (add_grants-Keeps s.sql side j ps)) (λ _. return-Keeps id ps))
              w b)
    ]

  pub delete-Keeps : (j : ℕ) → Keeps id (delete_credential j)
  unfolding delete_credential
  delete-Keeps j =
      bind-Keeps id (query (delete_query j)) none_affected
        (query-Keeps id (delete_query j) (delete-Leaves id j)) none_affected-Keeps

  pub remove-Keeps : (side : Side) (owner j : ℕ) → Keeps id (remove_pattern side owner j)
  unfolding remove_pattern
  remove-Keeps side owner j =
      bind-Keeps id (query (ungrant_query side owner j)) none_affected
        (query-Keeps id (ungrant_query side owner j) (λ w b. put_grants-Leaves id side _ w b _))
        none_affected-Keeps
