-- ===== src/Store/Credentials/Revoked.antt =====
-- What a revoked credential stays through the operations on credentials.
use relais.Base.{
  ℕ, ◌<◌, ◌≡◌, inl, inr, Bool, true, false, not, ◌&&◌, List, [], ◌∷◌, ◌++◌, Option, none, some,
  arith, ◌==◌, if◌then◌else◌, is_some, Bool-cases, Option-cases, Result-cases, All, All-append,
  Result, ok, err, any, equal,
}
use relais.Text.{Text, codes}
use relais.Crypto.Keyring.{Bytes}
use relais.Store.Vault.{
  CredentialRow, Grant, find_credential, update_credential, delete_row, revoked_row, rotated_row,
  Sql, check_row, is_granted, check_pattern,
}
use relais.Store.Rows.{Db}
use relais.Store.Session.{
  StoreError, World, Run, ◌>>=◌, ◌>>◌, return, throw, query, settle, tick, query-quiet, query-lost,
  next_fault, with_tx, nothing, not_found, reference, constraint, conflict,
}
use relais.Store.Credentials.{
  Side, grants, put_grants, lookup_index, next_id, grant_query, insert_query, revoke_query,
  rotate_query, rotate_row, delete_query, found, senders, receivers,
}

module _ (id : ℕ) where
  abbrev pub IsRevoked : CredentialRow → Type 0
  IsRevoked c = (c.id == id) ≡ true → is_some c.revoked_at ≡ true

  -- The id is in use, and a row that has it is revoked.
  pub record Barred (w : World) : Type 0 where
    pub used : id < w.next_id
    pub rows : All IsRevoked w.db.credentials

  abbrev pub Keeps : {A : Type 0} → Run A → Type 0
  Keeps m = (w : World) → Barred w → Barred (m w).1

  pub bind-Keeps :
      {A B : Type 0} (m : Run A) (f : A → Run B)
      → Keeps m
      → ((a : A) → Keeps (f a))
      → Keeps (m >>= f)
  bind-Keeps m f first next w b = elim (Result-cases (m w).0) [
    | inl (a, e) ↦ rw (e, ◌>>=◌) (next a (m w).1 (first w b))
    | inr (x, e) ↦ rw (e, ◌>>=◌) (first w b)
  ]

  -- the rows that a query leaves
  unfoldable pub Leaves : {A : Type 0} → Result StoreError (A × Db) → Type 0
  Leaves (ok p) = All IsRevoked p.1.credentials
  Leaves (err e) = Unit {0}

  pub err-Leaves : (A : Type 0) (e : StoreError) → Leaves {A = A} (err e)
  unfolding Leaves
  err-Leaves A e = tt

  pub ok-Leaves :
      {A : Type 0} (a : A) (db : Db) → All IsRevoked db.credentials → Leaves (ok (a, db))
  unfolding Leaves
  ok-Leaves a db rows = rows

  pub settle-Keeps :
      {A : Type 0} (w : World) (r : Result StoreError (A × Db))
      → Barred w
      → Leaves r
      → Barred (settle w r).1
  unfolding Leaves
  settle-Keeps w (ok (a, db)) b rows = record { used = b.used; rows = rows }
  settle-Keeps w (err e) b rows = b

  pub query-Keeps :
      {A : Type 0} (q : World → Result StoreError (A × Db))
      → ((w : World) → Barred w → Leaves (q w))
      → Keeps (query q)
  query-Keeps q keeps w b =
      let ticked : Barred (tick w) = record { used = b.used; rows = b.rows } in
      elim (Bool-cases (next_fault w.faults)) [
        | inl lost ↦ rw (query-lost q w lost) ticked
        | inr quiet ↦ rw (query-quiet q w quiet) (settle-Keeps (tick w) (q w) ticked (keeps w b))
      ]

  pub with_tx-Keeps : {A : Type 0} (m : Run A) → Keeps m → Keeps (with_tx m)
  unfolding with_tx
  with_tx-Keeps {A = A} m keep w b =
      let commit : A → Run A = λ a. query nothing >> return a in
      let body : Run A = (do query nothing; a ← m; commit a) in
      let idle : Keeps (query nothing) = query-Keeps nothing (λ v h. ok-Leaves tt v.db h.rows) in
      let kept : Barred (body w).1 =
        bind-Keeps (query nothing) (λ _. m >>= commit) idle
          (λ _.
            bind-Keeps m commit keep
              (λ a. bind-Keeps (query nothing) (λ _. return a) idle (λ _. λ v h. h)))
          w b in
      elim (Result-cases (body w).0) [
        | inl (a, e) ↦ rw (e, with_tx) kept
        | inr (x, e) ↦ rw (e, with_tx) (record { used = kept.used; rows = b.rows })
      ]

  pub next_id-Keeps : Keeps next_id
  next_id-Keeps w b = record { used = omega (arith, b.used); rows = b.rows }

  pub return-Keeps : {A : Type 0} (a : A) → Keeps (return a)
  return-Keeps a w b = b

  pub throw-Keeps : (A : Type 0) (e : StoreError) → Keeps (throw {A = A} e)
  throw-Keeps A e w b = b

  update-Revoked :
      (j : ℕ) (f : CredentialRow → CredentialRow) (cs : List CredentialRow)
      → ((c : CredentialRow) → IsRevoked c → IsRevoked (f c))
      → All IsRevoked cs
      → All IsRevoked (update_credential j f cs)
  unfolding update_credential
  update-Revoked j f [] keep h = tt
  update-Revoked j f (c ∷ cs) keep h = elim (Bool-cases (c.id == j)) [
    | inl same ↦ rw same (keep c h.0, update-Revoked j f cs keep h.1)
    | inr other ↦ rw other (h.0, update-Revoked j f cs keep h.1)
  ]

  delete-Revoked :
      (j : ℕ) (cs : List CredentialRow) → All IsRevoked cs → All IsRevoked (delete_row j cs)
  unfolding delete_row
  delete-Revoked j [] h = tt
  delete-Revoked j (c ∷ cs) h = elim (Bool-cases (c.id == j)) [
    | inl same ↦ rw same (delete-Revoked j cs h.1)
    | inr other ↦ rw other (h.0, delete-Revoked j cs h.1)
  ]

  pub if-Leaves :
      {A : Type 0} (b : Bool) (x y : Result StoreError (A × Db))
      → Leaves x
      → Leaves y
      → Leaves (if b then x else y)
  if-Leaves true x y hx hy = hx
  if-Leaves false x y hx hy = hy

  pub found-Leaves : (c : Option CredentialRow) (w : World) → Barred w → Leaves (found c w)
  found-Leaves none w b = err-Leaves _ _
  found-Leaves (some c) w b = ok-Leaves _ _ b.rows

  pub insert-Leaves :
      (q : Sql) (c : CredentialRow) (w : World)
      → c.id ≡ w.next_id
      → Barred w
      → Leaves (insert_query q c w)
  insert-Leaves q c w new b =
      let stranger : IsRevoked c = λ h. ground (arith, b.used) in
      let rows : All IsRevoked (w.db.credentials ++ c ∷ []) =
        All-append IsRevoked w.db.credentials (c ∷ []) b.rows (stranger, tt) in
      if-Leaves (not (check_row q c)) (err constraint) _ (err-Leaves _ _) (
        if-Leaves (any (λ d. equal d.lookup c.lookup) w.db.credentials)
          (err (conflict lookup_index)) _ (err-Leaves _ _)
          (if-Leaves (any (λ d. equal (q.lower d.name) (q.lower c.name)) w.db.credentials)
            (err (conflict (codes "credential_name_key"))) (ok (c, _)) (err-Leaves _ _)
            (ok-Leaves c _ rows)))

  pub put_grants-Leaves :
      {A : Type 0} (side : Side) (a : A) (w : World)
      → Barred w
      → (gs : List Grant) → Leaves (ok (a, put_grants side gs w.db))
  put_grants-Leaves senders a w b gs = ok-Leaves _ _ b.rows
  put_grants-Leaves receivers a w b gs = ok-Leaves _ _ b.rows

  pub grant-Leaves :
      (q : Sql) (side : Side) (j : ℕ) (pattern : Text) (w : World)
      → Barred w
      → Leaves (grant_query q side j pattern w)
  grant-Leaves q side j pattern w b =
      if-Leaves (not (check_pattern q pattern)) (err constraint) _ (err-Leaves _ _) (
        if-Leaves (is_granted j pattern (grants side w.db)) (ok (tt, w.db)) _
          (ok-Leaves tt w.db b.rows)
          (if-Leaves (not (is_some (find_credential j w.db.credentials))) (err reference)
            (ok (tt, _)) (err-Leaves _ _) (put_grants-Leaves side tt w b _)))

  pub rotate_row-Leaves :
      (q : Sql) (c : CredentialRow) (lookup : Text) (hmac : Bytes) (w : World)
      → Barred w
      → Leaves (rotate_row q c lookup hmac w)
  rotate_row-Leaves q c lookup hmac w b =
      let rotate = rotated_row lookup hmac w.now in
      let rows = update-Revoked c.id rotate w.db.credentials (λ d h. h) b.rows in
      if-Leaves (is_some c.revoked_at) (err not_found) _ (err-Leaves _ _) (
        if-Leaves (not (check_row q (rotate c))) (err constraint) _ (err-Leaves _ _) (
          if-Leaves (any (λ d. not (d.id == c.id) && equal d.lookup lookup) w.db.credentials)
            (err (conflict lookup_index)) (ok (rotate c, _)) (err-Leaves _ _)
            (ok-Leaves (rotate c) _ rows)))

  pub rotate-Leaves :
      (q : Sql) (j : ℕ) (lookup : Text) (hmac : Bytes) (w : World)
      → Barred w
      → Leaves (rotate_query q j lookup hmac w)
  rotate-Leaves q j lookup hmac w b = elim (Option-cases (find_credential j w.db.credentials)) [
    | inl gone ↦ rw (gone, rotate_query) (err-Leaves _ _)
    | inr (c, there) ↦ rw (there, rotate_query) (rotate_row-Leaves q c lookup hmac w b)
  ]

  pub revoke-Leaves : (j : ℕ) (w : World) → Barred w → Leaves (revoke_query j w)
  revoke-Leaves j w b = elim (Option-cases (find_credential j w.db.credentials)) [
    | inl gone ↦ rw (gone, revoke_query) (err-Leaves _ _)
    | inr (c, there) ↦
        rw (there, revoke_query)
          (ok-Leaves _ _
            (update-Revoked j (revoked_row w.now) w.db.credentials (λ d h e. ground arith) b.rows))
  ]

  pub delete-Leaves : (j : ℕ) (w : World) → Barred w → Leaves (delete_query j w)
  delete-Leaves j w b = elim (Option-cases (find_credential j w.db.credentials)) [
    | inl gone ↦ rw (gone, delete_query) (ok-Leaves _ _ b.rows)
    | inr (c, there) ↦
        rw (there, delete_query) (ok-Leaves _ _ (delete-Revoked j w.db.credentials b.rows))
  ]
