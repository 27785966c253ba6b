-- ===== src/Authn/Revoked.antt =====
-- Revocation, and what comes after it.
use mathlib.Core.Path.{subst}
use relais.Base.{
  ℕ, ◌<◌, ◌≡◌, sym, ◌∙◌, ap, inl, inr, false, List, [], ◌∷◌, Option, none, some, arith, ◌==◌,
  Bool-cases, Option-cases, All, equal, ok, ok_inj, err_ne_ok,
}
use relais.Text.{Text}
use relais.FromPattern.Matching.{Patterns}
use relais.Crypto.Secret.{parse_api_key, normalize_smtp_username}
use relais.Store.Vault.{
  CredentialType, api_key_type, smtp_user_type, CredentialRow, find_lookup, find_credential,
  update_credential, revoked_row,
}
use relais.Store.Rows.{Db}
use relais.Store.Session.{
  World, Run, ◌>>=◌, return, query, query-quiet, query-lost, next_fault, run-bind-ok, query-ok,
}
use relais.Store.Credentials.{
  AuthCredential, NewCredential, Secrets, Side, revoke_query, lookup_query, list_query, found,
  senders, receivers,
}
use relais.Store.Credentials.Operations.{
  create_credential, rotate_credential_secret, revoke_credential, delete_credential, add_patterns,
  remove_pattern, load_credential_by_lookup, with_patterns, compile,
}
use relais.Store.Credentials.Revoked.{IsRevoked, Barred, query-Keeps, revoke-Leaves}
use relais.Store.Credentials.Revocation.{
  create_credential-Keeps, rotate-Keeps, add_patterns-Keeps, delete-Keeps, remove-Keeps,
}
use relais.Authn.{verify_lookup, api_key, smtp_user}
use relais.Authn.Checks.{verify_iff}

-- A call of the administration.
pub data Call : Type 0 where
  creates : NewCredential → Call
  rotates revokes deletes : ℕ → Call
  adds : Side → ℕ → List Text → Call
  removes : Side → ℕ → ℕ → Call

-- The world after a call, whatever it answers.
unfoldable pub step : Secrets → Call → World → World
step s (creates p) w = (create_credential s p w).1
step s (rotates j) w = (rotate_credential_secret s j w).1
step s (revokes j) w = (revoke_credential j w).1
step s (deletes j) w = (delete_credential j w).1
step s (adds side j raw) w = (add_patterns s side j raw w).1
step s (removes side owner j) w = (remove_pattern side owner j w).1

step-Barred : (id : ℕ) (s : Secrets) (c : Call) (w : World) → Barred id w → Barred id (step s c w)
unfolding step revoke_credential
step-Barred id s (creates p) w b = create_credential-Keeps id s p w b
step-Barred id s (rotates j) w b = rotate-Keeps id s j w b
step-Barred id s (revokes j) w b = query-Keeps id (revoke_query j) (revoke-Leaves id j) w b
step-Barred id s (deletes j) w b = delete-Keeps id j w b
step-Barred id s (adds side j raw) w b = add_patterns-Keeps id s side j raw w b
step-Barred id s (removes side owner j) w b = remove-Keeps id side owner j w b

unfoldable pub run : Secrets → List Call → World → World
run s [] w = w
run s (c ∷ cs) w = run s cs (step s c w)

run-Barred :
    (id : ℕ) (s : Secrets) (cs : List Call) (w : World) → Barred id w → Barred id (run s cs w)
unfolding run
run-Barred id s [] w b = b
run-Barred id s (c ∷ cs) w b = run-Barred id s cs (step s c w) (step-Barred id s c w b)

revoke-All :
    (id now : ℕ) (cs : List CredentialRow)
    → All (IsRevoked id) (update_credential id (revoked_row now) cs)
unfolding update_credential
revoke-All id now [] = tt
revoke-All id now (c ∷ cs) = ((λ h. ground arith), revoke-All id now cs)

revoke_query-Revoked :
    (id : ℕ) (w : World) (row : CredentialRow) (db : Db)
    → revoke_query id w ≡ ok (row, db)
    → All (IsRevoked id) db.credentials
revoke_query-Revoked id w row db h = elim (Option-cases (find_credential id w.db.credentials)) [
  | inl gone ↦ ground arith
  | inr (c, there) ↦
      let left = update_credential id (revoked_row w.now) w.db.credentials in
      let same : record (w.db) { credentials = left } ≡ db = ground arith in
      subst (λ d. All (IsRevoked id) d.credentials) same (revoke-All id w.now w.db.credentials)
]

revoke-Barred :
    (id : ℕ) (w : World) (row : CredentialRow)
    → id < w.next_id
    → (revoke_credential id w).0 ≡ ok row
    → Barred id (revoke_credential id w).1
unfolding revoke_credential
revoke-Barred id w row used done = elim (Bool-cases (next_fault w.faults)) [
  | inl lost ↦ absurd (err_ne_ok (sym (ap (λ p. p.0) (query-lost (revoke_query id) w lost)) ∙ done))
  | inr quiet ↦
      let (db, made) = query-ok (revoke_query id) w done in
      rw (query-quiet (revoke_query id) w quiet, revoke_credential, made)
        (record { used = used; rows = revoke_query-Revoked id w row db made })
]

find_lookup-Revoked :
    (id : ℕ) (lookup : Text) (cs : List CredentialRow) (c : CredentialRow)
    → All (IsRevoked id) cs
    → find_lookup lookup cs ≡ some c
    → IsRevoked id c
unfolding find_lookup
find_lookup-Revoked id lookup [] c h e = cc
find_lookup-Revoked id lookup (d ∷ cs) c h e = elim (Bool-cases (equal d.lookup lookup)) [
  | inl same ↦ let it : d ≡ c = ground arith in subst (IsRevoked id) it h.0
  | inr other ↦ find_lookup-Revoked id lookup cs c h.1 (ground arith)
]

found-some :
    (o : Option CredentialRow) (w : World) {row : CredentialRow} {db : Db}
    → found o w ≡ ok (row, db)
    → o ≡ some row
found-some none w h = cc
found-some (some c) w h = ground arith

module _ (s : Secrets) where
  with_patterns-row :
      (row : CredentialRow) (w : World) (auth : AuthCredential)
      → (with_patterns s row w).0 ≡ ok auth
      → auth.credential ≡ row
  unfolding with_patterns
  with_patterns-row row w auth h =
      let give : Patterns → Patterns → Run AuthCredential =
        λ set rules. return (record { credential = row; patterns = set; recipients = rules }) in
      let k3 : Patterns → List Text → Run AuthCredential =
        λ set more. compile s more >>= give set in
      let k2 : Patterns → Run AuthCredential =
        λ set. query (list_query s.sql receivers row.id) >>= k3 set in
      let k1 : List Text → Run AuthCredential = λ stored. compile s stored >>= k2 in
      let (stored, e0, h0) = run-bind-ok (query (list_query s.sql senders row.id)) k1 w h in
      let w1 = (query (list_query s.sql senders row.id) w).1 in
      let (set, e1, h1) = run-bind-ok (compile s stored) k2 w1 h0 in
      let w2 = (compile s stored w1).1 in
      let (more, e2, h2) = run-bind-ok (query (list_query s.sql receivers row.id)) (k3 set) w2 h1 in
      let w3 = (query (list_query s.sql receivers row.id) w2).1 in
      let (rules, e3, h3) = run-bind-ok (compile s more) (give set) w3 h2 in
      ap (λ a. a.credential) (sym (ok_inj h3))

  loaded-row :
      (lookup : Text) (w : World) (auth : AuthCredential)
      → (load_credential_by_lookup s lookup w).0 ≡ ok auth
      → find_lookup lookup w.db.credentials ≡ some auth.credential
  unfolding load_credential_by_lookup
  loaded-row lookup w auth h =
      let (row, read, compiled) = run-bind-ok (query (lookup_query lookup)) (with_patterns s) w h in
      let (db, there) = query-ok (lookup_query lookup) w read in
      found-some (find_lookup lookup w.db.credentials) w there
      ∙ ap (λ r. some r)
          (sym (with_patterns-row row (query (lookup_query lookup) w).1 auth compiled))

  verify_lookup-Barred :
      (id : ℕ) (lookup secret : Text) (want : CredentialType) (w : World) (auth : AuthCredential)
      → Barred id w
      → (verify_lookup s lookup secret want w).0 ≡ ok auth
      → (auth.credential.id == id) ≡ false
  unfolding verify_lookup
  verify_lookup-Barred id lookup secret want w auth b h =
      let (loaded, passes) = (verify_iff s.digests s.hasher secret want _ auth).0 h in
      let revoked =
        find_lookup-Revoked id lookup w.db.credentials auth.credential b.rows
          (loaded-row lookup w auth loaded) in
      ground (arith, revoked, passes.not_revoked)

  api_key-Barred :
      (id : ℕ) (token : Text) (w : World) (auth : AuthCredential)
      → Barred id w
      → (api_key s token w).0 ≡ ok auth
      → (auth.credential.id == id) ≡ false
  unfolding api_key
  api_key-Barred id token w auth b h = elim (Option-cases (parse_api_key s.digests token)) [
    | inl bad ↦ ground arith
    | inr ((lookup, secret), read) ↦
        verify_lookup-Barred id lookup secret api_key_type w auth b (ground arith)
  ]

  smtp_user-Barred :
      (id : ℕ) (username password : Text) (w : World) (auth : AuthCredential)
      → Barred id w
      → (smtp_user s username password w).0 ≡ ok auth
      → (auth.credential.id == id) ≡ false
  unfolding smtp_user
  smtp_user-Barred id username password w auth b h =
      elim (Option-cases (normalize_smtp_username s.digests username)) [
        | inl bad ↦ ground arith
        | inr (lookup, read) ↦
            verify_lookup-Barred id lookup password smtp_user_type w auth b (ground arith)
      ]

-- After a revocation that has succeeded, whatever calls to create, rotate, revoke or delete
-- credentials and to add or remove patterns follow, in any order and whichever queries fail,
-- neither an API key nor an SMTP user authenticates as a credential with the revoked id. The id is
-- assumed to be below those that the database has yet to give.
pub revoke-Final :
    (s : Secrets) (id : ℕ) (w : World) (row : CredentialRow) (calls : List Call)
    → id < w.next_id
    → (revoke_credential id w).0 ≡ ok row
    → (auth : AuthCredential)
    → ((token : Text)
        → (api_key s token (run s calls (revoke_credential id w).1)).0 ≡ ok auth
        → (auth.credential.id == id) ≡ false)
      × ((username password : Text)
          → (smtp_user s username password (run s calls (revoke_credential id w).1)).0 ≡ ok auth
          → (auth.credential.id == id) ≡ false)
revoke-Final s id w row calls used done auth =
    let later = run s calls (revoke_credential id w).1 in
    let barred =
      run-Barred id s calls (revoke_credential id w).1 (revoke-Barred id w row used done) in
    (
      λ token. api_key-Barred s id token later auth barred,
      λ username password. smtp_user-Barred s id username password later auth barred,
    )
