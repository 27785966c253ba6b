-- ===== src/Authn/Reads.antt =====
-- The authentication in the database.
use relais.Base.{refl, List, Option, none, some, Option-cases, Result-cases, inl, inr}
use relais.Text.{Text}
use relais.FromPattern.Matching.{Patterns, new_set}
use relais.Crypto.Secret.{parse_api_key}
use relais.Store.Vault.{CredentialRow, find_lookup}
use relais.Store.Session.{World, Run, query, return, ◌>>=◌}
use relais.Store.Reads.{Reads, IsRead, Keeps, query-IsRead, bind-IsRead, Reads-refl}
use relais.Store.Credentials.{
  AuthCredential, Secrets, senders, receivers, list_query, lookup_query, found,
}
use relais.Store.Credentials.Operations.{compile, with_patterns, load_credential_by_lookup}
use relais.Authn.{verify_lookup, api_key}

found-Keeps : (o : Option CredentialRow) (w : World) → Keeps w (found o w)
found-Keeps none w = tt
found-Keeps (some c) w = refl

module _ (s : Secrets) where
  compile-IsRead : (raw : List Text) → IsRead (compile s raw)
  unfolding compile
  compile-IsRead raw w = elim (Result-cases (new_set s.idna raw)) [
    | inl (set, e) ↦ rw (e, compile) (Reads-refl w)
    | inr (_, e) ↦ rw (e, compile) (Reads-refl w)
  ]

  with_patterns-IsRead : (row : CredentialRow) → IsRead (with_patterns s row)
  unfolding with_patterns
  with_patterns-IsRead row =
      let built : Patterns → Patterns → AuthCredential =
        λ p r. record { credential = row; patterns = p; recipients = r } in
      let last : Patterns → List Text → Run AuthCredential =
        λ p l. compile s l >>= λ r. return (built p r) in
      let later : Patterns → Run AuthCredential =
        λ p. query (list_query s.sql receivers row.id) >>= last p in
      bind-IsRead (query (list_query s.sql senders row.id)) (λ l. compile s l >>= later)
        (query-IsRead (list_query s.sql senders row.id) (λ v. refl))
        (λ l. bind-IsRead (compile s l) later (compile-IsRead l) (λ p.
          bind-IsRead (query (list_query s.sql receivers row.id)) (last p)
            (query-IsRead (list_query s.sql receivers row.id) (λ v. refl))
            (λ r.
              bind-IsRead (compile s r) (λ q. return (built p q)) (compile-IsRead r)
                (λ q v. Reads-refl v))))

  load_credential_by_lookup-IsRead : (lookup : Text) → IsRead (load_credential_by_lookup s lookup)
  unfolding load_credential_by_lookup
  load_credential_by_lookup-IsRead lookup =
      bind-IsRead (query (lookup_query lookup)) (with_patterns s)
        (query-IsRead (lookup_query lookup)
          (λ v. found-Keeps (find_lookup lookup v.db.credentials) v))
        with_patterns-IsRead

  pub api_key-Reads : (token : Text) (w : World) → Reads w (api_key s token w).1
  unfolding api_key verify_lookup
  api_key-Reads token w = elim (Option-cases (parse_api_key s.digests token)) [
    | inl bad ↦ rw (bad, api_key) (Reads-refl w)
    | inr ((lookup, secret), parsed) ↦
        rw (parsed, api_key) (load_credential_by_lookup-IsRead lookup w)
  ]
