-- ===== src/Store/Session.antt =====
-- A run against the database. Any query can fail (a lost connection, a timeout): which ones do is
-- a script, so a theorem about every script is about every failure.
use relais.Base.{
  arith, inl, inr, Result-cases, Bool-cases, ◌≡◌, refl, ℕ, Bool, true, false, List, [], ◌∷◌, Result,
  ok, err,
}
use relais.Text.{Text}
use relais.Store.Rows.{Db}

-- The sentinels that `classify` tells apart, `validation` for a value that the code refuses, and every
-- other error.
pub data StoreError : Type 0 where
  not_found validation failure reference constraint : StoreError
  conflict : Text → StoreError

pub record World : Type 0 where
  pub db : Db
  pub faults : List Bool
  pub now : ℕ
  pub next_id : ℕ

abbrev pub Run : Type 0 → Type 0
Run A = World → Result StoreError A × World

infixl 5 ◌>>=◌ ◌>>◌
abbrev pub ◌>>=◌ : {A B : Type 0} → Run A → (A → Run B) → Run B
◌>>=◌ m f w = let (r, w') = m w in elim r [ ok a ↦ f a w' | err e ↦ (err e, w') ]

abbrev pub ◌>>◌ : {B : Type 0} → Run (Unit {0}) → Run B → Run B
m >> k = m >>= λ _. k

abbrev pub return : {A : Type 0} → A → Run A
return a w = (ok a, w)

abbrev pub throw : {A : Type 0} → StoreError → Run A
throw e w = (err e, w)

-- The script says whether the next query fails; with no more of it, none does.
abbrev pub next_fault : List Bool → Bool
next_fault [] = false
next_fault (b ∷ _) = b

abbrev pub later_faults : List Bool → List Bool
later_faults [] = []
later_faults (_ ∷ bs) = bs

abbrev pub settle : {A : Type 0} → World → Result StoreError (A × Db) → Result StoreError A × World
settle w (ok (a, db)) = (ok a, record w { db = db })
settle w (err e) = (err e, w)

-- One query: it fails and changes nothing, or does what it says.
unfoldable pub query : {A : Type 0} → (World → Result StoreError (A × Db)) → Run A
query q w = elim (next_fault w.faults) [
  | true ↦ (err failure, record w { faults = later_faults w.faults })
  | false ↦ settle (record w { faults = later_faults w.faults }) (q w)
]

-- The world after one query.
abbrev pub tick : World → World
tick w = record w { faults = later_faults w.faults }

module _ {A : Type 0} (q : World → Result StoreError (A × Db)) (w : World) where
  pub query-quiet : next_fault w.faults ≡ false → query q w ≡ settle (tick w) (q w)
  unfolding query
  query-quiet quiet = rw (quiet, query) refl

  pub query-lost : next_fault w.faults ≡ true → query q w ≡ (err failure, tick w)
  unfolding query
  query-lost lost = rw (lost, query) refl

abbrev pub nothing : World → Result StoreError (Unit {0} × Db)
nothing w = ok (tt, w.db)

-- `withTx` and `withTxRaw`: begin, the body, commit; on an error the database is as it was.
unfoldable pub with_tx : {A : Type 0} → Run A → Run A
unfolding query
with_tx body w =
    let (r, w') = (do query nothing; a ← body; query nothing; return a) w in
    elim r [ ok a ↦ (ok a, w') | err e ↦ (err e, record w' { db = w.db }) ]

-- What went before a run that has succeeded.
pub run-bind-ok :
    {A B : Type 0} (m : Run A) (f : A → Run B) (w : World) {b : B}
    → ((m >>= f) w).0 ≡ ok b
    → (a : A) × ((m w).0 ≡ ok a) × ((f a (m w).1).0 ≡ ok b)
run-bind-ok m f w h = elim (Result-cases (m w).0) [
  | inl (a, e) ↦ (a, e, ground arith)
  | inr (x, e) ↦ ground arith
]

settled-ok :
    {A : Type 0} (w : World) (r : Result StoreError (A × Db)) {a : A}
    → (settle w r).0 ≡ ok a
    → (db : Db) × (r ≡ ok (a, db))
settled-ok w (ok (a, db)) h = (db, ground arith)
settled-ok w (err e) h = cc

-- What a query that has succeeded has computed.
pub query-ok :
    {A : Type 0} (q : World → Result StoreError (A × Db)) (w : World) {a : A}
    → (query q w).0 ≡ ok a
    → (db : Db) × (q w ≡ ok (a, db))
unfolding query
query-ok q w h = elim (Bool-cases (next_fault w.faults)) [
  | inl lost ↦ ground arith
  | inr quiet ↦ settled-ok (tick w) (q w) (ground arith)
]
