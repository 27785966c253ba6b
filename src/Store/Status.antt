-- ===== src/Store/Status.antt =====
-- The row of one message under the guarded updates.
use relais.Base.{
  ℕ, ◌≡◌, ◌≢◌, ap, ◌∙◌, Bool, true, false, List, [], ◌∷◌, Option, none, some, arith, ◌==◌, ==_iff,
  if◌then◌else◌, Bool-cases, inl, inr, ◌⊎◌, ok, err,
}
use relais.Store.Rows.{Status, Message, find_message, update_message, guarded, affected}
use relais.Store.Session.{tick, query-quiet, query-lost, World, next_fault, failure}
use relais.Store.Marks.{mark, marking}

-- An update keeps the id of the row.
abbrev pub KeepsId : (Message → Message) → Type 0
KeepsId f = (m : Message) → (f m).id ≡ m.id

pub find_message-id :
    (id : ℕ) (ms : List Message) {m : Message} → find_message id ms ≡ some m → m.id ≡ id
unfolding find_message
find_message-id id [] h = cc
find_message-id id (n ∷ ms) {m} h = elim (Bool-cases (n.id == id)) [
  | inl same ↦ let e : n ≡ m = ground arith in rw (← e) ((==_iff n.id id).0 same)
  | inr other ↦ find_message-id id ms {m = m} (ground arith)
]

abbrev pub map_option : (Message → Message) → Option Message → Option Message
map_option f none = none
map_option f (some m) = some (f m)

pub find-update :
    (id j : ℕ) (f : Message → Message) (ms : List Message)
    → KeepsId f
    → find_message j (update_message id f ms)
      ≡ (if id == j then map_option f (find_message j ms) else find_message j ms)
unfolding find_message update_message
find-update id j f [] k = ground arith
find-update id j f (m ∷ ms) k = elim (Bool-cases (m.id == id)) [
  | inl same ↦ rw same (ground (arith, k m, find-update id j f ms k))
  | inr other ↦ rw other (ground (arith, find-update id j f ms k))
]

-- The row that the database has for an id.
abbrev pub row : ℕ → World → Option Message
row id w = find_message id w.db.messages

pub guarded-KeepsId :
    (test : Status → Bool) (f : Message → Message) → KeepsId f → KeepsId (guarded test f)
unfolding guarded
guarded-KeepsId test f keeps m = ground (arith, keeps m)

module _ (test : Status → Bool) (f : ℕ → Message → Message) (id : ℕ) (w : World) where
  -- the table after the update
  abbrev pub marked : World
  marked = record (tick w) {
    db = record (w.db) { messages = update_message id (guarded test (f w.now)) w.db.messages };
  }

  mark-quiet :
      next_fault w.faults ≡ false → mark test f id w ≡ (ok (affected test id w.db.messages), marked)
  unfolding mark
  mark-quiet quiet = query-quiet (marking test f id) w quiet

  pub mark-lost : next_fault w.faults ≡ true → mark test f id w ≡ (err failure, tick w)
  unfolding mark
  mark-lost lost = query-lost (marking test f id) w lost

  affected-hit :
      (m : Message) → row id w ≡ some m → test m.status ≡ true → affected test id w.db.messages ≡ 1
  unfolding affected
  affected-hit m found hit = rw (found, affected) (ground (arith, hit))

  marked-row :
      (j : ℕ) (m : Message)
      → KeepsId (f w.now)
      → row j w ≡ some m
      → row j marked ≡ some (if id == j then guarded test (f w.now) m else m)
  marked-row j m keeps found =
      find-update id j (guarded test (f w.now)) w.db.messages (guarded-KeepsId test (f w.now) keeps)
      ∙ ground (arith, found)

  -- A guarded update that the database carries out: its guard holds, and the row is changed.
  pub mark-hit :
      (m : Message)
      → next_fault w.faults ≡ false
      → KeepsId (f w.now)
      → row id w ≡ some m
      → test m.status ≡ true
      → (mark test f id w ≡ (ok 1, marked)) × (row id marked ≡ some (f w.now m))
  unfolding guarded
  mark-hit m quiet keeps found hit = (
    mark-quiet quiet ∙ ground (arith, affected-hit m found hit),
    marked-row id m keeps found ∙ ground (arith, ==_iff id id, hit),
  )

  affected-miss :
      (m : Message) → row id w ≡ some m → test m.status ≡ false → affected test id w.db.messages ≡ 0
  unfolding affected
  affected-miss m found miss = rw (found, affected) (ground (arith, miss))

  -- One whose guard does not hold changes no row.
  pub mark-miss :
      (m : Message)
      → row id w ≡ some m
      → test m.status ≡ false
      → ((mark test f id w).0 ≡ ok 0) ⊎ ((mark test f id w).0 ≡ err failure)
  mark-miss m found miss = elim (Bool-cases (next_fault w.faults)) [
    | inl lost ↦ inr (ap (λ p. p.0) (mark-lost lost))
    | inr quiet ↦ inl (ap (λ p. p.0) (mark-quiet quiet) ∙ ap ok (affected-miss m found miss))
  ]

  -- Whatever happens, every other row stays, and so does a row that fails the guard.
  pub mark-kept :
      (j : ℕ) (m : Message)
      → KeepsId (f w.now)
      → row j w ≡ some m
      → (j ≢ id) ⊎ (test m.status ≡ false)
      → row j (mark test f id w).1 ≡ some m
  unfolding guarded
  mark-kept j m keeps found kept = elim (Bool-cases (next_fault w.faults)) [
    | inl lost ↦ rw (mark-lost lost) found
    | inr quiet ↦
        rw (mark-quiet quiet) (marked-row j m keeps found ∙ ground (arith, ==_iff id j, kept))
  ]
