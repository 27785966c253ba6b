-- ===== src/Jobs/History.antt =====
-- Several runs of the delivery worker on one message, as river makes them.
use relais.Base.{
  ℕ, suc, ◌≤◌, ◌≡◌, refl, Bool, true, false, List, [], ◌∷◌, some, arith, All, Bool-cases, inl, inr,
  ◌⊎◌, sym,
}
use relais.Store.Rows.{Status, sent, Message, is_claimable}
use relais.Store.Session.{World}
use relais.Store.Status.{row}
use relais.Store.Routes.{Keys}
use relais.Jobs.{Outcome, done, Job, Deliverer, work}
use relais.Jobs.Ends.{agrees, work-Settled}
use relais.Jobs.Idle.{work-Idle}

abbrev pub count_relayed : Bool → ℕ → ℕ
count_relayed true n = suc n
count_relayed false n = n

-- How often the relay takes the message in these runs, each with its own relay.
unfoldable pub relays : Keys → List (Deliverer × Job) → World → ℕ
relays k [] w = 0
relays k ((send, job) ∷ rest) w =
    let e = work k send job w in count_relayed e.relayed (relays k rest e.world)

abbrev pub IsJobOf : ℕ → Deliverer × Job → Type 0
IsJobOf id run = run.1.message_id ≡ id

agrees-cases :
    (job : Job) (o : Outcome) (b : Bool) (s : Status)
    → agrees job o b s ≡ true
    → ((b ≡ true) × (is_claimable s ≡ false)) ⊎ (b ≡ false)
agrees-cases job o false s h = inr refl
agrees-cases job done true sent h = inl (refl, refl)
agrees-cases job o true s h = ground arith

module _ (k : Keys) (id : ℕ) where
  pub relays-final :
      (runs : List (Deliverer × Job)) (m : Message) (w : World)
      → All (IsJobOf id) runs
      → row id w ≡ some m
      → is_claimable m.status ≡ false
      → relays k runs w ≡ 0
  unfolding relays
  relays-final [] m w ours found final = refl
  relays-final ((send, job) ∷ rest) m w ours found final =
      let idle = work-Idle k send job m w (rw ours.0 found) final in
      rw idle.0
        (relays-final rest m (work k send job w).world ours.1 (rw (sym ours.0) idle.1) final)

  -- However often the worker runs on the jobs of one message, each time with any relay, the relays
  -- take the message at most once, when its row is in the database and no query fails.
  pub relays-once :
      (runs : List (Deliverer × Job)) (m : Message) (w : World)
      → All (IsJobOf id) runs
      → w.faults ≡ []
      → row id w ≡ some m
      → relays k runs w ≤ 1
  unfolding relays
  relays-once [] m w ours quiet found = omega arith
  relays-once ((send, job) ∷ rest) m w ours quiet found =
      elim (Bool-cases (is_claimable m.status)) [
        | inr final ↦ rw (relays-final ((send, job) ∷ rest) m w ours found final) (omega arith)
        | inl claimable ↦
            let e = work k send job w in
            let (n, found', agreed, quiet') = work-Settled k send job w (record {
              quiet = quiet;
              message = m;
              found = rw ours.0 found;
              claimable = claimable;
            }) in
            let found'' : row id e.world ≡ some n = rw (sym ours.0) found' in
            elim (agrees-cases job e.outcome e.relayed n.status agreed) [
              | inl (taken, final) ↦
                  rw (taken, relays-final rest n e.world ours.1 found'' final) (omega arith)
              | inr kept_back ↦ rw kept_back (relays-once rest n e.world ours.1 quiet' found'')
            ]
      ]
