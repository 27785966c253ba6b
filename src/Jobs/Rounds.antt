-- ===== src/Jobs/Rounds.antt =====
-- A delivery job until river is done with it: a run that asks for another gets one, with the next
-- attempt.
use relais.Base.{
  ℕ, zero, suc, ◌+◌, ◌≤◌, ◌<◌, ◌≡◌, ap, ◌∙◌, ◌⊎◌, inl, inr, Bool, true, false, Option, none, some,
  arith,
}
use relais.Store.Rows.{Status, sent, failed, Message, is_claimable}
use relais.Store.Session.{World}
use relais.Store.Status.{row}
use relais.Store.Routes.{Keys}
use relais.Jobs.{Outcome, done, cancel, retry, Job, End, Deliverer, work}
use relais.Jobs.Ends.{agrees, Ready, work-Settled}

abbrev pub next_attempt : Job → Job
next_attempt job = record job { attempt = suc job.attempt }

abbrev pub after : Outcome → End → Option End → Option End
after done e more = some e
after cancel e more = some e
after retry e more = more

-- River's rounds, each with a relay of its own. None is the answer when they are not enough.
unfoldable pub rounds : Keys → (ℕ → Deliverer) → ℕ → Job → World → Option End
rounds k sends zero job w = none
rounds k sends (suc n) job w =
    let e = work k (sends job.attempt) job w in
    after e.outcome e (rounds k sends n (next_attempt job) e.world)

-- The message is sent after the relay took it, or failed and the relay did not take it.
abbrev pub is_final : Outcome → Bool → Status → Bool
is_final done true sent = true
is_final cancel false failed = true
is_final _ _ _ = false

pub record Ended (id : ℕ) (e : End) : Type 0 where
  pub message : Message
  pub found : row id e.world ≡ some message
  pub final : is_final e.outcome e.relayed message.status ≡ true

agrees-final :
    (job : Job) (o : Outcome) (b : Bool) (s : Status)
    → agrees job o b s ≡ true
    → ((is_final o b s ≡ true) × ((o ≡ done) ⊎ (o ≡ cancel)))
      ⊎ ((o ≡ retry) × (job.attempt < job.max_attempts) × (is_claimable s ≡ true))
agrees-final job o b s h = ground arith

module _ (k : Keys) (sends : ℕ → Deliverer) where
  -- The delivery job of a message that is queued or sending comes to an end within the attempts
  -- that it has left, whatever the relays answer, when no query fails and each run that asks for
  -- another gets one with the next attempt: the last run leaves the message sent, after the relay
  -- took it in this run, or failed, after the relay did not take it in this run.
  pub rounds-Ended :
      (n : ℕ) (job : Job) (w : World)
      → job.attempt ≤ job.max_attempts
      → job.max_attempts < n + job.attempt
      → Ready job.message_id w
      → (e : End) × (rounds k sends n job w ≡ some e) × Ended job.message_id e
  unfolding rounds
  rounds-Ended zero job w due enough r = absurd (omega arith)
  rounds-Ended (suc n) job w due enough r =
      let e = work k (sends job.attempt) job w in
      let (m, found, agreed, quiet) = work-Settled k (sends job.attempt) job w r in
      let more = rounds k sends n (next_attempt job) e.world in
      elim (agrees-final job e.outcome e.relayed m.status agreed) [
        | inl (final, over) ↦
            let ended : Ended job.message_id e = record {
              message = m;
              found = found;
              final = final;
            } in
            elim over [
              | inl is_done ↦ (e, ap (λ o. after o e more) is_done, ended)
              | inr is_cancel ↦ (e, ap (λ o. after o e more) is_cancel, ended)
            ]
        | inr (again, left, claimable) ↦
            let (last, ends, ended) =
              rounds-Ended n (next_attempt job) e.world (omega (arith, left))
                (omega (arith, enough))
                (record { quiet = quiet; message = m; found = found; claimable = claimable }) in
            (last, ap (λ o. after o e more) again ∙ ends, ended)
      ]
