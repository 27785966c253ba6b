-- ===== src/Jobs/Idle.antt =====
-- Runs of the delivery worker on a message that is not to be delivered.
use relais.Base.{◌≡◌, refl, false, some, Bool-cases, inl, inr}
use relais.Store.Rows.{Message, is_sent, is_claimable, claim_row}
use relais.Store.Session.{◌>>=◌, tick, World, next_fault}
use relais.Store.Marks.{mark_sending}
use relais.Store.Status.{row, mark-miss, mark-kept}
use relais.Store.Reads.{get_message-quiet, get_message-lost}
use relais.Store.Routes.{Keys}
use relais.Jobs.{Job, End, Deliverer, with_claim, with_message, work}

module _ (k : Keys) (send : Deliverer) (job : Job) where
  -- An end that has not relayed the message and has left its row.
  abbrev Idle : Message → End → Type 0
  Idle m e = (e.relayed ≡ false) × (row job.message_id e.world ≡ some m)

  claim-Idle :
      (m : Message) (w : World)
      → row job.message_id w ≡ some m
      → is_claimable m.status ≡ false
      → Idle m (with_claim k send job m (mark_sending job.message_id w))
  unfolding with_claim mark_sending
  claim-Idle m w found final =
      let kept =
        mark-kept is_claimable claim_row job.message_id w job.message_id m (λ n. refl) found
          (inr final) in
      elim (mark-miss is_claimable claim_row job.message_id w m found final) [
        | inl none_changed ↦ rw (none_changed, ◌>>=◌) (refl, kept)
        | inr lost ↦ rw (lost, ◌>>=◌) (refl, kept)
      ]

  -- A run of the worker on a message that is neither queued nor sending does not give it to the
  -- relay and leaves its row as it was, whichever queries fail.
  pub work-Idle :
      (m : Message) (w : World)
      → row job.message_id w ≡ some m
      → is_claimable m.status ≡ false
      → Idle m (work k send job w)
  unfolding work with_message
  work-Idle m w found final = elim (Bool-cases (next_fault w.faults)) [
    | inl lost ↦ rw (get_message-lost job.message_id w lost) (refl, found)
    | inr quiet ↦ rw (get_message-quiet job.message_id w quiet) (
        rw found (elim (Bool-cases (is_sent m.status)) [
          | inl over ↦ rw over (refl, found)
          | inr still ↦ rw still (claim-Idle m (tick w) found final)
        ]))
  ]
