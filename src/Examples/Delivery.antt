-- ===== src/Examples/Delivery.antt =====
-- Runs of the delivery worker, of the sender and of the store.
use relais.Base.{
  ◌==◌, if◌then◌else◌, ℕ, zero, suc, sym, ok_inj, ◌≡◌, ◌≢◌, ◌↔◌, refl, ap, ◌≤◌, true, false, List,
  [], ◌∷◌, Option, none, some, arith, inl, err, all,
}
use relais.Text.{codes, trim_space, trim_left, trim_right, is_space, cut_prefix}
use relais.FromPattern.Matching.{has_suffix}
use relais.Store.Rows.{
  queued, sending, sent, find_message, find_payload, find_backend, update_message, affected,
  guarded,
}
use relais.Store.Session.{query}
use relais.Store.Status.{row}
use relais.Store.Messages.{purge_payloads, get_message, get_payload}
use relais.Store.Marks.{mark_sending, mark, mark_sent}
use relais.Store.Retention.{purge_payloads-claimable}
use relais.Store.Routes.{resolve_onto, covers_sender, route_for_message, open_backend_password}
use relais.Store.Resolve.{Listed, NoneLonger, resolve_onto-longest_match}
use relais.Sender.{digits_onto, transient, permanent, SendError, Delivery, is_partial}
use relais.Sender.Exchange.{
  WireError, end_of_file, smtp, deliver, offer, send_data, smtp_code_of, summarize,
}
use relais.Sender.Recipients.{Tells, deliver-Tells, DelayedBy, deliver-refused, deliver-lost}
use relais.Sender.Handshake.{
  send, handshake, authenticate, then_write, pick_auth_mechanism, dial, contains_text,
}
use relais.Sender.Secrecy.{send-secret, send-authenticated, keeps_secret}
use relais.Jobs.{
  Deliverer, End, retry, work, with_message, with_claim, with_payload, with_route, settle_delivery,
}
use relais.Jobs.Ends.{Settled, work-Settled}
use relais.Jobs.Rounds.{rounds, Ended, rounds-Ended}
use relais.Jobs.Once.{work-Kept}
use relais.Jobs.Idle.{work-Idle}
use relais.Jobs.History.{relays, relays-once}
use relais.Jobs.Redelivery.{work-NotAgain}
use relais.Examples.Samples.{
  keys, first_attempt, takes_all, loses_connection, world_of, message_of, relay_row, domain_row,
  relay_with, outgoing_to, peer, config, route,
}

work-Settled_example :
    Settled first_attempt (work keys takes_all first_attempt (world_of queued []))
unfolding find_message
work-Settled_example =
    work-Settled keys takes_all first_attempt (world_of queued [])
      (record { quiet = refl; message = message_of 1 queued; found = refl; claimable = refl })

-- one round is too many for the connection, the next comes through
abbrev relays_at : ℕ → Deliverer
relays_at n = if n == 1 then loses_connection else takes_all

rounds-Ended_example :
    (e : End) × (rounds keys relays_at 8 first_attempt (world_of queued []) ≡ some e) × Ended 1 e
unfolding find_message
rounds-Ended_example =
    rounds-Ended keys relays_at 8 first_attempt (world_of queued []) (omega arith) (omega arith)
      (record { quiet = refl; message = message_of 1 queued; found = refl; claimable = refl })

work-Kept_example :
    row 2 (work keys loses_connection first_attempt (world_of sending (false ∷ true ∷ []))).world
    ≡ some (message_of 2 queued)
unfolding find_message
work-Kept_example =
    work-Kept 2 (message_of 2 queued) keys loses_connection first_attempt
      (world_of sending (false ∷ true ∷ [])) (inl (λ h. omega (arith, h))) refl

work-Idle_example :
    ((work keys takes_all first_attempt (world_of sent [])).relayed ≡ false)
    × (row 1 (work keys takes_all first_attempt (world_of sent [])).world
        ≡ some (message_of 1 sent))
unfolding find_message
work-Idle_example =
    work-Idle keys takes_all first_attempt (message_of 1 sent) (world_of sent []) refl refl

relays-once_example :
    relays keys
      ((loses_connection, first_attempt)
        ∷ (takes_all, first_attempt)
        ∷ (takes_all, first_attempt)
        ∷ [])
      (world_of queued [])
    ≤ 1
unfolding find_message
relays-once_example =
    relays-once keys 1
      ((loses_connection, first_attempt)
        ∷ (takes_all, first_attempt)
        ∷ (takes_all, first_attempt)
        ∷ [])
      (message_of 1 queued) (world_of queued []) (refl, (refl, (refl, tt))) refl refl

purge_payloads-claimable_example :
    find_payload 1 (purge_payloads 10 20 (world_of sending [])).1.db.payloads
    ≡ find_payload 1 (world_of sending []).db.payloads
unfolding find_message
purge_payloads-claimable_example =
    purge_payloads-claimable 10 20 1 (message_of 1 sending) (world_of sending []) refl refl

resolve_onto-longest_match_example :
    Listed
      (codes "mail.example.com")
      (relay_row ∷ [])
      (domain_row 5 (codes "example.com") ∷ domain_row 6 (codes "mail.example.com") ∷ [])
      (domain_row 6 (codes "mail.example.com"), relay_row)
    × NoneLonger
        (codes "mail.example.com")
        (relay_row ∷ [])
        (domain_row 5 (codes "example.com") ∷ domain_row 6 (codes "mail.example.com") ∷ [])
        (codes "mail.example.com")
unfolding resolve_onto covers_sender find_backend has_suffix
resolve_onto-longest_match_example =
    resolve_onto-longest_match (codes "mail.example.com") (relay_row ∷ [])
      (domain_row 5 (codes "example.com") ∷ domain_row 6 (codes "mail.example.com") ∷ [])
      (domain_row 6 (codes "mail.example.com"), relay_row) refl

-- the second of two recipients is refused
abbrev one_refused : ℕ → List ℕ → Option WireError
one_refused zero to = none
one_refused (suc i) to = some (smtp 550 (codes "no such user"))

abbrev two_recipients : List (List ℕ)
two_recipients = codes "bob@example.com" ∷ codes "eve@example.com" ∷ []

abbrev one_delivered : Delivery
one_delivered = record {
  accepted = codes "bob@example.com" ∷ [];
  rejected =
      record {
        address = codes "eve@example.com";
        smtp_code = 550;
        detail = codes "550 no such user";
      }
      ∷ [];
  response = [];
  used_tls = true;
}

deliver-Tells_example : Tells (relay_with one_refused) two_recipients one_delivered
unfolding deliver offer send_data smtp_code_of summarize trim_space trim_left trim_right is_space
    digits_onto
deliver-Tells_example =
    deliver-Tells (relay_with one_refused) (outgoing_to two_recipients) one_delivered refl

-- every recipient is put off
abbrev put_off : ℕ → List ℕ → Option WireError
put_off i to = some (smtp 450 (codes "later"))

deliver-refused_example :
    (e : SendError) × (deliver (relay_with put_off) (outgoing_to two_recipients) ≡ err e)
    × ((e.kind ≡ transient) ↔ DelayedBy (relay_with put_off) 0 two_recipients)
deliver-refused_example =
    deliver-refused (relay_with put_off) (outgoing_to two_recipients) refl
      (λ i to. (smtp 450 (codes "later"), refl))

-- the relay goes away before it answers
abbrev gone : ℕ → List ℕ → Option WireError
gone i to = some end_of_file

deliver-lost_example :
    (e : SendError) × (deliver (relay_with gone) (outgoing_to two_recipients) ≡ err e)
    × (e.kind ≡ permanent)
unfolding smtp_code_of
deliver-lost_example =
    deliver-lost (relay_with gone) (outgoing_to two_recipients) refl
      (λ i to. (end_of_file, refl, refl))

send-secret_example :
    all
      (keeps_secret (route (codes "user") (codes "secret")))
      (send config peer (route (codes "user") (codes "secret")) (outgoing_to two_recipients)).0
    ≡ true
send-secret_example =
    send-secret config peer (route (codes "user") (codes "secret")) (outgoing_to two_recipients)

send-authenticated_example : (peer.relay.encrypted ≡ true) × (peer.authenticated ≡ none)
unfolding send handshake authenticate then_write pick_auth_mechanism dial contains_text cut_prefix
send-authenticated_example =
    send-authenticated config peer (route (codes "user") (codes "secret"))
      (outgoing_to two_recipients) refl refl

work-NotAgain_example : (work keys takes_all first_attempt (world_of queued [])).outcome ≢ retry
unfolding work with_message with_claim with_payload with_route settle_delivery get_message
    mark_sending mark get_payload query route_for_message open_backend_password mark_sent affected
    guarded update_message find_message find_payload find_backend
work-NotAgain_example =
    work-NotAgain keys takes_all (λ r m d h. ap (λ e. is_partial e) (sym (ok_inj h))) first_attempt
      (world_of queued []) refl
