-- ===== src/Examples/Submission.antt =====
-- Runs of a submission.
use relais.Base.{◌≡◌, refl, ◌≤◌, true, false, List, [], ◌∷◌, none, ◌⊎◌, length, is_empty}
use relais.Text.{
  Text, codes, len, rune_len, is_space, trim_left, trim_right, trim_space, cut_last, split_onto,
  lower_rune, trim_suffix,
}
use relais.FromPattern.Normalize.{
  is_allowed_local_rune, quoted, misplaced_dot, normalize_local, is_label_rune, hyphen_edge,
  check_label, check_labels, check_domain, normalize_domain,
}
use relais.FromPattern.Parse.{join_address, parse_address, address_string}
use relais.FromPattern.Matching.{matches, match_set, has_suffix}
use relais.Store.Rows.{queued}
use relais.Store.Messages.{NewMessage, insert_queued_message}
use relais.Store.Insert.{Atomic, insert_queued_message-Atomic}
use relais.Ingest.{submit, check_recipient, check_recipients, validate_recipients}
use relais.Ingest.Submission.{rules_allow}
use relais.Ingest.Authorized.{Unqueued, Authorized, submit-Unqueued}
use relais.Ingest.Envelope.{Envelope, validate_recipients-Envelope}
use relais.Examples.Samples.{alice, bob, no_calls, world_of, request_of, service}

abbrev asked : List Text
asked = codes "Bob@mail.example.com" ∷ codes "bob@mail.example.com" ∷ []

-- the parser finds another sender than the one that the credential may use
submit-Unqueued_example :
    Unqueued
      (world_of queued [])
      (submit (service bob) (request_of asked) (no_calls, world_of queued [])).1.1
    ⊎ Authorized (service bob) (request_of asked)
submit-Unqueued_example =
    submit-Unqueued (service bob) (request_of asked) no_calls (world_of queued [])

validate_recipients-Envelope_example :
    Envelope
      (service alice)
      (request_of asked).credential.recipients
      asked
      (codes "bob@mail.example.com" ∷ [])
    × (is_empty asked ≡ false)
    × (length asked ≤ 3)
unfolding validate_recipients check_recipients check_recipient rules_allow matches match_set
    has_suffix parse_address address_string trim_space trim_left trim_right is_space len rune_len
    cut_last join_address normalize_local normalize_domain lower_rune is_allowed_local_rune quoted
    misplaced_dot trim_suffix check_domain check_labels check_label split_onto is_label_rune
    hyphen_edge
validate_recipients-Envelope_example =
    validate_recipients-Envelope (service alice) (request_of asked)
      (codes "bob@mail.example.com" ∷ []) refl

abbrev submission : NewMessage
submission = record {
  credential_id = 7;
  facade = codes "rest";
  from_addr = codes "alice@example.com";
  from_domain = codes "example.com";
  to = [];
  cc = [];
  bcc = [];
  envelope_recipients = asked;
  subject = codes "hello";
  message_id = codes "<1@example.com>";
  size_bytes = 5;
  backend_id = 3;
  idempotency_key = codes "once";
  remote_ip = none;
}

-- the database is lost when the job is to be written
insert_queued_message-Atomic_example :
    Atomic submission (codes "hello") (world_of queued (false ∷ false ∷ false ∷ true ∷ [])) (
      insert_queued_message submission
        (codes "hello")
        (world_of queued (false ∷ false ∷ false ∷ true ∷ [])))
insert_queued_message-Atomic_example =
    insert_queued_message-Atomic submission (codes "hello")
      (world_of queued (false ∷ false ∷ false ∷ true ∷ []))
