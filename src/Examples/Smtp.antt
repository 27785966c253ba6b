-- ===== src/Examples/Smtp.antt =====
-- Runs of a submission over SMTP.
use relais.Base.{◌≡◌, refl, ℕ, Bool, true, false, List, [], ◌∷◌, none, if◌then◌else◌}
use relais.Text.{codes}
use relais.Store.Rows.{queued}
use relais.Text.{trim_space, trim_left, trim_right, is_space, lower_rune}
use relais.FromPattern.Matching.{new_set_onto}
use relais.Crypto.Secret.{verify_secret, fingerprint, normalize_smtp_username, is_smtp_username}
use relais.Store.Vault.{smtp_user_type, find_lookup, patterns_of}
use relais.Store.Session.{World, query}
use relais.Store.Credentials.Operations.{load_credential_by_lookup, with_patterns, compile}
use relais.Authn.{verify, verify_lookup, smtp_user}
use relais.Mailnorm.Parse.{Reader}
use relais.Ingest.Submission.{Answer, refused, refusal}
use relais.Smtpd.{auth_mechanism, answer_reply, authentication_required}
use relais.Smtpd.Session.{
  no_exchange, Server, Conn, Session, authenticate, authenticated_as, mail, ReadFailure, new_conn,
  data_call,
}
use relais.Smtpd.Protocol.{
  Call, resets, auths, plain_responds, mails, rcpts, reads, run, auth, respond, finish, step,
}
use relais.Smtpd.Cleartext.{Untouched, run-Anonymous}
use relais.Smtpd.Moves.{Follows}
use relais.Smtpd.Phases.{step-Follows}
use relais.Smtpd.Traces.{Sends, run-Sends}
use relais.Smtpd.Replies.{IsClass, is_accepted, is_temporary, answer_reply-IsClass}
use relais.Examples.Samples.{credential_row, alice, service, secrets, no_calls, world_of}

abbrev server : Server ℕ
server = record {
  limits = record { domain = codes "localhost"; max_message_bytes = 1000; max_recipients = 2 };
  service = service alice;
  secrets = secrets;
  upper = λ c. c;
}

abbrev reader : Reader ReadFailure
reader = record { content = codes "hello"; failure = none }

-- a client that does not ask for encryption
abbrev plaintext : List (Bool × Call)
plaintext =
    (false, auths (codes "plain"))
    ∷ (true, plain_responds (codes "user") (codes "password"))
    ∷ (false, mails (codes "alice@example.com"))
    ∷ (true, rcpts (codes "bob@mail.example.com"))
    ∷ (false, reads reader)
    ∷ []

abbrev at_first : Conn ℕ
at_first = new_conn none no_calls (world_of queued [])

run-Anonymous_example :
    Untouched server at_first (run server plaintext at_first)
    × ((r : Reader ReadFailure)
        → (data_call server r
            (run server plaintext at_first).session
            ((run server plaintext at_first).limiter, (run server plaintext at_first).world)).0
          ≡ authentication_required)
run-Anonymous_example = run-Anonymous server none no_calls (world_of queued []) plaintext refl

abbrev encrypted : List (Bool × Call)
encrypted =
    (true, auths (codes "plain"))
    ∷ (true, plain_responds (codes "user") (codes "password"))
    ∷ (true, mails (codes "alice@example.com"))
    ∷ []

-- somebody who has named a recipient starts anew
abbrev under_way : Conn ℕ
under_way = record at_first {
  session = record (at_first.session) { authenticated = true; recipients = codes "bob" ∷ [] };
}

step-Follows_example :
    Follows server no_exchange under_way.world resets under_way.session
      (step server true resets under_way).1.session
step-Follows_example = step-Follows server true resets under_way (λ e. cc)

-- the user of these tables, without patterns
abbrev with_user : World
with_user =
    let w = world_of queued [] in
    record w {
      db = record (w.db) {
        credentials = record credential_row { kind = smtp_user_type; lookup = codes "user" } ∷ [];
        from_patterns = [];
        recipient_patterns = [];
      };
    }

abbrev logged_in : Session
logged_in = (run server encrypted (new_conn none no_calls with_user)).session

run-Sends_example : Sends server logged_in.credential logged_in.recipients
unfolding run step auth auth_mechanism respond finish authenticate authenticated_as mail smtp_user
    verify_lookup verify verify_secret fingerprint normalize_smtp_username is_smtp_username
    load_credential_by_lookup with_patterns compile query find_lookup patterns_of new_set_onto
    trim_space trim_left trim_right is_space lower_rune
run-Sends_example = run-Sends server none no_calls with_user encrypted refl

abbrev limited : Answer
limited = refused (refusal (codes "rate_limited") [])

answer_reply-IsClass_example :
    IsClass
      (if is_accepted limited then 2 else if is_temporary limited then 4 else 5)
      (answer_reply (λ n. []) limited).code
answer_reply-IsClass_example = answer_reply-IsClass (λ n. []) limited
