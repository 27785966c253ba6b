-- ===== src/Smtpd.antt =====
-- internal/smtpd/smtpd.go: the replies and the session of the submission server. The library that
-- speaks the protocol calls the session; a reply is the `SMTPError` that a call returns.
pub mod Session
pub mod Protocol
pub mod Cleartext
pub mod Moves
pub mod Phases
pub mod Traces
pub mod Replies
use relais.Base.{
  ℕ, zero, suc, ◌+◌, Bool, true, false, not, ◌&&◌, ◌||◌, List, [], ◌∷◌, ◌++◌, Option, none, some,
  ltb, leb, if◌then◌else◌, is_empty, equal, any, length, Result, ok, err,
}
use relais.Base.Int.{ℤ, or_default}
use relais.Text.{Text, codes, to_upper}
use relais.Sender.{decimal}
use relais.Store.Session.{StoreError}
use relais.Ingest.Submission.{Rejection, Accepted, Answer, accepted, refused, broken}

-- `SMTPError`
pub record Reply : Type 0 where
  pub code : ℕ
  pub enhanced : ℕ × ℕ × ℕ
  pub message : Text

abbrev pub reply : ℕ → ℕ → ℕ → ℕ → Text → Reply
reply code a b c message = record { code = code; enhanced = (a, b, c); message = message }

-- `Config`, as far as the sessions use it
pub record Config : Type 0 where
  pub domain : Text
  pub addr : Text
  pub tls_addr : Text
  pub max_message_bytes : ℤ
  pub max_recipients : ℤ

-- what `New` keeps of it
pub record Limits : Type 0 where
  pub domain : Text
  pub max_message_bytes : ℕ
  pub max_recipients : ℕ

pub data NewError : Type 0 where
  no_ingest no_authenticator no_certificates no_address : NewError

-- `New`, on which of the three dependencies are there
unfoldable pub new_server : Bool → Bool → Bool → Config → Result NewError Limits
new_server has_ingest has_authenticator has_certificates cfg =
    if not has_ingest
    then err no_ingest
    else if not has_authenticator
    then err no_authenticator
    else if not has_certificates
    then err no_certificates
    else if is_empty cfg.addr && is_empty cfg.tls_addr
    then err no_address
    else ok (record {
      domain = if is_empty cfg.domain then codes "localhost" else cfg.domain;
      max_message_bytes = or_default cfg.max_message_bytes 10_485_760;
      max_recipients = or_default cfg.max_recipients 50;
    })

abbrev pub authentication_required : Reply
authentication_required = reply 530 5 7 0 (codes "authentication required")

-- the mechanisms
pub data Mechanism : Type 0 where
  plain login : Mechanism

-- `Auth`. `upper` stands for `unicode.ToUpper` beyond ASCII.
unfoldable pub auth_mechanism : (ℕ → ℕ) → Bool → Text → Result Reply Mechanism
auth_mechanism upper encrypted mech =
    if not encrypted
    then err (reply 538 5 7 11 (codes "encryption required for requested authentication mechanism"))
    else if equal (to_upper upper mech) (codes "PLAIN")
    then ok plain
    else if equal (to_upper upper mech) (codes "LOGIN")
    then ok login
    else err (reply 504 5 5 4 (codes "unsupported authentication mechanism"))

-- `acceptedReply`
unfoldable pub accepted_reply : (ℕ → Text) → Accepted → Reply
accepted_reply show_id a = reply 250 2 0 0 (
    if a.duplicate
    then codes "OK: duplicate of " ++ (show_id a.id ++ codes ", nothing queued")
    else codes "OK: queued as " ++ show_id a.id)

abbrev among : Text → List Text → Bool
among reason = any (equal reason)

abbrev pub is_denied : Text → Bool
is_denied reason = among reason (
    codes "sender_not_allowed" ∷ codes "domain_not_configured" ∷ codes "recipient_not_allowed" ∷ [])

abbrev pub is_too_large : Text → Bool
is_too_large reason =
    among reason
      (codes "message_too_large" ∷ codes "headers_too_large" ∷ codes "too_many_headers" ∷ [])

abbrev pub is_malformed : Text → Bool
is_malformed reason = among reason (
    codes "missing_from"
    ∷ codes "multiple_from"
    ∷ codes "invalid_from"
    ∷ codes "empty_message"
    ∷ codes "malformed_headers"
    ∷ [])

-- the `switch` of `rejectionReply`
unfoldable pub rejection_code : Text → Text → Reply
rejection_code reason =
    if is_denied reason
    then reply 550 5 7 1
    else if equal reason (codes "credential_unusable")
    then reply 530 5 7 0
    else if equal reason (codes "rate_limited")
    then reply 451 4 3 2
    else if equal reason (codes "too_many_recipients")
    then reply 452 4 5 3
    else if equal reason (codes "invalid_recipient")
    then reply 550 5 1 3
    else if equal reason (codes "no_recipients")
    then reply 554 5 5 1
    else if is_too_large reason
    then reply 552 5 3 4
    else if is_malformed reason
    then reply 550 5 6 0
    else reply 550 5 7 1

-- `rejectionReply`
unfoldable pub rejection_reply : Rejection → Reply
rejection_reply r = rejection_code r.reason (if is_empty r.detail then r.reason else r.detail)

-- what `Data` returns for an answer of `Submit`
unfoldable pub answer_reply : (ℕ → Text) → Answer → Reply
answer_reply show_id (accepted a) = accepted_reply show_id a
answer_reply show_id (refused r) = rejection_reply r
answer_reply show_id (broken e) =
    reply 451 4 3 0 (codes "temporarily unable to accept the message, try again")

-- `remoteIPString`
abbrev pub remote_ip_string : Option Text → Text
remote_ip_string none = []
remote_ip_string (some ip) = ip
