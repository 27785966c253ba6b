-- ===== src/Smtpd/Session.antt =====
-- internal/smtpd/smtpd.go: the calls of a session.
use relais.Base.{
  ℕ, Bool, true, false, not, List, [], ◌∷◌, ◌++◌, Option, none, some, leb, if◌then◌else◌, length,
  Result, ok, err,
}
use relais.Text.{Text, codes}
use relais.FromPattern.Parse.{Address, address_string, parse_address}
use relais.RateLimit.{Limiter}
use relais.Sender.{decimal}
use relais.Store.Vault.{smtp_user_type}
use relais.Store.Session.{World}
use relais.Store.Credentials.{AuthCredential, Secrets}
use relais.Authn.{AuthError, unauthenticated, unavailable, smtp_user}
use relais.Mailnorm.Parse.{Reader, ReadError, too_large, lost, read_all}
use relais.Ingest.{submit}
use relais.Ingest.Submission.{Request, Service, of_auth}
use relais.Smtpd.{Reply, reply, Limits, authentication_required, answer_reply}

-- `loginServer`
pub record LoginServer : Type 0 where
  pub username : Text
  pub got_username : Bool

-- the SASL exchange that the library holds
pub data Exchange : Type 0 where
  no_exchange with_plain : Exchange
  with_login : LoginServer → Exchange

-- `session`
pub record Session : Type 0 where
  pub credential : AuthCredential
  pub authenticated : Bool
  pub envelope_from : Text
  pub recipients : List Text
  pub remote_ip : Option Text

-- `AuthCredential{}`
abbrev pub no_credential : AuthCredential
no_credential = record {
  credential = record {
    id = 0;
    name = [];
    kind = smtp_user_type;
    lookup = [];
    secret_hmac = [];
    enabled = false;
    rate_limit_rps = none;
    rate_limit_burst = none;
    created_by = [];
    created_at = 0;
    updated_at = 0;
    revoked_at = none;
  };
  patterns = [];
  recipients = [];
}

-- `newSession`
abbrev pub new_session : Option Text → Session
new_session remote_ip = record {
  credential = no_credential;
  authenticated = false;
  envelope_from = [];
  recipients = [];
  remote_ip = remote_ip;
}

-- `Server`
pub record Server (Tokens : Type 0) : Type 0 where
  pub limits : Limits
  pub service : Service ℕ Tokens
  pub secrets : Secrets
  pub upper : ℕ → ℕ

-- A connection: the session, the exchange in progress, and what the server shares with the others.
pub record Conn (Tokens : Type 0) : Type 0 where
  pub session : Session
  pub exchange : Exchange
  pub limiter : Limiter ℕ Tokens
  pub world : World

abbrev pub new_conn : {Tokens : Type 0} → Option Text → Limiter ℕ Tokens → World → Conn Tokens
new_conn remote_ip l w = record {
  session = new_session remote_ip;
  exchange = no_exchange;
  limiter = l;
  world = w;
}

-- What a reader of a message can fail with: a reply of the library, or another error.
pub data ReadFailure : Type 0 where
  smtp_error : Reply → ReadFailure
  hung_up : ReadFailure

abbrev pub temporary_failure : Reply
temporary_failure = reply 454 4 7 0 (codes "temporary authentication failure, try again later")

abbrev pub invalid_credentials : Reply
invalid_credentials = reply 535 5 7 8 (codes "authentication credentials invalid")

-- `Reset`
abbrev pub reset : Session → Session
reset c = record c { envelope_from = []; recipients = [] }

-- `authenticate`, on the answer of the authenticator
unfoldable pub authenticated_as : Session → Result AuthError AuthCredential → Option Reply × Session
authenticated_as c (err unavailable) = (some temporary_failure, c)
authenticated_as c (err unauthenticated) = (some invalid_credentials, c)
authenticated_as c (ok auth) = (none, record c { credential = auth; authenticated = true })

-- `Mail`
unfoldable pub mail : Text → Session → Option Reply × Session
mail from c =
    if not c.authenticated
    then (some authentication_required, c)
    else (none, record c { envelope_from = from; recipients = [] })

module _ {Tokens : Type 0} (s : Server Tokens) where
  -- `authenticate`
  unfoldable pub authenticate : Text → Text → Session → World → Option Reply × Session × World
  authenticate username password c w =
      let (answer, w') = smtp_user s.secrets username password w in
      let (r, c') = authenticated_as c answer in (r, c', w')

  abbrev pub too_many : Reply
  too_many = reply 452 4 5 3 (
      codes "too many recipients in one transaction (limit "
      ++ (decimal s.limits.max_recipients ++ codes ")"))

  -- `Rcpt` behind `ParseAddress`
  unfoldable pub add_recipient : Address → Session → Option Reply × Session
  add_recipient addr c =
      if leb s.limits.max_recipients (length c.recipients)
      then (some too_many, c)
      else (none, record c { recipients = c.recipients ++ address_string addr ∷ [] })

  -- `Rcpt`
  unfoldable pub rcpt : Text → Session → Option Reply × Session
  rcpt to c =
      if not c.authenticated
      then (some authentication_required, c)
      else elim (parse_address s.service.keys.idna to) [
        | err _ ↦ (some (reply 550 5 1 3 (codes "bad destination address syntax: " ++ to)), c)
        | ok addr ↦ add_recipient addr c
      ]

  -- the errors of `ReadAll` in `Data`
  unfoldable pub read_reply : ReadError ReadFailure → Reply
  read_reply (too_large _) =
      reply 552 5 3 4 (
        codes "message exceeds the " ++ (decimal s.limits.max_message_bytes ++ codes " byte limit"))
  read_reply (lost (smtp_error r)) = r
  read_reply (lost hung_up) = reply 451 4 3 0 (codes "could not read the message, try again")

  abbrev pub request : Session → List ℕ → Request ℕ
  request c raw = record {
    credential = of_auth c.credential;
    facade = codes "smtp";
    raw = raw;
    envelope_recipients = c.recipients;
    declared_bcc = [];
    idempotency_key = [];
    remote_ip = c.remote_ip;
  }

  abbrev pub Shared : Type 0
  Shared = Limiter ℕ Tokens × World

  -- `Data`
  unfoldable pub data_call : Reader ReadFailure → Session → Shared → Reply × Shared
  data_call r c (l, w) =
      if not c.authenticated
      then (authentication_required, (l, w))
      else elim (read_all r s.limits.max_message_bytes) [
        | err e ↦ (read_reply e, (l, w))
        | ok raw ↦
            let (answer, state) = submit s.service (request c raw) (l, w) in
            (answer_reply s.service.show_id answer, state)
      ]
