-- ===== src/Httpapi/Emails.antt =====
-- internal/httpapi/emails.go and requireAPIKey of middleware.go: a submission, and the status of one.
use relais.Base.{
  ℕ, Bool, false, not, ◌==◌, List, Option, none, some, if◌then◌else◌, Result, ok, err, ◌>>=◌,
}
use relais.Text.{Text, codes, trim_space}
use relais.Crypto.Keyring.{Bytes}
use relais.RateLimit.{Limiter}
use relais.Store.Rows.{Message}
use relais.Store.Session.{World, StoreError, not_found}
use relais.Store.Messages.{get_message}
use relais.Store.Credentials.{AuthCredential, Secrets}
use relais.Authn.{AuthError, unauthenticated, unavailable, bearer_token, api_key}
use relais.Ingest.{submit}
use relais.Ingest.Submission.{Answer, accepted, refused, broken, Service, Request, of_auth}
use relais.Mailbuild.{Attachment, Input, Parsers}
use relais.Mailbuild.Build.{BuildOptions, Built, Writer, build}
use relais.Httpapi.{
  Response, sent, shown, write_error, write_rejection, write_build_error, write_unauthorized,
  write_unavailable, Decoded, decode_json, RequestAttachment, decode_attachments,
}

-- `sendRequest`
pub record SendRequest : Type 0 where
  pub from : Text
  pub to : List Text
  pub cc : List Text
  pub bcc : List Text
  pub reply_to : List Text
  pub subject : Text
  pub text : Text
  pub html : Text
  pub headers : List (Text × Text)
  pub attachments : List RequestAttachment

-- A request to the route: two of its headers, the address of its client, and its body.
pub record Post : Type 0 where
  pub authorization : Text
  pub idempotency_key : Text
  pub remote_ip : Option Text
  pub body : Decoded SendRequest

-- `Server`, with the libraries that it uses: the four base64 encodings in their order, and `uuid.Parse`
pub record Api (H Tokens : Type 0) : Type 0 where
  pub service : Service ℕ Tokens
  pub secrets : Secrets
  pub limits : BuildOptions
  pub parsers : Parsers
  pub writer : Writer H
  pub encodings : List (Text → Option Bytes)
  pub parse_id : Text → Option ℕ

abbrev pub no_such_message : Response
no_such_message = write_error 404 (codes "not_found") (codes "no such message")

-- the `mailbuild.Input` of `handleSendEmail`
abbrev pub input_of : SendRequest → List Attachment → Input
input_of r attachments = record {
  from = r.from;
  to = r.to;
  cc = r.cc;
  bcc = r.bcc;
  reply_to = r.reply_to;
  subject = r.subject;
  text = r.text;
  html = r.html;
  headers = r.headers;
  attachments = attachments;
}

-- the `ingest.Request` of `handleSendEmail`
abbrev pub submission_of : Post → AuthCredential → Built → Request ℕ
submission_of p auth built = record {
  credential = of_auth auth;
  facade = codes "rest";
  raw = built.raw;
  envelope_recipients = built.envelope;
  declared_bcc = built.bcc;
  idempotency_key = trim_space p.idempotency_key;
  remote_ip = p.remote_ip;
}

-- the answer of `handleSendEmail` to that of `Submit`
unfoldable pub answer_post : Answer → Response
answer_post (accepted a) = sent (if a.duplicate then 200 else 202) a
answer_post (refused r) = write_rejection r
answer_post (broken e) = write_unavailable

abbrev pub owned_by : ℕ → Option ℕ → Bool
owned_by id none = false
owned_by id (some owner) = owner == id

-- `handleGetEmail` after `GetMessage`
unfoldable pub show_message : AuthCredential → Result StoreError Message → Response
show_message auth (err not_found) = no_such_message
show_message auth (err e) = write_unavailable
show_message auth (ok m) =
    if not (owned_by auth.credential.id m.credential_id) then no_such_message else shown m

module _ {H Tokens : Type 0} (s : Api H Tokens) where
  abbrev pub State : Type 0
  State = Limiter ℕ Tokens × World

  -- `requireAPIKey` after `APIKey`
  unfoldable pub with_auth :
      (AuthCredential → State → Response × State)
      → Limiter ℕ Tokens
      → Result AuthError AuthCredential × World
      → Response × State
  with_auth next l (err unauthenticated, w) = (write_unauthorized, (l, w))
  with_auth next l (err unavailable, w) = (write_unavailable, (l, w))
  with_auth next l (ok auth, w) = next auth (l, w)

  -- `requireAPIKey`
  unfoldable pub require_api_key :
      Text → (AuthCredential → State → Response × State) → State → Response × State
  require_api_key header next (l, w) = elim (bearer_token header) [
    | err _ ↦ (write_unauthorized, (l, w))
    | ok token ↦ with_auth next l (api_key s.secrets token w)
  ]

  -- the decoding of `handleSendEmail`, and `Build`
  unfoldable pub read_post : Post → Result Response (SendRequest × (List Attachment × Built))
  read_post p = do
    request ← decode_json p.body
    elim (decode_attachments s.encodings 0 request.attachments) [
      | err e ↦ err (write_build_error e)
      | ok attachments ↦ elim (build s.parsers s.writer (input_of request attachments) s.limits) [
        | err e ↦ err (write_build_error e)
        | ok built ↦ ok (request, (attachments, built))
      ]
    ]

  -- `handleSendEmail`
  unfoldable pub send_email : Post → AuthCredential → State → Response × State
  send_email p auth state = elim (read_post p) [
    | err response ↦ (response, state)
    | ok (request, (attachments, built)) ↦
        let (answer, state') = submit s.service (submission_of p auth built) state in
        (answer_post answer, state')
  ]

  -- the route of `handleSendEmail`
  abbrev pub post_email : Post → State → Response × State
  post_email p = require_api_key p.authorization (send_email p)

  -- `handleGetEmail`
  unfoldable pub get_email : Text → AuthCredential → State → Response × State
  get_email text auth (l, w) = elim (s.parse_id text) [
    | none ↦ (no_such_message, (l, w))
    | some id ↦ let (found, w') = get_message id w in (show_message auth found, (l, w'))
  ]
