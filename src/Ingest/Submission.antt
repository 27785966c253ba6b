-- ===== src/Ingest/Submission.antt =====
-- internal/ingest/ingest.go and internal/store/credential.go: the types of a submission.
use relais.Base.{
  ℕ, Bool, true, false, not, ◌&&◌, List, Option, none, some, if◌then◌else◌, is_empty, is_some,
  Result,
}
use relais.Base.Int.{ℤ}
use relais.Text.{Text}
use relais.Crypto.Keyring.{Bytes}
use relais.FromPattern.Parse.{Address}
use relais.FromPattern.Matching.{Patterns, allows}
use relais.Mailnorm.{Mail}
use relais.RateLimit.{Rates}
use relais.Store.Rows.{Status}
use relais.Store.Session.{StoreError}
use relais.Store.Credentials.{AuthCredential}
use relais.Store.Routes.{Keys}

-- `AuthCredential`: the row, and its two compiled lists
pub record Credential (Float : Type 0) : Type 0 where
  pub id : ℕ
  pub enabled : Bool
  pub revoked_at : Option ℕ
  pub rate_limit_rps : Option Float
  pub rate_limit_burst : Option ℤ
  pub patterns : Patterns
  pub recipients : Patterns

-- An `AuthCredential` of the store. Its rates are the numbers that their 64 bits give.
abbrev pub of_auth : AuthCredential → Credential ℕ
of_auth a = record {
  id = a.credential.id;
  enabled = a.credential.enabled;
  revoked_at = a.credential.revoked_at;
  rate_limit_rps = a.credential.rate_limit_rps;
  rate_limit_burst = a.credential.rate_limit_burst;
  patterns = a.patterns;
  recipients = a.recipients;
}

-- `Usable`
abbrev pub usable : {Float : Type 0} → Credential Float → Bool
usable c = c.enabled && not (is_some c.revoked_at)

abbrev pub or_else : {A : Type 0} → Option A → A → A
or_else none d = d
or_else (some a) d = a

-- `RateLimit`
abbrev pub rate_limit : {Float : Type 0} → Credential Float → Float → ℤ → Float × ℤ
rate_limit c rps burst = (or_else c.rate_limit_rps rps, or_else c.rate_limit_burst burst)

-- `RecipientRules.Allows`
unfoldable pub rules_allow : Patterns → Address → Bool
rules_allow rules addr = if is_empty rules then true else allows rules addr

-- `Rejection`
pub record Rejection : Type 0 where
  pub reason : Text
  pub detail : Text
  pub message_id : ℕ
  pub temporary : Bool

abbrev pub refusal : Text → Text → Rejection
refusal reason detail = record {
  reason = reason;
  detail = detail;
  message_id = 0;
  temporary = false;
}

-- `Request`
pub record Request (Float : Type 0) : Type 0 where
  pub credential : Credential Float
  pub facade : Text
  pub raw : Bytes
  pub envelope_recipients : List Text
  pub declared_bcc : List Text
  pub idempotency_key : Text
  pub remote_ip : Option Text

-- `Result`
pub record Accepted : Type 0 where
  pub id : ℕ
  pub status : Status
  pub rfc_message_id : Text
  pub recipients : List Text
  pub backend_id : ℕ
  pub duplicate : Bool

pub data Answer : Type 0 where
  accepted : Accepted → Answer
  refused : Rejection → Answer
  broken : StoreError → Answer

-- `Service`: its settings, what it was built with, and how `fmt` shows a value. `parse_mail` stands for
-- `mailnorm.Parse` with the options of the service.
pub record Service (Float Tokens : Type 0) : Type 0 where
  pub rates : Rates Float Tokens
  pub keys : Keys
  pub parse_mail : Bytes → Result (Text × Text) Mail
  pub show_id : ℕ → Text
  pub show_rate : Float → Text
  pub quote : Text → Text
  pub max_recipients : ℕ
  pub default_rps : Float
  pub default_burst : ℤ
  pub rejected_rps : Float
  pub rejected_burst : ℤ
  pub idempotency_ttl : ℕ

-- `derefUUID`
abbrev pub deref_uuid : Option ℕ → ℕ
deref_uuid id = or_else id 0
