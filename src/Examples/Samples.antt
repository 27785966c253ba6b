-- ===== src/Examples/Samples.antt =====
-- Concrete services, tables and requests for the runs of the modules beside this one.
use relais.Base.{
  ℕ, zero, suc, refl, Bool, true, false, List, [], ◌∷◌, Option, none, some, arith, ◌==◌, ok, err,
}
use relais.Base.Int.{ℤ, pos, negsuc}
use relais.Text.{Text, codes}
use relais.Crypto.Keyring.{Bytes, Ciphers, Keyring}
use relais.Crypto.Secret.{Digests, Hasher}
use relais.Store.Credentials.{Secrets}
use relais.Crypto.Seal.{IsCipher}
use relais.FromPattern.Normalize.{Idna}
use relais.FromPattern.Domain.{IsStable}
use relais.FromPattern.Parse.{Address, Pattern}
use relais.RateLimit.{Rates, Limiter}
use relais.Store.Vault.{CredentialRow, api_key_type}
use relais.Store.Rows.{Status, queued, Message, Backend, Domain, Db}
use relais.Store.Session.{World}
use relais.Store.Routes.{SenderRoute, Keys}
use relais.Sender.{DeliveryError, Outgoing}
use relais.Sender.Exchange.{Relay, WireError}
use relais.Sender.Handshake.{Peer, Config}
use relais.Jobs.{Job, Deliverer}
use relais.Mailnorm.{Mail}
use relais.Ingest.Submission.{Request, Service}

-- domains as they are
abbrev pub plain_idna : Idna
plain_idna = record { fold = λ c. c; to_ascii = some }

pub plain_idna-IsStable : IsStable plain_idna
plain_idna-IsStable = record { stable = λ s a h. refl }

abbrev pub alice : Address
alice = record { local = codes "alice"; domain = codes "example.com" }

abbrev pub bob : Address
bob = record { local = codes "bob"; domain = codes "mail.example.com" }

-- `*@*.example.com`
abbrev pub anyone_below : Pattern
anyone_below = record {
  local = codes "*";
  local_any = true;
  domain = codes "example.com";
  subdomain_any = true;
  normalized = codes "*@*.example.com";
}

-- `alice@example.com`
abbrev pub only_alice : Pattern
only_alice = record {
  local = codes "alice";
  local_any = false;
  domain = codes "example.com";
  subdomain_any = false;
  normalized = codes "alice@example.com";
}

abbrev drop_mark : Text → Option Bytes
drop_mark [] = none
drop_mark (c ∷ s) = some s

-- a cipher that hides nothing, and an encoding that puts a mark in front
abbrev pub open_cipher : Ciphers
open_cipher = record {
  nonce_size = 2;
  seal = λ key nonce plaintext ad. plaintext;
  open_sealed = λ key nonce sealed ad. some sealed;
  encode = λ b. b'A' ∷ b;
  decode = drop_mark;
  decode_raw = λ s. none;
}

pub open_cipher-IsCipher : IsCipher open_cipher
open_cipher-IsCipher = record {
  open_seal = λ key nonce plaintext ad h. refl;
  decode_encode = λ b. refl;
  encode_nonempty = λ b ne h. cc;
  nonce_positive = omega arith;
}

abbrev pub key_text : Text
key_text = codes "0123456789abcdef0123456789abcdef"

abbrev pub one_key : Keyring
one_key = record { keys = (codes "k1", key_text) ∷ []; active_id = codes "k1" }

abbrev pub two_keys : Keyring
two_keys = record {
  keys = (codes "k1", key_text) ∷ (codes "k2", key_text) ∷ [];
  active_id = codes "k2";
}

abbrev spend : ℕ → Bool × ℕ
spend zero = (false, zero)
spend (suc n) = (true, n)

abbrev tokens_of : ℤ → ℕ
tokens_of (pos n) = n
tokens_of (negsuc n) = zero

-- buckets that are never refilled
abbrev pub counting : Rates ℕ ℕ
counting = record {
  le_zero = λ rps. rps == 0;
  same = λ a b. a == b;
  new_tokens = λ rps burst. tokens_of burst;
  allow_n = λ tokens now. spend tokens;
}

abbrev pub no_calls : Limiter ℕ ℕ
no_calls = record { max_entries = 2; idle_ttl = 10; buckets = [] }

abbrev pub message_of : ℕ → Status → Message
message_of id status = record {
  id = id;
  credential_id = some 7;
  status = status;
  facade = codes "rest";
  from_addr = codes "alice@example.com";
  from_domain = codes "example.com";
  to_addrs = codes "bob@mail.example.com" ∷ [];
  cc_addrs = [];
  bcc_addrs = [];
  envelope_recipients = codes "bob@mail.example.com" ∷ [];
  subject = codes "hello";
  message_id = codes "<1@example.com>";
  size_bytes = pos 5;
  smtp_backend_id = some 3;
  idempotency_key = none;
  attempt_count = 0;
  error_code = none;
  error_detail = none;
  rejection_reason = none;
  remote_ip = none;
  created_at = 1;
  updated_at = 1;
  sent_at = none;
}

abbrev pub relay_row : Backend
relay_row = record {
  id = 3;
  name = codes "main";
  host = codes "relay.example.net";
  port = 587;
  tls_mode = codes "starttls";
  auth_user = [];
  auth_password_sealed = [];
  helo_name = [];
  max_concurrency = 4;
  enabled = true;
}

abbrev pub domain_row : ℕ → Text → Domain
domain_row id name = record {
  id = id;
  name = name;
  smtp_backend_id = 3;
  include_subdomains = true;
  enabled = true;
}

abbrev pub digest : Text
digest = codes "0123456789abcdef0123456789abcdef"

abbrev pub credential_row : CredentialRow
credential_row = record {
  id = 7;
  name = codes "blog";
  kind = api_key_type;
  lookup = codes "k_abcdefghijkl";
  secret_hmac = digest;
  enabled = true;
  rate_limit_rps = none;
  rate_limit_burst = none;
  created_by = codes "cli";
  created_at = 1;
  updated_at = 1;
  revoked_at = none;
}

abbrev pub db_of : Status → Db
db_of status = record {
  messages = message_of 1 status ∷ message_of 2 queued ∷ [];
  payloads = (1, codes "hello") ∷ (2, codes "hello") ∷ [];
  backends = relay_row ∷ [];
  domains = domain_row 5 (codes "example.com") ∷ domain_row 6 (codes "mail.example.com") ∷ [];
  jobs = 1 ∷ 2 ∷ [];
  credentials = credential_row ∷ [];
  from_patterns = record { id = 1; credential_id = 7; pattern = codes "alice@example.com" } ∷ [];
  recipient_patterns = [];
}

-- message 1 has the status, message 2 is queued
abbrev pub world_of : Status → List Bool → World
world_of status faults = record { db = db_of status; faults = faults; now = 100; next_id = 9 }

abbrev pub keys : Keys
keys = record {
  ciphers = open_cipher;
  keyring = one_key;
  idna = plain_idna;
  describe = λ e. codes "an error";
}

abbrev pub first_attempt : Job
first_attempt = record { message_id = 1; attempt = 1; max_attempts = 8 }

-- a relay that takes every message for all of its recipients
abbrev pub takes_all : Deliverer
takes_all route m =
    ok (record { accepted = m.recipients; rejected = []; response = []; used_tls = true })

abbrev pub loses_connection : Deliverer
loses_connection route m = err (DeliveryError.other (codes "connection reset"))

abbrev pub request_of : List Text → Request ℕ
request_of recipients = record {
  credential = record {
    id = 7;
    enabled = true;
    revoked_at = none;
    rate_limit_rps = none;
    rate_limit_burst = none;
    patterns = only_alice ∷ [];
    recipients = anyone_below ∷ [];
  };
  facade = codes "rest";
  raw = codes "hello";
  envelope_recipients = recipients;
  declared_bcc = [];
  idempotency_key = [];
  remote_ip = none;
}

abbrev mail_from : Address → Bytes → Mail
mail_from from raw = record {
  from = from;
  from_header = codes "Alice";
  to = [];
  cc = [];
  bcc = [];
  subject = codes "hello";
  message_id = codes "<1@example.com>";
  size = 5;
  raw = raw;
  generated_message_id = false;
  generated_date = false;
  stripped_bcc = false;
}

-- a service whose parser finds this sender in every message
abbrev pub service : Address → Service ℕ ℕ
service from = record {
  rates = counting;
  keys = keys;
  parse_mail = λ raw. ok (mail_from from raw);
  show_id = λ id. codes "credential";
  show_rate = λ rps. codes "rate";
  quote = λ s. s;
  max_recipients = 3;
  default_rps = 5;
  default_burst = pos 5;
  rejected_rps = 1;
  rejected_burst = pos 1;
  idempotency_ttl = 50;
}

abbrev pub route : Text → Text → SenderRoute
route user password = record {
  domain_id = 5;
  domain_name = codes "example.com";
  backend_id = 3;
  backend_name = codes "main";
  host = codes "relay.example.net";
  port = 587;
  tls_mode = codes "starttls";
  auth_user = user;
  auth_password = password;
  helo_name = [];
  max_concurrency = 4;
}

abbrev pub outgoing_to : List Text → Outgoing
outgoing_to recipients = record {
  from = codes "alice@example.com";
  recipients = recipients;
  raw = codes "hello";
}

-- a relay with these answers to RCPT, and none else that refuses
abbrev pub relay_with : (ℕ → Text → Option WireError) → Relay
relay_with rcpt = record {
  encrypted = true;
  mail = none;
  rcpt = rcpt;
  data_command = none;
  write = none;
  close = ok none;
}

abbrev pub peer : Peer
peer = record {
  fold = λ c. c;
  acquired = none;
  dialed = none;
  starttls = none;
  greeted = none;
  auth_extension = some (codes "plain login");
  authenticated = none;
  relay = relay_with (λ i to. none);
}

abbrev pub config : Config
config = record { helo_name = codes "relais.example.org" }

-- one fingerprint for every secret
abbrev pub digests : Digests
digests = record { hmac = λ pepper secret. digest; fold = λ c. c; is_base32 = λ s. true }

abbrev pub hasher : Hasher
hasher = record { pepper = codes "pepper" }

abbrev pub secrets : Secrets
secrets = record {
  digests = digests;
  hasher = hasher;
  idna = plain_idna;
  sql = record {
    lower = λ t. t;
    order = λ ts. ts;
    pattern_shape = λ t. true;
    rate_le_zero = λ r. r == 0;
  };
  draws = λ w n. some (codes "abcdefghijkl", codes "se_cret");
}
