-- ===== src/Examples/Rest.antt =====
-- Runs of the REST API and of its builder of messages.
use relais.Base.{◌≡◌, ◌⊎◌, refl, ℕ, [], ◌∷◌, ◌++◌, none, some, ok, arith}
use relais.Text.{
  Text, codes, is_space, trim_left, trim_right, trim_space, cut_prefix, cut_last, len, rune_len,
  split_onto, lower_rune, trim_suffix,
}
use relais.FromPattern.Normalize.{
  is_allowed_local_rune, quoted, misplaced_dot, normalize_local, is_label_rune, hyphen_edge,
  check_label, check_labels, check_domain, normalize_domain,
}
use relais.FromPattern.Parse.{join_address, parse_address, address_string}
use relais.Store.Rows.{queued, find_message}
use relais.Store.Session.{World}
use relais.Store.Credentials.{AuthCredential}
use relais.Mailbuild.{
  Parsers, Input, parse_item, parse_items, parse_sender, reserved_for, validate_header,
  validate_headers, validate_attachments, dedupe_onto,
}
use relais.Mailbuild.Build.{
  BuildOptions, Built, Writer, shape_of, part_of, encode_header_value, header_of, set_fields,
  write_message, check_envelope, build,
}
use relais.Mailbuild.Recipients.{WellBuilt, build-WellBuilt}
use relais.Ingest.Authorized.{Unqueued}
use relais.Httpapi.{decoded}
use relais.Httpapi.Emails.{Api, Post, get_email, post_email}
use relais.Httpapi.Private.{own, get_email-own}
use relais.Httpapi.Queued.{Queues, post_email-Queues}
use relais.Examples.Samples.{
  plain_idna, alice, service, secrets, credential_row, no_calls, world_of,
}

abbrev parsers : Parsers
parsers = record {
  idna = plain_idna;
  parse_one = λ t. ok ([], t);
  unusable = λ e. [];
  quote = λ t. t;
  fold = λ c. c;
}

-- a header as its text
abbrev writer : Writer Text
writer = record {
  empty_header = [];
  set_address_list = λ h name l. h ++ name;
  set_subject = λ h t. h ++ codes "Subject";
  set_date = λ h. h ++ codes "Date";
  set_field = λ h key value. h ++ key;
  q_encode = λ t. t;
  write = λ h shape. ok (h ++ codes "\r\n\r\nhello");
}

abbrev limits : BuildOptions
limits = record { max_recipients = 2; max_bytes = 1000 }

-- the same recipient twice, in two spellings
abbrev input : Input
input = record {
  from = codes "alice@example.com";
  to = codes "Bob@mail.example.com" ∷ [];
  cc = [];
  bcc = codes "bob@mail.example.com" ∷ [];
  reply_to = [];
  subject = codes "hello";
  text = codes "hello";
  html = [];
  headers = (codes "X-Tag", codes "a") ∷ [];
  attachments = [];
}

abbrev built : Built
built = record {
  raw = codes "FromToSubjectDateX-Tag\r\n\r\nhello";
  from = alice;
  to = codes "bob@mail.example.com" ∷ [];
  cc = [];
  bcc = codes "bob@mail.example.com" ∷ [];
  envelope = codes "bob@mail.example.com" ∷ [];
  subject = codes "hello";
}

build-WellBuilt_example : WellBuilt parsers writer input limits built
unfolding build parse_sender parse_items parse_item check_envelope validate_headers validate_header
    validate_attachments write_message header_of set_fields encode_header_value shape_of part_of
    reserved_for dedupe_onto trim_space trim_right trim_left is_space parse_address address_string
    cut_last join_address normalize_local normalize_domain lower_rune is_allowed_local_rune quoted
    misplaced_dot trim_suffix check_domain check_labels check_label split_onto is_label_rune
    hyphen_edge len rune_len cut_prefix
build-WellBuilt_example = build-WellBuilt parsers writer input limits built refl

abbrev api : Api Text ℕ
api = record {
  service = service alice;
  secrets = secrets;
  limits = limits;
  parsers = parsers;
  writer = writer;
  encodings = (λ t. some t) ∷ [];
  parse_id = λ t. some 1;
}

abbrev post : Post
post = record {
  authorization = codes "Bearer rl_abcdefghijkl_secret";
  idempotency_key = [];
  remote_ip = none;
  body = decoded (record {
    from = codes "alice@example.com";
    to = codes "bob@mail.example.com" ∷ [];
    cc = [];
    bcc = [];
    reply_to = [];
    subject = codes "hello";
    text = codes "hello";
    html = [];
    headers = [];
    attachments = [];
  });
}

post_email-Queues_example :
    Unqueued (world_of queued []) (post_email api post (no_calls, world_of queued [])).1.1
    ⊎ Queues api post (world_of queued [])
post_email-Queues_example = post_email-Queues api post no_calls (world_of queued [])

-- a credential that has sent none of the messages
abbrev stranger : AuthCredential
stranger = record { credential = record credential_row { id = 8 }; patterns = []; recipients = [] }

abbrev without_messages : World
without_messages = let w = world_of queued [] in record w { db = record (w.db) { messages = [] } }

stranger-own :
    (id : ℕ)
    → own stranger (find_message id (world_of queued []).db.messages)
      ≡ own stranger (find_message id without_messages.db.messages)
unfolding find_message
stranger-own id = ground arith

get_email-own_example :
    (get_email api (codes "1") stranger (no_calls, world_of queued [])).0
    ≡ (get_email api (codes "1") stranger (no_calls, without_messages)).0
get_email-own_example =
    get_email-own api stranger (codes "1") no_calls no_calls (world_of queued []) without_messages
      refl stranger-own
