-- ===== src/Examples/Parsing.antt =====
-- Runs of the parser.
use relais.Base.{
  ◌≡◌, ◌↔◌, ◌⊎◌, refl, ℕ, true, false, not, List, [], ◌∷◌, none, arith, if◌then◌else◌, equal_refl,
  is_empty, ok,
}
use relais.Text.{
  Text, codes, is_space, trim_left, trim_right, trim_space, cut_prefix, cut_last, len, rune_len,
  split_onto, lower_rune, trim_suffix, to_lower,
}
use relais.FromPattern.Normalize.{
  is_allowed_local_rune, quoted, misplaced_dot, normalize_local, is_label_rune, hyphen_edge,
  check_label, check_labels, check_domain, normalize_domain,
}
use relais.FromPattern.Parse.{join_address, parse_address}
use relais.Store.Rows.{queued}
use relais.Mailnorm.Accepted.{Accepted, parse_message-Accepted}
use relais.Ingest.{submit}
use relais.Ingest.Submission.{Service}
use relais.Ingest.Authorized.{Unqueued}
use relais.Ingest.Genuine.{Genuine, submit-Genuine}
use relais.Mailnorm.{
  Mail, is_blank, needs_after, generate_message_id, Headers, Options, split_message, split_at,
  index, normalize_crlf, needs_crlf, rewrite_lines,
}
use relais.Mailnorm.Lines.{lines, join_crlf, normalize_crlf-lines}
use relais.Mailnorm.Split.{Splits, split_message-Splits}
use relais.Mailnorm.Bounds.{IsRead, read_all_iff}
use relais.Mailnorm.Parse.{
  Reader, read_all, parse_message, read_header, from_fields, from_value, from_addresses, finish,
  strip_bcc, with_message_id, with_date, decode_header, address_list, assemble, lacks, outgoing,
}
use relais.Mailnorm.Outgoing.{same_name, IsHeaders, outgoing-Complete}
use relais.Examples.Samples.{plain_idna, alice, service, request_of, no_calls, world_of}

-- two lines, one of which ends in an LF alone
abbrev body : List ℕ
body = codes "one\ntwo\r\n"

normalize_crlf-lines_example :
    (normalize_crlf body ≡ join_crlf (lines body)) × (needs_crlf (normalize_crlf body) ≡ false)
normalize_crlf-lines_example = normalize_crlf-lines body

abbrev message : List ℕ
message = codes "From: alice@example.com\n\nhello\r\n\r\n"

split_message-Splits_example : Splits message (split_message message).0 (split_message message).1
split_message-Splits_example = split_message-Splits message

abbrev reader : Reader ℕ
reader = record { content = body; failure = none }

read_all_iff_example : (read_all reader 9 ≡ ok body) ↔ IsRead reader.failure body 9 body
read_all_iff_example = read_all_iff reader 9 body (omega arith)

-- a header as the values of each name, whose case does not matter
abbrev Fields : Type 0
Fields = Text → List Text

abbrev first : List Text → Text
first [] = []
first (v ∷ vs) = v

abbrev from_alice : Fields
from_alice n = if same_name (codes "From") n then codes "alice@example.com" ∷ [] else []

abbrev pub fields : Headers Fields
fields = record {
  read = λ raw. ok from_alice;
  write = λ x. ok (codes "From: alice@example.com\r\n\r\n");
  count = λ x. 1;
  values = λ x n. x n;
  value = λ x n. first (x n);
  has = λ x n. not (is_empty (x n));
  del = λ x n m. if same_name n m then [] else x m;
  set = λ x n v m. if same_name n m then v ∷ [] else x m;
  address_list = λ t. ok (t ∷ []);
  decode = ok;
  unusable = λ e. [];
}

fields-IsHeaders : IsHeaders fields
fields-IsHeaders = record {
  del_has = λ x n. ground (arith, equal_refl (to_lower (λ c. c) n));
  set_has = λ x n m v other. ground arith;
  set_same = λ x n v. ground (arith, equal_refl (to_lower (λ c. c) n));
  set_other = λ x n m v other. ground arith;
}

abbrev pub options : Options
options = record {
  max_bytes = 1000;
  max_header_count = 10;
  max_header_bytes = 500;
  new_id = codes "1";
  date = codes "Mon, 02 Jan 2006 15:04:05 -0700";
}

outgoing-Complete_example :
    (not (
        is_empty
          (outgoing plain_idna fields options (codes "example.com") from_alice (codes "Bcc")))
      ≡ false)
    × (lacks plain_idna fields
          (outgoing plain_idna fields options (codes "example.com") from_alice)
          (codes "Message-Id")
        ≡ false)
    × (lacks plain_idna fields
          (outgoing plain_idna fields options (codes "example.com") from_alice)
          (codes "Date")
        ≡ false)
unfolding trim_space trim_left trim_right is_space
outgoing-Complete_example =
    outgoing-Complete plain_idna fields fields-IsHeaders options (codes "example.com") from_alice
      refl

abbrev rewritten : List ℕ
rewritten = codes "From: alice@example.com\r\n\r\nhello\r\n\r\n"

abbrev parsed : Mail
parsed = record {
  from = alice;
  from_header = codes "alice@example.com";
  subject = [];
  message_id = codes "<1@example.com>";
  to = [];
  cc = [];
  bcc = [];
  raw = rewritten;
  size = 36;
  generated_message_id = true;
  generated_date = true;
  stripped_bcc = false;
}

accepts_message : Accepted plain_idna fields message options parsed
unfolding parse_message is_blank split_message split_at index cut_prefix read_header from_fields
    from_value trim_space trim_right trim_left is_space from_addresses parse_address cut_last
    join_address normalize_local normalize_domain lower_rune is_allowed_local_rune quoted
    misplaced_dot trim_suffix check_domain check_labels check_label split_onto is_label_rune
    hyphen_edge len rune_len finish strip_bcc with_message_id with_date decode_header address_list
    assemble normalize_crlf needs_after rewrite_lines generate_message_id
accepts_message = parse_message-Accepted plain_idna fields message options parsed refl

abbrev parsing : Service ℕ ℕ
parsing = record (service alice) { parse_mail = λ raw. parse_message plain_idna fields raw options }

submit-Genuine_example :
    Unqueued
      (world_of queued [])
      (submit parsing
        (request_of (codes "bob@mail.example.com" ∷ []))
        (no_calls, world_of queued [])).1.1
    ⊎ Genuine parsing fields options (request_of (codes "bob@mail.example.com" ∷ []))
submit-Genuine_example =
    submit-Genuine parsing fields options (λ raw. refl)
      (request_of (codes "bob@mail.example.com" ∷ [])) no_calls (world_of queued [])
