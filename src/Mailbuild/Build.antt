-- ===== src/Mailbuild/Build.antt =====
-- internal/mailbuild/mailbuild.go: `Build` and `writeMessage`.
use relais.Base.{
  ℕ, Bool, not, ◌&&◌, ◌||◌, List, [], ◌∷◌, ◌++◌, ltb, leb, ◌==◌, if◌then◌else◌, is_empty, any, map,
  length, Result, ok, err, ◌>>=◌, refuse_if, ◌>>◌,
}
use relais.Text.{Text, codes, trim_space}
use relais.Crypto.Keyring.{Bytes}
use relais.FromPattern.Parse.{Address}
use relais.Sender.{decimal}
use relais.Mailbuild.{
  BuildError, problem, Attachment, Input, Named, Parsers, parse_items, parse_sender,
  validate_headers, validate_attachments, dedupe, address_strings,
}

-- `Options`. No limit is 0.
pub record BuildOptions : Type 0 where
  pub max_recipients : ℕ
  pub max_bytes : ℕ

-- `Result`
pub record Built : Type 0 where
  pub raw : Bytes
  pub from : Address
  pub to : List Text
  pub cc : List Text
  pub bcc : List Text
  pub envelope : List Text
  pub subject : Text

-- a part of the message behind the bodies: with or without a Content-Id
pub data Part : Type 0 where
  attached : Text → Text → Bytes → Part
  shown : Text → Text → Text → Bytes → Part

-- The form of the message: one body, or the bodies and the attachments.
pub data Shape : Type 0 where
  single : Text → Text → Shape
  multiple : List (Text × Text) → List Part → Shape

-- go-message's header and writer, mime's Q encoding, and the date of this call
pub record Writer (H : Type 0) : Type 0 where
  pub empty_header : H
  pub set_address_list : H → Text → List Named → H
  pub set_subject : H → Text → H
  pub set_date : H → H
  pub set_field : H → Text → Text → H
  pub q_encode : Text → Text
  pub write : H → Shape → Result Text Bytes

abbrev pub has_text : Text → Bool
has_text t = not (is_empty (trim_space t))

abbrev is_angle : ℕ → Bool
is_angle c = c == b'<' || c == b'>'

abbrev pub trim_left_angles : Text → Text
trim_left_angles [] = []
trim_left_angles (c ∷ s) = if is_angle c then trim_left_angles s else c ∷ s

abbrev pub trim_right_angles : Text → Text
trim_right_angles [] = []
trim_right_angles (c ∷ s) =
    let rest = trim_right_angles s in if is_empty rest && is_angle c then [] else c ∷ rest

-- `writeAttachment`, with the header of `createAttachmentPart`
unfoldable pub part_of : Attachment → Part
part_of a =
    let given = trim_space a.content_type in
    let kind = if is_empty given then codes "application/octet-stream" else given in
    if is_empty a.content_id
    then attached kind a.filename a.content
    else shown kind a.filename
        (codes "<" ++ (trim_right_angles (trim_left_angles a.content_id) ++ codes ">")) a.content

-- `writeBodyParts`
abbrev pub bodies : Input → List (Text × Text)
bodies x =
    (if has_text x.text then (codes "text/plain", x.text) ∷ [] else [])
    ++ (if has_text x.html then (codes "text/html", x.html) ∷ [] else [])

-- the form that `writeMessage` chooses
unfoldable pub shape_of : Input → Shape
shape_of x =
    let one =
      is_empty x.attachments
      && (has_text x.text && not (has_text x.html) || not (has_text x.text) && has_text x.html) in
    if one
    then (if has_text x.html
        then single (codes "text/html") x.html
        else single (codes "text/plain") x.text)
    else multiple (bodies x) (map part_of x.attachments)

-- `encodeHeaderValue`
unfoldable pub encode_header_value : (Text → Text) → Text → Text
encode_header_value q value = if any (leb 0x80) value then q value else value

-- a limit that is set and passed
abbrev pub over_limit : ℕ → ℕ → Bool
over_limit limit n = ltb 0 limit && ltb limit n

module _ (p : Parsers) {H : Type 0} (v : Writer H) where
  abbrev pub set_list : H → Text → List Named → H
  set_list h name [] = h
  set_list h name (a ∷ more) = v.set_address_list h name (a ∷ more)

  -- the loop over `in.Headers`
  unfoldable pub set_fields : H → List (Text × Text) → H
  set_fields h [] = h
  set_fields h ((key, value) ∷ more) =
      set_fields (v.set_field h key (encode_header_value v.q_encode value)) more

  -- the header that `Build` writes
  unfoldable pub header_of : Named → List Named → List Named → List Named → Input → H
  header_of from to cc reply_to x =
      let h = v.set_address_list v.empty_header (codes "From") (from ∷ []) in
      let h' =
        set_list (set_list (set_list h (codes "To") to) (codes "Cc") cc) (codes "Reply-To")
          reply_to in
      set_fields (v.set_date (v.set_subject h' x.subject)) x.headers

  -- `writeMessage`. An error of the writer has no code.
  unfoldable pub write_message : H → Input → Result BuildError Bytes
  write_message h x = elim (v.write h (shape_of x)) [
    | ok raw ↦ ok raw
    | err e ↦ err (problem [] [] e)
  ]

  abbrev too_many : ℕ → ℕ → BuildError
  too_many n limit =
      problem (codes "too_many_recipients") (codes "to")
        (decimal n ++ (codes " recipients, over the limit of " ++ decimal limit))

  abbrev too_large : ℕ → ℕ → BuildError
  too_large n limit = problem (codes "message_too_large") (codes "attachments") (
      codes "the assembled message is "
      ++ (decimal n ++ (codes " bytes, over the " ++ (decimal limit ++ codes " byte limit"))))

  -- the tests of `Build` on the recipients
  unfoldable pub check_envelope : BuildOptions → List Text → Result BuildError (Unit {0})
  check_envelope o envelope = do
    refuse_if (is_empty envelope) (
        problem (codes "missing_recipients") (codes "to")
          (codes "at least one recipient is required"))
    refuse_if (over_limit o.max_recipients (length envelope))
        (too_many (length envelope) o.max_recipients)
    ok tt

  -- `Build`
  unfoldable pub build : Input → BuildOptions → Result BuildError Built
  build x o = do
    sender ← parse_sender p x.from
    to ← parse_items p (codes "to") 0 x.to
    cc ← parse_items p (codes "cc") 0 x.cc
    bcc ← parse_items p (codes "bcc") 0 x.bcc
    reply_to ← parse_items p (codes "reply_to") 0 x.reply_to
    let envelope = dedupe (address_strings to) (address_strings cc) (address_strings bcc)
    check_envelope o envelope
    refuse_if (not (has_text x.text) && not (has_text x.html))
        (problem (codes "missing_body") (codes "text") (codes "either text or html is required"))
    validate_headers p x.headers
    validate_attachments 0 x.attachments
    raw ← write_message (header_of sender.0 to cc reply_to x) x
    refuse_if (over_limit o.max_bytes (length raw)) (too_large (length raw) o.max_bytes)
    ok (record {
      raw = raw;
      from = sender.1;
      to = address_strings to;
      cc = address_strings cc;
      bcc = address_strings bcc;
      envelope = envelope;
      subject = x.subject;
    })
