-- ===== src/Mailbuild.antt =====
-- internal/mailbuild/mailbuild.go: a message is built from the fields of a REST request.
-- A map of headers is the list of its entries, in the order in which `range` visits them.
pub mod Build
pub mod Envelope
pub mod Recipients
use relais.Base.{
  ℕ, zero, suc, ◌+◌, Bool, true, false, not, ◌&&◌, ◌||◌, List, [], ◌∷◌, ◌++◌, Option, none, some,
  ltb, leb, ◌==◌, if◌then◌else◌, is_empty, equal, any, map, Result, ok, err, ◌>>=◌, refuse_if, ◌>>◌,
}
use relais.Base.Distinct.{added}
use relais.Text.{Text, codes, trim_space, to_lower, contains_any}
use relais.Crypto.Keyring.{Bytes}
use relais.FromPattern.Normalize.{Error, Idna}
use relais.FromPattern.Parse.{Address, address_string, parse_address}
use relais.Sender.{decimal}

-- `Error`
pub record BuildError : Type 0 where
  pub code : Text
  pub field : Text
  pub message : Text

abbrev pub problem : Text → Text → Text → BuildError
problem code field message = record { code = code; field = field; message = message }

-- `Attachment`
pub record Attachment : Type 0 where
  pub filename : Text
  pub content_type : Text
  pub content : Bytes
  pub content_id : Text

-- `Input`
pub record Input : Type 0 where
  pub from : Text
  pub to : List Text
  pub cc : List Text
  pub bcc : List Text
  pub reply_to : List Text
  pub subject : Text
  pub text : Text
  pub html : Text
  pub headers : List (Text × Text)
  pub attachments : List Attachment

-- `gomail.Address`: the display name, and the address
abbrev pub Named : Type 0
Named = Text × Text

-- net/mail's `ParseAddress` with the text of its error, how `fmt` quotes a text and prints an error of
-- `frompattern`, and `unicode.ToLower` beyond ASCII.
pub record Parsers : Type 0 where
  pub idna : Idna
  pub parse_one : Text → Result Text Named
  pub unusable : Error → Text
  pub quote : Text → Text
  pub fold : ℕ → ℕ

-- `reservedHeaders`
abbrev pub reserved_headers : List (Text × Text)
reserved_headers =
    (codes "from", codes "use the from field")
    ∷ (codes "to", codes "use the to field")
    ∷ (codes "cc", codes "use the cc field")
    ∷ (codes "bcc", codes "use the bcc field: a Bcc header is never written")
    ∷ (codes "reply-to", codes "use the reply_to field")
    ∷ (codes "subject", codes "use the subject field")
    ∷ (codes "sender", codes "not accepted: it would contradict the validated sender")
    ∷ (codes "return-path", codes "set by the relay, not by the client")
    ∷ (codes "mime-version", codes "set by relais")
    ∷ (codes "content-type", codes "determined by the body and attachments")
    ∷ (codes "content-transfer-encoding", codes "determined by relais")
    ∷ (codes "content-disposition", codes "determined by relais")
    ∷ (codes "bcc-recipients", codes "not a real header")
    ∷ []

unfoldable pub reserved_for : Text → List (Text × Text) → Option Text
reserved_for name [] = none
reserved_for name ((n, reason) ∷ more) =
    if equal n name then some reason else reserved_for name more

-- the characters that a header name may not have
abbrev pub bad_name_rune : ℕ → Bool
bad_name_rune r = leb r 32 || leb 0x7f r || r == b':'

abbrev pub breaks_line : Text → Bool
breaks_line = contains_any (13 ∷ 10 ∷ [])

module _ (p : Parsers) where
  abbrev pub item : Text → ℕ → Text
  item field i = field ++ (codes "[" ++ (decimal i ++ codes "]"))

  abbrev pub bad_item : Text → ℕ → Text → BuildError
  bad_item field i text = problem (codes "invalid_recipient") field (item field i ++ text)

  -- one round of `parseAddressList`
  unfoldable pub parse_item : Text → ℕ → Text → Result BuildError Named
  parse_item field i value =
      let trimmed = trim_space value in
      if is_empty trimmed
      then err (bad_item field i (codes " is empty"))
      else elim (p.parse_one trimmed) [
        | err e ↦ err (
            bad_item field i
              (codes " (" ++ (p.quote trimmed ++ (codes ") is not a valid address: " ++ e))))
        | ok (name, address) ↦ elim (parse_address p.idna address) [
          | err e ↦ err (
              bad_item field i
                (codes " (" ++ (p.quote trimmed ++ (codes ") is not usable: " ++ p.unusable e))))
          | ok normalized ↦ ok (name, address_string normalized)
        ]
      ]

  -- `parseAddressList`, from the index on
  unfoldable pub parse_items : Text → ℕ → List Text → Result BuildError (List Named)
  parse_items field i [] = ok []
  parse_items field i (value ∷ values) = do
    first ← parse_item field i value
    more ← parse_items field (suc i) values
    ok (first ∷ more)

  -- `parseSender`
  unfoldable pub parse_sender : Text → Result BuildError (Named × Address)
  parse_sender value =
      let trimmed = trim_space value in
      let bad = problem (codes "invalid_from") (codes "from") in
      if is_empty trimmed
      then err (bad (codes "from is required"))
      else elim (p.parse_one trimmed) [
        | err e ↦ err (bad (codes "from is not a valid address: " ++ e))
        | ok (name, address) ↦ elim (parse_address p.idna address) [
          | err e ↦ err (bad (codes "from is not usable: " ++ p.unusable e))
          | ok normalized ↦ ok ((name, address_string normalized), normalized)
        ]
      ]

  abbrev pub bad_header : Text → BuildError
  bad_header = problem (codes "invalid_header") (codes "headers")

  -- one round of `validateHeaders`
  unfoldable pub validate_header : Text → Text → Result BuildError (Unit {0})
  validate_header key value =
      let trimmed = trim_space key in
      if is_empty trimmed
      then err (bad_header (codes "a header name is empty"))
      else elim (reserved_for (to_lower p.fold trimmed) reserved_headers) [
        | some reason ↦
            err (
              bad_header (codes "the " ++ (trimmed ++ (codes " header cannot be set: " ++ reason))))
        | none ↦
            if any bad_name_rune trimmed
            then err (
                bad_header (
                  codes "the header name "
                  ++ (p.quote trimmed ++ codes " contains an invalid character")))
            else if breaks_line value
            then err
                (bad_header (codes "the value of " ++ (trimmed ++ codes " contains a line break")))
            else ok tt
      ]

  -- `validateHeaders`
  unfoldable pub validate_headers : List (Text × Text) → Result BuildError (Unit {0})
  validate_headers [] = ok tt
  validate_headers ((key, value) ∷ more) = validate_header key value >> validate_headers more

-- `validateAttachments`, from the index on
unfoldable pub validate_attachments : ℕ → List Attachment → Result BuildError (Unit {0})
validate_attachments i [] = ok tt
validate_attachments i (a ∷ more) =
    let filename = trim_space a.filename in
    let bad : Text → BuildError = λ text.
      problem (codes "invalid_attachment") (codes "attachments")
        (codes "attachments[" ++ (decimal i ++ (codes "]" ++ text))) in
    do
      refuse_if (is_empty filename) (bad (codes " has no filename"))
      refuse_if (breaks_line filename) (bad (codes " has a line break in its filename"))
      refuse_if (contains_any (b'/' ∷ 92 ∷ []) filename)
          (bad (codes " filename must not contain a path separator"))
      refuse_if (is_empty a.content) (bad (codes " (" ++ (filename ++ codes ") is empty")))
      refuse_if (breaks_line a.content_type) (bad (codes " has a line break in its content type"))
      validate_attachments (suc i) more

-- the loop of `dedupe`. The keys of `seen` are the elements of `out`.
unfoldable pub dedupe_onto : List Text → List Text → List Text
dedupe_onto out [] = out
dedupe_onto out (a ∷ more) = dedupe_onto (added a out) more

-- `dedupe`
abbrev pub dedupe : List Text → List Text → List Text → List Text
dedupe to cc bcc = dedupe_onto (dedupe_onto (dedupe_onto [] to) cc) bcc

-- `addressStrings`
abbrev pub address_strings : List Named → List Text
address_strings = map (λ n. n.1)
