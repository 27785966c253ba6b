-- ===== src/Httpapi.antt =====
-- internal/httpapi: the answers of the REST API, and the two routes of a client.
-- A request comes with what encoding/json and uuid have read in it.
pub mod Emails
pub mod Private
pub mod Queued
use relais.Base.{
  ℕ, zero, suc, Bool, true, false, not, ◌&&◌, ◌||◌, List, [], ◌∷◌, ◌++◌, Option, none, some, ◌==◌,
  if◌then◌else◌, is_empty, equal, any, Result, ok, err, ◌>>=◌, ◌>>◌,
}
use relais.Text.{Text, codes}
use relais.Crypto.Keyring.{Bytes}
use relais.Sender.{decimal}
use relais.Store.Rows.{Message}
use relais.Store.Session.{
  StoreError, not_found, conflict, reference, constraint, validation, failure,
}
use relais.Ingest.Submission.{Rejection, Accepted}
use relais.Mailbuild.{BuildError, problem, Attachment}

-- `errorBody`, with the status the `Retry-After` and the `WWW-Authenticate` of the response
pub record Problem : Type 0 where
  pub status : ℕ
  pub code : Text
  pub message : Text
  pub field : Text
  pub message_id : ℕ
  pub retry_after : Text
  pub challenge : Text

-- A response: an error, a `sendResponse` or a `messageResponse`.
pub data Response : Type 0 where
  failed : Problem → Response
  sent : ℕ → Accepted → Response
  shown : Message → Response

-- `writeError`
abbrev pub write_error : ℕ → Text → Text → Response
write_error status code message = failed (record {
  status = status;
  code = code;
  message = message;
  field = [];
  message_id = 0;
  retry_after = [];
  challenge = [];
})

-- the `switch` of `writeRejection`
unfoldable pub rejection_status : Text → ℕ
rejection_status reason =
    if any (equal reason) (codes "sender_not_allowed" ∷ codes "recipient_not_allowed" ∷ [])
    then 403
    else if equal reason (codes "credential_unusable")
    then 401
    else if equal reason (codes "rate_limited")
    then 429
    else if any (equal reason) (codes "message_too_large" ∷ codes "headers_too_large" ∷ [])
    then 413
    else 422

-- `writeRejection`
unfoldable pub write_rejection : Rejection → Response
write_rejection r = failed (record {
  status = rejection_status r.reason;
  code = r.reason;
  message = r.detail;
  field = [];
  message_id = r.message_id;
  retry_after = if equal r.reason (codes "rate_limited") then codes "1" else [];
  challenge = [];
})

-- `writeBuildError`
unfoldable pub write_build_error : BuildError → Response
write_build_error e = failed (record {
  status = if equal e.code (codes "message_too_large") then 413 else 422;
  code = e.code;
  message = e.message;
  field = e.field;
  message_id = 0;
  retry_after = [];
  challenge = [];
})

-- `writeUnauthorized`
abbrev pub write_unauthorized : Response
write_unauthorized = failed (record {
  status = 401;
  code = codes "unauthorized";
  message = codes "authentication failed";
  field = [];
  message_id = 0;
  retry_after = [];
  challenge = codes "Bearer realm=\"relais\"";
})

-- `writeUnavailable`
abbrev pub write_unavailable : Response
write_unavailable = failed (record {
  status = 503;
  code = codes "service_unavailable";
  message = codes "the service is temporarily unable to accept submissions";
  field = [];
  message_id = 0;
  retry_after = codes "5";
  challenge = [];
})

-- What `decodeJSON` finds: the limit of the reader, an error of the decoder, more behind the object, or
-- the object.
pub data Decoded (A : Type 0) : Type 0 where
  too_big : ℕ → Decoded A
  malformed : Text → Decoded A
  trailing : Decoded A
  decoded : A → Decoded A

-- `decodeJSON`
unfoldable pub decode_json : {A : Type 0} → Decoded A → Result Response A
decode_json (too_big limit) = err (
    write_error 413 (codes "message_too_large") (
      codes "the request body exceeds the configured limit of "
      ++ (decimal limit ++ codes " bytes")))
decode_json (malformed e) =
    err (write_error 400 (codes "invalid_json") (codes "the request body is not valid JSON: " ++ e))
decode_json trailing = err (
    write_error 400 (codes "invalid_json")
      (codes "the request body must contain exactly one JSON object"))
decode_json (decoded a) = ok a

-- `constraintField`
unfoldable pub constraint_field : Text → Text
constraint_field name =
    if any (equal name)
      (codes "smtp_backend_name_key" ∷ codes "credential_name_key" ∷ codes "domain_name_key" ∷ [])
    then codes "name"
    else if equal name (codes "credential_lookup_key")
    then codes "username"
    else if equal name (codes "credential_from_pattern_key")
    then codes "pattern"
    else []

-- `writeStoreError`. `show` is the text of the error.
unfoldable pub write_store_error : (StoreError → Text) → StoreError → Response
write_store_error show not_found = write_error 404 (codes "not_found") (codes "no such resource")
write_store_error show (conflict name) = failed (record {
  status = 409;
  code = codes "conflict";
  message = codes "that name or value is already taken";
  field = constraint_field name;
  message_id = 0;
  retry_after = [];
  challenge = [];
})
write_store_error show reference =
    write_error 409 (codes "still_referenced")
      (codes "something still references this, or what it points at does not exist")
write_store_error show constraint = write_error 422 (codes "invalid_request") (show constraint)
write_store_error show e = write_unavailable

-- `requestAttachment`
pub record RequestAttachment : Type 0 where
  pub filename : Text
  pub content : Text
  pub content_type : Text
  pub content_id : Text

-- the white space that `decodeBase64` drops
unfoldable pub squeeze : Text → Text
squeeze [] = []
squeeze (c ∷ s) =
    let rest = squeeze s in if c == 10 || c == 13 || c == 32 || c == 9 then rest else c ∷ rest

-- the loop over the four encodings of `decodeBase64`
unfoldable pub first_decoding : List (Text → Option Bytes) → Text → Option Bytes
first_decoding [] s = none
first_decoding (d ∷ ds) s = elim (d s) [ some b ↦ some b | none ↦ first_decoding ds s ]

-- `decodeBase64`
unfoldable pub decode_base64 : List (Text → Option Bytes) → Text → Result Text Bytes
decode_base64 ds value =
    let cleaned = squeeze value in
    if is_empty cleaned
    then err (codes "the content is empty")
    else elim (first_decoding ds cleaned) [
      | some b ↦ ok b
      | none ↦ err (codes "the content is not valid base64")
    ]

-- `decodeAttachments`, from the index on
unfoldable pub decode_attachments :
    List (Text → Option Bytes) → ℕ → List RequestAttachment → Result BuildError (List Attachment)
decode_attachments ds i [] = ok []
decode_attachments ds i (a ∷ more) = elim (decode_base64 ds a.content) [
  | err e ↦ err (
      problem (codes "invalid_attachment") (codes "attachments") (
        codes "attachments["
        ++ (decimal i
            ++ (codes "] ("
                ++ ((if is_empty a.filename then codes "(unnamed)" else a.filename)
                    ++ (codes "): " ++ e))))))
  | ok content ↦ decode_attachments ds (suc i) more >>= λ rest. ok (
      record {
        filename = a.filename;
        content_type = a.content_type;
        content = content;
        content_id = a.content_id;
      }
      ∷ rest)
]
