-- ===== src/Sender/Exchange.antt =====
-- internal/sender/sender.go: `classify` and `deliver`, against a relay's answers.
use relais.Base.{
  ℕ, ◌+◌, Bool, ◌&&◌, List, [], ◌∷◌, ◌++◌, Option, none, some, ltb, leb, if◌then◌else◌, is_empty,
  Result, ok, err, ◌>>=◌, ◌>>◌, refuse_if, any,
}
use relais.Text.{Text, codes, trim_space}
use relais.Sender.{
  Kind, transient, permanent, SendError, Outgoing, RejectedRecipient, Delivery, rejected_detail,
  decimal,
}

-- What an error of the transport or of the SMTP client is, as far as `errors.Is` and `errors.As`
-- tell; the text is its own.
pub data WireError : Type 0 where
  end_of_file : WireError
  canceled deadline_exceeded tls_failure net_timeout plain : Text → WireError
  smtp : ℕ → Text → WireError

-- `smtpCode`
unfoldable pub smtp_code_of : WireError → ℕ
smtp_code_of (smtp code _) = code
smtp_code_of _ = 0

abbrev smtp_summary : ℕ → Text → Text
smtp_summary code message =
    if is_empty message then decimal code else decimal code ++ (b' ' ∷ message)

-- `summarize`
unfoldable pub summarize : WireError → Text
summarize (smtp code message) = smtp_summary code (trim_space message)
summarize end_of_file = codes "the relay closed the connection"
summarize (canceled text) = text
summarize (deadline_exceeded text) = text
summarize (tls_failure text) = text
summarize (net_timeout text) = text
summarize (plain text) = text

abbrev pub failure_of : Kind → Text → Text → ℕ → SendError
failure_of k code detail n = record { kind = k; code = code; detail = detail; smtp_code = n }

abbrev because : Text → WireError → Text
because what e = what ++ (codes ": " ++ summarize e)

-- `classify`, with `contextError`
unfoldable pub classify : Text → Text → WireError → SendError
classify code what (canceled t) = failure_of transient (codes "canceled") what 0
classify code what (deadline_exceeded t) = failure_of transient (codes "timeout") what 0
classify code what (tls_failure t) =
    failure_of transient (codes "tls_failed") (because what (tls_failure t)) 0
classify code what (smtp n message) =
    failure_of (if leb 500 n then permanent else transient) code (because what (smtp n message)) n
classify code what (net_timeout t) =
    failure_of transient (codes "timeout") (what ++ codes ": timed out") 0
classify code what end_of_file = failure_of transient code (because what end_of_file) 0
classify code what (plain t) = failure_of transient code (because what (plain t)) 0

-- The relay's answers to one exchange: `none` accepts. RCPT is answered by its place and address.
pub record Relay : Type 0 where
  pub encrypted : Bool
  pub mail : Option WireError
  pub rcpt : ℕ → Text → Option WireError
  pub data_command : Option WireError
  pub write : Option WireError
  pub close : Result WireError (Option Text)

-- the loop over the recipients
unfoldable pub offer :
    Relay → ℕ → List Text → List RejectedRecipient → List Text → List Text × List RejectedRecipient
offer relay i accepted rejected [] = (accepted, rejected)
offer relay i accepted rejected (to ∷ rest) =
    let answer = relay.rcpt i to in
    let taken : List Text = elim answer [ none ↦ accepted ++ to ∷ [] | some e ↦ accepted ] in
    let refused : List RejectedRecipient = elim answer [
      | none ↦ rejected
      | some e ↦
          rejected ++ record { address = to; smtp_code = smtp_code_of e; detail = summarize e } ∷ []
    ] in
    offer relay (i + 1) taken refused rest

-- `rejected.SMTPCode >= 400 && rejected.SMTPCode < 500`
abbrev pub is_transient_refusal : RejectedRecipient → Bool
is_transient_refusal r = leb 400 r.smtp_code && ltb r.smtp_code 500

abbrev pub all_rejected_kind : List RejectedRecipient → Kind
all_rejected_kind rs = if any is_transient_refusal rs then transient else permanent

abbrev pub step_ok : Option WireError → Text → Text → Result SendError (Unit {0})
step_ok none code what = ok tt
step_ok (some e) code what = err (classify code what e)

abbrev pub end_of_data : Result WireError (Option Text) → Result SendError Text
end_of_data (err e) = err (classify (codes "data_rejected") (codes "end of DATA") e)
end_of_data (ok none) = ok []
end_of_data (ok (some status)) = ok (trim_space status)

-- `deliver` after the recipients
unfoldable pub send_data : Relay → List Text → List RejectedRecipient → Result SendError Delivery
send_data relay accepted rejected = do
  step_ok relay.data_command (codes "data_rejected") (codes "DATA")
  step_ok relay.write (codes "write_failed") (codes "writing the message")
  response ← end_of_data relay.close
  ok (record {
    accepted = accepted;
    rejected = rejected;
    response = response;
    used_tls = relay.encrypted;
  })

abbrev pub no_delivery : Bool → List RejectedRecipient → Delivery
no_delivery tls rejected = record {
  accepted = [];
  rejected = rejected;
  response = [];
  used_tls = tls;
}

-- `deliver`, whose result beside an error nobody reads
unfoldable pub deliver : Relay → Outgoing → Result SendError Delivery
deliver relay msg = do
  step_ok relay.mail (codes "mail_from_rejected") (codes "MAIL FROM " ++ msg.from)
  let answers = offer relay 0 [] [] msg.recipients
  refuse_if (is_empty answers.0) (
      failure_of (all_rejected_kind answers.1) (codes "all_recipients_rejected")
        (rejected_detail (no_delivery relay.encrypted answers.1)) 0)
  send_data relay answers.0 answers.1
