-- ===== src/Ingest/Genuine.antt =====
-- A submission whose message goes through the parser of mailnorm.
use relais.Base.{◌≡◌, ◌∙◌, sym, true, ◌⊎◌, inl, inr}
use relais.Crypto.Keyring.{Bytes}
use relais.FromPattern.Matching.{allows}
use relais.RateLimit.{Limiter}
use relais.Store.Session.{World}
use relais.Mailnorm.{Mail, Headers, Options}
use relais.Mailnorm.Parse.{parse_message}
use relais.Mailnorm.Accepted.{Accepted, parse_message-Accepted}
use relais.Ingest.{submit}
use relais.Ingest.Submission.{Service, Request}
use relais.Ingest.Authorized.{Unqueued, submit-Unqueued}

module _ {Float Tokens : Type 0} (s : Service Float Tokens) {H : Type 0} (h : Headers H)
    (o : Options) where
  -- The message has one sender in its header, and the credential may send as this one.
  pub record Genuine (req : Request Float) : Type 0 where
    pub mail : Mail
    pub accepted : Accepted s.keys.idna h req.raw o mail
    pub allowed : allows req.credential.patterns mail.from ≡ true

  -- When the service parses with `mailnorm.Parse`, a submission leaves the payloads and the
  -- delivery jobs as they were, or its message has exactly one From field, which lists exactly one
  -- address, the parsed address is the sender and a pattern of the credential allows it, and the
  -- message that `Parse` gives on is the written header followed by the body with its line ends
  -- made CR LF, within the limits. This holds whichever queries fail.
  pub submit-Genuine :
      ((raw : Bytes) → s.parse_mail raw ≡ parse_message s.keys.idna h raw o)
      → (req : Request Float) (l : Limiter Float Tokens) (w : World)
      → Unqueued w (submit s req (l, w)).1.1 ⊎ Genuine req
  submit-Genuine wired req l w = elim (submit-Unqueued s req l w) [
    | inl left ↦ inl left
    | inr a ↦ inr (record {
      mail = a.mail;
      accepted =
          parse_message-Accepted s.keys.idna h req.raw o a.mail (sym (wired req.raw) ∙ a.parsed);
      allowed = a.sender;
    })
  ]
