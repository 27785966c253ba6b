-- ===== src/Smtpd/Moves.antt =====
-- A session as a state machine: who sends, and to whom, and what each call may change of it.
use relais.Base.{
  ◌<◌, ◌≤◌, err, ◌≡◌, Bool, true, false, List, [], ◌∷◌, ◌++◌, Option, none, some, if◌then◌else◌,
  length, ok,
}
use relais.Text.{Text}
use relais.FromPattern.Normalize.{Error}
use relais.FromPattern.Parse.{Address, address_string, parse_address}
use relais.Store.Session.{World}
use relais.Store.Credentials.{AuthCredential}
use relais.Authn.{AuthError, smtp_user}
use relais.Smtpd.Session.{Exchange, with_plain, with_login, Session, Server}
use relais.Smtpd.Protocol.{Call, plain_responds, login_responds, mails, rcpts, resets}

-- What a session comes down to.
pub data Phase : Type 0 where
  anonymous : Phase
  ready : AuthCredential → List Text → Phase

abbrev pub phase_of : Bool → AuthCredential → List Text → Phase
phase_of true who rs = ready who rs
phase_of false who rs = anonymous

abbrev pub phase : Session → Phase
phase c = phase_of c.authenticated c.credential c.recipients

-- The user name and the password that a response completes.
abbrev pub attempt : Exchange → Call → Option (Text × Text)
attempt with_plain (plain_responds username password) = some (username, password)
attempt (with_login l) (login_responds response) =
    if l.got_username then some (l.username, response) else none
attempt _ _ = none

-- A call that is not a command of the envelope.
abbrev pub is_other : Call → Bool
is_other (mails from) = false
is_other (rcpts to) = false
is_other resets = false
is_other _ = true

module _ {Tokens : Type 0} (s : Server Tokens) where
  -- The specification: what a call may do to the phase, in this exchange and on this database.
  pub data Move (x : Exchange) (w : World) : Call → Phase → Phase → Type 0 where
    no_attempt :
        {p : Phase} (call : Call) → is_other call ≡ true → attempt x call ≡ none → Move x w call p p
    denied :
        {p : Phase} (call : Call) (username password : Text) (e : AuthError)
        → attempt x call ≡ some (username, password)
        → (smtp_user s.secrets username password w).0 ≡ err e
        → Move x w call p p
    identifies :
        (call : Call) (username password : Text) (who : AuthCredential)
        → attempt x call ≡ some (username, password)
        → (smtp_user s.secrets username password w).0 ≡ ok who
        → Move x w call anonymous (ready who [])
    identifies_anew :
        {old : AuthCredential} {rs : List Text} (call : Call) (username password : Text)
        (who : AuthCredential)
        → attempt x call ≡ some (username, password)
        → (smtp_user s.secrets username password w).0 ≡ ok who
        → Move x w call (ready old rs) (ready who rs)
    ignored : (call : Call) → is_other call ≡ false → Move x w call anonymous anonymous
    begins :
        {who : AuthCredential} {rs : List Text} (from : Text)
        → Move x w (mails from) (ready who rs) (ready who [])
    forgets :
        {who : AuthCredential} {rs : List Text} → Move x w resets (ready who rs) (ready who [])
    adds :
        {who : AuthCredential} {rs : List Text} (to : Text) (address : Address)
        → parse_address s.service.keys.idna to ≡ ok address
        → length rs < s.limits.max_recipients
        → Move x w (rcpts to) (ready who rs) (ready who (rs ++ address_string address ∷ []))
    misspelt :
        {who : AuthCredential} {rs : List Text} (to : Text) (e : Error)
        → parse_address s.service.keys.idna to ≡ err e
        → Move x w (rcpts to) (ready who rs) (ready who rs)
    is_full :
        {who : AuthCredential} {rs : List Text} (to : Text)
        → s.limits.max_recipients ≤ length rs
        → Move x w (rcpts to) (ready who rs) (ready who rs)

  -- Nobody has named a recipient before the authentication.
  abbrev pub Clean : Session → Type 0
  Clean c = c.authenticated ≡ false → c.recipients ≡ []

  pub record Follows (x : Exchange) (w : World) (call : Call) (c d : Session) : Type 0 where
    pub move : Move x w call (phase c) (phase d)
    pub clean : Clean d
