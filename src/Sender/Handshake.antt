-- ===== src/Sender/Handshake.antt =====
-- internal/sender/sender.go: `dial`, `handshake`, `authenticate` and `Send`, against a peer.
-- A run gives back what it wrote, with the state of the connection at that moment.
use relais.Base.{
  ℕ, ◌-◌, Bool, not, List, [], ◌∷◌, ◌++◌, map, Option, none, some, ltb, if◌then◌else◌, is_empty,
  equal, Result, ok, err, ◌||◌,
}
use relais.Text.{Text, codes, within, has_prefix}
use relais.Store.Routes.{SenderRoute, uses_auth}
use relais.Sender.{Kind, permanent, SendError, Outgoing, Delivery, decimal}
use relais.Sender.Exchange.{
  WireError, deadline_exceeded, tls_failure, smtp_code_of, summarize, classify, Relay, deliver,
  failure_of, step_ok,
}

-- `strings.ToUpper`. `fold` stands for `unicode.ToUpper` beyond ASCII.
abbrev pub to_upper : (ℕ → ℕ) → Text → Text
to_upper fold = map (λ c. if ltb c 0x80 then (if within b'a' b'z' c then c - 32 else c) else fold c)

-- `strings.Contains`
unfoldable pub contains_text : Text → Text → Bool
contains_text part [] = is_empty part
contains_text part (c ∷ s) = has_prefix part (c ∷ s) || contains_text part s

pub data Mechanism : Type 0 where
  plain_auth login_auth : Mechanism

-- What `Send` writes: EHLO, AUTH with the user and the password, and the exchange of a message.
pub data Command : Type 0 where
  hello : Text → Command
  auth : Mechanism → Text → Text → Command
  exchange : Outgoing → Command

pub record Sent : Type 0 where
  pub encrypted : Bool
  pub command : Command

-- The network and the relay. `none` is success; `auth_extension` is what EHLO offers after AUTH.
pub record Peer : Type 0 where
  pub fold : ℕ → ℕ
  pub acquired : Option WireError
  pub dialed : Option WireError
  pub starttls : Option WireError
  pub greeted : Option WireError
  pub auth_extension : Option Text
  pub authenticated : Option WireError
  pub relay : Relay

-- the settings of the sender that a delivery reads
pub record Config : Type 0 where
  pub helo_name : Text

-- `SenderRoute.Address`
abbrev pub address_of : SenderRoute → Text
address_of r = r.host ++ (b':' ∷ decimal r.port)

-- `contextError`
unfoldable pub context_error : WireError → Text → SendError
context_error (deadline_exceeded _) what =
    failure_of relais.Sender.transient (codes "timeout") what 0
context_error _ what = failure_of relais.Sender.transient (codes "canceled") what 0

-- a step that writes and a step after it
abbrev pub Writes : Type 0 → Type 0
Writes A = List Sent × Result SendError A

unfoldable pub then_write : {A B : Type 0} → Writes A → (A → Writes B) → Writes B
then_write m f = elim m.1 [ ok a ↦ (m.0 ++ (f a).0, (f a).1) | err e ↦ (m.0, err e) ]

abbrev pub silent : {A : Type 0} → Result SendError A → Writes A
silent r = ([], r)

abbrev pub write : {A : Type 0} → Bool → Command → Result SendError A → Writes A
write tls c r = (record { encrypted = tls; command = c } ∷ [], r)

-- `pickAuthMechanism`
unfoldable pub pick_auth_mechanism : Peer → SenderRoute → Result SendError Mechanism
pick_auth_mechanism peer route = elim peer.auth_extension [
  | none ↦ err (
      failure_of permanent (codes "auth_unsupported")
        (route.host ++ codes " does not advertise AUTH, but a credential is configured for it") 0)
  | some mechanisms ↦
      let offered = to_upper peer.fold mechanisms in
      if contains_text (codes "PLAIN") offered
      then ok plain_auth
      else if contains_text (codes "LOGIN") offered
      then ok login_auth
      else err (
          failure_of permanent (codes "auth_unsupported")
            (route.host
              ++ (codes " offers AUTH "
                  ++ (mechanisms ++ codes "; relais supports PLAIN and LOGIN")))
            0)
]

abbrev auth_answer : Option WireError → Result SendError (Unit {0})
auth_answer none = ok tt
auth_answer (some e) =
    err (failure_of permanent (codes "auth_failed") (summarize e) (smtp_code_of e))

-- `authenticate`
unfoldable pub authenticate : Peer → SenderRoute → Writes (Unit {0})
authenticate peer route =
    if not (uses_auth route)
    then silent (ok tt)
    else if not peer.relay.encrypted
    then silent (
        err (
          failure_of permanent (codes "auth_insecure")
            (codes "refusing to send SMTP AUTH over an unencrypted connection to " ++ route.host)
            0))
    else then_write (silent (pick_auth_mechanism peer route)) λ mechanism.
      write peer.relay.encrypted (auth mechanism route.auth_user route.auth_password)
        (auth_answer peer.authenticated)

-- `heloName`
unfoldable pub helo_name_of : Config → SenderRoute → Text
helo_name_of cfg route = if is_empty route.helo_name then cfg.helo_name else route.helo_name

-- `handshake`
unfoldable pub handshake : Config → Peer → SenderRoute → Writes (Unit {0})
handshake cfg peer route =
    let secured : Result SendError (Unit {0}) =
      if equal route.tls_mode (codes "starttls")
      then step_ok peer.starttls (codes "tls_failed") (codes "STARTTLS with " ++ route.host)
      else ok tt in
    then_write (silent secured) λ _.
      then_write
        (write peer.relay.encrypted (hello (helo_name_of cfg route))
          (step_ok peer.greeted (codes "ehlo_failed") (codes "EHLO")))
        λ _. authenticate peer route

-- `dial`: a failure of TLS, on a connection that begins with it, has its own code.
unfoldable pub dial : Peer → SenderRoute → Result SendError (Unit {0})
dial peer route = elim peer.dialed [
  | none ↦ ok tt
  | some (tls_failure t) ↦
      let code =
        if equal route.tls_mode (codes "tls") then codes "tls_failed" else codes "dial_failed" in
      err (classify code (codes "connect to " ++ address_of route) (tls_failure t))
  | some e ↦ err (classify (codes "dial_failed") (codes "connect to " ++ address_of route) e)
]

abbrev slot : Option WireError → SenderRoute → Result SendError (Unit {0})
slot none route = ok tt
slot (some e) route =
    err (context_error e (codes "waiting for a free connection slot to " ++ route.backend_name))

abbrev internal : Text → SendError
internal text = failure_of permanent (codes "internal_error") text 0

-- `Send`
unfoldable pub send : Config → Peer → SenderRoute → Outgoing → Writes Delivery
send cfg peer route msg =
    if is_empty msg.recipients
    then silent (err (internal (codes "no recipients")))
    else if is_empty msg.raw
    then silent (err (internal (codes "empty message")))
    else then_write (silent (slot peer.acquired route)) λ _.
      then_write (silent (dial peer route)) λ _.
        then_write (handshake cfg peer route)
          λ _. write peer.relay.encrypted (exchange msg) (deliver peer.relay msg)
