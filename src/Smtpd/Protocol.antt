-- ===== src/Smtpd/Protocol.antt =====
-- internal/smtpd/smtpd.go: a connection, as the library that speaks the protocol drives it.
use relais.Base.{Bool, true, false, List, [], ◌∷◌, Option, none, some, if◌then◌else◌, ok, err}
use relais.Text.{Text}
use relais.Mailnorm.Parse.{Reader}
use relais.Smtpd.{Reply, Mechanism, plain, login, auth_mechanism}
use relais.Smtpd.Session.{
  LoginServer, Exchange, no_exchange, with_plain, with_login, Session, Server, Conn, ReadFailure,
  authenticate, mail, rcpt, data_call, reset,
}

-- What the library calls: `Auth`, the two kinds of response to it, `Mail`, `Rcpt`, `Data`, `Reset`.
pub data Call : Type 0 where
  auths : Text → Call
  plain_responds : Text → Text → Call
  login_responds : Text → Call
  mails rcpts : Text → Call
  reads : Reader ReadFailure → Call
  resets : Call

abbrev pub first_exchange : Mechanism → Exchange
first_exchange plain = with_plain
first_exchange login = with_login (record { username = []; got_username = false })

module _ {Tokens : Type 0} (s : Server Tokens) where
  -- `Auth`
  unfoldable pub auth : Bool → Text → Conn Tokens → Option Reply × Conn Tokens
  auth encrypted mech c = elim (auth_mechanism s.upper encrypted mech) [
    | err r ↦ (some r, c)
    | ok m ↦ (none, record c { exchange = first_exchange m })
  ]

  -- the callback that both mechanisms end in
  unfoldable pub finish : Text → Text → Conn Tokens → Option Reply × Conn Tokens
  finish username password c =
      let (r, session, w) = authenticate s username password c.session c.world in
      (r, record c { session = session; exchange = no_exchange; world = w })

  -- `loginServer.Next`
  unfoldable pub login_next : LoginServer → Text → Conn Tokens → Option Reply × Conn Tokens
  login_next l response c = if l.got_username then finish l.username response c else (
    none,
    record c { exchange = with_login (record { username = response; got_username = true }) },
  )

  abbrev pub with_session : Conn Tokens → Option Reply × Session → Option Reply × Conn Tokens
  with_session c (r, session) = (r, record c { session = session })

  -- A response outside of its exchange does not come.
  unfoldable pub respond : Exchange → Call → Conn Tokens → Option Reply × Conn Tokens
  respond with_plain (plain_responds username password) c = finish username password c
  respond (with_login l) (login_responds response) c = login_next l response c
  respond _ _ c = (none, c)

  -- One call: what it returns, and the connection after it.
  unfoldable pub step : Bool → Call → Conn Tokens → Option Reply × Conn Tokens
  step encrypted (auths mech) c = auth encrypted mech c
  step encrypted (plain_responds u p) c = respond c.exchange (plain_responds u p) c
  step encrypted (login_responds r) c = respond c.exchange (login_responds r) c
  step encrypted (mails from) c = with_session c (mail from c.session)
  step encrypted (rcpts to) c = with_session c (rcpt s to c.session)
  step encrypted (reads r) c =
      let (answer, (l, w)) = data_call s r c.session (c.limiter, c.world) in
      (some answer, record c { limiter = l; world = w })
  step encrypted resets c = (none, record c { session = reset c.session })

  -- A connection, with what is known of it at each call: whether it is encrypted.
  unfoldable pub run : List (Bool × Call) → Conn Tokens → Conn Tokens
  run [] c = c
  run ((encrypted, call) ∷ calls) c = run calls (step encrypted call c).1
