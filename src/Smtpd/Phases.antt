-- ===== src/Smtpd/Phases.antt =====
-- The calls of a session are moves of the state machine.
use mathlib.Core.Path.{subst}
use relais.Base.{
  ◌<◌, ◌≤◌, err, ◌≡◌, refl, sym, inl, inr, Bool, true, false, not, List, [], ◌∷◌, ◌++◌, Option,
  none, some, arith, leb, if◌then◌else◌, length, ok, Result-cases,
}
use relais.Text.{Text}
use relais.FromPattern.Normalize.{Error}
use relais.FromPattern.Parse.{Address, address_string, parse_address}
use relais.Store.Session.{World}
use relais.Store.Credentials.{AuthCredential}
use relais.Authn.{AuthError, unauthenticated, unavailable, smtp_user}
use relais.Mailnorm.Parse.{Reader}
use relais.Smtpd.{Reply, authentication_required, auth_mechanism}
use relais.Smtpd.Session.{
  Exchange, LoginServer, no_exchange, with_plain, with_login, Session, Server, Conn, ReadFailure,
  authenticate, authenticated_as, mail, rcpt, too_many, add_recipient,
}
use relais.Smtpd.Protocol.{
  Call, auths, plain_responds, login_responds, mails, rcpts, reads, resets, auth, finish,
  login_next, respond, step,
}
use relais.Smtpd.Moves.{
  anonymous, ready, phase_of, attempt, is_other, Move, no_attempt, denied, identifies,
  identifies_anew, ignored, begins, forgets, adds, misspelt, is_full, Clean, Follows,
}

module _ {Tokens : Type 0} (s : Server Tokens) where
  rests-Follows :
      (x : Exchange) (w : World) (call : Call) (c : Session)
      → is_other call ≡ true
      → attempt x call ≡ none
      → Clean s c
      → Follows s x w call c c
  rests-Follows x w call c other nothing h = record {
    move = no_attempt call other nothing;
    clean = h;
  }

  module _ (x : Exchange) (call : Call) (username password : Text)
      (tries : attempt x call ≡ some (username, password)) where
    identify-Move :
        (w : World) (known : Bool) (old who : AuthCredential) (rs : List Text)
        → (smtp_user s.secrets username password w).0 ≡ ok who
        → (known ≡ false → rs ≡ [])
        → Move s x w call (phase_of known old rs) (ready who rs)
    identify-Move w true old who rs user h = identifies_anew call username password who tries user
    identify-Move w false old who rs user h =
        subst (λ r. Move s x w call anonymous (ready who r)) (sym (h refl))
          (identifies call username password who tries user)

    refuse-Follows :
        (w : World) (c : Session) (e : AuthError)
        → (smtp_user s.secrets username password w).0 ≡ err e
        → Clean s c
        → Follows s x w call c c
    refuse-Follows w c e bad h = record {
      move = denied call username password e tries bad;
      clean = h;
    }

    authenticate-Follows :
        (c : Session) (w : World)
        → Clean s c
        → Follows s x w call c (authenticate s username password c w).1
    unfolding authenticate authenticated_as
    authenticate-Follows c w h = elim (Result-cases (smtp_user s.secrets username password w).0) [
      | inl (who, vouched) ↦
          rw (vouched, authenticate)
            (record {
              move = identify-Move w c.authenticated c.credential who c.recipients vouched h;
              clean = λ e. cc;
            })
      | inr (unauthenticated, bad) ↦
          rw (bad, authenticate) (refuse-Follows w c unauthenticated bad h)
      | inr (unavailable, bad) ↦ rw (bad, authenticate) (refuse-Follows w c unavailable bad h)
    ]

    finish-Follows :
        (c : Conn Tokens)
        → Clean s c.session
        → Follows s x c.world call c.session (finish s username password c).1.session
    unfolding finish
    finish-Follows c h = authenticate-Follows c.session c.world h

  module _ (x : Exchange) (w : World) where
    -- Before the authentication nothing shows.
    ignore-Move :
        (call : Call) (known : Bool) (who : AuthCredential) (rs ts : List Text)
        → is_other call ≡ false
        → known ≡ false
        → Move s x w call (phase_of known who rs) (phase_of known who ts)
    ignore-Move call false who rs ts command e = ignored call command
    ignore-Move call true who rs ts command e = cc

    ignore-Follows :
        (call : Call) (c : Session)
        → is_other call ≡ false
        → not c.authenticated ≡ true
        → Clean s c
        → Follows s x w call c c
    ignore-Follows call c command e h = record {
      move =
          ignore-Move call c.authenticated c.credential c.recipients c.recipients command
            (ground arith);
      clean = h;
    }

    begin-Move :
        (from : Text) (known : Bool) (who : AuthCredential) (rs : List Text)
        → not known ≡ false
        → Move s x w (mails from) (phase_of known who rs) (phase_of known who [])
    begin-Move from true who rs e = begins from
    begin-Move from false who rs e = cc

    forget-Move :
        (known : Bool) (who : AuthCredential) (rs : List Text)
        → Move s x w resets (phase_of known who rs) (phase_of known who [])
    forget-Move true who rs = forgets
    forget-Move false who rs = ignored resets refl

    add-Move :
        (to : Text) (addr : Address) (known : Bool) (who : AuthCredential) (rs : List Text)
        → not known ≡ false
        → parse_address s.service.keys.idna to ≡ ok addr
        → length rs < s.limits.max_recipients
        → Move s x w
            (rcpts to)
            (phase_of known who rs)
            (phase_of known who (rs ++ address_string addr ∷ []))
    add-Move to addr true who rs e parsed room = adds to addr parsed room
    add-Move to addr false who rs e parsed room = cc

    full-Move :
        (to : Text) (known : Bool) (who : AuthCredential) (rs : List Text)
        → not known ≡ false
        → s.limits.max_recipients ≤ length rs
        → Move s x w (rcpts to) (phase_of known who rs) (phase_of known who rs)
    full-Move to true who rs e full = is_full to full
    full-Move to false who rs e full = cc

    misspelt-Move :
        (to : Text) (bad : Error) (known : Bool) (who : AuthCredential) (rs : List Text)
        → not known ≡ false
        → parse_address s.service.keys.idna to ≡ err bad
        → Move s x w (rcpts to) (phase_of known who rs) (phase_of known who rs)
    misspelt-Move to bad true who rs e failed = misspelt to bad failed
    misspelt-Move to bad false who rs e failed = cc

    if-Follows :
        (call : Call) (b : Bool) (c : Session) (u v : Option Reply × Session)
        → (b ≡ true → Follows s x w call c u.1)
        → (b ≡ false → Follows s x w call c v.1)
        → Follows s x w call c (if b then u else v).1
    if-Follows call true c u v hu hv = hu refl
    if-Follows call false c u v hu hv = hv refl

    mail-Follows :
        (from : Text) (c : Session) → Clean s c → Follows s x w (mails from) c (mail from c).1
    unfolding mail
    mail-Follows from c h =
        let cleared : Session = record c { envelope_from = from; recipients = [] } in
        if-Follows (mails from) (not c.authenticated) c (some authentication_required, c)
          (none, cleared) (λ e. ignore-Follows (mails from) c refl e h)
          (λ e. record {
            move = begin-Move from c.authenticated c.credential c.recipients e;
            clean = λ e. refl;
          })

    room-Follows :
        (to : Text) (addr : Address) (c : Session)
        → parse_address s.service.keys.idna to ≡ ok addr
        → not c.authenticated ≡ false
        → Clean s c
        → Follows s x w (rcpts to) c (add_recipient s addr c).1
    unfolding add_recipient
    room-Follows to addr c parsed known h =
        let more : Session = record c { recipients = c.recipients ++ address_string addr ∷ [] } in
        if-Follows (rcpts to) (leb s.limits.max_recipients (length c.recipients)) c
          (some (too_many s), c) (none, more)
          (λ full. record {
            move = full-Move to c.authenticated c.credential c.recipients known (ground arith);
            clean = h;
          })
          (λ room. record {
            move =
                add-Move to addr c.authenticated c.credential c.recipients known parsed
                  (ground arith);
            clean = λ e. ground arith;
          })

    rcpt-Follows :
        (to : Text) (c : Session) → Clean s c → Follows s x w (rcpts to) c (rcpt s to c).1
    unfolding rcpt
    rcpt-Follows to c h =
        if-Follows (rcpts to) (not c.authenticated) c (some authentication_required, c) _
          (λ e. ignore-Follows (rcpts to) c refl e h)
          (λ known. elim (Result-cases (parse_address s.service.keys.idna to)) [
            | inr (e, bad) ↦ rw bad (record {
              move = misspelt-Move to e c.authenticated c.credential c.recipients known bad;
              clean = h;
            })
            | inl (addr, parsed) ↦ rw parsed (room-Follows to addr c parsed known h)
          ])

  -- The call on this connection does what the machine allows.
  abbrev pub Steps : Exchange → Call → Conn Tokens → Conn Tokens → Type 0
  Steps x call c d = Follows s x c.world call c.session d.session

  login_next-Follows :
      (got : Bool) (username response : Text) (c : Conn Tokens)
      → Clean s c.session
      → let l : LoginServer = record { username = username; got_username = got } in
        Steps (with_login l) (login_responds response) c (login_next s l response c).1
  unfolding login_next
  login_next-Follows true username response c h =
      finish-Follows (with_login (record { username = username; got_username = true }))
        (login_responds response) username response refl c h
  login_next-Follows false username response c h =
      rests-Follows (with_login (record { username = username; got_username = false })) c.world
        (login_responds response) c.session refl refl h

  plain-Follows :
      (x : Exchange) (u p : Text) (c : Conn Tokens)
      → Clean s c.session
      → Steps x (plain_responds u p) c (respond s x (plain_responds u p) c).1
  unfolding respond
  plain-Follows with_plain u p c h = finish-Follows with_plain (plain_responds u p) u p refl c h
  plain-Follows no_exchange u p c h =
      rests-Follows no_exchange c.world (plain_responds u p) c.session refl refl h
  plain-Follows (with_login l) u p c h =
      rests-Follows (with_login l) c.world (plain_responds u p) c.session refl refl h

  login-Follows :
      (x : Exchange) (r : Text) (c : Conn Tokens)
      → Clean s c.session
      → Steps x (login_responds r) c (respond s x (login_responds r) c).1
  unfolding respond
  login-Follows (with_login l) r c h = login_next-Follows l.got_username l.username r c h
  login-Follows no_exchange r c h =
      rests-Follows no_exchange c.world (login_responds r) c.session refl refl h
  login-Follows with_plain r c h =
      rests-Follows with_plain c.world (login_responds r) c.session refl refl h

  attempt-auths : (x : Exchange) (mech : Text) → attempt x (auths mech) ≡ none
  attempt-auths no_exchange mech = refl
  attempt-auths with_plain mech = refl
  attempt-auths (with_login l) mech = refl

  attempt-reads : (x : Exchange) (r : Reader ReadFailure) → attempt x (reads r) ≡ none
  attempt-reads no_exchange r = refl
  attempt-reads with_plain r = refl
  attempt-reads (with_login l) r = refl

  auth-Follows :
      (e : Bool) (mech : Text) (c : Conn Tokens)
      → Clean s c.session
      → Steps c.exchange (auths mech) c (auth s e mech c).1
  unfolding auth
  auth-Follows e mech c h =
      let rests =
        rests-Follows c.exchange c.world (auths mech) c.session refl (attempt-auths c.exchange mech)
          h in
      elim (Result-cases (auth_mechanism s.upper e mech)) [
        | inl (m, good) ↦ rw (good, auth) rests
        | inr (r, bad) ↦ rw (bad, auth) rests
      ]

  -- Every call on a session in which nobody unauthenticated has a recipient is a move that the
  -- machine has for this call, exchange and database, and leaves such a session. A response that
  -- completes a user name and a password makes them known, with the recipients as they were,
  -- exactly as the credential that the authenticator answers these with, and changes nothing if it
  -- refuses them. `Mail` and `Reset` leave a known sender without recipients. `Rcpt` of a known
  -- sender adds the canonical text of its address, if the text parses and there are fewer than the
  -- limit, and otherwise nothing. Before the authentication `Mail`, `Rcpt` and `Reset` do nothing
  -- that shows; every other call changes neither the sender nor the recipients.
  pub step-Follows :
      (encrypted : Bool) (call : Call) (c : Conn Tokens)
      → Clean s c.session
      → Follows s c.exchange c.world call c.session (step s encrypted call c).1.session
  unfolding step
  step-Follows e (auths mech) c h = auth-Follows e mech c h
  step-Follows e (plain_responds u p) c h = plain-Follows c.exchange u p c h
  step-Follows e (login_responds r) c h = login-Follows c.exchange r c h
  step-Follows e (mails from) c h = mail-Follows c.exchange c.world from c.session h
  step-Follows e (rcpts to) c h = rcpt-Follows c.exchange c.world to c.session h
  step-Follows e (reads r) c h =
      rests-Follows c.exchange c.world (reads r) c.session refl (attempt-reads c.exchange r) h
  step-Follows e resets c h = record {
    move =
        forget-Move c.exchange c.world c.session.authenticated c.session.credential
          c.session.recipients;
    clean = λ e. refl;
  }
