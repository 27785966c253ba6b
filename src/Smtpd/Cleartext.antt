-- ===== src/Smtpd/Cleartext.antt =====
-- A connection that is never encrypted.
use relais.Base.{◌≡◌, refl, Bool, false, List, [], ◌∷◌, Option, arith, any, ℕ}
use relais.Text.{Text}
use relais.RateLimit.{Limiter}
use relais.Store.Session.{World}
use relais.Mailnorm.Parse.{Reader}
use relais.Smtpd.{auth_mechanism, authentication_required}
use relais.Smtpd.Session.{
  Server, Conn, no_exchange, mail, rcpt, add_recipient, data_call, ReadFailure, new_conn,
}
use relais.Smtpd.Protocol.{
  Call, auths, plain_responds, login_responds, mails, rcpts, reads, resets, auth, respond, step,
  run,
}

-- A call of `Auth` on an encrypted connection.
abbrev pub starts_encrypted : Bool × Call → Bool
starts_encrypted (encrypted, auths mech) = encrypted
starts_encrypted _ = false

module _ {Tokens : Type 0} (s : Server Tokens) where
  -- Nobody is authenticated, no exchange has begun, there is no recipient, and the tables and the
  -- rate limiter are those of the beginning.
  pub record Untouched (c d : Conn Tokens) : Type 0 where
    pub anonymous : d.session.authenticated ≡ false
    pub no_recipients : d.session.recipients ≡ []
    pub outside : d.exchange ≡ no_exchange
    pub same_world : d.world ≡ c.world
    pub same_limiter : d.limiter ≡ c.limiter

  step-Untouched :
      (encrypted : Bool) (call : Call) (c d : Conn Tokens)
      → starts_encrypted (encrypted, call) ≡ false
      → Untouched c d
      → Untouched c (step s encrypted call d).1
  unfolding step auth auth_mechanism respond mail rcpt add_recipient data_call
  step-Untouched e (auths mech) c d h u = ground (arith, u)
  step-Untouched e (plain_responds x y) c d h u = ground (arith, u)
  step-Untouched e (login_responds x) c d h u = ground (arith, u)
  step-Untouched e (mails from) c d h u = ground (arith, u)
  step-Untouched e (rcpts to) c d h u = ground (arith, u)
  step-Untouched e (reads r) c d h u = ground (arith, u)
  step-Untouched e resets c d h u = record {
    anonymous = u.anonymous;
    no_recipients = refl;
    outside = u.outside;
    same_world = u.same_world;
    same_limiter = u.same_limiter;
  }

  run-Untouched :
      (calls : List (Bool × Call)) (c d : Conn Tokens)
      → any starts_encrypted calls ≡ false
      → Untouched c d
      → Untouched c (run s calls d)
  unfolding run
  run-Untouched [] c d h u = u
  run-Untouched ((e, call) ∷ calls) c d h u =
      run-Untouched calls c (step s e call d).1 (ground arith)
        (step-Untouched e call c d (ground arith) u)

  refused-Untouched :
      (c d : Conn Tokens) (r : Reader ReadFailure)
      → Untouched c d
      → (data_call s r d.session (d.limiter, d.world)).0 ≡ authentication_required
  unfolding data_call
  refused-Untouched c d r u = rw (u.anonymous, data_call) refl

-- On a connection on which `Auth` is never called while it is encrypted, whatever else is called,
-- in any order, no session is authenticated, no recipient is kept, the database and the rate
-- limiter stay as they were, and `Data` is answered with 530.
pub run-Anonymous :
    {Tokens : Type 0} (s : Server Tokens) (remote_ip : Option Text) (l : Limiter ℕ Tokens)
    (w : World) (calls : List (Bool × Call))
    → any starts_encrypted calls ≡ false
    → let c = new_conn remote_ip l w in
      let d = run s calls c in
      Untouched s c d
      × ((r : Reader ReadFailure)
          → (data_call s r d.session (d.limiter, d.world)).0 ≡ authentication_required)
run-Anonymous s remote_ip l w calls cleartext =
    let c = new_conn remote_ip l w in
    let d = run s calls c in
    let u : Untouched s c d = run-Untouched s calls c c cleartext (record {
      anonymous = refl;
      no_recipients = refl;
      outside = refl;
      same_world = refl;
      same_limiter = refl;
    }) in
    (u, λ r. refused-Untouched s c d r u)
