-- ===== src/Smtpd/Traces.antt =====
-- A session after any calls.
use mathlib.Core.Path.{subst}
use relais.Base.{
  ℕ, ◌≤◌, ◌≡◌, refl, inl, inr, Bool, true, List, [], ◌∷◌, Option, arith, length, length-append, All,
  All-append, ok, Option-cases,
}
use relais.Text.{Text}
use relais.Crypto.Secret.{normalize_smtp_username}
use relais.RateLimit.{Limiter}
use relais.Store.Vault.{smtp_user_type}
use relais.Store.Session.{World}
use relais.Store.Credentials.{AuthCredential}
use relais.Store.Credentials.Operations.{load_credential_by_lookup}
use relais.Authn.{smtp_user, verify_lookup}
use relais.Authn.Checks.{Passes, verify_iff}
use relais.FromPattern.Parse.{Address, address_string, parse_address}
use relais.Smtpd.Session.{Exchange, Server, Conn, new_conn}
use relais.Smtpd.Protocol.{Call, step, run}
use relais.Smtpd.Phases.{step-Follows}
use relais.Smtpd.Moves.{
  Phase, anonymous, ready, phase, phase_of, Move, no_attempt, denied, identifies, identifies_anew,
  ignored, begins, forgets, adds, misspelt, is_full, Clean,
}

module _ {Tokens : Type 0} (s : Server Tokens) where
  -- The authenticator has once answered with this credential.
  pub record IsUser (who : AuthCredential) : Type 0 where
    pub username : Text
    pub password : Text
    pub world : World
    pub vouched : (smtp_user s.secrets username password world).0 ≡ ok who

  -- The text of an address that parses.
  pub record IsAddress (r : Text) : Type 0 where
    pub given : Text
    pub address : Address
    pub parsed : parse_address s.service.keys.idna given ≡ ok address
    pub text : address_string address ≡ r

  -- Nobody, or a credential that has passed the checks for an SMTP user with its password, and
  -- recipients within the limit, each the text of an address.
  pub record Sends (who : AuthCredential) (rs : List Text) : Type 0 where
    pub user : IsUser who
    pub password : Text
    pub checked : Passes s.secrets.digests s.secrets.hasher password smtp_user_type who
    pub within_limit : length rs ≤ s.limits.max_recipients
    pub addresses : All IsAddress rs

  abbrev pub Sound : Phase → Type 0
  Sound anonymous = Unit {0}
  Sound (ready who rs) = Sends who rs

  vouched-Passes :
      (username password : Text) (w : World) (who : AuthCredential)
      → (smtp_user s.secrets username password w).0 ≡ ok who
      → Passes s.secrets.digests s.secrets.hasher password smtp_user_type who
  unfolding smtp_user verify_lookup
  vouched-Passes username password w who h =
      elim (Option-cases (normalize_smtp_username s.secrets.digests username)) [
        | inl bad ↦ ground arith
        | inr (lookup, read) ↦
            ((verify_iff s.secrets.digests s.secrets.hasher password smtp_user_type
                (load_credential_by_lookup s.secrets lookup w).0 who).0
              (ground arith)).1
      ]

  identify-Sends :
      (username password : Text) (w : World) (who : AuthCredential) (rs : List Text)
      → (smtp_user s.secrets username password w).0 ≡ ok who
      → length rs ≤ s.limits.max_recipients
      → All IsAddress rs
      → Sends who rs
  identify-Sends username password w who rs vouched room addresses = record {
    user = record { username = username; password = password; world = w; vouched = vouched };
    password = password;
    checked = vouched-Passes username password w who vouched;
    within_limit = room;
    addresses = addresses;
  }

  no_recipients-Sends : (who : AuthCredential) (rs : List Text) → Sends who rs → Sends who []
  no_recipients-Sends who rs h = record {
    user = h.user;
    password = h.password;
    checked = h.checked;
    within_limit = omega arith;
    addresses = tt;
  }

  Move-Sound :
      (x : Exchange) (w : World) (call : Call) (p q : Phase)
      → Move s x w call p q
      → Sound p
      → Sound q
  Move-Sound x w call p q (no_attempt _ _ _) h = h
  Move-Sound x w call p q (denied _ _ _ _ _ _) h = h
  Move-Sound x w call p q (identifies _ username password who _ vouched) h =
      identify-Sends username password w who [] vouched (omega arith) tt
  Move-Sound x w call p q (identifies_anew {rs = rs} _ username password who _ vouched) h =
      identify-Sends username password w who rs vouched h.within_limit h.addresses
  Move-Sound x w call p q (ignored _ _) h = h
  Move-Sound x w call p q (begins {who = who} {rs = rs} from) h = no_recipients-Sends who rs h
  Move-Sound x w call p q (forgets {who = who} {rs = rs}) h = no_recipients-Sends who rs h
  Move-Sound x w call p q (misspelt _ _ _) h = h
  Move-Sound x w call p q (is_full _ _) h = h
  Move-Sound x w call p q (adds {rs = rs} to address parsed room) h = record {
    user = h.user;
    password = h.password;
    checked = h.checked;
    within_limit = omega (arith, length-append rs (address_string address ∷ []));
    addresses =
        All-append IsAddress rs (address_string address ∷ []) h.addresses
          (record { given = to; address = address; parsed = parsed; text = refl }, tt);
  }

  run-Sound :
      (calls : List (Bool × Call)) (c : Conn Tokens)
      → Clean s c.session
      → Sound (phase c.session)
      → Sound (phase (run s calls c).session)
  unfolding run
  run-Sound [] c clean h = h
  run-Sound ((e, call) ∷ calls) c clean h =
      let follows = step-Follows s e call c clean in
      run-Sound calls (step s e call c).1 follows.clean (
        Move-Sound c.exchange c.world call (phase c.session) (phase (step s e call c).1.session)
          follows.move h)

-- After any calls on a new session, if it is authenticated then its credential was verified as an
-- SMTP user with some password, in some state of the database: it holds the HMAC of the password,
-- and it was enabled and not revoked when it was loaded; and its recipients are within the limit
-- and are each the text of an address that parses.
pub run-Sends :
    {Tokens : Type 0} (s : Server Tokens) (remote_ip : Option Text) (l : Limiter ℕ Tokens)
    (w : World) (calls : List (Bool × Call))
    → let d = (run s calls (new_conn remote_ip l w)).session in
      d.authenticated ≡ true → Sends s d.credential d.recipients
run-Sends s remote_ip l w calls known =
    let d = (run s calls (new_conn remote_ip l w)).session in
    let sound : Sound s (phase d) = run-Sound s calls (new_conn remote_ip l w) (λ e. refl) tt in
    subst (λ b. Sound s (phase_of b d.credential d.recipients)) known sound
