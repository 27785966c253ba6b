-- ===== src/Sender/Secrecy.antt =====
-- What crosses a connection when the sender delivers a message.
use relais.Base.{
  ◌≡◌, refl, ◌∙◌, Bool, true, false, ◌&&◌, none, arith, is_empty, all, any, all-append, ok, err,
  Result-cases, Bool-cases, inl, inr,
}
use relais.Store.Routes.{SenderRoute, uses_auth}
use relais.Sender.{Outgoing}
use relais.Sender.Handshake.{
  hello, auth, exchange, Sent, Peer, Config, Writes, then_write, silent, write, pick_auth_mechanism,
  authenticate, handshake, send, helo_name_of,
}

-- A password is written on an encrypted connection only, and only for a route that has one.
abbrev pub keeps_secret : SenderRoute → Sent → Bool
keeps_secret route s = elim s.command [
  | auth mechanism user password ↦ s.encrypted && uses_auth route
  | _ ↦ true
]

module _ (p : Sent → Bool) where
  all-then_write :
      {A B : Type 0} (m : Writes A) (f : A → Writes B)
      → all p m.0 ≡ true
      → ((a : A) → all p (f a).0 ≡ true)
      → all p (then_write m f).0 ≡ true
  unfolding then_write
  all-then_write (trace, ok a) f first next =
      all-append p trace (f a).0 ∙ ground (arith, first, next a)
  all-then_write (trace, err e) f first next = first

authenticate-secret :
    (peer : Peer) (route : SenderRoute)
    → all (keeps_secret route) (authenticate peer route).0 ≡ true
unfolding authenticate then_write
authenticate-secret peer route = elim (Result-cases (pick_auth_mechanism peer route)) [
  | inl (m, picked) ↦ ground arith
  | inr (e, none_fits) ↦ ground arith
]

handshake-secret :
    (cfg : Config) (peer : Peer) (route : SenderRoute)
    → all (keeps_secret route) (handshake cfg peer route).0 ≡ true
unfolding handshake
handshake-secret cfg peer route = all-then_write (keeps_secret route) (silent _) _ refl λ _.
    all-then_write (keeps_secret route)
      (write peer.relay.encrypted (hello (helo_name_of cfg route)) _) _ refl
      λ _. authenticate-secret peer route

-- Whatever the peer answers, a delivery writes a password on an encrypted connection only, and
-- only for a route that has a user and a password.
pub send-secret :
    (cfg : Config) (peer : Peer) (route : SenderRoute) (msg : Outgoing)
    → all (keeps_secret route) (send cfg peer route msg).0 ≡ true
unfolding send
send-secret cfg peer route msg = elim (Bool-cases (is_empty msg.recipients)) [
  | inl nobody ↦ rw nobody refl
  | inr addressed ↦ rw addressed (elim (Bool-cases (is_empty msg.raw)) [
    | inl no_body ↦ rw no_body refl
    | inr body ↦ rw body (
        all-then_write (keeps_secret route) _ _ refl λ _.
          all-then_write (keeps_secret route) _ _ refl λ _.
            all-then_write (keeps_secret route) _ _ (handshake-secret cfg peer route) λ _. refl)
  ])
]

abbrev pub is_exchange : Sent → Bool
is_exchange s = elim s.command [ exchange _ ↦ true | _ ↦ false ]

-- For a route with a user and a password, a delivery begins the exchange of the message only if
-- the connection is encrypted and the peer has accepted the authentication.
pub send-authenticated :
    (cfg : Config) (peer : Peer) (route : SenderRoute) (msg : Outgoing)
    → uses_auth route ≡ true
    → any is_exchange (send cfg peer route msg).0 ≡ true
    → (peer.relay.encrypted ≡ true) × (peer.authenticated ≡ none)
unfolding send handshake authenticate then_write
send-authenticated cfg peer route msg has_password sent = ground arith
