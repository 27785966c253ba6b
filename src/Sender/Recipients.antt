-- ===== src/Sender/Recipients.antt =====
-- What a delivery says of its recipients, and which failures it calls permanent.
use mathlib.Core.Path.{subst}
use relais.Base.{
  ℕ, ◌+◌, ◌≤◌, ◌<◌, ◌≡◌, ◌↔◌, ◌⊎◌, ◌&&◌, leb, ltb, Bool-cases, refl, sym, ap, ap₂, ◌∙◌, true, false,
  List, [], ◌∷◌, ◌++◌, none, some, arith, is_empty, any, ok, err, Option-cases, inl, inr, length,
}
use relais.Text.{Text}
use relais.Sender.{transient, permanent, SendError, Outgoing, RejectedRecipient, Delivery}
use relais.Sender.Exchange.{
  WireError, smtp, end_of_file, canceled, deadline_exceeded, tls_failure, net_timeout, plain,
  smtp_code_of, summarize, classify, Relay, offer, is_transient_refusal, send_data, deliver,
}

-- The recipients that the relay accepts, and what is said of the others, in their order.
unfoldable pub accepted_from : Relay → ℕ → List Text → List Text
accepted_from relay i [] = []
accepted_from relay i (to ∷ rest) =
    let later = accepted_from relay (i + 1) rest in
    elim (relay.rcpt i to) [ none ↦ to ∷ later | some _ ↦ later ]

unfoldable pub refused_from : Relay → ℕ → List Text → List RejectedRecipient
refused_from relay i [] = []
refused_from relay i (to ∷ rest) =
    let later = refused_from relay (i + 1) rest in
    elim (relay.rcpt i to) [
      | none ↦ later
      | some e ↦ record { address = to; smtp_code = smtp_code_of e; detail = summarize e } ∷ later
    ]

append_one : {A : Type 0} (xs ys : List A) (x : A) → (xs ++ x ∷ []) ++ ys ≡ xs ++ (x ∷ ys)
append_one [] ys x = refl
append_one (z ∷ xs) ys x = ap (λ t. z ∷ t) (append_one xs ys x)

append_none : {A : Type 0} (xs : List A) → xs ++ [] ≡ xs
append_none [] = refl
append_none (x ∷ xs) = ap (λ t. x ∷ t) (append_none xs)

offer-split :
    (relay : Relay) (i : ℕ) (taken : List Text) (refused : List RejectedRecipient) (rs : List Text)
    → offer relay i taken refused rs
      ≡ (taken ++ accepted_from relay i rs, refused ++ refused_from relay i rs)
unfolding offer accepted_from refused_from
offer-split relay i taken refused [] =
    ap₂ (λ a b. (a, b)) (sym (append_none taken)) (sym (append_none refused))
offer-split relay i taken refused (to ∷ rest) = elim (Option-cases (relay.rcpt i to)) [
  | inl accepts ↦
      rw (accepts, accepted_from, refused_from)
        (offer-split relay (i + 1) (taken ++ to ∷ []) refused rest
          ∙ ap (λ t. (t, refused ++ refused_from relay (i + 1) rest))
              (append_one taken (accepted_from relay (i + 1) rest) to))
  | inr (e, refuses) ↦
      rw (refuses, accepted_from, refused_from)
        (offer-split relay (i + 1) taken _ rest
          ∙ ap (λ t. (taken ++ accepted_from relay (i + 1) rest, t))
              (append_one refused (refused_from relay (i + 1) rest) _))
]

split-length :
    (relay : Relay) (i : ℕ) (rs : List Text)
    → length (accepted_from relay i rs) + length (refused_from relay i rs) ≡ length rs
unfolding accepted_from refused_from
split-length relay i [] = refl
split-length relay i (to ∷ rest) = elim (Option-cases (relay.rcpt i to)) [
  | inl accepts ↦
      rw (accepts, accepted_from, refused_from) (omega (arith, split-length relay (i + 1) rest))
  | inr (_, refuses) ↦
      rw (refuses, accepted_from, refused_from) (omega (arith, split-length relay (i + 1) rest))
]

send_data-fields :
    (relay : Relay) (accepted : List Text) (rejected : List RejectedRecipient) {d : Delivery}
    → send_data relay accepted rejected ≡ ok d
    → (d.accepted ≡ accepted) × (d.rejected ≡ rejected)
unfolding send_data
send_data-fields relay accepted rejected {d} h = ground arith

deliver-send_data :
    (relay : Relay) (msg : Outgoing) {d : Delivery}
    → deliver relay msg ≡ ok d
    → (is_empty (offer relay 0 [] [] msg.recipients).0 ≡ false)
      × (send_data relay
            (offer relay 0 [] [] msg.recipients).0
            (offer relay 0 [] [] msg.recipients).1
          ≡ ok d)
unfolding deliver
deliver-send_data relay msg {d} h = ground arith

-- What a delivery says of a message's recipients: each is accepted or refused, in their order.
pub record Tells (relay : Relay) (recipients : List Text) (d : Delivery) : Type 0 where
  pub accepts : d.accepted ≡ accepted_from relay 0 recipients
  pub refuses : d.rejected ≡ refused_from relay 0 recipients
  pub one_at_least : is_empty d.accepted ≡ false
  pub none_lost : length d.accepted + length d.rejected ≡ length recipients

-- A delivery that succeeds has at least one accepted recipient. Its accepted list and its rejected
-- list are the recipients that the relay accepted and those that it refused, each in the order of
-- the message, and none is lost.
pub deliver-Tells :
    (relay : Relay) (msg : Outgoing) (d : Delivery)
    → deliver relay msg ≡ ok d
    → Tells relay msg.recipients d
deliver-Tells relay msg d h =
    let rs = msg.recipients in
    let split = offer-split relay 0 [] [] rs in
    let (taken, sent) = deliver-send_data relay msg {d = d} h in
    let fields = send_data-fields relay _ _ {d = d} sent in
    let accepts : d.accepted ≡ accepted_from relay 0 rs = fields.0 ∙ ap (λ p. p.0) split in
    let refuses : d.rejected ≡ refused_from relay 0 rs = fields.1 ∙ ap (λ p. p.1) split in
    record {
      accepts = accepts;
      refuses = refuses;
      one_at_least = ap is_empty fields.0 ∙ taken;
      none_lost = rw (accepts, refuses) (split-length relay 0 rs);
    }

-- `classify` calls an error permanent exactly if it is a reply of the relay with a code of 500 or
-- more.
pub classify-permanent :
    (code what : Text) (e : WireError)
    → ((classify code what e).kind ≡ permanent) ↔ (500 ≤ smtp_code_of e)
unfolding classify smtp_code_of
classify-permanent code what e = ground arith

deliver-none_accepted :
    (relay : Relay) (msg : Outgoing)
    → relay.mail ≡ none
    → accepted_from relay 0 msg.recipients ≡ []
    → (e : SendError) × (deliver relay msg ≡ err e)
      × ((e.kind ≡ transient)
          ↔ (any is_transient_refusal (refused_from relay 0 msg.recipients) ≡ true))
unfolding deliver offer refused_from
deliver-none_accepted relay msg polite refused =
    let split = offer-split relay 0 [] [] msg.recipients in
    rw (polite, split, refused) (_, refl, ground arith)

-- A reply with a code from 400 to 499.
abbrev pub IsTemporary : WireError → Type 0
IsTemporary (smtp code _) = (400 ≤ code) × (code < 500)
IsTemporary _ = ⊥

-- The relay answers one of the recipients, the first of which is its `i`th, with such a reply.
abbrev pub DelayedBy : Relay → ℕ → List Text → Type 0
DelayedBy relay i [] = ⊥
DelayedBy relay i (to ∷ rest) =
    ((e : WireError) × (relay.rcpt i to ≡ some e) × IsTemporary e) ⊎ DelayedBy relay (i + 1) rest

-- The relay refuses whomever it is asked for.
abbrev pub RefusesAll : Relay → Type 0
RefusesAll relay = (i : ℕ) (to : Text) → (e : WireError) × (relay.rcpt i to ≡ some e)

reply_iff :
    (e : WireError)
    → ((leb 400 (smtp_code_of e) && ltb (smtp_code_of e) 500) ≡ true) ↔ IsTemporary e
unfolding smtp_code_of
reply_iff (smtp code text) = ground arith
reply_iff end_of_file = ground arith
reply_iff (canceled t) = ground arith
reply_iff (deadline_exceeded t) = ground arith
reply_iff (tls_failure t) = ground arith
reply_iff (net_timeout t) = ground arith
reply_iff (plain t) = ground arith

none_accepted :
    (relay : Relay) (i : ℕ) (rs : List Text) → RefusesAll relay → accepted_from relay i rs ≡ []
unfolding accepted_from
none_accepted relay i [] h = refl
none_accepted relay i (to ∷ rest) h =
    let (e, refuses) = h i to in rw (refuses, accepted_from) (none_accepted relay (i + 1) rest h)

delayed_iff :
    (relay : Relay) (i : ℕ) (rs : List Text)
    → RefusesAll relay
    → (any is_transient_refusal (refused_from relay i rs) ≡ true) ↔ DelayedBy relay i rs
unfolding refused_from
delayed_iff relay i [] h = ground arith
delayed_iff relay i (to ∷ rest) h =
    let (e, refuses) = h i to in
    let later = delayed_iff relay (i + 1) rest h in
    let here = reply_iff e in
    rw (refuses, refused_from)
      (
        (λ t. elim (Bool-cases (leb 400 (smtp_code_of e) && ltb (smtp_code_of e) 500)) [
          | inl fits ↦ inl (e, refl, here.0 fits)
          | inr other ↦ inr (later.0 (ground (arith, t, other)))
        ]),
        (λ d. elim d [
          | inl (f, same, temporary) ↦
              let fits = (reply_iff f).1 temporary in
              let it : e ≡ f = ground arith in
              ground (
                arith,
                subst (λ g. (leb 400 (smtp_code_of g) && ltb (smtp_code_of g) 500) ≡ true) (sym it)
                    fits,
              )
          | inr more ↦ ground (arith, later.1 more)
        ]),
      )

-- When the relay takes the sender and refuses every recipient, the delivery fails, and the failure
-- is transient exactly if the relay answers one of the message's recipients with a reply whose
-- code is from 400 to 499.
pub deliver-refused :
    (relay : Relay) (msg : Outgoing)
    → relay.mail ≡ none
    → RefusesAll relay
    → (e : SendError) × (deliver relay msg ≡ err e)
      × ((e.kind ≡ transient) ↔ DelayedBy relay 0 msg.recipients)
deliver-refused relay msg polite refuses =
    let (e, failed, kind) =
      deliver-none_accepted relay msg polite (none_accepted relay 0 msg.recipients refuses) in
    let delayed = delayed_iff relay 0 msg.recipients refuses in
    (e, failed, ((λ k. delayed.0 (kind.0 k)), (λ d. kind.1 (delayed.1 d))))

-- Every RCPT fails, and with an error that carries no reply code: a lost connection or a timeout.
abbrev pub LosesRcpt : Relay → Type 0
LosesRcpt relay =
    (i : ℕ) (to : Text) → (e : WireError) × (relay.rcpt i to ≡ some e) × (smtp_code_of e ≡ 0)

lost-split :
    (relay : Relay) (i : ℕ) (rs : List Text)
    → LosesRcpt relay
    → (accepted_from relay i rs ≡ []) × (any is_transient_refusal (refused_from relay i rs) ≡ false)
unfolding accepted_from refused_from
lost-split relay i [] lost = (refl, refl)
lost-split relay i (to ∷ rest) lost =
    let (e, refuses, codeless) = lost i to in
    let later = lost-split relay (i + 1) rest lost in
    rw (refuses, accepted_from, refused_from) (later.0, rw (codeless, later.1) refl)

-- When the relay takes the sender and every RCPT fails with an error that carries no reply code,
-- the failure is permanent.
pub deliver-lost :
    (relay : Relay) (msg : Outgoing)
    → relay.mail ≡ none
    → LosesRcpt relay
    → (e : SendError) × (deliver relay msg ≡ err e) × (e.kind ≡ permanent)
deliver-lost relay msg polite lost =
    let split = lost-split relay 0 msg.recipients lost in
    let (e, failed, kind) = deliver-none_accepted relay msg polite split.0 in
    (e, failed, ground (arith, split.1, kind))
