-- ===== src/Ingest/Envelope.antt =====
-- The envelope list that `validateRecipients` gives back.
use relais.Base.{
  ◌≤◌, ◌≡◌, sym, true, false, List, [], ◌∷◌, arith, All, All-append, is_empty, length, Bool-cases,
  Result-cases, inl, inr, ok, ok_inj, ltb,
}
use relais.Text.{Text}
use relais.FromPattern.Parse.{Address, address_string, parse_address}
use relais.FromPattern.Matching.{Patterns}
use relais.Base.Distinct.{listed, Distinct, added, added-kept, added-listed, added-Distinct}
use relais.Ingest.{check_recipient, check_recipients, validate_recipients}
use relais.Ingest.Submission.{Service, Request, rules_allow}

module _ {Float Tokens : Type 0} (s : Service Float Tokens) (rules : Patterns) where
  -- The text of an address that the credential may mail.
  pub record Permitted (t : Text) : Type 0 where
    pub address : Address
    pub raw : Text
    pub parsed : parse_address s.keys.idna raw ≡ ok address
    pub allowed : rules_allow rules address ≡ true
    pub written : t ≡ address_string address

  check_recipient-Permitted :
      (raw : Text) {t : Text} → check_recipient s rules raw ≡ ok t → Permitted t
  unfolding check_recipient
  check_recipient-Permitted raw {t} h = elim (Result-cases (parse_address s.keys.idna raw)) [
    | inr (_, unparsed) ↦ ground arith
    | inl (a, parsed) ↦
        let allowed : rules_allow rules a ≡ true = ground arith in
        record {
          address = a;
          raw = raw;
          parsed = parsed;
          allowed = allowed;
          written = ground arith;
        }
  ]

  added-Permitted :
      (t : Text) (out : List Text) → Permitted t → All Permitted out → All Permitted (added t out)
  added-Permitted t out p ps = elim (Bool-cases (listed t out)) [
    | inl old ↦ rw old ps
    | inr new ↦ rw new (All-append Permitted out (t ∷ []) ps (p, tt))
  ]

  -- The recipient is in the list, under the text of its address.
  abbrev Delivered : List Text → Text → Type 0
  Delivered out raw = (t : Text) × (check_recipient s rules raw ≡ ok t) × (listed t out ≡ true)

  -- What the list says of the recipients that were asked for.
  pub record Envelope (requested out : List Text) : Type 0 where
    pub permitted : All Permitted out
    pub distinct : Distinct out
    pub complete : All (Delivered out) requested

  check_recipients-step :
      (acc : List Text) (raw : Text) (rest : List Text) {out : List Text}
      → check_recipients s rules acc (raw ∷ rest) ≡ ok out
      → (t : Text) × (check_recipient s rules raw ≡ ok t)
        × (check_recipients s rules (added t acc) rest ≡ ok out)
  unfolding check_recipients
  check_recipients-step acc raw rest {out} h = elim (Result-cases (check_recipient s rules raw)) [
    | inl (t, checked) ↦ (t, checked, ground arith)
    | inr (_, bad) ↦ ground arith
  ]

  check_recipients-kept :
      (acc requested : List Text) {out : List Text} (t : Text)
      → check_recipients s rules acc requested ≡ ok out
      → listed t acc ≡ true
      → listed t out ≡ true
  unfolding check_recipients
  check_recipients-kept acc [] t h there = ground arith
  check_recipients-kept acc (raw ∷ rest) {out} t h there =
      let (u, _, later) = check_recipients-step acc raw rest {out = out} h in
      check_recipients-kept (added u acc) rest {out = out} t later (added-kept u t acc there)

  check_recipients-Envelope :
      (acc requested : List Text) {out : List Text}
      → All Permitted acc
      → Distinct acc
      → check_recipients s rules acc requested ≡ ok out
      → Envelope requested out
  unfolding check_recipients
  check_recipients-Envelope acc [] {out} ps d h =
      let same : acc ≡ out = ok_inj h in
      record { permitted = rw (sym same) ps; distinct = rw (sym same) d; complete = tt }
  check_recipients-Envelope acc (raw ∷ rest) {out} ps d h =
      let (t, checked, later) = check_recipients-step acc raw rest {out = out} h in
      let e =
        check_recipients-Envelope (added t acc) rest {out = out}
          (added-Permitted t acc (check_recipient-Permitted raw {t = t} checked) ps)
          (added-Distinct t acc d) later in
      let kept =
        check_recipients-kept (added t acc) rest {out = out} t later (added-listed t acc) in
      record {
        permitted = e.permitted;
        distinct = e.distinct;
        complete = ((t, checked, kept), e.complete);
      }

-- When `validate_recipients` accepts, there was a recipient and no more than the limit, every
-- recipient that was asked for parses and stands in the list under the canonical text of its
-- address, every text of the list is that of an address that the credential's rules allow, and no
-- text stands in the list twice.
pub validate_recipients-Envelope :
    {Float Tokens : Type 0} (s : Service Float Tokens) (req : Request Float) (out : List Text)
    → validate_recipients s req ≡ ok out
    → Envelope s req.credential.recipients req.envelope_recipients out
      × (is_empty req.envelope_recipients ≡ false)
      × (length req.envelope_recipients ≤ s.max_recipients)
unfolding validate_recipients
validate_recipients-Envelope s req out h =
    let some_asked : is_empty req.envelope_recipients ≡ false = ground arith in
    let few : ltb s.max_recipients (length req.envelope_recipients) ≡ false = ground arith in
    let checked : check_recipients s req.credential.recipients [] req.envelope_recipients ≡ ok out =
      ground arith in
    (
      check_recipients-Envelope s req.credential.recipients [] req.envelope_recipients {out = out}
          tt tt checked,
      some_asked,
      ground (arith, few),
    )
