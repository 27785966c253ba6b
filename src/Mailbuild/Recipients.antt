-- ===== src/Mailbuild/Recipients.antt =====
-- What is known of a message that `Build` has built.
use mathlib.Core.Path.{subst}
use relais.Base.{
  ℕ, suc, ◌≡◌, sym, ◌∙◌, ap, inl, inr, true, false, not, ◌&&◌, List, [], ◌∷◌, ◌++◌, none, arith,
  any, is_empty, length, All, refl, Bool-cases, Option-cases, Result-cases, ok, bind-eq-ok, ok_inj,
  refuse_if, refuse_if-ok,
}
use relais.Base.Distinct.{listed, Distinct}
use relais.Text.{Text, codes, trim_space, to_lower}
use relais.FromPattern.Parse.{Address, address_string, parse_address}
use relais.Mailbuild.{
  Input, Named, Parsers, reserved_headers, reserved_for, bad_name_rune, breaks_line, parse_item,
  parse_items, parse_sender, validate_header, validate_headers, validate_attachments, dedupe_onto,
  dedupe, address_strings,
}
use relais.Mailbuild.Envelope.{
  dedupe_onto-All, dedupe_onto-Distinct, dedupe-listed, listed-left, listed-right, listed_self,
  All-map,
}
use relais.Mailbuild.Build.{
  BuildOptions, Built, Writer, has_text, over_limit, check_envelope, header_of, write_message,
  build,
}

module _ (p : Parsers) where
  -- The text of an address that parses.
  pub record Usable (t : Text) : Type 0 where
    pub given : Text
    pub address : Address
    pub parsed : parse_address p.idna given ≡ ok address
    pub written : t ≡ address_string address

  -- The text is that of the address which the text of a field parses to.
  pub record Names (value t : Text) : Type 0 where
    pub name : Text
    pub given : Text
    pub address : Address
    pub split : p.parse_one (trim_space value) ≡ ok (name, given)
    pub parsed : parse_address p.idna given ≡ ok address
    pub written : t ≡ address_string address

  -- Each text of a field in turn.
  abbrev pub AddressesOf : List Text → List Text → Type 0
  AddressesOf [] [] = Unit {0}
  AddressesOf (v ∷ vs) (t ∷ ts) = Names v t × AddressesOf vs ts
  AddressesOf _ _ = ⊥

  -- What a header that a client sets may be.
  pub record Clean (h : Text × Text) : Type 0 where
    pub named : is_empty (trim_space h.0) ≡ false
    pub free : reserved_for (to_lower p.fold (trim_space h.0)) reserved_headers ≡ none
    pub printable : any bad_name_rune (trim_space h.0) ≡ false
    pub one_line : breaks_line h.1 ≡ false

  parse_item-Names :
      (field : Text) (i : ℕ) (value : Text) (n : Named)
      → parse_item p field i value ≡ ok n
      → Names value n.1
  unfolding parse_item
  parse_item-Names field i value n h = elim (Bool-cases (is_empty (trim_space value))) [
    | inl blank ↦ ground arith
    | inr filled ↦ elim (Result-cases (p.parse_one (trim_space value))) [
      | inr (e, bad) ↦ ground arith
      | inl ((name, address), split) ↦ elim (Result-cases (parse_address p.idna address)) [
        | inr (e, bad) ↦ ground arith
        | inl (a, parsed) ↦
            let it : (name, address_string a) ≡ n = ground arith in
            record {
              name = name;
              given = address;
              address = a;
              split = split;
              parsed = parsed;
              written = sym (ap (λ m. m.1) it);
            }
      ]
    ]
  ]

  parse_items-AddressesOf :
      (field : Text) (i : ℕ) (values : List Text) (ns : List Named)
      → parse_items p field i values ≡ ok ns
      → AddressesOf values (address_strings ns)
  unfolding parse_items
  parse_items-AddressesOf field i [] ns h =
      subst (λ l. AddressesOf [] (address_strings l)) (ok_inj h) tt
  parse_items-AddressesOf field i (v ∷ values) ns h =
      let (n, one, h') = bind-eq-ok (parse_item p field i v) _ h in
      let (more, rest, h'') = bind-eq-ok (parse_items p field (suc i) values) _ h' in
      subst (λ l. AddressesOf (v ∷ values) (address_strings l)) (ok_inj h'')
        (parse_item-Names field i v n one, parse_items-AddressesOf field (suc i) values more rest)

  AddressesOf-Usable : (vs ts : List Text) → AddressesOf vs ts → All Usable ts
  AddressesOf-Usable [] [] h = tt
  AddressesOf-Usable [] (t ∷ ts) h = absurd h
  AddressesOf-Usable (v ∷ vs) [] h = absurd h
  AddressesOf-Usable (v ∷ vs) (t ∷ ts) h = (
    record { given = h.0.given; address = h.0.address; parsed = h.0.parsed; written = h.0.written },
    AddressesOf-Usable vs ts h.1,
  )

  validate_header-Clean :
      (key value : Text) {t : Unit {0}} → validate_header p key value ≡ ok t → Clean (key, value)
  unfolding validate_header
  validate_header-Clean key value h =
      elim (Option-cases (reserved_for (to_lower p.fold (trim_space key)) reserved_headers)) [
        | inr (reason, taken) ↦ ground arith
        | inl free ↦ record {
          named = ground arith;
          free = free;
          printable = ground arith;
          one_line = ground arith;
        }
      ]

  validate_headers-Clean :
      (hs : List (Text × Text)) {t : Unit {0}} → validate_headers p hs ≡ ok t → All Clean hs
  unfolding validate_headers
  validate_headers-Clean [] h = tt
  validate_headers-Clean ((key, value) ∷ hs) h =
      let (t, one, rest) = bind-eq-ok (validate_header p key value) _ h in
      (validate_header-Clean key value one, validate_headers-Clean hs rest)

  parse_sender-Names :
      (value : Text) (n : Named) (a : Address)
      → parse_sender p value ≡ ok (n, a)
      → Names value (address_string a)
  unfolding parse_sender
  parse_sender-Names value n a h = elim (Bool-cases (is_empty (trim_space value))) [
    | inl blank ↦ ground arith
    | inr filled ↦ elim (Result-cases (p.parse_one (trim_space value))) [
      | inr (e, bad) ↦ ground arith
      | inl ((name, address), split) ↦ elim (Result-cases (parse_address p.idna address)) [
        | inr (e, bad) ↦ ground arith
        | inl (b, parsed) ↦
            let it : b ≡ a = ground arith in
            record {
              name = name;
              given = address;
              address = a;
              split = split;
              parsed = parsed ∙ ap ok it;
              written = refl;
            }
      ]
    ]
  ]

  check_envelope-ok :
      {H : Type 0} (v : Writer H) (o : BuildOptions) (l : List Text) {t : Unit {0}}
      → check_envelope p v o l ≡ ok t
      → (is_empty l ≡ false) × (over_limit o.max_recipients (length l) ≡ false)
  unfolding check_envelope
  check_envelope-ok v o l h = ground arith

  -- A built message against the fields that were given.
  pub record WellBuilt {H : Type 0} (v : Writer H) (x : Input) (o : BuildOptions) (r : Built)
      : Type 0 where
    pub sender : Names x.from (address_string r.from)
    pub to : AddressesOf x.to r.to
    pub cc : AddressesOf x.cc r.cc
    pub bcc : AddressesOf x.bcc r.bcc
    pub complete : All (λ u. listed u r.envelope ≡ true) (r.to ++ (r.cc ++ r.bcc))
    pub only : All (λ u. listed u (r.to ++ (r.cc ++ r.bcc)) ≡ true) r.envelope
    pub usable : All Usable r.envelope
    pub distinct : Distinct r.envelope
    pub nonempty : is_empty r.envelope ≡ false
    pub within_limit : over_limit o.max_recipients (length r.envelope) ≡ false
    pub clean : All Clean x.headers
    pub has_body : (not (has_text x.text) && not (has_text x.html)) ≡ false
    pub fits : over_limit o.max_bytes (length r.raw) ≡ false

  -- When `Build` accepts some fields, the sender, and the addresses of To, Cc and Bcc one by one,
  -- are the canonical texts of what the texts of these fields parse to; the envelope holds every
  -- address of the three and no other, has no duplicates, is not empty and is within the limit, if
  -- there is one; there is a body; the client's headers have trimmed names that are not empty, not
  -- reserved and of allowed characters, and values without a line break; and the message is within
  -- its limit, if there is one.
  pub build-WellBuilt :
      {H : Type 0} (v : Writer H) (x : Input) (o : BuildOptions) (r : Built)
      → build p v x o ≡ ok r
      → WellBuilt v x o r
  unfolding build
  build-WellBuilt v x o r h =
      let ((n, a), from, h1) = bind-eq-ok (parse_sender p x.from) _ h in
      let (to, read_to, h2) = bind-eq-ok (parse_items p (codes "to") 0 x.to) _ h1 in
      let (cc_, read_cc, h3) = bind-eq-ok (parse_items p (codes "cc") 0 x.cc) _ h2 in
      let (bcc, read_bcc, h4) = bind-eq-ok (parse_items p (codes "bcc") 0 x.bcc) _ h3 in
      let (reply_to, read_reply, h5) =
        bind-eq-ok (parse_items p (codes "reply_to") 0 x.reply_to) _ h4 in
      let tos = address_strings to in
      let ccs = address_strings cc_ in
      let bccs = address_strings bcc in
      let envelope = dedupe tos ccs bccs in
      let (t6, checked, h6) = bind-eq-ok (check_envelope p v o envelope) _ h5 in
      let (t7, body, h7) =
        bind-eq-ok (refuse_if (not (has_text x.text) && not (has_text x.html)) _) _ h6 in
      let (t8, headers, h8) = bind-eq-ok (validate_headers p x.headers) _ h7 in
      let (t9, attachments, h9) = bind-eq-ok (validate_attachments 0 x.attachments) _ h8 in
      let (raw, written, h10) =
        bind-eq-ok (write_message p v (header_of p v n to cc_ reply_to x) x) _ h9 in
      let (t11, fits, h11) = bind-eq-ok (refuse_if (over_limit o.max_bytes (length raw)) _) _ h10 in
      let all_to = parse_items-AddressesOf (codes "to") 0 x.to to read_to in
      let all_cc = parse_items-AddressesOf (codes "cc") 0 x.cc cc_ read_cc in
      let all_bcc = parse_items-AddressesOf (codes "bcc") 0 x.bcc bcc read_bcc in
      let one = dedupe_onto [] tos in
      let two = dedupe_onto one ccs in
      let collected = λ (P : Text → Type 0) (a : All P tos) (b : All P ccs) (c : All P bccs).
        dedupe_onto-All P two bccs (dedupe_onto-All P one ccs (dedupe_onto-All P [] tos tt a) b)
          c in
      let everyone = tos ++ (ccs ++ bccs) in
      let limits = check_envelope-ok v o envelope checked in
      subst (WellBuilt v x o) (ok_inj h11) (record {
        sender = parse_sender-Names x.from n a from;
        to = all_to;
        cc = all_cc;
        bcc = all_bcc;
        complete = dedupe-listed tos ccs bccs;
        only =
            collected (λ u. listed u everyone ≡ true)
              (All-map tos (λ u h. listed-left u tos (ccs ++ bccs) h) (listed_self tos))
              (All-map ccs (λ u h. listed-right u tos (ccs ++ bccs) (listed-left u ccs bccs h))
                (listed_self ccs))
              (All-map bccs (λ u h. listed-right u tos (ccs ++ bccs) (listed-right u ccs bccs h))
                (listed_self bccs));
        usable =
            collected Usable (AddressesOf-Usable x.to tos all_to)
              (AddressesOf-Usable x.cc ccs all_cc) (AddressesOf-Usable x.bcc bccs all_bcc);
        distinct =
            dedupe_onto-Distinct two bccs
              (dedupe_onto-Distinct one ccs (dedupe_onto-Distinct [] tos tt));
        nonempty = limits.0;
        within_limit = limits.1;
        clean = validate_headers-Clean x.headers headers;
        has_body = refuse_if-ok (not (has_text x.text) && not (has_text x.html)) _ body;
        fits = refuse_if-ok (over_limit o.max_bytes (length raw)) _ fits;
      })
