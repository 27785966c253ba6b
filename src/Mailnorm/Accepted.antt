-- ===== src/Mailnorm/Accepted.antt =====
-- What is known of a message that `Parse` has accepted.
use mathlib.Core.Path.{subst}
use relais.Base.{
  ◌≡◌, refl, sym, ◌∙◌, ap, inl, inr, false, List, [], ◌∷◌, ◌++◌, arith, is_empty, Bool-cases,
  Result-cases, length, ok, bind-eq-ok, refuse_if, refuse_if-ok, ok_inj,
}
use relais.Text.{Text, codes, trim_space}
use relais.Crypto.Keyring.{Bytes}
use relais.FromPattern.Normalize.{Idna}
use relais.FromPattern.Parse.{Address, parse_address}
use relais.Mailnorm.{Mail, Headers, Options, is_blank, split_message, normalize_crlf}
use relais.Mailnorm.Parse.{
  from_addresses, from_value, from_fields, read_from, assemble, over, strip_bcc, with_message_id,
  outgoing, finish, read_header, parse_message,
}

module _ (u : Idna) {H : Type 0} (h : Headers H) where
  -- The header field that names the sender: one field, with one address.
  pub record OneSender (header : H) (from : Address) (from_header : Text) : Type 0 where
    pub field : Text
    pub only_field : h.values header (codes "From") ≡ field ∷ []
    pub trimmed : from_header ≡ trim_space field
    pub nonempty : is_empty from_header ≡ false
    pub address : Text
    pub only_address : h.address_list from_header ≡ ok (address ∷ [])
    pub parsed : parse_address u address ≡ ok from

  from_addresses-ok :
      (value : Text) (l : List Text) (a : Address) (f : Text)
      → from_addresses u h value l ≡ ok (a, f)
      → (address : Text) × (l ≡ address ∷ []) × (parse_address u address ≡ ok a) × (f ≡ value)
  unfolding from_addresses
  from_addresses-ok value [] a f e = cc
  from_addresses-ok value (x ∷ y ∷ l) a f e = cc
  from_addresses-ok value (x ∷ []) a f e = elim (Result-cases (parse_address u x)) [
    | inl (addr, p) ↦ (x, refl, ground arith, ground arith)
    | inr (_, p) ↦ ground arith
  ]

  from_fields-ok :
      (header : H) (a : Address) (f : Text)
      → read_from u h header ≡ ok (a, f)
      → OneSender header a f
  unfolding from_fields from_value
  from_fields-ok header a f e = go (h.values header (codes "From")) refl e
    where
      go :
          (l : List Text)
          → h.values header (codes "From") ≡ l
          → from_fields u h l ≡ ok (a, f)
          → OneSender header a f
      go [] l e = cc
      go (v ∷ w ∷ more) l e = cc
      go (v ∷ []) l e = elim (Bool-cases (is_empty (trim_space v))) [
        | inl blank ↦ ground arith
        | inr nonempty ↦ elim (Result-cases (h.address_list (trim_space v))) [
          | inr (_, bad) ↦ ground arith
          | inl (parsed, listed) ↦
              let (address, only, from, same) =
                from_addresses-ok (trim_space v) parsed a f (ground arith) in
              record {
                field = v;
                only_field = l;
                trimmed = same;
                nonempty = ap is_empty same ∙ nonempty;
                address = address;
                only_address = ap h.address_list same ∙ (listed ∙ ap ok only);
                parsed = from;
              }
        ]
      ]

  assemble-ok :
      (header : H) (body raw : Bytes)
      → assemble u h header body ≡ ok raw
      → (block : Bytes) × (h.write header ≡ ok block) × (raw ≡ block ++ normalize_crlf body)
  unfolding assemble
  assemble-ok header body raw e = elim (Result-cases (h.write header)) [
    | inl (block, written) ↦ (block, written, ground arith)
    | inr (_, bad) ↦ ground arith
  ]

  read_header-ok :
      (block : Bytes) (header : H) → read_header u h block ≡ ok header → h.read block ≡ ok header
  unfolding read_header
  read_header-ok block header e = elim (Result-cases (h.read block)) [
    | inl (found, read) ↦ ground arith
    | inr (_, bad) ↦ ground arith
  ]

  -- The message that is relayed: the header as rewritten, and the body with its line ends.
  pub record Relayed (o : Options) (body : Bytes) (header : H) (mail : Mail) : Type 0 where
    pub block : Bytes
    pub written : h.write (outgoing u h o mail.from.domain header) ≡ ok block
    pub whole : mail.raw ≡ block ++ normalize_crlf body
    pub measured : mail.size ≡ length mail.raw
    pub within_limit : over o.max_bytes mail.size ≡ false
    pub named : mail.message_id ≡ (with_message_id u h o mail.from.domain (strip_bcc u h header)).0

  finish-ok :
      (o : Options) (body : Bytes) (header : H) (a : Address) (f : Text) (mail : Mail)
      → finish u h o body header (a, f) ≡ ok mail
      → (mail.from ≡ a) × (mail.from_header ≡ f) × Relayed o body header mail
  unfolding finish
  finish-ok o body header a f mail e =
      let (raw, assembled, e1) =
        bind-eq-ok (assemble u h (outgoing u h o a.domain header) body) _ e in
      let (t, fits, e2) = bind-eq-ok (refuse_if (over o.max_bytes (length raw)) _) _ e1 in
      let (block, written, whole) = assemble-ok _ body raw assembled in
      subst (λ m. (m.from ≡ a) × (m.from_header ≡ f) × Relayed o body header m) (ok_inj e2)
        (
          refl,
          refl,
          record {
            block = block;
            written = written;
            whole = whole;
            measured = refl;
            within_limit = refuse_if-ok (over o.max_bytes (length raw)) _ fits;
            named = refl;
          },
        )

  pub record Accepted (raw : Bytes) (o : Options) (mail : Mail) : Type 0 where
    pub header : H
    pub nonblank : is_blank raw ≡ false
    pub read : h.read (split_message raw).0 ≡ ok header
    pub block_limit : over o.max_header_bytes (length (split_message raw).0) ≡ false
    pub field_limit : over o.max_header_count (h.count header) ≡ false
    pub sender : OneSender header mail.from mail.from_header
    pub relayed : Relayed o (split_message raw).1 header mail

  -- A message that `Parse` accepts has passed its tests, and is relayed as the header and the body.
  pub parse_message-Accepted :
      (raw : Bytes) (o : Options) (mail : Mail)
      → parse_message u h raw o ≡ ok mail
      → Accepted raw o mail
  unfolding parse_message
  parse_message-Accepted raw o mail e =
      let (t0, filled, e0) = bind-eq-ok (refuse_if (is_blank raw) _) _ e in
      let (t1, short, e1) = bind-eq-ok (refuse_if (over o.max_bytes (length raw)) _) _ e0 in
      let (block, body) = split_message raw in
      let (t2, fits, e2) = bind-eq-ok (refuse_if (over o.max_header_bytes (length block)) _) _ e1 in
      let (header, read, e3) = bind-eq-ok (read_header u h block) _ e2 in
      let (t4, few, e4) =
        bind-eq-ok (refuse_if (over o.max_header_count (h.count header)) _) _ e3 in
      let ((a, f), sender, e5) = bind-eq-ok (read_from u h header) _ e4 in
      let (from, from_header, relayed) = finish-ok o body header a f mail e5 in
      record {
        header = header;
        nonblank = refuse_if-ok (is_blank raw) _ filled;
        read = read_header-ok block header read;
        block_limit = refuse_if-ok (over o.max_header_bytes (length block)) _ fits;
        field_limit = refuse_if-ok (over o.max_header_count (h.count header)) _ few;
        sender =
            subst (λ g. OneSender header mail.from g) (sym from_header)
              (subst (λ b. OneSender header b f) (sym from) (from_fields-ok header a f sender));
        relayed = relayed;
      }
