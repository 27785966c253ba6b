-- ===== src/Mailnorm/Parse.antt =====
-- internal/mailnorm/mailnorm.go: `Parse` and what it calls, and `ReadAll`.
use relais.Base.{
  ℕ, zero, suc, Bool, ◌&&◌, List, [], ◌∷◌, ◌++◌, Option, none, some, ltb, if◌then◌else◌, is_empty,
  length, take, Result, ok, err, ◌>>=◌, refuse_if, ◌>>◌,
}
use relais.Text.{Text, codes, trim_space}
use relais.Crypto.Keyring.{Bytes}
use relais.FromPattern.Normalize.{Idna}
use relais.FromPattern.Parse.{Address, address_string, parse_address}
use relais.Sender.{decimal}
use relais.Mailnorm.{
  Mail, Headers, Options, Problem, code_too_large, is_blank, split_message, normalize_crlf,
  generate_message_id,
}

-- what `Reader` yields: its bytes, and then an error or none
pub record Reader (E : Type 0) : Type 0 where
  pub content : Bytes
  pub failure : Option E

pub data ReadError (E : Type 0) : Type 0 where
  too_large : Text → ReadError E
  lost : E → ReadError E

abbrev pub all_read : {E : Type 0} → Option E → Bytes → Result (ReadError E) Bytes
all_read none b = ok b
all_read (some e) b = err (lost e)

-- the largest int64
abbrev pub max_int64 : ℕ
max_int64 = 0x7fff_ffff_ffff_ffff

-- `max + 1` on an int64, as the count of a `LimitReader`: the sum wraps to a negative number, at which
-- it reads nothing.
unfoldable pub one_more : ℕ → ℕ
one_more limit = if ltb limit max_int64 then suc limit else zero

-- `io.ReadAll` of `io.LimitReader(r, n)`: at the limit the reader is not asked again.
abbrev pub read_limited : {E : Type 0} → ℕ → Reader E → Result (ReadError E) Bytes
read_limited n r =
    if ltb (length r.content) n then all_read r.failure r.content else ok (take n r.content)

-- `ReadAll`. A limit is an int64, and one that is not positive is 0.
unfoldable pub read_all : {E : Type 0} → Reader E → ℕ → Result (ReadError E) Bytes
read_all r zero = all_read r.failure r.content
read_all r (suc m) = do
  raw ← read_limited (one_more (suc m)) r
  refuse_if (ltb (suc m) (length raw))
      (too_large (codes "the message exceeds the " ++ (decimal (suc m) ++ codes " byte limit")))
  ok raw

-- a limit that is set and passed
abbrev pub over : ℕ → ℕ → Bool
over limit n = ltb 0 limit && ltb limit n

module _ (u : Idna) {H : Type 0} (h : Headers H) where
  -- the part of `readFrom` behind the count of the fields
  unfoldable pub from_addresses : Text → List Text → Result Problem (Address × Text)
  from_addresses value [] = err (codes "invalid_from", codes "the From header contains no address")
  from_addresses value (a ∷ []) = elim (parse_address u a) [
    | ok addr ↦ ok (addr, value)
    | err e ↦ err (codes "invalid_from", codes "the From address is not usable: " ++ h.unusable e)
  ]
  from_addresses value (a ∷ b ∷ more) = err (
    codes "multiple_from",
    codes "the From header lists " ++ (decimal (suc (suc (length more))) ++ codes " addresses"),
  )

  unfoldable pub from_value : Text → Result Problem (Address × Text)
  from_value field =
      let value = trim_space field in
      if is_empty value
      then err (codes "missing_from", codes "the From header is empty")
      else elim (h.address_list value) [
        | ok parsed ↦ from_addresses value parsed
        | err e ↦ err (codes "invalid_from", codes "cannot parse the From header: " ++ e)
      ]

  unfoldable pub from_fields : List Text → Result Problem (Address × Text)
  from_fields [] = err (codes "missing_from", codes "the message has no From header")
  from_fields (v ∷ []) = from_value v
  from_fields (v ∷ w ∷ more) = err (
    codes "multiple_from",
    codes "the message has " ++ (decimal (suc (suc (length more))) ++ codes " From headers"),
  )

  -- `readFrom`
  abbrev pub read_from : H → Result Problem (Address × Text)
  read_from header = from_fields (h.values header (codes "From"))

  -- the loop of `addressList`
  unfoldable pub usable_addresses : List Text → List Text
  usable_addresses [] = []
  usable_addresses (a ∷ rest) = elim (parse_address u a) [
    | ok addr ↦ address_string addr ∷ usable_addresses rest
    | err e ↦ usable_addresses rest
  ]

  -- `addressList`
  unfoldable pub address_list : Text → List Text
  address_list field =
      let value = trim_space field in
      if is_empty value
      then []
      else elim (h.address_list value) [ ok parsed ↦ usable_addresses parsed | err e ↦ [] ]

  -- `decodeHeader`
  unfoldable pub decode_header : Text → Text
  decode_header value = elim (h.decode value) [ ok decoded ↦ decoded | err e ↦ value ]

  -- `assemble`
  unfoldable pub assemble : H → Bytes → Result Problem Bytes
  assemble header body = elim (h.write header) [
    | ok block ↦ ok (block ++ normalize_crlf body)
    | err e ↦ err (codes "malformed_headers", codes "cannot write the headers: " ++ e)
  ]

  -- the test for a Bcc field in `Parse`
  unfoldable pub strip_bcc : H → H
  strip_bcc header = if h.has header (codes "Bcc") then h.del header (codes "Bcc") else header

  -- the header behind the test for a Message-Id, and the message's id
  unfoldable pub with_message_id : Options → Text → H → Text × H
  with_message_id o domain header =
      let found = trim_space (h.value header (codes "Message-Id")) in
      let made = generate_message_id o.new_id domain in
      if is_empty found then (made, h.set header (codes "Message-Id") made) else (found, header)

  abbrev pub lacks : H → Text → Bool
  lacks header name = is_empty (trim_space (h.value header name))

  unfoldable pub with_date : Options → H → H
  with_date o header =
      if lacks header (codes "Date") then h.set header (codes "Date") o.date else header

  -- the header that `Parse` writes
  abbrev pub outgoing : Options → Text → H → H
  outgoing o domain header = with_date o (with_message_id o domain (strip_bcc header)).1

  -- `Parse` behind `readFrom`
  unfoldable pub finish : Options → Bytes → H → Address × Text → Result Problem Mail
  finish o body header (from, from_header) =
      let stripped = strip_bcc header in
      let (message_id, identified) = with_message_id o from.domain stripped in
      do
        assembled ← assemble (outgoing o from.domain header) body
        refuse_if (over o.max_bytes (length assembled)) (
          code_too_large,
          codes "the normalized message is "
              ++ (decimal (length assembled)
                  ++ (codes " bytes, over the " ++ (decimal o.max_bytes ++ codes " byte limit"))),
        )
        ok (record {
          from = from;
          from_header = from_header;
          subject = decode_header (h.value header (codes "Subject"));
          message_id = message_id;
          to = address_list (h.value header (codes "To"));
          cc = address_list (h.value header (codes "Cc"));
          bcc = address_list (h.value header (codes "Bcc"));
          raw = assembled;
          size = length assembled;
          generated_message_id = lacks stripped (codes "Message-Id");
          generated_date = lacks identified (codes "Date");
          stripped_bcc = h.has header (codes "Bcc");
        })

  unfoldable pub read_header : Bytes → Result Problem H
  read_header block = elim (h.read block) [
    | ok header ↦ ok header
    | err e ↦ err (codes "malformed_headers", codes "cannot parse the headers: " ++ e)
  ]

  -- `Parse`
  unfoldable pub parse_message : Bytes → Options → Result Problem Mail
  parse_message raw o =
      let (block, body) = split_message raw in
      do
        refuse_if (is_blank raw) (codes "empty_message", codes "the message is empty")
        refuse_if (over o.max_bytes (length raw)) (
          code_too_large,
          codes "the message is "
              ++ (decimal (length raw)
                  ++ (codes " bytes, over the " ++ (decimal o.max_bytes ++ codes " byte limit"))),
        )
        refuse_if (over o.max_header_bytes (length block)) (
          codes "headers_too_large",
          codes "the header block is "
              ++ (decimal (length block)
                  ++ (codes " bytes, over the "
                      ++ (decimal o.max_header_bytes ++ codes " byte limit"))),
        )
        header ← read_header block
        refuse_if (over o.max_header_count (h.count header)) (
          codes "too_many_headers",
          codes "the message carries "
              ++ (decimal (h.count header)
                  ++ (codes " header fields, over the "
                      ++ (decimal o.max_header_count ++ codes " limit"))),
        )
        sender ← read_from header
        finish o body header sender
