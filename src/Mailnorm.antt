-- ===== src/Mailnorm.antt =====
-- internal/mailnorm/mailnorm.go: a submitted message is checked and rewritten.
-- A message is its bytes, and a text that the header holds is a list of code points.
pub mod Parse
pub mod Accepted
pub mod Outgoing
pub mod Bounds
pub mod Lines
pub mod Split
use relais.Base.{
  ℕ, zero, suc, ◌+◌, Bool, true, false, not, ◌&&◌, ◌||◌, List, [], ◌∷◌, ◌++◌, Option, none, some,
  ltb, leb, ◌==◌, if◌then◌else◌, is_empty, length, take, drop, Result, ok, err, ◌>>=◌, refuse_if,
  ◌>>◌,
}
use relais.Text.{Text, codes, within, is_space, trim_space, has_prefix, ends_in}
use relais.Crypto.Keyring.{Bytes}
use relais.FromPattern.Normalize.{Error, Idna}
use relais.FromPattern.Parse.{Address, no_address, address_string, parse_address}
use relais.Sender.{decimal}

-- `Message`
pub record Mail : Type 0 where
  pub from : Address
  pub from_header : Text
  pub subject : Text
  pub message_id : Text
  pub to : List Text
  pub cc : List Text
  pub bcc : List Text
  pub raw : Bytes
  pub size : ℕ
  pub generated_message_id : Bool
  pub generated_date : Bool
  pub stripped_bcc : Bool

-- `Message{}`
abbrev pub no_mail : Mail
no_mail = record {
  from = no_address;
  from_header = [];
  subject = [];
  message_id = [];
  to = [];
  cc = [];
  bcc = [];
  raw = [];
  size = 0;
  generated_message_id = false;
  generated_date = false;
  stripped_bcc = false;
}

-- go-message's `textproto`, `net/mail` and `mime`, each with the text of its error; `show` is how
-- `fmt` prints an error of `ParseAddress`.
pub record Headers (H : Type 0) : Type 0 where
  pub read : Bytes → Result Text H
  pub write : H → Result Text Bytes
  pub count : H → ℕ
  pub values : H → Text → List Text
  pub value : H → Text → Text
  pub has : H → Text → Bool
  pub del : H → Text → H
  pub set : H → Text → Text → H
  pub address_list : Text → Result Text (List Text)
  pub decode : Text → Result Text Text
  pub unusable : Error → Text

-- `Options`, with the id and the date that `newID` and `now` give at this call. No limit is 0.
pub record Options : Type 0 where
  pub max_bytes : ℕ
  pub max_header_count : ℕ
  pub max_header_bytes : ℕ
  pub new_id : Text
  pub date : Text

-- `Error`: the code, and the text
abbrev pub Problem : Type 0
Problem = Text × Text

abbrev pub code_too_large : Text
code_too_large = codes "message_too_large"

-- the two-byte and the three-byte forms of a space in UTF-8
abbrev is_space2 : ℕ → ℕ → Bool
is_space2 a b = a == 0xc2 && (b == 0x85 || b == 0xa0)

abbrev is_space3 : ℕ → ℕ → ℕ → Bool
is_space3 a b c =
    a == 0xe1 && b == 0x9a && c == 0x80
    || a == 0xe2 && b == 0x80 && (within 0x80 0x8a c || c == 0xa8 || c == 0xa9 || c == 0xaf)
    || a == 0xe2 && b == 0x81 && c == 0x9f
    || a == 0xe3 && b == 0x80 && c == 0x80

abbrev is_space1 : ℕ → Bool
is_space1 a = within 9 13 a || a == 32

-- `len(bytes.TrimSpace(raw)) == 0`
unfoldable pub is_blank : Bytes → Bool
is_blank [] = true
is_blank (a ∷ []) = is_space1 a
is_blank (a ∷ b ∷ []) = is_space1 a && is_space1 b || is_space2 a b
is_blank (a ∷ b ∷ c ∷ s) =
    is_space1 a && is_blank (b ∷ c ∷ s)
    || is_space2 a b && is_blank (c ∷ s)
    || is_space3 a b c && is_blank s

-- `bytes.Index`
unfoldable pub index : Bytes → Bytes → Option ℕ
index sep [] = if is_empty sep then some 0 else none
index sep (x ∷ s) =
    let later : Option ℕ = elim (index sep s) [ some n ↦ some (suc n) | none ↦ none ] in
    if has_prefix sep (x ∷ s) then some 0 else later

abbrev pub two_crlf : Bytes
two_crlf = 13 ∷ 10 ∷ 13 ∷ 10 ∷ []

abbrev pub two_lf : Bytes
two_lf = 10 ∷ 10 ∷ []

abbrev at_crlf : Bytes → ℕ → Bytes × Bytes
at_crlf raw i = (take (i + 2) raw, drop (i + 4) raw)

abbrev at_lf : Bytes → ℕ → Bytes × Bytes
at_lf raw i = (take (i + 1) raw, drop (i + 2) raw)

-- the `default` of `splitMessage`
abbrev pub only_headers : Bytes → Bytes × Bytes
only_headers raw = if ends_in 10 raw then (raw, []) else (raw ++ 10 ∷ [], [])

-- `splitMessage`
unfoldable pub split_at : Bytes → Option ℕ → Option ℕ → Bytes × Bytes
split_at raw none none = only_headers raw
split_at raw none (some lf) = at_lf raw lf
split_at raw (some crlf) none = at_crlf raw crlf
split_at raw (some crlf) (some lf) = if leb crlf lf then at_crlf raw crlf else at_lf raw lf

unfoldable pub split_message : Bytes → Bytes × Bytes
split_message raw = split_at raw (index two_crlf raw) (index two_lf raw)

abbrev pub starts_lf : Bytes → Bool
starts_lf [] = false
starts_lf (c ∷ s) = c == 10

-- the loop of `needsCRLF`, which knows whether the byte before was a CR
unfoldable pub needs_after : Bool → Bytes → Bool
needs_after cr [] = false
needs_after cr (c ∷ s) =
    c == 10 && not cr || c == 13 && not (starts_lf s) || needs_after (c == 13) s

-- `needsCRLF`
abbrev pub needs_crlf : Bytes → Bool
needs_crlf body = needs_after false body

-- the loop of `normalizeCRLF`
unfoldable pub rewrite_lines : Bytes → Bytes
rewrite_lines [] = []
rewrite_lines (c ∷ []) = if c == 13 || c == 10 then 13 ∷ 10 ∷ [] else c ∷ []
rewrite_lines (c ∷ d ∷ s) =
    let behind = rewrite_lines s in
    let rest = rewrite_lines (d ∷ s) in
    if c == 13 && d == 10
    then 13 ∷ 10 ∷ behind
    else if c == 13 || c == 10
    then 13 ∷ 10 ∷ rest
    else c ∷ rest

-- `normalizeCRLF`
unfoldable pub normalize_crlf : Bytes → Bytes
normalize_crlf body = if needs_crlf body then rewrite_lines body else body

-- `generateMessageID`
unfoldable pub generate_message_id : Text → Text → Text
generate_message_id id domain =
    codes "<"
    ++ (id ++ (b'@' ∷ (if is_empty domain then codes "relais.invalid" else domain) ++ codes ">"))
