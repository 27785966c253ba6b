-- ===== src/Sender.antt =====
-- internal/sender/sender.go: the failures of a delivery and its result.
pub mod Exchange
pub mod Recipients
pub mod Decimal
pub mod Handshake
pub mod Secrecy
use relais.Base.{
  ℕ, zero, suc, ◌+◌, Bool, true, false, not, ◌&&◌, ◌||◌, List, [], ◌∷◌, ◌++◌, Option, none, some,
  ltb, leb, ◌==◌, if◌then◌else◌, is_empty, Result, ok, err,
}
use Prim.Native.Nat.{◌/◌, ◌%◌}
use relais.Text.{Text, codes, trim_space}
use relais.Crypto.Keyring.{Bytes}

pub data Kind : Type 0 where
  transient permanent : Kind

-- `Error`
pub record SendError : Type 0 where
  pub kind : Kind
  pub code : Text
  pub detail : Text
  pub smtp_code : ℕ

-- An error that a delivery returns: one of the package's, or another with its text.
pub data DeliveryError : Type 0 where
  classified : SendError → DeliveryError
  other : Text → DeliveryError

abbrev pub is_permanent_kind : Kind → Bool
is_permanent_kind permanent = true
is_permanent_kind transient = false

-- `IsPermanent`
unfoldable pub is_permanent : DeliveryError → Bool
is_permanent (classified e) = is_permanent_kind e.kind
is_permanent (other _) = false

abbrev pub code_internal : Text
code_internal = codes "internal_error"

-- `CodeOf`, of an error
unfoldable pub code_of : DeliveryError → Text
code_of (classified e) = e.code
code_of (other _) = code_internal

-- `Error.Error`
unfoldable pub detail_of : DeliveryError → Text
detail_of (classified e) = if is_empty e.detail then e.code else e.code ++ (codes ": " ++ e.detail)
detail_of (other text) = text

abbrev pub partial_recipients : Text
partial_recipients = codes "partial_recipients"

-- `Message`
pub record Outgoing : Type 0 where
  pub from : Text
  pub recipients : List Text
  pub raw : Bytes

-- `RejectedRecipient`
pub record RejectedRecipient : Type 0 where
  pub address : Text
  pub smtp_code : ℕ
  pub detail : Text

-- `Result`
pub record Delivery : Type 0 where
  pub accepted : List Text
  pub rejected : List RejectedRecipient
  pub response : Text
  pub used_tls : Bool

-- `Result.Partial`
abbrev pub is_partial : Delivery → Bool
is_partial r = not (is_empty r.rejected)

-- `fmt.Sprintf("%d", n)`, the lower digits behind the higher ones
unfoldable pub digits_onto : ℕ → ℕ → Text → Text
digits_onto zero n text = text
digits_onto (suc fuel) n text =
    let rest = digits_onto fuel (n / 10) ((b'0' + n % 10) ∷ text) in
    if ltb n 10 then (b'0' + n) ∷ text else rest

abbrev pub decimal : ℕ → Text
decimal n = digits_onto (suc n) n []

abbrev pub refusal_text : RejectedRecipient → Text
refusal_text r =
    r.address ++ (codes " (" ++ (decimal r.smtp_code ++ (codes " " ++ (r.detail ++ codes ")"))))

unfoldable pub join_refusals : List RejectedRecipient → Text
join_refusals [] = []
join_refusals (r ∷ []) = refusal_text r
join_refusals (r ∷ s ∷ rs) = refusal_text r ++ (codes "; " ++ join_refusals (s ∷ rs))

-- `Result.RejectedDetail`
unfoldable pub rejected_detail : Delivery → Text
rejected_detail d = join_refusals d.rejected
