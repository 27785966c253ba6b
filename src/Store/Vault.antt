-- ===== src/Store/Vault.antt =====
-- internal/db/migrations and internal/db/queries/credential.sql: the tables of the credentials and of
-- their patterns, and the queries as functions on tables. A rate is the number that its 64 bits give.
use relais.Base.{
  ℕ, Bool, true, false, not, ◌&&◌, ◌||◌, List, [], ◌∷◌, Option, none, some, leb, ◌==◌,
  if◌then◌else◌, equal, any, all, length, is_some,
}
use relais.Base.Int.{ℤ, is_positive}
use relais.Text.{Text, within}
use relais.Crypto.Keyring.{Bytes}

pub data CredentialType : Type 0 where
  api_key_type smtp_user_type : CredentialType

abbrev pub same_type : CredentialType → CredentialType → Bool
same_type api_key_type api_key_type = true
same_type smtp_user_type smtp_user_type = true
same_type _ _ = false

-- `credential`, less the time of its last use
pub record CredentialRow : Type 0 where
  pub id : ℕ
  pub name : Text
  pub kind : CredentialType
  pub lookup : Text
  pub secret_hmac : Bytes
  pub enabled : Bool
  pub rate_limit_rps : Option ℕ
  pub rate_limit_burst : Option ℤ
  pub created_by : Text
  pub created_at : ℕ
  pub updated_at : ℕ
  pub revoked_at : Option ℕ

-- `credential_from_pattern` and `credential_recipient_pattern`
pub record Grant : Type 0 where
  pub id : ℕ
  pub credential_id : ℕ
  pub pattern : Text

-- What Postgres does: the `lower` of a name, `ORDER BY pattern`, the regular expression of the CHECK of
-- a pattern, and the comparison of a rate with 0.
pub record Sql : Type 0 where
  pub lower : Text → Text
  pub order : List Text → List Text
  pub pattern_shape : Text → Bool
  pub rate_le_zero : ℕ → Bool

-- `GetCredential`
unfoldable pub find_credential : ℕ → List CredentialRow → Option CredentialRow
find_credential id [] = none
find_credential id (c ∷ cs) = if c.id == id then some c else find_credential id cs

-- `GetCredentialByLookup`
unfoldable pub find_lookup : Text → List CredentialRow → Option CredentialRow
find_lookup lookup [] = none
find_lookup lookup (c ∷ cs) = if equal c.lookup lookup then some c else find_lookup lookup cs

-- `UPDATE credential … WHERE id = @id`
unfoldable pub update_credential :
    ℕ → (CredentialRow → CredentialRow) → List CredentialRow → List CredentialRow
update_credential id f [] = []
update_credential id f (c ∷ cs) = (if c.id == id then f c else c) ∷ update_credential id f cs

-- `DELETE FROM credential WHERE id = @id`
unfoldable pub delete_row : ℕ → List CredentialRow → List CredentialRow
delete_row id [] = []
delete_row id (c ∷ cs) = let rest = delete_row id cs in if c.id == id then rest else c ∷ rest

-- `RevokeCredential`, on the row
abbrev pub revoked_row : ℕ → CredentialRow → CredentialRow
revoked_row now c = record c {
  revoked_at = if is_some c.revoked_at then c.revoked_at else some now;
  enabled = false;
}

-- `RotateCredentialSecret`, on a row that is not revoked
abbrev pub rotated_row : Text → Bytes → ℕ → CredentialRow → CredentialRow
rotated_row lookup secret_hmac now c = record c {
  lookup = lookup;
  secret_hmac = secret_hmac;
  updated_at = now;
}

-- `WHERE credential_id = @credential_id`: the patterns
unfoldable pub patterns_of : ℕ → List Grant → List Text
patterns_of id [] = []
patterns_of id (g ∷ gs) =
    let rest = patterns_of id gs in if g.credential_id == id then g.pattern ∷ rest else rest

-- the unique index on the credential and the pattern
abbrev pub is_granted : ℕ → Text → List Grant → Bool
is_granted id pattern = any (λ g. g.credential_id == id && equal g.pattern pattern)

-- `ON DELETE CASCADE`
unfoldable pub delete_grants_of : ℕ → List Grant → List Grant
delete_grants_of id [] = []
delete_grants_of id (g ∷ gs) =
    let rest = delete_grants_of id gs in if g.credential_id == id then rest else g ∷ rest

-- `DELETE … WHERE credential_id = @credential_id AND id = @id`
unfoldable pub delete_grant : ℕ → ℕ → List Grant → List Grant
delete_grant owner id [] = []
delete_grant owner id (g ∷ gs) =
    let rest = delete_grant owner id gs in
    if g.credential_id == owner && g.id == id then rest else g ∷ rest

abbrev is_lookup_char : ℕ → Bool
is_lookup_char c =
    within b'A' b'Z' c
    || within b'a' b'z' c
    || within b'0' b'9' c
    || c == b'_'
    || c == b'.'
    || c == b'-'

-- the CHECKs of `credential`
unfoldable pub check_row : Sql → CredentialRow → Bool
check_row q c =
    let rps_ok : Bool = elim c.rate_limit_rps [ none ↦ true | some r ↦ not (q.rate_le_zero r) ] in
    let burst_ok : Bool = elim c.rate_limit_burst [ none ↦ true | some b ↦ is_positive b ] in
    not (all (λ x. x == 32) c.name)
    && length c.secret_hmac == 32
    && leb 3 (length c.lookup)
    && leb (length c.lookup) 128
    && all is_lookup_char c.lookup
    && rps_ok
    && burst_ok

-- the CHECKs of a pattern
abbrev pub check_pattern : Sql → Text → Bool
check_pattern q pattern = q.pattern_shape pattern && leb (length pattern) 320
