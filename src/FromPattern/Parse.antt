-- ===== src/FromPattern/Parse.antt =====
-- internal/frompattern/frompattern.go: `Address`, `Pattern`, `ParseAddress` and `Parse`.
use relais.Base.{
  Bool, true, false, ◌&&◌, ◌||◌, [], ◌∷◌, ◌++◌, Option, none, some, ltb, if◌then◌else◌, any,
  is_empty, equal, Result, ok, err, ◌>>=◌, ◌>>◌, refuse_if,
}
use relais.Text.{Text, codes, len, trim_space, contains, contains_any, cut_prefix, cut_last}
use relais.FromPattern.Normalize.{
  Sentinel, invalid_pattern, invalid_address, empty, too_long, has_space_or_brackets, has_brackets,
  not_local_at_domain, partial_wildcard, misplaced_wildcard, Error, fail, Idna, star, dot, at_sign,
  max_pattern_length, normalize_local, normalize_domain,
}

pub record Address : Type 0 where
  pub local : Text
  pub domain : Text

abbrev pub no_address : Address
no_address = record { local = []; domain = [] }

-- `Address.IsZero`
abbrev pub address_is_zero : Address → Bool
address_is_zero a = is_empty a.local && is_empty a.domain

-- `Address.String`
unfoldable pub address_string : Address → Text
address_string a = if address_is_zero a then [] else a.local ++ at_sign ∷ a.domain

abbrev pub split_address : Sentinel → Option (Text × Text) → Result Error (Text × Text)
split_address kind none = err (fail kind not_local_at_domain)
split_address kind (some (l, d)) =
    if is_empty l || is_empty d then err (fail kind not_local_at_domain) else ok (l, d)

pub record Pattern : Type 0 where
  pub normalized : Text
  pub local : Text
  pub local_any : Bool
  pub domain : Text
  pub subdomain_any : Bool

abbrev pub no_pattern : Pattern
no_pattern = record {
  normalized = [];
  local = [];
  local_any = false;
  domain = [];
  subdomain_any = false;
}

-- `Pattern.IsZero`
abbrev pub pattern_is_zero : Pattern → Bool
pattern_is_zero p = is_empty p.normalized

abbrev pub subdomain_prefix : Text
subdomain_prefix = star ∷ dot ∷ []

-- the test for the `*.` prefix in `Parse`: what is left of the domain, and `subdomainAny`
unfoldable pub cut_subdomain : Text → Text × Bool
unfolding cut_prefix
cut_subdomain d = elim (cut_prefix subdomain_prefix d) [
  | none ↦ (d, false)
  | some rest ↦ (rest, true)
]

-- `Pattern.normalized` as `Parse` builds it
abbrev pub pattern_text : Text → Bool → Text → Text
pattern_text l any d = (l ++ at_sign ∷ []) ++ ((if any then subdomain_prefix else []) ++ d)

module _ (u : Idna) where
  -- `ParseAddress` from the two parts on
  unfoldable pub join_address : Text → Text → Result Error Address
  join_address before behind = do
    local ← normalize_local u before invalid_address
    domain ← normalize_domain u behind invalid_address
    ok (record { local = local; domain = domain })

  -- `ParseAddress`
  unfoldable pub parse_address : Text → Result Error Address
  parse_address raw = do
    let value = trim_space raw
    refuse_if (is_empty value) (fail invalid_address empty)
    refuse_if (contains_any (codes "<>") value) (fail invalid_address has_brackets)
    parts ← split_address invalid_address (cut_last at_sign value)
    join_address parts.0 parts.1

  -- the local part in `Parse`, with `localAny`
  unfoldable pub parse_local : Text → Result Error (Text × Bool)
  parse_local l = if equal l (star ∷ []) then ok (star ∷ [], true) else (do
    refuse_if (contains star l) (fail invalid_pattern partial_wildcard)
    local ← normalize_local u l invalid_pattern
    ok (local, false))

  -- `Parse` from the two parts on
  unfoldable pub join_pattern : Text → Text → Result Error Pattern
  join_pattern before behind = do
    local ← parse_local before
    let cut = cut_subdomain behind
    refuse_if (contains star cut.0) (fail invalid_pattern misplaced_wildcard)
    domain ← normalize_domain u cut.0 invalid_pattern
    ok (record {
      normalized = pattern_text local.0 cut.1 domain;
      local = local.0;
      local_any = local.1;
      domain = domain;
      subdomain_any = cut.1;
    })

  -- `Parse`
  unfoldable pub parse : Text → Result Error Pattern
  parse raw = do
    let value = trim_space raw
    refuse_if (is_empty value) (fail invalid_pattern empty)
    refuse_if (ltb max_pattern_length (len value)) (fail invalid_pattern too_long)
    refuse_if (contains_any (codes "<> \t\r\n") value) (fail invalid_pattern has_space_or_brackets)
    parts ← split_address invalid_pattern (cut_last at_sign value)
    join_pattern parts.0 parts.1
