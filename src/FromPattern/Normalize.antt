-- ===== src/FromPattern/Normalize.antt =====
-- internal/frompattern/frompattern.go: the errors, `normalizeLocal` and `normalizeDomain`.
-- An error is its sentinel and the case of its message; the message texts are left out.
use relais.Base.{
  ℕ, Bool, false, not, ◌&&◌, ◌||◌, List, [], ◌∷◌, Option, none, some, ltb, ◌==◌, all, is_empty,
  length, Result, ok, err, ◌>>=◌, ◌>>◌, refuse_if,
}
use relais.Text.{
  Text, codes, within, len, trim_space, contains, has_prefix, cut_prefix, ends_in, trim_suffix,
  split, to_lower,
}

-- `ErrInvalidPattern` and `ErrInvalidAddress`
pub data Sentinel : Type 0 where
  invalid_pattern invalid_address : Sentinel

pub data Fault : Type 0 where
  empty too_long has_space_or_brackets has_brackets not_local_at_domain partial_wildcard : Fault
  misplaced_wildcard local_empty local_too_long local_quoted local_dot local_char : Fault
  domain_empty domain_unusable domain_too_long domain_one_label : Fault
  label_empty label_too_long label_hyphen label_char : Fault

pub record Error : Type 0 where
  pub kind : Sentinel
  pub fault : Fault

abbrev pub fail : Sentinel → Fault → Error
fail k f = record { kind = k; fault = f }

-- What the package takes from outside: `unicode.ToLower` beyond ASCII, and
-- `idna.Lookup.ToASCII`, with `none` for its error.
pub record Idna : Type 0 where
  pub fold : ℕ → ℕ
  pub to_ascii : Text → Option Text

abbrev pub max_local_length : ℕ
max_local_length = 64

abbrev pub max_domain_length : ℕ
max_domain_length = 253

abbrev pub max_label_length : ℕ
max_label_length = 63

abbrev pub max_pattern_length : ℕ
max_pattern_length = 320

abbrev pub star : ℕ
star = b'*'

abbrev pub dot : ℕ
dot = b'.'

abbrev pub at_sign : ℕ
at_sign = b'@'

-- `isAllowedLocalRune`
unfoldable pub is_allowed_local_rune : ℕ → Bool
is_allowed_local_rune r =
    within b'a' b'z' r
    || within b'A' b'Z' r
    || within b'0' b'9' r
    || contains r (codes "!#$%&'*+-/=?^_`{|}~.")

abbrev pub has_double_dot : Text → Bool
has_double_dot [] = false
has_double_dot (x ∷ []) = false
has_double_dot (x ∷ y ∷ s) = x == dot && y == dot || has_double_dot (y ∷ s)

unfoldable pub quoted : Text → Bool
unfolding cut_prefix
quoted s = has_prefix (b'"' ∷ []) s || ends_in b'"' s

unfoldable pub misplaced_dot : Text → Bool
unfolding cut_prefix
misplaced_dot s = has_prefix (dot ∷ []) s || ends_in dot s || has_double_dot s

module _ (u : Idna) where
  -- `normalizeLocal`
  unfoldable pub normalize_local : Text → Sentinel → Result Error Text
  normalize_local raw kind = do
    let local = trim_space raw
    refuse_if (is_empty local) (fail kind local_empty)
    refuse_if (ltb max_local_length (len local)) (fail kind local_too_long)
    refuse_if (quoted local) (fail kind local_quoted)
    refuse_if (misplaced_dot local) (fail kind local_dot)
    refuse_if (not (all is_allowed_local_rune local)) (fail kind local_char)
    ok (to_lower u.fold local)

-- the loop of `checkLabel`
unfoldable pub is_label_rune : ℕ → Bool
is_label_rune r = within b'a' b'z' r || within b'0' b'9' r || r == b'-'

unfoldable pub hyphen_edge : Text → Bool
unfolding cut_prefix
hyphen_edge l = has_prefix (b'-' ∷ []) l || ends_in b'-' l

-- `checkLabel`
unfoldable pub check_label : Text → Sentinel → Result Error (Unit {0})
check_label label kind = do
  refuse_if (is_empty label) (fail kind label_empty)
  refuse_if (ltb max_label_length (len label)) (fail kind label_too_long)
  refuse_if (hyphen_edge label) (fail kind label_hyphen)
  refuse_if (not (all is_label_rune label)) (fail kind label_char)
  ok tt

unfoldable pub check_labels : List Text → Sentinel → Result Error (Unit {0})
check_labels [] kind = ok tt
check_labels (l ∷ ls) kind = do check_label l kind; check_labels ls kind

-- `normalizeDomain` from `len(ascii)` on
unfoldable pub check_domain : Text → Sentinel → Result Error Text
check_domain ascii kind = do
  refuse_if (ltb max_domain_length (len ascii)) (fail kind domain_too_long)
  refuse_if (ltb (length (split dot ascii)) 2) (fail kind domain_one_label)
  check_labels (split dot ascii) kind
  ok ascii

-- the error of `idna.Lookup.ToASCII`
abbrev pub usable : Sentinel → Option Text → Result Error Text
usable kind none = err (fail kind domain_unusable)
usable kind (some a) = ok a

module _ (u : Idna) where
  -- `normalizeDomain`
  unfoldable pub normalize_domain : Text → Sentinel → Result Error Text
  normalize_domain raw kind = do
    let domain = trim_suffix dot (trim_space raw)
    refuse_if (is_empty domain) (fail kind domain_empty)
    ascii ← usable kind (u.to_ascii (to_lower u.fold domain))
    check_domain ascii kind
