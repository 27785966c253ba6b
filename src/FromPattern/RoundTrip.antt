-- ===== src/FromPattern/RoundTrip.antt =====
-- The canonical text of an address, and the characters it is made of.
use relais.Base.{
  ℕ, ◌≡◌, refl, Bool, true, false, not, ◌&&◌, [], ◌∷◌, ◌++◌, arith, ◌==◌, all, all_weaken,
  all-append, is_empty, ok, refuse_if, bind-eq-ok,
}
use relais.Text.{Text, codes, is_space, trim_space, contains, contains_any, cut_last}
use relais.Text.Trim.{trim_space-id}
use relais.Text.Cut.{cut_last-append}
use relais.FromPattern.Normalize.{
  invalid_address, Idna, star, at_sign, normalize_local, normalize_domain, is_label_rune,
}
use relais.FromPattern.Canonical.{
  IsLocal, is_local_rune, is_allowed_local_rune_range, is_allowed_local_rune_ne,
  normalize_local-IsLocal, normalize_local-id,
}
use relais.FromPattern.Domain.{
  IsStable, IsDomain, is_domain_rune, normalize_domain-IsDomain, normalize_domain-id,
  IsDomain-runes,
}
use relais.FromPattern.Parse.{Address, address_string, split_address, join_address, parse_address}

-- What both kinds of text are made of: nothing that is trimmed, and no bracket.
abbrev pub is_plain : ℕ → Bool
is_plain c = not (is_space c) && not (c == b'<') && not (c == b'>')

pub is_plain-local : (c : ℕ) → is_local_rune c ≡ true → is_plain c ≡ true
unfolding is_space
is_plain-local c h =
    ground (
      arith,
      is_allowed_local_rune_range c (ground arith),
      is_allowed_local_rune_ne c (ground arith),
    )

pub is_plain-domain : (c : ℕ) → is_domain_rune c ≡ true → is_plain c ≡ true
unfolding is_label_rune is_space
is_plain-domain c h = ground arith

not_space-plain : (c : ℕ) → is_plain c ≡ true → not (is_space c) ≡ true
not_space-plain c h = ground arith

pub trim_space-plain : (s : Text) → all is_plain s ≡ true → trim_space s ≡ s
trim_space-plain s h =
    trim_space-id s (all_weaken is_plain (λ c. not (is_space c)) s not_space-plain h)

module _ (p : ℕ → Bool) where
  contains-all : (k : ℕ) (s : Text) → p k ≡ false → all p s ≡ true → contains k s ≡ false
  contains-all k [] hk h = refl
  contains-all k (c ∷ s) hk h = ground (arith, contains-all k s hk)

  pub contains_any-all :
      (chars s : Text)
      → ((c : ℕ) → p c ≡ true → contains c chars ≡ false)
      → all p s ≡ true
      → contains_any chars s ≡ false
  contains_any-all chars [] hp h = refl
  contains_any-all chars (c ∷ s) hp h = ground (arith, hp c, contains_any-all chars s hp)

bracket_free : (c : ℕ) → is_plain c ≡ true → contains c (codes "<>") ≡ false
bracket_free c h = ground arith

pub blank_free : (c : ℕ) → is_plain c ≡ true → contains c (codes "<> \t\r\n") ≡ false
unfolding is_space
blank_free c h = ground arith

address_text :
    (l d : Text)
    → is_empty l ≡ false
    → address_string (record { local = l; domain = d }) ≡ l ++ at_sign ∷ d
unfolding address_string
address_text [] d h = cc
address_text (c ∷ l) d h = refl

is_plain-address : (l d : Text) → IsLocal l → IsDomain d → all is_plain (l ++ at_sign ∷ d) ≡ true
unfolding is_space
is_plain-address l d vl vd = rw (all-append is_plain l (at_sign ∷ d)) (
    ground (
      arith,
      all_weaken is_local_rune is_plain l is_plain-local vl.runes,
      all_weaken is_domain_rune is_plain d is_plain-domain (IsDomain-runes d vd),
    ))

pub at_free : (d : Text) → IsDomain d → contains at_sign d ≡ false
unfolding is_label_rune
at_free d v = contains-all is_domain_rune at_sign d refl (IsDomain-runes d v)

pub star_free : (d : Text) → IsDomain d → contains star d ≡ false
unfolding is_label_rune
star_free d v = contains-all is_domain_rune star d refl (IsDomain-runes d v)

join_address_parts :
    (u : Idna) (before behind : Text) {a : Address}
    → join_address u before behind ≡ ok a
    → (normalize_local u before invalid_address ≡ ok a.local)
      × (normalize_domain u behind invalid_address ≡ ok a.domain)
unfolding join_address
join_address_parts u before behind h = ground arith

parse_address-join :
    (u : Idna) (raw : Text) {a : Address}
    → parse_address u raw ≡ ok a
    → (parts : Text × Text) × (join_address u parts.0 parts.1 ≡ ok a)
unfolding parse_address
parse_address-join u raw h =
    let value = trim_space raw in
    let (_, _, h₁) = bind-eq-ok (refuse_if (is_empty value) _) _ h in
    let (_, _, h₂) = bind-eq-ok (refuse_if (contains_any (codes "<>") value) _) _ h₁ in
    let (parts, _, h₃) = bind-eq-ok (split_address invalid_address (cut_last at_sign value)) _ h₂ in
    (parts, h₃)

-- An accepted address has a well-formed local part and domain.
pub record IsAddress (a : Address) : Type 0 where
  pub local_part : IsLocal a.local
  pub domain_part : IsDomain a.domain

pub parse_address-IsAddress :
    (u : Idna) (raw : Text) {a : Address} → parse_address u raw ≡ ok a → IsAddress a
parse_address-IsAddress u raw h =
    let (parts, joined) = parse_address-join u raw h in
    let (l, d) = join_address_parts u parts.0 parts.1 joined in
    record {
      local_part = normalize_local-IsLocal u parts.0 invalid_address l;
      domain_part = normalize_domain-IsDomain u parts.1 invalid_address d;
    }

parse_address-text :
    (u : Idna) (l d : Text)
    → IsLocal l
    → IsDomain d
    → normalize_domain u d invalid_address ≡ ok d
    → parse_address u (l ++ at_sign ∷ d) ≡ ok (record { local = l; domain = d })
unfolding parse_address join_address
parse_address-text u l d vl vd again =
    rw
      (
        trim_space-plain _ plain,
        contains_any-all is_plain (codes "<>") _ bracket_free plain,
        cut_last-append at_sign l d (at_free d vd),
      )
      (ground (arith, vl.nonempty, vd.nonempty, normalize_local-id u l invalid_address vl))
  where
    plain : all is_plain (l ++ at_sign ∷ d) ≡ true
    plain = is_plain-address l d vl vd

-- Parsing the canonical text of a parsed address gives the same address, when the domain mapping
-- maps its results to themselves.
pub parse_address-address_string :
    (u : Idna) (raw : Text) {a : Address}
    → IsStable u
    → parse_address u raw ≡ ok a
    → parse_address u (address_string a) ≡ ok a
parse_address-address_string u raw {a} st h =
    let v = parse_address-IsAddress u raw h in
    let (parts, joined) = parse_address-join u raw h in
    let (l, d) = join_address_parts u parts.0 parts.1 joined in
    rw (address_text a.local a.domain v.local_part.nonempty) (
      parse_address-text u a.local a.domain v.local_part v.domain_part
        (normalize_domain-id u parts.1 invalid_address invalid_address st d))
