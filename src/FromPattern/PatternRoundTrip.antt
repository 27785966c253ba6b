-- ===== src/FromPattern/PatternRoundTrip.antt =====
-- The canonical text of a pattern, which is what the database stores.
use mathlib.Core.List.{append_assoc}
use relais.Base.{
  ◌≤◌, ◌≡◌, refl, ap, ◌∙◌, Bool, true, false, [], ◌∷◌, ◌++◌, arith, ltb, if◌then◌else◌, all,
  all_weaken, all-append, is_empty, equal, ok, refuse_if, bind-eq-ok,
}
use relais.Text.{Text, codes, len, rune_len, is_space, trim_space, contains, contains_any, cut_last}
use relais.Text.Trim.{len-append}
use relais.Text.Cut.{cut_last-append}
use relais.FromPattern.Normalize.{
  invalid_pattern, Idna, star, at_sign, normalize_local, normalize_domain, max_pattern_length,
}
use relais.FromPattern.Canonical.{
  IsLocal, normalize_local-IsLocal, normalize_local-id, normalize_local-contains, is_local_rune,
}
use relais.FromPattern.Domain.{
  IsStable, IsDomain, is_domain_rune, normalize_domain-IsDomain, normalize_domain-id,
  IsDomain-runes,
}
use relais.FromPattern.RoundTrip.{
  is_plain, is_plain-local, is_plain-domain, trim_space-plain, contains_any-all, blank_free,
  at_free, star_free,
}
use relais.FromPattern.Parse.{
  Pattern, split_address, join_pattern, parse_local, parse, cut_subdomain, subdomain_prefix,
  pattern_text,
}

-- A local part of a pattern: the whole-word wildcard, or a literal with no star in it.
abbrev pub IsLocalPattern : Text → Bool → Type 0
IsLocalPattern l true = l ≡ star ∷ []
IsLocalPattern l false = IsLocal l × (contains star l ≡ false)

-- What `Parse` promises of its result.
pub record IsPattern (p : Pattern) : Type 0 where
  pub local_part : IsLocalPattern p.local p.local_any
  pub domain_part : IsDomain p.domain
  pub canonical : p.normalized ≡ pattern_text p.local p.subdomain_any p.domain

parse_local-wild :
    (u : Idna) (before : Text) {l : Text} → parse_local u before ≡ ok (l, true) → l ≡ star ∷ []
unfolding parse_local
parse_local-wild u before h = ground arith

parse_local-literal :
    (u : Idna) (before : Text) {l : Text}
    → parse_local u before ≡ ok (l, false)
    → (contains star before ≡ false) × (normalize_local u before invalid_pattern ≡ ok l)
unfolding parse_local
parse_local-literal u before h = ground arith

parse_local-IsLocalPattern :
    (u : Idna) (before : Text) (a : Bool) {l : Text}
    → parse_local u before ≡ ok (l, a)
    → IsLocalPattern l a
parse_local-IsLocalPattern u before true h = parse_local-wild u before h
parse_local-IsLocalPattern u before false h =
    let (free, literal) = parse_local-literal u before h in
    (
      normalize_local-IsLocal u before invalid_pattern literal,
      normalize_local-contains u before invalid_pattern star (omega arith) free literal,
    )

equal-star : (l : Text) → contains star l ≡ false → equal l (star ∷ []) ≡ false
equal-star [] h = refl
equal-star (c ∷ l) h = ground arith

parse_local-id : (u : Idna) (l : Text) (a : Bool) → IsLocalPattern l a → parse_local u l ≡ ok (l, a)
unfolding parse_local
parse_local-id u l true e = rw e
parse_local-id u l false (v, free) =
    ground (arith, equal-star l free, free, normalize_local-id u l invalid_pattern v)

join_pattern_parts :
    (u : Idna) (before behind : Text) {p : Pattern}
    → join_pattern u before behind ≡ ok p
    → (parse_local u before ≡ ok (p.local, p.local_any))
      × (normalize_domain u (cut_subdomain behind).0 invalid_pattern ≡ ok p.domain)
      × (p.normalized ≡ pattern_text p.local p.subdomain_any p.domain)
unfolding join_pattern
join_pattern_parts u before behind h = ground arith

parse-join :
    (u : Idna) (raw : Text) {p : Pattern}
    → parse u raw ≡ ok p
    → (parts : Text × Text) × (join_pattern u parts.0 parts.1 ≡ ok p)
unfolding parse
parse-join u raw h =
    let value = trim_space raw in
    let (_, _, h₁) = bind-eq-ok (refuse_if (is_empty value) _) _ h in
    let (_, _, h₂) = bind-eq-ok (refuse_if (ltb max_pattern_length (len value)) _) _ h₁ in
    let (_, _, h₃) = bind-eq-ok (refuse_if (contains_any (codes "<> \t\r\n") value) _) _ h₂ in
    let (parts, _, h₄) = bind-eq-ok (split_address invalid_pattern (cut_last at_sign value)) _ h₃ in
    (parts, h₄)

pub parse-IsPattern : (u : Idna) (raw : Text) {p : Pattern} → parse u raw ≡ ok p → IsPattern p
parse-IsPattern u raw {p} h =
    let (parts, joined) = parse-join u raw h in
    let (l, d, t) = join_pattern_parts u parts.0 parts.1 joined in
    record {
      local_part = parse_local-IsLocalPattern u parts.0 p.local_any l;
      domain_part = normalize_domain-IsDomain u (cut_subdomain parts.1).0 invalid_pattern d;
      canonical = t;
    }

abbrev domain_text : Bool → Text → Text
domain_text sub d = (if sub then subdomain_prefix else []) ++ d

cut_subdomain-text :
    (sub : Bool) (d : Text) → IsDomain d → cut_subdomain (domain_text sub d) ≡ (d, sub)
unfolding cut_subdomain
cut_subdomain-text true d v = refl
cut_subdomain-text false [] v = refl
cut_subdomain-text false (c ∷ d) v = ground (arith, star_free (c ∷ d) v)

plain-local : (l : Text) (a : Bool) → IsLocalPattern l a → all is_plain l ≡ true
unfolding is_space
plain-local l true e = rw e
plain-local l false (v, _) = all_weaken is_local_rune is_plain l is_plain-local v.runes

plain-domain : (sub : Bool) (d : Text) → IsDomain d → all is_plain (domain_text sub d) ≡ true
unfolding is_space
plain-domain true d v = all_weaken is_domain_rune is_plain d is_plain-domain (IsDomain-runes d v)
plain-domain false d v = all_weaken is_domain_rune is_plain d is_plain-domain (IsDomain-runes d v)

at_free-domain : (sub : Bool) (d : Text) → IsDomain d → contains at_sign (domain_text sub d) ≡ false
at_free-domain true d v = at_free d v
at_free-domain false d v = at_free d v

local_bounds : (l : Text) (a : Bool) → IsLocalPattern l a → (len l ≤ 64) × (is_empty l ≡ false)
unfolding len rune_len
local_bounds l true e = rw e (omega arith, refl)
local_bounds l false (v, _) = (v.short, v.nonempty)

domain_bounds :
    (sub : Bool) (d : Text)
    → IsDomain d
    → (len (domain_text sub d) ≤ 255) × (is_empty (domain_text sub d) ≡ false)
unfolding len rune_len
domain_bounds true d v = (omega (arith, v.short), refl)
domain_bounds false d v = (omega (arith, v.short), v.nonempty)

pattern_text-split :
    (l : Text) (sub : Bool) (d : Text) → pattern_text l sub d ≡ l ++ at_sign ∷ domain_text sub d
pattern_text-split l sub d = append_assoc l (at_sign ∷ []) (domain_text sub d)

len-pattern_text :
    (l : Text) (a sub : Bool) (d : Text)
    → IsLocalPattern l a
    → IsDomain d
    → len (l ++ at_sign ∷ domain_text sub d) ≤ 320
unfolding len rune_len
len-pattern_text l a sub d vl vd = omega (
  arith,
  len-append l (at_sign ∷ domain_text sub d),
  (local_bounds l a vl).0,
  (domain_bounds sub d vd).0,
)

join_pattern-text :
    (u : Idna) (p : Pattern)
    → IsPattern p
    → normalize_domain u p.domain invalid_pattern ≡ ok p.domain
    → join_pattern u p.local (domain_text p.subdomain_any p.domain) ≡ ok p
unfolding join_pattern
join_pattern-text u p v again =
    rw
      (
        parse_local-id u p.local p.local_any v.local_part,
        cut_subdomain-text p.subdomain_any p.domain v.domain_part,
      )
      (ground (arith, star_free p.domain v.domain_part, again, v.canonical))

plain-pattern :
    (p : Pattern)
    → IsPattern p
    → all is_plain (p.local ++ at_sign ∷ domain_text p.subdomain_any p.domain) ≡ true
unfolding is_space
plain-pattern p v =
    rw (all-append is_plain p.local (at_sign ∷ domain_text p.subdomain_any p.domain)) (
      ground (
        arith,
        plain-local p.local p.local_any v.local_part,
        plain-domain p.subdomain_any p.domain v.domain_part,
      ))

parse-text :
    (u : Idna) (p : Pattern)
    → IsPattern p
    → normalize_domain u p.domain invalid_pattern ≡ ok p.domain
    → parse u (p.local ++ at_sign ∷ domain_text p.subdomain_any p.domain) ≡ ok p
unfolding parse
parse-text u p v again =
    rw
      (
        trim_space-plain _ plain,
        contains_any-all is_plain (codes "<> \t\r\n") _ blank_free plain,
        cut_last-append at_sign p.local _ (at_free-domain p.subdomain_any p.domain v.domain_part),
      )
      (ground (
        arith,
        (local_bounds p.local p.local_any v.local_part).1,
        (domain_bounds p.subdomain_any p.domain v.domain_part).1,
        len-pattern_text p.local p.local_any p.subdomain_any p.domain v.local_part v.domain_part,
        join_pattern-text u p v again,
      ))
  where
    plain : all is_plain (p.local ++ at_sign ∷ domain_text p.subdomain_any p.domain) ≡ true
    plain = plain-pattern p v

-- Parsing the canonical text of a parsed pattern gives the same pattern, when the domain mapping
-- maps its results to themselves.
pub parse-normalized :
    (u : Idna) (raw : Text) {p : Pattern}
    → IsStable u
    → parse u raw ≡ ok p
    → parse u p.normalized ≡ ok p
parse-normalized u raw {p} st h =
    let v = parse-IsPattern u raw h in
    let (parts, joined) = parse-join u raw h in
    let (_, d, _) = join_pattern_parts u parts.0 parts.1 joined in
    ap (parse u) (v.canonical ∙ pattern_text-split p.local p.subdomain_any p.domain)
    ∙ parse-text u p v
        (normalize_domain-id u (cut_subdomain parts.1).0 invalid_pattern invalid_pattern st d)
