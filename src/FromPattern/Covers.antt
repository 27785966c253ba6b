-- ===== src/FromPattern/Covers.antt =====
-- What `Pattern.Matches` decides, said without suffixes and lengths.
use relais.Base.{
  ℕ, ◌+◌, ◌≤◌, ◌<◌, ◌≡◌, ◌≢◌, ◌↔◌, inl, inr, refl, sym, ap, Bool, true, false, not, ◌&&◌, [], ◌∷◌,
  ◌++◌, arith, ltb, if◌then◌else◌, equal, equal_iff, equal_refl, Bool-cases,
}
use relais.Text.{Text, len, rune_len}
use relais.Text.Trim.{len-append}
use relais.FromPattern.Normalize.{dot}
use relais.FromPattern.Parse.{Address, Pattern, address_is_zero, pattern_is_zero}
use relais.FromPattern.Matching.{matches, has_suffix}

-- The domain itself, or at least one more character and a dot in front of it.
pub data DomainCovers (d : Text) : Bool → Text → Type 0 where
  exact : {x : Text} → x ≡ d → DomainCovers d false x
  subdomain : {x : Text} (front : Text) → front ≢ [] → x ≡ front ++ dot ∷ d → DomainCovers d true x

abbrev pub LocalCovers : Text → Bool → Text → Type 0
LocalCovers l true x = Unit
LocalCovers l false x = x ≡ l

pub record Covers (p : Pattern) (a : Address) : Type 0 where
  pub on_local : LocalCovers p.local p.local_any a.local
  pub on_domain : DomainCovers p.domain p.subdomain_any a.domain

has_suffix→split : (s t : Text) → has_suffix s t ≡ true → (front : Text) × (s ≡ front ++ t)
unfolding has_suffix
has_suffix→split [] t h = ([], (equal_iff [] t).0 (ground (arith, equal_iff [] t, equal_iff t [])))
has_suffix→split (x ∷ s) t h = elim (Bool-cases (equal (x ∷ s) t)) [
  | inl same ↦ ([], (equal_iff (x ∷ s) t).0 same)
  | inr shorter ↦ let (front, e) = has_suffix→split s t (ground arith) in (x ∷ front, ap (◌∷◌ x) e)
]

has_suffix-append : (front t : Text) → has_suffix (front ++ t) t ≡ true
unfolding has_suffix
has_suffix-append [] [] = refl
has_suffix-append [] (c ∷ t) = rw (equal_refl (c ∷ t))
has_suffix-append (x ∷ front) t = rw (has_suffix-append front t) (ground arith)

rune_len-pos : (c : ℕ) → 1 ≤ rune_len c
unfolding rune_len
rune_len-pos c = ground arith

len-pos : (s : Text) → s ≢ [] → 1 ≤ len s
unfolding len
len-pos [] h = absurd (h refl)
len-pos (c ∷ s) h = omega (arith, rune_len-pos c)

len-front : (front d : Text) → len (front ++ dot ∷ d) ≡ len front + (1 + len d)
unfolding len rune_len
len-front front d = len-append front (dot ∷ d)

abbrev subdomain_test : Text → Text → Bool
subdomain_test d x = ltb (len d + 1) (len x) && has_suffix x (dot ∷ d)

subdomain_test→DomainCovers : (d x : Text) → subdomain_test d x ≡ true → DomainCovers d true x
subdomain_test→DomainCovers d x h =
    let (front, e) = has_suffix→split x (dot ∷ d) (ground arith) in
    DomainCovers.subdomain front (longer front e) e
  where
    longer : (front : Text) → x ≡ front ++ dot ∷ d → front ≢ []
    longer front e nil = absurd (omega (arith, size, ap len e, len-front front d, empty))
      where
        size : len d + 1 < len x
        size = ground arith

        empty : len front ≡ 0
        empty = rw nil (unfold len in refl)

DomainCovers→subdomain_test : (d x : Text) → DomainCovers d true x → subdomain_test d x ≡ true
DomainCovers→subdomain_test d x (DomainCovers.subdomain front ne e) =
    rw e (ground (arith, len-front front d, len-pos front ne, has_suffix-append front (dot ∷ d)))

DomainCovers-exact : (d x : Text) → DomainCovers d false x → x ≡ d
DomainCovers-exact d x (DomainCovers.exact e) = e

local_test_iff :
    (l : Text) (a : Bool) (x : Text) → ((not a && not (equal l x)) ≡ false) ↔ LocalCovers l a x
local_test_iff l true x = (λ _. tt, λ _. refl)
local_test_iff l false x =
    (λ h. sym ((equal_iff l x).0 (ground arith)), λ e. rw e (ground (arith, equal_refl l)))

domain_test_iff :
    (d : Text) (sub : Bool) (x : Text)
    → ((if sub then subdomain_test d x else equal x d) ≡ true) ↔ DomainCovers d sub x
domain_test_iff d true x = (subdomain_test→DomainCovers d x, DomainCovers→subdomain_test d x)
domain_test_iff d false x = (
  λ h. DomainCovers.exact ((equal_iff x d).0 h),
  λ c. (equal_iff x d).1 (DomainCovers-exact d x c),
)

-- On a pattern and an address that are not zero, `Matches` holds exactly if the local part is the
-- pattern's or the pattern has the wildcard, and the domain is the pattern's own, or for a `*.`
-- pattern a strict subdomain of it.
pub matches_iff :
    (p : Pattern) (a : Address)
    → pattern_is_zero p ≡ false
    → address_is_zero a ≡ false
    → (matches p a ≡ true) ↔ Covers p a
unfolding matches
matches_iff p a hp ha = (
  λ h. record {
    on_local = (local_test_iff p.local p.local_any a.local).0 (ground arith);
    on_domain = (domain_test_iff p.domain p.subdomain_any a.domain).0 (ground arith);
  },
  λ c. ground (
    arith,
    (local_test_iff p.local p.local_any a.local).1 c.on_local,
    (domain_test_iff p.domain p.subdomain_any a.domain).1 c.on_domain,
  ),
)
