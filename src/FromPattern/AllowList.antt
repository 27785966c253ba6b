-- ===== src/FromPattern/AllowList.antt =====
-- `NewSet` and `Set`: allow-lists and the texts that they are built from.
use relais.Base.{
  ◌≡◌, ◌↔◌, inl, inr, sym, ap, ◌∙◌, Bool, true, false, ◌||◌, List, [], ◌∷◌, ◌++◌, arith, some,
  if◌then◌else◌, equal, equal_iff, Bool-cases, ok, err, bind-eq-ok, All, Member, here, there,
}
use relais.Text.{Text}
use relais.FromPattern.Normalize.{Idna}
use relais.FromPattern.Domain.{IsStable}
use relais.FromPattern.Parse.{Address, Pattern, parse}
use relais.FromPattern.PatternRoundTrip.{parse-normalized}
use relais.FromPattern.Matching.{matches, Patterns, seen, new_set_onto, new_set, match_set, allows}

-- `Match` returns the first pattern that authorizes the address.
pub data FirstMatch (addr : Address) (p : Pattern) : Patterns → Type 0 where
  this : {ps : Patterns} → matches p addr ≡ true → FirstMatch addr p (p ∷ ps)
  later :
      {q : Pattern} {ps : Patterns}
      → matches q addr ≡ false
      → FirstMatch addr p ps
      → FirstMatch addr p (q ∷ ps)

match_set→FirstMatch :
    (s : Patterns) (addr : Address) {p : Pattern} → match_set s addr ≡ some p → FirstMatch addr p s
unfolding match_set
match_set→FirstMatch [] addr h = cc
match_set→FirstMatch (q ∷ ps) addr {p} h = elim (Bool-cases (matches q addr)) [
  | inl hit ↦ let e : q ≡ p = ground arith in rw (← e) (FirstMatch.this hit)
  | inr miss ↦ FirstMatch.later miss (match_set→FirstMatch ps addr (ground arith))
]

FirstMatch→match_set :
    {addr : Address} {p : Pattern} {s : Patterns} → FirstMatch addr p s → match_set s addr ≡ some p
unfolding match_set
FirstMatch→match_set (FirstMatch.this h) = rw h
FirstMatch→match_set (FirstMatch.later h f) = rw h (FirstMatch→match_set f)

-- `Match` finds a pattern exactly if it is the first of the set that matches the address.
pub match_set_iff :
    (s : Patterns) (addr : Address) (p : Pattern)
    → (match_set s addr ≡ some p) ↔ FirstMatch addr p s
match_set_iff s addr p = (match_set→FirstMatch s addr, FirstMatch→match_set)

abbrev pub Authorizes : Patterns → Address → Type 0
Authorizes s addr = (p : Pattern) × Member p s × (matches p addr ≡ true)

allows→Authorizes : (s : Patterns) (addr : Address) → allows s addr ≡ true → Authorizes s addr
unfolding match_set
allows→Authorizes [] addr h = cc
allows→Authorizes (q ∷ ps) addr h = elim (Bool-cases (matches q addr)) [
  | inl hit ↦ (q, here, hit)
  | inr miss ↦ let (p, m, hit) = allows→Authorizes ps addr (ground arith) in (p, there m, hit)
]

Member→allows :
    (p : Pattern) (addr : Address) {s : Patterns}
    → Member p s
    → matches p addr ≡ true
    → allows s addr ≡ true
unfolding match_set
Member→allows p addr here h = rw h
Member→allows p addr (there m) h = ground (arith, Member→allows p addr m h)

-- Allowing an address means that a pattern of the set matches it.
pub allows_iff : (s : Patterns) (addr : Address) → (allows s addr ≡ true) ↔ Authorizes s addr
allows_iff s addr = (allows→Authorizes s addr, λ a. Member→allows a.0 addr a.1 a.2)

allows-concat :
    (s : Patterns) (p : Pattern) (addr : Address)
    → allows (s ++ p ∷ []) addr ≡ (allows s addr || matches p addr)
unfolding match_set
allows-concat [] p addr = ground arith
allows-concat (q ∷ s) p addr = ground (arith, allows-concat s p addr)

or_assoc : (a b c : Bool) → ((a || b) || c) ≡ (a || (b || c))
or_assoc a b c = ground arith

module _ (u : Idna) where
  -- One text of an allow-list taken by itself: it parses, and the pattern matches.
  abbrev pub grants : Address → Text → Bool
  grants addr item = elim (parse u item) [ ok p ↦ matches p addr | err _ ↦ false ]

  grants-parsed :
      (addr : Address) (item : Text) {p : Pattern}
      → parse u item ≡ ok p
      → grants addr item ≡ matches p addr
  grants-parsed addr item h = rw (h, grants)

  abbrev pub grants_any : Address → List Text → Bool
  grants_any addr [] = false
  grants_any addr (item ∷ raw) = grants addr item || grants_any addr raw

  -- A pattern is the only one with its canonical text.
  abbrev IsCanonical : Patterns → Type 0
  IsCanonical [] = Unit
  IsCanonical (p ∷ ps) = (parse u p.normalized ≡ ok p) × IsCanonical ps

  IsCanonical-concat :
      (s : Patterns) (p : Pattern)
      → IsCanonical s
      → parse u p.normalized ≡ ok p
      → IsCanonical (s ++ p ∷ [])
  IsCanonical-concat [] p c h = (h, tt)
  IsCanonical-concat (q ∷ s) p c h = (c.0, IsCanonical-concat s p c.1 h)

  same_text→same_pattern :
      (p q : Pattern)
      → parse u p.normalized ≡ ok p
      → parse u q.normalized ≡ ok q
      → q.normalized ≡ p.normalized
      → q ≡ p
  same_text→same_pattern p q hp hq e = cc (sym hp ∙ ap (parse u) (sym e) ∙ hq)

  seen→allows :
      (s : Patterns) (p : Pattern) (addr : Address)
      → IsCanonical s
      → parse u p.normalized ≡ ok p
      → seen p.normalized s ≡ true
      → (allows s addr || matches p addr) ≡ allows s addr
  unfolding seen match_set
  seen→allows (q ∷ s) p addr c hp h = elim (Bool-cases (equal q.normalized p.normalized)) [
    | inl same ↦
        let e : q ≡ p = same_text→same_pattern p q hp c.0 ((equal_iff _ _).0 same) in
        rw e (ground arith)
    | inr other ↦ ground (arith, seen→allows s p addr c.1 hp)
  ]
  seen→allows [] p addr c hp h = cc

  abbrev keep : Pattern → Patterns → Patterns
  keep p kept = if seen p.normalized kept then kept else kept ++ p ∷ []

  keep-allows :
      (kept : Patterns) (p : Pattern) (addr : Address)
      → IsCanonical kept
      → parse u p.normalized ≡ ok p
      → allows (keep p kept) addr ≡ (allows kept addr || matches p addr)
  keep-allows kept p addr c hp = elim (Bool-cases (seen p.normalized kept)) [
    | inl dup ↦ rw dup (sym (seen→allows kept p addr c hp dup))
    | inr fresh ↦ rw fresh (allows-concat kept p addr)
  ]

  keep-IsCanonical :
      (kept : Patterns) (p : Pattern)
      → IsCanonical kept
      → parse u p.normalized ≡ ok p
      → IsCanonical (keep p kept)
  keep-IsCanonical kept p c hp = elim (Bool-cases (seen p.normalized kept)) [
    | inl dup ↦ rw dup c
    | inr fresh ↦ rw fresh (IsCanonical-concat kept p c hp)
  ]

  new_set_onto-allows :
      (kept : Patterns) (raw : List Text) (addr : Address) {s : Patterns}
      → IsStable u
      → IsCanonical kept
      → new_set_onto u kept raw ≡ ok s
      → allows s addr ≡ (allows kept addr || grants_any addr raw)
  unfolding new_set_onto
  new_set_onto-allows kept [] addr st c h = ground arith
  new_set_onto-allows kept (item ∷ raw) addr {s} st c h =
      let (p, parsed, onward) = bind-eq-ok (parse u item) _ h in
      let canonical = parse-normalized u item st parsed in
      let later =
        new_set_onto-allows (keep p kept) raw addr st (keep-IsCanonical kept p c canonical)
          onward in
      later
      ∙ ap (λ b. b || grants_any addr raw) (keep-allows kept p addr c canonical)
      ∙ or_assoc (allows kept addr) (matches p addr) (grants_any addr raw)
      ∙ ap (λ b. allows kept addr || (b || grants_any addr raw))
          (sym (grants-parsed addr item parsed))

  -- The set that `NewSet` builds allows an address exactly if one of the texts, by itself, parses
  -- to a pattern that matches it: dropping the texts with the same canonical form loses nothing.
  -- The domain mapping is assumed to map its results to themselves.
  pub new_set-allows :
      (raw : List Text) (addr : Address) {s : Patterns}
      → IsStable u
      → new_set u raw ≡ ok s
      → allows s addr ≡ grants_any addr raw
  unfolding match_set
  new_set-allows raw addr st h = new_set_onto-allows [] raw addr st tt h

  -- A set is built only if every text parses.
  pub new_set_onto-parse :
      (kept : Patterns) (raw : List Text) {s : Patterns}
      → new_set_onto u kept raw ≡ ok s
      → All (λ item. (p : Pattern) × (parse u item ≡ ok p)) raw
  unfolding new_set_onto
  new_set_onto-parse kept [] h = tt
  new_set_onto-parse kept (item ∷ raw) h =
      let (p, parsed, onward) = bind-eq-ok (parse u item) _ h in
      ((p, parsed), new_set_onto-parse (keep p kept) raw onward)
