-- ===== src/FromPattern/Matching.antt =====
-- internal/frompattern/frompattern.go: `Pattern.Matches` and `Set`.
use relais.Base.{
  ◌+◌, Bool, false, not, ◌&&◌, ◌||◌, List, [], ◌∷◌, ◌++◌, Option, none, some, ltb, if◌then◌else◌,
  is_some, equal, Result, ok, ◌>>=◌,
}
use relais.Text.{Text, len}
use relais.FromPattern.Normalize.{Error, Idna, dot}
use relais.FromPattern.Parse.{Address, address_is_zero, Pattern, pattern_is_zero, parse}

-- `strings.HasSuffix(s, t)`
unfoldable pub has_suffix : Text → Text → Bool
has_suffix [] t = equal [] t
has_suffix (x ∷ s) t = equal (x ∷ s) t || has_suffix s t

-- `Pattern.Matches`
unfoldable pub matches : Pattern → Address → Bool
matches p addr =
    if pattern_is_zero p || address_is_zero addr
    then false
    else if not p.local_any && not (equal p.local addr.local)
    then false
    else if p.subdomain_any
    then ltb (len p.domain + 1) (len addr.domain) && has_suffix addr.domain (dot ∷ p.domain)
    else equal addr.domain p.domain

abbrev pub Patterns : Type 0
Patterns = List Pattern

-- the map `seen` of `NewSet`: the canonical texts of the patterns kept so far
unfoldable pub seen : Text → Patterns → Bool
seen t [] = false
seen t (p ∷ ps) = equal p.normalized t || seen t ps

module _ (u : Idna) where
  -- the loop of `NewSet`
  unfoldable pub new_set_onto : Patterns → List Text → Result Error Patterns
  new_set_onto kept [] = ok kept
  new_set_onto kept (item ∷ raw) = do
    p ← parse u item
    new_set_onto (if seen p.normalized kept then kept else kept ++ p ∷ []) raw

  -- `NewSet`
  abbrev pub new_set : List Text → Result Error Patterns
  new_set = new_set_onto []

-- `Set.Match`
unfoldable pub match_set : Patterns → Address → Option Pattern
match_set [] addr = none
match_set (p ∷ ps) addr = if matches p addr then some p else match_set ps addr

-- `Set.Allows`
abbrev pub allows : Patterns → Address → Bool
allows s addr = is_some (match_set s addr)
