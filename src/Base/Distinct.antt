-- ===== src/Base/Distinct.antt =====
-- Lists of texts without repetition.
use Prim.Native.Nat.{ℕ}
use mathlib.Core.Path.{◌≡◌, refl, ◌∙◌}
use mathlib.Core.Logic.{inl, inr}
use mathlib.Core.Bool.{Bool, true, false, ◌||◌}
use mathlib.Core.List.{List, [], ◌∷◌, ◌++◌}
use native.Mathlib.Omega.{arith}
use relais.Base.Tests.{if◌then◌else◌, Bool-cases}
use relais.Base.Lists.{any, equal, equal_iff, equal_refl}

abbrev pub listed : List ℕ → List (List ℕ) → Bool
listed t out = any (equal t) out

-- No text stands twice.
abbrev pub Distinct : List (List ℕ) → Type 0
Distinct [] = Unit
Distinct (t ∷ out) = (listed t out ≡ false) × Distinct out

pub listed-append :
    (t : List ℕ) (xs ys : List (List ℕ)) → listed t (xs ++ ys) ≡ (listed t xs || listed t ys)
listed-append t [] ys = refl
listed-append t (x ∷ xs) ys = ground (arith, listed-append t xs ys)

equal_sym : (s t : List ℕ) → equal s t ≡ false → equal t s ≡ false
equal_sym s t h = ground (arith, equal_iff s t, equal_iff t s)

pub Distinct-append :
    (t : List ℕ) (out : List (List ℕ))
    → listed t out ≡ false
    → Distinct out
    → Distinct (out ++ t ∷ [])
Distinct-append t [] new d = (refl, tt)
Distinct-append t (x ∷ out) new d =
    let apart : equal t x ≡ false = ground arith in
    let later : listed t out ≡ false = ground arith in
    (
      listed-append x out (t ∷ []) ∙ ground (arith, d.0, equal_sym t x apart),
      Distinct-append t out later d.1,
    )

-- one more recipient
abbrev pub added : List ℕ → List (List ℕ) → List (List ℕ)
added t out = if listed t out then out else out ++ t ∷ []

pub added-kept :
    (t u : List ℕ) (out : List (List ℕ)) → listed u out ≡ true → listed u (added t out) ≡ true
added-kept t u out h = ground (arith, listed-append u out (t ∷ []))

pub added-listed : (t : List ℕ) (out : List (List ℕ)) → listed t (added t out) ≡ true
added-listed t out = ground (arith, listed-append t out (t ∷ []), equal_refl t)

pub added-Distinct : (t : List ℕ) (out : List (List ℕ)) → Distinct out → Distinct (added t out)
added-Distinct t out d = elim (Bool-cases (listed t out)) [
  | inl old ↦ rw old d
  | inr new ↦ rw new (Distinct-append t out new d)
]
