-- ===== src/Text.antt =====
-- Go's `strings` functions that the program calls, on a text as the list of its code points.
-- `len` counts the bytes of the UTF-8 encoding.
pub mod Trim
pub mod Cut
use Prim.Native.Char.{code}
use Prim.Native.String.{String}
use relais.Base.{
  ℕ, ◌+◌, ◌-◌, ◌≡◌, refl, Bool, true, false, ◌&&◌, ◌||◌, List, [], ◌∷◌, ◌++◌, map, Option, none,
  some, arith, ltb, leb, ◌==◌, if◌then◌else◌, any, all, is_empty, length, is_some,
}

abbrev pub Text : Type 0
Text = List ℕ

-- The code points of a literal.
abbrev pub codes : String → Text
codes String.[] = []
codes (String.◌∷◌ c s) = code c ∷ codes s

abbrev pub within : ℕ → ℕ → ℕ → Bool
within lo hi c = leb lo c && leb c hi

-- The bytes of one code point in UTF-8.
unfoldable pub rune_len : ℕ → ℕ
rune_len c = if ltb c 0x80 then 1 else if ltb c 0x800 then 2 else if ltb c 0x10000 then 3 else 4

-- `len(s)`
unfoldable pub len : Text → ℕ
len [] = 0
len (c ∷ s) = rune_len c + len s

-- `unicode.IsSpace`
unfoldable pub is_space : ℕ → Bool
is_space c =
    within 9 13 c
    || c == 32
    || c == 0x85
    || c == 0xa0
    || c == 0x1680
    || within 0x2000 0x200a c
    || c == 0x2028
    || c == 0x2029
    || c == 0x202f
    || c == 0x205f
    || c == 0x3000

unfoldable pub trim_left : Text → Text
trim_left [] = []
trim_left (c ∷ s) = if is_space c then trim_left s else c ∷ s

unfoldable pub trim_right : Text → Text
trim_right [] = []
trim_right (c ∷ s) = let rest = trim_right s in if is_empty rest && is_space c then [] else c ∷ rest

-- `strings.TrimSpace`
unfoldable pub trim_space : Text → Text
trim_space s = trim_right (trim_left s)

-- `strings.Contains(s, c)` and `strings.ContainsRune`, for one character
abbrev pub contains : ℕ → Text → Bool
contains c = any (λ x. x == c)

-- `strings.ContainsAny(s, chars)`
abbrev pub contains_any : Text → Text → Bool
contains_any chars = any (λ x. contains x chars)

-- `strings.CutPrefix`
unfoldable pub cut_prefix : Text → Text → Option Text
cut_prefix [] s = some s
cut_prefix (p ∷ ps) [] = none
cut_prefix (p ∷ ps) (c ∷ s) = if p == c then cut_prefix ps s else none

-- `strings.HasPrefix`
abbrev pub has_prefix : Text → Text → Bool
has_prefix p s = is_some (cut_prefix p s)

-- `strings.HasSuffix(s, c)`, for one character
abbrev pub ends_in : ℕ → Text → Bool
ends_in c [] = false
ends_in c (x ∷ []) = x == c
ends_in c (x ∷ y ∷ s) = ends_in c (y ∷ s)

-- `strings.TrimSuffix(s, c)`, for one character
unfoldable pub trim_suffix : ℕ → Text → Text
trim_suffix c [] = []
trim_suffix c (x ∷ []) = if x == c then [] else x ∷ []
trim_suffix c (x ∷ y ∷ s) = x ∷ trim_suffix c (y ∷ s)

-- `strings.LastIndex(s, c)`, for one character: the text before and behind its last occurrence.
unfoldable pub cut_last : ℕ → Text → Option (Text × Text)
cut_last c [] = none
cut_last c (x ∷ s) =
    let rest = cut_last c s in
    elim rest [
      | some (before, behind) ↦ some (x ∷ before, behind)
      | none ↦ if x == c then some ([], s) else none
    ]

-- `strings.Split(s, c)`, for one character. The pieces are never none at all.
unfoldable pub split_onto : ℕ → Text → Text → List Text
split_onto c piece [] = piece ∷ []
split_onto c piece (x ∷ s) =
    let here = piece ∷ split_onto c [] s in
    let on = split_onto c (piece ++ x ∷ []) s in if x == c then here else on

abbrev pub split : ℕ → Text → List Text
split c = split_onto c []

-- `strings.ToLower`. `fold` stands for `unicode.ToLower` beyond ASCII.
unfoldable pub lower_rune : (ℕ → ℕ) → ℕ → ℕ
lower_rune fold c = if ltb c 0x80 then (if within b'A' b'Z' c then c + 32 else c) else fold c

abbrev pub to_lower : (ℕ → ℕ) → Text → Text
to_lower fold = map (lower_rune fold)

-- `strings.ToUpper`. `fold` stands for `unicode.ToUpper` beyond ASCII.
abbrev pub to_upper : (ℕ → ℕ) → Text → Text
to_upper fold = map (λ c. if ltb c 0x80 then (if within b'a' b'z' c then c - 32 else c) else fold c)
