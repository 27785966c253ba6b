-- ===== src/Text/Cut.antt =====
-- Cutting at a character, and the characters of the pieces.
use relais.Base.{
  ℕ, ◌≡◌, refl, Bool, true, false, ◌&&◌, [], ◌∷◌, ◌++◌, none, some, arith, all, all-append,
}
use relais.Text.{Text, cut_last, split_onto, contains}

cut_last-none : (c : ℕ) (s : Text) → contains c s ≡ false → cut_last c s ≡ none
unfolding cut_last
cut_last-none c [] h = refl
cut_last-none c (x ∷ s) h = ground (arith, cut_last-none c s)

-- A text is cut at the last occurrence, so the part behind it is free of the character.
pub cut_last-append :
    (c : ℕ) (s t : Text) → contains c t ≡ false → cut_last c (s ++ c ∷ t) ≡ some (s, t)
unfolding cut_last
cut_last-append c [] t h = rw (cut_last-none c t h) (ground arith)
cut_last-append c (x ∷ s) t h = rw (cut_last-append c s t h)

-- A test that holds of the separator and of every piece holds of the whole text.
pub split_onto-all :
    (p : ℕ → Bool) (c : ℕ) (piece s : Text)
    → p c ≡ true
    → all (λ l. all p l) (split_onto c piece s) ≡ true
    → (all p piece && all p s) ≡ true
unfolding split_onto
split_onto-all p c piece [] hc h = ground arith
split_onto-all p c piece (x ∷ s) hc h = ground (
  arith,
  split_onto-all p c [] s hc,
  split_onto-all p c (piece ++ x ∷ []) s hc,
  all-append p piece (x ∷ []),
)
