-- ===== src/Text/Trim.antt =====
-- Trimming leaves alone a text with no space in it.
use relais.Base.{false, ℕ, ◌+◌, ◌≡◌, refl, ap, true, false, not, [], ◌∷◌, ◌++◌, arith, all}
use relais.Text.{
  contains, Text, len, is_space, trim_left, trim_right, trim_space, trim_suffix, ends_in,
}

pub trim_right-id : (s : Text) → all (λ c. not (is_space c)) s ≡ true → trim_right s ≡ s
unfolding trim_right
trim_right-id [] h = refl
trim_right-id (c ∷ s) h = ground (arith, trim_right-id s)

trim_left-id : (s : Text) → all (λ c. not (is_space c)) s ≡ true → trim_left s ≡ s
unfolding trim_left
trim_left-id [] h = refl
trim_left-id (c ∷ s) h = ground arith

pub trim_space-id : (s : Text) → all (λ c. not (is_space c)) s ≡ true → trim_space s ≡ s
unfolding trim_space
trim_space-id s h = rw (trim_left-id s h) (trim_right-id s h)

pub trim_suffix-id : (c : ℕ) (s : Text) → ends_in c s ≡ false → trim_suffix c s ≡ s
unfolding trim_suffix
trim_suffix-id c [] h = refl
trim_suffix-id c (x ∷ []) h = ground arith
trim_suffix-id c (x ∷ y ∷ s) h = ap (◌∷◌ x) (trim_suffix-id c (y ∷ s) h)

pub len-append : (s t : Text) → len (s ++ t) ≡ len s + len t
unfolding len
len-append [] t = omega arith
len-append (c ∷ s) t = omega (arith, len-append s t)

contains-trim_left : (k : ℕ) (s : Text) → contains k s ≡ false → contains k (trim_left s) ≡ false
unfolding trim_left
contains-trim_left k [] h = refl
contains-trim_left k (c ∷ s) h = ground (arith, contains-trim_left k s)

contains-trim_right : (k : ℕ) (s : Text) → contains k s ≡ false → contains k (trim_right s) ≡ false
unfolding trim_right
contains-trim_right k [] h = refl
contains-trim_right k (c ∷ s) h = ground (arith, contains-trim_right k s)

pub contains-trim_space :
    (k : ℕ) (s : Text) → contains k s ≡ false → contains k (trim_space s) ≡ false
unfolding trim_space
contains-trim_space k s h = contains-trim_right k (trim_left s) (contains-trim_left k s h)
