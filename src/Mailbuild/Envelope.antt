-- ===== src/Mailbuild/Envelope.antt =====
-- The recipients of a message, merged: `dedupe`.
use relais.Base.{
  ◌≡◌, inl, inr, true, List, [], ◌∷◌, ◌++◌, arith, All, All-append, Bool-cases, equal_refl,
}
use relais.Base.Distinct.{listed, Distinct, added, added-kept, added-listed, added-Distinct}
use relais.Text.{Text}
use relais.Mailbuild.{dedupe_onto, dedupe}

dedupe_onto-kept :
    (u : Text) (out xs : List Text) → listed u out ≡ true → listed u (dedupe_onto out xs) ≡ true
unfolding dedupe_onto
dedupe_onto-kept u out [] h = h
dedupe_onto-kept u out (x ∷ xs) h = dedupe_onto-kept u (added x out) xs (added-kept x u out h)

dedupe_onto-listed : (out xs : List Text) → All (λ u. listed u (dedupe_onto out xs) ≡ true) xs
unfolding dedupe_onto
dedupe_onto-listed out [] = tt
dedupe_onto-listed out (x ∷ xs) =
    (dedupe_onto-kept x (added x out) xs (added-listed x out), dedupe_onto-listed (added x out) xs)

pub dedupe_onto-Distinct : (out xs : List Text) → Distinct out → Distinct (dedupe_onto out xs)
unfolding dedupe_onto
dedupe_onto-Distinct out [] d = d
dedupe_onto-Distinct out (x ∷ xs) d = dedupe_onto-Distinct (added x out) xs (added-Distinct x out d)

module _ {ℓ} (P : Text → Type ℓ) where
  added-All : (x : Text) (out : List Text) → P x → All P out → All P (added x out)
  added-All x out p ps = elim (Bool-cases (listed x out)) [
    | inl old ↦ rw old ps
    | inr new ↦ rw new (All-append P out (x ∷ []) ps (p, tt))
  ]

  pub dedupe_onto-All : (out xs : List Text) → All P out → All P xs → All P (dedupe_onto out xs)
  unfolding dedupe_onto
  dedupe_onto-All out [] h k = h
  dedupe_onto-All out (x ∷ xs) h k = dedupe_onto-All (added x out) xs (added-All x out k.0 h) k.1

pub All-map :
    {A : Type 0} {P Q : A → Type 0} (xs : List A) → ((a : A) → P a → Q a) → All P xs → All Q xs
All-map [] f h = tt
All-map (x ∷ xs) f h = (f x h.0, All-map xs f h.1)

pub listed-left : (u : Text) (xs ys : List Text) → listed u xs ≡ true → listed u (xs ++ ys) ≡ true
listed-left u [] ys h = cc
listed-left u (x ∷ xs) ys h = ground (arith, listed-left u xs ys)

pub listed-right : (u : Text) (xs ys : List Text) → listed u ys ≡ true → listed u (xs ++ ys) ≡ true
listed-right u [] ys h = h
listed-right u (x ∷ xs) ys h = ground (arith, listed-right u xs ys h)

pub listed_self : (xs : List Text) → All (λ u. listed u xs ≡ true) xs
listed_self [] = tt
listed_self (x ∷ xs) = (
  ground (arith, equal_refl x),
  All-map xs (λ u h. listed-right u (x ∷ []) xs h) (listed_self xs),
)

pub dedupe-listed :
    (to cc bcc : List Text) → All (λ u. listed u (dedupe to cc bcc) ≡ true) (to ++ (cc ++ bcc))
dedupe-listed to cc bcc =
    let one = dedupe_onto [] to in
    let two = dedupe_onto one cc in
    let keep = λ (u : Text) (h : listed u two ≡ true). dedupe_onto-kept u two bcc h in
    All-append _ to (cc ++ bcc)
      (All-map to (λ u h. keep u (dedupe_onto-kept u one cc h)) (dedupe_onto-listed [] to))
      (All-append _ cc bcc (All-map cc keep (dedupe_onto-listed one cc))
        (dedupe_onto-listed two bcc))
