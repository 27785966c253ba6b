-- ===== src/Sender/Decimal.antt =====
-- The fuel of `digits_onto`.
use relais.Base.{ℕ, zero, suc, ◌+◌, ◌<◌, ◌≡◌, refl, ◌∷◌, arith, ltb, Bool-cases, inl, inr}
use Prim.Native.Nat.{◌/◌, ◌%◌}
use relais.Text.{Text}
use relais.Sender.{digits_onto}

-- Any fuel above the number gives the same digits.
pub digits_onto-fuel :
    (f g n : ℕ) (text : Text) → n < f → n < g → digits_onto f n text ≡ digits_onto g n text
unfolding digits_onto
digits_onto-fuel (suc f) (suc g) n text hf hg = elim (Bool-cases (ltb n 10)) [
  | inl last ↦ rw last refl
  | inr more ↦
      let smaller : n / 10 < n = ground (arith, more) in
      rw more (
        digits_onto-fuel f g (n / 10) ((b'0' + n % 10) ∷ text) (omega (arith, smaller))
          (omega (arith, smaller)))
]
digits_onto-fuel zero g n text hf hg = ground arith
digits_onto-fuel (suc f) zero n text hf hg = ground arith
