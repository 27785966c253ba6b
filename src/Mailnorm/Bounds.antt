-- ===== src/Mailnorm/Bounds.antt =====
-- How much `ReadAll` takes from its reader.
use relais.Base.{
  ℕ, zero, suc, ◌≡◌, ◌≤◌, ◌<◌, ◌↔◌, ◌⊎◌, refl, ap, inl, inr, false, [], ◌∷◌, Option, none, some,
  arith, ltb, length, take, ok, Bool-cases, ◌>>=◌, ◌>>◌, refuse_if,
}
use relais.Crypto.Keyring.{Bytes}
use relais.Mailnorm.Parse.{Reader, ReadError, max_int64, one_more, all_read, read_all}

one_more_lem : (n : ℕ) → n < max_int64 → one_more n ≡ suc n
unfolding one_more
one_more_lem n small = ground arith

length-take_less : (n : ℕ) (s : Bytes) → n ≤ length s → length (take n s) ≡ n
length-take_less zero s h = refl
length-take_less (suc n) [] h = ground arith
length-take_less (suc n) (c ∷ s) h = omega (arith, length-take_less n s)

all_read-ok :
    {E : Type 0} (f : Option E) (b raw : Bytes) → (all_read f b ≡ ok raw) ↔ ((f ≡ none) × (b ≡ raw))
all_read-ok none b raw = ground arith
all_read-ok (some e) b raw = ground arith

-- The limit 0 is none.
abbrev pub IsRead : {E : Type 0} → Option E → Bytes → ℕ → Bytes → Type 0
IsRead f b limit raw = (b ≡ raw) × (f ≡ none) × ((limit ≡ 0) ⊎ (length raw ≤ limit))

short_iff :
    {E : Type 0} (f : Option E) (b : Bytes) (m : ℕ) (raw : Bytes) (e : ReadError E)
    → length b ≤ suc m
    → ((all_read f b >>= λ raw. refuse_if (ltb (suc m) (length raw)) e >> ok raw) ≡ ok raw)
      ↔ IsRead f b (suc m) raw
short_iff none b m raw e short = ground arith
short_iff (some x) b m raw e short = ground arith

long_iff :
    {E : Type 0} (f : Option E) (b : Bytes) (m : ℕ) (front raw : Bytes) (e : ReadError E)
    → suc (suc m) ≤ length b
    → length front ≡ suc (suc m)
    → ((refuse_if (ltb (suc m) (length front)) e >> ok front) ≡ ok raw) ↔ IsRead f b (suc m) raw
long_iff f b m front raw e long full =
    ((λ h. ground arith), (λ p. let same : length b ≡ length raw = ap length p.0 in ground arith))

-- With a limit below the largest int64, `ReadAll` gives bytes exactly if they are all that the
-- reader has, the reader does not fail, and there is no limit or they are within it.
pub read_all_iff :
    {E : Type 0} (r : Reader E) (limit : ℕ) (raw : Bytes)
    → limit < max_int64
    → (read_all r limit ≡ ok raw) ↔ IsRead r.failure r.content limit raw
unfolding read_all
read_all_iff r zero raw small = ground (arith, all_read-ok r.failure r.content raw)
read_all_iff r (suc m) raw small =
    let count : one_more (suc m) ≡ suc (suc m) = one_more_lem (suc m) small in
    rw (count, read_all)
      (elim (Bool-cases (ltb (length r.content) (suc (suc m)))) [
        | inl short ↦ rw short (short_iff r.failure r.content m raw _ (ground arith))
        | inr long ↦
            let full = length-take_less (suc (suc m)) r.content (ground arith) in
            rw long (long_iff r.failure r.content m _ raw _ (ground arith) full)
      ])

-- At the largest limit nothing is read, whatever there is.
pub read_all-wraps : {E : Type 0} (r : Reader E) → read_all r max_int64 ≡ ok []
unfolding read_all one_more
read_all-wraps r =
    let nothing : ltb (length r.content) 0 ≡ false = ground arith in rw (nothing, read_all) refl
