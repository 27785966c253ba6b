-- ===== src/RateLimit/Isolation.antt =====
-- The bucket of one key among those of the others.
use relais.Base.{
  ℕ, zero, suc, ◌≤◌, ◌<◌, ◌≡◌, refl, ◌∙◌, true, false, ◌&&◌, List, [], ◌∷◌, Option, none, some,
  arith, if◌then◌else◌, equal, equal_iff, length, is_empty, Option-cases, inl, inr, ◌⊎◌, is_some,
  All,
}
use relais.Base.Int.{ℤ, pos, negsuc, is_positive, int_eq, or_default}
use relais.Text.{Text}
use relais.RateLimit.{
  Rates, Bucket, Limiter, get, put, evict, fresh, choose, ask, allow, new_limiter,
}
use relais.RateLimit.Bound.{IsBounded, allow-IsBounded}

module _ {V : Type 0} where
  get-put :
      (key j : Text) (v : V) (m : List (Text × V))
      → get j (put key v m) ≡ (if equal key j then some v else get j m)
  unfolding get put
  get-put key j v [] = refl
  get-put key j v ((i, w) ∷ m) =
      ground (arith, equal_iff key j, equal_iff i key, equal_iff i j, get-put key j v m)

module _ {Float Tokens : Type 0} (r : Rates Float Tokens) where
  -- The bucket that speaks for a key: its own, as long as its rate is the one asked for.
  abbrev pub own : Option (Bucket Float Tokens) → Float → ℤ → ℕ → Bucket Float Tokens
  own none rps burst now = fresh r rps burst now
  own (some entry) rps burst now =
      if r.same entry.rps rps && int_eq entry.burst burst
      then record entry { last_seen = now }
      else fresh r rps burst now

  choose-own :
      (l : Limiter Float Tokens) (key : Text) (rps : Float) (burst : ℤ) (now : ℕ)
      → (choose r l key rps burst now).0 ≡ own (get key l.buckets) rps burst now
  unfolding choose
  choose-own l key rps burst now = elim (Option-cases (get key l.buckets)) [
    | inl unknown ↦ rw (unknown, own) (ground (arith, unknown))
    | inr (entry, known) ↦ rw (known, own) (ground (arith, known))
  ]

  choose_others-kept :
      (l : Limiter Float Tokens) (key : Text) (rps : Float) (burst : ℤ) (now : ℕ)
      → (is_some (get key l.buckets) ≡ true) ⊎ (length l.buckets < l.max_entries)
      → (choose r l key rps burst now).1 ≡ l.buckets
  unfolding choose evict
  choose_others-kept l key rps burst now (inl known) = ground arith
  choose_others-kept l key rps burst now (inr room) = ground arith

  -- With a rate and a burst that are positive, a key that is known or for which there is room is
  -- answered by its own bucket: the old one, or a fresh one if the key is new or its rate or burst
  -- was changed. The bucket is kept with the tokens it has left, and every other key keeps its
  -- bucket as it was.
  pub allow-own :
      (l : Limiter Float Tokens) (key j : Text) (rps : Float) (burst : ℤ) (now : ℕ)
      → r.le_zero rps ≡ false
      → is_positive burst ≡ true
      → (is_some (get key l.buckets) ≡ true) ⊎ (length l.buckets < l.max_entries)
      → let mine = own (get key l.buckets) rps burst now in
        let answer = r.allow_n mine.tokens now in
        ((allow r l key rps burst now).0 ≡ answer.0)
        × (get j (allow r l key rps burst now).1.buckets
            ≡ (if equal key j then some (record mine { tokens = answer.1 }) else get j l.buckets))
  unfolding allow ask
  allow-own l key j rps burst now pos_rps pos_burst known =
      rw
        (
          pos_rps,
          pos_burst,
          choose-own l key rps burst now,
          choose_others-kept l key rps burst now known,
        )
        (refl, get-put key j _ l.buckets)

  -- One call of `Allow`.
  pub record Call : Type 0 where
    pub key : Text
    pub rps : Float
    pub burst : ℤ
    pub now : ℕ

  -- The limiter after a sequence of calls, from whichever facades they come.
  abbrev pub allow_all : Limiter Float Tokens → List Call → Limiter Float Tokens
  allow_all l [] = l
  allow_all l (c ∷ calls) = allow_all (allow r l c.key c.rps c.burst c.now).1 calls

  allow_all-IsBounded :
      (l : Limiter Float Tokens) (calls : List Call)
      → All (λ (c : Call). is_empty c.key ≡ false) calls
      → IsBounded l
      → IsBounded (allow_all l calls)
  allow_all-IsBounded l [] ne b = b
  allow_all-IsBounded l (c ∷ calls) ne b =
      allow_all-IsBounded (allow r l c.key c.rps c.burst c.now).1 calls ne.1
        (allow-IsBounded r l c.key c.rps c.burst c.now ne.0 b)

  or_default-pos : (i : ℤ) (d : ℕ) → 1 ≤ d → 1 ≤ or_default i d
  or_default-pos (pos zero) d h = h
  or_default-pos (pos (suc n)) d h = omega arith
  or_default-pos (negsuc n) d h = h

  new_limiter-IsBounded :
      (max ttl : ℤ) → IsBounded (new_limiter {Float = Float} {Tokens = Tokens} max ttl)
  unfolding new_limiter
  new_limiter-IsBounded max ttl = record {
    room = or_default-pos max 10000 (omega arith);
    within = omega arith;
    keys = tt;
  }

  allow-max_entries :
      (l : Limiter Float Tokens) (key : Text) (rps : Float) (burst : ℤ) (now : ℕ)
      → (allow r l key rps burst now).1.max_entries ≡ l.max_entries
  unfolding allow ask
  allow-max_entries l key rps burst now = ground arith

  allow_all-max_entries :
      (l : Limiter Float Tokens) (calls : List Call)
      → (allow_all l calls).max_entries ≡ l.max_entries
  allow_all-max_entries l [] = refl
  allow_all-max_entries l (c ∷ calls) =
      allow_all-max_entries (allow r l c.key c.rps c.burst c.now).1 calls
      ∙ allow-max_entries l c.key c.rps c.burst c.now

  -- A limiter made by `New` never tracks more keys than its limit, after any calls with keys that
  -- are not empty.
  pub allow_all_bound :
      (max ttl : ℤ) (calls : List Call)
      → All (λ (c : Call). is_empty c.key ≡ false) calls
      → length (allow_all (new_limiter max ttl) calls).buckets ≤ or_default max 10000
  unfolding new_limiter
  allow_all_bound max ttl calls ne =
      let l = new_limiter {Float = Float} {Tokens = Tokens} max ttl in
      let b = allow_all-IsBounded l calls ne (new_limiter-IsBounded max ttl) in
      omega (arith, b.within, allow_all-max_entries l calls)
