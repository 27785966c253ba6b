-- ===== src/RateLimit/Bound.antt =====
-- The number of keys that a limiter tracks.
use relais.Base.{
  ℕ, ◌+◌, ◌≤◌, ◌<◌, ◌≡◌, Bool, true, false, not, ◌||◌, List, [], ◌∷◌, arith, ltb, equal, equal_refl,
  length, is_empty, Bool-cases, Option-cases, inl, inr, ◌⊎◌, is_some,
}
use relais.Base.Int.{ℤ, is_positive}
use relais.Text.{Text}
use relais.RateLimit.{
  Rates, Bucket, Limiter, get, put, delete, Buckets, drop_idle, oldest_onto, drop_oldest, evict,
  choose, ask, allow,
}

module _ {V : Type 0} where
  length-put_le : (key : Text) (v : V) (m : List (Text × V)) → length (put key v m) ≤ length m + 1
  unfolding put
  length-put_le key v [] = omega arith
  length-put_le key v ((j, w) ∷ m) = ground (arith, length-put_le key v m)

  length-put_old :
      (key : Text) (v : V) (m : List (Text × V))
      → is_some (get key m) ≡ true
      → length (put key v m) ≡ length m
  unfolding put get
  length-put_old key v [] h = cc
  length-put_old key v ((j, w) ∷ m) h = ground (arith, length-put_old key v m)

  length-delete_le : (key : Text) (m : List (Text × V)) → length (delete key m) ≤ length m
  unfolding delete
  length-delete_le key [] = omega arith
  length-delete_le key ((j, w) ∷ m) = ground (arith, length-delete_le key m)

  -- The keys of the map, none of them the empty text.
  abbrev pub HasKeys : List (Text × V) → Type 0
  HasKeys [] = Unit
  HasKeys ((j, v) ∷ m) = (is_empty j ≡ false) × HasKeys m

  abbrev has_key : Text → List (Text × V) → Bool
  has_key key [] = false
  has_key key ((j, v) ∷ m) = equal j key || has_key key m

  length-delete_lt :
      (key : Text) (m : List (Text × V)) → has_key key m ≡ true → length (delete key m) < length m
  unfolding delete
  length-delete_lt key [] h = cc
  length-delete_lt key ((j, w) ∷ m) h =
      ground (arith, length-delete_lt key m, length-delete_le key m)

module _ {Float Tokens : Type 0} where
  length-drop_idle_le :
      (ttl now : ℕ) (m : Buckets Float Tokens) → length (drop_idle ttl now m) ≤ length m
  unfolding drop_idle
  length-drop_idle_le ttl now [] = omega arith
  length-drop_idle_le ttl now ((key, entry) ∷ m) = ground (arith, length-drop_idle_le ttl now m)

  drop_idle-HasKeys :
      (ttl now : ℕ) (m : Buckets Float Tokens) → HasKeys m → HasKeys (drop_idle ttl now m)
  unfolding drop_idle
  drop_idle-HasKeys ttl now [] h = tt
  drop_idle-HasKeys ttl now ((key, entry) ∷ m) h =
      elim (Bool-cases (ltb (entry.last_seen + ttl) now)) [
        | inl idle ↦ rw idle (drop_idle-HasKeys ttl now m h.1)
        | inr busy ↦ rw busy (h.0, drop_idle-HasKeys ttl now m h.1)
      ]

  -- The key chosen is the one so far, or one of the map's.
  oldest_onto-has_key :
      (key : Text) (at : ℕ) (m : Buckets Float Tokens)
      → HasKeys m
      → is_empty key ≡ false
      → (is_empty (oldest_onto key at m) ≡ false)
        × ((equal key (oldest_onto key at m) || has_key (oldest_onto key at m) m) ≡ true)
  unfolding oldest_onto
  oldest_onto-has_key key at [] h ne = (ne, rw (equal_refl key))
  oldest_onto-has_key key at ((j, entry) ∷ m) h ne = ground (
    arith,
    ne,
    oldest_onto-has_key j entry.last_seen m h.1 h.0,
    oldest_onto-has_key key at m h.1 ne,
  )

  length-drop_oldest_lt :
      (m : Buckets Float Tokens) → HasKeys m → 0 < length m → length (drop_oldest m) < length m
  unfolding drop_oldest oldest_onto
  length-drop_oldest_lt [] h pos = absurd (omega arith)
  length-drop_oldest_lt ((j, entry) ∷ m) h pos =
      let (ne, found) = oldest_onto-has_key j entry.last_seen m h.1 h.0 in
      ground (arith, ne, found, length-delete_lt (oldest_onto j entry.last_seen m) ((j, entry) ∷ m))

  -- What `New` sets up and `Allow` keeps: room for a key, no more keys than that, none of them empty.
  pub record IsBounded (l : Limiter Float Tokens) : Type 0 where
    pub room : 1 ≤ l.max_entries
    pub within : length l.buckets ≤ l.max_entries
    pub keys : HasKeys l.buckets

  length-evict_lt :
      (l : Limiter Float Tokens) (now : ℕ) → IsBounded l → length (evict l now) < l.max_entries
  unfolding evict
  length-evict_lt l now b = ground (
    arith,
    length-drop_idle_le l.idle_ttl now l.buckets,
    length-drop_oldest_lt (drop_idle l.idle_ttl now l.buckets)
        (drop_idle-HasKeys l.idle_ttl now l.buckets b.keys),
  )

module _ {V : Type 0} where
  delete-HasKeys : (key : Text) (m : List (Text × V)) → HasKeys m → HasKeys (delete key m)
  unfolding delete
  delete-HasKeys key [] h = tt
  delete-HasKeys key ((j, w) ∷ m) h = elim (Bool-cases (equal j key)) [
    | inl same ↦ rw same (delete-HasKeys key m h.1)
    | inr other ↦ rw other (h.0, delete-HasKeys key m h.1)
  ]

  put-HasKeys :
      (key : Text) (v : V) (m : List (Text × V))
      → is_empty key ≡ false
      → HasKeys m
      → HasKeys (put key v m)
  unfolding put
  put-HasKeys key v [] ne h = (ne, tt)
  put-HasKeys key v ((j, w) ∷ m) ne h = elim (Bool-cases (equal j key)) [
    | inl same ↦ rw same h
    | inr other ↦ rw other (h.0, put-HasKeys key v m ne h.1)
  ]

module _ {Float Tokens : Type 0} where
  drop_oldest-HasKeys : (m : Buckets Float Tokens) → HasKeys m → HasKeys (drop_oldest m)
  unfolding drop_oldest
  drop_oldest-HasKeys m h = elim (Bool-cases (is_empty (oldest_onto [] 0 m))) [
    | inl nothing ↦ rw nothing h
    | inr found ↦ rw found (delete-HasKeys (oldest_onto [] 0 m) m h)
  ]

  evict-HasKeys : (l : Limiter Float Tokens) (now : ℕ) → HasKeys l.buckets → HasKeys (evict l now)
  unfolding evict
  evict-HasKeys l now h = elim (Bool-cases (ltb (length l.buckets) l.max_entries)) [
    | inl room ↦ rw room h
    | inr full ↦
        elim (Bool-cases (ltb (length (drop_idle l.idle_ttl now l.buckets)) l.max_entries)) [
          | inl enough ↦ rw (full, enough) (drop_idle-HasKeys l.idle_ttl now l.buckets h)
          | inr crowded ↦
              rw (full, crowded)
                (drop_oldest-HasKeys _ (drop_idle-HasKeys l.idle_ttl now l.buckets h))
        ]
  ]

  module _ (r : Rates Float Tokens) where
    -- The entries that `Allow` writes into: all of them for a known key, else what eviction left.
    choose_others :
        (l : Limiter Float Tokens) (key : Text) (rps : Float) (burst : ℤ) (now : ℕ)
        → ((is_some (get key l.buckets) ≡ true) × ((choose r l key rps burst now).1 ≡ l.buckets))
          ⊎ ((choose r l key rps burst now).1 ≡ evict l now)
    unfolding choose
    choose_others l key rps burst now = elim (Option-cases (get key l.buckets)) [
      | inl unknown ↦ inr (ground arith)
      | inr (entry, known) ↦ inl (ground arith, ground arith)
    ]

    ask-IsBounded :
        (l : Limiter Float Tokens) (key : Text) (now : ℕ)
        (c : Bucket Float Tokens × Buckets Float Tokens)
        → is_empty key ≡ false
        → IsBounded l
        → ((is_some (get key l.buckets) ≡ true) × (c.1 ≡ l.buckets)) ⊎ (c.1 ≡ evict l now)
        → IsBounded (ask r l key now c).1
    unfolding ask
    ask-IsBounded l key now (entry, others) ne b (inl (known, same)) = record {
      room = b.room;
      within = rw same (omega (arith, length-put_old key _ l.buckets known, b.within));
      keys = rw same (put-HasKeys key _ l.buckets ne b.keys);
    }
    ask-IsBounded l key now (entry, others) ne b (inr evicted) = record {
      room = b.room;
      within =
          rw evicted (omega (arith, length-put_le key _ (evict l now), length-evict_lt l now b));
      keys = rw evicted (put-HasKeys key _ (evict l now) ne (evict-HasKeys l now b.keys));
    }

    -- `Allow`, on a key that is not empty, keeps the limiter within its bound and without empty
    -- keys, whatever rate is asked for.
    pub allow-IsBounded :
        (l : Limiter Float Tokens) (key : Text) (rps : Float) (burst : ℤ) (now : ℕ)
        → is_empty key ≡ false
        → IsBounded l
        → IsBounded (allow r l key rps burst now).1
    unfolding allow
    allow-IsBounded l key rps burst now ne b =
        elim (Bool-cases (r.le_zero rps || not (is_positive burst))) [
          | inl refused ↦ rw refused b
          | inr asked ↦ rw asked (
              ask-IsBounded l key now (choose r l key rps burst now) ne b
                (choose_others l key rps burst now))
        ]
