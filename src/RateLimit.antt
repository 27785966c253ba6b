-- ===== src/RateLimit.antt =====
-- internal/ratelimit/ratelimit.go: one token bucket for each key, in a map of bounded size.
-- A map is a list of its entries in the order in which `range` visits them: every list is some
-- order, so what is proved holds whatever order Go takes. A time is a number of nanoseconds.
pub mod Bound
pub mod Isolation
use relais.Base.{
  ℕ, ◌+◌, Bool, true, false, not, ◌&&◌, ◌||◌, List, [], ◌∷◌, Option, none, some, ltb, if◌then◌else◌,
  equal, length, is_empty,
}
use relais.Base.Int.{ℤ, is_positive, int_eq, or_default}
use relais.Text.{Text}

-- `golang.org/x/time/rate` and `float64`: the type of a rate, its comparisons, and a limiter.
pub record Rates (Float Tokens : Type 0) : Type 0 where
  pub le_zero : Float → Bool
  pub same : Float → Float → Bool
  pub new_tokens : Float → ℤ → Tokens
  pub allow_n : Tokens → ℕ → Bool × Tokens

-- `bucket`
pub record Bucket (Float Tokens : Type 0) : Type 0 where
  pub tokens : Tokens
  pub last_seen : ℕ
  pub rps : Float
  pub burst : ℤ

pub record Limiter (Float Tokens : Type 0) : Type 0 where
  pub max_entries : ℕ
  pub idle_ttl : ℕ
  pub buckets : List (Text × Bucket Float Tokens)

-- an hour, in nanoseconds
abbrev pub hour : ℕ
hour = 3_600_000_000_000

-- `New`
unfoldable pub new_limiter : {Float Tokens : Type 0} → ℤ → ℤ → Limiter Float Tokens
new_limiter max ttl = record {
  max_entries = or_default max 10000;
  idle_ttl = or_default ttl hour;
  buckets = [];
}

module _ {V : Type 0} where
  -- `m[key]`
  unfoldable pub get : Text → List (Text × V) → Option V
  get key [] = none
  get key ((j, v) ∷ m) = if equal j key then some v else get key m

  -- `m[key] = v`
  unfoldable pub put : Text → V → List (Text × V) → List (Text × V)
  put key v [] = (key, v) ∷ []
  put key v ((j, w) ∷ m) = if equal j key then (j, v) ∷ m else (j, w) ∷ put key v m

  -- `delete(m, key)`
  unfoldable pub delete : Text → List (Text × V) → List (Text × V)
  delete key [] = []
  delete key ((j, w) ∷ m) = let rest = delete key m in if equal j key then rest else (j, w) ∷ rest

abbrev pub Buckets : Type 0 → Type 0 → Type 0
Buckets Float Tokens = List (Text × Bucket Float Tokens)

module _ {Float Tokens : Type 0} where
  -- the first loop of `evictLocked`: `now.Sub(entry.lastSeen) > l.idleTTL` deletes
  unfoldable pub drop_idle : ℕ → ℕ → Buckets Float Tokens → Buckets Float Tokens
  drop_idle ttl now [] = []
  drop_idle ttl now ((key, entry) ∷ m) =
      let rest = drop_idle ttl now m in
      if ltb (entry.last_seen + ttl) now then rest else (key, entry) ∷ rest

  -- the second loop: the key seen least recently so far, and when
  unfoldable pub oldest_onto : Text → ℕ → Buckets Float Tokens → Text
  oldest_onto oldest_key oldest [] = oldest_key
  oldest_onto oldest_key oldest ((key, entry) ∷ m) =
      let older = is_empty oldest_key || ltb entry.last_seen oldest in
      oldest_onto (if older then key else oldest_key) (if older then entry.last_seen else oldest) m

  unfoldable pub drop_oldest : Buckets Float Tokens → Buckets Float Tokens
  drop_oldest m = let key = oldest_onto [] 0 m in if is_empty key then m else delete key m

  -- `evictLocked`
  unfoldable pub evict : Limiter Float Tokens → ℕ → Buckets Float Tokens
  evict l now =
      let kept = drop_idle l.idle_ttl now l.buckets in
      if ltb (length l.buckets) l.max_entries
      then l.buckets
      else if ltb (length kept) l.max_entries
      then kept
      else drop_oldest kept

  module _ (r : Rates Float Tokens) where
    abbrev pub fresh : Float → ℤ → ℕ → Bucket Float Tokens
    fresh rps burst now = record {
      tokens = r.new_tokens rps burst;
      last_seen = now;
      rps = rps;
      burst = burst;
    }

    -- the `switch` of `Allow`: the entry that is asked, and the other entries
    unfoldable pub choose :
        Limiter Float Tokens → Text → Float → ℤ → ℕ → Bucket Float Tokens × Buckets Float Tokens
    choose l key rps burst now = elim (get key l.buckets) [
      | none ↦ (fresh rps burst now, evict l now)
      | some entry ↦
          if r.same entry.rps rps && int_eq entry.burst burst
          then (record entry { last_seen = now }, l.buckets)
          else (fresh rps burst now, l.buckets)
    ]

    -- `entry.limiter.AllowN(now, 1)`, which spends the tokens of the entry in the map
    unfoldable pub ask :
        Limiter Float Tokens
        → Text
        → ℕ
        → Bucket Float Tokens × Buckets Float Tokens
        → Bool × Limiter Float Tokens
    ask l key now (entry, others) =
        let (allowed, tokens) = r.allow_n entry.tokens now in
        (allowed, record l { buckets = put key (record entry { tokens = tokens }) others })

    -- `Allow`
    unfoldable pub allow : Limiter Float Tokens → Text → Float → ℤ → ℕ → Bool × Limiter Float Tokens
    allow l key rps burst now =
        if r.le_zero rps || not (is_positive burst)
        then (false, l)
        else ask l key now (choose l key rps burst now)
