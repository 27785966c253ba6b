-- ===== src/FromPattern/Canonical.antt =====
-- The form of a normalized local part.
use relais.Base.{
  ℕ, ◌+◌, ◌≤◌, ◌<◌, ◌≡◌, refl, ap₂, Bool, true, false, not, ◌&&◌, [], ◌∷◌, map, arith, ◌==◌,
  if◌then◌else◌, all, all_weaken, is_empty, ◌∙◌, ok,
}
use relais.Text.{
  Text, within, len, rune_len, is_space, trim_space, contains, ends_in, lower_rune, to_lower,
}
use relais.Text.Trim.{trim_space-id, contains-trim_space}
use relais.FromPattern.Normalize.{
  Sentinel, Idna, normalize_local, is_allowed_local_rune, quoted, misplaced_dot, has_double_dot,
}

-- Allowed, and not a capital.
abbrev pub is_local_rune : ℕ → Bool
is_local_rune c = is_allowed_local_rune c && not (within b'A' b'Z' c)

pub record IsLocal (l : Text) : Type 0 where
  pub nonempty : is_empty l ≡ false
  pub short : len l ≤ 64
  pub unquoted : quoted l ≡ false
  pub dots : misplaced_dot l ≡ false
  pub runes : all is_local_rune l ≡ true

pub is_allowed_local_rune_range : (c : ℕ) → is_allowed_local_rune c ≡ true → (33 ≤ c) × (c < 127)
unfolding is_allowed_local_rune
is_allowed_local_rune_range c h = ground arith

pub is_allowed_local_rune_ne :
    (c : ℕ)
    → is_allowed_local_rune c ≡ true
    → ((c == 60) ≡ false) × ((c == 62) ≡ false) × ((c == 64) ≡ false)
unfolding is_allowed_local_rune
is_allowed_local_rune_ne c h = ground arith

abbrev lowered : ℕ → ℕ
lowered c = if within b'A' b'Z' c then c + 32 else c

is_local_rune-lowered : (c : ℕ) → is_allowed_local_rune c ≡ true → is_local_rune (lowered c) ≡ true
unfolding is_allowed_local_rune
is_local_rune-lowered c h = ground arith

is_space-allowed : (c : ℕ) → is_allowed_local_rune c ≡ true → not (is_space c) ≡ true
unfolding is_space
is_space-allowed c h = ground (arith, is_allowed_local_rune_range c h)

lower_rune-allowed :
    (fold : ℕ → ℕ) (c : ℕ) → is_allowed_local_rune c ≡ true → lower_rune fold c ≡ lowered c
unfolding lower_rune
lower_rune-allowed fold c h = ground (arith, is_allowed_local_rune_range c h)

to_lower-allowed :
    (fold : ℕ → ℕ) (s : Text) → all is_allowed_local_rune s ≡ true → to_lower fold s ≡ map lowered s
to_lower-allowed fold [] h = refl
to_lower-allowed fold (c ∷ s) h =
    ap₂ ◌∷◌ (lower_rune-allowed fold c (ground arith)) (to_lower-allowed fold s (ground arith))

runes-lowered :
    (s : Text) → all is_allowed_local_rune s ≡ true → all is_local_rune (map lowered s) ≡ true
runes-lowered [] h = refl
runes-lowered (c ∷ s) h = ground (arith, is_local_rune-lowered c, runes-lowered s)

rune_len-lowered : (c : ℕ) → is_allowed_local_rune c ≡ true → rune_len (lowered c) ≡ rune_len c
unfolding rune_len
rune_len-lowered c h = ground (arith, is_allowed_local_rune_range c h)

len-lowered : (s : Text) → all is_allowed_local_rune s ≡ true → len (map lowered s) ≡ len s
unfolding len
len-lowered [] h = refl
len-lowered (c ∷ s) h = ground (arith, rune_len-lowered c, len-lowered s)

ends_in-lowered : (k : ℕ) → k < 65 → (s : Text) → ends_in k (map lowered s) ≡ ends_in k s
ends_in-lowered k h [] = refl
ends_in-lowered k h (c ∷ []) = ground arith
ends_in-lowered k h (c ∷ d ∷ s) = ends_in-lowered k h (d ∷ s)

has_double_dot-lowered : (s : Text) → has_double_dot (map lowered s) ≡ has_double_dot s
has_double_dot-lowered [] = refl
has_double_dot-lowered (c ∷ []) = refl
has_double_dot-lowered (c ∷ d ∷ s) = rw (has_double_dot-lowered (d ∷ s)) (ground arith)

quoted-lowered : (s : Text) → quoted (map lowered s) ≡ quoted s
unfolding quoted
quoted-lowered [] = refl
quoted-lowered (c ∷ s) = rw (ends_in-lowered b'"' (omega arith) (c ∷ s)) (ground arith)

misplaced_dot-lowered : (s : Text) → misplaced_dot (map lowered s) ≡ misplaced_dot s
unfolding misplaced_dot
misplaced_dot-lowered [] = refl
misplaced_dot-lowered (c ∷ s) =
    rw (ends_in-lowered b'.' (omega arith) (c ∷ s), has_double_dot-lowered (c ∷ s)) (ground arith)

contains-lowered : (k : ℕ) → k < 65 → (s : Text) → contains k (map lowered s) ≡ contains k s
contains-lowered k h [] = refl
contains-lowered k h (c ∷ s) = rw (contains-lowered k h s) (ground arith)

-- The five checks of `normalizeLocal` that a normalized local part has passed.
IsLocal-lowered :
    (s : Text)
    → is_empty s ≡ false
    → len s ≤ 64
    → quoted s ≡ false
    → misplaced_dot s ≡ false
    → all is_allowed_local_rune s ≡ true
    → IsLocal (map lowered s)
IsLocal-lowered [] e h q d r = cc
IsLocal-lowered (c ∷ s) e h q d r = record {
  nonempty = refl;
  short = omega (arith, len-lowered (c ∷ s) r);
  unquoted = quoted-lowered (c ∷ s) ∙ q;
  dots = misplaced_dot-lowered (c ∷ s) ∙ d;
  runes = runes-lowered (c ∷ s) r;
}

-- Every local part that `normalizeLocal` returns has passed its checks, in lower case.
pub normalize_local-IsLocal :
    (u : Idna) (raw : Text) (k : Sentinel) {l : Text} → normalize_local u raw k ≡ ok l → IsLocal l
unfolding normalize_local
normalize_local-IsLocal u raw k {l} h =
    rw (← result)
      (IsLocal-lowered s (ground arith) (ground arith) (ground arith) (ground arith) runes)
  where
    s : Text
    s = trim_space raw

    runes : all is_allowed_local_rune (trim_space raw) ≡ true
    runes = ground arith

    result : map lowered (trim_space raw) ≡ l
    result = ground (arith, to_lower-allowed u.fold (trim_space raw) runes)

to_lower-id : (fold : ℕ → ℕ) (s : Text) → all is_local_rune s ≡ true → to_lower fold s ≡ s
to_lower-id fold [] h = refl
to_lower-id fold (c ∷ s) h =
    ap₂ ◌∷◌ (lower_rune-allowed fold c (ground arith) ∙ ground arith)
      (to_lower-id fold s (ground arith))

is_local_rune→is_allowed : (c : ℕ) → is_local_rune c ≡ true → is_allowed_local_rune c ≡ true
is_local_rune→is_allowed c h = ground arith

pub IsLocal-allowed : (l : Text) → IsLocal l → all is_allowed_local_rune l ≡ true
IsLocal-allowed l v = all_weaken _ _ l is_local_rune→is_allowed v.runes

-- Such a local part is left as it is, whichever sentinel the errors carry.
pub normalize_local-id :
    (u : Idna) (l : Text) (k : Sentinel) → IsLocal l → normalize_local u l k ≡ ok l
unfolding normalize_local
normalize_local-id u l k v = rw trimmed (
    ground (
      arith,
      v.nonempty,
      v.unquoted,
      v.dots,
      IsLocal-allowed l v,
      to_lower-id u.fold l v.runes,
      v.short,
    ))
  where
    trimmed : trim_space l ≡ l
    trimmed = trim_space-id l (all_weaken _ _ l is_space-allowed (IsLocal-allowed l v))

-- No new star, dot or other character below the letters comes in.
pub normalize_local-contains :
    (u : Idna) (raw : Text) (j : Sentinel) (k : ℕ) {l : Text}
    → k < 65
    → contains k raw ≡ false
    → normalize_local u raw j ≡ ok l
    → contains k l ≡ false
unfolding normalize_local
normalize_local-contains u raw j k {l} hk absent h =
    rw (← result) (contains-lowered k hk (trim_space raw) ∙ contains-trim_space k raw absent)
  where
    runes : all is_allowed_local_rune (trim_space raw) ≡ true
    runes = ground arith

    result : map lowered (trim_space raw) ≡ l
    result = ground (arith, to_lower-allowed u.fold (trim_space raw) runes)
