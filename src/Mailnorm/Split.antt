-- ===== src/Mailnorm/Split.antt =====
-- Where the header of a message ends.
use relais.Base.{
  ℕ, zero, suc, ◌+◌, ◌<◌, ◌≤◌, ◌≡◌, ◌≢◌, refl, sym, ◌∙◌, ap, inl, inr, true, false, [], ◌∷◌, ◌++◌,
  none, some, arith, leb, Bool-cases, Option-cases, length, take, drop,
}
use relais.Text.{cut_prefix, has_prefix, ends_in}
use relais.Crypto.Keyring.{Bytes}
use relais.Mailnorm.{index, two_crlf, two_lf, split_at, split_message}

cut_prefix-take :
    (sep s : Bytes) (m : ℕ) → has_prefix sep (take m s) ≡ true → has_prefix sep s ≡ true
unfolding cut_prefix
cut_prefix-take [] s m h = refl
cut_prefix-take (p ∷ ps) s zero h = cc
cut_prefix-take (p ∷ ps) [] (suc m) h = cc
cut_prefix-take (p ∷ ps) (c ∷ s) (suc m) h = ground (arith, cut_prefix-take ps s m)

has_prefix-length : (sep s : Bytes) → has_prefix sep s ≡ true → length sep ≤ length s
unfolding cut_prefix
has_prefix-length [] s h = omega arith
has_prefix-length (p ∷ ps) [] h = cc
has_prefix-length (p ∷ ps) (c ∷ s) h = ground (arith, has_prefix-length ps s)

length-take : (m : ℕ) (s : Bytes) → length (take m s) ≤ m
length-take zero s = omega arith
length-take (suc m) [] = omega arith
length-take (suc m) (c ∷ s) = omega (arith, length-take m s)

index-none_of_short : (sep s : Bytes) → length s < length sep → index sep s ≡ none
unfolding index
index-none_of_short sep [] h = ground arith
index-none_of_short sep (x ∷ s) h =
    ground (arith, index-none_of_short sep s, has_prefix-length sep (x ∷ s))

-- A text that stands nowhere in a message stands nowhere in the front of it.
index-take-none :
    (sep s : Bytes) (m : ℕ) → 0 < length sep → index sep s ≡ none → index sep (take m s) ≡ none
unfolding index
index-take-none sep s zero ne h = index-none_of_short sep [] ne
index-take-none sep [] (suc m) ne h = h
index-take-none sep (x ∷ s) (suc m) ne h =
    ground (arith, index-take-none sep s m, cut_prefix-take sep (x ∷ s) (suc m))

-- Nor does it where the front ends before the end of its first occurrence.
index-take-some :
    (sep s : Bytes) (m n : ℕ)
    → 0 < length sep
    → index sep s ≡ some n
    → m < n + length sep
    → index sep (take m s) ≡ none
unfolding index
index-take-some sep s zero n ne h lt = index-none_of_short sep [] ne
index-take-some sep [] (suc m) n ne h lt = ground arith
index-take-some sep (x ∷ s) (suc m) zero ne h lt =
    index-none_of_short sep (x ∷ take m s) (omega (arith, length-take m s))
index-take-some sep (x ∷ s) (suc m) (suc n) ne h lt =
    ground (arith, index-take-some sep s m n, cut_prefix-take sep (x ∷ s) (suc m))

abbrev pub NoSeparator : Bytes → Type 0
NoSeparator s = (index two_crlf s ≡ none) × (index two_lf s ≡ none)

abbrev crlf : Bytes
crlf = 13 ∷ 10 ∷ []

-- The first CR LF CR LF or LF LF of a message is cut, or there is none and the whole is the header,
-- which ends in an LF.
pub data Splits (raw : Bytes) : Bytes → Bytes → Type 0 where
  blank_crlf :
      (front body : Bytes)
      → raw ≡ (front ++ crlf) ++ 13 ∷ 10 ∷ body
      → NoSeparator (front ++ crlf)
      → Splits raw (front ++ crlf) body
  blank_lf :
      (front body : Bytes)
      → raw ≡ (front ++ 10 ∷ []) ++ 10 ∷ body
      → NoSeparator (front ++ 10 ∷ [])
      → Splits raw (front ++ 10 ∷ []) body
  no_blank : NoSeparator raw → ends_in 10 raw ≡ true → Splits raw raw []
  no_newline : NoSeparator raw → ends_in 10 raw ≡ false → Splits raw (raw ++ 10 ∷ []) []

index-zero : (sep s : Bytes) → index sep s ≡ some 0 → has_prefix sep s ≡ true
unfolding index cut_prefix
index-zero [] [] h = refl
index-zero (p ∷ ps) [] h = ground arith
index-zero sep (x ∷ s) h = ground arith

cut_prefix-some : (sep s : Bytes) → has_prefix sep s ≡ true → s ≡ sep ++ drop (length sep) s
unfolding cut_prefix
cut_prefix-some [] s h = refl
cut_prefix-some (p ∷ ps) [] h = cc
cut_prefix-some (p ∷ ps) (c ∷ s) h = ground (arith, cut_prefix-some ps s)

at_crlf_zero :
    (s : Bytes)
    → index two_crlf s ≡ some 0
    → (s ≡ take 2 s ++ 13 ∷ 10 ∷ drop 4 s) × (take 2 s ≡ crlf)
at_crlf_zero s h =
    let e : s ≡ two_crlf ++ drop 4 s = cut_prefix-some two_crlf s (index-zero two_crlf s h) in
    let front : take 2 s ≡ crlf = ap (take 2) e in
    (e ∙ ap (λ f. f ++ 13 ∷ 10 ∷ drop 4 s) (sym front), front)

at_lf_zero :
    (s : Bytes) → index two_lf s ≡ some 0 → (s ≡ take 1 s ++ 10 ∷ drop 2 s) × (take 1 s ≡ 10 ∷ [])
at_lf_zero s h =
    let e : s ≡ two_lf ++ drop 2 s = cut_prefix-some two_lf s (index-zero two_lf s h) in
    let front : take 1 s ≡ 10 ∷ [] = ap (take 1) e in
    (e ∙ ap (λ f. f ++ 10 ∷ drop 2 s) (sym front), front)

at_crlf_lem :
    (s : Bytes) (n : ℕ)
    → index two_crlf s ≡ some n
    → (s ≡ take (n + 2) s ++ 13 ∷ 10 ∷ drop (n + 4) s) × (take (n + 2) s ≡ take n s ++ crlf)
unfolding index cut_prefix
at_crlf_lem s zero h = at_crlf_zero s h
at_crlf_lem [] (suc n) h = ground arith
at_crlf_lem (a ∷ s) (suc n) h = ground (arith, at_crlf_lem s n)

at_lf_lem :
    (s : Bytes) (n : ℕ)
    → index two_lf s ≡ some n
    → (s ≡ take (n + 1) s ++ 10 ∷ drop (n + 2) s) × (take (n + 1) s ≡ take n s ++ 10 ∷ [])
unfolding index cut_prefix
at_lf_lem s zero h = at_lf_zero s h
at_lf_lem [] (suc n) h = ground arith
at_lf_lem (a ∷ s) (suc n) h = ground (arith, at_lf_lem s n)

move_NoSeparator : {s t : Bytes} → s ≡ t → NoSeparator s → NoSeparator t
move_NoSeparator e clear =
    (sym (ap (index two_crlf) e) ∙ clear.0, sym (ap (index two_lf) e) ∙ clear.1)

-- The two separators do not start at the same byte.
index-apart : (s : Bytes) (n : ℕ) → index two_crlf s ≡ some n → index two_lf s ≢ some n
unfolding index cut_prefix
index-apart [] n h k = ground arith
index-apart (x ∷ s) zero h k =
    let a = index-zero two_crlf (x ∷ s) h in let b = index-zero two_lf (x ∷ s) k in ground arith
index-apart (x ∷ s) (suc n) h k = ground (arith, index-apart s n)

to_crlf :
    (raw : Bytes) (n : ℕ)
    → index two_crlf raw ≡ some n
    → NoSeparator (take (n + 2) raw)
    → Splits raw (take (n + 2) raw) (drop (n + 4) raw)
to_crlf raw n h clear =
    let (whole, front) = at_crlf_lem raw n h in
    rw front (
      blank_crlf (take n raw) _ (whole ∙ ap (λ f. f ++ 13 ∷ 10 ∷ drop (n + 4) raw) front)
        (move_NoSeparator front clear))

to_lf :
    (raw : Bytes) (n : ℕ)
    → index two_lf raw ≡ some n
    → NoSeparator (take (n + 1) raw)
    → Splits raw (take (n + 1) raw) (drop (n + 2) raw)
to_lf raw n h clear =
    let (whole, front) = at_lf_lem raw n h in
    rw front (
      blank_lf (take n raw) _ (whole ∙ ap (λ f. f ++ 10 ∷ drop (n + 2) raw) front)
        (move_NoSeparator front clear))

-- `splitMessage` cuts at the first CR LF CR LF or LF LF: the block and the body, with the second
-- of these line ends between them, are the message, the block ends in the first one and has
-- neither of the two sequences in it; or the message has neither, the body is empty, and the block
-- is the message, with an LF behind it if it did not end in one.
pub split_message-Splits : (raw : Bytes) → Splits raw (split_message raw).0 (split_message raw).1
unfolding split_message split_at
split_message-Splits raw = elim (Option-cases (index two_crlf raw)) [
  | inl no_crlf ↦ elim (Option-cases (index two_lf raw)) [
    | inl no_lf ↦
        rw (no_crlf, no_lf)
          (elim (Bool-cases (ends_in 10 raw)) [
            | inl newline ↦ rw newline (no_blank (no_crlf, no_lf) newline)
            | inr cut ↦ rw cut (no_newline (no_crlf, no_lf) cut)
          ])
    | inr (l, at_l) ↦
        rw (no_crlf, at_l)
          (to_lf raw l at_l (
            index-take-none two_crlf raw (l + 1) (omega arith) no_crlf,
            index-take-some two_lf raw (l + 1) l (omega arith) at_l (omega arith),
          ))
  ]
  | inr (c, at_c) ↦ elim (Option-cases (index two_lf raw)) [
    | inl no_lf ↦
        rw (at_c, no_lf)
          (to_crlf raw c at_c (
            index-take-some two_crlf raw (c + 2) c (omega arith) at_c (omega arith),
            index-take-none two_lf raw (c + 2) (omega arith) no_lf,
          ))
    | inr (l, at_l) ↦
        rw (at_c, at_l)
          (elim (Bool-cases (leb c l)) [
            | inl first ↦ rw first (
                to_crlf raw c at_c (
                  index-take-some two_crlf raw (c + 2) c (omega arith) at_c (omega arith),
                  index-take-some two_lf raw (c + 2) l (omega arith) at_l
                      (ground (arith, index-apart raw c at_c)),
                ))
            | inr later ↦ rw later (
                to_lf raw l at_l (
                  index-take-some two_crlf raw (l + 1) c (omega arith) at_c (ground arith),
                  index-take-some two_lf raw (l + 1) l (omega arith) at_l (omega arith),
                ))
          ])
  ]
]
