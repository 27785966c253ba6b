-- ===== src/FromPattern/Domain.antt =====
-- The form of a normalized domain.
use relais.Base.{
  ℕ, ◌≤◌, ◌≡◌, refl, ◌≢◌, ap, ap₂, ◌∙◌, Bool, true, false, not, ◌||◌, List, [], ◌∷◌, ◌++◌, Option,
  some, arith, ◌==◌, all, all_weaken, is_empty, length, ok, refuse_if, bind-eq-ok,
}
use relais.Text.{
  Text, len, is_space, trim_space, trim_suffix, ends_in, lower_rune, to_lower, split, split_onto,
}
use relais.Text.Trim.{trim_space-id, trim_suffix-id}
use relais.Text.Cut.{split_onto-all}
use relais.FromPattern.Normalize.{
  Sentinel, Idna, dot, normalize_domain, check_domain, check_labels, check_label, is_label_rune,
  usable,
}

-- UTS 46 maps a domain that it returned, in ASCII, to itself.
pub record IsStable (u : Idna) : Type 0 where
  pub stable : (s a : Text) → u.to_ascii s ≡ some a → u.to_ascii a ≡ some a

abbrev pub is_domain_rune : ℕ → Bool
is_domain_rune c = is_label_rune c || c == dot

pub record IsDomain (d : Text) : Type 0 where
  pub nonempty : is_empty d ≡ false
  pub short : len d ≤ 253
  pub two_labels : 2 ≤ length (split dot d)
  pub labels : (k : Sentinel) → check_labels (split dot d) k ≡ ok tt

check_label-all : (l : Text) (k : Sentinel) → check_label l k ≡ ok tt → all is_label_rune l ≡ true
unfolding check_label
check_label-all l k h = ground arith

check_label-kind : (l : Text) (k j : Sentinel) → check_label l k ≡ ok tt → check_label l j ≡ ok tt
unfolding check_label
check_label-kind l k j h = ground arith

check_labels-kind :
    (ls : List Text) (k j : Sentinel) → check_labels ls k ≡ ok tt → check_labels ls j ≡ ok tt
unfolding check_labels
check_labels-kind [] k j h = refl
check_labels-kind (l ∷ ls) k j h = ground (arith, check_label-kind l k j, check_labels-kind ls k j)

check_labels-all :
    (ls : List Text) (k : Sentinel)
    → check_labels ls k ≡ ok tt
    → all (λ l. all is_domain_rune l) ls ≡ true
unfolding check_labels
check_labels-all [] k h = refl
check_labels-all (l ∷ ls) k h = ground (
  arith,
  all_weaken is_label_rune is_domain_rune l (λ c e. ground arith),
  check_label-all l k,
  check_labels-all ls k,
)

check_label-nil : (k : Sentinel) → check_label [] k ≢ ok tt
unfolding check_label
check_label-nil k h = cc

-- Every label is checked, the last one too, so no dot ends the domain.
check_labels-ends_in :
    (s piece : Text) (k : Sentinel)
    → check_labels (split_onto dot piece s) k ≡ ok tt
    → ends_in dot s ≡ false
unfolding check_labels split_onto
check_labels-ends_in [] piece k h = refl
check_labels-ends_in (x ∷ []) piece k h = ground (arith, check_label-nil k)
check_labels-ends_in (x ∷ y ∷ s) piece k h =
    ground
      (arith, check_labels-ends_in (y ∷ s) [] k, check_labels-ends_in (y ∷ s) (piece ++ x ∷ []) k)

pub IsDomain-runes : (d : Text) → IsDomain d → all is_domain_rune d ≡ true
unfolding is_label_rune
IsDomain-runes d v =
    split_onto-all is_domain_rune dot [] d refl
      (check_labels-all (split dot d) Sentinel.invalid_address (v.labels Sentinel.invalid_address))

nonempty_of_labels : (d : Text) → 2 ≤ length (split dot d) → is_empty d ≡ false
unfolding split_onto
nonempty_of_labels [] h = absurd (omega arith)
nonempty_of_labels (c ∷ d) h = refl

check_domain-eq : (a : Text) (k : Sentinel) {d : Text} → check_domain a k ≡ ok d → a ≡ d
unfolding check_domain
check_domain-eq a k h = ground arith

check_domain-labels :
    (a : Text) (k : Sentinel) {d : Text}
    → check_domain a k ≡ ok d
    → check_labels (split dot a) k ≡ ok tt
unfolding check_domain
check_domain-labels a k h = ground arith

check_domain_bounds :
    (a : Text) (k : Sentinel) {d : Text}
    → check_domain a k ≡ ok d
    → (len a ≤ 253) × (2 ≤ length (split dot a))
unfolding check_domain
check_domain_bounds a k h = ground arith

check_domain-IsDomain : (a : Text) (k : Sentinel) {d : Text} → check_domain a k ≡ ok d → IsDomain a
check_domain-IsDomain a k h = record {
  nonempty = nonempty_of_labels a (check_domain_bounds a k h).1;
  short = (check_domain_bounds a k h).0;
  two_labels = (check_domain_bounds a k h).1;
  labels = λ j. check_labels-kind (split dot a) k j (check_domain-labels a k h);
}

usable-eq-ok : (k : Sentinel) (o : Option Text) {a : Text} → usable k o ≡ ok a → o ≡ some a
usable-eq-ok k o h = ground arith

-- The parts of a successful `normalizeDomain`: what IDNA made of some text is the result.
normalize_domain_parts :
    (u : Idna) (raw : Text) (k : Sentinel) {d : Text}
    → normalize_domain u raw k ≡ ok d
    → (s : Text) × (u.to_ascii s ≡ some d) × (check_domain d k ≡ ok d)
unfolding normalize_domain
normalize_domain_parts u raw k {d} h =
    let (_, _, checked) = bind-eq-ok (refuse_if (is_empty lowered) _) _ h in
    let (a, made, last) = bind-eq-ok (usable k (u.to_ascii (to_lower u.fold lowered))) _ checked in
    let same = check_domain-eq a k last in
    (to_lower u.fold lowered, usable-eq-ok k _ made ∙ ap some same, rw same at last)
  where
    lowered : Text
    lowered = trim_suffix dot (trim_space raw)

-- Every domain that `normalizeDomain` returns has passed its checks.
pub normalize_domain-IsDomain :
    (u : Idna) (raw : Text) (k : Sentinel) {d : Text} → normalize_domain u raw k ≡ ok d → IsDomain d
normalize_domain-IsDomain u raw k {d} h =
    check_domain-IsDomain d k (normalize_domain_parts u raw k h).2

is_domain_rune_facts :
    (fold : ℕ → ℕ) (c : ℕ)
    → is_domain_rune c ≡ true
    → (not (is_space c) ≡ true) × (lower_rune fold c ≡ c)
unfolding is_label_rune is_space lower_rune
is_domain_rune_facts fold c h = ground arith

to_lower-domain : (fold : ℕ → ℕ) (d : Text) → all is_domain_rune d ≡ true → to_lower fold d ≡ d
to_lower-domain fold [] h = refl
to_lower-domain fold (c ∷ d) h =
    ap₂ ◌∷◌ (is_domain_rune_facts fold c (ground arith)).1 (to_lower-domain fold d (ground arith))

check_domain-id : (d : Text) (k : Sentinel) → IsDomain d → check_domain d k ≡ ok d
unfolding check_domain
check_domain-id d k v = ground (arith, v.short, v.two_labels, v.labels k)

pub IsDomain-trimmed : (d : Text) → IsDomain d → trim_space d ≡ d
IsDomain-trimmed d v = trim_space-id d (
    all_weaken is_domain_rune (λ c. not (is_space c)) d
      (λ c h. (is_domain_rune_facts (λ x. x) c h).0) (IsDomain-runes d v))

-- Normalizing a normalized domain gives it back, whichever sentinel the errors carry.
pub normalize_domain-id :
    (u : Idna) (raw : Text) (k j : Sentinel) {d : Text}
    → IsStable u
    → normalize_domain u raw k ≡ ok d
    → normalize_domain u d j ≡ ok d
unfolding normalize_domain
normalize_domain-id u raw k j {d} st h =
    rw
      (
        IsDomain-trimmed d v,
        trim_suffix-id dot d undotted,
        v.nonempty,
        to_lower-domain u.fold d (IsDomain-runes d v),
        again,
      )
      (check_domain-id d j v)
  where
    v : IsDomain d
    v = normalize_domain-IsDomain u raw k h

    undotted : ends_in dot d ≡ false
    undotted = check_labels-ends_in d [] j (v.labels j)

    again : u.to_ascii d ≡ some d
    again = let (s, made, _) = normalize_domain_parts u raw k h in st.stable s d made
