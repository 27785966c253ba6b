-- ===== src/Mailnorm/Lines.antt =====
-- What the rewriting of line ends keeps.
use relais.Base.{
  ℕ, ◌≡◌, refl, sym, ◌∙◌, false, ◌&&◌, ◌||◌, List, [], ◌∷◌, ◌++◌, arith, ◌==◌, if◌then◌else◌,
  Bool-cases, inl, inr,
}
use relais.Crypto.Keyring.{Bytes}
use relais.Mailnorm.{needs_after, needs_crlf, rewrite_lines, normalize_crlf}

-- The lines of a body: they end at a CR LF, or at a CR or an LF alone.
unfoldable pub push : ℕ → List Bytes → List Bytes
push c [] = (c ∷ []) ∷ []
push c (l ∷ ls) = (c ∷ l) ∷ ls

unfoldable pub lines : Bytes → List Bytes
lines [] = [] ∷ []
lines (c ∷ []) = if c == 13 || c == 10 then [] ∷ [] ∷ [] else (c ∷ []) ∷ []
lines (c ∷ d ∷ s) =
    let behind = lines s in
    let rest = lines (d ∷ s) in
    if c == 13 && d == 10
    then [] ∷ behind
    else if c == 13 || c == 10
    then [] ∷ rest
    else push c rest

-- The lines with a CR LF between each and the next.
unfoldable pub join_crlf : List Bytes → Bytes
join_crlf [] = []
join_crlf (l ∷ []) = l
join_crlf (l ∷ m ∷ ls) = l ++ 13 ∷ 10 ∷ join_crlf (m ∷ ls)

unfoldable pub IsCons : List Bytes → Type 0
IsCons [] = ⊥
IsCons (l ∷ ls) = Unit

push-IsCons : (c : ℕ) (ls : List Bytes) → IsCons (push c ls)
unfolding push IsCons
push-IsCons c [] = tt
push-IsCons c (l ∷ ls) = tt

lines-IsCons : (s : Bytes) → IsCons (lines s)
unfolding lines IsCons
lines-IsCons [] = tt
lines-IsCons (c ∷ []) = ground arith
lines-IsCons (c ∷ d ∷ s) = ground (arith, push-IsCons c (lines (d ∷ s)))

join_crlf-break : (ls : List Bytes) → IsCons ls → join_crlf ([] ∷ ls) ≡ 13 ∷ 10 ∷ join_crlf ls
unfolding join_crlf IsCons
join_crlf-break [] h = elim h [ ]
join_crlf-break (l ∷ ls) h = refl

join_crlf-push : (c : ℕ) (ls : List Bytes) → IsCons ls → join_crlf (push c ls) ≡ c ∷ join_crlf ls
unfolding join_crlf push IsCons
join_crlf-push c [] h = elim h [ ]
join_crlf-push c (l ∷ []) h = refl
join_crlf-push c (l ∷ m ∷ ls) h = refl

rewrite_lines-lines : (s : Bytes) → rewrite_lines s ≡ join_crlf (lines s)
unfolding rewrite_lines lines join_crlf
rewrite_lines-lines [] = refl
rewrite_lines-lines (c ∷ []) = ground arith
rewrite_lines-lines (c ∷ d ∷ s) = ground (
  arith,
  rewrite_lines-lines s,
  rewrite_lines-lines (d ∷ s),
  join_crlf-break (lines s) (lines-IsCons s),
  join_crlf-break (lines (d ∷ s)) (lines-IsCons (d ∷ s)),
  join_crlf-push c (lines (d ∷ s)) (lines-IsCons (d ∷ s)),
)

-- Where the test finds nothing to do, the loop changes nothing.
rewrite_lines-id : (s : Bytes) → needs_after false s ≡ false → rewrite_lines s ≡ s
unfolding rewrite_lines needs_after
rewrite_lines-id [] h = refl
rewrite_lines-id (c ∷ []) h = ground arith
rewrite_lines-id (c ∷ d ∷ s) h = ground (arith, rewrite_lines-id s, rewrite_lines-id (d ∷ s))

needs_after-rewrite : (s : Bytes) → needs_after false (rewrite_lines s) ≡ false
unfolding rewrite_lines needs_after
needs_after-rewrite [] = refl
needs_after-rewrite (c ∷ []) = ground arith
needs_after-rewrite (c ∷ d ∷ s) = ground (arith, needs_after-rewrite s, needs_after-rewrite (d ∷ s))

-- `normalizeCRLF` gives the lines of the body, ended by CR LF, CR or LF, with CR LF between each
-- and the next, also where it returns the body as it is; and `needsCRLF` finds nothing more to do
-- in the result.
pub normalize_crlf-lines :
    (body : Bytes)
    → (normalize_crlf body ≡ join_crlf (lines body)) × (needs_crlf (normalize_crlf body) ≡ false)
unfolding normalize_crlf
normalize_crlf-lines body = elim (Bool-cases (needs_crlf body)) [
  | inl dirty ↦ rw dirty (rewrite_lines-lines body, needs_after-rewrite body)
  | inr clean ↦ rw clean (sym (rewrite_lines-id body clean) ∙ rewrite_lines-lines body, clean)
]
