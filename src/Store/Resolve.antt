-- ===== src/Store/Resolve.antt =====
-- The route of a sender domain: the enabled domain row with the longest name that covers it.
use relais.Base.{
  ◌≤◌, ◌≡◌, refl, sym, ◌∙◌, true, ◌&&◌, List, [], ◌∷◌, Option, none, some, arith, All, length, ltb,
  if◌then◌else◌, Bool-cases, Option-cases, inl, inr, ◌⊎◌, Member, here, there,
}
use relais.Text.{Text}
use relais.Store.Rows.{Backend, Domain, find_backend}
use relais.Store.Routes.{covers_sender, longer, resolve_onto}

-- A row of the join that may carry the sender's mail.
pub record IsRoute (sender : Text) (bs : List Backend) (d : Domain) (b : Backend) : Type 0 where
  pub joined : find_backend d.smtp_backend_id bs ≡ some b
  pub up : b.enabled ≡ true
  pub covers : covers_sender sender d ≡ true

some_inj : {A : Type 0} {a b : A} → ◌≡◌ {A = Option A} (some a) (some b) → a ≡ b
some_inj h = cc

module _ (sender : Text) (bs : List Backend) where
  -- No route of the table is longer than the name.
  abbrev pub NoneLonger : List Domain → Text → Type 0
  NoneLonger ds name =
      All (λ d. (b : Backend) → IsRoute sender bs d b → length d.name ≤ length name) ds

  -- the best row after one more
  abbrev next_best : Option (Domain × Backend) → Domain → Option (Domain × Backend)
  next_best best d = elim (find_backend d.smtp_backend_id bs) [
    | none ↦ best
    | some b ↦ if b.enabled && covers_sender sender d then longer best (d, b) else best
  ]

  abbrev AtMost : Option (Domain × Backend) → Text → Type 0
  AtMost none name = Unit
  AtMost (some (d, b)) name = length d.name ≤ length name

  next_best-old :
      (best : Option (Domain × Backend)) (d : Domain) (name : Text)
      → AtMost (next_best best d) name
      → AtMost best name
  next_best-old none d name h = tt
  next_best-old (some (e, b)) d name h = ground arith

  next_best-new :
      (best : Option (Domain × Backend)) (d : Domain) (name : Text)
      → AtMost (next_best best d) name
      → (b : Backend) → IsRoute sender bs d b
      → length d.name ≤ length name
  next_best-new none d name h b r =
      let joined = r.joined in let up = r.up in let covers = r.covers in ground arith
  next_best-new (some e) d name h b r =
      let joined = r.joined in let up = r.up in let covers = r.covers in ground arith

  resolve_onto-longest :
      (best : Option (Domain × Backend)) (ds : List Domain) {c : Domain × Backend}
      → resolve_onto sender bs best ds ≡ some c
      → AtMost best c.0.name × NoneLonger ds c.0.name
  unfolding resolve_onto
  resolve_onto-longest none [] {c} h = (tt, tt)
  resolve_onto-longest (some e) [] {c} h = (ground arith, tt)
  resolve_onto-longest best (d ∷ ds) {c} h =
      let (old, rest) = resolve_onto-longest (next_best best d) ds {c = c} h in
      (next_best-old best d c.0.name old, (next_best-new best d c.0.name old, rest))

  -- The row of a route, among the rows of the table.
  abbrev pub Listed : List Domain → Domain × Backend → Type 0
  Listed ds c = Member c.0 ds × IsRoute sender bs c.0 c.1

  longer-cases :
      (best : Option (Domain × Backend)) (c : Domain × Backend)
      → (longer best c ≡ best) ⊎ (longer best c ≡ some c)
  longer-cases none c = inr refl
  longer-cases (some e) c = elim (Bool-cases (ltb (length e.0.name) (length c.0.name))) [
    | inl more ↦ rw more (inr refl)
    | inr less ↦ rw less (inl refl)
  ]

  next_best-cases :
      (best : Option (Domain × Backend)) (d : Domain)
      → (next_best best d ≡ best)
        ⊎ ((b : Backend) × (next_best best d ≡ some (d, b)) × IsRoute sender bs d b)
  next_best-cases best d = elim (Option-cases (find_backend d.smtp_backend_id bs)) [
    | inl missing ↦ inl (ground arith)
    | inr (b, joined) ↦ elim (Bool-cases (b.enabled && covers_sender sender d)) [
      | inr unfit ↦ inl (ground arith)
      | inl fit ↦
          let route : IsRoute sender bs d b = record {
            joined = joined;
            up = ground arith;
            covers = ground arith;
          } in
          elim (longer-cases best (d, b)) [
            | inl same ↦ inl (ground arith)
            | inr new ↦ inr (b, ground arith, route)
          ]
    ]
  ]

  resolve_onto-Listed :
      (best : Option (Domain × Backend)) (ds : List Domain) {c : Domain × Backend}
      → resolve_onto sender bs best ds ≡ some c
      → (best ≡ some c) ⊎ Listed ds c
  unfolding resolve_onto
  resolve_onto-Listed best [] {c} h = inl h
  resolve_onto-Listed best (d ∷ ds) {c} h =
      elim (resolve_onto-Listed (next_best best d) ds {c = c} h) [
        | inr (member, route) ↦ inr (there member, route)
        | inl last ↦ elim (next_best-cases best d) [
          | inl same ↦ inl (sym same ∙ last)
          | inr (b, new, route) ↦
              let same : (d, b) ≡ c = some_inj (sym new ∙ last) in inr (rw (sym same) (here, route))
        ]
      ]

-- The row that the resolution of a sender domain returns is an enabled row of the table that
-- covers the domain, with an enabled backend, and no such row of the table has a longer name.
pub resolve_onto-longest_match :
    (sender : Text) (bs : List Backend) (ds : List Domain) (c : Domain × Backend)
    → resolve_onto sender bs none ds ≡ some c
    → Listed sender bs ds c × NoneLonger sender bs ds c.0.name
resolve_onto-longest_match sender bs ds c h = (
  elim (resolve_onto-Listed sender bs none ds {c = c} h) [
    | inl impossible ↦ ground arith
    | inr listed ↦ listed
  ],
  (resolve_onto-longest sender bs none ds {c = c} h).1,
)
