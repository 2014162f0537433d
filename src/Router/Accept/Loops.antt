-- ===== src/Router/Accept/Loops.antt =====
-- The loops over the offers and the parts keep the best match.
use rivaas.Prelude.{
  ℕ, ◌≤◌, ◌<◌, ◌≡◌, ◌⊎◌, inl, inr, sym, ap, Bool, true, false, List, [], ◌∷◌, none, some, arith,
  ltb, ltb→lt, if◌then◌else◌, Bytes, All, Any, All-imp, Any-imp, All-Any_self, Bool-cases,
}
use rivaas.Router.Accept.Parse.{AcceptSpec}
use rivaas.Router.Accept.Choice.{
  match_media_type, Best, is_better, consider, best_of_specs, best_of_offers,
}

-- A quality and how specific it is, against another.
abbrev pub IsNoBetter : ℕ × ℕ → ℕ × ℕ → Type 0
IsNoBetter (q', s') (q, s) = (q' < q) ⊎ ((q' ≡ q) × (s' ≤ s))

abbrev pub Top : Best → ℕ × ℕ → Type 0
Top none (q', s') = q' ≡ 0
Top (some (m, q, s)) (q', s') = (0 < q) × IsNoBetter (q', s') (q, s)

abbrev pub IsPositive : Best → Type 0
IsPositive none = Unit
IsPositive (some (m, q, s)) = 0 < q

consider-Top :
    (offer : Bytes) (q s : ℕ) (best : Best) (x : ℕ × ℕ)
    → Top best x
    → Top (consider offer (q, s) best) x
unfolding consider is_better
consider-Top offer q s none x h = ground arith
consider-Top offer q s (some (m, q', s')) x h = ground arith

consider-own :
    (offer : Bytes) (q s : ℕ) (best : Best)
    → IsPositive best
    → (Top (consider offer (q, s) best) (q, s)) × IsPositive (consider offer (q, s) best)
unfolding consider is_better
consider-own offer q s none h = ground arith
consider-own offer q s (some (m, q', s')) h = ground arith

-- The loops keep what the best match was better than, and compare it with each offer and part.
best_of_specs-Top :
    (offer : Bytes) (specs : List AcceptSpec) (best : Best) (x : ℕ × ℕ)
    → Top best x
    → Top (best_of_specs offer specs best) x
unfolding best_of_specs
best_of_specs-Top offer [] best x h = h
best_of_specs-Top offer (spec ∷ specs) best x h =
    let (q, s) = match_media_type offer spec in
    best_of_specs-Top offer specs (consider offer (q, s) best) x (consider-Top offer q s best x h)

best_of_specs-All :
    (offer : Bytes) (specs : List AcceptSpec) (best : Best)
    → IsPositive best
    → (All (λ spec. Top (best_of_specs offer specs best) (match_media_type offer spec)) specs)
      × IsPositive (best_of_specs offer specs best)
unfolding best_of_specs
best_of_specs-All offer [] best h = (tt, h)
best_of_specs-All offer (spec ∷ specs) best h =
    let (q, s) = match_media_type offer spec in
    let (own, positive) = consider-own offer q s best h in
    let (rest, positive') = best_of_specs-All offer specs (consider offer (q, s) best) positive in
    ((best_of_specs-Top offer specs (consider offer (q, s) best) (q, s) own, rest), positive')

best_of_offers-Top :
    (offers : List Bytes) (specs : List AcceptSpec) (best : Best) (x : ℕ × ℕ)
    → Top best x
    → Top (best_of_offers offers specs best) x
unfolding best_of_offers
best_of_offers-Top [] specs best x h = h
best_of_offers-Top (offer ∷ offers) specs best x h =
    best_of_offers-Top offers specs (best_of_specs offer specs best) x
      (best_of_specs-Top offer specs best x h)

pub best_of_offers-All :
    (offers : List Bytes) (specs : List AcceptSpec) (best : Best)
    → IsPositive best
    → All
        (λ offer.
          All (λ spec. Top (best_of_offers offers specs best) (match_media_type offer spec)) specs)
        offers
unfolding best_of_offers
best_of_offers-All [] specs best h = tt
best_of_offers-All (offer ∷ offers) specs best h =
    let (own, positive) = best_of_specs-All offer specs best h in
    let inner = best_of_specs offer specs best in
    (
      All-imp specs (λ spec. best_of_offers-Top offers specs inner (match_media_type offer spec))
          own,
      best_of_offers-All offers specs inner positive,
    )

-- Where the best match comes from.
module _ (P : Bytes → ℕ × ℕ → Type 0) where
  abbrev pub Satisfies : Best → Type 0
  Satisfies none = Unit
  Satisfies (some (m, q, s)) = P m (q, s)

  if-Satisfies :
      (offer : Bytes) (x : ℕ × ℕ) (best : Best) (b : Bool)
      → P offer x
      → Satisfies best
      → Satisfies (if b then some (offer, x.0, x.1) else best)
  if-Satisfies offer x best true p h = p
  if-Satisfies offer x best false p h = h

  consider-Satisfies :
      (offer : Bytes) (x : ℕ × ℕ) (best : Best)
      → (0 < x.0 → P offer x)
      → Satisfies best
      → Satisfies (consider offer x best)
  unfolding consider
  consider-Satisfies offer x best p h = elim (Bool-cases (ltb 0 x.0)) [
    | inl positive ↦
        rw positive (if-Satisfies offer x best (is_better x best) (p (ltb→lt _ _ positive)) h)
    | inr other ↦ rw other h
  ]

  best_of_specs-Satisfies :
      (offer : Bytes) (specs : List AcceptSpec) (best : Best)
      → All
          (λ spec. 0 < (match_media_type offer spec).0 → P offer (match_media_type offer spec))
          specs
      → Satisfies best
      → Satisfies (best_of_specs offer specs best)
  unfolding best_of_specs
  best_of_specs-Satisfies offer [] best a h = h
  best_of_specs-Satisfies offer (spec ∷ specs) best (p, a) h =
      best_of_specs-Satisfies offer specs _ a
        (consider-Satisfies offer (match_media_type offer spec) best p h)

  best_of_offers-Satisfies :
      (offers : List Bytes) (specs : List AcceptSpec) (best : Best)
      → All
          (λ offer.
            All
              (λ spec. 0 < (match_media_type offer spec).0 → P offer (match_media_type offer spec))
              specs)
          offers
      → Satisfies best
      → Satisfies (best_of_offers offers specs best)
  unfolding best_of_offers
  best_of_offers-Satisfies [] specs best a h = h
  best_of_offers-Satisfies (offer ∷ offers) specs best (p, a) h =
      best_of_offers-Satisfies offers specs _ a (best_of_specs-Satisfies offer specs best p h)

-- The best match is that of an offer and a part.
abbrev pub IsMatch : List Bytes → List AcceptSpec → Bytes → ℕ × ℕ → Type 0
IsMatch offers specs m x =
    Any (λ offer. (m ≡ offer) × Any (λ spec. (match_media_type offer spec ≡ x) × (0 < x.0)) specs)
      offers

pub best_of_offers-IsMatch :
    (offers : List Bytes) (specs : List AcceptSpec)
    → Satisfies (IsMatch offers specs) (best_of_offers offers specs none)
best_of_offers-IsMatch offers specs =
    best_of_offers-Satisfies (IsMatch offers specs) offers specs none
      (All-imp offers
        (λ offer among.
          All-imp specs
            (λ spec known positive.
              Any-imp offers
                (λ offer' e. (
                  e,
                  rw (← e) (
                      Any-imp {P = λ y. spec ≡ y} specs
                        (λ spec' e'. (ap (match_media_type offer) (sym e'), positive)) known),
                ))
                among)
            (All-Any_self specs))
        (All-Any_self offers))
      tt
