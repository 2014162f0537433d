-- ===== src/Compiler/Match/First.antt =====
-- The choice of `MatchDynamic` among several routes.
use rivaas.Prelude.{
  ℕ, ◌≤◌, ◌≡◌, refl, ap, subst, ◌≢◌, Bool, true, ◌&&◌, List, [], ◌∷◌, Option, none, some, arith,
  if◌then◌else◌, length, All, Bytes, eqb, join, Bool-cases, inl, inr,
}
use rivaas.Router.Params.{Params}
use rivaas.Compiler.Route.{RouteConstraint, CompiledRoute}
use rivaas.Compiler.Table.{specificity}
use rivaas.Compiler.Table.Order.{MostSpecificFirst}
use rivaas.Compiler.Match.{first_match, segment_buffer}
use rivaas.Compiler.Match.Segments.{IsSegment}
use rivaas.Compiler.Match.Compiled.{fits, IsCompiled}
use rivaas.Compiler.Match.Refines.{compiled-fits}

-- A route with the segments and constraints that it was compiled from.
pub record Origin {ℓ} (H : Type ℓ) : Type ℓ where
  pub route : CompiledRoute H
  pub segments : List Bytes
  pub constraints : List RouteConstraint

module _ {ℓ} {H : Type ℓ} where
  abbrev pub routes_of : List (Origin H) → List (CompiledRoute H)
  routes_of [] = []
  routes_of (o ∷ os) = o.route ∷ routes_of os

  pub record IsOrigin (o : Origin H) : Type 0 where
    pub compiled : IsCompiled o.constraints o.segments o.route
    pub not_root : o.segments ≢ []
    pub few : length o.segments ≤ segment_buffer

  -- The route is for the method, and its pattern fits the path.
  unfoldable pub serves : Bytes → List Bytes → Origin H → Bool
  serves method vs o = eqb o.route.method method && fits o.constraints o.segments vs

  -- The first route that serves a request.
  unfoldable pub first_fit : Bytes → List Bytes → List (Origin H) → Option (CompiledRoute H)
  unfolding serves
  first_fit method vs [] = none
  first_fit method vs (o ∷ os) = if serves method vs o then some o.route else first_fit method vs os

  -- The loop over the routes does not panic and finds the first route that serves the request,
  -- whatever the routes before it left in the context.
  first_match-eq-first_fit :
      (method v : Bytes) (vs : List Bytes) (os : List (Origin H)) (p : Params)
      → All IsSegment (v ∷ vs)
      → All IsOrigin os
      → (q : Params) × (first_match method (b'/' ∷ join b'/' (v ∷ vs)) (routes_of os) p
          ≡ some (first_fit method (v ∷ vs) os, q))
  unfolding first_match first_fit serves
  first_match-eq-first_fit method v vs [] p h a = (p, refl)
  first_match-eq-first_fit method v vs (o ∷ os) p h (c, a) =
      elim (Bool-cases (eqb o.route.method method)) [
        | inl same ↦
            let (q, e, _) =
              compiled-fits o.constraints o.segments v vs o.route p c.compiled c.not_root h c.few in
            rw (same, e)
              (elim (Bool-cases (fits o.constraints o.segments (v ∷ vs))) [
                | inl fit ↦ rw fit (q, refl)
                | inr misfit ↦ rw misfit (first_match-eq-first_fit method v vs os q h a)
              ])
        | inr other ↦ rw other (first_match-eq-first_fit method v vs os p h a)
      ]

  below_first :
      (n : ℕ) (method : Bytes) (vs : List Bytes) (os : List (Origin H))
      → All (λ s. specificity s ≤ n) (routes_of os)
      → All (λ o. serves method vs o ≡ true → specificity o.route ≤ n) os
  below_first n method vs [] a = tt
  below_first n method vs (o ∷ os) (b, a) = ((λ s. b), below_first n method vs os a)

  first_fit-most_specific :
      (method : Bytes) (vs : List Bytes) (os : List (Origin H)) (r : CompiledRoute H)
      → MostSpecificFirst (routes_of os)
      → first_fit method vs os ≡ some r
      → All (λ o. serves method vs o ≡ true → specificity o.route ≤ specificity r) os
  unfolding first_fit
  first_fit-most_specific method vs [] r m e = tt
  first_fit-most_specific method vs (o ∷ os) r (b, m) e = elim (Bool-cases (serves method vs o)) [
    | inl first ↦
        let taken : some o.route ≡ some r = rw first at e in
        let same : o.route ≡ r = cc taken in
        let equal : specificity o.route ≡ specificity r = ap specificity same in
        (
          (λ s. omega (arith, equal)),
          below_first (specificity r) method vs os
              (subst (λ n. All (λ s. specificity s ≤ n) (routes_of os)) equal b),
        )
    | inr later ↦
        ((λ s. absurd (ground arith)), first_fit-most_specific method vs os r m (rw later at e))
  ]

  -- Among routes in the order of the insertion sort, compiled from patterns of at most sixteen
  -- segments, the loop finds the first route that serves the request, without a panic, and no other
  -- route that serves it is more specific.
  pub first_match-most_specific :
      (method v : Bytes) (vs : List Bytes) (os : List (Origin H)) (p : Params)
      → All IsSegment (v ∷ vs)
      → All IsOrigin os
      → MostSpecificFirst (routes_of os)
      → (q : Params) × (first_match method (b'/' ∷ join b'/' (v ∷ vs)) (routes_of os) p
          ≡ some (first_fit method (v ∷ vs) os, q))
        × ((r : CompiledRoute H)
            → first_fit method (v ∷ vs) os ≡ some r
            → All (λ o. serves method (v ∷ vs) o ≡ true → specificity o.route ≤ specificity r) os)
  first_match-most_specific method v vs os p h a m =
      let (q, e) = first_match-eq-first_fit method v vs os p h a in
      (q, e, λ r found. first_fit-most_specific method (v ∷ vs) os r m found)
