-- ===== src/Compiler/Match/Tests.antt =====
-- A run of the choice among several routes.
use rivaas.Prelude.{
  ℕ, ◌≡◌, refl, ◌≤◌, true, false, List, [], ◌∷◌, some, arith, length, All, Bytes, codes, eqb,
  contains, is_empty, split, split-ne-nil, trim, join, prepend, IsFree,
}
use rivaas.Router.Params.{Params, fresh}
use rivaas.Compiler.Fnv.{fnv1a}
use rivaas.Compiler.Route.{CompiledRoute, compile_normalized, ends_in_star, analyze, is_param}
use rivaas.Compiler.Table.{specificity}
use rivaas.Compiler.Table.Order.{MostSpecificFirst}
use rivaas.Compiler.Match.{first_match, segment_buffer}
use rivaas.Compiler.Match.Segments.{IsSegment}
use rivaas.Compiler.Match.Compiled.{compile_normalized-IsCompiled}
use rivaas.Compiler.Match.First.{
  Origin, routes_of, IsOrigin, serves, first_fit, first_match-most_specific,
}

abbrev origin : Bytes → List ℕ → Origin ℕ
origin pattern handlers = record {
  route = compile_normalized fnv1a (codes "GET") pattern handlers [];
  segments = split b'/' (trim b'/' pattern);
  constraints = [];
}

abbrev two_routes : List (Origin ℕ)
two_routes = origin (codes "/users/me") (1 ∷ []) ∷ origin (codes "/users/:id") (2 ∷ []) ∷ []

origin-IsOrigin :
    (pattern : Bytes) (handlers : List ℕ)
    → eqb pattern (codes "/") ≡ false
    → ends_in_star (split b'/' (trim b'/' pattern)) ≡ false
    → length (split b'/' (trim b'/' pattern)) ≤ segment_buffer
    → IsOrigin (origin pattern handlers)
origin-IsOrigin pattern handlers root star few = record {
  compiled = compile_normalized-IsCompiled fnv1a (codes "GET") pattern handlers [] root star;
  not_root = split-ne-nil b'/' (trim b'/' pattern);
  few = few;
}

two_routes-IsOrigin : All IsOrigin two_routes
unfolding eqb ends_in_star split trim prepend
two_routes-IsOrigin = (
  origin-IsOrigin (codes "/users/me") (1 ∷ []) refl refl (omega arith),
  (origin-IsOrigin (codes "/users/:id") (2 ∷ []) refl refl (omega arith), tt),
)

two_routes-MostSpecificFirst : MostSpecificFirst (routes_of two_routes)
unfolding specificity compile_normalized analyze eqb ends_in_star split trim prepend is_param
two_routes-MostSpecificFirst = ((omega arith, tt), (tt, tt))

contains-IsFree_slash : (s : Bytes) → contains b'/' s ≡ false → IsFree b'/' s
unfolding contains
contains-IsFree_slash [] h = tt
contains-IsFree_slash (a ∷ s) h = ((λ e. ground arith), contains-IsFree_slash s (ground arith))

me-IsSegment : All IsSegment (codes "users" ∷ codes "me" ∷ [])
unfolding is_empty contains
me-IsSegment = (
  (refl, contains-IsFree_slash (codes "users") refl),
  ((refl, contains-IsFree_slash (codes "me") refl), tt),
)

first_match-most_specific_example :
    (q : Params) × (first_match (codes "GET") (codes "/users/me") (routes_of two_routes) fresh
      ≡ some (first_fit (codes "GET") (codes "users" ∷ codes "me" ∷ []) two_routes, q))
    × ((r : CompiledRoute ℕ)
        → first_fit (codes "GET") (codes "users" ∷ codes "me" ∷ []) two_routes ≡ some r
        → All
            (λ o.
              serves (codes "GET") (codes "users" ∷ codes "me" ∷ []) o ≡ true
              → specificity o.route ≤ specificity r)
            two_routes)
unfolding join
first_match-most_specific_example =
    first_match-most_specific (codes "GET") (codes "users") (codes "me" ∷ []) two_routes fresh
      me-IsSegment two_routes-IsOrigin two_routes-MostSpecificFirst
