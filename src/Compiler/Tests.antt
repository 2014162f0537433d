-- ===== src/Compiler/Tests.antt =====
-- Runs of the bloom filter and of the route compiler.
use mathlib.Core.List.{Perm}
use rivaas.Prelude.{
  ◌≡◌, refl, false, none, true, List, [], ◌∷◌, some, arith, ℕ, prepend, eqb, is_empty, contains,
  IsFree, split, trim, join, ◌==◌, if◌then◌else◌, All, codes, Bytes,
}
use rivaas.Router.Params.{Params, fresh, set_param, set_param_count}
use rivaas.Compiler.Match.{match_and_extract, allows}
use rivaas.Compiler.Match.Segments.{IsSegment}
use rivaas.Compiler.Match.Compiled.{fits, captured}
use rivaas.Compiler.Match.Refines.{match_and_extract-fits}
use rivaas.Compiler.Fnv.{fnv1a, hash_from}
use rivaas.Compiler.Bloom.{BloomFilter, new_bloom_filter, test, test_with_precomputed_hash}
use rivaas.Compiler.Bloom.Membership.{add_all, add_all-test}
use rivaas.Compiler.Route.{
  CompiledRoute, compile_normalized, ends_in_star, is_param, find_constraint, compile_route,
  compile_route-IsHashed,
}
use rivaas.Compiler.Table.{
  RouteCompiler, new_route_compiler, add_route, remove_route, lookup_static, find_hash,
  sort_routes_by_specificity,
}
use rivaas.Compiler.Table.Static.{
  IsValid, request_hash, new_route_compiler-IsValid, lookup_static-eq-find, lookup_static-add_route,
}
use rivaas.Compiler.Table.Removal.{IsMap, lookup_static-remove_route}
use rivaas.Compiler.Table.Order.{MostSpecificFirst, sort_routes_by_specificity-MostSpecificFirst}

abbrev texts : List Bytes
texts = codes "GET/users" ∷ codes "GET/posts" ∷ []

add_all-test_example :
    (bf : BloomFilter) × (add_all fnv1a texts (new_bloom_filter 1000 3) ≡ some bf)
    × All (λ t. test fnv1a t bf ≡ some true) texts
add_all-test_example = add_all-test fnv1a 1000 3 texts (omega arith) (omega arith)

abbrev h1 : List ℕ
h1 = 1 ∷ []

abbrev health : CompiledRoute ℕ
health = compile_route fnv1a (codes "GET") (codes "/health") h1 []

abbrev user : CompiledRoute ℕ
user = compile_route fnv1a (codes "GET") (codes "/users/:id") (2 ∷ []) []

abbrev posts : CompiledRoute ℕ
posts = compile_route fnv1a (codes "GET") (codes "/users/:id/posts/:post") (3 ∷ []) []

abbrev table : RouteCompiler ℕ
table = new_route_compiler 1000 3

table-IsValid : IsValid table
table-IsValid = new_route_compiler-IsValid 1000 3 (omega arith) (omega arith)

lookup_static-add_route_example :
    (rc : RouteCompiler ℕ) × (add_route fnv1a health table ≡ some rc)
    × IsValid rc
    × ((method path : Bytes)
        → lookup_static method path rc ≡ (
            if request_hash health.method health.pattern == request_hash method path
            then some (some health)
            else lookup_static method path table))
unfolding new_route_compiler compile_route eqb prepend
lookup_static-add_route_example =
    lookup_static-add_route fnv1a health table table-IsValid
      (compile_route-IsHashed fnv1a (codes "GET") (codes "/health") h1 []) refl refl

sort_routes_by_specificity-MostSpecificFirst_example :
    Perm (sort_routes_by_specificity (user ∷ posts ∷ [])) (user ∷ posts ∷ [])
    × MostSpecificFirst (sort_routes_by_specificity (user ∷ posts ∷ []))
sort_routes_by_specificity-MostSpecificFirst_example =
    sort_routes_by_specificity-MostSpecificFirst (user ∷ posts ∷ [])

abbrev h2 : List ℕ
h2 = 2 ∷ []

abbrev user_path : List Bytes
user_path = codes "42" ∷ codes "posts" ∷ []

-- The fast path takes an empty parameter.
empty_parameter :
    match_and_extract user (codes "/users/") fresh
    ≡ some (true, set_param_count 1 (set_param 0 (codes "id") [] fresh))
unfolding match_and_extract compile_route fresh eqb prepend
empty_parameter = refl

contains-IsFree_back : (s : Bytes) → contains b'/' s ≡ false → IsFree b'/' s
unfolding contains
contains-IsFree_back [] h = tt
contains-IsFree_back (a ∷ s) h = ((λ e. ground arith), contains-IsFree_back s (ground arith))

three_segments-IsSegment : All IsSegment (codes "users" ∷ user_path)
unfolding is_empty contains
three_segments-IsSegment = (
  (refl, contains-IsFree_back (codes "users") refl),
  (
    (refl, contains-IsFree_back (codes "42") refl),
    ((refl, contains-IsFree_back (codes "posts") refl), tt),
  ),
)

match_and_extract-fits_example :
    (q : Params) × (match_and_extract
        (compile_normalized fnv1a (codes "GET") (codes "/users/:id/posts") h2 [])
        (codes "/users/42/posts")
        fresh
      ≡ some (true, q))
    × (true ≡ true
        → q
          ≡ captured
              (codes "users" ∷ codes ":id" ∷ codes "posts" ∷ [])
              (codes "users" ∷ user_path)
              fresh)
unfolding eqb prepend fits split trim ends_in_star join is_param allows find_constraint
match_and_extract-fits_example =
    match_and_extract-fits fnv1a (codes "GET") (codes "/users/:id/posts") h2 [] (codes "users")
      user_path fresh refl refl (omega arith) three_segments-IsSegment

-- A filter with all bits set, and a table with one route over it.
abbrev full_filter : BloomFilter
full_filter = record { bits = 18446744073709551615 ∷ []; size = 64; seeds = 1 ∷ [] }

abbrev with_health : RouteCompiler ℕ
with_health = record table {
  static_routes = (request_hash (codes "GET") (codes "/health"), health) ∷ [];
  static_bloom = full_filter;
}

with_health-IsValid : IsValid with_health
unfolding new_route_compiler test_with_precomputed_hash hash_from
with_health-IsValid = record {
  bloom_valid = record { positive = omega arith; covered = omega arith };
  present = (refl, tt);
  flag = λ e. cc;
}

lookup_static-eq-find_example :
    lookup_static (codes "GET") (codes "/health") with_health
    ≡ some (find_hash (request_hash (codes "GET") (codes "/health")) with_health.static_routes)
lookup_static-eq-find_example =
    lookup_static-eq-find (codes "GET") (codes "/health") with_health with_health-IsValid

lookup_static-remove_route_example :
    IsValid (remove_route fnv1a (codes "GET") (codes "/health") with_health)
    × IsMap (remove_route fnv1a (codes "GET") (codes "/health") with_health).static_routes
    × ((method path : Bytes)
        → lookup_static method path (remove_route fnv1a (codes "GET") (codes "/health") with_health)
          ≡ (if request_hash (codes "GET") (codes "/health") == request_hash method path
              then some none
              else lookup_static method path with_health))
unfolding new_route_compiler
lookup_static-remove_route_example =
    lookup_static-remove_route fnv1a (codes "GET") (codes "/health") with_health with_health-IsValid
      (tt, tt) refl
