-- ===== src/Compiler/Table.antt =====
-- The route compiler (router/compiler/compiler.go, static.go): its tables, the registration and
-- removal of routes, the order of the dynamic routes, and the lookup of a static route. The mutex
-- and the atomic flag are left out: registration and serving are separate phases.
pub mod Static
pub mod Order
pub mod Removal
use mathlib.Core.List.{reverse}
use rivaas.Prelude.{
  ℕ, zero, suc, ◌+◌, ◌≡◌, refl, Bool, true, false, ◌&&◌, ◌||◌, not, List, [], ◌∷◌, ◌++◌, Option,
  none, some, ◌==◌, ltb, leb, if◌then◌else◌, ◌>>=◌, length, Bytes, eqb,
}
use rivaas.Compiler.Fnv.{Fnv, hash_from, fnv_offset_basis}
use rivaas.Compiler.Bloom.{BloomFilter, new_bloom_filter, add, test_with_precomputed_hash}
use rivaas.Compiler.Route.{CompiledRoute}

-- map[uint64]*CompiledRoute, as an association list with one entry for a key
abbrev pub RouteMap {ℓ} : Type ℓ → Type ℓ
RouteMap H = List (ℕ × CompiledRoute H)

pub record RouteCompiler {ℓ} (H : Type ℓ) : Type ℓ where
  pub static_routes : RouteMap H
  pub static_bloom : BloomFilter
  pub dynamic_routes : List (CompiledRoute H)
  -- the routes by the first byte of their pattern after '/'
  pub first_segment_index : ℕ → List (CompiledRoute H)
  pub has_first_segment_index : Bool
  pub frozen : Bool
  pub has_static : Bool

abbrev pub min_routes_for_indexing : ℕ
min_routes_for_indexing = 10

-- buildFirstSegmentIndex: the routes with this byte after a leading '/', below 128
unfoldable pub first_byte : Bytes → Option ℕ
first_byte (a ∷ b ∷ _) = if a == b'/' && ltb b 128 then some b else none
first_byte _ = none

module _ {ℓ} {H : Type ℓ} where
  unfoldable pub find_hash : ℕ → RouteMap H → Option (CompiledRoute H)
  find_hash hash [] = none
  find_hash hash ((k, r) ∷ m) = if k == hash then some r else find_hash hash m

  -- staticRoutes[hash] = route
  unfoldable pub put_hash : ℕ → CompiledRoute H → RouteMap H → RouteMap H
  put_hash hash r [] = (hash, r) ∷ []
  put_hash hash r ((k, s) ∷ m) = if k == hash then (hash, r) ∷ m else (k, s) ∷ put_hash hash r m

  -- delete(staticRoutes, hash)
  unfoldable pub delete_hash : ℕ → RouteMap H → RouteMap H
  delete_hash hash [] = []
  delete_hash hash ((k, s) ∷ m) = if k == hash then m else (k, s) ∷ delete_hash hash m

  unfoldable pub new_route_compiler : ℕ → ℕ → RouteCompiler H
  new_route_compiler bloom_size num_hash_funcs = record {
    static_routes = [];
    static_bloom = new_bloom_filter bloom_size num_hash_funcs;
    dynamic_routes = [];
    first_segment_index = λ _. [];
    has_first_segment_index = false;
    frozen = false;
    has_static = false;
  }

  unfoldable pub specificity : CompiledRoute H → ℕ
  specificity r = length r.static_segments

  -- The inner loop of sortRoutesBySpecificity. The sorted routes before position i stand with the
  -- last one first: those below the key move up by one.
  unfoldable pub shift_in : CompiledRoute H → List (CompiledRoute H) → List (CompiledRoute H)
  unfolding specificity
  shift_in key [] = key ∷ []
  shift_in key (r ∷ rs) =
      if ltb (specificity r) (specificity key) then r ∷ shift_in key rs else key ∷ r ∷ rs

  unfoldable pub sort_from :
      List (CompiledRoute H) → List (CompiledRoute H) → List (CompiledRoute H)
  unfolding shift_in
  sort_from before [] = reverse before
  sort_from before (r ∷ rs) = sort_from (shift_in r before) rs

  unfoldable pub sort_routes_by_specificity : List (CompiledRoute H) → List (CompiledRoute H)
  unfolding sort_from
  sort_routes_by_specificity rs = sort_from [] rs

  -- AddRoute; `none` is a panic of the bloom filter
  unfoldable pub add_route : Fnv → CompiledRoute H → RouteCompiler H → Option (RouteCompiler H)
  unfolding put_hash sort_routes_by_specificity
  add_route fnv r rc =
      if r.is_static
      then (do
        bloom ← add fnv (r.method ++ r.pattern) rc.static_bloom
        some (record rc {
          static_routes = put_hash r.hash r rc.static_routes;
          static_bloom = bloom;
        }))
      else if not r.has_wildcard
      then some (record rc {
        dynamic_routes = sort_routes_by_specificity (rc.dynamic_routes ++ r ∷ []);
        has_first_segment_index = false;
      })
      else some rc

  -- The first route with the method and pattern is overwritten by the last, and the last dropped.
  unfoldable pub split_last :
      CompiledRoute H → List (CompiledRoute H) → List (CompiledRoute H) × CompiledRoute H
  split_last r [] = ([], r)
  split_last r (s ∷ rs) = let (init, last) = split_last s rs in (r ∷ init, last)

  unfoldable pub drop_dynamic :
      Bytes → Bytes → List (CompiledRoute H) → Option (List (CompiledRoute H))
  unfolding split_last
  drop_dynamic method pattern [] = none
  drop_dynamic method pattern (r ∷ []) =
      if eqb r.method method && eqb r.pattern pattern then some [] else none
  drop_dynamic method pattern (r ∷ s ∷ rs) =
      let (init, last) = split_last s rs in
      if eqb r.method method && eqb r.pattern pattern
      then some (last ∷ init)
      else (drop_dynamic method pattern (s ∷ rs) >>= λ rest. some (r ∷ rest))

  -- RemoveRoute
  unfoldable pub remove_route : Fnv → Bytes → Bytes → RouteCompiler H → RouteCompiler H
  unfolding delete_hash drop_dynamic
  remove_route fnv method pattern rc =
      let rest = delete_hash (fnv.sum64 (method ++ pattern)) rc.static_routes in
      elim (drop_dynamic method pattern rc.dynamic_routes) [
        | none ↦ record rc { static_routes = rest }
        | some rs ↦ record rc {
          static_routes = rest;
          dynamic_routes = rs;
          has_first_segment_index = false;
        }
      ]

  unfoldable pub indexed_under : ℕ → List (CompiledRoute H) → List (CompiledRoute H)
  unfolding first_byte
  indexed_under c [] = []
  indexed_under c (r ∷ rs) = elim (first_byte r.pattern) [
    | none ↦ indexed_under c rs
    | some b ↦ if b == c then r ∷ indexed_under c rs else indexed_under c rs
  ]

  unfoldable pub build_first_segment_index : RouteCompiler H → RouteCompiler H
  unfolding indexed_under
  build_first_segment_index rc = record rc {
    first_segment_index = λ c. indexed_under c rc.dynamic_routes;
    has_first_segment_index = true;
  }

  -- Freeze
  unfoldable pub freeze : RouteCompiler H → RouteCompiler H
  unfolding build_first_segment_index
  freeze rc =
      let indexed =
        if not rc.has_first_segment_index && leb min_routes_for_indexing (length rc.dynamic_routes)
        then build_first_segment_index rc
        else rc in
      record indexed { has_static = ltb 0 (length rc.static_routes); frozen = true }

  -- HasStatic
  unfoldable pub has_static_routes : RouteCompiler H → Bool
  has_static_routes rc = if rc.frozen then rc.has_static else ltb 0 (length rc.static_routes)

  -- LookupStatic; the outer `none` is a panic of the bloom filter
  unfoldable pub lookup_static : Bytes → Bytes → RouteCompiler H → Option (Option (CompiledRoute H))
  unfolding find_hash has_static_routes
  lookup_static method path rc =
      let hash = hash_from (hash_from fnv_offset_basis method) path in
      if not (has_static_routes rc)
      then some none
      else if ltb (length rc.static_routes) 10
      then some (find_hash hash rc.static_routes)
      else (do
        present ← test_with_precomputed_hash hash rc.static_bloom
        some (if present then find_hash hash rc.static_routes else none))
