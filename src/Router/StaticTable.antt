-- ===== src/Router/StaticTable.antt =====
-- The static tables of the route tree (router/radix.go: CompiledRouteTable, countStaticRoutes,
-- compileStaticRoutes, getRoute of the table; router/compile.go: optimalBloomFilterSize). The
-- order in which Go visits a map is that of the association list here. The outer `none` is a panic
-- of the bloom filter.
pub mod Filter
pub mod Compiled
mod Tests
use rivaas.Prelude.{
  ℕ, zero, suc, ◌+◌, ◌*◌, max, Bool, true, false, ◌&&◌, ◌||◌, not, List, [], ◌∷◌, ◌++◌, Option,
  none, some, ◌==◌, ltb, leb, if◌then◌else◌, ◌>>=◌, length, Bytes, codes, is_empty, contains,
  has_suffix,
}
use rivaas.Compiler.Fnv.{Fnv}
use rivaas.Compiler.Bloom.{BloomFilter, new_bloom_filter, add, test}
use rivaas.Router.Radix.{Leaf, Node, node, Edges, no_edges, edge, Tree, is_some}

-- CompiledRoute of the package router
pub record StaticRoute {ℓ} (H : Type ℓ) : Type ℓ where
  pub path : Bytes
  pub handlers : List H
  pub hash : ℕ

-- CompiledRouteTable
pub record RouteTable {ℓ} (H : Type ℓ) : Type ℓ where
  pub routes : List (ℕ × StaticRoute H)
  pub bloom : BloomFilter

-- optimalBloomFilterSize; the default is that of the package
unfoldable pub optimal_bloom_filter_size : ℕ → ℕ → ℕ
optimal_bloom_filter_size default_size route_count =
    if route_count == 0
    then default_size
    else if ltb (route_count * 10) 100
    then 100
    else if ltb 1000000 (route_count * 10)
    then 1000000
    else route_count * 10

-- The path of a child: prefix + "/" + label
unfoldable pub child_path : Bytes → Bytes → Bytes
child_path prefix label = if is_empty prefix then b'/' ∷ label else prefix ++ b'/' ∷ label

module _ {ℓ} {H : Type ℓ} where
  unfoldable pub put_route : ℕ → StaticRoute H → List (ℕ × StaticRoute H) → List (ℕ × StaticRoute H)
  put_route hash r [] = (hash, r) ∷ []
  put_route hash r ((k, s) ∷ m) = if k == hash then (hash, r) ∷ m else (k, s) ∷ put_route hash r m

  unfoldable pub find_route : ℕ → List (ℕ × StaticRoute H) → Option (StaticRoute H)
  find_route hash [] = none
  find_route hash ((k, r) ∷ m) = if k == hash then some r else find_route hash m

  -- A leaf that countStaticRoutes counts.
  unfoldable pub counts : Leaf H → Bool
  unfolding is_some
  counts l =
      is_some l.handlers
      && not (is_empty l.path)
      && not (contains b':' l.path)
      && not (has_suffix l.path (codes "*"))

  unfoldable mutual
    unfolding counts

    pub count_node : Node H → ℕ
    count_node (node l es _ _) = (if counts l then 1 else 0) + count_edges es

    pub count_edges : Edges H → ℕ
    count_edges no_edges = 0
    count_edges (edge _ n es) = count_node n + count_edges es

  unfoldable pub count_leaves : List (Bytes × Leaf H) → ℕ
  unfolding counts
  count_leaves [] = 0
  count_leaves ((_, l) ∷ m) = (if counts l then 1 else 0) + count_leaves m

  -- countStaticRoutes at the root
  unfoldable pub count_static_routes : Tree H → ℕ
  unfolding count_node count_leaves
  count_static_routes t = count_node t.root + count_leaves t.static_paths

module _ {ℓ} {H : Type ℓ} (fnv : Fnv) where
  -- The entry of one node.
  unfoldable pub compile_leaf : Bytes → Leaf H → RouteTable H → Option (RouteTable H)
  unfolding put_route
  compile_leaf prefix l t = elim l.handlers [
    | none ↦ some t
    | some hs ↦ if contains b':' prefix || is_empty prefix then some t else (do
      bloom ← add fnv prefix t.bloom
      some (record {
        routes =
            put_route (fnv.sum64 prefix)
              (record { path = prefix; handlers = hs; hash = fnv.sum64 prefix }) t.routes;
        bloom = bloom;
      }))
  ]

  -- compileStaticRoutesRecursive, down the edges
  unfoldable mutual
    unfolding compile_leaf child_path

    pub compile_node : Bytes → Node H → RouteTable H → Option (RouteTable H)
    compile_node prefix (node l es _ _) t =
        compile_leaf prefix l t >>= λ u. compile_edges prefix es u

    pub compile_edges : Bytes → Edges H → RouteTable H → Option (RouteTable H)
    compile_edges prefix no_edges t = some t
    compile_edges prefix (edge label n es) t =
        compile_node (child_path prefix label) n t >>= λ u. compile_edges prefix es u

  -- The paths at the root, whose nodes have no children.
  unfoldable pub compile_leaves : List (Bytes × Leaf H) → RouteTable H → Option (RouteTable H)
  unfolding compile_leaf
  compile_leaves [] t = some t
  compile_leaves ((path, l) ∷ m) t = compile_leaf path l t >>= λ u. compile_leaves m u

  -- compileStaticRoutes on a tree that has no table yet
  unfoldable pub compile_static_routes : ℕ → ℕ → Tree H → Option (RouteTable H)
  unfolding compile_node compile_leaves
  compile_static_routes size num_hash_funcs t = do
    u ←
        compile_node [] t.root
          (record { routes = []; bloom = new_bloom_filter (max size 100) num_hash_funcs })
    compile_leaves t.static_paths u

  -- getRouteWithPath of the table; its getRoute returns the handlers alone
  unfoldable pub get_compiled : Bytes → RouteTable H → Option (Option (StaticRoute H))
  unfolding find_route
  get_compiled path t =
      let found = find_route (fnv.sum64 path) t.routes in
      if ltb (length t.routes) 10
      then some found
      else (do present ← test fnv path t.bloom; some (if present then found else none))
