-- ===== src/Router/Registration/Warmup.antt =====
-- Warmup and Freeze (router/compile.go, router/route_bridge.go). A route that waits is registered unless
-- it is already. Go visits the maps of the versions in no order: here it is that of the list.
use rivaas.Prelude.{
  ℕ, Bool, true, List, [], ◌∷◌, ◌++◌, Option, none, some, ◌>>=◌, ◌==◌, if◌then◌else◌, Bytes,
  put_key, length,
}
use rivaas.Compiler.Fnv.{Fnv}
use rivaas.Compiler.Bloom.{new_bloom_filter}
use rivaas.Compiler.Table
use rivaas.Router.Radix.{Tree}
use rivaas.Router.StaticTable.{
  RouteTable, optimal_bloom_filter_size, count_static_routes, compile_static_routes, compile_node,
  compile_leaves,
}
use rivaas.Router.Trees.{Method, get, post, put, delete, patch, head, options, root_of, with_root}
use rivaas.Router.Registration.{Route, Router, register_route}

abbrev pub default_bloom_filter_size : ℕ
default_bloom_filter_size = 1000

-- The size for a tree: that of the router, or one for the routes of the tree.
unfoldable pub bloom_size : ℕ → ℕ → ℕ
bloom_size size route_count =
    if size == default_bloom_filter_size
    then optimal_bloom_filter_size default_bloom_filter_size route_count
    else size

module _ {ℓ} {H : Type ℓ} (fnv : Fnv) (quote_meta : Bytes → Bytes)
    (compile : Bytes → Option (Bytes → Bool)) where
  -- Phase 1 of doWarmup
  unfoldable pub register_all : List (Route H) → Router H → Option (Router H)
  unfolding register_route
  register_all [] r = some r
  register_all (rt ∷ rts) r =
      (if rt.registered then some r else register_route fnv quote_meta compile rt r)
      >>= register_all rts

  -- compileRoutesForMethod
  unfoldable pub compile_method : Method → Router H → Option (Router H)
  unfolding bloom_size
  compile_method m r = elim (root_of m r.trees) [
    | none ↦ some r
    | some t ↦
        compile_static_routes fnv (bloom_size r.bloom_filter_size (count_static_routes t))
          r.bloom_hash_functions t
        >>= λ table. some (record r { tables = with_root m table r.tables })
  ]

  unfoldable pub compile_methods : List Method → Router H → Option (Router H)
  unfolding compile_method
  compile_methods [] r = some r
  compile_methods (m ∷ ms) r = compile_method m r >>= compile_methods ms

  -- CompileAllRoutes, in the order of iterate
  unfoldable pub compile_all_routes : Router H → Option (Router H)
  unfolding compile_methods
  compile_all_routes r = compile_methods (get ∷ post ∷ put ∷ delete ∷ patch ∷ head ∷ options ∷ []) r

  -- The table of one tree of a version, which is kept unless it is empty.
  unfoldable pub store_table : Bytes → RouteTable H → Router H → Router H
  store_table key table r =
      if length table.routes == 0
      then r
      else record r { version_cache = put_key key table r.version_cache }

  unfoldable pub compile_version_tree : Bytes → Bytes → Tree H → Router H → Option (Router H)
  unfolding bloom_size store_table
  compile_version_tree version method t r =
      let routes = count_static_routes t in
      if routes == 0 then some r else (do
        u ← compile_node fnv [] t.root (record {
          routes = [];
          bloom = new_bloom_filter (bloom_size r.bloom_filter_size routes) r.bloom_hash_functions;
        })
        table ← compile_leaves fnv t.static_paths u
        some (store_table (version ++ b':' ∷ method) table r))

  unfoldable pub compile_version : Bytes → List (Bytes × Tree H) → Router H → Option (Router H)
  unfolding compile_version_tree
  compile_version version [] r = some r
  compile_version version ((method, t) ∷ trees) r =
      compile_version_tree version method t r >>= compile_version version trees

  -- compileVersionRoutes
  unfoldable pub compile_versions :
      List (Bytes × List (Bytes × Tree H)) → Router H → Option (Router H)
  unfolding compile_version
  compile_versions [] r = some r
  compile_versions ((version, trees) ∷ versions) r =
      compile_version version trees r >>= compile_versions versions

  unfoldable pub compile_version_routes : Router H → Option (Router H)
  unfolding compile_versions
  compile_version_routes r = if r.has_engine then compile_versions r.versions.trees r else some r

  -- doWarmup
  unfoldable pub do_warmup : Router H → Option (Router H)
  unfolding register_all compile_all_routes compile_version_routes
  do_warmup r = do
    registered ← register_all r.pending (record r { warmed_up = true; pending = [] })
    compiled ← compile_all_routes registered
    compile_version_routes compiled

  -- Warmup
  unfoldable pub warmup : Router H → Option (Router H)
  unfolding do_warmup
  warmup r = if r.warmed_up then some r else do_warmup r

  -- Freeze, without the snapshot of the named routes
  unfoldable pub freeze : Router H → Option (Router H)
  unfolding warmup
  freeze r =
      if r.frozen
      then some r
      else (warmup (record r { frozen = true }) >>= λ w.
          some (record w { route_compiler = Table.freeze w.route_compiler }))
