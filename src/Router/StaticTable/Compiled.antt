-- ===== src/Router/StaticTable/Compiled.antt =====
-- What the compiled static table of a tree answers.
use rivaas.Prelude.{
  ℕ, ◌+◌, ◌<◌, ◌≡◌, refl, ap, ◌∙◌, ◌≢◌, max, false, ◌||◌, List, [], ◌∷◌, Option, none, some, arith,
  ==_iff, ◌>>=◌, if◌then◌else◌, Bytes, eqb, eqb→eq, is_empty, contains, Bool-cases, Option-cases,
  inl, inr,
}
use rivaas.Compiler.Fnv.{Fnv, word}
use rivaas.Compiler.Bloom.{new_bloom_filter, add}
use rivaas.Compiler.Bloom.Membership.{add_total, add-test_hash, new_bloom_filter-IsValid}
use rivaas.Router.Radix.{Leaf, Node, node, Edges, no_edges, edge, Tree}
use rivaas.Router.StaticTable.{
  StaticRoute, RouteTable, put_route, find_route, compile_leaf, compile_node, compile_edges,
  compile_leaves, compile_static_routes, get_compiled, child_path,
}
use rivaas.Router.StaticTable.Filter.{
  IsValid, Present-keeps, Present-put_route, find_route-put_route, get_compiled-eq-find_route,
}

-- A path that the compiler takes: it is not empty and has no parameter.
abbrev pub IsPlain : Bytes → Type 0
IsPlain path = (contains b':' path || is_empty path) ≡ false

module _ {ℓ} {H : Type ℓ} (fnv : Fnv) where
  abbrev pub entry : Bytes → List H → StaticRoute H
  entry path hs = record { path = path; handlers = hs; hash = fnv.sum64 path }

  -- A step that does not panic and leaves a valid table.
  abbrev pub Steps : Option (RouteTable H) → Type ℓ
  Steps r = (u : RouteTable H) × (r ≡ some u) × IsValid u

  add-entry :
      (path : Bytes) (hs : List H) (t : RouteTable H)
      → IsValid t
      → (u : RouteTable H) × ((do
        bloom ← add fnv path t.bloom
        some (record {
          routes = put_route (fnv.sum64 path) (entry path hs) t.routes;
          bloom = bloom;
        }))
          ≡ some u)
        × IsValid u
        × (u.routes ≡ put_route (fnv.sum64 path) (entry path hs) t.routes)
  add-entry path hs t v =
      let (bloom, added, bloom_valid) = add_total fnv path t.bloom v.bloom_valid in
      (
        record { routes = put_route (fnv.sum64 path) (entry path hs) t.routes; bloom = bloom },
        rw added,
        record {
          bloom_valid = bloom_valid;
          present =
              Present-put_route bloom (fnv.sum64 path) (entry path hs) t.routes
                (add-test_hash fnv path t.bloom bloom added)
                (Present-keeps fnv path t.bloom bloom t.routes added v.present);
        },
        refl,
      )

  -- The routes after a leaf.
  abbrev leaf_routes : Bytes → Leaf H → List (ℕ × StaticRoute H) → List (ℕ × StaticRoute H)
  leaf_routes path l m = elim l.handlers [
    | none ↦ m
    | some hs ↦
        if contains b':' path || is_empty path
        then m
        else put_route (fnv.sum64 path) (entry path hs) m
  ]

  compile_leaf_total :
      (path : Bytes) (l : Leaf H) (t : RouteTable H)
      → IsValid t
      → (u : RouteTable H) × (compile_leaf fnv path l t ≡ some u)
        × IsValid u
        × (u.routes ≡ leaf_routes path l t.routes)
  unfolding compile_leaf
  compile_leaf_total path l t v = elim (Option-cases l.handlers) [
    | inl nothing ↦ rw nothing (t, refl, v, refl)
    | inr (hs, e) ↦ elim (Bool-cases (contains b':' path || is_empty path)) [
      | inl skipped ↦ rw (e, skipped) (t, refl, v, refl)
      | inr taken ↦ rw (e, taken) (add-entry path hs t v)
    ]
  ]

  mutual
    unfolding compile_node compile_edges

    compile_node_total :
        (prefix : Bytes) (n : Node H) (t : RouteTable H)
        → IsValid t
        → Steps (compile_node fnv prefix n t)
    compile_node_total prefix (node l es p w) t v =
        let (u, e, v', same) = compile_leaf_total prefix l t v in
        rw e (compile_edges_total prefix es u v')

    compile_edges_total :
        (prefix : Bytes) (es : Edges H) (t : RouteTable H)
        → IsValid t
        → Steps (compile_edges fnv prefix es t)
    compile_edges_total prefix no_edges t v = (t, refl, v)
    compile_edges_total prefix (edge label n es) t v =
        let (u, e, v') = compile_node_total (child_path prefix label) n t v in
        rw e (compile_edges_total prefix es u v')

  -- No path of these has the hash.
  abbrev pub Others : ℕ → List (Bytes × Leaf H) → Type 0
  Others hash [] = Unit
  Others hash ((key, l) ∷ m) = (fnv.sum64 key ≢ hash) × Others hash m

  -- The path is there once, with these handlers, and no other path has its hash.
  abbrev pub OnlyAt : Bytes → List H → List (Bytes × Leaf H) → Type ℓ
  OnlyAt path hs [] = Path (Option (List H)) none (some hs)
  OnlyAt path hs ((key, l) ∷ m) =
      if eqb key path
      then (l.handlers ≡ some hs) × Others (fnv.sum64 path) m
      else (fnv.sum64 key ≢ fnv.sum64 path) × OnlyAt path hs m

  leaf_routes-other :
      (hash : ℕ) (path : Bytes) (l : Leaf H) (m : List (ℕ × StaticRoute H))
      → fnv.sum64 path ≢ hash
      → find_route hash (leaf_routes path l m) ≡ find_route hash m
  leaf_routes-other hash path l m ne = elim (Option-cases l.handlers) [
    | inl nothing ↦ rw nothing
    | inr (hs, e) ↦ elim (Bool-cases (contains b':' path || is_empty path)) [
      | inl skipped ↦ rw (e, skipped)
      | inr taken ↦
          rw (e, taken)
            (find_route-put_route hash (fnv.sum64 path) (entry path hs) m
              ∙ ground (arith, ==_iff (fnv.sum64 path) hash, ne))
    ]
  ]

  -- What a table answers for a hash after some paths were compiled into it.
  abbrev Answers : Option (RouteTable H) → ℕ → Option (StaticRoute H) → Type ℓ
  Answers r hash answer =
      (u : RouteTable H) × (r ≡ some u) × IsValid u × (find_route hash u.routes ≡ answer)

  Others-keep :
      (hash : ℕ) (m : List (Bytes × Leaf H)) (t : RouteTable H) (answer : Option (StaticRoute H))
      → IsValid t
      → Others hash m
      → find_route hash t.routes ≡ answer
      → Answers (compile_leaves fnv m t) hash answer
  unfolding compile_leaves
  Others-keep hash [] t answer v o h = (t, refl, v, h)
  Others-keep hash ((key, l) ∷ m) t answer v (ne, o) h =
      let (u, e, v', same) = compile_leaf_total key l t v in
      rw e (
        Others-keep hash m u answer v' o
          (ap (find_route hash) same ∙ (leaf_routes-other hash key l t.routes ne ∙ h)))

  leaf_routes-own :
      (path : Bytes) (l : Leaf H) (hs : List H) (m : List (ℕ × StaticRoute H))
      → IsPlain path
      → l.handlers ≡ some hs
      → find_route (fnv.sum64 path) (leaf_routes path l m) ≡ some (entry path hs)
  leaf_routes-own path l hs m plain e =
      rw (e, plain)
        (find_route-put_route (fnv.sum64 path) (fnv.sum64 path) (entry path hs) m
          ∙ ground (arith, ==_iff (fnv.sum64 path) (fnv.sum64 path)))

  compile_leaves-OnlyAt :
      (path : Bytes) (hs : List H) (m : List (Bytes × Leaf H)) (t : RouteTable H)
      → IsPlain path
      → IsValid t
      → OnlyAt path hs m
      → Answers (compile_leaves fnv m t) (fnv.sum64 path) (some (entry path hs))
  unfolding compile_leaves
  compile_leaves-OnlyAt path hs [] t plain v o = absurd (ground arith)
  compile_leaves-OnlyAt path hs ((key, l) ∷ m) t plain v o = elim (Bool-cases (eqb key path)) [
    | inl same ↦
        let (h, others) = rw same at o in
        let here : key ≡ path = eqb→eq key path same in
        let (u, e, v', routes) = compile_leaf_total key l t v in
        rw e (
          Others-keep (fnv.sum64 path) m u (some (entry path hs)) v' others (
            ap (find_route (fnv.sum64 path)) routes
            ∙ (ap (λ k. find_route (fnv.sum64 path) (leaf_routes k l t.routes)) here
                ∙ leaf_routes-own path l hs t.routes plain h)))
    | inr other ↦
        let (ne, rest) = rw other at o in
        let (u, e, v', routes) = compile_leaf_total key l t v in
        rw e (compile_leaves-OnlyAt path hs m u plain v' rest)
  ]

  -- Compiling a tree does not panic, and the table then has every static path of the tree, with the
  -- handlers that the tree has for it, unless another path has the same 64-bit hash.
  pub compile_static_routes-get_compiled :
      (size num_hash_funcs : ℕ) (t : Tree H) (path : Bytes) (hs : List H)
      → max size 100 + 63 < word
      → IsPlain path
      → OnlyAt path hs t.static_paths
      → (u : RouteTable H) × (compile_static_routes fnv size num_hash_funcs t ≡ some u)
        × (get_compiled fnv path u ≡ some (some (entry path hs)))
  unfolding compile_static_routes
  compile_static_routes-get_compiled size n t path hs small plain o =
      let empty : RouteTable H = record {
        routes = [];
        bloom = new_bloom_filter (max size 100) n;
      } in
      let (u, e, v) = compile_node_total [] t.root empty (record {
        bloom_valid = new_bloom_filter-IsValid (max size 100) n (omega arith) small;
        present = tt;
      }) in
      let (w, e', v', found) = compile_leaves-OnlyAt path hs t.static_paths u plain v o in
      (w, rw e e', get_compiled-eq-find_route fnv path w v' ∙ ap some found)

  compile_leaves_total :
      (m : List (Bytes × Leaf H)) (t : RouteTable H) → IsValid t → Steps (compile_leaves fnv m t)
  unfolding compile_leaves
  compile_leaves_total [] t v = (t, refl, v)
  compile_leaves_total ((key, l) ∷ m) t v =
      let (u, e, v', same) = compile_leaf_total key l t v in rw e (compile_leaves_total m u v')

  -- Compiling a tree does not panic.
  pub compile_static_routes_total :
      (size num_hash_funcs : ℕ) (t : Tree H)
      → max size 100 + 63 < word
      → Steps (compile_static_routes fnv size num_hash_funcs t)
  unfolding compile_static_routes
  compile_static_routes_total size n t small =
      let (u, e, v) =
        compile_node_total [] t.root
          (record { routes = []; bloom = new_bloom_filter (max size 100) n })
          (record {
            bloom_valid = new_bloom_filter-IsValid (max size 100) n (omega arith) small;
            present = tt;
          }) in
      rw e (compile_leaves_total t.static_paths u v)
