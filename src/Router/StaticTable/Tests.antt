-- ===== src/Router/StaticTable/Tests.antt =====
-- Runs of the static table of a tree.
use rivaas.Prelude.{
  ℕ, ◌≡◌, refl, List, [], ◌∷◌, some, arith, codes, eqb, contains, cut_suffix, is_empty, split, trim,
  prepend, has_suffix,
}
use rivaas.Compiler.Fnv.{fnv1a}
use rivaas.Router.Radix.{Tree, empty_tree, add_route}
use rivaas.Router.StaticTable.{RouteTable, compile_static_routes, get_compiled, count_static_routes}
use rivaas.Router.StaticTable.Compiled.{entry, compile_static_routes-get_compiled}

abbrev h1 : List ℕ
h1 = 1 ∷ []

abbrev health_tree : Tree ℕ
health_tree =
    add_route (codes "/health") (some h1) []
      (add_route (codes "/users/:id") (some h1) [] empty_tree)

one_static : count_static_routes health_tree ≡ 1
unfolding count_static_routes add_route empty_tree eqb contains cut_suffix is_empty split trim
    prepend has_suffix
one_static = refl

compile_static_routes-get_compiled_example :
    (u : RouteTable ℕ) × (compile_static_routes fnv1a 5 3 health_tree ≡ some u)
    × (get_compiled fnv1a (codes "/health") u ≡ some (some (entry fnv1a (codes "/health") h1)))
unfolding add_route empty_tree eqb contains cut_suffix is_empty
compile_static_routes-get_compiled_example =
    compile_static_routes-get_compiled fnv1a 5 3 health_tree (codes "/health") h1 (omega arith) refl
      (refl, tt)
