-- ===== src/Router/Version/Trees/Tests.antt =====
-- Registrations of routes for a version.
use mathlib.Core.Option
use rivaas.Prelude.{
  ℕ, zero, suc, ◌≡◌, refl, [], ◌∷◌, Option, none, some, Bytes, codes, eqb, ◌&&◌, if◌then◌else◌,
  find_key,
}
use rivaas.Router.Radix.{Tree, empty_tree, add_route}
use rivaas.Router.Version.Trees.{VersionTrees, Shared, get_version_tree, add_version_route}
use rivaas.Router.Version.Trees.Added.{alone, get_version_tree-add_version_route}
use rivaas.Router.Version.Trees.Race.{Lacks, add_version_route-lost}

abbrev other_trees : VersionTrees (Tree ℕ)
other_trees = (codes "v2", (codes "GET", empty_tree) ∷ []) ∷ []

abbrev before : Shared (Tree ℕ)
before = record { pointer = 3; trees = other_trees }

-- The other thread swaps once, in the first round.
abbrev once : ℕ → Option (VersionTrees (Tree ℕ)) × Option (VersionTrees (Tree ℕ))
once zero = (none, some other_trees)
once (suc i) = (none, none)

get_version_tree-add_version_route_example :
    (s : Shared (Tree ℕ)) × (add_version_route
        (codes "v1")
        (codes "GET")
        (codes "/users")
        (7 ∷ [])
        []
        1
        alone
        before
      ≡ some s)
    × ((v m : Bytes)
        → get_version_tree v m s.trees ≡ (
            if eqb (codes "v1") v && eqb (codes "GET") m
            then some (
                add_route (codes "/users") (some (7 ∷ [])) [] (
                  Option.get_or
                    (get_version_tree (codes "v1") (codes "GET") other_trees)
                    empty_tree))
            else get_version_tree v m other_trees))
get_version_tree-add_version_route_example =
    get_version_tree-add_version_route (codes "v1") (codes "GET") (codes "/users") (7 ∷ []) [] 0
      before

once-Lacks : (i : ℕ) → Lacks (codes "v1") (codes "GET") (once i)
unfolding get_version_tree find_key eqb
once-Lacks zero = (tt, refl)
once-Lacks (suc i) = (tt, tt)

add_version_route-lost_example :
    add_version_route (codes "v1") (codes "GET") (codes "/users") (7 ∷ []) [] 1000 once before
    ≡ none
unfolding get_version_tree find_key eqb
add_version_route-lost_example =
    add_version_route-lost (codes "v1") (codes "GET") (codes "/users") (7 ∷ []) [] 1000 once before
      refl tt once-Lacks
