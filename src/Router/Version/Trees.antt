-- ===== src/Router/Version/Trees.antt =====
-- The trees of the versions (router/versioning.go: getVersionTree, selectRoutingTree,
-- addVersionRoute). The pointer to the maps is a number that grows with every swap, as no address is
-- used twice while a thread holds it. A node is shared by all copies of the maps, so a route that is added
-- to a node shows in the copy that is current.
pub mod Added
pub mod Race
mod Tests
use mathlib.Core.Option
use rivaas.Prelude.{
  ℕ, zero, suc, ◌==◌, List, [], Option, none, some, Bytes, eqb, is_empty, ◌&&◌, ◌||◌, not,
  if◌then◌else◌, ◌>>=◌, find_key, put_key,
}
use rivaas.Router.Radix.{Constraint, Tree, empty_tree, add_route}

-- map[version]map[method]*node
abbrev pub VersionTrees {ℓ} : Type ℓ → Type ℓ
VersionTrees T = List (Bytes × List (Bytes × T))

-- atomicVersionTrees: the pointer, and the maps that it points to. A nil pointer is that of no maps.
pub record Shared {ℓ} (T : Type ℓ) : Type ℓ where
  pub pointer : ℕ
  pub trees : VersionTrees T

module _ {ℓ} {T : Type ℓ} where
  -- getVersionTree
  unfoldable pub get_version_tree : Bytes → Bytes → VersionTrees T → Option T
  get_version_tree ver method trees = find_key ver trees >>= find_key method

  -- newTrees[ver][method] = t, with the map of the version made where there is none
  unfoldable pub put_version_tree : Bytes → Bytes → T → VersionTrees T → VersionTrees T
  put_version_tree ver method t trees =
      put_key ver (put_key method t (Option.get_or (find_key ver trees) [])) trees

  -- selectRoutingTree, of a router with an engine
  unfoldable pub select_routing_tree : Bytes → Bytes → Bytes → VersionTrees T → Option T
  select_routing_tree default_version method ver trees =
      let fallback = get_version_tree default_version method trees in
      if is_empty ver then none else elim (get_version_tree ver method trees) [
        | some t ↦ some t
        | none ↦
            if not (is_empty default_version) && not (eqb ver default_version)
            then fallback
            else none
      ]

  -- atomic.CompareAndSwapPointer
  unfoldable pub compare_and_swap : ℕ → VersionTrees T → Shared T → Option (Shared T)
  compare_and_swap old trees s =
      if s.pointer == old then some (record { pointer = suc s.pointer; trees = trees }) else none

  -- What another thread does between two steps: nothing, or a swap of its own.
  unfoldable pub interfere : Option (VersionTrees T) → Shared T → Shared T
  interfere none s = s
  interfere (some trees) s = record { pointer = suc s.pointer; trees = trees }

module _ {ℓ} {H : Type ℓ} (ver method path : Bytes) (hs : List H) (cs : List Constraint) where
  -- The route in a tree: in the one that is there, or in a new one.
  unfoldable pub grown : VersionTrees (Tree H) → VersionTrees (Tree H)
  grown trees =
      put_version_tree ver method
        (add_route path (some hs) cs (Option.get_or (get_version_tree ver method trees) empty_tree))
        trees

  -- The loop, from its round `i`: what others do before the load and before the swap of a round is
  -- given. The swap compares with the pointer that was loaded before the loop.
  unfoldable pub swap_rounds :
      ℕ
      → ℕ
      → (ℕ → Option (VersionTrees (Tree H)) × Option (VersionTrees (Tree H)))
      → ℕ
      → Shared (Tree H)
      → Option (Shared (Tree H))
  swap_rounds zero i others first s = none
  swap_rounds (suc n) i others first s =
      let loaded = interfere (others i).0 s in
      let current = interfere (others i).1 loaded in
      let again = swap_rounds n (suc i) others first current in
      elim (get_version_tree ver method loaded.trees) [
        | some t ↦ some (record current { trees = grown current.trees })
        | none ↦ elim (compare_and_swap first (grown loaded.trees) current) [
          | some s' ↦ some s'
          | none ↦ again
        ]
      ]

  -- addVersionRoute, for at most that many rounds
  unfoldable pub add_version_route :
      ℕ
      → (ℕ → Option (VersionTrees (Tree H)) × Option (VersionTrees (Tree H)))
      → Shared (Tree H)
      → Option (Shared (Tree H))
  add_version_route rounds others s = elim (get_version_tree ver method s.trees) [
    | some t ↦ some (record s { trees = grown s.trees })
    | none ↦ swap_rounds rounds 0 others s.pointer s
  ]
