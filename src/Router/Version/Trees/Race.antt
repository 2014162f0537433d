-- ===== src/Router/Version/Trees/Race.antt =====
-- The loop of addVersionRoute where another thread swaps.
use rivaas.Prelude.{ℕ, zero, suc, ◌<◌, ◌≤◌, ◌≡◌, refl, ◌∙◌, arith, List, Option, none, some, Bytes}
use rivaas.Router.Radix.{Constraint, Tree}
use rivaas.Router.Version.Trees.{
  VersionTrees, Shared, get_version_tree, compare_and_swap, interfere, grown, swap_rounds,
  add_version_route,
}

module _ {ℓ} {T : Type ℓ} where
  -- Another thread swaps before the load or before the swap of a round.
  abbrev pub Swaps : Option (VersionTrees T) × Option (VersionTrees T) → Type 0
  Swaps (none, none) = ⊥
  Swaps (none, some _) = Unit
  Swaps (some _, _) = Unit

  abbrev pub LacksAfter : Bytes → Bytes → Option (VersionTrees T) → Type ℓ
  LacksAfter ver method none = Unit
  LacksAfter ver method (some trees) = get_version_tree ver method trees ≡ none

  -- What others swap in has no tree for the version and the method.
  abbrev pub Lacks : Bytes → Bytes → Option (VersionTrees T) × Option (VersionTrees T) → Type ℓ
  Lacks ver method o = LacksAfter ver method o.0 × LacksAfter ver method o.1

module _ {ℓ} {H : Type ℓ} where
  interfere_lacks :
      (ver method : Bytes) (o : Option (VersionTrees (Tree H))) (s : Shared (Tree H))
      → get_version_tree ver method s.trees ≡ none
      → LacksAfter ver method o
      → get_version_tree ver method (interfere o s).trees ≡ none
  unfolding interfere
  interfere_lacks ver method none s h k = h
  interfere_lacks ver method (some trees) s h k = k

  pointer-interfere :
      (o : Option (VersionTrees (Tree H))) (s : Shared (Tree H))
      → s.pointer ≤ (interfere o s).pointer
  unfolding interfere
  pointer-interfere none s = omega arith
  pointer-interfere (some trees) s = omega arith

  Swaps-pointer :
      (o : Option (VersionTrees (Tree H)) × Option (VersionTrees (Tree H))) (s : Shared (Tree H))
      → Swaps o
      → s.pointer < (interfere o.1 (interfere o.0 s)).pointer
  unfolding interfere
  Swaps-pointer (none, none) s h = absurd h
  Swaps-pointer (none, some trees) s h = omega arith
  Swaps-pointer (some trees, o) s h =
      omega (arith, pointer-interfere o (record { pointer = suc s.pointer; trees = trees }))

  compare_and_swap-fails :
      (old : ℕ) (trees : VersionTrees (Tree H)) (s : Shared (Tree H))
      → old < s.pointer
      → compare_and_swap old trees s ≡ none
  unfolding compare_and_swap
  compare_and_swap-fails old trees s h = ground arith

  module _ (ver method path : Bytes) (hs : List H) (cs : List Constraint)
      (others : ℕ → Option (VersionTrees (Tree H)) × Option (VersionTrees (Tree H)))
      (lacks : (i : ℕ) → Lacks ver method (others i)) where
    -- A round whose swap comes too late is followed by the next.
    swap_rounds_late :
        (n i first : ℕ) (s : Shared (Tree H))
        → get_version_tree ver method s.trees ≡ none
        → first < (interfere (others i).1 (interfere (others i).0 s)).pointer
        → swap_rounds ver method path hs cs (suc n) i others first s
          ≡ swap_rounds ver method path hs cs n
              (suc i)
              others
              first
              (interfere (others i).1 (interfere (others i).0 s))
    unfolding swap_rounds
    swap_rounds_late n i first s h late =
        rw
          (
            swap_rounds,
            interfere_lacks ver method (others i).0 s h (lacks i).0,
            compare_and_swap-fails first
                (grown ver method path hs cs (interfere (others i).0 s).trees)
                (interfere (others i).1 (interfere (others i).0 s)) late,
          )
          refl

    swap_rounds-lost :
        (n i first : ℕ) (s : Shared (Tree H))
        → get_version_tree ver method s.trees ≡ none
        → first < s.pointer
        → swap_rounds ver method path hs cs n i others first s ≡ none
    unfolding swap_rounds
    swap_rounds-lost zero i first s h late = refl
    swap_rounds-lost (suc n) i first s h late =
        let loaded = interfere (others i).0 s in
        let current = interfere (others i).1 loaded in
        let later : first < current.pointer =
          omega (arith, pointer-interfere (others i).0 s, pointer-interfere (others i).1 loaded) in
        swap_rounds_late n i first s h later
        ∙ swap_rounds-lost n (suc i) first current
            (interfere_lacks ver method (others i).1 loaded
              (interfere_lacks ver method (others i).0 s h (lacks i).0) (lacks i).1)
            later

-- A registration for a new version and method never returns, however many rounds it makes, if another
-- thread swaps the maps during its first round and no other thread makes the tree for it: the swap
-- compares with the pointer that was loaded before the loop.
pub add_version_route-lost {ℓ} :
    {H : Type ℓ} (ver method path : Bytes) (hs : List H) (cs : List Constraint) (rounds : ℕ)
    (others : ℕ → Option (VersionTrees (Tree H)) × Option (VersionTrees (Tree H)))
    (s : Shared (Tree H))
    → get_version_tree ver method s.trees ≡ none
    → Swaps (others 0)
    → ((i : ℕ) → Lacks ver method (others i))
    → add_version_route ver method path hs cs rounds others s ≡ none
unfolding add_version_route swap_rounds
add_version_route-lost ver method path hs cs zero others s new swapped lacks =
    rw (add_version_route, new) refl
add_version_route-lost ver method path hs cs (suc n) others s new swapped lacks =
    let late = Swaps-pointer (others 0) s swapped in
    let loaded = interfere (others 0).0 s in
    rw (add_version_route, new)
      (swap_rounds_late ver method path hs cs others lacks n 0 s.pointer s new late
        ∙ swap_rounds-lost ver method path hs cs others lacks n 1 s.pointer
            (interfere (others 0).1 loaded)
            (interfere_lacks ver method (others 0).1 loaded
              (interfere_lacks ver method (others 0).0 s new (lacks 0).0) (lacks 0).1)
            late)
