-- ===== src/Router/Version/Trees/Added.antt =====
-- What a registration adds to the trees of the versions.
use mathlib.Core.Option
use rivaas.Prelude.{
  ℕ, suc, ==_refl, ◌≡◌, refl, ap, ◌∙◌, ◌&&◌, inl, inr, Bool-cases, Option-cases, List, [], Option,
  none, some, Bytes, eqb, eqb→eq, if◌then◌else◌, ◌>>=◌, find_key, put_key, find_key-put_key,
}
use rivaas.Router.Radix.{Constraint, Tree, empty_tree, add_route}
use rivaas.Router.Version.Trees.{
  VersionTrees, Shared, get_version_tree, put_version_tree, compare_and_swap, interfere, grown,
  swap_rounds, add_version_route,
}

module _ {ℓ} {T : Type ℓ} where
  find_key-or_empty :
      (m : Bytes) (o : Option (List (Bytes × T)))
      → find_key m (Option.get_or o []) ≡ (o >>= find_key m)
  unfolding find_key
  find_key-or_empty m none = refl
  find_key-or_empty m (some inner) = refl

  pub get_version_tree-put_version_tree :
      (ver method v m : Bytes) (t : T) (trees : VersionTrees T)
      → get_version_tree v m (put_version_tree ver method t trees)
        ≡ (if eqb ver v && eqb method m then some t else get_version_tree v m trees)
  unfolding get_version_tree put_version_tree
  get_version_tree-put_version_tree ver method v m t trees =
      let inner = Option.get_or (find_key ver trees) [] in
      rw (find_key-put_key v ver (put_key method t inner) trees) (elim (Bool-cases (eqb ver v)) [
        | inl same ↦ rw same (
            find_key-put_key m method t inner
            ∙ ap (λ r. if eqb method m then some t else r)
                (find_key-or_empty m (find_key ver trees) ∙ rw (eqb→eq ver v same) refl))
        | inr other ↦ rw other refl
      ])

module _ {ℓ} {H : Type ℓ} where
  -- No other thread swaps.
  abbrev pub alone : ℕ → Option (VersionTrees (Tree H)) × Option (VersionTrees (Tree H))
  alone i = (none, none)

  -- A round that no other thread enters swaps.
  swap_rounds-alone :
      (ver method path : Bytes) (hs : List H) (cs : List Constraint) (rounds : ℕ)
      (s : Shared (Tree H))
      → get_version_tree ver method s.trees ≡ none
      → swap_rounds ver method path hs cs (suc rounds) 0 alone s.pointer s
        ≡ some (record { pointer = suc s.pointer; trees = grown ver method path hs cs s.trees })
  unfolding swap_rounds interfere compare_and_swap
  swap_rounds-alone ver method path hs cs rounds s new =
      rw (swap_rounds, new, compare_and_swap, ==_refl s.pointer) refl

  get_version_tree-grown :
      (ver method path v m : Bytes) (hs : List H) (cs : List Constraint)
      (trees : VersionTrees (Tree H))
      → get_version_tree v m (grown ver method path hs cs trees) ≡ (
          if eqb ver v && eqb method m
          then some (
              add_route path
                (some hs)
                cs
                (Option.get_or (get_version_tree ver method trees) empty_tree))
          else get_version_tree v m trees)
  unfolding grown
  get_version_tree-grown ver method path v m hs cs trees =
      get_version_tree-put_version_tree ver method v m _ trees

  -- Without other threads a registration returns in one round, adds the route to the tree of the version
  -- and the method, which it makes where there is none, and leaves all other trees.
  pub get_version_tree-add_version_route :
      (ver method path : Bytes) (hs : List H) (cs : List Constraint) (rounds : ℕ)
      (s : Shared (Tree H))
      → (s' : Shared (Tree H)) × (add_version_route ver method path hs cs (suc rounds) alone s
          ≡ some s')
        × ((v m : Bytes)
            → get_version_tree v m s'.trees ≡ (
                if eqb ver v && eqb method m
                then some (
                    add_route path
                      (some hs)
                      cs
                      (Option.get_or (get_version_tree ver method s.trees) empty_tree))
                else get_version_tree v m s.trees))
  unfolding add_version_route
  get_version_tree-add_version_route ver method path hs cs rounds s =
      elim (Option-cases (get_version_tree ver method s.trees)) [
        | inl new ↦ (
          record { pointer = suc s.pointer; trees = grown ver method path hs cs s.trees },
          rw (add_version_route, new) (swap_rounds-alone ver method path hs cs rounds s new),
          λ v m. get_version_tree-grown ver method path v m hs cs s.trees,
        )
        | inr (t, old) ↦ (
          record s { trees = grown ver method path hs cs s.trees },
          rw (add_version_route, old) refl,
          λ v m. get_version_tree-grown ver method path v m hs cs s.trees,
        )
      ]
