-- ===== src/Router/Radix/Static.antt =====
-- Routes without parameters in the tree, and how registrations stand side by side.
use rivaas.Prelude.{
  ◌≡◌, refl, false, ◌||◌, List, [], ◌∷◌, none, some, arith, if◌then◌else◌, Bytes, codes, eqb,
  eqb_iff, is_empty, contains, cut_suffix,
}
use rivaas.Router.Params.{Params}
use rivaas.Router.Radix.Defs.{Constraint, Leaf, Tree, assign, find_static, add_route}
use rivaas.Router.Radix.Lookup.{get_route, is_some}

module _ {ℓ} {H : Type ℓ} where
  find_static-assign :
      (path key : Bytes) (l : Leaf H) (m : List (Bytes × Leaf H))
      → find_static key (assign path l m) ≡ (if eqb path key then some l else find_static key m)
  unfolding find_static assign
  find_static-assign path key l [] = refl
  find_static-assign path key l ((k, v) ∷ m) =
      ground
        (arith, eqb_iff k path, eqb_iff k key, eqb_iff path key, find_static-assign path key l m)

  -- A route with neither a parameter nor a wildcard is found on its own path, before all others
  -- and whatever its constraints say; on every other path the lookup is as before.
  pub get_route-add_static :
      (pattern path : Bytes) (t : Tree H) (hs : List H) (cs : List Constraint) (p : Params)
      → contains b':' pattern ≡ false
      → cut_suffix pattern (codes "/*") ≡ none
      → (eqb pattern (codes "/") || is_empty pattern) ≡ false
      → get_route path (add_route pattern (some hs) cs t) p ≡ (
          if eqb pattern path
          then record { handlers = some hs; pattern = pattern; params = p }
          else get_route path t p)
  unfolding get_route add_route is_some
  get_route-add_static pattern path t hs cs p colon no_star root = ground (
    arith,
    eqb_iff pattern path,
    find_static-assign pattern path
        (record { handlers = some hs; constraints = cs; path = pattern }) t.static_paths,
  )
