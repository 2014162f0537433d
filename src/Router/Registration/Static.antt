-- ===== src/Router/Registration/Static.antt =====
-- Routes without parameters, from the calls to the trees.
use rivaas.Prelude.{
  Bool, true, false, ◌&&◌, ◌||◌, ◌≡◌, refl, ap, ◌∙◌, List, [], ◌∷◌, ◌++◌, Option, none, some,
  if◌then◌else◌, Bytes, codes, eqb, eqb→eq, is_empty, contains, cut_suffix, All, Bool-cases, inl,
  inr,
}
use rivaas.Compiler.Fnv.{Fnv}
use rivaas.Router.Params.{Params}
use rivaas.Router.Radix.{Constraint, Tree, Match, get_route, add_route}
use rivaas.Router.Radix.Static.{get_route-add_static}
use rivaas.Router.Trees.{Method, method_of, MethodTrees, get_tree}
use rivaas.Router.Trees.Lookup.{tree_or_new, get_tree-add_route_to_tree}
use rivaas.Router.Registration.{Route, Router, register_route, register_standard, all_constraints}
use rivaas.Router.Registration.Warmup.{register_all}
use rivaas.Router.Registration.Calls.{own_if, wanted}

-- A path without a parameter and a wildcard, other than the root.
abbrev pub IsStatic : Bytes → Type 0
IsStatic path =
    (contains b':' path ≡ false)
    × (cut_suffix path (codes "/*") ≡ none)
    × ((eqb path (codes "/") || is_empty path) ≡ false)

module _ {ℓ} {H : Type ℓ} where
  -- A route of the standard trees that waits, for a known method and a static path.
  abbrev pub IsPlain : Route H → Type 0
  IsPlain rt =
      (rt.version ≡ [])
      × (rt.registered ≡ false)
      × ((v : Method) × (method_of rt.method ≡ some v))
      × IsStatic rt.path

  -- The lookup of a path in the tree of a method.
  abbrev pub look : MethodTrees (Tree H) → Bytes → Bytes → Params → Match H
  look ts method path p = get_route path (tree_or_new method ts) p

  -- The lookup that finds the middleware and the handlers, where there are some.
  unfoldable pub answer : Option (List H) → List H → Bytes → Params → Match H → Match H
  answer none middleware path p old = old
  answer (some handlers) middleware path p old = record {
    handlers = some (middleware ++ handlers);
    pattern = path;
    params = p;
  }

  answer-own_if :
      (on : Bool) (hs : List H) (later : Option (List H)) (ms : List H) (path : Bytes) (p : Params)
      (old : Match H)
      → answer later ms path p (answer (own_if on hs none) ms path p old)
        ≡ answer (own_if on hs later) ms path p old
  unfolding answer own_if
  answer-own_if on hs (some later) ms path p old = refl
  answer-own_if true hs none ms path p old = refl
  answer-own_if false hs none ms path p old = refl

  -- What a registration in the trees changes for a static path.
  look-add_route_to_tree :
      (pattern method m path : Bytes) (hs ms : List H) (cs : List Constraint) (p : Params)
      (ts ts' : MethodTrees (Tree H))
      → IsStatic pattern
      → get_tree m ts' ≡ (
          if eqb method m
          then some (add_route pattern (some (ms ++ hs)) cs (tree_or_new method ts))
          else get_tree m ts)
      → look ts' m path p
        ≡ answer (own_if (eqb method m && eqb pattern path) hs none) ms path p (look ts m path p)
  unfolding answer own_if
  look-add_route_to_tree pattern method m path hs ms cs p ts ts' (colon, star, root) e =
      elim (Bool-cases (eqb method m)) [
        | inr other ↦ rw (e, other) refl
        | inl same ↦
            rw
              (
                e,
                same,
                get_route-add_static pattern path (tree_or_new method ts) (ms ++ hs) cs p colon star
                    root,
              )
              (elim (Bool-cases (eqb pattern path)) [
                | inl here ↦ rw (here, eqb→eq pattern path here) refl
                | inr there ↦ rw (there, eqb→eq method m same) refl
              ])
      ]

module _ {ℓ} {H : Type ℓ} (fnv : Fnv) (quote_meta : Bytes → Bytes)
    (compile : Bytes → Option (Bytes → Bool)) where
  register_route-IsPlain :
      (rt : Route H) (r : Router H)
      → r.use_compiled_routes ≡ false
      → IsPlain rt
      → (ts : MethodTrees (Tree H)) × (register_route fnv quote_meta compile rt r
          ≡ some (record r { trees = ts }))
        × ((m path : Bytes) (p : Params)
            → look ts m path p
              ≡ answer
                  (own_if (eqb rt.method m && eqb rt.path path) rt.handlers none)
                  r.middleware
                  path
                  p
                  (look r.trees m path p))
  unfolding register_standard register_route all_constraints is_empty
  register_route-IsPlain rt r plain_mode (version, waiting, (v, known), static) =
      let hs = r.middleware ++ rt.handlers in
      let cs = all_constraints fnv quote_meta compile rt in
      let (ts, added, reads) = get_tree-add_route_to_tree rt.method rt.path hs cs r.trees v known in
      (
        ts,
        rw (register_route, version, is_empty, plain_mode, added) refl,
        λ m path p.
            look-add_route_to_tree rt.path rt.method m path rt.handlers r.middleware cs p r.trees ts
              static (reads m),
      )

  -- Static routes are registered without a panic, and after that a lookup finds the last route for its
  -- method and path, behind the middleware, and any other lookup what it found before.
  pub register_all-IsPlain :
      (rts : List (Route H)) (r : Router H)
      → r.use_compiled_routes ≡ false
      → All IsPlain rts
      → (ts : MethodTrees (Tree H)) × (register_all fnv quote_meta compile rts r
          ≡ some (record r { trees = ts }))
        × ((m path : Bytes) (p : Params)
            → look ts m path p
              ≡ answer (wanted rts m path) r.middleware path p (look r.trees m path p))
  unfolding register_all wanted answer
  register_all-IsPlain [] r mode all = (r.trees, refl, λ m path p. refl)
  register_all-IsPlain (rt ∷ rts) r mode (plain, all) =
      let (ts, done, reads) = register_route-IsPlain rt r mode plain in
      let (ts', rest, reads') = register_all-IsPlain rts (record r { trees = ts }) mode all in
      (
        ts',
        rw (plain.1, done) rest,
        λ m path p.
            reads' m path p
            ∙ ap (answer (wanted rts m path) r.middleware path p) (reads m path p)
            ∙ answer-own_if (eqb rt.method m && eqb rt.path path) rt.handlers (wanted rts m path)
                r.middleware path p (look r.trees m path p),
      )
