-- ===== src/Router/Trees.antt =====
-- The trees of the methods (router/routes.go: methodTrees; router/router.go: addRouteToTree,
-- updateTrees). Routes are registered by one thread, so the loop of updateTrees is made once.
pub mod Lookup
use rivaas.Prelude.{Option, none, some, List, Bytes, codes, eqb, if◌then◌else◌, ◌>>=◌}
use rivaas.Router.Radix.{Constraint, Tree, empty_tree, add_route}
use mathlib.Core.Option

-- The methods of the switches.
pub data Method : Type 0 where
  get : Method
  post : Method
  put : Method
  delete : Method
  patch : Method
  head : Method
  options : Method

unfoldable pub method_of : Bytes → Option Method
method_of s =
    if eqb s (codes "GET")
    then some get
    else if eqb s (codes "POST")
    then some post
    else if eqb s (codes "PUT")
    then some put
    else if eqb s (codes "DELETE")
    then some delete
    else if eqb s (codes "PATCH")
    then some patch
    else if eqb s (codes "HEAD")
    then some head
    else if eqb s (codes "OPTIONS")
    then some options
    else none

pub record MethodTrees {ℓ} (T : Type ℓ) : Type ℓ where
  pub get_root : Option T
  pub post_root : Option T
  pub put_root : Option T
  pub delete_root : Option T
  pub patch_root : Option T
  pub head_root : Option T
  pub options_root : Option T

module _ {ℓ} {T : Type ℓ} where
  unfoldable pub no_trees : MethodTrees T
  no_trees = record {
    get_root = none;
    post_root = none;
    put_root = none;
    delete_root = none;
    patch_root = none;
    head_root = none;
    options_root = none;
  }

  unfoldable pub root_of : Method → MethodTrees T → Option T
  root_of get m = m.get_root
  root_of post m = m.post_root
  root_of put m = m.put_root
  root_of delete m = m.delete_root
  root_of patch m = m.patch_root
  root_of head m = m.head_root
  root_of options m = m.options_root

  unfoldable pub with_root : Method → T → MethodTrees T → MethodTrees T
  with_root get t m = record m { get_root = some t }
  with_root post t m = record m { post_root = some t }
  with_root put t m = record m { put_root = some t }
  with_root delete t m = record m { delete_root = some t }
  with_root patch t m = record m { patch_root = some t }
  with_root head t m = record m { head_root = some t }
  with_root options t m = record m { options_root = some t }

  -- getTree
  unfoldable pub get_tree : Bytes → MethodTrees T → Option T
  get_tree method m = method_of method >>= λ v. root_of v m

  -- setTree
  unfoldable pub set_tree : Bytes → T → MethodTrees T → MethodTrees T
  set_tree method t m = elim (method_of method) [ none ↦ m | some v ↦ with_root v t m ]

module _ {ℓ} {H : Type ℓ} where
  -- addRouteToTree. For a method that no switch knows the new tree is not kept, and the route is added
  -- to a nil node: `none` is the panic.
  unfoldable pub add_route_to_tree :
      Bytes
      → Bytes
      → List H
      → List Constraint
      → MethodTrees (Tree H)
      → Option (MethodTrees (Tree H))
  add_route_to_tree method path handlers constraints m = elim (get_tree method m) [
    | some t ↦ some (set_tree method (add_route path (some handlers) constraints t) m)
    | none ↦ get_tree method (set_tree method empty_tree m) >>= λ t.
        some (set_tree method (add_route path (some handlers) constraints t) m)
  ]
