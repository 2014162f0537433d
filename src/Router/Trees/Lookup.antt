-- ===== src/Router/Trees/Lookup.antt =====
-- What a registration changes in the trees of the methods.
use mathlib.Core.Option
use rivaas.Prelude.{
  ◌≡◌, ◌⊎◌, refl, sym, ap, ◌∙◌, Option-cases, codes, true, false, Option, none, some, List, Bytes,
  eqb, if◌then◌else◌, ◌>>=◌, arith, eqb→eq, eqb_refl, Bool-cases, inl, inr,
}
use rivaas.Router.Radix.{Constraint, Tree, empty_tree, add_route}
use rivaas.Router.Trees.{
  Method, get, post, put, delete, patch, head, options, method_of, MethodTrees, no_trees, root_of,
  with_root, get_tree, set_tree, add_route_to_tree,
}

pub root_of-with_root {ℓ} :
    {T : Type ℓ} (v : Method) (t : T) (m : MethodTrees T) → root_of v (with_root v t m) ≡ some t
unfolding root_of with_root
root_of-with_root get t m = refl
root_of-with_root post t m = refl
root_of-with_root put t m = refl
root_of-with_root delete t m = refl
root_of-with_root patch t m = refl
root_of-with_root head t m = refl
root_of-with_root options t m = refl

-- A write to one root leaves the others.
pub root_of-with_root_cases {ℓ} :
    {T : Type ℓ} (v w : Method) (t : T) (m : MethodTrees T)
    → (v ≡ w) ⊎ (root_of w (with_root v t m) ≡ root_of w m)
unfolding root_of with_root
root_of-with_root_cases get get t m = inl refl
root_of-with_root_cases get _ t m = inr refl
root_of-with_root_cases post post t m = inl refl
root_of-with_root_cases post _ t m = inr refl
root_of-with_root_cases put put t m = inl refl
root_of-with_root_cases put _ t m = inr refl
root_of-with_root_cases delete delete t m = inl refl
root_of-with_root_cases delete _ t m = inr refl
root_of-with_root_cases patch patch t m = inl refl
root_of-with_root_cases patch _ t m = inr refl
root_of-with_root_cases head head t m = inl refl
root_of-with_root_cases head _ t m = inr refl
root_of-with_root_cases options options t m = inl refl
root_of-with_root_cases options _ t m = inr refl

-- The text of a method.
abbrev name_of : Method → Bytes
name_of get = codes "GET"
name_of post = codes "POST"
name_of put = codes "PUT"
name_of delete = codes "DELETE"
name_of patch = codes "PATCH"
name_of head = codes "HEAD"
name_of options = codes "OPTIONS"

method_of-name_of : (s : Bytes) (v : Method) → method_of s ≡ some v → s ≡ name_of v
unfolding method_of
method_of-name_of s v h = ground (
  arith,
  eqb→eq s (codes "GET"),
  eqb→eq s (codes "POST"),
  eqb→eq s (codes "PUT"),
  eqb→eq s (codes "DELETE"),
  eqb→eq s (codes "PATCH"),
  eqb→eq s (codes "HEAD"),
  eqb→eq s (codes "OPTIONS"),
)

same_name :
    (s m : Bytes) (v : Method) → method_of s ≡ some v → method_of m ≡ some v → eqb s m ≡ true
same_name s m v h k = rw (method_of-name_of s v h, method_of-name_of m v k) (eqb_refl (name_of v))

module _ {ℓ} {T : Type ℓ} where
  read_other :
      (method m : Bytes) (v : Method) (w : Option Method) (t : T) (ts : MethodTrees T)
      → method_of method ≡ some v
      → method_of m ≡ w
      → eqb method m ≡ false
      → (w >>= λ u. root_of u (with_root v t ts)) ≡ (w >>= λ u. root_of u ts)
  read_other method m v none t ts known e other = refl
  read_other method m v (some u) t ts known e other = elim (root_of-with_root_cases v u t ts) [
    | inl same ↦ cc (same_name method m v known (e ∙ ap some (sym same)))
    | inr kept ↦ kept
  ]

  set_tree-known :
      (method : Bytes) (v : Method) (t : T) (ts : MethodTrees T)
      → method_of method ≡ some v
      → set_tree method t ts ≡ with_root v t ts
  unfolding set_tree
  set_tree-known method v t ts known = rw (known, set_tree) refl

  -- A tree that is set is read under its method, and the other trees are as before.
  get_tree-set_tree :
      (method m : Bytes) (v : Method) (t : T) (ts : MethodTrees T)
      → method_of method ≡ some v
      → get_tree m (set_tree method t ts) ≡ (if eqb method m then some t else get_tree m ts)
  unfolding get_tree
  get_tree-set_tree method m v t ts known =
      rw (set_tree-known method v t ts known) (elim (Bool-cases (eqb method m)) [
        | inl same ↦ rw (same, ← eqb→eq method m same, known) (root_of-with_root v t ts)
        | inr other ↦ rw other (read_other method m v (method_of m) t ts known refl other)
      ])

root_of-no_trees {ℓ} : (T : Type ℓ) (v : Method) → root_of v (no_trees {T = T}) ≡ none
unfolding root_of no_trees
root_of-no_trees T get = refl
root_of-no_trees T _ = refl

pub get_tree-no_trees {ℓ} :
    (T : Type ℓ) (method : Bytes) → get_tree method (no_trees {T = T}) ≡ none
unfolding get_tree
get_tree-no_trees T method = elim (Option-cases (method_of method)) [
  | inl unknown ↦ rw unknown refl
  | inr (v, known) ↦ rw known (root_of-no_trees T v)
]

module _ {ℓ} {H : Type ℓ} where
  -- The tree of a method, or the one that a registration makes.
  abbrev pub tree_or_new : Bytes → MethodTrees (Tree H) → Tree H
  tree_or_new method ts = Option.get_or (get_tree method ts) empty_tree

  -- A registration for a known method returns, adds the route to the tree of the method, which it makes
  -- where there is none, and leaves the trees of the other methods.
  pub get_tree-add_route_to_tree :
      (method path : Bytes) (hs : List H) (cs : List Constraint) (ts : MethodTrees (Tree H))
      (v : Method)
      → method_of method ≡ some v
      → (ts' : MethodTrees (Tree H)) × (add_route_to_tree method path hs cs ts ≡ some ts')
        × ((m : Bytes)
            → get_tree m ts' ≡ (
                if eqb method m
                then some (add_route path (some hs) cs (tree_or_new method ts))
                else get_tree m ts))
  unfolding add_route_to_tree
  get_tree-add_route_to_tree method path hs cs ts v known =
      elim (Option-cases (get_tree method ts)) [
        | inl new ↦ (
          set_tree method (add_route path (some hs) cs empty_tree) ts,
          rw
              (
                add_route_to_tree,
                new,
                get_tree-set_tree method method v empty_tree ts known,
                eqb_refl method,
              )
              refl,
          λ m. rw new (get_tree-set_tree method m v _ ts known),
        )
        | inr (t, old) ↦ (
          set_tree method (add_route path (some hs) cs t) ts,
          rw (add_route_to_tree, old) refl,
          λ m. rw old (get_tree-set_tree method m v _ ts known),
        )
      ]

  get_tree_unknown :
      (method : Bytes) (ts : MethodTrees (Tree H))
      → method_of method ≡ none
      → get_tree method ts ≡ none
  unfolding get_tree
  get_tree_unknown method ts h = rw (get_tree, h) refl

  -- A method that no switch knows ends in the panic.
  pub add_route_to_tree-panic :
      (method path : Bytes) (hs : List H) (cs : List Constraint) (ts : MethodTrees (Tree H))
      → method_of method ≡ none
      → add_route_to_tree method path hs cs ts ≡ none
  unfolding add_route_to_tree
  add_route_to_tree-panic method path hs cs ts h =
      rw
        (
          add_route_to_tree,
          get_tree_unknown method ts h,
          get_tree_unknown method (set_tree method empty_tree ts) h,
        )
        refl
