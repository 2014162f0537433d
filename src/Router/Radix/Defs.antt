-- ===== src/Router/Radix/Defs.antt =====
-- The route tree (router/radix.go): its nodes, and the registration of a route.
use rivaas.Prelude.{
  Bool, true, false, ◌||◌, List, [], ◌∷◌, Option, none, some, if◌then◌else◌, ◌==◌, Bytes, codes,
  eqb, is_empty, contains, cut_suffix, split, trim,
}

-- route.Constraint. The compiled regular expression is of the package regexp: here it is what its
-- MatchString answers.
pub record Constraint : Type 0 where
  pub param : Bytes
  pub match_string : Bytes → Bool

-- The fields handlers, constraints and path of a node; `none` is a nil slice of handlers.
pub record Leaf {ℓ} (H : Type ℓ) : Type ℓ where
  pub handlers : Option (List H)
  pub constraints : List Constraint
  pub path : Bytes

-- A node with its children: the edges by segment, the parameter child with its key, and the
-- wildcard child, whose node holds a leaf and no children.
mutual
  pub data Node {ℓ} (H : Type ℓ) : Type ℓ where
    node : Leaf H → Edges H → Param H → Wildcard H → Node H

  pub data Edges {ℓ} (H : Type ℓ) : Type ℓ where
    no_edges : Edges H
    edge : Bytes → Node H → Edges H → Edges H

  pub data Param {ℓ} (H : Type ℓ) : Type ℓ where
    no_param : Param H
    param : Bytes → Node H → Param H

  pub data Wildcard {ℓ} (H : Type ℓ) : Type ℓ where
    no_wildcard : Wildcard H
    wildcard : Bytes → Leaf H → Wildcard H

-- The root of a tree: only it has staticPaths, whose nodes hold a leaf and no children.
pub record Tree {ℓ} (H : Type ℓ) : Type ℓ where
  pub static_paths : List (Bytes × Leaf H)
  pub root : Node H

unfoldable pub is_last : List Bytes → Bool
is_last [] = true
is_last (_ ∷ _) = false

-- strings.HasPrefix(segment, ":")
unfoldable pub is_param : Bytes → Bool
is_param [] = false
is_param (a ∷ _) = a == b':'

-- segment[1:]
unfoldable pub param_name : Bytes → Bytes
param_name [] = []
param_name (_ ∷ name) = name

abbrev pub default_param_name : Bytes
default_param_name = codes "filepath"

module _ {ℓ} {H : Type ℓ} where
  -- &node{}
  unfoldable pub empty_leaf : Leaf H
  empty_leaf = record { handlers = none; constraints = []; path = [] }

  unfoldable pub empty_node : Node H
  unfolding empty_leaf
  empty_node = node empty_leaf no_edges no_param no_wildcard

  unfoldable pub empty_tree : Tree H
  unfolding empty_node
  empty_tree = record { static_paths = []; root = empty_node }

  -- findChild
  unfoldable pub find_child : Bytes → Edges H → Option (Node H)
  find_child segment no_edges = none
  find_child segment (edge label n es) = if eqb label segment then some n else find_child segment es

  -- findOrCreateChild, with what is then done to the child
  unfoldable pub enter_child : Bytes → (Node H → Node H) → Edges H → Edges H
  unfolding empty_node
  enter_child segment k no_edges = edge segment (k empty_node) no_edges
  enter_child segment k (edge label n es) =
      if eqb label segment then edge label (k n) es else edge label n (enter_child segment k es)

  -- The parameter child, made if there is none; a child that is there keeps its key.
  unfoldable pub enter_param : Bytes → (Node H → Node H) → Param H → Param H
  unfolding empty_node
  enter_param key k no_param = param key (k empty_node)
  enter_param key k (param key' n) = param key' (k n)

  unfoldable pub set_leaf : Leaf H → Node H → Node H
  set_leaf l (node _ es p w) = node l es p w

  -- The last segment takes the leaf.
  unfoldable pub place : List Bytes → Leaf H → Node H → Node H
  unfolding set_leaf is_last
  place rest l child = if is_last rest then set_leaf l child else child

  -- The loop over the segments of a path with parameters.
  unfoldable pub add_segments : List Bytes → Leaf H → Node H → Node H
  unfolding enter_child enter_param place is_param param_name is_empty
  add_segments [] l n = n
  add_segments (segment ∷ rest) l (node own es p w) =
      let descend = λ (child : Node H). add_segments rest l (place rest l child) in
      let skip = add_segments rest l (node own es p w) in
      if is_empty segment
      then skip
      else if is_param segment
      then node own es (enter_param (param_name segment) descend p) w
      else node own (enter_child segment descend es) p w

  -- The wildcard child, made if there is none, takes the route.
  unfoldable pub set_wildcard : Leaf H → Wildcard H → Wildcard H
  set_wildcard l no_wildcard = wildcard default_param_name l
  set_wildcard l (wildcard name _) = wildcard name l

  -- The loop to the node of a wildcard's prefix. Every segment is an edge here.
  unfoldable pub add_wildcard : List Bytes → Leaf H → Node H → Node H
  unfolding enter_child set_wildcard is_empty
  add_wildcard [] l (node own es p w) = node own es p (set_wildcard l w)
  add_wildcard (segment ∷ rest) l (node own es p w) =
      let descend = λ (child : Node H). add_wildcard rest l child in
      let skip = add_wildcard rest l (node own es p w) in
      if is_empty segment then skip else node own (enter_child segment descend es) p w

  -- staticPaths[path] = …
  unfoldable pub assign : Bytes → Leaf H → List (Bytes × Leaf H) → List (Bytes × Leaf H)
  assign path l [] = (path, l) ∷ []
  assign path l ((key, l') ∷ m) =
      if eqb key path then (path, l) ∷ m else (key, l') ∷ assign path l m

  unfoldable pub find_static : Bytes → List (Bytes × Leaf H) → Option (Leaf H)
  find_static path [] = none
  find_static path ((key, l) ∷ m) = if eqb key path then some l else find_static path m

  -- addRouteWithConstraints
  unfoldable pub add_route : Bytes → Option (List H) → List Constraint → Tree H → Tree H
  unfolding add_segments add_wildcard assign set_leaf is_empty
  add_route path handlers constraints t =
      let l : Leaf H = record { handlers = handlers; constraints = constraints; path = path } in
      if eqb path (codes "/") || is_empty path
      then record t { root = set_leaf l t.root }
      else elim (cut_suffix path (codes "/*")) [
        | some prefix ↦ record t {
          root =
              add_wildcard (if is_empty prefix then [] else split b'/' (trim b'/' prefix)) l t.root;
        }
        | none ↦
            if contains b':' path
            then record t { root = add_segments (split b'/' (trim b'/' path)) l t.root }
            else record t { static_paths = assign path l t.static_paths }
      ]
