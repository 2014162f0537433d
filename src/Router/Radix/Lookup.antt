-- ===== src/Router/Radix/Lookup.antt =====
-- The lookup of a path in the route tree (router/radix.go: getRoute, validateConstraints).
use mathlib.Core.Option
use rivaas.Prelude.{
  ℕ, zero, suc, ◌+◌, Bool, true, false, ◌&&◌, ◌||◌, not, List, [], ◌∷◌, ◌++◌, Option, none, some,
  leb, if◌then◌else◌, ◌==◌, length, get_elem?, Bytes, codes, eqb, is_empty, split, join,
}
use rivaas.Router.Params.{Dict, Params, Read, found, missing, panic, lookup, insert, param, store}
use rivaas.Router.Radix.Defs.{
  Constraint, Leaf, Node, node, Edges, Param, no_param, Wildcard, no_wildcard, wildcard, Tree,
  find_child, find_static, default_param_name, is_last,
}
use rivaas.Router.Radix.Defs

-- A constraint on what was read. The slots that are read exist (`param-ne-panic`).
unfoldable pub holds : (Bytes → Bool) → Read → Bool
holds match_string (found v) = match_string v
holds match_string missing = false
holds match_string panic = false

-- The path for few constraints: each name is looked up in the slots, then in the map.
unfoldable pub validate_few : List Constraint → Params → Bool
unfolding holds param
validate_few [] p = true
validate_few (c ∷ cs) p = holds c.match_string (param c.param p) && validate_few cs p

-- The path for many constraints: the slots go into one map, in order, and the overflow over them.
unfoldable pub collect : ℕ → ℕ → Params → Dict → Dict
unfolding insert
collect zero i p m = m
collect (suc n) i p m =
    collect n (i + 1) p
      (insert (Option.get_or (get_elem? p.keys i) []) (Option.get_or (get_elem? p.values i) []) m)

unfoldable pub merged : Params → Dict
unfolding collect
merged p = Option.get_or p.overflow [] ++ collect p.count 0 p []

unfoldable pub holds_in : (Bytes → Bool) → Option Bytes → Bool
holds_in match_string none = false
holds_in match_string (some v) = match_string v

unfoldable pub validate_many : List Constraint → Dict → Bool
unfolding holds_in lookup
validate_many [] m = true
validate_many (c ∷ cs) m = holds_in c.match_string (lookup c.param m) && validate_many cs m

-- validateConstraints
unfoldable pub validate_constraints : List Constraint → Params → Bool
unfolding validate_few validate_many merged
validate_constraints [] p = true
validate_constraints (c ∷ cs) p =
    if leb (length (c ∷ cs)) 3 || leb p.count 4
    then validate_few (c ∷ cs) p
    else validate_many (c ∷ cs) (merged p)

-- path[1:] after a leading slash
unfoldable pub skip_slash : Bytes → Bytes
skip_slash [] = []
skip_slash (a ∷ path) = if a == b'/' then path else a ∷ path

-- What getRoute returns, and the context that it leaves.
pub record Match {ℓ} (H : Type ℓ) : Type ℓ where
  pub handlers : Option (List H)
  pub pattern : Bytes
  pub params : Params

module _ {ℓ} {H : Type ℓ} where
  unfoldable pub not_found : Params → Match H
  not_found p = record { handlers = none; pattern = []; params = p }

  unfoldable pub is_some : Option (List H) → Bool
  is_some none = false
  is_some (some _) = true

  unfoldable pub take_leaf : Leaf H → Params → Match H
  take_leaf l p = record { handlers = l.handlers; pattern = l.path; params = p }

  -- The end of the loop at the last segment.
  unfoldable pub finish : Leaf H → Params → Match H
  unfolding is_some not_found take_leaf validate_constraints
  finish l p =
      if is_some l.handlers && not (validate_constraints l.constraints p)
      then not_found p
      else take_leaf l p

  unfoldable pub own_leaf : Node H → Leaf H
  own_leaf (node l _ _ _) = l

  -- The loop over the segments. What is left of the path is the list of its segments, from the one
  -- that begins at `start`; an empty last segment is the end of the path.
  unfoldable pub walk : List Bytes → Node H → Params → Match H
  unfolding finish find_child is_empty is_last join store not_found own_leaf take_leaf
  walk [] n p = not_found p
  walk (segment ∷ rest) (node own es pc wc) p =
      let go = λ (child : Node H) (q : Params).
        if is_last rest then finish (own_leaf child) q else walk rest child q in
      if is_last rest && is_empty segment then not_found p else elim (find_child segment es) [
        | some child ↦ go child p
        | none ↦ elim pc [
          | Defs.param key child ↦ go child (store key segment p)
          | no_param ↦ elim wc [
            | wildcard name l ↦ take_leaf l (
                store (if is_empty name then default_param_name else name)
                  (join b'/' (segment ∷ rest)) p)
            | no_wildcard ↦ not_found p
          ]
        ]
      ]

  unfoldable pub get_static : Bytes → Tree H → Option (Leaf H)
  unfolding find_static is_some
  get_static path t = elim (find_static path t.static_paths) [
    | none ↦ none
    | some l ↦ if is_some l.handlers then some l else none
  ]

  -- getRoute
  unfoldable pub get_route : Bytes → Tree H → Params → Match H
  unfolding walk get_static skip_slash own_leaf is_empty take_leaf
  get_route path t p =
      if eqb path (codes "/") || is_empty path
      then take_leaf (own_leaf t.root) p
      else elim (get_static path t) [
        | some l ↦ take_leaf l p
        | none ↦ walk (split b'/' (skip_slash path)) t.root p
      ]
