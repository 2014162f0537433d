-- ===== src/Router/Radix/RoundTrip.antt =====
-- A registered route is found: `getRoute` after `addRouteWithConstraints`.
use rivaas.Prelude.{
  split-ne-nil, ◌==◌, ◌≡◌, refl, ◌∙◌, ◌≢◌, true, false, ◌||◌, List, [], ◌∷◌, Option, none, some,
  arith, if◌then◌else◌, Bytes, codes, eqb, eqb_refl, inl, inr, Bool-cases, is_empty, split, trim,
  contains, cut_suffix,
}
use rivaas.Router.Params.{Dict, Params, store}
use rivaas.Router.Radix.Defs.{
  Constraint, Leaf, Node, node, Edges, Param, no_param, Wildcard, Tree, find_child, enter_child,
  empty_node, place, is_param, param_name, add_segments, add_route, set_leaf, is_last, enter_param,
}
use rivaas.Router.Radix.Defs
use rivaas.Router.Radix.Lookup.{
  Match, walk, get_route, get_static, skip_slash, validate_constraints, take_leaf, own_leaf, finish,
  is_some,
}
use rivaas.Router.Radix.Children.{child_of, find_child-enter_child}

-- The segments of a path fit those of a pattern, and these values are captured.
pub data Fits : List Bytes → List Bytes → Dict → Type 0 where
  end : Fits [] [] []
  literal :
      {s : Bytes} {ps vs : List Bytes} {captured : Dict}
      → is_empty s ≡ false
      → is_param s ≡ false
      → Fits ps vs captured
      → Fits (s ∷ ps) (s ∷ vs) captured
  capture :
      {s v : Bytes} {ps vs : List Bytes} {captured : Dict}
      → is_empty s ≡ false
      → is_param s ≡ true
      → is_empty v ≡ false
      → Fits ps vs captured
      → Fits (s ∷ ps) (v ∷ vs) ((param_name s, v) ∷ captured)

Fits-first :
    {ps vs : List Bytes} {v : Bytes} {captured : Dict}
    → Fits ps (v ∷ vs) captured
    → is_empty v ≡ false
Fits-first (literal e q f) = e
Fits-first (capture e q g f) = g

-- A path that fits a pattern is neither "/" nor empty.
Fits-path :
    (ps : List Bytes) (path : Bytes) (captured : Dict)
    → Fits ps (split b'/' (skip_slash path)) captured
    → (eqb path (codes "/") || is_empty path) ≡ false
unfolding eqb is_empty skip_slash split
Fits-path ps [] captured f = Fits-first f
Fits-path ps (a ∷ []) captured f = elim (Bool-cases (a == b'/')) [
  | inl e ↦ absurd (slash_misfit (rw e at f))
  | inr e ↦ rw e
]
  where
    slash_misfit : Fits ps ([] ∷ []) captured → ⊥
    slash_misfit g = ground (arith, Fits-first g)
Fits-path ps (a ∷ b ∷ path) captured f = ground arith

-- A pattern with a parameter is neither "/" nor empty.
colon_pattern :
    (pattern : Bytes)
    → contains b':' pattern ≡ true
    → (eqb pattern (codes "/") || is_empty pattern) ≡ false
unfolding contains eqb is_empty
colon_pattern [] h = cc
colon_pattern (a ∷ []) h = ground arith
colon_pattern (a ∷ b ∷ pattern) h = ground arith

-- The captured values, stored one after the other.
unfoldable pub store_all : Dict → Params → Params
unfolding store
store_all [] p = p
store_all ((key, value) ∷ m) p = store_all m (store key value p)

module _ {ℓ} {H : Type ℓ} where
  unfoldable pub param_child : Param H → Node H
  param_child no_param = empty_node
  param_child (Defs.param key n) = n

  -- The parameter child goes by the name, or is not there.
  abbrev pub KeyIs : Bytes → Param H → Type 0
  KeyIs name no_param = Unit
  KeyIs name (Defs.param key n) = key ≡ name

  -- Nothing in the tree stands before the pattern on this path: where the pattern captures a
  -- segment no edge has the segment for its label, and the parameter there has the pattern's name.
  abbrev pub Clear : List Bytes → List Bytes → Node H → Type ℓ
  Clear [] vs n = Unit
  Clear (s ∷ ps) [] n = Unit
  Clear (s ∷ ps) (v ∷ vs) (node own es pc wc) =
      if is_param s
      then (find_child v es ≡ none) × KeyIs (param_name s) pc × Clear ps vs (param_child pc)
      else Clear ps vs (child_of s es)

  Clear-param :
      (s v : Bytes) (ps vs : List Bytes) (own : Leaf H) (es : Edges H) (pc : Param H)
      (wc : Wildcard H)
      → is_param s ≡ true
      → Clear (s ∷ ps) (v ∷ vs) (node own es pc wc)
      → (find_child v es ≡ none) × KeyIs (param_name s) pc × Clear ps vs (param_child pc)
  Clear-param s v ps vs own es pc wc q c = rw q at c

  -- The rest of `walk` after one segment.
  after : List Bytes → Node H → Params → Match H
  after vs child q = if is_last vs then finish (own_leaf child) q else walk vs child q

  walk_edge :
      (v : Bytes) (vs : List Bytes) (own : Leaf H) (es : Edges H) (pc : Param H) (wc : Wildcard H)
      (p : Params) (child : Node H)
      → is_empty v ≡ false
      → find_child v es ≡ some child
      → after (v ∷ vs) (node own es pc wc) p ≡ after vs child p
  unfolding walk after
  walk_edge v vs own es pc wc p child e f = ground arith

  walk_param :
      (v : Bytes) (vs : List Bytes) (own : Leaf H) (es : Edges H) (wc : Wildcard H) (p : Params)
      (key : Bytes) (child : Node H)
      → is_empty v ≡ false
      → find_child v es ≡ none
      → after (v ∷ vs) (node own es (Defs.param key child) wc) p ≡ after vs child (store key v p)
  unfolding walk after
  walk_param v vs own es wc p key child e f = ground arith

  module _ (l : Leaf H) (some_handlers : is_some l.handlers ≡ true) where
    -- The leaf that was set is taken, if its constraints hold.
    finish-set_leaf :
        (n : Node H) (p : Params)
        → validate_constraints l.constraints p ≡ true
        → finish (own_leaf (set_leaf l n)) p ≡ take_leaf l p
    unfolding finish own_leaf set_leaf
    finish-set_leaf (node own es pc wc) p v = rw (some_handlers, v)

    descend : List Bytes → Node H → Node H
    descend ps child = add_segments ps l (place ps l child)

    descend_literal :
        (s : Bytes) (ps : List Bytes) (own : Leaf H) (es : Edges H) (pc : Param H) (wc : Wildcard H)
        → is_empty s ≡ false
        → is_param s ≡ false
        → descend (s ∷ ps) (node own es pc wc) ≡ node own (enter_child s (descend ps) es) pc wc
    unfolding add_segments descend
    descend_literal s ps own es pc wc e q = rw (e, q)

    descend_param :
        (s : Bytes) (ps : List Bytes) (own : Leaf H) (es : Edges H) (pc : Param H) (wc : Wildcard H)
        → is_empty s ≡ false
        → is_param s ≡ true
        → KeyIs (param_name s) pc
        → descend (s ∷ ps) (node own es pc wc)
          ≡ node own es (Defs.param (param_name s) (descend ps (param_child pc))) wc
    unfolding add_segments descend param_child
    descend_param s ps own es no_param wc e q k = rw (e, q)
    descend_param s ps own es (Defs.param key n) wc e q k = rw (e, q, k)

    after-descend :
        (ps vs : List Bytes) (captured : Dict) (n : Node H) (p : Params)
        → Fits ps vs captured
        → Clear ps vs n
        → validate_constraints l.constraints (store_all captured p) ≡ true
        → after vs (descend ps n) p ≡ take_leaf l (store_all captured p)
    unfolding store_all
    after-descend _ _ _ n p end c v = unfold after add_segments descend in finish-set_leaf n p v
    after-descend (s ∷ ps) (_ ∷ vs) captured (node own es pc wc) p (literal e q f) c v =
        rw (descend_literal s ps own es pc wc e q) (
          walk_edge s vs own (enter_child s (descend ps) es) pc wc p (descend ps (child_of s es)) e
            (find_child-enter_child s s (descend ps) es ∙ rw (eqb_refl s))
          ∙ after-descend ps vs captured (child_of s es) p f (rw q at c) v)
    after-descend (s ∷ ps) (w ∷ vs) ((_, _) ∷ captured) (node own es pc wc) p (capture e q g f) c
          v =
        let (clear, key, rest) = Clear-param s w ps vs own es pc wc q c in
        rw (descend_param s ps own es pc wc e q key) (
          walk_param w vs own es wc p (param_name s) (descend ps (param_child pc)) g clear
          ∙ after-descend ps vs captured (param_child pc) (store (param_name s) w p) f rest v)

    pub walk-add_segments :
        (ps vs : List Bytes) (captured : Dict) (n : Node H) (p : Params)
        → Fits ps vs captured
        → ps ≢ []
        → Clear ps vs n
        → validate_constraints l.constraints (store_all captured p) ≡ true
        → walk vs (add_segments ps l n) p ≡ take_leaf l (store_all captured p)
    unfolding after descend place
    walk-add_segments _ _ _ n p end ne c v = absurd (ne refl)
    walk-add_segments ps vs captured n p (literal e q f) ne c v =
        after-descend ps vs captured n p (literal e q f) c v
    walk-add_segments ps vs captured n p (capture e q g f) ne c v =
        after-descend ps vs captured n p (capture e q g f) c v

  add_route_param :
      (pattern : Bytes) (hs : Option (List H)) (cs : List Constraint) (t : Tree H)
      → contains b':' pattern ≡ true
      → cut_suffix pattern (codes "/*") ≡ none
      → add_route pattern hs cs t ≡ record t {
        root =
            add_segments
              (split b'/' (trim b'/' pattern))
              (record { handlers = hs; constraints = cs; path = pattern })
              t.root;
      }
  unfolding add_route
  add_route_param pattern hs cs t colon no_star = rw (colon_pattern pattern colon, no_star, colon)

  pub get_route-walk :
      (path : Bytes) (t : Tree H) (p : Params)
      → (eqb path (codes "/") || is_empty path) ≡ false
      → get_static path t ≡ none
      → get_route path t p ≡ walk (split b'/' (skip_slash path)) t.root p
  unfolding get_route
  get_route-walk path t p e f = rw (e, f)

  -- A route with parameters whose pattern does not end in a wildcard is found on every path that fits
  -- the pattern, with the captured values stored in order, if the path has no static route, no edge or
  -- parameter of another name stands at the place of a parameter, and the constraints hold.
  pub get_route-add_route :
      (pattern path : Bytes) (t : Tree H) (hs : List H) (cs : List Constraint) (captured : Dict)
      (p : Params)
      → contains b':' pattern ≡ true
      → cut_suffix pattern (codes "/*") ≡ none
      → get_static path t ≡ none
      → Fits (split b'/' (trim b'/' pattern)) (split b'/' (skip_slash path)) captured
      → Clear (split b'/' (trim b'/' pattern)) (split b'/' (skip_slash path)) t.root
      → validate_constraints cs (store_all captured p) ≡ true
      → get_route path (add_route pattern (some hs) cs t) p
        ≡ record { handlers = some hs; pattern = pattern; params = store_all captured p }
  unfolding get_static take_leaf is_some
  get_route-add_route pattern path t hs cs captured p colon no_star no_static f c v =
      let l : Leaf H = record { handlers = some hs; constraints = cs; path = pattern } in
      let segments = split b'/' (trim b'/' pattern) in
      rw (add_route_param pattern (some hs) cs t colon no_star) (
        get_route-walk path (record t { root = add_segments segments l t.root }) p
          (Fits-path segments path captured f) no_static
        ∙ walk-add_segments l refl segments (split b'/' (skip_slash path)) captured t.root p f
            (split-ne-nil b'/' (trim b'/' pattern)) c v)
