-- ===== src/Router/Radix/Wildcards.antt =====
-- Wildcard routes in the tree: what they capture, and which paths reach them.
use rivaas.Prelude.{
  ◌≡◌, refl, sym, ap, ◌∙◌, false, ◌||◌, List, [], ◌∷◌, ◌++◌, Option, none, some, arith,
  if◌then◌else◌, Bytes, codes, eqb, eqb→eq, eqb_refl, is_empty, split, join, trim, cut_suffix, inl,
  inr, Bool-cases, All,
}
use rivaas.Router.Params.{Params, store}
use rivaas.Router.Radix.Defs.{
  Constraint, Leaf, Node, node, Edges, no_edges, Param, no_param, Wildcard, no_wildcard, Tree,
  find_child, enter_child, empty_node, empty_leaf, empty_tree, find_static, default_param_name,
  set_wildcard, add_wildcard, add_route, is_last,
}
use rivaas.Router.Radix.Defs
use rivaas.Router.Radix.Lookup.{Match, walk, get_route, take_leaf, own_leaf, skip_slash, get_static}
use rivaas.Router.Radix.RoundTrip.{get_route-walk}
use rivaas.Router.Radix.Children.{child_of, find_child-enter_child}

abbrev pub IsNamed : Bytes → Type 0
IsNamed s = is_empty s ≡ false

is_last-append : (ps : List Bytes) (v : Bytes) (vs : List Bytes) → is_last (ps ++ v ∷ vs) ≡ false
unfolding is_last
is_last-append [] v vs = refl
is_last-append (s ∷ ps) v vs = refl

module _ {ℓ} {H : Type ℓ} where
  abbrev pub wildcard_name : Wildcard H → Bytes
  wildcard_name no_wildcard = default_param_name
  wildcard_name (Defs.wildcard name l) = name

  -- At the end of the prefix neither an edge nor a parameter takes the segment, and the wildcard
  -- there, if any, has the default name.
  abbrev pub Falls : List Bytes → Bytes → Node H → Type ℓ
  Falls (s ∷ ps) v (node own es pc wc) = Falls ps v (child_of s es)
  Falls [] v (node own es pc wc) =
      (pc ≡ no_param) × (find_child v es ≡ none) × (wildcard_name wc ≡ default_param_name)

  take_wildcard :
      (l : Leaf H) (v : Bytes) (vs : List Bytes) (own : Leaf H) (es : Edges H) (wc : Wildcard H)
      (p : Params)
      → is_empty v ≡ false
      → find_child v es ≡ none
      → wildcard_name wc ≡ default_param_name
      → walk (v ∷ vs) (node own es no_param (set_wildcard l wc)) p
        ≡ take_leaf l (store default_param_name (join b'/' (v ∷ vs)) p)
  unfolding walk set_wildcard
  take_wildcard l v vs own es no_wildcard p e f n = ground arith
  take_wildcard l v vs own es (Defs.wildcard name l') p e f n = ground arith

  -- One segment of the prefix.
  pass_segment :
      (l : Leaf H) (s : Bytes) (ps vs : List Bytes) (own : Leaf H) (es : Edges H) (pc : Param H)
      (wc : Wildcard H) (p : Params)
      → IsNamed s
      → is_last vs ≡ false
      → walk (s ∷ vs) (add_wildcard (s ∷ ps) l (node own es pc wc)) p
        ≡ walk vs (add_wildcard ps l (child_of s es)) p
  unfolding walk add_wildcard
  pass_segment l s ps vs own es pc wc p a more =
      rw (a, more)
        (ground
          (arith, eqb_refl s, find_child-enter_child s s (λ (c : Node H). add_wildcard ps l c) es))

  pub walk-add_wildcard :
      (l : Leaf H) (ps : List Bytes) (v : Bytes) (vs : List Bytes) (n : Node H) (p : Params)
      → All IsNamed ps
      → is_empty v ≡ false
      → Falls ps v n
      → walk (ps ++ v ∷ vs) (add_wildcard ps l n) p
        ≡ take_leaf l (store default_param_name (join b'/' (v ∷ vs)) p)
  walk-add_wildcard l [] v vs (node own es pc wc) p a e (none_p, f, n) =
      rw none_p (unfold add_wildcard in take_wildcard l v vs own es wc p e f n)
  walk-add_wildcard l (s ∷ ps) v vs (node own es pc wc) p (a, more) e f =
      pass_segment l s ps (ps ++ v ∷ vs) own es pc wc p a (is_last-append ps v vs)
      ∙ walk-add_wildcard l ps v vs (child_of s es) p more e f

  own_leaf-add_wildcard :
      (ps : List Bytes) (l : Leaf H)
      → All IsNamed ps
      → own_leaf (add_wildcard ps l empty_node) ≡ empty_leaf
  unfolding own_leaf add_wildcard empty_node
  own_leaf-add_wildcard [] l a = refl
  own_leaf-add_wildcard (s ∷ ps) l (a, more) = rw a

  -- One segment of a path in such a tree.
  fresh_segment :
      (s v : Bytes) (ps vs : List Bytes) (l : Leaf H) (p : Params)
      → IsNamed s
      → All IsNamed ps
      → (walk (v ∷ vs) (add_wildcard (s ∷ ps) l empty_node) p).handlers ≡ (
          if eqb s v
          then (if is_last vs then none else (walk vs (add_wildcard ps l empty_node) p).handlers)
          else none)
  unfolding walk add_wildcard empty_node
  fresh_segment s v ps vs l p a more = rw a (ground (arith, own_leaf-add_wildcard ps l more))

  -- In a tree of its own a wildcard route is reached only by paths that repeat its prefix
  -- literally.
  walk-literal_prefix :
      (ps vs : List Bytes) (l : Leaf H) (p : Params) (hs : List H)
      → All IsNamed ps
      → (walk vs (add_wildcard ps l empty_node) p).handlers ≡ some hs
      → (rest : List Bytes) × (vs ≡ ps ++ rest)
  walk-literal_prefix [] vs l p hs a h = (vs, refl)
  walk-literal_prefix (s ∷ ps) [] l p hs (a, more) h =
      absurd (unfold walk add_wildcard empty_node in ground arith)
  walk-literal_prefix (s ∷ ps) (v ∷ vs) l p hs (a, more) h =
      let step = fresh_segment s v ps vs l p a more in
      elim (Bool-cases (eqb s v)) [
        | inl same ↦ elim (Bool-cases (is_last vs)) [
          | inl last ↦ absurd (ground arith)
          | inr longer ↦
              let (rest, e) = walk-literal_prefix ps vs l p hs more (ground arith) in
              (rest, ground (arith, eqb→eq s v))
        ]
        | inr other ↦ absurd (ground arith)
      ]

-- The segments of a wildcard's prefix.
abbrev pub prefix_segments : Bytes → List Bytes
prefix_segments prefix = if is_empty prefix then [] else split b'/' (trim b'/' prefix)

module _ {ℓ} {H : Type ℓ} where
  add_route_wildcard :
      (pattern prefix : Bytes) (hs : Option (List H)) (cs : List Constraint) (t : Tree H)
      → (eqb pattern (codes "/") || is_empty pattern) ≡ false
      → cut_suffix pattern (codes "/*") ≡ some prefix
      → add_route pattern hs cs t ≡ record t {
        root =
            add_wildcard
              (prefix_segments prefix)
              (record { handlers = hs; constraints = cs; path = pattern })
              t.root;
      }
  unfolding add_route
  add_route_wildcard pattern prefix hs cs t root star = rw (root, star)

  -- A wildcard route captures the rest of the path, slashes included, as the parameter filepath.
  -- Its constraints are not asked.
  pub get_route-add_wildcard :
      (pattern prefix path : Bytes) (t : Tree H) (hs : List H) (cs : List Constraint) (p : Params)
      (v : Bytes) (vs : List Bytes)
      → (eqb pattern (codes "/") || is_empty pattern) ≡ false
      → (eqb path (codes "/") || is_empty path) ≡ false
      → cut_suffix pattern (codes "/*") ≡ some prefix
      → get_static path t ≡ none
      → split b'/' (skip_slash path) ≡ prefix_segments prefix ++ v ∷ vs
      → All IsNamed (v ∷ prefix_segments prefix)
      → Falls (prefix_segments prefix) v t.root
      → get_route path (add_route pattern (some hs) cs t) p ≡ record {
        handlers = some hs;
        pattern = pattern;
        params = store default_param_name (join b'/' (v ∷ vs)) p;
      }
  unfolding get_static take_leaf
  get_route-add_wildcard pattern prefix path t hs cs p v vs root root' star no_static segs
        (e, named) f =
      let l : Leaf H = record { handlers = some hs; constraints = cs; path = pattern } in
      rw (add_route_wildcard pattern prefix (some hs) cs t root star) (
        get_route-walk path (record t { root = add_wildcard (prefix_segments prefix) l t.root }) p
          root' no_static
        ∙ ap (λ segments. walk segments (add_wildcard (prefix_segments prefix) l t.root) p) segs
        ∙ walk-add_wildcard l (prefix_segments prefix) v vs t.root p named e f)

  -- A tree with one wildcard route finds it only on paths that repeat the segments of its prefix
  -- literally, one that looks like a parameter too.
  get_route-literal_prefix :
      (pattern prefix path : Bytes) (hs hs' : List H) (cs : List Constraint) (p : Params)
      → (eqb pattern (codes "/") || is_empty pattern) ≡ false
      → (eqb path (codes "/") || is_empty path) ≡ false
      → cut_suffix pattern (codes "/*") ≡ some prefix
      → All IsNamed (prefix_segments prefix)
      → (get_route path (add_route pattern (some hs) cs empty_tree) p).handlers ≡ some hs'
      → (rest : List Bytes) × (split b'/' (skip_slash path) ≡ prefix_segments prefix ++ rest)
  unfolding get_static find_static empty_tree
  get_route-literal_prefix pattern prefix path hs hs' cs p root root' star named h =
      let l : Leaf H = record { handlers = some hs; constraints = cs; path = pattern } in
      walk-literal_prefix (prefix_segments prefix) (split b'/' (skip_slash path)) l p hs' named (
        ap (λ (m : Match H). m.handlers)
          (sym (
            get_route-walk path
              (record {
                static_paths = [];
                root = add_wildcard (prefix_segments prefix) l empty_node;
              })
              p root' refl))
        ∙ ap (λ u. (get_route path u p).handlers)
            (sym (add_route_wildcard pattern prefix (some hs) cs empty_tree root star))
        ∙ h)
