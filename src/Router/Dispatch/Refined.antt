-- ===== src/Router/Dispatch/Refined.antt =====
-- A router of static routes answers as the list of its registrations wants.
use rivaas.Prelude.{
  ℕ, Bool, true, false, ◌&&◌, ◌||◌, ◌≡◌, refl, ap, ◌∙◌, List, [], ◌∷◌, ◌++◌, Option, none, some,
  if◌then◌else◌, Bytes, codes, eqb, is_empty, split, Any, inl, inr, Option-cases, Bool-cases,
}
use rivaas.Compiler.Fnv.{Fnv}
use rivaas.Router.Params.{Params, set_param_count, reset}
use rivaas.Router.Radix.{Match, get_route, empty_tree, empty_node, walk, skip_slash, is_last}
use rivaas.Router.StaticTable.{RouteTable, StaticRoute}
use rivaas.Router.StaticTable.Filter.{get_compiled-eq-find_route}
use rivaas.Router.Trees.{get_tree}
use rivaas.Router.Version.Detectors.{Request}
use rivaas.Router.Registration.{Router, Route}
use rivaas.Router.Registration.Calls.{wanted}
use rivaas.Router.Registration.Static.{look, answer}
use rivaas.Router.Registration.Frozen.{if_false, IsValidIfAny, AllValid, get_tree-IsValidIfAny}
use rivaas.Router.Dispatch.{
  Action, served, gone, method_not_allowed, not_found, Outcome, standard_methods,
  pattern_or_unmatched, first_of, run_chain, has_handlers, is_found, in_table, allows_method,
  allowed_methods, error_version, refusal, handle_not_found, handle_not_found_with_obs, serve_tree,
  serve_versions, dispatch, when_observed,
}

walk-empty {ℓ} :
    (H : Type ℓ) (segments : List Bytes) (p : Params)
    → (walk segments (empty_node {H = H}) p).handlers ≡ none
unfolding walk empty_node
walk-empty H [] p = refl
walk-empty H (segment ∷ rest) p = elim (Bool-cases (is_last rest && is_empty segment)) [
  | inl end ↦ rw end refl
  | inr more ↦ rw more refl
]

get_route-empty {ℓ} :
    (H : Type ℓ) (path : Bytes) (p : Params)
    → (get_route path (empty_tree {H = H}) p).handlers ≡ none
unfolding get_route empty_tree
get_route-empty H path p = elim (Bool-cases (eqb path (codes "/") || is_empty path)) [
  | inl root ↦ rw root refl
  | inr other ↦ rw other (walk-empty H (split b'/' (skip_slash path)) p)
]

module _ {ℓ} {H : Type ℓ} where
  -- The outcome of a lookup in the tree.
  abbrev pub tree_outcome : Bool → Match H → Option (Outcome H)
  tree_outcome observed m = elim m.handlers [
    | some hs ↦ some (run_chain observed hs (pattern_or_unmatched m.pattern) m.pattern [] m.params)
    | none ↦ none
  ]

module _ {ℓ} {H : Type ℓ} (fnv : Fnv) where
  in_table_total :
      (path : Bytes) (table : Option (RouteTable H))
      → IsValidIfAny table
      → (found : Option (StaticRoute H)) × (in_table fnv path table ≡ some found)
  unfolding in_table
  in_table_total path none v = (none, refl)
  in_table_total path (some table) v = (_, get_compiled-eq-find_route fnv path table v)

  serve_tree-look :
      (observed : Bool) (r : Router H) (method path : Bytes) (p q : Params)
      → r.use_compiled_routes ≡ false
      → serve_tree fnv observed r method path p q
        ≡ some (tree_outcome observed (look r.trees method path (set_param_count 0 q)))
  unfolding serve_tree in_table
  serve_tree-look observed r method path p q mode = elim (Option-cases (get_tree method r.trees)) [
    | inl unknown ↦ rw (serve_tree, unknown, get_route-empty H path (set_param_count 0 q)) refl
    | inr (t, known) ↦ rw (serve_tree, known, mode, in_table) refl
  ]

module _ {ℓ} {H : Type ℓ} where
  abbrev pub IsRefusal : Action H → Type 0
  IsRefusal (served _ _ _ _) = ⊥
  IsRefusal (gone _) = ⊥
  IsRefusal (method_not_allowed _ _) = Unit
  IsRefusal (not_found _) = Unit

  -- The refusal names the method as one that the path has.
  abbrev pub Lists : Bytes → Action H → Type 0
  Lists m (method_not_allowed methods _) = Any (λ n. n ≡ m) methods
  Lists m _ = ⊥

  -- What the outcome of a request has to be, for the handlers that are wanted: the middleware and these,
  -- or a refusal that names every method for which handlers are wanted on the path.
  abbrev pub Answers :
      Bool → List H → List (Route H) → Bytes → Params → Option (List H) → Outcome H → Type ℓ
  Answers observed middleware rts path p (some handlers) o =
      o ≡ run_chain observed (middleware ++ handlers) (pattern_or_unmatched path) path [] p
  Answers observed middleware rts path p none o =
      IsRefusal o.action
      × (o.ended ≡ when_observed observed (codes "_not_found"))
      × ((m : Bytes) (handlers : List H)
          → Any (λ n. n ≡ m) standard_methods
          → wanted rts m path ≡ some handlers
          → Lists m o.action)

refusal-IsRefusal {ℓ} :
    (H : Type ℓ) (allowed : List Bytes) (version : Bytes)
    → IsRefusal (refusal {H = H} allowed version)
unfolding refusal
refusal-IsRefusal H [] version = tt
refusal-IsRefusal H (m ∷ allowed) version = tt

refusal-Lists {ℓ} :
    (H : Type ℓ) (m : Bytes) (allowed : List Bytes) (version : Bytes)
    → Any (λ n. n ≡ m) allowed
    → Lists m (refusal {H = H} allowed version)
unfolding refusal
refusal-Lists H m [] version h = h
refusal-Lists H m (n ∷ allowed) version h = h

module _ {ℓ} {H : Type ℓ} (fnv : Fnv) (r : Router H) (rts : List (Route H)) (middleware : List H)
    (mode : r.use_compiled_routes ≡ false) (valid : AllValid r.tables)
    (reads : (m path : Bytes) (p : Params)
      → look r.trees m path p
        ≡ answer (wanted rts m path) middleware path p (get_route path empty_tree p)) where
  -- A wanted route is found.
  look-handlers :
      (m path : Bytes) (p : Params) (handlers : List H)
      → wanted rts m path ≡ some handlers
      → (look r.trees m path p).handlers ≡ some (middleware ++ handlers)
  unfolding answer
  look-handlers m path p handlers h = rw (reads m path p, h) refl

  allows_method_total :
      (path method : Bytes) (q : Params)
      → (one : Bool × Params) × (allows_method fnv r path method q ≡ some one)
        × ((handlers : List H) → wanted rts method path ≡ some handlers → one.0 ≡ true)
  unfolding allows_method has_handlers
  allows_method_total path method q =
      let found_handlers = λ (handlers : List H) (h : wanted rts method path ≡ some handlers).
        look-handlers method path (reset q) handlers h in
      elim (Option-cases (get_tree method r.trees)) [
        | inl unknown ↦ (
          (false, reset q),
          rw (allows_method, unknown) refl,
          λ handlers h.
              let e = rw unknown at (found_handlers handlers h) in
              cc (e, get_route-empty H path (reset q)),
        )
        | inr (t, known) ↦
            let (found, e) =
              in_table_total fnv path (get_tree method r.tables)
                (get_tree-IsValidIfAny method r.tables valid) in
            let m = get_route path t (reset q) in
            (
              ((if has_handlers m.handlers then true else is_found found), m.params),
              rw (allows_method, known, e) refl,
              λ handlers h. let e' = rw known at (found_handlers handlers h) in rw e' refl,
            )
      ]

  allowed_methods_total :
      (path : Bytes) (methods : List Bytes) (q : Params)
      → (allowed : List Bytes) × (allowed_methods fnv r path methods q ≡ some allowed)
        × ((m : Bytes) (handlers : List H)
            → Any (λ n. n ≡ m) methods
            → wanted rts m path ≡ some handlers
            → Any (λ n. n ≡ m) allowed)
  unfolding allowed_methods
  allowed_methods_total path [] q = ([], refl, λ m handlers here h. absurd here)
  allowed_methods_total path (method ∷ methods) q =
      let (one, e, own) = allows_method_total path method q in
      let (rest, e', others) = allowed_methods_total path methods one.1 in
      (
        (if one.0 then method ∷ rest else rest),
        rw (allowed_methods, e, e') refl,
        λ m handlers here h. elim (Bool-cases one.0) [
          | inl on ↦
              rw on
                (elim here [ inl same ↦ inl same | inr later ↦ inr (others m handlers later h) ])
          | inr off ↦ rw off (elim here [
            | inl same ↦ cc (own handlers (rw same h), off)
            | inr later ↦ others m handlers later h
          ])
        ],
      )

  module _ (http_date rfc3339 : ℕ → Bytes) (observed : Bool) (method : Bytes) (req : Request)
      (pool : ℕ → Params) where
    refuses :
        (o : Outcome H) × (serve_versions fnv http_date rfc3339 observed r none req method pool
          ≡ some o)
        × Answers observed middleware rts req.path (set_param_count 0 (pool 1)) none o
    unfolding serve_versions handle_not_found_with_obs handle_not_found error_version
    refuses =
        let (allowed, e, lists) = allowed_methods_total req.path standard_methods (pool 3) in
        (
          record {
            action = refusal allowed [];
            headers = [];
            ended = when_observed observed (codes "_not_found");
          },
          rw e refl,
          (
            refusal-IsRefusal H allowed [],
            refl,
            λ m handlers here h. refusal-Lists H m allowed [] (lists m handlers here h),
          ),
        )

    dispatch-look :
        dispatch fnv http_date rfc3339 observed r none method req pool
        ≡ first_of
            (tree_outcome observed (look r.trees method req.path (set_param_count 0 (pool 1))))
            (serve_versions fnv http_date rfc3339 observed r none req method pool)
    unfolding dispatch
    dispatch-look =
        rw
          (
            dispatch,
            if_false r.use_compiled_routes _ _ mode,
            serve_tree-look fnv observed r method req.path (pool 1) (pool 1) mode,
          )
          refl

    answered :
        (w : Option (List H))
        → dispatch fnv http_date rfc3339 observed r none method req pool
          ≡ first_of
              (tree_outcome observed (
                answer w middleware req.path
                  (set_param_count 0 (pool 1))
                  (get_route req.path empty_tree (set_param_count 0 (pool 1)))))
              (serve_versions fnv http_date rfc3339 observed r none req method pool)
        → (o : Outcome H) × (dispatch fnv http_date rfc3339 observed r none method req pool
            ≡ some o)
          × Answers observed middleware rts req.path (set_param_count 0 (pool 1)) w o
    unfolding answer
    answered none e =
        let (o, refused, a) = refuses in
        (o, e ∙ rw (get_route-empty H req.path (set_param_count 0 (pool 1))) refused, a)
    answered (some handlers) e = (_, e, refl)

    -- The outcome of a request on the frozen router.
    pub dispatch-Answers :
        (w : Option (List H))
        → wanted rts method req.path ≡ w
        → (o : Outcome H) × (dispatch fnv http_date rfc3339 observed r none method req pool
            ≡ some o)
          × Answers observed middleware rts req.path (set_param_count 0 (pool 1)) w o
    unfolding answer
    dispatch-Answers w h =
        let q = set_param_count 0 (pool 1) in
        let next = serve_versions fnv http_date rfc3339 observed r none req method pool in
        let found : look r.trees method req.path q
            ≡ answer w middleware req.path q (get_route req.path empty_tree q) =
          reads method req.path q ∙ rw h refl in
        answered w (dispatch-look ∙ ap (λ m. first_of (tree_outcome observed m) next) found)
