-- ===== src/Router/Dispatch/Live.antt =====
-- Which version a chain may run for, and that its observation ends.
use rivaas.Prelude.{
  ℕ, Bool, ◌≡◌, List, [], ◌∷◌, ◌++◌, Option, none, some, ◌>>=◌, if◌then◌else◌, Bytes, codes,
  find_key, Option-cases, inl, inr,
}
use rivaas.Compiler.Fnv.{Fnv}
use rivaas.Compiler.Table.{lookup_static}
use rivaas.Compiler.Match.{match_dynamic}
use rivaas.Router.Params.{Params, set_param_count}
use rivaas.Router.Radix.{Tree, get_route}
use rivaas.Router.Trees.{get_tree}
use rivaas.Router.Version.Detectors.{Request}
use rivaas.Router.Version.Engine.{process_versioning}
use rivaas.Router.Version.Trees.{select_routing_tree}
use rivaas.Router.Registration.{Router}
use rivaas.Router.Dispatch.{
  Outcome, Engine, when_observed, in_table, allowed_methods, error_version, standard_methods,
  handle_not_found, handle_not_found_with_obs, serve_compiled, serve_tree, serve_version_tree,
  serve_versioned, serve_versions, dispatch,
}
use rivaas.Router.Dispatch.Sound.{
  IsSound, Results, Finds, bind_Results, bind_Finds, then_Results, compiled_if, run_chain-IsSound,
  refusal-Sound, tree_outcome-Results, run_version-IsSound,
}

module _ {ℓ} {H : Type ℓ} (fnv : Fnv) (observed : Bool) (r : Router H)
    (engine : Option Engine) where
  handle_not_found-Results :
      (told : Option Engine) (req : Request) (q : Params) (headers : List (Bytes × Bytes))
      (ended : Option Bytes)
      → Results observed engine (
          handle_not_found fnv r told req q >>= λ action.
          some (record { action = action; headers = headers; ended = ended }))
  unfolding handle_not_found
  handle_not_found-Results told req q headers ended =
      elim (Option-cases (allowed_methods fnv r req.path standard_methods q)) [
        | inl panics ↦ rw (handle_not_found, panics) tt
        | inr (allowed, e) ↦ elim (Option-cases (error_version told req)) [
          | inl panics ↦ rw (handle_not_found, e, panics) tt
          | inr (version, e') ↦
              rw (handle_not_found, e, e') (refusal-Sound H observed engine allowed version ended)
        ]
      ]

  handle_not_found_with_obs-Results :
      (told : Option Engine) (req : Request) (q : Params)
      → Results observed engine (handle_not_found_with_obs fnv observed r told req q)
  unfolding handle_not_found_with_obs
  handle_not_found_with_obs-Results told req q =
      handle_not_found-Results told req q [] (when_observed observed (codes "_not_found"))

  serve_compiled-Finds :
      (method path : Bytes) (p : Params)
      → Finds observed engine (serve_compiled fnv observed r method path p)
  unfolding serve_compiled
  serve_compiled-Finds method path p =
      bind_Finds observed engine (lookup_static method path r.route_compiler) _ (λ static.
        elim (Option-cases static) [
          | inr (rt, e) ↦ rw e (
              run_chain-IsSound observed engine rt.handlers rt.pattern rt.pattern
                (set_param_count 0 p))
          | inl e ↦ rw e (
              bind_Finds observed engine
                (match_dynamic method path r.route_compiler (set_param_count 0 p)) _
                (λ result. elim (Option-cases result.0) [
                  | inr (rt, e') ↦
                      rw e' (
                        run_chain-IsSound observed engine rt.handlers rt.pattern rt.pattern
                          result.1)
                  | inl e' ↦ rw e' tt
                ]))
        ])

  serve_tree-Finds :
      (method path : Bytes) (p q : Params)
      → Finds observed engine (serve_tree fnv observed r method path p q)
  unfolding serve_tree
  serve_tree-Finds method path p q = elim (Option-cases (get_tree method r.trees)) [
    | inl unknown ↦ rw (serve_tree, unknown) tt
    | inr (t, known) ↦
        rw (serve_tree, known)
          (bind_Finds observed engine
            (in_table fnv path (if r.use_compiled_routes then get_tree method r.tables else none)) _
            (λ static. elim (Option-cases static) [
              | inr (sr, e) ↦
                  rw e
                    (run_chain-IsSound observed engine sr.handlers path path (set_param_count 0 p))
              | inl e ↦
                  rw e
                    (tree_outcome-Results observed engine (get_route path t (set_param_count 0 q)))
            ]))
  ]

module _ {ℓ} {H : Type ℓ} (fnv : Fnv) (http_date rfc3339 : ℕ → Bytes) (observed : Bool)
    (r : Router H) (req : Request) where
  serve_version_tree-Results :
      (e : Engine) (t : Tree H) (path version : Bytes) (p q : Params)
      → Results observed
          (some e)
          (serve_version_tree fnv http_date rfc3339 observed r e req t path version p q)
  unfolding serve_version_tree
  serve_version_tree-Results e t path version p q =
      let m = get_route path t (set_param_count 0 p) in
      elim (Option-cases m.handlers) [
        | inl nothing ↦
            rw (serve_version_tree, nothing)
              (handle_not_found-Results fnv observed r (some e) (some e) req q [] none)
        | inr (hs, found) ↦
            rw (serve_version_tree, found)
              (run_version-IsSound fnv http_date rfc3339 observed e version hs _ m.pattern m.params)
      ]

  serve_versioned-Results :
      (e : Engine) (method : Bytes) (t : Tree H) (path version : Bytes) (pool : ℕ → Params)
      → Results observed
          (some e)
          (serve_versioned fnv http_date rfc3339 observed r e req method t path version pool)
  unfolding serve_versioned
  serve_versioned-Results e method t path version pool =
      bind_Results observed (some e)
        (in_table fnv path (find_key (version ++ b':' ∷ method) r.version_cache)) _
        (λ static. elim (Option-cases static) [
          | inr (sr, s) ↦ rw s (
              run_version-IsSound fnv http_date rfc3339 observed e version sr.handlers sr.path
                sr.path (set_param_count 0 (pool 2)))
          | inl s ↦ rw s (serve_version_tree-Results e t path version (pool 2) (pool 3))
        ])

  serve_versions-Results :
      (engine : Option Engine) (method : Bytes) (pool : ℕ → Params)
      → Results observed engine
          (serve_versions fnv http_date rfc3339 observed r engine req method pool)
  unfolding serve_versions
  serve_versions-Results none method pool =
      handle_not_found_with_obs-Results fnv observed r none none req (pool 3)
  serve_versions-Results (some e) method pool =
      let refused =
        handle_not_found_with_obs-Results fnv observed r (some e) (some e) req (pool 3) in
      bind_Results observed (some e) (process_versioning e.config req) _ (λ vc.
        elim (Option-cases vc) [
          | inl no_version ↦ rw no_version refused
          | inr ((version, path), s) ↦
              rw s
                (elim (Option-cases
                  (select_routing_tree e.config.default_version method version r.versions.trees)) [
                    | inl unknown ↦ rw unknown refused
                    | inr (t, known) ↦
                        rw known (serve_versioned-Results e method t path version pool)
                  ])
        ])

  dispatch-Results :
      (engine : Option Engine) (method : Bytes) (pool : ℕ → Params)
      → Results observed engine (dispatch fnv http_date rfc3339 observed r engine method req pool)
  unfolding dispatch
  dispatch-Results engine method pool =
      then_Results observed engine
        (if r.use_compiled_routes
          then serve_compiled fnv observed r method req.path (pool 0)
          else some none)
        _
        (compiled_if observed engine r.use_compiled_routes _
          (serve_compiled-Finds fnv observed r engine method req.path (pool 0)))
        (then_Results observed engine (serve_tree fnv observed r method req.path (pool 1) (pool 1))
          _ (serve_tree-Finds fnv observed r engine method req.path (pool 1) (pool 1))
          (serve_versions-Results engine method pool))

  -- Whatever the routes, the tables and the pool: if the dispatch of a request runs a chain, then for
  -- no version or for one that is not deprecated, has no sunset date, is not past it, or stands under a
  -- policy that does not enforce sunsets, and if the request is observed its end is told; and it calls a
  -- version gone only if that is deprecated and past its date and sunsets are enforced. A version with a
  -- date that is not marked as deprecated is served after its date.
  pub dispatch-IsSound :
      (engine : Option Engine) (method : Bytes) (pool : ℕ → Params) (o : Outcome H)
      → dispatch fnv http_date rfc3339 observed r engine method req pool ≡ some o
      → IsSound observed engine o
  unfolding dispatch
  dispatch-IsSound engine method pool o e = rw e at (dispatch-Results engine method pool)
