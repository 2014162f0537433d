-- ===== src/Router/Dispatch.antt =====
-- The dispatch of a request (router/serve.go; router/router.go: getAllowedMethodsForPath,
-- handleNotFound, handleMethodNotAllowed). An outcome says what runs and with which context, and what
-- OnRequestEnd is told. `pool` gives the parameters of the contexts that the pool hands out, in the order of
-- the calls in the source. The outer `none` is a panic.
pub mod Refined
pub mod Configured
pub mod Sound
pub mod Live
mod Tests
use rivaas.Prelude.{
  ℕ, Bool, true, false, List, [], ◌∷◌, ◌++◌, Option, none, some, ◌>>=◌, if◌then◌else◌, Bytes, codes,
  is_empty, find_key, map,
}
use rivaas.Compiler.Fnv.{Fnv}
use rivaas.Compiler.Route.{CompiledRoute}
use rivaas.Compiler.Table.{RouteCompiler, lookup_static}
use rivaas.Compiler.Match.{match_dynamic}
use rivaas.Router.Params.{Params, set_param_count, reset}
use rivaas.Router.Radix.{Tree, Match, get_route}
use rivaas.Router.StaticTable.{RouteTable, StaticRoute, get_compiled}
use rivaas.Router.Trees.{MethodTrees, get_tree}
use rivaas.Router.Version.Detectors.{Request}
use rivaas.Router.Version.Engine.{Config, detect_version, process_versioning}
use rivaas.Router.Version.Trees.{select_routing_tree}
use rivaas.Router.Version.Lifecycle.{Policy, Answer, set_lifecycle_headers}
use rivaas.Router.Registration.{Router}

-- The handlers with the context's pattern, version and parameters; a version that is gone; the
-- methods that the path has; or no route at all, for the custom handler or the default one.
pub data Action {ℓ} (H : Type ℓ) : Type ℓ where
  served : List H → Bytes → Bytes → Params → Action H
  gone : Bytes → Action H
  method_not_allowed : List Bytes → Bytes → Action H
  not_found : Bytes → Action H

-- `ended` is the pattern that OnRequestEnd is given, if the request is observed and ends so.
pub record Outcome {ℓ} (H : Type ℓ) : Type ℓ where
  pub action : Action H
  pub headers : List (Bytes × Bytes)
  pub ended : Option Bytes

pub record Engine : Type 0 where
  pub config : Config
  pub policy : Policy
  pub now : ℕ

abbrev pub standard_methods : List Bytes
standard_methods =
    codes "GET"
    ∷ codes "POST"
    ∷ codes "PUT"
    ∷ codes "PATCH"
    ∷ codes "DELETE"
    ∷ codes "HEAD"
    ∷ codes "OPTIONS"
    ∷ []

-- The sentinel for a route without a pattern.
unfoldable pub pattern_or_unmatched : Bytes → Bytes
pattern_or_unmatched pattern = if is_empty pattern then codes "_unmatched" else pattern

unfoldable pub when_observed : Bool → Bytes → Option Bytes
when_observed observed pattern = if observed then some pattern else none

-- The version that the handlers of errors put into the context.
unfoldable pub error_version : Option Engine → Request → Option Bytes
error_version none req = some []
error_version (some e) req = detect_version e.config req >>= λ found. some found.0

module _ {ℓ} {H : Type ℓ} where
  -- A chain that is run to its end.
  unfoldable pub run_chain : Bool → List H → Bytes → Bytes → Bytes → Params → Outcome H
  unfolding when_observed
  run_chain observed handlers pattern ended version p = record {
    action = served handlers pattern version p;
    headers = [];
    ended = when_observed observed ended;
  }

  -- The outcome that was found, or else the next step.
  abbrev pub first_of : Option (Outcome H) → Option (Outcome H) → Option (Outcome H)
  first_of none next = next
  first_of (some o) next = some o

  unfoldable pub has_handlers : Option (List H) → Bool
  has_handlers none = false
  has_handlers (some _) = true

  unfoldable pub is_found : Option (StaticRoute H) → Bool
  is_found none = false
  is_found (some _) = true

  unfoldable pub refusal : List Bytes → Bytes → Action H
  refusal [] version = not_found version
  refusal (method ∷ methods) version = method_not_allowed (method ∷ methods) version

module _ {ℓ} {H : Type ℓ} (fnv : Fnv) where
  -- The lookup in the table of a tree, where there is a table.
  unfoldable pub in_table : Bytes → Option (RouteTable H) → Option (Option (StaticRoute H))
  in_table path none = some none
  in_table path (some table) = get_compiled fnv path table

  -- One round of getAllowedMethodsForPath: whether the method has the path, and the context after.
  unfoldable pub allows_method : Router H → Bytes → Bytes → Params → Option (Bool × Params)
  unfolding in_table has_handlers is_found
  allows_method r path method q = elim (get_tree method r.trees) [
    | none ↦ some (false, reset q)
    | some t ↦
        let m = get_route path t (reset q) in
        in_table path (get_tree method r.tables) >>= λ found.
        some ((if has_handlers m.handlers then true else is_found found), m.params)
  ]

  unfoldable pub allowed_methods : Router H → Bytes → List Bytes → Params → Option (List Bytes)
  unfolding allows_method
  allowed_methods r path [] q = some []
  allowed_methods r path (method ∷ methods) q = allows_method r path method q >>= λ one.
      allowed_methods r path methods one.1 >>= λ rest. some (if one.0 then method ∷ rest else rest)

  -- handleNotFound
  unfoldable pub handle_not_found : Router H → Option Engine → Request → Params → Option (Action H)
  unfolding allowed_methods error_version refusal
  handle_not_found r engine req q = do
    allowed ← allowed_methods r req.path standard_methods q
    version ← error_version engine req
    some (refusal allowed version)

  -- handleNotFoundWithObs
  unfoldable pub handle_not_found_with_obs :
      Bool → Router H → Option Engine → Request → Params → Option (Outcome H)
  unfolding handle_not_found when_observed
  handle_not_found_with_obs observed r engine req q = handle_not_found r engine req q >>= λ action.
      some (record {
        action = action;
        headers = [];
        ended = when_observed observed (codes "_not_found");
      })

  -- The compiled routes of the main tree; the context of a static route has no parameters.
  unfoldable pub serve_compiled :
      Bool → Router H → Bytes → Bytes → Params → Option (Option (Outcome H))
  unfolding run_chain
  serve_compiled observed r method path p = lookup_static method path r.route_compiler >>= λ static.
      elim static [
        | some rt ↦
            some
              (some (run_chain observed rt.handlers rt.pattern rt.pattern [] (set_param_count 0 p)))
        | none ↦ match_dynamic method path r.route_compiler (set_param_count 0 p) >>= λ result.
            some (elim result.0 [
              | some rt ↦ some (run_chain observed rt.handlers rt.pattern rt.pattern [] result.1)
              | none ↦ none
            ])
      ]

  -- The table of a tree, where routes are compiled, and then the tree.
  unfoldable pub serve_tree :
      Bool → Router H → Bytes → Bytes → Params → Params → Option (Option (Outcome H))
  unfolding run_chain in_table pattern_or_unmatched
  serve_tree observed r method path p q = elim (get_tree method r.trees) [
    | none ↦ some none
    | some t ↦
        in_table path (if r.use_compiled_routes then get_tree method r.tables else none)
        >>= λ static. some (elim static [
          | some sr ↦ some (run_chain observed sr.handlers path path [] (set_param_count 0 p))
          | none ↦
              let m = get_route path t (set_param_count 0 q) in
              elim m.handlers [
                | some hs ↦
                    some
                      (run_chain observed hs (pattern_or_unmatched m.pattern) m.pattern [] m.params)
                | none ↦ none
              ]
        ])
  ]

  module _ (http_date rfc3339 : ℕ → Bytes) where
    -- The headers of the life cycle, and the chain unless the version is gone.
    unfoldable pub run_version : Bool → Engine → Bytes → List H → Bytes → Bytes → Params → Outcome H
    unfolding when_observed
    run_version observed e version handlers pattern ended p =
        let a = set_lifecycle_headers http_date rfc3339 e.policy e.now version [] in
        if a.is_gone
        then record { action = gone version; headers = a.headers; ended = none }
        else record {
          action = served handlers pattern version p;
          headers = a.headers;
          ended = when_observed observed ended;
        }

    -- The lookup in the tree of a version.
    unfoldable pub serve_version_tree :
        Bool
        → Router H
        → Engine
        → Request
        → Tree H
        → Bytes
        → Bytes
        → Params
        → Params
        → Option (Outcome H)
    unfolding run_version handle_not_found pattern_or_unmatched
    serve_version_tree observed r e req t path version p q =
        let m = get_route path t (set_param_count 0 p) in
        elim m.handlers [
          | some hs ↦ some (
              run_version observed e version hs (pattern_or_unmatched m.pattern) m.pattern m.params)
          | none ↦ handle_not_found r (some e) req q >>= λ action.
              some (record { action = action; headers = []; ended = none })
        ]

    -- serveVersionedRequest
    unfoldable pub serve_versioned :
        Bool
        → Router H
        → Engine
        → Request
        → Bytes
        → Tree H
        → Bytes
        → Bytes
        → (ℕ → Params)
        → Option (Outcome H)
    unfolding serve_version_tree run_version in_table
    serve_versioned observed r e req method t path version pool =
        in_table path (find_key (version ++ b':' ∷ method) r.version_cache) >>= λ static.
        elim static [
          | some sr ↦ some (
              run_version observed e version sr.handlers sr.path sr.path
                (set_param_count 0 (pool 2)))
          | none ↦ serve_version_tree observed r e req t path version (pool 2) (pool 3)
        ]

    -- The trees of the versions, where the request has a version with a tree.
    unfoldable pub serve_versions :
        Bool → Router H → Option Engine → Request → Bytes → (ℕ → Params) → Option (Outcome H)
    unfolding serve_versioned handle_not_found_with_obs
    serve_versions observed r none req method pool =
        handle_not_found_with_obs observed r none req (pool 3)
    serve_versions observed r (some e) req method pool = process_versioning e.config req >>= λ vc.
        elim vc [
          | none ↦ handle_not_found_with_obs observed r (some e) req (pool 3)
          | some (version, path) ↦
              elim (select_routing_tree e.config.default_version method version r.versions.trees) [
                | none ↦ handle_not_found_with_obs observed r (some e) req (pool 3)
                | some t ↦ serve_versioned observed r e req method t path version pool
              ]
        ]

    -- ServeHTTP after its call of Freeze
    unfoldable pub dispatch :
        Bool → Router H → Option Engine → Bytes → Request → (ℕ → Params) → Option (Outcome H)
    unfolding serve_compiled serve_tree serve_versions
    dispatch observed r engine method req pool =
        (if r.use_compiled_routes
          then serve_compiled observed r method req.path (pool 0)
          else some none)
        >>= λ compiled. first_of compiled (
            serve_tree observed r method req.path (pool 1) (pool 1) >>= λ tree.
            first_of tree (serve_versions observed r engine req method pool))
