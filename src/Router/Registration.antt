-- ===== src/Router/Registration.antt =====
-- The registration of routes (router/router.go, router/route_bridge.go, router/routes.go,
-- router/compile.go, RegisterRoute and the Where functions of router/route/route.go, addVersionRoute of
-- router/versioning.go). A route that waits is a value in the list of pending routes; one that is
-- registered is a value of the caller. Registration is by one thread. `none` is a panic.
pub mod Warmup
pub mod Groups
pub mod Mount
pub mod Calls
pub mod Static
pub mod Frozen
mod Tests
use rivaas.Prelude.{
  ℕ, zero, suc, Bool, true, false, ◌&&◌, not, List, [], ◌∷◌, ◌++◌, get_elem?, Option, none, some,
  ◌>>=◌, if◌then◌else◌, Bytes, is_empty, map, find_key, put_key,
}
use rivaas.Compiler.Fnv.{Fnv}
use rivaas.Compiler.Route.{CompiledRoute, RouteConstraint, compile_route}
use rivaas.Compiler.Table.{RouteCompiler, new_route_compiler, remove_route}
use rivaas.Compiler.Table
use rivaas.Router.Radix.{Constraint, Tree}
use rivaas.Router.StaticTable.{RouteTable}
use rivaas.Router.Trees.{MethodTrees, no_trees, add_route_to_tree}
use rivaas.Router.Version.Trees.{Shared, add_version_route}
use rivaas.Router.Version.Trees.Added.{alone}
use rivaas.Router.Constraints.{
  ParamConstraint, Compiled, constraint_of, constraint_from_pattern, convert_typed_constraints,
}

-- route.Route; the version is empty for the standard trees.
pub record Route {ℓ} (H : Type ℓ) : Type ℓ where
  pub version : Bytes
  pub method : Bytes
  pub path : Bytes
  pub handlers : List H
  pub constraints : List Compiled
  pub typed : List (Bytes × ParamConstraint)
  pub registered : Bool
  pub name : Bytes

-- The part of Router that registration changes.
pub record Router {ℓ} (H : Type ℓ) : Type ℓ where
  pub middleware : List H
  pub pending : List (Route H)
  pub warmed_up : Bool
  pub frozen : Bool
  pub trees : MethodTrees (Tree H)
  pub tables : MethodTrees (RouteTable H)
  pub versions : Shared (Tree H)
  pub version_cache : List (Bytes × RouteTable H)
  pub route_compiler : RouteCompiler H
  pub use_compiled_routes : Bool
  pub has_engine : Bool
  pub bloom_filter_size : ℕ
  pub bloom_hash_functions : ℕ
  pub named_routes : List (Bytes × Route H)

-- The regular expression of a constraint, for the compiler of routes.
abbrev pub to_compiler : Constraint → RouteConstraint
to_compiler c = record { param = c.param; match_string = c.match_string }

module _ {ℓ} {H : Type ℓ} where
  -- newRouterFromConfig
  unfoldable pub new_router : ℕ → ℕ → Bool → Bool → Router H
  unfolding no_trees
  new_router bloom_size bloom_hashes use_compiled has_engine = record {
    middleware = [];
    pending = [];
    warmed_up = false;
    frozen = false;
    trees = no_trees;
    tables = no_trees;
    versions = record { pointer = 0; trees = [] };
    version_cache = [];
    route_compiler = new_route_compiler bloom_size bloom_hashes;
    use_compiled_routes = use_compiled;
    has_engine = has_engine;
    bloom_filter_size = bloom_size;
    bloom_hash_functions = bloom_hashes;
    named_routes = [];
  }

  -- route.NewRoute
  unfoldable pub new_route : Bytes → Bytes → Bytes → List H → Route H
  new_route version method path handlers = record {
    version = version;
    method = method;
    path = path;
    handlers = handlers;
    constraints = [];
    typed = [];
    registered = false;
    name = [];
  }

  -- Use
  unfoldable pub add_middleware : List H → Router H → Router H
  add_middleware ms r = record r { middleware = r.middleware ++ ms }

module _ {ℓ} {H : Type ℓ} (fnv : Fnv) (quote_meta : Bytes → Bytes)
    (compile : Bytes → Option (Bytes → Bool)) where
  -- The constraints that a route is registered with.
  unfoldable pub all_constraints : Route H → List Constraint
  unfolding convert_typed_constraints
  all_constraints rt =
      map constraint_of (convert_typed_constraints quote_meta compile rt.typed ++ rt.constraints)

  -- The route in the tables of the compiler, in the place of an older one.
  unfoldable pub compile_into :
      Route H → List H → List Constraint → RouteCompiler H → Option (RouteCompiler H)
  compile_into rt handlers cs rc =
      Table.add_route fnv (compile_route fnv rt.method rt.path handlers (map to_compiler cs))
        (remove_route fnv rt.method rt.path rc)

  -- The standard tree, after the compiler where routes are compiled.
  unfoldable pub register_standard :
      Route H → List H → List Constraint → Router H → Option (Router H)
  unfolding compile_into
  register_standard rt handlers cs r = do
    rc ←
        if r.use_compiled_routes
        then compile_into rt handlers cs r.route_compiler
        else some r.route_compiler
    trees ← add_route_to_tree rt.method rt.path handlers cs r.trees
    some (record r { route_compiler = rc; trees = trees })

  unfoldable pub register_version :
      Route H → List H → List Constraint → Router H → Option (Router H)
  register_version rt handlers cs r = do
    versions ← add_version_route rt.version rt.method rt.path handlers cs 1 alone r.versions
    some (record r { versions = versions })

  -- RegisterRoute, of a route that is not registered
  unfoldable pub register_route : Route H → Router H → Option (Router H)
  unfolding register_standard register_version all_constraints
  register_route rt r =
      let handlers = r.middleware ++ rt.handlers in
      if is_empty rt.version
      then register_standard rt handlers (all_constraints rt) r
      else register_version rt handlers (all_constraints rt) r

  -- What becomes of a new route: it waits, or it is registered at once.
  unfoldable pub admit : Route H → Router H → Option (Router H)
  unfolding register_route
  admit rt r =
      if r.warmed_up
      then register_route rt r
      else some (record r { pending = r.pending ++ rt ∷ [] })

  -- addRouteInternal
  unfoldable pub add_route : Bytes → Bytes → List H → Router H → Option (Router H)
  unfolding admit new_route
  add_route method path handlers r =
      if r.frozen then none else admit (new_route [] method path handlers) r

  -- addVersionRoute of a VersionRouter, which does not ask whether the router is frozen
  unfoldable pub version_route : Bytes → Bytes → Bytes → List H → Router H → Option (Router H)
  unfolding admit new_route
  version_route version method path handlers r = admit (new_route version method path handlers) r

  -- A change to the pending route at a position.
  unfoldable pub change_at : ℕ → (Route H → Route H) → List (Route H) → List (Route H)
  change_at i f [] = []
  change_at zero f (rt ∷ rts) = f rt ∷ rts
  change_at (suc i) f (rt ∷ rts) = rt ∷ change_at i f rts

  -- Where on a route that waits
  unfoldable pub where_pending : ℕ → Bytes → Bytes → Router H → Option (Router H)
  unfolding change_at constraint_from_pattern
  where_pending i param pattern r = do
    c ← constraint_from_pattern quote_meta compile param pattern
    some (record r {
      pending = change_at i (λ rt. record rt { constraints = rt.constraints ++ c ∷ [] }) r.pending;
    })

  -- WhereInt and its like on a route that waits
  unfoldable pub where_typed : ℕ → Bytes → ParamConstraint → Router H → Router H
  unfolding change_at
  where_typed i param pc r = record r {
    pending = change_at i (λ rt. record rt { typed = put_key param pc rt.typed }) r.pending;
  }

  -- Where on a route that is registered: it is registered again, also after Freeze.
  unfoldable pub where_registered : Bytes → Bytes → Route H → Router H → Option (Route H × Router H)
  unfolding register_route constraint_from_pattern
  where_registered param pattern rt r = do
    c ← constraint_from_pattern quote_meta compile param pattern
    let rt' : Route H = record rt { constraints = rt.constraints ++ c ∷ [] }
    r' ← register_route rt' r
    some (rt', r')

  -- SetName with RegisterNamedRoute on a route that waits, whose group puts `prefix` before its names
  unfoldable pub name_pending : Bytes → Bytes → ℕ → Router H → Option (Router H)
  unfolding change_at
  name_pending prefix name i r =
      let full = prefix ++ name in
      if r.frozen then none else elim (find_key full r.named_routes) [
        | some other ↦ none
        | none ↦ get_elem? r.pending i >>= λ rt. some (record r {
          pending = change_at i (λ waiting. record waiting { name = full }) r.pending;
          named_routes = put_key full (record rt { name = full }) r.named_routes;
        })
      ]
