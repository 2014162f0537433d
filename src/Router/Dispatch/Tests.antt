-- ===== src/Router/Dispatch/Tests.antt =====
-- Requests to a router with groups, and to one with a version.
use rivaas.Prelude.{
  ℕ, Bool, true, false, ◌≡◌, refl, List, [], ◌∷◌, Option, none, some, ◌>>=◌, Bytes, codes, eqb, All,
  arith, contains, cut_suffix, is_empty, find_key, put_key,
}
use rivaas.Compiler.Fnv.{fnv1a}
use rivaas.Router.Params.{Params, set_param_count}
use rivaas.Router.Radix.{empty_tree, add_route, get_route}
use rivaas.Router.Trees.{get, post, method_of, root_of, get_tree, no_trees}
use rivaas.Router.Version.Detectors.{
  Request, path_detector, detect, strip_version, extract_from_path, path_prefix,
}
use rivaas.Router.Version.Engine.{
  Config, routing_path, strip_path_version, process_versioning, should_apply_versioning,
  path_prefixes, extract_path_segment, detect_version, try_detectors, is_valid,
}
use rivaas.Router.Version.Trees.{select_routing_tree, get_version_tree}
use rivaas.Router.Version.Lifecycle.{Policy, set_lifecycle_headers, answer_of, set_if}
use rivaas.Router.Registration.{Router, new_router, new_route}
use rivaas.Router.Registration.Warmup.{freeze}
use rivaas.Router.Registration.Calls.{
  Call, used, routed, run, routes_of, middleware_of, wanted, prefixed, wrapped,
}
use rivaas.Router.Registration.Static.{IsPlain}
use rivaas.Router.Dispatch.{
  Outcome, served, Engine, serve_tree, serve_versions, serve_versioned, serve_version_tree,
  run_version, in_table, dispatch,
}
use rivaas.Router.Dispatch.Refined.{Answers}
use rivaas.Router.Dispatch.Configured.{dispatch-run}
use rivaas.Router.Dispatch.Sound.{IsSound}
use rivaas.Router.Dispatch.Live.{dispatch-IsSound}

abbrev quote : Bytes → Bytes
quote s = s

abbrev literal : Bytes → Option (Bytes → Bool)
literal text = some (λ s. eqb text s)

abbrev stamp : ℕ → Bytes
stamp t = t ∷ []

abbrev no_header : Bytes → Bytes
no_header s = []

abbrev empty_params : Params
empty_params = record { overflow = none; values = []; keys = []; count = 0 }

abbrev pool : ℕ → Params
pool i = empty_params

abbrev calls : List (Call ℕ)
calls =
    used (1 ∷ [])
    ∷ routed ((codes "/api", 2 ∷ []) ∷ (codes "/v1", 3 ∷ []) ∷ []) (codes "GET") (codes "/users")
        (7 ∷ [])
    ∷ routed [] (codes "POST") (codes "/users") (8 ∷ [])
    ∷ used (4 ∷ [])
    ∷ []

abbrev to_users : Request
to_users = record { path = codes "/api/v1/users"; raw_query = []; header = no_header }

calls-IsPlain : All IsPlain (routes_of calls)
unfolding routes_of new_route prefixed wrapped method_of contains cut_suffix eqb is_empty
calls-IsPlain = (
  (refl, refl, (get, refl), (refl, refl, refl)),
  ((refl, refl, (post, refl), (refl, refl, refl)), tt),
)

dispatch-run_example :
    (r : Router ℕ) × ((run fnv1a quote literal calls (new_router 1000 3 false false)
        >>= freeze fnv1a quote literal)
      ≡ some r)
    × (o : Outcome ℕ) × (dispatch fnv1a stamp stamp true r none (codes "GET") to_users pool
        ≡ some o)
    × Answers true
        (middleware_of calls)
        (routes_of calls)
        to_users.path
        (set_param_count 0 (pool 1))
        (wanted (routes_of calls) (codes "GET") to_users.path)
        o
dispatch-run_example =
    dispatch-run fnv1a quote literal stamp stamp 1000 3 calls true (codes "GET") to_users pool
      (omega arith) calls-IsPlain

abbrev no_routes : Router ℕ
no_routes = new_router 1000 3 false true

abbrev versioned : Router ℕ
versioned = record no_routes {
  versions = record {
    pointer = 1;
    trees =
        (codes "v1", (codes "GET", add_route (codes "/users") (some (7 ∷ [])) [] empty_tree) ∷ [])
        ∷ [];
  };
}

abbrev config : Config
config = record {
  default_version = codes "v1";
  valid_versions = codes "v1" ∷ [];
  detectors = path_detector (codes "/v{version}/") ∷ [];
}

abbrev policy : Policy
policy = record {
  send_version_header = true;
  send_warning299 = true;
  enforce_sunset = true;
  lifecycles = [];
}

abbrev engine : Engine
engine = record { config = config; policy = policy; now = 11 }

abbrev to_version : Request
to_version = record { path = codes "/v1/users"; raw_query = []; header = no_header }

abbrev answered : Outcome ℕ
answered = record {
  action = served (7 ∷ []) (codes "/users") (codes "v1") empty_params;
  headers = (codes "X-API-Version", codes "v1") ∷ [];
  ended = some (codes "/users");
}

versioned_answer :
    dispatch fnv1a stamp stamp true versioned (some engine) (codes "GET") to_version pool
    ≡ some answered
unfolding dispatch serve_tree get_tree new_router no_trees method_of eqb root_of process_versioning
    should_apply_versioning path_prefixes extract_path_segment extract_from_path is_empty
    path_prefix detect_version try_detectors detect is_valid select_routing_tree get_version_tree
    find_key serve_versions serve_versioned serve_version_tree run_version in_table
    set_lifecycle_headers answer_of set_if get_route routing_path strip_path_version strip_version
    add_route cut_suffix contains empty_tree set_param_count put_key
versioned_answer = refl

dispatch-IsSound_example : IsSound true (some engine) answered
dispatch-IsSound_example =
    dispatch-IsSound fnv1a stamp stamp true versioned to_version (some engine) (codes "GET") pool
      answered versioned_answer
