-- ===== src/Router/Dispatch/Configured.antt =====
-- From the calls that configure a router to the answers that it gives.
use rivaas.Prelude.{
  ℕ, Bool, true, false, ◌≡◌, refl, ap, ◌∙◌, List, [], Option, none, some, ◌>>=◌, Bytes, All,
}
use rivaas.Compiler.Fnv.{Fnv}
use rivaas.Compiler.Table
use rivaas.Router.Params.{Params, set_param_count}
use mathlib.Core.Option
use rivaas.Router.Radix.{Tree, get_route, empty_tree}
use rivaas.Router.Trees.Lookup.{get_tree-no_trees}
use rivaas.Router.Trees.{no_trees, get_tree}
use rivaas.Router.Version.Detectors.{Request}
use rivaas.Router.Registration.{Router, new_router}
use rivaas.Router.Registration.Warmup.{freeze}
use rivaas.Router.Registration.Calls.{Call, run, run-waits, routes_of, middleware_of, wanted}
use rivaas.Router.Registration.Static.{IsPlain, answer, register_all-IsPlain}
use rivaas.Router.Registration.Frozen.{IsSmall, no_trees-AllValid, freeze_total}
use rivaas.Router.Dispatch.{Outcome, dispatch}
use rivaas.Router.Dispatch.Refined.{Answers, dispatch-Answers}

-- A router that is configured by calls of Use and by static routes for known methods, in groups or
-- not, freezes without a panic, and then answers every request without a panic: it runs the middleware
-- of all calls of Use and the handlers of the last route for the method and path, each behind the
-- middleware of its groups; and where there is no such route it refuses the request, ends its
-- observation as not found, and names every method that has a route for the path.
pub dispatch-run {ℓ} :
    {H : Type ℓ} (fnv : Fnv) (quote_meta : Bytes → Bytes) (compile : Bytes → Option (Bytes → Bool))
    (http_date rfc3339 : ℕ → Bytes) (size hashes : ℕ) (calls : List (Call H)) (observed : Bool)
    (method : Bytes) (req : Request) (pool : ℕ → Params)
    → IsSmall size
    → All IsPlain (routes_of calls)
    → (r : Router H) × ((run fnv quote_meta compile calls (new_router size hashes false false)
          >>= freeze fnv quote_meta compile)
        ≡ some r)
      × (o : Outcome H) × (dispatch fnv http_date rfc3339 observed r none method req pool ≡ some o)
      × Answers observed
          (middleware_of calls)
          (routes_of calls)
          req.path
          (set_param_count 0 (pool 1))
          (wanted (routes_of calls) method req.path)
          o
unfolding new_router no_trees get_tree
dispatch-run {H} fnv quote_meta compile http_date rfc3339 size hashes calls observed method req pool
      small plain =
    let start : Router H = new_router size hashes false false in
    let waiting : Router H = record start {
      middleware = middleware_of calls;
      pending = routes_of calls;
    } in
    let opened : Router H = record waiting { frozen = true; warmed_up = true; pending = [] } in
    let (ts, done, reads) =
      register_all-IsPlain fnv quote_meta compile (routes_of calls) opened refl plain in
    let (tables, froze, valid) =
      freeze_total fnv quote_meta compile waiting (record opened { trees = ts }) refl refl refl
        small (no_trees-AllValid H) done in
    let r : Router H = record opened {
      trees = ts;
      tables = tables;
      route_compiler = Table.freeze opened.route_compiler;
    } in
    let found = λ (m path : Bytes) (p : Params).
      reads m path p
      ∙ ap
          (λ t.
            answer (wanted (routes_of calls) m path) (middleware_of calls) path p
              (get_route path (Option.get_or t empty_tree) p))
          (get_tree-no_trees (Tree H) m) in
    let (o, e, a) =
      dispatch-Answers fnv r (routes_of calls) (middleware_of calls) refl valid found http_date
        rfc3339 observed method req pool (wanted (routes_of calls) method req.path) refl in
    (r, rw (run-waits fnv quote_meta compile calls start refl refl) froze, o, e, a)
