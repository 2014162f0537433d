-- ===== src/Lib.antt =====
-- The verification library of the rivaas router: the parts of the HTTP router that decide which
-- handlers run for a request, and with which parameters, the handlers that limit or redirect
-- requests, the loggers that hold entries back, and the run of an application's server.
--
-- The parts and how they interact. Routes wait in a list until Warmup registers them, in the table of
-- compiled routes (router/compiler), in the route tree of their method or in the tree of a version
-- (router/radix.go). ServeHTTP freezes the router and looks a request up in the table, in the tree, and
-- at last, if the router has an engine for versions, in the trees of the version that it detects. The
-- lookup writes the captured parameters into the request's context (router/context.go), which then
-- runs the chain of handlers that the lookup returned.
--
-- - Router/Params: paramKeys, paramValues, paramCount and Params of `Context`, with SetParam,
--   SetParamMap, SetParamCount, Param and the part of `reset` that is about them. `store` is what
--   getRoute does with a captured value. Reads are in Router/Params/Reads.
-- - Router/Chain: Next, Abort and IsAborted of `Context`. A handler is a Go function; it is known
--   here by its calls on the context, as a tree of steps. The trace is a ghost field.
--   Router/Chain/Rule is the induction over the nested calls; Order, Abort and Progress use it.
-- - Router/Radix: addRouteWithConstraints (Defs), getRoute and validateConstraints (Lookup). A
--   path is walked as the list of its segments. RoundTrip, Static, Wildcards and Constraints prove.
-- - Router/StaticTable: the tables that a tree's static paths are compiled into, of radix.go and
--   router/compile.go, over the bloom filter of the compiler. Filter and Compiled prove.
-- - Compiler/Fnv: the hash that LookupStatic computes in line, and the interface to Go's hash/fnv,
--   of which the documented value is all that is relied on.
-- - Compiler/Bloom: router/compiler/bloom.go. Bloom/Membership proves.
-- - Compiler/Route: CompileRoute. Compiler/Table: AddRoute, RemoveRoute, the insertion sort, the
--   index by first byte, Freeze and LookupStatic. Table/Static, Order and Removal prove.
-- - Compiler/Match: matchAndExtract and MatchDynamic, over the parameters of Router/Params. Segments,
--   Captures, Compiled and Pair lead to Match/Refines, and it to Match/First.
-- - Router/Proxies: router/proxies.go, from compileProxies to ClientIP. Proxies/Walk proves.
-- - Router/Quality: parseQuality of router/accept.go, over thousandths. Quality/Bounds proves.
-- - Router/Blanks: trimWhitespace of router/accept.go. Blanks/Within proves.
-- - Router/Accept: the rest of router/accept.go. Parse has the parts of a header, Choice the choice
--   among offers, and Cache the calls on a context with the arena that all headers of a request
--   share. Loops and Best and Calls prove.
-- - Router/Reverse: the building of URLs of router/route/route.go. Reverse/Reaches proves, over the
--   route tree and any unescaping of what was escaped.
-- - Router/Version: Detectors is router/version/detectors.go, and Engine is router/version/engine.go
--   with processVersioning of router/versioning.go; Detected and Stripped prove. Lifecycle has the
--   options of router/version/lifecycle.go and the headers of a response, and Trees the trees by version
--   of router/versioning.go, with what another thread does between the steps of their loop; Headers,
--   Added and Race prove.
-- - Router/Trees: methodTrees of router/routes.go and addRouteToTree of router/router.go. Lookup proves.
-- - Router/Constraints: router/route/constraint.go and what makes and takes apart an expression in
--   route/registrar.go and route/mount.go. Patterns proves.
-- - Router/Registration: what router/router.go, router/route_bridge.go and router/route/route.go do with
--   a route, from addRouteInternal to RegisterRoute; Warmup has router/compile.go and Freeze, Groups has
--   router/route/group.go, and Mount the routes that a subrouter still holds back. Calls says what a
--   sequence of calls wants; Static, Frozen and Mount/Waiting prove.
-- - Router/Dispatch: router/serve.go, with the answers 404 and 405 of router/router.go. An outcome is the
--   chain that runs, or the refusal, and what OnRequestEnd is told. Refined, Configured, Sound and Live prove.
-- - Middleware/RateLimit: middleware/ratelimit. TokenBucket and Window are the stores of stores.go, and
--   Handler has the two handlers of ratelimit.go over them, the sliding window over any store.
--   TokenBucket/Limit, Window/History, Handler/Passed, Handler/Within and Handler/Failures prove, the
--   bounds for any float64 with the laws of Float64.
-- - Middleware/BodyLimit: middleware/bodylimit/bodylimit.go, over any reader of a body. Whole and
--   Drained prove.
-- - Middleware/TrailingSlash: Wrap of middleware/trailingslash, over any text of URLs, proved in
--   TrailingSlash/Settled.
-- - Middleware/Cors: middleware/cors, proved in Cors/Granted.
-- - App/Lifecycle: app/lifecycle.go with Start and runServer of app/server.go, as the trace of all hooks
--   that are called. Stages and Graceful prove.
-- - Logging: Batch is logging/batch.go, proved in Batch/Order, and Buffer is logging/buffer.go,
--   proved in Buffer/Replayed, over any handler of log/slog.
-- - Prelude: bytes, lists, Boolean tests and what the source uses of the package strings.
--
-- Strings are lists of bytes. A panic (an index out of range, a remainder by zero) is the outer
-- `none`, or the value `panic` of a read. uint64 is ℕ with the wrap-around written out; counts that
-- the source keeps in int32 are ℕ, since a path or a route table has fewer than 2 ^ 31 entries. The
-- buffer of segments in matchAndExtract has 16 places, as in the source, and a pattern of more is
-- never matched there. The loop of Next is recursion on rounds, of which the number of handlers is
-- enough, since the index never falls; a theorem says so. All other recursion is structural.
--
-- The operations on float64 of the limits are a parameter (Middleware/RateLimit/Float64), of which
-- the bounds assume the laws that are stated there, with a slack for rounding; times are
-- nanoseconds. The requests of a limiter come one by one, so that no other comes between GetCounts
-- and Incr of one request.
--
-- Not modelled: the mutexes and atomic flags (registration ends before serving begins, and only
-- the loop of addVersionRoute has a second thread), the unsafe cache of converted handlers, the list of
-- routes for inspection, the reading of the trees of a subrouter that is warmed up, the servers,
-- the threads that log while the buffer of startup is replayed, and the rest of the repository, most
-- of which is I/O, reflection or glue over third-party libraries. A compiled regular expression is the
-- function that its MatchString is. TrimSpace knows the white space of ASCII only.
pub mod Prelude
pub mod Router
pub mod Compiler
pub mod Middleware
pub mod Logging
pub mod App
