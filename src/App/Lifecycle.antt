-- ===== src/App/Lifecycle.antt =====
-- The hooks of an application and the run of its server (app/lifecycle.go; Start and runServer of
-- app/server.go; Reload of app/app.go). A hook is known by what it does when it is called, which may
-- depend on all that happened before. What the select of runServer gets is a list of signals. The banner,
-- the log and the OpenAPI endpoints are not part of the model, nor a hook that registers another.
pub mod Graceful
pub mod Stages
mod Tests
use mathlib.Core.List.{reverse}
use rivaas.Prelude.{
  ℕ, zero, suc, Bool, true, false, List, [], ◌∷◌, ◌++◌, map, Option, none, some, if◌then◌else◌,
}

pub data Phase : Type 0 where
  starting : Phase
  reloading : Phase
  shutting : Phase
  stopping : Phase

-- What happens: a hook is called, or started in a goroutine of its own (OnReady); the router is
-- frozen; the server has finished its requests; metrics and tracing are started and shut down.
pub data Event {ℓ} (H : Type ℓ) : Type ℓ where
  called : Phase → H → Event H
  spawned : H → Event H
  observing : Event H
  frozen : Event H
  drained : Event H
  unobserved : Event H

-- What a call of a hook does.
pub data Conduct : Type 0 where
  fine : Conduct
  failing : Conduct
  panicking : Conduct

-- How a run ends: without an error, with that of a hook, with another error, or with a panic; or it
-- has not ended when the signals are over.
pub data End : Type 0 where
  finished : End
  hook_failed : ℕ → End
  failed : End
  crashed : End
  running : End

-- What the select of runServer gets: SIGHUP, the end of the context, or an error of the server.
pub data Signal : Type 0 where
  hangup : Signal
  cancelled : Signal
  server_failed : Signal

-- Hooks, with the flag of the router
pub record App {ℓ} (H : Type ℓ) : Type ℓ where
  pub on_start : List H
  pub on_ready : List H
  pub on_reload : List H
  pub on_shutdown : List H
  pub on_stop : List H
  pub is_frozen : Bool

module _ {ℓ} {H : Type ℓ} where
  -- OnStart and its like; `none` is ErrRouterFrozen.
  unfoldable pub add_start : H → App H → Option (App H)
  add_start h a = if a.is_frozen then none else some (record a { on_start = a.on_start ++ h ∷ [] })

  unfoldable pub add_ready : H → App H → Option (App H)
  add_ready h a = if a.is_frozen then none else some (record a { on_ready = a.on_ready ++ h ∷ [] })

  unfoldable pub add_reload : H → App H → Option (App H)
  add_reload h a =
      if a.is_frozen then none else some (record a { on_reload = a.on_reload ++ h ∷ [] })

  unfoldable pub add_shutdown : H → App H → Option (App H)
  add_shutdown h a =
      if a.is_frozen then none else some (record a { on_shutdown = a.on_shutdown ++ h ∷ [] })

  unfoldable pub add_stop : H → App H → Option (App H)
  add_stop h a = if a.is_frozen then none else some (record a { on_stop = a.on_stop ++ h ∷ [] })

  -- executeStopHooks, where a panic is recovered
  unfoldable pub execute_stop_hooks : List H → List (Event H) → List (Event H)
  execute_stop_hooks hooks trace = trace ++ map (called stopping) hooks

  -- executeReadyHooks, which waits for none of them
  unfoldable pub execute_ready_hooks : List H → List (Event H) → List (Event H)
  execute_ready_hooks hooks trace = trace ++ map spawned hooks

  -- What follows a step that ended well; any other end is that of the whole.
  abbrev pub then_go :
      List (Event H) × End → (List (Event H) → List (Event H) × End) → List (Event H) × End
  then_go (trace, finished) f = f trace
  then_go (trace, hook_failed i) f = (trace, hook_failed i)
  then_go (trace, failed) f = (trace, failed)
  then_go (trace, crashed) f = (trace, crashed)
  then_go (trace, running) f = (trace, running)

  -- Shutdown of the server, and what is left after it ended in time.
  unfoldable pub close : Bool → App H → List (Event H) → List (Event H) × End
  unfolding execute_stop_hooks
  close true a trace = (execute_stop_hooks a.on_stop (trace ++ drained ∷ unobserved ∷ []), finished)
  close false a trace = (trace, failed)

  -- What a reload leaves: an error is logged, and the server goes on.
  unfoldable pub keep_serving :
      List (Event H) × End → (List (Event H) → List (Event H) × End) → List (Event H) × End
  keep_serving (trace, finished) f = f trace
  keep_serving (trace, hook_failed i) f = f trace
  keep_serving (trace, failed) f = f trace
  keep_serving (trace, running) f = f trace
  keep_serving (trace, crashed) f = (trace, crashed)

module _ {ℓ} {H : Type ℓ} (acts : List (Event H) → H → Conduct) where
  -- executeStartHooks and executeReloadHooks, from the hook with index `i`
  unfoldable pub execute_until_error : Phase → ℕ → List H → List (Event H) → List (Event H) × End
  execute_until_error phase i [] trace = (trace, finished)
  execute_until_error phase i (h ∷ hooks) trace =
      let next = trace ++ called phase h ∷ [] in
      let rest = execute_until_error phase (suc i) hooks next in
      elim (acts trace h) [
        | fine ↦ rest
        | failing ↦ (next, hook_failed i)
        | panicking ↦ (next, crashed)
      ]

  -- The loop of executeShutdownHooks over the hooks in the order of their calls; they return no error.
  unfoldable pub execute_until_panic : Phase → List H → List (Event H) → List (Event H) × End
  execute_until_panic phase [] trace = (trace, finished)
  execute_until_panic phase (h ∷ hooks) trace =
      let next = trace ++ called phase h ∷ [] in
      let rest = execute_until_panic phase hooks next in
      elim (acts trace h) [ fine ↦ rest | failing ↦ rest | panicking ↦ (next, crashed) ]

  -- The code behind the label shutdown; the flag says whether Shutdown of the server ends in time.
  unfoldable pub shut_down : Bool → App H → List (Event H) → List (Event H) × End
  unfolding execute_until_panic close
  shut_down in_time a trace =
      then_go (execute_until_panic shutting (reverse a.on_shutdown) trace) (close in_time a)

  -- The event loop of runServer; without hooks for it a SIGHUP does nothing.
  unfoldable pub serve : Bool → App H → List Signal → List (Event H) → List (Event H) × End
  unfolding shut_down keep_serving execute_until_error
  serve in_time a [] trace = (trace, running)
  serve in_time a (server_failed ∷ signals) trace = (trace, failed)
  serve in_time a (cancelled ∷ signals) trace = shut_down in_time a trace
  serve in_time a (hangup ∷ signals) trace =
      keep_serving (execute_until_error reloading 0 a.on_reload trace) (serve in_time a signals)

  -- runServer
  unfoldable pub run_server : Bool → App H → List Signal → List (Event H) → List (Event H) × End
  unfolding serve execute_ready_hooks
  run_server in_time a signals trace =
      serve in_time a signals (execute_ready_hooks a.on_ready trace)

  -- Start; the first flag says whether metrics and tracing start.
  unfoldable pub start : Bool → Bool → App H → List Signal → List (Event H) × End
  unfolding execute_until_error run_server
  start observable in_time a signals =
      if observable
      then then_go (execute_until_error starting 0 a.on_start (observing ∷ []))
          (λ trace. run_server in_time a signals (trace ++ frozen ∷ []))
      else ([], failed)
