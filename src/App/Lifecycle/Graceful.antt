-- ===== src/App/Lifecycle/Graceful.antt =====
-- A run that ends well.
use mathlib.Core.List.{reverse}
use rivaas.Prelude.{
  ℕ, suc, true, ◌≡◌, ◌≢◌, refl, ap, ◌∙◌, List, [], ◌∷◌, ◌++◌, append-nil, append_assoc, map, All,
  inl, inr,
}
use rivaas.App.Lifecycle.{
  Phase, starting, reloading, shutting, stopping, Event, called, spawned, observing, frozen,
  drained, unobserved, Conduct, fine, panicking, End, finished, crashed, Signal, hangup, cancelled,
  App, execute_until_error, execute_until_panic, execute_stop_hooks, execute_ready_hooks, close,
  shut_down, keep_serving, serve, run_server, start,
}
use rivaas.App.Lifecycle.Stages.{
  Conduct-cases, IsPrefix, reload_calls, execute_until_error-Ran, keep_serving_cases,
}

module _ {ℓ} {H : Type ℓ} where
  -- What a run leaves after the given trace: reloads, and the whole shutdown.
  abbrev pub Ended : App H → List (Event H) → List (Event H) × End → Type ℓ
  Ended a trace p =
      (blocks : List (List H)) × All (λ s. IsPrefix s a.on_reload) blocks
      × (p ≡ (
        trace
            ++ reload_calls blocks
            ++ map (called shutting) (reverse a.on_shutdown)
            ++ drained ∷ unobserved ∷ map (called stopping) a.on_stop,
        finished,
      ))

module _ {ℓ} {H : Type ℓ} (acts : List (Event H) → H → Conduct) where
  execute_until_error-fine :
      (phase : Phase) (i : ℕ) (hooks : List H) (trace : List (Event H))
      → ((t : List (Event H)) → All (λ h. acts t h ≡ fine) hooks)
      → execute_until_error acts phase i hooks trace ≡ (trace ++ map (called phase) hooks, finished)
  unfolding execute_until_error
  execute_until_error-fine phase i [] trace ok = rw (append-nil trace) refl
  execute_until_error-fine phase i (h ∷ hooks) trace ok =
      rw (execute_until_error, (ok trace).0)
        (execute_until_error-fine phase (suc i) hooks (trace ++ called phase h ∷ []) (λ t. (ok t).1)
          ∙ rw (append_assoc trace (called phase h ∷ []) (map (called phase) hooks)) refl)

  module _ (calm : (t : List (Event H)) (h : H) → acts t h ≢ panicking) where
    execute_until_panic-calm :
        (phase : Phase) (hooks : List H) (trace : List (Event H))
        → execute_until_panic acts phase hooks trace ≡ (trace ++ map (called phase) hooks, finished)
    unfolding execute_until_panic
    execute_until_panic-calm phase [] trace = rw (append-nil trace) refl
    execute_until_panic-calm phase (h ∷ hooks) trace =
        let more =
          execute_until_panic-calm phase hooks (trace ++ called phase h ∷ [])
          ∙ rw (append_assoc trace (called phase h ∷ []) (map (called phase) hooks)) refl in
        elim (Conduct-cases (acts trace h)) [
          | inl e ↦ rw (execute_until_panic, e) more
          | inr (inl e) ↦ rw (execute_until_panic, e) more
          | inr (inr e) ↦ absurd (calm trace h e)
        ]

    execute_until_error-calm :
        (phase : Phase) (i : ℕ) (hooks : List H) (trace : List (Event H))
        → (execute_until_error acts phase i hooks trace).1 ≢ crashed
    unfolding execute_until_error
    execute_until_error-calm phase i [] trace = λ e. cc
    execute_until_error-calm phase i (h ∷ hooks) trace = elim (Conduct-cases (acts trace h)) [
      | inl e ↦
          rw (execute_until_error, e)
            (execute_until_error-calm phase (suc i) hooks (trace ++ called phase h ∷ []))
      | inr (inl e) ↦ rw (execute_until_error, e) (λ f. cc)
      | inr (inr e) ↦ absurd (calm trace h e)
    ]

    serve-Ended :
        (a : App H) (hangups later : List Signal) (trace : List (Event H))
        → All (λ s. s ≡ hangup) hangups
        → Ended a trace (serve acts true a (hangups ++ cancelled ∷ later) trace)
    unfolding serve shut_down close execute_stop_hooks
    serve-Ended a [] later trace all =
        let calls = map (called shutting) (reverse a.on_shutdown) in
        let ends : List (Event H) = drained ∷ unobserved ∷ [] in
        (
          [],
          tt,
          rw (execute_until_panic-calm shutting (reverse a.on_shutdown) trace, append-nil trace)
              (ap (λ x. (x, finished))
                (append_assoc (trace ++ calls) ends (map (called stopping) a.on_stop))),
        )
    serve-Ended a (s ∷ hangups) later trace (one, all) =
        let p = execute_until_error acts reloading 0 a.on_reload trace in
        let rest = serve acts true a (hangups ++ cancelled ∷ later) in
        let (block, prefix, ran, _) = execute_until_error-Ran acts reloading 0 a.on_reload trace in
        let (blocks, prefixes, e) = serve-Ended a hangups later p.0 all in
        let after = map (called shutting) (reverse a.on_shutdown) in
        let goes : keep_serving p rest ≡ rest p.0 = elim (keep_serving_cases p rest) [
          | inl goes ↦ goes
          | inr (crash, _) ↦ absurd (execute_until_error-calm reloading 0 a.on_reload trace crash)
        ] in
        let longer : p.0 ++ reload_calls blocks ≡ trace ++ reload_calls (block ∷ blocks) =
          ap (λ x. x ++ reload_calls blocks) ran
          ∙ append_assoc trace (map (called reloading) block) (reload_calls blocks) in
        (
          block ∷ blocks,
          (prefix, prefixes),
          rw one (
              goes
              ∙ e
              ∙ ap
                  (λ x. (
                    x ++ after ++ drained ∷ unobserved ∷ map (called stopping) a.on_stop,
                    finished,
                  ))
                  longer),
        )

-- If metrics and tracing start, the hooks for the start succeed, no hook panics, the context ends
-- before the server fails and Shutdown ends in time, then Start returns without an error, whatever the
-- hooks for reloads return: it has called all hooks for the start in order, frozen the router, started
-- those for readiness, made the reloads, and then called all hooks for the shutdown in reverse order,
-- ended the server, metrics and tracing, and called all hooks for the stop.
pub start-Ended {ℓ} :
    {H : Type ℓ} (acts : List (Event H) → H → Conduct) (a : App H) (hangups later : List Signal)
    → ((t : List (Event H)) (h : H) → acts t h ≢ panicking)
    → ((t : List (Event H)) → All (λ h. acts t h ≡ fine) a.on_start)
    → All (λ s. s ≡ hangup) hangups
    → Ended a
        (observing ∷ map (called starting) a.on_start ++ frozen ∷ map spawned a.on_ready)
        (start acts true true a (hangups ++ cancelled ∷ later))
unfolding start run_server execute_ready_hooks
start-Ended acts a hangups later calm ok all =
    let begun = observing ∷ map (called starting) a.on_start in
    let (blocks, prefixes, e) =
      serve-Ended acts calm a hangups later (begun ++ frozen ∷ [] ++ map spawned a.on_ready) all in
    (
      blocks,
      prefixes,
      rw (execute_until_error-fine acts starting 0 a.on_start (observing ∷ []) ok) (
          e
          ∙ ap
              (λ x. (
                x
                    ++ reload_calls blocks
                    ++ map (called shutting) (reverse a.on_shutdown)
                    ++ drained ∷ unobserved ∷ map (called stopping) a.on_stop,
                finished,
              ))
              (append_assoc begun (frozen ∷ []) (map spawned a.on_ready))),
    )
