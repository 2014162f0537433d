-- ===== src/App/Lifecycle/Stages.antt =====
-- The order of all that happens in a run, however the hooks behave.
use mathlib.Core.List.{reverse}
use rivaas.Prelude.{
  ℕ, suc, Bool, true, false, ◌≡◌, ◌⊎◌, refl, sym, ap, subst, ◌∙◌, List, [], ◌∷◌, ◌++◌, append-nil,
  append_assoc, map, All, inl, inr,
}
use rivaas.App.Lifecycle.{
  Phase, starting, reloading, shutting, stopping, Event, called, spawned, observing, frozen,
  drained, unobserved, Conduct, fine, failing, panicking, End, finished, hook_failed, failed,
  crashed, running, Signal, hangup, cancelled, server_failed, App, execute_until_error,
  execute_until_panic, execute_stop_hooks, execute_ready_hooks, then_go, close, shut_down,
  keep_serving, serve, run_server, start,
}

pub Conduct-cases : (c : Conduct) → (c ≡ fine) ⊎ ((c ≡ failing) ⊎ (c ≡ panicking))
Conduct-cases fine = inl refl
Conduct-cases failing = inr (inl refl)
Conduct-cases panicking = inr (inr refl)

module _ {ℓ} {H : Type ℓ} where
  abbrev pub IsPrefix : List H → List H → Type ℓ
  IsPrefix s hooks = (rest : List H) × (s ++ rest ≡ hooks)

  -- A step appends to the trace; `p` is what it leaves.
  abbrev pub Ran : Phase → List H → List (Event H) → List (Event H) × End → Type ℓ
  Ran phase hooks trace p =
      (s : List H) × IsPrefix s hooks
      × (p.0 ≡ trace ++ map (called phase) s)
      × (p.1 ≡ finished → s ≡ hooks)

  -- The calls of some reloads.
  abbrev pub reload_calls : List (List H) → List (Event H)
  reload_calls [] = []
  reload_calls (s ∷ blocks) = map (called reloading) s ++ reload_calls blocks

  -- What may follow the reloads: some of the hooks for the shutdown, the last one first; or all of them,
  -- the end of the server, and all hooks for the stop.
  abbrev pub Closes : App H → List (Event H) → Type ℓ
  Closes a c =
      ((s : List H) × IsPrefix s (reverse a.on_shutdown) × (c ≡ map (called shutting) s))
      ⊎ (c
          ≡ map (called shutting) (reverse a.on_shutdown)
            ++ drained ∷ unobserved ∷ map (called stopping) a.on_stop)

  -- The trace goes on with reloads and perhaps the shutdown.
  abbrev pub Serves : App H → List (Event H) → List (Event H) → Type ℓ
  Serves a trace t =
      (blocks : List (List H)) × (c : List (Event H)) × (t ≡ trace ++ reload_calls blocks ++ c)
      × All (λ s. IsPrefix s a.on_reload) blocks
      × Closes a c

  -- What a run may leave: nothing, where metrics or tracing do not start; the calls of some hooks
  -- for the start, from the first; or all of them and then the rest.
  abbrev pub IsStaged : App H → List (Event H) → Type ℓ
  IsStaged a t =
      (t ≡ [])
      ⊎ (((s : List H) × IsPrefix s a.on_start × (t ≡ observing ∷ map (called starting) s))
          ⊎ Serves a
              (observing ∷ map (called starting) a.on_start ++ frozen ∷ map spawned a.on_ready) t)

  pub then_go_cases :
      (p : List (Event H) × End) (f : List (Event H) → List (Event H) × End)
      → ((p.1 ≡ finished) × (then_go p f ≡ f p.0)) ⊎ (then_go p f ≡ p)
  then_go_cases (trace, finished) f = inl (refl, refl)
  then_go_cases (trace, hook_failed i) f = inr refl
  then_go_cases (trace, failed) f = inr refl
  then_go_cases (trace, crashed) f = inr refl
  then_go_cases (trace, running) f = inr refl

  pub keep_serving_cases :
      (p : List (Event H) × End) (f : List (Event H) → List (Event H) × End)
      → (keep_serving p f ≡ f p.0) ⊎ ((p.1 ≡ crashed) × (keep_serving p f ≡ p))
  unfolding keep_serving
  keep_serving_cases (trace, finished) f = inl refl
  keep_serving_cases (trace, hook_failed i) f = inl refl
  keep_serving_cases (trace, failed) f = inl refl
  keep_serving_cases (trace, crashed) f = inr (refl, refl)
  keep_serving_cases (trace, running) f = inl refl

  Ran-one :
      (phase : Phase) (h : H) (hooks : List H) (trace : List (Event H)) (e : End)
      → (e ≡ finished → ⊥)
      → Ran phase (h ∷ hooks) trace (trace ++ called phase h ∷ [], e)
  Ran-one phase h hooks trace e n = (h ∷ [], (hooks, refl), refl, λ f. absurd (n f))

  Ran-more :
      (phase : Phase) (h : H) (hooks : List H) (trace : List (Event H)) (p : List (Event H) × End)
      → Ran phase hooks (trace ++ called phase h ∷ []) p
      → Ran phase (h ∷ hooks) trace p
  Ran-more phase h hooks trace p (s, (rest, e), t, all) = (
    h ∷ s,
    (rest, ap (λ l. h ∷ l) e),
    t ∙ append_assoc trace (called phase h ∷ []) (map (called phase) s),
    λ f. ap (λ l. h ∷ l) (all f),
  )

module _ {ℓ} {H : Type ℓ} (acts : List (Event H) → H → Conduct) where
  pub execute_until_error-Ran :
      (phase : Phase) (i : ℕ) (hooks : List H) (trace : List (Event H))
      → Ran phase hooks trace (execute_until_error acts phase i hooks trace)
  unfolding execute_until_error
  execute_until_error-Ran phase i [] trace = ([], ([], refl), sym (append-nil trace), λ f. refl)
  execute_until_error-Ran phase i (h ∷ hooks) trace = elim (Conduct-cases (acts trace h)) [
    | inl e ↦
        rw (execute_until_error, e)
          (Ran-more phase h hooks trace _
            (execute_until_error-Ran phase (suc i) hooks (trace ++ called phase h ∷ [])))
    | inr (inl e) ↦
        rw (execute_until_error, e) (Ran-one phase h hooks trace (hook_failed i) (λ f. cc))
    | inr (inr e) ↦ rw (execute_until_error, e) (Ran-one phase h hooks trace crashed (λ f. cc))
  ]

  pub execute_until_panic-Ran :
      (phase : Phase) (hooks : List H) (trace : List (Event H))
      → Ran phase hooks trace (execute_until_panic acts phase hooks trace)
  unfolding execute_until_panic
  execute_until_panic-Ran phase [] trace = ([], ([], refl), sym (append-nil trace), λ f. refl)
  execute_until_panic-Ran phase (h ∷ hooks) trace =
      let more =
        Ran-more phase h hooks trace _
          (execute_until_panic-Ran phase hooks (trace ++ called phase h ∷ [])) in
      elim (Conduct-cases (acts trace h)) [
        | inl e ↦ rw (execute_until_panic, e) more
        | inr (inl e) ↦ rw (execute_until_panic, e) more
        | inr (inr e) ↦ rw (execute_until_panic, e) (Ran-one phase h hooks trace crashed (λ f. cc))
      ]

  close-Closes :
      (in_time : Bool) (a : App H) (trace t : List (Event H))
      → t ≡ trace ++ map (called shutting) (reverse a.on_shutdown)
      → (c : List (Event H)) × ((close in_time a t).0 ≡ trace ++ c) × Closes a c
  unfolding close execute_stop_hooks
  close-Closes true a trace t e =
      let calls = map (called shutting) (reverse a.on_shutdown) in
      let ends : List (Event H) = drained ∷ unobserved ∷ [] in
      let last = map (called stopping) a.on_stop in
      (
        calls ++ drained ∷ unobserved ∷ last,
        append_assoc t ends last
            ∙ ap (λ x. x ++ (ends ++ last)) e
            ∙ append_assoc trace calls (ends ++ last),
        inr refl,
      )
  close-Closes false a trace t e = (
    map (called shutting) (reverse a.on_shutdown),
    e,
    inl (reverse a.on_shutdown, ([], append-nil _), refl),
  )

  shut_down-Closes :
      (in_time : Bool) (a : App H) (trace : List (Event H))
      → (c : List (Event H)) × ((shut_down acts in_time a trace).0 ≡ trace ++ c) × Closes a c
  unfolding shut_down
  shut_down-Closes in_time a trace =
      let p = execute_until_panic acts shutting (reverse a.on_shutdown) trace in
      let (s, prefix, ran, all) = execute_until_panic-Ran shutting (reverse a.on_shutdown) trace in
      elim (then_go_cases p (close in_time a)) [
        | inr ended ↦ rw ended (map (called shutting) s, ran, inl (s, prefix, refl))
        | inl (well, goes) ↦ rw goes (close-Closes in_time a trace p.0 (ran ∙ rw (all well) refl))
      ]

  -- Nothing more happens.
  Serves-nothing : (a : App H) (trace : List (Event H)) → Serves a trace trace
  Serves-nothing a trace = (
    [],
    [],
    rw (append-nil (trace ++ []), append-nil trace) refl,
    tt,
    inl ([], (reverse a.on_shutdown, refl), refl),
  )

  Serves-reload :
      (a : App H) (trace t : List (Event H)) (s : List H)
      → IsPrefix s a.on_reload
      → Serves a (trace ++ map (called reloading) s) t
      → Serves a trace t
  Serves-reload a trace t s prefix (blocks, c, e, all, closes) =
      let calls = map (called reloading) s in
      (
        s ∷ blocks,
        c,
        e ∙ ap (λ x. x ++ c) (append_assoc trace calls (reload_calls blocks)),
        (prefix, all),
        closes,
      )

  serve-Serves :
      (in_time : Bool) (a : App H) (signals : List Signal) (trace : List (Event H))
      → Serves a trace (serve acts in_time a signals trace).0
  unfolding serve
  serve-Serves in_time a [] trace = Serves-nothing a trace
  serve-Serves in_time a (server_failed ∷ signals) trace = Serves-nothing a trace
  serve-Serves in_time a (cancelled ∷ signals) trace =
      let (c, e, closes) = shut_down-Closes in_time a trace in
      ([], c, e ∙ rw (append-nil trace) refl, tt, closes)
  serve-Serves in_time a (hangup ∷ signals) trace =
      let p = execute_until_error acts reloading 0 a.on_reload trace in
      let (s, prefix, ran, _) = execute_until_error-Ran reloading 0 a.on_reload trace in
      elim (keep_serving_cases p (serve acts in_time a signals)) [
        | inl goes ↦ rw goes (
            Serves-reload a trace _ s prefix (
              subst (λ x. Serves a x (serve acts in_time a signals p.0).0) ran
                (serve-Serves in_time a signals p.0)))
        | inr (_, ended) ↦ rw ended (
            Serves-reload a trace p.0 s prefix
              (rw ran (Serves-nothing a (trace ++ map (called reloading) s))))
      ]

  -- Whatever the hooks do and whatever signals come: the hooks for the start are called in order, from
  -- the first; only when all have been called is the router frozen and are those for readiness started;
  -- then come reloads, each with hooks from the first one on; and at most one shutdown, with the hooks
  -- for it from the last one back, and only when all have been called the end of the server, then that of
  -- metrics and tracing, then all hooks for the stop.
  pub start-IsStaged :
      (observable in_time : Bool) (a : App H) (signals : List Signal)
      → IsStaged a (start acts observable in_time a signals).0
  unfolding start run_server execute_ready_hooks
  start-IsStaged false in_time a signals = inl refl
  start-IsStaged true in_time a signals =
      let p = execute_until_error acts starting 0 a.on_start (observing ∷ []) in
      let (s, prefix, ran, all) = execute_until_error-Ran starting 0 a.on_start (observing ∷ []) in
      elim (then_go_cases p (λ trace. run_server acts in_time a signals (trace ++ frozen ∷ []))) [
        | inr ended ↦ rw ended (inr (inl (s, prefix, ran)))
        | inl (well, goes) ↦
            let trace = p.0 ++ frozen ∷ [] ++ map spawned a.on_ready in
            let opened : trace
                ≡ observing ∷ map (called starting) a.on_start ++ frozen ∷ map spawned a.on_ready =
              rw (ran, all well)
                (append_assoc (observing ∷ map (called starting) a.on_start) (frozen ∷ [])
                  (map spawned a.on_ready)) in
            rw goes (
              inr (
                inr (
                  subst (λ x. Serves a x (serve acts in_time a signals trace).0) opened
                    (serve-Serves in_time a signals trace))))
      ]
