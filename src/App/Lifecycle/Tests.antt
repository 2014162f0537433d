-- ===== src/App/Lifecycle/Tests.antt =====
-- A run with one reload that fails.
use rivaas.Prelude.{ℕ, zero, suc, true, false, ◌≢◌, refl, List, [], ◌∷◌, ◌++◌, map}
use rivaas.App.Lifecycle.{
  Event, called, spawned, starting, observing, frozen, Conduct, fine, failing, panicking, hangup,
  cancelled, server_failed, App, start,
}
use rivaas.App.Lifecycle.Graceful.{Ended, start-Ended}
use rivaas.App.Lifecycle.Stages.{IsStaged, start-IsStaged}

abbrev service : App ℕ
service = record {
  on_start = 1 ∷ 2 ∷ [];
  on_ready = 3 ∷ [];
  on_reload = 0 ∷ 4 ∷ [];
  on_shutdown = 5 ∷ 6 ∷ [];
  on_stop = 7 ∷ [];
  is_frozen = false;
}

-- The hook 0 returns an error.
abbrev behaves : List (Event ℕ) → ℕ → Conduct
behaves t zero = failing
behaves t (suc h) = fine

behaves_calmly : (t : List (Event ℕ)) (h : ℕ) → behaves t h ≢ panicking
behaves_calmly t zero = λ e. cc
behaves_calmly t (suc h) = λ e. cc

start-Ended_example :
    Ended service
      (observing ∷ map (called starting) service.on_start ++ frozen ∷ map spawned service.on_ready)
      (start behaves true true service ((hangup ∷ []) ++ cancelled ∷ []))
start-Ended_example =
    start-Ended behaves service (hangup ∷ []) [] behaves_calmly (λ t. (refl, (refl, tt))) (refl, tt)

start-IsStaged_example :
    IsStaged service (start behaves true false service (hangup ∷ server_failed ∷ [])).0
start-IsStaged_example = start-IsStaged behaves true false service (hangup ∷ server_failed ∷ [])
