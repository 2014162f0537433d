-- ===== src/Router/Chain/Tests.antt =====
-- Runs of handler chains.
use rivaas.Prelude.{◌≡◌, refl, true, List, [], ◌∷◌}
use rivaas.Router.Chain.{
  Handler, done, work, next, abort, started, worked, aborting, initial, call_next,
}
use rivaas.Router.Chain.Order.{IsOrdered, call_next-IsOrdered}
use rivaas.Router.Chain.Abort.{StartsBeforeAbort, call_next-StartsBeforeAbort}
use rivaas.Router.Chain.Progress.{Ended, call_next-Ended}

wraps :
    (call_next (initial (work 1 (next (work 2 done)) ∷ work 3 done ∷ []) true)).trace
    ≡ worked 2 ∷ worked 3 ∷ started 1 ∷ worked 1 ∷ started 0 ∷ []
unfolding initial call_next
wraps = refl

stops :
    (call_next (initial (work 1 (abort done) ∷ work 3 done ∷ []) true)).trace
    ≡ aborting ∷ worked 1 ∷ started 0 ∷ []
unfolding initial call_next
stops = refl

-- The second handler aborts, so that the third does not start.
abbrev aborting_chain : List Handler
aborting_chain = work 1 (next (work 2 done)) ∷ abort (work 3 done) ∷ work 4 done ∷ []

abbrev plain_chain : List Handler
plain_chain = next (work 1 done) ∷ work 2 done ∷ []

call_next-IsOrdered_example : IsOrdered (call_next (initial aborting_chain true))
call_next-IsOrdered_example = call_next-IsOrdered aborting_chain true

call_next-StartsBeforeAbort_example :
    StartsBeforeAbort (call_next (initial aborting_chain true)).trace
call_next-StartsBeforeAbort_example = call_next-StartsBeforeAbort aborting_chain true

call_next-Ended_example : Ended (call_next (initial aborting_chain true))
call_next-Ended_example = call_next-Ended aborting_chain true
