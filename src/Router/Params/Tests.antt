-- ===== src/Router/Params/Tests.antt =====
-- Runs of the route parameters.
use rivaas.Prelude.{◌≡◌, refl, arith, codes, eqb}
use rivaas.Router.Params.{
  Params, found, missing, panic, fresh, store, param, reset, set_param_count, IsValid,
}
use rivaas.Router.Params.Reads.{store-IsValid, param-reset}

fresh-IsValid : IsValid fresh
unfolding fresh
fresh-IsValid = record { keys_length = refl; values_length = refl; within = omega arith }

abbrev one : Params
one = store (codes "id") (codes "42") fresh

abbrev two : Params
two = store (codes "post") (codes "7") one

reads_back : param (codes "id") two ≡ found (codes "42")
unfolding param store fresh eqb
reads_back = refl

-- A count above the slots, as `SetParamCount` may leave it, ends in an index out of range.
over_count : param (codes "x") (set_param_count 9 fresh) ≡ panic
unfolding param set_param_count fresh eqb
over_count = refl

one-IsValid : IsValid one
one-IsValid = store-IsValid fresh (codes "id") (codes "42") fresh-IsValid

unbound : param (codes "post") one ≡ missing
unfolding param store fresh eqb
unbound = refl

param-reset_example : param (codes "id") (reset two) ≡ missing
param-reset_example = param-reset two (codes "id")
