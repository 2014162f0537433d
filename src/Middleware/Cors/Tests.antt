-- ===== src/Middleware/Cors/Tests.antt =====
-- A preflight with credentials where all origins are let in.
use rivaas.Prelude.{◌≡◌, refl, true, false, [], ◌∷◌, Bytes, codes, eqb, is_empty}
use rivaas.Middleware.Cors.{
  Config, with_allow_all_origins, with_allow_credentials, default_config, apply_options, handle,
  handler_of,
}
use rivaas.Router.Chain.{work, done, started, worked, initial, call_next}

abbrev lenient : Config
lenient =
    apply_options (with_allow_all_origins true ∷ with_allow_credentials true ∷ []) default_config

abbrev client : Bytes
client = codes "https://app.example.com"

-- The next handler runs although the preflight was answered.
preflight_goes_on :
    (call_next (
      initial
        (handler_of (handle lenient client (codes "OPTIONS") []) ∷ work 7 done ∷ [])
        false)).trace
    ≡ worked 7 ∷ started 1 ∷ started 0 ∷ []
unfolding call_next initial handler_of handle apply_options default_config eqb is_empty
preflight_goes_on = refl
