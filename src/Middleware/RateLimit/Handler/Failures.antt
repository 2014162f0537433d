-- ===== src/Middleware/RateLimit/Handler/Failures.antt =====
-- A store of the sliding window that fails does not keep a request out.
use mathlib.Core.Option.{some-injective}
use rivaas.Prelude.{
  ℕ, ◌≡◌, ◌↔◌, refl, true, false, none, some, arith, Bytes, Option, Bool-cases, inl, inr,
}
use rivaas.Prelude.Int.{pos, ltb_ℤ}
use rivaas.Middleware.RateLimit.Float64.{Float64}
use rivaas.Middleware.RateLimit.Window.{Counts}
use rivaas.Middleware.RateLimit.Handler.{
  CommonOptions, WindowStore, with_sliding_window, after_counts, after_incr, effective_usage,
}
use rivaas.Middleware.RateLimit.Handler.Passed.{IsStrict}

module _ {W : Type 0} (f : Float64 W) where
  after_incr_iff :
      (window limit now : ℕ) (opts : CommonOptions) (c : Counts)
      → IsStrict opts
      → ((after_incr f window limit opts false now c).next ≡ false)
        ↔ (ltb_ℤ (f.to_int (effective_usage f window now c)) (pos limit) ≡ false)
  unfolding after_incr
  after_incr_iff window limit now opts c strict = ground arith

  after_counts_iff :
      {S : Type 0} (store : WindowStore S) (window limit : ℕ) (opts : CommonOptions) (key : Bytes)
      (now : ℕ) (s : S) (counts : Option Counts)
      → IsStrict opts
      → ((after_counts f store window limit opts false key now s counts).1.next ≡ false) ↔ (
          (c : Counts) × (counts ≡ some c)
          × ((store.incr key window now s).1 ≡ true)
          × (ltb_ℤ (f.to_int (effective_usage f window now c)) (pos limit) ≡ false))
  unfolding after_counts
  after_counts_iff store window limit opts key now s none strict = ((λ h. cc), λ h. cc)
  after_counts_iff store window limit opts key now s (some c) strict =
      let refused = after_incr_iff window limit now opts c strict in
      elim (Bool-cases (store.incr key window now s).1) [
        | inl done ↦ rw done (
          (λ h. (c, refl, refl, refused.0 h)),
          λ (c', e, _, over). refused.1 (rw (some-injective _ _ e) over),
        )
        | inr failed ↦ rw failed ((λ h. cc), λ h. cc)
      ]

  -- Whatever the store is, a request that comes to a strict limiter is kept from the next handler
  -- exactly when both calls of the store succeed and the usage, the share of the last window included and
  -- computed and truncated as float64 is, is not below the limit. A failing store keeps out none.
  pub with_sliding_window-refuses_iff :
      {S : Type 0} (store : WindowStore S) (window limit : ℕ) (opts : CommonOptions) (key : Bytes)
      (now : ℕ) (s : S)
      → IsStrict opts
      → ((with_sliding_window f store window limit opts false key now s).1.next ≡ false) ↔ (
          (c : Counts) × ((store.get_counts key window now s).1 ≡ some c)
          × ((store.incr key window now (store.get_counts key window now s).0).1 ≡ true)
          × (ltb_ℤ (f.to_int (effective_usage f window now c)) (pos limit) ≡ false))
  unfolding with_sliding_window
  with_sliding_window-refuses_iff store window limit opts key now s strict =
      after_counts_iff store window limit opts key now (store.get_counts key window now s).0 _
        strict
