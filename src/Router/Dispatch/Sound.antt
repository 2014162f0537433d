-- ===== src/Router/Dispatch/Sound.antt =====
-- What an outcome may be, and the steps of a dispatch that keep to it.
use rivaas.Prelude.{
  ℕ, Bool, true, false, ◌≡◌, ◌⊎◌, refl, sym, ◌∙◌, List, [], ◌∷◌, Option, none, some, ◌>>=◌,
  if◌then◌else◌, Bytes, find_key, Option-cases, Bool-cases, inl, inr,
}
use rivaas.Compiler.Fnv.{Fnv}
use rivaas.Router.Params.{Params}
use rivaas.Router.Radix.{Match}
use rivaas.Router.Version.Lifecycle.{set_lifecycle_headers}
use rivaas.Router.Version.Lifecycle.Headers
use rivaas.Router.Version.Lifecycle.Headers.{end_of, set_lifecycle_headers-Announces}
use rivaas.Router.Dispatch.Refined.{tree_outcome}
use rivaas.Router.Dispatch.{
  Action, served, gone, method_not_allowed, not_found, Outcome, Engine, first_of,
  pattern_or_unmatched, run_chain, when_observed, refusal, run_version,
}

-- Whether a version is deprecated and past its sunset date while the engine of the router enforces
-- sunsets.
unfoldable pub is_ended : Option Engine → Bytes → Bool
is_ended none version = false
is_ended (some e) version =
    Headers.gone e.policy.enforce_sunset e.now (end_of (find_key version e.policy.lifecycles))

module _ {ℓ} {H : Type ℓ} (observed : Bool) (engine : Option Engine) where
  -- A chain runs for no version or for one that has not ended, and its observation ends with a pattern; a
  -- version is called gone only if it has ended.
  abbrev pub Sound : Action H → Option Bytes → Type 0
  Sound (served handlers pattern version p) ended =
      ((version ≡ []) ⊎ (is_ended engine version ≡ false))
      × ((told : Bytes) × (ended ≡ when_observed observed told))
  Sound (gone version) ended = is_ended engine version ≡ true
  Sound (method_not_allowed _ _) ended = Unit
  Sound (not_found _) ended = Unit

  abbrev pub IsSound : Outcome H → Type 0
  IsSound o = Sound o.action o.ended

  abbrev pub Results : Option (Outcome H) → Type 0
  Results none = Unit
  Results (some o) = IsSound o

  abbrev pub Finds : Option (Option (Outcome H)) → Type 0
  Finds none = Unit
  Finds (some found) = Results found

  pub bind_Results {κ} :
      {A : Type κ} (m : Option A) (f : A → Option (Outcome H))
      → ((a : A) → Results (f a))
      → Results (m >>= f)
  bind_Results none f h = tt
  bind_Results (some a) f h = h a

  pub bind_Finds {κ} :
      {A : Type κ} (m : Option A) (f : A → Option (Option (Outcome H)))
      → ((a : A) → Finds (f a))
      → Finds (m >>= f)
  bind_Finds none f h = tt
  bind_Finds (some a) f h = h a

  -- A lookup, and then the next step where it finds nothing.
  pub then_Results :
      (m : Option (Option (Outcome H))) (next : Option (Outcome H))
      → Finds m
      → Results next
      → Results (m >>= λ found. first_of found next)
  then_Results none next h h' = tt
  then_Results (some none) next h h' = h'
  then_Results (some (some o)) next h h' = h

  pub compiled_if :
      (on : Bool) (m : Option (Option (Outcome H))) → Finds m → Finds (if on then m else some none)
  compiled_if true m h = h
  compiled_if false m h = tt

  pub run_chain-IsSound :
      (handlers : List H) (pattern ended : Bytes) (p : Params)
      → IsSound (run_chain observed handlers pattern ended [] p)
  unfolding run_chain
  run_chain-IsSound handlers pattern ended p = (inl refl, (ended, refl))

pub refusal-Sound {ℓ} :
    (H : Type ℓ) (observed : Bool) (engine : Option Engine) (allowed : List Bytes) (version : Bytes)
    (ended : Option Bytes)
    → Sound {H = H} observed engine (refusal allowed version) ended
unfolding refusal
refusal-Sound H observed engine [] version ended = tt
refusal-Sound H observed engine (m ∷ allowed) version ended = tt

module _ {ℓ} {H : Type ℓ} (observed : Bool) (engine : Option Engine) where
  pub tree_outcome-Results : (m : Match H) → Results observed engine (tree_outcome observed m)
  tree_outcome-Results m = elim (Option-cases m.handlers) [
    | inl nothing ↦ rw nothing tt
    | inr (hs, e) ↦
        rw e
          (run_chain-IsSound observed engine hs (pattern_or_unmatched m.pattern) m.pattern m.params)
  ]

module _ {ℓ} {H : Type ℓ} (fnv : Fnv) (http_date rfc3339 : ℕ → Bytes) (observed : Bool)
    (e : Engine) where
  pub run_version-IsSound :
      (version : Bytes) (handlers : List H) (pattern ended : Bytes) (p : Params)
      → IsSound observed
          (some e)
          (run_version fnv http_date rfc3339 observed e version handlers pattern ended p)
  unfolding run_version is_ended
  run_version-IsSound version handlers pattern ended p =
      let a = set_lifecycle_headers http_date rfc3339 e.policy e.now version [] in
      let agrees =
        (set_lifecycle_headers-Announces http_date rfc3339 e.policy e.now version []).0 in
      elim (Bool-cases a.is_gone) [
        | inl past ↦ rw (run_version, past) (sym agrees ∙ past)
        | inr live ↦ rw (run_version, live) (inr (sym agrees ∙ live), (ended, refl))
      ]
