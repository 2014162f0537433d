-- ===== src/Router/Version/Detected.antt =====
-- Which version DetectVersion takes.
use rivaas.Prelude.{
  ◌≡◌, ◌⊎◌, refl, ap, ◌∙◌, true, false, List, [], ◌∷◌, ◌++◌, Option, none, some, Bytes, All,
  Bool-cases, inl, inr,
}
use rivaas.Router.Version.Detectors.{Request, Detector, detect}
use rivaas.Router.Version.Engine.{
  Config, Event, on_detected, is_valid, invalid, settle, after_detect, try_detectors,
  detect_version,
}

module _ (cfg : Config) (req : Request) where
  -- The detector finds no version that is valid.
  abbrev pub IsSilent : Detector → Type 0
  IsSilent d =
      (detect d req ≡ some none)
      ⊎ ((v : Bytes) × (detect d req ≡ some (some v)) × (is_valid cfg.valid_versions v ≡ false))

  -- The detector finds this version, and it is valid.
  abbrev pub Finds : Detector → Bytes → Type 0
  Finds d version =
      (detect d req ≡ some (some version)) × (is_valid cfg.valid_versions version ≡ true)

  -- The default where all are silent, and else what the first finds that is not.
  abbrev pub IsFirstValid : List Detector → Bytes → Type 0
  IsFirstValid ds version =
      (All IsSilent ds × (version ≡ cfg.default_version))
      ⊎ ((before : List Detector) × (d : Detector) × (after : List Detector) × (ds
            ≡ before ++ d ∷ after)
          × All IsSilent before
          × Finds d version)

  -- The detector does not panic.
  abbrev pub Answers : Detector → Type 0
  Answers d = (found : Option Bytes) × (detect d req ≡ some found)

  IsFirstValid-cons :
      (d : Detector) (ds : List Detector) (version : Bytes)
      → IsSilent d
      → IsFirstValid ds version
      → IsFirstValid (d ∷ ds) version
  IsFirstValid-cons d ds version silent (inl (all, e)) = inl ((silent, all), e)
  IsFirstValid-cons d ds version silent (inr (before, d', after, e, all, finds)) =
      inr (d ∷ before, d', after, ap (λ l. d ∷ l) e, (silent, all), finds)

  try_detectors-IsFirstValid :
      (ds : List Detector) (events : List Event)
      → All Answers ds
      → (version : Bytes) × (log : List Event) × (try_detectors cfg req ds events
          ≡ some (version, log))
        × IsFirstValid ds version
  unfolding try_detectors after_detect settle
  try_detectors-IsFirstValid [] events answers = (cfg.default_version, _, refl, inl (tt, refl))
  try_detectors-IsFirstValid (d ∷ ds) events ((none, found), answers) =
      let (version, log, e, first) = try_detectors-IsFirstValid ds events answers in
      (version, log, rw found e, IsFirstValid-cons d ds version (inl found) first)
  try_detectors-IsFirstValid (d ∷ ds) events ((some v, found), answers) =
      elim (Bool-cases (is_valid cfg.valid_versions v)) [
        | inl valid ↦ (
          v,
          on_detected v ∷ events,
          rw found (ap (λ b. settle b v events (try_detectors cfg req ds)) valid),
          inr ([], d, ds, refl, tt, (found, valid)),
        )
        | inr refused ↦
            let (version, log, e, first) =
              try_detectors-IsFirstValid ds (invalid v ++ events) answers in
            (
              version,
              log,
              rw found (ap (λ b. settle b v events (try_detectors cfg req ds)) refused ∙ e),
              IsFirstValid-cons d ds version (inr (v, found, refused)) first,
            )
      ]

-- If no detector panics, DetectVersion returns a version: that of the first detector that finds a valid
-- one, or the default version, if there is no such detector.
pub detect_version-IsFirstValid :
    (cfg : Config) (req : Request)
    → All (Answers cfg req) cfg.detectors
    → (version : Bytes) × (log : List Event) × (detect_version cfg req ≡ some (version, log))
      × IsFirstValid cfg req cfg.detectors version
unfolding detect_version
detect_version-IsFirstValid cfg req answers =
    try_detectors-IsFirstValid cfg req cfg.detectors [] answers
