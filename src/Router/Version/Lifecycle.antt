-- ===== src/Router/Version/Lifecycle.antt =====
-- The life cycle of versions (router/version/lifecycle.go, and SetLifecycleHeaders and ApplyLifecycle of
-- router/version/engine.go). A time is a number, and the zero time is `none`. The two formats of a time
-- are parameters, and the clock is an argument. The headers of a response are a map.
pub mod Headers
mod Tests
use rivaas.Prelude.{
  ℕ, suc, Bool, true, false, ◌&&◌, not, List, [], ◌∷◌, ◌++◌, Option, none, some, ltb, if◌then◌else◌,
  Bytes, codes, is_empty, find_key, put_key,
}
use mathlib.Core.Option

-- lifecycleConfig
pub record Lifecycle : Type 0 where
  pub is_deprecated : Bool
  pub deprecated_at : Option ℕ
  pub sunset_date : Option ℕ
  pub migration_url : Bytes
  pub successor : Bytes

unfoldable pub new_lifecycle : Lifecycle
new_lifecycle = record {
  is_deprecated = false;
  deprecated_at = none;
  sunset_date = none;
  migration_url = [];
  successor = [];
}

-- The options, by the functions that make them.
pub data LifecycleOption : Type 0 where
  deprecated : LifecycleOption
  deprecated_since : Option ℕ → LifecycleOption
  sunset : Option ℕ → LifecycleOption
  migration_docs : Bytes → LifecycleOption
  successor_version : Bytes → LifecycleOption

unfoldable pub since_or : ℕ → Option ℕ → Option ℕ
since_or now none = some now
since_or now (some t) = some t

unfoldable pub apply_option : ℕ → LifecycleOption → Lifecycle → Lifecycle
unfolding since_or
apply_option now deprecated lc = record lc {
  is_deprecated = true;
  deprecated_at = since_or now lc.deprecated_at;
}
apply_option now (deprecated_since t) lc = record lc { is_deprecated = true; deprecated_at = t }
apply_option now (sunset t) lc = record lc { sunset_date = t }
apply_option now (migration_docs url) lc = record lc { migration_url = url }
apply_option now (successor_version v) lc = record lc { successor = v }

-- The loop over the options, from index `i`; `none` is a nil option, which ends it with its index.
unfoldable pub apply_options :
    ℕ → ℕ → List (Option LifecycleOption) → Lifecycle → Lifecycle × Option ℕ
unfolding apply_option
apply_options now i [] lc = (lc, none)
apply_options now i (none ∷ opts) lc = (lc, some i)
apply_options now i (some opt ∷ opts) lc = apply_options now (suc i) opts (apply_option now opt lc)

-- What becomes of a life cycle that is new: it is kept if no option is nil.
unfoldable pub keep_new :
    Bytes → Lifecycle × Option ℕ → List (Bytes × Lifecycle) → List (Bytes × Lifecycle) × Option ℕ
keep_new version (lc, none) m = (put_key version lc m, none)
keep_new version (lc, some i) m = (m, some i)

-- ApplyLifecycle, with the index of a nil option. A life cycle that is there is changed in place, so
-- that the options before a nil one stay.
unfoldable pub apply_lifecycle :
    ℕ
    → Bytes
    → List (Option LifecycleOption)
    → List (Bytes × Lifecycle)
    → List (Bytes × Lifecycle) × Option ℕ
unfolding apply_options keep_new new_lifecycle
apply_lifecycle now version [] m = (m, none)
apply_lifecycle now version (opt ∷ opts) m =
    if is_empty version then (m, none) else elim (find_key version m) [
      | none ↦ keep_new version (apply_options now 0 (opt ∷ opts) new_lifecycle) m
      | some lc ↦
          let (lc', err) = apply_options now 0 (opt ∷ opts) lc in (put_key version lc' m, err)
    ]

-- The fields of the configuration that are about life cycles.
pub record Policy : Type 0 where
  pub send_version_header : Bool
  pub send_warning299 : Bool
  pub enforce_sunset : Bool
  pub lifecycles : List (Bytes × Lifecycle)

-- The headers, whether OnDeprecatedUse is called, and whether the version is gone.
pub record Answer : Type 0 where
  pub headers : List (Bytes × Bytes)
  pub deprecated_use : Bool
  pub is_gone : Bool

unfoldable pub set_if : Bool → Bytes → Bytes → List (Bytes × Bytes) → List (Bytes × Bytes)
set_if true name value h = put_key name value h
set_if false name value h = h

-- now.After(sunsetDate), of a date that is set
unfoldable pub is_past : ℕ → Option ℕ → Bool
is_past now none = false
is_past now (some t) = ltb t now

-- <url>; rel="…"
unfoldable pub link : Bytes → Bytes → Bytes
link url rel = codes "<" ++ url ++ codes ">; rel=" ++ b'"' ∷ rel ++ b'"' ∷ []

unfoldable pub deprecation_link : Bytes → Option ℕ → Bytes
unfolding link
deprecation_link url none = link url (codes "deprecation")
deprecation_link url (some _) =
    link url (codes "deprecation") ++ codes ", " ++ link url (codes "sunset")

module _ (http_date rfc3339 : ℕ → Bytes) where
  unfoldable pub set_date : Option ℕ → List (Bytes × Bytes) → List (Bytes × Bytes)
  set_date none h = h
  set_date (some t) h = put_key (codes "Sunset") (http_date t) h

  unfoldable pub removal : Option ℕ → Bytes
  removal none = []
  removal (some t) = codes " and will be removed on " ++ rfc3339 t

  unfoldable pub warning : Bytes → Option ℕ → Bytes
  unfolding removal
  warning version date =
      codes "299 - "
      ++ b'"' ∷ codes "API "
      ++ version
      ++ codes " is deprecated"
      ++ removal date
      ++ codes ". Please upgrade to a supported version."
      ++ b'"' ∷ []

  -- The headers of a version that is past its date.
  unfoldable pub announce_gone : Lifecycle → List (Bytes × Bytes) → List (Bytes × Bytes)
  unfolding set_date set_if link
  announce_gone lc h =
      set_if (not (is_empty lc.migration_url)) (codes "Link")
        (link lc.migration_url (codes "sunset")) (set_date lc.sunset_date h)

  -- The headers of a version that is deprecated and not gone.
  unfoldable pub announce : Policy → Bytes → Lifecycle → List (Bytes × Bytes) → List (Bytes × Bytes)
  unfolding set_date set_if warning deprecation_link
  announce cfg version lc h =
      set_if cfg.send_warning299 (codes "Warning") (warning version lc.sunset_date) (
        set_if (not (is_empty lc.migration_url)) (codes "Link")
          (deprecation_link lc.migration_url lc.sunset_date)
          (set_date lc.sunset_date (put_key (codes "Deprecation") (codes "true") h)))

  unfoldable pub answer_for : Policy → ℕ → Bytes → Lifecycle → List (Bytes × Bytes) → Answer
  unfolding announce_gone announce is_past
  answer_for cfg now version lc h =
      if not lc.is_deprecated
      then record { headers = h; deprecated_use = false; is_gone = false }
      else if cfg.enforce_sunset && is_past now lc.sunset_date
      then record { headers = announce_gone lc h; deprecated_use = false; is_gone = true }
      else record { headers = announce cfg version lc h; deprecated_use = true; is_gone = false }

  -- What the life cycle of the version adds, if it has one.
  unfoldable pub answer_of : Policy → ℕ → Bytes → Option Lifecycle → List (Bytes × Bytes) → Answer
  unfolding answer_for
  answer_of cfg now version none h = record { headers = h; deprecated_use = false; is_gone = false }
  answer_of cfg now version (some lc) h = answer_for cfg now version lc h

  -- SetLifecycleHeaders
  unfoldable pub set_lifecycle_headers : Policy → ℕ → Bytes → List (Bytes × Bytes) → Answer
  unfolding set_if answer_of
  set_lifecycle_headers cfg now version headers =
      answer_of cfg now version (find_key version cfg.lifecycles) (
        set_if (cfg.send_version_header && not (is_empty version)) (codes "X-API-Version") version
          headers)
