-- ===== src/Router/Version/Engine.antt =====
-- The engine (router/version/engine.go) and what the router makes of it (router/versioning.go:
-- processVersioning). The calls of the observer are the events. The choice of the tree is a lookup by
-- method and version and stays with the caller.
use rivaas.Prelude.{
  Bool, true, false, ◌&&◌, ◌||◌, not, List, [], ◌∷◌, ◌++◌, Option, none, some, if◌then◌else◌, ◌>>=◌,
  Bytes, eqb, is_empty,
}
use rivaas.Router.Version.Detectors.{
  Request, Detector, path_detector, detect, extract_from_path, path_prefix, strip_version,
}

pub record Config : Type 0 where
  pub default_version : Bytes
  pub valid_versions : List Bytes
  pub detectors : List Detector

pub data Event : Type 0 where
  on_detected : Bytes → Event
  on_missing : Event
  on_invalid : Bytes → Event

unfoldable pub member : Bytes → List Bytes → Bool
member version [] = false
member version (v ∷ vs) = eqb v version || member version vs

-- Whether validateVersion accepts a version. Without a list every version is valid.
unfoldable pub is_valid : List Bytes → Bytes → Bool
unfolding member
is_valid [] version = not (is_empty version)
is_valid (v ∷ vs) version = not (is_empty version) && member version (v ∷ vs)

-- The events of a version that is not accepted.
unfoldable pub invalid : Bytes → List Event
invalid version = if is_empty version then [] else on_invalid version ∷ []

-- What a detector found: the version, if it is accepted; else the loop goes on.
unfoldable pub settle :
    Bool
    → Bytes
    → List Event
    → (List Event → Option (Bytes × List Event))
    → Option (Bytes × List Event)
unfolding invalid
settle true version events next = some (version, on_detected version ∷ events)
settle false version events next = next (invalid version ++ events)

unfoldable pub after_detect :
    List Bytes
    → Option Bytes
    → List Event
    → (List Event → Option (Bytes × List Event))
    → Option (Bytes × List Event)
unfolding settle
after_detect valid_versions none events next = next events
after_detect valid_versions (some version) events next =
    settle (is_valid valid_versions version) version events next

-- The loop of DetectVersion
unfoldable pub try_detectors :
    Config → Request → List Detector → List Event → Option (Bytes × List Event)
unfolding after_detect
try_detectors cfg req [] events = some (cfg.default_version, on_missing ∷ events)
try_detectors cfg req (d ∷ ds) events = detect d req >>= λ found.
    after_detect cfg.valid_versions found events (try_detectors cfg req ds)

-- DetectVersion
unfoldable pub detect_version : Config → Request → Option (Bytes × List Event)
detect_version cfg req = try_detectors cfg req cfg.detectors []

-- The path detectors of a list, by their prefixes.
unfoldable pub path_prefixes : List Detector → List Bytes
path_prefixes [] = []
path_prefixes (path_detector pattern ∷ ds) = path_prefix pattern ∷ path_prefixes ds
path_prefixes (_ ∷ ds) = path_prefixes ds

-- ExtractPathSegment
unfoldable pub extract_path_segment : List Bytes → Bytes → Option Bytes
extract_path_segment [] path = none
extract_path_segment (prefix ∷ prefixes) path =
    let rest = extract_path_segment prefixes path in
    elim (extract_from_path prefix path) [ none ↦ rest | some segment ↦ some segment ]

-- StripPathVersion
unfoldable pub strip_path_version : List Bytes → Bytes → Bytes
strip_path_version [] path = path
strip_path_version (prefix ∷ prefixes) path =
    let stripped = strip_version prefix path in
    let rest = strip_path_version prefixes path in if eqb stripped path then rest else stripped

-- ShouldApplyVersioning
unfoldable pub should_apply_versioning : Config → Bytes → Bool
should_apply_versioning cfg path = elim (path_prefixes cfg.detectors) [
  | [] ↦ true
  | prefix ∷ prefixes ↦ elim (extract_path_segment (prefix ∷ prefixes) path) [
    | some segment ↦ true
    | none ↦ not (is_empty cfg.default_version)
  ]
]

unfoldable pub routing_path : Config → Bytes → Bytes
routing_path cfg path = elim (extract_path_segment (path_prefixes cfg.detectors) path) [
  | some segment ↦ strip_path_version (path_prefixes cfg.detectors) path
  | none ↦ path
]

-- processVersioning: the version and the path to look up, or no versioning.
unfoldable pub process_versioning : Config → Request → Option (Option (Bytes × Bytes))
process_versioning cfg req =
    if should_apply_versioning cfg req.path
    then (detect_version cfg req >>= λ found. some (some (found.0, routing_path cfg req.path)))
    else some none
