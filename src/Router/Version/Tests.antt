-- ===== src/Router/Version/Tests.antt =====
-- Requests with versions.
use rivaas.Prelude.{
  ◌≡◌, refl, List, [], ◌∷◌, none, some, arith, Bytes, codes, eqb, is_empty, has_prefix, has_suffix,
  prepend,
}
use rivaas.Compiler.Route.{trim_space}
use rivaas.Router.Version.Detectors.{
  Request, path_detector, header_detector, accept_detector, detect, path_prefix, tagged, root_or,
  extract_from_query, extract_from_path, strip_version,
}
use rivaas.Router.Version.Engine.{
  Config, Event, is_valid, detect_version, process_versioning, path_prefixes, try_detectors,
  routing_path, should_apply_versioning, extract_path_segment, strip_path_version,
}
use rivaas.Router.Version.Detected.{IsFirstValid, detect_version-IsFirstValid}
use rivaas.Router.Version.Stripped.{process_versioning-path}

abbrev valid : List Bytes
valid = codes "v1" ∷ codes "v2" ∷ []

abbrev no_header : Bytes → Bytes
no_header s = []

abbrev cfg : Config
cfg = record {
  default_version = codes "v1";
  valid_versions = valid;
  detectors = path_detector (codes "/v{version}/") ∷ header_detector (codes "X-API-Version") ∷ [];
}

abbrev to : Bytes → Request
to path = record { path = path; raw_query = []; header = no_header }

-- A path that only begins like a versioned one loses its first segment.
videos : process_versioning cfg (to (codes "/videos/7")) ≡ some (some (codes "v1", codes "/7"))
unfolding process_versioning should_apply_versioning routing_path detect_version try_detectors
    path_prefixes path_prefix extract_path_segment strip_path_version extract_from_path detect
    is_valid strip_version eqb is_empty has_prefix has_suffix
videos = refl

-- The third occurrence of a parameter's name is not looked at.
third_occurrence :
    extract_from_query (codes "version") (codes "a_version=1&b_version=2&version=3") ≡ some none
unfolding extract_from_query has_prefix is_empty
third_occurrence = refl

-- A media type in which the prefix and the suffix of the pattern overlap.
overlap :
    detect
      (accept_detector (codes "application/{version}/json"))
      (record { path = []; raw_query = []; header = λ s. codes "application/json" })
    ≡ none
unfolding detect has_prefix has_suffix is_empty eqb prepend trim_space
overlap = refl

detect_version-IsFirstValid_example :
    (version : Bytes) × (log : List Event) × (detect_version cfg (to (codes "/v2/users"))
      ≡ some (version, log))
    × IsFirstValid cfg (to (codes "/v2/users")) cfg.detectors version
unfolding detect
detect_version-IsFirstValid_example =
    detect_version-IsFirstValid cfg (to (codes "/v2/users")) ((_, refl), ((_, refl), tt))

process_versioning-path_example :
    process_versioning cfg (to (codes "/v2/users")) ≡ some (some (codes "v2", codes "/users"))
unfolding path_prefix tagged is_valid is_empty eqb has_suffix has_prefix root_or
process_versioning-path_example =
    process_versioning-path (codes "v1") valid (codes "/v{version}/") (codes "2") (codes "/users")
      [] no_header (header_detector (codes "X-API-Version") ∷ []) refl refl (ground arith) refl refl
