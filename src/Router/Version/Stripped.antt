-- ===== src/Router/Version/Stripped.antt =====
-- A versioned path is split into the version and the path to look up.
use rivaas.Prelude.{
  suc, ◌≤◌, ◌<◌, ◌≡◌, ◌≢◌, refl, ap, true, false, List, [], ◌∷◌, ◌++◌, some, arith, lt→ltb, length,
  length-append, drop, Bytes, ne→not_eqb, is_empty, has_prefix, IsFree,
}
use rivaas.Router.Version.Detectors.{
  Request, Detector, path_detector, detect, path_prefix, until, from, tagged, extract_from_path,
  root_or, strip_version,
}
use rivaas.Router.Version.Engine.{
  Config, Event, on_detected, is_valid, settle, after_detect, try_detectors, detect_version,
  path_prefixes, extract_path_segment, strip_path_version, should_apply_versioning, routing_path,
  process_versioning,
}

-- The rest of a path after a segment: nothing, or more segments.
abbrev pub IsRest : Bytes → Type 0
IsRest [] = Unit
IsRest (a ∷ s) = a ≡ b'/'

until-append : (s rest : Bytes) → IsFree b'/' s → IsRest rest → until b'/' (s ++ rest) ≡ s
unfolding until
until-append [] [] f r = refl
until-append [] (a ∷ rest) f r = ground arith
until-append (a ∷ s) rest (n, f) r = ground (arith, until-append s rest f r)

from-append : (s rest : Bytes) → IsFree b'/' s → IsRest rest → from b'/' (s ++ rest) ≡ rest
unfolding from
from-append [] [] f r = refl
from-append [] (a ∷ rest) f r = ground arith
from-append (a ∷ s) rest (n, f) r = ground (arith, from-append s rest f r)

has_prefix-append : (prefix s : Bytes) → has_prefix (prefix ++ s) prefix ≡ true
unfolding has_prefix
has_prefix-append [] [] = refl
has_prefix-append [] (a ∷ s) = refl
has_prefix-append (a ∷ prefix) s = ground (arith, has_prefix-append prefix s)

drop-append : (prefix s : Bytes) → drop (length prefix) (prefix ++ s) ≡ s
drop-append [] s = refl
drop-append (a ∷ prefix) s = drop-append prefix s

length_pos : (s : Bytes) → is_empty s ≡ false → 0 < length s
unfolding is_empty
length_pos [] h = cc
length_pos (a ∷ s) h = omega arith

length-root_or : (rest : Bytes) → length (root_or rest) ≤ suc (length rest)
unfolding root_or
length-root_or [] = omega arith
length-root_or (a ∷ rest) = omega arith

module _ (prefix segment rest : Bytes) (named : is_empty prefix ≡ false)
    (valued : is_empty segment ≡ false) (free : IsFree b'/' segment) (r : IsRest rest) where
  extract-append :
      extract_from_path prefix (prefix ++ (segment ++ rest)) ≡ some (tagged prefix segment)
  unfolding extract_from_path
  extract-append =
      rw
        (
          named,
          has_prefix-append prefix (segment ++ rest),
          drop-append prefix (segment ++ rest),
          until-append segment rest free r,
          valued,
        )
        refl

  longer : length prefix < length (prefix ++ (segment ++ rest))
  longer =
      let some_byte = length_pos segment valued in
      omega (arith, length-append prefix (segment ++ rest), length-append segment rest)

  strip-append : strip_version prefix (prefix ++ (segment ++ rest)) ≡ root_or rest
  unfolding strip_version
  strip-append =
      rw
        (
          has_prefix-append prefix (segment ++ rest),
          drop-append prefix (segment ++ rest),
          from-append segment rest free r,
        )
        (rw (lt→ltb _ _ longer) refl)

  -- The path is longer than what is left of it.
  strip-ne : root_or rest ≢ prefix ++ (segment ++ rest)
  strip-ne e =
      let some_prefix = length_pos prefix named in
      let some_byte = length_pos segment valued in
      omega (
        arith,
        ap length e,
        length-root_or rest,
        length-append prefix (segment ++ rest),
        length-append segment rest,
      )

module _ (cfg : Config) (prefix segment rest path : Bytes)
    (found : extract_from_path prefix path ≡ some segment)
    (stripped : strip_version prefix path ≡ rest) (shorter : rest ≢ path) where
  should_apply :
      (prefixes : List Bytes)
      → path_prefixes cfg.detectors ≡ prefix ∷ prefixes
      → should_apply_versioning cfg path ≡ true
  unfolding should_apply_versioning extract_path_segment
  should_apply prefixes e = rw (should_apply_versioning, e, found) refl

  stripped_first : (prefixes : List Bytes) → strip_path_version (prefix ∷ prefixes) path ≡ rest
  unfolding strip_path_version
  stripped_first prefixes = rw stripped (rw (ne→not_eqb rest path shorter) refl)

  stripped_path :
      (prefixes : List Bytes)
      → path_prefixes cfg.detectors ≡ prefix ∷ prefixes
      → routing_path cfg path ≡ rest
  unfolding routing_path extract_path_segment
  stripped_path prefixes e = rw (routing_path, e, found, e) (stripped_first prefixes)

first_detected :
    (cfg : Config) (req : Request) (events : List Event) (d : Detector) (ds : List Detector)
    (version : Bytes)
    → detect d req ≡ some (some version)
    → is_valid cfg.valid_versions version ≡ true
    → try_detectors cfg req (d ∷ ds) events ≡ some (version, on_detected version ∷ events)
unfolding try_detectors after_detect settle
first_detected cfg req events d ds version found valid =
    rw found (ap (λ b. settle b version events (try_detectors cfg req ds)) valid)

detect-path :
    (pattern : Bytes) (req : Request) {version : Bytes}
    → extract_from_path (path_prefix pattern) req.path ≡ some version
    → detect (path_detector pattern) req ≡ some (some version)
unfolding detect
detect-path pattern req found = ap some found

process_versioning-parts :
    (cfg : Config) (req : Request) (version rest : Bytes) (events : List Event)
    → should_apply_versioning cfg req.path ≡ true
    → detect_version cfg req ≡ some (version, events)
    → routing_path cfg req.path ≡ rest
    → process_versioning cfg req ≡ some (some (version, rest))
unfolding process_versioning
process_versioning-parts cfg req version rest events applies chosen stripped =
    rw (applies, chosen, stripped) refl

-- Where the first of all detectors is a path detector, a path of its prefix, a segment and more segments
-- or none is looked up without the prefix and the segment, as the root if nothing is left, under the version that the segment stands
-- for, if that version is valid.
pub process_versioning-path :
    (default_version : Bytes) (valid_versions : List Bytes) (pattern segment rest query : Bytes)
    (header : Bytes → Bytes) (ds : List Detector)
    → is_empty (path_prefix pattern) ≡ false
    → is_empty segment ≡ false
    → IsFree b'/' segment
    → IsRest rest
    → is_valid valid_versions (tagged (path_prefix pattern) segment) ≡ true
    → process_versioning
        (record {
          default_version = default_version;
          valid_versions = valid_versions;
          detectors = path_detector pattern ∷ ds;
        })
        (record {
          path = path_prefix pattern ++ (segment ++ rest);
          raw_query = query;
          header = header;
        })
      ≡ some (some (tagged (path_prefix pattern) segment, root_or rest))
unfolding detect_version path_prefixes
process_versioning-path default_version valid_versions pattern segment rest query header ds named
      valued free r valid =
    let prefix = path_prefix pattern in
    let version = tagged prefix segment in
    let found = extract-append prefix segment rest named valued free r in
    let stripped = strip-append prefix segment rest named valued free r in
    let shorter = strip-ne prefix segment rest named valued free r in
    let cfg : Config = record {
      default_version = default_version;
      valid_versions = valid_versions;
      detectors = path_detector pattern ∷ ds;
    } in
    let path = prefix ++ (segment ++ rest) in
    let req : Request = record { path = path; raw_query = query; header = header } in
    process_versioning-parts cfg req version (root_or rest) (on_detected version ∷ [])
      (should_apply cfg prefix version (root_or rest) path found stripped shorter (path_prefixes ds)
        refl)
      (first_detected cfg req [] (path_detector pattern) ds version (detect-path pattern req found)
        valid)
      (stripped_path cfg prefix version (root_or rest) path found stripped shorter
        (path_prefixes ds) refl)
