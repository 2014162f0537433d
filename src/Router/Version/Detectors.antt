-- ===== src/Router/Version/Detectors.antt =====
-- The detectors of a version (router/version/detectors.go). The outer `none` is a panic, the inner one
-- a request without a version for the detector.
use rivaas.Prelude.{
  ℕ, zero, suc, ◌+◌, ◌-◌, ◌&&◌, List, [], ◌∷◌, ◌++◌, Option, none, some, ◌==◌, ltb, if◌then◌else◌,
  ◌>>=◌, length, get_elem?, take, drop, Bytes, codes, is_empty, has_prefix, has_suffix, split,
}
use rivaas.Compiler.Route.{trim_space}

-- What the detectors read of a request. `header` is the first value of a header, as Header.Get gives it.
pub record Request : Type 0 where
  pub path : Bytes
  pub raw_query : Bytes
  pub header : Bytes → Bytes

-- strings.Index
unfoldable pub index_of : Bytes → Bytes → Option ℕ
index_of sub [] = if is_empty sub then some 0 else none
index_of sub (a ∷ s) =
    let later = index_of sub s >>= λ i. some (suc i) in
    if has_prefix (a ∷ s) sub then some 0 else later

-- What stands before the first byte `c`.
unfoldable pub until : ℕ → Bytes → Bytes
until c [] = []
until c (a ∷ s) = let rest = until c s in if a == c then [] else a ∷ rest

-- What stands from the first byte `c` on.
unfoldable pub from : ℕ → Bytes → Bytes
from c [] = []
from c (a ∷ s) = let rest = from c s in if a == c then a ∷ s else rest

abbrev pub placeholder : Bytes
placeholder = codes "{version}"

-- The prefix of newPathDetector
unfoldable pub path_prefix : Bytes → Bytes
unfolding index_of
path_prefix pattern = elim (index_of placeholder pattern) [ none ↦ [] | some i ↦ take i pattern ]

-- The segment as a version: with its "v", if the prefix ends in one.
unfoldable pub tagged : Bytes → Bytes → Bytes
unfolding has_suffix
tagged prefix segment = if has_suffix prefix (codes "v") then codes "v" ++ segment else segment

-- extractFromPath and ExtractSegment
unfoldable pub extract_from_path : Bytes → Bytes → Option Bytes
unfolding tagged until has_prefix
extract_from_path prefix path =
    if is_empty prefix
    then none
    else if has_prefix path prefix
    then (let segment = until b'/' (drop (length prefix) path) in
        if is_empty segment then none else some (tagged prefix segment))
    else none

-- The path after the version's segment, and the root if the segment is the last.
unfoldable pub root_or : Bytes → Bytes
root_or [] = codes "/"
root_or (a ∷ s) = a ∷ s

-- StripVersion
unfoldable pub strip_version : Bytes → Bytes → Bytes
unfolding root_or from has_prefix
strip_version prefix path =
    if has_prefix path prefix
    then if ltb (length prefix) (length path)
      then root_or (from b'/' (drop (length prefix) path))
      else path
    else path

-- The value that begins at an index of the query.
unfoldable pub value_at : Bytes → ℕ → Option (Option Bytes)
unfolding until
value_at query start = some (some (until b'&' (drop start query)))

-- The second search, in what follows the first byte of the first occurrence.
unfoldable pub search_again : Bytes → Bytes → ℕ → Option (Option Bytes)
unfolding index_of value_at
search_again prefix query i = elim (index_of prefix (drop (i + 1) query)) [
  | none ↦ some none
  | some zero ↦ none
  | some (suc j) ↦ elim (get_elem? (drop (i + 1) query) j) [
    | none ↦ none
    | some before ↦
        if before == b'&' then value_at query (i + 1 + (suc j) + length prefix) else some none
  ]
]

-- What is at the first occurrence: at the start of the query, or after a byte.
unfoldable pub first_found : Bytes → Bytes → ℕ → Option (Option Bytes)
unfolding search_again value_at
first_found prefix query zero = value_at query (length prefix)
first_found prefix query (suc i) = elim (get_elem? query i) [
  | none ↦ none
  | some before ↦
      if before == b'&'
      then value_at query (suc i + length prefix)
      else search_again prefix query (suc i)
]

-- extractFromQuery
unfoldable pub extract_from_query : Bytes → Bytes → Option (Option Bytes)
unfolding index_of first_found
extract_from_query param [] = some none
extract_from_query param (a ∷ query) =
    let prefix = param ++ codes "=" in
    elim (index_of prefix (a ∷ query)) [
      | none ↦ some none
      | some i ↦ first_found prefix (a ∷ query) i
    ]

-- The version in a media type between a prefix and a suffix. Where the two overlap, the slice panics.
unfoldable pub between : Bytes → Bytes → Bytes → Option Bytes
between prefix suffix media_type =
    if ltb (length media_type) (length prefix + length suffix)
    then none
    else some (
        take (length media_type - (length prefix + length suffix))
          (drop (length prefix) media_type))

-- The loop over the media types of extractFromAccept
unfoldable pub extract_from_types : Bytes → Bytes → List Bytes → Option (Option Bytes)
unfolding between until has_prefix has_suffix
extract_from_types prefix suffix [] = some none
extract_from_types prefix suffix (part ∷ parts) =
    let media_type = until b';' (trim_space part) in
    let rest = extract_from_types prefix suffix parts in
    if has_prefix media_type prefix && has_suffix media_type suffix
    then (between prefix suffix media_type >>= λ version.
        if is_empty version then rest else some (some version))
    else rest

-- The parts of the pattern of an acceptDetector
unfoldable pub accept_parts : Bytes → Bytes × Bytes
unfolding index_of
accept_parts pattern = elim (index_of placeholder pattern) [
  | none ↦ ([], [])
  | some i ↦ (take i pattern, drop (i + 9) pattern)
]

pub data Detector : Type 0 where
  path_detector : Bytes → Detector
  header_detector : Bytes → Detector
  query_detector : Bytes → Detector
  accept_detector : Bytes → Detector
  custom_detector : (Request → Bytes) → Detector

-- A text that is a version unless it is empty.
unfoldable pub unless_empty : Bytes → Option (Option Bytes)
unless_empty [] = some none
unless_empty (a ∷ s) = some (some (a ∷ s))

-- Detect
unfoldable pub detect : Detector → Request → Option (Option Bytes)
unfolding extract_from_path path_prefix unless_empty extract_from_query extract_from_types
    accept_parts split
detect (path_detector pattern) req = some (extract_from_path (path_prefix pattern) req.path)
detect (header_detector header) req = unless_empty (req.header header)
detect (query_detector param) req = extract_from_query param req.raw_query
detect (accept_detector pattern) req =
    let accept = req.header (codes "Accept") in
    let (prefix, suffix) = accept_parts pattern in
    if is_empty accept then some none else extract_from_types prefix suffix (split b',' accept)
detect (custom_detector fn) req = unless_empty (fn req)
