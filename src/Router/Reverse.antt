-- ===== src/Router/Reverse.antt =====
-- URLs from patterns (router/route/route.go: ParseReversePattern, BuildURL). url.PathEscape is a
-- parameter. A query is the text that Encode makes of values that are not empty.
pub mod Reaches
mod Tests
use rivaas.Prelude.{
  ℕ, Bool, true, false, List, [], ◌∷◌, ◌++◌, Option, none, some, if◌then◌else◌, Bytes, codes,
  is_empty, split, trim, find_key,
}
use rivaas.Router.Radix.{is_param, param_name}

-- The field Static is `is_static`.
pub record Segment : Type 0 where
  pub is_static : Bool
  pub value : Bytes

-- The loop over the parts.
unfoldable pub parse_segments : List Bytes → List Segment
unfolding is_param param_name
parse_segments [] = []
parse_segments (part ∷ parts) =
    let rest = parse_segments parts in
    if is_empty part
    then rest
    else if is_param part
    then record { is_static = false; value = param_name part } ∷ rest
    else record { is_static = true; value = part } ∷ rest

-- ParseReversePattern
unfoldable pub parse_reverse_pattern : Bytes → List Segment
unfolding parse_segments split trim
parse_reverse_pattern path = parse_segments (split b'/' (trim b'/' path))

-- A URL, or the name of the parameter that is missing.
pub data Built : Type 0 where
  ok : Bytes → Built
  missing : Bytes → Built

-- A result in front of which a text stands.
unfoldable pub after_text : Bytes → Built → Built
after_text text (ok rest) = ok (text ++ rest)
after_text text (missing name) = missing name

module _ (path_escape : Bytes → Bytes) where
  unfoldable pub segment_text : List (Bytes × Bytes) → Segment → Built
  unfolding find_key
  segment_text params seg =
      if seg.is_static then ok seg.value else elim (find_key seg.value params) [
        | none ↦ missing seg.value
        | some value ↦ ok (path_escape value)
      ]

  -- A part of the loop, of which the text is known: a slash comes before all segments but the first.
  unfoldable pub add_text : Bool → Built → Built → Built
  unfolding after_text
  add_text first (missing name) rest = missing name
  add_text first (ok text) rest = after_text ((if first then [] else codes "/") ++ text) rest

  -- The loop over the segments.
  unfoldable pub build_segments : List (Bytes × Bytes) → Bool → List Segment → Built
  unfolding segment_text add_text
  build_segments params first [] = ok []
  build_segments params first (seg ∷ segs) =
      add_text first (segment_text params seg) (build_segments params false segs)

  unfoldable pub add_query : Option Bytes → Built → Built
  add_query none built = built
  add_query (some query) (ok url) = ok (url ++ codes "?" ++ query)
  add_query (some query) (missing name) = missing name

  -- BuildURL
  unfoldable pub build_url : List (Bytes × Bytes) → Option Bytes → List Segment → Built
  unfolding build_segments add_query after_text
  build_url params query segs =
      add_query query (after_text (codes "/") (build_segments params true segs))
