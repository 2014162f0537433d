-- ===== src/Compiler/Match.antt =====
-- The lookup of a dynamic route (router/compiler/dynamic.go: matchAndExtract, MatchDynamic). The
-- context that the parameters are written into is that of Router/Params. The outer `none` is a
-- panic: an index out of range.
pub mod Segments
pub mod Captures
pub mod Compiled
pub mod Pair
pub mod Refines
pub mod First
mod Tests
use rivaas.Prelude.{
  ℕ, zero, suc, ◌+◌, ◌-◌, Bool, true, false, ◌&&◌, ◌||◌, not, List, [], ◌∷◌, Option, none, some,
  ◌==◌, ltb, leb, if◌then◌else◌, ◌>>=◌, length, get_elem?, Bytes, codes, eqb, is_empty, contains,
}
use rivaas.Router.Params.{Params, set_param, set_param_map, set_param_count, max_slots}
use rivaas.Compiler.Route.{CompiledRoute}
use rivaas.Compiler.Table.{RouteCompiler, build_first_segment_index, min_routes_for_indexing}

-- The text before the first slash and the text after it, for IndexByte and the two slices.
unfoldable pub cut_slash : Bytes → Option (Bytes × Bytes)
cut_slash [] = none
cut_slash (a ∷ s) =
    if a == b'/' then some ([], s) else (cut_slash s >>= λ parts. some (a ∷ parts.0, parts.1))

-- The loop that counts the slashes, without its early exit.
unfoldable pub count_slashes : Bytes → ℕ
count_slashes [] = 0
count_slashes (a ∷ s) = let rest = count_slashes s in if a == b'/' then suc rest else rest

-- path[start:end] and path[end+1:]
unfoldable pub take_segment : Bytes → Bytes × Bytes
take_segment [] = ([], [])
take_segment (a ∷ s) =
    let (segment, rest) = take_segment s in if a == b'/' then ([], s) else (a ∷ segment, rest)

-- The loop that fills the buffer of segments, `n` of which are free.
unfoldable pub scan_segments : ℕ → Bytes → List Bytes
unfolding take_segment
scan_segments zero path = []
scan_segments (suc n) [] = []
scan_segments (suc n) (a ∷ path) =
    let (segment, rest) = take_segment (a ∷ path) in segment ∷ scan_segments n rest

abbrev pub segment_buffer : ℕ
segment_buffer = 16

unfoldable pub has_slash : Bytes → Bool
has_slash [] = false
has_slash (a ∷ _) = a == b'/'

unfoldable pub after_slash : Bytes → Bytes
after_slash [] = []
after_slash (a ∷ path) = if a == b'/' then path else a ∷ path

-- The static segments, at their positions.
unfoldable pub check_static : List ℕ → List Bytes → List Bytes → Option Bool
check_static [] names segments = some true
check_static (pos ∷ ps) names segments = elim (get_elem? segments pos) [
  | none ↦ some false
  | some v ↦ elim names [
    | [] ↦ none
    | name ∷ names' ↦ if eqb v name then check_static ps names' segments else some false
  ]
]

-- A constraint that is not there lets everything through.
unfoldable pub allows : Option (Bytes → Bool) → Bytes → Bool
allows none v = true
allows (some match_string) v = match_string v

unfoldable pub first_constraint : List (Option (Bytes → Bool)) → Option (Bytes → Bool)
first_constraint [] = none
first_constraint (c ∷ _) = c

unfoldable pub other_constraints : List (Option (Bytes → Bool)) → List (Option (Bytes → Bool))
other_constraints [] = []
other_constraints (_ ∷ cs) = cs

-- The parameter with this index goes to its slot, or to the map.
unfoldable pub write : ℕ → Bytes → Bytes → Params → Params
unfolding set_param set_param_map
write i name v p = if ltb i max_slots then set_param i name v p else set_param_map name v p

-- The loop over the parameters, from index `i`. What was written stays when a later one fails.
unfoldable pub extract :
    ℕ
    → List ℕ
    → List Bytes
    → List (Option (Bytes → Bool))
    → List Bytes
    → Params
    → Option (Bool × Params)
unfolding allows first_constraint other_constraints write
extract i [] names cs segments p = some (true, p)
extract i (pos ∷ ps) names cs segments p = elim (get_elem? segments pos) [
  | none ↦ some (false, p)
  | some v ↦ if not (allows (first_constraint cs) v) then some (false, p) else elim names [
    | [] ↦ none
    | name ∷ names' ↦ extract (i + 1) ps names' (other_constraints cs) segments (write i name v p)
  ]
]

unfoldable pub second_byte : Bytes → Option ℕ
second_byte (_ ∷ b ∷ _) = some b
second_byte _ = none

-- The first segment against the first static segment, if there is one.
unfoldable pub agrees_first : Bytes → List Bytes → Bool
agrees_first v [] = true
agrees_first v (s ∷ _) = eqb v s

-- The value of the only parameter, under the first name.
unfoldable pub store_first : List Bytes → Bytes → Params → Option (Bool × Params)
unfolding set_param set_param_count
store_first [] v p = none
store_first (name ∷ _) v p = some (true, set_param_count 1 (set_param 0 name v p))

-- len(r.paramPos) == 1 && r.paramPos[0] == 1
unfoldable pub only_second : List ℕ → Bool
only_second (pos ∷ []) = pos == 1
only_second _ = false

module _ {ℓ} {H : Type ℓ} where
  -- The path for two segments of which the second is the only parameter, once it is cut in two.
  unfoldable pub match_parts : CompiledRoute H → Bytes → Bytes → Params → Option (Bool × Params)
  unfolding allows first_constraint agrees_first store_first contains
  match_parts r first second p =
      if contains b'/' second
      then some (false, p)
      else if not (agrees_first first r.static_segments)
      then some (false, p)
      else if not (allows (first_constraint r.constraints) second)
      then some (false, p)
      else store_first r.param_names second p

  unfoldable pub match_pair : CompiledRoute H → Bytes → Params → Option (Bool × Params)
  unfolding cut_slash match_parts has_slash after_slash
  match_pair r path p =
      if ltb (length path) 3 || not (has_slash path)
      then some (false, p)
      else elim (cut_slash (after_slash path)) [
        | none ↦ some (false, p)
        | some parts ↦ match_parts r parts.0 parts.1 p
      ]

  -- The checks and the capture, once the segments are in the buffer.
  unfoldable pub match_at : CompiledRoute H → List Bytes → Params → Option (Bool × Params)
  unfolding check_static extract set_param_count
  match_at r segments p = do
    static ← check_static r.static_pos r.static_segments segments
    if static
        then (extract 0 r.param_pos r.param_names r.constraints segments p >>= λ result.
            some
              (if result.0 then (true, set_param_count (length r.param_pos) result.1) else result))
        else some (false, p)

  -- The path for all other routes.
  unfoldable pub match_segments : CompiledRoute H → Bytes → Params → Option (Bool × Params)
  unfolding count_slashes scan_segments match_at has_slash after_slash
  match_segments r path p =
      let n = r.segment_count in
      let expected = if has_slash path then n else n - 1 in
      let segments = scan_segments segment_buffer (after_slash path) in
      if ltb (length path) (n + (n - 1))
      then some (false, p)
      else if not (count_slashes path == expected)
      then some (false, p)
      else if not (length segments == n)
      then some (false, p)
      else match_at r segments p

  unfoldable pub is_pair : CompiledRoute H → Bool
  unfolding only_second
  is_pair r = r.segment_count == 2 && only_second r.param_pos

  -- matchAndExtract
  unfoldable pub match_and_extract : CompiledRoute H → Bytes → Params → Option (Bool × Params)
  unfolding match_pair match_segments is_pair is_empty
  match_and_extract r path p =
      if r.segment_count == 0
      then some (eqb path (codes "/") || is_empty path, p)
      else if is_pair r
      then match_pair r path p
      else match_segments r path p

  -- The loop over the routes; what a route wrote before it failed is there for the next.
  unfoldable pub first_match :
      Bytes → Bytes → List (CompiledRoute H) → Params → Option (Option (CompiledRoute H) × Params)
  unfolding match_and_extract
  first_match method path [] p = some (none, p)
  first_match method path (r ∷ rs) p =
      let next = λ (q : Params). first_match method path rs q in
      if eqb r.method method
      then (match_and_extract r path p >>= λ result.
          if result.0 then some (some r, result.1) else next result.1)
      else next p

  -- The index, built on the first lookup of a table that is not frozen.
  unfoldable pub with_index : RouteCompiler H → RouteCompiler H
  unfolding build_first_segment_index
  with_index rc =
      if not rc.frozen
        && not rc.has_first_segment_index
        && ltb min_routes_for_indexing (length rc.dynamic_routes)
      then build_first_segment_index rc
      else rc

  -- The routes that are tried on a path.
  unfoldable pub candidates : Bytes → RouteCompiler H → List (CompiledRoute H)
  unfolding second_byte
  candidates path rc =
      if rc.has_first_segment_index
      then elim (second_byte path) [
        | none ↦ rc.dynamic_routes
        | some b ↦ if ltb b 128 then rc.first_segment_index b else rc.dynamic_routes
      ]
      else rc.dynamic_routes

  -- MatchDynamic; the table that it leaves is `with_index rc`
  unfoldable pub match_dynamic :
      Bytes → Bytes → RouteCompiler H → Params → Option (Option (CompiledRoute H) × Params)
  unfolding first_match with_index candidates
  match_dynamic method path rc p = first_match method path (candidates path (with_index rc)) p
