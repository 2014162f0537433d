-- ===== src/Compiler/Route.antt =====
-- A compiled route (router/compiler/compiler.go: CompiledRoute, CompileRoute). The handlers cached
-- behind an unsafe pointer are the route's own and are left out. The conversions of counts and
-- positions to int32 are not written: a pattern has fewer than 2 ^ 31 segments.
use mathlib.Core.List.{reverse}
use rivaas.Prelude.{
  ℕ, ◌+◌, ◌≡◌, Bool, true, false, ◌&&◌, ◌||◌, List, [], ◌∷◌, ◌++◌, Option, none, some, arith, ◌==◌,
  leb, if◌then◌else◌, length, Bytes, codes, eqb, is_empty, has_suffix, split, trim,
}
use rivaas.Compiler.Fnv.{Fnv}

-- RouteConstraint: the compiled regular expression is what its MatchString answers.
pub record RouteConstraint : Type 0 where
  pub param : Bytes
  pub match_string : Bytes → Bool

pub record CompiledRoute {ℓ} (H : Type ℓ) : Type ℓ where
  pub method : Bytes
  pub pattern : Bytes
  pub hash : ℕ
  pub segment_count : ℕ
  pub static_segments : List Bytes
  pub static_pos : List ℕ
  pub param_names : List Bytes
  pub param_pos : List ℕ
  pub constraints : List (Option (Bytes → Bool))
  pub handlers : List H
  pub is_static : Bool
  pub has_wildcard : Bool
  pub has_constraints : Bool

-- strings.TrimSpace, for white space in ASCII
unfoldable pub is_space : ℕ → Bool
is_space c = c == 32 || (leb 9 c && leb c 13)

unfoldable pub trim_space_left : Bytes → Bytes
trim_space_left [] = []
trim_space_left (a ∷ s) = if is_space a then trim_space_left s else a ∷ s

unfoldable pub trim_space : Bytes → Bytes
unfolding trim_space_left is_space
trim_space s = reverse (trim_space_left (reverse (trim_space_left s)))

-- strings.HasPrefix(seg, ":") and seg[1:]
unfoldable pub is_param : Bytes → Bool
is_param [] = false
is_param (a ∷ _) = a == b':'

unfoldable pub param_name : Bytes → Bytes
param_name [] = []
param_name (_ ∷ name) = name

-- The inner loop: the first constraint with the parameter's name.
unfoldable pub find_constraint : Bytes → List RouteConstraint → Option (Bytes → Bool)
find_constraint name [] = none
find_constraint name (c ∷ cs) =
    if eqb c.param name then some c.match_string else find_constraint name cs

unfoldable pub is_set : Option (Bytes → Bool) → Bool
is_set none = false
is_set (some _) = true

-- What the loop over the segments gathers.
pub record Parts : Type 0 where
  pub static_segments : List Bytes
  pub static_pos : List ℕ
  pub param_names : List Bytes
  pub param_pos : List ℕ
  pub constraints : List (Option (Bytes → Bool))
  pub has_constraints : Bool

unfoldable pub no_parts : Parts
no_parts = record {
  static_segments = [];
  static_pos = [];
  param_names = [];
  param_pos = [];
  constraints = [];
  has_constraints = false;
}

-- The loop over the segments, from position `i`.
unfoldable pub analyze : List RouteConstraint → ℕ → List Bytes → Parts
unfolding is_param param_name find_constraint is_set no_parts
analyze cs i [] = no_parts
analyze cs i (seg ∷ segs) =
    let rest = analyze cs (i + 1) segs in
    if is_param seg
    then (let c = find_constraint (param_name seg) cs in
        record rest {
          param_names = param_name seg ∷ rest.param_names;
          param_pos = i ∷ rest.param_pos;
          constraints = c ∷ rest.constraints;
          has_constraints = is_set c || rest.has_constraints;
        })
    else record rest {
      static_segments = seg ∷ rest.static_segments;
      static_pos = i ∷ rest.static_pos;
    }

-- The last segment ends in '*'.
unfoldable pub ends_in_star : List Bytes → Bool
unfolding has_suffix
ends_in_star [] = false
ends_in_star (seg ∷ []) = has_suffix seg (codes "*")
ends_in_star (seg ∷ next ∷ segs) = ends_in_star (next ∷ segs)

unfoldable pub normalized : Bytes → Bytes
unfolding trim_space is_empty
normalized pattern = let p = trim_space pattern in if is_empty p then codes "/" else p

module _ {ℓ} {H : Type ℓ} (fnv : Fnv) where
  -- CompileRoute, of a pattern that was trimmed
  unfoldable pub compile_normalized :
      Bytes → Bytes → List H → List RouteConstraint → CompiledRoute H
  unfolding analyze ends_in_star split trim
  compile_normalized method pattern handlers cs =
      let bare : CompiledRoute H = record {
        method = method;
        pattern = pattern;
        hash = fnv.sum64 (method ++ pattern);
        segment_count = 0;
        static_segments = [];
        static_pos = [];
        param_names = [];
        param_pos = [];
        constraints = [];
        handlers = handlers;
        is_static = false;
        has_wildcard = false;
        has_constraints = false;
      } in
      let segments = split b'/' (trim b'/' pattern) in
      let parts = analyze cs 0 segments in
      if eqb pattern (codes "/")
      then record bare { is_static = true }
      else if ends_in_star segments
      then record bare { segment_count = length segments; has_wildcard = true }
      else record bare {
        segment_count = length segments;
        static_segments = parts.static_segments;
        static_pos = parts.static_pos;
        param_names = parts.param_names;
        param_pos = parts.param_pos;
        constraints = parts.constraints;
        is_static = length parts.param_names == 0;
        has_constraints = parts.has_constraints;
      }

  unfoldable pub compile_route : Bytes → Bytes → List H → List RouteConstraint → CompiledRoute H
  unfolding compile_normalized normalized
  compile_route method pattern handlers cs =
      compile_normalized method (normalized pattern) handlers cs

  -- The hash of a route is that of its method and pattern.
  abbrev pub IsHashed : CompiledRoute H → Type 0
  IsHashed r = r.hash ≡ fnv.sum64 (r.method ++ r.pattern)

  pub compile_route-IsHashed :
      (method pattern : Bytes) (handlers : List H) (cs : List RouteConstraint)
      → IsHashed (compile_route method pattern handlers cs)
  unfolding compile_route
  compile_route-IsHashed method pattern handlers cs = ground arith
