-- ===== src/Compiler/Match/Compiled.antt =====
-- The tables of a compiled route, and the general path of `matchAndExtract` over them.
use rivaas.Prelude.{
  ℕ, suc, ◌+◌, ◌≤◌, ◌≡◌, refl, ap, ◌∙◌, Bool, true, false, ◌&&◌, List, [], ◌∷◌, Option, some, arith,
  ◌==◌, ◌>>=◌, if◌then◌else◌, length, get_elem?, All, Bytes, codes, eqb, split, join, trim,
  Bool-cases, inl, inr,
}
use rivaas.Router.Params.{Params, set_param_count}
use rivaas.Compiler.Fnv.{Fnv}
use rivaas.Compiler.Route.{
  RouteConstraint, CompiledRoute, analyze, is_param, ends_in_star, compile_normalized,
}
use rivaas.Compiler.Match.{match_at, match_segments, segment_buffer, extract}
use rivaas.Compiler.Match.Segments.{IsSegment, match_segments-join}
use rivaas.Compiler.Match.Captures.{
  literals_agree, constraints_hold, write_all, Extracted, check_static-analyze, extract-analyze,
}

-- The number of parameters of a pattern.
unfoldable pub count_params : List Bytes → ℕ
count_params [] = 0
count_params (s ∷ ps) = if is_param s then suc (count_params ps) else count_params ps

-- The path has the pattern's segments: as many, the literals equal, the constraints met.
unfoldable pub fits : List RouteConstraint → List Bytes → List Bytes → Bool
unfolding literals_agree constraints_hold
fits cs ps vs = length vs == length ps && (literals_agree ps vs && constraints_hold cs ps vs)

-- What a match leaves in the context.
unfoldable pub captured : List Bytes → List Bytes → Params → Params
unfolding write_all count_params set_param_count
captured ps vs p = set_param_count (count_params ps) (write_all 0 ps vs p)

length-analyze :
    (cs : List RouteConstraint) (i : ℕ) (ps : List Bytes)
    → length (analyze cs i ps).param_pos ≡ count_params ps
unfolding analyze count_params
length-analyze cs i [] = refl
length-analyze cs i (s ∷ ps) = elim (Bool-cases (is_param s)) [
  | inl q ↦ rw q (ap suc (length-analyze cs (i + 1) ps))
  | inr q ↦ rw q (length-analyze cs (i + 1) ps)
]

finish_extract :
    (n m : ℕ) (e : Option (Bool × Params)) (b : Bool) (q : Params)
    → n ≡ m
    → Extracted e b q
    → Extracted
        (e >>= λ result. some (if result.0 then (true, set_param_count n result.1) else result))
        b
        (set_param_count m q)
finish_extract n m e true q same (p, f, k) = rw f (
  set_param_count n p,
  refl,
  λ t. ap (λ i. set_param_count i p) same ∙ ap (set_param_count m) (k refl),
)
finish_extract n m e false q same (p, f, k) = rw f (p, refl, λ t. cc)

module _ {ℓ} {H : Type ℓ} where
  -- The route's tables are those of the pattern's segments.
  pub record IsCompiled (cs : List RouteConstraint) (ps : List Bytes) (r : CompiledRoute H)
      : Type 0 where
    pub count : r.segment_count ≡ length ps
    pub static_pos : r.static_pos ≡ (analyze cs 0 ps).static_pos
    pub static_segments : r.static_segments ≡ (analyze cs 0 ps).static_segments
    pub param_pos : r.param_pos ≡ (analyze cs 0 ps).param_pos
    pub param_names : r.param_names ≡ (analyze cs 0 ps).param_names
    pub constraints : r.constraints ≡ (analyze cs 0 ps).constraints

  pub compile_normalized-IsCompiled :
      (fnv : Fnv) (method pattern : Bytes) (handlers : List H) (cs : List RouteConstraint)
      → eqb pattern (codes "/") ≡ false
      → ends_in_star (split b'/' (trim b'/' pattern)) ≡ false
      → IsCompiled cs
          (split b'/' (trim b'/' pattern))
          (compile_normalized fnv method pattern handlers cs)
  unfolding compile_normalized
  compile_normalized-IsCompiled fnv method pattern handlers cs root star =
      rw (root, star)
        (record {
          count = refl;
          static_pos = refl;
          static_segments = refl;
          param_pos = refl;
          param_names = refl;
          constraints = refl;
        })

  -- With as many segments as the pattern has, the two loops decide the match.
  match_at-fits :
      (cs : List RouteConstraint) (ps vs : List Bytes) (r : CompiledRoute H) (p : Params)
      → IsCompiled cs ps r
      → length ps ≡ length vs
      → Extracted
          (match_at r vs p)
          (literals_agree ps vs && constraints_hold cs ps vs)
          (captured ps vs p)
  unfolding match_at captured
  match_at-fits cs ps vs r p c same =
      rw
        (
          c.static_pos,
          c.static_segments,
          c.param_pos,
          c.param_names,
          c.constraints,
          check_static-analyze cs 0 ps vs vs (λ j. ap (λ k. get_elem? vs k) (omega arith)) same,
        )
        (elim (Bool-cases (literals_agree ps vs)) [
          | inl e ↦ rw e (
              finish_extract (length (analyze cs 0 ps).param_pos) (count_params ps)
                (extract 0 (analyze cs 0 ps).param_pos (analyze cs 0 ps).param_names
                  (analyze cs 0 ps).constraints vs p)
                (constraints_hold cs ps vs) (write_all 0 ps vs p) (length-analyze cs 0 ps)
                (extract-analyze cs 0 0 ps vs vs p (λ j. ap (λ k. get_elem? vs k) (omega arith))
                  same))
          | inr e ↦ rw e (p, refl, λ t. cc)
        ])

  pub match_segments-fits :
      (cs : List RouteConstraint) (ps : List Bytes) (v : Bytes) (vs : List Bytes)
      (r : CompiledRoute H) (p : Params)
      → IsCompiled cs ps r
      → All IsSegment (v ∷ vs)
      → length ps ≤ segment_buffer
      → Extracted
          (match_segments r (b'/' ∷ join b'/' (v ∷ vs)) p)
          (fits cs ps (v ∷ vs))
          (captured ps (v ∷ vs) p)
  unfolding fits match_at
  match_segments-fits cs ps v vs r p c h few =
      rw (match_segments-join r v vs p h (omega (arith, c.count)), c.count)
        (elim (Bool-cases (suc (length vs) == length ps)) [
          | inl e ↦ rw e (match_at-fits cs ps (v ∷ vs) r p c (ground arith))
          | inr e ↦ rw e (p, refl, λ t. cc)
        ])
