-- ===== src/Compiler/Match/Refines.antt =====
-- `matchAndExtract` of a compiled pattern is the match of the pattern, segment by segment.
use rivaas.Prelude.{
  ◌≤◌, ◌≡◌, refl, ◌≢◌, true, false, List, [], ◌∷◌, some, arith, ◌==◌, length, All, Bytes, codes,
  eqb, split, join, trim, split-ne-nil, Bool-cases, inl, inr,
}
use rivaas.Router.Params.{Params}
use rivaas.Compiler.Fnv.{Fnv}
use rivaas.Compiler.Route.{RouteConstraint, CompiledRoute, ends_in_star, compile_normalized}
use rivaas.Compiler.Match.{match_pair, is_pair, match_and_extract, segment_buffer}
use rivaas.Compiler.Match.Segments.{IsSegment}
use rivaas.Compiler.Match.Captures.{Extracted}
use rivaas.Compiler.Match.Compiled.{
  fits, captured, IsCompiled, compile_normalized-IsCompiled, match_segments-fits,
}
use rivaas.Compiler.Match.Pair.{IsPair, is_pair-IsPair, match_pair-fits}

module _ {ℓ} {H : Type ℓ} where
  by_shape :
      (cs : List RouteConstraint) (ps : List Bytes) (v : Bytes) (vs : List Bytes)
      (r : CompiledRoute H) (p : Params)
      → IsCompiled cs ps r
      → IsPair ps
      → All IsSegment (v ∷ vs)
      → Extracted
          (match_pair r (b'/' ∷ join b'/' (v ∷ vs)) p)
          (fits cs ps (v ∷ vs))
          (captured ps (v ∷ vs) p)
  by_shape cs [] v vs r p c k h = absurd k
  by_shape cs (s ∷ []) v vs r p c k h = absurd k
  by_shape cs (s ∷ t ∷ []) v vs r p c (q, q') h = match_pair-fits cs s t v vs r p c q q' h
  by_shape cs (s ∷ t ∷ u ∷ ps) v vs r p c k h = absurd k

  pub compiled-fits :
      (cs : List RouteConstraint) (ps : List Bytes) (v : Bytes) (vs : List Bytes)
      (r : CompiledRoute H) (p : Params)
      → IsCompiled cs ps r
      → ps ≢ []
      → All IsSegment (v ∷ vs)
      → length ps ≤ segment_buffer
      → Extracted
          (match_and_extract r (b'/' ∷ join b'/' (v ∷ vs)) p)
          (fits cs ps (v ∷ vs))
          (captured ps (v ∷ vs) p)
  unfolding match_and_extract
  compiled-fits cs [] v vs r p c ne h few = absurd (ne refl)
  compiled-fits cs (s ∷ ps) v vs r p c ne h few =
      let some_segments : (r.segment_count == 0) ≡ false = ground (arith, c.count) in
      rw some_segments (elim (Bool-cases (is_pair r)) [
        | inl pair ↦
            rw pair (by_shape cs (s ∷ ps) v vs r p c (is_pair-IsPair cs (s ∷ ps) r c pair) h)
        | inr general ↦ rw general (match_segments-fits cs (s ∷ ps) v vs r p c h few)
      ])

  -- A compiled route without a wildcard and with at most sixteen segments matches a path of named
  -- segments exactly where the pattern fits it: as many segments, the literals equal, and each
  -- parameter's constraint met. The match does not panic on the way, whichever of the two paths of
  -- the code is taken, and a match leaves the captured values and their count in the context.
  pub match_and_extract-fits :
      (fnv : Fnv) (method pattern : Bytes) (handlers : List H) (cs : List RouteConstraint)
      (v : Bytes) (vs : List Bytes) (p : Params)
      → eqb pattern (codes "/") ≡ false
      → ends_in_star (split b'/' (trim b'/' pattern)) ≡ false
      → length (split b'/' (trim b'/' pattern)) ≤ segment_buffer
      → All IsSegment (v ∷ vs)
      → (q : Params) × (match_and_extract
            (compile_normalized fnv method pattern handlers cs)
            (b'/' ∷ join b'/' (v ∷ vs))
            p
          ≡ some (fits cs (split b'/' (trim b'/' pattern)) (v ∷ vs), q))
        × (fits cs (split b'/' (trim b'/' pattern)) (v ∷ vs) ≡ true
            → q ≡ captured (split b'/' (trim b'/' pattern)) (v ∷ vs) p)
  match_and_extract-fits fnv method pattern handlers cs v vs p root star few h =
      compiled-fits cs (split b'/' (trim b'/' pattern)) v vs
        (compile_normalized fnv method pattern handlers cs) p
        (compile_normalized-IsCompiled fnv method pattern handlers cs root star)
        (split-ne-nil b'/' (trim b'/' pattern)) h few
