-- ===== src/Compiler/Match/Pair.antt =====
-- The path of `matchAndExtract` for a literal and a parameter.
use rivaas.Prelude.{
  suc, ◌≤◌, ◌≡◌, refl, ◌∙◌, true, false, ◌&&◌, ◌||◌, List, [], ◌∷◌, ◌++◌, some, none, arith, ◌==◌,
  ltb, length, All, Bytes, eqb, is_empty, contains, join, IsFree, Bool-cases, inl, inr,
}
use rivaas.Router.Params.{Params, set_param, set_param_count}
use rivaas.Compiler.Route.{
  RouteConstraint, CompiledRoute, analyze, is_param, param_name, find_constraint,
}
use rivaas.Compiler.Match.{
  cut_slash, allows, first_constraint, has_slash, after_slash, write, only_second, agrees_first,
  store_first, match_parts, match_pair, is_pair,
}
use rivaas.Compiler.Match.Segments.{IsSegment, length-append_lem, length-segment, if_either}
use rivaas.Compiler.Match.Captures.{literals_agree, constraints_hold, write_all, Extracted}
use rivaas.Compiler.Match.Compiled.{count_params, fits, captured, IsCompiled}

-- A pattern on the path for pairs is a literal and then a parameter.
abbrev pub IsPair : List Bytes → Type 0
IsPair [] = ⊥
IsPair (s ∷ []) = ⊥
IsPair (s ∷ t ∷ []) = (is_param s ≡ false) × (is_param t ≡ true)
IsPair (s ∷ t ∷ u ∷ ps) = ⊥

analyze-IsPair :
    (cs : List RouteConstraint) (ps : List Bytes)
    → (length ps == 2 && only_second (analyze cs 0 ps).param_pos) ≡ true
    → IsPair ps
unfolding analyze only_second
analyze-IsPair cs [] h = absurd (ground arith)
analyze-IsPair cs (s ∷ []) h = absurd (ground arith)
analyze-IsPair cs (s ∷ t ∷ []) h = elim (Bool-cases (is_param s)) [
  | inl q ↦ elim (Bool-cases (is_param t)) [
    | inl q' ↦ absurd (let e = rw (q, q') at h in ground arith)
    | inr q' ↦ absurd (let e = rw (q, q') at h in ground arith)
  ]
  | inr q ↦ elim (Bool-cases (is_param t)) [
    | inl q' ↦ (q, q')
    | inr q' ↦ absurd (let e = rw (q, q') at h in ground arith)
  ]
]
analyze-IsPair cs (s ∷ t ∷ u ∷ ps) h = absurd (ground arith)

cut_slash-append : (s t : Bytes) → IsFree b'/' s → cut_slash (s ++ b'/' ∷ t) ≡ some (s, t)
unfolding cut_slash
cut_slash-append [] t h = refl
cut_slash-append (a ∷ s) t h = ground (arith, cut_slash-append s t h.1)

cut_slash-IsFree : (s : Bytes) → IsFree b'/' s → cut_slash s ≡ none
unfolding cut_slash
cut_slash-IsFree [] h = refl
cut_slash-IsFree (a ∷ s) h = ground (arith, cut_slash-IsFree s h.1)

contains-IsFree : (s : Bytes) → IsFree b'/' s → contains b'/' s ≡ false
unfolding contains
contains-IsFree [] h = refl
contains-IsFree (a ∷ s) h = ground (arith, contains-IsFree s h.1)

contains-append : (s t : Bytes) → contains b'/' (s ++ b'/' ∷ t) ≡ true
unfolding contains
contains-append [] t = refl
contains-append (a ∷ s) t = ground (arith, contains-append s t)

module _ {ℓ} {H : Type ℓ} where
  pub is_pair-IsPair :
      (cs : List RouteConstraint) (ps : List Bytes) (r : CompiledRoute H)
      → IsCompiled cs ps r
      → is_pair r ≡ true
      → IsPair ps
  unfolding is_pair
  is_pair-IsPair cs ps r c h = analyze-IsPair cs ps (rw (c.count, c.param_pos) at h)

  match_parts-fits :
      (cs : List RouteConstraint) (s t v w : Bytes) (r : CompiledRoute H) (p : Params)
      → IsCompiled cs (s ∷ t ∷ []) r
      → is_param s ≡ false
      → is_param t ≡ true
      → IsFree b'/' w
      → Extracted
          (match_parts r v w p)
          (fits cs (s ∷ t ∷ []) (v ∷ w ∷ []))
          (captured (s ∷ t ∷ []) (v ∷ w ∷ []) p)
  unfolding match_parts fits captured literals_agree constraints_hold write_all write count_params
      analyze first_constraint agrees_first store_first
  match_parts-fits cs s t v w r p c q q' f =
      rw (c.static_segments, c.constraints, c.param_names, contains-IsFree w f, q, q')
        (elim (Bool-cases (eqb v s)) [
          | inl e ↦ rw e (elim (Bool-cases (allows (find_constraint (param_name t) cs) w)) [
            | inl a ↦ rw a (set_param_count 1 (set_param 0 (param_name t) w p), refl, λ x. refl)
            | inr a ↦ rw a (p, refl, λ x. cc)
          ])
          | inr e ↦ rw e (p, refl, λ x. cc)
        ])

  -- Fewer or more segments than two are no match.
  unfit :
      (cs : List RouteConstraint) (ps vs : List Bytes) (r : CompiledRoute H) (path : Bytes)
      (p : Params)
      → match_pair r path p ≡ some (false, p)
      → (length vs == length ps) ≡ false
      → Extracted (match_pair r path p) (fits cs ps vs) (captured ps vs p)
  unfolding fits
  unfit cs ps vs r path p e other = rw (e, other) (p, refl, λ x. cc)

  match_pair_one :
      (r : CompiledRoute H) (v : Bytes) (p : Params)
      → IsFree b'/' v
      → match_pair r (b'/' ∷ v) p ≡ some (false, p)
  unfolding match_pair has_slash after_slash
  match_pair_one r v p f =
      rw (cut_slash-IsFree v f) (if_either (ltb (suc (length v)) 3 || false) (some (false, p)))

  match_pair_cut :
      (r : CompiledRoute H) (v t : Bytes) (p : Params)
      → IsFree b'/' v
      → is_empty v ≡ false
      → 1 ≤ length t
      → match_pair r (b'/' ∷ (v ++ b'/' ∷ t)) p ≡ match_parts r v t p
  unfolding match_pair has_slash after_slash
  match_pair_cut r v t p f e k =
      let long : (ltb (suc (length (v ++ b'/' ∷ t))) 3) ≡ false =
        ground (arith, length-append_lem v (b'/' ∷ t), length-segment v e) in
      rw (long, cut_slash-append v t f)

  match_parts_long :
      (r : CompiledRoute H) (v w t : Bytes) (p : Params)
      → match_parts r v (w ++ b'/' ∷ t) p ≡ some (false, p)
  unfolding match_parts
  match_parts_long r v w t p = rw (contains-append w t)

  pub match_pair-fits :
      (cs : List RouteConstraint) (s t v : Bytes) (vs : List Bytes) (r : CompiledRoute H)
      (p : Params)
      → IsCompiled cs (s ∷ t ∷ []) r
      → is_param s ≡ false
      → is_param t ≡ true
      → All IsSegment (v ∷ vs)
      → Extracted
          (match_pair r (b'/' ∷ join b'/' (v ∷ vs)) p)
          (fits cs (s ∷ t ∷ []) (v ∷ vs))
          (captured (s ∷ t ∷ []) (v ∷ vs) p)
  unfolding join
  match_pair-fits cs s t v [] r p c q q' ((e, f), h) =
      unfit cs (s ∷ t ∷ []) (v ∷ []) r (b'/' ∷ v) p (match_pair_one r v p f) refl
  match_pair-fits cs s t v (w ∷ []) r p c q q' ((e, f), ((e', f'), h)) =
      rw (match_pair_cut r v w p f e (length-segment w e'))
        (match_parts-fits cs s t v w r p c q q' f')
  match_pair-fits cs s t v (w ∷ x ∷ vs) r p c q q' ((e, f), h) =
      unfit cs (s ∷ t ∷ []) (v ∷ w ∷ x ∷ vs) r
        (b'/' ∷ (v ++ b'/' ∷ (w ++ b'/' ∷ join b'/' (x ∷ vs)))) p
        (match_pair_cut r v (w ++ b'/' ∷ join b'/' (x ∷ vs)) p f e
            (omega (arith, length-append_lem w (b'/' ∷ join b'/' (x ∷ vs))))
          ∙ match_parts_long r v w (join b'/' (x ∷ vs)) p)
        (ground arith)
