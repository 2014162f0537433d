-- ===== src/Compiler/Match/Captures.antt =====
-- The tables of a compiled pattern against the segments of a path: the two loops over positions
-- do what one pass over pattern and path does.
use rivaas.Prelude.{
  ℕ, suc, ◌+◌, ◌≡◌, refl, ap, ◌∙◌, Bool, true, false, ◌&&◌, List, [], ◌∷◌, Option, some, arith,
  if◌then◌else◌, length, get_elem?, Bytes, eqb, Bool-cases, inl, inr,
}
use rivaas.Router.Params.{Params}
use rivaas.Compiler.Route.{RouteConstraint, analyze, is_param, param_name, find_constraint}
use rivaas.Compiler.Match.{
  check_static, allows, first_constraint, other_constraints, write, extract,
}

-- The specification of a match: segment by segment, a literal equals its segment, and a
-- parameter's constraint holds of its segment.
unfoldable pub literals_agree : List Bytes → List Bytes → Bool
literals_agree [] vs = true
literals_agree (s ∷ ps) [] = false
literals_agree (s ∷ ps) (v ∷ vs) = (if is_param s then true else eqb v s) && literals_agree ps vs

unfoldable pub constraints_hold : List RouteConstraint → List Bytes → List Bytes → Bool
constraints_hold cs [] vs = true
constraints_hold cs (s ∷ ps) [] = false
constraints_hold cs (s ∷ ps) (v ∷ vs) =
    (if is_param s then allows (find_constraint (param_name s) cs) v else true)
    && constraints_hold cs ps vs

-- The captured values, written from index `i` on.
unfoldable pub write_all : ℕ → List Bytes → List Bytes → Params → Params
write_all i [] vs p = p
write_all i (s ∷ ps) [] p = p
write_all i (s ∷ ps) (v ∷ vs) p =
    if is_param s then write_all (i + 1) ps vs (write i (param_name s) v p) else write_all i ps vs p

-- `vs` are the segments from position `i` on.
abbrev pub At : ℕ → List Bytes → List Bytes → Type 0
At i vs segments = (j : ℕ) → get_elem? segments (i + j) ≡ get_elem? vs j

At-tail :
    (i : ℕ) (v : Bytes) (vs segments : List Bytes) → At i (v ∷ vs) segments → At (i + 1) vs segments
At-tail i v vs segments h j = ap (λ k. get_elem? segments k) (omega arith) ∙ h (suc j)

At-head :
    (i : ℕ) (v : Bytes) (vs segments : List Bytes)
    → At i (v ∷ vs) segments
    → get_elem? segments i ≡ some v
At-head i v vs segments h = ap (λ k. get_elem? segments k) (omega arith) ∙ h 0

pub check_static-analyze :
    (cs : List RouteConstraint) (i : ℕ) (ps vs segments : List Bytes)
    → At i vs segments
    → length ps ≡ length vs
    → check_static (analyze cs i ps).static_pos (analyze cs i ps).static_segments segments
      ≡ some (literals_agree ps vs)
unfolding check_static analyze literals_agree
check_static-analyze cs i [] vs segments at same = refl
check_static-analyze cs i (s ∷ ps) [] segments at same = absurd (omega arith)
check_static-analyze cs i (s ∷ ps) (v ∷ vs) segments at same =
    let rest =
      check_static-analyze cs (i + 1) ps vs segments (At-tail i v vs segments at) (omega arith) in
    elim (Bool-cases (is_param s)) [
      | inl q ↦ rw q rest
      | inr q ↦
          rw (q, At-head i v vs segments at, check_static)
            (elim (Bool-cases (eqb v s)) [ inl e ↦ rw e rest | inr e ↦ rw e ])
    ]

-- The loop over the parameters succeeds where all constraints hold, and has then written all.
abbrev pub Extracted : Option (Bool × Params) → Bool → Params → Type 0
Extracted r b q = (p : Params) × (r ≡ some (b, p)) × (b ≡ true → p ≡ q)

pub extract-analyze :
    (cs : List RouteConstraint) (i k : ℕ) (ps vs segments : List Bytes) (p : Params)
    → At i vs segments
    → length ps ≡ length vs
    → Extracted
        (extract k
          (analyze cs i ps).param_pos
          (analyze cs i ps).param_names
          (analyze cs i ps).constraints
          segments
          p)
        (constraints_hold cs ps vs)
        (write_all k ps vs p)
unfolding extract analyze constraints_hold write_all first_constraint other_constraints
extract-analyze cs i k [] vs segments p at same = (p, refl, λ e. refl)
extract-analyze cs i k (s ∷ ps) [] segments p at same = absurd (omega arith)
extract-analyze cs i k (s ∷ ps) (v ∷ vs) segments p at same = elim (Bool-cases (is_param s)) [
  | inl q ↦
      rw (q, At-head i v vs segments at, extract)
        (elim (Bool-cases (allows (find_constraint (param_name s) cs) v)) [
          | inl e ↦ rw e (
              extract-analyze cs (i + 1) (k + 1) ps vs segments (write k (param_name s) v p)
                (At-tail i v vs segments at) (omega arith))
          | inr e ↦ rw e (p, refl, λ e'. cc)
        ])
  | inr q ↦
      rw q
        (extract-analyze cs (i + 1) k ps vs segments p (At-tail i v vs segments at) (omega arith))
]
