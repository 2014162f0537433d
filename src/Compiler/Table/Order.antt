-- ===== src/Compiler/Table/Order.antt =====
-- The order of the dynamic routes after the insertion sort.
use mathlib.Core.List.{reverse_aux, Perm, perm_middle}
use mathlib.Core.List.Perm
use rivaas.Prelude.{ℕ, ◌≤◌, List, [], ◌∷◌, ◌++◌, arith, ltb, All, inl, inr, Bool-cases}
use rivaas.Compiler.Route.{CompiledRoute}
use rivaas.Compiler.Table.{specificity, shift_in, sort_from, sort_routes_by_specificity}

module _ {ℓ} {H : Type ℓ} where
  -- No route stands before one that is more specific.
  abbrev pub MostSpecificFirst : List (CompiledRoute H) → Type 0
  MostSpecificFirst [] = Unit
  MostSpecificFirst (r ∷ rs) = All (λ s. specificity s ≤ specificity r) rs × MostSpecificFirst rs

  -- The same with the last route first, as the loop holds the sorted part.
  abbrev MostSpecificLast : List (CompiledRoute H) → Type 0
  MostSpecificLast [] = Unit
  MostSpecificLast (r ∷ rs) = All (λ s. specificity r ≤ specificity s) rs × MostSpecificLast rs

  All-le_trans :
      (n m : ℕ) (rs : List (CompiledRoute H))
      → n ≤ m
      → All (λ s. m ≤ specificity s) rs
      → All (λ s. n ≤ specificity s) rs
  All-le_trans n m [] h a = tt
  All-le_trans n m (r ∷ rs) h (p, ps) = (omega arith, All-le_trans n m rs h ps)

  All-shift_in :
      (n : ℕ) (key : CompiledRoute H) (rs : List (CompiledRoute H))
      → n ≤ specificity key
      → All (λ s. n ≤ specificity s) rs
      → All (λ s. n ≤ specificity s) (shift_in key rs)
  unfolding shift_in
  All-shift_in n key [] h a = (h, tt)
  All-shift_in n key (r ∷ rs) h (p, ps) =
      elim (Bool-cases (ltb (specificity r) (specificity key))) [
        | inl less ↦ rw less (p, All-shift_in n key rs h ps)
        | inr not_less ↦ rw not_less (h, (p, ps))
      ]

  shift_in-MostSpecificLast :
      (key : CompiledRoute H) (rs : List (CompiledRoute H))
      → MostSpecificLast rs
      → MostSpecificLast (shift_in key rs)
  unfolding shift_in
  shift_in-MostSpecificLast key [] o = (tt, tt)
  shift_in-MostSpecificLast key (r ∷ rs) (a, o) =
      elim (Bool-cases (ltb (specificity r) (specificity key))) [
        | inl less ↦ rw less (
          All-shift_in (specificity r) key rs (ground arith) a,
          shift_in-MostSpecificLast key rs o,
        )
        | inr not_less ↦ rw not_less (
          (ground arith, All-le_trans (specificity key) (specificity r) rs (ground arith) a),
          (a, o),
        )
      ]

  All-reverse_aux :
      (n : ℕ) (xs rs : List (CompiledRoute H))
      → All (λ s. specificity s ≤ n) xs
      → All (λ s. specificity s ≤ n) rs
      → All (λ s. specificity s ≤ n) (reverse_aux xs rs)
  All-reverse_aux n [] rs a b = b
  All-reverse_aux n (x ∷ xs) rs (p, a) b = All-reverse_aux n xs (x ∷ rs) a (p, b)

  -- Each route of the first list is at least as specific as each of the second.
  abbrev Above : List (CompiledRoute H) → List (CompiledRoute H) → Type 0
  Above [] rs = Unit
  Above (x ∷ xs) rs = All (λ s. specificity s ≤ specificity x) rs × Above xs rs

  Above-cons :
      (x : CompiledRoute H) (xs rs : List (CompiledRoute H))
      → All (λ s. specificity x ≤ specificity s) xs
      → Above xs rs
      → Above xs (x ∷ rs)
  Above-cons x [] rs a o = tt
  Above-cons x (y ∷ ys) rs (p, a) (q, o) = ((p, q), Above-cons x ys rs a o)

  Above-nil : (xs : List (CompiledRoute H)) → Above xs []
  Above-nil [] = tt
  Above-nil (x ∷ xs) = (tt, Above-nil xs)

  reverse_aux-MostSpecificFirst :
      (xs rs : List (CompiledRoute H))
      → MostSpecificLast xs
      → MostSpecificFirst rs
      → Above xs rs
      → MostSpecificFirst (reverse_aux xs rs)
  reverse_aux-MostSpecificFirst [] rs l f a = f
  reverse_aux-MostSpecificFirst (x ∷ xs) rs (b, l) f (a, above) =
      reverse_aux-MostSpecificFirst xs (x ∷ rs) l (a, f) (Above-cons x xs rs b above)

  sort_from-MostSpecificFirst :
      (before rs : List (CompiledRoute H))
      → MostSpecificLast before
      → MostSpecificFirst (sort_from before rs)
  unfolding sort_from
  sort_from-MostSpecificFirst before [] o =
      reverse_aux-MostSpecificFirst before [] o tt (Above-nil before)
  sort_from-MostSpecificFirst before (r ∷ rs) o =
      sort_from-MostSpecificFirst (shift_in r before) rs (shift_in-MostSpecificLast r before o)

  shift_in-Perm :
      (key : CompiledRoute H) (rs : List (CompiledRoute H)) → Perm (shift_in key rs) (key ∷ rs)
  unfolding shift_in
  shift_in-Perm key [] = Perm.refl (key ∷ [])
  shift_in-Perm key (r ∷ rs) = elim (Bool-cases (ltb (specificity r) (specificity key))) [
    | inl less ↦ rw less (Perm.trans (Perm.cons r (shift_in-Perm key rs)) (Perm.swap key r rs))
    | inr not_less ↦ rw not_less (Perm.refl (key ∷ r ∷ rs))
  ]

  reverse_aux-Perm : (xs rs : List (CompiledRoute H)) → Perm (reverse_aux xs rs) (xs ++ rs)
  reverse_aux-Perm [] rs = Perm.refl rs
  reverse_aux-Perm (x ∷ xs) rs = Perm.trans (reverse_aux-Perm xs (x ∷ rs)) (perm_middle xs rs)

  sort_from-Perm : (before rs : List (CompiledRoute H)) → Perm (sort_from before rs) (before ++ rs)
  unfolding sort_from
  sort_from-Perm before [] = reverse_aux-Perm before []
  sort_from-Perm before (r ∷ rs) = Perm.trans (sort_from-Perm (shift_in r before) rs) (
      Perm.trans (Perm.append_right rs (shift_in-Perm r before))
        (Perm.symm (perm_middle before rs)))

  -- The insertion sort returns the routes it is given, each as often, and none of them stands
  -- before one with more static segments.
  pub sort_routes_by_specificity-MostSpecificFirst :
      (rs : List (CompiledRoute H))
      → Perm (sort_routes_by_specificity rs) rs × MostSpecificFirst (sort_routes_by_specificity rs)
  unfolding sort_routes_by_specificity
  sort_routes_by_specificity-MostSpecificFirst rs =
      (sort_from-Perm [] rs, sort_from-MostSpecificFirst [] rs tt)
