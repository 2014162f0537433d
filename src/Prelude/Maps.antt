-- ===== src/Prelude/Maps.antt =====
-- A Go map with string keys, as an association list with one entry for a key.
use mathlib.Core.Path.{◌≡◌, refl, ◌∙◌}
use mathlib.Core.Bool.{Bool, false}
use mathlib.Core.Logic.{inl, inr}
use mathlib.Core.List.{List, [], ◌∷◌}
use mathlib.Core.Option.{Option, none, some}
use native.Mathlib.Omega.{arith}
use rivaas.Prelude.Tests.{Bool-cases, ◌>>=◌, if◌then◌else◌}
use rivaas.Prelude.Text.{Bytes, eqb, eqb_refl, eqb→eq, eqb_iff}

module _ {ℓ} {A : Type ℓ} where
  unfoldable pub find_key : Bytes → List (Bytes × A) → Option A
  find_key key [] = none
  find_key key ((k, v) ∷ m) = if eqb k key then some v else find_key key m

  unfoldable pub put_key : Bytes → A → List (Bytes × A) → List (Bytes × A)
  put_key key v [] = (key, v) ∷ []
  put_key key v ((k, w) ∷ m) = if eqb k key then (key, v) ∷ m else (k, w) ∷ put_key key v m

  pub find_key-put_key :
      (key k : Bytes) (v : A) (m : List (Bytes × A))
      → find_key key (put_key k v m) ≡ (if eqb k key then some v else find_key key m)
  unfolding find_key put_key
  find_key-put_key key k v [] = refl
  find_key-put_key key k v ((j, w) ∷ m) =
      ground (arith, eqb_iff j k, eqb_iff k key, eqb_iff j key, find_key-put_key key k v m)

  pub find_key-put_key_self :
      (k : Bytes) (v : A) (m : List (Bytes × A)) → find_key k (put_key k v m) ≡ some v
  find_key-put_key_self k v m = find_key-put_key k k v m ∙ rw (eqb_refl k)

  pub find_key-put_key_ne :
      (key k : Bytes) (v : A) (m : List (Bytes × A))
      → eqb k key ≡ false
      → find_key key (put_key k v m) ≡ find_key key m
  find_key-put_key_ne key k v m h = find_key-put_key key k v m ∙ rw h

  -- Every key stands once.
  abbrev pub IsMap : List (Bytes × A) → Type ℓ
  IsMap [] = Unit
  IsMap ((k, v) ∷ m) = (find_key k m ≡ none) × IsMap m

  pub put_key-IsMap : (k : Bytes) (v : A) (m : List (Bytes × A)) → IsMap m → IsMap (put_key k v m)
  unfolding find_key put_key
  put_key-IsMap k v [] u = (refl, tt)
  put_key-IsMap k v ((j, w) ∷ m) (a, u) = elim (Bool-cases (eqb j k)) [
    | inl same ↦ rw same ((rw (eqb→eq j k same) at a), u)
    | inr other ↦
        rw other (
          find_key-put_key j k v m ∙ ground (arith, eqb_iff j k, eqb_iff k j),
          put_key-IsMap k v m u,
        )
  ]

  -- The loop that deletes the entries whose value passes the test.
  unfoldable pub delete_where : (A → Bool) → List (Bytes × A) → List (Bytes × A)
  delete_where old [] = []
  delete_where old ((k, v) ∷ m) =
      let rest = delete_where old m in if old v then rest else (k, v) ∷ rest

  pub delete_where-none :
      (old : A → Bool) (key : Bytes) (m : List (Bytes × A))
      → find_key key m ≡ none
      → find_key key (delete_where old m) ≡ none
  unfolding find_key delete_where
  delete_where-none old key [] h = refl
  delete_where-none old key ((k, v) ∷ m) h = ground (arith, delete_where-none old key m)

  pub delete_where-IsMap :
      (old : A → Bool) (m : List (Bytes × A)) → IsMap m → IsMap (delete_where old m)
  unfolding delete_where
  delete_where-IsMap old [] u = tt
  delete_where-IsMap old ((k, v) ∷ m) (a, u) = elim (Bool-cases (old v)) [
    | inl yes_old ↦ rw yes_old (delete_where-IsMap old m u)
    | inr fresh ↦ rw fresh (delete_where-none old k m a, delete_where-IsMap old m u)
  ]

  pub find_key-delete_where :
      (old : A → Bool) (key : Bytes) (m : List (Bytes × A))
      → IsMap m
      → find_key key (delete_where old m) ≡ (find_key key m >>= λ v. if old v then none else some v)
  unfolding find_key delete_where
  find_key-delete_where old key [] u = refl
  find_key-delete_where old key ((k, v) ∷ m) (a, u) = elim (Bool-cases (eqb k key)) [
    | inl same ↦ ground (arith, delete_where-none old key m, eqb→eq k key same)
    | inr other ↦ ground (arith, find_key-delete_where old key m u)
  ]
