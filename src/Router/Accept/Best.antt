-- ===== src/Router/Accept/Best.antt =====
-- Accepts chooses an offer that no other one beats.
use rivaas.Prelude.{
  ℕ, ◌<◌, ◌≡◌, ◌⊎◌, inl, inr, refl, sym, subst, false, List, [], ◌∷◌, map, none, some, Bytes, eqb,
  eqb→eq, eqb_iff, is_empty, All, Any, All-imp, Any-imp, Bool-cases,
}
use rivaas.Router.Accept.Parse.{AcceptSpec}
use rivaas.Router.Accept.Loops.{
  IsNoBetter, Top, Satisfies, IsMatch, best_of_offers-All, best_of_offers-IsMatch,
}
use rivaas.Router.Accept.Choice.{
  match_media_type, normalize_media_type, Best, original, answer, choose,
}

-- The answer is an offer, as it was written.
original-Any :
    (best : Bytes) (offers : List Bytes)
    → Any (λ offer. best ≡ normalize_media_type offer) offers
    → Any (λ offer. (original best offers ≡ offer) × (normalize_media_type offer ≡ best)) offers
unfolding original
original-Any best [] h = absurd h
original-Any best (offer ∷ offers) (inl found) =
    let same = (eqb_iff (normalize_media_type offer) best).1 (sym found) in
    inl (rw same refl, sym found)
original-Any best (offer ∷ offers) (inr h) =
    elim (Bool-cases (eqb (normalize_media_type offer) best)) [
      | inl same ↦ inl (rw same refl, eqb→eq _ _ same)
      | inr other ↦ inr (
          Any-imp {P = λ o. (original best offers ≡ o) × (normalize_media_type o ≡ best)} offers
            (λ o (p, q). (rw other p, q)) (original-Any best offers h))
    ]

Any-map :
    {A B : Type 0} (P : B → Type 0) (f : A → B) (xs : List A)
    → Any P (map f xs)
    → Any (λ x. P (f x)) xs
Any-map P f [] h = h
Any-map P f (x ∷ xs) (inl p) = inl p
Any-map P f (x ∷ xs) (inr h) = inr (Any-map P f xs h)

All-map :
    {A B : Type 0} (P : B → Type 0) (f : A → B) (xs : List A)
    → All P (map f xs)
    → All (λ x. P (f x)) xs
All-map P f [] h = h
All-map P f (x ∷ xs) (p, h) = (p, All-map P f xs h)

-- What Accepts answers: an offer that matches a part with a positive quality, and with one that no
-- other offer and part beats.
abbrev pub IsBestOffer : List Bytes → List AcceptSpec → Bytes → Type 0
IsBestOffer offers specs answer =
    Any
      (λ offer.
        (answer ≡ offer)
        × Any
            (λ spec.
              (0 < (match_media_type (normalize_media_type offer) spec).0)
              × All
                  (λ offer'.
                    All
                      (λ spec'.
                        IsNoBetter (match_media_type (normalize_media_type offer') spec')
                          (match_media_type (normalize_media_type offer) spec))
                      specs)
                  offers)
            specs)
      offers

abbrev IsUnmatched : List Bytes → List AcceptSpec → Type 0
IsUnmatched offers specs =
    All (λ offer. All (λ spec. (match_media_type (normalize_media_type offer) spec).0 ≡ 0) specs)
      offers

Any-const : {A C : Type 0} (xs : List A) → Any (λ (x : A). C) xs → C
Any-const [] h = absurd h
Any-const (x ∷ xs) (inl c) = c
Any-const {C = C} (x ∷ xs) (inr h) = Any-const {C = C} xs h

-- The part that the best media type matched.
abbrev MatchedBy : List AcceptSpec → Bytes → ℕ × ℕ → Type 0
MatchedBy specs m x = Any (λ spec. (match_media_type m spec ≡ x) × (0 < x.0)) specs

IsMatch-MatchedBy :
    (offers : List Bytes) (specs : List AcceptSpec) (m : Bytes) (x : ℕ × ℕ)
    → IsMatch offers specs m x
    → MatchedBy specs m x
IsMatch-MatchedBy offers specs m x h = Any-const {C = MatchedBy specs m x} offers (
    Any-imp {P = λ o. (m ≡ o) × MatchedBy specs o x} offers
      (λ o (e, h'). subst (λ y. MatchedBy specs y x) (sym e) h') h)

assemble :
    (offers : List Bytes) (specs : List AcceptSpec) (m : Bytes) (q s : ℕ)
    → IsMatch (map normalize_media_type offers) specs m (q, s)
    → All
        (λ offer. All (λ spec. Top (some (m, q, s)) (match_media_type offer spec)) specs)
        (map normalize_media_type offers)
    → IsBestOffer offers specs (original m offers)
assemble offers specs m q s from all =
    let here = Any-map (λ o. (m ≡ o) × MatchedBy specs o (q, s)) normalize_media_type offers from in
    let answered = original-Any m offers (
      Any-imp
        {P = λ o. (m ≡ normalize_media_type o) × MatchedBy specs (normalize_media_type o) (q, s)}
        offers (λ o h. h.0) here) in
    Any-imp {P = λ o. (original m offers ≡ o) × (normalize_media_type o ≡ m)} offers
      (λ o (is_o, same). (
        is_o,
        Any-imp {P = λ spec. (match_media_type m spec ≡ (q, s)) × (0 < q)} specs
            (λ spec (x, positive).
              rw (same, x)
                (
                  positive,
                  All-imp offers (λ o' h. All-imp specs (λ spec' top. top.1) h)
                      (All-map
                        (λ o'.
                          All (λ spec'. Top (some (m, q, s)) (match_media_type o' spec')) specs)
                        normalize_media_type offers all),
                ))
            (IsMatch-MatchedBy (map normalize_media_type offers) specs m (q, s) from),
      ))
      answered

IsMatch-named :
    (offers : List Bytes) (specs : List AcceptSpec) (m : Bytes) (x : ℕ × ℕ)
    → All (λ offer. is_empty (normalize_media_type offer) ≡ false) offers
    → IsMatch (map normalize_media_type offers) specs m x
    → is_empty m ≡ false
IsMatch-named [] specs m x named h = absurd h
IsMatch-named (offer ∷ offers) specs m x (n, named) (inl (e, h)) = rw e n
IsMatch-named (offer ∷ offers) specs m x (n, named) (inr h) = IsMatch-named offers specs m x named h

answer-IsBestOffer :
    (offers : List Bytes) (specs : List AcceptSpec) (best : Best)
    → All (λ offer. is_empty (normalize_media_type offer) ≡ false) offers
    → All
        (λ offer. All (λ spec. Top best (match_media_type offer spec)) specs)
        (map normalize_media_type offers)
    → Satisfies (IsMatch (map normalize_media_type offers) specs) best
    → ((answer offers best ≡ []) × IsUnmatched offers specs)
      ⊎ IsBestOffer offers specs (answer offers best)
unfolding answer
answer-IsBestOffer offers specs none named all from = inl (
  refl,
  All-map (λ o. All (λ spec. (match_media_type o spec).0 ≡ 0) specs) normalize_media_type offers
      all,
)
answer-IsBestOffer offers specs (some (m, q, s)) named all from =
    rw (IsMatch-named offers specs m (q, s) named from) (inr (assemble offers specs m q s from all))

-- The answer of Accepts to a header with some parts, where no offer is blank: none, if no offer
-- matches a part with a positive quality, and else an offer that matches a part so that no offer and
-- part have a better quality, or the same and a more specific match.
pub choose-IsBestOffer :
    (first : Bytes) (offers : List Bytes) (spec : AcceptSpec) (specs : List AcceptSpec)
    → All (λ offer. is_empty (normalize_media_type offer) ≡ false) (first ∷ offers)
    → ((choose first offers (spec ∷ specs) ≡ [])
        × All
            (λ offer.
              All
                (λ part. (match_media_type (normalize_media_type offer) part).0 ≡ 0)
                (spec ∷ specs))
            (first ∷ offers))
      ⊎ IsBestOffer (first ∷ offers) (spec ∷ specs) (choose first offers (spec ∷ specs))
unfolding choose
choose-IsBestOffer first offers spec specs named =
    let types = map normalize_media_type (first ∷ offers) in
    answer-IsBestOffer (first ∷ offers) (spec ∷ specs) _ named
      (best_of_offers-All types (spec ∷ specs) none tt)
      (best_of_offers-IsMatch types (spec ∷ specs))
