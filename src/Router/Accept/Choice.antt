-- ===== src/Router/Accept/Choice.antt =====
-- The choice among offers (router/accept.go: matchMediaType, the loops of Accepts, and
-- acceptHeaderMatch). Letters of other alphabets than that of ASCII are not put in lower case.
use rivaas.Prelude.{
  ℕ, ◌+◌, Bool, true, ◌&&◌, ◌||◌, List, [], ◌∷◌, ◌++◌, map, Option, none, some, ◌==◌, leb, ltb,
  if◌then◌else◌, Bytes, codes, eqb, is_empty, find_key, has_prefix,
}
use rivaas.Compiler.Route.{trim_space}
use rivaas.Router.Accept.Parse.{AcceptSpec, trimmed, cut}

unfoldable pub to_lower : Bytes → Bytes
to_lower [] = []
to_lower (a ∷ s) = (if leb b'A' a && leb a b'Z' then a + 32 else a) ∷ to_lower s

unfoldable pub split_media_type : Bytes → Bytes × Bytes
unfolding cut trimmed to_lower
split_media_type media_type =
    let (type, subtype) = cut b'/' (trimmed (cut b';' media_type).0) in
    elim subtype [ none ↦ (to_lower type, codes "*") | some s ↦ (to_lower type, to_lower s) ]

-- matchMediaType: the quality and how specific the match is; 0 and 0 is none.
unfoldable pub match_types : Bytes × Bytes → Bytes × Bytes → ℕ → ℕ × ℕ
match_types (offer_type, offer_subtype) (spec_type, spec_subtype) quality =
    if eqb spec_type (codes "*") && eqb spec_subtype (codes "*")
    then (quality, 1)
    else if eqb spec_type offer_type && eqb spec_subtype (codes "*")
    then (quality, 2)
    else if eqb spec_type offer_type && eqb spec_subtype offer_subtype
    then (quality, 3)
    else (0, 0)

unfoldable pub match_media_type : Bytes → AcceptSpec → ℕ × ℕ
unfolding match_types split_media_type
match_media_type offer spec =
    match_types (split_media_type offer) (split_media_type spec.value) spec.quality

abbrev pub mime_types : List (Bytes × Bytes)
mime_types =
    (codes "html", codes "text/html")
    ∷ (codes "json", codes "application/json")
    ∷ (codes "xml", codes "application/xml")
    ∷ (codes "text", codes "text/plain")
    ∷ (codes "txt", codes "text/plain")
    ∷ (codes "png", codes "image/png")
    ∷ (codes "jpg", codes "image/jpeg")
    ∷ (codes "jpeg", codes "image/jpeg")
    ∷ (codes "gif", codes "image/gif")
    ∷ (codes "webp", codes "image/webp")
    ∷ (codes "svg", codes "image/svg+xml")
    ∷ (codes "css", codes "text/css")
    ∷ (codes "js", codes "application/javascript")
    ∷ (codes "javascript", codes "application/javascript")
    ∷ (codes "pdf", codes "application/pdf")
    ∷ (codes "zip", codes "application/zip")
    ∷ (codes "mp4", codes "video/mp4")
    ∷ (codes "webm", codes "video/webm")
    ∷ (codes "mp3", codes "audio/mpeg")
    ∷ (codes "wav", codes "audio/wav")
    ∷ []

unfoldable pub normalize_media_type : Bytes → Bytes
unfolding to_lower find_key
normalize_media_type media_type =
    let m = to_lower (trim_space media_type) in
    elim (find_key m mime_types) [ some mime ↦ mime | none ↦ m ]

-- The best match so far: the offer, the quality and how specific it is.
abbrev pub Best : Type 0
Best = Option (Bytes × ℕ × ℕ)

unfoldable pub is_better : ℕ × ℕ → Best → Bool
is_better (quality, specificity) none = true
is_better (quality, specificity) (some (_, best_quality, best_specificity)) =
    ltb best_quality quality || (quality == best_quality && ltb best_specificity specificity)

unfoldable pub consider : Bytes → ℕ × ℕ → Best → Best
unfolding is_better
consider offer (quality, specificity) best =
    if ltb 0 quality && is_better (quality, specificity) best
    then some (offer, quality, specificity)
    else best

-- The inner loop.
unfoldable pub best_of_specs : Bytes → List AcceptSpec → Best → Best
unfolding match_media_type consider
best_of_specs offer [] best = best
best_of_specs offer (spec ∷ specs) best =
    best_of_specs offer specs (consider offer (match_media_type offer spec) best)

-- The outer loop, over the offers as media types.
unfoldable pub best_of_offers : List Bytes → List AcceptSpec → Best → Best
unfolding best_of_specs
best_of_offers [] specs best = best
best_of_offers (offer ∷ offers) specs best =
    best_of_offers offers specs (best_of_specs offer specs best)

-- The first offer that is the given media type, as it was written.
unfoldable pub original : Bytes → List Bytes → Bytes
original best [] = []
original best (offer ∷ offers) =
    let rest = original best offers in if eqb (normalize_media_type offer) best then offer else rest

unfoldable pub answer : List Bytes → Best → Bytes
unfolding original
answer offers none = []
answer offers (some (best, quality, specificity)) =
    if is_empty best then [] else original best offers

-- Accepts, of at least one offer and a header that is not empty
unfoldable pub choose : Bytes → List Bytes → List AcceptSpec → Bytes
unfolding best_of_offers answer
choose first offers [] = first
choose first offers (spec ∷ specs) =
    answer (first ∷ offers)
      (best_of_offers (map normalize_media_type (first ∷ offers)) (spec ∷ specs) none)

-- The inner loop of acceptHeaderMatch, for an offer and its lower case. The first part that is the
-- offer or a wildcard ends it; prefixes, as of languages, do not.
abbrev pub BestOffer : Type 0
BestOffer = Option (Bytes × ℕ)

unfoldable pub raise : Bytes → ℕ → BestOffer → BestOffer
raise offer quality none = some (offer, quality)
raise offer quality (some (best, best_quality)) =
    if ltb best_quality quality then some (offer, quality) else some (best, best_quality)

unfoldable pub match_specs : Bytes → Bytes → List AcceptSpec → BestOffer → BestOffer
unfolding raise has_prefix to_lower
match_specs offer lower [] best = best
match_specs offer lower (spec ∷ specs) best =
    let value = to_lower spec.value in
    let is_prefix =
      has_prefix value (lower ++ codes "-") || has_prefix lower (value ++ codes "-") in
    let rest =
      match_specs offer lower specs (if is_prefix then raise offer spec.quality best else best) in
    if eqb value lower || eqb value (codes "*") then raise offer spec.quality best else rest

unfoldable pub match_offers : List Bytes → List AcceptSpec → BestOffer → BestOffer
unfolding match_specs
match_offers [] specs best = best
match_offers (offer ∷ offers) specs best =
    match_offers offers specs (match_specs offer (to_lower (trim_space offer)) specs best)

-- acceptHeaderMatch
unfoldable pub accept_header_match : List Bytes → List AcceptSpec → Bytes
unfolding match_offers
accept_header_match [] specs = []
accept_header_match (first ∷ offers) [] = first
accept_header_match (first ∷ offers) (spec ∷ specs) =
    elim (match_offers (first ∷ offers) (spec ∷ specs) none) [
      | none ↦ []
      | some (best, quality) ↦ best
    ]
