-- ===== src/Router/Proxies/Walk.antt =====
-- Which address of an X-Forwarded-For header the walk over trusted proxies ends at.
use mathlib.Core.List.{reverse, reverse_aux}
use rivaas.Prelude.{
  ℕ, suc, ◌+◌, ◌<◌, ◌≡◌, refl, ap, ◌∙◌, true, false, ◌&&◌, not, List, [], ◌∷◌, ◌++◌, some, arith,
  leb, if◌then◌else◌, length, get_elem?, Bytes, is_empty, Bool-cases, inl, inr,
}
use rivaas.Router.Proxies.{
  Net, RealIpConfig, is_trusted, parse_one_ip, walk_back, address_at, last_address,
}

module _ {ℓ} {Range : Type ℓ} (net : Net Range) (cfg : RealIpConfig Range) where
  -- The parts that are addresses of trusted proxies.
  unfoldable pub count_trusted : List Bytes → ℕ
  count_trusted [] = 0
  count_trusted (part ∷ parts) =
      let rest = count_trusted parts in
      if not (is_empty (parse_one_ip net part)) && is_trusted net cfg (parse_one_ip net part)
      then suc rest
      else rest

  walk_back-last :
      (hops boundary : ℕ) (before : List Bytes) (part : Bytes)
      → is_empty (parse_one_ip net part) ≡ false
      → hops + count_trusted before < cfg.max_hops
      → walk_back net cfg hops boundary (before ++ part ∷ []) ≡ 0
  unfolding walk_back count_trusted
  walk_back-last hops boundary [] part e h = ground arith
  walk_back-last hops boundary (other ∷ before) part e h =
      elim (Bool-cases (is_empty (parse_one_ip net other))) [
        | inl empty ↦ rw empty (walk_back-last hops boundary before part e (ground arith))
        | inr address ↦ elim (Bool-cases (is_trusted net cfg (parse_one_ip net other))) [
          | inl trusted ↦
              let within : suc (hops + count_trusted before) < cfg.max_hops = ground arith in
              let less : leb cfg.max_hops (hops + 1) ≡ false = ground arith in
              ground (
                arith,
                walk_back-last (hops + 1) (length (before ++ part ∷ [])) before part e
                    (omega arith),
              )
          | inr foreign ↦ ground (
            arith,
            walk_back-last hops (length (before ++ part ∷ [])) before part e (ground arith),
          )
        ]
      ]

  reverse_aux-append : (xs ys zs : List Bytes) → reverse_aux xs (ys ++ zs) ≡ reverse_aux xs ys ++ zs
  reverse_aux-append [] ys zs = refl
  reverse_aux-append (x ∷ xs) ys zs = reverse_aux-append xs (x ∷ ys) zs

  count_trusted-reverse_aux :
      (xs ys : List Bytes) → count_trusted (reverse_aux xs ys) ≡ count_trusted xs + count_trusted ys
  unfolding count_trusted
  count_trusted-reverse_aux [] ys = omega arith
  count_trusted-reverse_aux (x ∷ xs) ys = ground (arith, count_trusted-reverse_aux xs (x ∷ ys))

  -- Where the header names fewer trusted proxies than the limit, its leftmost entry is the answer
  -- whenever it is an address: an entry that the client has put in front decides, whatever
  -- stands after it.
  pub last_address-leftmost :
      (part : Bytes) (parts : List Bytes)
      → is_empty (parse_one_ip net part) ≡ false
      → count_trusted parts < cfg.max_hops
      → last_address net cfg (part ∷ parts) ≡ parse_one_ip net part
  unfolding last_address address_at count_trusted
  last_address-leftmost part parts e h =
      let at_end : reverse (part ∷ parts) ≡ reverse parts ++ part ∷ [] =
        reverse_aux-append parts [] (part ∷ []) in
      let few : count_trusted (reverse parts) < cfg.max_hops =
        omega (arith, count_trusted-reverse_aux parts []) in
      let boundary : walk_back net cfg 0 (suc (length parts)) (reverse parts ++ part ∷ []) ≡ 0 =
        walk_back-last 0 (suc (length parts)) (reverse parts) part e (omega (arith, few)) in
      let found : walk_back net cfg 0 (suc (length parts)) (reverse (part ∷ parts)) ≡ 0 =
        ap (walk_back net cfg 0 (suc (length parts))) at_end ∙ boundary in
      rw (found, e)

  get_elem?-end :
      (parts : List Bytes) (part : Bytes)
      → get_elem? (parts ++ part ∷ []) (length parts) ≡ some part
  get_elem?-end [] part = refl
  get_elem?-end (x ∷ parts) part = get_elem?-end parts part

  reverse_aux-end :
      (xs ys : List Bytes) (x : Bytes) → reverse_aux (xs ++ x ∷ []) ys ≡ x ∷ reverse_aux xs ys
  reverse_aux-end [] ys x = refl
  reverse_aux-end (y ∷ xs) ys x = reverse_aux-end xs (y ∷ ys) x

  length-reverse_aux : (xs ys : List Bytes) → length (reverse_aux xs ys) ≡ length xs + length ys
  length-reverse_aux [] ys = omega arith
  length-reverse_aux (x ∷ xs) ys = omega (arith, length-reverse_aux xs (x ∷ ys))

  walk_back-limit :
      (hops boundary : ℕ) (part : Bytes) (before : List Bytes)
      → is_empty (parse_one_ip net part) ≡ false
      → is_trusted net cfg (parse_one_ip net part) ≡ true
      → cfg.max_hops ≡ hops + 1
      → walk_back net cfg hops boundary (part ∷ before) ≡ length before
  unfolding walk_back
  walk_back-limit hops boundary part before e t h = ground arith

  -- With a limit of one hop, the default, a header that a trusted proxy has ended with its own kind
  -- of address yields the address of that proxy, not that of its client.
  last_address-one_hop :
      (parts : List Bytes) (part : Bytes)
      → is_empty (parse_one_ip net part) ≡ false
      → is_trusted net cfg (parse_one_ip net part) ≡ true
      → cfg.max_hops ≡ 1
      → last_address net cfg (parts ++ part ∷ []) ≡ parse_one_ip net part
  unfolding last_address address_at
  last_address-one_hop parts part e t one =
      let n = length (parts ++ part ∷ []) in
      let stops : walk_back net cfg 0 n (part ∷ reverse parts) ≡ length (reverse parts) =
        walk_back-limit 0 n part (reverse parts) e t (omega (arith, one)) in
      let same : length (reverse parts) ≡ length parts =
        omega (arith, length-reverse_aux parts []) in
      let found : walk_back net cfg 0 n (reverse (parts ++ part ∷ [])) ≡ length parts =
        ap (walk_back net cfg 0 n) (reverse_aux-end parts [] part) ∙ (stops ∙ same) in
      rw (found, get_elem?-end parts part, e)
