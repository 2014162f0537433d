-- ===== src/Middleware/TrailingSlash/Settled.antt =====
-- A client that follows the redirects arrives.
use rivaas.Prelude.{
  ℕ, zero, suc, ◌<◌, ◌≡◌, ◌⊎◌, inl, inr, refl, ap, ◌∙◌, Bool, true, false, not, ◌||◌, Option, none,
  some, [], ◌∷◌, ◌++◌, ◌>>=◌, arith, length, length-append, sym, Bytes, codes, eqb, eqb→eq,
  has_suffix, cut_suffix, trim_left, Bool-cases,
}
use mathlib.Core.List.{reverse, reverse-append}
use rivaas.Middleware.TrailingSlash.{
  Policy, policy_remove, policy_add, policy_strict, Url, Answer, served, redirected, or_whole,
  trim_suffix, redirect308_http, wrap_by, wrap,
}

-- What a policy says of the slash at the end.
unfoldable pub permits : Policy → Bool → Bool
permits policy_remove slash = not slash
permits policy_add slash = slash
permits policy_strict slash = true

-- The path without the slashes at its end.
abbrev pub stem_of : Bytes → Bytes
stem_of s = reverse (trim_left 47 (reverse s))

abbrev slash : Bytes
slash = codes "/"

has_suffix-append : (s : Bytes) → has_suffix (s ++ slash) slash ≡ true
unfolding has_suffix eqb
has_suffix-append [] = refl
has_suffix-append (a ∷ s) = ground (arith, has_suffix-append s)

-- A path ends in no slash, or TrimSuffix takes one from it.
has_suffix-cases :
    (s : Bytes)
    → (has_suffix s slash ≡ false)
      ⊎ ((t : Bytes) × (s ≡ t ++ slash) × (cut_suffix s slash ≡ some t))
unfolding has_suffix cut_suffix eqb
has_suffix-cases [] = inl refl
has_suffix-cases (a ∷ s) = elim (Bool-cases (eqb (a ∷ s) slash)) [
  | inl e ↦ inr ([], eqb→eq (a ∷ s) slash e, rw e refl)
  | inr ne ↦ elim (has_suffix-cases s) [
    | inl off ↦ inl (rw (ne, off) refl)
    | inr (t, e, cut) ↦ inr (a ∷ t, ap (λ r. a ∷ r) e, rw (ne, cut) refl)
  ]
]

stem_of-slash : (t : Bytes) → stem_of (t ++ slash) ≡ stem_of t
unfolding trim_left
stem_of-slash t = ap (λ r. reverse (trim_left 47 r)) (reverse-append t slash)

module _ (url_string : Url → Bytes) (resolve : Bytes → Option Url) where
  -- The URL that a client ends at, who makes that many requests at most: it asks for what it reads out
  -- of a Location.
  unfoldable pub arrive : Answer → (Url → Option Url) → Option Url
  arrive (served url) next = some url
  arrive (redirected location) next = resolve location >>= next

  unfoldable pub follow : Policy → ℕ → Url → Option Url
  unfolding arrive wrap
  follow policy zero url = none
  follow policy (suc n) url = arrive (wrap url_string policy url) (follow policy n)

  -- The client reads a URL out of its text, if it has the query of the given one and its path but for
  -- slashes at the end.
  abbrev pub IsRead : Url → Type 0
  IsRead url =
      (u : Url)
      → u.query ≡ url.query
      → stem_of u.path ≡ stem_of url.path
      → resolve (url_string u) ≡ some u

  -- The client arrives, at the same path but for slashes at the end, as the policy has it.
  abbrev Settles : Policy → ℕ → Url → Type 0
  Settles policy n url =
      (final : Url) × (follow policy n url ≡ some final)
      × (final.query ≡ url.query)
      × (stem_of final.path ≡ stem_of url.path)
      × ((eqb final.path slash || permits policy (has_suffix final.path slash)) ≡ true)

  stays :
      (policy : Policy) (n : ℕ) (url : Url)
      → wrap url_string policy url ≡ served url
      → (eqb url.path slash || permits policy (has_suffix url.path slash)) ≡ true
      → Settles policy (suc n) url
  unfolding follow arrive
  stays policy n url e ok = (url, rw e refl, refl, refl, ok)

  goes :
      (policy : Policy) (n : ℕ) (url : Url) (path : Bytes)
      → wrap url_string policy url ≡ redirected (url_string (record url { path = path }))
      → stem_of path ≡ stem_of url.path
      → IsRead url
      → Settles policy n (record url { path = path })
      → Settles policy (suc n) url
  unfolding follow arrive
  goes policy n url path e same reads (final, arrives, query, stem, ok) =
      let read : resolve (url_string (record url { path = path }))
          ≡ some (record url { path = path }) =
        reads (record url { path = path }) refl same in
      (final, rw (e, read) arrives, query, stem ∙ same, ok)

  root :
      (policy : Policy) (n : ℕ) (url : Url) → eqb url.path slash ≡ true → Settles policy (suc n) url
  unfolding wrap
  root policy n url e = stays policy n url (rw e refl) (rw e refl)

  wrap-remove :
      (url : Url) (t : Bytes)
      → eqb url.path slash ≡ false
      → url.path ≡ t ++ slash
      → cut_suffix url.path slash ≡ some t
      → wrap url_string policy_remove url ≡ redirected (url_string (record url { path = t }))
  unfolding wrap wrap_by redirect308_http trim_suffix or_whole
  wrap-remove url t ne e cut =
      let on : has_suffix url.path slash ≡ true = rw e (has_suffix-append t) in
      rw (ne, on, cut) refl

  remove-Settles :
      (n : ℕ) (url : Url) → length url.path < n → IsRead url → Settles policy_remove n url
  unfolding wrap wrap_by permits
  remove-Settles zero url short reads = absurd (omega arith)
  remove-Settles (suc n) url short reads = elim (Bool-cases (eqb url.path slash)) [
    | inl e ↦ root policy_remove n url e
    | inr ne ↦ elim (has_suffix-cases url.path) [
      | inl off ↦ stays policy_remove n url (rw (ne, off) refl) (rw (ne, off) refl)
      | inr (t, e, cut) ↦
          let same : stem_of t ≡ stem_of url.path = sym (stem_of-slash t) ∙ ap stem_of (sym e) in
          goes policy_remove n url t (wrap-remove url t ne e cut) same reads (
            remove-Settles n (record url { path = t })
              (omega (arith, length-append t slash, ap length e))
              (λ u q stem. reads u q (stem ∙ same)))
    ]
  ]

  -- A path with a slash at its end is served under the policy that adds one.
  slashed : (n : ℕ) (url : Url) → has_suffix url.path slash ≡ true → Settles policy_add (suc n) url
  unfolding wrap wrap_by permits
  slashed n url on = elim (Bool-cases (eqb url.path slash)) [
    | inl e ↦ root policy_add n url e
    | inr ne ↦ stays policy_add n url (rw (ne, on) refl) (rw (ne, on) refl)
  ]

  add-Settles : (n : ℕ) (url : Url) → IsRead url → Settles policy_add (suc (suc n)) url
  unfolding wrap wrap_by redirect308_http permits
  add-Settles n url reads = elim (Bool-cases (eqb url.path slash)) [
    | inl e ↦ root policy_add (suc n) url e
    | inr ne ↦ elim (Bool-cases (has_suffix url.path slash)) [
      | inl on ↦ slashed (suc n) url on
      | inr off ↦
          let on = has_suffix-append url.path in
          goes policy_add (suc n) url (url.path ++ slash) (rw (ne, off) refl)
            (stem_of-slash url.path) reads (slashed n (record url { path = url.path ++ slash }) on)
    ]
  ]

  -- For every policy and URL, a client who follows the redirects is served within two requests more than
  -- the path has bytes, if it reads every URL out of its text that has this query and this path but for
  -- slashes at its end: the text must not begin with two slashes or have dot segments. The query is the
  -- same, and so is the path but for slashes at its end, and the path that is served is the root or has a
  -- slash at its end as the policy permits.
  pub follow-wrap :
      (policy : Policy) (url : Url)
      → IsRead url
      → (final : Url) × (follow policy (suc (suc (length url.path))) url ≡ some final)
        × (final.query ≡ url.query)
        × (stem_of final.path ≡ stem_of url.path)
        × ((eqb final.path (codes "/") || permits policy (has_suffix final.path (codes "/")))
            ≡ true)
  unfolding wrap wrap_by permits
  follow-wrap policy_remove url reads =
      remove-Settles (suc (suc (length url.path))) url (omega arith) reads
  follow-wrap policy_add url reads = add-Settles (length url.path) url reads
  follow-wrap policy_strict url reads =
      stays policy_strict (suc (length url.path)) url (ground arith) (ground arith)
