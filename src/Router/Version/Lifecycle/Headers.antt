-- ===== src/Router/Version/Lifecycle/Headers.antt =====
-- Which headers a version gets, and when it is gone.
use rivaas.Prelude.{
  ℕ, ◌≡◌, refl, ap, ◌∙◌, find_key-put_key_self, find_key-put_key_ne, Bool-cases, Bool, true, false,
  inl, inr, ◌&&◌, not, List, Option, none, some, if◌then◌else◌, Bytes, codes, eqb, is_empty,
  find_key, put_key, find_key-put_key,
}
use rivaas.Router.Version.Lifecycle.{
  Lifecycle, Policy, Answer, set_if, set_date, is_past, announce, announce_gone, answer_for,
  answer_of, set_lifecycle_headers,
}

-- The date after which a deprecated version ends; `none` for any other version.
unfoldable pub end_of : Option Lifecycle → Option (Option ℕ)
end_of none = none
end_of (some lc) = if lc.is_deprecated then some lc.sunset_date else none

unfoldable pub sunset_value : (ℕ → Bytes) → Option (Option ℕ) → Option Bytes → Option Bytes
sunset_value http_date none old = old
sunset_value http_date (some none) old = old
sunset_value http_date (some (some t)) old = some (http_date t)

unfoldable pub gone : Bool → ℕ → Option (Option ℕ) → Bool
gone enforce now none = false
gone enforce now (some date) = enforce && is_past now date

unfoldable pub deprecation_value : Bool → Option (Option ℕ) → Option Bytes → Option Bytes
deprecation_value true e old = old
deprecation_value false none old = old
deprecation_value false (some _) old = some (codes "true")

unfoldable pub is_some : Option (Option ℕ) → Bool
is_some none = false
is_some (some _) = true

find_key-set_if_ne :
    (on : Bool) (key name value : Bytes) (h : List (Bytes × Bytes))
    → eqb name key ≡ false
    → find_key key (set_if on name value h) ≡ find_key key h
unfolding set_if
find_key-set_if_ne true key name value h e = rw (find_key-put_key key name value h, e) refl
find_key-set_if_ne false key name value h e = refl

module _ (http_date rfc3339 : ℕ → Bytes) where
  find_key-set_date :
      (date : Option ℕ) (h : List (Bytes × Bytes))
      → find_key (codes "Sunset") (set_date http_date rfc3339 date h)
        ≡ sunset_value http_date (some date) (find_key (codes "Sunset") h)
  unfolding set_date sunset_value
  find_key-set_date none h = refl
  find_key-set_date (some t) h = find_key-put_key_self (codes "Sunset") (http_date t) h

  find_key-set_date_ne :
      (key : Bytes) (date : Option ℕ) (h : List (Bytes × Bytes))
      → eqb (codes "Sunset") key ≡ false
      → find_key key (set_date http_date rfc3339 date h) ≡ find_key key h
  unfolding set_date
  find_key-set_date_ne key none h e = refl
  find_key-set_date_ne key (some t) h e = find_key-put_key_ne key (codes "Sunset") (http_date t) h e

  announce-sunset :
      (cfg : Policy) (version : Bytes) (lc : Lifecycle) (h : List (Bytes × Bytes))
      → find_key (codes "Sunset") (announce http_date rfc3339 cfg version lc h)
        ≡ sunset_value http_date (some lc.sunset_date) (find_key (codes "Sunset") h)
  unfolding announce eqb
  announce-sunset cfg version lc h =
      let k = codes "Sunset" in
      find_key-set_if_ne cfg.send_warning299 k _ _ _ refl
      ∙ find_key-set_if_ne (not (is_empty lc.migration_url)) k _ _ _ refl
      ∙ find_key-set_date lc.sunset_date (put_key (codes "Deprecation") (codes "true") h)
      ∙ ap (sunset_value http_date (some lc.sunset_date)) (find_key-put_key_ne k _ _ h refl)

  announce-deprecation :
      (cfg : Policy) (version : Bytes) (lc : Lifecycle) (h : List (Bytes × Bytes))
      → find_key (codes "Deprecation") (announce http_date rfc3339 cfg version lc h)
        ≡ some (codes "true")
  unfolding announce eqb
  announce-deprecation cfg version lc h =
      let k = codes "Deprecation" in
      find_key-set_if_ne cfg.send_warning299 k _ _ _ refl
      ∙ find_key-set_if_ne (not (is_empty lc.migration_url)) k _ _ _ refl
      ∙ find_key-set_date_ne k lc.sunset_date (put_key k (codes "true") h) refl
      ∙ find_key-put_key_self k (codes "true") h

  announce_gone-sunset :
      (lc : Lifecycle) (h : List (Bytes × Bytes))
      → find_key (codes "Sunset") (announce_gone http_date rfc3339 lc h)
        ≡ sunset_value http_date (some lc.sunset_date) (find_key (codes "Sunset") h)
  unfolding announce_gone eqb
  announce_gone-sunset lc h =
      find_key-set_if_ne (not (is_empty lc.migration_url)) (codes "Sunset") _ _ _ refl
      ∙ find_key-set_date lc.sunset_date h

  announce_gone-deprecation :
      (lc : Lifecycle) (h : List (Bytes × Bytes))
      → find_key (codes "Deprecation") (announce_gone http_date rfc3339 lc h)
        ≡ find_key (codes "Deprecation") h
  unfolding announce_gone eqb
  announce_gone-deprecation lc h =
      find_key-set_if_ne (not (is_empty lc.migration_url)) (codes "Deprecation") _ _ _ refl
      ∙ find_key-set_date_ne (codes "Deprecation") lc.sunset_date h refl

  -- What the answer of a response with the headers `h` has to be.
  abbrev pub Announces : Policy → ℕ → Option (Option ℕ) → List (Bytes × Bytes) → Answer → Type 0
  Announces cfg now ends h a =
      (a.is_gone ≡ gone cfg.enforce_sunset now ends)
      × (a.deprecated_use ≡ (is_some ends && not a.is_gone))
      × (find_key (codes "Sunset") a.headers
          ≡ sunset_value http_date ends (find_key (codes "Sunset") h))
      × (find_key (codes "Deprecation") a.headers
          ≡ deprecation_value a.is_gone ends (find_key (codes "Deprecation") h))

  answer_for-Announces :
      (cfg : Policy) (now : ℕ) (version : Bytes) (lc : Lifecycle) (h : List (Bytes × Bytes))
      → Announces cfg now (end_of (some lc)) h (answer_for http_date rfc3339 cfg now version lc h)
  unfolding answer_for gone deprecation_value end_of sunset_value is_some
  answer_for-Announces cfg now version lc h = elim (Bool-cases lc.is_deprecated) [
    | inr no_one ↦ rw no_one (refl, refl, refl, refl)
    | inl old ↦ elim (Bool-cases (cfg.enforce_sunset && is_past now lc.sunset_date)) [
      | inl past ↦
          rw (old, past) (refl, refl, announce_gone-sunset lc h, announce_gone-deprecation lc h)
      | inr before ↦
          rw (old, before)
            (refl, refl, announce-sunset cfg version lc h, announce-deprecation cfg version lc h)
    ]
  ]

  answer_of-Announces :
      (cfg : Policy) (now : ℕ) (version : Bytes) (lc : Option Lifecycle) (h : List (Bytes × Bytes))
      → Announces cfg now (end_of lc) h (answer_of http_date rfc3339 cfg now version lc h)
  unfolding answer_of gone deprecation_value end_of sunset_value is_some
  answer_of-Announces cfg now version none h = (refl, refl, refl, refl)
  answer_of-Announces cfg now version (some lc) h = answer_for-Announces cfg now version lc h

  -- A version is gone exactly if it is deprecated with a date that has passed and sunsets are enforced;
  -- one with a date that is not marked as deprecated is not.
  -- OnDeprecatedUse is called exactly for a deprecated version that is not gone. Sunset is set exactly
  -- for a deprecated version with a date, to that date, and Deprecation exactly for a deprecated version
  -- that is not gone; any other version leaves the two headers as they were.
  pub set_lifecycle_headers-Announces :
      (cfg : Policy) (now : ℕ) (version : Bytes) (h : List (Bytes × Bytes))
      → Announces cfg now
          (end_of (find_key version cfg.lifecycles))
          h
          (set_lifecycle_headers http_date rfc3339 cfg now version h)
  unfolding set_lifecycle_headers eqb
  set_lifecycle_headers-Announces cfg now version h =
      let on = cfg.send_version_header && not (is_empty version) in
      let h' = set_if on (codes "X-API-Version") version h in
      let kept = λ (key : Bytes) (e : eqb (codes "X-API-Version") key ≡ false).
        find_key-set_if_ne on key (codes "X-API-Version") version h e in
      let a = answer_of http_date rfc3339 cfg now version (find_key version cfg.lifecycles) h' in
      let ends = end_of (find_key version cfg.lifecycles) in
      let all = answer_of-Announces cfg now version (find_key version cfg.lifecycles) h' in
      (
        all.0,
        all.1,
        all.2 ∙ ap (sunset_value http_date ends) (kept (codes "Sunset") refl),
        all.3 ∙ ap (deprecation_value a.is_gone ends) (kept (codes "Deprecation") refl),
      )
