-- ===== src/Middleware/TrailingSlash/Tests.antt =====
-- Requests with and without a slash at the end.
use rivaas.Prelude.{
  suc, ◌≡◌, ◌∙◌, refl, sym, ap, true, Option, none, some, [], ◌∷◌, ◌++◌, ◌||◌, Bytes, codes, length,
  eqb, eqb→eq, length-append, Bool-cases, inl, inr, arith, has_suffix, cut_suffix,
}
use rivaas.Middleware.TrailingSlash.{Url, policy_remove, wrap, trim_suffix, redirected}
use rivaas.Middleware.TrailingSlash.Settled.{follow, permits, stem_of, IsRead, follow-wrap}

abbrev users : Url
users = record { path = codes "/users//"; query = codes "page=2" }

-- The text of a URL, and a client who asks for the same page.
abbrev plain_string : Url → Bytes
plain_string u = u.path ++ (codes "?" ++ u.query)

unfoldable on_page : Option Bytes → Option Url
on_page none = none
on_page (some path) = some (record { path = path; query = codes "page=2" })

abbrev read_page : Bytes → Option Url
read_page s = on_page (cut_suffix s (codes "?page=2"))

redirects_once : wrap plain_string policy_remove users ≡ redirected (codes "/users/?page=2")
unfolding wrap eqb has_suffix trim_suffix cut_suffix
redirects_once = refl

-- The Location has the host evil.com for a client.
redirects_away :
    wrap plain_string policy_remove (record { path = codes "//evil.com/"; query = codes "a" })
    ≡ redirected (codes "//evil.com?a")
unfolding wrap eqb has_suffix trim_suffix cut_suffix
redirects_away = refl

cut_page : (s : Bytes) → cut_suffix (s ++ codes "?page=2") (codes "?page=2") ≡ some s
unfolding cut_suffix eqb
cut_page [] = refl
cut_page (a ∷ s) = elim (Bool-cases (eqb (a ∷ s ++ codes "?page=2") (codes "?page=2"))) [
  | inl e ↦ absurd (
      omega (
        arith,
        ap length (eqb→eq (a ∷ s ++ codes "?page=2") (codes "?page=2") e),
        length-append s (codes "?page=2"),
      ))
  | inr ne ↦ rw (ne, cut_page s) refl
]

users-IsRead : IsRead plain_string read_page users
unfolding on_page
users-IsRead u q same =
    ap (λ query. read_page (u.path ++ (codes "?" ++ query))) q
    ∙ ap on_page (cut_page u.path)
    ∙ ap {B = Option Url} (λ query. some (record { path = u.path; query = query })) (sym q)

follow-wrap_example :
    (final : Url) × (follow plain_string read_page policy_remove
        (suc (suc (length users.path)))
        users
      ≡ some final)
    × (final.query ≡ users.query)
    × (stem_of final.path ≡ stem_of users.path)
    × ((eqb final.path (codes "/") || permits policy_remove (has_suffix final.path (codes "/")))
        ≡ true)
follow-wrap_example = follow-wrap plain_string read_page policy_remove users users-IsRead
