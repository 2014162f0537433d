-- ===== src/Compiler/Fnv.antt =====
-- The FNV-1a hash: inline in `LookupStatic` (router/compiler/static.go), from the Go package
-- hash/fnv elsewhere.
use Prim.Native.Nat.{bit_xor}
use rivaas.Prelude.{ℕ, ◌*◌, ◌%◌, ◌^◌, ◌≡◌, refl, [], ◌∷◌, ◌++◌, Bytes}

-- uint64
abbrev pub word : ℕ
word = 2 ^ 64

abbrev pub fnv_offset_basis : ℕ
fnv_offset_basis = 14695981039346656037

abbrev pub fnv_prime : ℕ
fnv_prime = 1099511628211

-- hash ^= uint64(b); hash *= fnvPrime, for each byte
unfoldable pub hash_from : ℕ → Bytes → ℕ
hash_from hash [] = hash
hash_from hash (b ∷ s) = hash_from (bit_xor hash b * fnv_prime % word) s

-- fnv.New64a() with one Write, and Sum64. The package is not of the repository: what is relied on
-- is its documentation, that it is the 64-bit FNV-1a hash.
pub record Fnv : Type 0 where
  pub sum64 : Bytes → ℕ
  pub sum64_lem : (s : Bytes) → sum64 s ≡ hash_from fnv_offset_basis s

-- The hash that runs over a text and goes on over a second one.
pub hash_from-append :
    (hash : ℕ) (s t : Bytes) → hash_from hash (s ++ t) ≡ hash_from (hash_from hash s) t
unfolding hash_from
hash_from-append hash [] t = refl
hash_from-append hash (b ∷ s) t = hash_from-append (bit_xor hash b * fnv_prime % word) s t

-- A value that meets the documentation.
abbrev pub fnv1a : Fnv
fnv1a = record { sum64 = hash_from fnv_offset_basis; sum64_lem = λ s. refl }
