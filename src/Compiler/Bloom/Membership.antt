-- ===== src/Compiler/Bloom/Membership.antt =====
-- The bloom filter has no false negatives, and does not panic.
use Prim.Native.Nat.{bit_and, bit_or, bit_xor}
use rivaas.Prelude.{
  ℕ, zero, ◌+◌, ◌*◌, ◌/◌, ◌%◌, ◌^◌, ◌≤◌, ◌<◌, ◌≡◌, refl, ap, subst, ◌∙◌, Bool, true, false, List,
  [], ◌∷◌, Option, some, ◌==◌, ==_iff, ◌>>=◌, length, get_elem?, set, Bytes, arith, inl, inr,
  Option-cases, Bool-cases, bit_or-sets, bit_or-keeps, get_elem?-set_self, get_elem?-set_ne,
  get_elem?-some, length-set, length-replicate, get_elem?-lt, All,
}
use rivaas.Compiler.Fnv.{Fnv, word, hash_from, fnv_offset_basis}
use rivaas.Compiler.Bloom.{
  BloomFilter, new_bloom_filter, hash_with_seed, set_bit, test_bit, set_bits, test_bits, add, test,
  IsValid, test_with_precomputed_hash,
}

set_bit-test :
    (bits bits' : List ℕ) (pos : ℕ) → set_bit bits pos ≡ some bits' → test_bit bits' pos ≡ some true
unfolding set_bit test_bit
set_bit-test bits bits' pos h = elim (Option-cases (get_elem? bits (pos / 64))) [
  | inl e ↦ absurd (ground arith)
  | inr (w, e) ↦ ground (
    arith,
    get_elem?-set_self bits (pos / 64) (bit_or w (2 ^ (pos % 64))) (get_elem?-lt bits (pos / 64) e),
    bit_or-sets (pos % 64) w,
  )
]

set_bit_keeps :
    (bits bits' : List ℕ) (pos q : ℕ)
    → set_bit bits pos ≡ some bits'
    → test_bit bits q ≡ some true
    → test_bit bits' q ≡ some true
unfolding set_bit test_bit
set_bit_keeps bits bits' pos q h t = elim (Option-cases (get_elem? bits (pos / 64))) [
  | inl e ↦ absurd (ground arith)
  | inr (w, e) ↦ elim (Bool-cases (pos / 64 == q / 64)) [
    | inl same ↦ ground (
      arith,
      get_elem?-set_self bits (pos / 64) (bit_or w (2 ^ (pos % 64)))
          (get_elem?-lt bits (pos / 64) e),
      bit_or-keeps (q % 64) w (2 ^ (pos % 64)),
      ap (get_elem? bits) ((==_iff (pos / 64) (q / 64)).0 same),
      ap (get_elem? (set bits (pos / 64) (bit_or w (2 ^ (pos % 64)))))
          ((==_iff (pos / 64) (q / 64)).0 same),
    )
    | inr other ↦ ground (
      arith,
      get_elem?-set_ne bits (pos / 64) (q / 64) (bit_or w (2 ^ (pos % 64))) (ground arith),
    )
  ]
]

module _ (size : ℕ) where
  test_bits_keep :
      (hash pos : ℕ) (seeds bits bits' : List ℕ)
      → set_bit bits pos ≡ some bits'
      → test_bits size hash seeds bits ≡ some true
      → test_bits size hash seeds bits' ≡ some true
  unfolding test_bits hash_with_seed
  test_bits_keep hash pos [] bits bits' h t = refl
  test_bits_keep hash pos (seed ∷ seeds) bits bits' h t = ground (
    arith,
    set_bit_keeps bits bits' pos (bit_xor hash seed % size) h,
    test_bits_keep hash pos seeds bits bits' h,
  )

  -- The first step of an addition that does not panic.
  set_bits_inv :
      (hash seed : ℕ) (seeds bits bits' : List ℕ)
      → set_bits size hash (seed ∷ seeds) bits ≡ some bits'
      → (mid : List ℕ) × ((size == 0) ≡ false)
        × (set_bit bits (bit_xor hash seed % size) ≡ some mid)
        × (set_bits size hash seeds mid ≡ some bits')
  unfolding set_bits hash_with_seed
  set_bits_inv hash seed seeds bits bits' h =
      elim (Option-cases (set_bit bits (bit_xor hash seed % size))) [
        | inl e ↦ absurd (ground arith)
        | inr (mid, e) ↦ (mid, ground arith, e, ground arith)
      ]

  -- An addition keeps all that tested positive before.
  set_bits_keep :
      (hash hash' : ℕ) (seeds seeds' bits bits' : List ℕ)
      → set_bits size hash seeds bits ≡ some bits'
      → test_bits size hash' seeds' bits ≡ some true
      → test_bits size hash' seeds' bits' ≡ some true
  unfolding set_bits
  set_bits_keep hash hash' [] seeds' bits bits' h t = ground arith
  set_bits_keep hash hash' (seed ∷ seeds) seeds' bits bits' h t =
      let (mid, _, first, rest) = set_bits_inv hash seed seeds bits bits' h in
      set_bits_keep hash hash' seeds seeds' mid bits' rest
        (test_bits_keep hash' (bit_xor hash seed % size) seeds' bits mid first t)

  set_bits-test :
      (hash : ℕ) (seeds bits bits' : List ℕ)
      → set_bits size hash seeds bits ≡ some bits'
      → test_bits size hash seeds bits' ≡ some true
  unfolding set_bits test_bits hash_with_seed
  set_bits-test hash [] bits bits' h = refl
  set_bits-test hash (seed ∷ seeds) bits bits' h =
      let (mid, positive, first, rest) = set_bits_inv hash seed seeds bits bits' h in
      let here : test_bits size hash (seed ∷ []) mid ≡ some true =
        ground (arith, set_bit-test bits mid (bit_xor hash seed % size) first) in
      let there = set_bits_keep hash hash seeds (seed ∷ []) mid bits' rest here in
      ground (arith, there, set_bits-test hash seeds mid bits' rest)

  -- With positions and a word for each of them nothing panics.
  set_bits_total :
      (hash : ℕ) (seeds bits : List ℕ)
      → 0 < size
      → size ≤ length bits * 64
      → (bits' : List ℕ) × (set_bits size hash seeds bits ≡ some bits')
        × (length bits' ≡ length bits)
  unfolding set_bits hash_with_seed set_bit
  set_bits_total hash [] bits p c = (bits, refl, refl)
  set_bits_total hash (seed ∷ seeds) bits p c =
      let pos : ℕ = bit_xor hash seed % size in
      let below : pos < size = grind arith in
      let (w, e) = get_elem?-some bits (pos / 64) (omega arith) in
      let mid = set bits (pos / 64) (bit_or w (2 ^ (pos % 64))) in
      let same = length-set bits (pos / 64) (bit_or w (2 ^ (pos % 64))) in
      let (bits', rest, len) = set_bits_total hash seeds mid p (omega (arith, same)) in
      (bits', ground (arith, e, rest), len ∙ same)

  test_bits_total :
      (hash : ℕ) (seeds bits : List ℕ)
      → 0 < size
      → size ≤ length bits * 64
      → (b : Bool) × (test_bits size hash seeds bits ≡ some b)
  unfolding test_bits hash_with_seed test_bit
  test_bits_total hash [] bits p c = (true, refl)
  test_bits_total hash (seed ∷ seeds) bits p c =
      let pos : ℕ = bit_xor hash seed % size in
      let below : pos < size = grind arith in
      let (w, e) = get_elem?-some bits (pos / 64) (omega arith) in
      let (b, rest) = test_bits_total hash seeds bits p c in
      elim (Bool-cases (bit_and w (2 ^ (pos % 64)) == 0)) [
        | inl clear ↦ (false, ground (arith, e))
        | inr here ↦ (b, ground (arith, e, rest))
      ]

-- The texts, added one after the other.
unfoldable pub add_all : Fnv → List Bytes → BloomFilter → Option BloomFilter
add_all fnv [] bf = some bf
add_all fnv (t ∷ ts) bf = do bf' ← add fnv t bf; add_all fnv ts bf'

pub new_bloom_filter-IsValid :
    (size n : ℕ) → 0 < size → size + 63 < word → IsValid (new_bloom_filter size n)
unfolding new_bloom_filter
new_bloom_filter-IsValid size n p h = record {
  positive = p;
  covered = omega (arith, length-replicate ((size + 63) % word / 64) zero);
}

-- A test of a valid filter does not panic.
pub test_total :
    (hash : ℕ) (bf : BloomFilter)
    → IsValid bf
    → (b : Bool) × (test_with_precomputed_hash hash bf ≡ some b)
unfolding test_with_precomputed_hash
test_total hash bf v = test_bits_total bf.size hash bf.seeds bf.bits v.positive v.covered

module _ (fnv : Fnv) where
  pub add_total :
      (t : Bytes) (bf : BloomFilter)
      → IsValid bf
      → (bf' : BloomFilter) × (add fnv t bf ≡ some bf') × IsValid bf'
  unfolding add
  add_total t bf v =
      let (bits, e, same) =
        set_bits_total bf.size (fnv.sum64 t) bf.seeds bf.bits v.positive v.covered in
      (
        record bf { bits = bits },
        rw e,
        record { positive = v.positive; covered = omega (arith, same, v.covered) },
      )

  add_inv :
      (t : Bytes) (bf bf' : BloomFilter)
      → add fnv t bf ≡ some bf'
      → (bits : List ℕ) × (set_bits bf.size (fnv.sum64 t) bf.seeds bf.bits ≡ some bits)
        × (record bf { bits = bits } ≡ bf')
  unfolding add
  add_inv t bf bf' h = elim (Option-cases (set_bits bf.size (fnv.sum64 t) bf.seeds bf.bits)) [
    | inl e ↦ absurd (ground arith)
    | inr (bits, e) ↦ (bits, e, ground arith)
  ]

  add_keeps :
      (s t : Bytes) (bf bf' : BloomFilter)
      → add fnv t bf ≡ some bf'
      → test fnv s bf ≡ some true
      → test fnv s bf' ≡ some true
  unfolding test
  add_keeps s t bf bf' h k =
      let (bits, e, same) = add_inv t bf bf' h in
      subst (λ b. test fnv s b ≡ some true) same
        (set_bits_keep bf.size (fnv.sum64 t) (fnv.sum64 s) bf.seeds bf.seeds bf.bits bits e k)

  add-test :
      (t : Bytes) (bf bf' : BloomFilter) → add fnv t bf ≡ some bf' → test fnv t bf' ≡ some true
  unfolding test
  add-test t bf bf' h =
      let (bits, e, same) = add_inv t bf bf' h in
      subst (λ b. test fnv t b ≡ some true) same
        (set_bits-test bf.size (fnv.sum64 t) bf.seeds bf.bits bits e)

  add_all_keeps :
      (s : Bytes) (ts : List Bytes) (bf bf' : BloomFilter)
      → add_all fnv ts bf ≡ some bf'
      → test fnv s bf ≡ some true
      → test fnv s bf' ≡ some true
  unfolding add_all
  add_all_keeps s [] bf bf' h k = ground arith
  add_all_keeps s (t ∷ ts) bf bf' h k = elim (Option-cases (add fnv t bf)) [
    | inl e ↦ absurd (ground arith)
    | inr (mid, e) ↦ add_all_keeps s ts mid bf' (ground arith) (add_keeps s t bf mid e k)
  ]

  add_all-test_from :
      (ts : List Bytes) (bf : BloomFilter)
      → IsValid bf
      → (bf' : BloomFilter) × (add_all fnv ts bf ≡ some bf')
        × All (λ t. test fnv t bf' ≡ some true) ts
  unfolding add_all
  add_all-test_from [] bf v = (bf, refl, tt)
  add_all-test_from (t ∷ ts) bf v =
      let (mid, e, v') = add_total t bf v in
      let (bf', rest, all) = add_all-test_from ts mid v' in
      (bf', rw e rest, (add_all_keeps t ts mid bf' rest (add-test t bf mid e), all))

  -- No false negatives: the texts that were added to a new filter all test positive, and neither
  -- the additions nor the tests panic, for every positive size below the largest.
  pub add_all-test :
      (size num_hash_funcs : ℕ) (ts : List Bytes)
      → 0 < size
      → size + 63 < word
      → (bf : BloomFilter) × (add_all fnv ts (new_bloom_filter size num_hash_funcs) ≡ some bf)
        × All (λ t. test fnv t bf ≡ some true) ts
  add_all-test size n ts p h =
      add_all-test_from ts (new_bloom_filter size n) (new_bloom_filter-IsValid size n p h)

  -- The test by a hash that the caller has computed is the test of the text.
  test_with_precomputed_hash-test :
      (t : Bytes) (bf : BloomFilter)
      → test_with_precomputed_hash (hash_from fnv_offset_basis t) bf ≡ test fnv t bf
  unfolding test_with_precomputed_hash test
  test_with_precomputed_hash-test t bf = rw (fnv.sum64_lem t)

  -- The same of a hash that was computed elsewhere.
  pub add_keeps_hash :
      (hash : ℕ) (t : Bytes) (bf bf' : BloomFilter)
      → add fnv t bf ≡ some bf'
      → test_with_precomputed_hash hash bf ≡ some true
      → test_with_precomputed_hash hash bf' ≡ some true
  unfolding test_with_precomputed_hash
  add_keeps_hash hash t bf bf' h k =
      let (bits, e, same) = add_inv t bf bf' h in
      subst (λ b. test_with_precomputed_hash hash b ≡ some true) same
        (set_bits_keep bf.size (fnv.sum64 t) hash bf.seeds bf.seeds bf.bits bits e k)

  pub add-test_hash :
      (t : Bytes) (bf bf' : BloomFilter)
      → add fnv t bf ≡ some bf'
      → test_with_precomputed_hash (fnv.sum64 t) bf' ≡ some true
  unfolding test test_with_precomputed_hash
  add-test_hash t bf bf' h = add-test t bf bf' h
