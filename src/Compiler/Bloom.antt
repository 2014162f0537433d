-- ===== src/Compiler/Bloom.antt =====
-- The bloom filter (router/compiler/bloom.go). `none` is a panic: an index out of range, or a
-- remainder by a size of zero.
pub mod Membership
use Prim.Native.Nat.{bit_and, bit_or, bit_xor}
use rivaas.Prelude.{
  ℕ, zero, suc, ◌+◌, ◌*◌, ◌/◌, ◌%◌, ◌^◌, ◌≤◌, ◌<◌, ◌≡◌, Bool, true, false, List, [], ◌∷◌, Option,
  none, some, ◌==◌, if◌then◌else◌, ◌>>=◌, length, get_elem?, set, replicate, Bytes,
}
use rivaas.Compiler.Fnv.{Fnv, word}

pub record BloomFilter : Type 0 where
  pub bits : List ℕ
  pub size : ℕ
  pub seeds : List ℕ

-- The seeds i + 1, …, i + n.
unfoldable pub seeds_from : ℕ → ℕ → List ℕ
seeds_from i zero = []
seeds_from i (suc n) = (i + 1) % word ∷ seeds_from (i + 1) n

-- NewBloomFilter
unfoldable pub new_bloom_filter : ℕ → ℕ → BloomFilter
unfolding seeds_from
new_bloom_filter size num_hash_funcs = record {
  bits = replicate ((size + 63) % word / 64) 0;
  size = size;
  seeds = seeds_from 0 num_hash_funcs;
}

unfoldable pub hash_with_seed : ℕ → ℕ → ℕ → Option ℕ
hash_with_seed size base_hash seed =
    if size == 0 then none else some (bit_xor base_hash seed % size)

-- bits[pos/64] |= 1 << (pos % 64)
unfoldable pub set_bit : List ℕ → ℕ → Option (List ℕ)
set_bit bits pos = elim (get_elem? bits (pos / 64)) [
  | none ↦ none
  | some w ↦ some (set bits (pos / 64) (bit_or w (2 ^ (pos % 64))))
]

-- bits[pos/64] & (1 << (pos % 64)) != 0
unfoldable pub test_bit : List ℕ → ℕ → Option Bool
test_bit bits pos = elim (get_elem? bits (pos / 64)) [
  | none ↦ none
  | some w ↦ some (if bit_and w (2 ^ (pos % 64)) == 0 then false else true)
]

-- The loop of `Add` over the seeds.
unfoldable pub set_bits : ℕ → ℕ → List ℕ → List ℕ → Option (List ℕ)
unfolding hash_with_seed set_bit
set_bits size base_hash [] bits = some bits
set_bits size base_hash (seed ∷ seeds) bits = do
  pos ← hash_with_seed size base_hash seed
  bits' ← set_bit bits pos
  set_bits size base_hash seeds bits'

-- The loop of `Test`, which ends at the first bit that is not set.
unfoldable pub test_bits : ℕ → ℕ → List ℕ → List ℕ → Option Bool
unfolding hash_with_seed test_bit
test_bits size base_hash [] bits = some true
test_bits size base_hash (seed ∷ seeds) bits = do
  pos ← hash_with_seed size base_hash seed
  here ← test_bit bits pos
  elim here [ true ↦ test_bits size base_hash seeds bits | false ↦ some false ]

-- TestWithPrecomputedHash
unfoldable pub test_with_precomputed_hash : ℕ → BloomFilter → Option Bool
unfolding test_bits
test_with_precomputed_hash base_hash bf = test_bits bf.size base_hash bf.seeds bf.bits

module _ (fnv : Fnv) where
  unfoldable pub add : Bytes → BloomFilter → Option BloomFilter
  unfolding set_bits
  add text bf = do
    bits ← set_bits bf.size (fnv.sum64 text) bf.seeds bf.bits
    some (record bf { bits = bits })

  unfoldable pub test : Bytes → BloomFilter → Option Bool
  unfolding test_bits
  test text bf = test_bits bf.size (fnv.sum64 text) bf.seeds bf.bits

-- There is a word for every position, and there are positions.
pub record IsValid (bf : BloomFilter) : Type 0 where
  pub positive : 0 < bf.size
  pub covered : bf.size ≤ length bf.bits * 64
