-- ===== src/Tests/Pools.antt =====
-- Runs of the pool of blocks.
use pquic.Base.{ℕ, ◌≡◌, refl, ◌||◌, ◌==◌, none, some, [], ◌∷◌, arith}
use pquic.Memory.{MemoryPool, magic_number, malloc_block, free_block}
use pquic.Memory.Pool.{IsPool, IsGiven, is_free, malloc_block-IsGiven, free_block-IsPool}

-- Of three blocks the first two were in use, and the first was given back.
abbrev pool : MemoryPool
pool = record {
  num_of_blocks = 3;
  size_of_each_block = 2100;
  num_free_blocks = 2;
  num_initialized = 2;
  next = some 0;
  words = 2 ∷ magic_number ∷ 0 ∷ [];
}

pool-IsPool : IsPool pool 0 (0 ∷ [])
pool-IsPool = (refl, omega arith, refl, refl, (refl, omega arith, refl, (2, refl, refl)))

abbrev full_pool : MemoryPool
full_pool = record pool {
  num_free_blocks = 0;
  num_initialized = 3;
  next = none;
  words = magic_number ∷ magic_number ∷ magic_number ∷ [];
}

malloc_block-IsGiven_example : IsGiven pool (0 ∷ []) (malloc_block pool 100)
malloc_block-IsGiven_example =
    malloc_block-IsGiven pool 0 100 (0 ∷ []) pool-IsPool (omega arith) (omega arith)

free_block-IsPool_example :
    IsPool (free_block pool 1) 1 (1 ∷ 0 ∷ [])
    × ((j : ℕ) → is_free (free_block pool 1) (1 ∷ 0 ∷ []) j ≡ (is_free pool (0 ∷ []) j || 1 == j))
free_block-IsPool_example = free_block-IsPool pool 0 1 (0 ∷ []) pool-IsPool (omega arith) refl
