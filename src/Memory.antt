-- ===== src/Memory.antt =====
-- picoquic/memory.c, the pool of fixed blocks that a plugin allocates from. A pointer to a block is the
-- block's index, and `words` are the first eight bytes of every block: the index of the next free
-- block while the block is free, and a magic number while it is in use.
pub mod Chain
pub mod Pool
use pquic.Base.{
  ℕ, zero, suc, ◌+◌, ◌-◌, ◌*◌, ◌/◌, Bool, Option, none, some, List, [], ◌∷◌, length, get_elem?, set,
  ltb, if◌then◌else◌,
}

abbrev pub magic_number : ℕ
magic_number = 0xa110ca7ab1e

-- memory_pool_t, and the memory
pub record MemoryPool : Type 0 where
  pub num_of_blocks : ℕ
  pub size_of_each_block : ℕ
  pub num_free_blocks : ℕ
  pub num_initialized : ℕ
  pub next : Option ℕ
  pub words : List ℕ

-- The pool over `plugin_memory` bytes, whose blocks have 2100 bytes, with what is in their words.
unfoldable pub init_block_memory_management : ℕ → List ℕ → MemoryPool
init_block_memory_management plugin_memory memory = record {
  num_of_blocks = plugin_memory / 2100;
  size_of_each_block = 2100;
  num_free_blocks = plugin_memory / 2100;
  num_initialized = 0;
  next = some 0;
  words = memory;
}

-- One more block gets its place in the list of free blocks.
unfoldable pub initialize : MemoryPool → MemoryPool
initialize mp =
    if ltb mp.num_initialized mp.num_of_blocks
    then record mp {
      words = set mp.words mp.num_initialized (mp.num_initialized + 1);
      num_initialized = mp.num_initialized + 1;
    }
    else mp

-- The first free block; `none` is an access outside the pool.
unfoldable pub take_block : MemoryPool → Option (Option ℕ × MemoryPool)
take_block mp = elim mp.next [
  | none ↦ none
  | some i ↦ elim (get_elem? mp.words i) [
    | none ↦ none
    | some word ↦ some (
      some i,
      record mp {
        words = set mp.words i magic_number;
        num_free_blocks = mp.num_free_blocks - 1;
        next = if ltb 1 mp.num_free_blocks then some word else none;
      },
    )
  ]
]

-- The block, or NULL.
unfoldable pub malloc_block : MemoryPool → ℕ → Option (Option ℕ × MemoryPool)
malloc_block mp size =
    let ready = initialize mp in
    if ltb (mp.size_of_each_block - 8) size
    then some (none, mp)
    else (if ltb 0 ready.num_free_blocks then take_block ready else some (none, ready))

-- What a block that is freed keeps in its word.
abbrev pub following : ℕ → Option ℕ → ℕ
following num_of_blocks none = num_of_blocks
following num_of_blocks (some next) = next

-- The block of a pointer that malloc_block returned.
unfoldable pub free_block : MemoryPool → ℕ → MemoryPool
free_block mp i = record mp {
  words = set mp.words i (following mp.num_of_blocks mp.next);
  next = some i;
  num_free_blocks = mp.num_free_blocks + 1;
}

unfoldable pub realloc_block : MemoryPool → ℕ → ℕ → Option ℕ × MemoryPool
realloc_block mp i size =
    if ltb (mp.size_of_each_block - 8) size then (none, free_block mp i) else (some i, mp)
