-- ===== src/Memory/Pool.antt =====
-- The pool gives no block twice, and gives one as long as one is free.
use pquic.Base.{
  ℕ, ◌+◌, ◌-◌, ◌/◌, ◌≤◌, ◌<◌, ◌≡◌, ◌⊎◌, inl, inr, refl, ap, sym, ◌∙◌, Bool, true, false, ◌&&◌, ◌||◌,
  Option, none, some, List, [], ◌∷◌, ◌++◌, length, set, arith, ltb, leb, ◌==◌, if◌then◌else◌,
  Bool-cases, le→ltb, lt→ltb, not, length-append,
}
use mathlib.Core.Path.{subst}
use native.Mathlib.Decide.{dec_lt}
use pquic.Memory.Chain.{
  is_in, IsChain, length-set, get_elem?-set, IsChain-set, is_in-append, IsChain-append,
}
use pquic.Memory.{
  MemoryPool, magic_number, init_block_memory_management, initialize, take_block, malloc_block,
  following, free_block,
}

-- The chain from `next` holds the free blocks that were in use before; behind it lie the blocks that
-- never were. The number of both is num_free_blocks, and `next` is NULL if there is none.
abbrev pub IsPool : MemoryPool → ℕ → List ℕ → Type 0
IsPool mp start free =
    (length mp.words ≡ mp.num_of_blocks)
    × (mp.num_initialized ≤ mp.num_of_blocks)
    × (mp.num_free_blocks ≡ length free + (mp.num_of_blocks - mp.num_initialized))
    × (mp.next ≡ (if mp.num_free_blocks == 0 then none else some start))
    × IsChain mp.words mp.num_initialized start free

-- A block is free if it is in the chain or was never in use.
abbrev pub is_free : MemoryPool → List ℕ → ℕ → Bool
is_free mp free i = is_in free i || (leb mp.num_initialized i && ltb i mp.num_of_blocks)

-- The free blocks stay the same, and stand in the chain if there is any.
abbrev IsReady : MemoryPool → List ℕ → MemoryPool → ℕ → List ℕ → Type 0
IsReady mp free mp' start free' =
    IsPool mp' start free'
    × (mp'.num_free_blocks ≡ mp.num_free_blocks)
    × (mp'.num_of_blocks ≡ mp.num_of_blocks)
    × ((i : ℕ) → is_free mp' free' i ≡ is_free mp free i)
    × (0 < mp.num_free_blocks → 0 < length free')

joined_free :
    (b : Bool) (u n i : ℕ)
    → u < n
    → ((b || u == i) || (leb (u + 1) i && ltb i n)) ≡ (b || (leb u i && ltb i n))
joined_free b u n i h = ground arith

initialize-IsReady :
    (mp : MemoryPool) (start : ℕ) (free : List ℕ)
    → IsPool mp start free
    → (free' : List ℕ) × IsReady mp free (initialize mp) start free'
unfolding initialize
initialize-IsReady mp start free (l, u, n, x, c) =
    elim (dec_lt mp.num_initialized mp.num_of_blocks) [
      | yes h ↦ rw (lt→ltb mp.num_initialized mp.num_of_blocks h) (
        free ++ (mp.num_initialized ∷ []),
        (
          (
            length-set mp.words mp.num_initialized _ ∙ l,
            omega arith,
            omega (arith, length-append free (mp.num_initialized ∷ [])),
            x,
            IsChain-append mp.words mp.num_initialized start free (omega arith) c,
          ),
          refl,
          refl,
          λ i.
              ap (λ b. b || (leb (mp.num_initialized + 1) i && ltb i mp.num_of_blocks))
                (is_in-append free mp.num_initialized i)
              ∙ joined_free (is_in free i) mp.num_initialized mp.num_of_blocks i h,
          λ k. omega (arith, length-append free (mp.num_initialized ∷ [])),
        ),
      )
      | no h ↦
          rw (le→ltb mp.num_initialized mp.num_of_blocks (omega arith))
            (free, ((l, u, n, x, c), refl, refl, λ i. refl, λ k. omega arith))
    ]

-- A block is given: it was free and is no longer, and no other changes.
abbrev pub IsGiven : MemoryPool → List ℕ → Option (Option ℕ × MemoryPool) → Type 0
IsGiven mp free r =
    (i : ℕ) × (mp' : MemoryPool) × (start : ℕ) × (free' : List ℕ) × (r ≡ some (some i, mp'))
    × IsPool mp' start free'
    × (is_free mp free i ≡ true)
    × ((j : ℕ) → is_free mp' free' j ≡ (is_free mp free j && not (i == j)))

taken_free :
    (u n i j : ℕ) (l : List ℕ)
    → i < u
    → is_in l i ≡ false
    → (is_in l j || (leb u j && ltb j n))
      ≡ (((i == j || is_in l j) || (leb u j && ltb j n)) && not (i == j))
taken_free u n i j l h k = elim (Bool-cases (i == j)) [
  | inl same ↦
      let e : i ≡ j = ground arith in
      let gone : is_in l j ≡ false = subst (λ m. is_in l m ≡ false) e k in
      rw (same, gone) (ground arith)
  | inr apart ↦ rw apart (ground arith)
]

take_block-IsGiven :
    (mp : MemoryPool) (start : ℕ) (free : List ℕ)
    → IsPool mp start free
    → 0 < length free
    → IsGiven mp free (take_block mp)
unfolding take_block
take_block-IsGiven mp start [] p h = absurd (omega arith)
take_block-IsGiven mp start (f ∷ free) (l, u, n, x, (s, b, d, (w, e, c))) h =
    let some_left : (mp.num_free_blocks == 0) ≡ false = ground arith in
    let first : mp.next ≡ some f = x ∙ rw (some_left, s) refl in
    let rest : MemoryPool = record mp {
      words = set mp.words f magic_number;
      num_free_blocks = mp.num_free_blocks - 1;
      next = if ltb 1 mp.num_free_blocks then some w else none;
    } in
    (
      f,
      rest,
      w,
      free,
      rw (take_block, first, e) refl,
      (
        length-set mp.words f magic_number ∙ l,
        u,
        omega arith,
        ground arith,
        IsChain-set mp.words mp.num_initialized w f magic_number free d c,
      ),
      ground arith,
      λ j. taken_free mp.num_initialized mp.num_of_blocks f j free b d,
    )

from_ready :
    (mp ready : MemoryPool) (start : ℕ) (free free' : List ℕ) (r : Option (Option ℕ × MemoryPool))
    → IsReady mp free ready start free'
    → IsGiven ready free' r
    → IsGiven mp free r
from_ready mp ready start free free' r (p, q, t, same, k)
      (i, mp', start', free'', e, p', was, now) =
    (
      i,
      mp',
      start',
      free'',
      e,
      p',
      sym (same i) ∙ was,
      λ j. now j ∙ ap (λ b. b && not (i == j)) (same j),
    )

-- In a pool in order that has a free block a request that fits a block gets one that was free: it is
-- free no longer, no other block changes, and the pool stays in order.
pub malloc_block-IsGiven :
    (mp : MemoryPool) (start size : ℕ) (free : List ℕ)
    → IsPool mp start free
    → size ≤ mp.size_of_each_block - 8
    → 0 < mp.num_free_blocks
    → IsGiven mp free (malloc_block mp size)
unfolding malloc_block
malloc_block-IsGiven mp start size free p fits left =
    let (free', ready) = initialize-IsReady mp start free p in
    let given = take_block-IsGiven (initialize mp) start free' ready.0 (ready.4 left) in
    rw
      (
        malloc_block,
        le→ltb (mp.size_of_each_block - 8) size fits,
        lt→ltb 0 (initialize mp).num_free_blocks (omega (arith, ready.1)),
      )
      (from_ready mp (initialize mp) start free free' (take_block (initialize mp)) ready given)

freed_free :
    (b : Bool) (u n i j : ℕ)
    → ((i == j || b) || (leb u j && ltb j n)) ≡ ((b || (leb u j && ltb j n)) || i == j)
freed_free b u n i j = ground arith

some_more : (n : ℕ) → (n + 1 == 0) ≡ false
some_more n = ground arith

end_of_chain :
    (words : List ℕ) (n u start left : ℕ) (free : List ℕ)
    → u ≤ n
    → left ≡ length free + (n - u)
    → left ≡ 0
    → IsChain words u start free
    → n ≡ start
end_of_chain words n u start left [] h e z c = omega (arith, c)
end_of_chain words n u start left (f ∷ free) h e z c = absurd (omega arith)

-- The chain goes on where it began, also from NULL.
following-start :
    (mp : MemoryPool) (start : ℕ) (free : List ℕ)
    → IsPool mp start free
    → following mp.num_of_blocks mp.next ≡ start
following-start mp start free (l, u, n, x, c) = elim (Bool-cases (mp.num_free_blocks == 0)) [
  | inr some_left ↦
      let e : mp.next ≡ some start = x ∙ rw some_left refl in ap (following mp.num_of_blocks) e
  | inl all_used ↦
      let e : mp.next ≡ none = x ∙ rw all_used refl in
      ap (following mp.num_of_blocks) e
      ∙ end_of_chain mp.words mp.num_of_blocks mp.num_initialized start mp.num_free_blocks free u n
          (ground arith) c
]

-- In a pool in order a block that was in use is free after free_block, no other block changes, and the
-- pool stays in order.
pub free_block-IsPool :
    (mp : MemoryPool) (start i : ℕ) (free : List ℕ)
    → IsPool mp start free
    → i < mp.num_of_blocks
    → is_free mp free i ≡ false
    → IsPool (free_block mp i) i (i ∷ free)
      × ((j : ℕ) → is_free (free_block mp i) (i ∷ free) j ≡ (is_free mp free j || i == j))
unfolding free_block
free_block-IsPool mp start i free (l, u, n, x, c) inside used =
    let fresh : is_in free i ≡ false = ground arith in
    let below : i < mp.num_initialized = ground arith in
    let w = following mp.num_of_blocks mp.next in
    let e = following-start mp start free (l, u, n, x, c) in
    (
      (
        length-set mp.words i w ∙ l,
        u,
        omega arith,
        rw (some_more mp.num_free_blocks) refl,
        (
          refl,
          below,
          fresh,
          (
            w,
            get_elem?-set mp.words i w (omega arith),
            subst (λ v. IsChain (set mp.words i w) mp.num_initialized v free) (sym e)
                (IsChain-set mp.words mp.num_initialized start i w free fresh c),
          ),
        ),
      ),
      λ j. freed_free (is_in free j) mp.num_initialized mp.num_of_blocks i j,
    )

no_blocks : (n : ℕ) → 0 < n → (n == 0) ≡ false
no_blocks n h = ground arith

-- In a memory of at least one block, whatever is in it, the pool begins in order, with every block
-- free.
pub init_block_memory_management-IsPool :
    (plugin_memory : ℕ) (memory : List ℕ)
    → length memory ≡ plugin_memory / 2100
    → 0 < length memory
    → let mp = init_block_memory_management plugin_memory memory in
      IsPool mp 0 [] × ((i : ℕ) → i < mp.num_of_blocks → is_free mp [] i ≡ true)
unfolding init_block_memory_management
init_block_memory_management-IsPool plugin_memory memory l h =
    let some_block = no_blocks (plugin_memory / 2100) (omega arith) in
    ((l, omega arith, omega arith, rw some_block refl, refl), λ i k. ground arith)

-- Where no block of a pool in order is free, or where the request does not fit a block, NULL is
-- returned and the pool stays as it is.
pub malloc_block_refused :
    (mp : MemoryPool) (start size : ℕ) (free : List ℕ)
    → IsPool mp start free
    → (mp.size_of_each_block - 8 < size) ⊎ (mp.num_free_blocks ≡ 0)
    → malloc_block mp size ≡ some (none, mp)
unfolding malloc_block initialize
malloc_block_refused mp start size free (l, u, n, x, c) why = ground arith
