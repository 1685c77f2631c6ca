-- ===== src/Queue/Refinement.antt =====
-- picoquic/queue.c, the queue as a list.
use mathlib.Core.Path.{subst}
use mathlib.Core.Option.{some-injective}
use pquic.Base.{
  ℕ, suc, ◌-◌, ◌≡◌, ◌≢◌, refl, sym, ◌∙◌, true, false, Option, none, some, List, [], ◌∷◌, ◌++◌, All,
  ◌==◌, length, drop, if◌then◌else◌, arith, length-append,
}
use pquic.Queue.{QueueNode, Queue, Heap, write, link_last, queue_enqueue, same_ptr, queue_dequeue}

-- From the pointer on there are the nodes at these addresses, with these data.
abbrev pub IsChain : Heap → Option ℕ → List (ℕ × ℕ) → Type 0
IsChain heap p [] = p ≡ none
IsChain heap p ((a, d) ∷ cells) =
    (p ≡ some a)
    × (next : Option ℕ) × (heap a ≡ some (record { data_ptr = d; next = next }))
    × IsChain heap next cells

abbrev last_address : List (ℕ × ℕ) → Option ℕ
last_address [] = none
last_address ((a, d) ∷ []) = some a
last_address (c ∷ c' ∷ cells) = last_address (c' ∷ cells)

abbrev IsDistinct : List (ℕ × ℕ) → Type 0
IsDistinct [] = Unit
IsDistinct (c ∷ cells) = All (λ (b : ℕ × ℕ). b.0 ≢ c.0) cells × IsDistinct cells

-- The queue is the chain of these cells, each at an address of its own.
pub record IsQueue (heap : Heap) (q : Queue) (cells : List (ℕ × ℕ)) : Type 0 where
  pub chain : IsChain heap q.head cells
  pub ends : q.tail ≡ last_address cells
  pub distinct : IsDistinct cells
  pub counted : q.size ≡ length cells

write_same : (heap : Heap) (a : ℕ) (content : Option QueueNode) → write heap a content a ≡ content
write_same heap a content = ground arith

write_other :
    (heap : Heap) (a b : ℕ) (content : Option QueueNode) → b ≢ a → write heap a content b ≡ heap b
write_other heap a b content h = ground arith

-- A content elsewhere changes nothing.
IsChain-write :
    (heap : Heap) (a : ℕ) (content : Option QueueNode) (p : Option ℕ) (cells : List (ℕ × ℕ))
    → All (λ (b : ℕ × ℕ). b.0 ≢ a) cells
    → IsChain heap p cells
    → IsChain (write heap a content) p cells
IsChain-write heap a content p [] h c = c
IsChain-write heap a content p ((b, d) ∷ cells) h (e, next, at, c) =
    (e, next, write_other heap a b content h.0 ∙ at, IsChain-write heap a content next cells h.1 c)

dequeue_at :
    (heap : Heap) (q : Queue) (a : ℕ) (node : QueueNode)
    → q.head ≡ some a
    → heap a ≡ some node
    → queue_dequeue heap q
      ≡ some (
        write heap a none,
        if same_ptr (some a) q.tail
            then record { head = none; tail = none; size = q.size - 1 }
            else record { head = node.next; tail = q.tail; size = q.size - 1 },
        some node.data_ptr,
      )
unfolding queue_dequeue
dequeue_at heap q a node e at = rw (queue_dequeue, e, at, e) refl

same_self : (a : ℕ) → same_ptr (some a) (some a) ≡ true
unfolding same_ptr
same_self a = ground arith

last_address-other :
    (a : ℕ) (c : ℕ × ℕ) (cells : List (ℕ × ℕ))
    → All (λ (b : ℕ × ℕ). b.0 ≢ a) (c ∷ cells)
    → same_ptr (some a) (last_address (c ∷ cells)) ≡ false
unfolding same_ptr
last_address-other a c [] h = ground (arith, h.0)
last_address-other a c (c' ∷ cells) h = last_address-other a c' cells h.1

abbrev pub first_data : List (ℕ × ℕ) → Option ℕ
first_data [] = none
first_data ((a, d) ∷ cells) = some d

-- What is allocated behind a change of the heap: the node of the first cell no more, all else as before.
abbrev pub Frees : Heap → List (ℕ × ℕ) → Heap → Type 0
Frees heap [] heap' = (b : ℕ) → heap' b ≡ heap b
Frees heap ((a, d) ∷ cells) heap' = (b : ℕ) → heap' b ≡ (if a == b then none else heap b)

-- Where the queue is the chain of some cells, taking an element off returns the data of the first cell and
-- leaves the chain of the others; the node of the first cell is freed, and every other address holds what it
-- held. From the empty queue nothing is taken, it stays empty, and no address changes.
pub queue_dequeue-IsQueue :
    (heap : Heap) (q : Queue) (cells : List (ℕ × ℕ))
    → IsQueue heap q cells
    → (heap' : Heap) × (q' : Queue) × (queue_dequeue heap q ≡ some (heap', q', first_data cells))
      × IsQueue heap' q' (drop 1 cells)
      × Frees heap cells heap'
unfolding queue_dequeue same_ptr
queue_dequeue-IsQueue heap q [] k = (heap, q, simp (queue_dequeue, k.chain) refl, k, λ b. refl)
queue_dequeue-IsQueue heap q ((a, d) ∷ []) k =
    let (e, next, at, c) = k.chain in
    (
      write heap a none,
      record { head = none; tail = none; size = q.size - 1 },
      dequeue_at heap q a (record { data_ptr = d; next = next }) e at
          ∙ rw (k.ends, same_self a) refl,
      record { chain = refl; ends = refl; distinct = tt; counted = omega (arith, k.counted) },
      λ b. refl,
    )
queue_dequeue-IsQueue heap q ((a, d) ∷ c ∷ cells) k =
    let (e, next, at, rest) = k.chain in
    (
      write heap a none,
      record { head = next; tail = q.tail; size = q.size - 1 },
      dequeue_at heap q a (record { data_ptr = d; next = next }) e at
          ∙ rw (k.ends, last_address-other a c cells k.distinct.0) refl,
      record {
        chain = IsChain-write heap a none next (c ∷ cells) k.distinct.0 rest;
        ends = k.ends;
        distinct = k.distinct.1;
        counted = omega (arith, k.counted);
      },
      λ b. refl,
    )

last_address-All :
    (P : ℕ → Type 0) (cells : List (ℕ × ℕ)) (t : ℕ)
    → All (λ (b : ℕ × ℕ). P b.0) cells
    → last_address cells ≡ some t
    → P t
last_address-All P [] t h e = cc
last_address-All P ((a, d) ∷ []) t h e = subst P (some-injective a t e) h.0
last_address-All P (c ∷ c' ∷ cells) t h e = last_address-All P (c' ∷ cells) t h.1 e

-- The chain with the new node behind its last one.
abbrev IsLinked : Heap → ℕ → ℕ → Option ℕ → List (ℕ × ℕ) → Type 0
IsLinked heap n d p cells =
    (t : ℕ) × (node : QueueNode) × (last_address cells ≡ some t)
    × (write heap n (some (record { data_ptr = d; next = none })) t ≡ some node)
    × IsChain
        (write (write heap n (some (record { data_ptr = d; next = none }))) t
          (some (record node { next = some n })))
        p (cells ++ ((n, d) ∷ []))

chain-IsLinked :
    (heap : Heap) (n d : ℕ) (p : Option ℕ) (c : ℕ × ℕ) (cells : List (ℕ × ℕ))
    → IsChain heap p (c ∷ cells)
    → All (λ (b : ℕ × ℕ). b.0 ≢ n) (c ∷ cells)
    → IsDistinct (c ∷ cells)
    → IsLinked heap n d p (c ∷ cells)
chain-IsLinked heap n d p (a, x) [] (e, next, at, none_left) f i =
    let new : Option QueueNode = some (record { data_ptr = d; next = none }) in
    let node : QueueNode = record { data_ptr = x; next = next } in
    let added = write heap n new in
    let kept = write_other heap n a new f.0 ∙ at in
    let other = write_other added a n (some (record node { next = some n })) (λ h. f.0 (sym h)) in
    (
      a,
      node,
      refl,
      kept,
      (
        e,
        some n,
        write_same added a (some (record node { next = some n })),
        (refl, none, other ∙ write_same heap n new, refl),
      ),
    )
chain-IsLinked heap n d p (a, x) (c ∷ cells) (e, next, at, rest) f i =
    let (t, node, last, found, linked) = chain-IsLinked heap n d next c cells rest f.1 i.1 in
    let new : Option QueueNode = some (record { data_ptr = d; next = none }) in
    let apart = last_address-All (λ b. b ≢ a) (c ∷ cells) t i.0 last in
    (
      t,
      node,
      last,
      found,
      (
        e,
        next,
        write_other (write heap n new) t a (some (record node { next = some n }))
              (λ h. apart (sym h))
            ∙ write_other heap n a new f.0
            ∙ at,
        linked,
      ),
    )

-- A cell of the chain does not stand where nothing is allocated.
chain_apart :
    (heap : Heap) (n : ℕ) (p : Option ℕ) (cells : List (ℕ × ℕ))
    → heap n ≡ none
    → IsChain heap p cells
    → All (λ (b : ℕ × ℕ). b.0 ≢ n) cells
chain_apart heap n p [] free c = tt
chain_apart heap n p ((a, d) ∷ cells) free (e, next, at, c) = (
  λ h. none≢some heap a n (record { data_ptr = d; next = next }) h free at,
  chain_apart heap n next cells free c,
)
  where
    none≢some :
        (heap : Heap) (a n : ℕ) (node : QueueNode) → a ≡ n → heap n ≡ none → heap a ≢ some node
    none≢some heap a n node h free at = cc

All-append :
    (P : (ℕ × ℕ) → Type 0) (cells : List (ℕ × ℕ)) (c : ℕ × ℕ)
    → All P cells
    → P c
    → All P (cells ++ (c ∷ []))
All-append P [] c h p = (p, tt)
All-append P (b ∷ cells) c h p = (h.0, All-append P cells c h.1 p)

IsDistinct-append :
    (n d : ℕ) (cells : List (ℕ × ℕ))
    → IsDistinct cells
    → All (λ (b : ℕ × ℕ). b.0 ≢ n) cells
    → IsDistinct (cells ++ ((n, d) ∷ []))
IsDistinct-append n d [] i f = (tt, tt)
IsDistinct-append n d (c ∷ cells) i f = (
  All-append (λ b. b.0 ≢ c.0) cells (n, d) i.0 (λ h. f.0 (sym h)),
  IsDistinct-append n d cells i.1 f.1,
)

last_address-append :
    (cells : List (ℕ × ℕ)) (n d : ℕ) → last_address (cells ++ ((n, d) ∷ [])) ≡ some n
last_address-append [] n d = refl
last_address-append (c ∷ []) n d = refl
last_address-append (c ∷ c' ∷ cells) n d = last_address-append (c' ∷ cells) n d

link_at :
    (heap : Heap) (q : Queue) (t n : ℕ) (node : QueueNode)
    → q.tail ≡ some t
    → heap t ≡ some node
    → link_last heap q q.tail n
      ≡ some (
        write heap t (some (record node { next = some n })),
        record { head = q.head; tail = some n; size = suc q.size },
      )
unfolding link_last
link_at heap q t n node e at = simp (link_last, e, at) refl

enqueue_at :
    (heap linked : Heap) (q q' : Queue) (n a d : ℕ)
    → q.head ≡ some a
    → link_last (write heap n (some (record { data_ptr = d; next = none }))) q q.tail n
      ≡ some (linked, q')
    → queue_enqueue (some n) heap q d ≡ some (linked, q', true)
unfolding queue_enqueue
enqueue_at heap linked q q' n a d e l = simp (queue_enqueue, e, l) refl

-- Where the queue is the chain of some cells and malloc gives an address at which nothing is allocated,
-- putting an element in succeeds and leaves the chain of those cells with the new one behind them.
pub queue_enqueue-IsQueue :
    (heap : Heap) (q : Queue) (cells : List (ℕ × ℕ)) (n d : ℕ)
    → IsQueue heap q cells
    → heap n ≡ none
    → (heap' : Heap) × (q' : Queue) × (queue_enqueue (some n) heap q d ≡ some (heap', q', true))
      × IsQueue heap' q' (cells ++ ((n, d) ∷ []))
unfolding queue_enqueue
queue_enqueue-IsQueue heap q [] n d k free =
    let new : Option QueueNode = some (record { data_ptr = d; next = none }) in
    (
      write heap n new,
      record { head = some n; tail = some n; size = suc q.size },
      simp (queue_enqueue, k.chain) refl,
      record {
        chain = (refl, none, write_same heap n new, refl);
        ends = refl;
        distinct = (tt, tt);
        counted = omega (arith, k.counted);
      },
    )
queue_enqueue-IsQueue heap q (c ∷ cells) n d k free =
    let apart = chain_apart heap n q.head (c ∷ cells) free k.chain in
    let new : Option QueueNode = some (record { data_ptr = d; next = none }) in
    let (t, node, last, found, linked) =
      chain-IsLinked heap n d q.head c cells k.chain apart k.distinct in
    let q' : Queue = record { head = q.head; tail = some n; size = suc q.size } in
    (
      write (write heap n new) t (some (record node { next = some n })),
      q',
      enqueue_at heap _ q q' n c.0 d k.chain.0
          (link_at (write heap n new) q t n node (k.ends ∙ last) found),
      record {
        chain = linked;
        ends = sym (last_address-append (c ∷ cells) n d);
        distinct = IsDistinct-append n d (c ∷ cells) k.distinct apart;
        counted = omega (arith, k.counted, length-append (c ∷ cells) ((n, d) ∷ []));
      },
    )
