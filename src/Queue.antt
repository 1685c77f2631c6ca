-- ===== src/Queue.antt =====
-- picoquic/queue.c: a queue of pointers, kept as a chain of nodes in memory. Memory is a function from
-- addresses to nodes, `none` where nothing is allocated; an operation that follows a pointer to nothing
-- returns `none`.
pub mod Refinement
use pquic.Base.{
  ℕ, zero, suc, ◌+◌, ◌-◌, Bool, true, false, Option, none, some, List, [], ◌∷◌, ◌==◌, if◌then◌else◌,
}

pub record QueueNode : Type 0 where
  pub data_ptr : ℕ
  pub next : Option ℕ

pub record Queue : Type 0 where
  pub head : Option ℕ
  pub tail : Option ℕ
  pub size : ℕ

abbrev pub Heap : Type 0
Heap = ℕ → Option QueueNode

abbrev pub write : Heap → ℕ → Option QueueNode → Heap
write heap a node = λ b. if a == b then node else heap b

-- Two pointers are the same.
unfoldable pub same_ptr : Option ℕ → Option ℕ → Bool
same_ptr none none = true
same_ptr none (some b) = false
same_ptr (some a) none = false
same_ptr (some a) (some b) = a == b

unfoldable pub queue_init : Queue
queue_init = record { head = none; tail = none; size = 0 }

-- Behind the last node; the queue is not empty.
unfoldable pub link_last : Heap → Queue → Option ℕ → ℕ → Option (Heap × Queue)
link_last heap q none n = none
link_last heap q (some t) n = elim (heap t) [
  | none ↦ none
  | some last ↦ some (
    write heap t (some (record last { next = some n })),
    record q { tail = some n; size = suc q.size },
  )
]

-- The address that malloc gives, if any, and whether the return value is 0.
unfoldable pub queue_enqueue : Option ℕ → Heap → Queue → ℕ → Option (Heap × Queue × Bool)
unfolding link_last
queue_enqueue none heap q d = some (heap, q, false)
queue_enqueue (some n) heap q d =
    let added = write heap n (some (record { data_ptr = d; next = none })) in
    elim q.head [
      | none ↦ some (added, record { head = some n; tail = some n; size = suc q.size }, true)
      | some first ↦ elim (link_last added q q.tail n) [
        | none ↦ none
        | some (linked, q') ↦ some (linked, q', true)
      ]
    ]

-- The data of the first node, NULL (`none`) where there is none.
unfoldable pub queue_dequeue : Heap → Queue → Option (Heap × Queue × Option ℕ)
unfolding same_ptr
queue_dequeue heap q = elim q.head [
  | none ↦ some (heap, q, none)
  | some a ↦ elim (heap a) [
    | none ↦ none
    | some to_remove ↦
        let last : Queue = record { head = none; tail = none; size = q.size - 1 } in
        let more : Queue = record { head = to_remove.next; tail = q.tail; size = q.size - 1 } in
        some (
          write heap a none,
          if same_ptr q.head q.tail then last else more,
          some to_remove.data_ptr,
        )
  ]
]

unfoldable pub queue_peek : Heap → Queue → Option (Option ℕ)
queue_peek heap q = elim q.head [
  | none ↦ some none
  | some a ↦ elim (heap a) [ none ↦ none | some node ↦ some (some node.data_ptr) ]
]

-- The first of the queues whose first data is not NULL, the pointer 0.
unfoldable pub queue_peek_any : Heap → List Queue → Option (Option ℕ)
unfolding queue_peek
queue_peek_any heap [] = some none
queue_peek_any heap (q ∷ later) =
    let further = queue_peek_any heap later in
    elim (queue_peek heap q) [
      | none ↦ none
      | some none ↦ further
      | some (some d) ↦ (if d == 0 then further else some (some d))
    ]

-- while (q->head) queue_dequeue(q), with the rounds that are left.
unfoldable pub free_loop : ℕ → Heap → Queue → Option Heap
unfolding queue_dequeue
free_loop zero heap q = none
free_loop (suc fuel) heap q = elim q.head [
  | none ↦ some heap
  | some a ↦ elim (queue_dequeue heap q) [
    | none ↦ none
    | some (heap', q', d) ↦ free_loop fuel heap' q'
  ]
]
