-- ===== src/Tests/Containers.antt =====
-- Runs of packet numbers, connection ids, the queue and tickets as bytes.
use pquic.Base.{
  ◌*◌, ◌%◌, ◌≡◌, refl, none, some, [], ◌∷◌, ◌++◌, arith, drop, length, All, ℕ, List, true, inl,
}
use pquic.Packet.{get_packet_number64}
use pquic.Packet.Number.{get_packet_number64-number}
use pquic.ConnectionId.{create_packet_header_cnxid_lengths}
use pquic.Intformat.{parse_16, parse_32, parse_64}
use pquic.Tickets.{StoredTicket, format_ticket}
use pquic.Tickets.Serialize.{
  serialized_length, serialize_ticket, read_string_field, string_at, deserialize_ticket,
  ticket_read, ticket_invalid,
}
use pquic.Tickets.RoundTrip.{deserialize_ticket-serialize_ticket}
use pquic.Tickets.File.{save_tickets, load_tickets, load_record, loaded, invalid_file}
use pquic.Tickets.FileRoundTrip.{FitsFile, still_valid, load_tickets-save_tickets}
use pquic.Queue.{Queue, Heap, queue_enqueue, queue_dequeue, write}
use pquic.Queue.Refinement.{
  IsQueue, Frees, first_data, queue_enqueue-IsQueue, queue_dequeue-IsQueue,
}

-- 0x1F3 was the highest number so far; the low seven bits of 0x205 are 5.
get_packet_number64-number_example :
    get_packet_number64 0x1F3 0xFFFFFFFFFFFFFF80 (0x205 % (2 * 64)) ≡ 0x205
get_packet_number64-number_example =
    get_packet_number64-number 0x1F3 0xFFFFFFFFFFFFFF80 64 0x205 (inl (refl, refl)) (omega arith)
      (omega arith) (omega arith)

-- The lengths 8 and 0 in one byte.
lengths_in_header : create_packet_header_cnxid_lengths 8 0 ≡ 0x50
unfolding create_packet_header_cnxid_lengths
lengths_in_header = refl

-- Two nodes, at 100 and 108.
abbrev two_nodes : Heap
two_nodes =
    write (write (λ a. none) 100 (some (record { data_ptr = 7; next = some 108 }))) 108
      (some (record { data_ptr = 9; next = none }))

abbrev two_queued : Queue
two_queued = record { head = some 100; tail = some 108; size = 2 }

two_queued-IsQueue : IsQueue two_nodes two_queued ((100, 7) ∷ (108, 9) ∷ [])
two_queued-IsQueue = record {
  chain = (refl, some 108, refl, (refl, none, refl, refl));
  ends = refl;
  distinct = (((λ h. omega arith), tt), (tt, tt));
  counted = refl;
}

queue_enqueue-IsQueue_example :
    (heap' : Heap) × (q' : Queue) × (queue_enqueue (some 116) two_nodes two_queued 5
      ≡ some (heap', q', true))
    × IsQueue heap' q' (((100, 7) ∷ (108, 9) ∷ []) ++ ((116, 5) ∷ []))
queue_enqueue-IsQueue_example =
    queue_enqueue-IsQueue two_nodes two_queued ((100, 7) ∷ (108, 9) ∷ []) 116 5 two_queued-IsQueue
      refl

queue_dequeue-IsQueue_example :
    (heap' : Heap) × (q' : Queue) × (queue_dequeue two_nodes two_queued
      ≡ some (heap', q', first_data ((100, 7) ∷ (108, 9) ∷ [])))
    × IsQueue heap' q' (drop 1 ((100, 7) ∷ (108, 9) ∷ []))
    × Frees two_nodes ((100, 7) ∷ (108, 9) ∷ []) heap'
queue_dequeue-IsQueue_example =
    queue_dequeue-IsQueue two_nodes two_queued ((100, 7) ∷ (108, 9) ∷ []) two_queued-IsQueue

abbrev short_ticket : StoredTicket
short_ticket = record {
  sni = 97 ∷ 98 ∷ [];
  alpn = [];
  ticket = 1 ∷ 2 ∷ 3 ∷ [];
  time_valid_until = 500000;
}

deserialize_ticket-serialize_ticket_example :
    (bytes : List ℕ) × (serialize_ticket short_ticket 100 ≡ some bytes)
    × (length bytes ≡ serialized_length short_ticket)
    × (deserialize_ticket true (bytes ++ (255 ∷ [])) ≡ ticket_read short_ticket (length bytes))
unfolding serialized_length
deserialize_ticket-serialize_ticket_example =
    deserialize_ticket-serialize_ticket short_ticket 100 (255 ∷ []) (omega arith) (omega arith)
      (omega arith) (omega arith) (omega arith) (omega arith)

-- A length that goes past the end.
damaged_ticket :
    deserialize_ticket true (0 ∷ 0 ∷ 0 ∷ 0 ∷ 0 ∷ 0 ∷ 0 ∷ 1 ∷ 0 ∷ 9 ∷ 97 ∷ 0 ∷ 0 ∷ 0 ∷ 0 ∷ [])
    ≡ ticket_invalid
unfolding deserialize_ticket read_string_field format_ticket string_at parse_16 parse_32 parse_64
damaged_ticket = refl

abbrev two_tickets : List StoredTicket
two_tickets =
    short_ticket
    ∷ record { sni = 97 ∷ []; alpn = 104 ∷ []; ticket = 9 ∷ []; time_valid_until = 300 }
    ∷ []

two_tickets-FitsFile : All FitsFile two_tickets
unfolding serialized_length
two_tickets-FitsFile = (
  record { time = omega arith; not_empty = omega arith; record_length = omega arith },
  (record { time = omega arith; not_empty = omega arith; record_length = omega arith }, tt),
)

load_tickets-save_tickets_example :
    (file : List ℕ) × (save_tickets 400 two_tickets ≡ (true, file))
    × (load_tickets (λ i. true) 400 file ≡ some (loaded, short_ticket ∷ []))
unfolding still_valid
load_tickets-save_tickets_example =
    load_tickets-save_tickets (λ i. true) 400 two_tickets (λ i. refl) two_tickets-FitsFile

-- A size that wraps passes the first check; here the file ends too early.
size_that_wraps : load_record true 400 0xFFFFFFF0 (0 ∷ []) none ≡ some (invalid_file, [])
unfolding load_record
size_that_wraps = refl
