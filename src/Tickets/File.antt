-- ===== src/Tickets/File.antt =====
-- picoquic/ticket_store.c: the ticket file (picoquic_save_tickets and picoquic_load_tickets), once it
-- is open. The file is the list of its bytes, and every fwrite is done; the size in front of a ticket
-- is in the order of a machine that stores the lowest byte first. An open file that has nothing left
-- gives fread 0.
use pquic.Base.{
  ℕ, zero, suc, ◌+◌, ◌*◌, ◌/◌, ◌^◌, Bool, Option, none, some, List, [], ◌∷◌, ◌++◌, length, take,
  drop, ltb, ◌==◌, not, if◌then◌else◌, true, false, u8, u32,
}
use Prim.Native.Nat.{min}
use mathlib.Core.Option
use pquic.Tickets.{StoredTicket}
use pquic.Tickets.Serialize.{
  serialize_ticket, deserialize_ticket, TicketRead, ticket_read, ticket_invalid, ticket_no_memory,
}

-- fwrite(&record_size, 4, 1, F)
unfoldable pub size_bytes : ℕ → List ℕ
size_bytes n = u8 n ∷ u8 (n / 2 ^ 8) ∷ u8 (n / 2 ^ 16) ∷ u8 (n / 2 ^ 24) ∷ []

-- Whether ret is 0 at the end, and what has been written.
unfoldable pub save_tickets : ℕ → List StoredTicket → Bool × List ℕ
save_tickets current_time [] = (true, [])
save_tickets current_time (next ∷ later) =
    let rest = save_tickets current_time later in
    if ltb current_time next.time_valid_until
    then elim (serialize_ticket next 2048) [
      | none ↦ (false, [])
      | some bytes ↦ (rest.0, size_bytes (length bytes) ++ (bytes ++ rest.1))
    ]
    else rest

-- ret: 0, PICOQUIC_ERROR_INVALID_FILE, the two errors of picoquic_deserialize_ticket; or fread has
-- written behind the buffer, and nothing more is known.
pub data LoadRet : Type 0 where
  loaded invalid_file damaged_ticket ticket_memory buffer_overrun : LoadRet

-- offsetof(struct st_picoquic_stored_ticket_t, time_valid_until), behind four pointers of 8 bytes.
abbrev pub time_offset : ℕ
time_offset = 32

-- The bytes of one record from the file on: *consumed must be all of them. An expired ticket is freed.
unfoldable pub keep_ticket :
    ℕ → ℕ → TicketRead → LoadRet × List StoredTicket → LoadRet × List StoredTicket
keep_ticket current_time storage_size ticket_invalid rest = (damaged_ticket, [])
keep_ticket current_time storage_size ticket_no_memory rest = (ticket_memory, [])
keep_ticket current_time storage_size (ticket_read next consumed) rest =
    if not (consumed == storage_size)
    then (invalid_file, [])
    else if ltb next.time_valid_until current_time
    then rest
    else (rest.0, next ∷ rest.1)

-- if (fread(&storage_size, 4, 1, F) != 1) break;
unfoldable pub read_size : List ℕ → Option (ℕ × List ℕ)
read_size (b0 ∷ b1 ∷ b2 ∷ b3 ∷ file) = some (b0 + b1 * 2 ^ 8 + b2 * 2 ^ 16 + b3 * 2 ^ 24, file)
read_size _ = none

-- The checks of a record of that size, and then the record or the error.
unfoldable pub load_record :
    Bool
    → ℕ
    → ℕ
    → List ℕ
    → Option (LoadRet × List StoredTicket)
    → Option (LoadRet × List StoredTicket)
unfolding keep_ticket
load_record malloc_ok current_time storage_size file rest =
    if ltb 2048 (u32 (storage_size + time_offset))
    then some (invalid_file, [])
    else if ltb 2048 (min storage_size (length file))
    then some (buffer_overrun, [])
    else if ltb (length file) storage_size
    then some (invalid_file, [])
    else Option.map
        (keep_ticket current_time storage_size
          (deserialize_ticket malloc_ok (take storage_size file)))
        rest

-- `malloc_ok i` tells whether the i-th allocation succeeds. `none` is a loop that is not at its end.
unfoldable pub load_loop : (ℕ → Bool) → ℕ → ℕ → ℕ → List ℕ → Option (LoadRet × List StoredTicket)
unfolding read_size load_record
load_loop malloc_ok current_time zero i file = none
load_loop malloc_ok current_time (suc fuel) i file = elim (read_size file) [
  | none ↦ some (loaded, [])
  | some (storage_size, later) ↦
      load_record (malloc_ok i) current_time storage_size later
        (load_loop malloc_ok current_time fuel (suc i) (drop storage_size later))
]

-- A round takes four bytes at least.
unfoldable pub load_tickets : (ℕ → Bool) → ℕ → List ℕ → Option (LoadRet × List StoredTicket)
unfolding load_loop
load_tickets malloc_ok current_time file =
    load_loop malloc_ok current_time (suc (length file)) 0 file
