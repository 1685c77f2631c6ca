-- ===== src/Tickets/FileRoundTrip.antt =====
-- picoquic/ticket_store.c: the tickets that come back from the file.
use mathlib.Core.List.{append-nil}
use Prim.Native.Nat.{min}
use pquic.Base.{
  ℕ, zero, suc, ◌+◌, ◌*◌, ◌/◌, ◌^◌, ◌≤◌, ◌<◌, ◌≡◌, refl, sym, ap, ◌∙◌, Bool, true, false, some,
  List, [], ◌∷◌, ◌++◌, length, ltb, arith, if◌then◌else◌, u8, u32, All, le→ltb, ltb→lt, ==_iff,
  ◌==◌, length-append, take-append, drop-append, Bool-cases, inl, inr,
}
use pquic.Tickets.{StoredTicket}
use pquic.Tickets.Serialize.{serialized_length, deserialize_ticket, ticket_read}
use pquic.Tickets.RoundTrip.{deserialize_ticket-serialize_ticket}
use pquic.Tickets.File.{
  size_bytes, save_tickets, loaded, keep_ticket, read_size, load_record, load_loop, load_tickets,
}

-- The fields hold the values, and the record is of a size that the file may have.
pub record FitsFile (t : StoredTicket) : Type 0 where
  pub time : t.time_valid_until < 2 ^ 64
  pub not_empty : 14 < serialized_length t
  pub record_length : serialized_length t + 32 ≤ 2048

unfoldable pub still_valid : ℕ → List StoredTicket → List StoredTicket
still_valid current_time [] = []
still_valid current_time (next ∷ later) =
    let rest = still_valid current_time later in
    if ltb current_time next.time_valid_until then next ∷ rest else rest

size_value :
    (n : ℕ)
    → n < 2 ^ 32
    → u8 n + u8 (n / 2 ^ 8) * 2 ^ 8 + u8 (n / 2 ^ 16) * 2 ^ 16 + u8 (n / 2 ^ 24) * 2 ^ 24 ≡ n
size_value n h = omega arith

load_record-written :
    (t : StoredTicket) (bytes file : List ℕ) (current_time : ℕ) (tickets : List StoredTicket)
    → FitsFile t
    → length bytes ≡ serialized_length t
    → deserialize_ticket true bytes ≡ ticket_read t (length bytes)
    → current_time < t.time_valid_until
    → load_record true current_time (length bytes) (bytes ++ file) (some (loaded, tickets))
      ≡ some (loaded, t ∷ tickets)
unfolding load_record keep_ticket
load_record-written t bytes file current_time tickets fits e read valid =
    let total = length-append bytes file in
    let sized : ltb 2048 (u32 (length bytes + 32)) ≡ false =
      le→ltb _ _ (omega (arith, fits.record_length, e)) in
    let inside : ltb 2048 (min (length bytes) (length (bytes ++ file))) ≡ false =
      le→ltb _ _ (omega (arith, fits.record_length, e)) in
    let complete : ltb (length (bytes ++ file)) (length bytes) ≡ false =
      le→ltb _ _ (omega (arith, total)) in
    let alive : ltb t.time_valid_until current_time ≡ false = le→ltb _ _ (omega arith) in
    let consumed : (length bytes == length bytes) ≡ true = (==_iff _ _).1 refl in
    rw (sized, inside, complete, take-append bytes file, read, consumed, alive) refl

load_loop_end :
    (malloc_ok : ℕ → Bool) (current_time fuel i : ℕ)
    → 0 < fuel
    → load_loop malloc_ok current_time fuel i [] ≡ some (loaded, [])
unfolding load_loop read_size
load_loop_end malloc_ok current_time zero i h = absurd (omega arith)
load_loop_end malloc_ok current_time (suc fuel) i h = refl

load_loop_step :
    (malloc_ok : ℕ → Bool) (current_time fuel i : ℕ) (t : StoredTicket) (bytes file : List ℕ)
    (tickets : List StoredTicket)
    → malloc_ok i ≡ true
    → FitsFile t
    → length bytes ≡ serialized_length t
    → deserialize_ticket true bytes ≡ ticket_read t (length bytes)
    → current_time < t.time_valid_until
    → load_loop malloc_ok current_time fuel (suc i) file ≡ some (loaded, tickets)
    → load_loop malloc_ok current_time (suc fuel) i (size_bytes (length bytes) ++ (bytes ++ file))
      ≡ some (loaded, t ∷ tickets)
unfolding load_loop read_size size_bytes
load_loop_step malloc_ok current_time fuel i t bytes file tickets ok fits e read valid ih =
    let size = size_value (length bytes) (omega (arith, fits.record_length, e)) in
    rw (size, ok, drop-append bytes file, ih)
      (load_record-written t bytes file current_time tickets fits e read valid)

module _ (malloc_ok : ℕ → Bool) (every_ok : (i : ℕ) → malloc_ok i ≡ true) (current_time : ℕ) where
  -- The loop, with any fuel above the length of the file.
  Loads : List ℕ → List StoredTicket → Type 0
  Loads file tickets =
      (fuel i : ℕ)
      → length file < fuel
      → load_loop malloc_ok current_time fuel i file ≡ some (loaded, tickets)

  Loads-step :
      (t : StoredTicket) (bytes file : List ℕ) (tickets : List StoredTicket)
      → FitsFile t
      → length bytes ≡ serialized_length t
      → deserialize_ticket true bytes ≡ ticket_read t (length bytes)
      → current_time < t.time_valid_until
      → Loads file tickets
      → Loads (size_bytes (length bytes) ++ (bytes ++ file)) (t ∷ tickets)
  unfolding Loads size_bytes
  Loads-step t bytes file tickets fits e read valid ih zero i h = absurd (omega arith)
  Loads-step t bytes file tickets fits e read valid ih (suc fuel) i h =
      load_loop_step malloc_ok current_time fuel i t bytes file tickets (every_ok i) fits e read
        valid (ih fuel (suc i) (omega (arith, length-append bytes file)))

  save_tickets-Loads :
      (tickets : List StoredTicket)
      → All FitsFile tickets
      → (file : List ℕ) × (save_tickets current_time tickets ≡ (true, file))
        × Loads file (still_valid current_time tickets)
  unfolding save_tickets still_valid Loads serialized_length
  save_tickets-Loads [] all = ([], refl, load_loop_end malloc_ok current_time)
  save_tickets-Loads (t ∷ tickets) (fits, all) =
      let (file, saved, loads) = save_tickets-Loads tickets all in
      elim (Bool-cases (ltb current_time t.time_valid_until)) [
        | inl valid ↦
            let (bytes, written, e, read) =
              deserialize_ticket-serialize_ticket t 2048 [] fits.time
                (omega (arith, fits.record_length)) (omega (arith, fits.record_length))
                (omega (arith, fits.record_length)) (omega (arith, fits.record_length))
                (omega (arith, fits.not_empty)) in
            let alone : deserialize_ticket true bytes ≡ ticket_read t (length bytes) =
              ap (deserialize_ticket true) (sym (append-nil bytes)) ∙ read in
            (
              size_bytes (length bytes) ++ (bytes ++ file),
              rw (valid, written, saved) refl,
              rw (valid) (Loads-step t bytes file _ fits e alone (ltb→lt _ _ valid) loads),
            )
        | inr expired ↦ (file, rw (expired) saved, rw (expired) loads)
      ]

-- The file that is saved is loaded back, to its end, as the tickets that were still valid, in their
-- order, where every allocation succeeds and each ticket has a time and a size that the file may hold.
pub load_tickets-save_tickets :
    (malloc_ok : ℕ → Bool) (current_time : ℕ) (tickets : List StoredTicket)
    → ((i : ℕ) → malloc_ok i ≡ true)
    → All FitsFile tickets
    → (file : List ℕ) × (save_tickets current_time tickets ≡ (true, file))
      × (load_tickets malloc_ok current_time file ≡ some (loaded, still_valid current_time tickets))
unfolding load_tickets Loads
load_tickets-save_tickets malloc_ok current_time tickets every_ok all =
    let (file, saved, loads) = save_tickets-Loads malloc_ok every_ok current_time tickets all in
    (file, saved, loads (suc (length file)) 0 (omega arith))
