-- ===== src/Tickets.antt =====
-- picoquic/ticket_store.c: the session tickets that a client keeps, newest first. The chain of
-- next_ticket is a list; the bytes behind a record are its fields, and a length is that of its bytes.
pub mod Lookup
pub mod Serialize
pub mod RoundTrip
pub mod File
pub mod FileRoundTrip
use pquic.Intformat.{parse_32, parse_64}
use pquic.Base.{
  ℕ, zero, suc, ◌+◌, ◌*◌, ◌^◌, Bool, true, false, ◌&&◌, ◌||◌, not, Option, none, some, List, [],
  ◌∷◌, length, bit_or, get_elem?, ltb, leb, ◌==◌, if◌then◌else◌, u64,
}

pub record StoredTicket : Type 0 where
  pub sni : List ℕ
  pub alpn : List ℕ
  pub ticket : List ℕ
  pub time_valid_until : ℕ

-- The return value of picoquic_store_ticket: 0, PICOQUIC_ERROR_INVALID_TICKET or
-- PICOQUIC_ERROR_MEMORY.
pub data StoreRet : Type 0 where
  stored invalid_ticket no_memory : StoreRet

-- The lengths agree, and memcmp finds no difference.
unfoldable pub same_bytes : List ℕ → List ℕ → Bool
same_bytes [] [] = true
same_bytes [] (y ∷ ys) = false
same_bytes (x ∷ xs) [] = false
same_bytes (x ∷ xs) (y ∷ ys) = x == y && same_bytes xs ys

abbrev pub is_for : List ℕ → List ℕ → StoredTicket → Bool
is_for sni alpn t = same_bytes t.sni sni && same_bytes t.alpn alpn

unfoldable pub format_ticket : Bool → ℕ → List ℕ → List ℕ → List ℕ → Option StoredTicket
format_ticket malloc_ok time_valid_until sni alpn ticket =
    if malloc_ok
    then some
        (record { sni = sni; alpn = alpn; ticket = ticket; time_valid_until = time_valid_until })
    else none

-- The tickets for that SNI and ALPN that do not last longer are taken off.
unfoldable pub remove_old : ℕ → List ℕ → List ℕ → List StoredTicket → List StoredTicket
remove_old time_valid_until sni alpn [] = []
remove_old time_valid_until sni alpn (next ∷ later) =
    let rest = remove_old time_valid_until sni alpn later in
    if leb next.time_valid_until time_valid_until && is_for sni alpn next then rest else next ∷ rest

-- The lifetime is cut to seven days.
unfoldable pub valid_until : List ℕ → ℕ
valid_until ticket =
    let ttl_seconds = parse_32 ticket 13 in
    let allowed = if ltb (7 * 24 * 3600) ttl_seconds then 7 * 24 * 3600 else ttl_seconds in
    u64 (u64 (parse_64 ticket 0 * 1000) + u64 (allowed * 1000000))

unfoldable pub store_ticket :
    Bool → List StoredTicket → ℕ → List ℕ → List ℕ → List ℕ → StoreRet × List StoredTicket
store_ticket malloc_ok tickets current_time sni alpn ticket =
    let time_valid_until = valid_until ticket in
    if ltb (length ticket) 17
    then (invalid_ticket, tickets)
    else (if not (current_time == 0) && ltb time_valid_until current_time
        then (invalid_ticket, tickets)
        else elim (format_ticket malloc_ok time_valid_until sni alpn ticket) [
          | none ↦ (no_memory, tickets)
          | some new ↦ (stored, new ∷ remove_old time_valid_until sni alpn tickets)
        ])

-- The ticket, or -1.
unfoldable pub get_ticket : List StoredTicket → ℕ → List ℕ → List ℕ → Option (List ℕ)
get_ticket [] current_time sni alpn = none
get_ticket (next ∷ later) current_time sni alpn =
    let further = get_ticket later current_time sni alpn in
    if ltb current_time next.time_valid_until && is_for sni alpn next
    then some next.ticket
    else further

free_tickets : List StoredTicket → List StoredTicket
free_tickets [] = []
free_tickets (next ∷ later) = free_tickets later
