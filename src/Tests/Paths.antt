-- ===== src/Tests/Paths.antt =====
-- Runs of congestion control, of the STREAM header and of the ticket store.
use pquic.Base.{ℕ, ◌≡◌, refl, false, true, none, some, List, [], ◌∷◌, arith, minus_one64}
use pquic.Congestion.{
  Newreno, PathX, slow_start, acknowledgement, rtt_measured, cwin_initial, newreno_init,
  newreno_notify,
}
use pquic.Congestion.Window.{IsNotified, newreno_notify-IsNotified}
use pquic.Congestion.Delays.{measure_all, newreno_notify-newreno_init_outside}
use pquic.Header.{header, read_at, with_offset, with_length, parse_stream_header}
use pquic.Header.Bounds.{IsParsed, parse_stream_header-IsParsed}
use pquic.Intformat.{varint_decode, first_byte_length, decode_loop}
use pquic.Intformat.{parse_32, parse_64}
use pquic.Tickets.{StoredTicket, same_bytes, valid_until, format_ticket, store_ticket, get_ticket}
use pquic.Tickets.Lookup.{IsStore, get_ticket-store_ticket, get_ticket-store_ticket_other}

-- Four measurements were made in the first slow start.
abbrev measured_four : Newreno
measured_four = record {
  alg_state = slow_start;
  residual_ack = 0;
  ssthresh = minus_one64;
  recovery_start = 0;
  min_rtt = 100;
  last_rtt = 100 ∷ 110 ∷ 105 ∷ 120 ∷ [];
  nb_rtt = 4;
}

abbrev path_x : PathX
path_x = record {
  congestion_alg_state = some measured_four;
  cwin = cwin_initial;
  bytes_in_transit = 15000;
  send_mtu = 1252;
  smoothed_rtt = 110;
  rtt_min = 100;
  packet_time_nano_sec = 8000;
  pacing_margin_micros = 1000;
  next_pacing_time = 500;
  pacing_reminder_nano_sec = 900;
}

newreno_notify-IsNotified_example :
    IsNotified measured_four acknowledgement (newreno_notify path_x acknowledgement 0 1252 600)
newreno_notify-IsNotified_example =
    newreno_notify-IsNotified path_x measured_four acknowledgement 0 1252 600 (refl, omega arith)
      (omega arith) (omega arith) (omega arith)

newreno_notify-newreno_init_outside_example :
    (q : PathX) × (nr_state : Newreno) × (measure_all
        (newreno_init true path_x)
        600
        (100 ∷ 120 ∷ 200 ∷ 400 ∷ [])
      ≡ some q)
    × (q.congestion_alg_state ≡ some nr_state)
    × (nr_state.alg_state ≡ slow_start)
    × (newreno_notify q rtt_measured 130 0 600 ≡ none)
newreno_notify-newreno_init_outside_example =
    newreno_notify-newreno_init_outside path_x 600 100 120 200 400 130
      (omega arith, (omega arith, (omega arith, (omega arith, tt))))

-- A frame with the length bit: stream 4, two bytes.
abbrev frame : List ℕ
frame = 0x12 ∷ 4 ∷ 2 ∷ 7 ∷ 8 ∷ []

parses : parse_stream_header frame 5 ≡ some (header 4 0 2 false 3)
unfolding parse_stream_header read_at with_offset with_length varint_decode first_byte_length
    decode_loop
parses = refl

parse_stream_header-IsParsed_example : IsParsed 5 (parse_stream_header frame 5)
parse_stream_header-IsParsed_example =
    parse_stream_header-IsParsed frame 5 (omega arith) (omega arith) (omega arith)

-- Issued at 1 ms, for 16 s.
abbrev fresh : List ℕ
fresh = 0 ∷ 0 ∷ 0 ∷ 0 ∷ 0 ∷ 0 ∷ 0 ∷ 1 ∷ 0 ∷ 0 ∷ 0 ∷ 0 ∷ 0 ∷ 0 ∷ 0 ∷ 0 ∷ 16 ∷ []

abbrev old_tickets : List StoredTicket
old_tickets =
    record { sni = 97 ∷ []; alpn = 104 ∷ []; ticket = 1 ∷ []; time_valid_until = 500 }
    ∷ record { sni = 98 ∷ []; alpn = 104 ∷ []; ticket = 2 ∷ []; time_valid_until = 900 }
    ∷ []

old_tickets-IsStore : IsStore old_tickets
unfolding same_bytes
old_tickets-IsStore = ground arith

get_ticket-store_ticket_example :
    get_ticket
      (store_ticket true old_tickets 2000 (97 ∷ []) (104 ∷ []) fresh).1
      3000
      (97 ∷ [])
      (104 ∷ [])
    ≡ some fresh
unfolding store_ticket valid_until format_ticket parse_32 parse_64
get_ticket-store_ticket_example =
    get_ticket-store_ticket true old_tickets 2000 3000 (97 ∷ []) (104 ∷ []) fresh refl (omega arith)

get_ticket-store_ticket_other_example :
    get_ticket
      (store_ticket true old_tickets 2000 (97 ∷ []) (104 ∷ []) fresh).1
      800
      (98 ∷ [])
      (104 ∷ [])
    ≡ get_ticket old_tickets 800 (98 ∷ []) (104 ∷ [])
unfolding same_bytes
get_ticket-store_ticket_other_example =
    get_ticket-store_ticket_other true old_tickets 2000 800 (97 ∷ []) (104 ∷ []) fresh (98 ∷ [])
      (104 ∷ []) refl
