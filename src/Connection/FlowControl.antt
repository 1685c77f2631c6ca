-- ===== src/Connection/FlowControl.antt =====
-- The frames of a stream keep the accounts of the connection's flow control.
use pquic.Base.{
  ℕ, ◌+◌, ◌≡◌, refl, Bool, true, false, Option, none, some, List, length, if◌then◌else◌, ◌||◌, ◌&&◌,
  not, ◌==◌, ◌++◌, map, [], ◌∷◌,
}
use pquic.Stream.{StreamHead, queue_network_input, stream_data_callback}
use pquic.Stream.Deliver.{stream_data_callback_keeps}
use pquic.Connection.{
  Cnx, Event, data_event, reset_event, connection_error, find_in, find_or_create_stream,
  flow_control_check_stream_offset, memory_error, final_offset_error,
}
use pquic.Connection.Input.{
  store, admit, queue_and_notify, network_input_on, stream_network_input, reset_on,
  process_stream_reset_frame,
}
use pquic.Connection.Accounting.{
  IsAccounted, IsCharged, IsOpened, connection_error-IsAccounted, store-IsAccounted,
  flow_control-IsCharged, admit-IsCharged, find_or_create_stream-IsOpened,
}

pub if-IsAccounted :
    (b : Bool) (x y : Cnx × Bool)
    → IsAccounted x.0
    → IsAccounted y.0
    → IsAccounted (if b then x else y).0
if-IsAccounted true x y h k = h
if-IsAccounted false x y h k = k

pub events-IsAccounted :
    (cnx : Cnx) (events : List Event)
    → IsAccounted cnx
    → IsAccounted (record cnx { events = events })
events-IsAccounted cnx events a = record {
  counted = a.counted;
  allowed = a.allowed;
  ordered = a.ordered;
}

progress-IsCharged :
    (b : Bool) (cnx cnx' : Cnx) (s s' : StreamHead) (now : ℕ)
    → IsCharged cnx s cnx' s'
    → IsCharged cnx s (if b then record cnx' { latest_progress_time = now } else cnx') s'
progress-IsCharged true cnx cnx' s s' now c = c
progress-IsCharged false cnx cnx' s s' now c = c

queue_and_notify-IsAccounted :
    (malloc_ok : Bool) (cnx cnx' : Cnx) (s s' : StreamHead) (offset : ℕ) (bytes : List ℕ)
    (should_notify : Bool) (now : ℕ)
    → IsAccounted cnx
    → find_in s.stream_id cnx.streams ≡ some s
    → IsCharged cnx s cnx' s'
    → IsAccounted (queue_and_notify malloc_ok cnx' s' offset bytes should_notify now).0
unfolding queue_and_notify
queue_and_notify-IsAccounted malloc_ok cnx cnx' s s' offset bytes should_notify now a f c =
    let q = queue_network_input malloc_ok s' offset bytes in
    let queued = record s' { stream_data = q.blocks } in
    let r = stream_data_callback queued in
    let (id, fin) = stream_data_callback_keeps queued in
    let advanced =
      if q.new_data_available then record cnx' { latest_progress_time = now } else cnx' in
    let events = cnx'.events ++ map (data_event s'.stream_id) r.1 in
    let c' : IsCharged cnx s cnx' r.0 = rw (id, fin) c in
    let p = progress-IsCharged q.new_data_available cnx cnx' s r.0 now c' in
    if-IsAccounted q.no_memory (connection_error (store cnx' queued) memory_error 0, false)
      (if should_notify || q.new_data_available
        then (record (store advanced r.0) { events = events }, true)
        else (store advanced queued, true))
      (connection_error-IsAccounted (store cnx' queued) memory_error 0
        (store-IsAccounted cnx cnx' s queued a f c))
      (if-IsAccounted (should_notify || q.new_data_available)
        (record (store advanced r.0) { events = events }, true) (store advanced queued, true)
        (events-IsAccounted (store advanced r.0) events
          (store-IsAccounted cnx advanced s r.0 a f p))
        (store-IsAccounted cnx advanced s queued a f
          (progress-IsCharged q.new_data_available cnx cnx' s queued now c)))

network_input_on-IsAccounted :
    (malloc_ok : Bool) (cnx : Cnx) (s : StreamHead) (offset : ℕ) (fin : Bool) (bytes : List ℕ)
    (now : ℕ)
    → IsAccounted cnx
    → find_in s.stream_id cnx.streams ≡ some s
    → IsAccounted (network_input_on malloc_ok cnx s offset fin bytes now).0
unfolding network_input_on
network_input_on-IsAccounted malloc_ok cnx s offset fin bytes now a f =
    let c = admit-IsCharged cnx s (offset + length bytes) fin now a.allowed in
    let r = admit cnx s (offset + length bytes) fin now in
    let notify = fin && not s.fin_received in
    if-IsAccounted r.2 (queue_and_notify malloc_ok r.0 r.1 offset bytes notify now)
      (store r.0 r.1, false)
      (queue_and_notify-IsAccounted malloc_ok cnx r.0 s r.1 offset bytes notify now a f c)
      (store-IsAccounted cnx r.0 s r.1 a f c)

reset_on-IsAccounted :
    (cnx : Cnx) (s : StreamHead) (app_error_code final_offset : ℕ)
    → IsAccounted cnx
    → find_in s.stream_id cnx.streams ≡ some s
    → IsAccounted (reset_on cnx s app_error_code final_offset).0
unfolding reset_on
reset_on-IsAccounted cnx s app_error_code final_offset a f =
    let c = flow_control-IsCharged cnx s final_offset a.allowed in
    let r = flow_control_check_stream_offset cnx s final_offset in
    let reset = record r.1 { reset_received = true; remote_error = app_error_code } in
    let events = cnx.events ++ (reset_event s.stream_id ∷ []) in
    let kept = store-IsAccounted cnx r.0 s r.1 a f c in
    let told : Cnx × Bool = (record (store r.0 reset) { events = events }, true) in
    let again = if s.reset_received then (store r.0 r.1, true) else told in
    let within = if not r.2 then (store r.0 r.1, false) else again in
    if-IsAccounted ((s.fin_received || s.reset_received) && not (final_offset == s.fin_offset))
      (connection_error cnx final_offset_error 0x01, false) within
      (connection_error-IsAccounted cnx final_offset_error 0x01 a)
      (if-IsAccounted (not r.2) (store r.0 r.1, false) again kept
        (if-IsAccounted s.reset_received (store r.0 r.1, true) told kept
          (events-IsAccounted (store r.0 reset) events (store-IsAccounted cnx r.0 s reset a f c))))

pub when_opened :
    (o : Cnx × Option StreamHead) (go : Cnx → StreamHead → Cnx × Bool)
    → IsOpened o
    → ((cnx : Cnx) (s : StreamHead)
        → IsAccounted cnx
        → find_in s.stream_id cnx.streams ≡ some s
        → IsAccounted (go cnx s).0)
    → IsAccounted (elim o.1 as (λ _. Cnx × Bool) [ none ↦ (o.0, false) | some s ↦ go o.0 s ]).0
when_opened (cnx, none) go (a, f) keeps = a
when_opened (cnx, some s) go (a, f) keeps = keeps cnx s a (f s refl)

-- Where the connection has counted exactly the bytes up to the ends of its streams, no more than it
-- allowed the peer, and has each stream once and in order, this stays so whatever STREAM frame comes,
-- accepted or not, and whatever malloc answers.
pub stream_network_input-IsAccounted :
    (malloc_ok : Bool) (cnx : Cnx) (stream_id offset : ℕ) (fin : Bool) (bytes : List ℕ) (now : ℕ)
    → IsAccounted cnx
    → IsAccounted (stream_network_input malloc_ok cnx stream_id offset fin bytes now).0
unfolding stream_network_input
stream_network_input-IsAccounted malloc_ok cnx stream_id offset fin bytes now a =
    when_opened (find_or_create_stream malloc_ok cnx stream_id true)
      (λ c s. network_input_on malloc_ok c s offset fin bytes now)
      (find_or_create_stream-IsOpened malloc_ok cnx stream_id true a)
      (λ c s. network_input_on-IsAccounted malloc_ok c s offset fin bytes now)

-- Where the connection has counted exactly the bytes up to the ends of its streams, no more than it
-- allowed the peer, and has each stream once and in order, this stays so whatever RESET_STREAM frame
-- comes, accepted or not, and whatever malloc answers.
pub process_stream_reset_frame-IsAccounted :
    (malloc_ok : Bool) (cnx : Cnx) (stream_id app_error_code final_offset : ℕ)
    → IsAccounted cnx
    → IsAccounted (process_stream_reset_frame malloc_ok cnx stream_id app_error_code final_offset).0
unfolding process_stream_reset_frame
process_stream_reset_frame-IsAccounted malloc_ok cnx stream_id app_error_code final_offset a =
    when_opened (find_or_create_stream malloc_ok cnx stream_id true)
      (λ c s. reset_on c s app_error_code final_offset)
      (find_or_create_stream-IsOpened malloc_ok cnx stream_id true a)
      (λ c s. reset_on-IsAccounted c s app_error_code final_offset)
