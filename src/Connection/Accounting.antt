-- ===== src/Connection/Accounting.antt =====
-- Flow control of the connection: what it counts is what its streams have received.
use mathlib.Core.Option.{some-injective}
use mathlib.Core.Path.{subst}
use pquic.Base.{
  if◌then◌else◌, false, ◌&&◌, ℕ, ◌+◌, ◌≤◌, ◌≡◌, refl, sym, ap, ◌∙◌, inl, inr, Bool, true, Option,
  none, some, List, arith, Option-cases,
}
use pquic.Stream.{StreamHead}
use pquic.Connection.{
  find_stream, Cnx, connection_error, find_in, put_stream, create_stream, new_stream, accept_stream,
  find_or_create_stream, flow_control_check_stream_offset, final_offset_error, stream_id_error,
  memory_error,
}
use pquic.Connection.Input.{store, admit}
use pquic.Connection.Streams.{
  AllFrom, total, total-insert_stream, insert_stream-AllFrom, find_in-insert_stream, find_in_id,
  total-put_stream, put_stream-AllFrom, find_in-put_stream,
}

-- The connection has counted the bytes of all its streams, within what it allowed the peer, and its
-- streams stand in order.
pub record IsAccounted (cnx : Cnx) : Type 0 where
  pub counted : total cnx.streams ≡ cnx.data_received
  pub allowed : cnx.data_received ≤ cnx.maxdata_local
  pub ordered : AllFrom 0 cnx.streams

pub connection_error_keeps :
    (cnx : Cnx) (error frame_type : ℕ)
    → ((connection_error cnx error frame_type).streams ≡ cnx.streams)
      × ((connection_error cnx error frame_type).data_received ≡ cnx.data_received)
      × ((connection_error cnx error frame_type).maxdata_local ≡ cnx.maxdata_local)
unfolding connection_error
connection_error_keeps cnx error frame_type = ground arith

pub connection_error-IsAccounted :
    (cnx : Cnx) (error frame_type : ℕ)
    → IsAccounted cnx
    → IsAccounted (connection_error cnx error frame_type)
connection_error-IsAccounted cnx error frame_type a =
    let (s, d, m) = connection_error_keeps cnx error frame_type in
    record {
      counted = rw (s, d) a.counted;
      allowed = rw (d, m) a.allowed;
      ordered = rw s a.ordered;
    }

-- A stream that has used as much more as the connection has counted more.
abbrev pub IsCharged : Cnx → StreamHead → Cnx → StreamHead → Type 0
IsCharged cnx s cnx' s' =
    (cnx'.streams ≡ cnx.streams)
    × (cnx'.maxdata_local ≡ cnx.maxdata_local)
    × (s'.stream_id ≡ s.stream_id)
    × (s'.fin_offset + cnx.data_received ≡ cnx'.data_received + s.fin_offset)
    × (cnx'.data_received ≤ cnx.maxdata_local)

pub store-IsAccounted :
    (cnx cnx' : Cnx) (s s' : StreamHead)
    → IsAccounted cnx
    → find_in s.stream_id cnx.streams ≡ some s
    → IsCharged cnx s cnx' s'
    → IsAccounted (store cnx' s')
store-IsAccounted cnx cnx' s s' a f (same, max, id, charge, allowed) = record {
  counted = rw same (omega (arith, charge, a.counted, total-put_stream s' s cnx.streams (rw id f)));
  allowed = rw max allowed;
  ordered = rw same (put_stream-AllFrom s' cnx.streams 0 a.ordered);
}

pub flow_control-IsCharged :
    (cnx : Cnx) (s : StreamHead) (n : ℕ)
    → cnx.data_received ≤ cnx.maxdata_local
    → let r = flow_control_check_stream_offset cnx s n in IsCharged cnx s r.0 r.1
unfolding flow_control_check_stream_offset connection_error
flow_control-IsCharged cnx s n h = ground arith

pub admit-IsCharged :
    (cnx : Cnx) (s : StreamHead) (n : ℕ) (fin : Bool) (now : ℕ)
    → cnx.data_received ≤ cnx.maxdata_local
    → let r = admit cnx s n fin now in IsCharged cnx s r.0 r.1
unfolding admit
admit-IsCharged cnx s n fin now h =
    let ended = record s { fin_received = true } in
    let advanced = record cnx { latest_progress_time = now } in
    let plain = flow_control-IsCharged cnx s n h in
    let last = flow_control-IsCharged advanced ended n h in
    let refused = connection_error_keeps cnx final_offset_error 0 in ground arith

-- What opening a stream leaves: the accounts, and the stream found where it is kept.
abbrev pub IsOpened : Cnx × Option StreamHead → Type 0
IsOpened r =
    IsAccounted r.0 × ((s : StreamHead) → r.1 ≡ some s → find_in s.stream_id r.0.streams ≡ some s)

found_same :
    (l : List StreamHead) (s t : StreamHead)
    → find_in s.stream_id l ≡ some s
    → some s ≡ some t
    → find_in t.stream_id l ≡ some t
found_same l s t f e = subst (λ u. find_in u.stream_id l ≡ some u) (some-injective s t e) f

create_stream-IsOpened :
    (cnx : Cnx) (id : ℕ)
    → IsAccounted cnx
    → find_in id cnx.streams ≡ none
    → IsOpened ((create_stream cnx id).0, some (create_stream cnx id).1)
unfolding create_stream new_stream
create_stream-IsOpened cnx id a n = (
  record {
    counted = omega (arith, total-insert_stream (new_stream cnx id) cnx.streams, a.counted);
    allowed = a.allowed;
    ordered = insert_stream-AllFrom (new_stream cnx id) cnx.streams 0 a.ordered (omega arith) n;
  },
  λ s e.
      found_same _ (new_stream cnx id) s (find_in-insert_stream (new_stream cnx id) cnx.streams n)
        e,
)

finished-IsOpened :
    (cnx : Cnx) (s t : StreamHead)
    → IsAccounted cnx
    → find_in t.stream_id cnx.streams ≡ some t
    → s.stream_id ≡ t.stream_id
    → s.fin_offset ≡ t.fin_offset
    → IsOpened (record cnx { streams = put_stream s cnx.streams }, some s)
finished-IsOpened cnx s t a f id fin =
    let g : find_in s.stream_id cnx.streams ≡ some t = rw id f in
    (
      record {
        counted = omega (arith, a.counted, fin, total-put_stream s t cnx.streams g);
        allowed = a.allowed;
        ordered = put_stream-AllFrom s cnx.streams 0 a.ordered;
      },
      λ r e. found_same _ s r (find_in-put_stream s t cnx.streams g) e,
    )

refused-IsOpened :
    (cnx : Cnx) (error frame_type : ℕ)
    → IsAccounted cnx
    → IsOpened (connection_error cnx error frame_type, none)
refused-IsOpened cnx error frame_type a =
    (connection_error-IsAccounted cnx error frame_type a, λ s e. cc)

accept_stream-IsOpened :
    (malloc_ok : Bool) (cnx : Cnx) (id : ℕ) (is_remote : Bool)
    → IsAccounted cnx
    → find_in id cnx.streams ≡ none
    → IsOpened (accept_stream malloc_ok cnx id is_remote)
unfolding accept_stream
accept_stream-IsOpened malloc_ok cnx id is_remote a n =
    let (made, found) = create_stream-IsOpened cnx id a n in
    let stream = (create_stream cnx id).1 in
    let finished = record stream { fin_notified = true; fin_sent = true } in
    let last =
      finished-IsOpened (create_stream cnx id).0 finished stream made (found stream refl) refl
        refl in
    let wrong = refused-IsOpened cnx stream_id_error 0 a in
    let full = refused-IsOpened cnx memory_error 0 a in ground arith

find_or_create_missing :
    (malloc_ok : Bool) (cnx : Cnx) (id : ℕ) (is_remote : Bool)
    → find_in id cnx.streams ≡ none
    → find_or_create_stream malloc_ok cnx id is_remote ≡ accept_stream malloc_ok cnx id is_remote
unfolding find_or_create_stream
find_or_create_missing malloc_ok cnx id is_remote n = rw (find_or_create_stream, n) refl

find_or_create_found :
    (malloc_ok : Bool) (cnx : Cnx) (id : ℕ) (is_remote : Bool) (s : StreamHead)
    → find_in id cnx.streams ≡ some s
    → find_or_create_stream malloc_ok cnx id is_remote ≡ (cnx, some s)
unfolding find_or_create_stream
find_or_create_found malloc_ok cnx id is_remote s e = rw (find_or_create_stream, e) refl

found-IsOpened :
    (cnx : Cnx) (id : ℕ) (s : StreamHead)
    → IsAccounted cnx
    → find_in id cnx.streams ≡ some s
    → IsOpened (cnx, some s)
found-IsOpened cnx id s a e = (
  a,
  λ t.
      found_same cnx.streams s t
        (ap (λ k. find_in k cnx.streams) (find_in_id id cnx.streams s e) ∙ e),
)

pub find_or_create_stream-IsOpened :
    (malloc_ok : Bool) (cnx : Cnx) (id : ℕ) (is_remote : Bool)
    → IsAccounted cnx
    → IsOpened (find_or_create_stream malloc_ok cnx id is_remote)
find_or_create_stream-IsOpened malloc_ok cnx id is_remote a =
    elim (Option-cases (find_in id cnx.streams)) [
      | inl n ↦
          subst IsOpened (sym (find_or_create_missing malloc_ok cnx id is_remote n))
            (accept_stream-IsOpened malloc_ok cnx id is_remote a n)
      | inr (s, e) ↦
          subst IsOpened (sym (find_or_create_found malloc_ok cnx id is_remote s e))
            (found-IsOpened cnx id s a e)
    ]

if-IsOpened :
    (b : Bool) (x y : Cnx × Option StreamHead)
    → IsOpened x
    → IsOpened y
    → IsOpened (if b then x else y)
if-IsOpened true x y h k = h
if-IsOpened false x y h k = k

find_stream_missing :
    (malloc_ok : Bool) (cnx : Cnx) (id : ℕ) (create : Bool)
    → find_in id cnx.streams ≡ none
    → IsAccounted cnx
    → IsOpened (find_stream malloc_ok cnx id create)
unfolding find_stream
find_stream_missing malloc_ok cnx id create n a =
    rw (find_stream, n)
      (if-IsOpened (create && malloc_ok) _ _ (create_stream-IsOpened cnx id a n) (a, λ s e. cc))

find_stream_found :
    (malloc_ok : Bool) (cnx : Cnx) (id : ℕ) (create : Bool) (s : StreamHead)
    → find_in id cnx.streams ≡ some s
    → find_stream malloc_ok cnx id create ≡ (cnx, some s)
unfolding find_stream
find_stream_found malloc_ok cnx id create s e = rw (find_stream, e) refl

pub find_stream-IsOpened :
    (malloc_ok : Bool) (cnx : Cnx) (id : ℕ) (create : Bool)
    → IsAccounted cnx
    → IsOpened (find_stream malloc_ok cnx id create)
find_stream-IsOpened malloc_ok cnx id create a = elim (Option-cases (find_in id cnx.streams)) [
  | inl n ↦ find_stream_missing malloc_ok cnx id create n a
  | inr (s, e) ↦
      subst IsOpened (sym (find_stream_found malloc_ok cnx id create s e))
        (found-IsOpened cnx id s a e)
]
