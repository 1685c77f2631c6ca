-- ===== src/Connection/Streams.antt =====
-- The chain of streams: order, lookup and what flow control counts.
use pquic.Base.{ℕ, suc, ◌+◌, ◌≤◌, ◌≡◌, refl, none, some, List, [], ◌∷◌, arith}
use pquic.Stream.{StreamHead}
use pquic.Connection.{insert_stream, find_in, put_stream}

-- The numbers of the streams rise along the chain, all above `lo`.
abbrev pub AllFrom : ℕ → List StreamHead → Type 0
AllFrom lo [] = Unit {0}
AllFrom lo (s ∷ l) = (lo ≤ s.stream_id) × AllFrom (suc s.stream_id) l

-- What the streams have used of the connection's flow control.
abbrev pub total : List StreamHead → ℕ
total [] = 0
total (s ∷ l) = s.fin_offset + total l

pub total-insert_stream :
    (s : StreamHead) (l : List StreamHead) → total (insert_stream s l) ≡ s.fin_offset + total l
unfolding insert_stream
total-insert_stream s [] = refl
total-insert_stream s (t ∷ l) = ground (arith, total-insert_stream s l)

pub insert_stream-AllFrom :
    (s : StreamHead) (l : List StreamHead) (lo : ℕ)
    → AllFrom lo l
    → lo ≤ s.stream_id
    → find_in s.stream_id l ≡ none
    → AllFrom lo (insert_stream s l)
unfolding insert_stream find_in
insert_stream-AllFrom s [] lo a h n = (h, tt)
insert_stream-AllFrom s (t ∷ l) lo a h n =
    ground (arith, insert_stream-AllFrom s l (suc t.stream_id))

pub find_in-insert_stream :
    (s : StreamHead) (l : List StreamHead)
    → find_in s.stream_id l ≡ none
    → find_in s.stream_id (insert_stream s l) ≡ some s
unfolding insert_stream find_in
find_in-insert_stream s [] n = ground arith
find_in-insert_stream s (t ∷ l) n = ground (arith, find_in-insert_stream s l)

pub find_in_id :
    (id : ℕ) (l : List StreamHead) (s : StreamHead) → find_in id l ≡ some s → s.stream_id ≡ id
unfolding find_in
find_in_id id [] s h = cc
find_in_id id (t ∷ l) s h = ground (arith, find_in_id id l s)

-- A stream that changes moves the total by what it used more.
pub total-put_stream :
    (s t : StreamHead) (l : List StreamHead)
    → find_in s.stream_id l ≡ some t
    → total (put_stream s l) + t.fin_offset ≡ total l + s.fin_offset
unfolding put_stream find_in
total-put_stream s t [] h = cc
total-put_stream s t (u ∷ l) h = ground (arith, total-put_stream s t l)

pub put_stream-AllFrom :
    (s : StreamHead) (l : List StreamHead) (lo : ℕ) → AllFrom lo l → AllFrom lo (put_stream s l)
unfolding put_stream
put_stream-AllFrom s [] lo a = tt
put_stream-AllFrom s (t ∷ l) lo a = ground (arith, put_stream-AllFrom s l (suc t.stream_id))

pub find_in-put_stream :
    (s t : StreamHead) (l : List StreamHead)
    → find_in s.stream_id l ≡ some t
    → find_in s.stream_id (put_stream s l) ≡ some s
unfolding put_stream find_in
find_in-put_stream s t [] h = cc
find_in-put_stream s t (u ∷ l) h = ground (arith, find_in-put_stream s t l)
