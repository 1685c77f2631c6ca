-- ===== src/Connection/Limits.antt =====
-- The limits that the peer grants for the streams.
use mathlib.Core.Option.{some-injective}
use pquic.Base.{
  ℕ, ◌≤◌, ◌≡◌, ap, inl, inr, true, false, some, List, [], ◌∷◌, arith, ◌==◌, Bool-cases,
}
use pquic.Stream.{StreamHead}
use pquic.Connection.{Cnx, find_in}
use pquic.Connection.Input.{raise_remote, remote_loop, update_stream_initial_remote}

-- A stream with a limit that is not smaller, and as much data.
abbrev pub IsRaised : StreamHead → StreamHead → Type 0
IsRaised s s' =
    (s'.stream_id ≡ s.stream_id)
    × (s.maxdata_remote ≤ s'.maxdata_remote)
    × (s'.fin_offset ≡ s.fin_offset)
    × (s'.stream_data ≡ s.stream_data)

raise_remote-IsRaised : (cnx : Cnx) (s : StreamHead) → IsRaised s (raise_remote cnx s)
unfolding raise_remote
raise_remote-IsRaised cnx s = ground arith

remote_loop-find_in :
    (cnx : Cnx) (id : ℕ) (l : List StreamHead) (s : StreamHead)
    → find_in id l ≡ some s
    → find_in id (remote_loop cnx l) ≡ some (raise_remote cnx s)
unfolding find_in remote_loop
remote_loop-find_in cnx id [] s h = cc
remote_loop-find_in cnx id (t ∷ l) s h =
    let same = (raise_remote-IsRaised cnx t).0 in
    let rest = remote_loop-find_in cnx id l s in
    elim (Bool-cases (t.stream_id == id)) [
      | inl here ↦
          let e : some t ≡ some s = rw here at h in
          let there : ((raise_remote cnx t).stream_id == id) ≡ true = rw same here in
          rw there (ap (λ u. some (raise_remote cnx u)) (some-injective t s e))
      | inr further ↦
          let beyond : ((raise_remote cnx t).stream_id == id) ≡ false = rw same further in
          rw beyond (rest (rw further at h))
    ]

-- Where the parameters of the peer arrive again, every stream is still found, its data unchanged, and
-- the limit that the peer granted for it does not fall.
pub update_stream_initial_remote-IsRaised :
    (cnx : Cnx) (id : ℕ) (s : StreamHead)
    → find_in id cnx.streams ≡ some s
    → (s' : StreamHead) × (find_in id (update_stream_initial_remote cnx).streams ≡ some s')
      × IsRaised s s'
unfolding update_stream_initial_remote
update_stream_initial_remote-IsRaised cnx id s h =
    (raise_remote cnx s, remote_loop-find_in cnx id cnx.streams s h, raise_remote-IsRaised cnx s)
