-- ===== src/Transport/Ends.antt =====
-- The loop over the parameters ends, and an error is an error of the connection.
use pquic.Base.{ℕ, ◌≡◌, Bool, true, false, List}
use pquic.Transport.Receive.{Receiving, is_zero}
use pquic.Transport.Extensions.{Place, at_bytes, outside_buffer, out_of_fuel}

-- Where the buffer is not left, a place is reached.
abbrev is_reached : Place → Bool
is_reached (at_bytes s bytes) = true
is_reached outside_buffer = false
is_reached out_of_fuel = false

-- The versions in front of the parameters are there, and not refused.
abbrev pub accepted : Place → Bool
accepted (at_bytes s bytes) = is_zero s.ret
accepted outside_buffer = false
accepted out_of_fuel = false

-- How the function ends, where `versions` is the place behind the versions: at some place in the bytes; or
-- with a read behind them, after versions that were not accepted.
pub data Ends (versions : Place) : Place → Type 0 where
  at_place : {s : Receiving} {bytes : List ℕ} → Ends versions (at_bytes s bytes)
  behind : accepted versions ≡ false → Ends versions outside_buffer
