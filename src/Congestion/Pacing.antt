-- ===== src/Congestion/Pacing.antt =====
-- The pacing: its margin, and the time of the next packet.
use pquic.Base.{ℕ, ◌+◌, ◌*◌, ◌/◌, ◌^◌, ◌≤◌, ◌<◌, ◌≡◌, ◌⊎◌, arith}
use pquic.Congestion.{PathX, update_pacing_data, update_pacing_after_send}

-- The margin of the pacing is at least 1 ms, and no more than that or an eighth of the minimum delay.
pub update_pacing_data-pacing_margin_micros :
    (p : PathX)
    → let m = (update_pacing_data p).pacing_margin_micros in
      (1000 ≤ m) × ((m ≡ 1000) ⊎ (m ≤ p.rtt_min / 8))
unfolding update_pacing_data
update_pacing_data-pacing_margin_micros p = ground arith

-- Where no sum passes 2^64, the next packet never waits for a time that is over, and a packet that is
-- sent before the pacing allows it moves the next time by exactly the time of one packet, counted in
-- units of 1/1024; what is left of a unit is kept.
pub update_pacing_after_send-next_pacing_time :
    (p : PathX) (now : ℕ)
    → p.pacing_reminder_nano_sec + p.packet_time_nano_sec < 2 ^ 63
    → p.next_pacing_time < 2 ^ 63
    → let p' = update_pacing_after_send p now in
      (now ≤ p'.next_pacing_time)
      × ((p'.next_pacing_time ≡ now)
          ⊎ (2 ^ 10 * p'.next_pacing_time + p'.pacing_reminder_nano_sec
              ≡ 2 ^ 10 * p.next_pacing_time + p.pacing_reminder_nano_sec + p.packet_time_nano_sec))
unfolding update_pacing_after_send
update_pacing_after_send-next_pacing_time p now h k = ground arith
