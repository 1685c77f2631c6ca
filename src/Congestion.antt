-- ===== src/Congestion.antt =====
-- picoquic/newreno.c, the congestion window, and the pacing that picoquic/sender.c derives from it.
-- Every number is a uint64_t, but nb_rtt.
pub mod Window
pub mod Delays
pub mod Pacing
use pquic.Base.{
  ℕ, ◌+◌, ◌-◌, ◌*◌, ◌/◌, ◌%◌, ◌^◌, Bool, true, false, ◌&&◌, ◌||◌, Option, none, some, List, [], ◌∷◌,
  length, get_elem?, set, ltb, leb, ◌==◌, if◌then◌else◌, u64, sub64, minus_one64,
}

-- PICOQUIC_CWIN_INITIAL, PICOQUIC_CWIN_MINIMUM and NB_RTT_RENO
abbrev pub cwin_initial : ℕ
cwin_initial = 10 * 1536

abbrev pub cwin_minimum : ℕ
cwin_minimum = 2 * 1536

abbrev pub nb_rtt_reno : ℕ
nb_rtt_reno = 4

pub data AlgState : Type 0 where
  slow_start congestion_avoidance : AlgState

-- picoquic_newreno_state_t
pub record Newreno : Type 0 where
  pub alg_state : AlgState
  pub residual_ack : ℕ
  pub ssthresh : ℕ
  pub recovery_start : ℕ
  pub min_rtt : ℕ
  pub last_rtt : List ℕ
  pub nb_rtt : ℕ

-- The fields of picoquic_path_t that these functions use.
pub record PathX : Type 0 where
  pub congestion_alg_state : Option Newreno
  pub cwin : ℕ
  pub bytes_in_transit : ℕ
  pub send_mtu : ℕ
  pub smoothed_rtt : ℕ
  pub rtt_min : ℕ
  pub packet_time_nano_sec : ℕ
  pub pacing_margin_micros : ℕ
  pub next_pacing_time : ℕ
  pub pacing_reminder_nano_sec : ℕ

-- picoquic_congestion_notification_t; `other` stands for those that the switch ignores.
pub data Notification : Type 0 where
  acknowledgement repeat timeout spurious_repeat rtt_measured other : Notification

-- The state and cwin of a path whose malloc succeeds.
unfoldable pub newreno_init : Bool → PathX → PathX
newreno_init malloc_ok path_x =
    let nr_state : Newreno = record {
      alg_state = slow_start;
      residual_ack = 0;
      ssthresh = minus_one64;
      recovery_start = 0;
      min_rtt = 0;
      last_rtt = 0 ∷ 0 ∷ 0 ∷ 0 ∷ [];
      nb_rtt = 0;
    } in
    if malloc_ok
    then record path_x { congestion_alg_state = some nr_state; cwin = cwin_initial }
    else path_x

abbrev is_timeout : Notification → Bool
is_timeout timeout = true
is_timeout _ = false

abbrev pub is_slow_start : AlgState → Bool
is_slow_start slow_start = true
is_slow_start congestion_avoidance = false

-- The window, and the state of the algorithm.
unfoldable pub enter_recovery : ℕ → Bool → Newreno → ℕ → ℕ × Newreno
enter_recovery cwin after_timeout nr_state current_time =
    let half = cwin / 2 in
    let threshold = if ltb half cwin_minimum then cwin_minimum else half in
    let frozen = record nr_state {
      ssthresh = threshold;
      recovery_start = current_time;
      residual_ack = 0;
    } in
    if after_timeout
    then (cwin_minimum, record frozen { alg_state = slow_start })
    else (threshold, record frozen { alg_state = congestion_avoidance })

unfoldable pub acknowledge : PathX → Newreno → ℕ → ℕ × Newreno
acknowledge path_x nr_state nb_bytes_acknowledged =
    let grown = u64 (path_x.cwin + nb_bytes_acknowledged) in
    let complete_delta =
      u64 (u64 (nb_bytes_acknowledged * path_x.send_mtu) + nr_state.residual_ack) in
    if is_slow_start nr_state.alg_state
    then (if leb path_x.cwin (u64 (path_x.bytes_in_transit + nb_bytes_acknowledged))
        then (
          grown,
          if leb nr_state.ssthresh grown
              then record nr_state { alg_state = congestion_avoidance }
              else nr_state,
        )
        else (path_x.cwin, nr_state))
    else (
      u64 (path_x.cwin + complete_delta / path_x.cwin),
      record nr_state { residual_ack = complete_delta % path_x.cwin },
    )

unfoldable pub spurious : PathX → Newreno → ℕ → ℕ × Newreno
spurious path_x nr_state current_time =
    if ltb (sub64 current_time nr_state.recovery_start) path_x.smoothed_rtt
      && ltb path_x.cwin (u64 (2 * nr_state.ssthresh))
    then (u64 (2 * nr_state.ssthresh), record nr_state { alg_state = congestion_avoidance })
    else (path_x.cwin, nr_state)

-- The minimum over the measurements, up to the first place that holds none.
unfoldable pub rolling_loop : List ℕ → ℕ → ℕ
rolling_loop [] rolling_min = rolling_min
rolling_loop (r ∷ later) rolling_min =
    let rest = rolling_loop later (if ltb r rolling_min then r else rolling_min) in
    if r == 0 then rolling_min else rest

abbrev rolling : List ℕ → ℕ
rolling [] = 0
rolling (r ∷ later) = rolling_loop later r

-- The state with the measurement at its place in last_rtt; it leaves slow start where the delay grew
-- by more than a quarter.
unfoldable pub measured_at : Newreno → ℕ → ℕ → Newreno
measured_at nr_state place rtt_measurement =
    let smallest =
      if ltb rtt_measurement nr_state.min_rtt || nr_state.min_rtt == 0
      then rtt_measurement
      else nr_state.min_rtt in
    let measured = set nr_state.last_rtt place rtt_measurement in
    let delta_rtt = sub64 (rolling measured) smallest in
    let updated = record nr_state { min_rtt = smallest; last_rtt = measured; nb_rtt = place + 1 } in
    if ltb smallest (u64 (delta_rtt * 4))
    then record updated { alg_state = congestion_avoidance }
    else updated

-- `none`: the measurement is written outside last_rtt.
unfoldable pub measure : Newreno → ℕ → Option Newreno
measure nr_state rtt_measurement =
    let place = if ltb nb_rtt_reno nr_state.nb_rtt then 0 else nr_state.nb_rtt in
    if is_slow_start nr_state.alg_state && nr_state.ssthresh == minus_one64
    then (if ltb place (length nr_state.last_rtt)
        then some (measured_at nr_state place rtt_measurement)
        else none)
    else some nr_state

unfoldable pub update_pacing_data : PathX → PathX
update_pacing_data path_x =
    let time = u64 (u64 (path_x.smoothed_rtt * 1000) * path_x.send_mtu) / path_x.cwin in
    let eighth = path_x.rtt_min / 8 in
    let margin = u64 (16 * time) in
    let at_most = if ltb eighth margin then eighth else margin in
    record path_x {
      packet_time_nano_sec = time;
      pacing_margin_micros = if ltb at_most 1000 then 1000 else at_most;
    }

unfoldable pub update_pacing_after_send : PathX → ℕ → PathX
update_pacing_after_send path_x current_time =
    let reminder = u64 (path_x.pacing_reminder_nano_sec + path_x.packet_time_nano_sec) in
    if ltb path_x.next_pacing_time current_time
    then record path_x { next_pacing_time = current_time; pacing_reminder_nano_sec = 0 }
    else record path_x {
      next_pacing_time = u64 (path_x.next_pacing_time + reminder / 2 ^ 10);
      pacing_reminder_nano_sec = reminder % 2 ^ 10;
    }

-- The switch of picoquic_newreno_notify.
unfoldable pub react : PathX → Newreno → Notification → ℕ → ℕ → ℕ → Option (ℕ × Newreno)
react path_x nr_state acknowledgement rtt_measurement nb_bytes_acknowledged current_time =
    some (acknowledge path_x nr_state nb_bytes_acknowledged)
react path_x nr_state spurious_repeat rtt_measurement nb_bytes_acknowledged current_time =
    some (spurious path_x nr_state current_time)
react path_x nr_state rtt_measured rtt_measurement nb_bytes_acknowledged current_time =
    elim (measure nr_state rtt_measurement) [
      | none ↦ none
      | some measured ↦ some (path_x.cwin, measured)
    ]
react path_x nr_state other rtt_measurement nb_bytes_acknowledged current_time =
    some (path_x.cwin, nr_state)
react path_x nr_state notification rtt_measurement nb_bytes_acknowledged current_time = some (
    if ltb path_x.smoothed_rtt (sub64 current_time nr_state.recovery_start)
    then enter_recovery path_x.cwin (is_timeout notification) nr_state current_time
    else (path_x.cwin, nr_state))

-- The path with the window and the state, and its pacing data brought up to date.
abbrev pub finish : PathX → Option (ℕ × Newreno) → Option PathX
finish path_x none = none
finish path_x (some (window, reacted)) =
    some (update_pacing_data (record path_x { congestion_alg_state = some reacted; cwin = window }))

unfoldable pub newreno_notify : PathX → Notification → ℕ → ℕ → ℕ → Option PathX
newreno_notify path_x notification rtt_measurement nb_bytes_acknowledged current_time =
    elim path_x.congestion_alg_state [
      | none ↦ some (update_pacing_data path_x)
      | some nr_state ↦
          finish path_x
            (react path_x nr_state notification rtt_measurement nb_bytes_acknowledged current_time)
    ]

unfoldable pub newreno_delete : PathX → PathX
newreno_delete path_x = record path_x { congestion_alg_state = none }
