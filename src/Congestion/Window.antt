-- ===== src/Congestion/Window.antt =====
-- The congestion window never falls below its minimum, and the pacing margin never below 1 ms.
use pquic.Base.{
  zero, suc, ◌⊎◌, ℕ, ◌+◌, ◌*◌, ◌/◌, ◌%◌, ◌^◌, ◌≤◌, ◌<◌, ◌≡◌, refl, ap, inl, inr, Bool, true, false,
  Option, none, some, List, [], ◌∷◌, length, set, arith, if◌then◌else◌, leb, ◌==◌, ◌&&◌, le→ltb,
  lt→ltb, u64, minus_one64, Bool-cases,
}
use native.Mathlib.Decide.{dec_lt}
use native.Mathlib.Nat.{mul-le-mul_left, div-le_self, mod-lt}
use pquic.Congestion.{
  congestion_avoidance, is_slow_start, Newreno, PathX, Notification, acknowledgement, repeat,
  timeout, spurious_repeat, rtt_measured, other, cwin_minimum, nb_rtt_reno, enter_recovery,
  acknowledge, spurious, measured_at, measure, finish, react, update_pacing_data, newreno_notify,
}

-- The window and the threshold are not below the minimum, what is left of the last acknowledgement is
-- less than a window, and the next measurement has a place or stands one past the last.
abbrev pub IsWindow : ℕ → Newreno → Type 0
IsWindow cwin nr_state =
    (cwin_minimum ≤ cwin)
    × (cwin_minimum ≤ nr_state.ssthresh)
    × (nr_state.residual_ack < cwin)
    × (length nr_state.last_rtt ≡ nb_rtt_reno)
    × (nr_state.nb_rtt ≤ nb_rtt_reno)

enter_recovery-IsWindow :
    (cwin : ℕ) (after_timeout : Bool) (nr_state : Newreno) (now : ℕ)
    → IsWindow cwin nr_state
    → let r = enter_recovery cwin after_timeout nr_state now in IsWindow r.0 r.1
unfolding enter_recovery
enter_recovery-IsWindow cwin after_timeout nr_state now w = ground arith

delta_bound : (acked mtu : ℕ) → acked < 2 ^ 32 → mtu < 2 ^ 16 → acked * mtu < 2 ^ 48
delta_bound acked mtu h k =
    let m : mtu ≤ 2 ^ 16 = omega arith in omega (arith, mul-le-mul_left acked m)

grown-IsWindow :
    (cwin acked transit : ℕ) (nr_state : Newreno)
    → IsWindow cwin nr_state
    → cwin < 2 ^ 62
    → acked < 2 ^ 32
    → let grown = u64 (cwin + acked) in
      let left =
        if leb nr_state.ssthresh grown
        then record nr_state { alg_state = congestion_avoidance }
        else nr_state in
      let r : ℕ × Newreno = if leb cwin transit then (grown, left) else (cwin, nr_state) in
      IsWindow r.0 r.1
grown-IsWindow cwin acked transit nr_state w h k = ground arith

avoidance_bounds :
    (cwin product residual : ℕ)
    → cwin_minimum ≤ cwin
    → cwin < 2 ^ 62
    → residual < cwin
    → product < 2 ^ 48
    → let delta = u64 (u64 product + residual) in
      (cwin ≤ u64 (cwin + delta / cwin)) × (delta % cwin < cwin)
avoidance_bounds cwin product residual m h r p =
    let positive : 0 < cwin = omega arith in
    let delta = u64 (u64 product + residual) in
    let remainder = mod-lt delta positive in (omega (arith, div-le_self delta cwin), remainder)

acknowledge-IsWindow :
    (p : PathX) (nr_state : Newreno) (acked : ℕ)
    → IsWindow p.cwin nr_state
    → p.cwin < 2 ^ 62
    → acked < 2 ^ 32
    → p.send_mtu < 2 ^ 16
    → let r = acknowledge p nr_state acked in IsWindow r.0 r.1
unfolding acknowledge
acknowledge-IsWindow p nr_state acked w h k m =
    elim (Bool-cases (is_slow_start nr_state.alg_state)) [
      | inl slow ↦
          rw slow (grown-IsWindow p.cwin acked (u64 (p.bytes_in_transit + acked)) nr_state w h k)
      | inr fast ↦
          let (up, rest) =
            avoidance_bounds p.cwin (acked * p.send_mtu) nr_state.residual_ack w.0 h w.2
              (delta_bound acked p.send_mtu k m) in
          rw fast (omega arith, w.1, omega arith, w.3, w.4)
    ]

spurious-IsWindow :
    (p : PathX) (nr_state : Newreno) (now : ℕ)
    → IsWindow p.cwin nr_state
    → let r = spurious p nr_state now in IsWindow r.0 r.1
unfolding spurious
spurious-IsWindow p nr_state now w = ground arith

length-set : (l : List ℕ) (i v : ℕ) → length (set l i v) ≡ length l
length-set [] i v = refl
length-set (x ∷ l) zero v = refl
length-set (x ∷ l) (suc i) v = ap suc (length-set l i v)

abbrev IsKept : Newreno → Newreno → Type 0
IsKept old new =
    (new.ssthresh ≡ old.ssthresh)
    × (new.residual_ack ≡ old.residual_ack)
    × (length new.last_rtt ≡ nb_rtt_reno)
    × (new.nb_rtt ≤ nb_rtt_reno)

measured_at-IsKept :
    (nr_state : Newreno) (place rtt : ℕ)
    → length nr_state.last_rtt ≡ nb_rtt_reno
    → place < nb_rtt_reno
    → IsKept nr_state (measured_at nr_state place rtt)
unfolding measured_at
measured_at-IsKept nr_state place rtt l h =
    let n = length-set nr_state.last_rtt place rtt in ground arith

-- A measurement is kept inside the array, or stands at its end.
measure_cases :
    (nr_state : Newreno) (rtt : ℕ)
    → length nr_state.last_rtt ≡ nb_rtt_reno
    → nr_state.nb_rtt ≤ nb_rtt_reno
    → ((new : Newreno) × (measure nr_state rtt ≡ some new) × IsKept nr_state new)
      ⊎ ((nr_state.nb_rtt ≡ nb_rtt_reno) × (measure nr_state rtt ≡ none))
unfolding measure
measure_cases nr_state rtt l n =
    let first = le→ltb nb_rtt_reno nr_state.nb_rtt n in
    elim (Bool-cases (is_slow_start nr_state.alg_state && nr_state.ssthresh == minus_one64)) [
      | inl g ↦ elim (dec_lt nr_state.nb_rtt nb_rtt_reno) [
        | yes h ↦ inl (
          measured_at nr_state nr_state.nb_rtt rtt,
          rw (g, first, l, lt→ltb nr_state.nb_rtt nb_rtt_reno h) refl,
          measured_at-IsKept nr_state nr_state.nb_rtt rtt l h,
        )
        | no h ↦
            inr
              (omega arith, rw (g, first, l, le→ltb nr_state.nb_rtt nb_rtt_reno (omega arith)) refl)
      ]
      | inr g ↦ inl (nr_state, rw g refl, (refl, refl, l, n))
    ]

-- A path whose New Reno state is in order.
abbrev pub IsReno : PathX → Newreno → Type 0
IsReno p nr_state = (p.congestion_alg_state ≡ some nr_state) × IsWindow p.cwin nr_state

-- The path after a notification: in order, or no path at the fifth measurement.
abbrev pub IsNotified : Newreno → Notification → Option PathX → Type 0
IsNotified old n r =
    ((p : PathX) × (nr_state : Newreno) × (r ≡ some p) × IsReno p nr_state)
    ⊎ ((n ≡ rtt_measured) × (old.nb_rtt ≡ nb_rtt_reno) × (r ≡ none))

finish-IsNotified :
    (old : Newreno) (n : Notification) (p : PathX) (r : ℕ × Newreno)
    → IsWindow r.0 r.1
    → IsNotified old n (finish p (some r))
unfolding update_pacing_data
finish-IsNotified old n p r w = inl (_, r.1, refl, (refl, w))

recovery-IsWindow :
    (p : PathX) (nr_state : Newreno) (after_timeout b : Bool) (now : ℕ)
    → IsWindow p.cwin nr_state
    → let r : ℕ × Newreno =
        if b then enter_recovery p.cwin after_timeout nr_state now else (p.cwin, nr_state) in
      IsWindow r.0 r.1
recovery-IsWindow p nr_state after_timeout true now w =
    enter_recovery-IsWindow p.cwin after_timeout nr_state now w
recovery-IsWindow p nr_state after_timeout false now w = w

react-IsNotified :
    (p : PathX) (nr_state : Newreno) (n : Notification) (rtt acked now : ℕ)
    → IsWindow p.cwin nr_state
    → p.cwin < 2 ^ 62
    → acked < 2 ^ 32
    → p.send_mtu < 2 ^ 16
    → IsNotified nr_state n (finish p (react p nr_state n rtt acked now))
unfolding react
react-IsNotified p nr_state acknowledgement rtt acked now w h k m =
    finish-IsNotified nr_state acknowledgement p (acknowledge p nr_state acked)
      (acknowledge-IsWindow p nr_state acked w h k m)
react-IsNotified p nr_state repeat rtt acked now w h k m =
    finish-IsNotified nr_state repeat p _ (recovery-IsWindow p nr_state false _ now w)
react-IsNotified p nr_state timeout rtt acked now w h k m =
    finish-IsNotified nr_state timeout p _ (recovery-IsWindow p nr_state true _ now w)
react-IsNotified p nr_state spurious_repeat rtt acked now w h k m =
    finish-IsNotified nr_state spurious_repeat p (spurious p nr_state now)
      (spurious-IsWindow p nr_state now w)
react-IsNotified p nr_state rtt_measured rtt acked now w h k m =
    elim (measure_cases nr_state rtt w.3 w.4) [
      | inl (new, e, (t, r, l, n)) ↦
          rw (finish, react, e)
            (finish-IsNotified nr_state rtt_measured p (p.cwin, new)
              (w.0, omega arith, omega arith, l, n))
      | inr (n, e) ↦ rw (finish, react, e) (inr (refl, n, refl))
    ]
react-IsNotified p nr_state other rtt acked now w h k m =
    finish-IsNotified nr_state other p (p.cwin, nr_state) w

-- A path whose window, below 2^62, and threshold are not below the minimum of two packets, and whose
-- New Reno state is in order, is so after any notification of less than 2^32 acknowledged bytes on a
-- path with packets below 2^16 bytes; only the measurement of the delay that follows four others can
-- have no result, as it has no place.
pub newreno_notify-IsNotified :
    (p : PathX) (nr_state : Newreno) (n : Notification) (rtt acked now : ℕ)
    → IsReno p nr_state
    → p.cwin < 2 ^ 62
    → acked < 2 ^ 32
    → p.send_mtu < 2 ^ 16
    → IsNotified nr_state n (newreno_notify p n rtt acked now)
unfolding newreno_notify
newreno_notify-IsNotified p nr_state n rtt acked now (e, w) h k m =
    rw (newreno_notify, e) (react-IsNotified p nr_state n rtt acked now w h k m)
