-- ===== src/Congestion/Delays.antt =====
-- picoquic/newreno.c, the measurements of the delay in the first slow start.
use pquic.Base.{
  ℕ, zero, suc, ◌+◌, ◌*◌, ◌<◌, ◌≡◌, refl, sym, ap, ◌∙◌, true, false, none, some, Option, List, [],
  ◌∷◌, ◌++◌, All, length, set, arith, if◌then◌else◌, ltb, ◌==◌, ◌||◌, le→ltb, lt→ltb, u64, sub64,
  minus_one64, length-append,
}
use pquic.Congestion.{
  slow_start, Newreno, PathX, rtt_measured, nb_rtt_reno, newreno_init, rolling_loop, measured_at,
  measure, react, update_pacing_data, newreno_notify,
}

-- Places that hold no measurement yet.
abbrev free : ℕ → List ℕ
free zero = []
free (suc n) = 0 ∷ free n

abbrev smaller : ℕ → ℕ → ℕ
smaller rtt r = if ltb rtt r then rtt else r

-- The smallest of some measurements.
least : ℕ → List ℕ → ℕ
least r [] = r
least r (rtt ∷ later) = least (smaller rtt r) later

least-append : (r : ℕ) (l : List ℕ) (rtt : ℕ) → least r (l ++ (rtt ∷ [])) ≡ smaller rtt (least r l)
unfolding least
least-append r [] rtt = refl
least-append r (x ∷ l) rtt = least-append (smaller x r) l rtt

least_positive : (r : ℕ) (l : List ℕ) → 0 < r → All (λ x. 0 < x) l → 0 < least r l
unfolding least
least_positive r [] h a = h
least_positive r (x ∷ l) h a = least_positive (smaller x r) l (ground (arith, a.0)) a.1

rolling_loop-least :
    (r : ℕ) (l : List ℕ) (n : ℕ) → All (λ x. 0 < x) l → rolling_loop (l ++ free n) r ≡ least r l
unfolding least rolling_loop
rolling_loop-least r [] zero a = refl
rolling_loop-least r [] (suc n) a = refl
rolling_loop-least r (x ∷ l) n a =
    let k = rolling_loop-least (smaller x r) l n a.1 in ground (arith, k, a.0)

-- The next free place is the one behind the measurements.
set-free :
    (l : List ℕ) (n rtt : ℕ) → set (l ++ free (suc n)) (length l) rtt ≡ (l ++ (rtt ∷ [])) ++ free n
set-free [] n rtt = refl
set-free (x ∷ l) n rtt = ap (◌∷◌ x) (set-free l n rtt)

All-append :
    (l : List ℕ) (rtt : ℕ) → All (λ x. 0 < x) l → 0 < rtt → All (λ x. 0 < x) (l ++ (rtt ∷ []))
All-append [] rtt a h = (h, tt)
All-append (x ∷ l) rtt a h = (a.0, All-append l rtt a.1 h)

-- The state of the first slow start, with its smallest measurement, its places and their number.
abbrev early : ℕ → List ℕ → ℕ → Newreno
early smallest places count = record {
  alg_state = slow_start;
  residual_ack = 0;
  ssthresh = minus_one64;
  recovery_start = 0;
  min_rtt = smallest;
  last_rtt = places;
  nb_rtt = count;
}

-- The smallest measurement kept is the smallest one.
not_grown : (smallest : ℕ) → ltb smallest (u64 (sub64 smallest smallest * 4)) ≡ false
not_grown smallest =
    let same : sub64 smallest smallest ≡ 0 = omega arith in
    ap (λ n. ltb smallest (u64 (n * 4))) same ∙ le→ltb smallest 0 (omega arith)

measured_at-early :
    (smallest next first place rtt : ℕ) (places later : List ℕ)
    → (if ltb rtt smallest || smallest == 0 then rtt else smallest) ≡ next
    → set places place rtt ≡ first ∷ later
    → rolling_loop later first ≡ next
    → measured_at (early smallest places place) place rtt ≡ early next (first ∷ later) (place + 1)
unfolding measured_at
measured_at-early smallest next first place rtt places later e e2 e3 =
    rw (e, e2, e3, not_grown next) refl

-- The notification of a delay that has a place.
notified_early :
    (p : PathX) (rtt now count : ℕ) (smallest : ℕ) (places : List ℕ) (measured : Newreno)
    → p.congestion_alg_state ≡ some (early smallest places count)
    → length places ≡ 4
    → count < 4
    → measured_at (early smallest places count) count rtt ≡ measured
    → (q : PathX) × (newreno_notify p rtt_measured rtt 0 now ≡ some q)
      × (q.congestion_alg_state ≡ some measured)
unfolding newreno_notify react measure update_pacing_data
notified_early p rtt now count smallest places measured e l h m = (
  update_pacing_data (record p { congestion_alg_state = some measured; cwin = p.cwin }),
  rw
      (
        newreno_notify,
        e,
        react,
        measure,
        le→ltb nb_rtt_reno count (omega arith),
        l,
        lt→ltb count 4 h,
        m,
      )
      refl,
  refl,
)

notified_full :
    (p : PathX) (rtt now smallest : ℕ) (places : List ℕ)
    → p.congestion_alg_state ≡ some (early smallest places 4)
    → length places ≡ 4
    → newreno_notify p rtt_measured rtt 0 now ≡ none
unfolding newreno_notify react measure
notified_full p rtt now smallest places e l = rw (newreno_notify, e, react, measure, l) refl

-- A path in the first slow start, behind these measurements, with some free places.
abbrev IsEarly : ℕ → List ℕ → ℕ → PathX → Type 0
IsEarly r l n p =
    p.congestion_alg_state ≡ some (early (least r l) (r ∷ (l ++ free n)) (suc (length l)))

measured_first :
    (p : PathX) (r now : ℕ)
    → p.congestion_alg_state ≡ some (early 0 (free 4) 0)
    → (q : PathX) × (newreno_notify p rtt_measured r 0 now ≡ some q) × IsEarly r [] 3 q
unfolding least rolling_loop
measured_first p r now e =
    let m = measured_at-early 0 r r 0 r (free 4) (free 3) (ground arith) refl refl in
    notified_early p r now 0 0 (free 4) _ e refl (omega arith) m

measured_later :
    (p : PathX) (r : ℕ) (l : List ℕ) (n rtt now : ℕ)
    → IsEarly r l (suc n) p
    → length (r ∷ (l ++ free (suc n))) ≡ 4
    → suc (length l) < 4
    → 0 < r
    → All (λ x. 0 < x) l
    → 0 < rtt
    → (q : PathX) × (newreno_notify p rtt_measured rtt 0 now ≡ some q)
      × IsEarly r (l ++ (rtt ∷ [])) n q
measured_later p r l n rtt now e size few first others h =
    let positive = least_positive r l first others in
    let next : (if ltb rtt (least r l) || least r l == 0 then rtt else least r l)
        ≡ least r (l ++ (rtt ∷ [])) =
      ground (arith, positive) ∙ sym (least-append r l rtt) in
    let m =
      measured_at-early (least r l) _ r (suc (length l)) rtt (r ∷ (l ++ free (suc n)))
        ((l ++ (rtt ∷ [])) ++ free n) next (ap (◌∷◌ r) (set-free l n rtt))
        (rolling_loop-least r (l ++ (rtt ∷ [])) n (All-append l rtt others h)) in
    let (q, taken, s) =
      notified_early p rtt now (suc (length l)) (least r l) (r ∷ (l ++ free (suc n))) _ e size few
        m in
    (
      q,
      taken,
      s
          ∙ ap (λ c. some (early (least r (l ++ (rtt ∷ []))) (r ∷ ((l ++ (rtt ∷ [])) ++ free n)) c))
              (omega (arith, length-append l (rtt ∷ []))),
    )

-- The notifications of some delays, one after the other.
abbrev pub measure_all : PathX → ℕ → List ℕ → Option PathX
measure_all p now [] = some p
measure_all p now (rtt ∷ later) = elim (newreno_notify p rtt_measured rtt 0 now) [
  | none ↦ none
  | some q ↦ measure_all q now later
]

measure_all-taken :
    (p q : PathX) (now rtt : ℕ) (later : List ℕ)
    → newreno_notify p rtt_measured rtt 0 now ≡ some q
    → measure_all p now (rtt ∷ later) ≡ measure_all q now later
measure_all-taken p q now rtt later e = rw (measure_all, e) refl

-- Let a path start New Reno, and let four delays above 0 be measured, whatever they are: they are taken, and
-- the path is in slow start still, however much the delay has grown. The next measurement, whatever it is,
-- has no result, as it would be written outside last_rtt.
pub newreno_notify-newreno_init_outside :
    (p : PathX) (now r0 r1 r2 r3 rtt : ℕ)
    → All (λ (r : ℕ). 0 < r) (r0 ∷ r1 ∷ r2 ∷ r3 ∷ [])
    → (q : PathX) × (nr_state : Newreno) × (measure_all
          (newreno_init true p)
          now
          (r0 ∷ r1 ∷ r2 ∷ r3 ∷ [])
        ≡ some q)
      × (q.congestion_alg_state ≡ some nr_state)
      × (nr_state.alg_state ≡ slow_start)
      × (newreno_notify q rtt_measured rtt 0 now ≡ none)
unfolding newreno_init
newreno_notify-newreno_init_outside p now r0 r1 r2 r3 rtt (h0, (h1, (h2, (h3, done)))) =
    let start = newreno_init true p in
    let (q0, e0, v0) = measured_first start r0 now refl in
    let (q1, e1, v1) = measured_later q0 r0 [] 2 r1 now v0 refl (omega arith) h0 tt h1 in
    let (q2, e2, v2) =
      measured_later q1 r0 (r1 ∷ []) 1 r2 now v1 refl (omega arith) h0 (h1, tt) h2 in
    let (q3, e3, v3) =
      measured_later q2 r0 (r1 ∷ r2 ∷ []) 0 r3 now v2 refl (omega arith) h0 (h1, (h2, tt)) h3 in
    (
      q3,
      early (least r0 (r1 ∷ r2 ∷ r3 ∷ [])) (r0 ∷ r1 ∷ r2 ∷ r3 ∷ []) 4,
      measure_all-taken start q0 now r0 (r1 ∷ r2 ∷ r3 ∷ []) e0
          ∙ measure_all-taken q0 q1 now r1 (r2 ∷ r3 ∷ []) e1
          ∙ measure_all-taken q1 q2 now r2 (r3 ∷ []) e2
          ∙ measure_all-taken q2 q3 now r3 [] e3,
      v3,
      refl,
      notified_full q3 rtt now (least r0 (r1 ∷ r2 ∷ r3 ∷ [])) (r0 ∷ r1 ∷ r2 ∷ r3 ∷ []) v3 refl,
    )
