-- ===== src/Frames/Invariants.antt =====
-- What holds of the connection and of the queue of frames through the decoding of a packet.
use mathlib.Core.Path.{subst}
use pquic.Base.{
  ℕ, zero, suc, ◌≡◌, sym, inl, inr, Bool, true, false, Option, none, some, List, [], ◌∷◌,
  Bool-cases, Option-cases, ◌⊎◌, if◌then◌else◌, ◌&&◌, arith,
}
use pquic.Connection.{Cnx, connection_error}
use pquic.Connection.Accounting.{IsAccounted, connection_error-IsAccounted}
use pquic.Frames.Frame.{Frame, Outcome}
use pquic.Frames.Decode.{
  Mallocs, parse_frame, Run, returned, undefined, out_of_fuel, frame_allowed, Scan, report, enqueue,
  parse_loop, new_scan, process_loop, finish_decoding, Decoded, decode_frames, protocol_violation,
  frame_format_error,
}

-- A property of the result, if the loop returns one.
abbrev pub Returns {ℓ κ} : {A : Type ℓ} → (A → Type κ) → Run A → Type κ
Returns P (returned a) = P a
Returns P undefined = Unit
Returns P out_of_fuel = Unit

module _ {κ} (P : Scan → Type κ) (m : ℕ → Mallocs) (epoch : ℕ)
    (keeps : (queue_ok : Bool) (s : Scan) (b : ℕ) (o : Outcome)
      → frame_allowed epoch b ≡ true
      → P s
      → P (enqueue queue_ok s b o).0)
    (refuses : (s : Scan) (b : ℕ)
      → P s
      → P (record s { cnx = connection_error s.cnx protocol_violation b; in_packet = false })) where
  -- What each round keeps holds at the end.
  parse_loop-Returns :
      (fuel i : ℕ) (s : Scan) (bytes : List ℕ) → P s → Returns P (parse_loop m epoch fuel i s bytes)
  unfolding parse_loop
  parse_loop-Returns zero i s bytes h = tt
  parse_loop-Returns (suc fuel) i s [] h = h
  parse_loop-Returns (suc fuel) i s (b ∷ bytes) h = elim (Bool-cases (frame_allowed epoch b)) [
    | inr forbidden ↦ rw forbidden (refuses s b h)
    | inl allowed ↦ elim (Option-cases (parse_frame (m i) (b ∷ bytes))) [
      | inl e ↦ rw (allowed, e) tt
      | inr (o, e) ↦
          let k = keeps (m i).queue_ok s b o allowed h in
          elim (Option-cases (enqueue (m i).queue_ok s b o).1) [
            | inl e2 ↦ rw (allowed, e, e2) k
            | inr (rest, e2) ↦
                rw (allowed, e, e2)
                  (parse_loop-Returns fuel (suc i) (enqueue (m i).queue_ok s b o).0 rest k)
          ]
    ]
  ]

-- PADDING, CONNECTION_CLOSE, ACK, PATH_CHALLENGE, PATH_RESPONSE, CRYPTO and ACK_ECN, by their numbers.
abbrev pub HandshakeType : ℕ → Type 0
HandshakeType b =
    (b ≡ 0) ⊎ ((b ≡ 2) ⊎ ((b ≡ 0x0d) ⊎ ((b ≡ 0x0e) ⊎ ((b ≡ 0x0f) ⊎ ((b ≡ 0x18) ⊎ (b ≡ 0x1a))))))

enqueue_cnx :
    (queue_ok : Bool) (s : Scan) (b : ℕ) (o : Outcome)
    → (enqueue queue_ok s b o).0.cnx ≡ report s.cnx o.format_error
unfolding enqueue
enqueue_cnx queue_ok s b o = ground arith

abbrev OfHandshake : (ℕ × Frame) → Type 0
OfHandshake entry = HandshakeType entry.0

report-IsAccounted :
    (cnx : Cnx) (error : Option ℕ) → IsAccounted cnx → IsAccounted (report cnx error)
unfolding report
report-IsAccounted cnx none a = a
report-IsAccounted cnx (some frame_type) a =
    connection_error-IsAccounted cnx frame_format_error frame_type a

enqueue-IsAccounted :
    (queue_ok : Bool) (s : Scan) (b : ℕ) (o : Outcome)
    → IsAccounted s.cnx
    → IsAccounted (enqueue queue_ok s b o).0.cnx
enqueue-IsAccounted queue_ok s b o a =
    subst IsAccounted (sym (enqueue_cnx queue_ok s b o)) (report-IsAccounted s.cnx o.format_error a)

-- An operation that processes frames keeps the accounts.
abbrev pub KeepsAccounts : (ℕ → Frame → Cnx → Cnx × Bool) → Type 0
KeepsAccounts process =
    (b : ℕ) (frame : Frame) (cnx : Cnx) → IsAccounted cnx → IsAccounted (process b frame cnx).0

process_loop-IsAccounted :
    (process : ℕ → Frame → Cnx → Cnx × Bool) (cnx : Cnx) (frames : List (ℕ × Frame))
    → KeepsAccounts process
    → IsAccounted cnx
    → IsAccounted (process_loop process cnx frames).0
unfolding process_loop
process_loop-IsAccounted process cnx [] keeps a = a
process_loop-IsAccounted process cnx ((b, frame) ∷ later) keeps a =
    elim (Bool-cases (process b frame cnx).1) [
      | inl accepted ↦ rw accepted (
          process_loop-IsAccounted process (process b frame cnx).0 later keeps
            (keeps b frame cnx a))
      | inr refused ↦ rw refused (keeps b frame cnx a)
    ]

progress-IsAccounted :
    (b : Bool) (cnx : Cnx) (now : ℕ)
    → IsAccounted cnx
    → IsAccounted (if b then record cnx { latest_progress_time = now } else cnx)
progress-IsAccounted true cnx now a = record {
  counted = a.counted;
  allowed = a.allowed;
  ordered = a.ordered;
}
progress-IsAccounted false cnx now a = a

either-IsAccounted :
    (b : Bool) (x y : Decoded)
    → IsAccounted x.cnx
    → IsAccounted y.cnx
    → IsAccounted (if b then x else y).cnx
either-IsAccounted true x y h k = h
either-IsAccounted false x y h k = k

finish_decoding-IsAccounted :
    (process : ℕ → Frame → Cnx → Cnx × Bool) (now : ℕ) (s : Scan)
    → KeepsAccounts process
    → IsAccounted s.cnx
    → IsAccounted (finish_decoding process now s).cnx
unfolding finish_decoding
finish_decoding-IsAccounted process now s keeps a =
    let r = process_loop process s.cnx s.frames in
    either-IsAccounted s.in_packet _ _
      (progress-IsAccounted (r.1 && s.ack_needed) r.0 now
        (process_loop-IsAccounted process s.cnx s.frames keeps a))
      a

scan-IsAccounted :
    (m : ℕ → Mallocs) (epoch fuel : ℕ) (cnx : Cnx) (bytes : List ℕ)
    → IsAccounted cnx
    → Returns (λ s. IsAccounted s.cnx) (parse_loop m epoch fuel 0 (new_scan cnx) bytes)
scan-IsAccounted m epoch fuel cnx bytes a =
    parse_loop-Returns (λ s. IsAccounted s.cnx) m epoch
      (λ queue_ok s b o allowed. enqueue-IsAccounted queue_ok s b o)
      (λ s b. connection_error-IsAccounted s.cnx protocol_violation b) fuel 0 (new_scan cnx) bytes a

after-IsAccounted :
    (process : ℕ → Frame → Cnx → Cnx × Bool) (now : ℕ) (r : Run Scan)
    → KeepsAccounts process
    → Returns (λ s. IsAccounted s.cnx) r
    → Returns
        (λ d. IsAccounted d.cnx)
        (elim r as (λ _. Run Decoded) [
          | returned s ↦ returned (finish_decoding process now s)
          | undefined ↦ undefined
          | out_of_fuel ↦ out_of_fuel
        ])
after-IsAccounted process now (returned s) keeps a =
    finish_decoding-IsAccounted process now s keeps a
after-IsAccounted process now undefined keeps a = tt
after-IsAccounted process now out_of_fuel keeps a = tt

pub decode_frames_keeps :
    (process : ℕ → Frame → Cnx → Cnx × Bool) (m : ℕ → Mallocs) (fuel epoch now : ℕ) (cnx : Cnx)
    (bytes : List ℕ)
    → KeepsAccounts process
    → IsAccounted cnx
    → Returns (λ d. IsAccounted d.cnx) (decode_frames process m fuel epoch now cnx bytes)
unfolding decode_frames
decode_frames_keeps process m fuel epoch now cnx bytes keeps a =
    after-IsAccounted process now _ keeps (scan-IsAccounted m epoch fuel cnx bytes a)
