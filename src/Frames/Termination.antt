-- ===== src/Frames/Termination.antt =====
-- picoquic/frames.c, the end of the loops of picoquic_decode_frames.
use pquic.Base.{ℕ, ◌≡◌, ◌⊎◌, some, List, ◌∷◌, length, true, false, Bool}
use pquic.Header.{parse_stream_header, refused}
use pquic.Frames.Frame.{Frame}
use pquic.Frames.Parse.{parse_stream_frame}
use pquic.Frames.Decode.{
  Mallocs, one_malloc, parsers, find_parser, Run, returned, undefined, out_of_fuel, Scan,
  parse_loop,
}
use pquic.Frames.Advance.{IsRest}

-- The loop came to an end, with a result or an undefined access.
abbrev pub ended {ℓ} : {A : Type ℓ} → Run A → Bool
ended (returned a) = true
ended undefined = true
ended out_of_fuel = false

-- At a place in the packet stands a byte whose parser is that of STREAM frames, and the reader of their
-- headers refuses what stands there.
abbrev pub HasRefused : List ℕ → Type 0
HasRefused packet =
    (b : ℕ) × (later : List ℕ) × (consumed : ℕ) × IsRest packet (b ∷ later)
    × (find_parser b parsers ≡ one_malloc parse_stream_frame)
    × (parse_stream_header (b ∷ later) (length (b ∷ later)) ≡ some (refused consumed))

module _ (m : ℕ → Mallocs) (epoch : ℕ) where
  -- It ends with that fuel, or with no fuel, and then there is a refused header.
  abbrev EndsOrSpins : ℕ → ℕ → Scan → List ℕ → Type 0
  EndsOrSpins n i s bytes =
      (ended (parse_loop m epoch n i s bytes) ≡ true)
      ⊎ (((fuel : ℕ) → parse_loop m epoch fuel i s bytes ≡ out_of_fuel) × HasRefused bytes)
