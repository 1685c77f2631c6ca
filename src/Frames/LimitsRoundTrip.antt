-- ===== src/Frames/LimitsRoundTrip.antt =====
-- picoquic/frames.c, the writers and parsers of limits, path challenges and plugin offers together.
use pquic.Base.{
  ℕ, ◌+◌, ◌-◌, ◌^◌, ◌≤◌, ◌<◌, ◌≡◌, refl, some, List, ◌∷◌, ◌++◌, length, arith, true, false,
  length-append, drop-append, take-append, le→leb, lt→leb_false, le→ltb, u64, sub64,
}
use pquic.Intformat.{varint_encode, varint_len, format_64}
use pquic.Connection.{Cnx}
use pquic.Connection.Input.{process_max_data_frame}
use pquic.Frames.Reads.{
  nonempty, length-varint_encode, append_assoc, frames_varint_decode-varint_encode,
  varint_len_positive,
}
use pquic.Frames.Frame.{parsed, outcome, max_data, max_stream_data, plugin_validate, path_challenge}
use pquic.Frames.Limits.{
  parse_max_data_frame, max_data_fields, parse_max_stream_data_frame, max_stream_data_fields,
}
use pquic.Frames.Control.{
  parse_path_challenge_frame, parse_plugin_validate_frame, plugin_validate_numbers,
  plugin_validate_read,
}
use pquic.Frames.Decode.{Mallocs, parse_frame, find_parser, parsers}
use pquic.Frames.Write.{
  SendStream, wrote, prepare_max_data_frame, prepare_max_stream_data_frame,
  prepare_path_challenge_frame, write_plugin_validate_frame,
}

max_data_read :
    (n m1 : ℕ) (rest : List ℕ)
    → n < 2 ^ 62
    → varint_len n ≤ m1
    → max_data_fields (varint_encode m1 n ++ rest) ≡ some (max_data n, rest)
unfolding max_data_fields
max_data_read n m1 rest h fits =
    rw (max_data_fields, frames_varint_decode-varint_encode n m1 rest h fits) refl

-- Where the new limit is below 2^62 and the buffer has a byte more than it takes, the limit is raised, the
-- frame fits the buffer, and the parser that is registered for its type returns the new limit with what
-- follows the frame. A peer whose limit was not above the new one has it as its own limit after processing
-- the frame.
pub process_max_data_frame-prepare_max_data_frame :
    (maxdata_local maxdata_increase bytes_max : ℕ) (m : Mallocs) (rest : List ℕ) (peer : Cnx)
    → maxdata_local + maxdata_increase < 2 ^ 62
    → 1 + varint_len (maxdata_local + maxdata_increase) ≤ bytes_max
    → m.frame_ok ≡ true
    → peer.maxdata_remote ≤ maxdata_local + maxdata_increase
    → (new_max : ℕ) × (bytes : List ℕ) × (prepare_max_data_frame maxdata_local maxdata_increase
          bytes_max
        ≡ (new_max, wrote bytes))
      × (new_max ≡ maxdata_local + maxdata_increase)
      × (length bytes ≤ bytes_max)
      × (parse_frame m (bytes ++ rest) ≡ some (parsed true (max_data new_max) rest))
      × ((process_max_data_frame peer new_max).maxdata_remote ≡ new_max)
unfolding prepare_max_data_frame parse_frame find_parser parsers parse_max_data_frame outcome
    process_max_data_frame
process_max_data_frame-prepare_max_data_frame local increase bytes_max m rest peer h room ok below =
    let n = local + increase in
    let same : u64 n ≡ n = omega arith in
    let l1 = varint_encode (bytes_max - 1) n in
    let p1 = varint_len_positive n h in
    let one = length-varint_encode n (bytes_max - 1) h (omega arith) in
    (
      n,
      4 ∷ l1,
      rw (prepare_max_data_frame, same, le→ltb bytes_max 1 (omega arith), nonempty l1 (omega arith))
          refl,
      refl,
      omega arith,
      rw (ok, max_data_read n (bytes_max - 1) rest h (omega arith)) refl,
      ground arith,
    )

max_stream_data_read :
    (id n m1 m2 : ℕ) (rest : List ℕ)
    → id < 2 ^ 62
    → n < 2 ^ 62
    → varint_len id ≤ m1
    → varint_len n ≤ m2
    → max_stream_data_fields ((varint_encode m1 id ++ varint_encode m2 n) ++ rest)
      ≡ some (max_stream_data id n, rest)
unfolding max_stream_data_fields
max_stream_data_read id n m1 m2 rest hi hn f1 f2 =
    rw
      (
        max_stream_data_fields,
        append_assoc (varint_encode m1 id) (varint_encode m2 n) rest,
        frames_varint_decode-varint_encode id m1 (varint_encode m2 n ++ rest) hi f1,
        frames_varint_decode-varint_encode n m2 rest hn f2,
      )
      refl

-- Where both numbers are below 2^62 and the buffer has a byte more than they take, the stream's limit
-- becomes the new one, the frame fits the buffer, and the parser that is registered for its type returns
-- both numbers with what follows the frame.
pub parse_frame-prepare_max_stream_data_frame :
    (stream : SendStream) (new_max_data bytes_max : ℕ) (m : Mallocs) (rest : List ℕ)
    → stream.stream_id < 2 ^ 62
    → new_max_data < 2 ^ 62
    → 1 + varint_len stream.stream_id + varint_len new_max_data ≤ bytes_max
    → bytes_max < 2 ^ 64
    → m.frame_ok ≡ true
    → (bytes : List ℕ) × (prepare_max_stream_data_frame stream bytes_max new_max_data
        ≡ (record stream { maxdata_local = new_max_data }, wrote bytes))
      × (length bytes ≤ bytes_max)
      × (parse_frame m (bytes ++ rest)
          ≡ some (parsed true (max_stream_data stream.stream_id new_max_data) rest))
unfolding prepare_max_stream_data_frame parse_frame find_parser parsers parse_max_stream_data_frame
    outcome
parse_frame-prepare_max_stream_data_frame stream n bytes_max m rest hi hn room word ok =
    let m1 = sub64 bytes_max 1 in
    let l1 = varint_encode m1 stream.stream_id in
    let m2 = sub64 m1 (length l1) in
    let l2 = varint_encode m2 n in
    let p1 = varint_len_positive stream.stream_id hi in
    let p2 = varint_len_positive n hn in
    let one = length-varint_encode stream.stream_id m1 hi (omega arith) in
    let two = length-varint_encode n m2 hn (omega arith) in
    (
      5 ∷ (l1 ++ l2),
      rw (prepare_max_stream_data_frame, nonempty l1 (omega arith), nonempty l2 (omega arith)) refl,
      omega (arith, length-append l1 l2),
      rw (ok, max_stream_data_read stream.stream_id n m1 m2 rest hi hn (omega arith) (omega arith))
          refl,
    )

plugin_validate_numbers_read :
    (id len m1 m2 : ℕ) (rest : List ℕ)
    → id < 2 ^ 62
    → len ≤ 250
    → varint_len id ≤ m1
    → varint_len len ≤ m2
    → plugin_validate_numbers (varint_encode m1 id ++ (varint_encode m2 len ++ rest))
      ≡ some ((id, len), rest)
unfolding plugin_validate_numbers
plugin_validate_numbers_read id len m1 m2 rest hi hn f1 f2 =
    rw
      (
        plugin_validate_numbers,
        frames_varint_decode-varint_encode id m1 (varint_encode m2 len ++ rest) hi f1,
        frames_varint_decode-varint_encode len m2 rest (omega arith) f2,
        le→leb len 250 hn,
      )
      refl

plugin_validate_read_pid :
    (id : ℕ) (pid rest : List ℕ)
    → plugin_validate_read true (some ((id, length pid), pid ++ rest))
      ≡ some (parsed true (plugin_validate id (length pid) pid) rest)
unfolding plugin_validate_read
plugin_validate_read_pid id pid rest =
    rw
      (
        le→ltb (length (pid ++ rest)) (length pid) (omega (arith, length-append pid rest)),
        take-append pid rest,
        drop-append pid rest,
      )
      refl

-- Where the number is below 2^62, the name has at most 250 bytes, and the buffer has a byte more than the
-- number, the name's length and the name take, the frame fits the buffer, and the parser that is registered
-- for its type returns the number and the name with what follows the frame.
pub parse_frame-write_plugin_validate_frame :
    (pid_id bytes_max : ℕ) (pid : List ℕ) (m : Mallocs) (rest : List ℕ)
    → pid_id < 2 ^ 62
    → length pid ≤ 250
    → 1 + varint_len pid_id + varint_len (length pid) + length pid ≤ bytes_max
    → bytes_max < 2 ^ 64
    → m.frame_ok ≡ true
    → m.pid_ok ≡ true
    → (bytes : List ℕ) × (write_plugin_validate_frame pid_id pid bytes_max ≡ wrote bytes)
      × (length bytes ≤ bytes_max)
      × (parse_frame m (bytes ++ rest)
          ≡ some (parsed true (plugin_validate pid_id (length pid) pid) rest))
unfolding write_plugin_validate_frame parse_frame find_parser parsers parse_plugin_validate_frame
parse_frame-write_plugin_validate_frame id bytes_max pid m rest hi short room word ok pid_ok =
    let m1 = sub64 bytes_max 1 in
    let l1 = varint_encode m1 id in
    let m2 = sub64 m1 (length l1) in
    let l2 = varint_encode m2 (length pid) in
    let p1 = varint_len_positive id hi in
    let p2 = varint_len_positive (length pid) (omega arith) in
    let one = length-varint_encode id m1 hi (omega arith) in
    let two = length-varint_encode (length pid) m2 (omega arith) (omega arith) in
    (
      0x1e ∷ (l1 ++ l2 ++ pid),
      rw
          (
            write_plugin_validate_frame,
            nonempty l1 (omega arith),
            nonempty l2 (omega arith),
            le→ltb bytes_max (1 + length l1 + length l2 + length pid) (omega arith),
          )
          refl,
      omega (arith, length-append (l1 ++ l2) pid, length-append l1 l2),
      rw
          (
            ok,
            pid_ok,
            append_assoc (l1 ++ l2) pid rest,
            append_assoc l1 l2 (pid ++ rest),
            plugin_validate_numbers_read id (length pid) m1 m2 (pid ++ rest) hi short (omega arith)
                (omega arith),
          )
          (plugin_validate_read_pid id pid rest),
    )

-- Where the buffer has nine bytes, the frame has nine, and the parser that is registered for its type returns
-- the eight bytes of the challenge, highest first, with what follows the frame.
pub parse_frame-prepare_path_challenge_frame :
    (challenge bytes_max : ℕ) (m : Mallocs) (rest : List ℕ)
    → 9 ≤ bytes_max
    → m.frame_ok ≡ true
    → (bytes : List ℕ) × (prepare_path_challenge_frame challenge bytes_max ≡ wrote bytes)
      × (length bytes ≡ 9)
      × (parse_frame m (bytes ++ rest)
          ≡ some (parsed false (path_challenge (format_64 challenge)) rest))
unfolding prepare_path_challenge_frame parse_frame find_parser parsers parse_path_challenge_frame
    format_64
parse_frame-prepare_path_challenge_frame challenge bytes_max m rest room ok = (
  0x0e ∷ format_64 challenge,
  rw (le→ltb bytes_max 9 room) refl,
  refl,
  rw (ok, lt→leb_false (length (0x0e ∷ format_64 challenge ++ rest)) 8 (omega arith)) refl,
)
