-- ===== src/Transport/Sent.antt =====
-- The list of the parameters that are sent, from right to left, and its size.
use pquic.Base.{
  ℕ, ◌+◌, ◌≡◌, ◌<◌, ◌≤◌, refl, ap, Bool, not, List, [], ◌∷◌, ◌++◌, length, ltb, ◌==◌, if◌then◌else◌,
  arith, u8, u16,
}
use mathlib.Core.List.{append_assoc, append-nil}
use pquic.Intformat.{format_16, format_32}
use pquic.Transport.{
  PreferredAddress, length_preferred_address, TransportParameters,
  prepare_transport_param_stream_id,
}
use pquic.Transport.Run.{length-parameter_if}
use pquic.Transport.Prepare.{
  parameter, parameter_if, first_parameters, last_parameters, parameters_size,
}

same_test : (n k : ℕ) → (if not (n == 0) then k else 0) ≡ (if ltb 0 n then k else 0)
same_test n k = ground arith

without :
    (a : PreferredAddress)
    → a.ip_version ≡ 0
    → (if not (a.ip_version == 0) then length_preferred_address a else 0) ≡ 0
without a h = ground arith

if_le : (test : Bool) (n : ℕ) → (if test then n else 0) ≤ n
if_le test n = ground arith

module _ (mode : ℕ) (tp : TransportParameters) (supported to_inject secret : List ℕ) where
  unfoldable pub texts : List ℕ
  texts =
      parameter_if (ltb 0 (length supported)) 32 supported
      ++ (parameter_if (ltb 0 (length to_inject)) 33 to_inject ++ [])

  unfoldable pub numbers : List ℕ
  numbers =
      parameter_if tp.migration_disabled 9 []
      ++ (parameter_if (ltb 0 tp.initial_max_stream_data_bidi_remote) 10
            (format_32 tp.initial_max_stream_data_bidi_remote)
          ++ (parameter_if (ltb 0 tp.initial_max_stream_data_uni) 11
                (format_32 tp.initial_max_stream_data_uni)
              ++ texts))

  unfoldable pub optional : List ℕ
  optional =
      parameter_if (not (tp.ack_delay_exponent == 3)) 7 (u8 tp.ack_delay_exponent ∷ [])
      ++ (parameter_if (ltb 0 tp.initial_max_stream_id_unidir) 8
            (format_16 (prepare_transport_param_stream_id tp.initial_max_stream_id_unidir mode 2))
          ++ numbers)

  unfoldable pub required : List ℕ
  required =
      parameter 3 (format_16 (u16 tp.idle_timeout))
      ++ (parameter 5 (format_16 (u16 tp.max_packet_size))
          ++ (parameter_if (mode == 1) 6 secret ++ optional))

  unfoldable pub everything : List ℕ
  everything =
      parameter 0 (format_32 tp.initial_max_stream_data_bidi_local)
      ++ (parameter 1 (format_32 tp.initial_max_data)
          ++ (parameter_if (ltb 0 tp.initial_max_stream_id_bidir) 2 (
                format_16 (prepare_transport_param_stream_id tp.initial_max_stream_id_bidir mode 0))
              ++ required))

  -- What picoquic_prepare_transport_extensions writes behind the size of the parameters.
  pub everything-parameters :
      first_parameters mode tp secret ++ last_parameters tp supported to_inject ≡ everything
  unfolding first_parameters last_parameters everything required optional numbers texts
  everything-parameters = simp (append_assoc, append-nil) refl

  length-numbers :
      length numbers
      ≡ (if tp.migration_disabled then 4 else 0)
        + (if ltb 0 tp.initial_max_stream_data_bidi_remote then 8 else 0)
        + (if ltb 0 tp.initial_max_stream_data_uni then 8 else 0)
        + (if ltb 0 (length supported) then 4 + length supported else 0)
        + (if ltb 0 (length to_inject) then 4 + length to_inject else 0)
  unfolding numbers texts format_16 format_32
  length-numbers =
      let remote = tp.initial_max_stream_data_bidi_remote in
      let uni = tp.initial_max_stream_data_uni in
      let second = parameter_if (ltb 0 (length to_inject)) 33 to_inject ++ [] in
      let last = parameter_if (ltb 0 (length supported)) 32 supported ++ second in
      let rest = parameter_if (ltb 0 uni) 11 (format_32 uni) ++ last in
      omega (
        arith,
        length-parameter_if tp.migration_disabled 9 []
            (parameter_if (ltb 0 remote) 10 (format_32 remote) ++ rest),
        length-parameter_if (ltb 0 remote) 10 (format_32 remote) rest,
        length-parameter_if (ltb 0 uni) 11 (format_32 uni) last,
        length-parameter_if (ltb 0 (length supported)) 32 supported second,
        length-parameter_if (ltb 0 (length to_inject)) 33 to_inject [],
      )

  length-everything :
      length everything
      ≡ 28
        + (if ltb 0 tp.initial_max_stream_id_bidir then 6 else 0)
        + (if mode == 1 then 4 + length secret else 0)
        + (if not (tp.ack_delay_exponent == 3) then 5 else 0)
        + (if ltb 0 tp.initial_max_stream_id_unidir then 6 else 0)
        + length numbers
  unfolding everything required optional format_16 format_32
  length-everything =
      let bidir = tp.initial_max_stream_id_bidir in
      let unidir = tp.initial_max_stream_id_unidir in
      let rank = prepare_transport_param_stream_id bidir mode 0 in
      let rank' = prepare_transport_param_stream_id unidir mode 2 in
      let streams = parameter_if (ltb 0 unidir) 8 (format_16 rank') ++ numbers in
      omega (
        arith,
        length-parameter_if (ltb 0 bidir) 2 (format_16 rank) required,
        length-parameter_if (mode == 1) 6 secret optional,
        length-parameter_if (not (tp.ack_delay_exponent == 3)) 7 (u8 tp.ack_delay_exponent ∷ [])
            streams,
        length-parameter_if (ltb 0 unidir) 8 (format_16 rank') numbers,
      )

  -- The size that is announced is that of the parameters.
  pub parameters_size-length :
      tp.preferred_address.ip_version ≡ 0
      → length secret ≡ 16
      → length supported + length to_inject < 65000
      → (parameters_size mode tp supported to_inject ≡ length everything)
        × (length everything < 65536)
  unfolding parameters_size
  parameters_size-length none_there secret_length small =
      let bidir = same_test tp.initial_max_stream_id_bidir 6 in
      let unidir = same_test tp.initial_max_stream_id_unidir 6 in
      let absent : (if not (tp.preferred_address.ip_version == 0)
            then length_preferred_address tp.preferred_address
            else 0)
          ≡ 0 =
        without tp.preferred_address none_there in
      let size = ap (λ (n : ℕ). if mode == 1 then 4 + n else 0) secret_length in
      omega (
        arith,
        absent,
        bidir,
        unidir,
        size,
        length-everything,
        length-numbers,
        if_le tp.migration_disabled 4,
        if_le (ltb 0 tp.initial_max_stream_data_bidi_remote) 8,
        if_le (ltb 0 tp.initial_max_stream_data_uni) 8,
        if_le (ltb 0 (length supported)) (4 + length supported),
        if_le (ltb 0 (length to_inject)) (4 + length to_inject),
        if_le (mode == 1) 20,
        if_le (not (tp.ack_delay_exponent == 3)) 5,
        if_le (ltb 0 tp.initial_max_stream_id_bidir) 6,
        if_le (ltb 0 tp.initial_max_stream_id_unidir) 6,
      )
