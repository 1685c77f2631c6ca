-- ===== src/Frames/Table.antt =====
-- picoquic/frames.c, how far the registered parsers move the pointer.
use pquic.Base.{◌⊎◌, ℕ, All, ◌≡◌, refl, inl, inr, List, [], ◌∷◌, ◌==◌, Bool-cases}
use pquic.Frames.Frame.{unallocated}
use pquic.Frames.Parse.{parse_stream_frame}
use pquic.Frames.Control.{parse_unknown_frame}
use pquic.Frames.Decode.{Parser, one_malloc, parsers, find_parser}
use pquic.Frames.Progress.{
  parse_reset_stream_frame-Advances, parse_new_connection_id_frame-Advances,
  parse_stop_sending_frame-Advances, parse_crypto_hs_frame-Advances,
  parse_connection_close_frame-Advances, parse_application_close_frame-Advances,
  parse_max_data_frame-Advances, parse_max_stream_data_frame-Advances,
  parse_max_stream_id_frame-Advances, parse_blocked_frame-Advances,
  parse_stream_blocked_frame-Advances, parse_stream_id_blocked_frame-Advances,
  parse_path_response_frame-Advances, padding-Moves, path_challenge-Moves, ack-Moves,
  new_token-Moves, plugin_validate-Moves, plugin-Moves, Advances,
}

-- A parser always moves, or it is the one for STREAM frames.
abbrev pub MovesOrStreams : Parser → Type 0
MovesOrStreams parse = Advances parse ⊎ (parse ≡ one_malloc parse_stream_frame)

infixr 5 ◌&◌
abbrev ◌&◌ {ℓ κ} : {A : Type ℓ} {B : Type κ} → A → B → A × B
a & b = (a, b)

table-MovesOrStreams : All (λ (entry : ℕ × Parser). MovesOrStreams entry.1) parsers
unfolding parsers parse_unknown_frame unallocated
table-MovesOrStreams =
    inl (λ m. padding-Moves m.frame_ok)
    & inl parse_reset_stream_frame-Advances
    & inl parse_connection_close_frame-Advances
    & inl parse_application_close_frame-Advances
    & inl parse_max_data_frame-Advances
    & inl parse_max_stream_data_frame-Advances
    & inl parse_max_stream_id_frame-Advances
    & inl (λ m. padding-Moves m.frame_ok)
    & inl parse_blocked_frame-Advances
    & inl parse_stream_blocked_frame-Advances
    & inl parse_stream_id_blocked_frame-Advances
    & inl parse_new_connection_id_frame-Advances
    & inl parse_stop_sending_frame-Advances
    & inl (λ m. ack-Moves m.frame_ok)
    & inl (λ m. path_challenge-Moves m.frame_ok)
    & inl parse_path_response_frame-Advances
    & inr refl
    & inr refl
    & inr refl
    & inr refl
    & inr refl
    & inr refl
    & inr refl
    & inr refl
    & inl parse_crypto_hs_frame-Advances
    & inl (λ m. new_token-Moves m.frame_ok)
    & inl (λ m. ack-Moves m.frame_ok)
    & inl (λ m. plugin_validate-Moves m.frame_ok m.pid_ok)
    & inl (λ m. plugin-Moves m.frame_ok)
    & tt

lookup-MovesOrStreams :
    (first_byte : ℕ) (table : List (ℕ × Parser))
    → All (λ (entry : ℕ × Parser). MovesOrStreams entry.1) table
    → MovesOrStreams (find_parser first_byte table)
unfolding find_parser parse_unknown_frame unallocated
lookup-MovesOrStreams first_byte [] h = inl (λ m b bytes. tt)
lookup-MovesOrStreams first_byte ((param, parse) ∷ later) h =
    elim (Bool-cases (param == first_byte)) [
      | inl same ↦ rw same h.0
      | inr other ↦ rw other (lookup-MovesOrStreams first_byte later h.1)
    ]

-- Whatever the type of a frame, the parser that is found for it is that of STREAM frames; or else, run on any
-- packet that is not empty and whatever malloc answers, it makes an undefined access, returns NULL, or
-- takes at least one byte off. The place it returns is read as what is left of the packet.
pub find_parser-MovesOrStreams : (first_byte : ℕ) → MovesOrStreams (find_parser first_byte parsers)
find_parser-MovesOrStreams first_byte =
    lookup-MovesOrStreams first_byte parsers table-MovesOrStreams
