-- ===== src/Tests/Wire.antt =====
-- Runs of the integers on the wire and of the ranges of packet numbers.
use pquic.Base.{
  ◌≡◌, refl, true, false, ◌||◌, some, [], ◌∷◌, ◌++◌, length, arith, within, if◌then◌else◌,
}
use pquic.Intformat.{varint_encode, varint_decode, varint_len}
use pquic.Intformat.Varint.{Decodes, varint_decode-varint_encode, varint_decode-Decodes}
use pquic.Sacks.{
  SackList, PacketContext, duplicate, recorded, is_unused, check_sack_list, is_pn_already_received,
  update_sack_list, process_ack_of_ack_range,
}
use pquic.Sacks.Spec.{received, IsSackList}
use pquic.Sacks.Received.{
  update_sack_list-IsSackList, received-update_sack_list, is_pn_already_received-received,
}
use pquic.Sacks.Check.{update_sack_list-check_sack_list}
use pquic.Sacks.AckOfAck.{
  KeptOrDropped, process_ack_of_ack_range-KeptOrDropped, process_ack_of_ack_range-IsSackList,
}

two_bytes : varint_encode 8 15293 ≡ 0x7B ∷ 0xBD ∷ []
unfolding varint_encode
two_bytes = refl

varint_decode-varint_encode_example :
    (length (varint_encode 8 15293) ≡ varint_len 15293)
    × (varint_decode (varint_encode 8 15293 ++ (7 ∷ [])) 2 ≡ some (varint_len 15293, 15293))
unfolding varint_len
varint_decode-varint_encode_example =
    varint_decode-varint_encode 15293 8 2 (7 ∷ []) (omega arith) (omega arith) (omega arith)

varint_decode-Decodes_example : Decodes (0x7B ∷ 0xBD ∷ []) 2
varint_decode-Decodes_example =
    varint_decode-Decodes 0x7B 2 (0xBD ∷ []) (omega arith, (omega arith, tt)) (omega arith)

-- 20..30 and 3..7 were received.
abbrev two_ranges : SackList
two_ranges = record {
  first_sack_item = record { start_of_sack_range = 20; end_of_sack_range = 30 };
  later = record { start_of_sack_range = 3; end_of_sack_range = 7 } ∷ [];
}

two_ranges-IsSackList : IsSackList two_ranges
two_ranges-IsSackList = omega arith

abbrev two_ranges_context : PacketContext
two_ranges_context = record { sacks = two_ranges; time_stamp_largest_received = 100 }

joined_ranges : update_sack_list true two_ranges 8 19 ≡ (
  recorded,
  record {
    first_sack_item = record { start_of_sack_range = 3; end_of_sack_range = 30 };
    later = [];
  },
)
unfolding update_sack_list
joined_ranges = refl

update_sack_list-IsSackList_example : IsSackList (update_sack_list false two_ranges 10 12).1
update_sack_list-IsSackList_example =
    update_sack_list-IsSackList false two_ranges 10 12 two_ranges-IsSackList (omega arith)
      (omega arith)

received-update_sack_list_example :
    received (update_sack_list true two_ranges 10 12).1 11
    ≡ (received two_ranges 11 || within 10 12 11)
received-update_sack_list_example =
    received-update_sack_list two_ranges 10 12 11 two_ranges-IsSackList (omega arith) (omega arith)

is_pn_already_received-received_example :
    is_pn_already_received two_ranges 5 ≡ received two_ranges 5
is_pn_already_received-received_example =
    is_pn_already_received-received two_ranges 5 two_ranges-IsSackList

process_ack_of_ack_range-KeptOrDropped_example :
    KeptOrDropped
      (received two_ranges 5)
      (received (process_ack_of_ack_range two_ranges 3 7) 5)
      (within 3 7 5)
process_ack_of_ack_range-KeptOrDropped_example =
    process_ack_of_ack_range-KeptOrDropped two_ranges 3 7 5 two_ranges-IsSackList refl (omega arith)

process_ack_of_ack_range-IsSackList_example :
    IsSackList (process_ack_of_ack_range two_ranges 20 25)
    × (is_unused (process_ack_of_ack_range two_ranges 20 25).first_sack_item ≡ false)
    × ((process_ack_of_ack_range two_ranges 20 25).first_sack_item.end_of_sack_range ≡ 30)
process_ack_of_ack_range-IsSackList_example =
    process_ack_of_ack_range-IsSackList two_ranges 20 25 two_ranges-IsSackList refl (omega arith)

update_sack_list-check_sack_list_example :
    (update_sack_list true two_ranges 4 6).0
    ≡ (if check_sack_list two_ranges 4 6 then recorded else duplicate)
update_sack_list-check_sack_list_example = update_sack_list-check_sack_list two_ranges 4 6
