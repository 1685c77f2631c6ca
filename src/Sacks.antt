-- ===== src/Sacks.antt =====
-- picoquic/sacks.c: the ranges of packet numbers that were received, highest first, from which
-- acknowledgements are made, and the removal of ranges whose acknowledgement was acknowledged
-- (picoquic/frames.c). The chain of `next_sack` pointers is a list behind its first item.
pub mod Spec
pub mod Update
pub mod Received
pub mod Check
pub mod AckOfAck
use pquic.Base.{
  ℕ, zero, suc, ◌+◌, ◌-◌, ◌/◌, ◌%◌, ◌^◌, Bool, true, false, ◌&&◌, Option, none, some, List, [], ◌∷◌,
  ltb, leb, ◌==◌, if◌then◌else◌, u64, minus_one64,
}

pub record SackItem : Type 0 where
  pub start_of_sack_range : ℕ
  pub end_of_sack_range : ℕ

-- No packet was received yet: start_of_sack_range == (uint64_t)((int64_t)-1).
abbrev pub is_unused : SackItem → Bool
is_unused sack = sack.start_of_sack_range == minus_one64

-- The item that the packet context holds, and those behind its `next_sack`.
pub record SackList : Type 0 where
  pub first_sack_item : SackItem
  pub later : List SackItem

-- The fields of picoquic_packet_context_t that this file uses.
pub record PacketContext : Type 0 where
  pub sacks : SackList
  pub time_stamp_largest_received : ℕ

-- `ret` of the update: 1 (nothing new), 0 (recorded) or -1 (malloc failed).
pub data Ret : Type 0 where
  duplicate recorded no_memory : Ret

abbrev empty_sack : SackItem
empty_sack = record { start_of_sack_range = minus_one64; end_of_sack_range = 0 }

-- The do-while loop of picoquic_is_pn_already_received.
unfoldable pub received_loop : List SackItem → ℕ → Bool
received_loop [] pn64 = false
received_loop (sack ∷ later) pn64 =
    let more = received_loop later pn64 in
    if ltb sack.end_of_sack_range pn64
    then false
    else if leb sack.start_of_sack_range pn64
    then true
    else more

unfoldable pub is_pn_already_received : SackList → ℕ → Bool
is_pn_already_received l pn64 =
    if is_unused l.first_sack_item then false else received_loop (l.first_sack_item ∷ l.later) pn64

-- previous != NULL && pn64_max + 1 >= previous->start_of_sack_range
abbrev joins : Option SackItem → ℕ → Bool
joins none pn64_max = false
joins (some previous) pn64_max = leb previous.start_of_sack_range (u64 (pn64_max + 1))

-- The chain from `previous` on, if there is a previous item.
abbrev chain : Option SackItem → List SackItem → List SackItem
chain none l = l
chain (some previous) l = previous ∷ l

-- The range that reaches `pn64_max` becomes part of `previous` where the hole between them is
-- filled, and is extended otherwise: what then stands before the current item, and that item.
abbrev absorb : Option SackItem → SackItem → ℕ → Option SackItem × SackItem
absorb none sack pn64_max = (none, record sack { end_of_sack_range = pn64_max })
absorb (some previous) sack pn64_max =
    if joins (some previous) pn64_max
    then (none, record previous { start_of_sack_range = sack.start_of_sack_range })
    else (some previous, record sack { end_of_sack_range = pn64_max })

abbrev extend_down : Option SackItem → ℕ → Option SackItem
extend_down none pn64_min = none
extend_down (some previous) pn64_min = some (record previous { start_of_sack_range = pn64_min })

-- A new item before or behind `sack`, if malloc gives one.
abbrev with_hole : Bool → Option SackItem → List SackItem → List SackItem → Ret × List SackItem
with_hole true previous old new = (recorded, chain previous new)
with_hole false previous old new = (no_memory, chain previous old)

-- What pn64_min..pn64_max leaves of an item behind which nothing stands, where the range passes its
-- end and touches it.
abbrev reach_last : Option SackItem × SackItem → ℕ → List SackItem
reach_last (before, current) pn64_min =
    if leb current.start_of_sack_range pn64_min
    then chain before (current ∷ [])
    else chain before (record current { start_of_sack_range = pn64_min } ∷ [])

-- The do-while loop of picoquic_update_sack_list at `sack`, with what its malloc would answer, the
-- `ret` so far and the item before: the final `ret`, and the chain from that item on.
unfoldable pub update_loop :
    Bool → Ret → Option SackItem → SackItem → List SackItem → ℕ → ℕ → Ret × List SackItem
update_loop malloc_ok ret previous sack [] pn64_min pn64_max =
    let hole : SackItem = record { start_of_sack_range = pn64_min; end_of_sack_range = pn64_max } in
    let expanded : SackItem = record sack { start_of_sack_range = pn64_min } in
    let unchanged = sack ∷ [] in
    if ltb sack.end_of_sack_range pn64_max
    then (if leb pn64_min (u64 (sack.end_of_sack_range + 1))
        then (recorded, reach_last (absorb previous sack pn64_max) pn64_min)
        else (if joins previous pn64_max
            then (recorded, chain (extend_down previous pn64_min) unchanged)
            else with_hole malloc_ok previous unchanged (hole ∷ unchanged)))
    else (if leb sack.start_of_sack_range pn64_max
        then (if ltb pn64_min sack.start_of_sack_range
            then (recorded, chain previous (expanded ∷ []))
            else (ret, chain previous unchanged))
        else (if u64 (pn64_max + 1) == sack.start_of_sack_range
            then (recorded, chain previous (expanded ∷ []))
            else with_hole malloc_ok previous unchanged (sack ∷ hole ∷ [])))
update_loop malloc_ok ret previous sack (next ∷ later) pn64_min pn64_max =
    let hole : SackItem = record { start_of_sack_range = pn64_min; end_of_sack_range = pn64_max } in
    let unchanged = sack ∷ next ∷ later in
    let start = sack.start_of_sack_range in
    let absorbed = absorb previous sack pn64_max in
    let current = absorbed.1 in
    let above =
      update_loop malloc_ok recorded (some current) next later pn64_min
        (current.start_of_sack_range - 1) in
    let below = update_loop malloc_ok recorded (some sack) next later pn64_min (start - 1) in
    let further = update_loop malloc_ok ret (some sack) next later pn64_min pn64_max in
    if ltb sack.end_of_sack_range pn64_max
    then (if leb pn64_min (u64 (sack.end_of_sack_range + 1))
        then (if leb current.start_of_sack_range pn64_min
            then (recorded, chain absorbed.0 (current ∷ next ∷ later))
            else (above.0, chain absorbed.0 above.1))
        else (if joins previous pn64_max
            then (recorded, chain (extend_down previous pn64_min) unchanged)
            else with_hole malloc_ok previous unchanged (hole ∷ unchanged)))
    else (if leb start pn64_max
        then (if ltb pn64_min start
            then (below.0, chain previous below.1)
            else (ret, chain previous unchanged))
        else (further.0, chain previous further.1))

-- The chain keeps a first item.
to_sacks : SackItem → List SackItem → SackList
to_sacks sack [] = record { first_sack_item = sack; later = [] }
to_sacks sack (s ∷ later) = record { first_sack_item = s; later = later }

unfoldable pub update_sack_list : Bool → SackList → ℕ → ℕ → Ret × SackList
unfolding update_loop to_sacks
update_sack_list malloc_ok l pn64_min pn64_max =
    let first = l.first_sack_item in
    let sack : SackItem = record { start_of_sack_range = pn64_min; end_of_sack_range = pn64_max } in
    let updated = update_loop malloc_ok duplicate none first l.later pn64_min pn64_max in
    if is_unused first
    then (recorded, record l { first_sack_item = sack })
    else (updated.0, to_sacks first updated.1)

unfoldable pub record_pn_received : Bool → PacketContext → ℕ → ℕ → Ret × PacketContext
record_pn_received malloc_ok ctx pn64 current_microsec =
    let first = ctx.sacks.first_sack_item in
    let sack : SackItem = record { start_of_sack_range = pn64; end_of_sack_range = pn64 } in
    let stamp =
      if ltb first.end_of_sack_range pn64
      then current_microsec
      else ctx.time_stamp_largest_received in
    let updated = update_sack_list malloc_ok ctx.sacks pn64 pn64 in
    if is_unused first
    then (
      recorded,
      record ctx {
        sacks = record (ctx.sacks) { first_sack_item = sack };
        time_stamp_largest_received = current_microsec;
      },
    )
    else (updated.0, record ctx { sacks = updated.1; time_stamp_largest_received = stamp })

-- 0 (true) if the range would fill a hole, -1 otherwise.
unfoldable pub check_loop : List SackItem → ℕ → ℕ → Bool
check_loop [] pn64_min pn64_max = false
check_loop (sack ∷ later) pn64_min pn64_max =
    let more = check_loop later pn64_min pn64_max in
    if ltb sack.end_of_sack_range pn64_max
    then true
    else if leb sack.start_of_sack_range pn64_max
    then ltb pn64_min sack.start_of_sack_range
    else elim later [ [] ↦ true | _ ↦ more ]

unfoldable pub check_sack_list : SackList → ℕ → ℕ → Bool
unfolding check_loop
check_sack_list l pn64_min pn64_max =
    if is_unused l.first_sack_item
    then true
    else check_loop (l.first_sack_item ∷ l.later) pn64_min pn64_max

-- process_ack_of_ack_range behind the first item: a range that the peer has seen acknowledged in
-- whole is taken off.
unfoldable pub forget_loop : List SackItem → ℕ → ℕ → List SackItem
forget_loop [] start_of_range end_of_range = []
forget_loop (next ∷ later) start_of_range end_of_range =
    let more = forget_loop later start_of_range end_of_range in
    if next.end_of_sack_range == end_of_range && next.start_of_sack_range == start_of_range
    then later
    else if ltb end_of_range next.end_of_sack_range
    then next ∷ more
    else next ∷ later

-- The first item keeps its end, which is the largest number received.
unfoldable pub process_ack_of_ack_range : SackList → ℕ → ℕ → SackList
unfolding forget_loop
process_ack_of_ack_range l start_of_range end_of_range =
    let first = l.first_sack_item in
    let start =
      if ltb end_of_range first.end_of_sack_range
      then u64 (end_of_range + 1)
      else first.end_of_sack_range in
    if first.start_of_sack_range == start_of_range
    then record l { first_sack_item = record first { start_of_sack_range = start } }
    else record l { later = forget_loop l.later start_of_range end_of_range }
