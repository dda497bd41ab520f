-- ===== src/Video/PacketBuffer.antt =====
-- pkg/videoframe/packet_buffer.go: a ring of packets that hands out complete frames. A packet stands
-- in one slot at most, so a slot holds the packet itself and not a pointer to it; payload bytes are
-- below 256.
pub mod Extract
pub mod Visit
pub mod Insert
pub mod Timestamps
mod Tests
use interceptor.Common.{
  ℕ, zero, suc, ◌+◌, ◌-◌, ◌/◌, ◌%◌, Bool, true, false, not, ◌&&◌, ◌||◌, Option, none, some, List,
  [], ◌∷◌, ◌++◌, ltb, leb, ◌==◌, if◌then◌else◌, get_or, set, replicate,
}
use interceptor.Common.Int.{ℤ, pos, negsuc, pos_part, sub_ℕ, ◌+ℤ◌, ◌-ℤ◌, ltb_ℤ, eqb_ℤ}
use interceptor.Common.Range.{is_power}
use interceptor.Video.Header.{VideoHeader}

pub record BufferedPacket : Type 0 where
  pub sequence_number : ℤ
  pub timestamp : ℕ
  pub payload : List ℕ
  pub video_header : Option VideoHeader
  pub continuous : Bool
  pub marker_bit : Bool

pub record PacketBuffer : Type 0 where
  pub buffer : List (Option BufferedPacket)
  pub size : ℕ

-- `NewVideoPacketBuffer`: a power of 2 from 64 to 2048; `none` is the error. The test
-- `size & (size - 1) != 0` is that no `1 << i` is the size.
unfoldable pub new : ℕ → Option PacketBuffer
unfolding is_power
new size =
    if size == 0 || not (is_power 16 0 size) || ltb size 64 || ltb 2048 size
    then none
    else some (record { buffer = replicate size none; size = size })

-- Go's `%`, of the sign of the dividend
abbrev rem : ℤ → ℕ → ℤ
rem (pos k) n = pos (k % n)
rem (negsuc k) n = sub_ℕ 0 (suc k % n)

unfoldable pub seq_num_to_index : ℕ → ℤ → ℕ
unfolding ◌+ℤ◌
seq_num_to_index size seq_num =
    let idx = rem seq_num size in pos_part (if ltb_ℤ idx (pos 0) then idx +ℤ pos size else idx)

-- `b.buffer[b.seqNumToIndex(seqNum)]`
unfoldable pub slot : PacketBuffer → ℤ → Option BufferedPacket
slot b seq_num = get_or b.buffer (seq_num_to_index b.size seq_num) none

unfoldable pub set_slot : PacketBuffer → ℤ → Option BufferedPacket → PacketBuffer
set_slot b seq_num p = record b { buffer = set b.buffer (seq_num_to_index b.size seq_num) p }

-- `pkt.VideoHeader != nil && pkt.VideoHeader.IsFirstPacketInFrame`, and the same for the last one
abbrev pub is_first : BufferedPacket → Bool
is_first p = elim p.video_header [ none ↦ false | some h ↦ h.is_first_packet_in_frame ]

abbrev pub is_last : BufferedPacket → Bool
is_last p = elim p.video_header [ none ↦ false | some h ↦ h.is_last_packet_in_frame ]

-- the packet of that number, if the slot holds it and no other
unfoldable pub find : PacketBuffer → ℤ → Option BufferedPacket
find b seq_num = elim (slot b seq_num) [
  | none ↦ none
  | some p ↦ if eqb_ℤ p.sequence_number seq_num then some p else none
]

unfoldable pub potential_new_frame : PacketBuffer → ℤ → Bool
potential_new_frame b seq_num = elim (find b seq_num) [
  | none ↦ false
  | some p ↦ if is_first p then true else elim (find b (seq_num -ℤ pos 1)) [
    | none ↦ false
    | some prev ↦ if prev.timestamp == p.timestamp then prev.continuous else false
  ]
]

-- The backward loop of `extractFrame`, with `k` rounds left: the test on the size ends it after
-- `size + 1` rounds.
pub find_start : PacketBuffer → ℕ → ℤ → Option ℤ
find_start b zero start = none
find_start b (suc k) start = elim (find b start) [
  | none ↦ none
  | some p ↦ elim (is_first p) [ true ↦ some start | false ↦ find_start b k (start -ℤ pos 1) ]
]

abbrev pub cons_opt {ℓ} : {A : Type ℓ} → A → Option (List A) → Option (List A)
cons_opt x none = none
cons_opt x (some xs) = some (x ∷ xs)

-- The forward loop of `extractFrame`, over `k` numbers from `seq` on
pub collect : PacketBuffer → ℕ → ℤ → Option (List BufferedPacket)
collect b zero seq = some []
collect b (suc k) seq = elim (find b seq) [
  | none ↦ none
  | some p ↦ elim p.continuous [ true ↦ cons_opt p (collect b k (seq +ℤ pos 1)) | false ↦ none ]
]

-- `none` is the nil that an incomplete frame gives
unfoldable pub extract_frame : PacketBuffer → ℤ → Option (List BufferedPacket)
extract_frame b end_seq_num = elim (find_start b (b.size + 1) end_seq_num) [
  | none ↦ none
  | some start ↦ collect b (pos_part (end_seq_num -ℤ start +ℤ pos 1)) start
]

-- the slots of an extracted frame are emptied
pub clear_slots : PacketBuffer → List BufferedPacket → PacketBuffer
clear_slots b [] = b
clear_slots b (p ∷ ps) = clear_slots (set_slot b p.sequence_number none) ps

abbrev pub Found : Type 0
Found = List (List BufferedPacket) × PacketBuffer

-- `if len(frame) > 0`
abbrev pub append_frame : PacketBuffer → List (List BufferedPacket) → List BufferedPacket → Found
append_frame b result [] = (result, b)
append_frame b result (p ∷ ps) = (result ++ ((p ∷ ps) ∷ []), clear_slots b (p ∷ ps))

-- what a completed frame at `current` adds
unfoldable pub take_frame : PacketBuffer → ℤ → List (List BufferedPacket) → Found
take_frame b current result = elim (extract_frame b current) [
  | none ↦ (result, b)
  | some frame ↦ append_frame b result frame
]

-- one round of the loop of `findFrames`
unfoldable pub visit : PacketBuffer → ℤ → List (List BufferedPacket) → Found
visit b current result =
    if potential_new_frame b current
    then elim (slot b current) [
      | none ↦ (result, b)
      | some p ↦
          let b' = set_slot b current (some (record p { continuous = true })) in
          if is_last p then take_frame b' current result else (result, b')
    ]
    else (result, b)

-- `findFrames` with `k` rounds left, at the number `current`
pub find_frames : ℕ → PacketBuffer → ℤ → List (List BufferedPacket) → Found
find_frames zero b current result = (result, b)
find_frames (suc k) b current result =
    let (result', b') = visit b current result in find_frames k b' (current +ℤ pos 1) result'

-- `InsertPacket`: the completed frames, and the new buffer
unfoldable pub insert_packet : PacketBuffer → BufferedPacket → Found
insert_packet b pkt =
    let seq_num = pkt.sequence_number in
    elim (find b seq_num) [
      | some old ↦ ([], b)
      | none ↦
          let b' = set_slot b seq_num (some (record pkt { continuous = false })) in
          find_frames b.size b' (seq_num -ℤ pos (b.size / 2)) []
    ]
