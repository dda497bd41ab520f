-- ===== src/Video/PacketBuffer/Tests.antt =====
use interceptor.Common.{
  All, ◌≡◌, refl, true, false, some, none, List, [], ◌∷◌, arith, replicate, map, subst, Option,
  get_or-replicate,
}
use interceptor.Common.Int.{ℤ, pos, ◌-ℤ◌, ◌+ℤ◌}
use interceptor.Video.PacketBuffer.{
  BufferedPacket, new, slot, set_slot, find, find_start, collect, extract_frame, take_frame, visit,
  find_frames, insert_packet, clear_slots, potential_new_frame, seq_num_to_index,
}
use interceptor.Video.Samples.{packet, empty, half_full}
use interceptor.Video.PacketBuffer.Extract.{IsFrame}
use interceptor.Video.PacketBuffer.Visit.{IsValid}
use interceptor.Video.PacketBuffer.Insert.{Gone}
use interceptor.Video.PacketBuffer.Timestamps.{SameTimestamp, OfStream, insert_packet-frames}

numbers : List (List BufferedPacket) → List (List ℤ)
numbers = map (map (λ p. p.sequence_number))

half_full_reached : (insert_packet empty (packet (pos 10) 5 false true)).1 ≡ half_full
unfolding insert_packet find_frames visit potential_new_frame find slot set_slot seq_num_to_index
    ◌-ℤ◌ ◌+ℤ◌
half_full_reached = refl

completed :
    numbers (insert_packet half_full (packet (pos 9) 5 true false)).0 ≡ (pos 9 ∷ pos 10 ∷ []) ∷ []
unfolding numbers insert_packet find_frames visit potential_new_frame take_frame extract_frame
    find_start collect clear_slots find slot set_slot seq_num_to_index ◌-ℤ◌ ◌+ℤ◌
completed = refl

sizes :
    (new 100 ≡ none)
    × (new 4096 ≡ none)
    × (new 64 ≡ some (record { buffer = replicate 64 none; size = 64 }))
unfolding new
sizes = (refl, refl, refl)

empty-OfStream : OfStream (λ n. 5) empty
unfolding find slot
empty-OfStream n p e =
    absurd
      (ground (arith, get_or-replicate {A = Option BufferedPacket} 4 (seq_num_to_index 4 n) none))

half_full-OfStream : OfStream (λ n. 5) half_full
half_full-OfStream =
    subst (OfStream (λ n. 5)) half_full_reached
      (insert_packet-frames (λ n. 5) empty (packet (pos 10) 5 false true) (omega arith)
        empty-OfStream refl).4

insert_packet-frames_example :
    let (frames, b) = insert_packet half_full (packet (pos 9) 5 true false) in
    All IsFrame frames × All SameTimestamp frames × Gone b frames × IsValid b × OfStream (λ n. 5) b
insert_packet-frames_example =
    insert_packet-frames (λ n. 5) half_full (packet (pos 9) 5 true false) (omega arith)
      half_full-OfStream refl
