-- ===== src/Twcc/ArrivalTimeMap/Tests.antt =====
-- A packet after a gap, in a map of one packet.
use interceptor.Common.{◌≡◌, ◌⊎◌}
use interceptor.Common.Int.{pos, ◌+ℤ◌, ◌<ℤ◌}
use interceptor.Twcc.ArrivalTimeMap.{PacketArrivalTimeMap, new, add_packet}
use interceptor.Twcc.ArrivalTimeMap.Recorded.{Recorded}
use interceptor.Twcc.ArrivalTimeMap.Add.{add_packet-Recorded, add_packet_first}

abbrev one : PacketArrivalTimeMap
one = add_packet new (pos 5) (pos 100)

add_packet-Recorded_example :
    ((pos 300 +ℤ pos 32768 <ℤ one.end_sequence_number) × (add_packet one (pos 300) (pos 7) ≡ one))
    ⊎ Recorded one (pos 300) (pos 7) (add_packet one (pos 300) (pos 7))
add_packet-Recorded_example =
    let v = add_packet_first (pos 5) (pos 100) in add_packet-Recorded one (pos 300) (pos 7) v.0 v.1
