-- ===== src/Twcc/ArrivalTimeMap/Add.antt =====
-- What `AddPacket` does to the times that the map holds, on each of its branches.
use interceptor.Common.Range.{is_power}
use interceptor.Twcc.ArrivalTimeMap.Recorded.{Short, Recorded, write-Recorded}
use interceptor.Twcc.ArrivalTimeMap.Before.{before-Recorded}
use interceptor.Twcc.ArrivalTimeMap.After.{far-Recorded, near-Recorded, drop_oldest-Dropped}
use interceptor.Common.{
  ◌⊎◌, length, set, replicate, length-set, ℕ, ◌<◌, ◌≡◌, refl, sym, subst, inl, inr, ltb, ◌==◌,
  arith, if_elim,
}
use interceptor.Common.Int.{
  ℤ, pos, ◌+ℤ◌, ◌-ℤ◌, ◌≤ℤ◌, ◌<ℤ◌, ltb_ℤ, leb_ℤ, +ℤ_parts, -ℤ_parts, emod, one_part,
}
use interceptor.Twcc.ArrivalTimeMap.{
  PacketArrivalTimeMap, new, each, reallocate, capacity, span, write, add_before, drop_oldest,
  add_after, add_packet,
}
use interceptor.Twcc.ArrivalTimeMap.Resize.{IsCapacity, IsCapacity-bounds, IsValid}

old :
    (m : PacketArrivalTimeMap) (sn : ℤ)
    → 32768 < span sn m.end_sequence_number
    → sn +ℤ pos 32768 <ℤ m.end_sequence_number
unfolding span
old m sn h = omega (
  arith,
  +ℤ_parts sn (pos 32768),
  -ℤ_parts m.end_sequence_number sn,
  one_part (m.end_sequence_number -ℤ sn),
)

-- A map that is valid, and whose range has at most 32768 numbers, has again such a range after
-- `AddPacket`, unless the packet is 32768 or more older than the newest one: then nothing changes.
-- Else the time is found for the packet, and what is found for every other of the last 32768 numbers
-- is what was found before, whether the ring has grown, has shrunk or has been left as it was.
pub add_packet-Recorded :
    (m : PacketArrivalTimeMap) (sn t : ℤ)
    → IsValid m
    → Short m
    → ((sn +ℤ pos 32768 <ℤ m.end_sequence_number) × (add_packet m sn t ≡ m))
      ⊎ Recorded m sn t (add_packet m sn t)
unfolding add_packet add_before add_after span
add_packet-Recorded m sn t v s =
    let P = λ (m' : PacketArrivalTimeMap).
      ((sn +ℤ pos 32768 <ℤ m.end_sequence_number) × (m' ≡ m)) ⊎ Recorded m sn t m' in
    let full = IsCapacity-bounds (capacity m) v.power in
    if_elim P (capacity m == 0) _ _ (λ e. absurd (ground arith))
      (λ e.
        if_elim P _ _ _ (λ i. inr (write-Recorded m sn t v s (ground arith)))
          (λ i.
            if_elim P (ltb_ℤ sn m.begin_sequence_number) _ _
              (λ b.
                if_elim P (ltb 32768 (span sn m.end_sequence_number)) _ _
                  (λ l. inl (old m sn (ground arith), refl))
                  (λ l. inr (before-Recorded m sn t v s (ground arith) (ground arith))))
              (λ b.
                if_elim P (leb_ℤ (m.end_sequence_number +ℤ pos 32768) (sn +ℤ pos 1)) _ _
                  (λ f. inr (far-Recorded m sn t v s (ground arith)))
                  (λ f. inr (
                    near-Recorded m sn t v s (drop_oldest m (sn +ℤ pos 1)) (ground arith)
                      (drop_oldest-Dropped m (sn +ℤ pos 1) v s (ground arith)))))))

-- The first packet makes a ring of 128 places for a range of one number.
pub add_packet_first : (sn t : ℤ) → IsValid (add_packet new sn t) × Short (add_packet new sn t)
unfolding add_packet reallocate each write span is_power
add_packet_first sn t =
    let l : length (set (replicate 128 (pos 0)) (emod sn 128) t) ≡ 128 =
      length-set (replicate 128 (pos 0)) (emod sn 128) t in
    (
      record {
        power = subst IsCapacity (sym l) refl;
        ordered = omega (arith, +ℤ_parts sn (pos 1));
        fits =
            subst (λ (c : ℕ). sn +ℤ pos 1 ≤ℤ sn +ℤ pos c) (sym l)
              (omega (arith, +ℤ_parts sn (pos 1), +ℤ_parts sn (pos 128)));
      },
      omega (arith, +ℤ_parts sn (pos 1), +ℤ_parts sn (pos 32768)),
    )
