-- ===== src/Twcc/Recorder/Kept.antt =====
-- What every recorder keeps, whatever packets are recorded: its map of arrival times.
use interceptor.Common.{
  ℕ, zero, suc, ◌≤◌, ◌≡◌, refl, sym, subst, inl, inr, true, ◌&&◌, Option, none, some, arith,
  if_elim,
}
use interceptor.Common.Int.{
  ℤ, pos, pos_part, ◌+ℤ◌, ◌-ℤ◌, ◌≤ℤ◌, leb_ℤ, +ℤ_parts, -ℤ_parts, eq_parts, one_part,
}
use interceptor.SequenceNumber.{Unwrapper, unwrap}
use interceptor.Twcc.ArrivalTimeMap
use interceptor.Twcc.ArrivalTimeMap.{
  PacketArrivalTimeMap, capacity, get, has_received, span, first_recent, min_ℤ, remove_old_packets,
  adjust_to_size, add_packet,
}
use interceptor.Twcc.ArrivalTimeMap.Ring.{span_end}
use interceptor.Twcc.ArrivalTimeMap.Resize.{IsValid, Resized-IsValid, adjust_to_size-Resized}
use interceptor.Twcc.ArrivalTimeMap.Recorded.{Short}
use interceptor.Twcc.ArrivalTimeMap.Add.{add_packet-Recorded, add_packet_first}
use interceptor.Twcc.Recorder.{Recorder, cull, maybe_cull_old_packets, record_packet}

first_recent-bounds :
    (m : PacketArrivalTimeMap) (k : ℕ) (limit sn : ℤ)
    → (sn ≤ℤ first_recent m k limit sn) × (first_recent m k limit sn ≤ℤ sn +ℤ pos k)
unfolding first_recent
first_recent-bounds m zero limit sn = (omega arith, omega (arith, +ℤ_parts sn (pos 0)))
first_recent-bounds m (suc k) limit sn =
    let rest = first_recent-bounds m k limit (sn +ℤ pos 1) in
    if_elim (λ (b : ℤ). (sn ≤ℤ b) × (b ≤ℤ sn +ℤ pos (suc k))) (leb_ℤ (get m sn) limit) _ sn
      (λ e. omega (
        arith,
        rest,
        +ℤ_parts sn (pos 1),
        +ℤ_parts sn (pos (suc k)),
        +ℤ_parts (sn +ℤ pos 1) (pos k),
      ))
      (λ e. omega (arith, +ℤ_parts sn (pos (suc k))))

-- A range that begins later, fitted into its ring.
adjusted :
    (m : PacketArrivalTimeMap) (b : ℤ)
    → IsValid m
    → Short m
    → m.begin_sequence_number ≤ℤ b
    → b ≤ℤ m.end_sequence_number
    → IsValid
        (adjust_to_size (record m { begin_sequence_number = b }) (span b m.end_sequence_number))
      × Short
          (adjust_to_size (record m { begin_sequence_number = b }) (span b m.end_sequence_number))
adjusted m b v s l h =
    let e = m.end_sequence_number in
    let size = span b e in
    let k : b +ℤ pos size ≡ e = span_end b e h in
    let sized = +ℤ_parts b (pos size) in
    let d = record m { begin_sequence_number = b } in
    let w : IsValid d = record {
      power = v.power;
      ordered = h;
      fits = omega (
        arith,
        v.fits,
        l,
        +ℤ_parts m.begin_sequence_number (pos (capacity m)),
        +ℤ_parts b (pos (capacity m)),
      );
    } in
    let exact : e ≤ℤ b +ℤ pos size = omega (arith, eq_parts k) in
    let small : size ≤ 32768 =
      omega (arith, eq_parts k, sized, s, l, +ℤ_parts m.begin_sequence_number (pos 32768)) in
    let r = adjust_to_size-Resized d size w small exact in
    (
      Resized-IsValid size d (adjust_to_size d size) w exact r,
      omega (
        arith,
        s,
        l,
        eq_parts r.begins,
        eq_parts r.ends,
        +ℤ_parts m.begin_sequence_number (pos 32768),
        +ℤ_parts (adjust_to_size d size).begin_sequence_number (pos 32768),
      ),
    )

min-le : (a b : ℤ) → min_ℤ a b ≤ℤ b
min-le a b = ground arith

span-le : (b c e : ℤ) → b ≤ℤ e → c ≤ℤ e → b +ℤ pos (span b c) ≤ℤ e
unfolding span
span-le b c e h l =
    omega (arith, +ℤ_parts b (pos (pos_part (c -ℤ b))), -ℤ_parts c b, one_part (c -ℤ b))

remove_old_packets-IsValid :
    (m : PacketArrivalTimeMap) (sn limit : ℤ)
    → IsValid m
    → Short m
    → IsValid (remove_old_packets m sn limit) × Short (remove_old_packets m sn limit)
unfolding remove_old_packets span
remove_old_packets-IsValid m sn limit v s =
    let b = m.begin_sequence_number in
    let check_to = min_ℤ sn m.end_sequence_number in
    let r = first_recent-bounds m (span b check_to) limit b in
    let o = v.ordered in
    let stop : b +ℤ pos (span b check_to) ≤ℤ m.end_sequence_number =
      span-le b check_to m.end_sequence_number o (min-le sn m.end_sequence_number) in
    adjusted m (first_recent m (span b check_to) limit b) v s r.0 (omega (arith, r.1, stop))

-- The new map without a start, or a valid map of at most 32768 numbers with one.
pub data IsKept (r : Recorder) : Type 0 where
  fresh : r.arrival_time_map ≡ ArrivalTimeMap.new → r.start_sequence_number ≡ none → IsKept r
  running :
      (start : ℤ)
      → IsValid r.arrival_time_map
      → Short r.arrival_time_map
      → r.start_sequence_number ≡ some start
      → IsKept r

-- the map that a packet goes into
data HasMap (m : PacketArrivalTimeMap) : Type 0 where
  empty : m ≡ ArrivalTimeMap.new → HasMap m
  valid : IsValid m → Short m → HasMap m

culled-HasMap :
    (r : Recorder) (start sn t : ℤ)
    → IsValid r.arrival_time_map
    → Short r.arrival_time_map
    → HasMap (cull r (some start) sn t).arrival_time_map
culled-HasMap r start sn t v s =
    let limit = t -ℤ pos 500000 in
    let m = remove_old_packets r.arrival_time_map sn limit in
    if_elim (λ (c : Recorder). HasMap c.arrival_time_map)
      (leb_ℤ r.arrival_time_map.end_sequence_number start && leb_ℤ (pos 500000) t)
      (record r { arrival_time_map = m }) r
      (λ e. let k = remove_old_packets-IsValid r.arrival_time_map sn limit v s in valid k.0 k.1)
      (λ e. valid v s)

cull-HasMap :
    (r : Recorder) (sn t : ℤ) → IsKept r → HasMap (maybe_cull_old_packets r sn t).arrival_time_map
unfolding maybe_cull_old_packets
cull-HasMap r sn t (fresh e f) =
    subst (λ (s : Option ℤ). HasMap (cull r s sn t).arrival_time_map) (sym f) (empty e)
cull-HasMap r sn t (running start v s f) =
    subst (λ (o : Option ℤ). HasMap (cull r o sn t).arrival_time_map) (sym f)
      (culled-HasMap r start sn t v s)

add_packet-HasMap :
    (m : PacketArrivalTimeMap) (sn t : ℤ)
    → HasMap m
    → IsValid (add_packet m sn t) × Short (add_packet m sn t)
add_packet-HasMap m sn t (empty e) =
    subst (λ (n : PacketArrivalTimeMap). IsValid (add_packet n sn t) × Short (add_packet n sn t))
      (sym e) (add_packet_first sn t)
add_packet-HasMap m sn t (valid v s) = elim (add_packet-Recorded m sn t v s) [
  | inl (o, e) ↦ subst (λ (n : PacketArrivalTimeMap). IsValid n × Short n) (sym e) (v, s)
  | inr r ↦ (r.valid, r.short)
]

nothing_new : (sn : ℤ) → has_received ArrivalTimeMap.new sn ≡ true → ⊥
unfolding get
nothing_new sn h = ground arith

received-IsValid :
    (m : PacketArrivalTimeMap) (sn : ℤ) → HasMap m → has_received m sn ≡ true → IsValid m × Short m
received-IsValid m sn (empty e) h =
    absurd (nothing_new sn (subst (λ (n : PacketArrivalTimeMap). has_received n sn ≡ true) e h))
received-IsValid m sn (valid v s) h = (v, s)

IsKept-by :
    (r : Recorder) (media : ℕ) (u : Unwrapper)
    → IsKept r
    → IsKept (record r { media_ssrc = media; sequence_unwrapper = u })
IsKept-by r media u (fresh e f) = fresh e f
IsKept-by r media u (running start v s f) = running start v s f

-- `Record` of any packet keeps what every recorder has: its map of arrival times is the new one and
-- there is no start, or the map is valid (its ring has 128, 256, ... or 32768 places, and the range
-- fits into it), its range has at most 32768 numbers, and there is a start.
pub record_packet-IsKept :
    (r : Recorder) (media sn : ℕ) (t : ℤ) → IsKept r → IsKept (record_packet r media sn t)
unfolding record_packet
record_packet-IsKept r media i t k =
    let sn = (unwrap r.sequence_unwrapper i).0 in
    let r' = record r {
      media_ssrc = media;
      sequence_unwrapper = (unwrap r.sequence_unwrapper i).1;
    } in
    let c = maybe_cull_old_packets r' sn t in
    let h = cull-HasMap r' sn t (IsKept-by r _ _ k) in
    let m = add_packet c.arrival_time_map sn t in
    if_elim IsKept (has_received c.arrival_time_map sn) _ _
      (λ e. let v = received-IsValid c.arrival_time_map sn h e in running _ v.0 v.1 refl)
      (λ e. let v = add_packet-HasMap c.arrival_time_map sn t h in running _ v.0 v.1 refl)
