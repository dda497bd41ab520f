-- ===== src/Twcc/ArrivalTimeMap.antt =====
-- pkg/twcc/arrival_time_map.go: the arrival times of a range of sequence numbers, in a ring that
-- grows and shrinks.
pub mod Ring
pub mod Resize
pub mod Recorded
pub mod Before
pub mod After
pub mod Add
mod Tests
use interceptor.Common.{
  ℕ, zero, suc, ◌+◌, ◌-◌, ◌*◌, ◌/◌, Bool, true, false, not, ◌&&◌, ◌||◌, Option, none, some, List,
  [], ltb, leb, ◌==◌, if◌then◌else◌, length, get_or, set, replicate,
}
use interceptor.Common.Int.{ℤ, pos, negsuc, pos_part, ◌+ℤ◌, ◌-ℤ◌, ltb_ℤ, leb_ℤ, emod}

abbrev pub min_capacity : ℕ
min_capacity = 128

abbrev pub max_number_of_packets : ℕ
max_number_of_packets = 32768

-- A slice that was never made has no places.
pub record PacketArrivalTimeMap : Type 0 where
  pub arrival_times : List ℤ
  pub begin_sequence_number : ℤ
  pub end_sequence_number : ℤ

abbrev pub new : PacketArrivalTimeMap
new = record { arrival_times = []; begin_sequence_number = pos 0; end_sequence_number = pos 0 }

abbrev pub capacity : PacketArrivalTimeMap → ℕ
capacity m = length m.arrival_times

-- `-1`, the time of a packet that has not come
abbrev pub never : ℤ
never = negsuc 0

-- `sn & (capacity - 1)`, of a capacity that is a power of two
abbrev pub index : PacketArrivalTimeMap → ℤ → ℕ
index m sn = emod sn (capacity m)

unfoldable pub get : PacketArrivalTimeMap → ℤ → ℤ
get m sn =
    if ltb_ℤ sn m.begin_sequence_number || leb_ℤ m.end_sequence_number sn
    then never
    else get_or m.arrival_times (index m sn) (pos 0)

abbrev pub has_received : PacketArrivalTimeMap → ℤ → Bool
has_received m sn = leb_ℤ (pos 0) (get m sn)

abbrev pub clamp : PacketArrivalTimeMap → ℤ → ℤ
clamp m sn =
    if ltb_ℤ sn m.begin_sequence_number
    then m.begin_sequence_number
    else if ltb_ℤ m.end_sequence_number sn
    then m.end_sequence_number
    else sn

-- `for sn := from; sn < to; sn++`: the number of rounds, and the loop over them
unfoldable pub span : ℤ → ℤ → ℕ
unfolding ◌-ℤ◌
span from to = pos_part (to -ℤ from)

unfoldable pub each {ℓ} : {S : Type ℓ} → (ℤ → S → S) → ℕ → ℤ → S → S
unfolding ◌+ℤ◌
each body zero sn s = s
each body (suc k) sn s = each body k (sn +ℤ pos 1) (body sn s)

-- `m.arrivalTimes[m.index(sn)] = t`
unfoldable pub write : ℤ → ℤ → PacketArrivalTimeMap → PacketArrivalTimeMap
write t sn m = record m { arrival_times = set m.arrival_times (index m sn) t }

unfoldable pub set_not_received : PacketArrivalTimeMap → ℤ → ℤ → PacketArrivalTimeMap
unfolding write each span
set_not_received m from to = each (write never) (span from to) from m

-- one round of the copy into the new ring
abbrev pub copy : PacketArrivalTimeMap → ℕ → ℤ → List ℤ → List ℤ
copy m new_capacity sn buffer = set buffer (emod sn new_capacity) (get m sn)

unfoldable pub reallocate : PacketArrivalTimeMap → ℕ → PacketArrivalTimeMap
unfolding each span
reallocate m new_capacity = record m {
  arrival_times =
      each (copy m new_capacity) (span m.begin_sequence_number m.end_sequence_number)
        m.begin_sequence_number (replicate new_capacity (pos 0));
}

-- `for c < size { c *= 2 }` and `for c >= bound { c /= 2 }`, of `k` rounds at most
pub double : ℕ → ℕ → ℕ → ℕ
double zero c size = c
double (suc k) c size = let rest = double k (c * 2) size in if ltb c size then rest else c

pub halve : ℕ → ℕ → ℕ → ℕ
halve zero c bound = c
halve (suc k) c bound = let rest = halve k (c / 2) bound in if leb bound c then rest else c

abbrev pub max : ℕ → ℕ → ℕ
max a b = if ltb a b then b else a

unfoldable pub grow : PacketArrivalTimeMap → ℕ → PacketArrivalTimeMap
unfolding reallocate double
grow m new_size =
    if ltb (capacity m) new_size then reallocate m (double new_size (capacity m) new_size) else m

unfoldable pub shrink : PacketArrivalTimeMap → ℕ → PacketArrivalTimeMap
unfolding reallocate halve
shrink m new_size =
    if ltb (max min_capacity (new_size * 4)) (capacity m)
    then reallocate m (halve (capacity m) (capacity m) (2 * max new_size min_capacity))
    else m

unfoldable pub adjust_to_size : PacketArrivalTimeMap → ℕ → PacketArrivalTimeMap
unfolding grow shrink
adjust_to_size m new_size = shrink (grow m new_size) new_size

-- the packet goes before the range
unfoldable pub add_before : PacketArrivalTimeMap → ℤ → ℤ → PacketArrivalTimeMap
unfolding adjust_to_size set_not_received write span ◌+ℤ◌
add_before m sn t =
    let new_size = span sn m.end_sequence_number in
    if ltb max_number_of_packets new_size
    then m
    else (let w = write t sn (adjust_to_size m new_size) in
        record (set_not_received w (sn +ℤ pos 1) w.begin_sequence_number) {
          begin_sequence_number = sn;
        })

-- the oldest entries are dropped, when the range would be too long
abbrev pub drop_oldest : PacketArrivalTimeMap → ℤ → PacketArrivalTimeMap
drop_oldest m new_end =
    if ltb_ℤ m.begin_sequence_number (new_end -ℤ pos max_number_of_packets)
    then record m { begin_sequence_number = new_end -ℤ pos max_number_of_packets }
    else m

-- the packet goes after the range
unfoldable pub add_after : PacketArrivalTimeMap → ℤ → ℤ → PacketArrivalTimeMap
unfolding adjust_to_size set_not_received write span ◌+ℤ◌ ◌-ℤ◌
add_after m sn t =
    let new_end = sn +ℤ pos 1 in
    if leb_ℤ (m.end_sequence_number +ℤ pos max_number_of_packets) new_end
    then write t sn (record m { begin_sequence_number = sn; end_sequence_number = new_end })
    else (let d = drop_oldest m new_end in
        let a = adjust_to_size d (span d.begin_sequence_number new_end) in
        write t sn
          (record (set_not_received a a.end_sequence_number sn) { end_sequence_number = new_end }))

unfoldable pub add_packet : PacketArrivalTimeMap → ℤ → ℤ → PacketArrivalTimeMap
unfolding add_before add_after write reallocate ◌+ℤ◌
add_packet m sn t =
    if capacity m == 0
    then write t sn (record (reallocate m min_capacity) {
      begin_sequence_number = sn;
      end_sequence_number = sn +ℤ pos 1;
    })
    else if leb_ℤ m.begin_sequence_number sn && ltb_ℤ sn m.end_sequence_number
    then write t sn m
    else if ltb_ℤ sn m.begin_sequence_number
    then add_before m sn t
    else add_after m sn t

-- the loop of `FindNextAtOrAfter` with `k` rounds left
unfoldable pub find_from : PacketArrivalTimeMap → ℕ → ℤ → Option (ℤ × ℤ)
unfolding ◌+ℤ◌
find_from m zero sn = none
find_from m (suc k) sn =
    let rest = find_from m k (sn +ℤ pos 1) in
    if leb_ℤ (pos 0) (get m sn) then some (sn, get m sn) else rest

unfoldable pub find_next_at_or_after : PacketArrivalTimeMap → ℤ → Option (ℤ × ℤ)
unfolding find_from span
find_next_at_or_after m sn = find_from m (span (clamp m sn) m.end_sequence_number) (clamp m sn)

unfoldable pub erase_to : PacketArrivalTimeMap → ℤ → PacketArrivalTimeMap
unfolding adjust_to_size span
erase_to m sn =
    if ltb_ℤ sn m.begin_sequence_number
    then m
    else if leb_ℤ m.end_sequence_number sn
    then record m { begin_sequence_number = m.end_sequence_number }
    else adjust_to_size (record m { begin_sequence_number = sn }) (span sn m.end_sequence_number)

-- the loop of `RemoveOldPackets`, of `k` rounds at most: where the range begins then
unfoldable pub first_recent : PacketArrivalTimeMap → ℕ → ℤ → ℤ → ℤ
unfolding ◌+ℤ◌
first_recent m zero limit sn = sn
first_recent m (suc k) limit sn =
    let rest = first_recent m k limit (sn +ℤ pos 1) in if leb_ℤ (get m sn) limit then rest else sn

abbrev pub min_ℤ : ℤ → ℤ → ℤ
min_ℤ a b = if ltb_ℤ b a then b else a

unfoldable pub remove_old_packets : PacketArrivalTimeMap → ℤ → ℤ → PacketArrivalTimeMap
unfolding first_recent adjust_to_size span
remove_old_packets m sn limit =
    let check_to = min_ℤ sn m.end_sequence_number in
    let b = m.begin_sequence_number in
    let begin = first_recent m (span b check_to) limit b in
    adjust_to_size (record m { begin_sequence_number = begin }) (span begin m.end_sequence_number)
