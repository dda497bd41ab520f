-- ===== src/RtpBuffer.antt =====
-- internal/rtpbuffer: rtpbuffer.go and retainable_packet.go. The last packets sent, by sequence
-- number, for retransmission. A packet is shared by the buffer and by the writers that hold it, and
-- counts them: a pointer to a packet is an index into the list of the packets made so far. Each
-- method is one step.
pub mod Ring
pub mod Held
pub mod Accounts
pub mod Effect
pub mod Counts
mod Tests
use interceptor.Common.{
  ℕ, zero, suc, ◌+◌, ◌%◌, Bool, true, false, not, Option, none, some, List, [], ◌∷◌, leb, ltb, ◌==◌,
  if◌then◌else◌, replicate, get_or, set, sub16, add16, uint16_size_half,
}
use interceptor.Common.Int.{ℤ, pos, negsuc, ◌+ℤ◌, ◌-ℤ◌, eqb_ℤ}
use interceptor.Common.Range.{for_range, is_power}

-- `RetainablePacket`; the content is nil once the packet has gone back to its pool
pub record RetainablePacket : Type 0 where
  pub count : ℤ
  pub content : Option (List ℕ)
  pub sequence_number : ℕ

-- `RTPBuffer`, and the packets that have been made
pub record RtpBuffer : Type 0 where
  pub packets : List (Option ℕ)
  pub size : ℕ
  pub highest_added : ℕ
  pub started : Bool
  pub store : List RetainablePacket

-- `NewRTPBuffer`, in front of the packets made so far; `none` is ErrInvalidSize
unfoldable pub new : ℕ → List RetainablePacket → Option RtpBuffer
unfolding is_power
new size store =
    if is_power 16 0 size
    then some (record {
      packets = replicate size none;
      size = size;
      highest_added = 0;
      started = false;
      store = store;
    })
    else none

abbrev pub packet_at : List RetainablePacket → ℕ → RetainablePacket
packet_at store i = get_or store i (record { count = pos 0; content = none; sequence_number = 0 })

-- `Retain`; `none` is errPacketReleased
unfoldable pub retain : List RetainablePacket → ℕ → Option (List RetainablePacket)
retain store i =
    let p = packet_at store i in
    if eqb_ℤ p.count (pos 0)
    then none
    else some (set store i (record p { count = p.count +ℤ pos 1 }))

-- `Release`
unfoldable pub release : List RetainablePacket → ℕ → List RetainablePacket
release store i =
    let p = packet_at store i in
    let count = p.count -ℤ pos 1 in
    if eqb_ℤ count (pos 0)
    then set store i (record p { count = count; content = none })
    else set store i (record p { count = count })

abbrev pub release_opt : List RetainablePacket → Option ℕ → List RetainablePacket
release_opt store none = store
release_opt store (some i) = release store i

unfoldable pub slot : RtpBuffer → ℕ → Option ℕ
slot r seq = get_or r.packets (seq % r.size) none

-- what stands in the place of a number is released, and the place taken by another packet or nil
unfoldable pub replace : RtpBuffer → ℕ → Option ℕ → RtpBuffer
replace r seq p = record r {
  packets = set r.packets (seq % r.size) p;
  store = release_opt r.store (slot r seq);
}

-- the loop of `Add` over the numbers between the highest one and `seq`
unfoldable pub clear_skipped : RtpBuffer → ℕ → RtpBuffer
clear_skipped r seq = for_range (λ i s. replace s i none) (add16 r.highest_added 1) seq r

-- `Add` of the packet `i`
unfoldable pub add : RtpBuffer → ℕ → RtpBuffer
add r i =
    let seq = (packet_at r.store i).sequence_number in
    let diff = sub16 seq r.highest_added in
    if not r.started
    then record r {
      packets = set r.packets (seq % r.size) (some i);
      highest_added = seq;
      started = true;
    }
    else if diff == 0
    then r
    else if ltb diff uint16_size_half
    then replace (record (clear_skipped r seq) { highest_added = seq }) seq (some i)
    else replace r seq (some i)

-- the packet of a place, if it has the number
unfoldable pub checked : List RetainablePacket → ℕ → Option ℕ → Option ℕ
checked store seq none = none
checked store seq (some i) = if (packet_at store i).sequence_number == seq then some i else none

-- the packet that `Get` finds, before it retains it
unfoldable pub lookup : RtpBuffer → ℕ → Option ℕ
unfolding checked
lookup r seq =
    let diff = sub16 r.highest_added seq in
    if leb uint16_size_half diff
    then none
    else if leb r.size diff
    then none
    else checked r.store seq (slot r seq)

-- `Get`, where `none` is nil
unfoldable pub get : RtpBuffer → ℕ → Option ℕ × RtpBuffer
get r seq = elim (lookup r seq) [
  | none ↦ (none, r)
  | some i ↦ elim (retain r.store i) [
    | none ↦ (none, r)
    | some store ↦ (some i, record r { store = store })
  ]
]
