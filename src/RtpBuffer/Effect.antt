-- ===== src/RtpBuffer/Effect.antt =====
-- What `Add` makes `Get` find.
use interceptor.Common.{
  ℕ, ◌%◌, ◌≤◌, ◌<◌, ◌≡◌, ◌≢◌, ◌⊎◌, refl, subst, true, Option, none, some, List, arith, ◌==◌,
  if◌then◌else◌, sub16,
}
use interceptor.RtpBuffer.{
  RetainablePacket, RtpBuffer, packet_at, slot, replace, clear_skipped, add, checked, lookup,
}
use interceptor.RtpBuffer.Ring.{
  IsRing, Within, SameNumbers, replace-SameNumbers, slot-replace, slot-replace_mod,
  clear_skipped-SameNumbers, clear_skipped-slot,
}

checked-SameNumbers :
    (r s : RtpBuffer) (seq : ℕ) (o : Option ℕ)
    → SameNumbers r s
    → checked s.store seq o ≡ checked r.store seq o
unfolding checked
checked-SameNumbers r s seq none e = refl
checked-SameNumbers r s seq (some i) e = rw (e.number i) refl

checked_self :
    (store : List RetainablePacket) (i : ℕ)
    → checked store (packet_at store i).sequence_number (some i) ≡ some i
unfolding checked
checked_self store i = ground arith

checked_other :
    (store : List RetainablePacket) (i j : ℕ)
    → (packet_at store i).sequence_number ≢ j
    → checked store j (some i) ≡ none
unfolding checked
checked_other store i j n = ground arith

checked-none : (store : List RetainablePacket) (j : ℕ) → checked store j none ≡ none
unfolding checked
checked-none store j = refl

-- A ring whose highest number is a uint16.
pub record IsValid (r : RtpBuffer) : Type 0 where
  pub ring : IsRing r
  pub highest_16 : r.highest_added < 65536

-- Inside the window, `lookup` reads the place.
lookup-inside :
    (r : RtpBuffer) (j : ℕ)
    → r.size ≤ 32768
    → sub16 r.highest_added j < r.size
    → lookup r j ≡ checked r.store j (slot r j)
unfolding lookup
lookup-inside r j s w = ground arith

-- The older packet: only its own place changes.
older-lookup :
    (r : RtpBuffer) (i j : ℕ)
    → IsValid r
    → let seq = (packet_at r.store i).sequence_number in
      Within r r.highest_added seq
      → Within r r.highest_added j
      → lookup (replace r seq (some i)) j ≡ (if seq == j then some i else lookup r j)
older-lookup r i j v ws wj =
    let seq = (packet_at r.store i).sequence_number in
    let s = replace-SameNumbers r seq (some i) in
    ground (
      arith,
      v.ring.size_small,
      s.size,
      s.highest,
      lookup-inside r j,
      lookup-inside (replace r seq (some i)) j,
      slot-replace r r.highest_added seq j (some i) v.ring v.highest_16 ws wj,
      checked-SameNumbers r (replace r seq (some i)) j (slot (replace r seq (some i)) j) s,
      checked_self r.store i,
    )

-- the buffer that has moved on to a newer number
abbrev moved : RtpBuffer → ℕ → RtpBuffer
moved r seq = record (clear_skipped r seq) { highest_added = seq }

slot-moved : (r : RtpBuffer) (seq j : ℕ) → slot (moved r seq) j ≡ slot (clear_skipped r seq) j
unfolding slot
slot-moved r seq j = refl

lookup-outside : (r : RtpBuffer) (j : ℕ) → 32768 ≤ sub16 r.highest_added j → lookup r j ≡ none
unfolding lookup
lookup-outside r j h = ground arith

moved-lookup :
    (r : RtpBuffer) (seq j : ℕ)
    → IsValid r
    → seq < 65536
    → 0 < sub16 seq r.highest_added
    → sub16 seq r.highest_added < 32768
    → Within r seq j
    → j ≢ seq
    → lookup (moved r seq) j ≡ lookup r j
moved-lookup r seq j v hs p q wj ne =
    let s = clear_skipped-SameNumbers r seq in
    ground (
      arith,
      v.ring.size_small,
      v.highest_16,
      s.size,
      lookup-inside (moved r seq) j,
      lookup-inside r j,
      lookup-outside r j,
      slot-moved r seq j,
      clear_skipped-slot r seq j v.ring v.highest_16 hs p q wj ne,
      checked-SameNumbers r (clear_skipped r seq) j (slot r j) s,
      checked-none (clear_skipped r seq).store j,
    )

moved-IsValid : (r : RtpBuffer) (seq : ℕ) → IsValid r → seq < 65536 → IsValid (moved r seq)
moved-IsValid r seq v h =
    let s = clear_skipped-SameNumbers r seq in ground (arith, v.ring, s.size, s.storage)

newer-lookup :
    (r : RtpBuffer) (i j : ℕ)
    → IsValid r
    → let seq = (packet_at r.store i).sequence_number in
      seq < 65536
      → 0 < sub16 seq r.highest_added
      → sub16 seq r.highest_added < 32768
      → Within r seq j
      → lookup (replace (moved r seq) seq (some i)) j ≡ (if seq == j then some i else lookup r j)
newer-lookup r i j v hs p q wj =
    let seq = (packet_at r.store i).sequence_number in
    let s = clear_skipped-SameNumbers r seq in
    let t = moved r seq in
    let same : (packet_at t.store i).sequence_number ≡ seq = s.number i in
    let w = moved-IsValid r seq v hs in
    let at_t : lookup (replace t seq (some i)) j ≡ (if seq == j then some i else lookup t j) =
      subst (λ n. lookup (replace t n (some i)) j ≡ (if n == j then some i else lookup t j)) same
        (older-lookup t i j w (rw same (ground (arith, s.size, v.ring.size_positive)))
          (ground (arith, s.size))) in
    ground (arith, at_t, moved-lookup r seq j v hs p q wj)

-- `Add` of a packet whose number is newer than the highest one, or older but inside the window,
-- has this effect on what `Get` finds: that packet is found by its number, and for every other of the
-- last `size` numbers what was found before.
pub lookup-add :
    (r : RtpBuffer) (i j : ℕ)
    → IsValid r
    → r.started ≡ true
    → (packet_at r.store i).sequence_number < 65536
    → (packet_at r.store i).sequence_number ≢ r.highest_added
    → (sub16 (packet_at r.store i).sequence_number r.highest_added < 32768)
      ⊎ (sub16 r.highest_added (packet_at r.store i).sequence_number < r.size)
    → j < 65536
    → sub16 (add r i).highest_added j < r.size
    → lookup (add r i) j
      ≡ (if (packet_at r.store i).sequence_number == j then some i else lookup r j)
unfolding add
lookup-add r i j v st hs ne c hj w =
    let seq = (packet_at r.store i).sequence_number in
    let size = v.ring.size_small in
    let h = v.highest_16 in
    ground (
      arith,
      older-lookup r i j v,
      newer-lookup r i j v,
      (replace-SameNumbers r seq (some i)).highest,
      (replace-SameNumbers (moved r seq) seq (some i)).highest,
    )

-- `Add` of a packet that is older than the window puts it in the place of another: the number of the
-- window that shares the place, which is another number, is then not found any more.
pub lookup-add_stale :
    (r : RtpBuffer) (i j : ℕ)
    → IsValid r
    → r.started ≡ true
    → (packet_at r.store i).sequence_number < 65536
    → 32768 ≤ sub16 (packet_at r.store i).sequence_number r.highest_added
    → r.size ≤ sub16 r.highest_added (packet_at r.store i).sequence_number
    → j < 65536
    → sub16 r.highest_added j < r.size
    → j % r.size ≡ (packet_at r.store i).sequence_number % r.size
    → (j ≢ (packet_at r.store i).sequence_number) × (lookup (add r i) j ≡ none)
unfolding add
lookup-add_stale r i j v st hs old c hj w e =
    let seq = (packet_at r.store i).sequence_number in
    let s = replace-SameNumbers r seq (some i) in
    ground (
      arith,
      v.ring.size_small,
      s.size,
      s.highest,
      s.number i,
      slot-replace_mod r seq j (some i) v.ring,
      lookup-inside (replace r seq (some i)) j,
      checked_other (replace r seq (some i)).store i j,
    )
