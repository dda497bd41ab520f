-- ===== src/Video/PacketBuffer/Insert.antt =====
-- What `InsertPacket` returns, and what it leaves in the buffer.
use interceptor.Common.{
  All, All-append, All-map, ℕ, zero, suc, ◌/◌, ◌≡◌, refl, true, false, none, some, List, [], ◌∷◌,
  ◌⊎◌, arith, Option-cases, inl, inr,
}
use interceptor.Common.Int.{ℤ, pos, ◌+ℤ◌, ◌-ℤ◌, eq_of_parts}
use interceptor.Video.PacketBuffer.{
  BufferedPacket, PacketBuffer, set_slot, find, extract_frame, take_frame, visit, find_frames,
  insert_packet, clear_slots, append_frame, Found,
}
use interceptor.Video.PacketBuffer.Visit.{
  IsValid, mark, Visited, skipped, marked, taken, visit-Visited, take_frame-IsFrame,
  take_frame-none, take_frame-some, find-set_slot, set_slot-IsValid, clear_slots-IsValid,
}
use interceptor.Video.PacketBuffer.Extract.{IsFrame, find-sequence_number}

visit-IsFrame :
    (b : PacketBuffer) (c : ℤ) (result : List (List BufferedPacket))
    → IsValid b
    → All IsFrame result
    → All IsFrame (visit b c result).0
visit-IsFrame b c result v h = by_case (visit-Visited b c result v)
  where
    by_case : {r : Found} → Visited b c result r → All IsFrame r.0
    by_case skipped = h
    by_case (marked p f e) = h
    by_case (taken p f e l) = take_frame-IsFrame (mark b c p) c result l h

-- None of the packets is in the buffer any more.
abbrev pub Gone : PacketBuffer → List (List BufferedPacket) → Type 0
Gone b = All (All (λ q. find b q.sequence_number ≡ none))

mark-none :
    (b : PacketBuffer) (c n : ℤ) (p : BufferedPacket)
    → IsValid b
    → find b c ≡ some p
    → find b n ≡ none
    → find (mark b c p) n ≡ none
mark-none b c n p v f e = ground (
  arith,
  find-sequence_number b c p f,
  find-set_slot b c n (some (record p { continuous = true })) v,
  eq_of_parts p.sequence_number n,
)

clear-none :
    (b : PacketBuffer) (c n : ℤ)
    → IsValid b
    → (c ≡ n) ⊎ (find b n ≡ none)
    → find (set_slot b c none) n ≡ none
clear-none b c n v (inl e) = ground (arith, find-set_slot b c n none v)
clear-none b c n v (inr e) = ground (arith, find-set_slot b c n none v)

clear_slots-none :
    (b : PacketBuffer) (ps : List BufferedPacket) (n : ℤ)
    → IsValid b
    → find b n ≡ none
    → find (clear_slots b ps) n ≡ none
unfolding clear_slots
clear_slots-none b [] n v e = e
clear_slots-none b (p ∷ ps) n v e =
    clear_slots-none (set_slot b p.sequence_number none) ps n
      (set_slot-IsValid b p.sequence_number none v) (clear-none b p.sequence_number n v (inr e))

clear_slots-gone :
    (b : PacketBuffer) (ps : List BufferedPacket)
    → IsValid b
    → All (λ q. find (clear_slots b ps) q.sequence_number ≡ none) ps
unfolding clear_slots
clear_slots-gone b [] v = tt
clear_slots-gone b (p ∷ ps) v =
    let w = set_slot-IsValid b p.sequence_number none v in
    (
      clear_slots-none (set_slot b p.sequence_number none) ps p.sequence_number w
          (clear-none b p.sequence_number p.sequence_number v (inl refl)),
      clear_slots-gone (set_slot b p.sequence_number none) ps w,
    )

-- What is not found stays so.
abbrev Keeps : PacketBuffer → PacketBuffer → Type 0
Keeps b b' = (n : ℤ) → find b n ≡ none → find b' n ≡ none

Gone-Keeps :
    (b b' : PacketBuffer) (fs : List (List BufferedPacket)) → Keeps b b' → Gone b fs → Gone b' fs
Gone-Keeps b b' fs k = All-map _ _ fs (λ ps. All-map _ _ ps (λ q. k q.sequence_number))

take_frame-Gone :
    (b : PacketBuffer) (c : ℤ) (result : List (List BufferedPacket))
    → IsValid b
    → Gone b result
    → Gone (take_frame b c result).1 (take_frame b c result).0 × IsValid (take_frame b c result).1
take_frame-Gone b c result v h = elim (Option-cases (extract_frame b c)) [
  | inl e ↦ rw (take_frame-none b c result e) (h, v)
  | inr (ps, e) ↦ rw (take_frame-some b c result ps e) (by_packets ps)
]
  where
    by_packets :
        (ps : List BufferedPacket)
        → Gone (append_frame b result ps).1 (append_frame b result ps).0
          × IsValid (append_frame b result ps).1
    by_packets [] = (h, v)
    by_packets (p ∷ ps) = (
      All-append (All (λ q. find (clear_slots b (p ∷ ps)) q.sequence_number ≡ none)) result
          ((p ∷ ps) ∷ [])
          (Gone-Keeps b (clear_slots b (p ∷ ps)) result (λ n. clear_slots-none b (p ∷ ps) n v) h)
          (clear_slots-gone b (p ∷ ps) v, tt),
      clear_slots-IsValid b (p ∷ ps) v,
    )

visit-Gone :
    (b : PacketBuffer) (c : ℤ) (result : List (List BufferedPacket))
    → IsValid b
    → Gone b result
    → Gone (visit b c result).1 (visit b c result).0 × IsValid (visit b c result).1
visit-Gone b c result v h = by_case (visit-Visited b c result v)
  where
    by_mark : (p : BufferedPacket) → find b c ≡ some p → Gone (mark b c p) result
    by_mark p f = Gone-Keeps b (mark b c p) result (λ n. mark-none b c n p v f) h

    by_case : {r : Found} → Visited b c result r → Gone r.1 r.0 × IsValid r.1
    by_case skipped = (h, v)
    by_case (marked p f e) = (by_mark p f, set_slot-IsValid b c _ v)
    by_case (taken p f e l) =
        take_frame-Gone (mark b c p) c result (set_slot-IsValid b c _ v) (by_mark p f)

find_frames_lem :
    (k : ℕ) (b : PacketBuffer) (c : ℤ) (result : List (List BufferedPacket))
    → IsValid b
    → All IsFrame result
    → Gone b result
    → let (frames, b') = find_frames k b c result in
      All IsFrame frames × Gone b' frames × IsValid b'
unfolding find_frames
find_frames_lem zero b c result v h g = (h, g, v)
find_frames_lem (suc k) b c result v h g =
    let (g', v') = visit-Gone b c result v g in
    find_frames_lem k (visit b c result).1 (c +ℤ pos 1) (visit b c result).0 v'
      (visit-IsFrame b c result v h) g'

pub insert_packet-IsFrame :
    (b : PacketBuffer) (pkt : BufferedPacket)
    → IsValid b
    → let (frames, b') = insert_packet b pkt in All IsFrame frames × Gone b' frames × IsValid b'
unfolding insert_packet
insert_packet-IsFrame b pkt v = elim (Option-cases (find b pkt.sequence_number)) [
  | inl e ↦
      rw (e, insert_packet)
        (find_frames_lem b.size
          (set_slot b pkt.sequence_number (some (record pkt { continuous = false })))
          (pkt.sequence_number -ℤ pos (b.size / 2)) []
          (set_slot-IsValid b pkt.sequence_number (some (record pkt { continuous = false })) v) tt
          tt)
  | inr (p, e) ↦ rw (e, insert_packet) (tt, tt, v)
]
