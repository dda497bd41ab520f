-- ===== src/Video/PacketBuffer/Timestamps.antt =====
-- The timestamps of the frames that `InsertPacket` hands out, in a stream that has one timestamp for
-- each sequence number.
use interceptor.Common.{
  All, All-append, ℕ, zero, suc, ◌+◌, ◌/◌, ◌≡◌, sym, ap, subst, ◌∙◌, true, false, none, some, List,
  [], ◌∷◌, arith, ◌==◌, Bool-cases, Option-cases, inl, inr,
}
use interceptor.Common.Int.{ℤ, pos, pos_part, ◌+ℤ◌, ◌-ℤ◌, int_laws}
use interceptor.Video.PacketBuffer.{
  BufferedPacket, PacketBuffer, set_slot, find, find_start, collect, extract_frame, take_frame,
  visit, find_frames, insert_packet, clear_slots, append_frame, potential_new_frame, is_first,
  seq_num_to_index, Found,
}
use interceptor.Video.PacketBuffer.Visit.{
  IsValid, mark, Visited, skipped, marked, taken, visit-Visited, take_frame-none, take_frame-some,
  find-set_slot, set_slot-IsValid, clear_slots-IsValid,
}
use interceptor.Video.PacketBuffer.Extract.{
  IsFrame, Run, NoneFirst, collect_step, find-sequence_number,
}
use interceptor.Video.PacketBuffer.Insert.{Gone, insert_packet-IsFrame}

-- All the packets have the timestamp of the first.
abbrev pub SameTimestamp : List BufferedPacket → Type 0
SameTimestamp [] = Unit
SameTimestamp (p ∷ ps) = All (λ q. q.timestamp ≡ p.timestamp) ps

module _ (ts : ℤ → ℕ) where
  -- A packet of the stream; if it is continuous, it begins a frame or goes on with the one before.
  pub record Fits (p : BufferedPacket) : Type 0 where
    pub stamp : p.timestamp ≡ ts p.sequence_number
    pub goes_on :
        p.continuous ≡ true
        → is_first p ≡ false
        → ts (p.sequence_number -ℤ pos 1) ≡ ts p.sequence_number

  -- All that is found in the buffer is of the stream.
  abbrev pub OfStream : PacketBuffer → Type 0
  OfStream b = (n : ℤ) (p : BufferedPacket) → find b n ≡ some p → Fits p

  set_none-OfStream :
      (b : PacketBuffer) (c : ℤ) → IsValid b → OfStream b → OfStream (set_slot b c none)
  set_none-OfStream b c v s n p e = let f = find-set_slot b c n none v in s n p (ground arith)

  set_some-OfStream :
      (b : PacketBuffer) (c : ℤ) (q : BufferedPacket)
      → IsValid b
      → OfStream b
      → Fits q
      → OfStream (set_slot b c (some q))
  set_some-OfStream b c q v s f n p e =
      let g = find-set_slot b c n (some q) v in
      elim (Bool-cases (seq_num_to_index b.size c == seq_num_to_index b.size n)) [
        | inr d ↦ s n p (ground arith)
        | inl d ↦ let same : q ≡ p = ground arith in subst Fits same f
      ]

  clear_slots-OfStream :
      (b : PacketBuffer) (ps : List BufferedPacket)
      → IsValid b
      → OfStream b
      → OfStream (clear_slots b ps)
  unfolding clear_slots
  clear_slots-OfStream b [] v s = s
  clear_slots-OfStream b (p ∷ ps) v s =
      clear_slots-OfStream (set_slot b p.sequence_number none) ps (set_slot-IsValid b _ none v)
        (set_none-OfStream b p.sequence_number v s)

  -- a packet that begins a frame, or that follows one of its timestamp
  potential-follows :
      (b : PacketBuffer) (c : ℤ) (p : BufferedPacket)
      → find b c ≡ some p
      → potential_new_frame b c ≡ true
      → is_first p ≡ false
      → (q : BufferedPacket) × (find b (c -ℤ pos 1) ≡ some q) × (q.timestamp ≡ p.timestamp)
  unfolding potential_new_frame
  potential-follows b c p f e n = elim (Option-cases (find b (c -ℤ pos 1))) [
    | inl d ↦ absurd (ground arith)
    | inr (q, d) ↦ (q, d, ground arith)
  ]

  mark-OfStream :
      (b : PacketBuffer) (c : ℤ) (p : BufferedPacket)
      → IsValid b
      → OfStream b
      → find b c ≡ some p
      → potential_new_frame b c ≡ true
      → OfStream (mark b c p)
  mark-OfStream b c p v s f e =
      let at = find-sequence_number b c p f in
      let stamp = (s c p f).stamp in
      set_some-OfStream b c (record p { continuous = true }) v s
        (record {
          stamp = stamp;
          goes_on = λ _ n.
              let (q, d, same) = potential-follows b c p f e n in
              ap (λ (z : ℤ). ts (z -ℤ pos 1)) at
              ∙ (sym (ap ts (find-sequence_number b (c -ℤ pos 1) q d))
                  ∙ (sym (s (c -ℤ pos 1) q d).stamp ∙ (same ∙ stamp)));
        })

  collect-Fits :
      (b : PacketBuffer) (k : ℕ) (a : ℤ) (ps : List BufferedPacket)
      → OfStream b
      → collect b k a ≡ some ps
      → All Fits ps
  unfolding collect
  collect-Fits b zero a ps s e = let nil : ps ≡ [] = ground arith in rw nil tt
  collect-Fits b (suc k) a ps s e =
      let (p, qs, cut, at, _, rest) = collect_step b k a ps e in
      rw cut (s a p at, collect-Fits b k (a +ℤ pos 1) qs s rest)

  extract_frame-Fits :
      (b : PacketBuffer) (c : ℤ) (ps : List BufferedPacket)
      → OfStream b
      → extract_frame b c ≡ some ps
      → All Fits ps
  unfolding extract_frame
  extract_frame-Fits b c ps s e = elim (Option-cases (find_start b (b.size + 1) c)) [
    | inl d ↦ absurd (ground arith)
    | inr (a, d) ↦ collect-Fits b (pos_part (c -ℤ a +ℤ pos 1)) a ps s (ground arith)
  ]

  -- The frames found so far and the buffer are of the stream, and the buffer is of its size.
  abbrev AllOfStream : Found → Type 0
  AllOfStream r = All (All Fits) r.0 × OfStream r.1 × IsValid r.1

  take_frame-AllOfStream :
      (b : PacketBuffer) (c : ℤ) (result : List (List BufferedPacket))
      → AllOfStream (result, b)
      → AllOfStream (take_frame b c result)
  take_frame-AllOfStream b c result (h, s, v) = elim (Option-cases (extract_frame b c)) [
    | inl e ↦ rw (take_frame-none b c result e) (h, s, v)
    | inr (ps, e) ↦
        rw (take_frame-some b c result ps e) (by_packets ps (extract_frame-Fits b c ps s e))
  ]
    where
      by_packets : (ps : List BufferedPacket) → All Fits ps → AllOfStream (append_frame b result ps)
      by_packets [] f = (h, s, v)
      by_packets (p ∷ ps) f = (
        All-append (All Fits) result ((p ∷ ps) ∷ []) h (f, tt),
        clear_slots-OfStream b (p ∷ ps) v s,
        clear_slots-IsValid b (p ∷ ps) v,
      )

  visit-AllOfStream :
      (b : PacketBuffer) (c : ℤ) (result : List (List BufferedPacket))
      → AllOfStream (result, b)
      → AllOfStream (visit b c result)
  visit-AllOfStream b c result (h, s, v) = by_case (visit-Visited b c result v)
    where
      by_case : {r : Found} → Visited b c result r → AllOfStream r
      by_case skipped = (h, s, v)
      by_case (marked p f e) = (h, mark-OfStream b c p v s f e, set_slot-IsValid b c _ v)
      by_case (taken p f e l) =
          take_frame-AllOfStream (mark b c p) c result
            (h, mark-OfStream b c p v s f e, set_slot-IsValid b c _ v)

  find_frames-AllOfStream :
      (k : ℕ) (b : PacketBuffer) (c : ℤ) (result : List (List BufferedPacket))
      → AllOfStream (result, b)
      → AllOfStream (find_frames k b c result)
  unfolding find_frames
  find_frames-AllOfStream zero b c result a = a
  find_frames-AllOfStream (suc k) b c result a =
      find_frames-AllOfStream k (visit b c result).1 (c +ℤ pos 1) (visit b c result).0
        (visit-AllOfStream b c result a)

  insert_packet-AllOfStream :
      (b : PacketBuffer) (pkt : BufferedPacket)
      → IsValid b
      → OfStream b
      → pkt.timestamp ≡ ts pkt.sequence_number
      → AllOfStream (insert_packet b pkt)
  unfolding insert_packet
  insert_packet-AllOfStream b pkt v s e = elim (Option-cases (find b pkt.sequence_number)) [
    | inr (p, d) ↦ rw (d, insert_packet) (tt, s, v)
    | inl d ↦
        let q = record pkt { continuous = false } in
        rw (d, insert_packet)
          (find_frames-AllOfStream b.size (set_slot b pkt.sequence_number (some q))
            (pkt.sequence_number -ℤ pos (b.size / 2)) []
            (
              tt,
              set_some-OfStream b pkt.sequence_number q v s
                  (record { stamp = e; goes_on = λ z n. absurd (ground arith) }),
              set_slot-IsValid b pkt.sequence_number (some q) v,
            ))
  ]

  -- In a run of packets that go on with a frame, the timestamp stays.
  Run-SameTimestamp :
      (t : ℕ) (a : ℤ) (ps : List BufferedPacket)
      → Run a ps
      → NoneFirst ps
      → All Fits ps
      → ts (a -ℤ pos 1) ≡ t
      → All (λ q. q.timestamp ≡ t) ps
  Run-SameTimestamp t a [] r n f e = tt
  Run-SameTimestamp t a (p ∷ ps) (at, c, r) (later, n) (f, fs) e =
      let now : ts a ≡ t =
        sym (ap ts at) ∙ (sym (f.goes_on c later) ∙ (ap (λ (z : ℤ). ts (z -ℤ pos 1)) at ∙ e)) in
      let before : a +ℤ pos 1 -ℤ pos 1 ≡ a = omega int_laws in
      (f.stamp ∙ (ap ts at ∙ now), Run-SameTimestamp t (a +ℤ pos 1) ps r n fs (ap ts before ∙ now))

  frame-SameTimestamp : (ps : List BufferedPacket) → IsFrame ps → All Fits ps → SameTimestamp ps
  frame-SameTimestamp [] i f = tt
  frame-SameTimestamp (p ∷ ps) i (f, fs) =
      let before : p.sequence_number +ℤ pos 1 -ℤ pos 1 ≡ p.sequence_number = omega int_laws in
      Run-SameTimestamp p.timestamp (p.sequence_number +ℤ pos 1) ps i.0.2 i.2 fs
        (ap ts before ∙ sym f.stamp)

  frames-SameTimestamp :
      (pss : List (List BufferedPacket))
      → All IsFrame pss
      → All (All Fits) pss
      → All SameTimestamp pss
  frames-SameTimestamp [] i f = tt
  frames-SameTimestamp (ps ∷ pss) i f =
      (frame-SameTimestamp ps i.0 f.0, frames-SameTimestamp pss i.1 f.1)

  -- In a stream that has one timestamp for each sequence number, to which the packet that comes in and
  -- all that is found in the buffer belong (a buffered packet that is continuous begins a frame or has
  -- the timestamp of the number before), `InsertPacket` on a buffer of its own size hands out nothing
  -- but complete frames: successive numbers, the first packet and no other one begins a frame, the last
  -- one ends a frame, and all have the same timestamp. None of their packets can be found in the buffer
  -- afterwards, which keeps its size and what was required of it.
  pub insert_packet-frames :
      (b : PacketBuffer) (pkt : BufferedPacket)
      → IsValid b
      → OfStream b
      → pkt.timestamp ≡ ts pkt.sequence_number
      → let (frames, b') = insert_packet b pkt in
        All IsFrame frames × All SameTimestamp frames × Gone b' frames × IsValid b' × OfStream b'
  insert_packet-frames b pkt v s e =
      let (frames, gone, w) = insert_packet-IsFrame b pkt v in
      let a = insert_packet-AllOfStream b pkt v s e in
      (frames, frames-SameTimestamp (insert_packet b pkt).0 frames a.0, gone, w, a.1)
