-- ===== src/Video/PacketBuffer/Visit.antt =====
-- One round of `findFrames`: a write to a slot, the taking of a frame, and the visit of a number.
use interceptor.Common.{
  All, All-append, ℕ, ◌<◌, ◌≡◌, ◌∙◌, true, Option, none, some, List, [], ◌∷◌, ◌==◌, arith,
  if◌then◌else◌, length, get_or-set_self, get_or-set_ne, length-set, Bool-cases, Option-cases, inl,
  inr,
}
use interceptor.Common.Int.{ℤ, eqb_ℤ}
use interceptor.Video.PacketBuffer.{
  BufferedPacket, PacketBuffer, slot, set_slot, find, extract_frame, take_frame, visit, is_last,
  clear_slots, append_frame, potential_new_frame, seq_num_to_index, Found,
}
use interceptor.Video.PacketBuffer.Extract.{
  IsFrame, find-sequence_number, extract_frame-IsFrame, last_at,
}

pub record IsValid (b : PacketBuffer) : Type 0 where
  pub positive : 0 < b.size
  pub storage : length b.buffer ≡ b.size

seq_num_to_index-lt : (size : ℕ) (n : ℤ) → 0 < size → seq_num_to_index size n < size
unfolding seq_num_to_index
seq_num_to_index-lt size n h = ground arith

find-slot : (b : PacketBuffer) (c : ℤ) (p : BufferedPacket) → find b c ≡ some p → slot b c ≡ some p
unfolding find
find-slot b c p h = ground arith

-- What a write to one number's slot does to a search for another.
pub find-set_slot :
    (b : PacketBuffer) (c n : ℤ) (v : Option BufferedPacket)
    → IsValid b
    → find (set_slot b c v) n ≡ (
        if seq_num_to_index b.size c == seq_num_to_index b.size n
        then elim v [ none ↦ none | some p ↦ if eqb_ℤ p.sequence_number n then some p else none ]
        else find b n)
unfolding find set_slot slot
find-set_slot b c n v h = ground (
  arith,
  seq_num_to_index-lt b.size c h.positive,
  get_or-set_self b.buffer (seq_num_to_index b.size c) v none,
  get_or-set_ne b.buffer (seq_num_to_index b.size c) (seq_num_to_index b.size n) v none,
)

pub set_slot-IsValid :
    (b : PacketBuffer) (c : ℤ) (v : Option BufferedPacket) → IsValid b → IsValid (set_slot b c v)
unfolding set_slot
set_slot-IsValid b c v h = ground (arith, length-set b.buffer (seq_num_to_index b.size c) v)

pub clear_slots-IsValid :
    (b : PacketBuffer) (ps : List BufferedPacket) → IsValid b → IsValid (clear_slots b ps)
unfolding clear_slots
clear_slots-IsValid b [] h = h
clear_slots-IsValid b (p ∷ ps) h =
    clear_slots-IsValid (set_slot b p.sequence_number none) ps (set_slot-IsValid b _ none h)

pub take_frame-none :
    (b : PacketBuffer) (c : ℤ) (result : List (List BufferedPacket))
    → extract_frame b c ≡ none
    → take_frame b c result ≡ (result, b)
unfolding take_frame
take_frame-none b c result e = rw (e, take_frame)

pub take_frame-some :
    (b : PacketBuffer) (c : ℤ) (result : List (List BufferedPacket)) (ps : List BufferedPacket)
    → extract_frame b c ≡ some ps
    → take_frame b c result ≡ append_frame b result ps
unfolding take_frame
take_frame-some b c result ps e = rw (e, take_frame)

pub take_frame-IsFrame :
    (b : PacketBuffer) (c : ℤ) (result : List (List BufferedPacket))
    → last_at b c ≡ true
    → All IsFrame result
    → All IsFrame (take_frame b c result).0
take_frame-IsFrame b c result l h = elim (Option-cases (extract_frame b c)) [
  | inl e ↦ rw (take_frame-none b c result e) h
  | inr (ps, e) ↦ rw (take_frame-some b c result ps e) (by_packets ps e)
]
  where
    by_packets :
        (ps : List BufferedPacket)
        → extract_frame b c ≡ some ps
        → All IsFrame (append_frame b result ps).0
    by_packets [] e = h
    by_packets (p ∷ ps) e =
        All-append IsFrame result ((p ∷ ps) ∷ []) h (extract_frame-IsFrame b c (p ∷ ps) l e, tt)

-- What a packet that may continue a frame is: the one that a search finds, in its slot.
potential_lem :
    (b : PacketBuffer) (c : ℤ)
    → potential_new_frame b c ≡ true
    → (p : BufferedPacket) × (find b c ≡ some p) × (slot b c ≡ some p) × (p.sequence_number ≡ c)
unfolding potential_new_frame
potential_lem b c h = elim (Option-cases (find b c)) [
  | inl e ↦ absurd (ground arith)
  | inr (p, e) ↦ (p, e, find-slot b c p e, find-sequence_number b c p e)
]

abbrev pub mark : PacketBuffer → ℤ → BufferedPacket → PacketBuffer
mark b c p = set_slot b c (some (record p { continuous = true }))

last_at-mark :
    (b : PacketBuffer) (c : ℤ) (p : BufferedPacket)
    → IsValid b
    → p.sequence_number ≡ c
    → last_at (mark b c p) c ≡ is_last p
last_at-mark b c p v e =
    ground (arith, find-set_slot b c c (some (record p { continuous = true })) v)

-- `visit` either does nothing, marks a packet that it finds, or marks it and takes its frame.
pub data Visited (b : PacketBuffer) (c : ℤ) (result : List (List BufferedPacket))
    : Found → Type 0 where
  skipped : Visited b c result (result, b)
  marked :
      (p : BufferedPacket)
      → find b c ≡ some p
      → potential_new_frame b c ≡ true
      → Visited b c result (result, mark b c p)
  taken :
      (p : BufferedPacket)
      → find b c ≡ some p
      → potential_new_frame b c ≡ true
      → last_at (mark b c p) c ≡ true
      → Visited b c result (take_frame (mark b c p) c result)

pub visit-Visited :
    (b : PacketBuffer) (c : ℤ) (result : List (List BufferedPacket))
    → IsValid b
    → Visited b c result (visit b c result)
unfolding visit
visit-Visited b c result v = elim (Bool-cases (potential_new_frame b c)) [
  | inl e ↦
      let (p, f, s, n) = potential_lem b c e in
      elim (Bool-cases (is_last p)) [
        | inl l ↦ rw (e, s, l) (taken p f e (last_at-mark b c p v n ∙ l))
        | inr l ↦ rw (e, s, l) (marked p f e)
      ]
  | inr e ↦ rw e skipped
]
