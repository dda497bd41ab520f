-- ===== src/Video/Assembler/Laws.antt =====
-- What an assembled frame holds.
use interceptor.Common.{
  All, ℕ, ◌+◌, ◌≡◌, refl, ap, ◌∙◌, map, Option, none, some, List, [], ◌∷◌, ◌++◌, length,
}
use mathlib.Core.List.{flatten}
use interceptor.Video.Header.{VideoHeader, key}
use interceptor.Common.Int.{ℤ, pos, emod, ◌+ℤ◌, int_laws}
use interceptor.Video.PacketBuffer.{BufferedPacket, PacketBuffer, insert_packet}
use interceptor.Video.PacketBuffer.Extract.{IsFrame, Run}
use interceptor.Video.PacketBuffer.Visit.{IsValid}
use interceptor.Video.PacketBuffer.Insert.{insert_packet-IsFrame}
use interceptor.Video.Frame.{EncodedFrame}
use interceptor.Video.Assembler.{
  Assembler, assemble_frame, assemble_all, concat_payloads, last_packet,
}

last_packet-Run :
    (a : ℤ) (p : BufferedPacket) (ps : List BufferedPacket)
    → Run a (p ∷ ps)
    → (last_packet p ps).sequence_number ≡ a +ℤ pos (length ps)
unfolding last_packet
last_packet-Run a p [] r = r.0 ∙ omega int_laws
last_packet-Run a p (q ∷ ps) r = last_packet-Run (a +ℤ pos 1) q ps r.2 ∙ omega int_laws

concat_payloads-flatten :
    (ps : List BufferedPacket) → concat_payloads ps ≡ flatten (map (λ p. p.payload) ps)
unfolding concat_payloads flatten
concat_payloads-flatten [] = refl
concat_payloads-flatten (p ∷ ps) = ap (λ bytes. p.payload ++ bytes) (concat_payloads-flatten ps)

-- What the assembler made of the packet `p` and the packets `ps` after it.
pub record Assembled (id : ℕ) (p : BufferedPacket) (ps : List BufferedPacket) (f : EncodedFrame)
    : Type 0 where
  pub numbered : f.id ≡ pos id
  pub payloads : f.contents ≡ flatten (map (λ q. q.payload) (p ∷ ps))
  pub begins : f.first_seq_num_unwrapped ≡ p.sequence_number
  pub span : f.last_seq_num_unwrapped ≡ p.sequence_number +ℤ pos (length ps)
  pub stamped : f.timestamp ≡ p.timestamp
  pub typed : (h : VideoHeader) → p.video_header ≡ some h → f.frame_type ≡ h.frame_type
  pub first_wrapped : f.first_seq_num ≡ emod f.first_seq_num_unwrapped 65536
  pub last_wrapped : f.last_seq_num ≡ emod f.last_seq_num_unwrapped 65536
  pub unresolved : f.num_references ≡ 0

assemble_frame-Assembled :
    (a : Assembler) (ps : List BufferedPacket)
    → (p : BufferedPacket) → IsFrame (p ∷ ps)
    → (f : EncodedFrame) × ((assemble_frame a (p ∷ ps)).0 ≡ some f)
      × ((assemble_frame a (p ∷ ps)).1.frame_id_counter ≡ a.frame_id_counter + 1)
      × Assembled a.frame_id_counter p ps f
unfolding assemble_frame
assemble_frame-Assembled a ps p h = (
  _,
  refl,
  refl,
  record {
    numbered = refl;
    payloads = concat_payloads-flatten (p ∷ ps);
    begins = refl;
    span = last_packet-Run p.sequence_number p ps h.0;
    stamped = refl;
    typed = λ d e. ap (λ (o : Option VideoHeader). elim o [ none ↦ key | some d ↦ d.frame_type ]) e;
    first_wrapped = refl;
    last_wrapped = refl;
    unresolved = refl;
  },
)

-- One assembled frame for each list of packets, numbered from `id` on.
abbrev pub AllAssembled : ℕ → List (List BufferedPacket) → List EncodedFrame → Type 0
AllAssembled id [] [] = Unit
AllAssembled id [] (f ∷ fs) = ⊥
AllAssembled id (ps ∷ pss) [] = ⊥
AllAssembled id ([] ∷ pss) (f ∷ fs) = ⊥
AllAssembled id ((p ∷ ps) ∷ pss) (f ∷ fs) = Assembled id p ps f × AllAssembled (id + 1) pss fs

assemble_all-AllAssembled :
    (pss : List (List BufferedPacket)) (a : Assembler)
    → All IsFrame pss
    → AllAssembled a.frame_id_counter pss (assemble_all a pss).0
unfolding assemble_all
assemble_all-AllAssembled [] a h = tt
assemble_all-AllAssembled ([] ∷ pss) a h = absurd h.0
assemble_all-AllAssembled ((p ∷ ps) ∷ pss) a h =
    let (f, e, next, made) = assemble_frame-Assembled a ps p h.0 in
    rw (e, assemble_all)
      (made, rw next at (assemble_all-AllAssembled pss (assemble_frame a (p ∷ ps)).1 h.1))

-- Every list of packets that `InsertPacket` hands out is assembled into one frame, and the frames are
-- numbered one after the other from the assembler's counter on: each holds the payloads of its
-- packets in order, spans exactly as many sequence numbers as it has packets, from the first packet's
-- on, carries the timestamp of the first packet and the frame type of the first packet's header, and
-- has no reference yet.
pub insert_packet-assemble_all :
    (b : PacketBuffer) (pkt : BufferedPacket) (a : Assembler)
    → IsValid b
    → let pss = (insert_packet b pkt).0 in
      AllAssembled a.frame_id_counter pss (assemble_all a pss).0
insert_packet-assemble_all b pkt a v =
    assemble_all-AllAssembled (insert_packet b pkt).0 a (insert_packet-IsFrame b pkt v).0
