-- ===== src/Video/Assembler.antt =====
-- `VideoFrameAssembler` of pkg/videoframe/frame_assembler.go: a frame from its packets.
pub mod Laws
mod Tests
use interceptor.Common.{ℕ, suc, ◌+◌, Option, none, some, List, [], ◌∷◌, ◌++◌, map}
use interceptor.Common.Int.{ℤ, pos, emod}
use interceptor.Video.Header.{FrameType, key}
use interceptor.Video.PacketBuffer.{BufferedPacket}
use interceptor.Video.Frame.{EncodedFrame, no_references}

-- the next frame id, an atomic int64 that counts from 0
pub record Assembler : Type 0 where
  pub frame_id_counter : ℕ

abbrev pub new : Assembler
new = record { frame_id_counter = 0 }

-- the payloads, one after the other
pub concat_payloads : List BufferedPacket → List ℕ
concat_payloads [] = []
concat_payloads (p ∷ ps) = p.payload ++ concat_payloads ps

pub last_packet : BufferedPacket → List BufferedPacket → BufferedPacket
last_packet p [] = p
last_packet p (q ∷ ps) = last_packet q ps

-- the zero value of FrameType is the key frame
abbrev pub header_type : BufferedPacket → FrameType
header_type p = elim p.video_header [ none ↦ key | some h ↦ h.frame_type ]

-- `AssembleFrame`; `none` is the nil of an empty slice
unfoldable pub assemble_frame : Assembler → List BufferedPacket → Option EncodedFrame × Assembler
unfolding concat_payloads last_packet
assemble_frame a [] = (none, a)
assemble_frame a (p ∷ ps) =
    let last = last_packet p ps in
    (
      some (record {
        id = pos a.frame_id_counter;
        first_seq_num = emod p.sequence_number 65536;
        last_seq_num = emod last.sequence_number 65536;
        first_seq_num_unwrapped = p.sequence_number;
        last_seq_num_unwrapped = last.sequence_number;
        timestamp = p.timestamp;
        frame_type = header_type p;
        contents = concat_payloads (p ∷ ps);
        width = 0;
        height = 0;
        num_references = 0;
        references = no_references;
      }),
      record { frame_id_counter = a.frame_id_counter + 1 },
    )

-- the frames that the packet buffer hands out, assembled in turn
unfoldable pub assemble_all : Assembler → List (List BufferedPacket) → List EncodedFrame × Assembler
assemble_all a [] = ([], a)
assemble_all a (ps ∷ pss) =
    let (f, a') = assemble_frame a ps in
    let (fs, a'') = assemble_all a' pss in (elim f [ none ↦ fs | some frame ↦ frame ∷ fs ], a'')
