-- ===== src/Video/Receiver.antt =====
-- pkg/videoframe/receiver_interceptor.go: for each stream, RTP packets go through the packet buffer,
-- the assembler and the reference finder that fits the frame. One call of the reader is one step.
-- The parsers of RTP and VP8, and the test of the MIME type, are other libraries'.
pub mod Streams
pub mod Finders
mod Tests
use interceptor.Common.{
  ℕ, zero, suc, Bool, true, false, ◌&&◌, ◌||◌, not, Option, none, some, List, [], ◌∷◌, ◌++◌, ◌==◌,
  if◌then◌else◌,
}
use interceptor.Common.Int.{ℤ, pos, eqb_ℤ}
use interceptor.Video.Header.{
  VideoHeader, Vp8Packet, new_from_vp8, no_temporal_idx, no_tl0_pic_idx, no_picture_id,
}
use interceptor.Video.PacketBuffer.{PacketBuffer, BufferedPacket, insert_packet}
use interceptor.Video.Frame.{EncodedFrame}
use interceptor.Video.Assembler.{Assembler, assemble_frame}
use interceptor.Video.LayerInfo.{LayerInfo}
use interceptor.Video.Unwrap.{WrapUnwrapper, unwrap_sequence}
use interceptor.Video.SeqNumFinder
use interceptor.Video.SeqNumFinder.{SeqNumFinder}
use interceptor.Video.FrameIdFinder
use interceptor.Video.FrameIdFinder.{FrameIdFinder}
use interceptor.Video.Vp8Finder
use interceptor.Video.Vp8Finder.{Vp8Finder}

-- `RefFinderType`
pub data RefFinderType : Type 0 where
  seq_num_only : RefFinderType
  frame_id_only : RefFinderType
  vp8 : RefFinderType

-- `SelectRefFinderType`
unfoldable pub select_ref_finder_type : Option VideoHeader → RefFinderType
select_ref_finder_type none = seq_num_only
select_ref_finder_type (some h) =
    if not (eqb_ℤ h.temporal_idx no_temporal_idx)
      && not (eqb_ℤ h.tl0_pic_idx no_tl0_pic_idx)
      && not (eqb_ℤ h.picture_id no_picture_id)
    then vp8
    else if not (eqb_ℤ h.picture_id no_picture_id)
    then frame_id_only
    else seq_num_only

-- `streamState`; a finder is `none` until it is first used
pub record StreamState : Type 0 where
  pub packet_buffer : PacketBuffer
  pub frame_assembler : Assembler
  pub seq_unwrapper : WrapUnwrapper
  pub seq_num_only_ref_finder : Option SeqNumFinder
  pub frame_id_only_ref_finder : Option FrameIdFinder
  pub vp8_ref_finder : Option Vp8Finder

abbrev pub or_new {ℓ} : {A : Type ℓ} → A → Option A → A
or_new d none = d
or_new d (some a) = a

-- the fields of the RTP library's Packet that are read here
pub record RtpPacket : Type 0 where
  pub marker : Bool
  pub sequence_number : ℕ
  pub timestamp : ℕ
  pub payload : List ℕ

-- the header of the first packet of a frame
abbrev pub first_header : List BufferedPacket → Option VideoHeader
first_header [] = none
first_header (p ∷ ps) = p.video_header

module _ (order : LayerInfo → LayerInfo) where
  -- `selectRefFinderForFrame` and the call of `ManageFrame` on what it selects
  unfoldable pub manage_with :
      RefFinderType
      → StreamState
      → EncodedFrame
      → Option VideoHeader
      → List EncodedFrame × StreamState
  manage_with vp8 st frame header =
      let (out, f) =
        Vp8Finder.manage_frame order (or_new Vp8Finder.new st.vp8_ref_finder) (some frame) header in
      (out, record st { vp8_ref_finder = some f })
  manage_with frame_id_only st frame header =
      let (out, f) =
        FrameIdFinder.manage_frame (or_new FrameIdFinder.new st.frame_id_only_ref_finder)
          (some frame) header in
      (out, record st { frame_id_only_ref_finder = some f })
  manage_with seq_num_only st frame header =
      let (out, f) =
        SeqNumFinder.manage_frame (or_new SeqNumFinder.new st.seq_num_only_ref_finder) (some frame)
          header in
      (out, record st { seq_num_only_ref_finder = some f })

  -- one frame of the loop over `result.Frames`, assembled, with its type and header
  abbrev pub resolve_frame :
      RefFinderType
      → StreamState
      → Option EncodedFrame
      → Option VideoHeader
      → List EncodedFrame × StreamState
  resolve_frame t st none header = ([], st)
  resolve_frame t st (some frame) header = manage_with t st frame header

  -- the loop over `result.Frames`
  unfoldable pub resolve_frames :
      StreamState → List (List BufferedPacket) → List EncodedFrame × StreamState
  resolve_frames st [] = ([], st)
  resolve_frames st (ps ∷ pss) =
      let (frame, a) = assemble_frame st.frame_assembler ps in
      let (out, st') =
        resolve_frame (select_ref_finder_type (first_header ps)) (record st { frame_assembler = a })
          frame (first_header ps) in
      let (outs, st'') = resolve_frames st' pss in (out ++ outs, st'')

  -- the call on a packet that has been parsed
  unfoldable pub on_parsed : StreamState → RtpPacket → Vp8Packet → List EncodedFrame × StreamState
  on_parsed st pkt v =
      let (seq, u) = unwrap_sequence st.seq_unwrapper pkt.sequence_number in
      let (frames, b) = insert_packet st.packet_buffer (record {
        sequence_number = seq;
        timestamp = pkt.timestamp;
        payload = v.payload;
        video_header = some (new_from_vp8 v pkt.marker);
        continuous = false;
        marker_bit = pkt.marker;
      }) in
      resolve_frames (record st { seq_unwrapper = u; packet_buffer = b }) frames

  module _ (unmarshal_rtp : List ℕ → Option RtpPacket)
      (unmarshal_vp8 : List ℕ → Option Vp8Packet) where
    -- The reader on the bytes of a packet: the frames for the attributes. What cannot be parsed passes
    -- through and changes nothing; so does an error of the reader below, which is no step here.
    unfoldable pub read : StreamState → List ℕ → List EncodedFrame × StreamState
    read st bytes = elim (unmarshal_rtp bytes) [
      | none ↦ ([], st)
      | some pkt ↦ elim (unmarshal_vp8 pkt.payload) [
        | none ↦ ([], st)
        | some v ↦ on_parsed st pkt v
      ]
    ]

    -- the frames of a run of calls
    unfoldable pub read_all : StreamState → List (List ℕ) → List EncodedFrame × StreamState
    read_all st [] = ([], st)
    read_all st (b ∷ bs) =
        let (out, st') = read st b in let (outs, st'') = read_all st' bs in (out ++ outs, st'')
