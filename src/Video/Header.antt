-- ===== src/Video/Header.antt =====
-- pkg/videoframe/video_header.go: the metadata of a video packet.
use interceptor.Common.{ℕ, ◌%◌, ◌-◌, Bool, ◌&&◌, List, [], ◌∷◌, ltb, ◌==◌, if◌then◌else◌}
use interceptor.Common.Int.{ℤ, pos, negsuc}

pub data FrameType : Type 0 where
  key delta : FrameType

-- NoPictureID, NoTemporalIdx and NoTL0PicIdx are all -1.
abbrev pub no_picture_id : ℤ
no_picture_id = negsuc 0

abbrev pub no_temporal_idx : ℤ
no_temporal_idx = negsuc 0

abbrev pub no_tl0_pic_idx : ℤ
no_tl0_pic_idx = negsuc 0

pub record VideoHeader : Type 0 where
  pub frame_type : FrameType
  pub is_first_packet_in_frame : Bool
  pub is_last_packet_in_frame : Bool
  pub picture_id : ℤ
  pub temporal_idx : ℤ
  pub tl0_pic_idx : ℤ

-- The fields of the codec library's VP8Packet that are read here: bytes and a uint16.
pub record Vp8Packet : Type 0 where
  pub s : ℕ
  pub pid : ℕ
  pub i : ℕ
  pub t : ℕ
  pub l : ℕ
  pub picture_id : ℕ
  pub tid : ℕ
  pub tl0_pic_idx : ℕ
  pub payload : List ℕ

-- The P bit of the first byte: 0 is a key frame.
unfoldable pub detect_vp8_frame_type : List ℕ → FrameType
detect_vp8_frame_type [] = delta
detect_vp8_frame_type (b ∷ bs) = if b % 2 == 0 then key else delta

-- `int8(x)` of a uint8
abbrev int8 : ℕ → ℤ
int8 x = if ltb x 128 then pos x else negsuc (255 - x)

unfoldable pub new_from_vp8 : Vp8Packet → Bool → VideoHeader
unfolding detect_vp8_frame_type
new_from_vp8 pkt marker =
    let first = pkt.s == 1 && pkt.pid == 0 in
    record {
      frame_type = if first then detect_vp8_frame_type pkt.payload else key;
      is_first_packet_in_frame = first;
      is_last_packet_in_frame = marker;
      picture_id = if pkt.i == 1 then pos pkt.picture_id else no_picture_id;
      temporal_idx = if pkt.t == 1 then int8 pkt.tid else no_temporal_idx;
      tl0_pic_idx = if pkt.l == 1 then pos pkt.tl0_pic_idx else no_tl0_pic_idx;
    }
