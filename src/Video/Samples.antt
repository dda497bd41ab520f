-- ===== src/Video/Samples.antt =====
-- Packets and buffers for the tests.
use interceptor.Common.{ℕ, Bool, true, false, some, none, [], ◌∷◌, replicate}
use interceptor.Common.Int.{ℤ, pos, negsuc}
use interceptor.Video.Header.{key}
use interceptor.Video.PacketBuffer.{BufferedPacket, PacketBuffer}

abbrev pub packet : ℤ → ℕ → Bool → Bool → BufferedPacket
packet seq ts first last = record {
  sequence_number = seq;
  timestamp = ts;
  payload = 7 ∷ [];
  video_header = some (record {
    frame_type = key;
    is_first_packet_in_frame = first;
    is_last_packet_in_frame = last;
    picture_id = negsuc 0;
    temporal_idx = negsuc 0;
    tl0_pic_idx = negsuc 0;
  });
  continuous = false;
  marker_bit = last;
}

-- a ring of four slots, small enough to run
abbrev pub empty : PacketBuffer
empty = record { buffer = replicate 4 none; size = 4 }

-- the end of a frame arrives before its start
abbrev pub half_full : PacketBuffer
half_full = record empty { buffer = none ∷ none ∷ some (packet (pos 10) 5 false true) ∷ none ∷ [] }
