-- ===== src/Video/FrameIdFinder/Tests.antt =====
-- Two frames around the end of the 15 bits.
use interceptor.Common.{◌≡◌, refl, List, [], ◌∷◌, arith, true, ℕ}
use interceptor.Common.Int.{pos, negsuc, ◌+ℤ◌}
use interceptor.Video.Header.{FrameType, key, delta, VideoHeader}
use interceptor.Video.Frame.{EncodedFrame, no_references}
use interceptor.Video.FrameIdFinder.{new, manage_all}
use interceptor.Video.FrameIdFinder.Laws.{numbered, manage_all-numbered}

abbrev frame : FrameType → EncodedFrame
frame t = record {
  id = pos 0;
  first_seq_num = 0;
  last_seq_num = 0;
  first_seq_num_unwrapped = pos 0;
  last_seq_num_unwrapped = pos 0;
  timestamp = 0;
  frame_type = t;
  contents = [];
  width = 0;
  height = 0;
  num_references = 0;
  references = no_references;
}

abbrev header : ℕ → VideoHeader
header pid = record {
  frame_type = key;
  is_first_packet_in_frame = true;
  is_last_packet_in_frame = true;
  picture_id = pos pid;
  temporal_idx = negsuc 0;
  tl0_pic_idx = negsuc 0;
}

abbrev inputs : List (EncodedFrame × VideoHeader)
inputs = (frame key, header 32767) ∷ (frame delta, header 0) ∷ []

manage_all-numbered_example : manage_all new inputs ≡ numbered (pos 32767 ∷ pos 32768 ∷ []) inputs
manage_all-numbered_example =
    manage_all-numbered 32767 (pos 32768 ∷ []) inputs (omega arith)
      (unfold ◌+ℤ◌ in ((omega arith, omega arith), tt)) (refl, omega arith, (refl, omega arith, tt))
