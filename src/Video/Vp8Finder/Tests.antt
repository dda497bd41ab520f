-- ===== src/Video/Vp8Finder/Tests.antt =====
-- A key frame, and two layers that overtake each other.
use interceptor.Common.{refl, some, List, [], ◌∷◌, true, arith, ℕ}
use interceptor.Common.Int.{pos}
use interceptor.Video.Header.{FrameType, key, delta, VideoHeader}
use interceptor.Video.Frame.{EncodedFrame, no_references}
use interceptor.Video.LayerInfo.{LayerInfo}
use interceptor.Video.Vp8Finder.{Vp8Finder, new, manage_frame, manage_all}
use interceptor.Video.Vp8Finder.Resolved.{Resolved, manage_all-Resolved}
use interceptor.Video.Vp8Finder.Settled.{IsSettled}
use interceptor.Video.Vp8Finder.Stashed.{manage_frame-IsSettled}

abbrev frame : FrameType → EncodedFrame
frame t = record {
  id = pos 0;
  first_seq_num = 0;
  last_seq_num = 0;
  first_seq_num_unwrapped = pos 0;
  last_seq_num_unwrapped = pos 0;
  timestamp = 0;
  frame_type = t;
  contents = [];
  width = 0;
  height = 0;
  num_references = 0;
  references = no_references;
}

abbrev header : ℕ → ℕ → ℕ → VideoHeader
header pid tid tl0 = record {
  frame_type = key;
  is_first_packet_in_frame = true;
  is_last_packet_in_frame = true;
  picture_id = pos pid;
  temporal_idx = pos tid;
  tl0_pic_idx = pos tl0;
}

abbrev inputs : List (EncodedFrame × VideoHeader)
inputs =
    (frame key, header 5 0 1)
    ∷ (frame delta, header 9 0 3)
    ∷ (frame delta, header 6 1 1)
    ∷ (frame delta, header 7 0 2)
    ∷ []

abbrev in_order : LayerInfo → LayerInfo
in_order m = m

manage_all-Resolved_example : Resolved [] (manage_all in_order new inputs)
manage_all-Resolved_example =
    manage_all-Resolved in_order (λ P m a. a) inputs (refl, (refl, (refl, (refl, tt))))

-- a base layer frame waits for the key frame
abbrev waiting : Vp8Finder
waiting = record new {
  stashed_frames =
      record {
        frame = frame delta;
        header = header 9 0 3;
        unwrapped_pid = pos 9;
        unwrapped_tl0 = pos 3;
      }
      ∷ [];
}

manage_frame-IsSettled_example :
    IsSettled in_order (manage_frame in_order waiting (some (frame key)) (some (header 8 0 2))).1
manage_frame-IsSettled_example =
    manage_frame-IsSettled in_order waiting (some (frame key)) (some (header 8 0 2))
      (record { sorted = (tt, tt); bounded = omega arith; drained = λ e. absurd (ground arith) })
