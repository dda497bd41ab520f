-- ===== src/Video/SeqNumFinder/Tests.antt =====
-- A key frame, and a delta frame that overtakes another.
use mathlib.Core.List.{Perm}
use interceptor.Common.{◌≡◌, refl, some, none, Option, List, [], ◌∷◌, ◌++◌, map, true, arith}
use interceptor.Common.Int.{ℤ, pos, ◌+ℤ◌}
use interceptor.Video.Header.{FrameType, key, delta, VideoHeader}
use interceptor.Video.Frame.{EncodedFrame, no_references}
use interceptor.Video.Stash.{clear_before, stash, sort, insert}
use interceptor.Video.SeqNumFinder.{
  SeqNumFinder, new, manage_frame, manage_all, stash_key, stash_frame, handle_keyframe,
  handle_delta_frame, try_resolve_stashed_frames, try_resolve, take_next, clear_to,
}
use interceptor.Video.SeqNumFinder.Chain.{Linked, position, manage_all-Linked}
use interceptor.Video.SeqNumFinder.Stashed.{IsValid, manage_frame-IsValid, manage_frame-perm}

abbrev frame : FrameType → ℤ → ℤ → EncodedFrame
frame t first last = record {
  id = pos 0;
  first_seq_num = 0;
  last_seq_num = 0;
  first_seq_num_unwrapped = first;
  last_seq_num_unwrapped = last;
  timestamp = 0;
  frame_type = t;
  contents = [];
  width = 0;
  height = 0;
  num_references = 0;
  references = no_references;
}

abbrev inputs : List (Option EncodedFrame × Option VideoHeader)
inputs =
    (some (frame key (pos 10) (pos 11)), none)
    ∷ (some (frame delta (pos 14) (pos 15)), none)
    ∷ (none, none)
    ∷ (some (frame delta (pos 12) (pos 13)), none)
    ∷ []

overtaken : map (λ g. g.id) (manage_all new inputs) ≡ pos 10 ∷ pos 12 ∷ pos 14 ∷ []
unfolding manage_all manage_frame handle_keyframe handle_delta_frame try_resolve_stashed_frames
    try_resolve take_next stash_frame clear_to clear_before stash sort insert ◌+ℤ◌
overtaken = refl

manage_all-Linked_example : Linked (position new) (manage_all new inputs)
manage_all-Linked_example = manage_all-Linked inputs new

-- the frame 14 waits, and 12 is due
abbrev waiting : SeqNumFinder
waiting = record {
  last_seq_num_gop = pos 10;
  last_frame_first_seq_num = pos 10;
  last_frame_last_seq_num = pos 11;
  got_initial_frame = true;
  stashed_frames = record { frame = frame delta (pos 14) (pos 15); header = none } ∷ [];
}

waiting-IsValid : IsValid waiting
unfolding ◌+ℤ◌
waiting-IsValid = record {
  sorted = (tt, tt);
  bounded = omega arith;
  drained = λ _. (λ e. absurd (ground arith), tt);
}

manage_frame-IsValid_example :
    IsValid (manage_frame waiting (some (frame delta (pos 12) (pos 13))) none).1
manage_frame-IsValid_example =
    manage_frame-IsValid waiting (some (frame delta (pos 12) (pos 13))) none waiting-IsValid

manage_frame-perm_example :
    let (frames, f') = manage_frame waiting (some (frame delta (pos 12) (pos 13))) none in
    Perm
      (map (λ g. g.first_seq_num_unwrapped) frames ++ map stash_key f'.stashed_frames)
      (pos 12 ∷ pos 14 ∷ [])
manage_frame-perm_example =
    manage_frame-perm waiting (frame delta (pos 12) (pos 13)) none refl refl (unfold ◌+ℤ◌ in refl)
