-- ===== src/Video/SeqNumFinder.antt =====
-- pkg/videoframe/seq_num_only_ref_finder.go: references by sequence number. A delta frame refers to
-- the frame whose last packet comes just before its first one; a frame that comes too early waits in
-- the stash.
pub mod Chain
pub mod Stashed
mod Tests
use interceptor.Common.{
  ℕ, zero, suc, ◌+◌, Bool, true, false, Option, none, some, List, [], ◌∷◌, ◌++◌, if◌then◌else◌,
  length,
}
use interceptor.Common.Int.{ℤ, pos, negsuc, ◌+ℤ◌, ltb_ℤ, eqb_ℤ}
use interceptor.Video.Header.{FrameType, key, delta, VideoHeader}
use interceptor.Video.Frame.{EncodedFrame, refer_to}
use interceptor.Video.Stash

-- `stashedSeqNumFrame`
pub record StashedFrame : Type 0 where
  pub frame : EncodedFrame
  pub header : Option VideoHeader

pub record SeqNumFinder : Type 0 where
  pub last_seq_num_gop : ℤ
  pub last_frame_first_seq_num : ℤ
  pub last_frame_last_seq_num : ℤ
  pub got_initial_frame : Bool
  pub stashed_frames : List StashedFrame

abbrev pub new : SeqNumFinder
new = record {
  last_seq_num_gop = negsuc 0;
  last_frame_first_seq_num = negsuc 0;
  last_frame_last_seq_num = negsuc 0;
  got_initial_frame = false;
  stashed_frames = [];
}

abbrev pub stash_key : StashedFrame → ℤ
stash_key s = s.frame.first_seq_num_unwrapped

-- the number that the next frame must begin with
abbrev pub expected : SeqNumFinder → ℤ
expected f = f.last_frame_last_seq_num +ℤ pos 1

-- `stashFrame`
unfoldable pub stash_frame : SeqNumFinder → EncodedFrame → Option VideoHeader → SeqNumFinder
stash_frame f frame header = record f {
  stashed_frames =
      Stash.stash stash_key f.stashed_frames (record { frame = frame; header = header });
}

-- the frame with its id and its reference to the last one, and the finder that has it for the last
abbrev pub resolve : SeqNumFinder → EncodedFrame → EncodedFrame
resolve f frame =
    refer_to (record frame { id = frame.first_seq_num_unwrapped }) f.last_frame_first_seq_num

abbrev pub follow : SeqNumFinder → EncodedFrame → SeqNumFinder
follow f frame = record f {
  last_frame_first_seq_num = frame.first_seq_num_unwrapped;
  last_frame_last_seq_num = frame.last_seq_num_unwrapped;
}

-- the inner loop of `tryResolveStashedFrames`: the first stashed frame that begins with `seq`, and
-- the others
unfoldable pub take_next : ℤ → List StashedFrame → Option (StashedFrame × List StashedFrame)
take_next seq [] = none
take_next seq (s ∷ ss) =
    if eqb_ℤ s.frame.first_seq_num_unwrapped seq
    then some (s, ss)
    else elim (take_next seq ss) [ none ↦ none | some (t, rest) ↦ some (t, s ∷ rest) ]

-- `tryResolveStashedFrames` of `k` rounds at most
unfoldable pub try_resolve : ℕ → SeqNumFinder → List EncodedFrame × SeqNumFinder
try_resolve zero f = ([], f)
try_resolve (suc k) f = elim (take_next (expected f) f.stashed_frames) [
  | none ↦ ([], f)
  | some (s, rest) ↦
      let (frames, f') = try_resolve k (record (follow f s.frame) { stashed_frames = rest }) in
      (resolve f s.frame ∷ frames, f')
]

-- Every round takes a frame from the stash, so it has as many rounds as frames at most.
unfoldable pub try_resolve_stashed_frames : SeqNumFinder → List EncodedFrame × SeqNumFinder
unfolding try_resolve
try_resolve_stashed_frames f = try_resolve (length f.stashed_frames) f

-- `clearStashedFramesBefore`, which is `ClearTo`
unfoldable pub clear_to : SeqNumFinder → ℤ → SeqNumFinder
clear_to f seq_num = record f {
  stashed_frames = Stash.clear_before stash_key seq_num f.stashed_frames;
}

unfoldable pub handle_keyframe : SeqNumFinder → EncodedFrame → List EncodedFrame × SeqNumFinder
handle_keyframe f frame =
    let first = frame.first_seq_num_unwrapped in
    let frame' = record frame { id = first; num_references = 0 } in
    let f' = record (follow f frame) { last_seq_num_gop = first; got_initial_frame = true } in
    let (resolved, f'') = try_resolve_stashed_frames (clear_to f' first) in (frame' ∷ resolved, f'')

-- `handleDeltaFrame` on its three tests: a key frame has come, the frame comes right after the last
-- one, it lies before the last key frame
abbrev pub delta_branch :
    SeqNumFinder
    → EncodedFrame
    → Option VideoHeader
    → Bool
    → Bool
    → Bool
    → List EncodedFrame × SeqNumFinder
delta_branch f frame header got next old =
    if got
    then (if next
        then (let (resolved, f') = try_resolve_stashed_frames (follow f frame) in
            (resolve f frame ∷ resolved, f'))
        else if old
        then ([], f)
        else ([], stash_frame f frame header))
    else ([], stash_frame f frame header)

unfoldable pub handle_delta_frame :
    SeqNumFinder → EncodedFrame → Option VideoHeader → List EncodedFrame × SeqNumFinder
handle_delta_frame f frame header =
    delta_branch f frame header f.got_initial_frame
      (eqb_ℤ frame.first_seq_num_unwrapped (expected f))
      (ltb_ℤ frame.first_seq_num_unwrapped f.last_seq_num_gop)

-- `ManageFrame`, where `none` is a nil frame
unfoldable pub manage_frame :
    SeqNumFinder → Option EncodedFrame → Option VideoHeader → List EncodedFrame × SeqNumFinder
manage_frame f none header = ([], f)
manage_frame f (some frame) header = elim frame.frame_type [
  | key ↦ handle_keyframe f frame
  | delta ↦ handle_delta_frame f frame header
]

-- the frames that a run of calls hands on
unfoldable pub manage_all :
    SeqNumFinder → List (Option EncodedFrame × Option VideoHeader) → List EncodedFrame
manage_all f [] = []
manage_all f ((frame, header) ∷ inputs) =
    let (frames, f') = manage_frame f frame header in frames ++ manage_all f' inputs
