-- ===== src/Video/FrameIdFinder.antt =====
-- pkg/videoframe/frame_id_only_ref_finder.go: references by picture id. Nothing waits: a delta frame
-- refers to the frame with the id before its own.
mod Laws
mod Tests
use interceptor.Common.{Bool, true, false, Option, none, some, List, [], ◌∷◌, ◌++◌, if◌then◌else◌}
use interceptor.Common.Int.{ℤ, pos, ◌-ℤ◌, ltb_ℤ, eqb_ℤ}
use interceptor.Video.Header.{FrameType, key, delta, VideoHeader, no_picture_id}
use interceptor.Video.Frame.{EncodedFrame, refer_to}
use interceptor.Video.Unwrap.{WrapUnwrapper, unwrap_picture_id}

pub record FrameIdFinder : Type 0 where
  pub unwrapper : WrapUnwrapper

abbrev pub new : FrameIdFinder
new = record { unwrapper = interceptor.Video.Unwrap.new }

-- the reference by the type of the frame
abbrev pub set_reference : FrameType → EncodedFrame → EncodedFrame
set_reference key frame = record frame { num_references = 0 }
set_reference delta frame = refer_to frame (frame.id -ℤ pos 1)

-- the frame with the unwrapped id, unless that is negative
abbrev pub with_id : ℤ → EncodedFrame → List EncodedFrame
with_id pid frame =
    if ltb_ℤ pid (pos 0)
    then []
    else set_reference frame.frame_type (record frame { id = pid }) ∷ []

-- `ManageFrame`, where `none` is a nil frame or header
unfoldable pub manage_frame :
    FrameIdFinder → Option EncodedFrame → Option VideoHeader → List EncodedFrame × FrameIdFinder
manage_frame f none header = ([], f)
manage_frame f (some frame) none = ([], f)
manage_frame f (some frame) (some header) =
    if eqb_ℤ header.picture_id no_picture_id
    then (frame ∷ [], f)
    else (let (pid, u) = unwrap_picture_id f.unwrapper header.picture_id in
        (with_id pid frame, record f { unwrapper = u }))

-- `ClearTo` does nothing: there is no stash.
unfoldable pub clear_to : FrameIdFinder → ℤ → FrameIdFinder
clear_to f picture_id = f

-- the frames that a run of calls hands on
unfoldable pub manage_all : FrameIdFinder → List (EncodedFrame × VideoHeader) → List EncodedFrame
manage_all f [] = []
manage_all f ((frame, header) ∷ inputs) =
    let (frames, f') = manage_frame f (some frame) (some header) in frames ++ manage_all f' inputs
