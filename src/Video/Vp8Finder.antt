-- ===== src/Video/Vp8Finder.antt =====
-- pkg/videoframe/vp8_ref_finder.go: references by temporal layers. A frame whose references are not
-- known yet waits in the stash. Go ranges over a map in any order: `order` is that order.
pub mod Known
pub mod Resolved
pub mod Settled
pub mod Stashed
mod Tests
use interceptor.Common.{
  ℕ, zero, suc, ◌+◌, Bool, true, false, ◌&&◌, ◌||◌, Option, none, some, List, [], ◌∷◌, ◌++◌,
  if◌then◌else◌, length, leb,
}
use interceptor.Common.Int.{ℤ, pos, negsuc, ◌+ℤ◌, ◌-ℤ◌, ltb_ℤ, leb_ℤ, eqb_ℤ}
use interceptor.Video.Header.{
  FrameType, key, delta, VideoHeader, no_temporal_idx, no_tl0_pic_idx, no_picture_id,
}
use interceptor.Video.Frame.{EncodedFrame, References, refer_to, with_references}
use interceptor.Video.Stash
use interceptor.Video.Unwrap.{WrapUnwrapper, unwrap_picture_id, unwrap_tl0_pic_idx}
use interceptor.Video.LayerInfo.{
  LayerInfo, get_references, init_layer_info, update_layer_info, clear_old_layers,
}

-- `stashedVP8Frame`
pub record StashedFrame : Type 0 where
  pub frame : EncodedFrame
  pub header : VideoHeader
  pub unwrapped_pid : ℤ
  pub unwrapped_tl0 : ℤ

pub record Vp8Finder : Type 0 where
  pub picture_id_unwrapper : WrapUnwrapper
  pub tl0_unwrapper : WrapUnwrapper
  pub layer_info : LayerInfo
  pub last_picture_id : ℤ
  pub got_initial_frame : Bool
  pub stashed_frames : List StashedFrame

abbrev pub new : Vp8Finder
new = record {
  picture_id_unwrapper = interceptor.Video.Unwrap.new;
  tl0_unwrapper = interceptor.Video.Unwrap.new;
  layer_info = [];
  last_picture_id = negsuc 0;
  got_initial_frame = false;
  stashed_frames = [];
}

-- the test for incomplete temporal layer information
abbrev pub is_incomplete : VideoHeader → Bool
is_incomplete h =
    eqb_ℤ h.temporal_idx no_temporal_idx
    || eqb_ℤ h.tl0_pic_idx no_tl0_pic_idx
    || eqb_ℤ h.picture_id no_picture_id

-- `tid`, which is 3 at most
abbrev pub layer_of : VideoHeader → ℤ
layer_of h = if leb_ℤ (pos 4) h.temporal_idx then pos 3 else h.temporal_idx

abbrev pub prev_tl0 : ℤ → ℤ → ℤ
prev_tl0 tid tl0 = if eqb_ℤ tid (pos 0) then tl0 -ℤ pos 1 else tl0

-- `stashFrame`
unfoldable pub stash_frame : Vp8Finder → EncodedFrame → VideoHeader → ℤ → ℤ → Vp8Finder
stash_frame f frame header pid tl0 = record f {
  stashed_frames =
      Stash.stash (λ s. s.unwrapped_pid) f.stashed_frames
        (record { frame = frame; header = header; unwrapped_pid = pid; unwrapped_tl0 = tl0 });
}

-- what a processed frame changes
abbrev pub processed : Vp8Finder → ℤ → ℤ → ℤ → Vp8Finder
processed f tl0 tid pid = record f {
  layer_info = update_layer_info f.layer_info tl0 tid pid;
  last_picture_id = pid;
}

-- the stash part of `clearOldState`
unfoldable pub clear_old_stash : ℤ → List StashedFrame → List StashedFrame
clear_old_stash last [] = []
clear_old_stash last (s ∷ ss) =
    let rest = clear_old_stash last ss in
    if ltb_ℤ (last -ℤ s.unwrapped_pid) (pos 100) then s ∷ rest else rest

unfoldable pub clear_old_state : Vp8Finder → ℤ → Vp8Finder
clear_old_state f current_tl0 = record f {
  layer_info = clear_old_layers f.layer_info current_tl0;
  stashed_frames = clear_old_stash f.last_picture_id f.stashed_frames;
}

-- `fallbackManageFrame`
unfoldable pub set_basic_references : EncodedFrame → EncodedFrame
set_basic_references frame = elim frame.frame_type [
  | key ↦ record frame { num_references = 0 }
  | delta ↦ refer_to frame (frame.id -ℤ pos 1)
]

unfoldable pub fallback_manage_frame :
    Vp8Finder → EncodedFrame → VideoHeader → List EncodedFrame × Vp8Finder
fallback_manage_frame f frame header =
    if eqb_ℤ header.picture_id no_picture_id
    then (set_basic_references frame ∷ [], f)
    else (let (pid, u) = unwrap_picture_id f.picture_id_unwrapper header.picture_id in
        (
          set_basic_references (record frame { id = pid }) ∷ [],
          record f { picture_id_unwrapper = u },
        ))

module _ (order : LayerInfo → LayerInfo) where
  -- the references of a frame in the state of the finder
  abbrev pub refs_of : LayerInfo → ℤ → ℤ → List ℤ
  refs_of info tl0 tid = get_references info (order info) tl0 (prev_tl0 tid tl0) tid

  -- `tryProcessStashedFrame`
  unfoldable pub try_process : Vp8Finder → StashedFrame → Option (EncodedFrame × Vp8Finder)
  try_process f s =
      let tid = layer_of s.header in
      if is_incomplete s.header then none else elim (refs_of f.layer_info s.unwrapped_tl0 tid) [
        | [] ↦ none
        | r ∷ refs ↦ some (
          with_references (record (s.frame) { id = s.unwrapped_pid }) (r ∷ refs),
          processed f s.unwrapped_tl0 tid s.unwrapped_pid,
        )
      ]

  -- the inner loop of `tryResolveStashedFrames`: the first frame that can be processed, the state
  -- after it, and the others
  unfoldable pub first_resolvable :
      Vp8Finder → List StashedFrame → Option (EncodedFrame × Vp8Finder × List StashedFrame)
  first_resolvable f [] = none
  first_resolvable f (s ∷ ss) = elim (try_process f s) [
    | some (g, f') ↦ some (g, f', ss)
    | none ↦ elim (first_resolvable f ss) [
      | none ↦ none
      | some (g, f', rest) ↦ some (g, f', s ∷ rest)
    ]
  ]

  unfoldable pub try_resolve : ℕ → Vp8Finder → List EncodedFrame × Vp8Finder
  try_resolve zero f = ([], f)
  try_resolve (suc k) f = elim (first_resolvable f f.stashed_frames) [
    | none ↦ ([], f)
    | some (g, f', rest) ↦
        let (gs, f'') = try_resolve k (record f' { stashed_frames = rest }) in (g ∷ gs, f'')
  ]

  -- Each round takes a frame from the stash, so there are as many rounds as frames at most.
  unfoldable pub try_resolve_stashed_frames : Vp8Finder → List EncodedFrame × Vp8Finder
  try_resolve_stashed_frames f = try_resolve (length f.stashed_frames) f

  unfoldable pub handle_keyframe : Vp8Finder → EncodedFrame → ℤ → ℤ → List EncodedFrame × Vp8Finder
  handle_keyframe f frame pid tl0 =
      let f' = record f {
        layer_info = init_layer_info f.layer_info tl0 pid;
        last_picture_id = pid;
        got_initial_frame = true;
      } in
      let (resolved, f'') = try_resolve_stashed_frames (clear_old_state f' tl0) in
      (record frame { num_references = 0 } ∷ resolved, f'')

  -- `handleDeltaFrame` on whether a key frame has come and on the references
  abbrev pub delta_branch :
      Vp8Finder → EncodedFrame → VideoHeader → ℤ → ℤ → Bool → List ℤ → List EncodedFrame × Vp8Finder
  delta_branch f frame header pid tl0 false refs = ([], stash_frame f frame header pid tl0)
  delta_branch f frame header pid tl0 true [] = ([], stash_frame f frame header pid tl0)
  delta_branch f frame header pid tl0 true (r ∷ refs) =
      let (resolved, f') = try_resolve_stashed_frames (processed f tl0 (layer_of header) pid) in
      (with_references frame (r ∷ refs) ∷ resolved, f')

  unfoldable pub handle_delta_frame :
      Vp8Finder → EncodedFrame → VideoHeader → ℤ → ℤ → List EncodedFrame × Vp8Finder
  handle_delta_frame f frame header pid tl0 =
      delta_branch f frame header pid tl0 f.got_initial_frame
        (refs_of f.layer_info tl0 (layer_of header))

  -- the choice of `ManageFrame` on whether a number is negative, on the type, and on tid 0
  abbrev pub dispatch :
      Vp8Finder
      → EncodedFrame
      → VideoHeader
      → ℤ
      → ℤ
      → Bool
      → FrameType
      → Bool
      → List EncodedFrame × Vp8Finder
  dispatch f frame header pid tl0 true t base = ([], f)
  dispatch f frame header pid tl0 false key true = handle_keyframe f frame pid tl0
  dispatch f frame header pid tl0 false key false = handle_delta_frame f frame header pid tl0
  dispatch f frame header pid tl0 false delta base = handle_delta_frame f frame header pid tl0

  -- `ManageFrame` from the unwrapped numbers on
  unfoldable pub manage_unwrapped :
      Vp8Finder → EncodedFrame → VideoHeader → ℤ → ℤ → List EncodedFrame × Vp8Finder
  manage_unwrapped f frame header pid tl0 =
      dispatch f (record frame { id = pid }) header pid tl0 (ltb_ℤ pid (pos 0) || ltb_ℤ tl0 (pos 0))
        frame.frame_type (eqb_ℤ (layer_of header) (pos 0))

  -- `ManageFrame`, where `none` is a nil frame or header
  unfoldable pub manage_frame :
      Vp8Finder → Option EncodedFrame → Option VideoHeader → List EncodedFrame × Vp8Finder
  manage_frame f none header = ([], f)
  manage_frame f (some frame) none = ([], f)
  manage_frame f (some frame) (some header) =
      let (pid, u) = unwrap_picture_id f.picture_id_unwrapper header.picture_id in
      let (tl0, v) = unwrap_tl0_pic_idx f.tl0_unwrapper header.tl0_pic_idx in
      if is_incomplete header
      then fallback_manage_frame f frame header
      else manage_unwrapped (record f { picture_id_unwrapper = u; tl0_unwrapper = v }) frame header
          pid tl0

  -- the frames that a run of calls hands on
  unfoldable pub manage_all : Vp8Finder → List (EncodedFrame × VideoHeader) → List EncodedFrame
  manage_all f [] = []
  manage_all f ((frame, header) ∷ inputs) =
      let (frames, f') = manage_frame f (some frame) (some header) in frames ++ manage_all f' inputs

-- `ClearTo`
unfoldable pub clear_to : Vp8Finder → ℤ → Vp8Finder
clear_to f picture_id = record f {
  stashed_frames = Stash.clear_before (λ s. s.unwrapped_pid) picture_id f.stashed_frames;
}
