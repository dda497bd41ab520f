-- ===== src/Video/Vp8Finder/Stashed.antt =====
-- What waits in the stash between two calls.
use interceptor.Common.{
  ◌≤◌, ◌≡◌, refl, inl, inr, Bool, true, false, Option, none, some, List, [], ◌∷◌, arith, Bool-cases,
  length, All,
}
use interceptor.Common.Int.{ℤ, pos, ◌-ℤ◌, ◌≤ℤ◌, ltb_ℤ, eqb_ℤ}
use interceptor.Video.Header.{FrameType, key, delta, VideoHeader}
use interceptor.Video.Frame.{EncodedFrame}
use interceptor.Video.Stash.Laws.{
  IsSorted, stash-IsSorted, length-stash, All-stash, length-clear_before, clear_before-IsSorted,
  All-clear_before,
}
use interceptor.Video.Unwrap.{unwrap_picture_id, unwrap_tl0_pic_idx}
use interceptor.Video.LayerInfo.{LayerInfo}
use interceptor.Video.Vp8Finder.{
  Vp8Finder, StashedFrame, is_incomplete, layer_of, refs_of, stash_frame, clear_old_stash,
  clear_old_state, clear_to, handle_keyframe, handle_delta_frame, delta_branch, dispatch,
  manage_unwrapped, manage_frame, fallback_manage_frame,
}
use interceptor.Video.Vp8Finder.Settled.{
  stash_key, Blocked, IsSettled, try_resolve_stashed-IsSettled,
}

module _ (order : LayerInfo → LayerInfo) where
  length-clear_old :
      (last : ℤ) (ss : List StashedFrame) → length (clear_old_stash last ss) ≤ length ss
  unfolding clear_old_stash
  length-clear_old last [] = omega arith
  length-clear_old last (s ∷ ss) = ground (arith, length-clear_old last ss)

  All-clear_old :
      (P : StashedFrame → Type 0) (last : ℤ) (ss : List StashedFrame)
      → All P ss
      → All P (clear_old_stash last ss)
  unfolding clear_old_stash
  All-clear_old P last [] a = tt
  All-clear_old P last (s ∷ ss) a = elim (Bool-cases (ltb_ℤ (last -ℤ s.unwrapped_pid) (pos 100))) [
    | inl e ↦ rw (e, All) (a.0, All-clear_old P last ss a.1)
    | inr e ↦ rw (e, All) (All-clear_old P last ss a.1)
  ]

  clear_old-IsSorted :
      (last : ℤ) (ss : List StashedFrame)
      → IsSorted stash_key ss
      → IsSorted stash_key (clear_old_stash last ss)
  unfolding clear_old_stash
  clear_old-IsSorted last [] o = tt
  clear_old-IsSorted last (s ∷ ss) o =
      elim (Bool-cases (ltb_ℤ (last -ℤ s.unwrapped_pid) (pos 100))) [
        | inl e ↦
            rw (e, IsSorted)
              (
                All-clear_old (λ t. stash_key s ≤ℤ stash_key t) last ss o.0,
                clear_old-IsSorted last ss o.1,
              )
        | inr e ↦ rw (e, IsSorted) (clear_old-IsSorted last ss o.1)
      ]

  handle_keyframe-IsSettled :
      (f : Vp8Finder) (frame : EncodedFrame) (pid tl0 : ℤ)
      → IsSettled order f
      → IsSettled order (handle_keyframe order f frame pid tl0).1
  unfolding handle_keyframe clear_old_state
  handle_keyframe-IsSettled f frame pid tl0 v =
      try_resolve_stashed-IsSettled order _ (clear_old-IsSorted pid f.stashed_frames v.sorted)
        (omega (arith, v.bounded, length-clear_old pid f.stashed_frames))

  handle_delta_frame-IsSettled :
      (f : Vp8Finder) (frame : EncodedFrame) (header : VideoHeader) (pid tl0 : ℤ)
      → IsSettled order f
      → IsSettled order (handle_delta_frame order f frame header pid tl0).1
  unfolding handle_delta_frame stash_frame
  handle_delta_frame-IsSettled f frame header pid tl0 v =
      by_refs f.got_initial_frame refl (refs_of order f.layer_info tl0 (layer_of header)) refl
    where
      s : StashedFrame
      s = record { frame = frame; header = header; unwrapped_pid = pid; unwrapped_tl0 = tl0 }

      stashed :
          (f.got_initial_frame ≡ true → Blocked order f.layer_info s)
          → IsSettled order (stash_frame f frame header pid tl0)
      stashed n = record {
        sorted = stash-IsSorted stash_key f.stashed_frames s;
        bounded = length-stash stash_key f.stashed_frames s v.bounded;
        drained = λ g.
            All-stash stash_key (Blocked order f.layer_info) f.stashed_frames s (v.drained g) (n g);
      }

      by_refs :
          (b : Bool)
          → f.got_initial_frame ≡ b
          → (refs : List ℤ) → refs_of order f.layer_info tl0 (layer_of header) ≡ refs
          → IsSettled order (delta_branch order f frame header pid tl0 b refs).1
      by_refs false g refs e = stashed (λ t. absurd (ground arith))
      by_refs true g [] e = stashed (λ _. inr e)
      by_refs true g (r ∷ refs) e = try_resolve_stashed-IsSettled order _ v.sorted v.bounded

  -- The state with other unwrappers.
  rewrapped :
      (f : Vp8Finder) (u v : interceptor.Video.Unwrap.WrapUnwrapper)
      → IsSettled order f
      → IsSettled order (record f { picture_id_unwrapper = u; tl0_unwrapper = v })
  rewrapped f u v valid = record {
    sorted = valid.sorted;
    bounded = valid.bounded;
    drained = valid.drained;
  }

  manage_unwrapped-IsSettled :
      (f : Vp8Finder) (frame : EncodedFrame) (header : VideoHeader) (pid tl0 : ℤ)
      → IsSettled order f
      → IsSettled order (manage_unwrapped order f frame header pid tl0).1
  unfolding manage_unwrapped
  manage_unwrapped-IsSettled f frame header pid tl0 v = by_case _ frame.frame_type _
    where
      by_case :
          (b : Bool) (t : FrameType) (base : Bool)
          → IsSettled order (dispatch order f (record frame { id = pid }) header pid tl0 b t base).1
      by_case true t base = v
      by_case false key true = handle_keyframe-IsSettled f (record frame { id = pid }) pid tl0 v
      by_case false key false = handle_delta_frame-IsSettled f _ header pid tl0 v
      by_case false delta base = handle_delta_frame-IsSettled f _ header pid tl0 v

  fallback-IsSettled :
      (f : Vp8Finder) (frame : EncodedFrame) (header : VideoHeader)
      → IsSettled order f
      → IsSettled order (fallback_manage_frame f frame header).1
  unfolding fallback_manage_frame
  fallback-IsSettled f frame header v =
      elim (Bool-cases (eqb_ℤ header.picture_id interceptor.Video.Header.no_picture_id)) [
        | inl e ↦ rw e v
        | inr e ↦ rw e (rewrapped f _ f.tl0_unwrapper v)
      ]

  -- Whatever frame comes, with complete layer information or not, the stash stays sorted by picture
  -- id and at most 100 frames long, and once a key frame has come, no frame is left in it for which
  -- `getReferences` finds a reference: the loop of `tryResolveStashedFrames` has had enough rounds.
  pub manage_frame-IsSettled :
      (f : Vp8Finder) (frame : Option EncodedFrame) (header : Option VideoHeader)
      → IsSettled order f
      → IsSettled order (manage_frame order f frame header).1
  unfolding manage_frame
  manage_frame-IsSettled f none header v = v
  manage_frame-IsSettled f (some frame) none v = v
  manage_frame-IsSettled f (some frame) (some header) v = elim (Bool-cases (is_incomplete header)) [
    | inl e ↦ rw e (fallback-IsSettled f frame header v)
    | inr e ↦ rw e (manage_unwrapped-IsSettled _ frame header _ _ (rewrapped f _ _ v))
  ]

  -- `ClearTo` keeps a finder valid.
  clear_to-IsSettled : (f : Vp8Finder) (i : ℤ) → IsSettled order f → IsSettled order (clear_to f i)
  unfolding clear_to
  clear_to-IsSettled f i v = record {
    sorted = clear_before-IsSorted stash_key i f.stashed_frames v.sorted;
    bounded = omega (arith, v.bounded, length-clear_before stash_key i f.stashed_frames);
    drained = λ g.
        All-clear_before stash_key (Blocked order f.layer_info) i f.stashed_frames (v.drained g);
  }
