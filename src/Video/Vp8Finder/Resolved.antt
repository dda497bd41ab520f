-- ===== src/Video/Vp8Finder/Resolved.antt =====
-- Every frame that the finder hands on refers to a frame that it handed on before.
use mathlib.Core.List.{Mem, mem-cons_self}
use interceptor.Common.{
  ℕ, zero, suc, ◌≡◌, refl, ◌⊎◌, inl, inr, Bool, true, false, Option, none, some, List, [], ◌∷◌,
  ◌++◌, arith, if◌then◌else◌, Option-cases, All,
}
use interceptor.Common.Int.{ℤ}
use interceptor.Video.Header.{FrameType, key, delta, VideoHeader}
use interceptor.Video.Frame.{EncodedFrame, with_references}
use interceptor.Video.Unwrap.{unwrap_picture_id, unwrap_tl0_pic_idx}
use interceptor.Video.LayerInfo.{LayerInfo}
use interceptor.Video.Vp8Finder.{
  Vp8Finder, StashedFrame, is_incomplete, layer_of, prev_tl0, refs_of, processed, stash_frame,
  clear_old_state, try_process, first_resolvable, try_resolve, try_resolve_stashed_frames,
  handle_keyframe, handle_delta_frame, delta_branch, new, dispatch, manage_unwrapped, manage_frame,
  manage_all,
}
use interceptor.Video.Vp8Finder.Known.{
  Known, KnownRefs, Known-more, get_references-KnownRefs, init_layer_info-Known,
  update_layer_info-Known, clear_old_layers-Known,
}

-- A key frame without references, or one reference, to a frame handed on.
abbrev pub RefersTo : List ℤ → EncodedFrame → Type 0
RefersTo seen g =
    ((g.frame_type ≡ key) × (g.num_references ≡ 0))
    ⊎ ((g.num_references ≡ 1) × Mem g.references.r0 seen)

abbrev pub Resolved : List ℤ → List EncodedFrame → Type 0
Resolved seen [] = Unit
Resolved seen (g ∷ gs) = RefersTo seen g × Resolved (g.id ∷ seen) gs

abbrev seen_after : List ℤ → List EncodedFrame → List ℤ
seen_after seen [] = seen
seen_after seen (g ∷ gs) = seen_after (g.id ∷ seen) gs

Resolved-append :
    (seen : List ℤ) (xs ys : List EncodedFrame)
    → Resolved seen xs
    → Resolved (seen_after seen xs) ys
    → Resolved seen (xs ++ ys)
Resolved-append seen [] ys p q = q
Resolved-append seen (x ∷ xs) ys p q = (p.0, Resolved-append (x.id ∷ seen) xs ys p.1 q)

-- The frames of a call are resolved, and the layer table stays known.
abbrev Step : List ℤ → List EncodedFrame × Vp8Finder → Type 0
Step seen r = Resolved seen r.0 × Known (seen_after seen r.0) r.1.layer_info

with_references-RefersTo :
    (seen : List ℤ) (frame : EncodedFrame) (r : ℤ) (refs : List ℤ)
    → KnownRefs seen (r ∷ refs)
    → RefersTo seen (with_references frame (r ∷ refs))
with_references-RefersTo seen frame r [] k = inr (refl, k)
with_references-RefersTo seen frame r (_ ∷ _) k = elim k [ ]

-- The order in which Go ranges over a map visits the entries of the map only.
module _ (order : LayerInfo → LayerInfo)
    (ranges : (P : ℤ × List ℤ → Type 0) (m : LayerInfo) → All P m → All P (order m)) where
  refs_of-KnownRefs :
      (seen : List ℤ) (m : LayerInfo) (tl0 tid : ℤ)
      → Known seen m
      → KnownRefs seen (refs_of order m tl0 tid)
  refs_of-KnownRefs seen m tl0 tid k =
      get_references-KnownRefs seen m (order m) tl0 (prev_tl0 tid tl0) tid k (ranges _ m k)

  processed-Known :
      (seen : List ℤ) (f : Vp8Finder) (tl0 tid pid : ℤ)
      → Known seen f.layer_info
      → Known (pid ∷ seen) (processed f tl0 tid pid).layer_info
  processed-Known seen f tl0 tid pid k =
      update_layer_info-Known (pid ∷ seen) f.layer_info tl0 tid pid mem-cons_self
        (Known-more seen pid f.layer_info k)

  -- A frame that leaves the stash, and the table after it.
  Leaves : List ℤ → EncodedFrame → Vp8Finder → Type 0
  Leaves seen g f' = RefersTo seen g × Known (g.id ∷ seen) f'.layer_info

  try_process-Leaves :
      (seen : List ℤ) (f : Vp8Finder) (s : StashedFrame) (g : EncodedFrame) (f' : Vp8Finder)
      → Known seen f.layer_info
      → try_process order f s ≡ some (g, f')
      → Leaves seen g f'
  unfolding try_process Leaves
  try_process-Leaves seen f s g f' k e =
      by_refs (is_incomplete s.header)
        (refs_of order f.layer_info s.unwrapped_tl0 (layer_of s.header))
        (refs_of-KnownRefs seen f.layer_info s.unwrapped_tl0 (layer_of s.header) k) e
    where
      outcome : Bool → List ℤ → Option (EncodedFrame × Vp8Finder)
      outcome b refs = if b then none else elim refs [
        | [] ↦ none
        | r ∷ rs ↦ some (
          with_references (record (s.frame) { id = s.unwrapped_pid }) (r ∷ rs),
          processed f s.unwrapped_tl0 (layer_of s.header) s.unwrapped_pid,
        )
      ]

      by_refs :
          (b : Bool) (refs : List ℤ)
          → KnownRefs seen refs
          → outcome b refs ≡ some (g, f')
          → RefersTo seen g × Known (g.id ∷ seen) f'.layer_info
      by_refs true refs h e = absurd (ground arith)
      by_refs false [] h e = absurd (ground arith)
      by_refs false (r ∷ rs) h e =
          let sent = with_references (record (s.frame) { id = s.unwrapped_pid }) (r ∷ rs) in
          let after = processed f s.unwrapped_tl0 (layer_of s.header) s.unwrapped_pid in
          let p : g ≡ sent = ground arith in
          let q : f' ≡ after = ground arith in
          rw (p, q)
            (
              with_references-RefersTo seen (record (s.frame) { id = s.unwrapped_pid }) r rs h,
              processed-Known seen f s.unwrapped_tl0 (layer_of s.header) s.unwrapped_pid k,
            )

  first_resolvable-Leaves :
      (seen : List ℤ) (f : Vp8Finder) (ss : List StashedFrame) (g : EncodedFrame) (f' : Vp8Finder)
      (rest : List StashedFrame)
      → Known seen f.layer_info
      → first_resolvable order f ss ≡ some (g, f', rest)
      → Leaves seen g f'
  unfolding first_resolvable
  first_resolvable-Leaves seen f [] g f' rest k e = absurd (ground arith)
  first_resolvable-Leaves seen f (s ∷ ss) g f' rest k e =
      elim (Option-cases (try_process order f s)) [
        | inr ((h, f1), d) ↦
            let p : g ≡ h = ground arith in
            let q : f' ≡ f1 = ground arith in rw (p, q) (try_process-Leaves seen f s h f1 k d)
        | inl d ↦ elim (Option-cases (first_resolvable order f ss)) [
          | inl c ↦ absurd (ground arith)
          | inr ((h, f1, others), c) ↦
              let p : g ≡ h = ground arith in
              let q : f' ≡ f1 = ground arith in
              rw (p, q) (first_resolvable-Leaves seen f ss h f1 others k c)
        ]
      ]

  try_resolve-Step :
      (n : ℕ) (seen : List ℤ) (f : Vp8Finder)
      → Known seen f.layer_info
      → Step seen (try_resolve order n f)
  unfolding try_resolve Leaves
  try_resolve-Step zero seen f k = (tt, k)
  try_resolve-Step (suc n) seen f k =
      elim (Option-cases (first_resolvable order f f.stashed_frames)) [
        | inl e ↦ rw (e, try_resolve) (tt, k)
        | inr ((g, f', rest), e) ↦
            let (refers, known) = first_resolvable-Leaves seen f f.stashed_frames g f' rest k e in
            let ih = try_resolve-Step n (g.id ∷ seen) (record f' { stashed_frames = rest }) known in
            rw (e, try_resolve) ((refers, ih.0), ih.1)
      ]

  handle_keyframe-Step :
      (seen : List ℤ) (f : Vp8Finder) (frame : EncodedFrame) (tl0 : ℤ)
      → frame.frame_type ≡ key
      → Known seen f.layer_info
      → Step seen (handle_keyframe order f frame frame.id tl0)
  unfolding handle_keyframe try_resolve_stashed_frames clear_old_state
  handle_keyframe-Step seen f frame tl0 e k =
      let ih = try_resolve-Step _ (frame.id ∷ seen) _ (
        clear_old_layers-Known (frame.id ∷ seen) _ tl0 (
          init_layer_info-Known (frame.id ∷ seen) f.layer_info tl0 frame.id mem-cons_self
            (Known-more seen frame.id f.layer_info k))) in
      ((inl (e, refl), ih.0), ih.1)

  handle_delta_frame-Step :
      (seen : List ℤ) (f : Vp8Finder) (frame : EncodedFrame) (header : VideoHeader) (tl0 : ℤ)
      → Known seen f.layer_info
      → Step seen (handle_delta_frame order f frame header frame.id tl0)
  unfolding handle_delta_frame stash_frame try_resolve_stashed_frames
  handle_delta_frame-Step seen f frame header tl0 k =
      by_refs f.got_initial_frame (refs_of order f.layer_info tl0 (layer_of header))
        (refs_of-KnownRefs seen f.layer_info tl0 (layer_of header) k)
    where
      by_refs :
          (b : Bool) (refs : List ℤ)
          → KnownRefs seen refs
          → Step seen (delta_branch order f frame header frame.id tl0 b refs)
      by_refs false refs h = (tt, k)
      by_refs true [] h = (tt, k)
      by_refs true (r ∷ refs) h =
          let ih =
            try_resolve-Step _ (frame.id ∷ seen) (processed f tl0 (layer_of header) frame.id)
              (processed-Known seen f tl0 (layer_of header) frame.id k) in
          ((with_references-RefersTo seen frame r refs h, ih.0), ih.1)

  manage_unwrapped-Step :
      (seen : List ℤ) (f : Vp8Finder) (frame : EncodedFrame) (header : VideoHeader) (pid tl0 : ℤ)
      → Known seen f.layer_info
      → Step seen (manage_unwrapped order f frame header pid tl0)
  unfolding manage_unwrapped
  manage_unwrapped-Step seen f frame header pid tl0 k = by_case _ frame.frame_type refl _
    where
      by_case :
          (b : Bool) (t : FrameType)
          → frame.frame_type ≡ t
          → (base : Bool)
          → Step seen (dispatch order f (record frame { id = pid }) header pid tl0 b t base)
      by_case true t e base = (tt, k)
      by_case false key e true = handle_keyframe-Step seen f (record frame { id = pid }) tl0 e k
      by_case false key e false =
          handle_delta_frame-Step seen f (record frame { id = pid }) header tl0 k
      by_case false delta e base =
          handle_delta_frame-Step seen f (record frame { id = pid }) header tl0 k

  manage_frame-Step :
      (seen : List ℤ) (f : Vp8Finder) (frame : EncodedFrame) (header : VideoHeader)
      → is_incomplete header ≡ false
      → Known seen f.layer_info
      → Step seen (manage_frame order f (some frame) (some header))
  unfolding manage_frame
  manage_frame-Step seen f frame header c k =
      let (pid, u) = unwrap_picture_id f.picture_id_unwrapper header.picture_id in
      let (tl0, v) = unwrap_tl0_pic_idx f.tl0_unwrapper header.tl0_pic_idx in
      rw (c, Step)
        (manage_unwrapped-Step seen (record f { picture_id_unwrapper = u; tl0_unwrapper = v }) frame
          header pid tl0 k)

  manage_all-Resolved_from :
      (inputs : List (EncodedFrame × VideoHeader)) (seen : List ℤ) (f : Vp8Finder)
      → All (λ i. is_incomplete i.1 ≡ false) inputs
      → Known seen f.layer_info
      → Resolved seen (manage_all order f inputs)
  unfolding manage_all
  manage_all-Resolved_from [] seen f c k = tt
  manage_all-Resolved_from ((frame, header) ∷ inputs) seen f c k =
      let (resolved, known) = manage_frame-Step seen f frame header c.0 k in
      let (frames, f') = manage_frame order f (some frame) (some header) in
      Resolved-append seen frames (manage_all order f' inputs) resolved
        (manage_all-Resolved_from inputs (seen_after seen frames) f' c.1 known)

  -- Over any run of calls on frames with complete temporal layer information, each frame that a new
  -- finder hands on is a key frame without references, or has exactly one reference, which is the id
  -- of a frame handed on before it. This holds in whatever order Go ranges over the layer table, as
  -- long as that order visits entries of the table only.
  pub manage_all-Resolved :
      (inputs : List (EncodedFrame × VideoHeader))
      → All (λ i. is_incomplete i.1 ≡ false) inputs
      → Resolved [] (manage_all order new inputs)
  manage_all-Resolved inputs c = manage_all-Resolved_from inputs [] new c tt
