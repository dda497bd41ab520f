-- ===== src/Video/FrameIdFinder/Laws.antt =====
-- The ids that the finder gives, and the references.
use interceptor.Common.{ℕ, ◌<◌, ◌≡◌, refl, ap, true, false, some, List, [], ◌∷◌, arith}
use interceptor.Common.Int.{ℤ, pos, ◌≤ℤ◌, ◌-ℤ◌, ltb_ℤ, eqb_ℤ}
use interceptor.Video.Header.{FrameType, key, delta, VideoHeader, no_picture_id}
use interceptor.Video.Frame.{EncodedFrame}
use interceptor.Video.Unwrap.{WrapUnwrapper, picture_id, wire, unwrap_picture_id}
use interceptor.Video.Unwrap.Track.{Steady, unwrap_as-step, unwrap_as-first}
use interceptor.Video.FrameIdFinder.{FrameIdFinder, new, set_reference, manage_frame, manage_all}

-- frames of a stream whose full picture ids are `xs`
abbrev pub Carries : List ℤ → List (EncodedFrame × VideoHeader) → Type 0
Carries [] [] = Unit
Carries (x ∷ xs) [] = ⊥
Carries [] (i ∷ inputs) = ⊥
Carries (x ∷ xs) (i ∷ inputs) =
    (i.1.picture_id ≡ pos (wire picture_id x)) × (pos 0 ≤ℤ x) × Carries xs inputs

-- A frame with its full id: a key frame without references, a delta frame with one, to the id before
-- its own
abbrev pub referred : FrameType → ℤ → EncodedFrame → EncodedFrame
referred key x frame = record frame { id = x; num_references = 0 }
referred delta x frame = record frame {
  id = x;
  num_references = 1;
  references = record (frame.references) { r0 = x -ℤ pos 1 };
}

-- the frames in their order, each with its full id
abbrev pub numbered : List ℤ → List (EncodedFrame × VideoHeader) → List EncodedFrame
numbered (x ∷ xs) ((frame, h) ∷ inputs) = referred frame.frame_type x frame ∷ numbered xs inputs
numbered _ _ = []

set_reference_lem :
    (t : FrameType) (x : ℤ) (frame : EncodedFrame)
    → set_reference t (record frame { id = x }) ≡ referred t x frame
set_reference_lem key x frame = refl
set_reference_lem delta x frame = refl

manage_frame-id :
    (f : FrameIdFinder) (frame : EncodedFrame) (h : VideoHeader) (x : ℤ) (u : WrapUnwrapper)
    → pos 0 ≤ℤ x
    → h.picture_id ≡ pos (wire picture_id x)
    → unwrap_picture_id f.unwrapper (pos (wire picture_id x)) ≡ (x, u)
    → manage_frame f (some frame) (some h)
      ≡ (referred frame.frame_type x frame ∷ [], record f { unwrapper = u })
unfolding manage_frame
manage_frame-id f frame h x u n e d =
    let b : eqb_ℤ h.picture_id no_picture_id ≡ false = ground (arith, e) in
    let c : ltb_ℤ x (pos 0) ≡ false = ground arith in
    rw (b, e, d, c)
      (ap (λ g. (g ∷ [], record f { unwrapper = u })) (set_reference_lem frame.frame_type x frame))

manage_all-from :
    (xs : List ℤ) (y : ℤ) (inputs : List (EncodedFrame × VideoHeader))
    → Steady 16384 y xs
    → Carries xs inputs
    → manage_all (record { unwrapper = record { last_unwrapped = y; initialized = true } }) inputs
      ≡ numbered xs inputs
unfolding manage_all
manage_all-from [] y [] s c = refl
manage_all-from (x ∷ xs) y [] s c = elim c [ ]
manage_all-from [] y (i ∷ inputs) s c = elim c [ ]
manage_all-from (x ∷ xs) y ((frame, h) ∷ inputs) (n, s) (e, p, c) =
    rw (manage_frame-id _ frame h x _ p e (unwrap_as-step picture_id x y n))
      (ap (λ r. referred frame.frame_type x frame ∷ r) (manage_all-from xs x inputs s c))

-- A new finder gives every frame its full picture id, a key frame no reference and a delta frame one
-- reference, to the id before its own, and hands every frame on in order, if the ids are not
-- negative, the first is below 32768, and each is less than 16384 away from the one before it.
pub manage_all-numbered :
    (n : ℕ) (xs : List ℤ) (inputs : List (EncodedFrame × VideoHeader))
    → n < 32768
    → Steady 16384 (pos n) xs
    → Carries (pos n ∷ xs) inputs
    → manage_all new inputs ≡ numbered (pos n ∷ xs) inputs
unfolding manage_all
manage_all-numbered n xs [] h s c = elim c [ ]
manage_all-numbered n xs ((frame, header) ∷ inputs) h s (e, p, c) =
    rw (manage_frame-id new frame header (pos n) _ p e (unwrap_as-first picture_id n h)) (
      ap (λ r. referred frame.frame_type (pos n) frame ∷ r) (manage_all-from xs (pos n) inputs s c))
