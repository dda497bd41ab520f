-- ===== src/Video/SeqNumFinder/Chain.antt =====
-- The frames that the finder hands on, over any run of calls.
use interceptor.Common.{
  ℕ, zero, suc, ◌≡◌, ◌≢◌, refl, ◌⊎◌, inl, inr, Bool, true, false, Option, none, some, List, [], ◌∷◌,
  ◌++◌, arith, if◌then◌else◌, Option-cases, length,
}
use interceptor.Common.Int.{ℤ, pos, ◌+ℤ◌, eqb_ℤ, ltb_ℤ, eq_of_parts, eq_parts}
use interceptor.Video.Header.{FrameType, key, delta, VideoHeader}
use interceptor.Video.Frame.{EncodedFrame}
use interceptor.Video.SeqNumFinder.{
  SeqNumFinder, StashedFrame, expected, resolve, follow, take_next, try_resolve,
  try_resolve_stashed_frames, clear_to, handle_keyframe, handle_delta_frame, delta_branch,
  manage_frame, manage_all, stash_frame,
}

-- the first and last number of the frame handed on last
abbrev pub Position : Type 0
Position = Option (ℤ × ℤ)

abbrev pub position : SeqNumFinder → Position
position f =
    if f.got_initial_frame
    then some (f.last_frame_first_seq_num, f.last_frame_last_seq_num)
    else none

-- A frame that refers to the one at the position, and whose packets come right after its packets.
abbrev pub Continues : Position → EncodedFrame → Type 0
Continues none g = ⊥
Continues (some (first, last)) g =
    (g.num_references ≡ 1) × (g.references.r0 ≡ first) × (g.first_seq_num_unwrapped ≡ last +ℤ pos 1)

-- Each frame is a key frame with no reference, or continues the one before it; each has the number
-- of its first packet for its id.
abbrev pub Linked : Position → List EncodedFrame → Type 0
Linked p [] = Unit
Linked p (g ∷ gs) =
    (((g.frame_type ≡ key) × (g.num_references ≡ 0)) ⊎ Continues p g)
    × (g.id ≡ g.first_seq_num_unwrapped)
    × Linked (some (g.first_seq_num_unwrapped, g.last_seq_num_unwrapped)) gs

abbrev after : Position → List EncodedFrame → Position
after p [] = p
after p (g ∷ gs) = after (some (g.first_seq_num_unwrapped, g.last_seq_num_unwrapped)) gs

Linked-append :
    (p : Position) (xs ys : List EncodedFrame)
    → Linked p xs
    → Linked (after p xs) ys
    → Linked p (xs ++ ys)
Linked-append p [] ys l m = m
Linked-append p (x ∷ xs) ys l m = (l.0, l.1, Linked-append _ xs ys l.2 m)

-- The frames of one call from a position, and where they leave the finder.
abbrev Step : Position → List EncodedFrame × SeqNumFinder → Type 0
Step p r = Linked p r.0 × (position r.1 ≡ after p r.0)

take_next_number :
    (seq : ℤ) (ss : List StashedFrame) (s : StashedFrame) (rest : List StashedFrame)
    → take_next seq ss ≡ some (s, rest)
    → s.frame.first_seq_num_unwrapped ≡ seq
unfolding take_next
take_next_number seq [] s rest h = absurd (ground arith)
take_next_number seq (t ∷ ss) s rest h = elim (Option-cases (take_next seq ss)) [
  | inl e ↦ ground (arith, eq_of_parts t.frame.first_seq_num_unwrapped seq)
  | inr ((u, others), e) ↦
      ground
        (arith, eq_of_parts t.frame.first_seq_num_unwrapped seq, take_next_number seq ss u others e)
]

eq_of_test : (a b : ℤ) → eqb_ℤ a b ≡ true → a ≡ b
eq_of_test a b e = ground (arith, eq_of_parts a b)

position-got :
    (f : SeqNumFinder)
    → f.got_initial_frame ≡ true
    → position f ≡ some (f.last_frame_first_seq_num, f.last_frame_last_seq_num)
position-got f g = rw g

resolve-Continues :
    (f : SeqNumFinder) (frame : EncodedFrame)
    → f.got_initial_frame ≡ true
    → frame.first_seq_num_unwrapped ≡ expected f
    → Continues (position f) (resolve f frame)
resolve-Continues f frame g e = rw (position-got f g) (refl, refl, e)

try_resolve-Step :
    (k : ℕ) (f : SeqNumFinder) → f.got_initial_frame ≡ true → Step (position f) (try_resolve k f)
unfolding try_resolve
try_resolve-Step zero f g = (tt, refl)
try_resolve-Step (suc k) f g = elim (Option-cases (take_next (expected f) f.stashed_frames)) [
  | inl e ↦ rw (e, try_resolve) (tt, refl)
  | inr ((s, rest), e) ↦
      let n = take_next_number (expected f) f.stashed_frames s rest e in
      let f' = record (follow f s.frame) { stashed_frames = rest } in
      let ih = rw (position-got f' g) at (try_resolve-Step k f' g) in
      rw (e, try_resolve) ((inr (resolve-Continues f s.frame g n), refl, ih.0), ih.1)
]

-- What `handleDeltaFrame` does: hand the frame on with what waited for it, drop it, or stash it.
pub data Delta (f : SeqNumFinder) (frame : EncodedFrame) (header : Option VideoHeader)
    : List EncodedFrame × SeqNumFinder → Type 0 where
  continued :
      f.got_initial_frame ≡ true
      → frame.first_seq_num_unwrapped ≡ expected f
      → Delta f frame header (
        resolve f frame ∷ (try_resolve_stashed_frames (follow f frame)).0,
        (try_resolve_stashed_frames (follow f frame)).1,
      )
  dropped : Delta f frame header ([], f)
  stashed :
      (f.got_initial_frame ≡ true → frame.first_seq_num_unwrapped ≢ expected f)
      → Delta f frame header ([], stash_frame f frame header)

pub handle_delta_frame-Delta :
    (f : SeqNumFinder) (frame : EncodedFrame) (header : Option VideoHeader)
    → Delta f frame header (handle_delta_frame f frame header)
unfolding handle_delta_frame
handle_delta_frame-Delta f frame header =
    by_tests f.got_initial_frame refl (eqb_ℤ frame.first_seq_num_unwrapped (expected f)) refl
      (ltb_ℤ frame.first_seq_num_unwrapped f.last_seq_num_gop)
  where
    by_tests :
        (g : Bool)
        → f.got_initial_frame ≡ g
        → (e : Bool) → eqb_ℤ frame.first_seq_num_unwrapped (expected f) ≡ e
        → (l : Bool) → Delta f frame header (delta_branch f frame header g e l)
    by_tests true g true e l = continued g (eq_of_test frame.first_seq_num_unwrapped (expected f) e)
    by_tests true g false e true = dropped
    by_tests true g false e false = stashed (λ _ n. absurd (ground (arith, eq_parts n)))
    by_tests false g e h l = stashed (λ t. absurd (ground arith))

handle_keyframe-Step :
    (f : SeqNumFinder) (frame : EncodedFrame)
    → frame.frame_type ≡ key
    → Step (position f) (handle_keyframe f frame)
unfolding handle_keyframe try_resolve_stashed_frames clear_to
handle_keyframe-Step f frame e =
    let g =
      clear_to
        (record (follow f frame) {
          last_seq_num_gop = frame.first_seq_num_unwrapped;
          got_initial_frame = true;
        })
        frame.first_seq_num_unwrapped in
    let ih = try_resolve-Step (length g.stashed_frames) g refl in
    ((inl (e, refl), refl, ih.0), ih.1)

handle_delta_frame-Step :
    (f : SeqNumFinder) (frame : EncodedFrame) (header : Option VideoHeader)
    → Step (position f) (handle_delta_frame f frame header)
handle_delta_frame-Step f frame header = by_case (handle_delta_frame-Delta f frame header)
  where
    by_case : {r : List EncodedFrame × SeqNumFinder} → Delta f frame header r → Step (position f) r
    by_case dropped = (tt, refl)
    by_case (stashed n) = unfold stash_frame in (tt, refl)
    by_case (continued g e) =
        let f' = follow f frame in
        let ih = rw (position-got f' g) at (try_resolve-Step (length f.stashed_frames) f' g) in
        unfold try_resolve_stashed_frames in
        ((inr (resolve-Continues f frame g e), refl, ih.0), ih.1)

manage_frame-Step :
    (f : SeqNumFinder) (frame : Option EncodedFrame) (header : Option VideoHeader)
    → Step (position f) (manage_frame f frame header)
unfolding manage_frame
manage_frame-Step f none header = (tt, refl)
manage_frame-Step f (some frame) header = by_type frame.frame_type refl
  where
    by_type :
        (t : FrameType)
        → frame.frame_type ≡ t
        → Step (position f) (manage_frame f (some frame) header)
    by_type key e = rw (e, manage_frame) (handle_keyframe-Step f frame e)
    by_type delta e = rw (e, manage_frame) (handle_delta_frame-Step f frame header)

-- Over any run of calls, the frames that the finder hands on form one chain from where it stood: each
-- is a key frame without references, or refers to the frame handed on just before it, whose last
-- packet comes just before its own first one; and each has its first number for its id. Before the
-- first key frame nothing is handed on.
pub manage_all-Linked :
    (inputs : List (Option EncodedFrame × Option VideoHeader)) (f : SeqNumFinder)
    → Linked (position f) (manage_all f inputs)
unfolding manage_all
manage_all-Linked [] f = tt
manage_all-Linked ((frame, header) ∷ inputs) f =
    let (linked, at) = manage_frame-Step f frame header in
    let (frames, f') = manage_frame f frame header in
    Linked-append (position f) frames (manage_all f' inputs) linked
      (rw at at (manage_all-Linked inputs f'))
