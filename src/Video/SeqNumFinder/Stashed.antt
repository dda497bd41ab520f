-- ===== src/Video/SeqNumFinder/Stashed.antt =====
-- What waits in the stash between two calls.
use mathlib.Core.List.{Perm}
use mathlib.Core.List.Perm
use interceptor.Common.{
  ℕ, zero, suc, ◌≤◌, ◌≡◌, ◌≢◌, refl, ap, inl, inr, true, Option, none, some, List, [], ◌∷◌, ◌++◌,
  map, arith, Bool-cases, Option-cases, length, All,
}
use interceptor.Common.Int.{ℤ, ◌≤ℤ◌, eqb_ℤ, eq_of_parts, eqb_ℤ_iff}
use interceptor.Video.Header.{FrameType, key, delta, VideoHeader}
use interceptor.Video.Frame.{EncodedFrame}
use interceptor.Video.Stash.{max_stashed_frames}
use interceptor.Video.Stash.Laws.{
  IsSorted, stash-IsSorted, length-stash, All-stash, length-clear_before, clear_before-IsSorted,
}
use interceptor.Video.SeqNumFinder.{
  SeqNumFinder, StashedFrame, stash_key, expected, resolve, follow, take_next, try_resolve,
  try_resolve_stashed_frames, clear_to, handle_keyframe, handle_delta_frame, manage_frame,
  stash_frame,
}
use interceptor.Video.SeqNumFinder.Chain.{
  Delta, continued, dropped, stashed, handle_delta_frame-Delta,
}

-- Taking a frame out: the others stay, in order.
record Taken (seq : ℤ) (ss : List StashedFrame) (s : StashedFrame) (rest : List StashedFrame)
    : Type 0 where
  number : stash_key s ≡ seq
  shorter : length ss ≡ suc (length rest)
  sorted : IsSorted stash_key ss → IsSorted stash_key rest
  kept : (b : ℤ) → All (λ t. b ≤ℤ stash_key t) ss → All (λ t. b ≤ℤ stash_key t) rest
  same : Perm (s ∷ rest) ss

take_next-Taken :
    (seq : ℤ) (ss : List StashedFrame) (s : StashedFrame) (rest : List StashedFrame)
    → take_next seq ss ≡ some (s, rest)
    → Taken seq ss s rest
unfolding take_next
take_next-Taken seq [] s rest h = absurd (ground arith)
take_next-Taken seq (t ∷ ss) s rest h = elim (Bool-cases (eqb_ℤ (stash_key t) seq)) [
  | inl e ↦
      let p : s ≡ t = ground arith in
      let q : rest ≡ ss = ground arith in
      rw (p, q)
        (record {
          number = ground (arith, eq_of_parts (stash_key t) seq);
          shorter = refl;
          sorted = λ o. o.1;
          kept = λ b a. a.1;
          same = Perm.refl (t ∷ ss);
        })
  | inr e ↦ elim (Option-cases (take_next seq ss)) [
    | inl f ↦ absurd (ground arith)
    | inr ((u, others), f) ↦
        let ih = take_next-Taken seq ss u others f in
        let p : s ≡ u = ground arith in
        let q : rest ≡ t ∷ others = ground arith in
        rw (p, q)
          (record {
            number = ih.number;
            shorter = ap suc ih.shorter;
            sorted = λ o. (ih.kept (stash_key t) o.0, ih.sorted o.1);
            kept = λ b a. (a.0, ih.kept b a.1);
            same = Perm.trans (Perm.swap t u others) (Perm.cons t ih.same);
          })
  ]
]

take_next-none :
    (seq : ℤ) (ss : List StashedFrame) → take_next seq ss ≡ none → All (λ s. stash_key s ≢ seq) ss
unfolding take_next
take_next-none seq [] h = tt
take_next-none seq (t ∷ ss) h = (λ e. absurd (ground arith), take_next-none seq ss (ground arith))

-- Sorted, within the limit, and once a key frame has come, with no frame that could go on.
pub record IsValid (f : SeqNumFinder) : Type 0 where
  pub sorted : IsSorted stash_key f.stashed_frames
  pub bounded : length f.stashed_frames ≤ max_stashed_frames
  pub drained : f.got_initial_frame ≡ true → All (λ s. stash_key s ≢ expected f) f.stashed_frames

none_in : (P : StashedFrame → Type 0) (ss : List StashedFrame) → length ss ≤ 0 → All P ss
none_in P [] h = tt
none_in P (s ∷ ss) h = absurd (omega arith)

try_resolve-IsValid :
    (k : ℕ) (f : SeqNumFinder)
    → length f.stashed_frames ≤ k
    → IsSorted stash_key f.stashed_frames
    → length f.stashed_frames ≤ max_stashed_frames
    → IsValid (try_resolve k f).1
unfolding try_resolve
try_resolve-IsValid zero f h s b = record {
  sorted = s;
  bounded = b;
  drained = λ g. none_in (λ s. stash_key s ≢ expected f) f.stashed_frames (omega arith);
}
try_resolve-IsValid (suc k) f h s b =
    elim (Option-cases (take_next (expected f) f.stashed_frames)) [
      | inl e ↦
          rw (e, try_resolve)
            (record {
              sorted = s;
              bounded = b;
              drained = λ g. take_next-none (expected f) f.stashed_frames e;
            })
      | inr ((t, rest), e) ↦
          let took = take_next-Taken (expected f) f.stashed_frames t rest e in
          rw (e, try_resolve)
            (try_resolve-IsValid k (record (follow f t.frame) { stashed_frames = rest })
              (omega (arith, took.shorter)) (took.sorted s) (omega (arith, took.shorter)))
    ]

try_resolve_stashed-IsValid :
    (f : SeqNumFinder)
    → IsSorted stash_key f.stashed_frames
    → length f.stashed_frames ≤ max_stashed_frames
    → IsValid (try_resolve_stashed_frames f).1
unfolding try_resolve_stashed_frames
try_resolve_stashed-IsValid f s b =
    try_resolve-IsValid (length f.stashed_frames) f (omega arith) s b

-- The frame that goes in does not fit, or no key frame has come.
stash_frame-IsValid :
    (f : SeqNumFinder) (frame : EncodedFrame) (header : Option VideoHeader)
    → IsValid f
    → (f.got_initial_frame ≡ true → frame.first_seq_num_unwrapped ≢ expected f)
    → IsValid (stash_frame f frame header)
unfolding stash_frame
stash_frame-IsValid f frame header v n =
    let s : StashedFrame = record { frame = frame; header = header } in
    record {
      sorted = stash-IsSorted stash_key f.stashed_frames s;
      bounded = length-stash stash_key f.stashed_frames s v.bounded;
      drained = λ g.
          All-stash stash_key (λ t. stash_key t ≢ expected f) f.stashed_frames s (v.drained g)
            (n g);
    }

handle_keyframe-IsValid :
    (f : SeqNumFinder) (frame : EncodedFrame) → IsValid f → IsValid (handle_keyframe f frame).1
unfolding handle_keyframe clear_to
handle_keyframe-IsValid f frame v =
    try_resolve_stashed-IsValid _
      (clear_before-IsSorted stash_key frame.first_seq_num_unwrapped f.stashed_frames v.sorted)
      (omega (
        arith,
        v.bounded,
        length-clear_before stash_key frame.first_seq_num_unwrapped f.stashed_frames,
      ))

handle_delta_frame-IsValid :
    (f : SeqNumFinder) (frame : EncodedFrame) (header : Option VideoHeader)
    → IsValid f
    → IsValid (handle_delta_frame f frame header).1
handle_delta_frame-IsValid f frame header v = by_case (handle_delta_frame-Delta f frame header)
  where
    by_case : {r : List EncodedFrame × SeqNumFinder} → Delta f frame header r → IsValid r.1
    by_case dropped = v
    by_case (stashed n) = stash_frame-IsValid f frame header v n
    by_case (continued g e) = try_resolve_stashed-IsValid (follow f frame) v.sorted v.bounded

-- Whatever frame comes, the stash stays sorted by first number and at most 100 frames long, and once
-- a key frame has come, no frame is left in it that comes right after the last frame handed on: the
-- loop of `tryResolveStashedFrames` has had enough rounds.
pub manage_frame-IsValid :
    (f : SeqNumFinder) (frame : Option EncodedFrame) (header : Option VideoHeader)
    → IsValid f
    → IsValid (manage_frame f frame header).1
unfolding manage_frame
manage_frame-IsValid f none header v = v
manage_frame-IsValid f (some frame) header v = by_type frame.frame_type refl
  where
    by_type :
        (t : FrameType) → frame.frame_type ≡ t → IsValid (manage_frame f (some frame) header).1
    by_type key e = rw (e, manage_frame) (handle_keyframe-IsValid f frame v)
    by_type delta e = rw (e, manage_frame) (handle_delta_frame-IsValid f frame header v)

abbrev first_number : EncodedFrame → ℤ
first_number g = g.first_seq_num_unwrapped

try_resolve-perm :
    (k : ℕ) (f : SeqNumFinder)
    → let (frames, f') = try_resolve k f in
      Perm
        (map first_number frames ++ map stash_key f'.stashed_frames)
        (map stash_key f.stashed_frames)
unfolding try_resolve
try_resolve-perm zero f = Perm.refl _
try_resolve-perm (suc k) f = elim (Option-cases (take_next (expected f) f.stashed_frames)) [
  | inl e ↦ rw (e, try_resolve) (Perm.refl _)
  | inr ((t, rest), e) ↦
      let took = take_next-Taken (expected f) f.stashed_frames t rest e in
      let ih = try_resolve-perm k (record (follow f t.frame) { stashed_frames = rest }) in
      rw (e, try_resolve) (Perm.trans (Perm.cons (stash_key t) ih) (Perm.map stash_key took.same))
]

eqb_of_eq : {a b : ℤ} → a ≡ b → eqb_ℤ a b ≡ true
eqb_of_eq {a} {b} e = ground (arith, eqb_ℤ_iff a b, e)

manage_frame-next :
    (f : SeqNumFinder) (frame : EncodedFrame) (header : Option VideoHeader)
    → frame.frame_type ≡ delta
    → f.got_initial_frame ≡ true
    → eqb_ℤ frame.first_seq_num_unwrapped (expected f) ≡ true
    → manage_frame f (some frame) header ≡ (
      resolve f frame ∷ (try_resolve_stashed_frames (follow f frame)).0,
      (try_resolve_stashed_frames (follow f frame)).1,
    )
unfolding manage_frame handle_delta_frame
manage_frame-next f frame header d g e = ground (arith, d, g, e)

-- A delta frame that comes right after the last frame handed on takes along exactly the frames that
-- leave the stash: of the numbers of the frame and of those in the stash, each is handed on or stays,
-- and none is lost or doubled.
pub manage_frame-perm :
    (f : SeqNumFinder) (frame : EncodedFrame) (header : Option VideoHeader)
    → frame.frame_type ≡ delta
    → f.got_initial_frame ≡ true
    → frame.first_seq_num_unwrapped ≡ expected f
    → let (frames, f') = manage_frame f (some frame) header in
      Perm
        (map (λ g. g.first_seq_num_unwrapped) frames ++ map stash_key f'.stashed_frames)
        (frame.first_seq_num_unwrapped ∷ map stash_key f.stashed_frames)
unfolding try_resolve_stashed_frames
manage_frame-perm f frame header d g e = rw (manage_frame-next f frame header d g (eqb_of_eq e)) (
    Perm.cons frame.first_seq_num_unwrapped
      (try_resolve-perm (length f.stashed_frames) (follow f frame)))
