-- ===== src/Video/Vp8Finder/Settled.antt =====
-- A stash without a frame that could be handed on, and the loop that leaves it so.
use interceptor.Common.{
  ℕ, zero, suc, ◌≤◌, ◌≡◌, refl, ap, ◌⊎◌, inl, inr, true, Option, none, some, List, [], ◌∷◌, arith,
  Bool-cases, Option-cases, length, All,
}
use interceptor.Common.Int.{ℤ, ◌≤ℤ◌}
use interceptor.Video.Frame.{EncodedFrame, with_references}
use interceptor.Video.Stash.{max_stashed_frames}
use interceptor.Video.Stash.Laws.{IsSorted}
use interceptor.Video.LayerInfo.{LayerInfo}
use interceptor.Video.Vp8Finder.{
  Vp8Finder, StashedFrame, is_incomplete, layer_of, refs_of, processed, try_process,
  first_resolvable, try_resolve, try_resolve_stashed_frames,
}

abbrev pub stash_key : StashedFrame → ℤ
stash_key s = s.unwrapped_pid

module _ (order : LayerInfo → LayerInfo) where
  -- No reference is known for the frame yet.
  abbrev pub Blocked : LayerInfo → StashedFrame → Type 0
  Blocked info s =
      (is_incomplete s.header ≡ true)
      ⊎ (refs_of order info s.unwrapped_tl0 (layer_of s.header) ≡ [])

  -- Sorted by picture id, within the limit, and once a key frame has come, without a frame that
  -- could be handed on.
  pub record IsSettled (f : Vp8Finder) : Type 0 where
    pub sorted : IsSorted stash_key f.stashed_frames
    pub bounded : length f.stashed_frames ≤ max_stashed_frames
    pub drained : f.got_initial_frame ≡ true → All (Blocked f.layer_info) f.stashed_frames

  try_process-Blocked :
      (f : Vp8Finder) (s : StashedFrame) → try_process order f s ≡ none → Blocked f.layer_info s
  unfolding try_process
  try_process-Blocked f s e = elim (Bool-cases (is_incomplete s.header)) [
    | inl c ↦ inl c
    | inr c ↦
        inr (by_refs (refs_of order f.layer_info s.unwrapped_tl0 (layer_of s.header)) (rw c at e))
  ]
    where
      by_refs :
          (refs : List ℤ)
          → elim refs as (λ _. Option (EncodedFrame × Vp8Finder)) [
            | [] ↦ none
            | r ∷ rs ↦ some (
              with_references (record (s.frame) { id = s.unwrapped_pid }) (r ∷ rs),
              processed f s.unwrapped_tl0 (layer_of s.header) s.unwrapped_pid,
            )
          ]
            ≡ none
          → refs ≡ []
      by_refs [] e = refl
      by_refs (r ∷ rs) e = absurd (ground arith)

  first_resolvable-none :
      (f : Vp8Finder) (ss : List StashedFrame)
      → first_resolvable order f ss ≡ none
      → All (Blocked f.layer_info) ss
  unfolding first_resolvable
  first_resolvable-none f [] e = tt
  first_resolvable-none f (s ∷ ss) e = elim (Option-cases (try_process order f s)) [
    | inr ((g, f'), d) ↦ absurd (ground arith)
    | inl d ↦ elim (Option-cases (first_resolvable order f ss)) [
      | inr ((g, f', rest), c) ↦ absurd (ground arith)
      | inl c ↦ (try_process-Blocked f s d, first_resolvable-none f ss c)
    ]
  ]

  -- The others stay, in order.
  record Taken (ss rest : List StashedFrame) : Type 0 where
    shorter : length ss ≡ suc (length rest)
    sorted : IsSorted stash_key ss → IsSorted stash_key rest
    kept : (b : ℤ) → All (λ t. b ≤ℤ stash_key t) ss → All (λ t. b ≤ℤ stash_key t) rest

  first_resolvable-Taken :
      (f : Vp8Finder) (ss : List StashedFrame) (g : EncodedFrame) (f' : Vp8Finder)
      (rest : List StashedFrame)
      → first_resolvable order f ss ≡ some (g, f', rest)
      → Taken ss rest
  unfolding first_resolvable
  first_resolvable-Taken f [] g f' rest e = absurd (ground arith)
  first_resolvable-Taken f (s ∷ ss) g f' rest e = elim (Option-cases (try_process order f s)) [
    | inr ((h, f1), d) ↦
        let q : rest ≡ ss = ground arith in
        rw q (record { shorter = refl; sorted = λ o. o.1; kept = λ b a. a.1 })
    | inl d ↦ elim (Option-cases (first_resolvable order f ss)) [
      | inl c ↦ absurd (ground arith)
      | inr ((h, f1, others), c) ↦
          let ih = first_resolvable-Taken f ss h f1 others c in
          let q : rest ≡ s ∷ others = ground arith in
          rw q (record {
            shorter = ap suc ih.shorter;
            sorted = λ o. (ih.kept (stash_key s) o.0, ih.sorted o.1);
            kept = λ b a. (a.0, ih.kept b a.1);
          })
    ]
  ]

  none_in : (P : StashedFrame → Type 0) (ss : List StashedFrame) → length ss ≤ 0 → All P ss
  none_in P [] h = tt
  none_in P (s ∷ ss) h = absurd (omega arith)

  try_resolve-IsSettled :
      (k : ℕ) (f : Vp8Finder)
      → length f.stashed_frames ≤ k
      → IsSorted stash_key f.stashed_frames
      → length f.stashed_frames ≤ max_stashed_frames
      → IsSettled (try_resolve order k f).1
  unfolding try_resolve
  try_resolve-IsSettled zero f h s b = record {
    sorted = s;
    bounded = b;
    drained = λ g. none_in (Blocked f.layer_info) f.stashed_frames (omega arith);
  }
  try_resolve-IsSettled (suc k) f h s b =
      elim (Option-cases (first_resolvable order f f.stashed_frames)) [
        | inl e ↦
            rw (e, try_resolve)
              (record {
                sorted = s;
                bounded = b;
                drained = λ g. first_resolvable-none f f.stashed_frames e;
              })
        | inr ((g, f', rest), e) ↦
            let took = first_resolvable-Taken f f.stashed_frames g f' rest e in
            rw (e, try_resolve)
              (try_resolve-IsSettled k (record f' { stashed_frames = rest })
                (omega (arith, took.shorter)) (took.sorted s) (omega (arith, took.shorter)))
      ]

  pub try_resolve_stashed-IsSettled :
      (f : Vp8Finder)
      → IsSorted stash_key f.stashed_frames
      → length f.stashed_frames ≤ max_stashed_frames
      → IsSettled (try_resolve_stashed_frames order f).1
  unfolding try_resolve_stashed_frames
  try_resolve_stashed-IsSettled f s b =
      try_resolve-IsSettled (length f.stashed_frames) f (omega arith) s b
