-- ===== src/Twcc/Recorder/Complete.antt =====
-- `BuildFeedbackPacket`: every received packet since the start is told of.
use interceptor.Twcc.Recorder.Report.{
  All-suffix, clamp-Clamped, maybe_build-Builds, span_left, Ranged, Tells, Tells-none, Tells-more,
}
use interceptor.Common.{
  ℕ, zero, suc, ◌*◌, ◌/◌, ◌≤◌, ◌≡◌, refl, sym, ap, subst, ◌∙◌, inl, inr, Option, some, List, ◌∷◌,
  arith, Bool-cases, All,
}
use interceptor.Common.Int.{ℤ, pos, ◌+ℤ◌, ◌-ℤ◌, ◌<ℤ◌, ltb_ℤ, +ℤ_parts, eq_parts}
use interceptor.Twcc.ArrivalTimeMap.{span}
use interceptor.Twcc.Feedback.{get_rtcp}
use interceptor.Twcc.Recorder.{
  Recorder, maybe_build_feedback_packet, build_all, build_from, build_feedback_packet,
}
use interceptor.Twcc.Recorder.Received.{received, received_nil}
use interceptor.Twcc.Recorder.First.{distance}

-- What the recorder holds: the packets of the `n` numbers from `start` on.
build_all-Tells :
    (scale k n : ℕ) (r : Recorder) (start : ℤ)
    → 2 ≤ scale
    → Ranged r.arrival_time_map
    → n ≤ k
    → start +ℤ pos n ≡ r.arrival_time_map.end_sequence_number
    → All (λ (x : ℤ × ℤ). x.1 <ℤ pos (4294967296 * 64000)) (received r.arrival_time_map n start)
    → Tells
        (scale / 2)
        (received r.arrival_time_map n start)
        (build_all scale k r start r.arrival_time_map.end_sequence_number).0
unfolding build_all
build_all-Tells scale zero n r start fine o l e late =
    Tells-none (scale / 2) _ (received_nil r.arrival_time_map n start (omega (arith, l)))
build_all-Tells scale (suc k) n r start fine o l e late =
    let end = r.arrival_time_map.end_sequence_number in
    elim (Bool-cases (ltb_ℤ start end)) [
      | inr z ↦
          rw (z, build_all)
            (Tells-none (scale / 2) _ (
              received_nil r.arrival_time_map n start
                (ground (arith, eq_parts e, +ℤ_parts start (pos n)))))
      | inl z ↦
          let c = clamp-Clamped r.arrival_time_map n start o.0 e in
          let b = maybe_build_feedback_packet scale r start end in
          elim (maybe_build-Builds scale r n start fine o c) [
            | inl (f, s) ↦ rw (z, f, build_all) (Tells-none (scale / 2) _ (c.same ∙ s))
            | inr g ↦
                let P = λ (x : ℤ × ℤ). x.1 <ℤ pos (4294967296 * 64000) in
                let early = subst (All P) c.same late in
                let w = g.continues.fewer in
                let v = c.fewer in
                let u = g.strict in
                let r' = record r {
                  start_sequence_number = some b.start;
                  fb_pkt_cnt = b.fb_pkt_cnt;
                } in
                let ps = get_rtcp g.continues.packet ∷ (build_all scale k r' b.start end).0 in
                rw (z, g.continues.is, build_all)
                  (subst (λ (xs : List (ℤ × ℤ)). Tells (scale / 2) xs ps) (sym c.same)
                    (Tells-more (scale / 2) r.arrival_time_map c.left c.at b g _ early (
                      build_all-Tells scale k g.continues.left r' b.start fine o
                        (omega (arith, l, w, v, u)) g.continues.rest
                        (All-suffix P g.continues.taken _
                          (subst (All P) g.continues.split early)))))
          ]
    ]

no_span : (from to : ℤ) → to <ℤ from → span from to ≡ 0
unfolding span ◌-ℤ◌
no_span from to h = ground arith

build_all_none :
    (scale : ℕ) (r : Recorder) (start : ℤ)
    → Tells
        (scale / 2)
        (received r.arrival_time_map 0 start)
        (build_all scale 0 r start r.arrival_time_map.end_sequence_number).0
unfolding build_all
build_all_none scale r start =
    Tells-none (scale / 2) _ (received_nil r.arrival_time_map 0 start refl)

build_from-Tells :
    (scale : ℕ) (r : Recorder) (start : ℤ)
    → 2 ≤ scale
    → Ranged r.arrival_time_map
    → All
        (λ (x : ℤ × ℤ). x.1 <ℤ pos (4294967296 * 64000))
        (received r.arrival_time_map (span start r.arrival_time_map.end_sequence_number) start)
    → Tells
        (scale / 2)
        (received r.arrival_time_map (span start r.arrival_time_map.end_sequence_number) start)
        (build_all scale
          (span start r.arrival_time_map.end_sequence_number)
          r
          start
          r.arrival_time_map.end_sequence_number).0
build_from-Tells scale r start fine o late =
    let end = r.arrival_time_map.end_sequence_number in
    elim (Bool-cases (ltb_ℤ end start)) [
      | inr z ↦
          let (n, e) = distance start end (ground arith) in
          let s = span_left start end n e in
          build_all-Tells scale (span start end) (span start end) r start fine o (omega arith)
            (ap (λ (i : ℕ). start +ℤ pos i) s ∙ e) late
      | inl z ↦
          let s = no_span start end (ground arith) in
          subst
            (λ (i : ℕ).
              Tells (scale / 2) (received r.arrival_time_map i start)
                (build_all scale i r start end).0)
            (sym s) (build_all_none scale r start)
    ]

-- From a map whose range has at most 32768 numbers, and whose times are below 2 ^ 32 times 64
-- milliseconds, with a tick of at least 2 microseconds: every loop of `BuildFeedbackPacket` ends, and
-- the packets that it returns, read one after the other, tell of exactly the packets of the map from
-- the start on that have come: each of them once, in the order of their numbers, by its lower 16
-- bits, with a time at most half a tick from the true one; and every chunk of them can be written.
pub build_feedback_packet-Tells :
    (scale : ℕ) (r : Recorder) (start : ℤ)
    → 2 ≤ scale
    → Ranged r.arrival_time_map
    → r.start_sequence_number ≡ some start
    → All
        (λ (x : ℤ × ℤ). x.1 <ℤ pos (4294967296 * 64000))
        (received r.arrival_time_map (span start r.arrival_time_map.end_sequence_number) start)
    → Tells
        (scale / 2)
        (received r.arrival_time_map (span start r.arrival_time_map.end_sequence_number) start)
        (build_feedback_packet scale r).0
unfolding build_feedback_packet
build_feedback_packet-Tells scale r start fine o e late =
    subst
      (λ (s : Option ℤ).
        Tells (scale / 2)
          (received r.arrival_time_map (span start r.arrival_time_map.end_sequence_number) start)
          (build_from scale r s).0)
      (sym e) (build_from-Tells scale r start fine o late)
