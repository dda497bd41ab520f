-- ===== src/Twcc/ArrivalTimeMap/Before.antt =====
-- A packet that is older than the range.
use interceptor.Twcc.ArrivalTimeMap.Recorded.{Short, Recorded, recorded}
use interceptor.Common.{ℕ, ◌≤◌, ◌≡◌, refl, sym, subst, ◌∙◌, arith}
use interceptor.Common.Int.{ℤ, pos, ◌+ℤ◌, ◌≤ℤ◌, ◌<ℤ◌, eqb_ℤ_iff, +ℤ_parts, eq_parts}
use interceptor.Twcc.ArrivalTimeMap.{
  PacketArrivalTimeMap, capacity, span, write, set_not_received, adjust_to_size,
}
use interceptor.Twcc.ArrivalTimeMap.Ring.{
  Within, get_in, get_out, write-at, set_not_received-at, span_end,
}
use interceptor.Twcc.ArrivalTimeMap.Resize.{
  IsCapacity, IsCapacity-bounds, IsValid, adjust_to_size-Resized,
}

module _ (m : PacketArrivalTimeMap) (sn t : ℤ) (v : IsValid m) (s : Short m) where
  -- the packet is older, and the range can be made that long
  pub before-Recorded :
      sn <ℤ m.begin_sequence_number
      → span sn m.end_sequence_number ≤ 32768
      → Recorded m sn t
          (record (set_not_received
            (write t sn (adjust_to_size m (span sn m.end_sequence_number)))
            (sn +ℤ pos 1)
            (write t sn (adjust_to_size m (span sn m.end_sequence_number))).begin_sequence_number) {
              begin_sequence_number = sn;
            })
  before-Recorded h l =
      let size = span sn m.end_sequence_number in
      let k : sn +ℤ pos size ≡ m.end_sequence_number =
        span_end sn m.end_sequence_number (omega (arith, v.ordered)) in
      let one = +ℤ_parts sn (pos 1) in
      let sized = +ℤ_parts sn (pos size) in
      let r =
        adjust_to_size-Resized m size v l
          (omega (arith, eq_parts k, sized, +ℤ_parts m.begin_sequence_number (pos size))) in
      let a = adjust_to_size m size in
      let c = capacity a in
      let wide = +ℤ_parts sn (pos c) in
      let p = IsCapacity-bounds c r.power in
      let w =
        write-at a sn c m.begin_sequence_number m.end_sequence_number t sn (refl, r.begins, r.ends)
          (omega arith, omega (arith, wide, p)) in
      let x = write t sn a in
      let q =
        set_not_received-at x sn c m.begin_sequence_number m.end_sequence_number (sn +ℤ pos 1)
          x.begin_sequence_number w.0 (omega (arith, one)) (omega (arith, one, eq_parts w.0.1))
          (omega (arith, wide, sized, eq_parts k, r.room, eq_parts w.0.1, v.ordered)) in
      recorded m _ sn t
        (record {
          power = subst IsCapacity (sym q.0.0) r.power;
          ordered = omega (arith, eq_parts q.0.2, v.ordered);
          fits =
              subst
                (λ (d : ℕ).
                  (set_not_received x (sn +ℤ pos 1) x.begin_sequence_number).end_sequence_number
                  ≤ℤ sn +ℤ pos d)
                (sym q.0.0) (omega (arith, eq_parts q.0.2, wide, sized, eq_parts k, r.room));
        })
        (omega (arith, eq_parts q.0.2, eq_parts k, sized, +ℤ_parts sn (pos 32768)))
        (omega arith, omega (arith, eq_parts q.0.2, v.ordered)) (omega (arith, eq_parts q.0.2))
        (λ n o u i. omega arith)
        (λ n i.
          let j : Within sn c n =
            (i.0, omega (arith, i.1, eq_parts q.0.2, wide, sized, eq_parts k, r.room)) in
          q.1 n j
          ∙ ground (
            arith,
            w.1 n j,
            r.same n,
            get_in m n,
            get_out m n,
            eqb_ℤ_iff sn n,
            one,
            eq_parts w.0.1,
            eq_parts q.0.2,
          ))
