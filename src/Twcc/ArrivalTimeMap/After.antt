-- ===== src/Twcc/ArrivalTimeMap/After.antt =====
-- A packet that is newer than the range.
use interceptor.Twcc.ArrivalTimeMap.Recorded.{Short, Recorded, recorded}
use interceptor.Common.{ℕ, ◌≤◌, ◌≡◌, refl, sym, subst, ◌∙◌, arith, if_elim}
use interceptor.Common.Int.{
  ℤ, pos, ◌+ℤ◌, ◌-ℤ◌, ◌≤ℤ◌, ◌<ℤ◌, ltb_ℤ, eqb_ℤ_iff, +ℤ_parts, -ℤ_parts, eq_parts, eq_of_parts,
}
use interceptor.Twcc.ArrivalTimeMap.{
  PacketArrivalTimeMap, capacity, span, write, set_not_received, adjust_to_size, drop_oldest,
}
use interceptor.Twcc.ArrivalTimeMap.Ring.{
  Within, at, InRange, get_in, get_out, write-at, set_not_received-at, span_end,
}
use interceptor.Twcc.ArrivalTimeMap.Resize.{
  IsCapacity, IsCapacity-bounds, IsValid, adjust_to_size-Resized,
}

module _ (m : PacketArrivalTimeMap) (sn t : ℤ) (v : IsValid m) (s : Short m) where
  -- the packet is so much newer that nothing of the range is kept
  pub far-Recorded :
      m.end_sequence_number +ℤ pos 32768 ≤ℤ sn +ℤ pos 1
      → Recorded m sn t
          (write t sn (record m { begin_sequence_number = sn; end_sequence_number = sn +ℤ pos 1 }))
  unfolding write
  far-Recorded h =
      let e = sn +ℤ pos 1 in
      let one = +ℤ_parts sn (pos 1) in
      let far = +ℤ_parts m.end_sequence_number (pos 32768) in
      let d = record m { begin_sequence_number = sn; end_sequence_number = e } in
      let c = capacity m in
      let wide = +ℤ_parts sn (pos c) in
      let p = IsCapacity-bounds c v.power in
      let q = write-at d sn c sn e t sn (refl, refl, refl) (omega arith, omega (arith, wide, p)) in
      recorded m (write t sn d) sn t
        (record {
          power = subst IsCapacity (sym q.0.0) v.power;
          ordered = omega (arith, one);
          fits = subst (λ (k : ℕ). e ≤ℤ sn +ℤ pos k) (sym q.0.0) (omega (arith, one, wide, p));
        })
        (omega (arith, one, +ℤ_parts sn (pos 32768))) (omega arith, omega (arith, one))
        (omega (arith, h, one, far))
        (λ n l k i. omega (arith, one, h, far, +ℤ_parts n (pos 32768), i.1, k))
        (λ n i.
          q.1 n (i.0, omega (arith, i.1, one, wide, p))
          ∙ ground (arith, one, i, eqb_ℤ_iff sn n, eq_of_parts sn n))

-- the range from some number on
pub record Dropped (m : PacketArrivalTimeMap) (new_end : ℤ) (d : PacketArrivalTimeMap)
    : Type 0 where
  valid : IsValid d
  ends : d.end_sequence_number ≡ m.end_sequence_number
  later : m.begin_sequence_number ≤ℤ d.begin_sequence_number
  short : new_end ≤ℤ d.begin_sequence_number +ℤ pos 32768
  same : (n : ℤ) → InRange d n → at d n ≡ at m n
  low :
      (n : ℤ)
      → n <ℤ d.begin_sequence_number
      → new_end ≤ℤ n +ℤ pos 32768
      → n <ℤ m.begin_sequence_number

pub drop_oldest-Dropped :
    (m : PacketArrivalTimeMap) (new_end : ℤ)
    → IsValid m
    → Short m
    → new_end <ℤ m.end_sequence_number +ℤ pos 32768
    → Dropped m new_end (drop_oldest m new_end)
drop_oldest-Dropped m e v s h =
    let cut = -ℤ_parts e (pos 32768) in
    let long = +ℤ_parts m.end_sequence_number (pos 32768) in
    let c = +ℤ_parts m.begin_sequence_number (pos (capacity m)) in
    if_elim (Dropped m e) (ltb_ℤ m.begin_sequence_number (e -ℤ pos 32768)) _ m
      (λ g.
        let newer : m.begin_sequence_number <ℤ e -ℤ pos 32768 = ground arith in
        record {
          valid = record {
            power = v.power;
            ordered = omega (arith, h, cut, long);
            fits = omega (arith, v.fits, newer, c, +ℤ_parts (e -ℤ pos 32768) (pos (capacity m)));
          };
          ends = refl;
          later = omega (arith, newer);
          short = omega (arith, cut, +ℤ_parts (e -ℤ pos 32768) (pos 32768));
          same = λ n i. refl;
          low = λ n l k. absurd (omega (arith, l, k, cut, +ℤ_parts n (pos 32768)));
        })
      (λ g. record {
        valid = v;
        ends = refl;
        later = omega arith;
        short = ground (arith, cut, +ℤ_parts m.begin_sequence_number (pos 32768));
        same = λ n i. refl;
        low = λ n l k. l;
      })

module _ (m : PacketArrivalTimeMap) (sn t : ℤ) (v : IsValid m) (s : Short m) where
  -- the packet is newer, and the range goes on up to it
  pub near-Recorded :
      (d : PacketArrivalTimeMap)
      → m.end_sequence_number ≤ℤ sn
      → Dropped m (sn +ℤ pos 1) d
      → Recorded m sn t (
          write t sn
            (record (set_not_received
              (adjust_to_size d (span d.begin_sequence_number (sn +ℤ pos 1)))
              (adjust_to_size d (span d.begin_sequence_number (sn +ℤ pos 1))).end_sequence_number
              sn) { end_sequence_number = sn +ℤ pos 1 }))
  unfolding write
  near-Recorded d h g =
      let e = sn +ℤ pos 1 in
      let b = d.begin_sequence_number in
      let size = span b e in
      let one = +ℤ_parts sn (pos 1) in
      let o = g.valid.ordered in
      let k : b +ℤ pos size ≡ e = span_end b e (omega (arith, o, h, eq_parts g.ends, one)) in
      let sized = +ℤ_parts b (pos size) in
      let small : size ≤ 32768 =
        omega (arith, g.short, eq_parts k, sized, +ℤ_parts b (pos 32768)) in
      let r =
        adjust_to_size-Resized d size g.valid small
          (omega (arith, eq_parts k, eq_parts g.ends, h, one)) in
      let a = adjust_to_size d size in
      let c = capacity a in
      let wide = +ℤ_parts b (pos c) in
      let ends = r.ends ∙ g.ends in
      let w =
        set_not_received-at a b c b m.end_sequence_number a.end_sequence_number sn
          (refl, r.begins, ends) (omega (arith, eq_parts r.ends, o))
          (omega (arith, h, eq_parts ends)) (omega (arith, wide, sized, eq_parts k, r.room, one)) in
      let x = record (set_not_received a a.end_sequence_number sn) { end_sequence_number = e } in
      let in_c : Within b c sn = (
        omega (arith, o, h, eq_parts g.ends),
        omega (arith, wide, sized, eq_parts k, r.room, one),
      ) in
      let q = write-at x b c b e t sn (w.0.0, w.0.1, refl) in_c in
      recorded m (write t sn x) sn t
        (record {
          power = subst IsCapacity (sym q.0.0) r.power;
          ordered = omega (arith, eq_parts w.0.1, one, in_c);
          fits =
              subst (λ (z : ℕ). e ≤ℤ x.begin_sequence_number +ℤ pos z) (sym q.0.0)
                (omega (
                  arith,
                  wide,
                  sized,
                  eq_parts k,
                  r.room,
                  eq_parts w.0.1,
                  +ℤ_parts x.begin_sequence_number (pos c),
                ));
        })
        (omega (
          arith,
          g.short,
          eq_parts w.0.1,
          +ℤ_parts b (pos 32768),
          +ℤ_parts x.begin_sequence_number (pos 32768),
        ))
        (omega (arith, eq_parts w.0.1, in_c), omega (arith, one)) (omega (arith, h, one))
        (λ n u y i. omega (arith, g.low n (omega (arith, u, eq_parts w.0.1)) y, i.0))
        (λ n i.
          let j : Within b c n = (
            omega (arith, i.0, eq_parts w.0.1),
            omega (arith, i.1, wide, sized, eq_parts k, r.room),
          ) in
          q.1 n j
          ∙ ground (
            arith,
            w.1 n j,
            r.same n,
            g.same n,
            get_in m n,
            get_out m n,
            eqb_ℤ_iff sn n,
            eq_of_parts sn n,
            eq_parts ends,
            eq_parts g.ends,
            g.later,
            one,
            i,
          ))
