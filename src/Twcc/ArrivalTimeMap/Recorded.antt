-- ===== src/Twcc/ArrivalTimeMap/Recorded.antt =====
-- What it means that a packet is recorded, and the packet inside the range.
use interceptor.Common.{
  ℕ, ◌≡◌, ◌≢◌, refl, sym, ap, subst, ◌∙◌, inl, inr, false, ◌&&◌, if◌then◌else◌, arith, Bool-cases,
}
use interceptor.Common.Int.{ℤ, pos, ◌+ℤ◌, ◌≤ℤ◌, ◌<ℤ◌, ltb_ℤ, leb_ℤ, eqb_ℤ, eqb_ℤ_iff}
use interceptor.Twcc.ArrivalTimeMap.{PacketArrivalTimeMap, capacity, never, get, write}
use interceptor.Twcc.ArrivalTimeMap.Ring.{Within, at, InRange, get_in, get_out, write-at}
use interceptor.Twcc.ArrivalTimeMap.Resize.{IsCapacity, IsValid}

-- The range is at most as long as the code lets it grow.
abbrev pub Short : PacketArrivalTimeMap → Type 0
Short m = m.end_sequence_number ≤ℤ m.begin_sequence_number +ℤ pos 32768

abbrev pub at_or : PacketArrivalTimeMap → ℤ → ℤ
at_or m n =
    if leb_ℤ m.begin_sequence_number n && ltb_ℤ n m.end_sequence_number then at m n else never

get-at_or : (m : PacketArrivalTimeMap) (n : ℤ) → get m n ≡ at_or m n
get-at_or m n = ground (arith, get_in m n, get_out m n)

-- `t` is recorded for `sn`, and of the last 32768 numbers every other is as it was.
pub record Recorded (m : PacketArrivalTimeMap) (sn t : ℤ) (m' : PacketArrivalTimeMap) : Type 0 where
  pub valid : IsValid m'
  pub short : Short m'
  pub here : get m' sn ≡ t
  pub others : (n : ℤ) → n ≢ sn → m'.end_sequence_number ≤ℤ n +ℤ pos 32768 → get m' n ≡ get m n

-- It is enough to know what stands in the places of the new range.
pub recorded :
    (m m' : PacketArrivalTimeMap) (sn t : ℤ)
    → IsValid m'
    → Short m'
    → InRange m' sn
    → m.end_sequence_number ≤ℤ m'.end_sequence_number
    → ((n : ℤ)
        → n <ℤ m'.begin_sequence_number
        → m'.end_sequence_number ≤ℤ n +ℤ pos 32768
        → ¬ (InRange m n))
    → ((n : ℤ) → InRange m' n → at m' n ≡ (if eqb_ℤ sn n then t else get m n))
    → Recorded m sn t m'
recorded m m' sn t v s r up low f = record {
  valid = v;
  short = s;
  here = get_in m' sn r ∙ ground (arith, f sn r);
  others = λ n ne l. elim (Bool-cases (ltb_ℤ n m'.begin_sequence_number)) [
    | inl e ↦ get_out m' n (λ i. ground arith) ∙ sym (get_out m n (low n (ground arith) l))
    | inr e ↦ elim (Bool-cases (ltb_ℤ n m'.end_sequence_number)) [
      | inl k ↦
          let i : InRange m' n = (ground arith, ground arith) in
          let z : eqb_ℤ sn n ≡ false = ground (arith, eqb_ℤ_iff sn n) in
          get_in m' n i ∙ rw z at (f n i)
      | inr k ↦ get_out m' n (λ i. ground arith) ∙ sym (get_out m n (λ i. ground arith))
    ]
  ];
}

-- the packet is inside the range
pub write-Recorded :
    (m : PacketArrivalTimeMap) (sn t : ℤ)
    → IsValid m
    → Short m
    → InRange m sn
    → Recorded m sn t (write t sn m)
unfolding write
write-Recorded m sn t v s r =
    let b = m.begin_sequence_number in
    let e = m.end_sequence_number in
    let w : Within b (capacity m) sn = (r.0, omega (arith, r.1, v.fits)) in
    let q = write-at m b (capacity m) b e t sn (refl, refl, refl) w in
    recorded m (write t sn m) sn t
      (record {
        power = subst IsCapacity (sym q.0.0) v.power;
        ordered = v.ordered;
        fits = subst (λ (c : ℕ). e ≤ℤ b +ℤ pos c) (sym q.0.0) v.fits;
      })
      s r (omega arith) (λ n h l i. omega arith)
      (λ n i.
        q.1 n (i.0, omega (arith, i.1, v.fits))
        ∙ ap (λ (z : ℤ). if eqb_ℤ sn n then t else z) (sym (get_in m n i)))
