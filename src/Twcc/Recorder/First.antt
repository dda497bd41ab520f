-- ===== src/Twcc/Recorder/First.antt =====
-- The packet that a received packet begins: its time always fits, and it spans fewer than 65536 numbers.
use native.Mathlib.Nat.{div-add-mod, mul-le-mul_left}
use interceptor.Common.{
  ℕ, ◌+◌, ◌-◌, ◌*◌, ◌/◌, ◌≤◌, ◌<◌, ◌≡◌, refl, sym, ap, ◌∙◌, inl, inr, true, false, ◌||◌, some,
  arith, Bool-cases, if_elim, ltb,
}
use interceptor.Common.Int.{
  ℤ, pos, pos_part, neg_part, sub_ℕ, ◌+ℤ◌, ◌-ℤ◌, ◌≤ℤ◌, ◌<ℤ◌, ltb_ℤ, +ℤ_parts, -ℤ_parts, eq_of_parts,
}
use interceptor.Twcc.Feedback
use interceptor.Twcc.Feedback.{Feedback, set_base, add_received, skip_to, receive, to_ticks}
use interceptor.Twcc.Recorder.{max_ℤ}

-- `a` is less than 64 ms.
refuses :
    (q : ℕ) → (ltb_ℤ (pos q) (sub_ℕ 0 32768) || ltb_ℤ (pos 32767) (pos q)) ≡ true → q ≤ 32767 → ⊥
refuses q e l = ground arith

ticks_small : (scale a : ℕ) → 2 ≤ scale → a < 64000 → (a + scale / 2) / scale ≤ 32767
ticks_small scale a h l = elim (Bool-cases (ltb 32767 ((a + scale / 2) / scale))) [
  | inr e ↦ ground arith
  | inl e ↦
      let q : 32768 ≤ (a + scale / 2) / scale = ground arith in
      let m = mul-le-mul_left {m = 32768} {n = (a + scale / 2) / scale} scale q in
      absurd (omega (arith, m, div-add-mod (a + scale / 2) scale, h, l))
]

accepts :
    (scale : ℕ) (f : Feedback) (seq q : ℕ) (t : ℤ)
    → to_ticks scale (t -ℤ f.last_timestamp_us) ≡ pos q
    → q ≤ 32767
    → (g : Feedback) × (add_received scale f seq t ≡ some g)
unfolding add_received
accepts scale f seq q t e l =
    let a : ltb 32767 q ≡ false = ground arith in
    (
      receive scale (skip_to f seq) (to_ticks scale (t -ℤ f.last_timestamp_us)),
      if_elim
          (λ o.
            o ≡ some (receive scale (skip_to f seq) (to_ticks scale (t -ℤ f.last_timestamp_us))))
          _ _ _
          (λ r. absurd (
            refuses q (ap (λ (z : ℤ). ltb_ℤ z (sub_ℕ 0 32768) || ltb_ℤ (pos 32767) z) (sym e) ∙ r)
              l))
          (λ r. refl),
    )

ticks_pos : (scale a : ℕ) → to_ticks scale (pos a) ≡ pos ((a + scale / 2) / scale)
unfolding to_ticks ◌+ℤ◌
ticks_pos scale a =
    let e : a + scale / 2 - 0 ≡ a + scale / 2 = omega arith in
    ground (arith, ap (λ (n : ℕ). pos (n / scale)) e)

ticks_from :
    (scale a b : ℕ) → b ≤ a → to_ticks scale (pos a -ℤ pos b) ≡ pos ((a - b + scale / 2) / scale)
unfolding ◌-ℤ◌
ticks_from scale a b h =
    let s : pos a -ℤ pos b ≡ pos (a - b) = ground arith in
    ap (to_ticks scale) s ∙ ticks_pos scale (a - b)

pub add_received_accepts :
    (scale sender media count base seq τ : ℕ)
    → 2 ≤ scale
    → (g : Feedback) × (add_received scale
          (set_base (Feedback.new sender media count) base (pos τ))
          seq
          (pos τ)
        ≡ some g)
unfolding set_base Feedback.new
add_received_accepts scale sender media count base seq τ h =
    accepts scale (set_base (Feedback.new sender media count) base (pos τ)) seq _ (pos τ)
      (ticks_from scale τ (τ / 64000 * 64000) (omega arith))
      (ticks_small scale (τ - τ / 64000 * 64000) h (omega arith))

-- The base of a packet that begins at `sn`: `begin`, or 32766 numbers before `sn`.
pub base_near :
    (begin sn end : ℤ)
    → begin ≤ℤ sn
    → end ≤ℤ sn +ℤ pos 32768
    → (max_ℤ begin (sn -ℤ pos 32766) ≤ℤ sn)
      × (sn <ℤ max_ℤ begin (sn -ℤ pos 32766) +ℤ pos 32767)
      × (end <ℤ max_ℤ begin (sn -ℤ pos 32766) +ℤ pos 65536)
base_near begin sn end h l =
    if_elim (λ b. (b ≤ℤ sn) × (sn <ℤ b +ℤ pos 32767) × (end <ℤ b +ℤ pos 65536))
      (ltb_ℤ begin (sn -ℤ pos 32766)) (sn -ℤ pos 32766) begin
      (λ g. omega (
        arith,
        h,
        l,
        -ℤ_parts sn (pos 32766),
        +ℤ_parts (sn -ℤ pos 32766) (pos 32767),
        +ℤ_parts (sn -ℤ pos 32766) (pos 65536),
        +ℤ_parts sn (pos 32768),
      ))
      (λ g.
        let k : sn -ℤ pos 32766 ≤ℤ begin = ground arith in
        omega (
          arith,
          h,
          l,
          k,
          -ℤ_parts sn (pos 32766),
          +ℤ_parts begin (pos 32767),
          +ℤ_parts begin (pos 65536),
          +ℤ_parts sn (pos 32768),
        ))

-- the distance as a number
pub distance : (a b : ℤ) → a ≤ℤ b → (d : ℕ) × (a +ℤ pos d ≡ b)
distance a b h = (
  pos_part b + neg_part a - (pos_part a + neg_part b),
  eq_of_parts _ _
      (omega (arith, h, +ℤ_parts a (pos (pos_part b + neg_part a - (pos_part a + neg_part b))))),
)
