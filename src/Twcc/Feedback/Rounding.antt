-- ===== src/Twcc/Feedback/Rounding.antt =====
-- The rounding of times to ticks: to the nearest one, of either sign.
use native.Mathlib.Nat.{div-add-mod, mod-lt, zero-mul}
use interceptor.Common.{ℕ, zero, suc, ap, ◌+◌, ◌-◌, ◌*◌, ◌/◌, ◌≤◌, ◌<◌, ◌≡◌, arith}
use interceptor.Common.Int.{ℤ, pos, negsuc, pos_part, neg_part, sub_ℕ, ◌+ℤ◌, ◌-ℤ◌, mul_ℕ}
use interceptor.Twcc.Feedback.{to_ticks}

-- `a` and `b` are at most `h` apart.
abbrev pub Near : ℕ → ℤ → ℤ → Type 0
Near h a b =
    (pos_part a + neg_part b ≤ pos_part b + neg_part a + h)
    × (pos_part b + neg_part a ≤ pos_part a + neg_part b + h)

mul-sub_ℕ : (q n : ℕ) → mul_ℕ (sub_ℕ 0 q) n ≡ sub_ℕ 0 (q * n)
mul-sub_ℕ zero n = ground (arith, zero-mul n)
mul-sub_ℕ (suc q) n = ground arith

ticks_negsuc : (scale a : ℕ) → to_ticks scale (negsuc a) ≡ sub_ℕ 0 ((a + 1 + scale / 2) / scale)
unfolding to_ticks ◌-ℤ◌
ticks_negsuc scale a =
    let e : suc (suc a + scale / 2 - 0 - 1) ≡ a + 1 + scale / 2 = omega arith in
    ground (arith, ap (λ (n : ℕ). sub_ℕ 0 (n / scale)) e)

pub mul-to_ticks-Near :
    (scale : ℕ) (d : ℤ) → 0 < scale → Near (scale / 2) (mul_ℕ (to_ticks scale d) scale) d
unfolding to_ticks ◌+ℤ◌
mul-to_ticks-Near scale (pos a) h =
    ground (arith, div-add-mod (a + scale / 2) scale, mod-lt (a + scale / 2) h)
mul-to_ticks-Near scale (negsuc a) h =
    let n = a + 1 + scale / 2 in
    rw (ticks_negsuc scale a, mul-sub_ℕ (n / scale) scale)
      (ground (arith, div-add-mod n scale, mod-lt n h))
