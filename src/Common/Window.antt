-- ===== src/Common/Window.antt =====
-- Signed numbers on a ring: two that are less than the size of the ring apart have different places.
use native.Mathlib.Nat.{mod-lt, mod-eq_of_lt, mod-add-mod, mod-eq-sub-mod}
use interceptor.Common.{ℕ, ◌+◌, ◌-◌, ap, sym, ◌∙◌, ◌%◌, ◌≤◌, ◌<◌, ◌≡◌, ◌≢◌, arith}
use interceptor.Common.Int.{ℤ, pos, negsuc, ◌+ℤ◌, ◌<ℤ◌, emod}

shift-ne : (r d c : ℕ) → r < c → 0 < d → d < c → (r + d) % c ≢ r
shift-ne r d c h p k e = ground (
  arith,
  λ (l : r + d < c). mod-eq_of_lt l,
  λ (l : c ≤ r + d). mod-eq-sub-mod l,
  λ (l : r + d - c < c). mod-eq_of_lt l,
)

mod_ne : (a b c : ℕ) → a < b → b < a + c → a % c ≢ b % c
mod_ne a b c h k e =
    let d : a + (b - a) ≡ b = omega arith in
    let m : (a % c + (b - a)) % c ≡ b % c = mod-add-mod a c (b - a) ∙ ap (λ (n : ℕ). n % c) d in
    shift-ne (a % c) (b - a) c (mod-lt a (omega arith)) (omega arith) (omega arith) (m ∙ sym e)

pub emod-ne : (a b : ℤ) (c : ℕ) → a <ℤ b → b <ℤ a +ℤ pos c → emod a c ≢ emod b c
unfolding ◌+ℤ◌
emod-ne (pos a) (pos b) c h k e = mod_ne a b c (omega arith) (ground arith) e
emod-ne (negsuc a) (pos b) c h k e =
    let l : a + b + 1 < c = ground arith in
    ground (
      arith,
      mod-eq_of_lt {n = a} {m = c} (omega arith),
      mod-eq_of_lt {n = b} {m = c} (omega arith),
    )
emod-ne (pos a) (negsuc b) c h k e = absurd (omega arith)
emod-ne (negsuc a) (negsuc b) c h k e =
    let l : a < b + c = ground arith in
    let z : 0 < c = omega arith in
    mod_ne b a c (omega arith) l (ground (arith, mod-lt a z, mod-lt b z))

pub emod-lt : (a : ℤ) (c : ℕ) → 0 < c → emod a c < c
emod-lt (pos a) c h = mod-lt a h
emod-lt (negsuc a) c h = omega arith
