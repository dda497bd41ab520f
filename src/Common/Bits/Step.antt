-- ===== src/Common/Bits/Step.antt =====
-- The lowest binary digit of `|` and `&`, and the rest of them. The native operations stand for a
-- walk over the digits on fuel; any fuel that is no smaller than the number walks to the same end.
use Prim.Native.Nat.{ℕ, zero, suc, ◌+◌, ◌*◌, ◌/◌, ◌%◌, ◌≤◌, min, max, bit_and, bit_or}
use Prim.Native.Nat.{digits, bitwise, bit_and-bitwise, bit_or-bitwise}
use mathlib.Core.Path.{◌≡◌, refl, sym, ◌∙◌}
use native.Mathlib.Nat.{le_refl}
use native.Mathlib.Omega.{arith}

module _ (rest : ℕ → ℕ) (op : ℕ → ℕ → ℕ) where
  -- `most` bounds the fuel, so that both walks of the step below are shorter.
  settle :
      (most fuel w m : ℕ) → fuel ≤ most → w ≤ fuel → digits rest op fuel w m ≡ bitwise rest op w m
  settle most zero zero m f g = refl
  settle most (suc fuel) zero m f g = refl
  settle most zero (suc w) m f g = absurd (omega arith)
  settle zero (suc fuel) (suc w) m f g = absurd (omega arith)
  settle (suc most) (suc fuel) (suc w) m f g =
      let long = settle most fuel (suc w / 2) (m / 2) (omega arith) (omega arith) in
      let short = settle most w (suc w / 2) (m / 2) (omega arith) (omega arith) in
      rw (long ∙ sym short)

  split :
      (w m : ℕ)
      → bitwise rest op (suc w) m ≡ bitwise rest op (suc w / 2) (m / 2) * 2 + op (suc w % 2) (m % 2)
  split w m = rw (settle w w (suc w / 2) (m / 2) (le_refl w) (omega arith))

-- `w & m` by its lowest digit
pub bit_and_step : (w m : ℕ) → bit_and w m ≡ bit_and (w / 2) (m / 2) * 2 + min (w % 2) (m % 2)
bit_and_step zero m = omega (arith, bit_and-bitwise 0 m, bit_and-bitwise 0 (m / 2))
bit_and_step (suc w) m = simp bit_and-bitwise (split (λ r. 0) min w m)

-- `w | m` by its lowest digit
pub bit_or_step : (w m : ℕ) → bit_or w m ≡ bit_or (w / 2) (m / 2) * 2 + max (w % 2) (m % 2)
bit_or_step zero m = omega (arith, bit_or-bitwise 0 m, bit_or-bitwise 0 (m / 2))
bit_or_step (suc w) m = simp bit_or-bitwise (split (λ r. r) max w m)
