-- ===== src/Common/Range.antt =====
-- Loops over uint16 sequence numbers, `for i := start; i != stop; i++`, and ring sizes that are
-- powers of two.
use Prim.Native.Nat.{ℕ, zero, suc, ◌+◌, ◌%◌, ◌^◌, ◌<◌}
use mathlib.Core.Path.{◌≡◌}
use mathlib.Core.Logic.{◌≢◌}
use mathlib.Core.Bool.{Bool, true, false}
use native.Mathlib.Omega.{arith}
use native.Mathlib.Decide.{ℕ_discrete}
use interceptor.Common.Tests.{◌==◌, if◌then◌else◌}
use interceptor.Common.Word.{sub16, add16}

-- `k` rounds of a loop body from `i` on.
unfoldable pub rounds {ℓ} : {S : Type ℓ} → (ℕ → S → S) → ℕ → ℕ → S → S
rounds f zero i s = s
rounds f (suc k) i s = rounds f k (add16 i 1) (f i s)

-- `for i := start; i != stop; i++ { s = f i s }` runs `stop - start` rounds, as uint16.
unfoldable pub for_range {ℓ} : {S : Type ℓ} → (ℕ → S → S) → ℕ → ℕ → S → S
unfolding rounds
for_range f start stop s = rounds f (sub16 stop start) start s

-- The loop's own equation: leave at `stop`, else run the body and go on.
pub for_range_lem {ℓ} :
    {S : Type ℓ} (f : ℕ → S → S) (i stop : ℕ) (s : S)
    → i < 65536
    → stop < 65536
    → for_range f i stop s ≡ (if i == stop then s else for_range f (add16 i 1) stop (f i s))
unfolding for_range
for_range_lem f i stop s h k = elim (ℕ_discrete i stop) [
  | yes e ↦
      let z : sub16 stop i ≡ 0 = omega arith in
      let t : (i == stop) ≡ true = ground arith in rw (z, t)
  | no e ↦
      let z : sub16 stop i ≡ suc (sub16 stop (add16 i 1)) = omega arith in
      let t : (i == stop) ≡ false = ground arith in rw (z, t)
]

-- The invariant rule: `P i s` holds before the round at `i`.
pub rounds_inv {ℓ κ} :
    {S : Type ℓ} (P : ℕ → S → Type κ) (f : ℕ → S → S)
    → ((i : ℕ) (s : S) → i < 65536 → P i s → P (add16 i 1) (f i s))
    → (k i : ℕ) (s : S) → i < 65536
    → P i s
    → P ((i + k) % 65536) (rounds f k i s)
unfolding rounds
rounds_inv P f keep zero i s b h = let e : (i + 0) % 65536 ≡ i = omega arith in rw e h
rounds_inv P f keep (suc k) i s b h =
    let e : (i + suc k) % 65536 ≡ (add16 i 1 + k) % 65536 = omega arith in
    rw e (rounds_inv P f keep k (add16 i 1) (f i s) (omega arith) (keep i s b h))

-- `size == 1 << i` for one of `k` values of `i` from `first` on.
unfoldable pub is_power : ℕ → ℕ → ℕ → Bool
is_power zero first size = false
is_power (suc k) first size =
    let rest = is_power k (first + 1) size in if size == 2 ^ first then true else rest

pub is_power-mod_ne :
    (size a b e : ℕ)
    → is_power 16 0 size ≡ true
    → a < 65536
    → b < 65536
    → e < 65536
    → sub16 e a < size
    → sub16 e b < size
    → a ≢ b
    → a % size ≢ b % size
unfolding is_power
is_power-mod_ne size a b e h ha hb he wa wb ne = ground arith
