-- ===== src/Common/Bits.antt =====
-- uint64 bit masks: `w | 1 << k`, `w &^ (1 << k)` and `w & (1 << k)`, and a slice of such words
-- used as a set of bit positions.
mod Step
use Step.{bit_or_step, bit_and_step}
use Prim.Native.Nat.{
  ℕ, zero, suc, ◌+◌, ◌-◌, ◌*◌, ◌/◌, ◌%◌, ◌^◌, ◌≤◌, ◌<◌, bit_and, bit_or, bit_and-bitwise,
}
use mathlib.Core.Path.{◌≡◌, refl, ap}
use mathlib.Core.Bool.{Bool, true, false, not}
use mathlib.Core.List.{List}
use native.Mathlib.Nat.{pow-suc, one-le-pow}
use native.Mathlib.Omega.{arith}
use interceptor.Common.Tests.{◌==◌, if◌then◌else◌}
use interceptor.Common.Lists.{
  length, length-set, replicate, get_or-replicate, get_or, set, get_or-set_self, get_or-set_ne,
}

-- The binary digit at position `k`.
bit : ℕ → ℕ → ℕ
bit w zero = w % 2
bit w (suc k) = bit (w / 2) k

bit-le-one : (w k : ℕ) → bit w k ≤ 1
unfolding bit
bit-le-one w zero = omega arith
bit-le-one w (suc k) = bit-le-one (w / 2) k

bit_and-zero : (n w : ℕ) → w ≤ n → bit_and w 0 ≡ 0
bit_and-zero n zero h = refl
bit_and-zero zero (suc w) h = absurd (omega arith)
bit_and-zero (suc n) (suc w) h =
    omega (arith, bit_and_step (suc w) 0, bit_and-zero n (suc w / 2) (omega arith))

bit_or-zero : (n w : ℕ) → w ≤ n → bit_or w 0 ≡ w
bit_or-zero n zero h = refl
bit_or-zero zero (suc w) h = absurd (omega arith)
bit_or-zero (suc n) (suc w) h =
    omega (arith, bit_or_step (suc w) 0, bit_or-zero n (suc w / 2) (omega arith))

bit_and-pow : (w k : ℕ) → bit_and w (2 ^ k) ≡ bit w k * 2 ^ k
unfolding bit
bit_and-pow w zero = omega (arith, bit_and_step w 1, bit_and-zero (w / 2) (w / 2) (omega arith))
bit_and-pow w (suc k) = ground (
  arith,
  pow-suc 2 k,
  bit_and_step w (2 ^ suc k),
  bit_and-pow (w / 2) k,
  ap (λ (t : ℕ). bit (w / 2) k * t) (pow-suc 2 k),
)

bit-mul-le : (w k : ℕ) → bit w k * 2 ^ k ≤ w
unfolding bit
bit-mul-le w zero = omega arith
bit-mul-le w (suc k) =
    omega (arith, bit-mul-le (w / 2) k, ap (λ (t : ℕ). bit (w / 2) k * t) (pow-suc 2 k))

bit-bit_or : (w k j : ℕ) → bit (bit_or w (2 ^ k)) j ≡ (if k == j then 1 else bit w j)
unfolding bit
bit-bit_or w zero zero = omega (arith, bit_or_step w 1, bit-le-one w 0)
bit-bit_or w zero (suc j) =
    let e : bit_or w 1 / 2 ≡ w / 2 =
      omega (arith, bit_or_step w 1, bit_or-zero (w / 2) (w / 2) (omega arith)) in
    ground (arith, ap (λ (t : ℕ). bit t j) e)
bit-bit_or w (suc k) zero = ground (arith, bit_or_step w (2 ^ suc k), pow-suc 2 k)
bit-bit_or w (suc k) (suc j) =
    ground (arith, pow-suc 2 k, bit_or_step w (2 ^ suc k), bit-bit_or (w / 2) k j)

-- Taking the digit away, digit by digit.
bit-sub : (w k j : ℕ) → bit (w - bit w k * 2 ^ k) j ≡ (if k == j then 0 else bit w j)
unfolding bit
bit-sub w zero zero = omega arith
bit-sub w zero (suc j) =
    let e : (w - w % 2 * 1) / 2 ≡ w / 2 = omega arith in ground (arith, ap (λ (t : ℕ). bit t j) e)
bit-sub w (suc k) zero =
    ground (arith, bit-mul-le (w / 2) k, ap (λ (t : ℕ). bit (w / 2) k * t) (pow-suc 2 k))
bit-sub w (suc k) (suc j) =
    let p : bit (w / 2) k * 2 ^ suc k ≡ bit (w / 2) k * 2 ^ k * 2 =
      omega (arith, ap (λ (t : ℕ). bit (w / 2) k * t) (pow-suc 2 k)) in
    let e : (w - bit (w / 2) k * 2 ^ suc k) / 2 ≡ w / 2 - bit (w / 2) k * 2 ^ k =
      omega (arith, p, bit-mul-le (w / 2) k) in
    ground (arith, ap (λ (t : ℕ). bit t j) e, bit-sub (w / 2) k j)

-- `w | 1 << k`, `w &^ (1 << k)`, and `w & (1 << k) != 0`.
unfoldable pub set_bit : ℕ → ℕ → ℕ
set_bit w k = bit_or w (2 ^ k)

unfoldable pub clear_bit : ℕ → ℕ → ℕ
clear_bit w k = w - bit_and w (2 ^ k)

unfoldable pub test_bit : ℕ → ℕ → Bool
test_bit w k = not (bit_and w (2 ^ k) == 0)

test_bit-bit : (w k : ℕ) → test_bit w k ≡ (bit w k == 1)
unfolding test_bit
test_bit-bit w k =
    let p : 0 < 2 ^ k = one-le-pow k 2 (omega arith) in
    ground (arith, bit_and-pow w k, bit-le-one w k, p)

pub test_bit-set_bit :
    (w k j : ℕ) → test_bit (set_bit w k) j ≡ (if k == j then true else test_bit w j)
unfolding set_bit
test_bit-set_bit w k j =
    ground (arith, test_bit-bit w j, test_bit-bit (bit_or w (2 ^ k)) j, bit-bit_or w k j)

pub test_bit-clear_bit :
    (w k j : ℕ) → test_bit (clear_bit w k) j ≡ (if k == j then false else test_bit w j)
unfolding clear_bit
test_bit-clear_bit w k j = ground (
  arith,
  bit_and-pow w k,
  test_bit-bit w j,
  test_bit-bit (w - bit_and w (2 ^ k)) j,
  bit-sub w k j,
)

-- A slice of 64-bit words as a bit set: position `p` is bit `p % 64` of word `p / 64`.
unfoldable pub set_pos : List ℕ → ℕ → List ℕ
set_pos ws p = set ws (p / 64) (set_bit (get_or ws (p / 64) 0) (p % 64))

unfoldable pub clear_pos : List ℕ → ℕ → List ℕ
clear_pos ws p = set ws (p / 64) (clear_bit (get_or ws (p / 64) 0) (p % 64))

unfoldable pub test_pos : List ℕ → ℕ → Bool
test_pos ws p = test_bit (get_or ws (p / 64) 0) (p % 64)

pub length-set_pos : (ws : List ℕ) (p : ℕ) → length (set_pos ws p) ≡ length ws
unfolding set_pos
length-set_pos ws p = length-set ws (p / 64) _

pub length-clear_pos : (ws : List ℕ) (p : ℕ) → length (clear_pos ws p) ≡ length ws
unfolding clear_pos
length-clear_pos ws p = length-set ws (p / 64) _

get_or-set :
    (ws : List ℕ) (i j v : ℕ)
    → i < length ws
    → get_or (set ws i v) j 0 ≡ (if i == j then v else get_or ws j 0)
get_or-set ws i j v h = ground (arith, get_or-set_self ws i v 0 h, get_or-set_ne ws i j v 0)

pub test_pos-set_pos :
    (ws : List ℕ) (p q : ℕ)
    → p < 64 * length ws
    → test_pos (set_pos ws p) q ≡ (if p == q then true else test_pos ws q)
unfolding test_pos set_pos
test_pos-set_pos ws p q h = ground (
  arith,
  get_or-set ws (p / 64) (q / 64) (set_bit (get_or ws (p / 64) 0) (p % 64)) (omega arith),
  test_bit-set_bit (get_or ws (p / 64) 0) (p % 64) (q % 64),
)

pub test_pos-clear_pos :
    (ws : List ℕ) (p q : ℕ)
    → p < 64 * length ws
    → test_pos (clear_pos ws p) q ≡ (if p == q then false else test_pos ws q)
unfolding test_pos clear_pos
test_pos-clear_pos ws p q h = ground (
  arith,
  get_or-set ws (p / 64) (q / 64) (clear_bit (get_or ws (p / 64) 0) (p % 64)) (omega arith),
  test_bit-clear_bit (get_or ws (p / 64) 0) (p % 64) (q % 64),
)

zero-bit_and : (b : ℕ) → bit_and 0 b ≡ 0
zero-bit_and b = bit_and-bitwise 0 b

pub test_pos-zero : (n q : ℕ) → test_pos (replicate n 0) q ≡ false
unfolding test_pos test_bit
test_pos-zero n q = rw (get_or-replicate {A = ℕ} n (q / 64) 0, zero-bit_and (2 ^ (q % 64)))

pub test_bit-zero : (k : ℕ) → test_bit 0 k ≡ false
unfolding test_bit
test_bit-zero k = rw (zero-bit_and (2 ^ k)) refl
