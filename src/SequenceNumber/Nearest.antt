-- ===== src/SequenceNumber/Nearest.antt =====
-- What one call of `Unwrap` returns.
use interceptor.Common.{ℕ, ◌+◌, ◌-◌, ◌%◌, ◌≤◌, ◌<◌, ◌≡◌, ◌⊎◌, true, arith, if◌then◌else◌, leb}
use interceptor.Common.Int.{ℤ, pos, negsuc, pos_part, ◌≤ℤ◌, emod}
use interceptor.SequenceNumber.{Unwrapper, unwrap}

-- Between two calls the last number is not negative.
abbrev pub IsValid : Unwrapper → Type 0
IsValid u = pos 0 ≤ℤ u.last_unwrapped

abbrev pub abs_diff : ℕ → ℕ → ℕ
abs_diff a b = if leb a b then b - a else a - b

-- From a state whose last number is not negative, `Unwrap` of a 16-bit number returns a number that
-- is not negative and has that number for its lower 16 bits, and stores it as the last one.
pub unwrap_congruent :
    (u : Unwrapper) (i : ℕ)
    → IsValid u
    → i < 65536
    → let (n, u') = unwrap u i in
      (emod n 65536 ≡ i) × (pos 0 ≤ℤ n) × (u'.last_unwrapped ≡ n) × (u'.init ≡ true)
unfolding unwrap
unwrap_congruent u i v h = ground arith

-- The step is at most half the range, or the number is still below 65536 and the step is upwards.
unwrap_close :
    (u : Unwrapper) (i : ℕ)
    → IsValid u
    → u.init ≡ true
    → i < 65536
    → let n = pos_part (unwrap u i).0 in
      let last = pos_part u.last_unwrapped in (abs_diff n last ≤ 32768) ⊎ ((n < 65536) × (last ≤ n))
unfolding unwrap
unwrap_close u i v s h = ground arith

pos_emod : (n : ℤ) {i : ℕ} → pos 0 ≤ℤ n → emod n 65536 ≡ i → pos_part n % 65536 ≡ i
pos_emod (pos n) p e = e
pos_emod (negsuc n) p e = absurd (omega arith)

nearest_of_close :
    (last n i x : ℕ)
    → x % 65536 ≡ i
    → n % 65536 ≡ i
    → (abs_diff n last ≤ 32768) ⊎ ((n < 65536) × (last ≤ n))
    → abs_diff n last ≤ abs_diff x last
nearest_of_close last n i x e f c = ground arith

-- Once started, `Unwrap` returns the nearest to the last number among all the numbers from 0 on that
-- have the given 16 bits for their lower ones: no other such number is closer.
pub unwrap_nearest :
    (u : Unwrapper) (i x : ℕ)
    → IsValid u
    → u.init ≡ true
    → i < 65536
    → x % 65536 ≡ i
    → abs_diff (pos_part (unwrap u i).0) (pos_part u.last_unwrapped)
      ≤ abs_diff x (pos_part u.last_unwrapped)
unwrap_nearest u i x v s h e =
    nearest_of_close (pos_part u.last_unwrapped) (pos_part (unwrap u i).0) i x e
      (pos_emod (unwrap u i).0 (unwrap_congruent u i v h).1 (unwrap_congruent u i v h).0)
      (unwrap_close u i v s h)

-- A number less than half the range away from the last one is recovered from its lower 16 bits.
pub unwrap-eq_of_near :
    (u : Unwrapper) (x : ℕ)
    → IsValid u
    → u.init ≡ true
    → abs_diff x (pos_part u.last_unwrapped) < 32768
    → (unwrap u (x % 65536)).0 ≡ pos x
unfolding unwrap
unwrap-eq_of_near u x v s h = ground arith

-- One call moves the last number up by less than 65536.
pub unwrap_growth :
    (u : Unwrapper) (i : ℕ)
    → IsValid u
    → i < 65536
    → pos_part (unwrap u i).0 ≤ pos_part u.last_unwrapped + 65535
unfolding unwrap
unwrap_growth u i v h = ground arith
