-- ===== src/SequenceNumber/Track.antt =====
-- Runs of `Unwrap`: what a receiver gets back from the wrapped numbers of a stream.
use interceptor.Common.{
  ℕ, ◌+◌, ◌-◌, ◌*◌, ◌^◌, ◌%◌, ◌≤◌, ◌<◌, ◌≡◌, refl, ap, ap₂, ◌∙◌, List, [], ◌∷◌, map, true, arith,
  length,
}
use interceptor.Common.Int.{ℤ, pos, pos_part, ◌≤ℤ◌}
use interceptor.SequenceNumber.{Unwrapper, new, unwrap, unwrap_all}
use interceptor.SequenceNumber.Nearest.{
  IsValid, abs_diff, unwrap_congruent, unwrap-eq_of_near, unwrap_growth,
}

-- Each number lies less than half the 16-bit range from the one before it, in either direction.
abbrev pub Near : ℕ → List ℕ → Type 0
Near last [] = Unit
Near last (x ∷ xs) = (abs_diff x last < 32768) × Near x xs

abbrev wrap : List ℕ → List ℕ
wrap = map (λ x. x % 65536)

unwrap_all-wrap_from :
    (xs : List ℕ) (u : Unwrapper)
    → IsValid u
    → u.init ≡ true
    → Near (pos_part u.last_unwrapped) xs
    → unwrap_all u (wrap xs) ≡ map pos xs
unfolding unwrap_all
unwrap_all-wrap_from [] u v s near = refl
unwrap_all-wrap_from (x ∷ xs) u v s near =
    let e = unwrap-eq_of_near u x v s near.0 in
    let (_, nn, kept, started) = unwrap_congruent u (x % 65536) v (omega arith) in
    let last : pos_part (unwrap u (x % 65536)).1.last_unwrapped ≡ x = ap pos_part (kept ∙ e) in
    ap₂ ◌∷◌ e
      (unwrap_all-wrap_from xs (unwrap u (x % 65536)).1 (rw kept nn) started (rw last near.1))

-- A new unwrapper gives back every number of a stream from the stream's 16-bit numbers, if the
-- stream begins below 65536 and each number is less than 32768 away from the one before it.
pub unwrap_all-wrap :
    (x : ℕ) (xs : List ℕ)
    → x < 65536
    → Near x xs
    → unwrap_all new (map (λ n. n % 65536) (x ∷ xs)) ≡ map pos (x ∷ xs)
unfolding unwrap_all unwrap
unwrap_all-wrap x xs h near =
    let e : x % 65536 ≡ x = omega arith in
    rw e (
      ap (◌∷◌ (pos x)) (
        unwrap_all-wrap_from xs (record { init = true; last_unwrapped = pos x }) (omega arith) refl
          near))

-- The numbers that a run returns, each at least 0 and at most `bound`.
abbrev pub AllWithin : ℕ → List ℤ → Type 0
AllWithin bound [] = Unit
AllWithin bound (n ∷ ns) = (pos 0 ≤ℤ n) × (pos_part n ≤ bound) × AllWithin bound ns

-- 16-bit inputs
abbrev pub All16 : List ℕ → Type 0
All16 [] = Unit
All16 (i ∷ is) = (i < 65536) × All16 is

unwrap_all_bounded_from :
    (is : List ℕ) (u : Unwrapper) (m b : ℕ)
    → IsValid u
    → All16 is
    → pos_part u.last_unwrapped ≤ m
    → m + 65536 * length is ≤ b
    → AllWithin b (unwrap_all u is)
unfolding unwrap_all
unwrap_all_bounded_from [] u m b v all h hb = tt
unwrap_all_bounded_from (i ∷ is) u m b v all h hb =
    let (_, nn, kept, started) = unwrap_congruent u i v all.0 in
    let g = unwrap_growth u i v all.0 in
    (
      nn,
      omega arith,
      unwrap_all_bounded_from is (unwrap u i).1 (m + 65535) b (rw kept nn) all.1
          (rw kept (omega arith)) (omega arith),
    )

-- No number that a new unwrapper returns is negative, and in a run of fewer than 2 ^ 47 calls on
-- 16-bit numbers none passes the largest int64, so the int64 sums of `Unwrap` do not overflow.
pub unwrap_all_fits :
    (is : List ℕ) → All16 is → length is < 2 ^ 47 → AllWithin (2 ^ 63 - 1) (unwrap_all new is)
unwrap_all_fits is all h =
    unwrap_all_bounded_from is new 0 (2 ^ 63 - 1) (omega arith) all (omega arith) (omega arith)
