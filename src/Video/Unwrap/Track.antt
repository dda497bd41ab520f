-- ===== src/Video/Unwrap/Track.antt =====
-- An unwrapper follows a stream that moves less than half the range at a time.
use interceptor.Common.{ℕ, ◌+◌, ◌<◌, ◌≡◌, refl, ap, true, List, [], ◌∷◌, map, arith}
use interceptor.Common.Int.{ℤ, pos, ◌+ℤ◌, ◌-ℤ◌, ◌<ℤ◌, emod}
use interceptor.Video.Unwrap.{
  WrapUnwrapper, new, wrap_diff, unwrap_sequence, unwrap_picture_id, unwrap_tl0_pic_idx, Counter,
  sequence, picture_id, tl0_pic_idx, half_range, wire, unwrap_as, unwrap_run,
}

abbrev pub Near : ℕ → ℤ → ℤ → Type 0
Near half x y = (x <ℤ y +ℤ pos half) × (y <ℤ x +ℤ pos half)

-- Each number is less than `half` away from the one before it.
abbrev pub Steady : ℕ → ℤ → List ℤ → Type 0
Steady half x [] = Unit
Steady half x (y ∷ ys) = Near half x y × Steady half y ys

next_sequence : (x y : ℤ) → Near 32768 y x → y +ℤ wrap_diff 65536 32768 y (emod x 65536) ≡ x
unfolding ◌+ℤ◌ ◌-ℤ◌
next_sequence x y n = ground arith

next_picture_id : (x y : ℤ) → Near 16384 y x → y +ℤ wrap_diff 32768 16384 y (emod x 32768) ≡ x
unfolding ◌+ℤ◌ ◌-ℤ◌
next_picture_id x y n = ground arith

next_tl0_pic_idx : (x y : ℤ) → Near 128 y x → y +ℤ wrap_diff 256 128 y (emod x 256) ≡ x
unfolding ◌+ℤ◌ ◌-ℤ◌
next_tl0_pic_idx x y n = ground arith

-- One call on the unwrapper that stands at `y`.
pub unwrap_as-step :
    (c : Counter) (x y : ℤ)
    → Near (half_range c) y x
    → unwrap_as c (record { last_unwrapped = y; initialized = true }) (wire c x)
      ≡ (x, record { last_unwrapped = x; initialized = true })
unfolding unwrap_sequence unwrap_picture_id unwrap_tl0_pic_idx
unwrap_as-step sequence x y n = rw (next_sequence x y n) refl
unwrap_as-step picture_id x y n = ground (arith, next_picture_id x y n)
unwrap_as-step tl0_pic_idx x y n = ground (arith, next_tl0_pic_idx x y n)

unwrap_run-from :
    (c : Counter) (xs : List ℤ) (y : ℤ)
    → Steady (half_range c) y xs
    → unwrap_run c (record { last_unwrapped = y; initialized = true }) (map (wire c) xs) ≡ xs
unfolding unwrap_run
unwrap_run-from c [] y s = refl
unwrap_run-from c (x ∷ xs) y (n, s) =
    rw (unwrap_as-step c x y n) (ap (λ r. x ∷ r) (unwrap_run-from c xs x s))

pub unwrap_as-first :
    (c : Counter) (n : ℕ)
    → n < half_range c + half_range c
    → unwrap_as c new (wire c (pos n))
      ≡ (pos n, record { last_unwrapped = pos n; initialized = true })
unfolding unwrap_sequence unwrap_picture_id unwrap_tl0_pic_idx
unwrap_as-first sequence n h = ground arith
unwrap_as-first picture_id n h = ground arith
unwrap_as-first tl0_pic_idx n h = ground arith

-- Each of the three unwrappers (16 bits for sequence numbers, 15 for picture ids, 8 for the counter
-- of base layers), when new, gives back every number of a stream from what the headers carry of it,
-- if the stream begins inside the range and each number is less than half the range away from the
-- one before it.
pub unwrap_run-wire :
    (c : Counter) (n : ℕ) (xs : List ℤ)
    → n < half_range c + half_range c
    → Steady (half_range c) (pos n) xs
    → unwrap_run c new (map (wire c) (pos n ∷ xs)) ≡ pos n ∷ xs
unfolding unwrap_run
unwrap_run-wire c n xs h s =
    rw (unwrap_as-first c n h) (ap (λ r. pos n ∷ r) (unwrap_run-from c xs (pos n) s))

-- An unwrapper of picture ids that stands at a small id goes below 0 on an id that is more than 16384
-- larger: it takes the id for the one 32768 below it, which is negative; so 32000 right after 0 is
-- read as -768.
pub unwrap_picture_id-negative :
    (last i : ℕ) (u : WrapUnwrapper)
    → u.initialized ≡ true
    → u.last_unwrapped ≡ pos last
    → i < 32768
    → last + 16384 < i
    → ((unwrap_picture_id u (pos i)).0 ≡ pos i -ℤ pos 32768)
      × ((unwrap_picture_id u (pos i)).0 <ℤ pos 0)
unfolding unwrap_picture_id ◌+ℤ◌ ◌-ℤ◌
unwrap_picture_id-negative last i u a b h k = (rw (a, b) (ground arith), rw (a, b) (ground arith))
