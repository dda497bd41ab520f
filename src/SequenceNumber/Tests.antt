-- ===== src/SequenceNumber/Tests.antt =====
use interceptor.Common.{◌-◌, ◌%◌, ◌^◌, ◌≤◌, ◌≡◌, refl, true, [], ◌∷◌, map, arith}
use interceptor.Common.Int.{pos, pos_part, ◌≤ℤ◌, emod}
use interceptor.SequenceNumber.{Unwrapper, new, unwrap, unwrap_all}
use interceptor.SequenceNumber.Nearest.{abs_diff, unwrap_congruent, unwrap_nearest}
use interceptor.SequenceNumber.Track.{AllWithin, unwrap_all-wrap, unwrap_all_fits}

-- one step before the wrap
abbrev late : Unwrapper
late = record { init = true; last_unwrapped = pos 65535 }

-- the runs of unwrapper_test.go: forwards over the wrap, back over it, and no step below 0
runs :
    (unwrap_all new (65534 ∷ 65535 ∷ 0 ∷ 1 ∷ 65535 ∷ 2 ∷ [])
      ≡ pos 65534 ∷ pos 65535 ∷ pos 65536 ∷ pos 65537 ∷ pos 65535 ∷ pos 65538 ∷ [])
    × (unwrap_all new (0 ∷ 65535 ∷ []) ≡ pos 0 ∷ pos 65535 ∷ [])
unfolding unwrap_all unwrap
runs = (refl, refl)

unwrap_congruent_example :
    (emod (unwrap late 3).0 65536 ≡ 3)
    × (pos 0 ≤ℤ (unwrap late 3).0)
    × ((unwrap late 3).1.last_unwrapped ≡ (unwrap late 3).0)
    × ((unwrap late 3).1.init ≡ true)
unwrap_congruent_example = unwrap_congruent late 3 (omega arith) (omega arith)

unwrap_nearest_example : abs_diff (pos_part (unwrap late 3).0) 65535 ≤ abs_diff 3 65535
unwrap_nearest_example = unwrap_nearest late 3 3 (omega arith) refl (omega arith) refl

unwrap_all-wrap_example :
    unwrap_all new (map (λ n. n % 65536) (65000 ∷ 70000 ∷ 69000 ∷ []))
    ≡ map pos (65000 ∷ 70000 ∷ 69000 ∷ [])
unwrap_all-wrap_example = unwrap_all-wrap 65000 (70000 ∷ 69000 ∷ []) (omega arith) (omega arith)

unwrap_all_fits_example : AllWithin (2 ^ 63 - 1) (unwrap_all new (65535 ∷ 0 ∷ []))
unwrap_all_fits_example = unwrap_all_fits (65535 ∷ 0 ∷ []) (omega arith) (omega arith)
