-- ===== src/Video/Unwrap/Tests.antt =====
-- Picture ids past the end of their 15 bits.
use interceptor.Common.{◌≡◌, refl, [], ◌∷◌, map, arith, true}
use interceptor.Common.Int.{pos, ◌+ℤ◌, ◌-ℤ◌, ◌<ℤ◌}
use interceptor.Video.Unwrap.{
  new, picture_id, sequence, wire, unwrap_run, unwrap_sequence, unwrap_picture_id,
}
use interceptor.Video.Unwrap.Track.{unwrap_run-wire, unwrap_picture_id-negative}

wraps_back :
    unwrap_run sequence new (65535 ∷ 2 ∷ 65534 ∷ []) ≡ pos 65535 ∷ pos 65538 ∷ pos 65534 ∷ []
unfolding unwrap_run unwrap_sequence ◌+ℤ◌ ◌-ℤ◌
wraps_back = refl

unwrap_run-wire_example :
    unwrap_run picture_id new (map (wire picture_id) (pos 32766 ∷ pos 32769 ∷ pos 32767 ∷ []))
    ≡ pos 32766 ∷ pos 32769 ∷ pos 32767 ∷ []
unwrap_run-wire_example =
    unwrap_run-wire picture_id 32766 (pos 32769 ∷ pos 32767 ∷ []) (omega arith)
      (unfold ◌+ℤ◌ in ((omega arith, omega arith), ((omega arith, omega arith), tt)))

unwrap_picture_id-negative_example :
    ((unwrap_picture_id (record { last_unwrapped = pos 0; initialized = true }) (pos 32000)).0
      ≡ pos 32000 -ℤ pos 32768)
    × ((unwrap_picture_id (record { last_unwrapped = pos 0; initialized = true }) (pos 32000)).0
        <ℤ pos 0)
unwrap_picture_id-negative_example =
    unwrap_picture_id-negative 0 32000 (record { last_unwrapped = pos 0; initialized = true }) refl
      refl (omega arith) (omega arith)
