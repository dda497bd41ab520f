-- ===== src/Video/Unwrap.antt =====
-- The wrap-around unwrappers of pkg/videoframe: `sequenceUnwrapper` (receiver_interceptor.go, 16
-- bits), `pictureIDUnwrapper` (frame_id_only_ref_finder.go, 15 bits) and `tl0PicIdxUnwrapper`
-- (vp8_ref_finder.go, 8 bits). They share the correction of a difference that is more than half the
-- range.
pub mod Track
mod Tests
use interceptor.Common.{ℕ, Bool, true, false, List, [], ◌∷◌, if◌then◌else◌}
use interceptor.Common.Int.{ℤ, pos, negsuc, ◌+ℤ◌, ◌-ℤ◌, ltb_ℤ, emod}

pub record WrapUnwrapper : Type 0 where
  pub last_unwrapped : ℤ
  pub initialized : Bool

abbrev pub new : WrapUnwrapper
new = record { last_unwrapped = pos 0; initialized = false }

-- the corrected difference between the new value and the last one, at a range of twice `half`
abbrev pub wrap_diff : ℕ → ℕ → ℤ → ℕ → ℤ
wrap_diff m half last i =
    let diff = pos i -ℤ pos (emod last m) in
    if ltb_ℤ (pos half) diff
    then diff -ℤ pos m
    else if ltb_ℤ diff (pos 0 -ℤ pos half)
    then diff +ℤ pos m
    else diff

abbrev pub unwrap_next : ℕ → ℕ → WrapUnwrapper → ℕ → ℤ × WrapUnwrapper
unwrap_next m half u i =
    if u.initialized
    then (let next = u.last_unwrapped +ℤ wrap_diff m half u.last_unwrapped i in
        (next, record u { last_unwrapped = next }))
    else (pos i, record { last_unwrapped = pos i; initialized = true })

-- `sequenceUnwrapper.unwrap`, of a uint16
unfoldable pub unwrap_sequence : WrapUnwrapper → ℕ → ℤ × WrapUnwrapper
unwrap_sequence u seq = unwrap_next 65536 32768 u seq

-- `pictureIDUnwrapper.Unwrap`, of an int32
unfoldable pub unwrap_picture_id : WrapUnwrapper → ℤ → ℤ × WrapUnwrapper
unwrap_picture_id u picture_id =
    if ltb_ℤ picture_id (pos 0)
    then (negsuc 0, u)
    else unwrap_next 32768 16384 u (emod picture_id 32768)

-- `tl0PicIdxUnwrapper.Unwrap`, of an int16
unfoldable pub unwrap_tl0_pic_idx : WrapUnwrapper → ℤ → ℤ × WrapUnwrapper
unwrap_tl0_pic_idx u tl0_pic_idx =
    if ltb_ℤ tl0_pic_idx (pos 0)
    then (negsuc 0, u)
    else unwrap_next 256 128 u (emod tl0_pic_idx 256)

-- the three of them
pub data Counter : Type 0 where
  sequence : Counter
  picture_id : Counter
  tl0_pic_idx : Counter

abbrev pub half_range : Counter → ℕ
half_range sequence = 32768
half_range picture_id = 16384
half_range tl0_pic_idx = 128

-- what the header carries of a number
abbrev pub wire : Counter → ℤ → ℕ
wire sequence x = emod x 65536
wire picture_id x = emod x 32768
wire tl0_pic_idx x = emod x 256

abbrev pub unwrap_as : Counter → WrapUnwrapper → ℕ → ℤ × WrapUnwrapper
unwrap_as sequence u i = unwrap_sequence u i
unwrap_as picture_id u i = unwrap_picture_id u (pos i)
unwrap_as tl0_pic_idx u i = unwrap_tl0_pic_idx u (pos i)

-- the numbers that a run of calls returns
unfoldable pub unwrap_run : Counter → WrapUnwrapper → List ℕ → List ℤ
unwrap_run c u [] = []
unwrap_run c u (i ∷ is) = let (n, u') = unwrap_as c u i in n ∷ unwrap_run c u' is
